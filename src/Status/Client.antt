-- ===== src/Status/Client.antt =====
-- pkg/status/client.go: the calls of the Kubernetes API behind the syncer.
pub mod Wire
pub mod Requests
mod Examples
use external_dns_openwrt_nex.Prelude.{
  ℕ, zero, suc, ◌+◌, Bool, true, false, not, ◌&&◌, ◌||◌, List, [], ◌∷◌, ◌++◌, map, Option, none,
  some, ◌≡◌, refl, sym, ap, ◌∙◌, subst, arith, inl, inr, ◌⊎◌, ◌↔◌, ◌≢◌, ltb, leb, eqb,
  if◌then◌else◌, length, any, keep, is_empty, All, Bool-cases, Option-cases, ◌≤◌, ◌<◌,
}
use external_dns_openwrt_nex.Strings.{Str, codes, trim_space, ◌==◌}
use external_dns_openwrt_nex.Exec.{Exec, Result, ok, err, continue}
use external_dns_openwrt_nex.Status.Names.{Digest, owner_value}
use external_dns_openwrt_nex.Status.Syncer.{Record, Object, StatusClient}
use external_dns_openwrt_nex.Status.Client.Wire.{
  group, api_version, managed_by_label, managed_by, owner_label, service_account_dir, ApiObject,
  KubeClient, Method, ApiRequest, ApiResponse, Platform, ApiError, trim_slash, new_client, get,
  patch, delete, not_in_cluster, plain, status_error,
}

module _ {W X : Type 0} (os : Platform W X) where
  abbrev pub from_platform : {A : Type 0} → Result X A → Result (ApiError X) A
  from_platform (ok a) = ok a
  from_platform (err x) = err (plain x)

  -- The message of a refusal: that of a Status object, or the body.
  unfoldable pub refusal : ApiResponse → ApiError X
  refusal resp = elim (os.unmarshal_message resp.raw) [
    | some (c ∷ message) ↦ status_error resp.status_code (c ∷ message)
    | some [] ↦ status_error resp.status_code (trim_space resp.raw)
    | none ↦ status_error resp.status_code (trim_space resp.raw)
  ]

  unfoldable pub read_answer : ApiResponse → Result (ApiError X) Str
  unfolding refusal
  read_answer resp =
      if ltb resp.status_code 200 || ltb 299 resp.status_code
      then err (refusal resp)
      else ok resp.raw

  abbrev pub answered : Result X ApiResponse → Result (ApiError X) Str
  answered (err x) = err (plain x)
  answered (ok resp) = read_answer resp

  module _ (c : KubeClient) where
    unfoldable pub collection : Str
    collection =
        c.base
        ++ codes "/apis/"
        ++ api_version
        ++ codes "/namespaces/"
        ++ os.path_escape c.namespace
        ++ codes "/openwrtrecords"

    abbrev pub labels_of : List (Str × Str)
    labels_of = (managed_by_label, managed_by) ∷ (owner_label, c.owner) ∷ []

    abbrev pub send_with : Method → Str → Str → Str → Result X Str → Exec W (ApiError X) Str
    send_with method uri content_type body (err x) w = (err (plain x), w)
    send_with method uri content_type body (ok token) w =
        let (r, w') =
          os.exchange
            (record {
              method = method;
              uri = uri;
              authorization = codes "Bearer " ++ trim_space token;
              accept = codes "application/json";
              content_type = content_type;
              body = body;
            })
            w in
        (answered r, w')

    -- `do`, whose answer the caller decodes.
    unfoldable pub call : Method → Str → Str → Str → Exec W (ApiError X) Str
    unfolding read_answer
    call method uri content_type body w =
        let (token, w') = os.read_file c.token_file w in
        send_with method uri content_type body token w'

    abbrev pub decoded :
        {A : Type 0} → (Str → Result X A) → Result (ApiError X) Str → Result (ApiError X) A
    decoded unmarshal (err e) = err e
    decoded unmarshal (ok raw) = from_platform (unmarshal raw)

    unfoldable pub object_uri : Str → Str
    unfolding collection
    object_uri name = collection ++ codes "/" ++ os.path_escape name

    abbrev pub list_uri : Str
    list_uri =
        collection
        ++ codes "?"
        ++ os.encode_query (
            (
              codes "labelSelector",
              managed_by_label
                  ++ codes "="
                  ++ managed_by
                  ++ codes ","
                  ++ owner_label
                  ++ codes "="
                  ++ c.owner,
            )
            ∷ [])

    unfoldable pub list : Exec W (ApiError X) (List ApiObject)
    unfolding call collection
    list w = let (r, w') = call get list_uri [] [] w in (decoded os.unmarshal_items r, w')

    abbrev pub done : Result (ApiError X) Str → Result (ApiError X) (Unit {0})
    done (ok raw) = ok tt
    done (err e) = err e

    abbrev pub apply_uri : Str → Str
    apply_uri name =
        object_uri name
        ++ codes "?"
        ++ os.encode_query (
            (codes "fieldManager", codes "external-dns-openwrt")
            ∷ (codes "force", codes "true")
            ∷ [])

    abbrev pub apply_body : Str → Result X Str → Exec W (ApiError X) (Unit {0})
    apply_body name (err x) w = (err (plain x), w)
    apply_body name (ok body) w =
        let (r, w') = call patch (apply_uri name) (codes "application/apply-patch+yaml") body w in
        (done r, w')

    -- The object with the fields that every object of this client has.
    abbrev pub labelled : Object → ApiObject
    labelled o = record {
      api_version = api_version;
      kind = codes "OpenWrtRecord";
      namespace = c.namespace;
      labels = labels_of;
      object = o;
    }

    unfoldable pub apply : Object → Exec W (ApiError X) (Unit {0})
    unfolding call object_uri
    apply o w = apply_body o.name (os.marshal (labelled o)) w

    -- An object that is already gone is removed.
    abbrev pub gone : Result (ApiError X) Str → Result (ApiError X) (Unit {0})
    gone (ok raw) = ok tt
    gone (err not_in_cluster) = err not_in_cluster
    gone (err (plain x)) = err (plain x)
    gone (err (status_error code message)) =
        if eqb code 404 then ok tt else err (status_error code message)

    unfoldable pub remove : Str → Exec W (ApiError X) (Unit {0})
    unfolding call object_uri
    remove name w = let (r, w') = call delete (object_uri name) [] [] w in (gone r, w')

    abbrev pub objects_of : Result (ApiError X) (List ApiObject) → Result (ApiError X) (List Object)
    objects_of (ok items) = ok (map (λ a. a.object) items)
    objects_of (err e) = err e

    -- The client as the syncer uses it.
    unfoldable pub status_client : StatusClient W (ApiError X)
    unfolding list apply remove
    status_client = record {
      list = λ w. let (r, w') = list w in (objects_of r, w');
      apply = apply;
      remove = remove;
    }

  -- `New`: the client, once the certificates are loaded.
  unfoldable pub new : ⦃d : Digest⦄ → Str → Str → Str → Str → Str → Exec W (ApiError X) KubeClient
  unfolding new_client
  new base ca_file token_file namespace ownership_id w =
      let (r, w') = os.load_ca ca_file w in
      (
        elim r [
          | err x ↦ err (plain x)
          | ok _ ↦ ok (new_client base namespace ownership_id token_file)
        ],
        w',
      )

  abbrev pub in_namespace : ⦃d : Digest⦄ → Str → Str → Result X Str → Exec W (ApiError X) KubeClient
  in_namespace host_port ownership_id (err x) w = (err (plain x), w)
  in_namespace host_port ownership_id (ok namespace) w =
      new (codes "https://" ++ host_port) (service_account_dir ++ codes "/ca.crt")
        (service_account_dir ++ codes "/token") namespace ownership_id w

  abbrev pub trimmed : Result X Str → Result X Str
  trimmed (ok raw) = ok (trim_space raw)
  trimmed (err x) = err x

  unfoldable pub in_cluster : ⦃d : Digest⦄ → Str → Str → Exec W (ApiError X) KubeClient
  unfolding new
  in_cluster namespace ownership_id w =
      let host = os.getenv (codes "KUBERNETES_SERVICE_HOST") in
      let port = os.getenv (codes "KUBERNETES_SERVICE_PORT") in
      let host_port = os.join_host_port host port in
      let (own, w') = os.read_file (service_account_dir ++ codes "/namespace") w in
      let in_own = in_namespace host_port ownership_id (trimmed own) w' in
      let in_given = in_namespace host_port ownership_id (ok namespace) w in
      if is_empty host || is_empty port
      then (err not_in_cluster, w)
      else if is_empty namespace
      then in_own
      else in_given
