-- ===== src/Status/Client/Wire.antt =====
-- pkg/status/client.go: the client, its requests, and what it uses of Go's standard library.
use external_dns_openwrt_nex.Prelude.{ℕ, List, [], ◌∷◌, ◌++◌, Option, eqb, if◌then◌else◌}
use external_dns_openwrt_nex.Strings.{Str, codes}
use external_dns_openwrt_nex.Exec.{Exec, Result}
use external_dns_openwrt_nex.Status.Names.{Digest, owner_value}
use external_dns_openwrt_nex.Status.Syncer.{Object}

abbrev pub group : Str
group = codes "external-dns-openwrt.vizzletf.github.io"

abbrev pub api_version : Str
api_version = group ++ codes "/v1alpha1"

abbrev pub managed_by_label : Str
managed_by_label = codes "app.kubernetes.io/managed-by"

abbrev pub managed_by : Str
managed_by = codes "external-dns-openwrt"

abbrev pub owner_label : Str
owner_label = group ++ codes "/owner"

abbrev pub service_account_dir : Str
service_account_dir = codes "/var/run/secrets/kubernetes.io/serviceaccount"

-- An object as the API server stores it.
pub record ApiObject : Type 0 where
  pub api_version : Str
  pub kind : Str
  pub namespace : Str
  pub labels : List (Str × Str)
  pub object : Object

pub record KubeClient : Type 0 where
  pub base : Str
  pub namespace : Str
  pub owner : Str
  pub token_file : Str

pub data Method : Type 0 where
  get patch delete : Method

pub record ApiRequest : Type 0 where
  pub method : Method
  pub uri : Str
  pub authorization : Str
  pub accept : Str
  pub content_type : Str
  pub body : Str

pub record ApiResponse : Type 0 where
  pub status_code : ℕ
  pub raw : Str

-- What the client uses of os, crypto/x509, net/http, net/url and encoding/json. `load_ca`
-- reads the file of the cluster's certificates into a pool. `exchange` makes the request, sends
-- it and reads the answer up to 4 MB, and fails with the first error of these.
pub record Platform (W X : Type 0) : Type 0 where
  pub getenv : Str → Str
  pub read_file : Str → Exec W X Str
  pub load_ca : Str → Exec W X (Unit {0})
  pub exchange : ApiRequest → Exec W X ApiResponse
  pub join_host_port : Str → Str → Str
  pub path_escape : Str → Str
  pub encode_query : List (Str × Str) → Str
  pub marshal : ApiObject → Result X Str
  pub unmarshal_items : Str → Result X (List ApiObject)
  pub unmarshal_message : Str → Option Str

-- `plain`: an error of another package, with what it says; `not_in_cluster`: InCluster's own.
pub data ApiError (X : Type 0) : Type 0 where
  not_in_cluster : ApiError X
  plain : X → ApiError X
  status_error : ℕ → Str → ApiError X

-- `strings.TrimSuffix(s, "/")`.
unfoldable pub trim_slash : Str → Str
trim_slash [] = []
trim_slash (c ∷ []) = if eqb c b'/' then [] else c ∷ []
trim_slash (c ∷ d ∷ s) = c ∷ trim_slash (d ∷ s)

unfoldable pub new_client : ⦃d : Digest⦄ → Str → Str → Str → Str → KubeClient
unfolding trim_slash owner_value
new_client base namespace ownership_id token_file = record {
  base = trim_slash base;
  namespace = namespace;
  owner = owner_value ownership_id;
  token_file = token_file;
}
