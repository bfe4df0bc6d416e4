-- ===== src/Status/Client/Requests.antt =====
-- pkg/status/client.go: where the client sends its requests, and when a removal succeeds.
use external_dns_openwrt_nex.Status.Client.Wire.{
  delete, KubeClient, ApiRequest, ApiResponse, status_error, Platform,
}
use external_dns_openwrt_nex.Status.Client.{
  call, collection, object_uri, remove, gone, read_answer, refusal,
}
use external_dns_openwrt_nex.Strings.{Str, codes, trim_space}
use external_dns_openwrt_nex.Prelude.{
  ℕ, true, ◌||◌, List, [], ◌∷◌, ◌++◌, ◌≡◌, refl, sym, ap, ◌∙◌, subst, arith, inl, inr, ◌⊎◌, ◌↔◌,
  ltb, eqb, Bool-cases, Option-cases, ◌≤◌,
}
use external_dns_openwrt_nex.Exec.{ok, err, Result-cases}

module _ {W X : Type 0} (os : Platform W X) (c : KubeClient) where
  -- A request below the collection of the client's namespace, with a token.
  abbrev pub IsOurs : Str → ApiRequest → Type 0
  IsOurs token r =
      ((rest : Str) × (r.uri ≡ collection os c ++ rest))
      × (r.authorization ≡ codes "Bearer " ++ trim_space token)

  -- What is kept when the token's file is read, and when it is sent with a request of the client.
  pub record IsKept (P : W → Type 0) : Type 0 where
    pub by_read : (w : W) → P w → P (os.read_file c.token_file w).1
    pub by_exchange :
        (token : Str) (r : ApiRequest) (w : W)
        → (os.read_file c.token_file w).0 ≡ ok token
        → IsOurs token r
        → P (os.read_file c.token_file w).1
        → P (os.exchange r (os.read_file c.token_file w).1).1

  abbrev IsBelow : Str → Type 0
  IsBelow uri = (rest : Str) × (uri ≡ collection os c ++ rest)

  -- The request of a removal.
  abbrev pub deletion : Str → Str → ApiRequest
  deletion name token = record {
    method = delete;
    uri = object_uri os c name;
    authorization = codes "Bearer " ++ trim_space token;
    accept = codes "application/json";
    content_type = [];
    body = [];
  }

  refusal-status_error :
      (resp : ApiResponse)
      → (message : Str) × (refusal os resp ≡ status_error resp.status_code message)
  unfolding refusal
  refusal-status_error resp = elim (Option-cases (os.unmarshal_message resp.raw)) [
    | inl none_there ↦ (trim_space resp.raw, rw (none_there, refusal) refl)
    | inr ([], e) ↦ (trim_space resp.raw, rw (e, refusal) refl)
    | inr (k ∷ message, e) ↦ (k ∷ message, rw (e, refusal) refl)
  ]

  abbrev pub IsGone : ℕ → Type 0
  IsGone code = ((200 ≤ code) × (code ≤ 299)) ⊎ (code ≡ 404)

  gone-status_error :
      (code : ℕ) (message : Str)
      → (ltb code 200 || ltb 299 code) ≡ true
      → (gone os c (err (status_error code message)) ≡ ok tt) ↔ IsGone code
  gone-status_error code message refused = elim (Bool-cases (eqb code 404)) [
    | inl missing ↦ rw missing (λ h. inr (ground (arith, missing)), λ h. refl)
    | inr other ↦ rw other (λ h. cc, λ h. ground (arith, h, refused, other))
  ]

  gone-answer :
      (resp : ApiResponse) → (gone os c (read_answer os resp) ≡ ok tt) ↔ IsGone resp.status_code
  unfolding read_answer
  gone-answer resp =
      let (message, e) = refusal-status_error resp in
      elim (Bool-cases (ltb resp.status_code 200 || ltb 299 resp.status_code)) [
        | inr success ↦ rw (success, read_answer) (λ h. ground (arith, success), λ h. refl)
        | inl refused ↦
            rw (refused, read_answer, e) (gone-status_error resp.status_code message refused)
      ]

  -- One token, one answer.
  same_answer :
      (name : Str) (w : W) (token token' : Str)
      → (os.read_file c.token_file w).0 ≡ ok token
      → (os.read_file c.token_file w).0 ≡ ok token'
      → (os.exchange (deletion name token) (os.read_file c.token_file w).1).0
        ≡ (os.exchange (deletion name token') (os.read_file c.token_file w).1).0
  same_answer name w token token' read read' =
      ap (λ t. (os.exchange (deletion name t) (os.read_file c.token_file w).1).0) (cc (read, read'))

  -- A removal succeeds exactly if the token can be read, the API server answers, and with a success or
  -- that there is no such object.
  pub remove-ok_iff :
      (name : Str) (w : W)
      → ((remove os c name w).0 ≡ ok tt) ↔ (
          (token : Str) × (resp : ApiResponse) × ((os.read_file c.token_file w).0 ≡ ok token)
          × ((os.exchange (deletion name token) (os.read_file c.token_file w).1).0 ≡ ok resp)
          × IsGone resp.status_code)
  unfolding remove call
  remove-ok_iff name w = elim (Result-cases (os.read_file c.token_file w).0) [
    | inr (x, failed) ↦
        (λ h. cc (rw (failed, remove, call) at h), λ (token, resp, read, k, s). cc (read, failed))
    | inl (token, read) ↦
        elim (Result-cases (os.exchange (deletion name token) (os.read_file c.token_file w).1).0) [
          | inr (x, failed) ↦ (
            λ h. cc (rw (read, failed, remove, call) at h),
            λ (token', resp, read', got, s).
                cc (failed, got, same_answer name w token token' read read'),
          )
          | inl (resp, got) ↦
              let run : (remove os c name w).0 ≡ gone os c (read_answer os resp) =
                rw (read, got, remove, call) refl in
              (
                λ h. (token, resp, read, got, (gone-answer resp).0 (sym run ∙ h)),
                λ (token', resp', read', got', s).
                    let same : resp' ≡ resp =
                      cc (got, got', same_answer name w token token' read read') in
                    run ∙ (gone-answer resp).1 (subst (λ x. IsGone x.status_code) same s),
              )
        ]
  ]
