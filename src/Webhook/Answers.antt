-- ===== src/Webhook/Answers.antt =====
-- pkg/webhook/webhook.go: what each handler answers, and when.
use external_dns_openwrt_nex.Exec.{Result-cases, Result, ok, err}
use external_dns_openwrt_nex.Prelude.{
  All-mem, ℕ, Bool, true, List, [], ◌∷◌, none, some, ◌≡◌, refl, arith, inl, inr, ◌↔◌, ◌≢◌, eqb, any,
  All, Option-cases, ◌≤◌, ◌<◌,
}
use mathlib.Core.List.{Memᴰ}
use external_dns_openwrt_nex.Strings.{Str}
use external_dns_openwrt_nex.Strings.Laws.{eq_iff}
use external_dns_openwrt_nex.Metrics.{Float64}
use external_dns_openwrt_nex.Provider.Endpoints.{Changes}
use external_dns_openwrt_nex.Webhook.Http.{
  HttpRequest, Response, media_type, no_content, require_media_type, header_content_type, too_large,
  malformed,
}
use external_dns_openwrt_nex.Webhook.{
  Webhook, Server, Handler, negotiate, serve_records, serve_apply_changes, serve_adjust_endpoints,
  routes, ApplyError, failed, panicked, answer_apply,
}

-- A refusal of the request itself.
abbrev pub IsClientError : ℕ → Type 0
IsClientError n = (400 ≤ n) × (n < 500)

-- The statuses that the handlers know.
abbrev pub statuses : List ℕ
statuses = 200 ∷ 204 ∷ 400 ∷ 406 ∷ 413 ∷ 415 ∷ 500 ∷ []

abbrev pub is_status : ℕ → Bool
is_status n = any (λ m. eqb m n) statuses

module _ {B : Type 0} where
  require-status :
      (req : HttpRequest B) (header : Str) (r : Response)
      → require_media_type req header ≡ some r
      → (is_status r.status ≡ true) × (r.status ≢ 204)
  unfolding require_media_type
  require-status req header r e = ground arith

  pub require-none :
      (req : HttpRequest B) (header : Str)
      → (require_media_type req header ≡ none) ↔ (req.header header ≡ media_type)
  unfolding require_media_type
  require-none req header = ground (arith, eq_iff (req.header header) media_type)

module _ {S E B F : Type 0} ⦃f : Float64 F⦄ (w : Webhook S E B) where
  answer_apply-no_content :
      (now : F) (o : Result (ApplyError E) (Unit {0})) (s : Server S F)
      → (answer_apply w now o s).0 ≡ some no_content
      → o ≡ ok tt
  answer_apply-no_content now (ok tt) s h = refl
  answer_apply-no_content now (err (failed e)) s h = cc
  answer_apply-no_content now (err panicked) s h = cc

  -- A change set is answered with 204 exactly if the request has the media type, its body decodes,
  -- and the provider applied the changes.
  pub apply_changes-no_content_iff :
      (now : F) (req : HttpRequest B) (s : Server S F)
      → ((serve_apply_changes w now req s).0 ≡ some no_content) ↔ (
          (req.header header_content_type ≡ media_type)
          × ((changes : Changes) × (w.json.decode_changes w.max_body_bytes req.body ≡ ok changes)
              × ((w.provider.apply_changes changes s.world).0 ≡ ok tt)))
  unfolding serve_apply_changes
  apply_changes-no_content_iff now req s = (
    λ h. elim (Option-cases (require_media_type req header_content_type)) [
      | inr (r, e) ↦
          let refused : some r ≡ some no_content = rw (e, serve_apply_changes) at h in
          absurd ((require-status req header_content_type r e).1 (ground (arith, refused)))
      | inl e ↦ elim (Result-cases (w.json.decode_changes w.max_body_bytes req.body)) [
        | inr (too_large, d) ↦ cc (rw (e, d, serve_apply_changes) at h)
        | inr (malformed, d) ↦ cc (rw (e, d, serve_apply_changes) at h)
        | inl (changes, d) ↦ (
          (require-none req header_content_type).0 e,
          (
            changes,
            d,
            answer_apply-no_content now (w.provider.apply_changes changes s.world).0 _
                (rw (e, d, serve_apply_changes) at h),
          ),
        )
      ]
    ],
    λ (e, (changes, d, a)).
        rw ((require-none req header_content_type).1 e, d, serve_apply_changes) (rw a refl),
  )

  -- The handler changes nothing when it refuses.
  abbrev RefusesFree : Handler S F B → Type 0
  RefusesFree handler =
      (req : HttpRequest B) (s : Server S F) (r : Response)
      → (handler req s).0 ≡ some r
      → IsClientError r.status
      → (handler req s).1 ≡ s

  negotiate-RefusesFree : RefusesFree (negotiate w)
  unfolding negotiate
  negotiate-RefusesFree req s r e c = ground arith

  records-RefusesFree : RefusesFree (serve_records w)
  unfolding serve_records
  records-RefusesFree req s r e c = ground arith

  apply_changes-RefusesFree : (now : F) → RefusesFree (serve_apply_changes w now)
  unfolding serve_apply_changes
  apply_changes-RefusesFree now req s r e c = ground arith

  adjust_endpoints-RefusesFree : RefusesFree (serve_adjust_endpoints w)
  unfolding serve_adjust_endpoints
  adjust_endpoints-RefusesFree req s r e c = ground arith

  -- A request that a handler refuses with a status from 400 to 499 has changed nothing: neither the
  -- provider's world, which the handler has not called, nor a metric.
  pub refused-unchanged :
      (now : F) (pattern : Str) (handler : Handler S F B) (req : HttpRequest B) (s : Server S F)
      (r : Response)
      → Memᴰ (pattern, handler) (routes w now)
      → (handler req s).0 ≡ some r
      → IsClientError r.status
      → (handler req s).1 ≡ s
  unfolding routes
  refused-unchanged now pattern handler req s r m e c =
      let all : All (λ (p : Str × Handler S F B). RefusesFree p.1) (routes w now) = (
        negotiate-RefusesFree,
        (records-RefusesFree, (apply_changes-RefusesFree now, (adjust_endpoints-RefusesFree, tt))),
      ) in
      All-mem (λ (p : Str × Handler S F B). RefusesFree p.1) (routes w now) all (pattern, handler) m
        req s r e c
