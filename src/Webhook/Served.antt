-- ===== src/Webhook/Served.antt =====
-- cmd/webhook/main.go, where the webhook is made over the provider: a change set from its request to
-- the router.
use external_dns_openwrt_nex.Prelude.{
  Bool, true, Option, none, false, List, map, some, ◌≡◌, refl, ap, ◌∙◌, ◌↔◌,
}
use external_dns_openwrt_nex.Strings.{CaseTable, codes}
use external_dns_openwrt_nex.Exec.{Result, ok, err, failing, relabel}
use external_dns_openwrt_nex.Metrics.{Float64}
use external_dns_openwrt_nex.Ubus.Errors.{Error}
use external_dns_openwrt_nex.OpenWrt.Sections.{OpenWrt}
use external_dns_openwrt_nex.OpenWrt.Apply.{Fault, Skip}
use external_dns_openwrt_nex.Provider.Endpoints.{Changes}
use external_dns_openwrt_nex.Provider.Runs.{
  Run, Failure, refused, apply_changes, adjust_endpoints, records,
}
use external_dns_openwrt_nex.Provider.Runs.Answers.{pass, stops, result_of, apply_changes-pass}
use external_dns_openwrt_nex.Webhook.Http.{
  HttpRequest, Response, rejection, media_type, no_content, header_content_type,
}
use external_dns_openwrt_nex.Webhook.{
  Provider, Webhook, Server, ApplyError, failed, serve_apply_changes, answer_apply, apply_decoded,
  count_planned,
}
use external_dns_openwrt_nex.Webhook.Answers.{require-none}

-- What stops a call of the provider.
pub data Trouble : Type 0 where
  reading : Error → Trouble
  changing : Fault → Trouble

abbrev pub trouble : Failure → ApplyError Trouble
trouble (refused e) = failed (changing e)
trouble (Failure.panicked p) = ApplyError.panicked

module _ ⦃u : CaseTable⦄ {S : Type 0} (o : OpenWrt S) where
  -- The provider of internal/provider, as the interface of the webhook.
  unfoldable pub provider_of : Provider (Run S) Trouble
  unfolding apply_changes adjust_endpoints records
  provider_of = record {
    records = failing reading (records o);
    apply_changes = λ changes. failing trouble (apply_changes o changes);
    adjust_endpoints =
        λ endpoints s. let (adjusted, s') = adjust_endpoints endpoints s in (map some adjusted, s');
  }

world-answer_apply :
    {S E B F : Type 0} ⦃f : Float64 F⦄ (w : Webhook S E B) (now : F)
    (r : Result (ApplyError E) (Unit {0})) (s : Server S F)
    → (answer_apply w now r s).1.world ≡ s.world
world-answer_apply w now (ok tt) s = refl
world-answer_apply w now (err (failed e)) s = refl
world-answer_apply w now (err ApplyError.panicked) s = refl

-- How a change set is answered, by whether its observation stopped and by the outcome of its pass.
pub record IsAnswered (answered : Option Response) (stopped : Bool)
    (outcome : Result Fault (List Skip)) : Type 0 where
  pub accepted :
      (answered ≡ some no_content)
      ↔ ((stopped ≡ false) × (skipped : List Skip) × (outcome ≡ ok skipped))
  pub refused_with_500 :
      (answered ≡ some (rejection 500 (codes "error applying changes")))
      ↔ ((stopped ≡ false) × (e : Fault) × (outcome ≡ err e))
  pub unanswered : (answered ≡ none) ↔ (stopped ≡ true)

answer_apply-IsAnswered :
    {S B F : Type 0} ⦃f : Float64 F⦄ (w : Webhook S Trouble B) (now : F) (stopped : Bool)
    (outcome : Result Fault (List Skip)) (s : Server S F)
    → IsAnswered
        (answer_apply w now (relabel trouble (result_of stopped outcome)) s).0
        stopped
        outcome
answer_apply-IsAnswered w now true outcome s = record {
  accepted = (λ h. cc, λ h. cc (h.0));
  refused_with_500 = (λ h. cc, λ h. cc (h.0));
  unanswered = (λ h. refl, λ h. refl);
}
answer_apply-IsAnswered w now false (ok skipped) s = record {
  accepted = (λ h. (refl, skipped, refl), λ h. refl);
  refused_with_500 = (λ h. cc, λ (calm, e, h). cc);
  unanswered = (λ h. cc, λ h. cc);
}
answer_apply-IsAnswered w now false (err e) s = record {
  accepted = (λ h. cc, λ (calm, skipped, h). cc);
  refused_with_500 = (λ h. (refl, e, refl), λ h. refl);
  unanswered = (λ h. cc, λ h. cc);
}

serve-decoded :
    {S E B F : Type 0} ⦃f : Float64 F⦄ (w : Webhook S E B) (now : F) (req : HttpRequest B)
    (s : Server S F) (changes : Changes)
    → req.header header_content_type ≡ media_type
    → w.json.decode_changes w.max_body_bytes req.body ≡ ok changes
    → serve_apply_changes w now req s ≡ apply_decoded w now changes s
unfolding serve_apply_changes
serve-decoded w now req s changes typed decoded =
    rw ((require-none req header_content_type).1 typed, decoded, serve_apply_changes) refl

module _ ⦃u : CaseTable⦄ {S B F : Type 0} ⦃f : Float64 F⦄ (o : OpenWrt S) where
  -- A change set that reaches the webhook over this provider, with the mirror on or off. Where the
  -- mirror is on and its observation of the pass stops at a nil element, the connection is closed
  -- without an answer, and only there. Else it is answered with 204 exactly if its pass over the
  -- router succeeded, and with 500 exactly if the pass failed. In each case the router is left as the
  -- pass left it. Conditions: the request has the media type, and its body decodes.
  pub served-pass :
      (w : Webhook (Run S) Trouble B) (now : F) (req : HttpRequest B) (s : Server (Run S) F)
      (changes : Changes)
      → w.provider ≡ provider_of o
      → req.header header_content_type ≡ media_type
      → w.json.decode_changes w.max_body_bytes req.body ≡ ok changes
      → let outcome = (pass o changes s.world.world).0 in
        IsAnswered
          (serve_apply_changes w now req s).0
          (stops s.world.status changes outcome)
          outcome
        × ((serve_apply_changes w now req s).1.world.world ≡ (pass o changes s.world.world).1)
  unfolding provider_of
  served-pass w now req s changes ours typed decoded =
      let (answered, left) = apply_changes-pass o changes s.world in
      let outcome = (pass o changes s.world.world).0 in
      let stopped = stops s.world.status changes outcome in
      let behind : Server (Run S) F = record {
        world = (apply_changes o changes s.world).1;
        registry = count_planned w changes s.registry;
      } in
      let served : serve_apply_changes w now req s
          ≡ answer_apply w now (relabel trouble (result_of stopped outcome)) behind =
        serve-decoded w now req s changes typed decoded ∙ rw (ours, answered) refl in
      rw served (
        answer_apply-IsAnswered w now stopped outcome behind,
        ap (λ x. x.world)
              (world-answer_apply w now (relabel trouble (result_of stopped outcome)) behind)
            ∙ left,
      )
