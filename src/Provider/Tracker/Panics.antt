-- ===== src/Provider/Tracker/Panics.antt =====
-- internal/provider/status.go, `observeApply`: where it reads a nil pointer.
use external_dns_openwrt_nex.Prelude.{
  Bool, true, ◌&&◌, ◌||◌, List, ◌++◌, none, some, ◌≡◌, ap, arith, if◌then◌else◌, ◌↔◌,
}
use external_dns_openwrt_nex.Strings.{CaseTable}
use external_dns_openwrt_nex.Exec.{Result, ok, err}
use external_dns_openwrt_nex.OpenWrt.Apply.{Fault, Skip}
use external_dns_openwrt_nex.Provider.Endpoints.{record_key, Pointers, Changes}
use external_dns_openwrt_nex.Provider.Tracker.{Tracker, nil_pointer}
use external_dns_openwrt_nex.Provider.Tracker.Observe.{
  mark_wanted, mark_conflicts, forget_old, observe_apply, observe_success, renew_actual,
}
use external_dns_openwrt_nex.Provider.Tracker.Learns.{
  has_nil, is_known, mark_wanted-result, mark_wanted-seen, forget_old-result, hold_wanted-result,
}

abbrev pub wanted : Changes → Pointers
wanted changes = changes.create ++ changes.update_new

abbrev pub withdrawn : Changes → Pointers
withdrawn changes = changes.delete ++ changes.update_old

-- Whether the pass stops at a nil element.
unfoldable pub panics : Changes → Result Fault (List Skip) → Tracker → Bool
panics changes (err e) t = has_nil (wanted changes)
panics changes (ok skipped) t =
    has_nil (wanted changes) || is_known t.actual && has_nil (withdrawn changes)

module _ ⦃u : CaseTable⦄ where
  -- The tracker between the two halves of a change set that passed.
  abbrev pub between : Changes → List Skip → Tracker → Tracker
  between changes skipped t =
      let t' = (mark_wanted none (wanted changes) t).1 in
      record t' { conflicts = mark_conflicts skipped t'.conflicts }

  renew_actual-result :
      (changes : Changes) (t : Tracker)
      → (renew_actual changes t).0 ≡ (
          if is_known t.actual && (has_nil (withdrawn changes) || has_nil (wanted changes))
          then err nil_pointer
          else ok tt)
  unfolding renew_actual
  renew_actual-result changes t = ground (
    arith,
    forget_old-result (withdrawn changes) t,
    hold_wanted-result (wanted changes) (forget_old (withdrawn changes) t).1,
  )

  -- The pass stops at a nil element exactly as `panics` says.
  pub observe_apply-panics_iff :
      (changes : Changes) (outcome : Result Fault (List Skip)) (t : Tracker)
      → ((observe_apply changes outcome t).0 ≡ err nil_pointer) ↔ (panics changes outcome t ≡ true)
  unfolding observe_apply panics observe_success
  observe_apply-panics_iff changes (err e) t =
      ground (arith, mark_wanted-result (some e) (wanted changes) t)
  observe_apply-panics_iff changes (ok skipped) t =
      let known = ap (λ p. is_known p.0) (mark_wanted-seen none (wanted changes) t) in
      ground (
        arith,
        known,
        mark_wanted-result none (wanted changes) t,
        renew_actual-result changes (between changes skipped t),
      )
