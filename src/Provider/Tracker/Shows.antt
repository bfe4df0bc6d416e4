-- ===== src/Provider/Tracker/Shows.antt =====
-- internal/provider/status.go: what the mirror shows of a record after a change set.
use external_dns_openwrt_nex.Prelude.{
  true, false, List, none, some, ◌≡◌, refl, ap, ◌∙◌, arith, if◌then◌else◌, any,
}
use mathlib.Core.List.{Memᴰ}
use external_dns_openwrt_nex.Strings.{Str, CaseTable}
use external_dns_openwrt_nex.GoMap.{GoMap, lookup}
use external_dns_openwrt_nex.Exec.{ok, err}
use external_dns_openwrt_nex.Sorting.{sorted}
use external_dns_openwrt_nex.OpenWrt.Apply.{Fault, Skip}
use external_dns_openwrt_nex.Provider.Endpoints.{record_key, Endpoint, Changes}
use external_dns_openwrt_nex.Provider.Tracker.{
  Tracker, entry, shown, row, ready, failed, no_cause, apply_failed, judge_desired, unsettled,
}
use external_dns_openwrt_nex.Provider.Tracker.Observe.{
  key_at, mark_wanted, forget_old, hold_wanted, observe_apply, observe_success, renew_actual,
}
use external_dns_openwrt_nex.Provider.Tracker.Learns.{
  has_nil, is_known, mark_wanted-result, mark_wanted-seen, mark_wanted-conflicts,
  mark_wanted-failures, forget_old-result, forget_old-kept, forget_old-is_known, hold_wanted-kept,
  hold_wanted-entry,
}
use external_dns_openwrt_nex.Provider.Tracker.Panics.{wanted, withdrawn, panics, between}
use external_dns_openwrt_nex.Provider.Tracker.Shown.{
  holds_targets, skip_at, mark_conflicts-other, has_key-mem, shown-ready,
}

module _ ⦃u : CaseTable⦄ where
  -- The state after a change set that failed.
  observe_apply-failed_state :
      (changes : Changes) (e : Fault) (t : Tracker)
      → has_nil (wanted changes) ≡ false
      → (observe_apply changes (err e) t).1 ≡ (mark_wanted (some e) (wanted changes) t).1
  unfolding observe_apply
  observe_apply-failed_state changes e t h =
      rw (mark_wanted-result (some e) (wanted changes) t, h) refl

  -- A record of a change set that failed is shown as failed with its error, unless the router holds
  -- the targets that ExternalDNS asks for, when it is shown as ready. Conditions: the change set
  -- has no nil element among its creates and new updates, and the record is asked for, not rejected.
  pub observe_apply-failed :
      (changes : Changes) (e : Fault) (t : Tracker) (ep : Endpoint) (want : List Str)
      → has_nil (wanted changes) ≡ false
      → Memᴰ (some ep) (wanted changes)
      → lookup (key_at ep) t.rejected ≡ none
      → entry (key_at ep) t.desired ≡ some want
      → shown (observe_apply changes (err e) t).1 (key_at ep) ≡ (
          if holds_targets t (key_at ep) want
          then some (row (key_at ep) want ready no_cause)
          else some (row (key_at ep) want failed (apply_failed e)))
  unfolding shown judge_desired unsettled
  observe_apply-failed changes e t ep want h m r d =
      let t' = (mark_wanted (some e) (wanted changes) t).1 in
      let k = key_at ep in
      let same = mark_wanted-seen (some e) (wanted changes) t in
      let has = has_key-mem ep (wanted changes) m in
      let r' : lookup k t'.rejected ≡ none = ap (λ p. lookup k p.1.1) same ∙ r in
      let d' : entry k t'.desired ≡ some want = ap (λ p. entry k p.1.0) same ∙ d in
      let a' : entry k t'.actual ≡ entry k t.actual = ap (λ p. entry k p.0) same in
      rw (observe_apply-failed_state changes e t h) (
        ground (
          arith,
          r',
          d',
          a',
          has,
          mark_wanted-conflicts (some e) (wanted changes) t k h,
          mark_wanted-failures (some e) (wanted changes) t k h,
        ))

  renew_actual-state :
      (changes : Changes) (t : Tracker)
      → is_known t.actual ≡ true
      → has_nil (withdrawn changes) ≡ false
      → (renew_actual changes t).1
        ≡ (hold_wanted (wanted changes) (forget_old (withdrawn changes) t).1).1
  unfolding renew_actual
  renew_actual-state changes t i h = ground (arith, forget_old-result (withdrawn changes) t)

  observe_apply-passed_state :
      (changes : Changes) (skipped : List Skip) (t : Tracker)
      → has_nil (wanted changes) ≡ false
      → (observe_apply changes (ok skipped) t).1
        ≡ (renew_actual changes (between changes skipped t)).1
  unfolding observe_apply observe_success
  observe_apply-passed_state changes skipped t h =
      ground (arith, mark_wanted-result none (wanted changes) t)

  -- After a change set that passed, a record that it wanted and did not skip is shown as ready, with
  -- the targets that ExternalDNS asks for. Conditions: no nil element, the router's records were
  -- seen before, the change set wants one list of targets for the record, the same is asked for,
  -- and the record is not rejected.
  pub observe_apply-ready :
      (changes : Changes) (skipped : List Skip) (t : Tracker) (ep : Endpoint) (want : List Str)
      → panics changes (ok skipped) t ≡ false
      → is_known t.actual ≡ true
      → Memᴰ (some ep) (wanted changes)
      → ((other : Endpoint)
          → Memᴰ (some other) (wanted changes)
          → key_at other ≡ key_at ep
          → sorted other.targets ≡ want)
      → any (skip_at (key_at ep)) skipped ≡ false
      → lookup (key_at ep) t.rejected ≡ none
      → entry (key_at ep) t.desired ≡ some want
      → shown (observe_apply changes (ok skipped) t).1 (key_at ep)
        ≡ some (row (key_at ep) want ready no_cause)
  unfolding panics
  observe_apply-ready changes skipped t ep want p i m w s r d =
      let k = key_at ep in
      let h : has_nil (wanted changes) ≡ false = ground (arith, p) in
      let h' : has_nil (withdrawn changes) ≡ false = ground (arith, p, i) in
      let t1 = (mark_wanted none (wanted changes) t).1 in
      let t2 = between changes skipped t in
      let t3 = (forget_old (withdrawn changes) t2).1 in
      let t4 = (hold_wanted (wanted changes) t3).1 in
      let same = mark_wanted-seen none (wanted changes) t in
      let i2 : is_known t2.actual ≡ true = ap (λ q. is_known q.0) same ∙ i in
      let i3 : is_known t3.actual ≡ true = forget_old-is_known (withdrawn changes) t2 ∙ i2 in
      let has = has_key-mem ep (wanted changes) m in
      let c2 : lookup k t2.conflicts ≡ none =
        mark_conflicts-other skipped t1.conflicts k s
        ∙ (mark_wanted-conflicts none (wanted changes) t k h ∙ rw has refl) in
      let c3 : lookup k t3.conflicts ≡ none =
        ap (λ q. lookup k q.1.0) (forget_old-kept (withdrawn changes) t2) ∙ c2 in
      let same4 = hold_wanted-kept (wanted changes) t3 ∙ forget_old-kept (withdrawn changes) t2 in
      let r4 : lookup k t4.rejected ≡ none =
        ap (λ q. lookup k q.0.1) same4 ∙ (ap (λ q. lookup k q.1.1) same ∙ r) in
      let d4 : entry k t4.desired ≡ some want =
        ap (λ q. entry k q.0.0) same4 ∙ (ap (λ q. entry k q.1.0) same ∙ d) in
      let a4 : entry k t4.actual ≡ some want =
        hold_wanted-entry (wanted changes) t3 k want h i3 c3 w ∙ rw has refl in
      rw (observe_apply-passed_state changes skipped t h ∙ renew_actual-state changes t2 i2 h')
        (shown-ready t4 k want r4 d4 a4)
