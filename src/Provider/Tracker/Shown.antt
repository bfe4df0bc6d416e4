-- ===== src/Provider/Tracker/Shown.antt =====
-- internal/provider/status.go: what a row of a snapshot shows, and what marking leaves of it.
use external_dns_openwrt_nex.Prelude.{
  Bool, true, false, List, [], ◌∷◌, none, some, ◌≡◌, refl, sym, arith, any, inl, inr,
}
use mathlib.Core.List.{Memᴰ}
use mathlib.Core.List.Memᴰ
use external_dns_openwrt_nex.Strings.{Str, CaseTable}
use external_dns_openwrt_nex.Strings.Laws.{eq_iff}
use external_dns_openwrt_nex.GoMap.{GoMap, lookup, insert, lookup-insert}
use external_dns_openwrt_nex.OpenWrt.Apply.{Reason, Skip}
use external_dns_openwrt_nex.Provider.Endpoints.{
  RecordKey, record_key, key_of, Endpoint, Pointers, record_key_beq, record_key_beq_iff,
}
use external_dns_openwrt_nex.Provider.Tracker.{
  Tracker, entry, shown, row, ready, no_cause, eq_targets, judge_desired,
}
use external_dns_openwrt_nex.Provider.Tracker.Observe.{key_at, mark_conflicts}
use external_dns_openwrt_nex.Provider.Tracker.Learns.{has_key}

abbrev pub holds_targets : Tracker → RecordKey → List Str → Bool
holds_targets t k want = elim (entry k t.actual) [ none ↦ false | some have ↦ eq_targets have want ]

pub eq_targets_refl : (xs : List Str) → eq_targets xs xs ≡ true
unfolding eq_targets
eq_targets_refl [] = refl
eq_targets_refl (x ∷ xs) = ground (arith, eq_iff x x, eq_targets_refl xs)

module _ ⦃u : CaseTable⦄ where
  abbrev pub skip_at : RecordKey → Skip → Bool
  skip_at k skip = record_key_beq (key_of skip.dns.name skip.dns.type) k

  pub mark_conflicts-other :
      (skips : List Skip) (m : GoMap RecordKey Reason) (k : RecordKey)
      → any (skip_at k) skips ≡ false
      → lookup k (mark_conflicts skips m) ≡ lookup k m
  unfolding mark_conflicts
  mark_conflicts-other [] m k h = refl
  mark_conflicts-other (skip ∷ rest) m k h =
      let j = key_of skip.dns.name skip.dns.type in
      ground (
        arith,
        mark_conflicts-other rest (insert j skip.reason m) k,
        lookup-insert j k skip.reason m,
      )

  pub has_key-mem :
      (ep : Endpoint) (eps : Pointers) → Memᴰ (some ep) eps → any (has_key (key_at ep)) eps ≡ true
  has_key-mem ep [] m = absurd (Memᴰ.not-nil m)
  has_key-mem ep (x ∷ rest) m = elim (Memᴰ.cases_cons m) [
    | inl e ↦ rw (sym e) (ground (arith, record_key_beq_iff (key_at ep) (key_at ep)))
    | inr m' ↦ ground (arith, has_key-mem ep rest m')
  ]

  pub shown-ready :
      (t : Tracker) (k : RecordKey) (want : List Str)
      → lookup k t.rejected ≡ none
      → entry k t.desired ≡ some want
      → entry k t.actual ≡ some want
      → shown t k ≡ some (row k want ready no_cause)
  unfolding shown judge_desired
  shown-ready t k want r d a = ground (arith, r, d, a, eq_targets_refl want)
