-- ===== src/Provider/Tracker/Examples.antt =====
-- Tests of the tracker, and its theorems at concrete inputs.
use external_dns_openwrt_nex.Provider.Tracker.Panics.{panics, observe_apply-panics_iff}
use external_dns_openwrt_nex.Prelude.{
  true, [], ◌∷◌, none, some, ◌≡◌, refl, ◌↔◌, if◌then◌else◌, inl, inr,
}
use mathlib.Core.List.{Memᴰ}
use mathlib.Core.List.Memᴰ
use external_dns_openwrt_nex.Strings.{codes, ◌==◌, to_lower, trim_dot, trim_space}
use external_dns_openwrt_nex.GoMap.{lookup}
use external_dns_openwrt_nex.Exec.{ok, err}
use external_dns_openwrt_nex.Sorting.{sorted}
use external_dns_openwrt_nex.Ubus.Errors.{plain}
use external_dns_openwrt_nex.Fixtures.{endpoint, kelvin_table}
use external_dns_openwrt_nex.OpenWrt.Types.{canonical_name}
use external_dns_openwrt_nex.OpenWrt.Apply.{Fault, Skip, closes_loop, Step}
use external_dns_openwrt_nex.Provider.Endpoints.{
  RecordKey, Changes, key_of, record_key, record_key_beq,
}
use external_dns_openwrt_nex.Provider.Tracker.{
  Tracker, new_tracker, nil_pointer, shown, row, ready, failed, no_cause, apply_failed, entry,
  snapshot,
}
use external_dns_openwrt_nex.Provider.Tracker.Observe.{key_at, observe_apply}
use external_dns_openwrt_nex.Provider.Tracker.Shown.{holds_targets}
use external_dns_openwrt_nex.Provider.Tracker.Shows.{observe_apply-failed, observe_apply-ready}
use external_dns_openwrt_nex.Provider.Tracker.Snapshot.{snapshot_iff, is_listed}

-- One endpoint is asked for, and the router holds nothing yet.
abbrev pub asking : Tracker
asking = record new_tracker {
  actual = some [];
  desired = some ((key_at endpoint, sorted endpoint.targets) ∷ []);
}

abbrev pub creation : Changes
creation = record { create = some endpoint ∷ []; update_old = []; update_new = []; delete = [] }

abbrev broken : Fault
broken = Fault.failed Step.applying (plain (codes "connection refused"))

abbrev loop_skip : Skip
loop_skip = record {
  dns = record { type = endpoint.record_type; name = endpoint.dns_name; value = []; owner = [] };
  reason = closes_loop;
}

asked : entry (key_at endpoint) asking.desired ≡ some (sorted endpoint.targets)
unfolding lookup record_key_beq ◌==◌ key_of canonical_name trim_space trim_dot to_lower
asked = refl

free : lookup (key_at endpoint) asking.rejected ≡ none
unfolding lookup
free = refl

observe_apply-failed_example :
    shown (observe_apply creation (err broken) asking).1 (key_at endpoint) ≡ (
      if holds_targets asking (key_at endpoint) (sorted endpoint.targets)
      then some (row (key_at endpoint) (sorted endpoint.targets) ready no_cause)
      else some (row (key_at endpoint) (sorted endpoint.targets) failed (apply_failed broken)))
observe_apply-failed_example =
    observe_apply-failed creation broken asking endpoint (sorted endpoint.targets) refl
      (Memᴰ.head refl) free asked

observe_apply-ready_example :
    shown (observe_apply creation (ok []) asking).1 (key_at endpoint)
    ≡ some (row (key_at endpoint) (sorted endpoint.targets) ready no_cause)
unfolding panics
observe_apply-ready_example =
    observe_apply-ready creation [] asking endpoint (sorted endpoint.targets) refl refl
      (Memᴰ.head refl)
      (λ other m e. elim (Memᴰ.cases_cons m) [
        | inl same ↦ cc (same)
        | inr none_left ↦ absurd (Memᴰ.not-nil none_left)
      ])
      refl free asked

-- A nil element of a change set, which the translation to records passes over, stops the tracker
-- after the router was changed.
abbrev nil_creation : Changes
nil_creation = record { create = none ∷ []; update_old = []; update_new = []; delete = [] }

observe_apply-panics_iff_example :
    ((observe_apply nil_creation (ok []) asking).0 ≡ err nil_pointer)
    ↔ (panics nil_creation (ok []) asking ≡ true)
observe_apply-panics_iff_example = observe_apply-panics_iff nil_creation (ok []) asking

nil_creation_panics : (observe_apply nil_creation (ok []) asking).0 ≡ err nil_pointer
unfolding panics
nil_creation_panics = (observe_apply-panics_iff nil_creation (ok []) asking).1 refl

snapshot_iff_example :
    Memᴰ (row (key_at endpoint) (sorted endpoint.targets) ready no_cause) (snapshot asking) ↔ (
      (k : RecordKey) × (is_listed asking k ≡ true)
      × (shown asking k ≡ some (row (key_at endpoint) (sorted endpoint.targets) ready no_cause)))
snapshot_iff_example =
    snapshot_iff asking (row (key_at endpoint) (sorted endpoint.targets) ready no_cause)
