-- ===== src/Provider/Tracker/Observe.antt =====
-- internal/provider/status.go, what the tracker takes from each step of a run.
use external_dns_openwrt_nex.Prelude.{true, List, [], ◌∷◌, ◌++◌, Option, none, some}
use external_dns_openwrt_nex.Strings.{CaseTable}
use external_dns_openwrt_nex.GoMap.{GoMap, lookup, insert, erase}
use external_dns_openwrt_nex.Exec.{Exec, pure, fail, Result, ok, err, ◌>>◌}
use external_dns_openwrt_nex.Sorting.{sorted}
use external_dns_openwrt_nex.OpenWrt.Apply.{Reason, Fault, Skip}
use external_dns_openwrt_nex.Provider.Endpoints.{
  RecordKey, record_key, key_of, Endpoint, Pointers, Changes,
}
use external_dns_openwrt_nex.Provider.Adjust.{Rejection}
use external_dns_openwrt_nex.Provider.Tracker.{
  Tracker, TargetMap, StatusRecord, Panic, nil_pointer, change, publish,
}

abbrev pub Published : Type 0
Published = Option (List StatusRecord)

module _ ⦃u : CaseTable⦄ where
  abbrev pub key_at : Endpoint → RecordKey
  key_at ep = key_of ep.dns_name ep.record_type

  -- `m[keyOf(…)] = sorted(ep.Targets)` for each endpoint.
  unfoldable pub hold_targets : List Endpoint → TargetMap → TargetMap
  hold_targets [] m = m
  hold_targets (ep ∷ rest) m = hold_targets rest (insert (key_at ep) (sorted ep.targets) m)

  unfoldable pub observe_records : List Endpoint → Tracker → Tracker
  unfolding hold_targets
  observe_records endpoints t = record t { actual = some (hold_targets endpoints []) }

  unfoldable pub observe_desired :
      List Endpoint → GoMap RecordKey Rejection → Tracker → Published × Tracker
  unfolding hold_targets
  observe_desired adjusted rejected t =
      let t' = record t { desired = some (hold_targets adjusted []); rejected = rejected } in
      (publish t', t')

  -- `t.failed[k] = err.Error()`, if there is an error.
  abbrev pub note_failure : Option Fault → RecordKey → GoMap RecordKey Fault → GoMap RecordKey Fault
  note_failure none k m = m
  note_failure (some e) k m = insert k e m

  abbrev pub note_wanted : Option Fault → RecordKey → Tracker → Tracker
  note_wanted error k t = record t {
    attempted = insert k true t.attempted;
    failures = note_failure error k (erase k t.failures);
    conflicts = erase k t.conflicts;
  }

  -- The first loop over `wanted`.
  unfoldable pub mark_wanted : Option Fault → Pointers → Exec Tracker Panic (Unit {0})
  mark_wanted error [] t = pure tt t
  mark_wanted error (none ∷ rest) t = fail nil_pointer t
  mark_wanted error (some ep ∷ rest) t = mark_wanted error rest (note_wanted error (key_at ep) t)

  unfoldable pub mark_conflicts : List Skip → GoMap RecordKey Reason → GoMap RecordKey Reason
  mark_conflicts [] m = m
  mark_conflicts (skip ∷ rest) m =
      mark_conflicts rest (insert (key_of skip.dns.name skip.dns.type) skip.reason m)

  -- `delete(t.actual, …)` for each endpoint.
  unfoldable pub forget_old : Pointers → Exec Tracker Panic (Unit {0})
  forget_old [] t = pure tt t
  forget_old (none ∷ rest) t = fail nil_pointer t
  forget_old (some ep ∷ rest) t =
      forget_old rest (record t { actual = change (erase (key_at ep)) t.actual })

  -- The second loop over `wanted`.
  abbrev pub hold_one : Endpoint → Tracker → Tracker
  hold_one ep t = elim (lookup (key_at ep) t.conflicts) [
    | some _ ↦ t
    | none ↦ record t { actual = change (insert (key_at ep) (sorted ep.targets)) t.actual }
  ]

  unfoldable pub hold_wanted : Pointers → Exec Tracker Panic (Unit {0})
  hold_wanted [] t = pure tt t
  hold_wanted (none ∷ rest) t = fail nil_pointer t
  hold_wanted (some ep ∷ rest) t = hold_wanted rest (hold_one ep t)

  unfoldable pub renew_actual : Changes → Exec Tracker Panic (Unit {0})
  unfolding forget_old hold_wanted
  renew_actual changes t = elim t.actual [
    | none ↦ pure tt t
    | some _ ↦
        (do
          forget_old (changes.delete ++ changes.update_old)
          hold_wanted (changes.create ++ changes.update_new))
          t
  ]

  -- What a change set that passed has shown.
  unfoldable pub observe_success : Changes → List Skip → Exec Tracker Panic (Unit {0})
  unfolding mark_conflicts renew_actual
  observe_success changes skipped t =
      renew_actual changes (record t { conflicts = mark_conflicts skipped t.conflicts })

  abbrev pub observe_outcome : Changes → Result Fault (List Skip) → Exec Tracker Panic (Unit {0})
  observe_outcome changes (ok skipped) t = observe_success changes skipped t
  observe_outcome changes (err e) t = pure tt t

  abbrev pub error_of : Result Fault (List Skip) → Option Fault
  error_of (ok skipped) = none
  error_of (err e) = some e

  unfoldable pub observe_apply : Changes → Result Fault (List Skip) → Exec Tracker Panic Published
  unfolding mark_wanted observe_success
  observe_apply changes outcome = do
    mark_wanted (error_of outcome) (changes.create ++ changes.update_new)
    observe_outcome changes outcome
    λ t. pure (publish t) t
