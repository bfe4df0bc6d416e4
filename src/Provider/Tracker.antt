-- ===== src/Provider/Tracker.antt =====
-- internal/provider/status.go, the tracker: what a run shows the provider, kept by record. A map that
-- may be nil is an option. A reason is never an empty text, so `conflict` and `failed` hold a key
-- exactly if the source finds a text that is not empty there.
pub mod Observe
pub mod Learns
pub mod Panics
pub mod Shown
pub mod Shows
pub mod Snapshot
pub mod Examples
use external_dns_openwrt_nex.Prelude.{
  ℕ, zero, suc, ◌+◌, Bool, true, false, not, ◌&&◌, ◌||◌, List, [], ◌∷◌, ◌++◌, map, Option, none,
  some, ◌≡◌, refl, sym, ap, ◌∙◌, subst, arith, inl, inr, ◌⊎◌, ◌↔◌, ◌≢◌, ltb, leb, eqb,
  if◌then◌else◌, length, any, keep, is_empty, All, Bool-cases, Option-cases, ◌≤◌, ◌<◌,
}
use external_dns_openwrt_nex.Strings.{Str, ◌==◌}
use external_dns_openwrt_nex.GoMap.{GoMap, lookup, insert}
use external_dns_openwrt_nex.Sorting.{le_str, sort}
use external_dns_openwrt_nex.OpenWrt.Apply.{Reason, Fault}
use external_dns_openwrt_nex.Provider.Endpoints.{RecordKey, record_key}
use external_dns_openwrt_nex.Provider.Adjust.{RejectReason, Rejection}

-- The states of pkg/status/status.go.
pub data State : Type 0 where
  ready pending conflict failed refused orphan : State

-- The reasons that the source prints.
pub data Cause : Type 0 where
  no_cause not_requested : Cause
  not_representable : RejectReason → Cause
  left_out : Reason → Cause
  apply_failed : Fault → Cause
  router_has : List Str → Cause

pub record StatusRecord : Type 0 where
  pub dns_name : Str
  pub record_type : Str
  pub targets : List Str
  pub state : State
  pub cause : Cause

abbrev pub TargetMap : Type 0
TargetMap = GoMap RecordKey (List Str)

pub record Tracker : Type 0 where
  pub actual : Option TargetMap
  pub desired : Option TargetMap
  pub rejected : GoMap RecordKey Rejection
  pub attempted : GoMap RecordKey Bool
  pub failures : GoMap RecordKey Fault
  pub conflicts : GoMap RecordKey Reason

abbrev pub new_tracker : Tracker
new_tracker = record {
  actual = none;
  desired = none;
  rejected = [];
  attempted = [];
  failures = [];
  conflicts = [];
}

-- A field of a nil pointer is read, which stops the handler.
pub data Panic : Type 0 where
  nil_pointer : Panic

-- `m[k]` of a map that may be nil.
abbrev pub entry : RecordKey → Option TargetMap → Option (List Str)
entry k none = none
entry k (some m) = lookup k m

abbrev pub change : (TargetMap → TargetMap) → Option TargetMap → Option TargetMap
change f none = none
change f (some m) = some (f m)

-- `slices.Equal`.
unfoldable pub eq_targets : List Str → List Str → Bool
eq_targets [] [] = true
eq_targets [] (y ∷ ys) = false
eq_targets (x ∷ xs) [] = false
eq_targets (x ∷ xs) (y ∷ ys) = x == y && eq_targets xs ys

abbrev pub row : RecordKey → List Str → State → Cause → StatusRecord
row k targets state cause = record {
  dns_name = k.name;
  record_type = k.record_type;
  targets = targets;
  state = state;
  cause = cause;
}

abbrev pub was_attempted : Tracker → RecordKey → Bool
was_attempted t k = elim (lookup k t.attempted) [ none ↦ false | some b ↦ b ]

-- The `switch` behind its first case: the router does not hold what is wanted.
unfoldable pub unsettled : Tracker → RecordKey → List Str → Option StatusRecord
unsettled t k want = elim (lookup k t.conflicts) [
  | some reason ↦ some (row k want conflict (left_out reason))
  | none ↦ elim (lookup k t.failures) [
    | some e ↦ some (row k want failed (apply_failed e))
    | none ↦ elim (entry k t.actual) [
      | some have ↦ some (row k want pending (router_has have))
      | none ↦ if was_attempted t k then some (row k want pending no_cause) else none
    ]
  ]
]

unfoldable pub judge_desired : Tracker → RecordKey → List Str → Option StatusRecord
unfolding unsettled eq_targets
judge_desired t k want = elim (entry k t.actual) [
  | some have ↦
      if eq_targets have want then some (row k want ready no_cause) else unsettled t k want
  | none ↦ unsettled t k want
]

abbrev pub held : Option (List Str) → List Str
held none = []
held (some targets) = targets

-- The body of the loop of `snapshotLocked`; `none` is its `continue`.
unfoldable pub shown : Tracker → RecordKey → Option StatusRecord
unfolding judge_desired
shown t k = elim (lookup k t.rejected) [
  | some rejection ↦ some (row k rejection.targets refused (not_representable rejection.reason))
  | none ↦ elim (entry k t.desired) [
    | none ↦ some (row k (held (entry k t.actual)) orphan not_requested)
    | some want ↦ judge_desired t k want
  ]
]

-- `keys[k] = true` for each key of a map.
module _ {V : Type 0} where
  unfoldable pub mark_keys : GoMap RecordKey V → GoMap RecordKey Bool → GoMap RecordKey Bool
  mark_keys [] keys = keys
  mark_keys ((k, v) ∷ m) keys = mark_keys m (insert k true keys)

abbrev pub entries : Option TargetMap → TargetMap
entries none = []
entries (some m) = m

unfoldable pub le_key : RecordKey → RecordKey → Bool
unfolding le_str
le_key a b = if a.name == b.name then le_str a.record_type b.record_type else le_str a.name b.name

abbrev pub all_keys : Tracker → GoMap RecordKey Bool
all_keys t = mark_keys t.rejected (mark_keys (entries t.desired) (mark_keys (entries t.actual) []))

abbrev pub list_of : Option StatusRecord → List StatusRecord
list_of none = []
list_of (some r) = r ∷ []

unfoldable pub rows : Tracker → List RecordKey → List StatusRecord
unfolding shown
rows t [] = []
rows t (k ∷ keys) = list_of (shown t k) ++ rows t keys

unfoldable pub snapshot : Tracker → List StatusRecord
unfolding mark_keys sort le_key rows
snapshot t = rows t (sort le_key (map (λ (k, b). k) (all_keys t)))

-- What is handed to the mirror: `none` before a run has shown both sides.
unfoldable pub publish : Tracker → Option (List StatusRecord)
unfolding snapshot
publish t = elim t.actual [
  | none ↦ none
  | some _ ↦ elim t.desired [ none ↦ none | some _ ↦ some (snapshot t) ]
]
