-- ===== src/Provider/Tracker/Snapshot.antt =====
-- internal/provider/status.go, `snapshotLocked`: which rows a snapshot has.
use external_dns_openwrt_nex.Prelude.{
  Bool, true, false, ◌||◌, List, [], ◌∷◌, map, Option, none, some, ◌≡◌, refl, sym, ap, subst, arith,
  inl, inr, ◌↔◌, mem-cons,
}
use mathlib.Core.List.{Memᴰ}
use mathlib.Core.List.Memᴰ
use external_dns_openwrt_nex.GoMap.{GoMap, lookup, insert, lookup-insert}
use external_dns_openwrt_nex.Sorting.{sort, mem-sort}
use external_dns_openwrt_nex.Provider.Endpoints.{RecordKey, record_key, record_key_beq_iff}
use external_dns_openwrt_nex.Provider.Tracker.{
  Tracker, TargetMap, StatusRecord, entry, entries, shown, rows, snapshot, mark_keys, all_keys,
  le_key, list_of,
}

abbrev is_some : {A : Type 0} → Option A → Bool
is_some none = false
is_some (some a) = true

-- The record is on the router, asked for, or rejected.
abbrev pub is_listed : Tracker → RecordKey → Bool
is_listed t k =
    is_some (lookup k t.rejected) || (is_some (entry k t.desired) || is_some (entry k t.actual))

module _ {V : Type 0} where
  lookup-mark_keys :
      (m : GoMap RecordKey V) (keys : GoMap RecordKey Bool) (k : RecordKey)
      → is_some (lookup k (mark_keys m keys)) ≡ (is_some (lookup k m) || is_some (lookup k keys))
  unfolding mark_keys lookup
  lookup-mark_keys [] keys k = refl
  lookup-mark_keys ((j, v) ∷ m) keys k =
      ground (arith, lookup-mark_keys m (insert j true keys) k, lookup-insert j k true keys)

  mem-keys :
      (m : GoMap RecordKey V) (k : RecordKey)
      → Memᴰ k (map (λ (j, v). j) m) ↔ (is_some (lookup k m) ≡ true)
  unfolding lookup
  mem-keys [] k = (λ m. absurd (Memᴰ.not-nil m), λ e. cc)
  mem-keys ((j, v) ∷ m) k =
      ground (arith, mem-keys m k, mem-cons k j (map (λ (i, w). i) m), record_key_beq_iff j k)

mem-list_of : (r : StatusRecord) (o : Option StatusRecord) → Memᴰ r (list_of o) ↔ (o ≡ some r)
mem-list_of r none = (λ m. absurd (Memᴰ.not-nil m), λ e. cc)
mem-list_of r (some x) = (
  λ m. elim (Memᴰ.cases_cons m) [ inl e ↦ ap some (sym e) | inr n ↦ absurd (Memᴰ.not-nil n) ],
  λ e. Memᴰ.head (cc e),
)

entry-entries : (o : Option TargetMap) (k : RecordKey) → lookup k (entries o) ≡ entry k o
unfolding lookup
entry-entries none k = refl
entry-entries (some m) k = refl

all_keys_iff : (t : Tracker) (k : RecordKey) → is_some (lookup k (all_keys t)) ≡ is_listed t k
unfolding lookup
all_keys_iff t k =
    let known = mark_keys (entries t.actual) [] in
    let asked = mark_keys (entries t.desired) known in
    ground (
      arith,
      lookup-mark_keys t.rejected asked k,
      lookup-mark_keys (entries t.desired) known k,
      lookup-mark_keys (entries t.actual) [] k,
      entry-entries t.actual k,
      entry-entries t.desired k,
    )

mem-rows :
    (t : Tracker) (keys : List RecordKey) (r : StatusRecord)
    → Memᴰ r (rows t keys) ↔ ((k : RecordKey) × Memᴰ k keys × (shown t k ≡ some r))
unfolding rows
mem-rows t [] r = (λ m. absurd (Memᴰ.not-nil m), λ (k, m, e). absurd (Memᴰ.not-nil m))
mem-rows t (j ∷ keys) r = (
  λ m. elim (Memᴰ.append_cases (list_of (shown t j)) m) [
    | inl here ↦ (j, Memᴰ.head refl, (mem-list_of r (shown t j)).0 here)
    | inr later ↦ let (k, member, e) = (mem-rows t keys r).0 later in (k, Memᴰ.tail member, e)
  ],
  λ (k, member, e). elim (Memᴰ.cases_cons member) [
    | inl same ↦
        Memᴰ.append_left (rows t keys)
          ((mem-list_of r (shown t j)).1 (subst (λ i. shown t i ≡ some r) same e))
    | inr later ↦ Memᴰ.append_right (list_of (shown t j)) ((mem-rows t keys r).1 (k, later, e))
  ],
)

abbrev sorted_keys : Tracker → List RecordKey
sorted_keys t = sort le_key (map (λ (k, b). k) (all_keys t))

mem-sorted_keys : (t : Tracker) (k : RecordKey) → Memᴰ k (sorted_keys t) ↔ (is_listed t k ≡ true)
mem-sorted_keys t k = ground (
  arith,
  mem-sort le_key k (map (λ (j, b). j) (all_keys t)),
  mem-keys (all_keys t) k,
  all_keys_iff t k,
)

-- A snapshot has a row exactly for a record that is on the router, asked for or rejected, and is
-- shown with that row.
pub snapshot_iff :
    (t : Tracker) (r : StatusRecord)
    → Memᴰ r (snapshot t) ↔ ((k : RecordKey) × (is_listed t k ≡ true) × (shown t k ≡ some r))
unfolding snapshot
snapshot_iff t r =
    let above = mem-rows t (sorted_keys t) r in
    (
      λ m. let (k, member, e) = above.0 m in (k, (mem-sorted_keys t k).0 member, e),
      λ (k, h, e). above.1 (k, (mem-sorted_keys t k).1 h, e),
    )
