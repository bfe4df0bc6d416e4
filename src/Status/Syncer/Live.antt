-- ===== src/Status/Syncer/Live.antt =====
-- pkg/status/syncer.go: the map of listed objects, and the names of a snapshot.
use external_dns_openwrt_nex.Prelude.{
  Bool, true, false, List, [], ◌∷◌, map, Option, none, some, ◌≡◌, refl, sym, ap, subst, arith, inl,
  inr, ◌↔◌, ◌≢◌, if◌then◌else◌, any, All, Bool-cases, Option-cases,
}
use external_dns_openwrt_nex.Strings.{Str, CaseTable, ◌==◌}
use mathlib.Core.List.{Memᴰ}
use mathlib.Core.List.Memᴰ
use external_dns_openwrt_nex.Strings.Laws.{eq_iff}
use external_dns_openwrt_nex.GoMap.{GoMap, lookup, insert, str_key, lookup-insert}
use external_dns_openwrt_nex.Status.Names.{Digest}
use external_dns_openwrt_nex.Status.Syncer.{
  Record, Object, WrittenRecord, equal_targets, equal, read_live, name_of,
}

equal_targets_iff : (a b : List Str) → (equal_targets a b ≡ true) ↔ (a ≡ b)
unfolding equal_targets
equal_targets_iff [] [] = (λ h. refl, λ h. refl)
equal_targets_iff [] (b ∷ bs) = (λ h. cc, λ h. cc)
equal_targets_iff (a ∷ l) [] = (λ h. cc, λ h. cc)
equal_targets_iff (a ∷ l) (b ∷ bs) = ground (arith, eq_iff a b, equal_targets_iff l bs)

pub equal_iff : (r s : Record) → (equal r s ≡ true) ↔ (r ≡ s)
unfolding equal
equal_iff r s = ground (
  arith,
  eq_iff r.dns_name s.dns_name,
  eq_iff r.record_type s.record_type,
  eq_iff r.state s.state,
  eq_iff r.reason s.reason,
  equal_targets_iff r.targets s.targets,
)

abbrev pub written : Option Object → Option WrittenRecord
written none = none
written (some o) = some (record { shown = o.shown; since = o.last_transition_time })

-- The objects of a list are those that the namespace holds, and all of them.
abbrev pub IsListOf : (Str → Option Object) → List Object → Type 0
IsListOf held objects =
    All (λ o. held o.name ≡ some o) objects
    × ((n : Str) (o : Object) → held n ≡ some o → any (λ p. p.name == n) objects ≡ true)

lookup-read_live :
    (held : Str → Option Object) (objects : List Object) (m : GoMap Str WrittenRecord) (n : Str)
    → All (λ o. held o.name ≡ some o) objects
    → lookup n (read_live objects m)
      ≡ (if any (λ o. o.name == n) objects then written (held n) else lookup n m)
unfolding read_live
lookup-read_live held [] m n h = refl
lookup-read_live held (o ∷ objects) m n h =
    let w : WrittenRecord = record { shown = o.shown; since = o.last_transition_time } in
    let later = lookup-read_live held objects (insert o.name w m) n h.1 in
    elim (Bool-cases (o.name == n)) [
      | inl same ↦
          let here : held n ≡ some o =
            subst (λ k. held k ≡ some o) ((eq_iff o.name n).0 same) h.0 in
          ground (arith, same, later, ap written here, lookup-insert o.name n w m)
      | inr other ↦ ground (arith, other, later, lookup-insert o.name n w m)
    ]

pub lookup-live :
    (held : Str → Option Object) (objects : List Object) (n : Str)
    → IsListOf held objects
    → lookup n (read_live objects []) ≡ written (held n)
lookup-live held objects n (sound, complete) =
    let found = lookup-read_live held objects [] n sound in
    elim (Option-cases (held n)) [
      | inl gone ↦ unfold lookup in ground (arith, found, ap written gone)
      | inr (o, there) ↦ ground (arith, found, complete n o there)
    ]

-- The keys of a map.
abbrev pub is_some : {A : Type 0} → Option A → Bool
is_some none = false
is_some (some a) = true

pub any-keys :
    (m : GoMap Str WrittenRecord) (n : Str)
    → any (λ k. k == n) (map (λ (name, w). name) m) ≡ is_some (lookup n m)
unfolding lookup
any-keys [] n = refl
any-keys ((k, w) ∷ m) n = ground (arith, any-keys m n)

-- No two records stand for objects of one name.
module _ ⦃u : CaseTable⦄ ⦃d : Digest⦄ where
  abbrev pub HasUniqueNames : List Record → Type 0
  HasUniqueNames [] = Unit
  HasUniqueNames (r ∷ records) = All (λ q. name_of q ≢ name_of r) records × HasUniqueNames records

  pub wanted-mem :
      (r : Record) (records : List Record)
      → Memᴰ r records
      → any (λ k. k == name_of r) (map name_of records) ≡ true
  wanted-mem r [] m = absurd (Memᴰ.not-nil m)
  wanted-mem r (q ∷ records) m = elim (Memᴰ.cases_cons m) [
    | inl e ↦ ground (arith, (eq_iff (name_of q) (name_of r)).1 (ap name_of (sym e)))
    | inr later ↦ ground (arith, wanted-mem r records later)
  ]

  pub unwanted :
      (n : Str) (records : List Record)
      → All (λ r. name_of r ≢ n) records
      → any (λ k. k == n) (map name_of records) ≡ false
  unwanted n [] h = refl
  unwanted n (r ∷ records) h = ground (arith, h.0, eq_iff (name_of r) n, unwanted n records h.1)
