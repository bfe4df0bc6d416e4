-- ===== src/Status/Examples.antt =====
-- The mirror over a store that does what it is asked, and a queue with two snapshots.
use external_dns_openwrt_nex.Prelude.{
  ℕ, zero, suc, true, false, List, [], ◌∷◌, Option, none, some, ◌≡◌, refl, ◌∙◌, arith, inl, inr,
  ◌≢◌, if◌then◌else◌, any, All, Bool-cases, ◌≤◌,
}
use external_dns_openwrt_nex.Status.Names.Labels.{all_labels}
use external_dns_openwrt_nex.Strings.{split_dots, to_lower, len}
use external_dns_openwrt_nex.Status.Names.Valid.{object_name-valid}
use external_dns_openwrt_nex.Status.Names.Owner.{owner_value-valid, IsLabelValue}
use external_dns_openwrt_nex.Status.Names.{object_name, owner_value, is_hex, Digest}
use mathlib.Core.List.Memᴰ
use mathlib.Core.List.Memᴰ
use mathlib.Core.List.{Memᴰ}
use external_dns_openwrt_nex.Strings.{Str, codes, ◌==◌}
use external_dns_openwrt_nex.Strings.Laws.{eq_iff, eq_refl}
use external_dns_openwrt_nex.Fixtures.{whole, kelvin_table}
use external_dns_openwrt_nex.GoMap.{str_key}
use external_dns_openwrt_nex.Exec.{ok}
use external_dns_openwrt_nex.Status.Syncer.{
  Record, Object, StatusClient, Syncer, Site, sync, name_of,
}
use external_dns_openwrt_nex.Status.Syncer.Turn.{IsReliable, Mirrors}
use external_dns_openwrt_nex.Status.Syncer.Mirrors.{sync-Mirrors}
use external_dns_openwrt_nex.Status.Syncer.Again.{sync-again}
use external_dns_openwrt_nex.Status.Syncer.Writes.{sync-Holds}
use external_dns_openwrt_nex.Status.Queue.{
  Queue, new_queue, store, done, Reachable, new, publishes, Move,
}
use external_dns_openwrt_nex.Status.Queue.Owed.{IsSettled}
use external_dns_openwrt_nex.Status.Queue.Ends.{Moves-settle, moves_left}

abbrev pub zeros : ℕ → Str
zeros zero = []
zeros (suc n) = b'0' ∷ zeros n

pub zeros-hex : (n : ℕ) → All (λ c. is_hex c ≡ true) (zeros n)
zeros-hex zero = tt
zeros-hex (suc n) = (refl, zeros-hex n)

-- A digest that tells nothing apart.
instance abbrev pub constant : Digest
constant = record { hex = λ s. zeros 64; hex_length = λ s. refl; hex_digits = λ s. zeros-hex 64 }

abbrev Store : Type 0
Store = List Object

abbrev held : Store → Str → Option Object
held [] n = none
held (o ∷ w) n = if o.name == n then some o else held w n

abbrev without : Str → Store → Store
without n [] = []
without n (o ∷ w) = let rest = without n w in if o.name == n then rest else o ∷ rest

-- The newest object of each name.
abbrev newest : Store → Store
newest [] = []
newest (o ∷ w) = o ∷ without o.name (newest w)

abbrev client : StatusClient Store (Unit {0})
client = record {
  list = λ w. (ok (newest w), w);
  apply = λ o w. (ok tt, o ∷ w);
  remove = λ n w. (ok tt, without n w);
}

abbrev syncer : Syncer Store (Unit {0})
syncer = record { client = client; errors = 0; now = λ w. codes "2024-05-01T00:00:00Z" }

abbrev pub nas : Record
nas = record {
  dns_name = codes "nas.lan";
  record_type = codes "A";
  targets = codes "192.0.2.1" ∷ [];
  state = codes "Ready";
  reason = [];
}

abbrev empty : Site Store ℕ
empty = record { world = []; registry = [] }

held-without : (k n : Str) (w : Store) → held (without k w) n ≡ (if k == n then none else held w n)
held-without k n [] = ground arith
held-without k n (o ∷ w) =
    ground (arith, held-without k n w, eq_iff k n, eq_iff o.name k, eq_iff o.name n)

held-behind :
    (o : Object) (w l : Store)
    → All (λ p. held w p.name ≡ some p) l
    → All (λ p. held (o ∷ w) p.name ≡ some p) (without o.name l)
held-behind o w [] h = tt
held-behind o w (p ∷ l) h = elim (Bool-cases (p.name == o.name)) [
  | inl same ↦ rw same (held-behind o w l h.1)
  | inr other ↦ rw other (
    ground (arith, h.0, other, eq_iff p.name o.name, eq_iff o.name p.name),
    held-behind o w l h.1,
  )
]

held-newest : (w : Store) → All (λ p. held w p.name ≡ some p) (newest w)
held-newest [] = tt
held-newest (o ∷ w) = (ground (arith, eq_refl o.name), held-behind o w (newest w) (held-newest w))

any-without :
    (k n : Str) (l : Store)
    → any (λ p. p.name == n) (without k l) ≡ (if k == n then false else any (λ p. p.name == n) l)
any-without k n [] = ground arith
any-without k n (o ∷ l) =
    ground (arith, any-without k n l, eq_iff k n, eq_iff o.name k, eq_iff o.name n)

any-newest :
    (w : Store) (n : Str) (o : Object)
    → held w n ≡ some o
    → any (λ p. p.name == n) (newest w) ≡ true
any-newest [] n o h = cc
any-newest (p ∷ w) n o h = ground (arith, h, any-newest w n o, any-without p.name n (newest w))

reliable : IsReliable syncer held
reliable = record {
  objects = newest;
  listed = λ w. refl;
  lists = λ w. (held-newest w, any-newest w);
  list_view = λ w n. refl;
  apply_view = λ o w n. refl;
  remove_view = λ k w n. held-without k n w;
}

sync-Mirrors_example :
    ((r : Record)
      → Memᴰ r (nas ∷ [])
      → Mirrors syncer held none r (held (sync syncer (nas ∷ []) empty).world (name_of r)))
    × ((n : Str)
        → All (λ r. name_of r ≢ n) (nas ∷ [])
        → held (sync syncer (nas ∷ []) empty).world n ≡ none)
sync-Mirrors_example = sync-Mirrors syncer held reliable (nas ∷ []) empty (tt, tt)

sync-again_example :
    sync syncer (nas ∷ []) (sync syncer (nas ∷ []) empty) ≡ sync syncer (nas ∷ []) empty
sync-again_example = sync-again syncer held reliable (λ w e. cc) (nas ∷ []) empty (tt, tt)

-- Every object that is there shows the one record.
abbrev ShowsNas : Store → Type 0
ShowsNas w = All (λ o. o.shown ≡ nas) w

without-ShowsNas : (k : Str) (w : Store) → ShowsNas w → ShowsNas (without k w)
without-ShowsNas k [] h = tt
without-ShowsNas k (o ∷ w) h = elim (Bool-cases (o.name == k)) [
  | inl same ↦ rw same (without-ShowsNas k w h.1)
  | inr other ↦ rw other (h.0, without-ShowsNas k w h.1)
]

sync-Holds_example : ShowsNas (sync syncer (nas ∷ []) empty).world
sync-Holds_example =
    sync-Holds syncer ShowsNas (nas ∷ []) empty (λ w h. h)
      (λ r o w m n shown h. elim (Memᴰ.cases_cons m) [
        | inl e ↦ (shown ∙ e, h)
        | inr t ↦ absurd (Memᴰ.not-nil t)
      ])
      (λ objects e name w m stale h. without-ShowsNas name w h) tt

abbrev two_stored : Queue ℕ
two_stored = store 2 (store 1 (new_queue 0))

two_stored-Reachable : Reachable 0 two_stored
two_stored-Reachable = publishes 2 (publishes 1 new)

Moves-settle_example :
    (0 ≤ moves_left two_stored)
    × (((r' : Queue ℕ) → ¬ Move two_stored r')
        → (two_stored.written ≡ two_stored.latest) × IsSettled two_stored)
Moves-settle_example = Moves-settle 0 two_stored two_stored two_stored-Reachable done

object_name-valid_example :
    (all_labels (split_dots (object_name (codes "A") (codes "_nas.lan"))) ≡ true)
    × (len (object_name (codes "A") (codes "_nas.lan")) ≤ 253)
unfolding to_lower external_dns_openwrt_nex.Strings.lower external_dns_openwrt_nex.Strings.lower_by
object_name-valid_example =
    object_name-valid (codes "A") (codes "_nas.lan") (refl, tt) (omega arith) (omega arith)

owner_value-valid_example :
    IsLabelValue (owner_value (codes "not a label!"))
    × (IsLabelValue (codes "not a label!")
        → owner_value (codes "not a label!") ≡ codes "not a label!")
owner_value-valid_example = owner_value-valid (codes "not a label!")
