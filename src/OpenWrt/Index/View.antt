-- ===== src/OpenWrt/Index/View.antt =====
-- pkg/openwrt/index.go: the records that an index holds, and what its operations do to them.
use external_dns_openwrt_nex.Prelude.{
  keep, length, Option-cases, some, ap, ◌∙◌, inl, inr, Bool-cases, refl, [], arith, ◌++◌, map, ◌∷◌,
  ◌≡◌, List,
}
use external_dns_openwrt_nex.OpenWrt.Dnsmasq.{tally, both, skip, stop, Sub}
use external_dns_openwrt_nex.GoMap.{erase, str_key, lookup, insert}
use external_dns_openwrt_nex.Strings.{CaseTable, ◌==◌, Str}
use external_dns_openwrt_nex.OpenWrt.Types.{canonical_name, canonical, DnsRecord}
use external_dns_openwrt_nex.OpenWrt.Index.{
  IndexedSection, SectionIndex, at_key, add, all_sections, mark_first, mark_owned, drop_first,
  store_sections, drop, named, holds,
}
use external_dns_openwrt_nex.OpenWrt.Index.Grown.{
  served, view, view_cons, insert_same, insert_other, Grows-insert, mark_first-served, Grows,
}

Sub-refl {ℓ} : {A : Type ℓ} (xs : List A) → Sub xs xs
Sub-refl [] = stop
Sub-refl (x ∷ xs) = both x (Sub-refl xs)

Sub-append {ℓ} :
    {A : Type ℓ} {xs ys us vs : List A} → Sub xs ys → Sub us vs → Sub (xs ++ us) (ys ++ vs)
Sub-append stop t = t
Sub-append (both x s) t = both x (Sub-append s t)
Sub-append (skip x s) t = skip x (Sub-append s t)

Sub-front {ℓ} : {A : Type ℓ} (xs : List A) {us vs : List A} → Sub us vs → Sub us (xs ++ vs)
Sub-front [] t = t
Sub-front (x ∷ xs) t = skip x (Sub-front xs t)

view-insert_alike :
    (k : Str) (l l' : List IndexedSection) (i : SectionIndex)
    → lookup k i ≡ some l
    → map served l' ≡ map served l
    → view (insert k l' i) ≡ view i
unfolding lookup
view-insert_alike k l l' [] h e = cc
view-insert_alike k l l' ((j, w) ∷ i) h e = elim (Bool-cases (j == k)) [
  | inl same ↦
      let w_l : w ≡ l = ground arith in
      rw (insert_same k j l' w i same, view_cons j l' i, view_cons j w i, e, w_l)
  | inr other ↦ rw (
    insert_other k j l' w i other,
    view_cons j w (insert k l' i),
    view_cons j w i,
    view-insert_alike k l l' i (rw (other, lookup) at h) e,
  )
]

Sub-insert :
    (k : Str) (l l' : List IndexedSection) (i : SectionIndex)
    → lookup k i ≡ some l
    → Sub (map served l') (map served l)
    → Sub (view (insert k l' i)) (view i)
unfolding lookup
Sub-insert k l l' [] h e = cc
Sub-insert k l l' ((j, w) ∷ i) h e = elim (Bool-cases (j == k)) [
  | inl same ↦
      let w_l : w ≡ l = ground arith in
      rw (insert_same k j l' w i same, view_cons j l' i, view_cons j w i, w_l)
        (Sub-append e (Sub-refl (view i)))
  | inr other ↦
      rw (insert_other k j l' w i other, view_cons j w (insert k l' i), view_cons j w i)
        (Sub-append (Sub-refl (map served w)) (Sub-insert k l l' i (rw (other, lookup) at h) e))
]

Sub-erase : (k : Str) (i : SectionIndex) → Sub (view (erase k i)) (view i)
unfolding erase
Sub-erase k [] = Sub-refl (view [])
Sub-erase k ((j, w) ∷ i) = elim (Bool-cases (j == k)) [
  | inl same ↦ rw (same, view_cons j w i) (Sub-front (map served w) (Sub-erase k i))
  | inr other ↦
      rw (other, view_cons j w (erase k i), view_cons j w i)
        (Sub-append (Sub-refl (map served w)) (Sub-erase k i))
]

Sub-drop_first :
    (section : Str) (l : List IndexedSection)
    → Sub (map served (drop_first section l)) (map served l)
unfolding drop_first
Sub-drop_first section [] = stop
Sub-drop_first section (s ∷ l) = elim (Bool-cases (s.name == section)) [
  | inl same ↦ rw same (skip (served s) (Sub-refl (map served l)))
  | inr other ↦ rw other (both (served s) (Sub-drop_first section l))
]

-- Marking a section's owner leaves the records as they are.
pub view-mark_owned :
    (i : SectionIndex) (k section id : Str) → view (mark_owned i k section id) ≡ view i
unfolding mark_owned
view-mark_owned i k section id = elim (Option-cases (lookup k i)) [
  | inl none_there ↦ rw (none_there, mark_owned)
  | inr (l, e) ↦
      rw (e, mark_owned)
        (view-insert_alike k l (mark_first section id l) i e (mark_first-served section id l))
]

store_sections-Sub :
    (k : Str) (l l' : List IndexedSection) (i : SectionIndex)
    → lookup k i ≡ some l
    → Sub (map served l') (map served l)
    → Sub (view (store_sections k l' i)) (view i)
unfolding store_sections
store_sections-Sub k l [] i e s = Sub-erase k i
store_sections-Sub k l (x ∷ l') i e s = Sub-insert k l (x ∷ l') i e s

-- Dropping a section takes records away and adds none.
pub Sub-drop : (i : SectionIndex) (k section : Str) → Sub (view (drop i k section)) (view i)
unfolding drop
Sub-drop i k section = elim (Option-cases (lookup k i)) [
  | inl none_there ↦ rw (none_there, at_key, drop_first, store_sections) (Sub-erase k i)
  | inr (l, e) ↦
      rw (e, at_key) (store_sections-Sub k l (drop_first section l) i e (Sub-drop_first section l))
]

module _ ⦃u : CaseTable⦄ where
  -- Adding a section adds its canonical record, and no other.
  pub Grows-add :
      (i : SectionIndex) (r : DnsRecord) (section id : Str)
      → Grows
          (record { type = r.type; name = (canonical r).name; value = (canonical r).value })
          (view i)
          (view (add i r section id))
  unfolding add canonical
  Grows-add i r section id = Grows-insert _ _ i

  tally-keep :
      (type name : Str) (l : List IndexedSection)
      → tally type name (map served l) ≡ length (keep (holds type name) l)
  tally-keep type name [] = refl
  tally-keep type name (s ∷ l) = ground (arith, tally-keep type name l)

  -- `named` finds nothing only where no record has the type and the name.
  pub tally_of_named :
      (i : SectionIndex) (type name : Str)
      → named i type name ≡ []
      → tally type (canonical_name name) (view i) ≡ 0
  unfolding named
  tally_of_named i type name e =
      tally-keep type (canonical_name name) (all_sections i) ∙ ap length e
