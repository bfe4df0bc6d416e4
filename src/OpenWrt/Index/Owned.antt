-- ===== src/OpenWrt/Index/Owned.antt =====
-- pkg/openwrt/index.go: what the operations of an index do to the sections of each key.
use external_dns_openwrt_nex.Prelude.{
  Bool, true, false, not, List, [], ◌∷◌, ◌++◌, map, some, ◌≡◌, refl, arith, inl, inr, if◌then◌else◌,
  any, keep, is_empty, Option-cases,
}
use external_dns_openwrt_nex.Strings.{Str, ◌==◌, CaseTable}
use external_dns_openwrt_nex.Strings.Laws.{eq_iff, eq_refl}
use external_dns_openwrt_nex.GoMap.{lookup, insert, str_key, lookup-insert, lookup-erase}
use external_dns_openwrt_nex.OpenWrt.Types.{DnsRecord, canonical, key}
use external_dns_openwrt_nex.OpenWrt.Index.{
  IndexedSection, SectionIndex, at_key, add, mark_first, mark_owned, drop_first, store_sections,
  drop, foreign, first_unowned, find_unowned,
}

at_key-insert :
    (k j : Str) (l : List IndexedSection) (i : SectionIndex)
    → at_key (insert k l i) j ≡ (if k == j then l else at_key i j)
unfolding at_key
at_key-insert k j l i = ground (arith, lookup-insert k j l i)

at_key-store_sections :
    (k j : Str) (l : List IndexedSection) (i : SectionIndex)
    → at_key (store_sections k l i) j ≡ (if k == j then l else at_key i j)
unfolding store_sections at_key
at_key-store_sections k j [] i = ground (arith, lookup-erase k j i)
at_key-store_sections k j (s ∷ l) i = ground (arith, lookup-insert k j (s ∷ l) i)

-- Dropping a section changes the list of its key only.
pub at_key-drop :
    (i : SectionIndex) (k section j : Str)
    → at_key (drop i k section) j ≡ (if k == j then drop_first section (at_key i k) else at_key i j)
unfolding drop
at_key-drop i k section j = at_key-store_sections k j (drop_first section (at_key i k)) i

-- Marking a section changes the list of its key only.
pub at_key-mark_owned :
    (i : SectionIndex) (k section id j : Str)
    → at_key (mark_owned i k section id) j
      ≡ (if k == j then mark_first section id (at_key i k) else at_key i j)
unfolding mark_owned at_key mark_first
at_key-mark_owned i k section id j = elim (Option-cases (lookup k i)) [
  | inl none_there ↦ ground (arith, eq_iff k j, none_there)
  | inr (l, e) ↦ ground (arith, at_key-insert k j (mark_first section id l) i)
]

module _ ⦃u : CaseTable⦄ where
  -- The section that an addition stores.
  abbrev pub newest : DnsRecord → Str → Str → IndexedSection
  newest r section id = record { name = section; dns = record (canonical r) { owner = id } }

  -- Adding a section appends it to the list of its record's key, and changes no other.
  pub at_key-add :
      (i : SectionIndex) (r : DnsRecord) (section id j : Str)
      → at_key (add i r section id) j ≡ (
          if key (canonical r) == j
          then at_key i (key (canonical r)) ++ newest r section id ∷ []
          else at_key i j)
  unfolding add key canonical
  at_key-add i r section id j = at_key-insert _ j _ i

-- The names of the sections are pairwise different.
abbrev pub IsDistinct : List IndexedSection → Type 0
IsDistinct [] = Unit {0}
IsDistinct (s ∷ l) = (any (λ x. s.name == x.name) l ≡ false) × IsDistinct l

-- The names of a list that `owned` gives.
abbrev pub own_names : Str → List IndexedSection → List Str
own_names id l = map (λ s. s.name) (keep (λ s. not (foreign id s)) l)

abbrev pub drop_all : List Str → List IndexedSection → List IndexedSection
drop_all [] l = l
drop_all (n ∷ ns) l = drop_all ns (drop_first n l)

drop_all-cons :
    (ns : List Str) (s : IndexedSection) (l : List IndexedSection)
    → any (λ n. s.name == n) ns ≡ false
    → drop_all ns (s ∷ l) ≡ s ∷ drop_all ns l
unfolding drop_first
drop_all-cons [] s l h = refl
drop_all-cons (n ∷ ns) s l h = ground (arith, drop_all-cons ns s (drop_first n l))

absent-own_names :
    (id name : Str) (l : List IndexedSection)
    → any (λ x. name == x.name) l ≡ false
    → any (λ n. name == n) (own_names id l) ≡ false
absent-own_names id name [] h = refl
absent-own_names id name (s ∷ l) h = ground (arith, absent-own_names id name l)

-- Dropping every section of the owner leaves those of the others.
pub drop_all-own_names :
    (id : Str) (l : List IndexedSection)
    → IsDistinct l
    → drop_all (own_names id l) l ≡ keep (foreign id) l
unfolding drop_first
drop_all-own_names id [] h = refl
drop_all-own_names id (s ∷ l) h = ground (
  arith,
  drop_all-cons (own_names id l) s l,
  absent-own_names id s.name l h.0,
  drop_all-own_names id l h.1,
  eq_refl s.name,
)

absent-keep :
    (p : IndexedSection → Bool) (name : Str) (l : List IndexedSection)
    → any (λ x. name == x.name) l ≡ false
    → any (λ x. name == x.name) (keep p l) ≡ false
absent-keep p name [] h = refl
absent-keep p name (s ∷ l) h = ground (arith, absent-keep p name l)

pub IsDistinct-keep :
    (p : IndexedSection → Bool) (l : List IndexedSection) → IsDistinct l → IsDistinct (keep p l)
IsDistinct-keep p [] h = tt
IsDistinct-keep p (s ∷ l) h = ground (arith, IsDistinct-keep p l h.1, absent-keep p s.name l h.0)

pub keep-keep : (p : IndexedSection → Bool) (l : List IndexedSection) → keep p (keep p l) ≡ keep p l
keep-keep p [] = refl
keep-keep p (s ∷ l) = ground (arith, keep-keep p l)

module _ (id : Str) where
  -- The others' sections are all there is where the owner has none.
  pub keep-foreign_all :
      (l : List IndexedSection) → is_empty (own_names id l) ≡ true → keep (foreign id) l ≡ l
  keep-foreign_all [] h = refl
  keep-foreign_all (s ∷ l) h = ground (arith, keep-foreign_all l)

  -- A section of the owner at the end of a list.
  pub own_names-append :
      (l : List IndexedSection) (s : IndexedSection)
      → s.dns.owner ≡ id
      → is_empty (own_names id (l ++ s ∷ [])) ≡ false
  own_names-append [] s e = ground (arith, eq_iff s.dns.owner id)
  own_names-append (x ∷ l) s e = ground (arith, own_names-append l s e)

  pub own_names-append_left :
      (l m : List IndexedSection)
      → is_empty (own_names id l) ≡ false
      → is_empty (own_names id (l ++ m)) ≡ false
  own_names-append_left [] m h = cc
  own_names-append_left (x ∷ l) m h = ground (arith, own_names-append_left l m)

  -- A mark takes no section from the owner.
  pub own_names-mark_first :
      (section : Str) (l : List IndexedSection)
      → is_empty (own_names id l) ≡ false
      → is_empty (own_names id (mark_first section id l)) ≡ false
  unfolding mark_first
  own_names-mark_first section [] h = h
  own_names-mark_first section (x ∷ l) h =
      ground (arith, own_names-mark_first section l, eq_iff id id)

  -- The section without an owner that was found is the owner's after the mark.
  own_names-find_unowned :
      (section : Str) (l : List IndexedSection)
      → find_unowned l ≡ some section
      → is_empty (own_names id (mark_first section id l)) ≡ false
  unfolding mark_first find_unowned
  own_names-find_unowned section [] h = cc
  own_names-find_unowned section (x ∷ l) h =
      ground (arith, own_names-find_unowned section l, eq_iff id id, eq_iff x.name section)

  pub own_names-adopted :
      (i : SectionIndex) (k section : Str)
      → first_unowned i k ≡ some section
      → is_empty (own_names id (mark_first section id (at_key i k))) ≡ false
  unfolding first_unowned
  own_names-adopted i k section e = own_names-find_unowned section (at_key i k) e
