-- ===== src/OpenWrt/Index/Grown.antt =====
-- pkg/openwrt/index.go: the list of indexed records grows by one where a section is stored.
use external_dns_openwrt_nex.Prelude.{
  sym, ap, false, if◌then◌else◌, true, ◌∙◌, inl, inr, Bool-cases, refl, [], arith, ◌++◌, map, ◌∷◌,
  ◌≡◌, List,
}
use external_dns_openwrt_nex.OpenWrt.Dnsmasq.{Served}
use external_dns_openwrt_nex.GoMap.{str_key, lookup, insert}
use external_dns_openwrt_nex.Strings.{◌==◌, Str}
use mathlib.Core.List.{map-append, append_assoc}
use external_dns_openwrt_nex.OpenWrt.Index.{
  IndexedSection, SectionIndex, at_key, all_sections, mark_first,
}

-- The record of a section, as dnsmasq serves it.
abbrev pub served : IndexedSection → Served
served s = record { type = s.dns.type; name = s.dns.name; value = s.dns.value }

abbrev pub view : SectionIndex → List Served
view i = map served (all_sections i)

pub view_cons :
    (k : Str) (l : List IndexedSection) (i : SectionIndex)
    → view ((k, l) ∷ i) ≡ map served l ++ view i
unfolding all_sections
view_cons k l i = map-append served l (all_sections i)

-- One more record, somewhere.
pub record Grows (r : Served) (xs ys : List Served) : Type 0 where
  pub front : List Served
  pub back : List Served
  pub without : xs ≡ front ++ back
  pub with_it : ys ≡ front ++ (r ∷ back)

pub insert_same :
    (k j : Str) (v w : List IndexedSection) (i : SectionIndex)
    → (j == k) ≡ true
    → insert k v ((j, w) ∷ i) ≡ (j, v) ∷ i
unfolding insert
insert_same k j v w i e = rw e

pub insert_other :
    (k j : Str) (v w : List IndexedSection) (i : SectionIndex)
    → (j == k) ≡ false
    → insert k v ((j, w) ∷ i) ≡ (j, w) ∷ insert k v i
unfolding insert
insert_other k j v w i e = rw e

pub at_key-cons :
    (k j : Str) (w : List IndexedSection) (i : SectionIndex)
    → at_key ((j, w) ∷ i) k ≡ (if j == k then w else at_key i k)
unfolding at_key lookup
at_key-cons k j w i = ground arith

pub Grows-insert :
    (k : Str) (s : IndexedSection) (i : SectionIndex)
    → Grows (served s) (view i) (view (insert k (at_key i k ++ s ∷ []) i))
Grows-insert k s [] =
    unfold insert lookup at_key all_sections in
    record { front = []; back = []; without = refl; with_it = refl }
Grows-insert k s ((j, l) ∷ i) = elim (Bool-cases (j == k)) [
  | inl same ↦ record {
    front = map served l;
    back = view i;
    without = view_cons j l i;
    with_it =
        rw
          (
            at_key-cons k j l i,
            same,
            insert_same k j (l ++ s ∷ []) l i same,
            view_cons j (l ++ s ∷ []) i,
            map-append served l (s ∷ []),
          )
          (append_assoc (map served l) (served s ∷ []) (view i));
  }
  | inr other ↦
      let g = Grows-insert k s i in
      record {
        front = map served l ++ g.front;
        back = g.back;
        without =
            view_cons j l i
            ∙ ap (λ x. map served l ++ x) g.without
            ∙ sym (append_assoc (map served l) g.front g.back);
        with_it =
            rw
              (
                at_key-cons k j l i,
                other,
                insert_other k j (at_key i k ++ s ∷ []) l i other,
                view_cons j l (insert k (at_key i k ++ s ∷ []) i),
              )
              (ap (λ x. map served l ++ x) g.with_it
                ∙ sym (append_assoc (map served l) g.front (served s ∷ g.back)));
      }
]

pub mark_first-served :
    (section id : Str) (l : List IndexedSection)
    → map served (mark_first section id l) ≡ map served l
unfolding mark_first
mark_first-served section id [] = refl
mark_first-served section id (s ∷ l) = ground (arith, mark_first-served section id l)
