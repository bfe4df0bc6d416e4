-- ===== src/OpenWrt/Index/Members.antt =====
-- pkg/openwrt/index.go: which sections an index holds after each of its operations.
use external_dns_openwrt_nex.Prelude.{
  true, false, not, List, [], ◌∷◌, ◌++◌, some, ◌≡◌, refl, ap, arith, inl, inr, ◌⊎◌, ◌↔◌, keep,
  is_empty, Bool-cases, Option-cases, mem-cons, mem-append, mem-keep,
}
use mathlib.Core.List.{Memᴰ}
use mathlib.Core.List.Memᴰ
use external_dns_openwrt_nex.Strings.{Str, ◌==◌, CaseTable}
use external_dns_openwrt_nex.GoMap.{lookup, insert, erase, str_key}
use external_dns_openwrt_nex.OpenWrt.Types.{DnsRecord, canonical, key}
use external_dns_openwrt_nex.OpenWrt.Index.{
  IndexedSection, SectionIndex, at_key, add, all_sections, mark_first, mark_owned, drop_first,
  store_sections, drop, owned, foreign, first_unowned, find_unowned,
}

-- The section is in the index.
abbrev pub Indexed : IndexedSection → SectionIndex → Type 0
Indexed s i = Memᴰ s (all_sections i)

mem-all_cons :
    (s : IndexedSection) (k : Str) (l : List IndexedSection) (i : SectionIndex)
    → Indexed s ((k, l) ∷ i) ↔ (Memᴰ s l ⊎ Indexed s i)
unfolding all_sections
mem-all_cons s k l i = mem-append s l (all_sections i)

pub Indexed-at_key :
    (s : IndexedSection) (k : Str) (i : SectionIndex) → Memᴰ s (at_key i k) → Indexed s i
unfolding at_key lookup
Indexed-at_key s k [] m = absurd (Memᴰ.not-nil m)
Indexed-at_key s k ((j, l) ∷ i) m = elim (Bool-cases (j == k)) [
  | inl same ↦ (mem-all_cons s j l i).1 (inl (rw (same, at_key) at m))
  | inr other ↦ (mem-all_cons s j l i).1 (inr (Indexed-at_key s k i (rw (other, at_key) at m)))
]

Indexed-insert :
    (s : IndexedSection) (k : Str) (l : List IndexedSection) (i : SectionIndex)
    → Indexed s (insert k l i)
    → Memᴰ s l ⊎ Indexed s i
unfolding insert
Indexed-insert s k l [] m = (mem-all_cons s k l []).0 m
Indexed-insert s k l ((j, w) ∷ i) m = elim (Bool-cases (j == k)) [
  | inl same ↦ ground (arith, (mem-all_cons s j l i).0 (rw same at m), mem-all_cons s j w i)
  | inr other ↦ ground (
    arith,
    (mem-all_cons s j w (insert k l i)).0 (rw other at m),
    mem-all_cons s j w i,
    Indexed-insert s k l i,
  )
]

Indexed-erase :
    (s : IndexedSection) (k : Str) (i : SectionIndex) → Indexed s (erase k i) → Indexed s i
unfolding erase
Indexed-erase s k [] m = m
Indexed-erase s k ((j, w) ∷ i) m = elim (Bool-cases (j == k)) [
  | inl same ↦ (mem-all_cons s j w i).1 (inr (Indexed-erase s k i (rw same at m)))
  | inr other ↦ ground (
    arith,
    (mem-all_cons s j w (erase k i)).0 (rw other at m),
    mem-all_cons s j w i,
    Indexed-erase s k i,
  )
]

mem-drop_first :
    (s : IndexedSection) (section : Str) (l : List IndexedSection)
    → Memᴰ s (drop_first section l)
    → Memᴰ s l
unfolding drop_first
mem-drop_first s section [] m = m
mem-drop_first s section (x ∷ l) m = elim (Bool-cases (x.name == section)) [
  | inl same ↦ Memᴰ.tail (rw same at m)
  | inr other ↦ ground (
    arith,
    (mem-cons s x (drop_first section l)).0 (rw other at m),
    mem-cons s x l,
    mem-drop_first s section l,
  )
]

Indexed-store_sections :
    (s : IndexedSection) (k : Str) (l : List IndexedSection) (i : SectionIndex)
    → Indexed s (store_sections k l i)
    → Memᴰ s l ⊎ Indexed s i
unfolding store_sections
Indexed-store_sections s k [] i m = inr (Indexed-erase s k i m)
Indexed-store_sections s k (x ∷ l) i m = Indexed-insert s k (x ∷ l) i m

-- Dropping a section brings in no other.
pub Indexed-drop :
    (s : IndexedSection) (i : SectionIndex) (k section : Str)
    → Indexed s (drop i k section)
    → Indexed s i
unfolding drop
Indexed-drop s i k section m =
    elim (Indexed-store_sections s k (drop_first section (at_key i k)) i m) [
      | inl here ↦ Indexed-at_key s k i (mem-drop_first s section (at_key i k) here)
      | inr there ↦ there
    ]

mem-mark_first :
    (s : IndexedSection) (section id : Str) (l : List IndexedSection)
    → Memᴰ s (mark_first section id l)
    → Memᴰ s l ⊎ (s.dns.owner ≡ id)
unfolding mark_first
mem-mark_first s section id [] m = inl m
mem-mark_first s section id (x ∷ l) m = elim (Bool-cases (x.name == section)) [
  | inl same ↦ elim (Memᴰ.cases_cons (rw same at m)) [
    | inl e ↦ inr (ap (λ y. y.dns.owner) e)
    | inr later ↦ inl (Memᴰ.tail later)
  ]
  | inr other ↦ ground (
    arith,
    (mem-cons s x (mark_first section id l)).0 (rw other at m),
    mem-cons s x l,
    mem-mark_first s section id l,
  )
]

-- A section of the index after a mark was there before, or bears the mark.
pub Indexed-mark_owned :
    (s : IndexedSection) (i : SectionIndex) (k section id : Str)
    → Indexed s (mark_owned i k section id)
    → Indexed s i ⊎ (s.dns.owner ≡ id)
unfolding mark_owned at_key
Indexed-mark_owned s i k section id m = elim (Option-cases (lookup k i)) [
  | inl none_there ↦ inl (rw (none_there, mark_owned) at m)
  | inr (l, e) ↦ elim (Indexed-insert s k (mark_first section id l) i (rw (e, mark_owned) at m)) [
    | inr there ↦ inl there
    | inl here ↦ elim (mem-mark_first s section id l here) [
      | inr marked ↦ inr marked
      | inl before ↦ inl (Indexed-at_key s k i (rw (e, at_key) before))
    ]
  ]
]

module _ ⦃u : CaseTable⦄ where
  -- A section of the index after an addition was there before, or is owned.
  pub Indexed-add :
      (s : IndexedSection) (i : SectionIndex) (r : DnsRecord) (section id : Str)
      → Indexed s (add i r section id)
      → Indexed s i ⊎ (s.dns.owner ≡ id)
  unfolding add
  Indexed-add s i r section id m =
      let r' = record (canonical r) { owner = id } in
      let newest : IndexedSection = record { name = section; dns = r' } in
      elim (Indexed-insert s (key r') (at_key i (key r') ++ newest ∷ []) i m) [
        | inr there ↦ inl there
        | inl here ↦ elim (Memᴰ.append_cases (at_key i (key r')) here) [
          | inl before ↦ inl (Indexed-at_key s (key r') i before)
          | inr last ↦ inr (elim ((mem-cons s newest []).0 last) [
            | inl e ↦ ap (λ y. y.dns.owner) e
            | inr nowhere ↦ absurd (Memᴰ.not-nil nowhere)
          ])
        ]
      ]

-- An owned section is in the index, and not another's.
pub owned-Indexed :
    (i : SectionIndex) (k id section : Str)
    → Memᴰ section (owned i k id)
    → (s : IndexedSection) × Indexed s i × (s.name ≡ section) × (foreign id s ≡ false)
unfolding owned
owned-Indexed i k id section m =
    let (s, member, e) =
      Memᴰ.of_map (λ (s : IndexedSection). s.name) (keep (λ s. not (foreign id s)) (at_key i k))
        m in
    let (there, mine) = (mem-keep (λ s. not (foreign id s)) s (at_key i k)).0 member in
    (s, Indexed-at_key s k i there, e, ground (arith, mine))

mem-find_unowned :
    (l : List IndexedSection) (section : Str)
    → find_unowned l ≡ some section
    → (s : IndexedSection) × Memᴰ s l × (s.name ≡ section) × (is_empty s.dns.owner ≡ true)
unfolding find_unowned
mem-find_unowned [] section e = cc
mem-find_unowned (x ∷ l) section e = elim (Bool-cases (is_empty x.dns.owner)) [
  | inl free ↦ (x, Memᴰ.head refl, cc (rw free at e), free)
  | inr taken ↦
      let (s, m, n, f) = mem-find_unowned l section (rw taken at e) in (s, Memᴰ.tail m, n, f)
]

-- A section found unowned is in the index, without an owner.
pub first_unowned-Indexed :
    (i : SectionIndex) (k section : Str)
    → first_unowned i k ≡ some section
    → (s : IndexedSection) × Indexed s i × (s.name ≡ section) × (is_empty s.dns.owner ≡ true)
unfolding first_unowned
first_unowned-Indexed i k section e =
    let (s, m, n, f) = mem-find_unowned (at_key i k) section e in (s, Indexed-at_key s k i m, n, f)
