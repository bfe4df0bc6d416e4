-- ===== src/OpenWrt/Index.antt =====
-- pkg/openwrt/index.go: the index of UCI sections by the identity of the record they hold, which a
-- change set looks up and keeps up to date.
pub mod Loop
pub mod Grown
pub mod View
pub mod Members
pub mod Owned
pub mod Distinct
use mathlib.Core.List.{foldl}
use external_dns_openwrt_nex.Prelude.{
  ℕ, zero, suc, ◌*◌, Bool, true, false, not, ◌&&◌, ◌||◌, List, [], ◌∷◌, ◌++◌, map, Option, none,
  some, any, keep, length, is_empty, if◌then◌else◌,
}
use external_dns_openwrt_nex.Strings.{Str, ◌==◌, CaseTable}
use external_dns_openwrt_nex.GoMap.{GoMap, lookup, insert, erase, str_key}
use external_dns_openwrt_nex.OpenWrt.Types.{
  DnsRecord, record_type_cname, canonical_name, canonical, key,
}

-- The field `dns` is the source's `record`.
pub record IndexedSection : Type 0 where
  pub name : Str
  pub dns : DnsRecord

abbrev pub SectionIndex : Type 0
SectionIndex = GoMap Str (List IndexedSection)

-- `i[key]`, which is empty where the key is missing.
unfoldable pub at_key : SectionIndex → Str → List IndexedSection
at_key i k = elim (lookup k i) [ none ↦ [] | some sections ↦ sections ]

module _ ⦃u : CaseTable⦄ where
  unfoldable pub add : SectionIndex → DnsRecord → Str → Str → SectionIndex
  unfolding at_key
  add i r section ownership_id =
      let r' = record (canonical r) { owner = ownership_id } in
      insert (key r') (at_key i (key r') ++ record { name = section; dns = r' } ∷ []) i

  unfoldable pub new_section_index : GoMap Str DnsRecord → SectionIndex
  unfolding add
  new_section_index sections = foldl (λ i (name, r). add i r name r.owner) [] sections

-- Whether a section is left out of `owned`.
abbrev pub foreign : Str → IndexedSection → Bool
foreign ownership_id s = not (is_empty ownership_id) && not (s.dns.owner == ownership_id)

unfoldable pub owned : SectionIndex → Str → Str → List Str
unfolding at_key
owned i k ownership_id = map (λ s. s.name) (keep (λ s. not (foreign ownership_id s)) (at_key i k))

find_unowned : List IndexedSection → Option Str
find_unowned [] = none
find_unowned (s ∷ rest) = if is_empty s.dns.owner then some s.name else find_unowned rest

unfoldable pub first_unowned : SectionIndex → Str → Option Str
unfolding at_key find_unowned
first_unowned i k = find_unowned (at_key i k)

-- All sections, in the order in which an iteration of the map meets them.
unfoldable pub all_sections : SectionIndex → List IndexedSection
all_sections [] = []
all_sections ((k, sections) ∷ i) = sections ++ all_sections i

abbrev pub holds : Str → Str → IndexedSection → Bool
holds type name s = s.dns.type == type && s.dns.name == name

abbrev pub seen_in : Str → List Str → Bool
seen_in name = any (λ other. other == name)

-- `next = append(next, …)` for each section. The list's head is the slice's end.
abbrev pub push_all : List IndexedSection → List Str → List Str
push_all [] next = next
push_all (s ∷ rest) next = push_all rest (s.dns.value ∷ next)

-- A round pushes at most every section's value, and does so once for each name.
unfoldable pub rounds : SectionIndex → ℕ
rounds i = let n = length (all_sections i) in suc (n * suc n)

module _ ⦃u : CaseTable⦄ where
  unfoldable pub named : SectionIndex → Str → Str → List IndexedSection
  unfolding all_sections
  named i type name = keep (holds type (canonical_name name)) (all_sections i)

  -- The loop of `closesCNAMELoop`. `none`: the rounds ran out.
  unfoldable pub search_loop : SectionIndex → Str → ℕ → List Str → List Str → Option Bool
  search_loop i alias fuel seen [] = some false
  search_loop i alias zero seen (name ∷ next) = none
  search_loop i alias (suc fuel) seen (name ∷ next) =
      let skip = search_loop i alias fuel seen next in
      let follow =
        search_loop i alias fuel (name ∷ seen) (push_all (named i record_type_cname name) next) in
      if name == alias then some true else if seen_in name seen then skip else follow

  unfoldable pub closes_cname_loop : SectionIndex → Str → Str → Bool
  unfolding search_loop named rounds
  closes_cname_loop i alias target =
      let start = canonical_name target ∷ [] in
      elim (search_loop i (canonical_name alias) (rounds i) [] start) [ some b ↦ b | none ↦ false ]

pub mark_first : Str → Str → List IndexedSection → List IndexedSection
mark_first section ownership_id [] = []
mark_first section ownership_id (s ∷ rest) =
    if s.name == section
    then record s { dns = record s.dns { owner = ownership_id } } ∷ rest
    else s ∷ mark_first section ownership_id rest

unfoldable pub mark_owned : SectionIndex → Str → Str → Str → SectionIndex
unfolding mark_first
mark_owned i k section ownership_id = elim (lookup k i) [
  | none ↦ i
  | some sections ↦ insert k (mark_first section ownership_id sections) i
]

pub drop_first : Str → List IndexedSection → List IndexedSection
drop_first section [] = []
drop_first section (s ∷ rest) = if s.name == section then rest else s ∷ drop_first section rest

-- Dropping the key of an emptied list.
store_sections : Str → List IndexedSection → SectionIndex → SectionIndex
store_sections k [] i = erase k i
store_sections k (s ∷ rest) i = insert k (s ∷ rest) i

unfoldable pub drop : SectionIndex → Str → Str → SectionIndex
unfolding at_key drop_first store_sections
drop i k section = store_sections k (drop_first section (at_key i k)) i
