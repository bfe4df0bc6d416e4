-- ===== src/OpenWrt/Index/Distinct.antt =====
-- pkg/openwrt/index.go: the names of the sections of a new index are different.
use external_dns_openwrt_nex.Prelude.{
  Bool, false, List, [], ◌∷◌, ◌++◌, none, some, ◌≡◌, refl, sym, subst, arith, inl, inr, any,
  Bool-cases,
}
use mathlib.Core.List.{foldl}
use external_dns_openwrt_nex.Strings.{Str, ◌==◌, CaseTable}
use external_dns_openwrt_nex.Strings.Laws.{eq_iff}
use external_dns_openwrt_nex.GoMap.{GoMap, HasUniqueKeys, lookup, str_key}
use external_dns_openwrt_nex.OpenWrt.Types.{DnsRecord, canonical, key}
use external_dns_openwrt_nex.OpenWrt.Index.{
  IndexedSection, SectionIndex, at_key, add, new_section_index,
}
use external_dns_openwrt_nex.OpenWrt.Index.Owned.{at_key-add, newest, IsDistinct}

abbrev absent : Str → List IndexedSection → Bool
absent name l = any (λ x. name == x.name) l

absent-append :
    (name : Str) (l : List IndexedSection) (s : IndexedSection)
    → absent name l ≡ false
    → (name == s.name) ≡ false
    → absent name (l ++ s ∷ []) ≡ false
absent-append name [] s h e = ground (arith, e)
absent-append name (x ∷ l) s h e = ground (arith, absent-append name l s)

IsDistinct-append :
    (l : List IndexedSection) (s : IndexedSection)
    → IsDistinct l
    → absent s.name l ≡ false
    → IsDistinct (l ++ s ∷ [])
IsDistinct-append [] s d h = (refl, tt)
IsDistinct-append (x ∷ l) s d h = (
  absent-append x.name l s d.0 (ground (arith, eq_iff x.name s.name, eq_iff s.name x.name)),
  IsDistinct-append l s d.1 (ground arith),
)

module _ ⦃u : CaseTable⦄ where
  -- The sections under each key of an index have different names.
  abbrev pub HasDistinctNames : SectionIndex → Type 0
  HasDistinctNames i = (k : Str) → IsDistinct (at_key i k)

  -- No section of the index has a name that the map has still to add.
  abbrev IsAhead : SectionIndex → GoMap Str DnsRecord → Type 0
  IsAhead i m =
      (name k : Str) (r : DnsRecord) → lookup name m ≡ some r → absent name (at_key i k) ≡ false

  add-HasDistinctNames :
      (i : SectionIndex) (r : DnsRecord) (name id : Str)
      → HasDistinctNames i
      → ((k : Str) → absent name (at_key i k) ≡ false)
      → HasDistinctNames (add i r name id)
  add-HasDistinctNames i r name id d h k =
      subst IsDistinct (sym (at_key-add i r name id k))
        (elim (Bool-cases (key (canonical r) == k)) [
          | inl same ↦ rw same (
              IsDistinct-append (at_key i (key (canonical r))) (newest r name id)
                (d (key (canonical r))) (h (key (canonical r))))
          | inr other ↦ rw other (d k)
        ])

  add-IsAhead :
      (i : SectionIndex) (r : DnsRecord) (name id : Str) (m : GoMap Str DnsRecord)
      → lookup name m ≡ none
      → ((other k : Str) (x : DnsRecord)
          → lookup other m ≡ some x
          → absent other (at_key i k) ≡ false)
      → IsAhead (add i r name id) m
  add-IsAhead i r name id m unique h other k x e =
      let c = key (canonical r) in
      let apart : (other == name) ≡ false = elim (Bool-cases (other == name)) [
        | inr ne ↦ ne
        | inl same ↦ cc ((eq_iff other name).0 same)
      ] in
      ground (
        arith,
        at_key-add i r name id k,
        absent-append other (at_key i c) (newest r name id) (h other c x e) apart,
        h other k x e,
      )

  fold-HasDistinctNames :
      (i : SectionIndex) (m : GoMap Str DnsRecord)
      → HasDistinctNames i
      → IsAhead i m
      → HasUniqueKeys m
      → HasDistinctNames (foldl (λ j (name, r). add j r name r.owner) i m)
  unfolding lookup
  fold-HasDistinctNames i [] d a un = d
  fold-HasDistinctNames i ((name, r) ∷ m) d a un =
      fold-HasDistinctNames (add i r name r.owner) m
        (add-HasDistinctNames i r name r.owner d
          (λ k. a name k r (ground (arith, eq_iff name name))))
        (add-IsAhead i r name r.owner m un.0
          (λ other k x e. a other k x (ground (arith, eq_iff name other))))
        un.1

  -- A new index holds no section twice, since the names are the keys of a map.
  pub new_section_index-HasDistinctNames :
      (m : GoMap Str DnsRecord) → HasUniqueKeys m → HasDistinctNames (new_section_index m)
  unfolding new_section_index at_key lookup
  new_section_index-HasDistinctNames m un =
      fold-HasDistinctNames [] m (λ k. tt) (λ n k r e. refl) un
