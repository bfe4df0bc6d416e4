-- ===== src/OpenWrt/Apply/Achieves.antt =====
-- pkg/openwrt/openwrt.go: what a change set that went through has done.
use external_dns_openwrt_nex.Prelude.{
  ℕ, false, List, [], ◌∷◌, ◌≡◌, ◌∙◌, inl, inr, if◌then◌else◌, keep, All,
}
use external_dns_openwrt_nex.Strings.{Str, CaseTable}
use external_dns_openwrt_nex.GoMap.{GoMap, HasUniqueKeys, str_key}
use external_dns_openwrt_nex.Exec.{ok, Result-cases}
use external_dns_openwrt_nex.OpenWrt.Types.{DnsRecord}
use external_dns_openwrt_nex.OpenWrt.Types.Canonical.{HasBareEnds, key-canonical}
use external_dns_openwrt_nex.OpenWrt.Sections.{OpenWrt}
use external_dns_openwrt_nex.OpenWrt.Index.{at_key, foreign, new_section_index}
use external_dns_openwrt_nex.OpenWrt.Index.Distinct.{
  HasDistinctNames, new_section_index-HasDistinctNames,
}
use external_dns_openwrt_nex.OpenWrt.Apply.{Pass, Skip, remove_all, reconcile}
use external_dns_openwrt_nex.OpenWrt.Apply.Removals.{has_key, remove_all-at_key}
use external_dns_openwrt_nex.OpenWrt.Apply.Added.{IsStable}
use external_dns_openwrt_nex.OpenWrt.Apply.Additions.{Settled, add_all-Additions}

module _ ⦃u : CaseTable⦄ {S : Type 0} (o : OpenWrt S) where
  -- What a change set has done to the passed index.
  record Achieved (remove additions : List DnsRecord) (skipped : List Skip) (p p' : Pass S)
      : Type 0 where
    pub wanted : All (Settled o skipped p') additions
    pub others :
        (k : Str)
        → has_key k additions ≡ false
        → at_key p'.index k ≡ (
            if has_key k remove
            then keep (foreign o.ownership_id) (at_key p.index k)
            else at_key p.index k)

  reconcile-Achieved :
      (remove additions : List DnsRecord) (p : Pass S) (changed : ℕ) (skipped : List Skip)
      → HasDistinctNames p.index
      → All IsStable additions
      → (reconcile o remove additions p).0 ≡ ok (changed, skipped)
      → Achieved remove additions skipped p (reconcile o remove additions p).1
  unfolding reconcile
  reconcile-Achieved remove additions p changed skipped d stable e =
      elim (Result-cases (remove_all o remove 0 p).0) [
        | inr (f, h) ↦ cc (rw h at e)
        | inl (n, h) ↦
            let p1 = (remove_all o remove 0 p).1 in
            let a = add_all-Additions o additions n [] p1 changed skipped stable (rw h at e) in
            rw h (record {
              wanted = a.settled;
              others = λ k free. a.others k free ∙ remove_all-at_key o remove 0 p n d h k;
            })
      ]

  abbrev pub opening : GoMap Str DnsRecord → S → Pass S
  opening all w = record { world = w; index = new_section_index all }

  All-IsStable : (rs : List DnsRecord) → All HasBareEnds rs → All IsStable rs
  All-IsStable [] h = tt
  All-IsStable (r ∷ rs) h = (key-canonical r h.0, All-IsStable rs h.1)

  opening-Achieved :
      (remove additions : List DnsRecord) (all : GoMap Str DnsRecord) (w : S) (changed : ℕ)
      (skipped : List Skip)
      → HasUniqueKeys all
      → All HasBareEnds additions
      → (reconcile o remove additions (opening all w)).0 ≡ ok (changed, skipped)
      → Achieved remove additions skipped
          (opening all w)
          (reconcile o remove additions (opening all w)).1
  opening-Achieved remove additions all w changed skipped un bare =
      reconcile-Achieved remove additions (opening all w) changed skipped
        (new_section_index-HasDistinctNames all un) (All-IsStable additions bare)

  -- A change set that went through, on the index of the router's sections: every addition has a
  -- section of this owner in the index, or is among the skipped records with a reason. The canonical
  -- names and targets of the additions end in neither a dot nor a space.
  pub reconcile-settles :
      (remove additions : List DnsRecord) (all : GoMap Str DnsRecord) (w : S) (changed : ℕ)
      (skipped : List Skip)
      → HasUniqueKeys all
      → All HasBareEnds additions
      → (reconcile o remove additions (opening all w)).0 ≡ ok (changed, skipped)
      → All (Settled o skipped (reconcile o remove additions (opening all w)).1) additions
  reconcile-settles remove additions all w changed skipped un stable e =
      (opening-Achieved remove additions all w changed skipped un stable e).wanted

  -- A change set that went through, on the index of the router's sections: under a key that no
  -- addition has, the index holds the sections that it held at the start, less those of this owner
  -- if a removal has the key. The canonical
  -- names and targets of the additions end in neither a dot nor a space.
  pub reconcile-at_key :
      (remove additions : List DnsRecord) (all : GoMap Str DnsRecord) (w : S) (changed : ℕ)
      (skipped : List Skip) (k : Str)
      → HasUniqueKeys all
      → All HasBareEnds additions
      → (reconcile o remove additions (opening all w)).0 ≡ ok (changed, skipped)
      → has_key k additions ≡ false
      → at_key (reconcile o remove additions (opening all w)).1.index k ≡ (
          if has_key k remove
          then keep (foreign o.ownership_id) (at_key (new_section_index all) k)
          else at_key (new_section_index all) k)
  reconcile-at_key remove additions all w changed skipped k un stable e =
      (opening-Achieved remove additions all w changed skipped un stable e).others k
