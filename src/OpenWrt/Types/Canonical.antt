-- ===== src/OpenWrt/Types/Canonical.antt =====
-- pkg/openwrt/types.go, `CanonicalName` and `canonical`: which names they leave as they are.
use external_dns_openwrt_nex.OpenWrt.Types.{
  record_type_cname, canonical, DnsRecord, key, canonical_name,
}
use external_dns_openwrt_nex.Strings.{◌==◌, Str, CaseTable, to_lower, trim_space, trim_dot}
use external_dns_openwrt_nex.Prelude.{
  true, not, ◌||◌, ◌≡◌, refl, ap, ◌∙◌, arith, inl, inr, Bool-cases,
}
use external_dns_openwrt_nex.Strings.Laws.{to_lower-to_lower}
use external_dns_openwrt_nex.Strings.Trim.{
  bare_start, bare_end, bare_start-to_lower, trim_dot_bare, trim_dot_id, trim_space_bare,
  trim_space_id,
}

module _ ⦃u : CaseTable⦄ where
  canonical_name_bare : (s : Str) → bare_start (canonical_name s) ≡ true
  unfolding canonical_name
  canonical_name_bare s = rw bare_start-to_lower (trim_dot_bare (trim_space s) (trim_space_bare s))

  -- Taking the canonical name of a canonical name changes nothing, unless the first left a dot or
  -- a space at the end.
  pub canonical_name_idem :
      (s : Str)
      → bare_end (canonical_name s) ≡ true
      → canonical_name (canonical_name s) ≡ canonical_name s
  unfolding canonical_name
  canonical_name_idem s h =
      let t = canonical_name s in
      ap to_lower (ap trim_dot (trim_space_id t (canonical_name_bare s) h) ∙ trim_dot_id t h)
      ∙ to_lower-to_lower (trim_dot (trim_space s))

  -- The canonical name ends in neither a dot nor a space, nor does the canonical target of a CNAME.
  abbrev pub HasBareEnds : DnsRecord → Type 0
  HasBareEnds r =
      (bare_end (canonical_name r.name) ≡ true)
      × ((not (r.type == record_type_cname) || bare_end (canonical_name r.value)) ≡ true)

  -- The canonical form of such a record has the record's key.
  pub key-canonical : (r : DnsRecord) → HasBareEnds r → key (canonical r) ≡ key r
  unfolding key canonical
  key-canonical r (n, v) =
      let name = canonical_name_idem r.name n in
      elim (Bool-cases (r.type == record_type_cname)) [
        | inl cname ↦ rw (cname, name, canonical_name_idem r.value (ground arith)) refl
        | inr other ↦ rw (other, name) refl
      ]
