-- ===== src/OpenWrt/Apply/Written.antt =====
-- pkg/openwrt/openwrt.go: what `createSection` writes is what `parseSection` reads.
use external_dns_openwrt_nex.Prelude.{
  true, false, [], ◌∷◌, map, none, some, ◌≡◌, refl, ap, ◌∙◌, arith, inl, inr, ◌⊎◌, ◌≢◌,
  if◌then◌else◌, is_empty, Bool-cases,
}
use external_dns_openwrt_nex.NetIp.{is_v6}
use external_dns_openwrt_nex.Strings.{Str, codes, CaseTable, ◌==◌}
use external_dns_openwrt_nex.Strings.Laws.{eq_iff}
use external_dns_openwrt_nex.GoMap.{GoMap, lookup, str_key}
use external_dns_openwrt_nex.Ubus.Wire.{single, Request, text, options}
use external_dns_openwrt_nex.OpenWrt.Types.{
  DnsRecord, record_type_a, record_type_cname, canonical, validate,
}
use external_dns_openwrt_nex.OpenWrt.Types.Canonical.{HasBareEnds, canonical_name_idem}
use external_dns_openwrt_nex.OpenWrt.Types.Valid.{validate_iff}
use external_dns_openwrt_nex.OpenWrt.Sections.{OpenWrt, Options, parse_section}
use external_dns_openwrt_nex.OpenWrt.Apply.{add_request, section_values, uci}

-- The options of a section by which this owner marks it; none where it has no name.
abbrev marker : Str → Options
marker id = if is_empty id then [] else (codes "external_dns", single id) ∷ []

-- The section that a request has the router make: `uci add` makes one of the type and with the
-- options that the request gives.
abbrev pub StoresAdded : (Request → Options) → Type 0
StoresAdded stored =
    (type name : Str) (values : GoMap Str Str)
    → stored (
        uci (codes "add") (
          (codes "type", text type)
          ∷ (codes "name", text name)
          ∷ (codes "values", options values)
          ∷ []))
      ≡ (codes ".type", single type) ∷ map (λ (k, v). (k, single v)) values

module _ ⦃u : CaseTable⦄ where
  read_cname :
      (name target id : Str)
      → is_empty name ≡ false
      → is_empty target ≡ false
      → parse_section (
          (codes ".type", single (codes "cname"))
          ∷ (codes "cname", single name)
          ∷ (codes "target", single target)
          ∷ marker id)
        ≡ some (
            canonical
              (record { type = record_type_cname; name = name; value = target; owner = id }))
  unfolding parse_section lookup ◌==◌
  read_cname name target [] n v = rw (n, v) refl
  read_cname name target (c ∷ id) n v = rw (n, v) refl

  read_domain :
      (name ip id : Str)
      → is_empty name ≡ false
      → is_empty ip ≡ false
      → is_v6 ip ≡ false
      → parse_section (
          (codes ".type", single (codes "domain"))
          ∷ (codes "name", single name)
          ∷ (codes "ip", single ip)
          ∷ marker id)
        ≡ some (canonical (record { type = record_type_a; name = name; value = ip; owner = id }))
  unfolding parse_section lookup ◌==◌
  read_domain name ip [] n v w = rw (n, v, w) refl
  read_domain name ip (c ∷ id) n v w = rw (n, v, w) refl

  module _ {S : Type 0} (o : OpenWrt S) (stored : Request → Options)
      (by_add : StoresAdded stored) where
    written-cname :
        (r : DnsRecord) (random : Str)
        → (r.type == record_type_cname) ≡ true
        → stored (add_request o r random) ≡ (
            (codes ".type", single (codes "cname"))
            ∷ (codes "cname", single r.name)
            ∷ (codes "target", single r.value)
            ∷ marker o.ownership_id)
    unfolding add_request section_values
    written-cname r random t = elim (Bool-cases (is_empty o.ownership_id)) [
      | inl none_given ↦ rw (t, none_given) (by_add _ _ _)
      | inr given ↦ rw (t, given) (by_add _ _ _)
    ]

    written-domain :
        (r : DnsRecord) (random : Str)
        → (r.type == record_type_cname) ≡ false
        → stored (add_request o r random) ≡ (
            (codes ".type", single (codes "domain"))
            ∷ (codes "name", single r.name)
            ∷ (codes "ip", single r.value)
            ∷ marker o.ownership_id)
    unfolding add_request section_values
    written-domain r random t = elim (Bool-cases (is_empty o.ownership_id)) [
      | inl none_given ↦ rw (t, none_given) (by_add _ _ _)
      | inr given ↦ rw (t, given) (by_add _ _ _)
    ]

    is_cname :
        (r : DnsRecord)
        → r.type ≡ record_type_cname
        → ((canonical r).type == record_type_cname) ≡ true
    unfolding canonical
    is_cname r t = (eq_iff r.type record_type_cname).1 t

    is_address :
        (r : DnsRecord) → r.type ≡ record_type_a → ((canonical r).type == record_type_cname) ≡ false
    unfolding canonical ◌==◌
    is_address r t = rw t refl

    filled : (s : Str) → s ≢ [] → is_empty s ≡ false
    filled [] h = absurd (h refl)
    filled (c ∷ s) h = refl

    -- The canonical form of a canonical form, under another owner.
    canonical-owned :
        (r : DnsRecord) (type : Str)
        → HasBareEnds r
        → r.type ≡ type
        → canonical (record {
          type = type;
          name = (canonical r).name;
          value = (canonical r).value;
          owner = o.ownership_id;
        })
          ≡ record (canonical r) { owner = o.ownership_id }
    unfolding canonical
    canonical-owned r type (n, v) e =
        let name = canonical_name_idem r.name n in
        elim (Bool-cases (r.type == record_type_cname)) [
          | inl cname ↦ rw (← e, cname, name, canonical_name_idem r.value (ground arith)) refl
          | inr other ↦ rw (← e, other, name) refl
        ]

    -- The section that the router makes of the `uci add` request for a valid record is read back as
    -- that record, in its canonical form and with this owner, if it is a CNAME, or an A record whose
    -- canonical value is no IPv6 address, and its canonical name and target end in neither a dot nor a
    -- space. The router makes a section of the type and with the options that the request gives.
    pub parse_section-written :
        (r : DnsRecord) (random : Str)
        → validate r ≡ none
        → HasBareEnds r
        → (r.type ≡ record_type_cname)
          ⊎ ((r.type ≡ record_type_a) × (is_v6 (canonical r).value ≡ false))
        → parse_section (stored (add_request o (canonical r) random))
          ≡ some (record (canonical r) { owner = o.ownership_id })
    parse_section-written r random valid bare (inl t) =
        let w = (validate_iff r).0 valid in
        let c = canonical r in
        ap parse_section (written-cname c random (is_cname r t))
        ∙ read_cname c.name c.value o.ownership_id (filled c.name w.name_given)
            (filled c.value w.value_given)
        ∙ ap some (canonical-owned r record_type_cname bare t)
    parse_section-written r random valid bare (inr (t, v)) =
        let w = (validate_iff r).0 valid in
        let c = canonical r in
        ap parse_section (written-domain c random (is_address r t))
        ∙ read_domain c.name c.value o.ownership_id (filled c.name w.name_given)
            (filled c.value w.value_given) v
        ∙ ap some (canonical-owned r record_type_a bare t)
