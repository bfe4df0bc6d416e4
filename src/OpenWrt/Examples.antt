-- ===== src/OpenWrt/Examples.antt =====
-- Tests of pkg/openwrt, and its theorems at concrete inputs.
use external_dns_openwrt_nex.OpenWrt.Index.Loop.Rounds.{search_returns}
use external_dns_openwrt_nex.NetIp.{is_v4}
use external_dns_openwrt_nex.OpenWrt.Types.{breaks_dnsmasq, too_long}
use external_dns_openwrt_nex.Prelude.{
  Bool, true, false, [], ◌∷◌, none, some, ◌≡◌, refl, arith, inl, inr, ◌↔◌, All,
}
use external_dns_openwrt_nex.GoMap.{lookup, insert, GoMap, str_key}
use external_dns_openwrt_nex.OpenWrt.Apply.Serving.{IsKnown, reconcile-IsServing}
use external_dns_openwrt_nex.OpenWrt.Index.Loop.{closes_cname_loop_iff, Walk}
use external_dns_openwrt_nex.OpenWrt.Types.Identity.{key_iff}
use external_dns_openwrt_nex.Strings.{◌==◌, to_lower, codes, trim_dot, Str, trim_space}
use external_dns_openwrt_nex.Fixtures.{alias_record, router, address, kelvin_table}
use external_dns_openwrt_nex.OpenWrt.Index.{
  rounds, new_section_index, all_sections, closes_cname_loop, search_loop,
}
use external_dns_openwrt_nex.OpenWrt.Types.Valid.{validate_iff, IsWritable}
use external_dns_openwrt_nex.OpenWrt.Types.{DnsRecord, key, canonical, canonical_name, validate}
use external_dns_openwrt_nex.NetIp.{is_v6, is_v4}
use external_dns_openwrt_nex.OpenWrt.Apply.{reconcile, Pass}
use external_dns_openwrt_nex.OpenWrt.Apply.Safe.{IsServing}
use mathlib.Core.List.Memᴰ

canonical_spelling : canonical_name (codes " NAS.Lan. ") ≡ codes "nas.lan"
unfolding canonical_name trim_space trim_dot to_lower
canonical_spelling = refl

-- A letter past ASCII can have an ASCII letter for its lower case.
kelvin_becomes_ascii : canonical_name (0x212a ∷ codes "8s.lan") ≡ codes "k8s.lan"
unfolding canonical_name trim_space trim_dot to_lower
kelvin_becomes_ascii = refl

addresses :
    (is_v4 (codes "192.0.2.1") ≡ true)
    × (is_v4 (codes "192.0.2.01") ≡ false)
    × (is_v4 (codes "192.0.2.256") ≡ false)
    × (is_v4 (codes "192.0.2") ≡ false)
    × (is_v6 (codes "2001:db8::1") ≡ true)
    × (is_v6 (codes "::ffff:192.0.2.1") ≡ true)
    × (is_v6 (codes "1::2::3") ≡ false)
    × (is_v6 (codes "fe80::1%eth0") ≡ true)
    × (is_v6 (codes "1:2:3:4:5:6:7:8") ≡ true)
    × (is_v6 (codes "1:2:3:4:5:6:7") ≡ false)
unfolding is_v4 is_v6
addresses = (refl, refl, refl, refl, refl, refl, refl, refl, refl, refl)

abbrev loop_sections : GoMap Str DnsRecord
loop_sections =
    (
      codes "a",
      record { type = codes "CNAME"; name = codes "b.lan"; value = codes "c.lan"; owner = [] },
    )
    ∷ (
      codes "b",
      record { type = codes "CNAME"; name = codes "c.lan"; value = codes "d.lan"; owner = [] },
    )
    ∷ []

closes_loop_test :
    (closes_cname_loop (new_section_index loop_sections) (codes "D.lan") (codes "b.lan") ≡ true)
    × (closes_cname_loop (new_section_index loop_sections) (codes "e.lan") (codes "b.lan") ≡ false)
unfolding closes_cname_loop new_section_index key canonical_name trim_space trim_dot to_lower ◌==◌
    insert lookup
closes_loop_test = (refl, refl)

closes_cname_loop_iff_example :
    (closes_cname_loop (new_section_index loop_sections) (codes "D.lan") (codes "b.lan") ≡ true)
    ↔ ∥ Walk
        (new_section_index loop_sections)
        (canonical_name (codes "D.lan"))
        (canonical_name (codes "b.lan")) ∥₁
closes_cname_loop_iff_example =
    closes_cname_loop_iff (new_section_index loop_sections) (codes "D.lan") (codes "b.lan")

search_returns_example :
    (b : Bool) × (search_loop
        (new_section_index loop_sections)
        (codes "d.lan")
        (rounds (new_section_index loop_sections))
        []
        (codes "b.lan" ∷ [])
      ≡ some b)
search_returns_example =
    search_returns (new_section_index loop_sections) (codes "d.lan") (codes "b.lan")

validate_iff_example : (validate address ≡ none) ↔ IsWritable address
validate_iff_example = validate_iff address

key_iff_example : (key address ≡ key alias_record) ↔ (
    (address.type ≡ alias_record.type)
    × ((canonical address).name ≡ (canonical alias_record).name)
    × ((canonical address).value ≡ (canonical alias_record).value))
unfolding canonical canonical_name trim_space trim_dot to_lower
key_iff_example =
    key_iff address alias_record (omega arith) (omega arith) (omega arith) (omega arith)

abbrev nothing : Pass (Unit {0})
nothing = record { world = tt; index = [] }

IsServing-nothing : IsServing []
unfolding all_sections
IsServing-nothing = record {
  safe = record {
    one_cname = λ n. omega arith;
    no_loop = λ a b l w. Memᴰ.not-nil l.listed;
    apart = λ n p. refl;
  };
  settled = λ s m. absurd (Memᴰ.not-nil m);
}

additions-IsKnown : All IsKnown (address ∷ alias_record ∷ [])
unfolding canonical_name trim_space trim_dot to_lower
additions-IsKnown = ((inr refl, refl), ((inl refl, refl), tt))

reconcile-IsServing_example :
    IsServing (reconcile router [] (address ∷ alias_record ∷ []) nothing).1.index
reconcile-IsServing_example =
    reconcile-IsServing router [] (address ∷ alias_record ∷ []) nothing additions-IsKnown
      IsServing-nothing

abbrev dotted : DnsRecord
dotted = record address { name = codes "nas.lan.." }

-- A name with two dots at its end passes the validation, and the name that is written for it has
-- another canonical name.
two_dots_test :
    (validate dotted ≡ none)
    × ((canonical dotted).name ≡ codes "nas.lan.")
    × (canonical_name (canonical dotted).name ≡ codes "nas.lan")
unfolding validate canonical canonical_name trim_space trim_dot to_lower ◌==◌ breaks_dnsmasq
    too_long is_v4
two_dots_test = (refl, refl, refl)
