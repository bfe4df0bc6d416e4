-- ===== src/OpenWrt/Types.antt =====
-- pkg/openwrt/types.go: the record of one UCI section, its canonical spelling, its identity and
-- the checks before it is written.
pub mod Canonical
pub mod Valid
pub mod Identity
use external_dns_openwrt_nex.Prelude.{
  ℕ, ◌+◌, Bool, true, false, not, ◌||◌, List, [], ◌∷◌, ◌++◌, Option, none, some, any, ltb, leb, eqb,
  is_empty, if◌then◌else◌,
}
use external_dns_openwrt_nex.Strings.{
  Str, codes, ◌==◌, CaseTable, to_lower, trim_space, trim_dot, split_dots, len,
}
use external_dns_openwrt_nex.NetIp.{is_v4}

abbrev pub record_type_a : Str
record_type_a = codes "A"

abbrev pub record_type_cname : Str
record_type_cname = codes "CNAME"

pub record DnsRecord : Type 0 where
  pub type : Str
  pub name : Str
  pub value : Str
  pub owner : Str

module _ ⦃u : CaseTable⦄ where
  unfoldable pub canonical_name : Str → Str
  canonical_name name = to_lower (trim_dot (trim_space name))

  unfoldable pub canonical : DnsRecord → DnsRecord
  canonical r = record r {
    name = canonical_name r.name;
    value = if r.type == record_type_cname then canonical_name r.value else r.value;
  }

  unfoldable pub key : DnsRecord → Str
  unfolding canonical
  key r = let c = canonical r in c.type ++ (b'|' ∷ (c.name ++ (b'|' ∷ c.value)))

-- `breaksDnsmasq`.
unfoldable pub breaks_dnsmasq : ℕ → Bool
breaks_dnsmasq r = leb r b' ' || leb 0x7f r || eqb r b',' || eqb r b'"' || eqb r b'#'

unfoldable pub too_long : Str → Bool
unfolding split_dots len
too_long name = ltb 253 (len name) || any (λ label. ltb 63 (len label)) (split_dots name)

-- The errors of `Validate`: what each message names.
pub data Invalid : Type 0 where
  no_name no_value bad_name bad_value long_name long_value not_ipv4 : Invalid

module _ ⦃u : CaseTable⦄ where
  -- `none` is the nil error.
  unfoldable pub validate : DnsRecord → Option Invalid
  validate r =
      let c = canonical r in
      if is_empty c.name
      then some no_name
      else if is_empty c.value
      then some no_value
      else if any breaks_dnsmasq c.name
      then some bad_name
      else if any breaks_dnsmasq c.value
      then some bad_value
      else if too_long c.name
      then some long_name
      else if too_long c.value
      then some long_value
      else if r.type == record_type_a
      then (if is_v4 c.value then none else some not_ipv4)
      else none
