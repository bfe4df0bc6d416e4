-- ===== src/OpenWrt/Sections.antt =====
-- pkg/openwrt/openwrt.go: reading the dhcp sections of the router, and the records among them.
use external_dns_openwrt_nex.Exec.{pure, ◌>>=◌, Exec}
use external_dns_openwrt_nex.GoMap.{str_key, lookup, GoMap}
use external_dns_openwrt_nex.OpenWrt.Types.{record_type_cname, canonical, record_type_a, DnsRecord}
use external_dns_openwrt_nex.NetIp.{is_v6}
use external_dns_openwrt_nex.Prelude.{
  [], none, ◌&&◌, ◌||◌, ◌∷◌, if◌then◌else◌, keep, some, is_empty, Option, not, Bool, true,
}
use external_dns_openwrt_nex.Strings.{◌==◌, codes, CaseTable, Str}
use external_dns_openwrt_nex.Ubus.Wire.{single, text, OptionValue, Client, Request}
use external_dns_openwrt_nex.Ubus.Errors.{Error}

pub record OpenWrt (S : Type 0) : Type 0 where
  pub ubus : Client S
  pub reader : Client S
  pub ownership_id : Str
  -- `rand.Text()`, a draw from the system's randomness.
  pub rand_text : S → Str × S

abbrev pub ownership_enabled : {S : Type 0} → OpenWrt S → Bool
ownership_enabled o = not (is_empty o.ownership_id)

abbrev pub Options : Type 0
Options = GoMap Str OptionValue

-- The text in an option; nothing for a missing option or a list.
abbrev text_of : Option OptionValue → Str
text_of (some (single v)) = v
text_of _ = []

unfoldable pub string_option : Options → Str → Str
string_option options k = text_of (lookup k options)

module _ ⦃u : CaseTable⦄ where
  -- The checks and the result that both section types share.
  finish : DnsRecord → Option DnsRecord
  finish r = if is_empty r.name || is_empty r.value then none else some (canonical r)

  unfoldable pub parse_section : Options → Option DnsRecord
  unfolding string_option finish
  parse_section options =
      let owner = string_option options (codes "external_dns") in
      let type = string_option options (codes ".type") in
      let ip = string_option options (codes "ip") in
      if type == codes "domain"
      then (if is_v6 ip
          then none
          else finish (record {
            type = record_type_a;
            name = string_option options (codes "name");
            value = ip;
            owner = owner;
          }))
      else if type == codes "cname"
      then finish (record {
        type = record_type_cname;
        name = string_option options (codes "cname");
        value = string_option options (codes "target");
        owner = owner;
      })
      else none

  -- The loop of `readSections` over the values.
  unfoldable pub parse_sections : GoMap Str Options → GoMap Str DnsRecord
  parse_sections [] = []
  parse_sections ((section, options) ∷ rest) = elim (parse_section options) [
    | none ↦ parse_sections rest
    | some r ↦ (section, r) ∷ parse_sections rest
  ]

abbrev pub get_request : Request
get_request = record {
  object = codes "uci";
  method = codes "get";
  args = (codes "config", text (codes "dhcp")) ∷ [];
}

module _ ⦃u : CaseTable⦄ {S : Type 0} where
  unfoldable pub read_sections : Client S → Exec S Error (GoMap Str DnsRecord)
  read_sections client = do data' ← client.call true get_request; pure (parse_sections data'.values)

  -- The sections that `GetDNSRecords` keeps.
  abbrev pub managed : OpenWrt S → GoMap Str DnsRecord → GoMap Str DnsRecord
  managed o = keep (λ (section, r). not (ownership_enabled o && not (r.owner == o.ownership_id)))

  unfoldable pub get_dns_records : OpenWrt S → Exec S Error (GoMap Str DnsRecord)
  unfolding read_sections
  get_dns_records o = do all ← read_sections o.reader; pure (managed o all)
