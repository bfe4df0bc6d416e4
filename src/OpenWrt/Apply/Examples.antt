-- ===== src/OpenWrt/Apply/Examples.antt =====
-- The writes of a change set, at a router that keeps a log of the calls it gets.
use external_dns_openwrt_nex.Prelude.{false, List, [], ◌∷◌, none, ◌≡◌, refl, All}
use external_dns_openwrt_nex.OpenWrt.Apply.{
  adoptable, adopt, delete_sections, add_record, remove_record, add_all, remove_all, reconcile,
  delete_request, set_owner, create_section, add_request, uci,
}
use external_dns_openwrt_nex.OpenWrt.Apply.Achieves.{opening, reconcile-at_key, reconcile-settles}
use external_dns_openwrt_nex.OpenWrt.Types.Canonical.{HasBareEnds}
use external_dns_openwrt_nex.OpenWrt.Apply.Additions.{Settled}
use external_dns_openwrt_nex.OpenWrt.Apply.Removals.{has_key}
use external_dns_openwrt_nex.Strings.{to_lower, trim_dot, trim_space, ◌==◌, Str, codes}
use external_dns_openwrt_nex.GoMap.{erase, str_key, HasUniqueKeys, insert, GoMap, lookup}
use external_dns_openwrt_nex.OpenWrt.Types.{
  breaks_dnsmasq, too_long, canonical_name, key, DnsRecord, canonical, validate,
}
use external_dns_openwrt_nex.OpenWrt.Index.{
  at_key, SectionIndex, new_section_index, owned, drop, first_unowned, mark_owned,
}
use external_dns_openwrt_nex.Exec.{ok}
use external_dns_openwrt_nex.Ubus.Wire.{Client, Request, text, options}
use external_dns_openwrt_nex.OpenWrt.Sections.{OpenWrt}
use external_dns_openwrt_nex.OpenWrt.Apply.Touches.{IsOwn, IsUnowned, IsKept, reconcile-Holds}
use external_dns_openwrt_nex.Fixtures.{address, alias_record, kelvin_table}

abbrev Log : Type 0
Log = List Request

abbrev logging_client : Client Log
logging_client = record {
  call =
      λ wanted r log. (ok (record { session = []; section = codes "cfg01"; values = [] }), r ∷ log);
  reset = λ log. log;
}

abbrev logging_router : OpenWrt Log
logging_router = record {
  ubus = logging_client;
  reader = logging_client;
  ownership_id = codes "cluster";
  rand_text = λ log. (codes "XYZ", log);
}

-- The router's index at the start: an address of this owner, and an alias of none.
abbrev at_start : SectionIndex
at_start = new_section_index (
    (codes "cfg02", record address { owner = codes "cluster" })
    ∷ (codes "cfg03", alias_record)
    ∷ [])

-- The call that sets the owner of a section.
abbrev adoption : Str → Request
adoption section = uci (codes "set") (
    (codes "section", text section)
    ∷ (codes "values", options ((codes "external_dns", codes "cluster") ∷ []))
    ∷ [])

-- The calls that a change set may make.
data IsAllowed : Request → Type 0 where
  deletes :
      (section : Str) → IsOwn logging_router at_start section → IsAllowed (delete_request section)
  adopts :
      (section : Str) → IsUnowned logging_router at_start section → IsAllowed (adoption section)
  creates :
      (r : DnsRecord)
      → validate r ≡ none
      → IsAllowed (add_request logging_router (canonical r) (codes "XYZ"))

abbrev AllAllowed : Log → Type 0
AllAllowed = All IsAllowed

AllAllowed-IsKept : IsKept logging_router at_start AllAllowed
unfolding set_owner create_section
AllAllowed-IsKept = record {
  by_delete = λ section w own h. (deletes section own, h);
  by_adoption = λ section w unowned enabled h. (adopts section unowned, h);
  by_creation = λ r w v h. (creates r v, h);
}

reconcile-Holds_example :
    AllAllowed
      (reconcile logging_router
        (address ∷ [])
        (alias_record ∷ [])
        (record { world = []; index = at_start })).1.world
reconcile-Holds_example =
    reconcile-Holds logging_router at_start AllAllowed (address ∷ []) (alias_record ∷ []) []
      AllAllowed-IsKept tt

abbrev sections : GoMap Str DnsRecord
sections =
    (codes "cfg02", record address { owner = codes "cluster" }) ∷ (codes "cfg03", alias_record) ∷ []

-- The address goes, and the alias is adopted.
swap_succeeds :
    (reconcile logging_router
      (address ∷ [])
      (alias_record ∷ [])
      (record { world = []; index = at_start })).0
    ≡ ok (2, [])
unfolding reconcile remove_all add_all remove_record add_record delete_sections adopt adoptable
    set_owner owned new_section_index at_key lookup insert first_unowned validate canonical
    canonical_name trim_space trim_dot to_lower ◌==◌ key drop breaks_dnsmasq too_long mark_owned
    erase
swap_succeeds = refl

sections-HasUniqueKeys : HasUniqueKeys sections
unfolding lookup ◌==◌
sections-HasUniqueKeys = (refl, (refl, tt))

alias-HasBareEnds : All HasBareEnds (alias_record ∷ [])
unfolding canonical_name trim_space trim_dot to_lower ◌==◌
alias-HasBareEnds = ((refl, refl), tt)

reconcile-settles_example :
    All
      (Settled logging_router []
        (reconcile logging_router
          (address ∷ [])
          (alias_record ∷ [])
          (opening logging_router sections [])).1)
      (alias_record ∷ [])
reconcile-settles_example =
    reconcile-settles logging_router (address ∷ []) (alias_record ∷ []) sections [] 2 []
      sections-HasUniqueKeys alias-HasBareEnds swap_succeeds

other_key : has_key (key address) (alias_record ∷ []) ≡ false
unfolding key canonical canonical_name trim_space trim_dot to_lower ◌==◌
other_key = refl

reconcile-at_key_example :
    at_key
      (reconcile logging_router
        (address ∷ [])
        (alias_record ∷ [])
        (opening logging_router sections [])).1.index
      (key address)
    ≡ []
unfolding new_section_index at_key lookup insert key canonical canonical_name trim_space trim_dot
    to_lower ◌==◌
reconcile-at_key_example =
    reconcile-at_key logging_router (address ∷ []) (alias_record ∷ []) sections [] 2 []
      (key address) sections-HasUniqueKeys alias-HasBareEnds swap_succeeds other_key
