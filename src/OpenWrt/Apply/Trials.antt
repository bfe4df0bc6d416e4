-- ===== src/OpenWrt/Apply/Trials.antt =====
-- Whole change sets, at a router that keeps what is staged apart from what is live.
use external_dns_openwrt_nex.NetIp.{is_v6, is_v4}
use external_dns_openwrt_nex.OpenWrt.Sections.{
  Options, parse_section, OpenWrt, read_sections, parse_sections,
}
use external_dns_openwrt_nex.OpenWrt.Types.Canonical.{HasBareEnds}
use external_dns_openwrt_nex.Prelude.{
  map, Option, Bool, true, false, List, [], ◌∷◌, ◌++◌, none, some, ◌≡◌, refl, arith, inr, ◌⊎◌,
  if◌then◌else◌, is_empty,
}
use external_dns_openwrt_nex.Strings.{codes, ◌==◌, to_lower, trim_dot, trim_space}
use external_dns_openwrt_nex.Exec.{Result, ok, err}
use external_dns_openwrt_nex.Ubus.Errors.{Error, status, pos, err_no_data, is_status}
use external_dns_openwrt_nex.Ubus.Wire.{Client, Request, Data, no_data, Arg, text, options, single}
use external_dns_openwrt_nex.OpenWrt.Apply.{
  add_request, apply_dns_records, apply_body, reconcile, remove_all, add_all, add_record, create,
  create_section, finish, adoptable, obstacle, Fault, failed, adding, applying,
}
use external_dns_openwrt_nex.OpenWrt.Index.{
  owned, at_key, new_section_index, first_unowned, named, all_sections, add,
}
use external_dns_openwrt_nex.OpenWrt.Types.{
  key, canonical, canonical_name, validate, breaks_dnsmasq, too_long,
}
use external_dns_openwrt_nex.OpenWrt.Apply.Transaction.{IsTransactional}
use external_dns_openwrt_nex.OpenWrt.Apply.Written.{StoresAdded, parse_section-written}
use external_dns_openwrt_nex.OpenWrt.Apply.Atomic.{
  Published, apply_dns_records-publishes, apply_dns_records-failed,
}
use external_dns_openwrt_nex.GoMap.{lookup, insert, str_key}
use external_dns_openwrt_nex.Fixtures.{address, kelvin_table}

-- The writes that are staged and those that are live, the newest first.
pub record Journal : Type 0 where
  pub pending : List Request
  pub applied : List Request

abbrev staged : Journal → List Request
staged j = j.pending ++ j.applied

abbrev live : Journal → List Request
live j = j.applied

abbrev created : Data
created = record no_data { section = codes "cfg01" }

abbrev apply_pending : Journal → Result Error Data × Journal
apply_pending j =
    if is_empty j.pending
    then (err (status err_no_data), j)
    else (ok no_data, record { pending = []; applied = j.pending ++ j.applied })

-- `full`: the router takes no new section.
abbrev answer : Bool → Request → Journal → Result Error Data × Journal
answer full r j =
    if r.method == codes "apply"
    then apply_pending j
    else if r.method == codes "get"
    then (ok no_data, j)
    else if full
    then (err (status (pos 9)), j)
    else (ok created, record j { pending = r ∷ j.pending })

abbrev journal_client : Bool → Client Journal
journal_client full = record {
  call = λ wanted r j. answer full r j;
  reset = λ j. record j { pending = [] };
}

abbrev pub journal_router : Bool → OpenWrt Journal
journal_router full = record {
  ubus = journal_client full;
  reader = journal_client full;
  ownership_id = codes "cluster";
  rand_text = λ j. (codes "XYZ", j);
}

journal-IsTransactional : (full : Bool) → IsTransactional (journal_router full) staged live
unfolding ◌==◌
journal-IsTransactional full = record {
  by_write = λ wanted r j e. ground arith;
  by_read = λ j. refl;
  by_apply = λ j d e. ground arith;
  by_refusal = λ j x e k. ground arith;
  by_reset = λ j. (refl, refl);
  by_random = λ j. (refl, refl);
}

abbrev pub blank : Journal
blank = record { pending = []; applied = [] }

address_added : (apply_dns_records (journal_router false) [] (address ∷ []) blank).0 ≡ ok []
unfolding apply_dns_records apply_body read_sections reconcile remove_all add_all add_record create
    create_section finish adoptable obstacle owned at_key new_section_index first_unowned named
    all_sections key canonical canonical_name validate breaks_dnsmasq too_long is_v4 lookup insert
    to_lower trim_dot trim_space ◌==◌ is_status add parse_sections
address_added = refl

apply_dns_records-publishes_example :
    Published
      (journal_router false)
      staged
      live
      (journal-IsTransactional false)
      []
      (address ∷ [])
      []
      blank
      (apply_dns_records (journal_router false) [] (address ∷ []) blank).1
apply_dns_records-publishes_example =
    apply_dns_records-publishes (journal_router false) staged live (journal-IsTransactional false)
      [] (address ∷ []) blank [] refl refl address_added

address_refused :
    (f : Fault) × ((apply_dns_records (journal_router true) [] (address ∷ []) blank).0 ≡ err f)
unfolding apply_dns_records apply_body read_sections reconcile remove_all add_all add_record create
    create_section finish adoptable obstacle owned at_key new_section_index first_unowned named
    all_sections key canonical canonical_name validate breaks_dnsmasq too_long is_v4 lookup insert
    to_lower trim_dot trim_space ◌==◌ is_status add parse_sections
address_refused = (failed (adding (codes "nas.lan")) (status (pos 9)), refl)

apply_dns_records-failed_example :
    let w' = (apply_dns_records (journal_router true) [] (address ∷ []) blank).1 in
    (staged w' ≡ live w')
    × ((live w' ≡ live blank) ⊎ ((e : Error) × (address_refused.0 ≡ failed applying e)))
apply_dns_records-failed_example =
    apply_dns_records-failed (journal_router true) staged live (journal-IsTransactional true) []
      (address ∷ []) blank address_refused.0 refl address_refused.1

address_is_valid : validate address ≡ none
unfolding validate canonical canonical_name trim_space trim_dot to_lower ◌==◌ breaks_dnsmasq
    too_long is_v4
address_is_valid = refl

address_is_bare : HasBareEnds address
unfolding canonical_name trim_space trim_dot to_lower ◌==◌
address_is_bare = (refl, refl)

address_is_no_v6 : is_v6 (canonical address).value ≡ false
unfolding is_v6 canonical ◌==◌
address_is_no_v6 = refl

-- The options of a section that a request gives: its type and its values.
abbrev type_of : Option Arg → Options
type_of (some (text type)) = (codes ".type", single type) ∷ []
type_of _ = []

abbrev values_of : Option Arg → Options
values_of (some (options values)) = map (λ (k, v). (k, single v)) values
values_of _ = []

abbrev made_of : Request → Options
made_of r = type_of (lookup (codes "type") r.args) ++ values_of (lookup (codes "values") r.args)

made_of-StoresAdded : StoresAdded made_of
unfolding lookup ◌==◌
made_of-StoresAdded type name values = refl

parse_section-written_example :
    parse_section (made_of (add_request (journal_router false) (canonical address) (codes "XYZ")))
    ≡ some (record (canonical address) { owner = codes "cluster" })
parse_section-written_example =
    parse_section-written (journal_router false) made_of made_of-StoresAdded address (codes "XYZ")
      address_is_valid address_is_bare (inr (refl, address_is_no_v6))
