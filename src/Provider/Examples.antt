-- ===== src/Provider/Examples.antt =====
-- Tests of internal/provider, and its theorems at concrete inputs.
use external_dns_openwrt_nex.Provider.Endpoints.Merged.{endpoints-merged, Merges}
use external_dns_openwrt_nex.Provider.Endpoints.{dns_records_to_endpoints}
use external_dns_openwrt_nex.OpenWrt.Types.{DnsRecord}
use external_dns_openwrt_nex.GoMap.{GoMap}
use external_dns_openwrt_nex.Strings.{Str, codes}
use external_dns_openwrt_nex.Prelude.{◌↔◌}
use external_dns_openwrt_nex.GoMap.{lookup, insert, str_key}
use external_dns_openwrt_nex.Prelude.{[], ◌∷◌, map, none, some, ◌≡◌, refl, All}
use external_dns_openwrt_nex.Provider.Adjust.Accepts.{adjust_iff, Returns, adjust-valid}
use external_dns_openwrt_nex.Strings.{◌==◌, to_lower, trim_dot, trim_space}
use external_dns_openwrt_nex.Provider.CancelOut.Counts.{cancel_out-eq-changed, changed}
use external_dns_openwrt_nex.Provider.Endpoints.{endpoints_to_dns_records, record_key}
use external_dns_openwrt_nex.Fixtures.{alias_record, endpoint, address, kelvin_table}
use external_dns_openwrt_nex.OpenWrt.Types.{canonical_name, key, validate}
use external_dns_openwrt_nex.Provider.Adjust.{adjust, trimmed}
use external_dns_openwrt_nex.Provider.CancelOut.{cancel_out}
use mathlib.Core.List.{Memᴰ}

adjust-valid_example :
    All
      (λ r. validate r ≡ none)
      (endpoints_to_dns_records (map some (adjust (none ∷ some endpoint ∷ [])).0))
adjust-valid_example = adjust-valid (none ∷ some endpoint ∷ [])

adjust_iff_example :
    Memᴰ (trimmed endpoint) (adjust (some endpoint ∷ [])).0
    ↔ Returns (some endpoint ∷ []) (trimmed endpoint)
adjust_iff_example = adjust_iff (some endpoint ∷ []) (trimmed endpoint)

cancel_out-eq-changed_example :
    cancel_out (address ∷ address ∷ []) (address ∷ alias_record ∷ []) ≡ (
      changed (address ∷ address ∷ []) (address ∷ alias_record ∷ []) (address ∷ address ∷ []),
      changed (address ∷ address ∷ []) (address ∷ alias_record ∷ []) (address ∷ alias_record ∷ []),
    )
cancel_out-eq-changed_example =
    cancel_out-eq-changed (address ∷ address ∷ []) (address ∷ alias_record ∷ [])

cancel_test : cancel_out (address ∷ alias_record ∷ []) (address ∷ []) ≡ (alias_record ∷ [], [])
unfolding cancel_out key canonical_name trim_space trim_dot to_lower ◌==◌ insert lookup
cancel_test = refl

abbrev sections : GoMap Str DnsRecord
sections =
    (codes "cfg01", address)
    ∷ (codes "cfg02", alias_record)
    ∷ (codes "cfg03", record address { value = codes "192.0.2.2" })
    ∷ (codes "cfg04", address)
    ∷ []

endpoints-merged_example : Merges sections (dns_records_to_endpoints sections)
endpoints-merged_example = endpoints-merged sections
