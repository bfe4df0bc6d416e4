-- ===== src/Provider/Endpoints.antt =====
-- pkg/webhookapi/types.go, and the translations of internal/provider/provider.go between endpoints
-- and records.
pub mod Groups
pub mod Grouping
pub mod Merged
use external_dns_openwrt_nex.Prelude.{
  Bool, true, ◌&&◌, ◌||◌, List, [], ◌∷◌, ◌++◌, map, Option, none, some, ◌≡◌, arith, ◌↔◌,
  if◌then◌else◌,
}
use external_dns_openwrt_nex.OpenWrt.Types.{
  record_type_cname, record_type_a, DnsRecord, canonical_name,
}
use external_dns_openwrt_nex.Strings.Laws.{eq_iff}
use external_dns_openwrt_nex.GoMap.{insert, lookup, GoMap, Key, str_key}
use external_dns_openwrt_nex.Sorting.{le_str, sort, sorted}
use external_dns_openwrt_nex.Strings.{◌==◌, CaseTable, Str}
use external_dns_openwrt_nex.Ubus.Errors.{pos, ℤ}

-- The value of `targets` is a list; the pointers of the source are lists' elements, nil as `none`.
pub record Endpoint : Type 0 where
  pub dns_name : Str
  pub targets : List Str
  pub record_type : Str
  pub set_identifier : Str
  pub record_ttl : ℤ
  pub labels : GoMap Str Str
  pub provider_specific : List (Str × Str)

abbrev pub Pointers : Type 0
Pointers = List (Option Endpoint)

pub record Changes : Type 0 where
  pub create : Pointers
  pub update_old : Pointers
  pub update_new : Pointers
  pub delete : Pointers

abbrev pub default_ttl : ℤ
default_ttl = pos 300

pub record RecordKey : Type 0 where
  pub name : Str
  pub record_type : Str

unfoldable pub record_key_beq : RecordKey → RecordKey → Bool
record_key_beq a b = a.name == b.name && a.record_type == b.record_type

pub record_key_beq_iff : (a b : RecordKey) → (record_key_beq a b ≡ true) ↔ (a ≡ b)
unfolding record_key_beq
record_key_beq_iff a b = ground (arith, eq_iff a.name b.name, eq_iff a.record_type b.record_type)

instance abbrev pub record_key : Key RecordKey
record_key = record { beq = record_key_beq; beq_iff = record_key_beq_iff }

module _ ⦃u : CaseTable⦄ where
  unfoldable pub key_of : Str → Str → RecordKey
  key_of name record_type = record { name = canonical_name name; record_type = record_type }

abbrev pub is_supported : Str → Bool
is_supported type = type == record_type_a || type == record_type_cname

-- One record for each target.
abbrev pub records_of : Endpoint → List DnsRecord
records_of ep =
    map (λ target. record { type = ep.record_type; name = ep.dns_name; value = target; owner = [] })
      ep.targets

-- What one element contributes. An endpoint without targets has no records.
abbrev pub records_at : Option Endpoint → List DnsRecord
records_at none = []
records_at (some ep) = if is_supported ep.record_type then records_of ep else []

unfoldable pub endpoints_to_dns_records : Pointers → List DnsRecord
endpoints_to_dns_records [] = []
endpoints_to_dns_records (ep ∷ rest) = records_at ep ++ endpoints_to_dns_records rest

-- `grouped[k] = append(grouped[k], …)` for each record.
abbrev pub group_at : RecordKey → GoMap RecordKey (List Str) → List Str
group_at k grouped = elim (lookup k grouped) [ none ↦ [] | some targets ↦ targets ]

module _ ⦃u : CaseTable⦄ where
  unfoldable pub group_records :
      GoMap Str DnsRecord → GoMap RecordKey (List Str) → GoMap RecordKey (List Str)
  group_records [] grouped = grouped
  group_records ((section, r) ∷ rest) grouped =
      let k = key_of r.name r.type in
      group_records rest (insert k (group_at k grouped ++ r.value ∷ []) grouped)

abbrev pub endpoint_of : RecordKey × List Str → Endpoint
endpoint_of (k, targets) = record {
  dns_name = k.name;
  targets = sorted targets;
  record_type = k.record_type;
  set_identifier = [];
  record_ttl = default_ttl;
  labels = [];
  provider_specific = [];
}

-- The order of the endpoints, by name and then by type.
unfoldable pub le_endpoint : Endpoint → Endpoint → Bool
le_endpoint a b =
    if a.dns_name == b.dns_name
    then le_str a.record_type b.record_type
    else le_str a.dns_name b.dns_name

module _ ⦃u : CaseTable⦄ where
  unfoldable pub dns_records_to_endpoints : GoMap Str DnsRecord → List Endpoint
  unfolding group_records
  dns_records_to_endpoints records = sort le_endpoint (map endpoint_of (group_records records []))
