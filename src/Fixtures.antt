-- ===== src/Fixtures.antt =====
-- Inputs of the tests: a case table, a router that answers every call, some records, and numbers.
use external_dns_openwrt_nex.Prelude.{
  ℕ, ◌+◌, ltb, [], ◌∷◌, ◌≡◌, arith, ◌≢◌, eqb, if◌then◌else◌, ◌≤◌,
}
use external_dns_openwrt_nex.Ubus.Errors.{pos}
use external_dns_openwrt_nex.Exec.{ok}
use external_dns_openwrt_nex.Strings.{codes, is_space, lower_by, CaseTable}
use external_dns_openwrt_nex.OpenWrt.Sections.{OpenWrt}
use external_dns_openwrt_nex.OpenWrt.Types.{DnsRecord}
use external_dns_openwrt_nex.Provider.Endpoints.{Endpoint}
use external_dns_openwrt_nex.Ubus.Wire.{Client}
use external_dns_openwrt_nex.Metrics.{Float64}

-- KELVIN SIGN has the lower case letter `k`; nothing else past ASCII is mapped.
abbrev pub kelvin : ℕ → ℕ
kelvin r = if eqb r 0x212a then b'k' else r

pub kelvin_idem : (r : ℕ) → 128 ≤ r → lower_by kelvin (kelvin r) ≡ kelvin r
unfolding lower_by
kelvin_idem r h = ground arith

pub kelvin_dot : (r : ℕ) → 128 ≤ r → kelvin r ≢ 46
kelvin_dot r h = ground arith

pub kelvin_space : (r : ℕ) → 128 ≤ r → is_space (kelvin r) ≡ is_space r
unfolding is_space
kelvin_space r h = ground arith

instance abbrev pub kelvin_table : CaseTable
kelvin_table = record {
  wide = kelvin;
  wide_idem = kelvin_idem;
  wide_dot = kelvin_dot;
  wide_space = kelvin_space;
}

-- A router that holds nothing and takes everything.
abbrev pub willing : Client (Unit {0})
willing = record {
  call = λ wanted r s. (ok (record { session = []; section = codes "cfg01"; values = [] }), s);
  reset = λ s. s;
}

abbrev pub router : OpenWrt (Unit {0})
router = record {
  ubus = willing;
  reader = willing;
  ownership_id = codes "cluster";
  rand_text = λ s. (codes "XYZ", s);
}

abbrev pub address : DnsRecord
address = record { type = codes "A"; name = codes "nas.lan"; value = codes "192.0.2.1"; owner = [] }

abbrev pub alias_record : DnsRecord
alias_record = record {
  type = codes "CNAME";
  name = codes "files.lan";
  value = codes "nas.lan";
  owner = [];
}

abbrev pub endpoint : Endpoint
endpoint = record {
  dns_name = codes "nas.lan";
  targets = codes "192.0.2.1" ∷ [];
  record_type = codes "A";
  set_identifier = codes "x";
  record_ttl = pos 60;
  labels = [];
  provider_specific = [];
}

-- Whole numbers for floats: enough for the updates, and printed as a single digit.
instance abbrev pub whole : Float64 ℕ
whole = record { of_nat = λ n. n; add = λ a b. a + b; lt = ltb; format = λ n. (b'0' + n) ∷ [] }
