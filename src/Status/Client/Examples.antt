-- ===== src/Status/Client/Examples.antt =====
-- The Kubernetes client over an API server that keeps a log of the requests and answers each alike.
use external_dns_openwrt_nex.Prelude.{ℕ, List, [], ◌∷◌, ◌++◌, none, ◌≡◌, refl, All}
use external_dns_openwrt_nex.Strings.{Str, codes}
use external_dns_openwrt_nex.Exec.{ok}
use external_dns_openwrt_nex.Fixtures.{whole, kelvin_table}
use external_dns_openwrt_nex.Status.Examples.{constant}
use external_dns_openwrt_nex.Status.Syncer.{Site}
use external_dns_openwrt_nex.Status.Client.Wire.{KubeClient, ApiRequest, Platform, trim_slash}
use external_dns_openwrt_nex.Status.Client.{collection}

abbrev Log : Type 0
Log = List ApiRequest

abbrev platform : ℕ → Platform Log Str
platform code = record {
  getenv = λ k. [];
  read_file = λ path log. (ok (codes "secret"), log);
  load_ca = λ path log. (ok tt, log);
  exchange = λ r log. (ok (record { status_code = code; raw = [] }), r ∷ log);
  join_host_port = λ h p. h ++ codes ":" ++ p;
  path_escape = λ s. s;
  encode_query = λ q. [];
  marshal = λ o. ok [];
  unmarshal_items = λ raw. ok [];
  unmarshal_message = λ raw. none;
}

abbrev kube : KubeClient
kube = record {
  base = codes "https://10.0.0.1";
  namespace = codes "dns";
  owner = codes "none";
  token_file = codes "token";
}

slash : trim_slash (codes "https://10.0.0.1/") ≡ codes "https://10.0.0.1"
unfolding trim_slash
slash = refl

abbrev BelowCollection : Log → Type 0
BelowCollection log = All (λ r. (rest : Str) × (r.uri ≡ collection (platform 200) kube ++ rest)) log

abbrev start : Site Log ℕ
start = record { world = []; registry = [] }
