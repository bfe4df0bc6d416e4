-- ===== src/Setup/Examples.antt =====
-- Tests of the setup, and its theorems at a concrete configuration.
use external_dns_openwrt_nex.Prelude.{◌^◌, true, false, [], Option, ◌≡◌, refl, arith, ◌<◌}
use external_dns_openwrt_nex.Strings.{codes}
use external_dns_openwrt_nex.Exec.{ok}
use external_dns_openwrt_nex.Ubus.Errors.{pos, int_text}
use external_dns_openwrt_nex.Config.Parse.{wrap}
use external_dns_openwrt_nex.Strings.Decimal.{itoa}
use external_dns_openwrt_nex.Setup.{RouterConfig, RouterClients, seconds, new_ubus, new_provider}
use external_dns_openwrt_nex.Setup.Timeouts.{WaitsFor, new_provider-ok_iff, new_provider-WaitsFor}
use external_dns_openwrt_nex.Provider.Tracker.{Tracker}

abbrev home_router : RouterConfig
home_router = record {
  ubus = record {
    hostname = codes "fe80::1";
    port = pos 443;
    ssl = true;
    timeout = pos 15;
    insecure_skip_verify = false;
    auth = record { username = codes "root"; password = [] };
  };
  ownership_id = codes "cluster";
}

url_test : (new_ubus home_router.ubus).url ≡ codes "https://[fe80::1]:443/ubus"
unfolding new_ubus int_text itoa
url_test = refl

-- A timeout that does not fit into a duration can come out as none at all.
overflow : seconds (pos (2 ^ 55)) ≡ pos 0
unfolding seconds wrap
overflow = refl

home_clients : (p : RouterClients × Option Tracker) × (new_provider home_router true ≡ ok p)
home_clients = (new_provider-ok_iff home_router true).1 (refl, refl)

new_provider-WaitsFor_example :
    (0 < 15) × WaitsFor 15 home_clients.0.0.ubus × WaitsFor 15 home_clients.0.0.reader
new_provider-WaitsFor_example =
    new_provider-WaitsFor home_router true home_clients.0.0 home_clients.0.1 15 home_clients.1 refl
      (omega arith)
