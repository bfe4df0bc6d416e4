-- ===== src/Setup/Timeouts.antt =====
-- ubus.New and openwrt.New: no call waits forever for the router.
use external_dns_openwrt_nex.Prelude.{
  ℕ, Bool, true, false, Option, ◌≡◌, arith, ◌↔◌, is_empty, ◌≤◌, ◌<◌, ◌*◌,
}
use external_dns_openwrt_nex.Exec.{ok}
use external_dns_openwrt_nex.Ubus.Errors.{pos}
use external_dns_openwrt_nex.Config.Parse.{wrap}
use external_dns_openwrt_nex.Provider.Tracker.{Tracker}
use external_dns_openwrt_nex.Setup.{
  RouterConfig, RouterClients, UbusClient, second, seconds, new_ubus, new_openwrt, new_provider,
  is_positive, tracker_for,
}

-- So many seconds fit into a duration.
abbrev pub max_seconds : ℕ
max_seconds = 9223372036

seconds-pos : (n : ℕ) → n ≤ max_seconds → seconds (pos n) ≡ pos (n * second)
unfolding seconds wrap
seconds-pos n h = ground arith

-- Each of the client's timeouts is so many seconds.
abbrev pub WaitsFor : ℕ → UbusClient → Type 0
WaitsFor n c =
    (c.timeout ≡ pos (n * second))
    × (c.dial_timeout ≡ pos (n * second))
    × (c.keep_alive ≡ pos (n * second))

abbrev made : RouterConfig → Bool → RouterClients × Option Tracker
made c publishes = (
  record { ubus = new_ubus c.ubus; reader = new_ubus c.ubus; ownership_id = c.ownership_id },
  tracker_for publishes,
)

-- A provider is made exactly if the configuration names a host and its timeout is positive.
pub new_provider-ok_iff :
    (c : RouterConfig) (publishes : Bool)
    → ((p : RouterClients × Option Tracker) × (new_provider c publishes ≡ ok p))
      ↔ ((is_empty c.ubus.hostname ≡ false) × (is_positive c.ubus.timeout ≡ true))
unfolding new_provider
new_provider-ok_iff c publishes =
    (λ (p, e). ground arith, λ (h, k). (made c publishes, ground arith))

-- Where a provider is made and its timeout fits into a duration, both of its clients wait for a number
-- of seconds that is not 0, the configured one.
pub new_provider-WaitsFor :
    (c : RouterConfig) (publishes : Bool) (clients : RouterClients) (t : Option Tracker) (n : ℕ)
    → new_provider c publishes ≡ ok (clients, t)
    → c.ubus.timeout ≡ pos n
    → n ≤ max_seconds
    → (0 < n) × WaitsFor n clients.ubus × WaitsFor n clients.reader
unfolding new_provider new_openwrt new_ubus
new_provider-WaitsFor c publishes clients t n e h small = ground (arith, seconds-pos n small)
