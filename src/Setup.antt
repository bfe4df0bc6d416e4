-- ===== src/Setup.antt =====
-- ubus.New, openwrt.New and provider.New: what the configuration of the router makes, and the
-- configurations that are refused.
pub mod Timeouts
mod Examples
use external_dns_openwrt_nex.Prelude.{
  ℕ, zero, suc, ◌+◌, Bool, true, false, not, ◌&&◌, ◌||◌, List, [], ◌∷◌, ◌++◌, map, Option, none,
  some, ◌≡◌, refl, sym, ap, ◌∙◌, subst, arith, inl, inr, ◌⊎◌, ◌↔◌, ◌≢◌, ltb, leb, eqb,
  if◌then◌else◌, length, any, keep, is_empty, All, Bool-cases, Option-cases, ◌≤◌, ◌<◌, ◌-◌, ◌*◌,
  ◌^◌,
}
use external_dns_openwrt_nex.Strings.{Str, codes, ◌==◌}
use external_dns_openwrt_nex.Exec.{Result, ok, err}
use external_dns_openwrt_nex.Ubus.Errors.{ℤ, pos, negsuc, int_text}
use external_dns_openwrt_nex.Ubus.Session.{Auth}
use external_dns_openwrt_nex.Config.Parse.{wrap}
use external_dns_openwrt_nex.Provider.Tracker.{Tracker, new_tracker}

-- `Config` of pkg/ubus.
pub record UbusConfig : Type 0 where
  pub hostname : Str
  pub port : ℤ
  pub ssl : Bool
  pub timeout : ℤ
  pub insecure_skip_verify : Bool
  pub auth : Auth

-- Nanoseconds.
abbrev pub second : ℕ
second = 10 ^ 9

-- `time.Duration(n) * time.Second`, in 64 bits.
unfoldable pub seconds : ℤ → ℤ
seconds (pos n) = wrap 64 (pos (n * second))
seconds (negsuc n) = wrap 64 (negsuc (suc n * second - 1))

-- `net.JoinHostPort`
unfoldable pub join_host_port : Str → Str → Str
join_host_port host port =
    if any (eqb b':') host then b'[' ∷ (host ++ codes "]:" ++ port) else host ++ codes ":" ++ port

-- What `ubus.New` sets: of the HTTP client, its timeout, the timeout and the keep-alive of its dialer
-- and whether it checks certificates, and the URL.
pub record UbusClient : Type 0 where
  pub timeout : ℤ
  pub dial_timeout : ℤ
  pub keep_alive : ℤ
  pub insecure_skip_verify : Bool
  pub url : Str
  pub auth : Auth

unfoldable pub new_ubus : UbusConfig → UbusClient
unfolding seconds join_host_port
new_ubus c = record {
  timeout = seconds c.timeout;
  dial_timeout = seconds c.timeout;
  keep_alive = seconds c.timeout;
  insecure_skip_verify = c.insecure_skip_verify;
  url =
      (if not c.ssl then codes "http://" else codes "https://")
      ++ join_host_port c.hostname (int_text c.port)
      ++ codes "/ubus";
  auth = c.auth;
}

-- `Config` of pkg/openwrt.
pub record RouterConfig : Type 0 where
  pub ubus : UbusConfig
  pub ownership_id : Str

pub data SetupError : Type 0 where
  no_hostname : SetupError
  bad_timeout : ℤ → SetupError

-- The two clients of a router, for change sets and for reading.
pub record RouterClients : Type 0 where
  pub ubus : UbusClient
  pub reader : UbusClient
  pub ownership_id : Str

abbrev pub is_positive : ℤ → Bool
is_positive (pos n) = ltb 0 n
is_positive (negsuc n) = false

unfoldable pub new_openwrt : RouterConfig → Result SetupError RouterClients
unfolding new_ubus
new_openwrt c =
    if is_empty c.ubus.hostname
    then err no_hostname
    else if not (is_positive c.ubus.timeout)
    then err (bad_timeout c.ubus.timeout)
    else ok
        (record { ubus = new_ubus c.ubus; reader = new_ubus c.ubus; ownership_id = c.ownership_id })

abbrev pub tracker_for : Bool → Option Tracker
tracker_for true = some new_tracker
tracker_for false = none

-- `provider.New`: the clients, and a tracker where snapshots are published.
unfoldable pub new_provider :
    RouterConfig → Bool → Result SetupError (RouterClients × Option Tracker)
unfolding new_openwrt
new_provider c publishes = elim (new_openwrt c) [
  | err e ↦ err e
  | ok clients ↦ ok (clients, tracker_for publishes)
]
