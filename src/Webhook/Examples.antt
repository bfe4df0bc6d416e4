-- ===== src/Webhook/Examples.antt =====
-- The webhook in front of a provider that takes every change set.
use external_dns_openwrt_nex.Prelude.{
  ℕ, suc, Bool, true, false, [], some, ◌≡◌, refl, arith, if◌then◌else◌,
}
use external_dns_openwrt_nex.GoMap.{str_key}
use external_dns_openwrt_nex.Webhook.Http.{
  require_media_type, HttpRequest, Json, malformed, media_type, rejection,
}
use external_dns_openwrt_nex.Strings.{Str, codes}
use external_dns_openwrt_nex.Exec.{ok, err}
use mathlib.Core.List.Memᴰ.{head}
use external_dns_openwrt_nex.Provider.Runs.{Run}
use external_dns_openwrt_nex.Provider.Runs.Answers.{pass}
use external_dns_openwrt_nex.Webhook.Served.{Trouble, provider_of, IsAnswered, served-pass}
use external_dns_openwrt_nex.Fixtures.{kelvin_table, whole}
use external_dns_openwrt_nex.OpenWrt.Apply.Trials.{Journal, journal_router, blank}
use external_dns_openwrt_nex.Provider.Tracker.Panics.{panics}
use external_dns_openwrt_nex.Provider.Tracker.Examples.{asking, creation}
use external_dns_openwrt_nex.Provider.Endpoints.{Changes}
use external_dns_openwrt_nex.Webhook.{
  Webhook, Provider, Server, new_webhook_metrics, new, serve_apply_changes, routes, negotiate,
}
use external_dns_openwrt_nex.Webhook.Answers.{refused-unchanged}

abbrev nothing : Changes
nothing = record { create = []; update_old = []; update_new = []; delete = [] }

-- A provider that counts the change sets.
abbrev counting : Provider ℕ Str
counting = record {
  records = λ n. (ok [], n);
  apply_changes = λ changes n. (ok tt, suc n);
  adjust_endpoints = λ endpoints n. (endpoints, n);
}

-- A body is whether it decodes.
abbrev reading : Json Bool
reading = record {
  decode_changes = λ cap body. if body then ok nothing else err malformed;
  decode_endpoints = λ cap body. if body then ok [] else err malformed;
}

abbrev pub webhook : Webhook ℕ Str Bool
webhook = (new {F = ℕ} counting reading []).0

abbrev pub server : Server ℕ ℕ
server = record { world = 0; registry = (new_webhook_metrics {F = ℕ} []).1 }

abbrev change_request : HttpRequest Bool
change_request = record { header = λ h. media_type; body = true }

abbrev pub bare_request : HttpRequest Bool
bare_request = record { header = λ h. []; body = true }

refused-unchanged_example : (negotiate webhook bare_request server).1 ≡ server
unfolding routes negotiate require_media_type
refused-unchanged_example =
    refused-unchanged webhook 7 (codes "GET /{$}") (negotiate webhook) bare_request server
      (rejection 406 (codes "client must provide a Accept header")) (head refl) refl
      (omega arith, omega arith)

-- A body that asks for one more endpoint.
abbrev asking_for_one : Json Bool
asking_for_one = record reading {
  decode_changes = λ cap body. if body then ok creation else err malformed;
}

-- The webhook over the provider of a router that keeps its writes, with the mirror on.
abbrev over_router : Webhook (Run Journal) Trouble Bool
over_router = (new {F = ℕ} (provider_of (journal_router false)) asking_for_one []).0

abbrev at_rest : Server (Run Journal) ℕ
at_rest = record {
  world = record { world = blank; status = some asking; published = [] };
  registry = (new_webhook_metrics {F = ℕ} []).1;
}

served-pass_example :
    let outcome = (pass (journal_router false) creation blank).0 in
    IsAnswered
      (serve_apply_changes over_router 7 change_request at_rest).0
      (panics creation outcome asking)
      outcome
    × ((serve_apply_changes over_router 7 change_request at_rest).1.world.world
        ≡ (pass (journal_router false) creation blank).1)
unfolding new
served-pass_example =
    served-pass (journal_router false) over_router 7 change_request at_rest creation refl refl refl
