-- ===== src/Router/Examples.antt =====
-- A request for the negotiation, without a header.
use external_dns_openwrt_nex.Router.{
  remove_marker, HttpMetrics, new_http_metrics, route_label, log_requests,
}
use external_dns_openwrt_nex.Prelude.{true, [], ◌∷◌, ◌≡◌, refl, any}
use external_dns_openwrt_nex.Strings.Decimal.{itoa}
use external_dns_openwrt_nex.Metrics.{counter_add, counter_inc}
use external_dns_openwrt_nex.Strings.{◌==◌, codes}
use external_dns_openwrt_nex.Fixtures.{whole}
use mathlib.Core.List.Memᴰ.{head}
use external_dns_openwrt_nex.Webhook.Http.{HttpRequest, rejection}
use external_dns_openwrt_nex.Webhook.{Server, negotiate, routes, Webhook}
use external_dns_openwrt_nex.Webhook.Answers.{is_status}
use external_dns_openwrt_nex.Webhook.Examples.{webhook, bare_request, server}
use external_dns_openwrt_nex.Router.Labels.{route_labels, log_requests-labels}

labels :
    (route_label (codes "GET /{$}") ≡ codes "GET /")
    × (route_label [] ≡ codes "unmatched")
    × (route_label (codes "POST /records") ≡ codes "POST /records")
unfolding route_label remove_marker
labels = (refl, refl, refl)

abbrev counters : HttpMetrics
counters = (new_http_metrics server.registry).0

log_requests-labels_example :
    (any (λ l. l == route_label (codes "GET /{$}")) route_labels ≡ true)
    × (is_status 406 ≡ true)
    × ((log_requests counters 1
          (codes "GET /{$}")
          (negotiate webhook bare_request)
          server).1.registry
        ≡ counter_add counters.duration 1 (route_label (codes "GET /{$}") ∷ []) (
            counter_inc counters.requests
              (route_label (codes "GET /{$}") ∷ itoa 406 ∷ [])
              (negotiate webhook bare_request server).1.registry))
unfolding negotiate external_dns_openwrt_nex.Webhook.Http.require_media_type routes log_requests
log_requests-labels_example =
    log_requests-labels webhook counters 7 1 (codes "GET /{$}") (negotiate webhook) bare_request
      server (rejection 406 (codes "client must provide a Accept header")) (head refl) refl
