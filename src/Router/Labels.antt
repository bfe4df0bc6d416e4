-- ===== src/Router/Labels.antt =====
-- pkg/router/router.go: the series of the request counters.
use external_dns_openwrt_nex.Prelude.{
  true, List, [], ◌∷◌, Option, none, some, ◌≡◌, refl, ap, arith, any, All, some-inj, All-mem,
}
use external_dns_openwrt_nex.Strings.{◌==◌, Str, codes}
use external_dns_openwrt_nex.Strings.Decimal.{itoa}
use mathlib.Core.List.{Memᴰ}
use external_dns_openwrt_nex.Metrics.{Float64, counter_add, counter_inc}
use external_dns_openwrt_nex.Webhook.Http.{HttpRequest, Response, require_media_type}
use external_dns_openwrt_nex.Webhook.{
  Webhook, Server, Handler, negotiate, serve_records, serve_apply_changes, serve_adjust_endpoints,
  routes,
}
use external_dns_openwrt_nex.Webhook.Answers.{is_status}
use external_dns_openwrt_nex.Router.{
  HttpMetrics, route_label, remove_marker, log_requests, count_request,
}

-- The labels of the routes.
abbrev pub route_labels : List Str
route_labels =
    codes "GET /"
    ∷ codes "GET /records"
    ∷ codes "POST /records"
    ∷ codes "POST /adjustendpoints"
    ∷ []

module _ {S F : Type 0} ⦃f : Float64 F⦄ where
  count_request-answer :
      (m : HttpMetrics) (elapsed : F) (route : Str) (answer : Option Response) (s : Server S F)
      (r : Response)
      → (count_request m elapsed route answer s).0 ≡ some r
      → (answer ≡ some r)
        × ((count_request m elapsed route answer s).1.registry
            ≡ counter_add m.duration elapsed
                (route ∷ [])
                (counter_inc m.requests (route ∷ itoa r.status ∷ []) s.registry))
  count_request-answer m elapsed route none s r e = cc
  count_request-answer m elapsed route (some q) s r e = (
    e,
    ap
        (λ x.
          counter_add m.duration elapsed (route ∷ [])
            (counter_inc m.requests (route ∷ itoa x.status ∷ []) s.registry))
        (some-inj e),
  )

module _ {S E B F : Type 0} ⦃f : Float64 F⦄ (w : Webhook S E B) where
  -- The handler answers with a status that the webhook knows, and its route has one of the labels.
  abbrev IsRoute : Str × Handler S F B → Type 0
  IsRoute (pattern, handler) =
      (any (λ l. l == route_label pattern) route_labels ≡ true)
      × ((req : HttpRequest B) (s : Server S F) (r : Response)
          → (handler req s).0 ≡ some r
          → is_status r.status ≡ true)

  negotiate-IsRoute : IsRoute (codes "GET /{$}", negotiate w)
  unfolding negotiate require_media_type route_label remove_marker ◌==◌
  negotiate-IsRoute = (refl, λ req s r e. ground arith)

  records-IsRoute : IsRoute (codes "GET /records", serve_records w)
  unfolding serve_records require_media_type route_label remove_marker ◌==◌
  records-IsRoute = (refl, λ req s r e. ground arith)

  apply_changes-IsRoute : (now : F) → IsRoute (codes "POST /records", serve_apply_changes w now)
  unfolding serve_apply_changes require_media_type route_label remove_marker ◌==◌
  apply_changes-IsRoute now = (refl, λ req s r e. ground arith)

  adjust_endpoints-IsRoute : IsRoute (codes "POST /adjustendpoints", serve_adjust_endpoints w)
  unfolding serve_adjust_endpoints require_media_type route_label remove_marker ◌==◌
  adjust_endpoints-IsRoute = (refl, λ req s r e. ground arith)

  routes-IsRoute : (now : F) → All IsRoute (routes w now)
  unfolding routes
  routes-IsRoute now = (
    negotiate-IsRoute,
    (records-IsRoute, (apply_changes-IsRoute now, (adjust_endpoints-IsRoute, tt))),
  )

  -- A request that a route of the webhook answers is counted once, with the time that it took, in
  -- series of the request counters that are fixed beforehand: the route's label is one of four, and
  -- the status one of seven, so the counters have 28 and 4 series of routes at most.
  pub log_requests-labels :
      (m : HttpMetrics) (now elapsed : F) (pattern : Str) (handler : Handler S F B)
      (req : HttpRequest B) (s : Server S F) (r : Response)
      → Memᴰ (pattern, handler) (routes w now)
      → (log_requests m elapsed pattern (handler req) s).0 ≡ some r
      → (any (λ l. l == route_label pattern) route_labels ≡ true)
        × (is_status r.status ≡ true)
        × ((log_requests m elapsed pattern (handler req) s).1.registry
            ≡ counter_add m.duration elapsed (route_label pattern ∷ []) (
                counter_inc m.requests
                  (route_label pattern ∷ itoa r.status ∷ [])
                  (handler req s).1.registry))
  unfolding log_requests
  log_requests-labels m now elapsed pattern handler req s r mem e =
      let (label, known) =
        All-mem IsRoute (routes w now) (routes-IsRoute now) (pattern, handler) mem in
      let (answered, counted) =
        count_request-answer m elapsed (route_label pattern) (handler req s).0 (handler req s).1 r
          e in
      (label, known req s r answered, counted)
