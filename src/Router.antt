-- ===== src/Router.antt =====
-- pkg/router/router.go: the listener of the webhook, with the counters of its requests, and the one of
-- the probes and the metrics.
pub mod Labels
pub mod Servers
mod Examples
use external_dns_openwrt_nex.Prelude.{
  ℕ, zero, suc, ◌+◌, Bool, true, false, not, ◌&&◌, ◌||◌, List, [], ◌∷◌, ◌++◌, map, Option, none,
  some, ◌≡◌, refl, sym, ap, ◌∙◌, subst, arith, inl, inr, ◌⊎◌, ◌↔◌, ◌≢◌, ltb, leb, eqb,
  if◌then◌else◌, length, any, keep, is_empty, All, Bool-cases, Option-cases, ◌≤◌, ◌<◌,
}
use external_dns_openwrt_nex.Strings.{Str, codes}
use external_dns_openwrt_nex.Strings.Decimal.{itoa}
use external_dns_openwrt_nex.Exec.{Exec, Result, ok, err}
use external_dns_openwrt_nex.Metrics.{
  Float64, Registry, MetricRef, prefix, register_counter, counter_add, counter_inc,
}
use external_dns_openwrt_nex.Metrics.Text.{write_registry}
use external_dns_openwrt_nex.Webhook.Http.{Response, message}
use external_dns_openwrt_nex.Webhook.{Server}

-- `strings.ReplaceAll(s, "{$}", "")`.
unfoldable pub remove_marker : Str → Str
remove_marker [] = []
remove_marker (c ∷ []) = c ∷ []
remove_marker (c ∷ d ∷ []) = c ∷ d ∷ []
remove_marker (c ∷ d ∷ e ∷ s) =
    let behind = remove_marker s in
    let later = remove_marker (d ∷ e ∷ s) in
    if eqb c b'{' && eqb d b'$' && eqb e b'}' then behind else c ∷ later

unfoldable pub route_label : Str → Str
unfolding remove_marker
route_label pattern = if is_empty pattern then codes "unmatched" else remove_marker pattern

pub record HttpMetrics : Type 0 where
  pub requests : MetricRef
  pub duration : MetricRef

unfoldable pub new_http_metrics : {F : Type 0} → Registry F → HttpMetrics × Registry F
unfolding register_counter
new_http_metrics r0 =
    let (requests, r1) =
      register_counter (prefix ++ codes "_http_requests_total")
        (codes "Requests served on the provider API, by route and status.")
        (codes "route" ∷ codes "status" ∷ []) r0 in
    let (duration, r2) =
      register_counter (prefix ++ codes "_http_request_duration_seconds_total")
        (codes "Total time spent serving the provider API, by route.") (codes "route" ∷ []) r1 in
    (record { requests = requests; duration = duration }, r2)

module _ {S F : Type 0} ⦃f : Float64 F⦄ where
  -- Behind the handler: an answer is counted with the status that was recorded, and a panic is not.
  abbrev pub count_request :
      HttpMetrics → F → Str → Option Response → Server S F → Option Response × Server S F
  count_request m elapsed route none s = (none, s)
  count_request m elapsed route (some r) s = (
    some r,
    record s {
      registry =
          counter_add m.duration elapsed (route ∷ [])
            (counter_inc m.requests (route ∷ itoa r.status ∷ []) s.registry);
    },
  )

  -- `logRequests`, for a request that the mux gave to the handler of a pattern, with the time that it
  -- took. The mux gives one that matches none to a handler of its own, with an empty pattern.
  unfoldable pub log_requests :
      HttpMetrics
      → F
      → Str
      → (Server S F → Option Response × Server S F)
      → Server S F
      → Option Response × Server S F
  unfolding route_label
  log_requests m elapsed pattern next s =
      let (answer, s') = next s in count_request m elapsed (route_label pattern) answer s'

-- The handler of the probes.
abbrev pub healthz : Response
healthz = record {
  status = 200;
  content_type = codes "application/json";
  payload = message (codes "{}");
}

module _ {F : Type 0} ⦃f : Float64 F⦄ where
  unfoldable pub serve_metrics : Registry F → Response
  unfolding write_registry
  serve_metrics r = record {
    status = 200;
    content_type = codes "text/plain; version=0.0.4; charset=utf-8";
    payload = message (write_registry r);
  }

-- The two servers, as `Shutdown` sees them.
pub record Listeners (W E : Type 0) : Type 0 where
  pub shutdown_api : Exec W E (Unit {0})
  pub shutdown_health : Exec W E (Unit {0})

-- `errors.Join`.
abbrev pub join_errors :
    {E : Type 0} → Result E (Unit {0}) → Result E (Unit {0}) → Result (List E) (Unit {0})
join_errors (ok _) (ok _) = ok tt
join_errors (ok _) (err e) = err (e ∷ [])
join_errors (err e) (ok _) = err (e ∷ [])
join_errors (err e) (err e') = err (e ∷ e' ∷ [])

unfoldable pub shutdown : {W E : Type 0} → Listeners W E → Exec W (List E) (Unit {0})
shutdown r w =
    let (api, w') = r.shutdown_api w in
    let (health, w'') = r.shutdown_health w' in (join_errors api health, w'')
