-- ===== src/Router/Servers.antt =====
-- pkg/router/router.go: the two listeners, and how the first to stop ends the process.
use external_dns_openwrt_nex.Prelude.{
  ℕ, List, [], ◌∷◌, ◌++◌, Option, none, some, ◌≡◌, refl, ◌↔◌, ◌≢◌,
}
use external_dns_openwrt_nex.Strings.{Str, codes}
use external_dns_openwrt_nex.Exec.{ok}
use external_dns_openwrt_nex.Metrics.{Float64, Registry}
use external_dns_openwrt_nex.Webhook.Http.{Response}
use external_dns_openwrt_nex.Router.{healthz, serve_metrics}
use external_dns_openwrt_nex.Main.{run_result, servers_stopped}

-- `Config` of pkg/router.
pub record ListenConfig : Type 0 where
  pub address : Str
  pub port : Str
  pub health_check_port : Str

-- What `newServer` sets beside the handler; the times are in seconds.
pub record HttpServer : Type 0 where
  pub addr : Str
  pub read_header_timeout : ℕ
  pub idle_timeout : ℕ

unfoldable pub new_server : Str → HttpServer
new_server addr = record { addr = addr; read_header_timeout = 10; idle_timeout = 30 }

pub record HttpServers : Type 0 where
  pub api : HttpServer
  pub health : HttpServer

unfoldable pub new_router : ListenConfig → HttpServers
unfolding new_server
new_router c = record {
  api = new_server (c.address ++ codes ":" ++ c.port);
  health = new_server (codes ":" ++ c.health_check_port);
}

-- The handlers of the health listener, by pattern.
unfoldable pub health_routes : {F : Type 0} ⦃f : Float64 F⦄ → List (Str × (Registry F → Response))
health_routes = (codes "/healthz", λ r. healthz) ∷ (codes "/metrics", λ r. serve_metrics r) ∷ []

-- What `ListenAndServe` returns: no error, ErrServerClosed after a Shutdown, or another error.
pub data Stop (X : Type 0) : Type 0 where
  finished server_closed : Stop X
  failed : X → Stop X

pub record ListenError (X : Type 0) : Type 0 where
  pub listener : Str
  pub addr : Str
  pub cause : X

unfoldable pub serve : {X : Type 0} → Str → HttpServer → Stop X → Option (ListenError X)
serve name server finished = none
serve name server server_closed = none
serve name server (failed x) = some (record { listener = name; addr = server.addr; cause = x })

pub data Listener : Type 0 where
  api_listener health_listener : Listener

-- `Run`, by the listener that stops first.
unfoldable pub run_servers : {X : Type 0} → HttpServers → Listener → Stop X → Option (ListenError X)
unfolding serve
run_servers r api_listener stop = serve (codes "api") r.api stop
run_servers r health_listener stop = serve (codes "health") r.health stop

-- The process ends without an error exactly if the first listener to stop did not fail.
run_servers-result :
    {X : Type 0} (r : HttpServers) (first : Listener) (stop : Stop X)
    → (run_result (servers_stopped (run_servers r first stop)) ≡ ok tt)
      ↔ ((x : X) → stop ≢ failed x)
unfolding run_servers run_result
run_servers-result r api_listener finished = (λ h x e. cc, λ h. refl)
run_servers-result r api_listener server_closed = (λ h x e. cc, λ h. refl)
run_servers-result r api_listener (failed x) = (λ h y e. cc, λ h. absurd (h x refl))
run_servers-result r health_listener finished = (λ h x e. cc, λ h. refl)
run_servers-result r health_listener server_closed = (λ h x e. cc, λ h. refl)
run_servers-result r health_listener (failed x) = (λ h y e. cc, λ h. absurd (h x refl))
