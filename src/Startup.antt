-- ===== src/Startup.antt =====
-- run, dialBackends and serveMetrics, cmd/mcp-resile/main.go. What a backend advertised, and all that
-- happens while the listener serves, are parameters; what is printed is left out.
pub mod Ready
pub mod Listening
pub mod Closing
pub mod Serving
use mcp_resile.Base.{
  Bool, ℕ, Bytes, Option, none, some, List, [], ◌∷◌, map, codes, ◌++◌, ℤ, pos, negsuc, suc,
  if◌then◌else◌,
}
use mcp_resile.Config.Types
use mcp_resile.Config.Types.{Config, Backend, Duration}
use mcp_resile.Config.Validate.{ConfigError}
use mcp_resile.Config.Load.{Libraries, Loaded, ok, failed, load}
use mcp_resile.Base.Decimal.{decimal}
use mcp_resile.Egress.{Sdk, Net, close, try_dial}
use mcp_resile.Logging.{Logger, new_logger}
use mcp_resile.Policy.{Policy, Store, new_resolver}
use mcp_resile.Proxy.Route.{Route}
use mcp_resile.Proxy.Route.Capabilities.{ServerCapabilities, merge_capabilities}
use mcp_resile.Proxy.Notifications.{Router, new_router, attach}
use mcp_resile.Proxy.Dispatch.{Setup}
use mcp_resile.Metrics.{Metrics, new_metrics, watch_circuit_breaker}

abbrev pub route_of : Backend → ℕ → Route
route_of b session = record { id = b.id; prefix = b.prefix; backend = session }

abbrev pub add_route : Backend → Option ℕ → List Route → List Route
add_route b none routes = routes
add_route b (some session) routes = route_of b session ∷ routes

abbrev pub add_dialed : Option ℕ → List ℕ → List ℕ
add_dialed none dialed = dialed
add_dialed (some session) dialed = session ∷ dialed

-- dialBackends: the routes, and the sessions of `dialed`; `none` is an error of egress.Dial.
unfoldable pub dial_backends :
    {W : Type 0} → (Bytes → W → Option ℕ × W) → List Backend → W → List Route × List ℕ × W
dial_backends dial [] w = ([], [], w)
dial_backends dial (b ∷ bs) w =
    let (session, v) = dial b.url w in
    let (routes, dialed, u) = dial_backends dial bs v in
    (add_route b session routes, add_dialed session dialed, u)

abbrev pub watch_policy : Types.Policy → Option ℕ → Metrics → Metrics
watch_policy config none m = m
watch_policy config (some breaker) m = watch_circuit_breaker config.tool_pattern m

-- The loop over policies.Policies().
unfoldable pub watch_breakers : List Policy → Metrics → Metrics
watch_breakers [] m = m
watch_breakers (p ∷ ps) m = watch_breakers ps (watch_policy p.config p.circuit_breaker m)

-- fmt's %d
unfoldable pub decimal_int : ℤ → Bytes
decimal_int (pos n) = decimal n
decimal_int (negsuc n) = codes "-" ++ decimal (suc n)

-- The fields of http.Server that run sets; its handler is Auth.middleware around the gateway.
pub record HttpServer : Type 0 where
  pub addr : Bytes
  pub read_timeout : Duration
  pub write_timeout : Duration

-- serveMetrics: the address that it listens at, and the path that it serves; `none` if it panics.
-- `handles` tells the patterns that ServeMux.Handle takes; it panics on any other.
unfoldable pub serve_metrics : (Bytes → Bool) → Types.Metrics → Option (Bytes × Bytes)
unfolding decimal_int
serve_metrics handles cfg =
    if handles cfg.path then some (codes ":" ++ decimal_int cfg.port, cfg.path) else none

-- What has become of the metrics' server.
pub data MetricsServer : Type 0 where
  off panicked : MetricsServer
  serving : Bytes × Bytes → MetricsServer

abbrev pub after_serve_metrics : Option (Bytes × Bytes) → MetricsServer
after_serve_metrics none = panicked
after_serve_metrics (some server) = serving server

unfoldable pub metrics_server_for : (Bytes → Bool) → Types.Metrics → MetricsServer
unfolding serve_metrics
metrics_server_for handles cfg =
    if cfg.enabled then after_serve_metrics (serve_metrics handles cfg) else off

-- What run puts together before it serves. After a panic of serveMetrics, what would have been the
-- rest of it is used by nothing.
pub record Started (W : Type 0) : Type 0 where
  pub setup : Setup W
  pub store : Store
  pub router : Router
  pub metrics : Metrics
  pub capabilities : ServerCapabilities
  pub metrics_server : MetricsServer
  pub logger : Logger
  pub http_server : HttpServer
  pub dialed : List ℕ
  pub world : W

-- `libraries` gives the libraries; its routes, policies and limit are replaced. `server` is the
-- number of the gateway's own server.
unfoldable pub start :
    {W : Type 0}
    → (Bytes → Bool)
    → Setup W
    → (Bytes → W → Option ℕ × W)
    → (ℕ → Option ServerCapabilities)
    → ℕ
    → Config
    → W
    → Started W
unfolding metrics_server_for
start handles libraries dial advertised server cfg w =
    let (routes, dialed, v) = dial_backends dial cfg.backends w in
    let (policies, store) = new_resolver cfg.policies (record { breakers = []; limiters = [] }) in
    record {
      setup = record libraries {
        routes = routes;
        policies = policies;
        max_response_bytes = cfg.server.max_response_bytes;
      };
      store = store;
      router = attach server new_router;
      metrics = watch_breakers policies new_metrics;
      capabilities = merge_capabilities (map (λ r. advertised r.backend) routes);
      metrics_server = metrics_server_for handles cfg.telemetry.metrics;
      logger = new_logger cfg.telemetry.logging;
      http_server = record {
        addr = cfg.server.listen;
        read_timeout = cfg.server.read_timeout;
        write_timeout = cfg.server.write_timeout;
      };
      dialed = dialed;
      world = v;
    }

-- closeAll of dialBackends, over `dialed`.
unfoldable pub close_all : {W : Type 0} → Sdk W → List ℕ → Net W → Net W
close_all sdk [] net = net
close_all sdk (session ∷ dialed) net = close_all sdk dialed (close sdk session net)

-- How run ends: with the error of Load, with that of ListenAndServe, or by a panic.
pub data Ended : Type 0 where
  unloaded : ConfigError → Ended
  stopped crashed : Ended

module _ {W : Type 0} (handles : Bytes → Bool) (libraries : Setup (Net W)) (sdk : Sdk W)
    (advertised : ℕ → Option ServerCapabilities) (listen : Started (Net W) → W → W)
    (server : ℕ) where
  -- From serveMetrics on. `listen` is all that happens while ListenAndServe serves; the deferred
  -- closing of the sessions comes after it, and also after a panic.
  abbrev pub serve_until : MetricsServer → Started (Net W) → Ended × Net W
  serve_until panicked started = (crashed, close_all sdk started.dialed started.world)
  serve_until off started =
      let served = record started.world { world = listen started started.world.world } in
      (stopped, close_all sdk started.dialed served)
  serve_until (serving s) started =
      let served = record started.world { world = listen started started.world.world } in
      (stopped, close_all sdk started.dialed served)

  -- run, once Load has returned.
  unfoldable pub run_loaded : Loaded → Net W → Ended × Net W
  unfolding start close_all try_dial
  run_loaded (failed e) net = (unloaded e, net)
  run_loaded (ok cfg) net =
      let started = start handles libraries (try_dial sdk) advertised server cfg net in
      serve_until started.metrics_server started

  unfoldable pub run : Libraries → Bytes → Net W → Ended × Net W
  unfolding run_loaded
  run libs path net = run_loaded (load libs path) net
