-- ===== src/Startup/Listening.antt =====
-- The listeners of a gateway that is started from an accepted configuration.
use mcp_resile.Base.{
  Bool, false, ◌⊎◌, ℕ, ◌≤◌, Bytes, codes, true, false, Option, ◌++◌, ◌≡◌, inl, inr, refl, arith,
  All, Bool-cases, is_empty, int_le, int_eq, ℤ, pos, negsuc, has_prefix,
}
use mcp_resile.Base.Decimal.{decimal}
use mcp_resile.Config.Types
use mcp_resile.Config.Types.{Config}
use mcp_resile.Config.Defaults.Complete.{IsCompleteMetrics}
use mcp_resile.Config.Tags.{
  tags_hold, config_tests, server_tags, server_tests, metrics_tags, every-All,
}
use mcp_resile.Config.Load.{Libraries, ok, parse}
use mcp_resile.Config.Load.Valid.{parse_iff}
use mcp_resile.Config.Load.Usable.{HonoursTags, parse-IsUsable}
use mcp_resile.Proxy.Route.Capabilities.{ServerCapabilities}
use mcp_resile.Proxy.Dispatch.{Setup}
use mcp_resile.Startup.{
  MetricsServer, off, panicked, serving, Started, crashed, serve_metrics, metrics_server_for,
  decimal_int, start, run_loaded,
}
use mcp_resile.Egress.{Sdk, Net, try_dial}

-- An address ":port" with a port that can be listened at, and a path that begins with '/'.
pub record IsMetricsServer (server : Bytes × Bytes) : Type 0 where
  pub port : ℕ
  pub in_range : (1 ≤ port) × (port ≤ 65535)
  pub address : server.0 ≡ codes ":" ++ decimal port
  pub path : has_prefix server.1 (codes "/") ≡ true

abbrev pub IsMetricsListener : MetricsServer → Type 0
IsMetricsListener off = Unit
IsMetricsListener panicked = ⊥
IsMetricsListener (serving server) = IsMetricsServer server

port_in_range :
    (p : ℤ)
    → int_eq p (pos 0) ≡ false
    → int_le (pos 0) p ≡ true
    → int_le p (pos 65535) ≡ true
    → (n : ℕ) × ((1 ≤ n) × (n ≤ 65535)) × (p ≡ pos n)
port_in_range (pos n) h k l = (n, (ground arith, ground arith), refl)
port_in_range (negsuc n) h k l = cc

metrics-IsMetricsServer :
    (m : Types.Metrics)
    → m.enabled ≡ true
    → IsCompleteMetrics m
    → metrics_tags m ≡ true
    → IsMetricsServer (codes ":" ++ decimal_int m.port, m.path)
unfolding decimal_int metrics_tags
metrics-IsMetricsServer m on complete h =
    let (n, bounds, e) =
      port_in_range m.port (ground (arith, complete.port)) (ground arith) (ground arith) in
    record {
      port = n;
      in_range = bounds;
      address = rw e refl;
      path = ground (arith, complete.path);
    }

pub record IsListening {W : Type 0} (s : Started W) : Type 0 where
  pub addr : is_empty s.http_server.addr ≡ false
  pub read_timeout : int_le (pos 1) s.http_server.read_timeout ≡ true
  pub write_timeout : int_le (pos 1) s.http_server.write_timeout ≡ true
  pub metrics : IsMetricsListener s.metrics_server

-- Metrics that are on, at a path that ServeMux.Handle does not take.
abbrev pub IsPanicking : (Bytes → Bool) → Types.Metrics → MetricsServer → Type 0
IsPanicking handles m server = (m.enabled ≡ true) × (handles m.path ≡ false) × (server ≡ panicked)

metrics_listener :
    (handles : Bytes → Bool) (m : Types.Metrics)
    → IsCompleteMetrics m
    → metrics_tags m ≡ true
    → IsMetricsListener (metrics_server_for handles m)
      ⊎ IsPanicking handles m (metrics_server_for handles m)
unfolding metrics_server_for serve_metrics
metrics_listener handles m complete h = elim (Bool-cases m.enabled) [
  | inr disabled ↦ inl (rw disabled tt)
  | inl on ↦ elim (Bool-cases (handles m.path)) [
    | inl taken ↦ inl (rw (on, taken) (metrics-IsMetricsServer m on complete h))
    | inr refused ↦ inr (on, refused, rw (on, refused) refl)
  ]
]

server_tests_hold : (s : Types.Server) → server_tags s ≡ true → All (λ b. b ≡ true) (server_tests s)
unfolding server_tags
server_tests_hold s h = every-All (server_tests s) h

config_tests_hold : (c : Config) → tags_hold c ≡ true → All (λ b. b ≡ true) (config_tests c)
unfolding tags_hold
config_tests_hold c h = every-All (config_tests c) h

-- The gateway started from a configuration that Parse accepts listens at an address that is not
-- empty, with timeouts of at least a nanosecond, and its metrics, if they are enabled, at a port from
-- 1 to 65535 under a path that begins with '/'; or else its metrics are enabled at a path that
-- ServeMux.Handle does not take, and then serveMetrics panics, and run crashes whatever `listen`
-- would do; if the checker library honours the tags.
pub start-IsListening :
    {W : Type 0} (libs : Libraries) (input : Bytes) (cfg : Config) (handles : Bytes → Bool)
    (libraries : Setup (Net W)) (sdk : Sdk W) (advertised : ℕ → Option ServerCapabilities)
    (listen : Started (Net W) → W → W) (server : ℕ) (net : Net W)
    → HonoursTags libs
    → parse libs input ≡ ok cfg
    → IsListening (start handles libraries (try_dial sdk) advertised server cfg net)
      ⊎ ((cfg.telemetry.metrics.enabled ≡ true)
          × (handles cfg.telemetry.metrics.path ≡ false)
          × ((run_loaded handles libraries sdk advertised listen server (ok cfg) net).0 ≡ crashed))
unfolding start run_loaded
start-IsListening libs input cfg handles libraries sdk advertised listen server net honours h =
    let (_, _, _, valid) = (parse_iff libs input cfg).0 h in
    let (complete, _) = parse-IsUsable libs input cfg honours h in
    let tags = config_tests_hold cfg (honours cfg valid.checked) in
    let server_ok = server_tests_hold cfg.server tags.0 in
    elim (metrics_listener handles cfg.telemetry.metrics complete.metrics tags.1.0) [
      | inr (on, refused, panics) ↦ inr (on, refused, rw panics refl)
      | inl metered ↦ inl (record {
        addr = ground (arith, server_ok.0);
        read_timeout = server_ok.1.1.0;
        write_timeout = server_ok.1.1.1.0;
        metrics = metered;
      })
    ]
