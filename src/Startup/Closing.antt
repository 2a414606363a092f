-- ===== src/Startup/Closing.antt =====
-- The sessions that run opens, and their closing.
use mcp_resile.Base.{ℕ, Bool, ◌+◌, Bytes, Option, none, some, List, [], ◌∷◌, ◌≡◌, arith, refl}
use mcp_resile.Config.Types.{Backend, Config}
use mcp_resile.Config.Load.{Libraries, Loaded, ok, failed, load}
use mcp_resile.Proxy.Route.{Route}
use mcp_resile.Proxy.Route.Capabilities.{ServerCapabilities}
use mcp_resile.Proxy.Dispatch.{Setup}
use mcp_resile.Egress.{Sdk, Net, close, try_dial}
use mcp_resile.Egress.Sessions.{opens, closes, held, Holds, try_dial-Holds, close-closes}
use mcp_resile.Startup.{
  add_route, add_dialed, dial_backends, MetricsServer, off, panicked, serving, Started, start,
  close_all, Ended, stopped, crashed, serve_until, run_loaded, run,
}

-- How many of the dialed sessions are this one.
pub dialed_as : ℕ → List ℕ → ℕ
dialed_as n [] = 0
dialed_as n (m ∷ ms) = held n (some m) + dialed_as n ms

dialed_as-add_dialed :
    (n : ℕ) (o : Option ℕ) (ms : List ℕ) → dialed_as n (add_dialed o ms) ≡ held n o + dialed_as n ms
unfolding dialed_as
dialed_as-add_dialed n none ms = omega arith
dialed_as-add_dialed n (some m) ms = refl

-- How many routes have the session.
pub routed : ℕ → List Route → ℕ
routed n [] = 0
routed n (r ∷ rs) = held n (some r.backend) + routed n rs

routed-add_route :
    (n : ℕ) (b : Backend) (o : Option ℕ) (rs : List Route)
    → routed n (add_route b o rs) ≡ held n o + routed n rs
unfolding routed
routed-add_route n b none rs = omega arith
routed-add_route n b (some m) rs = refl

module _ {W : Type 0} (sdk : Sdk W) (n : ℕ) where
  dial_backends-Holds :
      (bs : List Backend) (net : Net W)
      → Holds n
          (routed n (dial_backends (try_dial sdk) bs net).0)
          net.trace
          (dial_backends (try_dial sdk) bs net).2.trace
  unfolding dial_backends
  dial_backends-Holds [] net = unfold routed in omega arith
  dial_backends-Holds (b ∷ bs) net =
      let (o, after) = try_dial sdk b.url net in
      let (routes, _, _) = dial_backends (try_dial sdk) bs after in
      omega (
        arith,
        try_dial-Holds sdk n b.url net,
        dial_backends-Holds bs after,
        routed-add_route n b o routes,
      )

  dial_backends-dialed :
      (bs : List Backend) (net : Net W)
      → dialed_as n (dial_backends (try_dial sdk) bs net).1
        ≡ routed n (dial_backends (try_dial sdk) bs net).0
  unfolding dial_backends
  dial_backends-dialed [] net = unfold routed dialed_as in refl
  dial_backends-dialed (b ∷ bs) net =
      let (o, after) = try_dial sdk b.url net in
      let (routes, dialed, _) = dial_backends (try_dial sdk) bs after in
      omega (
        arith,
        dial_backends-dialed bs after,
        routed-add_route n b o routes,
        dialed_as-add_dialed n o dialed,
      )

  close_all-closes :
      (rs : List ℕ) (net : Net W)
      → (opens n (close_all sdk rs net).trace ≡ opens n net.trace)
        × (closes n (close_all sdk rs net).trace ≡ closes n net.trace + dialed_as n rs)
  unfolding close_all dialed_as
  close_all-closes [] net = (refl, omega arith)
  close_all-closes (r ∷ rs) net =
      let (same, more) = close-closes sdk n r net in
      let (all_same, all_more) = close_all-closes rs (close sdk r net) in (omega arith, omega arith)

abbrev pub initial : {W : Type 0} → W → Net W
initial w = record { world = w; trace = [] }

module _ {W : Type 0} (handles : Bytes → Bool) (libraries : Setup (Net W)) (sdk : Sdk W)
    (advertised : ℕ → Option ServerCapabilities) (listen : Started (Net W) → W → W)
    (server : ℕ) where
  IsClosed : ℕ → Ended × Net W → Type 0
  IsClosed n (ended, net) = opens n net.trace ≡ closes n net.trace

  close_all-IsClosed :
      (n : ℕ) (bs : List Backend) (w v : W) (ended : Ended)
      → let (_, dialed, net) = dial_backends (try_dial sdk) bs (initial w) in
        IsClosed n (ended, close_all sdk dialed (record net { world = v }))
  unfolding IsClosed
  close_all-IsClosed n bs w v ended =
      let (_, dialed, net) = dial_backends (try_dial sdk) bs (initial w) in
      let (same, more) = close_all-closes sdk n dialed (record net { world = v }) in
      unfold opens closes in
      omega (
        arith,
        same,
        more,
        dial_backends-Holds sdk n bs (initial w),
        dial_backends-dialed sdk n bs (initial w),
      )

  serve_until-IsClosed :
      (m : MetricsServer) (cfg : Config) (w : W) (n : ℕ)
      → IsClosed n (
          serve_until handles libraries sdk advertised listen server m
            (start handles libraries (try_dial sdk) advertised server cfg (initial w)))
  unfolding start
  serve_until-IsClosed panicked cfg w n = close_all-IsClosed n cfg.backends w _ crashed
  serve_until-IsClosed off cfg w n = close_all-IsClosed n cfg.backends w _ stopped
  serve_until-IsClosed (serving s) cfg w n = close_all-IsClosed n cfg.backends w _ stopped

  run_loaded-IsClosed :
      (loaded : Loaded) (w : W) (n : ℕ)
      → IsClosed n (run_loaded handles libraries sdk advertised listen server loaded (initial w))
  unfolding run_loaded start IsClosed
  run_loaded-IsClosed (failed e) w n = unfold opens closes in refl
  run_loaded-IsClosed (ok cfg) w n = serve_until-IsClosed _ cfg w n

-- Whatever the configuration holds, whichever backends answer, and whatever happens while the
-- gateway serves, and also if serveMetrics panics, by the time run returns every session has been closed as often as it was opened.
-- When a gateway started from any configuration begins to serve, the sessions that are open are those
-- of its routes: a session is open as many times as routes have it.
pub run-closes :
    {W : Type 0} (libs : Libraries) (handles : Bytes → Bool) (libraries : Setup (Net W))
    (sdk : Sdk W) (advertised : ℕ → Option ServerCapabilities) (listen : Started (Net W) → W → W)
    (server : ℕ) (path : Bytes) (w : W) (n : ℕ) (cfg : Config)
    → (opens n (run handles libraries sdk advertised listen server libs path (initial w)).1.trace
        ≡ closes n
            (run handles libraries sdk advertised listen server libs path (initial w)).1.trace)
      × (opens n
            (start handles libraries (try_dial sdk) advertised server cfg (initial w)).world.trace
          ≡ closes n
              (start handles libraries (try_dial sdk) advertised server cfg (initial w)).world.trace
            + routed n
                (start handles libraries
                  (try_dial sdk)
                  advertised
                  server
                  cfg
                  (initial w)).setup.routes)
unfolding run start IsClosed
run-closes libs handles libraries sdk advertised listen server path w n cfg = (
  run_loaded-IsClosed handles libraries sdk advertised listen server (load libs path) w n,
  let held_open = dial_backends-Holds sdk n cfg.backends (initial w) in
      unfold opens closes in omega (arith, held_open),
)
