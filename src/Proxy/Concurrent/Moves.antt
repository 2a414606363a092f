-- ===== src/Proxy/Concurrent/Moves.antt =====
-- The pieces of a call, case by case.
use mcp_resile.Base.{Bytes, Option, List, [], ◌∷◌, ◌++◌}
use mcp_resile.Errors.{Result, ok}
use mcp_resile.Policy.{resolve}
use mcp_resile.Proxy.Errors.{outcome_for_error}
use mcp_resile.Proxy.Schema.{Tool, get, refresh}
use mcp_resile.Proxy.Dispatch.{Reply, Setup, error_of, log_dispatch, violation, finish_reply}
use mcp_resile.Proxy.Concurrent.{
  Shared, Job, Place, resolving, fetching, tracking, filling, checking, running, closing, recording,
  logging, finished, Input, silent, lists, replies, track_call, close_call, after_listing,
  after_lookup, after_validation, move,
}

module _ {W : Type 0} (s : Setup W) (j : Job) where
  pub data Moves (g : Shared) : Place → Shared × Place → Type 0 where
    waits : (p : Place) → Moves g p (g, p)
    looks_up : Moves g resolving (g, after_lookup s (get j.params.name g.cache))
    listed : (reply : Result (List Tool)) → Moves g fetching (g, after_listing s reply)
    filled : Moves g (filling []) (g, checking (get j.params.name g.cache))
    fills :
        (t : Tool) (ts : List Tool)
        → Moves g
            (filling (t ∷ ts))
            (record g { cache = refresh s.json (j.route.prefix ++ t.name) t g.cache }, filling ts)
    checks :
        (resolved : Option Bytes)
        → Moves g
            (checking resolved)
            (g, after_validation s (violation s (ok resolved) j.name j.params.arguments))
    tracks : Moves g tracking (
      record g { progress = (track_call j.session j.params g.progress).1 },
      running (track_call j.session j.params g.progress).0,
    )
    answered :
        (token : Bytes) (reply : Reply)
        → Moves g
            (running token)
            (g, closing token (finish_reply s (resolve s.path_match s.policies j.name) reply))
    closes :
        (token : Bytes) (reply : Reply)
        → Moves g
            (closing token reply)
            (record g { progress = close_call token g.progress }, recording reply)
    records :
        (reply : Reply)
        → Moves g (recording reply) (
          record g {
            requests = g.requests ++ (j.params.name, outcome_for_error (error_of reply)) ∷ [];
          },
          logging reply,
        )
    logs :
        (reply : Reply)
        → Moves g (logging reply) (
          record g {
            log =
                g.log
                ++ log_dispatch j.params.name j.route.id
                    (outcome_for_error (error_of reply))
                    (error_of reply)
                  ∷ [];
          },
          finished reply,
        )

  pub move-Moves : (input : Input) (g : Shared) (p : Place) → Moves g p (move s j input g p)
  unfolding move
  move-Moves silent g resolving = looks_up
  move-Moves silent g fetching = waits fetching
  move-Moves silent g tracking = tracks
  move-Moves silent g (filling []) = filled
  move-Moves silent g (filling (t ∷ ts)) = fills t ts
  move-Moves silent g (checking resolved) = checks resolved
  move-Moves silent g (running token) = waits (running token)
  move-Moves silent g (closing token reply) = closes token reply
  move-Moves silent g (recording reply) = records reply
  move-Moves silent g (logging reply) = logs reply
  move-Moves silent g (finished reply) = waits (finished reply)
  move-Moves (lists r) g resolving = waits resolving
  move-Moves (lists r) g fetching = listed r
  move-Moves (lists r) g tracking = waits tracking
  move-Moves (lists r) g (filling ts) = waits (filling ts)
  move-Moves (lists r) g (checking resolved) = waits (checking resolved)
  move-Moves (lists r) g (running token) = waits (running token)
  move-Moves (lists r) g (closing token reply) = waits (closing token reply)
  move-Moves (lists r) g (recording reply) = waits (recording reply)
  move-Moves (lists r) g (logging reply) = waits (logging reply)
  move-Moves (lists r) g (finished reply) = waits (finished reply)
  move-Moves (replies r) g resolving = waits resolving
  move-Moves (replies r) g fetching = waits fetching
  move-Moves (replies r) g tracking = waits tracking
  move-Moves (replies r) g (filling ts) = waits (filling ts)
  move-Moves (replies r) g (checking resolved) = waits (checking resolved)
  move-Moves (replies r) g (running token) = answered token r
  move-Moves (replies r) g (closing token reply) = waits (closing token reply)
  move-Moves (replies r) g (recording reply) = waits (recording reply)
  move-Moves (replies r) g (logging reply) = waits (logging reply)
  move-Moves (replies r) g (finished reply) = waits (finished reply)
