-- ===== src/Proxy/Concurrent/Outcomes.antt =====
-- What clients are told, counted and logged while calls of internal/proxy/proxy.go run at the same time.
use mcp_resile.Base.{
  ℕ, Bytes, Option, none, some, List, ◌≡◌, refl, ◌⊎◌, All, All-append, All-middle,
}
use mcp_resile.Errors.{GoError, Result, ok, err}
use mcp_resile.Policy.{resolve}
use mcp_resile.Proxy.Errors.{Outcome}
use mcp_resile.Proxy.Route.{Route, match_route}
use mcp_resile.Proxy.Schema.{Tool}
use mcp_resile.Proxy.Upstream.{CallParams}
use mcp_resile.Proxy.Dispatch.{info, warn, LogEntry, Setup, error_of, log_dispatch}
use mcp_resile.Proxy.Dispatch.Errors.{
  IsCoarse, IsClean, outcome-IsCoarse, level-le-warn, violation-IsClean, finish_reply-IsClean,
}
use mcp_resile.Proxy.Concurrent.{
  Shared, Job, Place, closing, recording, logging, finished, Call, System, after_lookup,
  after_listing, after_validation, taken_on,
}
use mcp_resile.Proxy.Concurrent.Runs.{
  Step, arrives, goes_on, lists_tool, fires, elapses, Reach, Reach-induction,
}
use mcp_resile.Proxy.Concurrent.Moves.{
  Moves, waits, looks_up, listed, filled, fills, checks, tracks, answered, closes, records, logs,
  move-Moves,
}

-- What the call is to return, where it has something, holds no rejection.
abbrev pub IsCleanAt : Place → Type 0
IsCleanAt (closing token reply) = IsClean (error_of reply)
IsCleanAt (recording reply) = IsClean (error_of reply)
IsCleanAt (logging reply) = IsClean (error_of reply)
IsCleanAt (finished reply) = IsClean (error_of reply)
IsCleanAt _ = Unit

abbrev pub IsQuiet : LogEntry → Type 0
IsQuiet e = (e.level ≡ info) ⊎ (e.level ≡ warn)

-- No outcome that is counted tells a rejection, and no entry is at level error.
abbrev pub IsMuted : Shared → Type 0
IsMuted g = All (λ (r : Bytes × Outcome). IsCoarse r.1) g.requests × All IsQuiet g.log

module _ {W : Type 0} (s : Setup W) where
  lookup-IsCleanAt : (o : Option Bytes) → IsCleanAt (after_lookup s o)
  lookup-IsCleanAt none = tt
  lookup-IsCleanAt (some c) = tt

  listing-IsCleanAt : (r : Result (List Tool)) → IsCleanAt (after_listing s r)
  listing-IsCleanAt (ok ts) = tt
  listing-IsCleanAt (err e) = tt

  validation-IsCleanAt :
      (o : Option GoError)
      → ((e : GoError) → o ≡ some e → IsClean (some e))
      → IsCleanAt (after_validation s o)
  validation-IsCleanAt none h = tt
  validation-IsCleanAt (some e) h = h e refl

  Moves-IsCleanAt :
      (j : Job) {g : Shared} {p : Place} {r : Shared × Place}
      → Moves s j g p r
      → IsCleanAt p
      → IsMuted g
      → IsCleanAt r.1 × IsMuted r.0
  Moves-IsCleanAt j (waits p) c m = (c, m)
  Moves-IsCleanAt j looks_up c m = (lookup-IsCleanAt _, m)
  Moves-IsCleanAt j (listed reply) c m = (listing-IsCleanAt reply, m)
  Moves-IsCleanAt j filled c m = (tt, m)
  Moves-IsCleanAt j (fills t ts) c m = (tt, m)
  Moves-IsCleanAt j (checks resolved) c m =
      (validation-IsCleanAt _ (violation-IsClean s (ok resolved) j.name j.params.arguments), m)
  Moves-IsCleanAt j tracks c m = (tt, m)
  Moves-IsCleanAt j (answered token reply) c m =
      (finish_reply-IsClean s (resolve s.path_match s.policies j.name) reply, m)
  Moves-IsCleanAt j (closes token reply) c m = (c, m)
  Moves-IsCleanAt j {g} (records reply) c (r, l) =
      (c, (All-append _ g.requests _ r (outcome-IsCoarse (error_of reply) c, tt), l))
  Moves-IsCleanAt j {g} (logs reply) c (r, l) = (
    c,
    (
      r,
      All-append _ g.log _ l (
        unfold log_dispatch in
            level-le-warn (error_of reply) _ (outcome-IsCoarse (error_of reply) c),
        tt,
      ),
    ),
  )

  -- All of the system.
  abbrev pub IsClear : System → Type 0
  IsClear y = All (λ (c : Call). IsCleanAt c.place) y.calls × IsMuted y.shared

  taken_on-IsClean :
      (params : CallParams) (session : Option ℕ) (o : Option (Route × Bytes))
      → All (λ (c : Call). IsCleanAt c.place) (taken_on s params session o)
  taken_on-IsClean params session none = tt
  taken_on-IsClean params session (some (route, name)) = (tt, tt)

  Step-IsClear : (y z : System) → Step s y z → IsClear y → IsClear z
  Step-IsClear y z (arrives params session) (h, m) = (
    All-append _ (taken_on s params session (match_route s.routes params.name)) y.calls
        (taken_on-IsClean params session (match_route s.routes params.name)) h,
    m,
  )
  Step-IsClear y z (goes_on before c after input e) (h, m) =
      let (here, earlier, later) =
        All-middle (λ (d : Call). IsCleanAt d.place) before c after (rw e at h) in
      let (clean, muted) =
        Moves-IsCleanAt c.job (move-Moves s c.job input y.shared c.place) here m in
      (All-append (λ (d : Call). IsCleanAt d.place) before _ earlier (clean, later), muted)
  Step-IsClear y z (lists_tool name tool) h = h
  Step-IsClear y z (fires before t after e due) h = h
  Step-IsClear y z (elapses n) h = h

  -- In every state that calls, listings, cleanup timers and the clock lead to, in any order: no
  -- reply that a call is about to give or has given holds an open circuit, a rate limit, a timeout
  -- or a panic as such, no request is counted with an outcome that tells one of them, and every log
  -- entry is at level info or warn.
  pub Reach-IsClear : (y : System) → Reach s y → IsClear y
  Reach-IsClear y r = Reach-induction s IsClear (tt, (tt, tt)) Step-IsClear y r
