-- ===== src/Proxy/Concurrent/Accounts.antt =====
-- The request counter and the log while calls of internal/proxy/proxy.go run at the same time.
use mcp_resile.Base.{
  ℕ, ◌+◌, Bytes, Option, none, some, List, [], ◌∷◌, ◌++◌, ◌≡◌, refl, arith, total, total-append,
  total-middle,
}
use mcp_resile.Errors.{GoError, Result, ok, err}
use mcp_resile.Proxy.Schema.{Tool}
use mcp_resile.Proxy.Errors.{Outcome, outcome_for_error}
use mcp_resile.Proxy.Route.{Route, match_route}
use mcp_resile.Proxy.Upstream.{CallParams}
use mcp_resile.Proxy.Middleware.Accounting.{accounted}
use mcp_resile.Proxy.Dispatch.{LogEntry, Setup, error_of, log_dispatch}
use mcp_resile.Proxy.Concurrent.{
  Shared, Job, Place, logging, finished, Call, System, move, after_lookup, after_listing,
  after_validation, taken_on,
}
use mcp_resile.Proxy.Concurrent.Runs.{
  Step, arrives, goes_on, lists_tool, fires, elapses, Reach, Reach-induction,
}
use mcp_resile.Proxy.Concurrent.Moves.{
  Moves, waits, looks_up, listed, filled, fills, checks, tracks, answered, closes, records, logs,
  move-Moves,
}

module _ (weight : Bytes × Outcome → ℕ) where
  abbrev of_reply : Job → Option GoError → ℕ
  of_reply j e = weight (j.params.name, outcome_for_error e)

  -- The weight of a call that has been counted.
  abbrev pub counted_at : Job → Place → ℕ
  counted_at j (logging reply) = of_reply j (error_of reply)
  counted_at j (finished reply) = of_reply j (error_of reply)
  counted_at j _ = 0

  -- The weight of a call that has been logged.
  abbrev pub logged_at : Job → Place → ℕ
  logged_at j (finished reply) = of_reply j (error_of reply)
  logged_at j _ = 0

  abbrev pub counted : Call → ℕ
  counted c = counted_at c.job c.place

  abbrev pub logged : Call → ℕ
  logged c = logged_at c.job c.place

  abbrev of_entry : LogEntry → ℕ
  of_entry e = weight (accounted e)

  -- A piece of a call counts it, or logs it, when it says so.
  abbrev Tallies : Job → Shared → Place → Shared × Place → Type 0
  Tallies j g p (g', p') =
      (total weight g'.requests + counted_at j p ≡ total weight g.requests + counted_at j p')
      × (total of_entry g'.log + logged_at j p ≡ total of_entry g.log + logged_at j p')

  module _ {W : Type 0} (s : Setup W) (j : Job) where
    lookup-untallied :
        (o : Option Bytes)
        → (counted_at j (after_lookup s o) ≡ 0) × (logged_at j (after_lookup s o) ≡ 0)
    lookup-untallied none = (refl, refl)
    lookup-untallied (some c) = (refl, refl)

    listing-untallied :
        (r : Result (List Tool))
        → (counted_at j (after_listing s r) ≡ 0) × (logged_at j (after_listing s r) ≡ 0)
    listing-untallied (ok ts) = (refl, refl)
    listing-untallied (err e) = (refl, refl)

    validation-untallied :
        (o : Option GoError)
        → (counted_at j (after_validation s o) ≡ 0) × (logged_at j (after_validation s o) ≡ 0)
    validation-untallied none = (refl, refl)
    validation-untallied (some e) = (refl, refl)

    Moves-Tallies :
        {g : Shared} {p : Place} {r : Shared × Place} → Moves s j g p r → Tallies j g p r
    unfolding log_dispatch
    Moves-Tallies (waits p) = (refl, refl)
    Moves-Tallies looks_up = omega (arith, lookup-untallied _)
    Moves-Tallies (listed reply) = omega (arith, listing-untallied reply)
    Moves-Tallies filled = (refl, refl)
    Moves-Tallies (fills t ts) = (refl, refl)
    Moves-Tallies (checks resolved) = omega (arith, validation-untallied _)
    Moves-Tallies tracks = (refl, refl)
    Moves-Tallies (answered token reply) = (refl, refl)
    Moves-Tallies (closes token reply) = (refl, refl)
    Moves-Tallies {g} (records reply) = omega (
      arith,
      total-append weight g.requests ((j.params.name, outcome_for_error (error_of reply)) ∷ []),
    )
    Moves-Tallies {g} (logs reply) = omega (
      arith,
      total-append of_entry g.log (
          log_dispatch j.params.name j.route.id (outcome_for_error (error_of reply))
            (error_of reply)
          ∷ []),
    )

  -- The counter holds the calls that have been counted, and the log those that have been logged.
  pub record InStep (y : System) : Type 0 where
    pub requests : total weight y.shared.requests ≡ total counted y.calls
    pub log : total of_entry y.shared.log ≡ total logged y.calls

  module _ {W : Type 0} (s : Setup W) where
    taken_on-untallied :
        (params : CallParams) (session : Option ℕ) (o : Option (Route × Bytes)) (cs : List Call)
        → (total counted (taken_on s params session o ++ cs) ≡ total counted cs)
          × (total logged (taken_on s params session o ++ cs) ≡ total logged cs)
    taken_on-untallied params session none cs = (refl, refl)
    taken_on-untallied params session (some (route, name)) cs = (omega arith, omega arith)

    Step-InStep : (y z : System) → Step s y z → InStep y → InStep z
    Step-InStep y z (arrives params session) h =
        let (c, l) = taken_on-untallied params session (match_route s.routes params.name) y.calls in
        record { requests = omega (arith, h.requests, c); log = omega (arith, h.log, l) }
    Step-InStep y z (goes_on before c after input e) h =
        let (moved, place) = move s c.job input y.shared c.place in
        let (r, l) = Moves-Tallies s c.job (move-Moves s c.job input y.shared c.place) in
        let now : Call = record c { place = place } in
        record {
          requests = omega (
            arith,
            r,
            rw e at h.requests,
            total-middle counted before c after,
            total-middle counted before now after,
          );
          log = omega (
            arith,
            l,
            rw e at h.log,
            total-middle logged before c after,
            total-middle logged before now after,
          );
        }
    Step-InStep y z (lists_tool name tool) h = record { requests = h.requests; log = h.log }
    Step-InStep y z (fires before t after e due) h = record { requests = h.requests; log = h.log }
    Step-InStep y z (elapses n) h = record { requests = h.requests; log = h.log }

    -- In every state that calls, listings, cleanup timers and the clock lead to, in any order: for
    -- every weight of a name and an outcome, the requests counted weigh together what the calls past
    -- their counting weigh, and the log entries what the calls past their logging weigh. So the
    -- counter and the log hold each such call once, under the name that its client used and with the
    -- outcome of its reply, and nothing else.
    pub Reach-InStep : (y : System) → Reach s y → InStep y
    Reach-InStep y r =
        Reach-induction s InStep (record { requests = refl; log = refl }) Step-InStep y r
