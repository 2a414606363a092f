-- ===== src/Proxy/Concurrent.antt =====
-- tools/call requests that run at the same time, internal/proxy/proxy.go: callTool and dispatchTool in
-- the pieces between which other goroutines may run. A piece is an access to the schema cache, the
-- router, the request counter or the logger, which each is atomic, or a call of a library or a
-- backend, whose answer is an input: any answer may come, at any time.
pub mod Runs
pub mod Moves
pub mod Alone
pub mod Sequential
pub mod Finishing
pub mod Isolation
pub mod Refusal
pub mod Outcomes
pub mod Accounts
pub mod Tokens
use mcp_resile.Base.{
  ℕ, suc, ◌+◌, ◌≤◌, Bytes, Option, none, some, List, [], ◌∷◌, ◌++◌, is_empty, if◌then◌else◌, ◌≡◌,
}
use mcp_resile.Errors.{GoError, Result, ok, err}
use mcp_resile.Policy.{resolve}
use mcp_resile.Proxy.Errors.{Outcome, outcome_for_error}
use mcp_resile.Proxy.Route.{Route, match_route}
use mcp_resile.Proxy.Notifications.{ProgressToken, track_progress, new_router}
use mcp_resile.Proxy.Notifications.Runs.{World, Timer, progress_cleanup_delay, track, fire, elapse}
use mcp_resile.Proxy.Schema.{get, SchemaCache, Tool, refresh, validate_arguments, new_schema_cache}
use mcp_resile.Proxy.Upstream.{CallParams}
use mcp_resile.Proxy.Dispatch.{
  LogEntry, Reply, Setup, error_of, log_dispatch, violation, finish_reply,
}

-- What the goroutines share.
pub record Shared : Type 0 where
  pub cache : SchemaCache
  pub progress : World
  pub requests : List (Bytes × Outcome)
  pub log : List LogEntry

-- What stays the same all through a call: its route, its backend's name for the tool, and the request.
pub record Job : Type 0 where
  pub route : Route
  pub name : Bytes
  pub params : CallParams
  pub session : Option ℕ

-- How far a goroutine is in its call, with its local variables.
pub data Place : Type 0 where
  resolving fetching tracking : Place
  filling : List Tool → Place
  checking : Option Bytes → Place
  running : Bytes → Place
  closing : Bytes → Reply → Place
  recording logging finished : Reply → Place

pub record Call : Type 0 where
  pub job : Job
  pub place : Place

-- What a library or a backend answers; `silent` where none is asked.
pub data Input : Type 0 where
  silent : Input
  lists : Result (List Tool) → Input
  replies : Reply → Input

-- TrackProgress as dispatchTool calls it; a session that is not a ServerSession is `none`.
abbrev pub track_for : ℕ → Option ProgressToken → World → Bytes × World
track_for session none w = ([], w)
track_for session (some original) w =
    ((track_progress session (some original) w.router).0, track session original w)

abbrev pub track_call : Option ℕ → CallParams → World → Bytes × World
track_call none params w = ([], w)
track_call (some session) params w = track_for session params.progress_token w

-- The cleanup function; that of an untracked call does nothing.
abbrev pub close_call : Bytes → World → World
close_call token w = if is_empty token then w else record w {
  timers = record { due = w.clock + progress_cleanup_delay; token = token } ∷ w.timers;
}

-- The gateway and all calls that it has taken on.
pub record System : Type 0 where
  pub shared : Shared
  pub calls : List Call

module _ {W : Type 0} (s : Setup W) where
  abbrev pub after_listing : Result (List Tool) → Place
  after_listing (err e) = checking none
  after_listing (ok tools) = filling tools

  abbrev pub after_lookup : Option Bytes → Place
  after_lookup none = fetching
  after_lookup (some resolved) = checking (some resolved)

  abbrev pub after_validation : Option GoError → Place
  after_validation none = tracking
  after_validation (some e) = recording (err e)

  -- The next piece of a call. A call that waits for another input stays where it is.
  unfoldable pub move : Job → Input → Shared → Place → Shared × Place
  move j silent g resolving = (g, after_lookup (get j.params.name g.cache))
  move j (lists reply) g fetching = (g, after_listing reply)
  move j silent g (filling []) = (g, checking (get j.params.name g.cache))
  move j silent g (filling (t ∷ ts)) =
      (record g { cache = refresh s.json (j.route.prefix ++ t.name) t g.cache }, filling ts)
  move j silent g (checking resolved) =
      (g, after_validation (violation s (ok resolved) j.name j.params.arguments))
  move j silent g tracking =
      let (token, progress) = track_call j.session j.params g.progress in
      (record g { progress = progress }, running token)
  move j (replies reply) g (running token) =
      (g, closing token (finish_reply s (resolve s.path_match s.policies j.name) reply))
  move j silent g (closing token reply) =
      (record g { progress = close_call token g.progress }, recording reply)
  move j silent g (recording reply) =
      let outcome = outcome_for_error (error_of reply) in
      (record g { requests = g.requests ++ (j.params.name, outcome) ∷ [] }, logging reply)
  move j silent g (logging reply) =
      let outcome = outcome_for_error (error_of reply) in
      (
        record g {
          log = g.log ++ log_dispatch j.params.name j.route.id outcome (error_of reply) ∷ [];
        },
        finished reply,
      )
  move j input g place = (g, place)

  -- callTool up to dispatchTool; a call that no route matches is passed on.
  abbrev pub taken_on : CallParams → Option ℕ → Option (Route × Bytes) → List Call
  taken_on params session none = []
  taken_on params session (some (route, name)) =
      record {
        job = record { route = route; name = name; params = params; session = session };
        place = resolving;
      }
      ∷ []

  abbrev pub arrive : CallParams → Option ℕ → System → System
  arrive params session y = record y {
    calls = taken_on params session (match_route s.routes params.name) ++ y.calls;
  }

  abbrev pub advance : List Call → Call → List Call → Input → Shared → System
  advance before c after input g =
      let (g', place) = move c.job input g c.place in
      record { shared = g'; calls = before ++ record c { place = place } ∷ after }
