-- ===== src/Proxy/Dispatch/Calls.antt =====
-- What a tools/call leaves behind, on each of its ways out.
use mcp_resile.Base.{ℕ, Bytes, Option, none, some, [], ◌∷◌, ◌++◌, ◌≡◌, ap, refl, ◌⊎◌, In}
use mcp_resile.Base.Dict.{lookup}
use mcp_resile.Errors.{GoError, ok, err}
use mcp_resile.Proxy.Errors.{Outcome, outcome_for_error}
use mcp_resile.Proxy.Errors.Mapping.{IsRejection}
use mcp_resile.Proxy.Route.{Route, match_route}
use mcp_resile.Proxy.Route.Matching.{Fits, match_route-none_iff}
use mcp_resile.Proxy.Schema.{validate_arguments}
use mcp_resile.Proxy.Upstream.{CallParams}
use mcp_resile.Proxy.Dispatch.{
  info, warn, LogEntry, Reply, Gateway, Setup, error_of, log_dispatch, resolve_tool, violation,
  run_dispatch, after_check, dispatch_tool, recorded, passed_on, call_tool,
}
use mcp_resile.Proxy.Dispatch.Errors.{
  IsCoarse, IsInvalidParams, dispatch_tool-IsClean, outcome-IsCoarse, level-le-warn,
  validate_arguments-IsInvalidParams,
}

-- One request and one log entry have been added, about the same tool with the same coarse outcome,
-- and the entry is at level info or warn.
pub record IsRecorded {W : Type 0} (g after : Gateway W) (tool backend : Bytes) : Type 0 where
  pub outcome : Outcome
  pub entry : LogEntry
  pub coarse : IsCoarse outcome
  pub requests : after.requests ≡ g.requests ++ (tool, outcome) ∷ []
  pub log : after.log ≡ g.log ++ entry ∷ []
  pub same_outcome : entry.outcome ≡ outcome
  pub same_tool : entry.tool ≡ tool
  pub same_backend : entry.backend ≡ backend
  pub level : (entry.level ≡ info) ⊎ (entry.level ≡ warn)

module _ {W : Type 0} (s : Setup W) where
  after_check-requests :
      (o : Option GoError) (after : Gateway W) (rest : Reply × Gateway W)
      → rest.1.requests ≡ after.requests
      → rest.1.log ≡ after.log
      → ((after_check s o after rest).1.requests ≡ after.requests)
        × ((after_check s o after rest).1.log ≡ after.log)
  after_check-requests none after rest h k = (h, k)
  after_check-requests (some e) after rest h k = (refl, refl)

  module _ (route : Route) (name : Bytes) (params : CallParams) (session : Option ℕ)
      (g : Gateway W) where
    dispatch_tool-requests :
        ((dispatch_tool s route name params session g).1.requests ≡ g.requests)
        × ((dispatch_tool s route name params session g).1.log ≡ g.log)
    unfolding dispatch_tool run_dispatch
    dispatch_tool-requests =
        let r = resolve_tool s route params.name g.cache g.world in
        let after = record g { cache = r.1; world = r.2 } in
        after_check-requests (violation s r.0 name params.arguments) after
          (run_dispatch s route name params session after) refl refl

    recorded-IsRecorded :
        IsRecorded g
          (recorded s params.name route.id
            (dispatch_tool s route name params session g).0
            (dispatch_tool s route name params session g).1)
          params.name
          route.id
    recorded-IsRecorded =
        let reply = (dispatch_tool s route name params session g).0 in
        let outcome = outcome_for_error (error_of reply) in
        let coarse =
          outcome-IsCoarse (error_of reply) (dispatch_tool-IsClean s route name params session g) in
        let (requests, log) = dispatch_tool-requests in
        record {
          outcome = outcome;
          entry = log_dispatch params.name route.id outcome (error_of reply);
          coarse = coarse;
          requests = ap (λ x. x ++ (params.name, outcome) ∷ []) requests;
          log = ap (λ x. x ++ log_dispatch params.name route.id outcome (error_of reply) ∷ []) log;
          same_outcome = unfold log_dispatch in refl;
          same_tool = unfold log_dispatch in refl;
          same_backend = unfold log_dispatch in refl;
          level = unfold log_dispatch in level-le-warn (error_of reply) outcome coarse;
        }

-- Every call that a route matches is recorded and logged once, and whatever the libraries do the
-- outcome is success, invalid params or the catch-all error, and the level is info or warn: a
-- panic, an open circuit, a rate limit or a timeout never shows as itself.
pub call_tool-IsRecorded :
    {W : Type 0} (s : Setup W) (params : CallParams) (session : Option ℕ) (g : Gateway W)
    (route : Route) (name : Bytes)
    → match_route s.routes params.name ≡ some (route, name)
    → IsRecorded g (call_tool s (some params) session g).1 params.name route.id
unfolding call_tool
call_tool-IsRecorded s params session g route name e =
    rw (e, call_tool) (recorded-IsRecorded s route name params session g)

-- A call whose name begins with no route's prefix is passed on, and changes nothing.
pub call_tool-unmatched :
    {W : Type 0} (s : Setup W) (params : CallParams) (session : Option ℕ) (g : Gateway W)
    → ((r : Route) → In r s.routes → ¬ Fits params.name r)
    → call_tool s (some params) session g ≡ (passed_on, g)
unfolding call_tool
call_tool-unmatched s params session g h =
    rw ((match_route-none_iff s.routes params.name).1 h, call_tool) refl

-- No error that a dispatch returns holds a panic, an open circuit, a rate limit or an expired
-- deadline.
pub dispatch_tool-not_rejected :
    {W : Type 0} (s : Setup W) (route : Route) (name : Bytes) (params : CallParams)
    (session : Option ℕ) (g : Gateway W) (e : GoError)
    → (dispatch_tool s route name params session g).0 ≡ err e
    → ¬ IsRejection e
dispatch_tool-not_rejected s route name params session g e h =
    rw (ap error_of h) at (dispatch_tool-IsClean s route name params session g)

-- Arguments that violate a cached schema are answered by the invalid-params error of the tool, and
-- the dispatch ends there: the cache, the router, the started cleanups and the outside world,
-- breakers, limiters and backends included, are as before.
pub dispatch_tool-violation :
    {W : Type 0} (s : Setup W) (route : Route) (name : Bytes) (params : CallParams)
    (session : Option ℕ) (g : Gateway W) (schema : Bytes) (e : GoError)
    → lookup params.name g.cache ≡ some schema
    → validate_arguments s.json schema name params.arguments ≡ some e
    → (dispatch_tool s route name params session g ≡ (err e, g)) × IsInvalidParams name e
unfolding dispatch_tool
dispatch_tool-violation s route name params session g schema e cached bad =
    let hit : resolve_tool s route params.name g.cache g.world
        ≡ (ok (some schema), g.cache, g.world) =
      unfold resolve_tool in rw (cached, resolve_tool) refl in
    (
      rw (hit, bad) refl,
      validate_arguments-IsInvalidParams s.json schema name params.arguments e bad,
    )
