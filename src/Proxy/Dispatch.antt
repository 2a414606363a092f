-- ===== src/Proxy/Dispatch.antt =====
-- callTool, dispatchTool and logDispatch, internal/proxy/proxy.go, with resolveTool of
-- internal/proxy/schema.go. The durations that are recorded and logged are left out.
pub mod Errors
pub mod Calls
pub mod Attempts
pub mod Resolving
use mcp_resile.Base.{
  ℕ, Bytes, codes, Bool, true, false, ◌||◌, Option, none, some, List, [], ◌∷◌, ◌++◌, ℤ, is_empty,
  if◌then◌else◌,
}
use mcp_resile.Base.Float.{FloatOps}
use mcp_resile.Config.Types.{RateLimit}
use mcp_resile.Config.Validate.{PathMatch}
use mcp_resile.Errors.{GoError, Result, ok, err, wrap, plain}
use mcp_resile.Policy.{Policy, resolve}
use mcp_resile.Proxy.Errors.{
  Outcome, internal_failure, map_resilience_error, outcome_for_error, jsonrpc_code,
}
use mcp_resile.Proxy.Route.{Route, match_route}
use mcp_resile.Proxy.Response.{CallToolResult, clamp_response}
use mcp_resile.Proxy.Notifications.{Router, text, track_progress}
use mcp_resile.Proxy.Schema.{get, Json, SchemaCache, refresh_all, validate_arguments}
use mcp_resile.Proxy.Upstream.{Upstream, CallParams}
use mcp_resile.Proxy.Options.{ResileOption, options_for}

pub data Level : Type 0 where
  info warn error : Level

pub record LogEntry : Type 0 where
  pub tool : Bytes
  pub backend : Bytes
  pub outcome : Outcome
  pub level : Level
  pub code : Option ℤ

abbrev pub Reply : Type 0
Reply = Result (Option CallToolResult)

-- What a call reads and changes: the schema cache, the router, the tokens whose cleanup timer has
-- been started, the requests that were recorded, the log, and the outside world.
pub record Gateway (W : Type 0) : Type 0 where
  pub cache : SchemaCache
  pub router : Router
  pub cleanups : List Bytes
  pub requests : List (Bytes × Outcome)
  pub log : List LogEntry
  pub world : W

-- What the handlers are built over: the routes, the policies, the limit, and the libraries.
-- `resile_do` is resile.Do: it may run the dispatch any number of times.
pub record Setup (W : Type 0) : Type 0 where
  pub routes : List Route
  pub policies : List Policy
  pub max_response_bytes : ℤ
  pub path_match : PathMatch
  pub floats : FloatOps
  pub json : Json
  pub upstream : Upstream W
  pub resile_do : List ResileOption → (W → Reply × W) → W → Reply × W

abbrev pub error_of : {A : Type 0} → Result A → Option GoError
error_of (ok a) = none
error_of (err e) = some e

abbrev pub code_of : Option GoError → Option ℤ
code_of none = none
code_of (some e) = jsonrpc_code e

-- The level of logDispatch.
abbrev is_internal : Outcome → Bool
is_internal internal_failure = true
is_internal _ = false

unfoldable pub level_for : Option GoError → Outcome → Level
level_for none outcome = info
level_for (some e) outcome = if is_internal outcome then error else warn

unfoldable pub log_dispatch : Bytes → Bytes → Outcome → Option GoError → LogEntry
unfolding level_for
log_dispatch tool backend outcome e = record {
  tool = tool;
  backend = backend;
  outcome = outcome;
  level = level_for e outcome;
  code = code_of e;
}

abbrev pub rate_limit_of : Option Policy → Option RateLimit
rate_limit_of none = none
rate_limit_of (some p) = p.config.resilience.rate_limit

-- The answer of callTool; `passed_on` is next's, which the gateway leaves to the SDK.
pub data Answer : Type 0 where
  passed_on : Answer
  answered : Reply → Answer

module _ {W : Type 0} (s : Setup W) where
  -- schemaCache.resolveTool
  unfoldable pub resolve_tool :
      Route → Bytes → SchemaCache → W → Result (Option Bytes) × SchemaCache × W
  resolve_tool route full_name cache w = elim (get full_name cache) [
    | some resolved ↦ (ok (some resolved), cache, w)
    | none ↦
        let (reply, w') = s.upstream.list_tools route.backend w in
        elim reply [
          | err e ↦ (err (wrap (codes "resolving inputSchema for " ++ full_name) e), cache, w')
          | ok tools ↦
              let filled = refresh_all s.json route.prefix tools cache in
              (ok (get full_name filled), filled, w')
        ]
  ]

  -- The arguments are checked only if a schema was resolved.
  abbrev pub violation : Result (Option Bytes) → Bytes → Bytes → Option GoError
  violation (ok (some resolved)) name arguments = validate_arguments s.json resolved name arguments
  violation (ok none) name arguments = none
  violation (err e) name arguments = none

  abbrev pub tracked : Option ℕ → CallParams → Router → Bytes × Router
  tracked none params r = ([], r)
  tracked (some session) params r = track_progress session params.progress_token r

  -- The request that goes to the backend.
  abbrev pub forwarded : Bytes → CallParams → Bytes → CallParams
  forwarded name params token = record {
    meta = params.meta;
    progress_token = if is_empty token then params.progress_token else some (text token);
    name = name;
    arguments = params.arguments;
  }

  abbrev pub finish_reply : Option Policy → Reply → Reply
  finish_reply p (err e) = err (map_resilience_error s.floats e (rate_limit_of p))
  finish_reply p (ok r) = ok (clamp_response r s.max_response_bytes)

  -- dispatchTool from the tracking of progress on.
  unfoldable pub run_dispatch :
      Route → Bytes → CallParams → Option ℕ → Gateway W → Reply × Gateway W
  run_dispatch route name params session g =
      let (token, router) = tracked session params g.router in
      let p = resolve s.path_match s.policies name in
      let (reply, w) =
        s.resile_do (options_for p params.name)
          (s.upstream.call_tool route.backend (forwarded name params token)) g.world in
      (
        finish_reply p reply,
        record g {
          router = router;
          cleanups = if is_empty token then g.cleanups else token ∷ g.cleanups;
          world = w;
        },
      )

  -- A violation ends the dispatch; otherwise it goes on.
  abbrev pub after_check : Option GoError → Gateway W → Reply × Gateway W → Reply × Gateway W
  after_check (some e) after rest = (err e, after)
  after_check none after rest = rest

  unfoldable pub dispatch_tool :
      Route → Bytes → CallParams → Option ℕ → Gateway W → Reply × Gateway W
  dispatch_tool route name params session g =
      let (resolved, cache, w) = resolve_tool route params.name g.cache g.world in
      let after = record g { cache = cache; world = w } in
      after_check (violation resolved name params.arguments) after
        (run_dispatch route name params session after)

  -- RecordRequest and logDispatch, after the dispatch.
  abbrev pub recorded : Bytes → Bytes → Reply → Gateway W → Gateway W
  recorded tool backend reply g =
      let outcome = outcome_for_error (error_of reply) in
      record g {
        requests = g.requests ++ (tool, outcome) ∷ [];
        log = g.log ++ log_dispatch tool backend outcome (error_of reply) ∷ [];
      }

  -- `params` is `none` where the request's parameters have another type.
  unfoldable pub call_tool : Option CallParams → Option ℕ → Gateway W → Answer × Gateway W
  call_tool none session g = (answered (err (plain (codes "proxy: unexpected params type"))), g)
  call_tool (some params) session g = elim (match_route s.routes params.name) [
    | none ↦ (passed_on, g)
    | some (route, name) ↦
        let (reply, after) = dispatch_tool route name params session g in
        (answered reply, recorded params.name route.id reply after)
  ]
