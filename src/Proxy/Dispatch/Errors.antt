-- ===== src/Proxy/Dispatch/Errors.antt =====
-- The errors that a dispatch returns, and how they are recorded and logged.
use mcp_resile.Base.{
  ℕ, Bytes, codes, Option, none, some, [], ◌∷◌, ◌++◌, ◌≡◌, refl, ◌⊎◌, inl, inr, arith, Bool-cases,
}
use mcp_resile.Errors.{GoError, Result, ok, err, errors_as}
use mcp_resile.Proxy.Errors.{
  Outcome, success, internal_failure, circuit_opened, limited, timed_out, invalid_params,
  other_error, outcome_for_error, has_code, code_invalid_params, as_rpc,
}
use mcp_resile.Proxy.Errors.Mapping.{IsRejection, rpc-not_rejected, map_resilience_error_clean}
use mcp_resile.Proxy.Errors.Labels.{outcome-not_rejected}
use mcp_resile.Proxy.Route.{Route}
use mcp_resile.Proxy.Schema.{Json, invalid_params_error, report, after_decoding, validate_arguments}
use mcp_resile.Proxy.Upstream.{CallParams}
use mcp_resile.Policy.{Policy, resolve}
use mcp_resile.Proxy.Dispatch.{
  info, warn, Reply, Gateway, Setup, error_of, level_for, rate_limit_of, resolve_tool, violation,
  finish_reply, run_dispatch, after_check, dispatch_tool,
}

abbrev pub IsInvalidParams : Bytes → GoError → Type 0
IsInvalidParams tool e = (detail : Bytes) × (e ≡ invalid_params_error tool detail)

report-IsInvalidParams :
    (tool : Bytes) (o : Option Bytes) (e : GoError)
    → report tool o ≡ some e
    → IsInvalidParams tool e
report-IsInvalidParams tool none e h = absurd (cc)
report-IsInvalidParams tool (some detail) e h = (detail, cc)

after_decoding-IsInvalidParams :
    (json : Json) (resolved tool raw : Bytes) (o : Option Bytes) (e : GoError)
    → after_decoding json resolved tool raw o ≡ some e
    → IsInvalidParams tool e
after_decoding-IsInvalidParams json resolved tool raw none e h =
    (codes "arguments: invalid JSON: " ++ json.unmarshal_error raw, cc)
after_decoding-IsInvalidParams json resolved tool raw (some value) e h =
    report-IsInvalidParams tool (json.validate resolved value) e h

-- A violation is reported as the JSON-RPC error for invalid params that names the tool.
pub validate_arguments-IsInvalidParams :
    (json : Json) (resolved tool raw : Bytes) (e : GoError)
    → validate_arguments json resolved tool raw ≡ some e
    → IsInvalidParams tool e
unfolding validate_arguments
validate_arguments-IsInvalidParams json resolved tool [] e h =
    report-IsInvalidParams tool (json.validate resolved json.empty_object) e h
validate_arguments-IsInvalidParams json resolved tool (c ∷ raw) e h =
    after_decoding-IsInvalidParams json resolved tool (c ∷ raw) (json.unmarshal (c ∷ raw)) e h

invalid_params-not_rejected :
    (tool detail : Bytes) → ¬ IsRejection (invalid_params_error tool detail)
unfolding invalid_params_error
invalid_params-not_rejected tool detail = rpc-not_rejected _

-- The outcomes that a client's error can still be given.
abbrev pub IsCoarse : Outcome → Type 0
IsCoarse success = Unit
IsCoarse invalid_params = Unit
IsCoarse other_error = Unit
IsCoarse internal_failure = ⊥
IsCoarse circuit_opened = ⊥
IsCoarse limited = ⊥
IsCoarse timed_out = ⊥

abbrev pub IsClean : Option GoError → Type 0
IsClean none = Unit
IsClean (some e) = ¬ IsRejection e

pub outcome-IsCoarse : (o : Option GoError) → IsClean o → IsCoarse (outcome_for_error o)
outcome-IsCoarse none h = unfold outcome_for_error in tt
outcome-IsCoarse (some e) h =
    rw (outcome-not_rejected e h)
      (elim (Bool-cases (has_code code_invalid_params (errors_as as_rpc e))) [
        | inl t ↦ rw t tt
        | inr f ↦ rw f tt
      ])

pub level-le-warn :
    (o : Option GoError) (l : Outcome)
    → IsCoarse l
    → (level_for o l ≡ info) ⊎ (level_for o l ≡ warn)
unfolding level_for
level-le-warn none l h = inl refl
level-le-warn (some e) l h = inr (ground arith)

module _ {W : Type 0} (s : Setup W) where
  pub violation-IsClean :
      (r : Result (Option Bytes)) (name arguments : Bytes) (e : GoError)
      → violation s r name arguments ≡ some e
      → ¬ IsRejection e
  violation-IsClean (ok (some resolved)) name arguments e h =
      let (detail, same) = validate_arguments-IsInvalidParams s.json resolved name arguments e h in
      rw same (invalid_params-not_rejected name detail)
  violation-IsClean (ok none) name arguments e h = absurd (cc)
  violation-IsClean (err x) name arguments e h = absurd (cc)

  pub finish_reply-IsClean :
      (p : Option Policy) (reply : Reply) → IsClean (error_of (finish_reply s p reply))
  finish_reply-IsClean p (ok r) = tt
  finish_reply-IsClean p (err e) =
      (map_resilience_error_clean s.floats e (rate_limit_of p) (rate_limit_of p)).0

  run_dispatch-IsClean :
      (route : Route) (name : Bytes) (params : CallParams) (session : Option ℕ) (g : Gateway W)
      → IsClean (error_of (run_dispatch s route name params session g).0)
  unfolding run_dispatch
  run_dispatch-IsClean route name params session g =
      finish_reply-IsClean (resolve s.path_match s.policies name) _

  after_check-IsClean :
      (o : Option GoError) (after : Gateway W) (rest : Reply × Gateway W)
      → ((e : GoError) → o ≡ some e → ¬ IsRejection e)
      → IsClean (error_of rest.0)
      → IsClean (error_of (after_check s o after rest).0)
  after_check-IsClean (some e) after rest h k = h e refl
  after_check-IsClean none after rest h k = k

  pub dispatch_tool-IsClean :
      (route : Route) (name : Bytes) (params : CallParams) (session : Option ℕ) (g : Gateway W)
      → IsClean (error_of (dispatch_tool s route name params session g).0)
  unfolding dispatch_tool
  dispatch_tool-IsClean route name params session g =
      let r = resolve_tool s route params.name g.cache g.world in
      let after = record g { cache = r.1; world = r.2 } in
      after_check-IsClean (violation s r.0 name params.arguments) after
        (run_dispatch s route name params session after)
        (violation-IsClean r.0 name params.arguments)
        (run_dispatch-IsClean route name params session after)
