-- ===== src/Proxy/Errors/Labels.antt =====
-- outcomeForError and jsonrpcCode, on raw errors and on what mapResilienceError returns.
use mcp_resile.Base.{Option, none, some, ◌≡◌, refl, inl, inr, arith, ◌∙◌, ℤ, if◌then◌else◌}
use mcp_resile.Base.Float.{FloatOps}
use mcp_resile.Config.Types.{RateLimit}
use mcp_resile.Errors.{GoError, errors_as, errors_is}
use mcp_resile.Errors.Chain.{errors_is-false}
use mcp_resile.Proxy.Errors.{
  as_rpc, is_circuit_open, is_rate_limited, is_deadline, map_resilience_error, Outcome, success,
  internal_failure, circuit_opened, limited, timed_out, invalid_params, other_error,
  outcome_for_error, jsonrpc_code, code_internal_error, code_circuit_open, code_rate_limit_exceeded,
  code_execution_timeout, code_invalid_params, has_code,
}
use mcp_resile.Proxy.Errors.Mapping.{
  is_panic, IsRejection, Maps, a_panic, an_open_circuit, a_rate_limit, a_timeout, unmapped,
  map_resilience_error-Maps, as_panic-errors_is,
}

-- The code that the error table pairs with a label; `none` for the labels that have no row.
abbrev pub row_code : Outcome → Option ℤ
row_code internal_failure = some code_internal_error
row_code circuit_opened = some code_circuit_open
row_code limited = some code_rate_limit_exceeded
row_code timed_out = some code_execution_timeout
row_code success = none
row_code invalid_params = none
row_code other_error = none

-- Whenever outcomeForError labels the unmapped error by a row of the table, the mapped error
-- carries that row's JSON-RPC code.
pub jsonrpc_code-map_resilience_error :
    (ops : FloatOps) (e : GoError) (rl : Option RateLimit) (c : ℤ)
    → row_code (outcome_for_error (some e)) ≡ some c
    → jsonrpc_code (map_resilience_error ops e rl) ≡ some c
unfolding outcome_for_error map_resilience_error jsonrpc_code errors_as
jsonrpc_code-map_resilience_error ops e rl c h = ground arith

pub outcome-not_rejected :
    (e : GoError)
    → ¬ IsRejection e
    → outcome_for_error (some e)
      ≡ (if has_code code_invalid_params (errors_as as_rpc e) then invalid_params else other_error)
unfolding outcome_for_error
outcome-not_rejected e h =
    rw
      (
        as_panic-errors_is e ∙ errors_is-false is_panic e (λ o. h (inl o)),
        errors_is-false is_circuit_open e (λ o. h (inr (inl o))),
        errors_is-false is_rate_limited e (λ o. h (inr (inr (inl o)))),
        errors_is-false is_deadline e (λ o. h (inr (inr (inr o)))),
      )
      refl

Maps-outcome :
    {ms : ℤ} {e e' : GoError}
    → IsRejection e
    → Maps ms e e'
    → outcome_for_error (some e') ≡ other_error
unfolding outcome_for_error errors_as errors_is
Maps-outcome r (a_panic _) = refl
Maps-outcome r (an_open_circuit _ _) = refl
Maps-outcome r (a_rate_limit _ _ _) = refl
Maps-outcome r (a_timeout _ _ _ _) = refl
Maps-outcome r (unmapped h) = absurd (h r)

-- Every error in which a rejection occurs is labelled "error" once it has been mapped: the labels
-- for a panic, an open circuit, a rate limit and a timeout are lost.
pub outcome-map_resilience_error :
    (ops : FloatOps) (e : GoError) (rl : Option RateLimit)
    → IsRejection e
    → outcome_for_error (some (map_resilience_error ops e rl)) ≡ other_error
outcome-map_resilience_error ops e rl r = Maps-outcome r (map_resilience_error-Maps ops e rl)
