-- ===== src/Proxy/Errors.antt =====
-- internal/proxy/errors.go and internal/proxy/retry.go: the classification of dispatch errors.
-- Payloads are the structs that mustMarshal encodes; float arithmetic is the parameter `ops`.
pub mod Mapping
pub mod Labels
use mcp_resile.Base.{
  ℕ, zero, suc, ◌/◌, Bool, true, false, ◌&&◌, ◌||◌, Option, none, some, is_some, ℤ, pos, negsuc,
  int_eq, Bytes, codes, if◌then◌else◌,
}
use mcp_resile.Base.Float.{FloatOps, float_le_zero}
use mcp_resile.Config.Types.{Duration, RateLimit}
use mcp_resile.Errors.{
  GoError, circuit_open, rate_limit_exceeded, deadline_exceeded, panicked, rpc, net_op, RpcError,
  circuit_open_data, rate_limit_data, timeout_data, errors_as, errors_is,
}

abbrev pub code_rate_limit_exceeded : ℤ
code_rate_limit_exceeded = negsuc 33000

abbrev pub code_circuit_open : ℤ
code_circuit_open = negsuc 33001

abbrev pub code_execution_timeout : ℤ
code_execution_timeout = negsuc 33002

abbrev pub code_internal_error : ℤ
code_internal_error = negsuc 32602

abbrev pub code_invalid_params : ℤ
code_invalid_params = negsuc 32601

abbrev pub code_transient : ℤ
code_transient = negsuc 32004

-- The node tests of the targets. A JSON-RPC error's own Is method compares codes.
abbrev pub as_panic : GoError → Option Bytes
as_panic (panicked v) = some v
as_panic _ = none

abbrev pub as_rpc : GoError → Option RpcError
as_rpc (rpc r) = some r
as_rpc _ = none

abbrev pub is_circuit_open : GoError → Bool
is_circuit_open circuit_open = true
is_circuit_open _ = false

abbrev pub is_rate_limited : GoError → Bool
is_rate_limited rate_limit_exceeded = true
is_rate_limited _ = false

abbrev pub is_deadline : GoError → Bool
is_deadline deadline_exceeded = true
is_deadline _ = false

abbrev pub is_transient_status : GoError → Bool
is_transient_status (rpc r) = int_eq r.code code_transient
is_transient_status _ = false

-- The errors that implement net.Error; context.DeadlineExceeded is one.
abbrev pub is_net_error : GoError → Bool
is_net_error (net_op m e) = true
is_net_error deadline_exceeded = true
is_net_error _ = false

abbrev neg : ℕ → ℤ
neg zero = pos 0
neg (suc n) = negsuc n

-- time.Duration.Milliseconds
abbrev pub milliseconds : Duration → ℤ
milliseconds (pos n) = pos (n / 1000000)
milliseconds (negsuc n) = neg (suc n / 1000000)

unfoldable pub retry_after_millis : FloatOps → Option RateLimit → ℤ
retry_after_millis ops none = pos 0
retry_after_millis ops (some rl) =
    if float_le_zero rl.rate
    then pos 0
    else ops.to_int64 (ops.round (ops.div (ops.of_int (milliseconds rl.interval)) rl.rate))

abbrev pub internal_error : RpcError
internal_error = record {
  code = code_internal_error;
  message = codes "Internal error";
  payload = none;
}

abbrev pub service_unavailable : RpcError
service_unavailable = record {
  code = code_circuit_open;
  message = codes "Service unavailable";
  payload = some (circuit_open_data (codes "circuit_open"));
}

abbrev pub rate_limited : ℤ → RpcError
rate_limited retry_after_ms = record {
  code = code_rate_limit_exceeded;
  message = codes "Rate limit exceeded";
  payload = some (rate_limit_data retry_after_ms (codes "rate_limited"));
}

abbrev pub execution_timeout : RpcError
execution_timeout = record {
  code = code_execution_timeout;
  message = codes "Tool execution timeout";
  payload = some (timeout_data (codes "narrow the request scope or retry later"));
}

unfoldable pub map_resilience_error : FloatOps → GoError → Option RateLimit → GoError
map_resilience_error ops err rl =
    if is_some (errors_as as_panic err)
    then rpc internal_error
    else if errors_is is_circuit_open err
    then rpc service_unavailable
    else if errors_is is_rate_limited err
    then rpc (rate_limited (retry_after_millis ops rl))
    else if errors_is is_deadline err
    then rpc execution_timeout
    else err

-- The labels of outcomeForError.
pub data Outcome : Type 0 where
  success internal_failure circuit_opened limited timed_out invalid_params other_error : Outcome

abbrev pub has_code : ℤ → Option RpcError → Bool
has_code c none = false
has_code c (some r) = int_eq r.code c

unfoldable pub outcome_for_error : Option GoError → Outcome
outcome_for_error none = success
outcome_for_error (some err) =
    if is_some (errors_as as_panic err)
    then internal_failure
    else if errors_is is_circuit_open err
    then circuit_opened
    else if errors_is is_rate_limited err
    then limited
    else if errors_is is_deadline err
    then timed_out
    else if has_code code_invalid_params (errors_as as_rpc err)
    then invalid_params
    else other_error

unfoldable pub jsonrpc_code : GoError → Option ℤ
jsonrpc_code err = elim (errors_as as_rpc err) [ none ↦ none | some r ↦ some r.code ]

unfoldable pub is_transient_error : Option GoError → Bool
is_transient_error none = false
is_transient_error (some err) =
    if errors_is is_transient_status err then true else errors_is is_net_error err
