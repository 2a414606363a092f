-- ===== src/Tests/Proxy.antt =====
-- Errors, options and responses.
use mcp_resile.Base.{
  ℕ, ◌+◌, ◌≤◌, Bytes, codes, true, false, none, some, [], ◌∷◌, ◌≡◌, ◌↔◌, ◌⊎◌, inl, inr, refl, arith,
  length, take, pos,
}
use mcp_resile.Errors.{
  GoError, wrap, circuit_open, deadline_exceeded, errors_as, errors_is, first_match,
}
use mcp_resile.Errors.Chain.{Occurs, in_wrap, here}
use mcp_resile.Proxy.Errors.{
  map_resilience_error, retry_after_millis, outcome_for_error, jsonrpc_code, code_circuit_open,
  is_transient_error, is_transient_status, is_net_error, other_error,
}
use mcp_resile.Proxy.Errors.Mapping.{
  Maps, IsRejection, map_resilience_error-Maps, map_resilience_error_clean, is_transient_error_iff,
}
use mcp_resile.Proxy.Errors.Labels.{
  row_code, jsonrpc_code-map_resilience_error, outcome-map_resilience_error,
}
use mcp_resile.Proxy.Options.{options_for}
use mcp_resile.Proxy.Options.Effective.{effective, options_effective}
use mcp_resile.Proxy.Response.{
  CallToolResult, text_block, other_block, truncate_utf8, valid_string, clamp_blocks,
  clamp_response, text_total, truncation_notice,
}
use mcp_resile.Proxy.Response.Truncation.{IsLongest, truncate_utf8-IsLongest, truncate_utf8-length}
use mcp_resile.Proxy.Response.Blocks.{text_of}
use mcp_resile.Proxy.Response.Clamping.{
  IsClamped, clamp_response_over, clamp_response_length, clamp_response_within, clamp_response-le,
}
use mcp_resile.Tests.Samples.{whole_floats}

abbrev opened : GoError
opened = wrap (codes "calling: ") circuit_open

opened-IsRejection : IsRejection opened
opened-IsRejection = inr (inl (in_wrap (here refl)))

map_resilience_error-Maps_example :
    Maps
      (retry_after_millis whole_floats none)
      opened
      (map_resilience_error whole_floats opened none)
map_resilience_error-Maps_example = map_resilience_error-Maps whole_floats opened none

map_resilience_error_clean_test :
    (¬ IsRejection (map_resilience_error whole_floats opened none))
    × (map_resilience_error whole_floats (map_resilience_error whole_floats opened none) none
        ≡ map_resilience_error whole_floats opened none)
map_resilience_error_clean_test = map_resilience_error_clean whole_floats opened none none

is_transient_error_iff_test :
    (is_transient_error (some deadline_exceeded) ≡ true)
    ↔ (Occurs is_transient_status deadline_exceeded ⊎ Occurs is_net_error deadline_exceeded)
is_transient_error_iff_test = is_transient_error_iff deadline_exceeded

opened_row : row_code (outcome_for_error (some opened)) ≡ some code_circuit_open
unfolding outcome_for_error errors_as errors_is first_match
opened_row = refl

jsonrpc_code-map_resilience_error_example :
    jsonrpc_code (map_resilience_error whole_floats opened none) ≡ some code_circuit_open
jsonrpc_code-map_resilience_error_example =
    jsonrpc_code-map_resilience_error whole_floats opened none code_circuit_open opened_row

outcome-map_resilience_error_test :
    outcome_for_error (some (map_resilience_error whole_floats opened none)) ≡ other_error
outcome-map_resilience_error_test =
    outcome-map_resilience_error whole_floats opened none opened-IsRejection

options_effective_example : effective (options_for none (codes "read")) ≡ record {
  name = some (codes "read");
  instrumented = true;
  panic_recovery = true;
  max_attempts = some 1;
  min_deadline_threshold = some (pos 0);
  circuit_breaker = none;
  rate_limiter = none;
  backoff = none;
  retry_if_transient = false;
}
options_effective_example = options_effective none (codes "read")

-- "a" and the euro sign, three bytes.
abbrev euro : Bytes
euro = 97 ∷ 226 ∷ 130 ∷ 172 ∷ []

euro_valid : valid_string euro ≡ true
unfolding valid_string
euro_valid = refl

truncate_utf8-IsLongest_example :
    (n : ℕ) × (truncate_utf8 euro 3 ≡ take n euro) × IsLongest euro 3 n
truncate_utf8-IsLongest_example = truncate_utf8-IsLongest euro 3 (omega arith)

truncate_utf8-length_test :
    (length (truncate_utf8 euro 3) ≤ 3) × (3 ≤ length (truncate_utf8 euro 3) + 3)
truncate_utf8-length_test = truncate_utf8-length euro 3 euro_valid (omega arith)

abbrev failed_result : CallToolResult
failed_result = record {
  meta = none;
  content =
      text_block (record { meta = none; annotations = none; text = euro })
      ∷ other_block (codes "image")
      ∷ text_block (record { meta = none; annotations = none; text = euro })
      ∷ [];
  structured = none;
  is_error = true;
}

clamp_response_over_example :
    (out : CallToolResult) × (clamp_response (some failed_result) (pos 6) ≡ some out)
    × IsClamped failed_result out 6 (clamp_blocks 6 failed_result.content)
clamp_response_over_example =
    clamp_response_over failed_result 6 (omega arith) (unfold text_total in omega arith)

clamp_response_length_test :
    (length (text_of (clamp_blocks 6 failed_result.content)) ≤ 6)
    × (6 ≤ length (text_of (clamp_blocks 6 failed_result.content)) + 3)
clamp_response_length_test =
    clamp_response_length failed_result 6 (euro_valid, (tt, (euro_valid, tt)))
      (unfold text_total in omega arith)

untouched : clamp_response (some failed_result) (pos 8) ≡ some failed_result
untouched = clamp_response_within failed_result 8 (inr (unfold text_total in omega arith))

clamp_response-le_test : text_total failed_result.content ≤ 8 + length truncation_notice
clamp_response-le_test = clamp_response-le failed_result failed_result 8 (omega arith) untouched
