-- ===== src/Metrics.antt =====
-- internal/metrics/metrics.go: the collectors, and the calls that move them. A collector with labels
-- is a function of the labels' values; latencies and the exposition format are the library's.
pub mod Counts
pub mod Exported
use mcp_resile.Base.{
  ℕ, zero, suc, Bytes, codes, Bool, ◌&&◌, Option, none, some, List, [], ◌∷◌, str_eq, if◌then◌else◌,
}

-- circuit.HealthState; a value that healthStateLabel lacks is `unlisted`.
pub data HealthState : Type 0 where
  healthy degraded unhealthy : HealthState
  unlisted : ℕ → HealthState

pub record Metrics : Type 0 where
  pub requests_total : Bytes → Bytes → ℕ
  pub retries_total : Bytes → ℕ
  pub rate_limit_rejections : Bytes → ℕ
  pub circuit_transitions : Bytes → Bytes → ℕ
  pub circuit_state : Bytes → Option ℕ

abbrev pub new_metrics : Metrics
new_metrics = record {
  requests_total = λ tool outcome. 0;
  retries_total = λ tool. 0;
  rate_limit_rejections = λ tool. 0;
  circuit_transitions = λ pattern state. 0;
  circuit_state = λ pattern. none;
}

-- WithLabelValues(a).Inc() and WithLabelValues(a, b).Inc()
abbrev pub increment : Bytes → (Bytes → ℕ) → Bytes → ℕ
increment a counter x = if str_eq a x then suc (counter x) else counter x

abbrev pub increment2 : Bytes → Bytes → (Bytes → Bytes → ℕ) → Bytes → Bytes → ℕ
increment2 a b counter x y = if str_eq a x && str_eq b y then suc (counter x y) else counter x y

-- WithLabelValues(a).Set(v)
abbrev pub set_gauge : Bytes → ℕ → (Bytes → Option ℕ) → Bytes → Option ℕ
set_gauge a v gauge x = if str_eq a x then some v else gauge x

-- healthStateLabel
unfoldable pub health_state_label : HealthState → Option Bytes
health_state_label healthy = some (codes "closed")
health_state_label degraded = some (codes "half_open")
health_state_label unhealthy = some (codes "open")
health_state_label (unlisted n) = none

unfoldable pub circuit_state_value : Bytes → ℕ
circuit_state_value state =
    if str_eq state (codes "half_open") then 1 else if str_eq state (codes "open") then 2 else 0

-- Metrics.RecordRequest, without the latency.
unfoldable pub record_request : Bytes → Bytes → Metrics → Metrics
record_request tool outcome m = record m {
  requests_total = increment2 tool outcome m.requests_total;
}

-- instrumenter.AfterAttempt, with state.Name and state.Attempt.
unfoldable pub after_attempt : Bytes → ℕ → Metrics → Metrics
after_attempt name zero m = m
after_attempt name (suc attempt) m = record m { retries_total = increment name m.retries_total }

unfoldable pub on_rate_limit_exceeded : Bytes → Metrics → Metrics
on_rate_limit_exceeded name m = record m {
  rate_limit_rejections = increment name m.rate_limit_rejections;
}

-- What WatchCircuitBreaker does at once.
unfoldable pub watch_circuit_breaker : Bytes → Metrics → Metrics
watch_circuit_breaker pattern m = record m { circuit_state = set_gauge pattern 0 m.circuit_state }

-- The body of its loop over the events of the breaker.
unfoldable pub on_health_event : Bytes → HealthState → Metrics → Metrics
on_health_event pattern state m = elim (health_state_label state) [
  | none ↦ m
  | some label ↦ record m {
    circuit_transitions = increment2 pattern label m.circuit_transitions;
    circuit_state = set_gauge pattern (circuit_state_value label) m.circuit_state;
  }
]

-- The calls that a running gateway makes, in any order.
pub data Call : Type 0 where
  request : Bytes → Bytes → Call
  attempt : Bytes → ℕ → Call
  rejection : Bytes → Call
  watch : Bytes → Call
  health : Bytes → HealthState → Call

unfoldable pub on_call : Call → Metrics → Metrics
on_call (request tool outcome) m = record_request tool outcome m
on_call (attempt name n) m = after_attempt name n m
on_call (rejection name) m = on_rate_limit_exceeded name m
on_call (watch pattern) m = watch_circuit_breaker pattern m
on_call (health pattern state) m = on_health_event pattern state m

unfoldable pub after_calls : List Call → Metrics → Metrics
unfolding on_call
after_calls [] m = m
after_calls (c ∷ cs) m = after_calls cs (on_call c m)
