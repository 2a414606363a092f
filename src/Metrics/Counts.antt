-- ===== src/Metrics/Counts.antt =====
-- What the collectors show after any sequence of calls.
use mcp_resile.Base.{
  ℕ, zero, suc, ◌+◌, Bytes, Bool, false, ◌&&◌, Option, none, some, List, [], ◌∷◌, str_eq,
  if◌then◌else◌, ◌≡◌, ◌∙◌, refl, arith, ap, ltb,
}
use mcp_resile.Errors.{or_else}
use mcp_resile.Metrics.{
  HealthState, healthy, degraded, unhealthy, unlisted, Metrics, health_state_label,
  circuit_state_value, record_request, after_attempt, on_rate_limit_exceeded, watch_circuit_breaker,
  on_health_event, Call, request, attempt, rejection, watch, health, on_call, after_calls,
}

-- How many calls of a list are of a kind.
unfoldable pub count : (Call → Bool) → List Call → ℕ
count kind [] = 0
count kind (c ∷ cs) = let rest = count kind cs in if kind c then suc rest else rest

abbrev pub is_request : Bytes → Bytes → Call → Bool
is_request tool outcome (request t o) = str_eq t tool && str_eq o outcome
is_request tool outcome _ = false

-- An attempt beyond the first, number 0.
abbrev pub is_retry : Bytes → Call → Bool
is_retry tool (attempt t n) = ltb 0 n && str_eq t tool
is_retry tool _ = false

abbrev pub is_rejection : Bytes → Call → Bool
is_rejection tool (rejection t) = str_eq t tool
is_rejection tool _ = false

abbrev pub has_label : Bytes → Option Bytes → Bool
has_label state none = false
has_label state (some label) = str_eq label state

-- The breaker of the pattern enters the state of that label.
abbrev pub enters : Bytes → Bytes → Call → Bool
enters pattern state (health p s) = str_eq p pattern && has_label state (health_state_label s)
enters pattern state _ = false

-- The number that stands for a state: closed, half open, open.
abbrev pub number_of : HealthState → Option ℕ
number_of healthy = some 0
number_of degraded = some 1
number_of unhealthy = some 2
number_of (unlisted n) = none

-- What a call says of the pattern's breaker.
abbrev pub reported : Bytes → Call → Option ℕ
reported pattern (watch p) = if str_eq p pattern then some 0 else none
reported pattern (health p s) = if str_eq p pattern then number_of s else none
reported pattern _ = none

-- The last call that says anything of it.
pub last_reported : Bytes → List Call → Option ℕ
last_reported pattern [] = none
last_reported pattern (c ∷ cs) = or_else (last_reported pattern cs) (reported pattern c)

-- The collectors show what the calls of the list amount to, in addition to what was there.
pub record IsTally (cs : List Call) (before after : Metrics) : Type 0 where
  pub requests :
      (tool outcome : Bytes)
      → after.requests_total tool outcome
        ≡ before.requests_total tool outcome + count (is_request tool outcome) cs
  pub retries :
      (tool : Bytes)
      → after.retries_total tool ≡ before.retries_total tool + count (is_retry tool) cs
  pub rejections :
      (tool : Bytes)
      → after.rate_limit_rejections tool
        ≡ before.rate_limit_rejections tool + count (is_rejection tool) cs
  pub transitions :
      (pattern state : Bytes)
      → after.circuit_transitions pattern state
        ≡ before.circuit_transitions pattern state + count (enters pattern state) cs
  pub states :
      (pattern : Bytes)
      → after.circuit_state pattern
        ≡ or_else (last_reported pattern cs) (before.circuit_state pattern)

on_call-requests :
    (c : Call) (m : Metrics) (tool outcome : Bytes)
    → (on_call c m).requests_total tool outcome ≡ (
        if is_request tool outcome c
        then suc (m.requests_total tool outcome)
        else m.requests_total tool outcome)
unfolding on_call record_request after_attempt on_rate_limit_exceeded watch_circuit_breaker
    on_health_event health_state_label circuit_state_value
on_call-requests (request t o) m tool outcome = refl
on_call-requests (attempt t zero) m tool outcome = refl
on_call-requests (attempt t (suc n)) m tool outcome = refl
on_call-requests (rejection t) m tool outcome = refl
on_call-requests (watch p) m tool outcome = refl
on_call-requests (health p healthy) m tool outcome = refl
on_call-requests (health p degraded) m tool outcome = refl
on_call-requests (health p unhealthy) m tool outcome = refl
on_call-requests (health p (unlisted n)) m tool outcome = refl

on_call-retries :
    (c : Call) (m : Metrics) (tool : Bytes)
    → (on_call c m).retries_total tool
      ≡ (if is_retry tool c then suc (m.retries_total tool) else m.retries_total tool)
unfolding on_call record_request after_attempt on_rate_limit_exceeded watch_circuit_breaker
    on_health_event health_state_label circuit_state_value
on_call-retries (request t o) m tool = refl
on_call-retries (attempt t zero) m tool = refl
on_call-retries (attempt t (suc n)) m tool = ground arith
on_call-retries (rejection t) m tool = refl
on_call-retries (watch p) m tool = refl
on_call-retries (health p healthy) m tool = refl
on_call-retries (health p degraded) m tool = refl
on_call-retries (health p unhealthy) m tool = refl
on_call-retries (health p (unlisted n)) m tool = refl

on_call-rejections :
    (c : Call) (m : Metrics) (tool : Bytes)
    → (on_call c m).rate_limit_rejections tool ≡ (
        if is_rejection tool c
        then suc (m.rate_limit_rejections tool)
        else m.rate_limit_rejections tool)
unfolding on_call record_request after_attempt on_rate_limit_exceeded watch_circuit_breaker
    on_health_event health_state_label circuit_state_value
on_call-rejections (request t o) m tool = refl
on_call-rejections (attempt t zero) m tool = refl
on_call-rejections (attempt t (suc n)) m tool = refl
on_call-rejections (rejection t) m tool = refl
on_call-rejections (watch p) m tool = refl
on_call-rejections (health p healthy) m tool = refl
on_call-rejections (health p degraded) m tool = refl
on_call-rejections (health p unhealthy) m tool = refl
on_call-rejections (health p (unlisted n)) m tool = refl

on_call-transitions :
    (c : Call) (m : Metrics) (pattern state : Bytes)
    → (on_call c m).circuit_transitions pattern state ≡ (
        if enters pattern state c
        then suc (m.circuit_transitions pattern state)
        else m.circuit_transitions pattern state)
unfolding on_call record_request after_attempt on_rate_limit_exceeded watch_circuit_breaker
    on_health_event health_state_label
on_call-transitions (request t o) m pattern state = ground arith
on_call-transitions (attempt t zero) m pattern state = ground arith
on_call-transitions (attempt t (suc n)) m pattern state = ground arith
on_call-transitions (rejection t) m pattern state = ground arith
on_call-transitions (watch p) m pattern state = ground arith
on_call-transitions (health p healthy) m pattern state = ground arith
on_call-transitions (health p degraded) m pattern state = ground arith
on_call-transitions (health p unhealthy) m pattern state = ground arith
on_call-transitions (health p (unlisted n)) m pattern state = ground arith

on_call-states :
    (c : Call) (m : Metrics) (pattern : Bytes)
    → (on_call c m).circuit_state pattern ≡ or_else (reported pattern c) (m.circuit_state pattern)
unfolding on_call record_request after_attempt on_rate_limit_exceeded watch_circuit_breaker
    on_health_event health_state_label circuit_state_value str_eq
on_call-states (request t o) m pattern = ground arith
on_call-states (attempt t zero) m pattern = ground arith
on_call-states (attempt t (suc n)) m pattern = ground arith
on_call-states (rejection t) m pattern = ground arith
on_call-states (watch p) m pattern = ground arith
on_call-states (health p healthy) m pattern = ground arith
on_call-states (health p degraded) m pattern = ground arith
on_call-states (health p unhealthy) m pattern = ground arith
on_call-states (health p (unlisted n)) m pattern = ground arith

or_else_assoc : (a b c : Option ℕ) → or_else a (or_else b c) ≡ or_else (or_else a b) c
or_else_assoc none b c = refl
or_else_assoc (some n) b c = refl

-- After any sequence of calls each counter has grown by the number of calls of its kind: requests
-- by tool and outcome, attempts beyond the first and rejections by tool, and transitions by
-- pattern and state; and the gauge of a pattern shows the last state reported for it.
pub after_calls-IsTally : (cs : List Call) (m : Metrics) → IsTally cs m (after_calls cs m)
unfolding after_calls count last_reported
after_calls-IsTally [] m = record {
  requests = λ tool outcome. omega arith;
  retries = λ tool. omega arith;
  rejections = λ tool. omega arith;
  transitions = λ pattern state. omega arith;
  states = λ pattern. refl;
}
after_calls-IsTally (c ∷ cs) m =
    let rest = after_calls-IsTally cs (on_call c m) in
    record {
      requests = λ tool outcome.
          ground (arith, rest.requests tool outcome, on_call-requests c m tool outcome);
      retries = λ tool. ground (arith, rest.retries tool, on_call-retries c m tool);
      rejections = λ tool. ground (arith, rest.rejections tool, on_call-rejections c m tool);
      transitions = λ pattern state.
          ground (arith, rest.transitions pattern state, on_call-transitions c m pattern state);
      states = λ pattern.
          rest.states pattern
          ∙ ap (or_else (last_reported pattern cs)) (on_call-states c m pattern)
          ∙ or_else_assoc (last_reported pattern cs) (reported pattern c) (m.circuit_state pattern);
    }
