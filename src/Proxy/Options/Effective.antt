-- ===== src/Proxy/Options/Effective.antt =====
-- What a list of options sets, an option that comes later overriding an earlier one of its kind.
use mcp_resile.Base.{
  ℕ, Bytes, Bool, true, false, Option, none, some, List, [], ◌∷◌, ◌≡◌, refl, pos, arith,
}
use mcp_resile.Config.Types.{Duration, Retries}
use mcp_resile.Policy.{Policy}
use mcp_resile.Proxy.Options.{
  ResileOption, with_name, with_instrumenter, with_panic_recovery, with_max_attempts,
  with_min_deadline_threshold, with_circuit_breaker, with_rate_limiter_instance,
  with_full_jitter_backoff, with_retry_if_transient, base_resilience_options, resilience_options,
  options_for,
}

-- `none` where the library's own default stays in force.
pub record Settings : Type 0 where
  pub name : Option Bytes
  pub instrumented : Bool
  pub panic_recovery : Bool
  pub max_attempts : Option ℕ
  pub min_deadline_threshold : Option Duration
  pub circuit_breaker : Option ℕ
  pub rate_limiter : Option ℕ
  pub backoff : Option (Duration × Duration)
  pub retry_if_transient : Bool

abbrev library_defaults : Settings
library_defaults = record {
  name = none;
  instrumented = false;
  panic_recovery = false;
  max_attempts = none;
  min_deadline_threshold = none;
  circuit_breaker = none;
  rate_limiter = none;
  backoff = none;
  retry_if_transient = false;
}

pub apply : ResileOption → Settings → Settings
apply (with_name n) s = record s { name = some n }
apply with_instrumenter s = record s { instrumented = true }
apply with_panic_recovery s = record s { panic_recovery = true }
apply (with_max_attempts n) s = record s { max_attempts = some n }
apply (with_min_deadline_threshold d) s = record s { min_deadline_threshold = some d }
apply (with_circuit_breaker b) s = record s { circuit_breaker = some b }
apply (with_rate_limiter_instance l) s = record s { rate_limiter = some l }
apply (with_full_jitter_backoff b m) s = record s { backoff = some (b, m) }
apply with_retry_if_transient s = record s { retry_if_transient = true }

apply_all : List ResileOption → Settings → Settings
apply_all [] s = s
apply_all (o ∷ os) s = apply_all os (apply o s)

pub effective : List ResileOption → Settings
effective os = apply_all os library_defaults

abbrev breaker_of : Option Policy → Option ℕ
breaker_of none = none
breaker_of (some p) = p.circuit_breaker

abbrev limiter_of : Option Policy → Option ℕ
limiter_of none = none
limiter_of (some p) = p.rate_limiter

abbrev threshold_of : Option Policy → Duration
threshold_of none = pos 0
threshold_of (some p) = p.config.resilience.min_deadline_threshold

abbrev pub retries_of : Option Policy → Option Retries
retries_of none = none
retries_of (some p) = p.config.resilience.retries

abbrev pub attempts_of : Option Retries → ℕ
attempts_of none = 1
attempts_of (some r) = r.max_attempts

abbrev backoff_of : Option Retries → Option (Duration × Duration)
backoff_of none = none
backoff_of (some r) = some (r.base_delay, r.max_delay)

abbrev retries_transient : Option Retries → Bool
retries_transient none = false
retries_transient (some r) = true

-- Every dispatch, governed by a policy or not, runs named, instrumented and with panics recovered,
-- and never on the library's own default of attempts or of the deadline threshold: one attempt and
-- threshold 0, unless the policy sets them. Breaker and limiter are the policy's own. Backoff and
-- the transient test are set exactly when the policy has retries.
pub options_effective :
    (governing : Option Policy) (name : Bytes)
    → effective (options_for governing name) ≡ record {
      name = some name;
      instrumented = true;
      panic_recovery = true;
      max_attempts = some (attempts_of (retries_of governing));
      min_deadline_threshold = some (threshold_of governing);
      circuit_breaker = breaker_of governing;
      rate_limiter = limiter_of governing;
      backoff = backoff_of (retries_of governing);
      retry_if_transient = retries_transient (retries_of governing);
    }
unfolding base_resilience_options resilience_options effective apply_all apply
options_effective none name = refl
options_effective (some p) name = ground arith
