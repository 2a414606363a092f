-- ===== src/Proxy/Options.antt =====
-- baseResilienceOptions and resilienceOptions, internal/proxy/proxy.go: the options that a dispatch
-- hands to resile.Do. What an option does is the resile library's.
pub mod Effective
use mcp_resile.Base.{ℕ, Bytes, Option, none, some, List, [], ◌∷◌, ◌++◌, ℤ, pos}
use mcp_resile.Config.Types.{Duration, Retries}
use mcp_resile.Policy.{Policy}

-- resile.WithName, … ; a breaker or a limiter is its number in the policies' store.
pub data ResileOption : Type 0 where
  with_name : Bytes → ResileOption
  with_instrumenter : ResileOption
  with_panic_recovery : ResileOption
  with_max_attempts : ℕ → ResileOption
  with_min_deadline_threshold : Duration → ResileOption
  with_circuit_breaker : ℕ → ResileOption
  with_rate_limiter_instance : ℕ → ResileOption
  with_full_jitter_backoff : Duration → Duration → ResileOption
  with_retry_if_transient : ResileOption

unfoldable pub base_resilience_options : Bytes → List ResileOption
base_resilience_options name =
    with_name name
    ∷ with_instrumenter
    ∷ with_panic_recovery
    ∷ with_max_attempts 1
    ∷ with_min_deadline_threshold (pos 0)
    ∷ []

abbrev breaker_options : Option ℕ → List ResileOption
breaker_options none = []
breaker_options (some cb) = with_circuit_breaker cb ∷ []

abbrev limiter_options : Option ℕ → List ResileOption
limiter_options none = []
limiter_options (some rl) = with_rate_limiter_instance rl ∷ []

abbrev retry_options : Option Retries → List ResileOption
retry_options none = with_max_attempts 1 ∷ []
retry_options (some r) =
    with_max_attempts r.max_attempts
    ∷ with_full_jitter_backoff r.base_delay r.max_delay
    ∷ with_retry_if_transient
    ∷ []

unfoldable pub resilience_options : Policy → Bytes → List ResileOption
resilience_options p name =
    (with_name name
      ∷ with_instrumenter
      ∷ with_panic_recovery
      ∷ with_min_deadline_threshold p.config.resilience.min_deadline_threshold
      ∷ [])
    ++ (breaker_options p.circuit_breaker
        ++ (limiter_options p.rate_limiter ++ retry_options p.config.resilience.retries))

-- The options of a dispatch under the policy that governs it, if any.
abbrev pub options_for : Option Policy → Bytes → List ResileOption
options_for none name = base_resilience_options name
options_for (some p) name = resilience_options p name
