-- ===== src/Policy.antt =====
-- internal/policy/policy.go: from a tool name to the policy that governs it. The breakers and
-- limiters that the constructors of the resile library make are numbered in a store of each kind,
-- which holds the configuration that each was made with.
pub mod Resolution
pub mod Primitives
pub mod Resolver
pub mod Globs
use mcp_resile.Base.{
  ℕ, Bytes, Bool, true, false, Option, none, some, List, [], ◌∷◌, ◌++◌, length, ℤ, if◌then◌else◌,
}
use mcp_resile.Base.Float.{Float64}
use mcp_resile.Config.Types
use mcp_resile.Config.Types.{Duration, CircuitBreaker, RateLimit}
use mcp_resile.Config.Validate.{PathMatch}

-- circuit.Config, with WindowType the time-based window.
pub record BreakerConfig : Type 0 where
  pub window_duration : Duration
  pub failure_rate_threshold : Float64
  pub reset_timeout : Duration

-- The arguments of resile.NewRateLimiter.
pub record LimiterConfig : Type 0 where
  pub rate : Float64
  pub interval : Duration

pub record Store : Type 0 where
  pub breakers : List BreakerConfig
  pub limiters : List LimiterConfig

pub record Policy : Type 0 where
  pub config : Types.Policy
  pub circuit_breaker : Option ℕ
  pub rate_limiter : Option ℕ

-- circuit.New and resile.NewRateLimiter: a new number.
abbrev pub new_breaker : BreakerConfig → Store → ℕ × Store
new_breaker c s = (length s.breakers, record s { breakers = s.breakers ++ c ∷ [] })

abbrev pub new_limiter : LimiterConfig → Store → ℕ × Store
new_limiter c s = (length s.limiters, record s { limiters = s.limiters ++ c ∷ [] })

abbrev pub breaker_config : CircuitBreaker → BreakerConfig
breaker_config cb = record {
  window_duration = cb.window_duration;
  failure_rate_threshold = cb.failure_rate;
  reset_timeout = cb.reset_timeout;
}

abbrev pub limiter_config : RateLimit → LimiterConfig
limiter_config rl = record { rate = rl.rate; interval = rl.interval }

abbrev pub make_breaker : Option CircuitBreaker → Store → Option ℕ × Store
make_breaker none s = (none, s)
make_breaker (some cb) s = let (b, t) = new_breaker (breaker_config cb) s in (some b, t)

abbrev pub make_limiter : Option RateLimit → Store → Option ℕ × Store
make_limiter none s = (none, s)
make_limiter (some rl) s = let (l, t) = new_limiter (limiter_config rl) s in (some l, t)

unfoldable pub new_policy : Types.Policy → Store → Policy × Store
new_policy cfg s =
    let (b, t) = make_breaker cfg.resilience.circuit_breaker s in
    let (l, u) = make_limiter cfg.resilience.rate_limit t in
    (record { config = cfg; circuit_breaker = b; rate_limiter = l }, u)

-- The loop of NewResolver.
unfoldable pub new_resolver : List Types.Policy → Store → List Policy × Store
unfolding new_policy
new_resolver [] s = ([], s)
new_resolver (cfg ∷ cfgs) s =
    let (p, t) = new_policy cfg s in let (ps, u) = new_resolver cfgs t in (p ∷ ps, u)

-- matched, _ := path.Match(pattern, name): false on a malformed pattern.
abbrev pub is_match : Option Bool → Bool
is_match none = false
is_match (some b) = b

unfoldable pub resolve : PathMatch → List Policy → Bytes → Option Policy
resolve path_match [] name = none
resolve path_match (p ∷ ps) name =
    if is_match (path_match p.config.tool_pattern name) then some p else resolve path_match ps name
