-- ===== src/Config/Tags.antt =====
-- The `checkers:` tags of the structs of internal/config/config.go, as one test of a document.
-- The `url` tag is not read.
use mcp_resile.Base.{
  Bytes, codes, Bool, true, false, not, ◌&&◌, ◌||◌, Option, none, some, List, [], ◌∷◌, is_empty,
  str_eq, has_prefix, int_le, pos, leb, length, ◌≡◌, All, arith,
}
use mcp_resile.Base.Float.{float_lt_zero, float_le_zero, float_gt_hundred}
use mcp_resile.Config.Types.{
  Server, Backend, CircuitBreaker, Retries, RateLimit, Policy, Metrics, Logging, Config,
}

abbrev pub all : {A : Type 0} → (A → Bool) → List A → Bool
all p [] = true
all p (x ∷ xs) = p x && all p xs

pub and_left : (a b : Bool) → (a && b) ≡ true → a ≡ true
and_left a b h = ground arith

pub and_right : (a b : Bool) → (a && b) ≡ true → b ≡ true
and_right a b h = ground arith

-- oneof
abbrev one_of : List Bytes → Bytes → Bool
one_of [] x = false
one_of (y ∷ ys) x = str_eq x y || one_of ys x

abbrev pub if_present : {A : Type 0} → (A → Bool) → Option A → Bool
if_present p none = true
if_present p (some x) = p x

-- Each of the tests passes.
abbrev pub every : List Bool → Bool
every [] = true
every (b ∷ bs) = b && every bs

pub every-All : (bs : List Bool) → every bs ≡ true → All (λ b. b ≡ true) bs
every-All [] h = tt
every-All (b ∷ bs) h = (and_left b (every bs) h, every-All bs (and_right b (every bs) h))

abbrev pub server_tests : Server → List Bool
server_tests s =
    not (is_empty s.listen)
    ∷ one_of (codes "streamable-http" ∷ []) s.transport
    ∷ int_le (pos 1) s.read_timeout
    ∷ int_le (pos 1) s.write_timeout
    ∷ int_le (pos 1) s.max_request_bytes
    ∷ int_le (pos 1) s.max_response_bytes
    ∷ []

unfoldable pub server_tags : Server → Bool
server_tags s = every (server_tests s)

unfoldable pub backend_tags : Backend → Bool
backend_tags b =
    every (not (is_empty b.id) ∷ one_of (codes "http" ∷ []) b.transport ∷ not (is_empty b.url) ∷ [])

unfoldable pub circuit_breaker_tags : CircuitBreaker → Bool
circuit_breaker_tags c = every (
    not (float_lt_zero c.failure_rate)
    ∷ not (float_gt_hundred c.failure_rate)
    ∷ int_le (pos 0) c.window_duration
    ∷ int_le (pos 0) c.reset_timeout
    ∷ [])

unfoldable pub retries_tags : Retries → Bool
retries_tags r = every (
    int_le (pos 0) r.base_delay
    ∷ int_le (pos 0) r.max_delay
    ∷ one_of (codes "full_jitter" ∷ []) r.backoff
    ∷ [])

unfoldable pub rate_limit_tags : RateLimit → Bool
rate_limit_tags r = every (not (float_le_zero r.rate) ∷ int_le (pos 1) r.interval ∷ [])

abbrev pub policy_tests : Policy → List Bool
policy_tests p =
    not (is_empty p.tool_pattern)
    ∷ if_present circuit_breaker_tags p.resilience.circuit_breaker
    ∷ if_present retries_tags p.resilience.retries
    ∷ if_present rate_limit_tags p.resilience.rate_limit
    ∷ int_le (pos 0) p.resilience.min_deadline_threshold
    ∷ []

unfoldable pub policy_tags : Policy → Bool
policy_tags p = every (policy_tests p)

unfoldable pub metrics_tags : Metrics → Bool
unfolding has_prefix
metrics_tags m = every (
    int_le (pos 0) m.port
    ∷ int_le m.port (pos 65535)
    ∷ (is_empty m.path || has_prefix m.path (codes "/"))
    ∷ [])

unfoldable pub logging_tags : Logging → Bool
logging_tags l = every (
    one_of (codes "debug" ∷ codes "info" ∷ codes "warn" ∷ codes "error" ∷ []) l.level
    ∷ one_of (codes "json" ∷ codes "text" ∷ []) l.format
    ∷ [])

abbrev pub config_tests : Config → List Bool
config_tests c =
    server_tags c.server
    ∷ metrics_tags c.telemetry.metrics
    ∷ logging_tags c.telemetry.logging
    ∷ leb 1 (length c.backends)
    ∷ all backend_tags c.backends
    ∷ all policy_tags c.policies
    ∷ []

unfoldable pub tags_hold : Config → Bool
tags_hold c = every (config_tests c)
