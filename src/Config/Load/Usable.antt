-- ===== src/Config/Load/Usable.antt =====
-- What the rest of the gateway relies on in a configuration that Parse returns.
use mcp_resile.Base.{
  Bytes, true, false, Option, none, some, List, [], ◌∷◌, ◌≡◌, arith, All, int_le, pos, ◌==◌,
}
use mcp_resile.Base.Float.{float_le_zero}
use mcp_resile.Config.Types.{Config, Server, Policy, RateLimit, Retries}
use mcp_resile.Config.Defaults.Complete.{IsComplete, apply_defaults-IsComplete, IsCompletePolicy}
use mcp_resile.Config.Tags.{
  tags_hold, policy_tags, all, server_tags, rate_limit_tags, if_present, every-All, policy_tests,
  server_tests, config_tests, and_left, and_right,
}
use mcp_resile.Config.Load.{Libraries, ok, parse}
use mcp_resile.Config.Load.Valid.{parse_iff}

-- CheckStruct accepts only documents that meet the tags of their structs.
abbrev pub HonoursTags : Libraries → Type 0
HonoursTags libs = (c : Config) → libs.check_struct c ≡ none → tags_hold c ≡ true

abbrev pub IsUsableLimit : Option RateLimit → Type 0
IsUsableLimit none = Unit
IsUsableLimit (some rl) = (float_le_zero rl.rate ≡ false) × (int_le (pos 1) rl.interval ≡ true)

abbrev pub IsUsableRetries : Option Retries → Type 0
IsUsableRetries none = Unit
IsUsableRetries (some r) = (r.max_attempts == 0) ≡ false

-- The response limit is in force; a policy's rate limit has a rate that is not zero or negative
-- and an interval of at least a nanosecond; its retries allow an attempt.
pub record IsUsable (cfg : Config) : Type 0 where
  pub response_limit : int_le (pos 1) cfg.server.max_response_bytes ≡ true
  pub rate_limits : All (λ p. IsUsableLimit p.resilience.rate_limit) cfg.policies
  pub retries : All (λ p. IsUsableRetries p.resilience.retries) cfg.policies

limit_of_present : (o : Option RateLimit) → if_present rate_limit_tags o ≡ true → IsUsableLimit o
unfolding rate_limit_tags
limit_of_present none h = tt
limit_of_present (some rl) h = ground arith

limit_of_tags : (p : Policy) → policy_tags p ≡ true → IsUsableLimit p.resilience.rate_limit
unfolding policy_tags
limit_of_tags p h = limit_of_present p.resilience.rate_limit (every-All (policy_tests p) h).1.1.1.0

limits_of_tags :
    (ps : List Policy)
    → all policy_tags ps ≡ true
    → All (λ p. IsUsableLimit p.resilience.rate_limit) ps
limits_of_tags [] h = tt
limits_of_tags (p ∷ ps) h = (
  limit_of_tags p (and_left (policy_tags p) _ h),
  limits_of_tags ps (and_right (policy_tags p) _ h),
)

retries_of_complete : (o : Option Retries) → IsCompletePolicy o → IsUsableRetries o
retries_of_complete none h = tt
retries_of_complete (some r) h = h.max_attempts

all_retries :
    (ps : List Policy)
    → All (λ p. IsCompletePolicy p.resilience.retries) ps
    → All (λ p. IsUsableRetries p.resilience.retries) ps
all_retries [] h = tt
all_retries (p ∷ ps) (h, hs) = (retries_of_complete p.resilience.retries h, all_retries ps hs)

response_limit_of_tags :
    (s : Server) → server_tags s ≡ true → int_le (pos 1) s.max_response_bytes ≡ true
unfolding server_tags
response_limit_of_tags s h = (every-All (server_tests s) h).1.1.1.1.1.0

tags-IsUsable : (cfg : Config) → tags_hold cfg ≡ true → IsComplete cfg → IsUsable cfg
unfolding tags_hold
tags-IsUsable cfg h c = record {
  response_limit = response_limit_of_tags cfg.server (every-All (config_tests cfg) h).0;
  rate_limits = limits_of_tags cfg.policies (every-All (config_tests cfg) h).1.1.1.1.1.0;
  retries = all_retries cfg.policies c.policies;
}

-- If the checker library honours the tags, every configuration that Parse returns is complete and
-- usable: the response limit is in force, no rate limit has a zero or negative rate or interval,
-- and configured retries allow an attempt.
pub parse-IsUsable :
    (libs : Libraries) (input : Bytes) (cfg : Config)
    → HonoursTags libs
    → parse libs input ≡ ok cfg
    → IsComplete cfg × IsUsable cfg
parse-IsUsable libs input cfg honours h =
    let (raw, _, e, v) = (parse_iff libs input cfg).0 h in
    let complete : IsComplete cfg = rw e at (apply_defaults-IsComplete raw) in
    (complete, tags-IsUsable cfg (honours cfg v.checked) complete)
