-- ===== src/Policy/Resolver.antt =====
-- The policies that NewResolver of internal/policy/policy.go makes.
use mcp_resile.Base.{
  ℕ, suc, ◌≤◌, Option, none, some, List, [], ◌∷◌, ◌++◌, map, length, length-append, ◌≡◌, refl,
  arith, All, ap,
}
use mathlib.Core.Path.{subst}
use mcp_resile.Config.Types
use mcp_resile.Config.Types.{CircuitBreaker, RateLimit}
use mcp_resile.Policy.{
  Policy, Store, new_policy, new_resolver, make_breaker, make_limiter, breaker_config,
  limiter_config,
}
use mcp_resile.Policy.Primitives.{IsBuilt, IsBuilt-Extends, new_policy_built, new_resolver-Extends}

-- The numbers ascend, from `lo` on: no two are the same.
abbrev pub Ascending : ℕ → List (Option ℕ) → Type 0
Ascending lo [] = Unit
Ascending lo (none ∷ os) = Ascending lo os
Ascending lo (some b ∷ os) = (lo ≤ b) × Ascending (suc b) os

Ascending-breaker :
    (o : Option CircuitBreaker) (s : Store) (os : List (Option ℕ))
    → Ascending (length (make_breaker o s).1.breakers) os
    → Ascending (length s.breakers) ((make_breaker o s).0 ∷ os)
Ascending-breaker none s os a = a
Ascending-breaker (some cb) s os a =
    let e : length (s.breakers ++ breaker_config cb ∷ []) ≡ suc (length s.breakers) =
      omega (arith, length-append s.breakers (breaker_config cb ∷ [])) in
    (omega arith, rw e at a)

Ascending-limiter :
    (o : Option RateLimit) (s : Store) (os : List (Option ℕ))
    → Ascending (length (make_limiter o s).1.limiters) os
    → Ascending (length s.limiters) ((make_limiter o s).0 ∷ os)
Ascending-limiter none s os a = a
Ascending-limiter (some rl) s os a =
    let e : length (s.limiters ++ limiter_config rl ∷ []) ≡ suc (length s.limiters) =
      omega (arith, length-append s.limiters (limiter_config rl ∷ [])) in
    (omega arith, rw e at a)

limiter-breakers : (o : Option RateLimit) (s : Store) → (make_limiter o s).1.breakers ≡ s.breakers
limiter-breakers none s = refl
limiter-breakers (some rl) s = refl

breaker-limiters :
    (o : Option CircuitBreaker) (s : Store) → (make_breaker o s).1.limiters ≡ s.limiters
breaker-limiters none s = refl
breaker-limiters (some cb) s = refl

abbrev breakers : List Policy → List (Option ℕ)
breakers = map (λ p. p.circuit_breaker)

abbrev limiters : List Policy → List (Option ℕ)
limiters = map (λ p. p.rate_limiter)

pub record IsResolver (cfgs : List Types.Policy) (s t : Store) (ps : List Policy) : Type 0 where
  pub in_order : map (λ p. p.config) ps ≡ cfgs
  pub built : All (IsBuilt t) ps
  pub own_breakers : Ascending (length s.breakers) (breakers ps)
  pub own_limiters : Ascending (length s.limiters) (limiters ps)

-- The resolver has the configured policies in their order. Each has a breaker or a limiter exactly
-- when its configuration asks for one, made with its own settings, and shares it with no other
-- policy, nor with what the store held before.
pub new_resolver-IsResolver :
    (cfgs : List Types.Policy) (s : Store)
    → IsResolver cfgs s (new_resolver cfgs s).1 (new_resolver cfgs s).0
unfolding new_resolver
new_resolver-IsResolver [] s = record {
  in_order = refl;
  built = tt;
  own_breakers = tt;
  own_limiters = tt;
}
new_resolver-IsResolver (cfg ∷ cfgs) s =
    let p = (new_policy cfg s).0 in
    let t = (new_policy cfg s).1 in
    let m = (make_breaker cfg.resilience.circuit_breaker s).1 in
    let ih = new_resolver-IsResolver cfgs t in
    let bs = breakers (new_resolver cfgs t).0 in
    let ls = limiters (new_resolver cfgs t).0 in
    record {
      in_order = ap (◌∷◌ cfg) ih.in_order;
      built =
          (IsBuilt-Extends p (new_resolver-Extends cfgs t) (new_policy_built cfg s).1, ih.built);
      own_breakers = Ascending-breaker cfg.resilience.circuit_breaker s bs (
          subst (λ x. Ascending (length x) bs) (limiter-breakers cfg.resilience.rate_limit m)
            ih.own_breakers);
      own_limiters =
          subst (λ x. Ascending (length x) (p.rate_limiter ∷ ls))
            (breaker-limiters cfg.resilience.circuit_breaker s)
            (Ascending-limiter cfg.resilience.rate_limit m ls ih.own_limiters);
    }
