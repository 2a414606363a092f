-- ===== src/Policy/Primitives.antt =====
-- The breakers and limiters that newPolicy of internal/policy/policy.go makes.
use mcp_resile.Base.{
  ℕ, zero, suc, Option, none, some, List, [], ◌∷◌, ◌++◌, length, ◌≡◌, refl, ap, sym, ◌∙◌,
  append_assoc, append-nil,
}
use mcp_resile.Config.Types
use mcp_resile.Config.Types.{CircuitBreaker, RateLimit}
use mcp_resile.Policy.{
  Policy, Store, BreakerConfig, LimiterConfig, breaker_config, limiter_config, new_policy,
  new_resolver, make_breaker, make_limiter,
}

-- The element at an index.
abbrev pub get_elem? : {A : Type 0} → List A → ℕ → Option A
get_elem? [] i = none
get_elem? (x ∷ xs) zero = some x
get_elem? (x ∷ xs) (suc i) = get_elem? xs i

-- The store's breaker has the policy's settings; there is none if the policy has none.
abbrev pub HasBreaker : Store → Option CircuitBreaker → Option ℕ → Type 0
HasBreaker s none none = Unit
HasBreaker s none (some b) = ⊥
HasBreaker s (some cb) none = ⊥
HasBreaker s (some cb) (some b) = get_elem? s.breakers b ≡ some (breaker_config cb)

abbrev pub HasLimiter : Store → Option RateLimit → Option ℕ → Type 0
HasLimiter s none none = Unit
HasLimiter s none (some b) = ⊥
HasLimiter s (some rl) none = ⊥
HasLimiter s (some rl) (some l) = get_elem? s.limiters l ≡ some (limiter_config rl)

pub record IsBuilt (s : Store) (p : Policy) : Type 0 where
  pub breaker : HasBreaker s p.config.resilience.circuit_breaker p.circuit_breaker
  pub limiter : HasLimiter s p.config.resilience.rate_limit p.rate_limiter

get_elem?-append_left :
    {A : Type 0} (xs ys : List A) (i : ℕ) {a : A}
    → get_elem? xs i ≡ some a
    → get_elem? (xs ++ ys) i ≡ some a
get_elem?-append_left [] ys i h = cc
get_elem?-append_left (x ∷ xs) ys zero h = h
get_elem?-append_left (x ∷ xs) ys (suc i) h = get_elem?-append_left xs ys i h

get_elem?-length :
    {A : Type 0} (xs : List A) (a : A) → get_elem? (xs ++ a ∷ []) (length xs) ≡ some a
get_elem?-length [] a = refl
get_elem?-length (x ∷ xs) a = get_elem?-length xs a

-- What `t` holds, it held in `s`, at the same numbers.
pub record Extends (s t : Store) : Type 0 where
  more_breakers : List BreakerConfig
  more_limiters : List LimiterConfig
  breakers : t.breakers ≡ s.breakers ++ more_breakers
  limiters : t.limiters ≡ s.limiters ++ more_limiters

Extends-refl : (s : Store) → Extends s s
Extends-refl s = record {
  more_breakers = [];
  more_limiters = [];
  breakers = sym (append-nil s.breakers);
  limiters = sym (append-nil s.limiters);
}

Extends-trans : {s t u : Store} → Extends s t → Extends t u → Extends s u
Extends-trans {s} a b = record {
  more_breakers = a.more_breakers ++ b.more_breakers;
  more_limiters = a.more_limiters ++ b.more_limiters;
  breakers =
      b.breakers
      ∙ ap (λ x. x ++ b.more_breakers) a.breakers
      ∙ append_assoc s.breakers a.more_breakers b.more_breakers;
  limiters =
      b.limiters
      ∙ ap (λ x. x ++ b.more_limiters) a.limiters
      ∙ append_assoc s.limiters a.more_limiters b.more_limiters;
}

HasBreaker-Extends :
    {s t : Store} (o : Option CircuitBreaker) (b : Option ℕ)
    → Extends s t
    → HasBreaker s o b
    → HasBreaker t o b
HasBreaker-Extends none none e h = h
HasBreaker-Extends none (some b) e h = h
HasBreaker-Extends (some cb) none e h = h
HasBreaker-Extends {s} (some cb) (some b) e h =
    rw e.breakers (get_elem?-append_left s.breakers e.more_breakers b h)

HasLimiter-Extends :
    {s t : Store} (o : Option RateLimit) (l : Option ℕ)
    → Extends s t
    → HasLimiter s o l
    → HasLimiter t o l
HasLimiter-Extends none none e h = h
HasLimiter-Extends none (some b) e h = h
HasLimiter-Extends (some cb) none e h = h
HasLimiter-Extends {s} (some cb) (some b) e h =
    rw e.limiters (get_elem?-append_left s.limiters e.more_limiters b h)

make_breaker_built :
    (o : Option CircuitBreaker) (s : Store)
    → Extends s (make_breaker o s).1 × HasBreaker (make_breaker o s).1 o (make_breaker o s).0
make_breaker_built none s = (Extends-refl s, tt)
make_breaker_built (some cb) s = (
  record {
    more_breakers = breaker_config cb ∷ [];
    more_limiters = [];
    breakers = refl;
    limiters = sym (append-nil s.limiters);
  },
  get_elem?-length s.breakers (breaker_config cb),
)

make_limiter_built :
    (o : Option RateLimit) (s : Store)
    → Extends s (make_limiter o s).1 × HasLimiter (make_limiter o s).1 o (make_limiter o s).0
make_limiter_built none s = (Extends-refl s, tt)
make_limiter_built (some rl) s = (
  record {
    more_breakers = [];
    more_limiters = limiter_config rl ∷ [];
    breakers = sym (append-nil s.breakers);
    limiters = refl;
  },
  get_elem?-length s.limiters (limiter_config rl),
)

pub IsBuilt-Extends : {s t : Store} (p : Policy) → Extends s t → IsBuilt s p → IsBuilt t p
IsBuilt-Extends p e h = record {
  breaker = HasBreaker-Extends p.config.resilience.circuit_breaker p.circuit_breaker e h.breaker;
  limiter = HasLimiter-Extends p.config.resilience.rate_limit p.rate_limiter e h.limiter;
}

pub new_policy_built :
    (cfg : Types.Policy) (s : Store)
    → Extends s (new_policy cfg s).1 × IsBuilt (new_policy cfg s).1 (new_policy cfg s).0
unfolding new_policy
new_policy_built cfg s =
    let t = (make_breaker cfg.resilience.circuit_breaker s).1 in
    let (e, b) = make_breaker_built cfg.resilience.circuit_breaker s in
    let (f, l) = make_limiter_built cfg.resilience.rate_limit t in
    (
      Extends-trans e f,
      record {
        breaker =
            HasBreaker-Extends cfg.resilience.circuit_breaker
              (make_breaker cfg.resilience.circuit_breaker s).0 f b;
        limiter = l;
      },
    )

pub new_resolver-Extends :
    (cfgs : List Types.Policy) (s : Store) → Extends s (new_resolver cfgs s).1
unfolding new_resolver
new_resolver-Extends [] s = Extends-refl s
new_resolver-Extends (cfg ∷ cfgs) s =
    Extends-trans (new_policy_built cfg s).0 (new_resolver-Extends cfgs (new_policy cfg s).1)
