-- ===== src/Proxy/Errors/Mapping.antt =====
-- mapResilienceError and isTransientError, by what occurs in the error.
use mcp_resile.Base.{
  Bool, true, false, Option, some, is_some, Bool-cases, ◌∙◌, ◌≡◌, refl, ◌↔◌, ◌⊎◌, inl, inr, ℤ,
}
use mcp_resile.Base.Float.{FloatOps}
use mcp_resile.Config.Types.{RateLimit}
use mcp_resile.Errors.{GoError, rpc, errors_as, errors_is, RpcError}
use mcp_resile.Errors.Chain.{Occurs, here, errors_is_iff, errors_as-errors_is}
use mcp_resile.Proxy.Errors.{
  as_panic, is_circuit_open, is_rate_limited, is_deadline, internal_error, service_unavailable,
  rate_limited, execution_timeout, retry_after_millis, map_resilience_error, is_transient_error,
  is_transient_status, is_net_error,
}

abbrev pub is_panic : GoError → Bool
is_panic e = is_some (as_panic e)

-- One of the four rejections of the resilience pipeline occurs in the error.
abbrev pub IsRejection : GoError → Type 0
IsRejection e =
    Occurs is_panic e
    ⊎ (Occurs is_circuit_open e ⊎ (Occurs is_rate_limited e ⊎ Occurs is_deadline e))

-- The rows of the error table, the first that applies.
pub data Maps (ms : ℤ) (e : GoError) : GoError → Type 0 where
  a_panic : Occurs is_panic e → Maps ms e (rpc internal_error)
  an_open_circuit :
      ¬ Occurs is_panic e → Occurs is_circuit_open e → Maps ms e (rpc service_unavailable)
  a_rate_limit :
      ¬ Occurs is_panic e
      → ¬ Occurs is_circuit_open e
      → Occurs is_rate_limited e
      → Maps ms e (rpc (rate_limited ms))
  a_timeout :
      ¬ Occurs is_panic e
      → ¬ Occurs is_circuit_open e
      → ¬ Occurs is_rate_limited e
      → Occurs is_deadline e
      → Maps ms e (rpc execution_timeout)
  unmapped : ¬ IsRejection e → Maps ms e e

not_rejected :
    {e : GoError}
    → ¬ Occurs is_panic e
    → ¬ Occurs is_circuit_open e
    → ¬ Occurs is_rate_limited e
    → ¬ Occurs is_deadline e
    → ¬ IsRejection e
not_rejected a b c d (inl o) = a o
not_rejected a b c d (inr (inl o)) = b o
not_rejected a b c d (inr (inr (inl o))) = c o
not_rejected a b c d (inr (inr (inr o))) = d o

pub dec-Occurs :
    (test : GoError → Bool) (e : GoError)
    → ((errors_is test e ≡ true) × Occurs test e) ⊎ ((errors_is test e ≡ false) × ¬ Occurs test e)
dec-Occurs test e = elim (Bool-cases (errors_is test e)) [
  | inl t ↦ inl (t, (errors_is_iff test e).0 t)
  | inr f ↦ inr (f, λ o. cc ((errors_is_iff test e).1 o))
]

pub as_panic-errors_is : (e : GoError) → is_some (errors_as as_panic e) ≡ errors_is is_panic e
as_panic-errors_is e = errors_as-errors_is as_panic e

-- For every error, the result is the first row of the error table that applies to what occurs in
-- the error, and the error itself, unchanged, when no rejection occurs in it.
pub map_resilience_error-Maps :
    (ops : FloatOps) (e : GoError) (rl : Option RateLimit)
    → Maps (retry_after_millis ops rl) e (map_resilience_error ops e rl)
unfolding map_resilience_error
map_resilience_error-Maps ops e rl = elim (dec-Occurs is_panic e) [
  | inl (t, o) ↦ rw (as_panic-errors_is e ∙ t) (a_panic o)
  | inr (f, calm) ↦ rw (as_panic-errors_is e ∙ f) (elim (dec-Occurs is_circuit_open e) [
    | inl (t, o) ↦ rw t (an_open_circuit calm o)
    | inr (g, closed) ↦ rw g (elim (dec-Occurs is_rate_limited e) [
      | inl (t, o) ↦ rw t (a_rate_limit calm closed o)
      | inr (h, free) ↦ rw h (elim (dec-Occurs is_deadline e) [
        | inl (t, o) ↦ rw t (a_timeout calm closed free o)
        | inr (k, early) ↦ rw k (unmapped (not_rejected calm closed free early))
      ])
    ])
  ])
]

pub rpc-not_rejected : (r : RpcError) → ¬ IsRejection (rpc r)
rpc-not_rejected r (inl (here t)) = cc
rpc-not_rejected r (inr (inl (here t))) = cc
rpc-not_rejected r (inr (inr (inl (here t)))) = cc
rpc-not_rejected r (inr (inr (inr (here t)))) = cc

Maps-not_rejected : {ms : ℤ} {e e' : GoError} → Maps ms e e' → ¬ IsRejection e'
Maps-not_rejected (a_panic _) = rpc-not_rejected internal_error
Maps-not_rejected (an_open_circuit _ _) = rpc-not_rejected service_unavailable
Maps-not_rejected {ms} (a_rate_limit _ _ _) = rpc-not_rejected (rate_limited ms)
Maps-not_rejected (a_timeout _ _ _ _) = rpc-not_rejected execution_timeout
Maps-not_rejected (unmapped h) = h

Maps-eq_self : {ms : ℤ} {e e' : GoError} → ¬ IsRejection e → Maps ms e e' → e' ≡ e
Maps-eq_self h (a_panic o) = absurd (h (inl o))
Maps-eq_self h (an_open_circuit _ o) = absurd (h (inr (inl o)))
Maps-eq_self h (a_rate_limit _ _ o) = absurd (h (inr (inr (inl o))))
Maps-eq_self h (a_timeout _ _ _ o) = absurd (h (inr (inr (inr o))))
Maps-eq_self h (unmapped _) = refl

-- No panic, open circuit, rate limit or expired deadline is left in the error that a client gets,
-- and mapping it a second time, under any rate limit, changes nothing.
pub map_resilience_error_clean :
    (ops : FloatOps) (e : GoError) (rl rl' : Option RateLimit)
    → (¬ IsRejection (map_resilience_error ops e rl))
      × (map_resilience_error ops (map_resilience_error ops e rl) rl'
          ≡ map_resilience_error ops e rl)
map_resilience_error_clean ops e rl rl' =
    let clean = Maps-not_rejected (map_resilience_error-Maps ops e rl) in
    (clean, Maps-eq_self clean (map_resilience_error-Maps ops (map_resilience_error ops e rl) rl'))

-- An error is retried exactly when the backend's transient status occurs in it, or an error that
-- implements net.Error, a context deadline among them.
pub is_transient_error_iff :
    (e : GoError)
    → (is_transient_error (some e) ≡ true) ↔ (Occurs is_transient_status e ⊎ Occurs is_net_error e)
unfolding is_transient_error
is_transient_error_iff e = elim (dec-Occurs is_transient_status e) [
  | inl (t, o) ↦ (λ _. inl o, λ _. rw t)
  | inr (f, absent) ↦ (
    λ h. inr ((errors_is_iff is_net_error e).0 (rw f at h)),
    λ o.
        rw f
          (elim o [ inl o' ↦ absurd (absent o') | inr o' ↦ (errors_is_iff is_net_error e).1 o' ]),
  )
]
