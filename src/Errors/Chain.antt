-- ===== src/Errors/Chain.antt =====
-- The errors of a tree, and errors.Is and errors.As on them.
use mcp_resile.Base.{
  Bytes, Bool, true, false, Option, none, some, is_some, if◌then◌else◌, ◌≡◌, refl, ◌↔◌, arith,
  Bool-cases, inl, inr, not-true→false,
}
use mcp_resile.Errors.{
  GoError, GoErrors, plain, wrap, join, circuit_open, rate_limit_exceeded, deadline_exceeded,
  canceled, panicked, rpc, net_op, no_errors, and_error, first_match, first_in, errors_is,
  errors_as,
}

-- An error that passes `test` occurs in the tree: the error itself, or one that it unwraps to.
mutual
  pub data Occurs (test : GoError → Bool) : GoError → Type 0 where
    here : {e : GoError} → test e ≡ true → Occurs test e
    in_wrap : {m : Bytes} {e : GoError} → Occurs test e → Occurs test (wrap m e)
    in_net_op : {m : Bytes} {e : GoError} → Occurs test e → Occurs test (net_op m e)
    in_join : {es : GoErrors} → OccursIn test es → Occurs test (join es)

  pub data OccursIn (test : GoError → Bool) : GoErrors → Type 0 where
    in_first : {e : GoError} {es : GoErrors} → Occurs test e → OccursIn test (and_error e es)
    in_rest : {e : GoError} {es : GoErrors} → OccursIn test es → OccursIn test (and_error e es)

abbrev node : (GoError → Bool) → GoError → Option GoError
node test x = if test x then some x else none

module _ (test : GoError → Bool) where
  mutual
    unfolding first_match

    sound : (e : GoError) → is_some (first_match (node test) e) ≡ true → Occurs test e
    sound (plain m) h = here (ground arith)
    sound (wrap m e) h = elim (Bool-cases (test (wrap m e))) [
      | inl t ↦ here t
      | inr f ↦ in_wrap (sound e (rw f at h))
    ]
    sound (join es) h = elim (Bool-cases (test (join es))) [
      | inl t ↦ here t
      | inr f ↦ in_join (sound_in es (rw f at h))
    ]
    sound circuit_open h = here (ground arith)
    sound rate_limit_exceeded h = here (ground arith)
    sound deadline_exceeded h = here (ground arith)
    sound canceled h = here (ground arith)
    sound (panicked v) h = here (ground arith)
    sound (rpc r) h = here (ground arith)
    sound (net_op m e) h = elim (Bool-cases (test (net_op m e))) [
      | inl t ↦ here t
      | inr f ↦ in_net_op (sound e (rw f at h))
    ]

    sound_in : (es : GoErrors) → is_some (first_in (node test) es) ≡ true → OccursIn test es
    sound_in no_errors h = cc
    sound_in (and_error e es) h = elim (Bool-cases (is_some (first_match (node test) e))) [
      | inl t ↦ in_first (sound e t)
      | inr f ↦ in_rest (sound_in es (ground arith))
    ]

  first_here : (e : GoError) → test e ≡ true → is_some (first_match (node test) e) ≡ true
  unfolding first_match
  first_here (plain m) h = rw h
  first_here _ h = rw h

  mutual
    unfolding first_match

    complete : {e : GoError} → Occurs test e → is_some (first_match (node test) e) ≡ true
    complete (here {e} t) = first_here e t
    complete (in_wrap {m} {e} o) = ground (arith, complete o)
    complete (in_net_op {m} {e} o) = ground (arith, complete o)
    complete (in_join {es} o) = ground (arith, complete_in o)

    complete_in : {es : GoErrors} → OccursIn test es → is_some (first_in (node test) es) ≡ true
    complete_in (in_first {e} {es} o) = ground (arith, complete o)
    complete_in (in_rest {e} {es} o) = ground (arith, complete_in o)

-- errors.Is answers true exactly when an error of the tree passes the test.
pub errors_is_iff :
    (test : GoError → Bool) (e : GoError) → (errors_is test e ≡ true) ↔ Occurs test e
unfolding errors_is
errors_is_iff test e = (sound test e, complete test)

pub errors_is-false :
    (test : GoError → Bool) (e : GoError) → ¬ Occurs test e → errors_is test e ≡ false
errors_is-false test e h = not-true→false _ (λ t. h ((errors_is_iff test e).0 t))

module _ {A : Type 0} (f : GoError → Option A) where
  mutual
    unfolding first_match

    as_is :
        (e : GoError)
        → is_some (first_match f e) ≡ is_some (first_match (node (λ x. is_some (f x))) e)
    as_is (plain m) = ground arith
    as_is (wrap m e) = ground (arith, as_is e)
    as_is (join es) = ground (arith, as_is_in es)
    as_is circuit_open = ground arith
    as_is rate_limit_exceeded = ground arith
    as_is deadline_exceeded = ground arith
    as_is canceled = ground arith
    as_is (panicked v) = ground arith
    as_is (rpc r) = ground arith
    as_is (net_op m e) = ground (arith, as_is e)

    as_is_in :
        (es : GoErrors)
        → is_some (first_in f es) ≡ is_some (first_in (node (λ x. is_some (f x))) es)
    as_is_in no_errors = refl
    as_is_in (and_error e es) = ground (arith, as_is e, as_is_in es)

-- errors.As finds a value exactly when errors.Is finds an error of that type.
pub errors_as-errors_is :
    {A : Type 0} (f : GoError → Option A) (e : GoError)
    → is_some (errors_as f e) ≡ errors_is (λ x. is_some (f x)) e
unfolding errors_as errors_is
errors_as-errors_is f e = as_is f e
