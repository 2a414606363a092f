-- ===== src/Proxy/Notifications/Delivery.antt =====
-- Where HandleProgress of internal/proxy/notifications.go sends a notification, and when.
use mcp_resile.Base.{
  ℕ, suc, ◌+◌, ◌%◌, ◌≤◌, ◌<◌, Bytes, false, Option, none, some, List, ◌++◌, ◌≡◌, ◌≢◌, ◌∙◌, sym, ap,
  refl, All, arith, str_eq, str_eq_iff, str_eq_refl, if◌then◌else◌, inl, inr, Bool-cases,
  not-true→false,
}
use mcp_resile.Base.Dict.{lookup, lookup-delete}
use mcp_resile.Proxy.Notifications.{
  ProgressToken, text, Target, Router, uint64_mod, token_of, track_progress, forget,
  handle_progress,
}
use mcp_resile.Proxy.Notifications.Runs.{
  World, Timer, track, finish, fire, elapse, progress_cleanup_delay, Step, tracks, finishes, fires,
  elapses, Run, Run-induction, Step-grows,
}
use mcp_resile.Proxy.Notifications.Consistent.{
  IsConsistent, token_of-injective, lookup-track, next_is_fresh, All-drop_middle, All-weaken,
  Step-IsConsistent, track-IsConsistent,
}

abbrev mapping : ℕ → World → Option Target
mapping k w = lookup (token_of k) w.router.in_flight

other_token : (k j : ℕ) → k ≢ j → str_eq (token_of k) (token_of j) ≡ false
other_token k j h =
    not-true→false _ λ e. h (token_of-injective k j ((str_eq_iff (token_of k) (token_of j)).0 e))

-- A later call leaves the mapping of an earlier one alone, until the counter wraps.
mapping-track :
    (k session : ℕ) (original : ProgressToken) (w : World)
    → IsConsistent w
    → k ≤ w.issued
    → suc w.issued < uint64_mod
    → mapping k (track session original w) ≡ mapping k w
mapping-track k session original w v h bound =
    let e : suc w.issued % uint64_mod ≡ suc w.issued = omega arith in
    let new = other_token (suc w.issued) k (λ same. omega (arith, same)) in
    lookup-track session original w (token_of k) v ∙ rw (e, new) refl

mapping-fire :
    (k : ℕ) (t : Timer) (rest : List Timer) (w : World)
    → mapping k (fire t rest w) ≡ (if str_eq t.token (token_of k) then none else mapping k w)
unfolding fire forget
mapping-fire k t rest w = lookup-delete t.token (token_of k) w.router.in_flight

-- If the token of call `k` is mapped at all, then to `target`.
pub record Owns (k : ℕ) (target : Target) (w : World) : Type 0 where
  pub consistent : IsConsistent w
  pub issued : k ≤ w.issued
  pub only : (v : Target) → mapping k w ≡ some v → v ≡ target

-- It is mapped to `target`, and its timers are not due before `c` and the delay.
pub record Keeps (k c : ℕ) (target : Target) (w : World) : Type 0 where
  pub consistent : IsConsistent w
  pub issued : k ≤ w.issued
  pub mapped : mapping k w ≡ some target
  pub timers : All (λ t. t.token ≡ token_of k → c + progress_cleanup_delay ≤ t.due) w.timers

too_early :
    (c now : ℕ) (t : Timer)
    → c + progress_cleanup_delay ≤ t.due
    → t.due ≤ now
    → now < c + progress_cleanup_delay
    → ⊥
too_early c now t h due early = omega arith

module _ (k c : ℕ) (target : Target) where
  Step-only :
      (u v : World)
      → Step k c u v
      → v.issued < uint64_mod
      → Owns k target u
      → (x : Target) → mapping k v ≡ some x
      → x ≡ target
  Step-only u v (tracks session original) bound o x e =
      o.only x
        (sym (mapping-track k session original u o.consistent o.issued (unfold track in bound)) ∙ e)
  Step-only u v (finishes j h late) bound o x e = o.only x (unfold finish in e)
  Step-only u v (fires before t after all due) bound o x e =
      elim (Bool-cases (str_eq t.token (token_of k))) [
        | inl same ↦ cc (mapping-fire k t (before ++ after) u, same, e)
        | inr kept ↦ o.only x (sym (mapping-fire k t (before ++ after) u ∙ rw kept) ∙ e)
      ]
  Step-only u v (elapses n) bound o x e = o.only x (unfold elapse in e)

  Step-mapped :
      (u v : World)
      → Step k c u v
      → v.issued < uint64_mod
      → v.clock < c + progress_cleanup_delay
      → Keeps k c target u
      → mapping k v ≡ some target
  Step-mapped u v (tracks session original) bound early o =
      mapping-track k session original u o.consistent o.issued (unfold track in bound) ∙ o.mapped
  Step-mapped u v (finishes j h late) bound early o = unfold finish in o.mapped
  Step-mapped u v (fires before t after all due) bound early o =
      elim (Bool-cases (str_eq t.token (token_of k))) [
        | inl same ↦
            let (own, _) = All-drop_middle _ before t after (rw all at o.timers) in
            absurd (
              too_early c u.clock t (own ((str_eq_iff t.token (token_of k)).0 same)) due
                (unfold fire in early))
        | inr kept ↦ mapping-fire k t (before ++ after) u ∙ rw kept o.mapped
      ]
  Step-mapped u v (elapses n) bound early o = unfold elapse in o.mapped

  Step-timers :
      (u v : World)
      → Step k c u v
      → Keeps k c target u
      → All (λ t. t.token ≡ token_of k → c + progress_cleanup_delay ≤ t.due) v.timers
  Step-timers u v (tracks session original) o = unfold track in o.timers
  Step-timers u v (finishes j h late) o =
      unfold finish in (λ e. omega (arith, late (token_of-injective j k e)), o.timers)
  Step-timers u v (fires before t after all due) o =
      unfold fire in (All-drop_middle _ before t after (rw all at o.timers)).1
  Step-timers u v (elapses n) o = unfold elapse in o.timers

  Step-Owns :
      (u v : World) → Step k c u v → v.issued < uint64_mod → Owns k target u → Owns k target v
  Step-Owns u v s bound o = record {
    consistent = Step-IsConsistent u v s o.consistent;
    issued = omega (arith, (Step-grows s).0, o.issued);
    only = Step-only u v s bound o;
  }

  Step-Keeps :
      (u v : World)
      → Step k c u v
      → v.issued < uint64_mod
      → v.clock < c + progress_cleanup_delay
      → Keeps k c target u
      → Keeps k c target v
  Step-Keeps u v s bound early o = record {
    consistent = Step-IsConsistent u v s o.consistent;
    issued = omega (arith, (Step-grows s).0, o.issued);
    mapped = Step-mapped u v s bound early o;
    timers = Step-timers u v s o;
  }

-- The call at hand: number `suc w.issued`, made in a consistent world before the counter wraps.
module _ (w : World) (session : ℕ) (original : ProgressToken) (consistent : IsConsistent w)
    (bound : suc w.issued < uint64_mod) where
  abbrev call_target : Target
  call_target = record { session = session; original = original }

  track-mapping : mapping (suc w.issued) (track session original w) ≡ some call_target
  track-mapping =
      let e : suc w.issued % uint64_mod ≡ suc w.issued = omega arith in
      lookup-track session original w (token_of (suc w.issued)) consistent
      ∙ rw (e, str_eq_refl (token_of (suc w.issued))) refl

  track-token : (track_progress session (some original) w.router).0 ≡ token_of (suc w.issued)
  unfolding track_progress
  track-token = ap token_of (omega (arith, consistent.counter))

  track-Owns : Owns (suc w.issued) call_target (track session original w)
  track-Owns = record {
    consistent = track-IsConsistent session original w consistent;
    issued = unfold track in omega arith;
    only = λ x e. cc (track-mapping, e);
  }

  track-Keeps : (c : ℕ) → Keeps (suc w.issued) c call_target (track session original w)
  track-Keeps c = record {
    consistent = track-IsConsistent session original w consistent;
    issued = unfold track in omega arith;
    mapped = track-mapping;
    timers =
        unfold track in
        All-weaken _ _ (λ t h e. absurd (next_is_fresh w consistent bound (rw e at h))) w.timers
          consistent.timers;
  }

-- From the moment a call is tracked until five seconds after `c`, a notification that carries the
-- token that the call was given goes to the call's session with the client's own token: whatever
-- other calls, cleanups, timers and waits come between, if the call's cleanup function runs at `c`
-- or later and fewer than 2^64 tokens have been issued.
pub progress_delivered :
    (w v : World) (session c : ℕ) (original : ProgressToken)
    → IsConsistent w
    → Run (suc w.issued) c (track session original w) v
    → suc w.issued < uint64_mod
    → v.issued < uint64_mod
    → v.clock < c + progress_cleanup_delay
    → handle_progress (text (track_progress session (some original) w.router).0) v.router
      ≡ some (record { session = session; original = original })
unfolding handle_progress
progress_delivered w v session c original h r bound issued early =
    let target : Target = record { session = session; original = original } in
    let kept =
      Run-induction (Keeps (suc w.issued) c target) uint64_mod (c + progress_cleanup_delay)
        (Step-Keeps (suc w.issued) c target) (track session original w) v r issued early
        (track-Keeps w session original h bound c) in
    rw (track-token w session original h bound) kept.mapped

-- At no time, before or after its cleanup, does a notification that carries the token of a call go
-- to another session or with another token than the call's own, if fewer than 2^64 tokens have
-- been issued.
pub progress_private :
    (w v : World) (session c : ℕ) (original : ProgressToken) (x : Target)
    → IsConsistent w
    → Run (suc w.issued) c (track session original w) v
    → suc w.issued < uint64_mod
    → v.issued < uint64_mod
    → handle_progress (text (track_progress session (some original) w.router).0) v.router ≡ some x
    → x ≡ record { session = session; original = original }
unfolding handle_progress
progress_private w v session c original x h r bound issued e =
    let target : Target = record { session = session; original = original } in
    let owns =
      Run-induction (Owns (suc w.issued) target) uint64_mod (suc v.clock)
        (λ a b s i _ o. Step-Owns (suc w.issued) c target a b s i o) (track session original w) v r
        issued (omega arith) (track-Owns w session original h bound) in
    owns.only x (rw (track-token w session original h bound) at e)

-- Once a timer with its token has fired, a notification with the token is dropped, and every other
-- token is routed as before.
pub forget-handle_progress :
    (token other_token : Bytes) (r : Router)
    → handle_progress (text other_token) (forget token r)
      ≡ (if str_eq token other_token then none else handle_progress (text other_token) r)
unfolding handle_progress forget
forget-handle_progress token other_token r = lookup-delete token other_token r.in_flight
