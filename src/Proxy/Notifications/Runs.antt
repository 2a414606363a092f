-- ===== src/Proxy/Notifications/Runs.antt =====
-- Calls, their completion, the cleanup timers and the clock, interleaved in any order.
use mcp_resile.Base.{ℕ, suc, ◌+◌, ◌≤◌, ◌<◌, arith, Bytes, some, List, ◌∷◌, ◌++◌, ◌≡◌}
use mcp_resile.Proxy.Notifications.{ProgressToken, Router, track_progress, forget, token_of}

-- progressCleanupDelay, in nanoseconds.
abbrev pub progress_cleanup_delay : ℕ
progress_cleanup_delay = 5000000000

-- A started timer: when it is due, and the token that it forgets.
pub record Timer : Type 0 where
  pub due : ℕ
  pub token : Bytes

-- The router, the clock and the timers. `issued` counts the tokens given out, without wrapping.
pub record World : Type 0 where
  pub router : Router
  pub clock : ℕ
  pub timers : List Timer
  pub issued : ℕ

-- A call that asks for progress, at the moment that it is tracked.
unfoldable pub track : ℕ → ProgressToken → World → World
track session original w = record w {
  router = (track_progress session (some original) w.router).1;
  issued = suc w.issued;
}

-- The cleanup function of call number `j`: time.AfterFunc.
unfoldable pub finish : ℕ → World → World
finish j w = record w {
  timers = record { due = w.clock + progress_cleanup_delay; token = token_of j } ∷ w.timers;
}

-- A timer fires, and is gone; `rest` is the other timers.
unfoldable pub fire : Timer → List Timer → World → World
fire t rest w = record w { router = forget t.token w.router; timers = rest }

unfoldable pub elapse : ℕ → World → World
elapse n w = record w { clock = w.clock + n }

-- One step. Call number `k` is watched: it finishes at time `c` or later.
pub data Step (k c : ℕ) (w : World) : World → Type 0 where
  tracks : (session : ℕ) (original : ProgressToken) → Step k c w (track session original w)
  finishes : (j : ℕ) → j ≤ w.issued → (j ≡ k → c ≤ w.clock) → Step k c w (finish j w)
  fires :
      (before : List Timer) (t : Timer) (after : List Timer)
      → w.timers ≡ before ++ t ∷ after
      → t.due ≤ w.clock
      → Step k c w (fire t (before ++ after) w)
  elapses : (n : ℕ) → Step k c w (elapse n w)

pub data Run (k c : ℕ) (w : World) : World → Type 0 where
  here : Run k c w w
  and_then : {u v : World} → Run k c w u → Step k c u v → Run k c w v

-- Steps never take back a token or turn the clock back.
pub Step-grows :
    {k c : ℕ} {u v : World} → Step k c u v → (u.issued ≤ v.issued) × (u.clock ≤ v.clock)
unfolding track finish fire elapse
Step-grows (tracks session original) = omega arith
Step-grows (finishes j h g) = omega arith
Step-grows (fires before t after e h) = omega arith
Step-grows (elapses n) = omega arith

-- An invariant that a step keeps, as long as it ends before the `limit`th token and before time
-- `stop`, holds all along a run that does.
pub Run-induction :
    {k c : ℕ} (P : World → Type 0) (limit stop : ℕ)
    → ((u v : World) → Step k c u v → v.issued < limit → v.clock < stop → P u → P v)
    → (w v : World) → Run k c w v
    → v.issued < limit
    → v.clock < stop
    → P w
    → P v
Run-induction P limit stop keep w v here hi hc p = p
Run-induction P limit stop keep w v (and_then {u} r s) hi hc p = keep u v s hi hc (
    Run-induction P limit stop keep w u r (omega (arith, (Step-grows s).0))
      (omega (arith, (Step-grows s).1)) p)
