-- ===== src/Proxy/Notifications/Consistent.antt =====
-- The router's mappings and timers, internal/proxy/notifications.go, against the calls made.
use mcp_resile.Base.{
  ℕ, suc, ◌+◌, ◌%◌, ◌≤◌, ◌<◌, Bytes, codes, some, List, [], ◌∷◌, ◌++◌, ◌≡◌, ◌∙◌, sym, ap, refl, All,
  arith, str_eq, str_eq_iff, if◌then◌else◌, inl, inr, drop, length, drop-append, Bool-cases,
}
use mcp_resile.Base.Dict.{lookup, lookup-insert, lookup-delete}
use mcp_resile.Base.Decimal.{decimal, decimal-injective}
use mcp_resile.Proxy.Notifications.{
  ProgressToken, Target, uint64_mod, token_of, track_progress, forget,
}
use mcp_resile.Proxy.Notifications.Runs.{
  World, Timer, track, finish, fire, elapse, Step, tracks, finishes, fires, elapses, Run, here,
  and_then,
}

pub token_of-injective : (m n : ℕ) → token_of m ≡ token_of n → m ≡ n
unfolding token_of
token_of-injective m n e =
    let prefix : Bytes = codes "mcp-resile-" in
    decimal-injective m n (
      sym (drop-append prefix (decimal m))
      ∙ ap (drop (length prefix)) e
      ∙ drop-append prefix (decimal n))

-- A token of a call that has been made.
abbrev pub IsIssued : ℕ → Bytes → Type 0
IsIssued n token = (j : ℕ) × (j ≤ n) × (token ≡ token_of j)

pub record IsConsistent (w : World) : Type 0 where
  pub counter : w.router.next ≡ w.issued % uint64_mod
  pub keys :
      (token : Bytes) (v : Target)
      → lookup token w.router.in_flight ≡ some v
      → IsIssued w.issued token
  pub timers : All (λ t. IsIssued w.issued t.token) w.timers

pub IsIssued-suc : (n : ℕ) (token : Bytes) → IsIssued n token → IsIssued (suc n) token
IsIssued-suc n token (j, h, e) = (j, omega arith, e)

pub All-weaken :
    {A : Type 0} (P Q : A → Type 0) → ((a : A) → P a → Q a) → (xs : List A) → All P xs → All Q xs
All-weaken P Q f [] h = tt
All-weaken P Q f (x ∷ xs) (h, hs) = (f x h, All-weaken P Q f xs hs)

pub All-drop_middle :
    {A : Type 0} (P : A → Type 0) (before : List A) (x : A) (after : List A)
    → All P (before ++ x ∷ after)
    → P x × All P (before ++ after)
All-drop_middle P [] x after (h, hs) = (h, hs)
All-drop_middle P (y ∷ before) x after (h, hs) =
    let (p, rest) = All-drop_middle P before x after hs in (p, (h, rest))

pub lookup-track :
    (session : ℕ) (original : ProgressToken) (w : World) (token : Bytes)
    → IsConsistent w
    → lookup token (track session original w).router.in_flight ≡ (
        if str_eq (token_of (suc w.issued % uint64_mod)) token
        then some (record { session = session; original = original })
        else lookup token w.router.in_flight)
unfolding track track_progress
lookup-track session original w token v =
    let e : (w.router.next + 1) % uint64_mod ≡ suc w.issued % uint64_mod =
      omega (arith, v.counter) in
    rw (e, lookup-insert) refl

pub track-IsConsistent :
    (session : ℕ) (original : ProgressToken) (w : World)
    → IsConsistent w
    → IsConsistent (track session original w)
track-IsConsistent session original w v = record {
  counter = unfold track track_progress in omega (arith, v.counter);
  keys = λ token t e. elim (Bool-cases (str_eq (token_of (suc w.issued % uint64_mod)) token)) [
    | inl same ↦
        (suc w.issued % uint64_mod, unfold track in omega arith, sym ((str_eq_iff _ token).0 same))
    | inr new ↦
        unfold track in
        IsIssued-suc w.issued token
          (v.keys token t (sym (lookup-track session original w token v ∙ rw new) ∙ e))
  ];
  timers = unfold track in All-weaken _ _ (λ t. IsIssued-suc w.issued t.token) w.timers v.timers;
}

fire-keys :
    (t : Timer) (rest : List Timer) (w : World) (token : Bytes) (v : Target)
    → lookup token (fire t rest w).router.in_flight ≡ some v
    → lookup token w.router.in_flight ≡ some v
unfolding fire forget
fire-keys t rest w token v e = ground (arith, lookup-delete t.token token w.router.in_flight)

pub Step-IsConsistent : {k c : ℕ} (u v : World) → Step k c u v → IsConsistent u → IsConsistent v
Step-IsConsistent u v (tracks session original) h = track-IsConsistent session original u h
Step-IsConsistent u v (finishes j issued late) h =
    unfold finish in
    record { counter = h.counter; keys = h.keys; timers = ((j, issued, refl), h.timers) }
Step-IsConsistent u v (fires before t after e due) h = record {
  counter = unfold fire forget in h.counter;
  keys = λ token x found.
      unfold fire in h.keys token x (fire-keys t (before ++ after) u token x found);
  timers = unfold fire in (All-drop_middle _ before t after (rw e at h.timers)).1;
}
Step-IsConsistent u v (elapses n) h =
    unfold elapse in record { counter = h.counter; keys = h.keys; timers = h.timers }

-- Whatever calls, cleanups, timers and waits follow one another, the router stays consistent: its
-- counter is the number of tokens issued modulo 2^64, and every mapping and every timer is about a
-- token that was issued.
pub Run-IsConsistent : {k c : ℕ} (w v : World) → Run k c w v → IsConsistent w → IsConsistent v
Run-IsConsistent w v here h = h
Run-IsConsistent w v (and_then {u} r s) h = Step-IsConsistent u v s (Run-IsConsistent w u r h)

-- The token that the next call gets is in no mapping and in no timer.
pub next_is_fresh :
    (w : World)
    → IsConsistent w
    → suc w.issued < uint64_mod
    → ¬ IsIssued w.issued (token_of (suc w.issued))
next_is_fresh w v h (j, le, e) =
    let same : suc w.issued ≡ j = token_of-injective (suc w.issued) j e in omega (arith, same)
