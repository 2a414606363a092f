-- ===== src/Proxy/Concurrent/Tokens/Firing.antt =====
-- A cleanup timer that fires, internal/proxy/notifications.go, while calls go on.
use mcp_resile.Base.{
  ◌+◌, ◌≤◌, Bytes, Option, none, some, List, [], ◌∷◌, ◌++◌, ◌≡◌, ap, refl, All, total, total-append,
  total-middle, total-eq-zero, str_eq_iff, str_eq_refl, arith,
}
use mcp_resile.Base.Dict.{lookup, lookup-delete}
use mcp_resile.Proxy.Notifications.{Target, token_of, forget}
use mcp_resile.Proxy.Notifications.Runs.{World, Timer, progress_cleanup_delay, track, fire, elapse}
use mcp_resile.Proxy.Notifications.Runs
use mcp_resile.Proxy.Notifications.Consistent.{Step-IsConsistent, All-drop_middle}
use mcp_resile.Proxy.Concurrent.{Job, Call, System}
use mcp_resile.Proxy.Concurrent.Tokens.{
  open_token, Routed, is_it, holds, held_by, holders, Delivers,
}

-- A timer that fires forgets no call's token, as no call that is going on has its token.
Routed-fired :
    (w : World) (t : Timer) (rest : List Timer) (j : Job) (o : Option Bytes)
    → is_it t.token o ≡ 0
    → Routed w j o
    → Routed (fire t rest w) j o
unfolding fire forget
Routed-fired w t rest j none h r = tt
Routed-fired w t rest j (some token) h (found, known) = (
  ground (
    arith,
    lookup-delete t.token token w.router.in_flight,
    str_eq_iff token t.token,
    str_eq_iff t.token token,
  ),
  known,
)

All-fired :
    (w : World) (t : Timer) (rest : List Timer) (cs : List Call)
    → All (λ c. holds t.token c ≡ 0) cs
    → All (λ (c : Call). Routed w c.job (open_token c.place)) cs
    → All (λ (c : Call). Routed (fire t rest w) c.job (open_token c.place)) cs
All-fired w t rest [] h r = tt
All-fired w t rest (c ∷ cs) (h, hs) (r, rs) =
    (Routed-fired w t rest c.job (open_token c.place) h r, All-fired w t rest cs hs rs)

-- What is still mapped after the timer is of another token.
still_mapped :
    (w : World) (t : Timer) (rest : List Timer) (x : Bytes) (v : Target)
    → lookup x (fire t rest w).router.in_flight ≡ some v
    → (lookup x w.router.in_flight ≡ some v) × (held_by x t ≡ 0)
unfolding fire forget
still_mapped w t rest x v found = ground (arith, lookup-delete t.token x w.router.in_flight)

pub fired-Delivers :
    (y : System) (before : List Timer) (t : Timer) (after : List Timer)
    → y.shared.progress.timers ≡ before ++ t ∷ after
    → t.due ≤ y.shared.progress.clock
    → Delivers y
    → Delivers (record y {
      shared = record y.shared { progress = fire t (before ++ after) y.shared.progress };
    })
fired-Delivers y before t after e due d =
    let w = y.shared.progress in
    let (n, _, same) = (All-drop_middle _ before t after (rw e at d.consistent.timers)).0 in
    let fewer : (x : Bytes)
        → total (held_by x) w.timers ≡ held_by x t + total (held_by x) (before ++ after) =
      λ x. omega (
        arith,
        ap (total (held_by x)) e,
        total-middle (held_by x) before t after,
        total-append (held_by x) before after,
      ) in
    let nobody : total (holds t.token) y.calls ≡ 0 =
      let one : holders t.token y ≤ 1 = rw same (d.unique n) in
      let itself : held_by t.token t ≡ 1 = rw (str_eq_refl t.token) refl in
      omega (arith, one, fewer t.token, itself) in
    record {
      consistent =
          Step-IsConsistent {k = 0} {c = 0} w _ (Runs.fires before t after e due) d.consistent;
      unique = λ j. unfold fire in omega (arith, fewer (token_of j), d.unique j);
      fresh =
          λ j new. unfold fire in omega (arith, fewer (token_of j), d.fresh j (unfold fire in new));
      held = λ j v found.
          let (mapped, other) = still_mapped w t (before ++ after) (token_of j) v found in
          unfold fire in omega (arith, fewer (token_of j), d.held j v mapped, other);
      routed = All-fired w t (before ++ after) y.calls (total-eq-zero _ y.calls nobody) d.routed;
    }
