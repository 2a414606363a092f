-- ===== src/Proxy/Concurrent/Tokens/Delivery.antt =====
-- Progress notifications reach their own call, whatever else runs.
use mcp_resile.Base.{
  ℕ, ◌≤◌, ◌<◌, Bytes, Option, none, some, List, [], ◌∷◌, ◌++◌, ◌≡◌, ◌∙◌, sym, ap, refl, ◌⊎◌, inl,
  inr, All-middle, str_eq, arith, Option-cases,
}
use mcp_resile.Base.Dict.{lookup}
use mcp_resile.Proxy.Route.{Route, match_route}
use mcp_resile.Proxy.Upstream.{CallParams}
use mcp_resile.Proxy.Notifications.{text, Target, uint64_mod, token_of, handle_progress}
use mcp_resile.Proxy.Notifications.Runs.{World, elapse}
use mcp_resile.Proxy.Notifications.Consistent.{IsConsistent, All-weaken}
use mcp_resile.Proxy.Dispatch.{Setup}
use mcp_resile.Proxy.Concurrent.{Job, tracking, running, Call, System, track_call, taken_on}
use mcp_resile.Proxy.Concurrent.Runs.{
  Step, arrives, goes_on, lists_tool, fires, elapses, Reach, Reach-induction,
}
use mcp_resile.Proxy.Concurrent.Moves.{move-Moves}
use mcp_resile.Proxy.Concurrent.Tokens.{
  open_token, target_of, Routed, holders, Delivers, token_of-nonempty,
}
use mcp_resile.Proxy.Concurrent.Tokens.Passing.{Passes, Moves-Passes, Routed-cong, passed-Delivers}
use mcp_resile.Proxy.Concurrent.Tokens.Opening.{Opens, Untracked, track_call-Opens, opened-Delivers}
use mcp_resile.Proxy.Concurrent.Tokens.Firing.{fired-Delivers}
use mcp_resile.Proxy.Concurrent.Tokens.Growth.{issued_grows}

no_empty_token : (w : World) → IsConsistent w → lookup [] w.router.in_flight ≡ none
no_empty_token w c = elim (Option-cases (lookup [] w.router.in_flight)) [
  | inl e ↦ e
  | inr (target, found) ↦
      let (n, _, e) = c.keys [] target found in absurd (token_of-nonempty n (sym e))
]

module _ {W : Type 0} (s : Setup W) where
  untracked-Passes :
      (j : Job) (w v : World) (token : Bytes)
      → (token ≡ [])
      → (v ≡ w)
      → target_of j ≡ none
      → IsConsistent w
      → Passes j w tracking v (running token)
  unfolding str_eq
  untracked-Passes j w v token empty same nobody c = record {
    consistent = rw same c;
    router = ap (λ (u : World). u.router) same;
    issued = ap (λ (u : World). u.issued) same;
    holders = λ n. rw (empty, same) (unfold token_of in omega arith);
    routed = rw (empty, same) (no_empty_token w c ∙ sym nobody, inl refl);
  }

  tracked-Delivers :
      (y : System) (before : List Call) (c : Call) (after : List Call) (token : Bytes) (v : World)
      → y.calls ≡ before ++ c ∷ after
      → c.place ≡ tracking
      → v.issued < uint64_mod
      → Untracked c.job y.shared.progress (token, v) ⊎ Opens c.job y.shared.progress token v
      → Delivers y
      → Delivers (record {
        shared = record y.shared { progress = v };
        calls = before ++ record c { place = running token } ∷ after;
      })
  tracked-Delivers y before c after token v e at_tracking bound (inl (empty, same, nobody)) d =
      passed-Delivers y before c after (record y.shared { progress = v }) (running token) e d
        (rw at_tracking
          (untracked-Passes c.job y.shared.progress v token empty same nobody d.consistent))
  tracked-Delivers y before c after token v e at_tracking bound (inr h) d =
      opened-Delivers y before c after token v e at_tracking d h (omega (arith, h.issued, bound))

  arrived-Delivers :
      (params : CallParams) (session : Option ℕ) (o : Option (Route × Bytes)) (y : System)
      → Delivers y
      → Delivers (record y { calls = taken_on s params session o ++ y.calls })
  arrived-Delivers params session none y d = record {
    consistent = d.consistent;
    unique = d.unique;
    fresh = d.fresh;
    held = d.held;
    routed = d.routed;
  }
  arrived-Delivers params session (some r) y d = record {
    consistent = d.consistent;
    unique = λ j. omega (arith, d.unique j);
    fresh = λ j new. omega (arith, d.fresh j new);
    held = λ j v found. omega (arith, d.held j v found);
    routed = (tt, d.routed);
  }

  Step-Delivers :
      (y z : System) → Step s y z → z.shared.progress.issued < uint64_mod → Delivers y → Delivers z
  Step-Delivers y z (arrives params session) bound d =
      arrived-Delivers params session (match_route s.routes params.name) y d
  Step-Delivers y z (goes_on before c after input e) bound d =
      elim (Moves-Passes s c.job (move-Moves s c.job input y.shared c.place) d.consistent
        (All-middle (λ (b : Call). Routed y.shared.progress b.job (open_token b.place)) before c
          after (rw e at d.routed)).0) [
            | inl (at_tracking, same) ↦
                let room : (track_call c.job.session c.job.params y.shared.progress).1.issued
                    < uint64_mod =
                  rw same at bound in
                rw same (
                  tracked-Delivers y before c after _ _ e at_tracking room
                    (track_call-Opens c.job y.shared.progress d.consistent room) d)
            | inr h ↦ passed-Delivers y before c after _ _ e d h
          ]
  Step-Delivers y z (lists_tool name tool) bound d = record {
    consistent = d.consistent;
    unique = d.unique;
    fresh = d.fresh;
    held = d.held;
    routed = d.routed;
  }
  Step-Delivers y z (fires before t after e due) bound d = fired-Delivers y before t after e due d
  Step-Delivers y z (elapses n) bound d =
      unfold elapse in
      record {
        consistent = record {
          counter = d.consistent.counter;
          keys = d.consistent.keys;
          timers = d.consistent.timers;
        };
        unique = d.unique;
        fresh = d.fresh;
        held = d.held;
        routed =
            All-weaken _ _
              (λ (b : Call).
                Routed-cong y.shared.progress (elapse n y.shared.progress) b.job
                  (open_token b.place) refl refl)
              y.calls d.routed;
      }

  Reach-Delivers : (y : System) → Reach s y → y.shared.progress.issued < uint64_mod → Delivers y
  Reach-Delivers =
      Reach-induction s (λ y. y.shared.progress.issued < uint64_mod → Delivers y)
        (λ _. record {
          consistent = record {
            counter = refl;
            keys = λ _ _ e. absurd (unfold lookup in cc);
            timers = tt;
          };
          unique = λ j. omega arith;
          fresh = λ j _. omega arith;
          held = λ j v found. absurd (unfold lookup in cc);
          routed = tt;
        })
        (λ y z st h bound.
          Step-Delivers y z st bound (h (omega (arith, bound, issued_grows s y z st))))

  -- In every state that calls, listings, cleanup timers and the clock lead to, in any order, with
  -- fewer than 2^64 tokens issued: a progress notification with the token of a call whose backend
  -- may still report goes to that call's session with the token that its client gave, and to
  -- nobody if the client asked for no progress; and no two such calls and started timers have the
  -- same issued token.
  pub Reach-handle_progress :
      (y : System)
      → Reach s y
      → y.shared.progress.issued < uint64_mod
      → (before : List Call) (c : Call) (after : List Call) (token : Bytes)
      → y.calls ≡ before ++ c ∷ after
      → open_token c.place ≡ some token
      → (handle_progress (text token) y.shared.progress.router ≡ target_of c.job)
        × ((j : ℕ) → holders (token_of j) y ≤ 1)
  Reach-handle_progress y r bound before c after token e waiting =
      let d = Reach-Delivers y r bound in
      let (mine, _, _) =
        All-middle (λ (b : Call). Routed y.shared.progress b.job (open_token b.place)) before c
          after (rw e at d.routed) in
      let (found, _) : Routed y.shared.progress c.job (some token) = rw waiting at mine in
      (unfold handle_progress in found, d.unique)

  -- In every state that calls, listings, cleanup timers and the clock lead to, in any order, with
  -- fewer than 2^64 tokens issued: each mapping of the router is that of exactly one call whose
  -- backend may still report, or of exactly one started timer that is to forget it. So none is left
  -- over when no such call and no timer is.
  pub Reach-in_flight :
      (y : System)
      → Reach s y
      → y.shared.progress.issued < uint64_mod
      → (token : Bytes) (v : Target) → lookup token y.shared.progress.router.in_flight ≡ some v
      → holders token y ≡ 1
  Reach-in_flight y r bound token v found =
      let d = Reach-Delivers y r bound in
      let (n, _, e) = d.consistent.keys token v found in
      rw e (omega (arith, d.unique n, d.held n v (rw e at found)))
