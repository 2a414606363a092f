-- ===== src/Proxy/Concurrent/Tokens/Opening.antt =====
-- The piece of a call that tracks its progress, internal/proxy/notifications.go TrackProgress.
use native.Mathlib.Decide.{ℕ_discrete}
use mcp_resile.Base.{
  ℕ, suc, ◌+◌, ◌%◌, ◌≤◌, ◌<◌, Bytes, false, Option, none, some, List, [], ◌∷◌, ◌++◌, ◌≡◌, ◌≢◌, ◌∙◌,
  sym, ap, refl, ◌⊎◌, inl, inr, All-append, All-middle, total, total-middle, str_eq, str_eq_iff,
  str_eq_refl, not-true→false, arith, Option-cases,
}
use mcp_resile.Base.Dict.{lookup}
use mcp_resile.Proxy.Notifications.{ProgressToken, uint64_mod, token_of, track_progress}
use mcp_resile.Proxy.Notifications.Runs.{World, track}
use mcp_resile.Proxy.Notifications.Consistent.{
  IsIssued, IsIssued-suc, IsConsistent, token_of-injective, lookup-track, next_is_fresh,
  track-IsConsistent, All-weaken,
}
use mcp_resile.Proxy.Concurrent.{Job, tracking, running, Call, System, track_call}
use mcp_resile.Proxy.Concurrent.Tokens.{
  open_token, target_of, Routed, is_it, holds, held_by, holders, Delivers, token_of-nonempty,
}

-- Tracking: nothing happens if the client asked for no progress; otherwise the call gets the next
-- token, which is mapped to its target, and every other token is mapped as before.
pub record Opens (j : Job) (w : World) (token : Bytes) (v : World) : Type 0 where
  pub consistent : IsConsistent v
  pub next_token : token ≡ token_of (suc w.issued)
  pub issued : v.issued ≡ suc w.issued
  pub timers : v.timers ≡ w.timers
  pub mapped : lookup token v.router.in_flight ≡ target_of j
  pub others :
      (x : Bytes)
      → x ≢ token_of (suc w.issued)
      → lookup x v.router.in_flight ≡ lookup x w.router.in_flight

abbrev pub Untracked : Job → World → Bytes × World → Type 0
Untracked j w (token, v) = (token ≡ []) × (v ≡ w) × (target_of j ≡ none)

track-Opens :
    (j : Job) (session : ℕ) (original : ProgressToken) (w : World)
    → target_of j ≡ some (record { session = session; original = original })
    → IsConsistent w
    → suc w.issued < uint64_mod
    → Opens j w (track_progress session (some original) w.router).0 (track session original w)
track-Opens j session original w e v bound =
    let small : suc w.issued % uint64_mod ≡ suc w.issued = omega arith in
    let token : (track_progress session (some original) w.router).0 ≡ token_of (suc w.issued) =
      unfold track_progress in ap token_of (omega (arith, v.counter)) in
    record {
      consistent = track-IsConsistent session original w v;
      next_token = token;
      issued = unfold track in refl;
      timers = unfold track in refl;
      mapped = rw token (
          lookup-track session original w (token_of (suc w.issued)) v
          ∙ rw (small, str_eq_refl (token_of (suc w.issued)), e) refl);
      others = λ x differs.
          let other : str_eq (token_of (suc w.issued)) x ≡ false =
            not-true→false _ (λ t. differs (sym ((str_eq_iff (token_of (suc w.issued)) x).0 t))) in
          lookup-track session original w x v ∙ rw (small, other) refl;
    }

pub track_call-Opens :
    (j : Job) (w : World)
    → IsConsistent w
    → (track_call j.session j.params w).1.issued < uint64_mod
    → Untracked j w (track_call j.session j.params w)
      ⊎ Opens j w (track_call j.session j.params w).0 (track_call j.session j.params w).1
track_call-Opens j w v bound = elim (Option-cases j.session) [
  | inl none_there ↦ inl (rw none_there (refl, refl, refl))
  | inr (session, e) ↦ elim (Option-cases j.params.progress_token) [
    | inl unasked ↦ inl (rw (e, unasked) (refl, refl, refl))
    | inr (original, f) ↦
        let asked : target_of j ≡ some (record { session = session; original = original }) =
          rw (e, f) refl in
        let same : track_call j.session j.params w
            ≡ ((track_progress session (some original) w.router).0, track session original w) =
          rw (e, f) refl in
        let room : (track session original w).issued < uint64_mod = rw same at bound in
        inr (rw same (track-Opens j session original w asked v (unfold track in room)))
  ]
]

-- A token that has been issued is not the next one.
older :
    (x : Bytes) (w : World)
    → IsConsistent w
    → suc w.issued < uint64_mod
    → (x ≡ []) ⊎ IsIssued w.issued x
    → x ≢ token_of (suc w.issued)
older x w c bound (inl empty) e = token_of-nonempty (suc w.issued) (sym e ∙ empty)
older x w c bound (inr i) e = next_is_fresh w c bound (rw e at i)

Routed-Opens :
    (j : Job) (w : World) (token : Bytes) (v : World) (k : Job) (o : Option Bytes)
    → Opens j w token v
    → IsConsistent w
    → suc w.issued < uint64_mod
    → Routed w k o
    → Routed v k o
Routed-Opens j w token v k none h c bound r = tt
Routed-Opens j w token v k (some x) h c bound (found, known) = (
  h.others x (older x w c bound known) ∙ found,
  elim known [ inl e ↦ inl e | inr i ↦ inr (rw h.issued (IsIssued-suc w.issued x i)) ],
)

is_it-le : (x : Bytes) (o : Option Bytes) → is_it x o ≤ 1
is_it-le x none = omega arith
is_it-le x (some token) = ground arith

own_token :
    (n j : ℕ) (token : Bytes) → token ≡ token_of n → n ≢ j → is_it (token_of j) (some token) ≡ 0
own_token n j token e differs =
    let other : str_eq token (token_of j) ≡ false =
      not-true→false _
        (λ t. differs (token_of-injective n j (sym e ∙ (str_eq_iff token (token_of j)).0 t))) in
    rw other refl

own_held : (n : ℕ) (token : Bytes) → token ≡ token_of n → is_it (token_of n) (some token) ≡ 1
own_held n token e = rw (e, str_eq_refl (token_of n)) refl

pub opened-Delivers :
    (y : System) (before : List Call) (c : Call) (after : List Call) (token : Bytes) (v : World)
    → y.calls ≡ before ++ c ∷ after
    → c.place ≡ tracking
    → Delivers y
    → Opens c.job y.shared.progress token v
    → suc y.shared.progress.issued < uint64_mod
    → Delivers (record {
      shared = record y.shared { progress = v };
      calls = before ++ record c { place = running token } ∷ after;
    })
opened-Delivers y before c after token v e at_tracking d h bound =
    let w = y.shared.progress in
    let z : System = record {
      shared = record y.shared { progress = v };
      calls = before ++ record c { place = running token } ∷ after;
    } in
    let (_, earlier, later) =
      All-middle (λ (b : Call). Routed w b.job (open_token b.place)) before c after
        (rw e at d.routed) in
    let keeps = λ (b : Call) (r : Routed w b.job (open_token b.place)).
      Routed-Opens c.job w token v b.job (open_token b.place) h d.consistent bound r in
    let one_more : (x : Bytes) → holders x z ≡ holders x y + is_it x (some token) = λ x.
      let closed : holds x c ≡ 0 = rw at_tracking refl in
      omega (
        arith,
        closed,
        ap (total (holds x)) e,
        total-middle (holds x) before c after,
        total-middle (holds x) before (record c { place = running token }) after,
        ap (total (held_by x)) h.timers,
      ) in
    let only_own = λ (j : ℕ) (differs : suc w.issued ≢ j).
      own_token (suc w.issued) j token h.next_token differs in
    record {
      consistent = h.consistent;
      unique = λ j. elim (ℕ_discrete (suc w.issued) j) [
        | yes e ↦ omega (
          arith,
          one_more (token_of j),
          d.fresh j (omega (arith, e)),
          is_it-le (token_of j) (some token),
        )
        | no differs ↦ omega (arith, one_more (token_of j), only_own j differs, d.unique j)
      ];
      fresh = λ j new.
          let newer : suc w.issued < j = rw h.issued at new in
          omega (
            arith,
            one_more (token_of j),
            only_own j (λ e. omega (arith, e, newer)),
            d.fresh j (omega (arith, newer)),
          );
      held = λ j target found. elim (ℕ_discrete (suc w.issued) j) [
        | yes e ↦
            omega (arith, one_more (token_of j), own_held j token (h.next_token ∙ ap token_of e))
        | no differs ↦
            let before_it =
              h.others (token_of j)
                (λ same. differs (sym (token_of-injective j (suc w.issued) same))) in
            omega (arith, one_more (token_of j), d.held j target (sym before_it ∙ found))
      ];
      routed = All-append _ before _ (All-weaken _ _ keeps before earlier) (
        (h.mapped, inr (suc w.issued, rw h.issued (omega arith), h.next_token)),
        All-weaken _ _ keeps after later,
      );
    }
