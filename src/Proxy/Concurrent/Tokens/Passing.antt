-- ===== src/Proxy/Concurrent/Tokens/Passing.antt =====
-- The pieces of a call that track nothing, and its progress token.
use mcp_resile.Base.{
  ℕ, ◌+◌, Bytes, Option, none, some, List, [], ◌∷◌, ◌++◌, ◌≡◌, ap, refl, ◌⊎◌, inl, inr, All-append,
  All-middle, str_eq, total, total-middle, arith,
}
use mcp_resile.Errors.{GoError, Result, ok, err}
use mcp_resile.Proxy.Schema.{Tool}
use mcp_resile.Proxy.Notifications.{token_of}
use mcp_resile.Proxy.Notifications.Runs.{World}
use mcp_resile.Proxy.Notifications.Consistent.{IsIssued, IsConsistent, All-weaken}
use mcp_resile.Proxy.Dispatch.{Setup, Reply}
use mcp_resile.Proxy.Concurrent.{
  Shared, Job, Place, tracking, running, closing, recording, Call, System, track_call, close_call,
  after_lookup, after_listing, after_validation,
}
use mcp_resile.Proxy.Concurrent.Moves.{
  Moves, waits, looks_up, listed, filled, fills, checks, tracks, answered, closes, records, logs,
}
use mcp_resile.Proxy.Concurrent.Tokens.{
  open_token, Routed, is_it, holds, held_by, holders, Delivers,
}

-- A piece that does not track: the router and the counter are as before, the token goes from a call
-- to a timer if it goes anywhere, and the call's token is still routed.
pub record Passes (j : Job) (w : World) (p : Place) (v : World) (q : Place) : Type 0 where
  pub consistent : IsConsistent v
  pub router : v.router ≡ w.router
  pub issued : v.issued ≡ w.issued
  pub holders :
      (n : ℕ)
      → is_it (token_of n) (open_token q) + total (held_by (token_of n)) v.timers
        ≡ is_it (token_of n) (open_token p) + total (held_by (token_of n)) w.timers
  pub routed : Routed v j (open_token q)

-- A piece that leaves the progress alone.
same-Passes :
    (j : Job) (w : World) (p q : Place)
    → IsConsistent w
    → (open_token q ≡ open_token p)
    → Routed w j (open_token p)
    → Passes j w p w q
same-Passes j w p q v e r = record {
  consistent = v;
  router = refl;
  issued = refl;
  holders = λ n. rw e (omega arith);
  routed = rw e r;
}

nonempty-IsIssued : (n c : ℕ) (s : Bytes) → ((c ∷ s) ≡ []) ⊎ IsIssued n (c ∷ s) → IsIssued n (c ∷ s)
nonempty-IsIssued n c s (inl e) = absurd (cc)
nonempty-IsIssued n c s (inr h) = h

closed-Passes :
    (j : Job) (w : World) (token : Bytes) (reply : Reply)
    → IsConsistent w
    → Routed w j (some token)
    → Passes j w (closing token reply) (close_call token w) (recording reply)
unfolding str_eq
closed-Passes j w [] reply v r = record {
  consistent = v;
  router = refl;
  issued = refl;
  holders = λ n. unfold token_of in omega arith;
  routed = tt;
}
closed-Passes j w (c ∷ token) reply v (found, known) = record {
  consistent = record {
    counter = v.counter;
    keys = v.keys;
    timers = (nonempty-IsIssued w.issued c token known, v.timers);
  };
  router = refl;
  issued = refl;
  holders = λ n. omega arith;
  routed = tt;
}

module _ {W : Type 0} (s : Setup W) where
  lookup-closed : (o : Option Bytes) → open_token (after_lookup s o) ≡ none
  lookup-closed none = refl
  lookup-closed (some c) = refl

  listing-closed : (r : Result (List Tool)) → open_token (after_listing s r) ≡ none
  listing-closed (ok ts) = refl
  listing-closed (err e) = refl

  validation-closed : (o : Option GoError) → open_token (after_validation s o) ≡ none
  validation-closed none = refl
  validation-closed (some e) = refl

  abbrev pub Tracks : Job → Shared → Place → Shared × Place → Type 0
  Tracks j g p r =
      (p ≡ tracking)
      × (r ≡ (
        record g { progress = (track_call j.session j.params g.progress).1 },
        running (track_call j.session j.params g.progress).0,
      ))

  -- A piece tracks, or it is one of the others.
  pub Moves-Passes :
      (j : Job) {g : Shared} {p : Place} {r : Shared × Place}
      → Moves s j g p r
      → IsConsistent g.progress
      → Routed g.progress j (open_token p)
      → Tracks j g p r ⊎ Passes j g.progress p r.0.progress r.1
  Moves-Passes j {g} (waits p) v x = inr (same-Passes j g.progress p p v refl x)
  Moves-Passes j {g} looks_up v x = inr (same-Passes j g.progress _ _ v (lookup-closed _) x)
  Moves-Passes j {g} (listed reply) v x = inr (same-Passes j g.progress _ _ v (listing-closed _) x)
  Moves-Passes j {g} filled v x = inr (same-Passes j g.progress _ _ v refl x)
  Moves-Passes j {g} (fills t ts) v x = inr (same-Passes j g.progress _ _ v refl x)
  Moves-Passes j {g} (checks o) v x = inr (same-Passes j g.progress _ _ v (validation-closed _) x)
  Moves-Passes j {g} tracks v x = inl (refl, refl)
  Moves-Passes j {g} (answered token reply) v x = inr (same-Passes j g.progress _ _ v refl x)
  Moves-Passes j {g} (closes token reply) v x = inr (closed-Passes j g.progress token reply v x)
  Moves-Passes j {g} (records reply) v x = inr (same-Passes j g.progress _ _ v refl x)
  Moves-Passes j {g} (logs reply) v x = inr (same-Passes j g.progress _ _ v refl x)

pub Routed-cong :
    (w v : World) (j : Job) (o : Option Bytes)
    → v.router ≡ w.router
    → v.issued ≡ w.issued
    → Routed w j o
    → Routed v j o
Routed-cong w v j none e f h = tt
Routed-cong w v j (some token) e f h = rw (e, f) h

pub passed-Delivers :
    (y : System) (before : List Call) (c : Call) (after : List Call) (g : Shared) (p : Place)
    → y.calls ≡ before ++ c ∷ after
    → Delivers y
    → Passes c.job y.shared.progress c.place g.progress p
    → Delivers (record { shared = g; calls = before ++ record c { place = p } ∷ after })
passed-Delivers y before c after g p e d h =
    let (_, earlier, later) =
      All-middle (λ (b : Call). Routed y.shared.progress b.job (open_token b.place)) before c after
        (rw e at d.routed) in
    let keeps = λ (b : Call).
      Routed-cong y.shared.progress g.progress b.job (open_token b.place) h.router h.issued in
    let as_many : (n : ℕ)
        → holders (token_of n)
            (record { shared = g; calls = before ++ record c { place = p } ∷ after })
          ≡ holders (token_of n) y =
      λ n.
        let x = token_of n in
        omega (
          arith,
          h.holders n,
          ap (total (holds x)) e,
          total-middle (holds x) before c after,
          total-middle (holds x) before (record c { place = p }) after,
        ) in
    record {
      consistent = h.consistent;
      unique = λ j. omega (arith, as_many j, d.unique j);
      fresh = λ j new. omega (arith, as_many j, d.fresh j (rw h.issued at new));
      held = λ j v found. omega (arith, as_many j, d.held j v (rw h.router at found));
      routed =
          All-append _ before _ (All-weaken _ _ keeps before earlier)
            (h.routed, All-weaken _ _ keeps after later);
    }
