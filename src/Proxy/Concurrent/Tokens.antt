-- ===== src/Proxy/Concurrent/Tokens.antt =====
-- The progress tokens of calls that run at the same time, internal/proxy/proxy.go and
-- internal/proxy/notifications.go: who holds a token, and where its notifications go.
pub mod Passing
pub mod Opening
pub mod Firing
pub mod Growth
pub mod Delivery
use native.Mathlib.Decide.{ℕ_discrete}
use mcp_resile.Base.{
  ℕ, suc, ◌+◌, ◌%◌, ◌≤◌, ◌<◌, Bytes, Bool, true, false, Option, none, some, List, [], ◌∷◌, ◌++◌,
  is_empty, if◌then◌else◌, ◌≡◌, ◌≢◌, ◌∙◌, sym, ap, refl, ◌⊎◌, inl, inr, All, All-append, All-middle,
  total, total-append, total-middle, total-eq-zero, str_eq, str_eq_iff, str_eq_refl, not-true→false,
  arith, Option-cases, Bool-cases,
}
use mcp_resile.Base.Dict.{lookup, lookup-delete}
use mcp_resile.Errors.{GoError, Result, ok, err}
use mcp_resile.Proxy.Route.{Route, match_route}
use mcp_resile.Proxy.Schema.{Tool}
use mcp_resile.Proxy.Upstream.{CallParams}
use mcp_resile.Proxy.Notifications.{
  ProgressToken, text, Target, uint64_mod, token_of, track_progress, forget, handle_progress,
}
use mcp_resile.Proxy.Notifications.Runs.{World, Timer, progress_cleanup_delay, track, fire, elapse}
use mcp_resile.Proxy.Notifications.Consistent.{
  IsIssued, IsIssued-suc, IsConsistent, token_of-injective, lookup-track, next_is_fresh,
  track-IsConsistent, All-weaken, All-drop_middle,
}
use mcp_resile.Proxy.Dispatch.{Setup, Reply}
use mcp_resile.Proxy.Concurrent.{
  Shared, Job, Place, resolving, fetching, tracking, filling, checking, running, closing, recording,
  logging, finished, Call, Input, System, track_call, close_call, move, arrive, advance,
  after_lookup, after_listing, after_validation, taken_on,
}
use mcp_resile.Proxy.Concurrent.Runs.{
  Step, arrives, goes_on, lists_tool, fires, elapses, idle, Reach, start, and_then,
}
use mcp_resile.Proxy.Concurrent.Moves.{
  Moves, waits, looks_up, listed, filled, fills, checks, tracks, answered, closes, records, logs,
  move-Moves,
}

-- The token of a call whose backend may still report progress.
abbrev pub open_token : Place → Option Bytes
open_token (running token) = some token
open_token (closing token reply) = some token
open_token _ = none

abbrev pub target_for : Option ℕ → Option ProgressToken → Option Target
target_for none token = none
target_for (some session) none = none
target_for (some session) (some original) = some (record { session = session; original = original })

-- Where the client wants its progress: its session, and its own token; `none` if it asked for none.
abbrev pub target_of : Job → Option Target
target_of j = target_for j.session j.params.progress_token

-- The token of an open call is mapped to the call's own target, and is one that was issued, or empty.
abbrev pub Routed : World → Job → Option Bytes → Type 0
Routed w j none = Unit
Routed w j (some token) =
    (lookup token w.router.in_flight ≡ target_of j) × ((token ≡ []) ⊎ IsIssued w.issued token)

abbrev pub is_it : Bytes → Option Bytes → ℕ
is_it x none = 0
is_it x (some token) = if str_eq token x then 1 else 0

-- How many open calls have the token, and how many timers.
abbrev pub holds : Bytes → Call → ℕ
holds x c = is_it x (open_token c.place)

abbrev pub held_by : Bytes → Timer → ℕ
held_by x t = is_it x (some t.token)

abbrev pub holders : Bytes → System → ℕ
holders x y = total (holds x) y.calls + total (held_by x) y.shared.progress.timers

pub record Delivers (y : System) : Type 0 where
  pub consistent : IsConsistent y.shared.progress
  pub unique : (j : ℕ) → holders (token_of j) y ≤ 1
  pub fresh : (j : ℕ) → y.shared.progress.issued < j → holders (token_of j) y ≡ 0
  pub held :
      (j : ℕ) (v : Target)
      → lookup (token_of j) y.shared.progress.router.in_flight ≡ some v
      → 1 ≤ holders (token_of j) y
  pub routed : All (λ (c : Call). Routed y.shared.progress c.job (open_token c.place)) y.calls

pub token_of-nonempty : (n : ℕ) → token_of n ≢ []
unfolding token_of
token_of-nonempty n e = cc
