-- ===== src/Proxy/Concurrent/Tokens/Growth.antt =====
-- The number of tokens issued, which no piece of a call takes back.
use mcp_resile.Base.{ℕ, ◌≤◌, Bytes, Option, none, some, arith}
use mcp_resile.Proxy.Upstream.{CallParams}
use mcp_resile.Proxy.Notifications.{ProgressToken}
use mcp_resile.Proxy.Notifications.Runs.{World, track, fire, elapse}
use mcp_resile.Proxy.Dispatch.{Setup}
use mcp_resile.Proxy.Concurrent.{Shared, Job, Place, System, track_for, track_call, close_call}
use mcp_resile.Proxy.Concurrent.Runs.{Step, arrives, goes_on, lists_tool, fires, elapses}
use mcp_resile.Proxy.Concurrent.Moves.{
  Moves, waits, looks_up, listed, filled, fills, checks, tracks, answered, closes, records, logs,
  move-Moves,
}

module _ {W : Type 0} (s : Setup W) where
  track_for-grows :
      (session : ℕ) (token : Option ProgressToken) (w : World)
      → w.issued ≤ (track_for session token w).1.issued
  unfolding track
  track_for-grows session none w = omega arith
  track_for-grows session (some original) w = omega arith

  track_call-grows :
      (session : Option ℕ) (params : CallParams) (w : World)
      → w.issued ≤ (track_call session params w).1.issued
  track_call-grows none params w = omega arith
  track_call-grows (some session) params w = track_for-grows session params.progress_token w

  close_call-grows : (token : Bytes) (w : World) → w.issued ≤ (close_call token w).issued
  close_call-grows token w = ground arith

  move_grows :
      {j : Job} {g : Shared} {p : Place} {r : Shared × Place}
      → Moves s j g p r
      → g.progress.issued ≤ r.0.progress.issued
  move_grows (waits p) = omega arith
  move_grows looks_up = omega arith
  move_grows (listed reply) = omega arith
  move_grows filled = omega arith
  move_grows (fills t ts) = omega arith
  move_grows (checks o) = omega arith
  move_grows {j} {g} tracks = track_call-grows j.session j.params g.progress
  move_grows (answered token reply) = omega arith
  move_grows {j} {g} (closes token reply) = close_call-grows token g.progress
  move_grows (records reply) = omega arith
  move_grows (logs reply) = omega arith

  -- A step takes back no token.
  pub issued_grows :
      (y z : System) → Step s y z → y.shared.progress.issued ≤ z.shared.progress.issued
  issued_grows y z (arrives params session) = omega arith
  issued_grows y z (goes_on before c after input e) =
      move_grows (move-Moves s c.job input y.shared c.place)
  issued_grows y z (lists_tool name tool) = omega arith
  issued_grows y z (fires before t after e due) = unfold fire in omega arith
  issued_grows y z (elapses n) = unfold elapse in omega arith
