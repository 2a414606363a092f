-- ===== src/Tests/Notifications.antt =====
-- A call that asks for progress, from its start to its cleanup.
use mcp_resile.Base.{codes, some, [], ◌≡◌, arith, str_eq}
use mcp_resile.Base.Dict.{lookup}
use mcp_resile.Base.Decimal.{decimal}
use mcp_resile.Proxy.Notifications.{
  ProgressToken, text, Target, new_router, track_progress, handle_progress, token_of,
}
use mcp_resile.Proxy.Notifications.Runs.{
  World, track, finish, elapse, Run, here, and_then, finishes, elapses,
}
use mcp_resile.Proxy.Notifications.Consistent.{IsConsistent, track-IsConsistent, Run-IsConsistent}
use mcp_resile.Proxy.Notifications.Delivery.{progress_delivered, progress_private}

abbrev start : World
start = record { router = new_router; clock = 0; timers = []; issued = 0 }

start-IsConsistent : IsConsistent start
unfolding lookup
start-IsConsistent = record { counter = omega arith; keys = λ token v e. absurd (cc); timers = tt }

abbrev client_token : ProgressToken
client_token = text (codes "p1")

abbrev client : Target
client = record { session = 7; original = client_token }

-- The call is tracked, ends, and a second passes.
abbrev later : World
later = elapse 1000000000 (finish 1 (track 7 client_token start))

one_call : Run 1 0 (track 7 client_token start) later
unfolding track
one_call =
    and_then (and_then here (finishes 1 (omega arith) (λ _. omega arith))) (elapses 1000000000)

Run-IsConsistent_test : IsConsistent later
Run-IsConsistent_test =
    Run-IsConsistent (track 7 client_token start) later one_call
      (track-IsConsistent 7 client_token start start-IsConsistent)

mapped_later :
    handle_progress (text (track_progress 7 (some client_token) new_router).0) later.router
    ≡ some client
unfolding track finish elapse handle_progress track_progress lookup str_eq token_of decimal
mapped_later =
    progress_delivered start later 7 0 client_token start-IsConsistent one_call (omega arith)
      (omega arith) (omega arith)

progress_private_example : client ≡ client
unfolding track finish elapse
progress_private_example =
    progress_private start later 7 0 client_token client start-IsConsistent one_call (omega arith)
      (omega arith) mapped_later

progress_delivered_example :
    handle_progress (text (track_progress 7 (some client_token) new_router).0) later.router
    ≡ some client
unfolding track finish elapse
progress_delivered_example =
    progress_delivered start later 7 0 client_token start-IsConsistent one_call (omega arith)
      (omega arith) (omega arith)
