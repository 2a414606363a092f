-- ===== src/Tests/Concurrent.antt =====
-- Two calls that run at the same time, and one that runs alone.
use mcp_resile.Base.{
  ℕ, Bytes, codes, none, some, List, [], ◌∷◌, ◌≡◌, ◌≤◌, refl, arith, total, str_eq, has_prefix,
}
use mcp_resile.Base.Dict.{lookup, insert}
use mcp_resile.Base.Decimal.{decimal}
use mcp_resile.Errors.{err, wrap, plain, circuit_open}
use mcp_resile.Proxy.Errors.{Outcome}
use mcp_resile.Proxy.Route.{match_route, best_route}
use mcp_resile.Proxy.Notifications.{text, Target, handle_progress, token_of, track_progress}
use mcp_resile.Proxy.Notifications.Runs.{track}
use mcp_resile.Proxy.Upstream.{CallParams}
use mcp_resile.Proxy.Dispatch.{Reply, answered, call_tool}
use mcp_resile.Proxy.Concurrent.{
  Shared, Job, resolving, running, finished, Call, Input, silent, lists, replies, System, arrive,
  advance, move,
}
use mcp_resile.Proxy.Concurrent.Runs.{arrives, goes_on, idle, Reach, start, and_then}
use mcp_resile.Proxy.Concurrent.Tokens.{holders}
use mcp_resile.Proxy.Concurrent.Tokens.Delivery.{Reach-handle_progress, Reach-in_flight}
use mcp_resile.Proxy.Concurrent.Outcomes.{IsClear, Reach-IsClear}
use mcp_resile.Proxy.Concurrent.Accounts.{InStep, counted, Reach-InStep}
use mcp_resile.Metrics.Exported.{exported, shown_as, Reach-requests_total}
use mcp_resile.Proxy.Concurrent.Alone.{Leads}
use mcp_resile.Proxy.Concurrent.Sequential.{seen, alone-call_tool}
use mcp_resile.Tests.Samples.{files_route}
use mcp_resile.Tests.Dispatch.{setup, files_matched}

abbrev pub tracked_call : Bytes → CallParams
tracked_call token = record {
  meta = [];
  progress_token = some (text token);
  name = codes "fs_read";
  arguments = codes "{}";
}

abbrev pub job_of : Bytes → ℕ → Job
job_of token session = record {
  route = files_route;
  name = codes "read";
  params = tracked_call token;
  session = some session;
}

abbrev target : ℕ → Bytes → Target
target session token = record { session = session; original = text token }

-- The first of two calls goes on, or the second.
first_goes_on :
    (input : Input) {g : Shared} {c : Call} {rest : List Call}
    → Reach setup (record { shared = g; calls = c ∷ rest })
    → Reach setup (advance setup [] c rest input g)
first_goes_on input {g} {c} {rest} r = and_then r (goes_on [] c rest input refl)

second_goes_on :
    (input : Input) {g : Shared} {b c : Call} {rest : List Call}
    → Reach setup (record { shared = g; calls = b ∷ c ∷ rest })
    → Reach setup (advance setup (b ∷ []) c rest input g)
second_goes_on input {g} {b} {c} {rest} r = and_then r (goes_on (b ∷ []) c rest input refl)

-- Two clients with the same token of their own.
abbrev both_running : System
both_running = record {
  shared = record idle.shared {
    progress = record {
      router = record {
        server = none;
        next = 2;
        in_flight =
            (codes "mcp-resile-2", target 1 (codes "t"))
            ∷ (codes "mcp-resile-1", target 2 (codes "t"))
            ∷ [];
      };
      clock = 0;
      timers = [];
      issued = 2;
    };
  };
  calls =
      record { job = job_of (codes "t") 2; place = running (codes "mcp-resile-1") }
      ∷ record { job = job_of (codes "t") 1; place = running (codes "mcp-resile-2") }
      ∷ [];
}

reached : Reach setup both_running
unfolding move match_route best_route has_prefix lookup track track_progress token_of insert decimal
    str_eq
reached =
    let came : Reach setup (
        arrive setup (tracked_call (codes "t")) (some 2)
          (arrive setup (tracked_call (codes "t")) (some 1) idle)) =
      and_then (and_then start (arrives (tracked_call (codes "t")) (some 1)))
        (arrives (tracked_call (codes "t")) (some 2)) in
    let looked = second_goes_on silent (first_goes_on silent came) in
    let listed =
      second_goes_on (lists (err (plain []))) (first_goes_on (lists (err (plain []))) looked) in
    let checked = second_goes_on silent (first_goes_on silent listed) in
    second_goes_on silent (first_goes_on silent checked)

Reach-handle_progress_example :
    (handle_progress (text (codes "mcp-resile-2")) both_running.shared.progress.router
      ≡ some (target 1 (codes "t")))
    × ((j : ℕ) → holders (token_of j) both_running ≤ 1)
Reach-handle_progress_example =
    Reach-handle_progress setup both_running reached (omega arith)
      (record { job = job_of (codes "t") 2; place = running (codes "mcp-resile-1") } ∷ [])
      (record { job = job_of (codes "t") 1; place = running (codes "mcp-resile-2") }) []
      (codes "mcp-resile-2") refl refl

first_mapped :
    lookup (codes "mcp-resile-1") both_running.shared.progress.router.in_flight
    ≡ some (target 2 (codes "t"))
unfolding lookup str_eq
first_mapped = refl

Reach-in_flight_example : holders (codes "mcp-resile-1") both_running ≡ 1
Reach-in_flight_example =
    Reach-in_flight setup both_running reached (omega arith) (codes "mcp-resile-1")
      (target 2 (codes "t")) first_mapped

-- The first call's backend has failed, and it has come to its end; the second one's still runs.
abbrev pub failed : Input
failed = replies (err (wrap (codes "calling") circuit_open))

abbrev goes : Input → System → System
goes input y = elim y.calls [ [] ↦ y | c ∷ rest ↦ advance setup [] c rest input y.shared ]

abbrev one_finished : System
one_finished = goes silent (goes silent (goes silent (goes failed both_running)))

finished_reached : Reach setup one_finished
unfolding move
finished_reached =
    first_goes_on silent
      (first_goes_on silent (first_goes_on silent (first_goes_on failed reached)))

Reach-IsClear_example : IsClear setup one_finished
Reach-IsClear_example = Reach-IsClear setup one_finished finished_reached

-- Every request counts, whatever its outcome.
abbrev each : Bytes × Outcome → ℕ
each r = 1

Reach-InStep_example : InStep each one_finished
Reach-InStep_example = Reach-InStep each setup one_finished finished_reached

Reach-requests_total_example :
    ((exported one_finished.shared.requests).requests_total (codes "fs_read") (codes "error")
      ≡ total (counted (shown_as (codes "fs_read") (codes "error"))) one_finished.calls)
    × ((exported one_finished.shared.requests).requests_total
          (codes "fs_read")
          (codes "internal_error")
        ≡ 0)
    × ((exported one_finished.shared.requests).requests_total
          (codes "fs_read")
          (codes "circuit_open")
        ≡ 0)
    × ((exported one_finished.shared.requests).requests_total
          (codes "fs_read")
          (codes "rate_limited")
        ≡ 0)
    × ((exported one_finished.shared.requests).requests_total (codes "fs_read") (codes "timeout")
        ≡ 0)
Reach-requests_total_example =
    Reach-requests_total setup one_finished finished_reached (codes "fs_read") (codes "error")

alone-call_tool_example :
    (reply : Reply) × (g : Shared) × (w : ℕ) × Leads setup
      (job_of (codes "t") 1)
      (idle.shared, resolving, 0)
      (g, finished reply, w)
    × (call_tool setup
          (some (tracked_call (codes "t")))
          (some 1)
          (seen setup (job_of (codes "t") 1) idle.shared 0)
        ≡ (answered reply, seen setup (job_of (codes "t") 1) g w))
alone-call_tool_example = alone-call_tool setup (job_of (codes "t") 1) idle.shared 0 files_matched
