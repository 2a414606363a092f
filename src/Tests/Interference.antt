-- ===== src/Tests/Interference.antt =====
-- A call while other goroutines do what they do between its pieces.
use mcp_resile.Base.{ℕ, codes, [], ◌∷◌, ◌++◌, ◌≡◌, none, refl, arith}
use mcp_resile.Errors.{ok}
use mcp_resile.Proxy.Errors.{success}
use mcp_resile.Proxy.Schema.{invalid_params_error}
use mcp_resile.Proxy.Dispatch.{Reply}
use mcp_resile.Proxy.Concurrent.{
  Shared, Job, Place, resolving, fetching, tracking, filling, checking, running, closing, recording,
  logging, finished, Input, silent, lists,
}
use mcp_resile.Proxy.Concurrent.Runs.{idle}
use mcp_resile.Proxy.Concurrent.Finishing.{
  IsAwaited, tools_listed, replied, nothing_asked, rounds, call_finishes,
}
use mcp_resile.Proxy.Concurrent.Isolation.{call_isolated}
use mcp_resile.Proxy.Concurrent.Refusal.{IsRefused, call-IsRefused}
use mcp_resile.Tests.Samples.{files_route, read_tool}
use mcp_resile.Tests.Dispatch.{setup, call, schema_cached, bad_refused}
use mcp_resile.Tests.Concurrent.{job_of, failed}

-- Every backend lists one tool and fails each call; the others count a request between any two pieces.
abbrev answers : ℕ → Place → Input
answers n fetching = lists (ok (read_tool ∷ []))
answers n (running token) = failed
answers n _ = silent

answers-IsAwaited : (n : ℕ) (p : Place) → IsAwaited 1 p (answers n p)
answers-IsAwaited n resolving = nothing_asked _ tt
answers-IsAwaited n fetching = tools_listed _ (omega arith)
answers-IsAwaited n tracking = nothing_asked _ tt
answers-IsAwaited n (filling tools) = nothing_asked _ tt
answers-IsAwaited n (checking resolved) = nothing_asked _ tt
answers-IsAwaited n (running token) = replied token _
answers-IsAwaited n (closing token reply) = nothing_asked _ tt
answers-IsAwaited n (recording reply) = nothing_asked _ tt
answers-IsAwaited n (logging reply) = nothing_asked _ tt
answers-IsAwaited n (finished reply) = nothing_asked _ tt

abbrev counting : ℕ → Shared → Shared
counting n g = record g { requests = g.requests ++ (codes "web_find", success) ∷ [] }

call_finishes_example :
    (reply : Reply) × (g : Shared) × (rounds setup
        (job_of (codes "t") 1)
        counting
        answers
        10
        (idle.shared, resolving)
      ≡ (g, finished reply))
call_finishes_example =
    call_finishes setup (job_of (codes "t") 1) 1 counting answers answers-IsAwaited idle.shared

call_isolated_example :
    (reply : Reply) × (g h : Shared) × (rounds setup
        (job_of (codes "t") 1)
        counting
        answers
        10
        (idle.shared, resolving)
      ≡ (g, finished reply))
    × (rounds setup (job_of (codes "t") 1) (λ n g. g) answers 10 (idle.shared, resolving)
        ≡ (h, finished reply))
call_isolated_example =
    call_isolated setup (job_of (codes "t") 1) 1 counting (λ n g. g) answers answers-IsAwaited
      (λ n t u. refl) (λ n g h e. e) idle.shared idle.shared refl

abbrev refused_job : Job
refused_job = record {
  route = files_route;
  name = codes "read";
  params = call (codes "fs_read") (codes "bad");
  session = none;
}

abbrev with_schema : Shared
with_schema = record idle.shared { cache = (codes "fs_read", codes "schema") ∷ [] }

call-IsRefused_example :
    IsRefused
      (codes "schema")
      (invalid_params_error (codes "read") (codes "no"))
      (rounds setup refused_job counting answers 3 (with_schema, resolving)).1
call-IsRefused_example =
    call-IsRefused setup refused_job (codes "schema")
      (invalid_params_error (codes "read") (codes "no")) counting answers bad_refused (λ n g k. k) 3
      with_schema schema_cached
