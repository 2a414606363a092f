-- ===== src/Tests/Metrics.antt =====
-- The collectors after a retried call whose breaker opens.
use mcp_resile.Base.{codes, List, [], ◌∷◌}
use mcp_resile.Metrics.{unhealthy, new_metrics, Call, request, attempt, watch, health, after_calls}
use mcp_resile.Metrics.Counts.{IsTally, after_calls-IsTally}

abbrev calls : List Call
calls =
    watch (codes "read")
    ∷ attempt (codes "fs_read") 0
    ∷ attempt (codes "fs_read") 1
    ∷ health (codes "read") unhealthy
    ∷ request (codes "fs_read") (codes "error")
    ∷ []

after_calls-IsTally_example : IsTally calls new_metrics (after_calls calls new_metrics)
after_calls-IsTally_example = after_calls-IsTally calls new_metrics
