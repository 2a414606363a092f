-- ===== src/Proxy/Concurrent/Runs.antt =====
-- Runs of many calls at the same time, with listings, cleanup timers and the clock, in any order.
use mcp_resile.Base.{ℕ, ◌≤◌, Bytes, Option, List, [], ◌∷◌, ◌++◌, ◌≡◌}
use mcp_resile.Proxy.Notifications.{new_router}
use mcp_resile.Proxy.Notifications.Runs.{Timer, fire, elapse}
use mcp_resile.Proxy.Schema.{Tool, refresh, new_schema_cache}
use mcp_resile.Proxy.Upstream.{CallParams}
use mcp_resile.Proxy.Dispatch.{Setup}
use mcp_resile.Proxy.Concurrent.{Shared, Call, Input, System, arrive, advance}

abbrev pub idle : System
idle = record {
  shared = record {
    cache = new_schema_cache;
    progress = record { router = new_router; clock = 0; timers = []; issued = 0 };
    requests = [];
    log = [];
  };
  calls = [];
}

abbrev pub in_cache : Bytes → Tool → {W : Type 0} → Setup W → Shared → Shared
in_cache name tool s g = record g { cache = refresh s.json name tool g.cache }

module _ {W : Type 0} (s : Setup W) where
  -- A request comes in, a call goes on, a listing stores a tool, a timer fires, or time passes.
  pub data Step (y : System) : System → Type 0 where
    arrives : (params : CallParams) (session : Option ℕ) → Step y (arrive s params session y)
    goes_on :
        (before : List Call) (c : Call) (after : List Call) (input : Input)
        → y.calls ≡ before ++ c ∷ after
        → Step y (advance s before c after input y.shared)
    lists_tool :
        (name : Bytes) (tool : Tool) → Step y (record y { shared = in_cache name tool s y.shared })
    fires :
        (before : List Timer) (t : Timer) (after : List Timer)
        → y.shared.progress.timers ≡ before ++ t ∷ after
        → t.due ≤ y.shared.progress.clock
        → Step y (record y {
          shared = record y.shared { progress = fire t (before ++ after) y.shared.progress };
        })
    elapses :
        (n : ℕ)
        → Step y (record y { shared = record y.shared { progress = elapse n y.shared.progress } })

  pub data Reach : System → Type 0 where
    start : Reach idle
    and_then : {y z : System} → Reach y → Step y z → Reach z

  pub Reach-induction :
      (P : System → Type 0)
      → P idle
      → ((y z : System) → Step y z → P y → P z)
      → (y : System) → Reach y
      → P y
  Reach-induction P base keep y start = base
  Reach-induction P base keep z (and_then {y} r st) = keep y z st (Reach-induction P base keep y r)
