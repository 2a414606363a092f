-- ===== src/Tests/Resolving.antt =====
-- A tool without a schema that is called twice.
use mcp_resile.Base.{ℕ, suc, codes, none, [], ◌∷◌, ◌≡◌, refl}
use mcp_resile.Base.Dict.{lookup}
use mcp_resile.Errors.{ok, err, circuit_open}
use mcp_resile.Proxy.Schema.{Tool, refresh_all, refresh}
use mcp_resile.Proxy.Upstream.{Upstream}
use mcp_resile.Proxy.Dispatch.{Setup, resolve_tool}
use mcp_resile.Proxy.Dispatch.Resolving.{resolve_tool-ResolvesAgain}
use mcp_resile.Tests.Samples.{files_route}
use mcp_resile.Tests.Dispatch.{setup}

abbrev free_tool : Tool
free_tool = record { name = codes "read"; input_schema = none; rest = [] }

-- The number counts the requests.
abbrev lists_free : Upstream ℕ
lists_free = record {
  list_tools = λ backend count. (ok (free_tool ∷ []), suc count);
  call_tool = λ backend params count. (err circuit_open, suc count);
}

abbrev freely : Setup ℕ
freely = record setup { upstream = lists_free }

nothing_resolved : (resolve_tool freely files_route (codes "fs_read") [] 0).0 ≡ ok none
unfolding resolve_tool refresh_all refresh lookup
nothing_resolved = refl

resolve_tool-ResolvesAgain_example :
    (resolve_tool freely files_route
      (codes "fs_read")
      (resolve_tool freely files_route (codes "fs_read") [] 0).1
      (resolve_tool freely files_route (codes "fs_read") [] 0).2).2
    ≡ suc (resolve_tool freely files_route (codes "fs_read") [] 0).2
resolve_tool-ResolvesAgain_example =
    resolve_tool-ResolvesAgain freely files_route (codes "fs_read") [] 0 none nothing_resolved
