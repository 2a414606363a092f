-- ===== src/Proxy/Middleware.antt =====
-- Middleware, internal/proxy/proxy.go: what is done with a client's request, by its method.
pub mod Accounting
pub mod Enforced
use mcp_resile.Base.{ℕ, Bytes, codes, Option, List, [], ◌∷◌, str_eq, if◌then◌else◌}
use mcp_resile.Errors.{Result}
use mcp_resile.Proxy.Schema.{Tool}
use mcp_resile.Proxy.Upstream.{CallParams}
use mcp_resile.Proxy.Listing.{list_tools}
use mcp_resile.Proxy.Dispatch.{Gateway, Setup, Answer, call_tool}

abbrev pub method_list_tools : Bytes
method_list_tools = codes "tools/list"

abbrev pub method_call_tool : Bytes
method_call_tool = codes "tools/call"

pub record Request : Type 0 where
  pub method : Bytes
  pub params : Option CallParams
  pub session : Option ℕ

-- `handed_on` is next's own answer.
pub data Served : Type 0 where
  listed : Result (List Tool) → Served
  called : Answer → Served
  handed_on : Served

module _ {W : Type 0} (s : Setup W) where
  unfoldable pub handle : Request → Gateway W → Served × Gateway W
  handle request g =
      let (reply, cache, w) = list_tools s.json s.upstream s.routes g.cache g.world in
      let (answer, after) = call_tool s request.params request.session g in
      if str_eq request.method method_list_tools
      then (listed reply, record g { cache = cache; world = w })
      else if str_eq request.method method_call_tool
      then (called answer, after)
      else (handed_on, g)

  -- The requests of a run, one after the other.
  unfoldable pub serve : List Request → Gateway W → Gateway W
  unfolding handle
  serve [] g = g
  serve (r ∷ rs) g = serve rs (handle r g).1
