-- ===== src/Proxy/Upstream.antt =====
-- internal/egress/backend.go as the proxy sees it: what a session to a backend does is the SDK's,
-- and a parameter. `W` is whatever the outside world keeps between calls.
use mcp_resile.Base.{ℕ, Bytes, Option, List}
use mcp_resile.Errors.{Result}
use mcp_resile.Proxy.Notifications.{ProgressToken}
use mcp_resile.Proxy.Schema.{Tool}
use mcp_resile.Proxy.Response.{CallToolResult}

-- mcp.CallToolParams. The progress token is an entry of Meta; `meta` is the other entries.
pub record CallParams : Type 0 where
  pub meta : Bytes
  pub progress_token : Option ProgressToken
  pub name : Bytes
  pub arguments : Bytes

-- Backend.ListTools and Backend.CallTool; a nil result is `none`.
pub record Upstream (W : Type 0) : Type 0 where
  pub list_tools : ℕ → W → Result (List Tool) × W
  pub call_tool : ℕ → CallParams → W → Result (Option CallToolResult) × W
