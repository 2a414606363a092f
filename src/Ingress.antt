-- ===== src/Ingress.antt =====
-- internal/ingress/server.go, and the version of internal/version/version.go. The MCP SDK's server is
-- a parameter, of any type.
use mcp_resile.Base.{Bytes, codes, List, [], ◌∷◌}
use mcp_resile.Auth
use mcp_resile.Auth.{Response, Handler}
use mcp_resile.Proxy.Route.Capabilities.{ServerCapabilities}
use mcp_resile.Proxy.Dispatch.{Gateway}
use mcp_resile.Proxy.Middleware.{Request, Served}

-- version.Version, where the build does not override it.
abbrev pub version : Bytes
version = codes "dev"

pub record Implementation : Type 0 where
  pub name : Bytes
  pub version : Bytes

pub record ServerOptions : Type 0 where
  pub capabilities : ServerCapabilities

-- mcp.MethodHandler, over the state of the gateway.
abbrev pub MethodHandler : Type 0 → Type 0
MethodHandler W = Request → Gateway W → Served × Gateway W

-- What the SDK does with an HTTP request: it passes MCP requests on to the server's receiving handler,
-- one after the other, and goes on with their answers, until it responds. `Sessions` is what it keeps.
pub data Serving (Sessions : Type 0) : Type 0 where
  responds : Response → Sessions → Serving Sessions
  passes_on : Request → (Served → Serving Sessions) → Serving Sessions

-- mcp.NewServer, and mcp.NewStreamableHTTPHandler without options.
pub record Mcp (Server Sessions : Type 0) : Type 0 where
  pub new_server : Implementation → ServerOptions → Server
  pub new_streamable_http_handler :
      (Auth.Request → Server) → Auth.Request → Sessions → Serving Sessions

-- A server after Server.AddReceivingMiddleware, with the handler that the middleware makes.
pub record Receiving (Server W : Type 0) : Type 0 where
  pub server : Server
  pub receive : MethodHandler W

-- What lies behind the HTTP handler.
pub record Behind (Sessions W : Type 0) : Type 0 where
  pub sessions : Sessions
  pub gateway : Gateway W

module _ {Sessions W : Type 0} (receive : MethodHandler W) where
  unfoldable pub run_serving : Serving Sessions → Gateway W → Response × Behind Sessions W
  run_serving (responds response sessions) g =
      (response, record { sessions = sessions; gateway = g })
  run_serving (passes_on request rest) g =
      let (answer, after) = receive request g in run_serving (rest answer) after

  -- The MCP requests that are passed on.
  unfoldable pub passed_on : Serving Sessions → Gateway W → List Request
  passed_on (responds response sessions) g = []
  passed_on (passes_on request rest) g =
      let (answer, after) = receive request g in request ∷ passed_on (rest answer) after

module _ {Server Sessions : Type 0} (mcp : Mcp Server Sessions) where
  abbrev pub new_server : Bytes → Bytes → ServerCapabilities → Server
  new_server name version caps =
      mcp.new_server (record { name = name; version = version }) (record { capabilities = caps })

  abbrev pub new_handler : {W : Type 0} → Receiving Server W → Handler (Behind Sessions W)
  new_handler server request behind =
      run_serving server.receive
        (mcp.new_streamable_http_handler (λ any. server.server) request behind.sessions)
        behind.gateway
