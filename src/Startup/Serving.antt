-- ===== src/Startup/Serving.antt =====
-- The handler that run, cmd/mcp-resile/main.go, gives to its http.Server: the check of
-- internal/auth/auth.go around the server of internal/ingress/server.go with the middleware of
-- internal/proxy.
use mcp_resile.Base.{Bytes, codes, List, [], ◌∷◌, ◌++◌, ◌≡◌, ◌∙◌, ap, sym, refl}
use mcp_resile.Config.Types.{Config}
use mcp_resile.Auth
use mcp_resile.Auth.{UnauthorizedBody, Handler, middleware, serve_http}
use mcp_resile.Auth.Runs.{Admits, admitted, admitted-Admits, serve_http-admitted}
use mcp_resile.Proxy.Dispatch.{Gateway}
use mcp_resile.Proxy.Middleware.{Request, handle, serve}
use mcp_resile.Ingress.{
  Mcp, Serving, responds, passes_on, Behind, run_serving, passed_on, new_server, new_handler,
  version,
}
use mcp_resile.Proxy.Middleware.Accounting.{IsAccounted, serve-IsAccounted}
use mcp_resile.Proxy.Schema.{new_schema_cache}
use mcp_resile.Startup.{Started}

-- newSchemaCache, and the router, counter and log as run has made them.
abbrev pub initial_gateway : {W : Type 0} → Started W → Gateway W
initial_gateway started = record {
  cache = new_schema_cache;
  router = started.router;
  cleanups = [];
  requests = [];
  log = [];
  world = started.world;
}

abbrev pub server_name : Bytes
server_name = codes "mcp-resile"

-- The server that run creates, with the gateway's middleware, and its handler.
abbrev pub gateway_handler :
    {Server Sessions W : Type 0} → Mcp Server Sessions → Started W → Handler (Behind Sessions W)
gateway_handler mcp started = new_handler mcp (record {
  server = new_server mcp server_name version started.capabilities;
  receive = handle started.setup;
})

-- The handler of the http.Server: the check, and the gateway behind it.
unfoldable pub http_handler :
    {Server Sessions W : Type 0}
    → (UnauthorizedBody → Bytes)
    → Mcp Server Sessions
    → Config
    → Started W
    → Handler (Behind Sessions W)
http_handler encode mcp cfg started = middleware encode cfg.auth (gateway_handler mcp started)

abbrev pub initial_behind : {Sessions W : Type 0} → Sessions → Started W → Behind Sessions W
initial_behind sessions started = record { sessions = sessions; gateway = initial_gateway started }

module _ {Server Sessions W : Type 0} (mcp : Mcp Server Sessions) (started : Started W) where
  -- The MCP requests that the SDK passes on over a run of HTTP requests that all get past the check.
  unfoldable pub all_passed_on : List Auth.Request → Behind Sessions W → List Request
  all_passed_on [] x = []
  all_passed_on (r ∷ rs) x =
      let server = new_server mcp server_name version started.capabilities in
      passed_on (handle started.setup)
        (mcp.new_streamable_http_handler (λ any. server) r x.sessions) x.gateway
      ++ all_passed_on rs (gateway_handler mcp started r x).1

  serve-append :
      (xs ys : List Request) (g : Gateway W)
      → serve started.setup (xs ++ ys) g ≡ serve started.setup ys (serve started.setup xs g)
  unfolding serve
  serve-append [] ys g = refl
  serve-append (x ∷ xs) ys g = serve-append xs ys _

  run_serving-serve :
      (p : Serving Sessions) (g : Gateway W)
      → (run_serving (handle started.setup) p g).1.gateway
        ≡ serve started.setup (passed_on (handle started.setup) p g) g
  unfolding run_serving passed_on serve
  run_serving-serve (responds response sessions) g = refl
  run_serving-serve (passes_on request rest) g =
      run_serving-serve (rest (handle started.setup request g).0) (handle started.setup request g).1

  serve_http-passed_on :
      (rs : List Auth.Request) (x : Behind Sessions W)
      → (serve_http (gateway_handler mcp started) rs x).1.gateway
        ≡ serve started.setup (all_passed_on rs x) x.gateway
  unfolding serve_http all_passed_on
  serve_http-passed_on [] x = unfold serve in refl
  serve_http-passed_on (r ∷ rs) x =
      let server = new_server mcp server_name version started.capabilities in
      let program = mcp.new_streamable_http_handler (λ any. server) r x.sessions in
      let after = (gateway_handler mcp started r x).1 in
      serve_http-passed_on rs after
      ∙ ap (serve started.setup (all_passed_on rs after)) (run_serving-serve program x.gateway)
      ∙ sym (
          serve-append (passed_on (handle started.setup) program x.gateway) (all_passed_on rs after)
            x.gateway)

-- From the listener to the backends: whatever the MCP SDK does with an HTTP request and keeps in its
-- sessions, as long as it reaches the gateway only by passing MCP requests on to the middleware, the
-- check admits just the requests of a run that carry a configured token or need none, in their
-- order; the run leaves the SDK's sessions and the gateway as the admitted requests would have left
-- them without the others; the gateway is as if exactly the MCP requests passed on for those had
-- been served, in their order; and its counter and its log are in step.
pub serve_http-serve :
    {Server Sessions W : Type 0} (encode : UnauthorizedBody → Bytes) (mcp : Mcp Server Sessions)
    (cfg : Config) (started : Started W) (rs : List Auth.Request) (sessions : Sessions)
    → Admits cfg.auth rs (admitted cfg.auth rs)
      × ((serve_http (http_handler encode mcp cfg started) rs (initial_behind sessions started)).1
          ≡ (serve_http
              (gateway_handler mcp started)
              (admitted cfg.auth rs)
              (initial_behind sessions started)).1)
      × ((serve_http
            (http_handler encode mcp cfg started)
            rs
            (initial_behind sessions started)).1.gateway
          ≡ serve started.setup
              (all_passed_on mcp started (admitted cfg.auth rs) (initial_behind sessions started))
              (initial_gateway started))
      × IsAccounted
          (serve_http
            (http_handler encode mcp cfg started)
            rs
            (initial_behind sessions started)).1.gateway
unfolding http_handler
serve_http-serve {Sessions = Sessions} {W = W} encode mcp cfg started rs sessions =
    let x = initial_behind sessions started in
    let accepted = admitted cfg.auth rs in
    let same = serve_http-admitted encode cfg.auth (gateway_handler mcp started) rs x in
    let served =
      ap (λ (y : Behind Sessions W). y.gateway) same
      ∙ serve_http-passed_on mcp started accepted x in
    (
      admitted-Admits cfg.auth rs,
      same,
      served,
      rw served (
          serve-IsAccounted started.setup (all_passed_on mcp started accepted x)
            (initial_gateway started) (record { agree = refl; coarse = tt; levels = tt })),
    )
