-- ===== src/Tests/Serving.antt =====
-- HTTP requests to a gateway whose SDK keeps a session.
use mcp_resile.Base.{
  List, ◌∷◌, ◌≡◌, ℕ, Bytes, codes, some, [], if◌then◌else◌, ◌==◌, ◌≡◌, refl, str_eq,
}
use mcp_resile.Proxy.Route.Capabilities.{only_logging}
use mcp_resile.Startup.{Started, start}
use mcp_resile.Tests.Samples.{document}
use mcp_resile.Tests.Dispatch.{setup, session}
use mcp_resile.Tests.Auth.{with_token, encode_message}
use mcp_resile.Auth
use mcp_resile.Auth.{extract_token, is_allowed, middleware, serve_http}
use mcp_resile.Auth.Runs.{Admits, admitted}
use mcp_resile.Proxy.Middleware.{Request, serve}
use mcp_resile.Proxy.Middleware.Accounting.{IsAccounted}
use mcp_resile.Ingress.{Mcp, Implementation, Serving, responds, passes_on, run_serving, passed_on}
use mcp_resile.Startup.Serving.{
  all_passed_on, initial_behind, gateway_handler, initial_gateway, http_handler, serve_http-serve,
}
use mcp_resile.Tests.Startup.{first_answers, slashes}

-- The text "session" carries the requests of a session, and any other text none.
abbrev read_body : Auth.Request → List Request
read_body request = if str_eq request.body (codes "session") then session else []

abbrev accepted : Auth.Response
accepted = record { content_type = []; status = 200; body = [] }

pass_all : List Request → ℕ → Serving ℕ
pass_all [] session = responds accepted session
pass_all (r ∷ rs) session = passes_on r (λ answer. pass_all rs session)

-- The first request opens a session and carries nothing; until then there is no session.
abbrev sessional : Mcp Implementation ℕ
sessional = record {
  new_server = λ who options. who;
  new_streamable_http_handler = λ get_server request session.
      if session == 0 then responds accepted 1 else pass_all (read_body request) session;
}

abbrev running : Started ℕ
running = start slashes setup first_answers (λ session. some only_logging) 9 document 0

abbrev session_with : Bytes → Auth.Request
session_with token = record (with_token token) { body = codes "session" }

-- The second client has no valid token.
abbrev three_requests : List Auth.Request
three_requests =
    session_with (codes "Bearer secret")
    ∷ session_with (codes "guess")
    ∷ session_with (codes "secret")
    ∷ []

serve_http-serve_example :
    Admits document.auth three_requests (admitted document.auth three_requests)
    × ((serve_http
          (http_handler encode_message sessional document running)
          three_requests
          (initial_behind 0 running)).1
        ≡ (serve_http
            (gateway_handler sessional running)
            (admitted document.auth three_requests)
            (initial_behind 0 running)).1)
    × ((serve_http
          (http_handler encode_message sessional document running)
          three_requests
          (initial_behind 0 running)).1.gateway
        ≡ serve running.setup
            (all_passed_on sessional running
              (admitted document.auth three_requests)
              (initial_behind 0 running))
            (initial_gateway running))
    × IsAccounted
        (serve_http
          (http_handler encode_message sessional document running)
          three_requests
          (initial_behind 0 running)).1.gateway
serve_http-serve_example =
    serve_http-serve encode_message sessional document running three_requests 0

-- Just the requests of the last client reach the gateway.
last_passed_on :
    all_passed_on sessional running
      (admitted document.auth three_requests)
      (initial_behind 0 running)
    ≡ session
unfolding all_passed_on admitted pass_all passed_on str_eq extract_token is_allowed run_serving
last_passed_on = refl
