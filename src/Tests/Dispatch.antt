-- ===== src/Tests/Dispatch.antt =====
-- Calls of a gateway with two backends.
use mcp_resile.Base.{
  List, ℕ, suc, Bytes, codes, none, some, [], ◌∷◌, ◌≡◌, refl, inl, pos, str_eq, has_prefix,
}
use mcp_resile.Base.Dict.{lookup}
use mcp_resile.Errors.{ok, err, wrap, rpc, circuit_open, errors_as, errors_is, first_match}
use mcp_resile.Proxy.Errors.{map_resilience_error, service_unavailable}
use mcp_resile.Proxy.Errors.Mapping.{IsRejection}
use mcp_resile.Proxy.Route.{match_route, best_route}
use mcp_resile.Proxy.Notifications.{new_router}
use mcp_resile.Proxy.Schema.{compile_schema, validate_arguments, invalid_params_error}
use mcp_resile.Proxy.Upstream.{Upstream, CallParams}
use mcp_resile.Proxy.Dispatch.{
  Gateway, Setup, answered, resolve_tool, run_dispatch, dispatch_tool, call_tool,
}
use mcp_resile.Proxy.Dispatch.Errors.{IsInvalidParams}
use mcp_resile.Proxy.Dispatch.Calls.{
  IsRecorded, call_tool-IsRecorded, dispatch_tool-not_rejected, dispatch_tool-violation,
}
use mcp_resile.Proxy.Middleware.{Request, called, handle, serve}
use mcp_resile.Proxy.Middleware.Enforced.{list_request, call_request, list_then_call}
use mcp_resile.Proxy.Middleware.Accounting.{IsAccounted, serve-IsAccounted}
use mcp_resile.Proxy.Listing.{list_tools, list_from, prefixed}
use mcp_resile.Proxy.Schema.Caching.{schema_of}
use mcp_resile.Tests.Samples.{
  exact_match, whole_floats, plain_json, routes, files_route, search_route, read_tool,
}

-- Every call finds the circuit open; the number counts the requests.
abbrev pub closed_door : Upstream ℕ
closed_door = record {
  list_tools = λ backend count. (ok (read_tool ∷ []), suc count);
  call_tool = λ backend params count. (err (wrap (codes "calling") circuit_open), suc count);
}

abbrev pub setup : Setup ℕ
setup = record {
  routes = routes;
  policies = [];
  max_response_bytes = pos 100;
  path_match = exact_match;
  floats = whole_floats;
  json = plain_json;
  upstream = closed_door;
  resile_do = λ options dispatch count. dispatch count;
}

abbrev idle : Gateway ℕ
idle = record {
  cache = (codes "fs_read", codes "schema") ∷ [];
  router = new_router;
  cleanups = [];
  requests = [];
  log = [];
  world = 0;
}

abbrev pub call : Bytes → Bytes → CallParams
call name arguments = record {
  meta = [];
  progress_token = none;
  name = name;
  arguments = arguments;
}

pub files_matched : match_route setup.routes (codes "fs_read") ≡ some (files_route, codes "read")
unfolding match_route best_route has_prefix
files_matched = refl

read_unmatched : match_route setup.routes (codes "read") ≡ none
unfolding match_route best_route has_prefix
read_unmatched = refl

call_tool-IsRecorded_example :
    IsRecorded idle
      (call_tool setup (some (call (codes "fs_read") (codes "{}"))) none idle).1
      (codes "fs_read")
      (codes "files")
call_tool-IsRecorded_example =
    call_tool-IsRecorded setup (call (codes "fs_read") (codes "{}")) none idle files_route
      (codes "read") files_matched

circuit_reported :
    (dispatch_tool setup files_route
      (codes "read")
      (call (codes "fs_read") (codes "{}"))
      none
      idle).0
    ≡ err (rpc service_unavailable)
unfolding dispatch_tool resolve_tool lookup str_eq validate_arguments run_dispatch
    map_resilience_error errors_as errors_is first_match
circuit_reported = refl

dispatch_tool-not_rejected_test : ¬ IsRejection (rpc service_unavailable)
dispatch_tool-not_rejected_test =
    dispatch_tool-not_rejected setup files_route (codes "read")
      (call (codes "fs_read") (codes "{}")) none idle (rpc service_unavailable) circuit_reported

pub schema_cached : lookup (codes "fs_read") idle.cache ≡ some (codes "schema")
unfolding lookup str_eq
schema_cached = refl

pub bad_refused :
    validate_arguments plain_json (codes "schema") (codes "read") (codes "bad")
    ≡ some (invalid_params_error (codes "read") (codes "no"))
unfolding validate_arguments str_eq
bad_refused = refl

dispatch_tool-violation_test :
    (dispatch_tool setup files_route (codes "read") (call (codes "fs_read") (codes "bad")) none idle
      ≡ (err (invalid_params_error (codes "read") (codes "no")), idle))
    × IsInvalidParams (codes "read") (invalid_params_error (codes "read") (codes "no"))
dispatch_tool-violation_test =
    dispatch_tool-violation setup files_route (codes "read") (call (codes "fs_read") (codes "bad"))
      none idle (codes "schema") (invalid_params_error (codes "read") (codes "no")) schema_cached
      bad_refused

abbrev pub fresh : Gateway ℕ
fresh = record {
  cache = [];
  router = new_router;
  cleanups = [];
  requests = [];
  log = [];
  world = 0;
}

-- A listing, a call, and a request that is not for the gateway.
abbrev pub session : List Request
session =
    record { method = codes "tools/list"; params = none; session = some 1 }
    ∷ record {
      method = codes "tools/call";
      params = some (call (codes "fs_read") (codes "bad"));
      session = some 1;
    }
    ∷ record { method = codes "ping"; params = none; session = some 1 }
    ∷ []

serve-IsAccounted_example : IsAccounted (serve setup session fresh)
serve-IsAccounted_example =
    serve-IsAccounted setup session fresh (record { agree = refl; coarse = tt; levels = tt })

both_listed :
    (list_tools setup.json setup.upstream setup.routes fresh.cache fresh.world).0
    ≡ ok (prefixed files_route read_tool ∷ prefixed search_route read_tool ∷ [])
unfolding list_tools list_from
both_listed = refl

schema_compiles : schema_of plain_json (prefixed files_route read_tool) ≡ some (codes "schema")
unfolding compile_schema
schema_compiles = refl

web_differs : (codes "web_read" ≡ codes "fs_read") → ⊥
web_differs e = cc

list_then_call_example :
    let listed = (handle setup (list_request (some 1)) fresh).1 in
    let request = call_request (some 1) (call (codes "fs_read") (codes "bad")) in
    ((handle setup request listed).0
      ≡ called (answered (err (invalid_params_error (codes "read") (codes "no")))))
    × ((handle setup request listed).1.world ≡ listed.world)
unfolding str_eq
list_then_call_example =
    list_then_call setup (some 1) fresh [] (prefixed search_route read_tool ∷ [])
      (prefixed files_route read_tool) (codes "schema") (codes "read")
      (call (codes "fs_read") (codes "bad")) files_route
      (invalid_params_error (codes "read") (codes "no")) both_listed schema_compiles
      (inl web_differs, tt) refl files_matched bad_refused
