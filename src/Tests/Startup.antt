-- ===== src/Tests/Startup.antt =====
-- A gateway that is started while one of its two backends does not answer.
use mcp_resile.Base.{
  Bool, false, ◌⊎◌, ◌+◌, ◌≡◌, ℕ, suc, Bytes, codes, true, Option, none, some, [], if◌then◌else◌,
  ◌==◌, ◌≡◌, refl, pos, str_eq, has_prefix,
}
use mcp_resile.Errors.{ok, circuit_open}
use mcp_resile.Config.Types.{Config}
use mcp_resile.Config.Defaults.{apply_defaults}
use mcp_resile.Config.Validate.{
  validate_auth, validate_backend_ids, validate_prefixes, validate_policies,
}
use mcp_resile.Config.Tags.{
  tags_hold, server_tags, metrics_tags, logging_tags, backend_tags, policy_tags, rate_limit_tags,
}
use mcp_resile.Config.Load
use mcp_resile.Config.Load.{Libraries, validate, parse}
use mcp_resile.Config.Load.Usable.{HonoursTags}
use mcp_resile.Proxy.Dispatch.{Setup}
use mcp_resile.Proxy.Upstream.{Upstream}
use mcp_resile.Egress.{Sdk, Net, try_dial}
use mcp_resile.Egress.Sessions.{opens, closes}
use mcp_resile.Proxy.Route.Capabilities.{only_logging}
use mcp_resile.Startup.{crashed, serve_metrics, metrics_server_for, start, run_loaded, run}
use mcp_resile.Startup.Listening.{IsListening, start-IsListening}
use mcp_resile.Startup.Closing.{initial, routed, run-closes}
use mcp_resile.Startup.Ready.{IsReady, start-IsReady}
use mcp_resile.Tests.Samples.{document, exact_match, whole_floats, plain_json}
use mcp_resile.Tests.Config.{libraries, checks_tags-HonoursTags, document_parses}
use mcp_resile.Tests.Dispatch.{setup}

-- A mux that takes one pattern.
abbrev pub slashes : Bytes → Bool
slashes pattern = str_eq pattern (codes "/metrics")

-- Only the first dial succeeds.
abbrev pub first_answers : Bytes → ℕ → Option ℕ × ℕ
first_answers url count = (if count == 0 then some 1 else none, suc count)

start-IsReady_example :
    IsReady document (start slashes setup first_answers (λ session. some only_logging) 9 document 0)
start-IsReady_example =
    start-IsReady libraries (codes "a") document slashes setup first_answers
      (λ session. some only_logging) 9 0 checks_tags-HonoursTags document_parses

abbrev metered : Config
metered = record document {
  telemetry = record {
    metrics = record { enabled = true; port = pos 9090; path = codes "/metrics" };
    logging = record { level = codes "info"; format = codes "json" };
  };
}

abbrev metered_libraries : Libraries
metered_libraries = record libraries { decode = λ input cfg. Load.stored metered }

metered-HonoursTags : HonoursTags metered_libraries
metered-HonoursTags = checks_tags-HonoursTags

metered_parses : parse metered_libraries (codes "a") ≡ Load.ok metered
unfolding parse validate apply_defaults tags_hold server_tags str_eq metrics_tags logging_tags
    backend_tags policy_tags rate_limit_tags validate_auth validate_backend_ids validate_prefixes
    validate_policies has_prefix
metered_parses = refl

-- Sessions are numbered by the world, and the second one refuses the log level.
abbrev numbered : Sdk ℕ
numbered = record {
  connect = λ url count. (ok count, suc count);
  advertises_logging = λ session. true;
  set_logging_level =
      λ session level count. (if session == 1 then some circuit_open else none, count);
  close_session = λ session count. count;
}

abbrev silent : Upstream (Net ℕ)
silent = record {
  list_tools = λ backend net. (ok [], net);
  call_tool = λ backend params net. (ok none, net);
}

abbrev net_setup : Setup (Net ℕ)
net_setup = record {
  routes = [];
  policies = [];
  max_response_bytes = pos 0;
  path_match = exact_match;
  floats = whole_floats;
  json = plain_json;
  upstream = silent;
  resile_do = λ options dispatch net. dispatch net;
}

start-IsListening_example :
    IsListening
      (start slashes net_setup (try_dial numbered) (λ session. none) 9 metered (initial 0))
    ⊎ ((metered.telemetry.metrics.enabled ≡ true)
        × (slashes metered.telemetry.metrics.path ≡ false)
        × ((run_loaded slashes net_setup numbered
              (λ session. none)
              (λ started count. count)
              9
              (Load.ok metered)
              (initial 0)).0
            ≡ crashed))
start-IsListening_example =
    start-IsListening metered_libraries (codes "a") metered slashes net_setup numbered
      (λ session. none) (λ started count. count) 9 (initial 0) metered-HonoursTags metered_parses

-- A path with an open wildcard is accepted too, and crashes the gateway.
abbrev braced : Config
braced = record metered {
  telemetry = record metered.telemetry {
    metrics = record { enabled = true; port = pos 9090; path = codes "/{" };
  };
}

braced_parses :
    parse (record libraries { decode = λ input cfg. Load.stored braced }) (codes "a")
    ≡ Load.ok braced
unfolding parse validate apply_defaults tags_hold server_tags str_eq metrics_tags logging_tags
    backend_tags policy_tags rate_limit_tags validate_auth validate_backend_ids validate_prefixes
    validate_policies has_prefix
braced_parses = refl

braced_crashes :
    (run_loaded slashes net_setup numbered
      (λ session. none)
      (λ started count. count)
      9
      (Load.ok braced)
      (initial 0)).0
    ≡ crashed
unfolding run_loaded start metrics_server_for serve_metrics str_eq
braced_crashes = refl

run-closes_example :
    (opens 1
        (run slashes net_setup numbered
          (λ session. none)
          (λ started count. count)
          9
          libraries
          (codes "a")
          (initial 0)).1.trace
      ≡ closes 1
          (run slashes net_setup numbered
            (λ session. none)
            (λ started count. count)
            9
            libraries
            (codes "a")
            (initial 0)).1.trace)
    × (opens 1
          (start slashes net_setup
            (try_dial numbered)
            (λ session. none)
            9
            document
            (initial 0)).world.trace
        ≡ closes 1
            (start slashes net_setup
              (try_dial numbered)
              (λ session. none)
              9
              document
              (initial 0)).world.trace
          + routed 1
              (start slashes net_setup
                (try_dial numbered)
                (λ session. none)
                9
                document
                (initial 0)).setup.routes)
run-closes_example =
    run-closes libraries slashes net_setup numbered (λ session. none) (λ started count. count) 9
      (codes "a") 0 1 document
