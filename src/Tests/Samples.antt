-- ===== src/Tests/Samples.antt =====
-- Values that the runs share: libraries with fixed answers, a configuration, and two backends.
use mcp_resile.Base.{
  Bytes, codes, true, false, none, some, List, [], ◌∷◌, pos, str_eq, if◌then◌else◌,
}
use mcp_resile.Base.Float.{FloatOps}
use mcp_resile.Config.Types.{Config, Backend, Policy, Resilience}
use mcp_resile.Config.Validate.{PathMatch}
use mcp_resile.Proxy.Route.{Route}
use mcp_resile.Startup.{route_of}
use mcp_resile.Proxy.Schema.{Tool, Json}

-- A matcher of patterns without wildcards.
abbrev pub exact_match : PathMatch
exact_match pattern name = some (str_eq pattern name)

-- Float arithmetic on whole numbers kept as their bits.
abbrev pub whole_floats : FloatOps
whole_floats = record {
  of_int = λ n. elim n [ pos m ↦ record { bits = m } | _ ↦ record { bits = 0 } ];
  div = λ x y. x;
  round = λ x. x;
  to_int64 = λ x. pos x.bits;
}

-- Every text is a JSON value, and the only value that no schema accepts is "bad".
abbrev pub plain_json : Json
plain_json = record {
  marshal = λ raw. some raw;
  unmarshal_schema = λ raw. some raw;
  resolve_schema = λ raw. some raw;
  empty_object = codes "{}";
  unmarshal = λ raw. some raw;
  unmarshal_error = λ raw. [];
  validate = λ schema value. if str_eq value (codes "bad") then some (codes "no") else none;
}

abbrev pub resilience : Resilience
resilience = record {
  circuit_breaker = none;
  retries = none;
  rate_limit =
      some (record { rate = record { bits = 4611686018427387904 }; interval = pos 1000000000 });
  min_deadline_threshold = pos 0;
  timeout = pos 0;
}

abbrev pub policy : Policy
policy = record {
  tool_pattern = codes "read";
  validation = record { reject_unknown_fields = false; max_argument_bytes = pos 0 };
  resilience = resilience;
}

abbrev pub backend : Bytes → Bytes → Backend
backend id prefix = record {
  id = id;
  transport = codes "http";
  prefix = prefix;
  url = codes "http://a";
}

abbrev pub files : Backend
files = backend (codes "files") (codes "fs_")

abbrev pub search_engine : Backend
search_engine = backend (codes "search") (codes "web_")

abbrev pub document : Config
document = record {
  version = codes "1";
  server = record {
    listen = codes ":8080";
    transport = codes "streamable-http";
    read_timeout = pos 1000000000;
    write_timeout = pos 1000000000;
    max_request_bytes = pos 1024;
    max_response_bytes = pos 2048;
  };
  auth = record { enabled = true; header = codes "Authorization"; tokens = codes "secret" ∷ [] };
  telemetry = record {
    metrics = record { enabled = false; port = pos 0; path = [] };
    logging = record { level = codes "info"; format = codes "json" };
  };
  backends = files ∷ search_engine ∷ [];
  policies = policy ∷ [];
}

abbrev pub files_route : Route
files_route = route_of files 1

abbrev pub search_route : Route
search_route = route_of search_engine 2

abbrev pub routes : List Route
routes = files_route ∷ search_route ∷ []

abbrev pub read_tool : Tool
read_tool = record { name = codes "read"; input_schema = some (codes "schema"); rest = [] }
