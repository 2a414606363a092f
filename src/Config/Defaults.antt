-- ===== src/Config/Defaults.antt =====
-- applyDefaults, internal/config/config.go.
pub mod Complete
use mcp_resile.Base.{
  ℕ, Bytes, codes, Bool, true, false, ◌&&◌, Option, none, some, List, map, ◌==◌, is_empty, int_eq,
  if◌then◌else◌, ℤ, pos, negsuc,
}
use mcp_resile.Config.Types.{
  Duration, Server, Backend, Retries, Resilience, Policy, Auth, Metrics, Logging, Telemetry, Config,
}

abbrev pub transport_streamable_http : Bytes
transport_streamable_http = codes "streamable-http"

abbrev pub backend_transport_http : Bytes
backend_transport_http = codes "http"

abbrev pub default_read_timeout : Duration
default_read_timeout = pos 30000000000

abbrev pub default_write_timeout : Duration
default_write_timeout = pos 30000000000

abbrev pub default_max_request_bytes : ℤ
default_max_request_bytes = pos 1048576

abbrev pub default_max_response_bytes : ℤ
default_max_response_bytes = pos 524288

abbrev pub default_auth_header : Bytes
default_auth_header = codes "Authorization"

abbrev pub default_metrics_port : ℤ
default_metrics_port = pos 9090

abbrev pub default_metrics_path : Bytes
default_metrics_path = codes "/metrics"

abbrev pub default_log_level : Bytes
default_log_level = codes "info"

abbrev pub default_log_format : Bytes
default_log_format = codes "json"

abbrev pub backoff_full_jitter : Bytes
backoff_full_jitter = codes "full_jitter"

abbrev pub default_retry_max_attempts : ℕ
default_retry_max_attempts = 5

abbrev pub default_retry_base_delay : Duration
default_retry_base_delay = pos 100000000

abbrev pub default_retry_max_delay : Duration
default_retry_max_delay = pos 30000000000

-- if x == "" { x = d }, and the same at 0
unfoldable pub or_text : Bytes → Bytes → Bytes
or_text x d = if is_empty x then d else x

unfoldable pub or_int : ℤ → ℤ → ℤ
or_int x d = if int_eq x (pos 0) then d else x

unfoldable pub or_nat : ℕ → ℕ → ℕ
or_nat x d = if x == 0 then d else x

unfoldable pub server_defaults : Server → Server
unfolding or_text or_int
server_defaults s = record s {
  transport = or_text s.transport transport_streamable_http;
  read_timeout = or_int s.read_timeout default_read_timeout;
  write_timeout = or_int s.write_timeout default_write_timeout;
  max_request_bytes = or_int s.max_request_bytes default_max_request_bytes;
  max_response_bytes = or_int s.max_response_bytes default_max_response_bytes;
}

unfoldable pub auth_defaults : Auth → Auth
auth_defaults a =
    if a.enabled && is_empty a.header then record a { header = default_auth_header } else a

unfoldable pub metrics_defaults : Metrics → Metrics
unfolding or_text or_int
metrics_defaults m =
    if m.enabled
    then record m {
      port = or_int m.port default_metrics_port;
      path = or_text m.path default_metrics_path;
    }
    else m

unfoldable pub logging_defaults : Logging → Logging
unfolding or_text
logging_defaults l = record {
  level = or_text l.level default_log_level;
  format = or_text l.format default_log_format;
}

unfoldable pub backend_defaults : Backend → Backend
unfolding or_text
backend_defaults b = record b { transport = or_text b.transport backend_transport_http }

unfoldable pub retries_defaults : Retries → Retries
unfolding or_text or_int or_nat
retries_defaults r = record {
  max_attempts = or_nat r.max_attempts default_retry_max_attempts;
  base_delay = or_int r.base_delay default_retry_base_delay;
  max_delay = or_int r.max_delay default_retry_max_delay;
  backoff = or_text r.backoff backoff_full_jitter;
}

abbrev on_retries : Option Retries → Option Retries
on_retries none = none
on_retries (some r) = some (retries_defaults r)

unfoldable pub policy_defaults : Policy → Policy
unfolding retries_defaults
policy_defaults p = record p {
  resilience = record p.resilience { retries = on_retries p.resilience.retries };
}

unfoldable pub apply_defaults : Config → Config
unfolding server_defaults auth_defaults metrics_defaults logging_defaults backend_defaults
    policy_defaults
apply_defaults c = record c {
  server = server_defaults c.server;
  auth = auth_defaults c.auth;
  telemetry = record {
    metrics = metrics_defaults c.telemetry.metrics;
    logging = logging_defaults c.telemetry.logging;
  };
  backends = map backend_defaults c.backends;
  policies = map policy_defaults c.policies;
}
