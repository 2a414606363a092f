-- ===== src/Config/Types.antt =====
-- The configuration document, internal/config/config.go: one record for each struct.
-- A pointer to a sub-block is an `Option`; a Duration is its int64 count of nanoseconds.
use mcp_resile.Base.{ℕ, Bytes, Bool, false, ℤ, pos, Option, List, []}
use mcp_resile.Base.Float.{Float64}

-- type Duration time.Duration
abbrev pub Duration : Type 0
Duration = ℤ

pub record Server : Type 0 where
  pub listen : Bytes
  pub transport : Bytes
  pub read_timeout : Duration
  pub write_timeout : Duration
  pub max_request_bytes : ℤ
  pub max_response_bytes : ℤ

pub record Backend : Type 0 where
  pub id : Bytes
  pub transport : Bytes
  pub prefix : Bytes
  pub url : Bytes

pub record CircuitBreaker : Type 0 where
  pub failure_rate : Float64
  pub window_duration : Duration
  pub reset_timeout : Duration

pub record Retries : Type 0 where
  pub max_attempts : ℕ
  pub base_delay : Duration
  pub max_delay : Duration
  pub backoff : Bytes

pub record RateLimit : Type 0 where
  pub rate : Float64
  pub interval : Duration

pub record Resilience : Type 0 where
  pub circuit_breaker : Option CircuitBreaker
  pub retries : Option Retries
  pub rate_limit : Option RateLimit
  pub min_deadline_threshold : Duration
  pub timeout : Duration

pub record Validation : Type 0 where
  pub reject_unknown_fields : Bool
  pub max_argument_bytes : ℤ

pub record Policy : Type 0 where
  pub tool_pattern : Bytes
  pub validation : Validation
  pub resilience : Resilience

pub record Auth : Type 0 where
  pub enabled : Bool
  pub header : Bytes
  pub tokens : List Bytes

pub record Metrics : Type 0 where
  pub enabled : Bool
  pub port : ℤ
  pub path : Bytes

pub record Logging : Type 0 where
  pub level : Bytes
  pub format : Bytes

pub record Telemetry : Type 0 where
  pub metrics : Metrics
  pub logging : Logging

pub record Config : Type 0 where
  pub version : Bytes
  pub server : Server
  pub auth : Auth
  pub telemetry : Telemetry
  pub backends : List Backend
  pub policies : List Policy

-- The zero values, as `var cfg Config` has them.
abbrev pub zero_server : Server
zero_server = record {
  listen = [];
  transport = [];
  read_timeout = pos 0;
  write_timeout = pos 0;
  max_request_bytes = pos 0;
  max_response_bytes = pos 0;
}

abbrev pub zero_config : Config
zero_config = record {
  version = [];
  server = zero_server;
  auth = record { enabled = false; header = []; tokens = [] };
  telemetry = record {
    metrics = record { enabled = false; port = pos 0; path = [] };
    logging = record { level = []; format = [] };
  };
  backends = [];
  policies = [];
}
