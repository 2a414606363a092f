-- ===== src/Config/Defaults/Complete.antt =====
-- The fields that applyDefaults of internal/config/config.go sets.
use mcp_resile.Base.{
  false, ◌&&◌, Option, none, some, List, [], ◌∷◌, map, ◌==◌, is_empty, int_eq, pos, ◌≡◌, refl,
  arith, All, ap,
}
use mathlib.Core.Path.{ap₂}
use mcp_resile.Config.Types.{Server, Backend, Retries, Policy, Auth, Metrics, Logging, Config}
use mcp_resile.Config.Defaults.{
  server_defaults, auth_defaults, metrics_defaults, logging_defaults, backend_defaults,
  retries_defaults, policy_defaults, apply_defaults, on_retries,
}

pub record IsCompleteServer (s : Server) : Type 0 where
  pub transport : is_empty s.transport ≡ false
  pub read_timeout : int_eq s.read_timeout (pos 0) ≡ false
  pub write_timeout : int_eq s.write_timeout (pos 0) ≡ false
  pub max_request_bytes : int_eq s.max_request_bytes (pos 0) ≡ false
  pub max_response_bytes : int_eq s.max_response_bytes (pos 0) ≡ false

pub record IsCompleteRetries (r : Retries) : Type 0 where
  pub max_attempts : (r.max_attempts == 0) ≡ false
  pub base_delay : int_eq r.base_delay (pos 0) ≡ false
  pub max_delay : int_eq r.max_delay (pos 0) ≡ false
  pub backoff : is_empty r.backoff ≡ false

abbrev pub IsCompletePolicy : Option Retries → Type 0
IsCompletePolicy none = Unit
IsCompletePolicy (some r) = IsCompleteRetries r

pub record IsCompleteMetrics (m : Metrics) : Type 0 where
  pub port : (m.enabled && int_eq m.port (pos 0)) ≡ false
  pub path : (m.enabled && is_empty m.path) ≡ false

pub record IsCompleteLogging (l : Logging) : Type 0 where
  pub level : is_empty l.level ≡ false
  pub format : is_empty l.format ≡ false

pub record IsComplete (c : Config) : Type 0 where
  pub server : IsCompleteServer c.server
  pub auth : (c.auth.enabled && is_empty c.auth.header) ≡ false
  pub metrics : IsCompleteMetrics c.telemetry.metrics
  pub logging : IsCompleteLogging c.telemetry.logging
  pub backends : All (λ b. is_empty b.transport ≡ false) c.backends
  pub policies : All (λ p. IsCompletePolicy p.resilience.retries) c.policies

server_complete : (s : Server) → IsCompleteServer (server_defaults s)
unfolding server_defaults
server_complete s = record {
  transport = ground arith;
  read_timeout = ground arith;
  write_timeout = ground arith;
  max_request_bytes = ground arith;
  max_response_bytes = ground arith;
}

server_kept : (s : Server) → IsCompleteServer s → server_defaults s ≡ s
unfolding server_defaults
server_kept s h = ground arith

retries_complete : (r : Retries) → IsCompleteRetries (retries_defaults r)
unfolding retries_defaults
retries_complete r = ground arith

retries_kept : (r : Retries) → IsCompleteRetries r → retries_defaults r ≡ r
unfolding retries_defaults
retries_kept r h = ground arith

on_retries_complete : (o : Option Retries) → IsCompletePolicy (on_retries o)
on_retries_complete none = tt
on_retries_complete (some r) = retries_complete r

on_retries_kept : (o : Option Retries) → IsCompletePolicy o → on_retries o ≡ o
on_retries_kept none h = refl
on_retries_kept (some r) h = ap some (retries_kept r h)

policies_complete :
    (ps : List Policy) → All (λ p. IsCompletePolicy p.resilience.retries) (map policy_defaults ps)
unfolding policy_defaults
policies_complete [] = tt
policies_complete (p ∷ ps) = (on_retries_complete p.resilience.retries, policies_complete ps)

policy_kept : (p : Policy) → IsCompletePolicy p.resilience.retries → policy_defaults p ≡ p
unfolding policy_defaults
policy_kept p h =
    ap (λ o. record p { resilience = record p.resilience { retries = o } })
      (on_retries_kept p.resilience.retries h)

policies_kept :
    (ps : List Policy)
    → All (λ p. IsCompletePolicy p.resilience.retries) ps
    → map policy_defaults ps ≡ ps
policies_kept [] h = refl
policies_kept (p ∷ ps) (h, hs) = ap₂ ◌∷◌ (policy_kept p h) (policies_kept ps hs)

backends_complete :
    (bs : List Backend) → All (λ b. is_empty b.transport ≡ false) (map backend_defaults bs)
unfolding backend_defaults
backends_complete [] = tt
backends_complete (b ∷ bs) = (ground arith, backends_complete bs)

backends_kept :
    (bs : List Backend) → All (λ b. is_empty b.transport ≡ false) bs → map backend_defaults bs ≡ bs
unfolding backend_defaults
backends_kept [] h = refl
backends_kept (b ∷ bs) (h, hs) = ap₂ ◌∷◌ (ground arith) (backends_kept bs hs)

metrics_complete : (m : Metrics) → IsCompleteMetrics (metrics_defaults m)
unfolding metrics_defaults
metrics_complete m = record { port = ground arith; path = ground arith }

metrics_kept : (m : Metrics) → IsCompleteMetrics m → metrics_defaults m ≡ m
unfolding metrics_defaults
metrics_kept m h = ground arith

logging_complete : (l : Logging) → IsCompleteLogging (logging_defaults l)
unfolding logging_defaults
logging_complete l = ground arith

logging_kept : (l : Logging) → IsCompleteLogging l → logging_defaults l ≡ l
unfolding logging_defaults
logging_kept l h = ground arith

auth_complete :
    (a : Auth) → ((auth_defaults a).enabled && is_empty (auth_defaults a).header) ≡ false
unfolding auth_defaults
auth_complete a = ground arith

auth_kept : (a : Auth) → (a.enabled && is_empty a.header) ≡ false → auth_defaults a ≡ a
unfolding auth_defaults
auth_kept a h = rw h

-- Whatever the document leaves out, no field with a default is unset after applyDefaults.
pub apply_defaults-IsComplete : (c : Config) → IsComplete (apply_defaults c)
unfolding apply_defaults
apply_defaults-IsComplete c = record {
  server = server_complete c.server;
  auth = auth_complete c.auth;
  metrics = metrics_complete c.telemetry.metrics;
  logging = logging_complete c.telemetry.logging;
  backends = backends_complete c.backends;
  policies = policies_complete c.policies;
}

-- A configuration in which every field with a default is set keeps all its values.
pub apply_defaults-eq_self : (c : Config) → IsComplete c → apply_defaults c ≡ c
unfolding apply_defaults
apply_defaults-eq_self c h = λ i. record c {
  server = server_kept c.server h.server i;
  auth = auth_kept c.auth h.auth i;
  telemetry = record {
    metrics = metrics_kept c.telemetry.metrics h.metrics i;
    logging = logging_kept c.telemetry.logging h.logging i;
  };
  backends = backends_kept c.backends h.backends i;
  policies = policies_kept c.policies h.policies i;
}
