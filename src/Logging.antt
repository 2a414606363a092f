-- ===== src/Logging.antt =====
-- internal/logging/logging.go: from the configuration to a logger, and what log/slog lets through.
-- A slog.Level is its int, and only a handler's level and format are kept of it.
pub mod Levels
use mcp_resile.Base.{
  ℕ, Bytes, codes, Bool, Option, none, some, List, [], ◌∷◌, str_eq, if◌then◌else◌, ℤ, pos, negsuc,
  int_le,
}
use mcp_resile.Config.Types
use mcp_resile.Proxy.Dispatch.{Level, info, warn, error, LogEntry}

abbrev pub slog_debug : ℤ
slog_debug = negsuc 3

abbrev pub slog_info : ℤ
slog_info = pos 0

abbrev pub slog_warn : ℤ
slog_warn = pos 4

abbrev pub slog_error : ℤ
slog_error = pos 8

unfoldable pub levels : Bytes → Option ℤ
levels level =
    if str_eq level (codes "debug")
    then some slog_debug
    else if str_eq level (codes "info")
    then some slog_info
    else if str_eq level (codes "warn")
    then some slog_warn
    else if str_eq level (codes "error")
    then some slog_error
    else none

pub data Format : Type 0 where
  text json : Format

pub record Logger : Type 0 where
  pub minimum : ℤ
  pub format : Format

abbrev pub or_info : Option ℤ → ℤ
or_info none = slog_info
or_info (some level) = level

unfoldable pub new_logger : Types.Logging → Logger
unfolding levels
new_logger cfg = record {
  minimum = or_info (levels cfg.level);
  format = if str_eq cfg.format (codes "text") then text else json;
}

-- The level that logDispatch of internal/proxy/proxy.go gives to slog.
abbrev pub slog_level : Level → ℤ
slog_level info = slog_info
slog_level warn = slog_warn
slog_level error = slog_error

-- slog.Handler.Enabled: the entries that are printed.
unfoldable pub printed : Logger → List LogEntry → List LogEntry
printed logger [] = []
printed logger (e ∷ es) =
    let rest = printed logger es in
    if int_le logger.minimum (slog_level e.level) then e ∷ rest else rest
