-- ===== src/Logging/Levels.antt =====
-- The levels and formats of accepted configurations, and what is printed at them.
use mcp_resile.Base.{
  Bytes, codes, true, some, List, [], ◌∷◌, ◌≡◌, ◌⊎◌, inl, inr, refl, arith, All, str_eq, str_eq_iff,
  Bool-cases,
}
use mcp_resile.Config.Types
use mcp_resile.Config.Types.{Config}
use mcp_resile.Config.Tags.{tags_hold, config_tests, every-All, logging_tags}
use mcp_resile.Config.Load.{Libraries, ok, parse}
use mcp_resile.Config.Load.Valid.{parse_iff}
use mcp_resile.Config.Load.Usable.{HonoursTags}
use mcp_resile.Proxy.Dispatch.{info, warn, LogEntry, Gateway, Setup}
use mcp_resile.Proxy.Middleware.{Request, serve}
use mcp_resile.Proxy.Middleware.Accounting.{IsAccounted, serve-IsAccounted}
use mcp_resile.Logging.{levels, text, json, Logger, new_logger, printed, slog_error}

-- The level is one that levels has, and is the logger's; the format is one of the two, and is the
-- logger's.
pub record IsFaithful (cfg : Types.Logging) (logger : Logger) : Type 0 where
  pub level : levels cfg.level ≡ some logger.minimum
  pub format :
      ((cfg.format ≡ codes "text") × (logger.format ≡ text))
      ⊎ ((cfg.format ≡ codes "json") × (logger.format ≡ json))

tags-IsFaithful : (cfg : Types.Logging) → logging_tags cfg ≡ true → IsFaithful cfg (new_logger cfg)
unfolding new_logger logging_tags
tags-IsFaithful cfg h = record {
  level = ground (arith, h);
  format = elim (Bool-cases (str_eq cfg.format (codes "text"))) [
    | inl e ↦ inl ((str_eq_iff cfg.format (codes "text")).0 e, rw e refl)
    | inr e ↦ inr ((str_eq_iff cfg.format (codes "json")).0 (ground (arith, e, h)), rw e refl)
  ];
}

-- For every configuration that Parse accepts, the logger has the level and the format that the
-- configuration names, never a fallback, if the checker library honours the tags.
pub new_logger-IsFaithful :
    (libs : Libraries) (input : Bytes) (cfg : Config)
    → HonoursTags libs
    → parse libs input ≡ ok cfg
    → IsFaithful cfg.telemetry.logging (new_logger cfg.telemetry.logging)
new_logger-IsFaithful libs input cfg honours h =
    let (_, _, _, valid) = (parse_iff libs input cfg).0 h in
    tags-IsFaithful cfg.telemetry.logging
      (unfold tags_hold in (every-All (config_tests cfg) (honours cfg valid.checked)).1.1.0)

printed-nothing :
    (logger : Logger) (es : List LogEntry)
    → logger.minimum ≡ slog_error
    → All (λ e. (e.level ≡ info) ⊎ (e.level ≡ warn)) es
    → printed logger es ≡ []
unfolding printed
printed-nothing logger [] h k = refl
printed-nothing logger (e ∷ es) h (inl low, ks) = rw (h, low) (printed-nothing logger es h ks)
printed-nothing logger (e ∷ es) h (inr low, ks) = rw (h, low) (printed-nothing logger es h ks)

-- With the log level "error" no tools/call of any run is ever printed, whatever fails, not even a
-- recovered panic, if the run starts with a log that is in step with the counter and at lower levels.
pub printed-serve_error :
    {W : Type 0} (s : Setup W) (rs : List Request) (g : Gateway W) (cfg : Types.Logging)
    → cfg.level ≡ codes "error"
    → IsAccounted g
    → printed (new_logger cfg) (serve s rs g).log ≡ []
printed-serve_error s rs g cfg e a =
    printed-nothing (new_logger cfg) (serve s rs g).log
      (unfold new_logger in rw e (unfold str_eq in refl)) (serve-IsAccounted s rs g a).levels
