-- ===== src/Tests/Logging.antt =====
-- The logger of a parsed document, and what a quiet one prints.
use mcp_resile.Base.{codes, [], ◌≡◌, refl}
use mcp_resile.Config.Types
use mcp_resile.Proxy.Middleware.{serve}
use mcp_resile.Logging.{new_logger, printed}
use mcp_resile.Logging.Levels.{IsFaithful, new_logger-IsFaithful, printed-serve_error}
use mcp_resile.Tests.Samples.{document}
use mcp_resile.Tests.Config.{libraries, checks_tags-HonoursTags, document_parses}
use mcp_resile.Tests.Dispatch.{setup, fresh, session}

new_logger-IsFaithful_test :
    IsFaithful document.telemetry.logging (new_logger document.telemetry.logging)
new_logger-IsFaithful_test =
    new_logger-IsFaithful libraries (codes "a") document checks_tags-HonoursTags document_parses

abbrev quiet : Types.Logging
quiet = record { level = codes "error"; format = codes "json" }

printed-serve_error_example : printed (new_logger quiet) (serve setup session fresh).log ≡ []
printed-serve_error_example =
    printed-serve_error setup session fresh quiet refl
      (record { agree = refl; coarse = tt; levels = tt })
