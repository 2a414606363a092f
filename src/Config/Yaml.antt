-- ===== src/Config/Yaml.antt =====
-- Duration.UnmarshalYAML, internal/config/config.go. `decode_string` is value.Decode into a string,
-- `none` its error.
pub mod Range
pub mod Written
use mcp_resile.Base.{ℕ, Bytes, Option, none, some, ℤ}
use mcp_resile.Config.Types.{Duration}
use mcp_resile.Durations.{parse_duration}

pub data YamlError : Type 0 where
  undecodable : YamlError
  invalid_duration : Bytes → YamlError

abbrev pub assign : Bytes → Option ℤ → Duration → Duration × Option YamlError
assign s none d = (d, some (invalid_duration s))
assign s (some parsed) d = (parsed, none)

abbrev pub read_scalar : (ℕ → ℕ → ℕ → ℕ) → Option Bytes → Duration → Duration × Option YamlError
read_scalar fraction none d = (d, some undecodable)
read_scalar fraction (some s) d = assign s (parse_duration fraction s) d

-- The receiver is `d`; with an error it stays as it was.
unfoldable pub unmarshal_yaml :
    (ℕ → ℕ → ℕ → ℕ) → (Bytes → Option Bytes) → Bytes → Duration → Duration × Option YamlError
unmarshal_yaml fraction decode_string node d = read_scalar fraction (decode_string node) d
