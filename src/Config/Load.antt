-- ===== src/Config/Load.antt =====
-- Parse and Load, internal/config/config.go. Reading the file, YAML decoding and the checker
-- library are parameters.
pub mod Valid
pub mod Usable
use mcp_resile.Base.{Bytes, Option, none, some}
use mcp_resile.Config.Types.{Config, zero_config}
use mcp_resile.Config.Defaults.{apply_defaults}
use mcp_resile.Config.Validate.{
  ConfigError, parsing, checking, reading, in_file, PathMatch, validate_auth, validate_backend_ids,
  validate_prefixes, validate_policies,
}

-- What decoder.Decode does: it stores a document in its target, or has an error. io.EOF means that
-- there is no document, so nothing is stored.
pub data Decoded : Type 0 where
  stored : Config → Decoded
  eof : Decoded
  malformed : Bytes → Decoded

-- os.ReadFile, decoder.Decode into a target with unknown fields refused, checker.CheckStruct
-- (`none` for ok) and path.Match.
pub record Libraries : Type 0 where
  pub read_file : Bytes → Option Bytes
  pub decode : Bytes → Config → Decoded
  pub check_struct : Config → Option Bytes
  pub path_match : PathMatch

pub data Loaded : Type 0 where
  ok : Config → Loaded
  failed : ConfigError → Loaded

-- if err != nil { return nil, err }
infixl 5 ◌>>◌
abbrev pub ◌>>◌ : Option ConfigError → Loaded → Loaded
none >> rest = rest
some e >> rest = failed e

abbrev pub check_error : Option Bytes → Option ConfigError
check_error none = none
check_error (some m) = some (checking m)

-- From the checks on: the configuration is complete.
unfoldable pub validate : Libraries → Config → Loaded
validate libs cfg = do
  check_error (libs.check_struct cfg)
  validate_auth cfg.auth
  validate_backend_ids cfg.backends
  validate_prefixes cfg.backends
  validate_policies libs.path_match cfg.policies
  ok cfg

-- From the decoding into `cfg` on.
abbrev pub after_decode : Libraries → Config → Decoded → Loaded
after_decode libs cfg (stored document) = validate libs (apply_defaults document)
after_decode libs cfg eof = validate libs (apply_defaults cfg)
after_decode libs cfg (malformed m) = failed (parsing m)

unfoldable pub parse : Libraries → Bytes → Loaded
parse libs input = after_decode libs zero_config (libs.decode input zero_config)

abbrev pub named : Bytes → Loaded → Loaded
named path (ok cfg) = ok cfg
named path (failed e) = failed (in_file path e)

unfoldable pub load : Libraries → Bytes → Loaded
load libs path = elim (libs.read_file path) [
  | none ↦ failed (reading path)
  | some input ↦ named path (parse libs input)
]
