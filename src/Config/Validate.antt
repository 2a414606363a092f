-- ===== src/Config/Validate.antt =====
-- The checks of internal/config/config.go that compare elements or read globs. `path_match`
-- stands for path.Match: `none` is its error, ErrBadPattern.
pub mod Unique
pub mod Reported
pub mod Policies
use mcp_resile.Base.{
  ℕ, suc, Bytes, Bool, true, false, not, ◌&&◌, ◌||◌, Option, none, some, List, [], ◌∷◌, is_empty,
  is_some, int_eq, if◌then◌else◌, ℤ, pos, length, ltb,
}
use mcp_resile.Base.Dict.{Dict, lookup, insert}
use mcp_resile.Config.Types.{Backend, Policy, Validation, Auth}

-- The messages of the four checks, with the values that they name.
pub data ConfigError : Type 0 where
  no_tokens : ConfigError
  prefix_required : Bytes → ConfigError
  duplicate_prefix : Bytes → Bytes → Bytes → ConfigError
  duplicate_id : ℕ → ℕ → Bytes → ConfigError
  invalid_pattern : Bytes → ConfigError
  timeout_unsupported : Bytes → ConfigError
  validation_unsupported : Bytes → ConfigError
  parsing : Bytes → ConfigError
  checking : Bytes → ConfigError
  reading : Bytes → ConfigError
  in_file : Bytes → ConfigError → ConfigError

unfoldable pub validate_auth : Auth → Option ConfigError
validate_auth a = if not a.enabled then none else if is_empty a.tokens then some no_tokens else none

-- The loop of validatePrefixes; `seen` is seenBy.
unfoldable pub check_prefixes : Dict Bytes → List Backend → Option ConfigError
unfolding lookup insert
check_prefixes seen [] = none
check_prefixes seen (b ∷ bs) =
    let rest = check_prefixes (insert b.prefix b.id seen) bs in
    if is_empty b.prefix then some (prefix_required b.id) else elim (lookup b.prefix seen) [
      | none ↦ rest
      | some owner ↦ some (duplicate_prefix owner b.id b.prefix)
    ]

unfoldable pub validate_prefixes : List Backend → Option ConfigError
unfolding check_prefixes
validate_prefixes backends = if ltb (length backends) 2 then none else check_prefixes [] backends

-- The loop of validateBackendIDs from index `i`; `seen` is seenAt.
unfoldable pub check_ids : Dict ℕ → ℕ → List Backend → Option ConfigError
unfolding lookup insert
check_ids seen i [] = none
check_ids seen i (b ∷ bs) =
    let rest = check_ids (insert b.id i seen) (suc i) bs in
    elim (lookup b.id seen) [ none ↦ rest | some first ↦ some (duplicate_id first i b.id) ]

unfoldable pub validate_backend_ids : List Backend → Option ConfigError
unfolding check_ids
validate_backend_ids backends = check_ids [] 0 backends

-- p.Validation != (Validation{})
abbrev pub has_validation : Validation → Bool
has_validation v = v.reject_unknown_fields || not (int_eq v.max_argument_bytes (pos 0))

-- path.Match(pattern, name)
abbrev pub PathMatch : Type 0
PathMatch = Bytes → Bytes → Option Bool

unfoldable pub validate_policies : PathMatch → List Policy → Option ConfigError
validate_policies path_match [] = none
validate_policies path_match (p ∷ ps) =
    let rest = validate_policies path_match ps in
    if not (is_some (path_match p.tool_pattern []))
    then some (invalid_pattern p.tool_pattern)
    else if not (int_eq p.resilience.timeout (pos 0))
    then some (timeout_unsupported p.tool_pattern)
    else if has_validation p.validation
    then some (validation_unsupported p.tool_pattern)
    else rest
