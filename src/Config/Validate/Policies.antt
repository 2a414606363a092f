-- ===== src/Config/Validate/Policies.antt =====
-- What validatePolicies accepts.
use mcp_resile.Base.{
  true, false, none, is_some, List, [], ◌∷◌, int_eq_iff, pos, ◌≡◌, ◌↔◌, refl, arith, All,
}
use mcp_resile.Config.Types.{Policy}
use mcp_resile.Config.Validate.{PathMatch, validate_policies}

-- The glob is well formed, and the two fields that no feature reads are unset.
pub record IsAccepted (path_match : PathMatch) (p : Policy) : Type 0 where
  pub pattern : is_some (path_match p.tool_pattern []) ≡ true
  pub timeout : p.resilience.timeout ≡ pos 0
  pub reject_unknown_fields : p.validation.reject_unknown_fields ≡ false
  pub max_argument_bytes : p.validation.max_argument_bytes ≡ pos 0

-- Policies are accepted exactly when each of them has a well-formed glob, no timeout and an empty
-- validation block.
pub validate_policies_iff :
    (path_match : PathMatch) (ps : List Policy)
    → (validate_policies path_match ps ≡ none) ↔ All (IsAccepted path_match) ps
unfolding validate_policies
validate_policies_iff path_match [] = (λ _. tt, λ _. refl)
validate_policies_iff path_match (p ∷ ps) = ground (
  arith,
  validate_policies_iff path_match ps,
  int_eq_iff p.resilience.timeout (pos 0),
  int_eq_iff p.validation.max_argument_bytes (pos 0),
)
