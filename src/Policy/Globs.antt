-- ===== src/Policy/Globs.antt =====
-- Tool patterns as path.Match reads them: in validatePolicies of internal/config/config.go and in
-- Resolve of internal/policy/policy.go, which drops the error.
use mcp_resile.Base.{
  ◌↔◌, arith, Bytes, Bool, true, Option, none, some, List, [], ◌∷◌, ◌++◌, ◌≡◌, ◌⊎◌, inl, inr, refl,
  In, All-In, Option-cases, Bool-cases,
}
use mcp_resile.Config.Types
use mcp_resile.Config.Validate.{validate_policies}
use mcp_resile.Config.Validate.Policies.{IsAccepted, validate_policies_iff}
use mcp_resile.Pattern.{star_byte}
use mcp_resile.Glob.{path_match}
use mcp_resile.Glob.Errors.{path_match-none_iff}
use mcp_resile.Glob.Plain.{Plain}
use mcp_resile.Glob.Stars.{Surrounds, path_match-Surrounds}
use mcp_resile.Policy.{Policy, is_match, resolve}

-- Every pattern that passes validatePolicies gets an answer from path.Match on every tool name: the
-- loops of path.Match end, and there is no error for Resolve to drop.
pub validate_policies-answers :
    (ps : List Types.Policy) (p : Types.Policy) (name : Bytes)
    → validate_policies path_match ps ≡ none
    → In p ps
    → (b : Bool) × (path_match p.tool_pattern name ≡ some b)
validate_policies-answers ps p name valid m =
    let accepted : IsAccepted path_match p =
      All-In (IsAccepted path_match) p ps ((validate_policies_iff path_match ps).0 valid) m in
    elim (Option-cases (path_match p.tool_pattern name)) [
      | inr (b, e) ↦ (b, e)
      | inl e ↦
          let bad = (path_match-none_iff p.tool_pattern name []).0 e in
          absurd (cc (rw bad at accepted.pattern))
    ]

is_match-true : (o : Option Bool) → (is_match o ≡ true) ↔ (o ≡ some true)
is_match-true none = (λ e. cc, λ e. cc)
is_match-true (some b) = (λ e. ground arith, λ e. ground arith)

-- A policy whose pattern is one star between plain texts governs the tools whose names begin and
-- end with those texts and have no '/' in between; any other name is left to the policies after it.
pub resolve-Surrounds :
    (policy : Policy) (ps : List Policy) (p q name : Bytes)
    → Plain p
    → Plain q
    → policy.config.tool_pattern ≡ p ++ star_byte ∷ q
    → (Surrounds p q name × (resolve path_match (policy ∷ ps) name ≡ some policy))
      ⊎ ((¬ Surrounds p q name)
          × (resolve path_match (policy ∷ ps) name ≡ resolve path_match ps name))
resolve-Surrounds policy ps p q name hp hq e =
    let (to, from) = path_match-Surrounds p q name hp hq in
    let (to_some, from_some) = is_match-true (path_match (p ++ star_byte ∷ q) name) in
    elim (Bool-cases (is_match (path_match (p ++ star_byte ∷ q) name))) [
      | inl yields ↦ inl (to (to_some yields), unfold resolve in rw (e, yields) refl)
      | inr passes ↦
          inr (λ k. cc (passes, from_some (from k)), unfold resolve in rw (e, passes) refl)
    ]
