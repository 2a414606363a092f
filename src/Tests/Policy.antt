-- ===== src/Tests/Policy.antt =====
-- Policies found by name, and built.
use mcp_resile.Base.{Bool, codes, none, some, [], ◌∷◌, ◌≡◌, ◌⊎◌, inl, refl, ◌↔◌, All}
use mcp_resile.Config.Types
use mcp_resile.Config.Validate.{validate_policies}
use mcp_resile.Pattern.{
  following, decode_rune, get_esc, upper, read_ranges, read_class, read_item, read_items,
  read_chunk,
}
use mcp_resile.Glob.{
  match_item, match_items, accept, skip, place, scan, scan_chunk, has_slash, check_rest, match_from,
  path_match,
}
use mcp_resile.Glob.Stars.{Surrounds}
use mcp_resile.Policy.Globs.{validate_policies-answers, resolve-Surrounds}
use mcp_resile.Policy.{Policy, Store, resolve, new_resolver}
use mcp_resile.Policy.Resolution.{IsFirst, Passes, resolve_iff}
use mcp_resile.Policy.Resolver.{IsResolver, new_resolver-IsResolver}
use mcp_resile.Tests.Samples.{exact_match, policy}

abbrev empty_store : Store
empty_store = record { breakers = []; limiters = [] }

abbrev built : Policy
built = record { config = policy; circuit_breaker = none; rate_limiter = some 0 }

resolve_iff_example :
    ((resolve exact_match (built ∷ []) (codes "read") ≡ some built)
      ↔ IsFirst exact_match (codes "read") (built ∷ []) built)
    × ((resolve exact_match (built ∷ []) (codes "read") ≡ none)
        ↔ All (Passes exact_match (codes "read")) (built ∷ []))
resolve_iff_example = resolve_iff exact_match (built ∷ []) (codes "read") built

new_resolver-IsResolver_example :
    IsResolver
      (policy ∷ [])
      empty_store
      (new_resolver (policy ∷ []) empty_store).1
      (new_resolver (policy ∷ []) empty_store).0
new_resolver-IsResolver_example = new_resolver-IsResolver (policy ∷ []) empty_store

-- A class, a star and an escaped star.
abbrev class_policy : Types.Policy
class_policy = record policy { tool_pattern = codes "[a-f]s_*\\*" }

class_accepted : validate_policies path_match (class_policy ∷ []) ≡ none
unfolding validate_policies path_match match_from scan_chunk scan check_rest read_chunk read_items
    read_item read_class read_ranges upper get_esc decode_rune following has_slash place skip accept
    match_items match_item
class_accepted = refl

validate_policies-answers_example :
    (b : Bool) × (path_match class_policy.tool_pattern (codes "fs_read*") ≡ some b)
validate_policies-answers_example =
    validate_policies-answers (class_policy ∷ []) class_policy (codes "fs_read*") class_accepted
      (inl refl)

abbrev starred : Policy
starred = record {
  config = record policy { tool_pattern = codes "fs_*_all" };
  circuit_breaker = none;
  rate_limiter = some 0;
}

resolve-Surrounds_example :
    (Surrounds (codes "fs_") (codes "_all") (codes "fs_read_all")
      × (resolve path_match (starred ∷ built ∷ []) (codes "fs_read_all") ≡ some starred))
    ⊎ ((¬ Surrounds (codes "fs_") (codes "_all") (codes "fs_read_all"))
        × (resolve path_match (starred ∷ built ∷ []) (codes "fs_read_all")
            ≡ resolve path_match (built ∷ []) (codes "fs_read_all")))
resolve-Surrounds_example =
    resolve-Surrounds starred (built ∷ []) (codes "fs_") (codes "_all") (codes "fs_read_all")
      (refl, (refl, (refl, tt))) (refl, (refl, (refl, (refl, tt)))) refl
