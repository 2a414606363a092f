-- ===== src/Tests/Collision.antt =====
-- Two backends, the prefix of one of which extends that of the other.
use mcp_resile.Base.{codes, none, some, [], ◌∷◌, ◌++◌, ◌≡◌, ◌≢◌, refl, All, str_eq}
use mcp_resile.Config.Types.{Config}
use mcp_resile.Config.Defaults.{apply_defaults}
use mcp_resile.Config.Validate.Policies.{IsAccepted}
use mcp_resile.Config.Tags.{
  tags_hold, server_tags, metrics_tags, logging_tags, backend_tags, policy_tags, rate_limit_tags,
}
use mcp_resile.Config.Load.{Libraries, stored, ok, parse}
use mcp_resile.Config.Load.Valid.{parse_iff}
use mcp_resile.Proxy.Route.{match_route}
use mcp_resile.Proxy.Route.Collision.{accepted_prefixes_collide}
use mcp_resile.Startup.{route_of}
use mcp_resile.Tests.Samples.{document, files}
use mcp_resile.Tests.Config.{libraries, checks_tags, document_parses}
use mcp_resile.Tests.Routes.{nested}

abbrev nesting : Config
nesting = record document { backends = files ∷ nested ∷ [] }

abbrev nesting_libraries : Libraries
nesting_libraries = record libraries { decode = λ input cfg. stored nesting }

nesting_complete : apply_defaults nesting ≡ nesting
unfolding apply_defaults str_eq
nesting_complete = refl

nesting_checked : checks_tags nesting ≡ none
unfolding tags_hold server_tags str_eq metrics_tags logging_tags backend_tags policy_tags
    rate_limit_tags
nesting_checked = refl

policies-IsAccepted : All (IsAccepted nesting_libraries.path_match) nesting.policies
policies-IsAccepted =
    let (_, _, _, valid) = (parse_iff libraries (codes "a") document).0 document_parses in
    valid.policies

other_id : files.id ≢ nested.id
other_id e = cc

accepted_prefixes_collide_example :
    (parse nesting_libraries (codes "a") ≡ ok nesting)
    × (files.prefix ++ (codes "x_" ++ codes "y") ≡ nested.prefix ++ codes "y")
    × (match_route
          (route_of files 1 ∷ route_of nested 2 ∷ [])
          (files.prefix ++ (codes "x_" ++ codes "y"))
        ≡ some (route_of nested 2, codes "y"))
accepted_prefixes_collide_example =
    accepted_prefixes_collide nesting_libraries (codes "a") nesting nesting files nested 1 2
      (codes "x_") (codes "y") refl nesting_complete refl nesting_checked refl policies-IsAccepted
      other_id refl refl refl
