-- ===== src/Proxy/Route.antt =====
-- Routes and namespaces, internal/proxy/proxy.go: matchRoute, MergeCapabilities.
-- A backend session is a number: the proxy only passes it on.
pub mod Matching
pub mod Capabilities
pub mod Collision
use mcp_resile.Base.{
  ℕ, Bytes, Bool, ◌&&◌, Option, none, some, List, [], ◌∷◌, ltb, leb, has_prefix, length, drop,
  if◌then◌else◌,
}

pub record Route : Type 0 where
  pub id : Bytes
  pub prefix : Bytes
  pub backend : ℕ

-- `bestLen` with its route; `none` stands for -1.
abbrev pub longer_than : Bytes → Option Route → Bool
longer_than p none = Bool.true
longer_than p (some r) = ltb (length r.prefix) (length p)

-- The loop of matchRoute.
unfoldable pub best_route : Bytes → Option Route → List Route → Option Route
unfolding has_prefix
best_route name best [] = best
best_route name best (r ∷ rs) =
    best_route name (if has_prefix name r.prefix && longer_than r.prefix best then some r else best)
      rs

-- What follows the loop: nothing for -1, else the route and the name without its prefix.
abbrev pub forward : Bytes → Option Route → Option (Route × Bytes)
forward name none = none
forward name (some r) = some (r, drop (length r.prefix) name)

unfoldable pub match_route : List Route → Bytes → Option (Route × Bytes)
unfolding best_route
match_route routes name = forward name (best_route name none routes)
