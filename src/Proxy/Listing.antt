-- ===== src/Proxy/Listing.antt =====
-- listTools, internal/proxy/proxy.go.
pub mod Callable
use mcp_resile.Base.{ℕ, Bytes, codes, List, [], ◌∷◌, ◌++◌, map}
use mcp_resile.Errors.{GoError, Result, ok, err, wrap}
use mcp_resile.Proxy.Route.{Route}
use mcp_resile.Proxy.Schema.{Tool, Json, SchemaCache, refresh_all}
use mcp_resile.Proxy.Upstream.{Upstream}

abbrev pub prefixed : Route → Tool → Tool
prefixed r tool = record tool { name = r.prefix ++ tool.name }

-- "listing tools for prefix …"; the text holds the prefix unquoted.
abbrev pub listing_error : Bytes → GoError → GoError
listing_error prefix e = wrap (codes "listing tools for prefix " ++ prefix) e

module _ {W : Type 0} (json : Json) (up : Upstream W) where
  -- The loop, with the tools merged so far. A tool's schema is cached under its prefixed name.
  unfoldable pub list_from :
      List Tool → List Route → SchemaCache → W → Result (List Tool) × SchemaCache × W
  list_from merged [] cache w = (ok merged, cache, w)
  list_from merged (r ∷ rs) cache w =
      let (reply, w') = up.list_tools r.backend w in
      elim reply [
        | err e ↦ (err (listing_error r.prefix e), cache, w')
        | ok tools ↦
            list_from (merged ++ map (prefixed r) tools) rs (refresh_all json r.prefix tools cache)
              w'
      ]

  unfoldable pub list_tools : List Route → SchemaCache → W → Result (List Tool) × SchemaCache × W
  unfolding list_from
  list_tools routes cache w = list_from [] routes cache w
