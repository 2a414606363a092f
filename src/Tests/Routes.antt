-- ===== src/Tests/Routes.antt =====
-- Routes, listings and the schema cache.
use mcp_resile.Base.{
  ℕ, suc, codes, true, none, some, [], ◌∷◌, ◌++◌, ◌≡◌, ◌∙◌, sym, ◌↔◌, inl, inr, refl, In,
  has_prefix,
}
use mcp_resile.Base.Dict.{lookup}
use mcp_resile.Errors.{ok}
use mcp_resile.Proxy.Route.{Route, match_route, best_route}
use mcp_resile.Proxy.Route.Matching.{
  Fits, IsBest, PrefixFree, match_route_sound, match_route-none_iff, match_route-prefixed,
}
use mcp_resile.Proxy.Route.Capabilities.{
  only_logging, tools, offers, AnyOffers, merge_capabilities, merge_capabilities_union,
}
use mcp_resile.Proxy.Schema.{Tool, refresh_all, compile_schema}
use mcp_resile.Proxy.Schema.Caching.{refresh_all-IsSilent, refresh_all-last}
use mcp_resile.Proxy.Upstream.{Upstream}
use mcp_resile.Proxy.Listing.{list_tools, list_from, prefixed}
use mcp_resile.Proxy.Listing.Callable.{IsFrom, list_tools-callable}
use mcp_resile.Config.Types.{Backend}
use mcp_resile.Tests.Samples.{plain_json, routes, files_route, search_route, backend, read_tool}

routes-PrefixFree : PrefixFree routes
unfolding has_prefix
routes-PrefixFree r s (inl er) (inl es) h = es ∙ sym er
routes-PrefixFree r s (inr (inl er)) (inr (inl es)) h = es ∙ sym er
routes-PrefixFree r s (inl er) (inr (inr m)) h = elim m [ ]
routes-PrefixFree r s (inr (inl er)) (inr (inr m)) h = elim m [ ]
routes-PrefixFree r s (inr (inr m)) ms h = elim m [ ]
routes-PrefixFree r s (inl er) (inr (inl es)) h = absurd (cc (rw (er, es) at h))
routes-PrefixFree r s (inr (inl er)) (inl es) h = absurd (cc (rw (er, es) at h))

match_route-prefixed_test :
    match_route routes (files_route.prefix ++ codes "read") ≡ some (files_route, codes "read")
match_route-prefixed_test =
    match_route-prefixed routes files_route (codes "read") routes-PrefixFree (inl refl)

fs_read_routed : match_route routes (codes "fs_read") ≡ some (files_route, codes "read")
unfolding match_route best_route has_prefix
fs_read_routed = refl

match_route_sound_example :
    IsBest (codes "fs_read") routes files_route
    × (files_route.prefix ++ codes "read" ≡ codes "fs_read")
match_route_sound_example =
    match_route_sound routes (codes "fs_read") files_route (codes "read") fs_read_routed

match_route-none_iff_test :
    (match_route routes (codes "read") ≡ none)
    ↔ ((s : Route) → In s routes → ¬ Fits (codes "read") s)
match_route-none_iff_test = match_route-none_iff routes (codes "read")

abbrev pub nested : Backend
nested = backend (codes "files2") (codes "fs_x_")

merge_capabilities_union_test :
    ((offers tools (merge_capabilities (none ∷ some only_logging ∷ [])) ≡ true)
      ↔ AnyOffers tools (none ∷ some only_logging ∷ []))
    × ((merge_capabilities (none ∷ some only_logging ∷ [])).logging ≡ true)
merge_capabilities_union_test = merge_capabilities_union tools (none ∷ some only_logging ∷ [])

abbrev bare_tool : Tool
bare_tool = record { name = codes "read"; input_schema = none; rest = [] }

refresh_all-last_test :
    lookup
      (codes "fs_read")
      (refresh_all plain_json (codes "fs_") (bare_tool ∷ read_tool ∷ bare_tool ∷ []) [])
    ≡ some (codes "schema")
unfolding compile_schema
refresh_all-last_test =
    refresh_all-last plain_json (codes "fs_") (codes "fs_read") (bare_tool ∷ []) (bare_tool ∷ [])
      read_tool (codes "schema") [] refl refl (inr refl, tt)

refresh_all-IsSilent_example :
    lookup
      (codes "fs_read")
      (refresh_all plain_json (codes "fs_") (bare_tool ∷ []) ((codes "fs_read", codes "old") ∷ []))
    ≡ lookup (codes "fs_read") ((codes "fs_read", codes "old") ∷ [])
refresh_all-IsSilent_example =
    refresh_all-IsSilent plain_json (codes "fs_") (codes "fs_read") (bare_tool ∷ [])
      ((codes "fs_read", codes "old") ∷ []) (inr refl, tt)

-- Every backend lists the one tool; the number counts the requests.
abbrev one_tool : Upstream ℕ
one_tool = record {
  list_tools = λ backend count. (ok (read_tool ∷ []), suc count);
  call_tool = λ backend params count. (ok none, suc count);
}

both_listed :
    (list_tools plain_json one_tool routes [] 0).0
    ≡ ok (prefixed files_route read_tool ∷ prefixed search_route read_tool ∷ [])
unfolding list_tools list_from
both_listed = refl

list_tools-callable_example :
    (f : IsFrom one_tool routes (prefixed search_route read_tool)) × (match_route routes
        (codes "web_read")
      ≡ some (f.route, f.tool.name))
list_tools-callable_example =
    list_tools-callable plain_json one_tool routes [] 0
      (prefixed files_route read_tool ∷ prefixed search_route read_tool ∷ [])
      (prefixed search_route read_tool) routes-PrefixFree both_listed (inr (inl refl))
