-- ===== src/Proxy/Dispatch/Resolving.antt =====
-- resolveTool, internal/proxy/schema.go, on two calls of one tool.
use mcp_resile.Base.{
  Bytes, codes, ◌++◌, List, Option, none, some, ◌≡◌, ◌∙◌, sym, ap, refl, Option-cases, inl, inr,
}
use mcp_resile.Errors.{GoError, wrap, ok, err}
use mcp_resile.Proxy.Listing.Callable.{Result-cases, ok-not_err}
use mcp_resile.Proxy.Route.{Route}
use mcp_resile.Proxy.Schema.{Tool, SchemaCache, get, refresh_all}
use mcp_resile.Proxy.Dispatch.{Setup, resolve_tool}

module _ {W : Type 0} (s : Setup W) (route : Route) (full_name : Bytes) where
  -- What resolving does once it has answered `resolved`.
  abbrev pub ResolvesAgain : Option Bytes → SchemaCache → W → Type 0
  ResolvesAgain (some c) cache w = resolve_tool s route full_name cache w ≡ (ok (some c), cache, w)
  ResolvesAgain none cache w =
      (resolve_tool s route full_name cache w).2 ≡ (s.upstream.list_tools route.backend w).1

  pub hit :
      (cache : SchemaCache) (w : W) (c : Bytes)
      → get full_name cache ≡ some c
      → resolve_tool s route full_name cache w ≡ (ok (some c), cache, w)
  unfolding resolve_tool
  hit cache w c e = rw (e, resolve_tool) refl

  pub listed_now :
      (cache : SchemaCache) (w : W) (tools : List Tool)
      → get full_name cache ≡ none
      → (s.upstream.list_tools route.backend w).0 ≡ ok tools
      → let filled = refresh_all s.json route.prefix tools cache in
        resolve_tool s route full_name cache w
        ≡ (ok (get full_name filled), filled, (s.upstream.list_tools route.backend w).1)
  unfolding resolve_tool
  listed_now cache w tools e listed = rw (e, listed, resolve_tool) refl

  pub unlisted :
      (cache : SchemaCache) (w : W) (x : GoError)
      → get full_name cache ≡ none
      → (s.upstream.list_tools route.backend w).0 ≡ err x
      → resolve_tool s route full_name cache w ≡ (
        err (wrap (codes "resolving inputSchema for " ++ full_name) x),
        cache,
        (s.upstream.list_tools route.backend w).1,
      )
  unfolding resolve_tool
  unlisted cache w x e failed = rw (e, failed, resolve_tool) refl

  entry-ResolvesAgain :
      (o : Option Bytes) (cache : SchemaCache) (w : W)
      → get full_name cache ≡ o
      → ResolvesAgain o cache w
  entry-ResolvesAgain (some c) cache w e = hit cache w c e
  entry-ResolvesAgain none cache w e =
      elim (Result-cases (s.upstream.list_tools route.backend w).0) [
        | inl (tools, listed) ↦ ap (λ r. r.2) (listed_now cache w tools e listed)
        | inr (x, failed) ↦ ap (λ r. r.2) (unlisted cache w x e failed)
      ]

  -- What resolving answers is what the cache then has.
  resolve_tool-cached :
      (cache : SchemaCache) (w : W) (resolved : Option Bytes)
      → (resolve_tool s route full_name cache w).0 ≡ ok resolved
      → get full_name (resolve_tool s route full_name cache w).1 ≡ resolved
  resolve_tool-cached cache w resolved e = elim (Option-cases (get full_name cache)) [
    | inr (c, found) ↦
        let step = hit cache w c found in
        let same = sym (ap (λ r. r.0) step) ∙ e in
        ap (λ r. get full_name r.1) step ∙ cc (found, same)
    | inl missing ↦ elim (Result-cases (s.upstream.list_tools route.backend w).0) [
      | inl (tools, listed) ↦
          let step = listed_now cache w tools missing listed in
          let same = sym (ap (λ r. r.0) step) ∙ e in ap (λ r. get full_name r.1) step ∙ cc same
      | inr (x, failed) ↦
          absurd (ok-not_err (sym e ∙ ap (λ r. r.0) (unlisted cache w x missing failed)))
    ]
  ]

-- Once resolving a tool has succeeded, resolving it again gives the same schema without any request
-- and changes nothing; but if there was no schema for the tool, it asks the backend for its tools
-- again.
pub resolve_tool-ResolvesAgain :
    {W : Type 0} (s : Setup W) (route : Route) (full_name : Bytes) (cache : SchemaCache) (w : W)
    (resolved : Option Bytes)
    → (resolve_tool s route full_name cache w).0 ≡ ok resolved
    → ResolvesAgain s route full_name resolved
        (resolve_tool s route full_name cache w).1
        (resolve_tool s route full_name cache w).2
resolve_tool-ResolvesAgain s route full_name cache w resolved e =
    entry-ResolvesAgain s route full_name resolved _ _
      (resolve_tool-cached s route full_name cache w resolved e)
