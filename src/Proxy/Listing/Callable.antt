-- ===== src/Proxy/Listing/Callable.antt =====
-- The tools that listTools of internal/proxy/proxy.go merges, and where matchRoute sends them.
use mcp_resile.Base.{List, [], ◌∷◌, ◌++◌, map, ◌≡◌, refl, In, inl, inr, ◌⊎◌, some, ap, sym, ◌∙◌}
use mcp_resile.Errors.{GoError, Result, ok, err}
use mcp_resile.Proxy.Route.{Route, match_route}
use mcp_resile.Proxy.Route.Matching.{PrefixFree, match_route-prefixed}
use mcp_resile.Proxy.Schema.{Tool, Json, SchemaCache, refresh_all}
use mcp_resile.Proxy.Upstream.{Upstream}
use mcp_resile.Proxy.Listing.{prefixed, list_from, list_tools, listing_error}

-- A listed route's backend returned `tool` in some state of the world, and `listed` is that tool
-- under the route's prefix.
pub record IsFrom {W : Type 0} (up : Upstream W) (routes : List Route) (listed : Tool)
    : Type 0 where
  pub route : Route
  pub tool : Tool
  pub on : In route routes
  pub world : W
  pub tools : List Tool
  pub returned : (up.list_tools route.backend world).0 ≡ ok tools
  pub among : In tool tools
  pub renamed : listed ≡ prefixed route tool

In-append_cases : {A : Type 0} (a : A) (xs ys : List A) → In a (xs ++ ys) → In a xs ⊎ In a ys
In-append_cases a [] ys m = inr m
In-append_cases a (x ∷ xs) ys (inl e) = inl (inl e)
In-append_cases a (x ∷ xs) ys (inr m) = elim (In-append_cases a xs ys m) [
  | inl i ↦ inl (inr i)
  | inr i ↦ inr i
]

In-map_inv :
    {A B : Type 0} (f : A → B) (b : B) (xs : List A)
    → In b (map f xs)
    → (a : A) × In a xs × (b ≡ f a)
In-map_inv f b [] m = absurd m
In-map_inv f b (x ∷ xs) (inl e) = (x, inl refl, e)
In-map_inv f b (x ∷ xs) (inr m) = let (a, i, e) = In-map_inv f b xs m in (a, inr i, e)

pub Result-cases :
    {A : Type 0} (r : Result A) → ((a : A) × (r ≡ ok a)) ⊎ ((e : GoError) × (r ≡ err e))
Result-cases (ok a) = inl (a, refl)
Result-cases (err e) = inr (e, refl)

pub ok-not_err : {A : Type 0} {a : A} {e : GoError} → ¬ (ok a ≡ err e)
ok-not_err e = cc

module _ {W : Type 0} (json : Json) (up : Upstream W) where
  pub list_from-ok :
      (merged : List Tool) (r : Route) (rs : List Route) (cache : SchemaCache) (w : W)
      (tools : List Tool)
      → (up.list_tools r.backend w).0 ≡ ok tools
      → list_from json up merged (r ∷ rs) cache w
        ≡ list_from json up
            (merged ++ map (prefixed r) tools)
            rs
            (refresh_all json r.prefix tools cache)
            (up.list_tools r.backend w).1
  unfolding list_from
  list_from-ok merged r rs cache w tools e = rw (e, list_from)

  pub list_from-err :
      (merged : List Tool) (r : Route) (rs : List Route) (cache : SchemaCache) (w : W) (e : GoError)
      → (up.list_tools r.backend w).0 ≡ err e
      → (list_from json up merged (r ∷ rs) cache w).0 ≡ err (listing_error r.prefix e)
  unfolding list_from
  list_from-err merged r rs cache w e h = rw (h, list_from)

  pub list_from-nil :
      (merged : List Tool) (cache : SchemaCache) (w : W) {out : List Tool}
      → (list_from json up merged [] cache w).0 ≡ ok out
      → merged ≡ out
  unfolding list_from
  list_from-nil merged cache w e = cc

  IsFrom-cons : {r : Route} {rs : List Route} {t : Tool} → IsFrom up rs t → IsFrom up (r ∷ rs) t
  IsFrom-cons f = record {
    route = f.route;
    tool = f.tool;
    on = inr f.on;
    world = f.world;
    tools = f.tools;
    returned = f.returned;
    among = f.among;
    renamed = f.renamed;
  }

  head-IsFrom :
      (r : Route) (rs : List Route) (w : W) (tools : List Tool) (t : Tool)
      → (up.list_tools r.backend w).0 ≡ ok tools
      → In t (map (prefixed r) tools)
      → IsFrom up (r ∷ rs) t
  head-IsFrom r rs w tools t e m =
      let (tool, among, renamed) = In-map_inv (prefixed r) t tools m in
      record {
        route = r;
        tool = tool;
        on = inl refl;
        world = w;
        tools = tools;
        returned = e;
        among = among;
        renamed = renamed;
      }

  list_from-IsFrom :
      (merged : List Tool) (rs : List Route) (cache : SchemaCache) (w : W) (out : List Tool)
      (t : Tool)
      → (list_from json up merged rs cache w).0 ≡ ok out
      → In t out
      → In t merged ⊎ IsFrom up rs t
  list_from-IsFrom merged [] cache w out t e m = inl (rw (list_from-nil merged cache w e) m)
  list_from-IsFrom merged (r ∷ rs) cache w out t e m =
      elim (Result-cases (up.list_tools r.backend w).0) [
        | inr (x, failed) ↦ absurd (ok-not_err (sym e ∙ list_from-err merged r rs cache w x failed))
        | inl (tools, returned) ↦
            let step = ap (λ p. p.0) (list_from-ok merged r rs cache w tools returned) in
            elim (list_from-IsFrom (merged ++ map (prefixed r) tools) rs
              (refresh_all json r.prefix tools cache) (up.list_tools r.backend w).1 out t
              (sym step ∙ e) m) [
                | inr f ↦ inr (IsFrom-cons f)
                | inl i ↦ elim (In-append_cases t merged (map (prefixed r) tools) i) [
                  | inl old ↦ inl old
                  | inr new ↦ inr (head-IsFrom r rs w tools t returned new)
                ]
              ]
      ]

-- Listing and calling agree: where no route's prefix begins with another's, every tool of a merged
-- list comes from a listed route's backend under that route's prefix, and a call of the listed name
-- is routed to that route with the backend's own name for the tool.
pub list_tools-callable :
    {W : Type 0} (json : Json) (up : Upstream W) (routes : List Route) (cache : SchemaCache) (w : W)
    (out : List Tool) (t : Tool)
    → PrefixFree routes
    → (list_tools json up routes cache w).0 ≡ ok out
    → In t out
    → (f : IsFrom up routes t) × (match_route routes t.name ≡ some (f.route, f.tool.name))
unfolding list_tools
list_tools-callable json up routes cache w out t free e m =
    elim (list_from-IsFrom json up [] routes cache w out t e m) [
      | inl none_merged ↦ absurd none_merged
      | inr f ↦ (
        f,
        ap (λ (x : Tool). match_route routes x.name) f.renamed
            ∙ match_route-prefixed routes f.route f.tool.name free f.on,
      )
    ]
