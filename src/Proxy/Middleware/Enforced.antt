-- ===== src/Proxy/Middleware/Enforced.antt =====
-- A listing of internal/proxy/proxy.go and a call that comes after it.
use mcp_resile.Base.{
  ℕ, Bytes, Option, none, some, List, [], ◌∷◌, ◌++◌, map, ◌≡◌, ◌∙◌, sym, ap, refl, All, inl, inr,
  append_assoc, append-nil, str_eq,
}
use mcp_resile.Errors.{GoError, ok, err}
use mcp_resile.Base.Dict.{lookup}
use mcp_resile.Proxy.Route.{Route, match_route}
use mcp_resile.Proxy.Schema.{Tool, Json, SchemaCache, refresh, refresh_all, validate_arguments}
use mcp_resile.Proxy.Schema.Caching.{schema_of, IsSilent, refresh_all-last}
use mcp_resile.Proxy.Upstream.{Upstream, CallParams}
use mcp_resile.Proxy.Listing.{prefixed, list_from, list_tools}
use mcp_resile.Proxy.Listing.Callable.{
  Result-cases, list_from-ok, list_from-err, list_from-nil, ok-not_err,
}
use mcp_resile.Proxy.Dispatch.{
  Gateway, Setup, Answer, Reply, answered, recorded, dispatch_tool, call_tool,
}
use mcp_resile.Proxy.Dispatch.Calls.{dispatch_tool-violation}
use mcp_resile.Proxy.Middleware.{method_list_tools, method_call_tool, Request, called, handle}

refresh_all-append :
    (json : Json) (ts us : List Tool) (cache : SchemaCache)
    → refresh_all json [] (ts ++ us) cache ≡ refresh_all json [] us (refresh_all json [] ts cache)
unfolding refresh_all
refresh_all-append json [] us cache = refl
refresh_all-append json (t ∷ ts) us cache = refresh_all-append json ts us _

refresh_all-prefixed :
    (json : Json) (r : Route) (ts : List Tool) (cache : SchemaCache)
    → refresh_all json r.prefix ts cache ≡ refresh_all json [] (map (prefixed r) ts) cache
unfolding refresh_all refresh
refresh_all-prefixed json r [] cache = refl
refresh_all-prefixed json r (t ∷ ts) cache = refresh_all-prefixed json r ts _

-- The tools that the routes added, and the cache that the tools leave.
record Lists (json : Json) (merged out : List Tool) (cache after : SchemaCache) : Type 0 where
  added : List Tool
  split : out ≡ merged ++ added
  cached : after ≡ refresh_all json [] added cache

module _ {W : Type 0} (json : Json) (up : Upstream W) where
  list_from-Lists :
      (merged : List Tool) (rs : List Route) (cache : SchemaCache) (w : W) (out : List Tool)
      → (list_from json up merged rs cache w).0 ≡ ok out
      → Lists json merged out cache (list_from json up merged rs cache w).1
  list_from-Lists merged [] cache w out e = record {
    added = [];
    split = sym (list_from-nil json up merged cache w e) ∙ sym (append-nil merged);
    cached = unfold list_from refresh_all in refl;
  }
  list_from-Lists merged (r ∷ rs) cache w out e =
      elim (Result-cases (up.list_tools r.backend w).0) [
        | inr (x, failed) ↦
            absurd (ok-not_err (sym e ∙ list_from-err json up merged r rs cache w x failed))
        | inl (tools, returned) ↦
            let step = list_from-ok json up merged r rs cache w tools returned in
            let mine = map (prefixed r) tools in
            let rest =
              list_from-Lists (merged ++ mine) rs (refresh_all json r.prefix tools cache)
                (up.list_tools r.backend w).1 out (sym (ap (λ p. p.0) step) ∙ e) in
            record {
              added = mine ++ rest.added;
              split = rest.split ∙ append_assoc merged mine rest.added;
              cached =
                  ap (λ p. p.1) step
                  ∙ rest.cached
                  ∙ ap (refresh_all json [] rest.added) (refresh_all-prefixed json r tools cache)
                  ∙ sym (refresh_all-append json mine rest.added cache);
            }
      ]

  -- The cache after a listing depends only on what it answers and on the cache before.
  list_tools-cached :
      (routes : List Route) (cache : SchemaCache) (w : W) (out : List Tool)
      → (list_tools json up routes cache w).0 ≡ ok out
      → (list_tools json up routes cache w).1 ≡ refresh_all json [] out cache
  unfolding list_tools
  list_tools-cached routes cache w out e =
      let l = list_from-Lists [] routes cache w out e in
      l.cached ∙ ap (λ ts. refresh_all json [] ts cache) (sym l.split)

abbrev pub list_request : Option ℕ → Request
list_request session = record { method = method_list_tools; params = none; session = session }

abbrev pub call_request : Option ℕ → CallParams → Request
call_request session params = record {
  method = method_call_tool;
  params = some params;
  session = session;
}

module _ {W : Type 0} (s : Setup W) (session : Option ℕ) (g : Gateway W) where
  after_listing :
      (handle s (list_request session) g).1.cache
      ≡ (list_tools s.json s.upstream s.routes g.cache g.world).1
  unfolding handle str_eq
  after_listing = refl

  after_call :
      (params : CallParams)
      → handle s (call_request session params) g
        ≡ (called (call_tool s (some params) session g).0, (call_tool s (some params) session g).1)
  unfolding handle str_eq
  after_call params = refl

  call_tool-found :
      (params : CallParams) (route : Route) (name : Bytes) (r : Reply × Gateway W)
      → match_route s.routes params.name ≡ some (route, name)
      → dispatch_tool s route name params session g ≡ r
      → call_tool s (some params) session g
        ≡ (answered r.0, recorded s params.name route.id r.0 r.1)
  unfolding call_tool
  call_tool-found params route name r found e =
      rw (found, call_tool)
        (ap {B = Answer × Gateway W}
          (λ (d : Reply × Gateway W). (answered d.0, recorded s params.name route.id d.0 d.1)) e)

-- What a client lists is what its calls are held to: after a tools/list that is answered by `out`, a
-- call of a tool in `out` that a route takes, with arguments that the tool's listed schema rejects,
-- is answered by the violation, and the outside world, backends, breakers and limiters included,
-- is as the listing left it; if the schema compiles, and no later tool of that name in `out` has
-- another that does.
pub list_then_call :
    {W : Type 0} (s : Setup W) (session : Option ℕ) (g : Gateway W) (before after : List Tool)
    (t : Tool) (c name : Bytes) (params : CallParams) (route : Route) (e : GoError)
    → (list_tools s.json s.upstream s.routes g.cache g.world).0 ≡ ok (before ++ t ∷ after)
    → schema_of s.json t ≡ some c
    → All (IsSilent s.json [] t.name) after
    → params.name ≡ t.name
    → match_route s.routes params.name ≡ some (route, name)
    → validate_arguments s.json c name params.arguments ≡ some e
    → let listed_once = (handle s (list_request session) g).1 in
      ((handle s (call_request session params) listed_once).0 ≡ called (answered (err e)))
      × ((handle s (call_request session params) listed_once).1.world ≡ listed_once.world)
list_then_call s session g before after t c name params route e answered_by compiles silent named
      found bad =
    let listed_once = (handle s (list_request session) g).1 in
    let cached : lookup params.name listed_once.cache ≡ some c =
      rw
        (
          after_listing s session g,
          list_tools-cached s.json s.upstream s.routes g.cache g.world (before ++ t ∷ after)
              answered_by,
          named,
        )
        (refresh_all-last s.json [] t.name before after t c g.cache refl compiles silent) in
    let refused =
      (dispatch_tool-violation s route name params session listed_once c e cached bad).0 in
    let replied =
      call_tool-found s session listed_once params route name (err e, listed_once) found refused in
    let handled = after_call s session listed_once params in
    (
      ap (λ p. p.0) handled ∙ ap (λ p. called p.0) replied,
      ap (λ p. p.1.world) handled ∙ ap (λ p. p.1.world) replied,
    )
