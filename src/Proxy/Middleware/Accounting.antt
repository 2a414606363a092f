-- ===== src/Proxy/Middleware/Accounting.antt =====
-- What the counters and the log hold after any run of requests.
use mcp_resile.Base.{
  ℕ, Bytes, Option, none, some, List, [], ◌∷◌, ◌++◌, map, ◌≡◌, ◌∙◌, ap, refl, ◌⊎◌, inl, inr, All,
  All-append, Bool-cases, Option-cases, str_eq,
}
use mcp_resile.Proxy.Errors.{Outcome}
use mcp_resile.Proxy.Route.{match_route}
use mcp_resile.Proxy.Upstream.{CallParams}
use mcp_resile.Proxy.Dispatch.{info, warn, LogEntry, Gateway, Setup, call_tool}
use mcp_resile.Proxy.Dispatch.Errors.{IsCoarse}
use mcp_resile.Proxy.Dispatch.Calls.{IsRecorded, call_tool-IsRecorded}
use mcp_resile.Proxy.Middleware.{method_list_tools, method_call_tool, Request, handle, serve}

abbrev pub accounted : LogEntry → Bytes × Outcome
accounted e = (e.tool, e.outcome)

-- The log has one entry for each recorded request, in order, with its tool and outcome; no outcome
-- tells a rejection, and no entry is at level error.
pub record IsAccounted {W : Type 0} (g : Gateway W) : Type 0 where
  pub agree : map accounted g.log ≡ g.requests
  pub coarse : All (λ r. IsCoarse r.1) g.requests
  pub levels : All (λ e. (e.level ≡ info) ⊎ (e.level ≡ warn)) g.log

map-append : {A B : Type 0} (f : A → B) (xs ys : List A) → map f (xs ++ ys) ≡ map f xs ++ map f ys
map-append f [] ys = refl
map-append f (x ∷ xs) ys = ap (◌∷◌ (f x)) (map-append f xs ys)

recorded-IsAccounted :
    {W : Type 0} (g after : Gateway W) (tool backend : Bytes)
    → IsAccounted g
    → IsRecorded g after tool backend
    → IsAccounted after
recorded-IsAccounted g after tool backend a r = record {
  agree =
      rw (r.log, r.requests, map-append)
        (ap (λ x. x ++ accounted r.entry ∷ []) a.agree
          ∙ ap (λ x. g.requests ++ x ∷ []) (cc (r.same_tool, r.same_outcome)));
  coarse = rw r.requests (All-append _ g.requests _ a.coarse (r.coarse, tt));
  levels = rw r.log (All-append _ g.log _ a.levels (r.level, tt));
}

same_accounts :
    {W : Type 0} (g after : Gateway W)
    → g.log ≡ after.log
    → g.requests ≡ after.requests
    → IsAccounted g
    → IsAccounted after
same_accounts g after l r a = record {
  agree = rw (← l, ← r) a.agree;
  coarse = rw (← r) a.coarse;
  levels = rw (← l) a.levels;
}

module _ {W : Type 0} (s : Setup W) where
  call_tool-IsAccounted :
      (params : Option CallParams) (session : Option ℕ) (g : Gateway W)
      → IsAccounted g
      → IsAccounted (call_tool s params session g).1
  unfolding call_tool
  call_tool-IsAccounted none session g a = a
  call_tool-IsAccounted (some params) session g a =
      elim (Option-cases (match_route s.routes params.name)) [
        | inl e ↦ rw (e, call_tool) a
        | inr ((route, name), e) ↦
            recorded-IsAccounted g _ params.name route.id a
              (call_tool-IsRecorded s params session g route name e)
      ]

  handle-IsAccounted : (r : Request) (g : Gateway W) → IsAccounted g → IsAccounted (handle s r g).1
  unfolding handle
  handle-IsAccounted r g a = elim (Bool-cases (str_eq r.method method_list_tools)) [
    | inl listing ↦ rw listing (same_accounts g _ refl refl a)
    | inr h ↦ elim (Bool-cases (str_eq r.method method_call_tool)) [
      | inl calling ↦ rw (h, calling) (call_tool-IsAccounted r.params r.session g a)
      | inr other ↦ rw (h, other) a
    ]
  ]

-- Over any run of requests, and whatever the libraries and backends do, the request counter and
-- the log stay in step: one entry for each counted request, in order, with its tool and outcome;
-- no outcome tells a panic, an open circuit, a rate limit or a timeout, and no entry is at level
-- error.
pub serve-IsAccounted :
    {W : Type 0} (s : Setup W) (rs : List Request) (g : Gateway W)
    → IsAccounted g
    → IsAccounted (serve s rs g)
unfolding serve
serve-IsAccounted s [] g a = a
serve-IsAccounted s (r ∷ rs) g a =
    serve-IsAccounted s rs (handle s r g).1 (handle-IsAccounted s r g a)
