-- ===== src/Proxy/Dispatch/Attempts.antt =====
-- How often a tools/call reaches its backend, internal/proxy/proxy.go.
use mcp_resile.Base.{
  ℕ, suc, ◌+◌, ◌≤◌, Bytes, Option, none, some, List, ◌≡◌, refl, arith, ap, Option-cases, inl, inr,
}
use mcp_resile.Errors.{GoError}
use mcp_resile.Policy.{resolve}
use mcp_resile.Proxy.Listing.Callable.{Result-cases}
use mcp_resile.Proxy.Route.{Route, match_route}
use mcp_resile.Proxy.Schema.{SchemaCache, get}
use mcp_resile.Proxy.Upstream.{CallParams}
use mcp_resile.Proxy.Options.{ResileOption, options_for}
use mcp_resile.Proxy.Options.Effective.{effective, attempts_of, retries_of, options_effective}
use mcp_resile.Proxy.Dispatch.{
  Reply, Gateway, Setup, resolve_tool, violation, tracked, forwarded, run_dispatch, after_check,
  dispatch_tool, call_tool,
}

-- `calls w` is how many tools/call the backends have received: a listing adds none, a call one, and
-- resile.Do makes at most as many attempts as the options set.
pub record HonoursAttempts {W : Type 0} (s : Setup W) (calls : W → ℕ) : Type 0 where
  pub listing : (backend : ℕ) (w : W) → calls (s.upstream.list_tools backend w).1 ≡ calls w
  pub calling :
      (backend : ℕ) (params : CallParams) (w : W)
      → calls (s.upstream.call_tool backend params w).1 ≡ suc (calls w)
  pub attempts :
      (options : List ResileOption) (dispatch : W → Reply × W) (n : ℕ) (w : W)
      → (effective options).max_attempts ≡ some n
      → ((v : W) → calls (dispatch v).1 ≤ suc (calls v))
      → calls (s.resile_do options dispatch w).1 ≤ calls w + n

module _ {W : Type 0} (s : Setup W) (calls : W → ℕ) (h : HonoursAttempts s calls) where
  -- The attempts that the policy which governs the tool grants.
  abbrev pub granted : Bytes → ℕ
  granted name = attempts_of (retries_of (resolve s.path_match s.policies name))

  resolve_tool-calls :
      (route : Route) (full_name : Bytes) (cache : SchemaCache) (w : W)
      → calls (resolve_tool s route full_name cache w).2 ≡ calls w
  unfolding resolve_tool
  resolve_tool-calls route full_name cache w = elim (Option-cases (get full_name cache)) [
    | inr (c, e) ↦ rw (e, resolve_tool) refl
    | inl e ↦ elim (Result-cases (s.upstream.list_tools route.backend w).0) [
      | inl (tools, listed) ↦ rw (e, listed, resolve_tool) (h.listing route.backend w)
      | inr (x, failed) ↦ rw (e, failed, resolve_tool) (h.listing route.backend w)
    ]
  ]

  run_dispatch-calls :
      (route : Route) (name : Bytes) (params : CallParams) (session : Option ℕ) (g : Gateway W)
      → calls (run_dispatch s route name params session g).1.world ≤ calls g.world + granted name
  unfolding run_dispatch
  run_dispatch-calls route name params session g =
      let p = resolve s.path_match s.policies name in
      let (token, _) = tracked s session params g.router in
      h.attempts (options_for p params.name)
        (s.upstream.call_tool route.backend (forwarded s name params token))
        (attempts_of (retries_of p)) g.world
        (ap (λ o. o.max_attempts) (options_effective p params.name))
        (λ v. omega (arith, h.calling route.backend (forwarded s name params token) v))

  after_check-calls :
      (o : Option GoError) (after : Gateway W) (rest : Reply × Gateway W) (n : ℕ)
      → calls rest.1.world ≤ calls after.world + n
      → calls (after_check s o after rest).1.world ≤ calls after.world + n
  after_check-calls none after rest n small = small
  after_check-calls (some e) after rest n small = omega arith

  dispatch_tool-calls :
      (route : Route) (name : Bytes) (params : CallParams) (session : Option ℕ) (g : Gateway W)
      → calls (dispatch_tool s route name params session g).1.world ≤ calls g.world + granted name
  unfolding dispatch_tool
  dispatch_tool-calls route name params session g =
      let r = resolve_tool s route params.name g.cache g.world in
      let after = record g { cache = r.1; world = r.2 } in
      omega (
        arith,
        resolve_tool-calls route params.name g.cache g.world,
        after_check-calls (violation s r.0 name params.arguments) after
            (run_dispatch s route name params session after) (granted name)
            (run_dispatch-calls route name params session after),
      )

-- A tools/call that a route matches reaches a backend at most as often as the retries of the policy
-- that governs the tool allow, and at most once if no policy governs it or its policy has no retries:
-- if resile.Do makes no more attempts than its options set, each of one call, and a listing is no call.
pub call_tool-attempts :
    {W : Type 0} (s : Setup W) (calls : W → ℕ) (params : CallParams) (session : Option ℕ)
    (g : Gateway W) (route : Route) (name : Bytes)
    → HonoursAttempts s calls
    → match_route s.routes params.name ≡ some (route, name)
    → calls (call_tool s (some params) session g).1.world
      ≤ calls g.world + attempts_of (retries_of (resolve s.path_match s.policies name))
unfolding call_tool
call_tool-attempts s calls params session g route name h found =
    rw (found, call_tool) (dispatch_tool-calls s calls h route name params session g)
