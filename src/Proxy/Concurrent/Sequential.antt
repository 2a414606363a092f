-- ===== src/Proxy/Concurrent/Sequential.antt =====
-- A call that no other goroutine interrupts, against the sequential model of internal/proxy/proxy.go.
use mcp_resile.Base.{
  ℕ, Bytes, Option, none, some, List, ◌∷◌, map, is_empty, if◌then◌else◌, ◌≡◌, ◌∙◌, sym, ap, refl,
  Option-cases, inl, inr, arith,
}
use mcp_resile.Errors.{ok}
use mcp_resile.Policy
use mcp_resile.Proxy.Options.{options_for}
use mcp_resile.Proxy.Route.{match_route}
use mcp_resile.Proxy.Upstream.{CallParams}
use mcp_resile.Proxy.Notifications.{ProgressToken, Router, track_progress}
use mcp_resile.Proxy.Notifications.Runs.{World, Timer, track}
use mcp_resile.Proxy.Dispatch.{
  Gateway, Setup, Reply, resolve_tool, violation, tracked, forwarded, run_dispatch, after_check,
  dispatch_tool, recorded, answered, call_tool,
}
use mcp_resile.Proxy.Concurrent.{
  Shared, Job, Place, resolving, tracking, checking, recording, finished, track_for, track_call,
  close_call, move, after_validation,
}
use mcp_resile.Proxy.Concurrent.Alone.{
  Leads, Leads-trans, Leads-once, found, found-violation, stays, resolve,
}

module _ {W : Type 0} (s : Setup W) (j : Job) where
  -- The gateway as calls one after the other see it.
  abbrev pub seen : Shared → W → Gateway W
  seen g w = record {
    cache = g.cache;
    router = g.progress.router;
    cleanups = map (λ t. t.token) g.progress.timers;
    requests = g.requests;
    log = g.log;
    world = w;
  }

  -- The dispatch comes to its end with the reply, in the gateway that is seen then.
  abbrev pub Replies : Shared × Place × W → Reply × Gateway W → Type 0
  Replies x (reply, after) =
      (g : Shared) × (w : W) × Leads s j x (g, recording reply, w) × (seen g w ≡ after)

  -- TrackProgress of the two models.
  record Tracks (w : World) (mine : Bytes × World) (theirs : Bytes × Router) : Type 0 where
    token : theirs.0 ≡ mine.0
    router : theirs.1 ≡ mine.1.router
    timers : mine.1.timers ≡ w.timers

  track_for-Tracks :
      (session : ℕ) (token : Option ProgressToken) (w : World)
      → Tracks w (track_for session token w) (track_progress session token w.router)
  unfolding track track_progress
  track_for-Tracks session none w = record { token = refl; router = refl; timers = refl }
  track_for-Tracks session (some original) w = record { token = refl; router = refl; timers = refl }

  track_call-Tracks :
      (session : Option ℕ) (params : CallParams) (w : World)
      → Tracks w (track_call session params w) (tracked s session params w.router)
  track_call-Tracks none params w = record { token = refl; router = refl; timers = refl }
  track_call-Tracks (some session) params w = track_for-Tracks session params.progress_token w

  close_call-router : (token : Bytes) (w : World) → (close_call token w).router ≡ w.router
  close_call-router token w = ground arith

  close_call-timers :
      (token : Bytes) (w : World)
      → map (λ t. t.token) (close_call token w).timers ≡ (
          if is_empty token
          then map (λ t. t.token) w.timers
          else token ∷ map (λ t. t.token) w.timers)
  close_call-timers token w = ground arith

  run :
      (g : Shared) (w : W)
      → Replies (g, tracking, w) (run_dispatch s j.route j.name j.params j.session (seen g w))
  unfolding run_dispatch move
  run g w =
      let t = track_call-Tracks j.session j.params g.progress in
      let (token, progress) = track_call j.session j.params g.progress in
      let (reply, v) =
        s.resile_do (options_for (Policy.resolve s.path_match s.policies j.name) j.params.name)
          (s.upstream.call_tool j.route.backend (forwarded s j.name j.params token)) w in
      let final : Shared = record g { progress = close_call token progress } in
      let at_end : Router → List Bytes → Gateway W =
        λ router tokens. record (seen g v) { router = router; cleanups = tokens } in
      let tokens : List Timer → List Bytes = map (λ t. t.token) in
      let cleaned =
        close_call-timers token progress
        ∙ ap (λ ts. if is_empty token then tokens ts else token ∷ tokens ts) t.timers in
      rw (t.token, t.router)
        (
          final,
          v,
          Leads-once s j _ _ _ refl
              (Leads-once s j _ _ _ refl (Leads-once s j _ _ _ refl (stays s j _))),
          ap (λ r. at_end r (map (λ t. t.token) final.progress.timers))
                (close_call-router token progress)
              ∙ ap (at_end progress.router) cleaned,
        )

  -- A call after another number of pieces.
  Replies-trans :
      (x y : Shared × Place × W) (r : Reply × Gateway W) → Leads s j x y → Replies y r → Replies x r
  Replies-trans x y r l (g, w, m, e) = (g, w, Leads-trans s j x y _ l m, e)

  check :
      (o : Option Bytes) (g : Shared) (w : W)
      → Replies
          (g, checking o, w)
          (after_check s
            (violation s (ok o) j.name j.params.arguments)
            (seen g w)
            (run_dispatch s j.route j.name j.params j.session (seen g w)))
  unfolding move
  check o g w = elim (Option-cases (violation s (ok o) j.name j.params.arguments)) [
    | inr (e, bad) ↦ rw bad (
      g,
      w,
      Leads-once s j _ _ _ (ap (λ v. (g, after_validation s v, w)) bad) (stays s j _),
      refl,
    )
    | inl fits ↦ rw fits (
        Replies-trans _ _ _
          (Leads-once s j _ _ _ (ap (λ v. (g, after_validation s v, w)) fits) (stays s j _))
          (run g w))
  ]

  dispatch :
      (g : Shared) (w : W)
      → Replies (g, resolving, w) (dispatch_tool s j.route j.name j.params j.session (seen g w))
  unfolding dispatch_tool
  dispatch g w =
      let (r, cache, v) = resolve_tool s j.route j.params.name g.cache w in
      let checked = check (found s j r) (record g { cache = cache }) v in
      Replies-trans _ _ _ (resolve s j g w)
        (rw (found-violation s j r j.name j.params.arguments) checked)

alone-dispatch_tool :
    {W : Type 0} (s : Setup W) (j : Job) (g : Shared) (w : W)
    → let (reply, after) = dispatch_tool s j.route j.name j.params j.session (seen s j g w) in
      (g' : Shared) × (w' : W) × Leads s j (g, resolving, w) (g', finished reply, w')
      × (seen s j g' w' ≡ recorded s j.params.name j.route.id reply after)
unfolding move
alone-dispatch_tool s j g w =
    let (g', w', l, e) = dispatch s j g w in
    let (reply, after) = dispatch_tool s j.route j.name j.params j.session (seen s j g w) in
    (
      _,
      w',
      Leads-trans s j _ _ _ l (Leads-once s j _ _ _ refl (Leads-once s j _ _ _ refl (stays s j _))),
      ap (recorded s j.params.name j.route.id reply) e,
    )

-- A request that a route matches, and that no other goroutine interrupts, runs to its end as the
-- whole callTool does: after some number of pieces it has finished with callTool's reply, and leaves
-- the cache, the router, the cleanups to come, the counter, the log and the outside world of callTool.
pub alone-call_tool :
    {W : Type 0} (s : Setup W) (j : Job) (g : Shared) (w : W)
    → match_route s.routes j.params.name ≡ some (j.route, j.name)
    → (reply : Reply) × (g' : Shared) × (w' : W) × Leads s j
        (g, resolving, w)
        (g', finished reply, w')
      × (call_tool s (some j.params) j.session (seen s j g w) ≡ (answered reply, seen s j g' w'))
unfolding call_tool
alone-call_tool s j g w matched =
    let (g', w', l, e) = alone-dispatch_tool s j g w in
    let reply = (dispatch_tool s j.route j.name j.params j.session (seen s j g w)).0 in
    (reply, g', w', l, rw (matched, call_tool) (ap (λ x. (answered reply, x)) (sym e)))
