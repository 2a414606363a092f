-- ===== src/Proxy/Concurrent/Alone.antt =====
-- A call of internal/proxy/proxy.go that no other goroutine interrupts, as far as its validation.
use mcp_resile.Base.{
  ℕ, zero, suc, ◌+◌, Bytes, Option, none, some, List, [], ◌∷◌, ◌++◌, ◌≡◌, ◌∙◌, ap, refl,
  Option-cases, inl, inr, arith,
}
use mcp_resile.Errors.{Result, ok, err}
use mcp_resile.Policy
use mcp_resile.Proxy.Listing.Callable.{Result-cases}
use mcp_resile.Proxy.Options.{options_for}
use mcp_resile.Proxy.Schema.{Tool, get, refresh, refresh_all}
use mcp_resile.Proxy.Dispatch.{Setup, resolve_tool, violation, forwarded}
use mcp_resile.Proxy.Dispatch.Resolving.{hit, listed_now, unlisted}
use mcp_resile.Proxy.Concurrent.{
  Shared, Job, Place, resolving, fetching, filling, checking, running, Input, silent, lists,
  replies, move, after_lookup, after_listing,
}

module _ {W : Type 0} (s : Setup W) (j : Job) where
  -- What the libraries and the backend of the setup answer to a call that is at this place.
  abbrev pub ask : Place → W → Input × W
  ask fetching w = let (reply, v) = s.upstream.list_tools j.route.backend w in (lists reply, v)
  ask (running token) w =
      let (reply, v) =
        s.resile_do (options_for (Policy.resolve s.path_match s.policies j.name) j.params.name)
          (s.upstream.call_tool j.route.backend (forwarded s j.name j.params token)) w in
      (replies reply, v)
  ask _ w = (silent, w)

  abbrev pub once : Shared × Place × W → Shared × Place × W
  once (g, p, w) = let (input, v) = ask p w in let (g', p') = move s j input g p in (g', p', v)

  -- The next `n` pieces of the call, with no other goroutine between them.
  pub alone : ℕ → Shared × Place × W → Shared × Place × W
  alone zero x = x
  alone (suc n) x = alone n (once x)

  -- Some number of pieces lead from here to there.
  abbrev pub Leads : Shared × Place × W → Shared × Place × W → Type 0
  Leads x y = (n : ℕ) × (alone n x ≡ y)

  alone-add : (m n : ℕ) (x : Shared × Place × W) → alone (m + n) x ≡ alone n (alone m x)
  unfolding alone
  alone-add zero n x = let none_more : 0 + n ≡ n = omega arith in ap (λ k. alone k x) none_more
  alone-add (suc m) n x =
      let shift : suc m + n ≡ suc (m + n) = omega arith in
      ap (λ k. alone k x) shift ∙ alone-add m n (once x)

  pub Leads-trans : (x y z : Shared × Place × W) → Leads x y → Leads y z → Leads x z
  Leads-trans x y z (m, e) (n, f) = (m + n, alone-add m n x ∙ ap (alone n) e ∙ f)

  pub Leads-once : (x y z : Shared × Place × W) → once x ≡ y → Leads y z → Leads x z
  unfolding alone
  Leads-once x y z e (n, f) = (suc n, ap (alone n) e ∙ f)

  fill :
      (ts : List Tool) (g : Shared) (w : W)
      → let filled = refresh_all s.json j.route.prefix ts g.cache in
        Leads
          (g, filling ts, w)
          (record g { cache = filled }, checking (get j.params.name filled), w)
  unfolding move refresh_all
  fill [] g w = (1, unfold alone in refl)
  fill (t ∷ ts) g w =
      Leads-once _ _ _ refl
        (fill ts (record g { cache = refresh s.json (j.route.prefix ++ t.name) t g.cache }) w)

  -- The schema that resolving found; an error finds none.
  abbrev pub found : Result (Option Bytes) → Option Bytes
  found (ok o) = o
  found (err e) = none

  pub found-violation :
      (r : Result (Option Bytes)) (name arguments : Bytes)
      → violation s r name arguments ≡ violation s (ok (found r)) name arguments
  found-violation (ok none) name arguments = refl
  found-violation (ok (some c)) name arguments = refl
  found-violation (err e) name arguments = refl

  pub stays : (x : Shared × Place × W) → Leads x x
  unfolding alone
  stays x = (0, refl)

  pub resolve :
      (g : Shared) (w : W)
      → let (r, cache, v) = resolve_tool s j.route j.params.name g.cache w in
        Leads (g, resolving, w) (record g { cache = cache }, checking (found r), v)
  unfolding move
  resolve g w = elim (Option-cases (get j.params.name g.cache)) [
    | inr (c, e) ↦
        rw (hit s j.route j.params.name g.cache w c e)
          (Leads-once _ _ _ (ap (λ o. (g, after_lookup s o, w)) e) (stays _))
    | inl miss ↦ elim (Result-cases (s.upstream.list_tools j.route.backend w).0) [
      | inl (tools, listed) ↦
          let v = (s.upstream.list_tools j.route.backend w).1 in
          rw (listed_now s j.route j.params.name g.cache w tools miss listed) (
            Leads-once _ _ _ (ap (λ o. (g, after_lookup s o, w)) miss)
              (Leads-once _ _ _ (ap (λ r. (g, after_listing s r, v)) listed) (fill tools g v)))
      | inr (x, failed) ↦
          let v = (s.upstream.list_tools j.route.backend w).1 in
          rw (unlisted s j.route j.params.name g.cache w x miss failed) (
            Leads-once _ _ _ (ap (λ o. (g, after_lookup s o, w)) miss)
              (Leads-once _ _ _ (ap (λ r. (g, after_listing s r, v)) failed) (stays _)))
    ]
  ]
