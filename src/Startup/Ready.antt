-- ===== src/Startup/Ready.antt =====
-- What an accepted configuration gives the gateway that is started from it.
use mcp_resile.Base.{
  Bool, ℕ, ◌<◌, Bytes, Option, none, some, List, [], ◌∷◌, map, ◌≡◌, ◌≢◌, ◌⊎◌, inl, inr, refl, All,
  length, pos, int_le, true,
}
use mcp_resile.Config.Types.{Config, Backend}
use mcp_resile.Config.Validate.Unique.{Distinct, NonEmpty}
use mcp_resile.Config.Load.{Libraries, ok, parse}
use mcp_resile.Config.Load.Valid.{parse_iff}
use mcp_resile.Config.Load.Usable.{HonoursTags, parse-IsUsable}
use mcp_resile.Policy.Resolver.{new_resolver-IsResolver}
use mcp_resile.Proxy.Route.{Route}
use mcp_resile.Proxy.Route.Capabilities.{ServerCapabilities}
use mcp_resile.Proxy.Dispatch.{Setup}
use mcp_resile.Startup.{route_of, add_route, dial_backends, Started, start}

module _ {W : Type 0} (dial : Bytes → W → Option ℕ × W) where
  -- `of_route` reads from a route what `of_backend` reads from its backend.
  module _ (of_backend : Backend → Bytes) (of_route : Route → Bytes)
      (same : (b : Backend) (n : ℕ) → of_route (route_of b n) ≡ of_backend b) where
    add_route-All :
        (P : Bytes → Type 0) (b : Backend) (o : Option ℕ) (routes : List Route)
        → P (of_backend b)
        → All P (map of_route routes)
        → All P (map of_route (add_route b o routes))
    add_route-All P b none routes p ps = ps
    add_route-All P b (some n) routes p ps = (rw same p, ps)

    dial_backends-All :
        (P : Bytes → Type 0) (bs : List Backend) (w : W)
        → All P (map of_backend bs)
        → All P (map of_route (dial_backends dial bs w).0)
    unfolding dial_backends
    dial_backends-All P [] w h = tt
    dial_backends-All P (b ∷ bs) w (p, ps) =
        add_route-All P b (dial b.url w).0 _ p (dial_backends-All P bs (dial b.url w).1 ps)

    add_route-Distinct :
        (b : Backend) (o : Option ℕ) (routes : List Route)
        → All (λ x. of_backend b ≢ x) (map of_route routes)
        → Distinct (map of_route routes)
        → Distinct (map of_route (add_route b o routes))
    add_route-Distinct b none routes new d = d
    add_route-Distinct b (some n) routes new d = (rw same new, d)

    dial_backends-Distinct :
        (bs : List Backend) (w : W)
        → Distinct (map of_backend bs)
        → Distinct (map of_route (dial_backends dial bs w).0)
    unfolding dial_backends
    dial_backends-Distinct [] w h = tt
    dial_backends-Distinct (b ∷ bs) w (new, d) =
        add_route-Distinct b (dial b.url w).0 _
          (dial_backends-All (λ x. of_backend b ≢ x) bs (dial b.url w).1 new)
          (dial_backends-Distinct bs (dial b.url w).1 d)

-- The routes have distinct ids, and distinct prefixes that are not empty unless only one backend is
-- configured; the policies are the configured ones in their order; the response limit is in force.
pub record IsReady {W : Type 0} (cfg : Config) (s : Started W) : Type 0 where
  pub route_ids : Distinct (map (λ r. r.id) s.setup.routes)
  pub namespaces :
      (length cfg.backends < 2)
      ⊎ (All NonEmpty (map (λ r. r.prefix) s.setup.routes)
          × Distinct (map (λ r. r.prefix) s.setup.routes))
  pub policies : map (λ p. p.config) s.setup.policies ≡ cfg.policies
  pub response_limit : int_le (pos 1) s.setup.max_response_bytes ≡ true

-- Whichever backends answer at startup, the gateway started from a configuration that Parse accepts
-- has routes with distinct ids, whose prefixes are distinct and not empty if two or more backends
-- are configured, has the configured policies in their order, and has a response limit in force, if
-- the checker library honours the tags.
pub start-IsReady :
    {W : Type 0} (libs : Libraries) (input : Bytes) (cfg : Config) (handles : Bytes → Bool)
    (libraries : Setup W) (dial : Bytes → W → Option ℕ × W)
    (advertised : ℕ → Option ServerCapabilities) (server : ℕ) (w : W)
    → HonoursTags libs
    → parse libs input ≡ ok cfg
    → IsReady cfg (start handles libraries dial advertised server cfg w)
unfolding start
start-IsReady libs input cfg handles libraries dial advertised server w honours h =
    let (_, _, _, valid) = (parse_iff libs input cfg).0 h in
    let (_, usable) = parse-IsUsable libs input cfg honours h in
    record {
      route_ids =
          dial_backends-Distinct dial (λ b. b.id) (λ r. r.id) (λ b n. refl) cfg.backends w
            valid.distinct_ids;
      namespaces = elim valid.namespaces [
        | inl few ↦ inl few
        | inr (named, d) ↦ inr (
          dial_backends-All dial (λ b. b.prefix) (λ r. r.prefix) (λ b n. refl) NonEmpty cfg.backends
              w named,
          dial_backends-Distinct dial (λ b. b.prefix) (λ r. r.prefix) (λ b n. refl) cfg.backends w
              d,
        )
      ];
      policies =
          (new_resolver-IsResolver cfg.policies (record { breakers = []; limiters = [] })).in_order;
      response_limit = usable.response_limit;
    }
