-- ===== src/Proxy/Route/Collision.antt =====
-- The prefixes that internal/config/config.go accepts, and the routes that are made of them.
use mcp_resile.Base.{
  ℕ, Bytes, true, none, some, [], ◌∷◌, ◌++◌, ◌≡◌, ◌≢◌, refl, ap, arith, length, length-append,
  has_prefix, has_prefix-append, drop, drop-append, append_assoc, ltb, inl, inr, All, ◌&&◌,
  is_empty, false,
}
use mcp_resile.Config.Types.{Backend, Config, zero_config}
use mcp_resile.Config.Defaults.{apply_defaults}
use mcp_resile.Config.Load.{Libraries, stored, ok, parse}
use mcp_resile.Config.Load.Valid.{IsValid, parse_iff}
use mcp_resile.Config.Validate.Policies.{IsAccepted}
use mcp_resile.Startup.{route_of}
use mcp_resile.Config.Validate.Unique.{Distinct, NonEmpty}
use mcp_resile.Proxy.Route.{best_route, match_route}

longer_differs : (p s : Bytes) → NonEmpty s → p ≢ p ++ s
longer_differs p [] h = absurd (cc)
longer_differs p (c ∷ s) h = λ e. absurd (omega (arith, ap length e, length-append p (c ∷ s)))

shorter : (p s : Bytes) → NonEmpty s → ltb (length p) (length (p ++ s)) ≡ true
shorter p [] h = absurd (cc)
shorter p (c ∷ s) h = ground (arith, length-append p (c ∷ s))

append-NonEmpty : (p s : Bytes) → NonEmpty p → NonEmpty (p ++ s)
append-NonEmpty [] s h = absurd (cc)
append-NonEmpty (c ∷ p) s h = refl

module _ (a b : Backend) (m n : ℕ) (s t : Bytes) (named : NonEmpty a.prefix) (longer : NonEmpty s)
    (extends : b.prefix ≡ a.prefix ++ s) where
  both-Distinct : All NonEmpty (a.prefix ∷ b.prefix ∷ []) × Distinct (a.prefix ∷ b.prefix ∷ [])
  both-Distinct = (
    (named, (rw extends (append-NonEmpty a.prefix s named), tt)),
    ((rw extends (longer_differs a.prefix s longer), tt), (tt, tt)),
  )

  begins : a.prefix ++ (s ++ t) ≡ b.prefix ++ t
  begins = rw (extends, append_assoc) refl

  longer_wins :
      match_route (route_of a m ∷ route_of b n ∷ []) (a.prefix ++ (s ++ t)) ≡ some (route_of b n, t)
  unfolding match_route best_route
  longer_wins =
      let fits_a = has_prefix-append a.prefix (s ++ t) in
      let fits_b : has_prefix (a.prefix ++ (s ++ t)) b.prefix ≡ true =
        rw begins (has_prefix-append b.prefix t) in
      let longer_b : ltb (length a.prefix) (length b.prefix) ≡ true =
        rw extends (shorter a.prefix s longer) in
      let rest : drop (length b.prefix) (a.prefix ++ (s ++ t)) ≡ t =
        rw begins (drop-append b.prefix t) in
      rw (fits_a, fits_b, longer_b, rest) refl

-- Distinct prefixes that are not empty do not keep two backends' tools apart: where the second
-- prefix is the first and a text `s` that is not empty, Parse accepts the configuration, yet for
-- every name `t` the first backend's tool `s ++ t` and the second's tool `t` have one name, and a
-- call of it goes to the second; if the document, with its defaults, has just these two backends,
-- with distinct ids, and passes the checker, has a token if authentication is on, and has
-- acceptable policies.
pub accepted_prefixes_collide :
    (libs : Libraries) (input : Bytes) (raw cfg : Config) (a b : Backend) (m n : ℕ) (s t : Bytes)
    → libs.decode input zero_config ≡ stored raw
    → apply_defaults raw ≡ cfg
    → cfg.backends ≡ a ∷ b ∷ []
    → libs.check_struct cfg ≡ none
    → (cfg.auth.enabled && is_empty cfg.auth.tokens) ≡ false
    → All (IsAccepted libs.path_match) cfg.policies
    → a.id ≢ b.id
    → NonEmpty a.prefix
    → NonEmpty s
    → b.prefix ≡ a.prefix ++ s
    → (parse libs input ≡ ok cfg)
      × (a.prefix ++ (s ++ t) ≡ b.prefix ++ t)
      × (match_route (route_of a m ∷ route_of b n ∷ []) (a.prefix ++ (s ++ t))
          ≡ some (route_of b n, t))
accepted_prefixes_collide libs input raw cfg a b m n s t document complete both checked tokens
      policies differ named longer extends =
    let valid : IsValid libs cfg = record {
      checked = checked;
      tokens = tokens;
      distinct_ids = rw both ((differ, tt), (tt, tt));
      namespaces = rw both (inr (both-Distinct a b m n s t named longer extends));
      policies = policies;
    } in
    (
      (parse_iff libs input cfg).1 (raw, inl document, complete, valid),
      begins a b m n s t named longer extends,
      longer_wins a b m n s t named longer extends,
    )
