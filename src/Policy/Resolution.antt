-- ===== src/Policy/Resolution.antt =====
-- The policy that Resolve of internal/policy/policy.go picks.
use mcp_resile.Base.{
  Bytes, true, false, none, some, List, [], ◌∷◌, ◌++◌, ◌≡◌, ◌↔◌, refl, arith, All, inl, inr,
  Bool-cases, ap, sym, ◌∙◌,
}
use mcp_resile.Config.Validate.{PathMatch}
use mcp_resile.Policy.{Policy, is_match, resolve}

module _ (path_match : PathMatch) (name : Bytes) where
  abbrev pub Governs : Policy → Type 0
  Governs p = is_match (path_match p.config.tool_pattern name) ≡ true

  abbrev pub Passes : Policy → Type 0
  Passes p = is_match (path_match p.config.tool_pattern name) ≡ false

  -- `p` matches, and none of the policies before it does.
  pub record IsFirst (ps : List Policy) (p : Policy) : Type 0 where
    pub before : List Policy
    pub after : List Policy
    pub split : ps ≡ before ++ p ∷ after
    pub passed : All Passes before
    pub governs : Governs p

  IsFirst-cons : {q p : Policy} {ps : List Policy} → Passes q → IsFirst ps p → IsFirst (q ∷ ps) p
  IsFirst-cons {q} h f = record {
    before = q ∷ f.before;
    after = f.after;
    split = ap (◌∷◌ q) f.split;
    passed = (h, f.passed);
    governs = f.governs;
  }

  resolve-cons :
      (q : Policy) (ps : List Policy)
      → Passes q
      → resolve path_match (q ∷ ps) name ≡ resolve path_match ps name
  unfolding resolve
  resolve-cons q ps h = rw h

  resolve_sound :
      (ps : List Policy) (p : Policy) → resolve path_match ps name ≡ some p → IsFirst ps p
  unfolding resolve
  resolve_sound [] p h = absurd (cc)
  resolve_sound (q ∷ ps) p h =
      elim (Bool-cases (is_match (path_match q.config.tool_pattern name))) [
        | inl t ↦
            let e : q ≡ p = ground (arith, h) in
            record {
              before = [];
              after = ps;
              split = ap (λ x. x ∷ ps) e;
              passed = tt;
              governs = rw e at t;
            }
        | inr f ↦ IsFirst-cons f (resolve_sound ps p (sym (resolve-cons q ps f) ∙ h))
      ]

  resolve_first :
      (before after : List Policy) (p : Policy)
      → All Passes before
      → Governs p
      → resolve path_match (before ++ p ∷ after) name ≡ some p
  unfolding resolve
  resolve_first [] after p h g = rw g
  resolve_first (q ∷ before) after p (h, hs) g =
      resolve-cons q (before ++ p ∷ after) h ∙ resolve_first before after p hs g

  resolve-none : (ps : List Policy) → (resolve path_match ps name ≡ none) ↔ All Passes ps
  unfolding resolve
  resolve-none [] = (λ _. tt, λ _. refl)
  resolve-none (q ∷ ps) = ground (arith, resolve-none ps)

-- The policy that is resolved is the one at whose place the list splits into policies that do not
-- match and one that does; there is none exactly when no policy matches.
pub resolve_iff :
    (path_match : PathMatch) (ps : List Policy) (name : Bytes) (p : Policy)
    → ((resolve path_match ps name ≡ some p) ↔ IsFirst path_match name ps p)
      × ((resolve path_match ps name ≡ none) ↔ All (Passes path_match name) ps)
resolve_iff path_match ps name p = (
  (
    resolve_sound path_match name ps p,
    λ f. rw f.split (resolve_first path_match name f.before f.after p f.passed f.governs),
  ),
  resolve-none path_match name ps,
)
