-- ===== src/Glob/Errors.antt =====
-- When path.Match returns ErrBadPattern.
use mcp_resile.Base.{
  ℕ, zero, suc, Bytes, Bool, true, false, Option, none, some, List, [], ◌∷◌, ◌==◌, length, is_empty,
  ◌≡◌, ◌∙◌, sym, ◌↔◌, refl, arith, Bool-cases, inl, inr, ◌&&◌,
}
use mcp_resile.Pattern.{
  Parsed, ok, bad_pattern, out_of_fuel, ◌>>=◌, star_byte, read_chunk, read_items, Item,
}
use mcp_resile.Glob.{
  drop_stars, scan, scan_chunk, check_rest, go_on, match_from, path_match, answer,
}
use mcp_resile.Glob.Total.{Ends, match_from-Ends}

abbrev pub is_bad {ℓ} : {A : Type ℓ} → Parsed A → Bool
is_bad (ok a) = false
is_bad bad_pattern = true
is_bad out_of_fuel = false

-- Only the empty pattern begins with an empty chunk.
scan-empty :
    (p : Bytes)
    → is_empty (scan false false (drop_stars p)).0 ≡ true
    → (scan false false (drop_stars p)).1 ≡ []
scan-empty [] h = unfold scan in refl
scan-empty (b ∷ p) h = elim (Bool-cases (b == star_byte)) [
  | inl e ↦ rw e (scan-empty p (rw e at h))
  | inr e ↦ absurd (unfold scan in ground (arith, e, rw e at h))
]

empty-nil : (s : Bytes) → is_empty s ≡ true → s ≡ []
empty-nil [] h = refl
empty-nil (b ∷ s) h = absurd (cc)

scan_chunk-empty :
    (p : Bytes)
    → is_empty (scan_chunk p).1 ≡ true
    → ((scan_chunk p).1 ≡ []) × ((scan_chunk p).2 ≡ [])
unfolding scan_chunk
scan_chunk-empty p h = (empty-nil _ h, scan-empty p h)

bind-is_bad :
    (p : Parsed (List Item)) (f g : List Item → Parsed Bool)
    → ((items : List Item) → is_bad (f items) ≡ is_bad (g items))
    → is_bad (p >>= f) ≡ is_bad (p >>= g)
bind-is_bad (ok items) f g h = h items
bind-is_bad bad_pattern f g h = refl
bind-is_bad out_of_fuel f g h = refl

go_on-is_bad :
    (next : Bytes → Parsed Bool) (failed : Parsed Bool) (o : Option Bytes)
    → ((t : Bytes) → is_bad (next t) ≡ is_bad failed)
    → is_bad (go_on next failed o) ≡ is_bad failed
go_on-is_bad next failed none h = refl
go_on-is_bad next failed (some t) h = h t

and_right : (a b : Bool) → (a && b) ≡ true → b ≡ true
and_right a b h = ground arith

-- Whether the pattern is malformed is found out whatever the name is.
match_from-is_bad :
    (f : ℕ) (p name : Bytes) → is_bad (match_from f p name) ≡ is_bad (check_rest f p)
unfolding match_from check_rest
match_from-is_bad f [] name = refl
match_from-is_bad zero (b ∷ p) name = refl
match_from-is_bad (suc f) (b ∷ p) name =
    let (star, chunk, rest) = scan_chunk (b ∷ p) in
    elim (Bool-cases (star && is_empty chunk)) [
      | inl e ↦
          let (no_chunk, no_rest) = scan_chunk-empty (b ∷ p) (and_right _ _ e) in
          rw (e, no_chunk, no_rest) (unfold read_chunk read_items in refl)
      | inr e ↦ rw e (
          bind-is_bad (read_chunk chunk) _ _ (λ items.
            go_on-is_bad (match_from f rest) (check_rest f rest) _
              (λ t. match_from-is_bad f rest t)))
    ]

none-is_bad : (p : Parsed Bool) → Ends p → (answer p ≡ none) ↔ (is_bad p ≡ true)
none-is_bad (ok b) h = (λ e. cc, λ e. cc)
none-is_bad bad_pattern h = (λ e. refl, λ e. refl)
none-is_bad out_of_fuel h = absurd h

-- path.Match refuses a pattern for one name exactly when it refuses it for every name.
pub path_match-none_iff : (p m n : Bytes) → (path_match p m ≡ none) ↔ (path_match p n ≡ none)
unfolding path_match
path_match-none_iff p m n =
    let f = length p in
    let (to_m, from_m) = none-is_bad (match_from f p m) (match_from-Ends f p m (omega arith)) in
    let (to_n, from_n) = none-is_bad (match_from f p n) (match_from-Ends f p n (omega arith)) in
    let same : is_bad (match_from f p m) ≡ is_bad (match_from f p n) =
      match_from-is_bad f p m ∙ sym (match_from-is_bad f p n) in
    (λ e. from_n (sym same ∙ to_m e), λ e. from_m (same ∙ to_n e))
