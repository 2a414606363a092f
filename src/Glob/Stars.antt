-- ===== src/Glob/Stars.antt =====
-- Patterns of ordinary bytes with one star among them.
use mcp_resile.Base.{
  ℕ, zero, suc, ◌+◌, ◌≤◌, Bytes, Bool, true, false, Option, none, some, [], ◌∷◌, ◌++◌, map, length,
  ◌≡◌, ◌∙◌, sym, ◌↔◌, refl, arith, ap, Option-cases, inl, inr, ◌⊎◌, append-nil, length-append,
}
use mcp_resile.Pattern.{
  Parsed, ok, ◌>>=◌, byte, star_byte, begins_with, read_chunk, bad_pattern, out_of_fuel,
}
use mcp_resile.Glob.{
  drop_stars, scan, scan_chunk, check_rest, match_items, accept, or_later, place, go_on, round,
  match_from, path_match, has_slash, answer,
}
use mcp_resile.Glob.Plain.{
  is_plain, Plain, scan-Plain, read_chunk-Plain, match_items-byte, EndsIn, accept-match_items,
  EndsAfter, skip-byte,
}

-- What `*` and a plain text at the end of a pattern leave of a name: nothing, if they match.
place-byte :
    (q s : Bytes)
    → ((place true true (map byte q) s ≡ some []) × EndsIn q s)
      ⊎ ((place true true (map byte q) s ≡ none) × ¬ EndsIn q s)
unfolding place
place-byte q s = elim (Option-cases (accept true (match_items (map byte q) s))) [
  | inr (t, found) ↦
      let (whole, nothing) = (accept-match_items q s t).0 found in
      inl (rw (found, nothing) refl, ([], whole, unfold has_slash in refl))
  | inl missing ↦ elim (skip-byte q s) [
    | inl (found, (c, m, whole, h)) ↦ inl (rw (missing, found) refl, (c ∷ m, whole, h))
    | inr (missed, never) ↦ inr (rw (missing, missed) refl, not_at_all q s missing never)
  ]
]
  where
    not_at_all :
        (q s : Bytes)
        → accept true (match_items (map byte q) s) ≡ none
        → ¬ EndsAfter q s
        → ¬ EndsIn q s
    not_at_all q s missing never ([], same, h) =
        cc (missing, (accept-match_items q s []).1 (same, refl))
    not_at_all q s missing never (c ∷ m, same, h) = never (c, m, same, h)

drop_stars-Plain : (b : ℕ) (s : Bytes) → is_plain b ≡ true → drop_stars (b ∷ s) ≡ b ∷ s
drop_stars-Plain b s h = ground arith

begins_with-Plain : (b : ℕ) (s : Bytes) → is_plain b ≡ true → begins_with star_byte (b ∷ s) ≡ false
begins_with-Plain b s h = ground arith

drop_stars-all : (q : Bytes) → Plain q → drop_stars q ≡ q
drop_stars-all [] h = refl
drop_stars-all (b ∷ q) (hb, _) = drop_stars-Plain b q hb

scan-end : (q : Bytes) → Plain q → scan false false q ≡ (q, [])
scan-end q h = rw append-nil at (scan-Plain q [] h tt)

scan_chunk-star : (q : Bytes) → Plain q → scan_chunk (star_byte ∷ q) ≡ (true, q, [])
unfolding scan_chunk
scan_chunk-star q h = rw (drop_stars-all q h, scan-end q h) refl

scan_chunk-Plain :
    (b : ℕ) (p q : Bytes)
    → Plain (b ∷ p)
    → scan_chunk (b ∷ (p ++ star_byte ∷ q)) ≡ (false, b ∷ p, star_byte ∷ q)
unfolding scan_chunk
scan_chunk-Plain b p q (hb, hp) =
    rw
      (
        begins_with-Plain b (p ++ star_byte ∷ q) hb,
        scan-Plain (b ∷ p) (star_byte ∷ q) (hb, hp) refl,
      )
      refl

match_from-round :
    (f b : ℕ) (p s : Bytes) (r : Bool × Bytes × Bytes)
    → scan_chunk (b ∷ p) ≡ r
    → match_from (suc f) (b ∷ p) s ≡ round (match_from f) (check_rest f) s r
unfolding match_from
match_from-round f b p s r e = ap (round (match_from f) (check_rest f) s) e

place-answer :
    (f : ℕ) (q s : Bytes)
    → (go_on (match_from f []) (check_rest f []) (place true true (map byte q) s) ≡ ok true)
      ↔ EndsIn q s
unfolding match_from check_rest
place-answer f q s = elim (place-byte q s) [
  | inl (found, ends) ↦ rw found (λ e. ends, λ k. refl)
  | inr (missed, never) ↦ rw missed (λ e. cc, λ k. absurd (never k))
]

match_from-star :
    (f : ℕ) (q s : Bytes) → Plain q → (match_from (suc f) (star_byte ∷ q) s ≡ ok true) ↔ EndsIn q s
match_from-star f [] s h =
    rw (match_from-round f star_byte [] s (true, [], []) (scan_chunk-star [] h)) (
      λ e. (s, sym (append-nil s), ground (arith, e)),
      λ (m, same, none_in). rw (same ∙ append-nil m, none_in) refl,
    )
match_from-star f (b ∷ q) s h =
    rw
      (
        match_from-round f star_byte (b ∷ q) s (true, b ∷ q, []) (scan_chunk-star (b ∷ q) h),
        read_chunk-Plain (b ∷ q) h,
      )
      (place-answer f (b ∷ q) s)

check_rest-star : (f : ℕ) (q : Bytes) → Plain q → check_rest (suc f) (star_byte ∷ q) ≡ ok false
unfolding check_rest
check_rest-star f q h =
    ap (λ (r : Bool × Bytes × Bytes). read_chunk r.1 >>= λ items. check_rest f r.2)
      (scan_chunk-star q h)
    ∙ rw (read_chunk-Plain q h) refl

accept-any : (o : Option Bytes) → accept false o ≡ o
unfolding accept
accept-any none = refl
accept-any (some t) = refl

-- The name is `p`, then bytes that are not '/', then `q`.
abbrev pub Surrounds : Bytes → Bytes → Bytes → Type 0
Surrounds p q s = (m : Bytes) × (s ≡ p ++ (m ++ q)) × (has_slash m ≡ false)

first_chunk :
    (f b : ℕ) (p q s : Bytes) (o : Option Bytes)
    → Plain q
    → ((t : Bytes) → (o ≡ some t) ↔ (s ≡ (b ∷ p) ++ t))
    → (go_on (match_from (suc f) (star_byte ∷ q)) (check_rest (suc f) (star_byte ∷ q)) o ≡ ok true)
      ↔ Surrounds (b ∷ p) q s
first_chunk f b p q s none h k =
    rw (check_rest-star f q h) (λ e. cc, λ (m, same, _). absurd (cc ((k (m ++ q)).1 same)))
first_chunk f b p q s (some t) h k =
    let (to, from) = match_from-star f q t h in
    let whole : s ≡ (b ∷ p) ++ t = (k t).0 refl in
    (
      λ e. let (m, same, none_in) = to e in (m, whole ∙ ap (λ x. (b ∷ p) ++ x) same, none_in),
      λ (m, same, none_in).
          let tail : some t ≡ some (m ++ q) = (k (m ++ q)).1 same in
          from (m, ground arith, none_in),
    )

or_later-none : (o : Option Bytes) → or_later o none ≡ o
or_later-none none = refl
or_later-none (some t) = refl

match_from-Surrounds :
    (f : ℕ) (p q s : Bytes)
    → Plain p
    → Plain q
    → length p + suc (length q) ≤ f
    → (match_from f (p ++ star_byte ∷ q) s ≡ ok true) ↔ Surrounds p q s
match_from-Surrounds zero p q s hp hq h = absurd (omega arith)
match_from-Surrounds (suc f) [] q s hp hq h = match_from-star f q s hq
match_from-Surrounds (suc zero) (b ∷ p) q s hp hq h = absurd (omega arith)
match_from-Surrounds (suc (suc f)) (b ∷ p) q s hp hq h =
    rw
      (
        match_from-round (suc f) b (p ++ star_byte ∷ q) s (false, b ∷ p, star_byte ∷ q)
            (scan_chunk-Plain b p q hp),
        read_chunk-Plain (b ∷ p) hp,
      )
      (unfold place in
        rw (accept-any, or_later-none)
          (first_chunk f b p q s (match_items (map byte (b ∷ p)) s) hq
            (match_items-byte (b ∷ p) s)))

answer-true : (p : Parsed Bool) → (answer p ≡ some true) ↔ (p ≡ ok true)
answer-true (ok b) = (λ e. ground arith, λ e. ground arith)
answer-true bad_pattern = (λ e. cc, λ e. cc)
answer-true out_of_fuel = (λ e. cc, λ e. cc)

-- A pattern with one star between plain texts matches exactly the names that begin and end with
-- them, and have no '/' in between.
pub path_match-Surrounds :
    (p q s : Bytes)
    → Plain p
    → Plain q
    → (path_match (p ++ star_byte ∷ q) s ≡ some true) ↔ Surrounds p q s
unfolding path_match
path_match-Surrounds p q s hp hq =
    let f = length (p ++ star_byte ∷ q) in
    let (to, from) = answer-true (match_from f (p ++ star_byte ∷ q) s) in
    let (there, back) =
      match_from-Surrounds f p q s hp hq (omega (arith, length-append p (star_byte ∷ q))) in
    (λ e. there (to e), λ k. from (back k))
