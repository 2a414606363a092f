-- ===== src/Glob/Plain.antt =====
-- Patterns of ordinary bytes with one star among them.
use mcp_resile.Base.{
  ℕ, zero, suc, ◌≤◌, Bytes, Bool, true, false, Option, none, some, List, [], ◌∷◌, ◌++◌, map, ◌==◌,
  ==_iff, length, ◌≡◌, ◌∙◌, sym, ◌↔◌, refl, arith, ap, Bool-cases, Option-cases, inl, inr, ◌⊎◌, not,
  ◌||◌, All, append-nil,
}
use mcp_resile.Pattern.{
  ok, Item, byte, slash, star_byte, backslash, open_bracket, after_first, read_item, read_chunk,
  read_items,
}
use mcp_resile.Glob.{scan, match_item, match_items, accept, skip, has_slash}

-- The byte means itself in a pattern.
abbrev pub is_plain : ℕ → Bool
is_plain b = not (b == star_byte || (b == 63 || (b == open_bracket || b == backslash)))

abbrev pub Plain : Bytes → Type 0
Plain = All (λ b. is_plain b ≡ true)

-- What follows a plain text up to a star or the end of the pattern.
abbrev Stops : Bytes → Type 0
Stops [] = Unit
Stops (b ∷ s) = b ≡ star_byte

pub scan-Plain : (p rest : Bytes) → Plain p → Stops rest → scan false false (p ++ rest) ≡ (p, rest)
unfolding scan
scan-Plain [] [] h k = refl
scan-Plain [] (b ∷ rest) h k = rw k refl
scan-Plain (b ∷ p) rest (hb, hp) k = ground (arith, scan-Plain p rest hp k)

read_items-Plain : (f : ℕ) (p : Bytes) → Plain p → length p ≤ f → read_items f p ≡ ok (map byte p)
unfolding read_items read_item
read_items-Plain f [] h k = refl
read_items-Plain zero (b ∷ p) h k = absurd (omega arith)
read_items-Plain (suc f) (b ∷ p) (hb, hp) k = ground (arith, read_items-Plain f p hp (omega arith))

pub read_chunk-Plain : (p : Bytes) → Plain p → read_chunk p ≡ ok (map byte p)
unfolding read_chunk
read_chunk-Plain p h = read_items-Plain (length p) p h (omega arith)

module _ (b c : ℕ) (items : List Item) (s : Bytes) where
  match_items-same : (c == b) ≡ true → match_items (byte b ∷ items) (c ∷ s) ≡ match_items items s
  unfolding match_items match_item
  match_items-same e = ground arith

  match_items-other : (c == b) ≡ false → match_items (byte b ∷ items) (c ∷ s) ≡ none
  unfolding match_items match_item
  match_items-other e = ground arith

pub match_items-byte :
    (q s : Bytes) (t : Bytes) → (match_items (map byte q) s ≡ some t) ↔ (s ≡ q ++ t)
match_items-byte [] s t = unfold match_items in (λ e. ground arith, λ e. ap some e)
match_items-byte (b ∷ q) [] t = unfold match_items in (λ e. cc, λ e. cc)
match_items-byte (b ∷ q) (c ∷ s) t = elim (Bool-cases (c == b)) [
  | inl e ↦
      let (to, from) = match_items-byte q s t in
      let same = (==_iff c b).0 e in
      rw (match_items-same b c (map byte q) s e) (λ h. cc (same, to h), λ h. from (ground arith))
  | inr e ↦
      rw (match_items-other b c (map byte q) s e)
        (λ h. cc, λ h. absurd (ground (arith, ==_iff c b)))
]

-- The name is `q` behind some bytes that are not '/'.
abbrev pub EndsIn : Bytes → Bytes → Type 0
EndsIn q s = (m : Bytes) × (s ≡ m ++ q) × (has_slash m ≡ false)

accept_sound :
    (q s : Bytes) (o : Option Bytes) (t : Bytes)
    → ((t : Bytes) → o ≡ some t → s ≡ q ++ t)
    → accept true o ≡ some t
    → (s ≡ q) × (t ≡ [])
unfolding accept
accept_sound q s none t h e = absurd (cc)
accept_sound q s (some []) t h e = (h [] refl ∙ append-nil q, cc)
accept_sound q s (some (c ∷ u)) t h e = absurd (cc)

pub accept-match_items :
    (q s t : Bytes) → (accept true (match_items (map byte q) s) ≡ some t) ↔ ((s ≡ q) × (t ≡ []))
accept-match_items q s t = (
  accept_sound q s (match_items (map byte q) s) t (λ u. (match_items-byte q s u).0),
  λ (e, nothing).
      rw ((match_items-byte q s []).1 (e ∙ sym (append-nil q)), nothing) (unfold accept in refl),
)

module _ (last : Bool) (items : List Item) (c : ℕ) (s : Bytes) where
  skip-slash : (c == slash) ≡ true → skip last items (c ∷ s) ≡ none
  unfolding skip
  skip-slash e = ground arith

  skip-here :
      {t : Bytes}
      → (c == slash) ≡ false
      → accept last (match_items items s) ≡ some t
      → skip last items (c ∷ s) ≡ some t
  unfolding skip
  skip-here e h = ground arith

  skip-later :
      (c == slash) ≡ false
      → accept last (match_items items s) ≡ none
      → skip last items (c ∷ s) ≡ skip last items s
  unfolding skip
  skip-later e h = ground arith

-- The name is `q` behind one or more bytes that are not '/'.
abbrev pub EndsAfter : Bytes → Bytes → Type 0
EndsAfter q s = (c : ℕ) × (m : Bytes) × (s ≡ c ∷ (m ++ q)) × (has_slash (c ∷ m) ≡ false)

neither :
    (q : Bytes) (c : ℕ) (s : Bytes)
    → accept true (match_items (map byte q) s) ≡ none
    → ¬ EndsAfter q s
    → ¬ EndsAfter q (c ∷ s)
neither q c s missing never (d, [], same, h) =
    let whole : s ≡ q = ap after_first same in
    absurd (cc (missing, (accept-match_items q s []).1 (whole, refl)))
neither q c s missing never (d, x ∷ m, same, h) =
    never (x, m, ap after_first same, unfold has_slash in ground (arith, h))

pub skip-byte :
    (q s : Bytes)
    → ((skip true (map byte q) s ≡ some []) × EndsAfter q s)
      ⊎ ((skip true (map byte q) s ≡ none) × ¬ EndsAfter q s)
skip-byte q [] = inr (unfold skip in refl, λ (c, m, e, h). cc)
skip-byte q (c ∷ s) = elim (Bool-cases (c == slash)) [
  | inl e ↦ inr (
    skip-slash true (map byte q) c s e,
    λ (d, m, same, h). unfold has_slash in ground (arith, same, h),
  )
  | inr e ↦ elim (Option-cases (accept true (match_items (map byte q) s))) [
    | inr (t, found) ↦
        let (whole, nothing) = (accept-match_items q s t).0 found in
        inl (
          skip-here true (map byte q) c s e (found ∙ ap some nothing),
          (c, [], ap (◌∷◌ c) whole, unfold has_slash in rw e refl),
        )
    | inl missing ↦ elim (skip-byte q s) [
      | inl (found, (d, m, whole, h)) ↦ inl (
        skip-later true (map byte q) c s e missing ∙ found,
        (c, d ∷ m, ap (◌∷◌ c) whole, unfold has_slash in ground (arith, e, h)),
      )
      | inr (missed, never) ↦
          inr (skip-later true (map byte q) c s e missing ∙ missed, neither q c s missing never)
    ]
  ]
]
