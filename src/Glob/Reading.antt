-- ===== src/Glob/Reading.antt =====
-- How much of a pattern its reading takes, as path.Match reads it.
use mcp_resile.Base.{
  ℕ, zero, suc, ◌≤◌, ◌<◌, Bytes, Bool, true, false, Option, none, some, [], ◌∷◌, ◌==◌, length, drop,
  if◌then◌else◌, arith, Bool-cases, inl, inr, ◌&&◌, ◌||◌,
}
use mcp_resile.Pattern.{
  Parsed, ok, bad_pattern, out_of_fuel, ◌>>=◌, decode_rune, rune_at, decode_with, leading, escaped,
  get_esc, upper, begins_with, after_first, read_ranges, read_class, quoted, read_item, following,
  backslash, close_bracket, open_bracket,
}
use mcp_resile.Proxy.Response.{Range, first}

-- The loop has an answer, and a value that it returns satisfies `P`.
abbrev pub Answers {ℓ} : {A : Type ℓ} → (A → Type 0) → Parsed A → Type 0
Answers P (ok a) = P a
Answers P bad_pattern = Unit
Answers P out_of_fuel = ⊥

pub >>=-Answers {ℓ κ} :
    {A : Type ℓ} {B : Type κ} (P : A → Type 0) (Q : B → Type 0) (p : Parsed A) (f : A → Parsed B)
    → Answers P p
    → ((a : A) → P a → Answers Q (f a))
    → Answers Q (p >>= f)
>>=-Answers P Q (ok a) f h k = k a h
>>=-Answers P Q bad_pattern f h k = tt
>>=-Answers P Q out_of_fuel f h k = h

length-drop : (n : ℕ) (s : Bytes) → length (drop n s) ≤ length s
length-drop zero s = omega arith
length-drop (suc n) [] = omega arith
length-drop (suc n) (c ∷ s) = omega (arith, length-drop n s)

rune_at-width : (o : Option ℕ) (k : ℕ) → 0 < (rune_at o k).1
rune_at-width none k = omega arith
rune_at-width (some v) k = omega arith

decode_with-width : (b : ℕ) (o : Option Range) (s : Bytes) → 0 < (decode_with b o s).1
decode_with-width b none s = omega arith
decode_with-width b (some r) s =
    rune_at-width (following r.pending r.lo r.hi (leading b r.pending) s) r.pending

-- A rune has at least one byte.
pub drop-rune : (b : ℕ) (s : Bytes) → length (drop (decode_rune b s).1 (b ∷ s)) ≤ length s
unfolding decode_rune
drop-rune b s = drop_some (decode_with b (first b) s).1 (decode_with-width b (first b) s)
  where
    drop_some : (n : ℕ) → 0 < n → length (drop n (b ∷ s)) ≤ length s
    drop_some zero h = absurd (omega arith)
    drop_some (suc n) h = length-drop n s

pub Answers-weaken {ℓ} :
    {A : Type ℓ} (P Q : A → Type 0) (p : Parsed A)
    → ((a : A) → P a → Q a)
    → Answers P p
    → Answers Q p
Answers-weaken P Q (ok a) k h = k a h
Answers-weaken P Q bad_pattern k h = tt
Answers-weaken P Q out_of_fuel k h = h

-- What is left of a chunk is no longer than `n`.
abbrev pub Leaves {ℓ} : {A : Type ℓ} → ℕ → Parsed (A × Bytes) → Type 0
Leaves n = Answers (λ r. length r.1 ≤ n)

Leaves-weaken {ℓ} :
    {A : Type ℓ} {m n : ℕ} (p : Parsed (A × Bytes)) → m ≤ n → Leaves m p → Leaves n p
Leaves-weaken p h = Answers-weaken _ _ p (λ r k. omega arith)

escaped-Leaves : (b : ℕ) (s : Bytes) → Leaves (length s) (escaped (b ∷ s))
escaped-Leaves b s = ground (arith, drop-rune b s)

escaped-Leaves_all : (s : Bytes) → Leaves (length s) (escaped s)
escaped-Leaves_all [] = tt
escaped-Leaves_all (b ∷ s) = Leaves-weaken (escaped (b ∷ s)) (omega arith) (escaped-Leaves b s)

get_esc-Leaves : (b : ℕ) (s : Bytes) → Leaves (length s) (get_esc (b ∷ s))
unfolding get_esc
get_esc-Leaves b s = elim (Bool-cases (b == 45 || b == close_bracket)) [
  | inl e ↦ rw e tt
  | inr e ↦ elim (Bool-cases (b == backslash)) [
    | inl f ↦ rw (e, f) (escaped-Leaves_all s)
    | inr f ↦ rw (e, f) (escaped-Leaves b s)
  ]
]

get_esc-Leaves_all : (n : ℕ) (s : Bytes) → length s ≤ n → Leaves n (get_esc s)
get_esc-Leaves_all n [] h = unfold get_esc in tt
get_esc-Leaves_all n (b ∷ s) h = Leaves-weaken (get_esc (b ∷ s)) (omega arith) (get_esc-Leaves b s)

upper-Leaves : (n lo : ℕ) (s : Bytes) → length s ≤ n → Leaves n (upper lo s)
unfolding upper
upper-Leaves n lo [] h = tt
upper-Leaves n lo (b ∷ s) h = elim (Bool-cases (b == 45)) [
  | inl e ↦ rw e (get_esc-Leaves_all n s (omega arith))
  | inr e ↦ rw e h
]

module _ (f : ℕ)
    (ih : (n : ℕ) (r : Bool) (s : Bytes)
      → length s < f
      → length s ≤ n
      → Leaves n (read_ranges f r s)) where
  one_range :
      (n : ℕ) (s : Bytes)
      → length s < suc f
      → length s ≤ n
      → Leaves n (
          get_esc s >>= λ (lo, t). upper lo t >>= λ (hi, u).
          read_ranges f true u >>= λ (ranges, rest). ok ((lo, hi) ∷ ranges, rest))
  one_range n [] h k = unfold get_esc in tt
  one_range n (b ∷ s) h k =
      >>=-Answers (λ r. length r.1 ≤ length s) _ (get_esc (b ∷ s)) _ (get_esc-Leaves b s)
        (λ (lo, t) ht.
          >>=-Answers (λ r. length r.1 ≤ length s) _ (upper lo t) _
            (upper-Leaves (length s) lo t ht)
            (λ (hi, u) hu.
              >>=-Answers (λ r. length r.1 ≤ n) _ (read_ranges f true u) _
                (ih n true u (omega arith) (omega arith)) (λ v hv. hv)))

length-after_first : (s : Bytes) → length (after_first s) ≤ length s
length-after_first [] = omega arith
length-after_first (b ∷ s) = omega arith

read_ranges-Leaves :
    (f n : ℕ) (r : Bool) (s : Bytes) → length s < f → length s ≤ n → Leaves n (read_ranges f r s)
unfolding read_ranges
read_ranges-Leaves zero n r s h k = omega arith
read_ranges-Leaves (suc f) n r s h k = elim (Bool-cases (r && begins_with close_bracket s)) [
  | inl e ↦ rw e (omega (arith, length-after_first s))
  | inr e ↦ rw e (one_range f (read_ranges-Leaves f) n s h k)
]

read_class-Leaves : (s : Bytes) → Leaves (length s) (read_class s)
unfolding read_class
read_class-Leaves s =
    let negated = begins_with 94 s in
    let body = if negated then after_first s else s in
    let shorter : length body ≤ length s = ground (arith, length-after_first s) in
    >>=-Answers (λ r. length r.1 ≤ length s) _ (read_ranges (suc (length body)) false body) _
      (read_ranges-Leaves (suc (length body)) (length s) false body (omega arith) shorter)
      (λ v hv. hv)

quoted-Leaves : (s : Bytes) → Leaves (length s) (quoted s)
quoted-Leaves [] = tt
quoted-Leaves (b ∷ s) = omega arith

pub read_item-Leaves : (b : ℕ) (s : Bytes) → Leaves (length s) (read_item b s)
unfolding read_item
read_item-Leaves b s = elim (Bool-cases (b == open_bracket)) [
  | inl e ↦ rw e (read_class-Leaves s)
  | inr e ↦ elim (Bool-cases (b == 63)) [
    | inl f ↦ rw (e, f) (omega arith)
    | inr f ↦ elim (Bool-cases (b == backslash)) [
      | inl g ↦ rw (e, f, g) (quoted-Leaves s)
      | inr g ↦ rw (e, f, g) (omega arith)
    ]
  ]
]
