-- ===== src/Durations/Fuel.antt =====
-- The loop of time.ParseDuration, called by internal/config/config.go, without its fuel.
use mcp_resile.Base.{
  ℕ, zero, suc, ◌+◌, ◌*◌, ◌-◌, ◌≤◌, ◌<◌, Bytes, Bool, true, false, Option, none, some, [], ◌∷◌,
  length, str_eq, ◌≡◌, refl, ap, arith,
}
use mcp_resile.Durations.{
  ◌>>=◌, leading_int, leading_fraction, begins_with_digit, with_fraction, Number, number,
  split_unit, unit_map, scaled, one_part, add_part, parts,
}
use mcp_resile.Durations.Bounds.{>>=-inv}

>>=-cong {ℓ κ} :
    {A : Type ℓ} {B : Type κ} (o : Option A) (f g : A → Option B)
    → ((a : A) → o ≡ some a → f a ≡ g a)
    → (o >>= f) ≡ (o >>= g)
>>=-cong none f g same = refl
>>=-cong (some a) f g same = same a refl

-- What is left of the text, if anything is returned, is at most `k` bytes.
abbrev Leaves : ℕ → Option (ℕ × Bytes) → Type 0
Leaves k none = Unit
Leaves k (some (x, rest)) = length rest ≤ k

abbrev NumberLeaves : ℕ → Option Number → Type 0
NumberLeaves k none = Unit
NumberLeaves k (some n) = length n.rest ≤ k

Leaves-le : (j k : ℕ) (o : Option (ℕ × Bytes)) → j ≤ k → Leaves j o → Leaves k o
Leaves-le j k none le h = tt
Leaves-le j k (some (x, rest)) le h = omega arith

NumberLeaves-le : (j k : ℕ) (o : Option Number) → j ≤ k → NumberLeaves j o → NumberLeaves k o
NumberLeaves-le j k none le h = tt
NumberLeaves-le j k (some n) le h = omega arith

leading_int-Leaves : (x : ℕ) (s : Bytes) → Leaves (length s) (leading_int x s)
unfolding leading_int
leading_int-Leaves x [] = omega arith
leading_int-Leaves x (c ∷ s) = ground (
  arith,
  Leaves-le (length s) (suc (length s)) (leading_int (x * 10 + (c - 48)) s) (omega arith)
      (leading_int-Leaves (x * 10 + (c - 48)) s),
)

leading_fraction-le :
    (x scale : ℕ) (overflow : Bool) (s : Bytes)
    → length (leading_fraction x scale overflow s).2 ≤ length s
unfolding leading_fraction
leading_fraction-le x scale overflow [] = omega arith
leading_fraction-le x scale overflow (c ∷ s) = ground (
  arith,
  leading_fraction-le x scale true s,
  leading_fraction-le (x * 10 + (c - 48)) (scale * 10) false s,
)

with_fraction-Leaves :
    (v : ℕ) (pre : Bool) (s : Bytes) → NumberLeaves (length s) (with_fraction v pre s)
with_fraction-Leaves v true [] = omega arith
with_fraction-Leaves v false [] = tt
with_fraction-Leaves v pre (c ∷ s) = ground (arith, leading_fraction-le 0 1 false s)

after_whole-Leaves :
    (k : ℕ) (pre : Bool) (o : Option (ℕ × Bytes))
    → Leaves k o
    → NumberLeaves k (o >>= λ (v, rest). with_fraction v pre rest)
after_whole-Leaves k pre none h = tt
after_whole-Leaves k pre (some (v, rest)) h =
    NumberLeaves-le (length rest) k (with_fraction v pre rest) h (with_fraction-Leaves v pre rest)

number-Leaves : (s : Bytes) → NumberLeaves (length s) (number s)
unfolding number
number-Leaves s =
    after_whole-Leaves (length s) (begins_with_digit s) (leading_int 0 s) (leading_int-Leaves 0 s)

split_unit-length : (s : Bytes) → length (split_unit s).0 + length (split_unit s).1 ≡ length s
unfolding split_unit
split_unit-length [] = refl
split_unit-length (c ∷ s) = ground (arith, split_unit-length s)

unit_map-nonempty : (u : Bytes) (size : ℕ) → unit_map u ≡ some size → 1 ≤ length u
unfolding unit_map str_eq
unit_map-nonempty [] size e = cc
unit_map-nonempty (c ∷ u) size e = omega arith

module _ (fraction : ℕ → ℕ → ℕ → ℕ) where
  one_part-lt :
      (s : Bytes) (v : ℕ) (rest : Bytes)
      → one_part fraction s ≡ some (v, rest)
      → length rest < length s
  unfolding one_part
  one_part-lt s v rest e =
      let (n, read, e1) = >>=-inv (number s) _ (v, rest) e in
      let (size, found, e2) = >>=-inv (unit_map (split_unit n.rest).0) _ (v, rest) e1 in
      let (w, _, e3) = >>=-inv (scaled fraction n size) _ (v, rest) e2 in
      let before : length n.rest ≤ length s = rw read at (number-Leaves s) in
      let same : (split_unit n.rest).1 ≡ rest = cc in
      omega (
        arith,
        before,
        split_unit-length n.rest,
        unit_map-nonempty (split_unit n.rest).0 size found,
        ap length same,
      )

  -- Fuel of the text's length is enough: more changes nothing.
  parts-fuel :
      (f g d : ℕ) (s : Bytes)
      → length s ≤ f
      → length s ≤ g
      → parts fraction f d s ≡ parts fraction g d s
  unfolding parts
  parts-fuel f g d [] hf hg = refl
  parts-fuel (suc f) (suc g) d (c ∷ s) hf hg =
      >>=-cong (one_part fraction (c ∷ s)) _ _ (λ (v, rest) e.
        let shorter = one_part-lt (c ∷ s) v rest e in
        >>=-cong (add_part fraction d v) _ _
          (λ d' _. parts-fuel f g d' rest (omega arith) (omega arith)))
  parts-fuel zero g d (c ∷ s) hf hg = absurd (omega arith)
  parts-fuel (suc f) zero d (c ∷ s) hf hg = absurd (omega arith)

  -- The loop as the source has it: with fuel of the text's length it ends on the empty text, and on
  -- any other goes on with what a part leaves, whatever that is.
  pub parts-loop :
      (d c : ℕ) (s : Bytes)
      → parts fraction (length (c ∷ s)) d (c ∷ s) ≡ (
          one_part fraction (c ∷ s) >>= λ (v, rest).
          add_part fraction d v >>= λ e. parts fraction (length rest) e rest)
  unfolding parts
  parts-loop d c s = >>=-cong (one_part fraction (c ∷ s)) _ _ (λ (v, rest) e.
      let shorter = one_part-lt (c ∷ s) v rest e in
      >>=-cong (add_part fraction d v) _ _
        (λ d' _. parts-fuel (length s) (length rest) d' rest (omega arith) (omega arith)))
