-- ===== src/Durations/Units.antt =====
-- One number and its unit in a duration of internal/config/config.go.
use mcp_resile.Base.{
  ℕ, ◌+◌, ◌*◌, ◌-◌, ◌≤◌, ◌<◌, Bytes, codes, Bool, true, false, not, ◌||◌, Option, none, some, [],
  ◌∷◌, ◌++◌, ◌==◌, length, str_eq, str_eq_iff, All, if◌then◌else◌, ◌≡◌, refl, arith, Bool-cases,
  inl, inr,
}
use mcp_resile.Base.Decimal.{
  decimal, value, IsDigit, decimal-IsDigit, decimal-nonempty, value-decimal,
}
use mcp_resile.Durations.{
  int64_limit, is_digit, point, leading_int, begins_with_digit, with_fraction, number, split_unit,
  unit_map, scaled, one_part,
}
use native.Mathlib.Nat.{le-div_iff_mul-le, div-le_self}

value-le : (x : ℕ) (ds : Bytes) → x ≤ value x ds
unfolding value
value-le x [] = omega arith
value-le x (d ∷ ds) = omega (arith, value-le (x * 10 + (d - 48)) ds)

pub digit_yes : (c : ℕ) → IsDigit c → is_digit c ≡ true
digit_yes c h = ground arith

leading_int-value :
    (x : ℕ) (ds rest : Bytes)
    → All IsDigit ds
    → begins_with_digit rest ≡ false
    → value x ds ≤ int64_limit
    → leading_int x (ds ++ rest) ≡ some (value x ds, rest)
unfolding leading_int value
leading_int-value x [] [] h stops small = refl
leading_int-value x [] (c ∷ rest) h stops small = ground (arith, stops)
leading_int-value x (d ∷ ds) rest (hd, hs) stops small =
    let below = value-le (x * 10 + (d - 48)) ds in
    rw (digit_yes d hd, leading_int-value (x * 10 + (d - 48)) ds rest hs stops small) (ground arith)

-- What units are written with.
abbrev pub is_unit_byte : ℕ → Bool
is_unit_byte c = not (c == point || is_digit c)

abbrev pub IsUnitName : Bytes → Type 0
IsUnitName u = (1 ≤ length u) × All (λ c. is_unit_byte c ≡ true) u

abbrev pub IsUnit : Bytes → ℕ → Type 0
IsUnit u size = IsUnitName u × (0 < size)

named : (u v : Bytes) → IsUnitName v → str_eq u v ≡ true → IsUnitName u
named u v h e = rw ((str_eq_iff u v).0 e) h

either_named :
    (u v : Bytes) (b : Bool)
    → IsUnitName v
    → (b ≡ true → IsUnitName u)
    → (str_eq u v || b) ≡ true
    → IsUnitName u
either_named u v b h other e = elim (Bool-cases (str_eq u v)) [
  | inl first ↦ named u v h first
  | inr lacks ↦ other (ground (arith, lacks, e))
]

listed :
    (u : Bytes) (k size : ℕ) (y : Option ℕ) (b : Bool)
    → 0 < k
    → (b ≡ true → IsUnitName u)
    → (y ≡ some size → IsUnit u size)
    → (if b then some k else y) ≡ some size
    → IsUnit u size
listed u k size y true h name other e = (name refl, ground (arith, e))
listed u k size y false h name other e = other e

pub unit_map-IsUnit : (u : Bytes) (size : ℕ) → unit_map u ≡ some size → IsUnit u size
unfolding unit_map
unit_map-IsUnit u size =
    listed u 1 size _ _ (omega arith) (named u (codes "ns") (omega arith, (refl, (refl, tt)))) (
      listed u 1000 size _ _ (omega arith)
        (either_named u (codes "us") _ (omega arith, (refl, (refl, tt)))
          (either_named u (0xc2 ∷ 0xb5 ∷ codes "s") _ (omega arith, (refl, (refl, (refl, tt))))
            (named u (0xce ∷ 0xbc ∷ codes "s") (omega arith, (refl, (refl, (refl, tt)))))))
        (listed u 1000000 size _ _ (omega arith)
          (named u (codes "ms") (omega arith, (refl, (refl, tt))))
          (listed u 1000000000 size _ _ (omega arith)
            (named u (codes "s") (omega arith, (refl, tt)))
            (listed u 60000000000 size _ _ (omega arith)
              (named u (codes "m") (omega arith, (refl, tt)))
              (listed u 3600000000000 size none _ (omega arith)
                (named u (codes "h") (omega arith, (refl, tt))) (λ e. cc))))))

-- A text that a number starts, or the empty one.
abbrev pub Ends : Bytes → Type 0
Ends [] = Unit
Ends (c ∷ s) = is_digit c ≡ true

split_unit-append :
    (u rest : Bytes)
    → All (λ c. is_unit_byte c ≡ true) u
    → Ends rest
    → split_unit (u ++ rest) ≡ (u, rest)
unfolding split_unit
split_unit-append [] [] h k = refl
split_unit-append [] (c ∷ rest) h k = ground (arith, k)
split_unit-append (c ∷ u) rest (hc, hu) k =
    let ih = split_unit-append u rest hu k in ground (arith, ih, hc)

pub begins_with_digit-append :
    (ds rest : Bytes) → All IsDigit ds → 1 ≤ length ds → begins_with_digit (ds ++ rest) ≡ true
begins_with_digit-append [] rest h some_digit = absurd (omega arith)
begins_with_digit-append (d ∷ ds) rest (hd, hs) some_digit = digit_yes d hd

unit-stops : (u rest : Bytes) → IsUnitName u → begins_with_digit (u ++ rest) ≡ false
unit-stops [] rest (h, hu) = absurd (omega arith)
unit-stops (c ∷ u) rest (h, (hc, hu)) = ground (arith, hc)

with_fraction-unit :
    (n : ℕ) (u rest : Bytes)
    → IsUnitName u
    → with_fraction n true (u ++ rest)
      ≡ some (record { whole = n; part = 0; scale = 1; rest = u ++ rest })
with_fraction-unit n [] rest (h, hu) = absurd (omega arith)
with_fraction-unit n (c ∷ u) rest (h, (hc, hu)) = ground (arith, hc)

number-decimal :
    (n : ℕ) (u rest : Bytes)
    → IsUnitName u
    → n ≤ int64_limit
    → number (decimal n ++ (u ++ rest))
      ≡ some (record { whole = n; part = 0; scale = 1; rest = u ++ rest })
unfolding number
number-decimal n u rest h small =
    let read =
      leading_int-value 0 (decimal n) (u ++ rest) (decimal-IsDigit n) (unit-stops u rest h)
        (rw value-decimal small) in
    rw
      (
        read,
        begins_with_digit-append (decimal n) (u ++ rest) (decimal-IsDigit n) (decimal-nonempty n),
        value-decimal,
      )
      (with_fraction-unit n u rest h)

pub digit-Ends : (s : Bytes) → begins_with_digit s ≡ true → Ends s
digit-Ends [] h = tt
digit-Ends (c ∷ s) h = h

module _ (fraction : ℕ → ℕ → ℕ → ℕ) where
  scaled-whole :
      (n size : ℕ) (rest : Bytes)
      → 0 < size
      → n * size ≤ int64_limit
      → scaled fraction (record { whole = n; part = 0; scale = 1; rest = rest }) size
        ≡ some (n * size)
  unfolding scaled
  scaled-whole n size rest h small =
      let fits = (le-div_iff_mul-le {k = size} {x = n} {y = int64_limit} h).1 small in
      ground (arith, fits, small)

  pub one_part-decimal :
      (n size : ℕ) (u rest : Bytes)
      → unit_map u ≡ some size
      → Ends rest
      → n * size ≤ int64_limit
      → one_part fraction (decimal n ++ (u ++ rest)) ≡ some (n * size, rest)
  unfolding one_part
  one_part-decimal n size u rest e ends small =
      let (name, positive) = unit_map-IsUnit u size e in
      let count_small : n ≤ int64_limit = omega (
        arith,
        (le-div_iff_mul-le {k = size} {x = n} {y = int64_limit} positive).1 small,
        div-le_self int64_limit size,
      ) in
      let number_read = number-decimal n u rest name count_small in
      let unit_read = split_unit-append u rest name.1 ends in
      rw (number_read, unit_read, e, scaled-whole n size (u ++ rest) positive small) refl
