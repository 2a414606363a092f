-- ===== src/Durations/Whole.antt =====
-- Durations of whole numbers of units, as internal/config/config.go and its documents write them.
use mcp_resile.Base.{
  ℕ, ◌+◌, ◌*◌, ◌≤◌, ◌<◌, Bytes, codes, true, false, some, List, [], ◌∷◌, ◌++◌, length,
  length-append, is_empty, str_eq, All, pos, ◌≡◌, ◌∙◌, refl, ap, arith,
}
use mcp_resile.Base.Decimal.{decimal, decimal-IsDigit, decimal-nonempty}
use mcp_resile.Durations.{
  int64_limit, ◌>>=◌, begins_with_digit, unit_map, one_part, add_part, parts, unsigned,
  parse_duration,
}
use mcp_resile.Durations.Units.{
  unit_map-IsUnit, Ends, begins_with_digit-append, digit-Ends, one_part-decimal,
}
use mcp_resile.Durations.Fuel.{parts-loop}

-- A number of units, and the size of the unit.
pub record Part : Type 0 where
  pub count : ℕ
  pub unit : Bytes
  pub size : ℕ

abbrev pub IsPart : Part → Type 0
IsPart p = unit_map p.unit ≡ some p.size

-- 1h30m: the parts one after the other.
unfoldable pub written : List Part → Bytes
written [] = []
written (p ∷ ps) = decimal p.count ++ (p.unit ++ written ps)

unfoldable pub total : List Part → ℕ
total [] = 0
total (p ∷ ps) = p.count * p.size + total ps

parts-step :
    (fraction : ℕ → ℕ → ℕ → ℕ) (d : ℕ) (s : Bytes)
    → 1 ≤ length s
    → parts fraction (length s) d s ≡ (
        one_part fraction s >>= λ (v, rest).
        add_part fraction d v >>= λ e. parts fraction (length rest) e rest)
parts-step fraction d [] h = absurd (omega arith)
parts-step fraction d (c ∷ s) h = parts-loop fraction d c s

written-Ends : (ps : List Part) → Ends (written ps)
unfolding written
written-Ends [] = tt
written-Ends (p ∷ ps) = digit-Ends (written (p ∷ ps)) (
    begins_with_digit-append (decimal p.count) (p.unit ++ written ps) (decimal-IsDigit p.count)
      (decimal-nonempty p.count))

module _ (fraction : ℕ → ℕ → ℕ → ℕ) where
  add_part-small : (d v : ℕ) → d + v ≤ int64_limit → add_part fraction d v ≡ some (d + v)
  add_part-small d v small = ground arith

  written-length : (p : Part) (ps : List Part) → IsPart p → 2 ≤ length (written (p ∷ ps))
  unfolding written
  written-length p ps h =
      let (name, _) = unit_map-IsUnit p.unit p.size h in
      omega (
        arith,
        decimal-nonempty p.count,
        name.0,
        length-append (decimal p.count) (p.unit ++ written ps),
        length-append p.unit (written ps),
      )

  parts-written :
      (ps : List Part) (d : ℕ)
      → All IsPart ps
      → d + total ps ≤ int64_limit
      → parts fraction (length (written ps)) d (written ps) ≡ some (d + total ps)
  unfolding written total
  parts-written [] d h small = unfold parts in ap some (omega arith)
  parts-written (p ∷ ps) d (hp, hs) small =
      let v = p.count * p.size in
      let enough : 1 ≤ length (written (p ∷ ps)) = omega (arith, written-length p ps hp) in
      let read =
        one_part-decimal fraction p.count p.size p.unit (written ps) hp (written-Ends ps)
          (omega arith) in
      let added = add_part-small d v (omega arith) in
      let ih = parts-written ps (d + v) hs (omega arith) in
      parts-step fraction d (written (p ∷ ps)) enough
      ∙ (rw (read, added, ih) (ap some (omega arith)))

  not_zero : (s : Bytes) → 2 ≤ length s → (str_eq s (codes "0") ≡ false) × (is_empty s ≡ false)
  unfolding str_eq
  not_zero [] h = absurd (omega arith)
  not_zero (c ∷ []) h = absurd (omega arith)
  not_zero (c ∷ c' ∷ s) h = (ground arith, refl)

  unsigned-value :
      (s : Bytes) (d : ℕ)
      → 2 ≤ length s
      → d < int64_limit
      → parts fraction (length s) 0 s ≡ some d
      → unsigned fraction false s ≡ some (pos d)
  unsigned-value s d long small e =
      let (differs, some_byte) = not_zero s long in rw (differs, some_byte, e) (ground arith)

  unsigned-written :
      (p : Part) (ps : List Part)
      → All IsPart (p ∷ ps)
      → total (p ∷ ps) < int64_limit
      → unsigned fraction false (written (p ∷ ps)) ≡ some (pos (total (p ∷ ps)))
  unsigned-written p ps h small =
      unsigned-value (written (p ∷ ps)) (total (p ∷ ps)) (written-length p ps (h.0)) small
        (parts-written (p ∷ ps) 0 h (omega arith) ∙ ap some (omega arith))

  unsigned-parse_duration :
      (s : Bytes)
      → begins_with_digit s ≡ true
      → parse_duration fraction s ≡ unsigned fraction false s
  unfolding parse_duration
  unsigned-parse_duration [] h = cc
  unsigned-parse_duration (c ∷ s) h = ground (arith, h)

  -- Whole numbers of units, one after the other, are read as their sum, if it fits an int64.
  pub parse_duration-written :
      (p : Part) (ps : List Part)
      → All IsPart (p ∷ ps)
      → total (p ∷ ps) < int64_limit
      → parse_duration fraction (written (p ∷ ps)) ≡ some (pos (total (p ∷ ps)))
  parse_duration-written p ps h small =
      let starts : begins_with_digit (written (p ∷ ps)) ≡ true =
        unfold written in
        begins_with_digit-append (decimal p.count) (p.unit ++ written ps) (decimal-IsDigit p.count)
          (decimal-nonempty p.count) in
      unsigned-parse_duration (written (p ∷ ps)) starts ∙ unsigned-written p ps h small
