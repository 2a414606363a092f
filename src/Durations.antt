-- ===== src/Durations.antt =====
-- time.ParseDuration of Go's standard library, which internal/config/config.go calls. What a fraction
-- adds, a product of floats, is a parameter: `fraction f unit scale` is
-- uint64(float64(f) * (float64(unit) / scale)).
pub mod Bounds
pub mod Fuel
pub mod Units
pub mod Whole
use mcp_resile.Base.{
  ℕ, zero, suc, ◌+◌, ◌-◌, ◌*◌, ◌/◌, ◌%◌, Bytes, codes, Bool, true, false, not, ◌&&◌, ◌||◌, Option,
  none, some, List, [], ◌∷◌, ◌==◌, leb, ltb, length, is_empty, str_eq, if◌then◌else◌, ℤ, pos,
  negsuc,
}

-- 1 << 63
abbrev pub int64_limit : ℕ
int64_limit = 9223372036854775808

abbrev pub two_64 : ℕ
two_64 = 18446744073709551616

abbrev pub is_digit : ℕ → Bool
is_digit c = leb 48 c && leb c 57

abbrev pub point : ℕ
point = 46

infixl 5 ◌>>=◌
abbrev ◌>>=◌ {ℓ κ} : {A : Type ℓ} {B : Type κ} → Option A → (A → Option B) → Option B
none >>= f = none
some a >>= f = f a

-- leadingInt; `none` is its error, an overflow.
unfoldable pub leading_int : ℕ → Bytes → Option (ℕ × Bytes)
leading_int x [] = some (x, [])
leading_int x (c ∷ s) =
    let y = x * 10 + (c - 48) in
    let more = leading_int y s in
    if not (is_digit c)
    then some (x, c ∷ s)
    else if ltb (int64_limit / 10) x || ltb int64_limit y
    then none
    else more

-- leadingFraction: the digits that fit, their scale, and what follows all digits.
unfoldable pub leading_fraction : ℕ → ℕ → Bool → Bytes → ℕ × ℕ × Bytes
leading_fraction x scale overflow [] = (x, scale, [])
leading_fraction x scale overflow (c ∷ s) =
    let y = x * 10 + (c - 48) in
    let full = overflow || (ltb ((int64_limit - 1) / 10) x || ltb int64_limit y) in
    let skipped = leading_fraction x scale true s in
    let taken = leading_fraction y (scale * 10) false s in
    if not (is_digit c) then (x, scale, c ∷ s) else if full then skipped else taken

abbrev pub begins_with_digit : Bytes → Bool
begins_with_digit [] = false
begins_with_digit (c ∷ s) = is_digit c

-- The number before the unit, its point and digits after it.
pub record Number : Type 0 where
  pub whole : ℕ
  pub part : ℕ
  pub scale : ℕ
  pub rest : Bytes

abbrev pub with_fraction : ℕ → Bool → Bytes → Option Number
with_fraction v pre [] =
    if pre then some (record { whole = v; part = 0; scale = 1; rest = [] }) else none
with_fraction v pre (c ∷ s) =
    let (f, scale, rest) = leading_fraction 0 1 false s in
    if c == point
    then if pre || begins_with_digit s
      then some (record { whole = v; part = f; scale = scale; rest = rest })
      else none
    else if pre
    then some (record { whole = v; part = 0; scale = 1; rest = c ∷ s })
    else none

unfoldable pub number : Bytes → Option Number
unfolding leading_int leading_fraction
number s = leading_int 0 s >>= λ (v, rest). with_fraction v (begins_with_digit s) rest

abbrev pub put : ℕ → Bytes × Bytes → Bytes × Bytes
put c (u, rest) = (c ∷ u, rest)

-- The unit: everything up to the next point or digit.
unfoldable pub split_unit : Bytes → Bytes × Bytes
split_unit [] = ([], [])
split_unit (c ∷ s) =
    let more = put c (split_unit s) in if c == point || is_digit c then ([], c ∷ s) else more

-- unitMap; both ways of writing the micro sign are in it.
unfoldable pub unit_map : Bytes → Option ℕ
unit_map u =
    if str_eq u (codes "ns")
    then some 1
    else if str_eq u (codes "us")
        || (str_eq u (0xc2 ∷ 0xb5 ∷ codes "s") || str_eq u (0xce ∷ 0xbc ∷ codes "s"))
    then some 1000
    else if str_eq u (codes "ms")
    then some 1000000
    else if str_eq u (codes "s")
    then some 1000000000
    else if str_eq u (codes "m")
    then some 60000000000
    else if str_eq u (codes "h")
    then some 3600000000000
    else none

module _ (fraction : ℕ → ℕ → ℕ → ℕ) where
  -- A number in a unit, in nanoseconds.
  unfoldable pub scaled : Number → ℕ → Option ℕ
  scaled n unit =
      let v = n.whole * unit in
      let w = if n.part == 0 then v else (v + fraction n.part unit n.scale) % two_64 in
      if ltb (int64_limit / unit) n.whole || ltb int64_limit w then none else some w

  -- A round of the loop, on a text that is not empty.
  unfoldable pub one_part : Bytes → Option (ℕ × Bytes)
  unfolding number split_unit unit_map scaled
  one_part s = number s >>= λ n. unit_map (split_unit n.rest).0 >>= λ unit.
      scaled n unit >>= λ v. some (v, (split_unit n.rest).1)

  abbrev pub add_part : ℕ → ℕ → Option ℕ
  add_part d v = let e = (d + v) % two_64 in if ltb int64_limit e then none else some e

  unfoldable pub parts : ℕ → ℕ → Bytes → Option ℕ
  unfolding one_part
  parts f d [] = some d
  parts zero d (c ∷ s) = none
  parts (suc f) d (c ∷ s) = one_part (c ∷ s) >>= λ (v, rest). add_part d v >>= λ e. parts f e rest

  abbrev pub negated : ℕ → ℤ
  negated zero = pos 0
  negated (suc n) = negsuc n

  abbrev pub signed : Bool → ℕ → Option ℤ
  signed true d = some (negated d)
  signed false d = if ltb (int64_limit - 1) d then none else some (pos d)

  -- After the sign.
  abbrev pub unsigned : Bool → Bytes → Option ℤ
  unsigned neg s =
      if str_eq s (codes "0")
      then some (pos 0)
      else if is_empty s
      then none
      else parts (length s) 0 s >>= λ d. signed neg d

  unfoldable pub parse_duration : Bytes → Option ℤ
  unfolding parts
  parse_duration [] = none
  parse_duration (c ∷ s) =
      if c == 45
      then unsigned true s
      else if c == 43
      then unsigned false s
      else unsigned false (c ∷ s)
