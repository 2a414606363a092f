-- ===== src/Pattern.antt =====
-- Reading a pattern of path.Match of Go's standard library, which internal/config/config.go and
-- internal/policy/policy.go call: `*` stands for bytes other than '/', `?` for one rune other than
-- '/', `[a-z]` and `[^a-z]` for one rune, and `\` quotes a byte.
use mcp_resile.Base.{
  ℕ, zero, suc, ◌+◌, ◌-◌, ◌*◌, Bytes, Bool, true, false, ◌&&◌, ◌||◌, Option, none, some, List, [],
  ◌∷◌, ◌==◌, leb, length, drop, is_empty, if◌then◌else◌,
}
use mcp_resile.Proxy.Response.{Range, first}

-- A value, ErrBadPattern, or a loop that has used up its fuel.
pub data Parsed {ℓ} (A : Type ℓ) : Type ℓ where
  ok : A → Parsed A
  bad_pattern : Parsed A
  out_of_fuel : Parsed A

infixl 5 ◌>>=◌
abbrev pub ◌>>=◌ {ℓ κ} : {A : Type ℓ} {B : Type κ} → Parsed A → (A → Parsed B) → Parsed B
ok a >>= f = f a
bad_pattern >>= f = bad_pattern
out_of_fuel >>= f = out_of_fuel

abbrev pub slash : ℕ
slash = 47

abbrev pub star_byte : ℕ
star_byte = 42

abbrev pub backslash : ℕ
backslash = 92

abbrev pub open_bracket : ℕ
open_bracket = 91

abbrev pub close_bracket : ℕ
close_bracket = 93

-- utf8.RuneError
abbrev pub rune_error : ℕ
rune_error = 0xfffd

-- The following bytes of a rune whose first byte announces `k` of them.
unfoldable pub following : ℕ → ℕ → ℕ → ℕ → Bytes → Option ℕ
following zero lo hi v s = some v
following (suc k) lo hi v [] = none
following (suc k) lo hi v (c ∷ s) =
    let more = following k 0x80 0xbf (v * 64 + (c - 0x80)) s in
    if leb lo c && leb c hi then more else none

abbrev pub leading : ℕ → ℕ → ℕ
leading b zero = b
leading b (suc zero) = b - 0xc0
leading b (suc (suc zero)) = b - 0xe0
leading b _ = b - 0xf0

abbrev pub rune_at : Option ℕ → ℕ → ℕ × ℕ
rune_at none k = (rune_error, 1)
rune_at (some v) k = (v, suc k)

abbrev pub decode_with : ℕ → Option Range → Bytes → ℕ × ℕ
decode_with b none s = (rune_error, 1)
decode_with b (some r) s = rune_at (following r.pending r.lo r.hi (leading b r.pending) s) r.pending

-- utf8.DecodeRuneInString of a text that begins with `b`: the rune and its width.
unfoldable pub decode_rune : ℕ → Bytes → ℕ × ℕ
unfolding following first
decode_rune b s = decode_with b (first b) s

pub data Item : Type 0 where
  byte : ℕ → Item
  any_rune : Item
  class : Bool → List (ℕ × ℕ) → Item

-- getEsc from the decoding on.
abbrev pub escaped : Bytes → Parsed (ℕ × Bytes)
escaped [] = bad_pattern
escaped (b ∷ s) =
    let (r, n) = decode_rune b s in
    let rest = drop n (b ∷ s) in
    if (r == rune_error && n == 1) || is_empty rest then bad_pattern else ok (r, rest)

unfoldable pub get_esc : Bytes → Parsed (ℕ × Bytes)
unfolding decode_rune
get_esc [] = bad_pattern
get_esc (b ∷ s) =
    if b == 45 || b == close_bracket
    then bad_pattern
    else if b == backslash
    then escaped s
    else escaped (b ∷ s)

-- The end of a range that begins with `lo`.
unfoldable pub upper : ℕ → Bytes → Parsed (ℕ × Bytes)
unfolding get_esc
upper lo [] = bad_pattern
upper lo (b ∷ s) = if b == 45 then get_esc s else ok (lo, b ∷ s)

abbrev pub begins_with : ℕ → Bytes → Bool
begins_with c [] = false
begins_with c (b ∷ s) = b == c

abbrev pub after_first : Bytes → Bytes
after_first [] = []
after_first (b ∷ s) = s

-- The loop over the ranges of a class; `some_read` is nrange > 0.
unfoldable pub read_ranges : ℕ → Bool → Bytes → Parsed (List (ℕ × ℕ) × Bytes)
unfolding get_esc upper
read_ranges zero some_read chunk = out_of_fuel
read_ranges (suc f) some_read chunk =
    let more = (do
      (lo, s) ← get_esc chunk
      (hi, t) ← upper lo s
      (ranges, rest) ← read_ranges f true t
      ok ((lo, hi) ∷ ranges, rest)) in
    if some_read && begins_with close_bracket chunk then ok ([], after_first chunk) else more

unfoldable pub read_class : Bytes → Parsed (Item × Bytes)
unfolding read_ranges
read_class chunk =
    let negated = begins_with 94 chunk in
    let body = if negated then after_first chunk else chunk in
    read_ranges (suc (length body)) false body >>= λ (ranges, rest). ok (class negated ranges, rest)

abbrev pub quoted : Bytes → Parsed (Item × Bytes)
quoted [] = bad_pattern
quoted (b ∷ s) = ok (byte b, s)

-- One round of the loop of matchChunk, as far as it reads the chunk.
unfoldable pub read_item : ℕ → Bytes → Parsed (Item × Bytes)
unfolding read_class
read_item b s =
    if b == open_bracket
    then read_class s
    else if b == 63
    then ok (any_rune, s)
    else if b == backslash
    then quoted s
    else ok (byte b, s)

unfoldable pub read_items : ℕ → Bytes → Parsed (List Item)
unfolding read_item
read_items f [] = ok []
read_items zero (b ∷ s) = out_of_fuel
read_items (suc f) (b ∷ s) = do
  (item, rest) ← read_item b s
  items ← read_items f rest
  ok (item ∷ items)

unfoldable pub read_chunk : Bytes → Parsed (List Item)
unfolding read_items
read_chunk chunk = read_items (length chunk) chunk
