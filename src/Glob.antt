-- ===== src/Glob.antt =====
-- path.Match of Go's standard library, which internal/config/config.go and internal/policy/policy.go
-- call. The pattern is taken apart at its stars into chunks; a chunk is read before it is compared,
-- since its errors do not depend on the name.
pub mod Reading
pub mod Total
pub mod Errors
pub mod Plain
pub mod Stars
use mcp_resile.Base.{
  ℕ, zero, suc, ◌+◌, ◌-◌, ◌*◌, Bytes, Bool, true, false, not, ◌&&◌, ◌||◌, Option, none, some, List,
  [], ◌∷◌, ◌==◌, leb, length, drop, is_empty, if◌then◌else◌,
}
use mcp_resile.Proxy.Response.{Range, first}
use mcp_resile.Pattern.{
  Parsed, ◌>>=◌, slash, star_byte, backslash, open_bracket, close_bracket, rune_error, following,
  leading, rune_at, decode_with, decode_rune, Item, escaped, get_esc, upper, begins_with,
  after_first, read_ranges, read_class, quoted, read_item, read_items, read_chunk, ok, bad_pattern,
  out_of_fuel, byte, any_rune, class,
}

abbrev pub within : ℕ → List (ℕ × ℕ) → Bool
within r [] = false
within r ((lo, hi) ∷ ranges) = (leb lo r && leb r hi) || within r ranges

-- What an item leaves of a name that begins with `c`.
unfoldable pub match_item : Item → ℕ → Bytes → Option Bytes
unfolding decode_rune
match_item (byte b) c s = if c == b then some s else none
match_item any_rune c s = if c == slash then none else some (drop (decode_rune c s).1 (c ∷ s))
match_item (class negated ranges) c s =
    let (r, n) = decode_rune c s in
    let found = within r ranges in
    if (found && not negated) || (negated && not found) then some (drop n (c ∷ s)) else none

-- matchChunk on a chunk that has been read.
unfoldable pub match_items : List Item → Bytes → Option Bytes
unfolding match_item
match_items [] s = some s
match_items (item ∷ items) [] = none
match_items (item ∷ items) (c ∷ s) = elim (match_item item c s) [
  | none ↦ none
  | some rest ↦ match_items items rest
]

-- A match of the last chunk counts only if it ends the name.
unfoldable pub accept : Bool → Option Bytes → Option Bytes
accept last none = none
accept last (some t) = if last && not (is_empty t) then none else some t

-- The loop that skips bytes for a star.
unfoldable pub skip : Bool → List Item → Bytes → Option Bytes
unfolding match_items accept
skip last items [] = none
skip last items (c ∷ s) =
    let later = skip last items s in
    if c == slash
    then none
    else elim (accept last (match_items items s)) [ some t ↦ some t | none ↦ later ]

abbrev pub or_later : Option Bytes → Option Bytes → Option Bytes
or_later none later = later
or_later (some t) later = some t

unfoldable pub place : Bool → Bool → List Item → Bytes → Option Bytes
unfolding skip
place star last items s =
    or_later (accept last (match_items items s)) (if star then skip last items s else none)

-- scanChunk: the stars, then the chunk up to the next star that is neither quoted nor in a class.
abbrev pub drop_stars : Bytes → Bytes
drop_stars [] = []
drop_stars (b ∷ s) = if b == star_byte then drop_stars s else b ∷ s

abbrev pub put : ℕ → Bytes × Bytes → Bytes × Bytes
put b (chunk, rest) = (b ∷ chunk, rest)

abbrev pub in_range_after : ℕ → Bool → Bool
in_range_after b in_range = b == open_bracket || (in_range && not (b == close_bracket))

unfoldable pub scan : Bool → Bool → Bytes → Bytes × Bytes
scan is_quoted in_range [] = ([], [])
scan true in_range (b ∷ s) = put b (scan false in_range s)
scan false in_range (b ∷ s) =
    let more = put b (scan (b == backslash) (in_range_after b in_range) s) in
    if b == star_byte && not in_range then ([], b ∷ s) else more

unfoldable pub scan_chunk : Bytes → Bool × Bytes × Bytes
unfolding scan
scan_chunk pattern =
    let (chunk, rest) = scan false false (drop_stars pattern) in
    (begins_with star_byte pattern, chunk, rest)

unfoldable pub has_slash : Bytes → Bool
has_slash [] = false
has_slash (c ∷ s) = c == slash || has_slash s

-- The check of what is left of a pattern once the name does not match.
unfoldable pub check_rest : ℕ → Bytes → Parsed Bool
unfolding scan_chunk read_chunk
check_rest f [] = ok false
check_rest zero (b ∷ p) = out_of_fuel
check_rest (suc f) (b ∷ p) =
    let (_, chunk, rest) = scan_chunk (b ∷ p) in read_chunk chunk >>= λ items. check_rest f rest

abbrev pub go_on : (Bytes → Parsed Bool) → Parsed Bool → Option Bytes → Parsed Bool
go_on next failed none = failed
go_on next failed (some t) = next t

-- A round of the outer loop, for what scanChunk has returned.
abbrev pub round :
    (Bytes → Bytes → Parsed Bool)
    → (Bytes → Parsed Bool)
    → Bytes
    → Bool × Bytes × Bytes
    → Parsed Bool
round next check name (star, chunk, rest) =
    let on_chunk = read_chunk chunk >>= λ items.
    go_on (next rest) (check rest) (place star (is_empty rest) items name) in
    if star && is_empty chunk then ok (not (has_slash name)) else on_chunk

-- The outer loop.
unfoldable pub match_from : ℕ → Bytes → Bytes → Parsed Bool
unfolding check_rest place has_slash
match_from f [] name = ok (is_empty name)
match_from zero (b ∷ p) name = out_of_fuel
match_from (suc f) (b ∷ p) name = round (match_from f) (check_rest f) name (scan_chunk (b ∷ p))

abbrev pub answer : Parsed Bool → Option Bool
answer (ok b) = some b
answer bad_pattern = none
answer out_of_fuel = none

unfoldable pub path_match : Bytes → Bytes → Option Bool
unfolding match_from
path_match pattern name = answer (match_from (length pattern) pattern name)
