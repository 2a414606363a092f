-- ===== src/Proxy/Response.antt =====
-- internal/proxy/response.go: the size limit on a response's text.
-- `valid_string` is utf8.ValidString, by its table of first bytes and of ranges for the second.
pub mod Truncation
pub mod Blocks
pub mod Clamping
use mcp_resile.Base.{
  ℕ, zero, suc, ◌+◌, ◌-◌, Bytes, codes, Bool, true, false, ◌&&◌, ◌||◌, Option, none, some, List, [],
  ◌∷◌, ◌++◌, leb, ltb, ◌==◌, length, take, if◌then◌else◌, ℤ, pos, negsuc,
}

pub record Range : Type 0 where
  pub pending : ℕ
  pub lo : ℕ
  pub hi : ℕ

abbrev range : ℕ → ℕ → ℕ → Option Range
range k lo hi = some (record { pending = k; lo = lo; hi = hi })

-- For a first byte: how many bytes must follow, and the range of the next one.
unfoldable pub first : ℕ → Option Range
first b =
    if ltb b 0x80
    then range 0 0x80 0xbf
    else if ltb b 0xc2
    then none
    else if ltb b 0xe0
    then range 1 0x80 0xbf
    else if b == 0xe0
    then range 2 0xa0 0xbf
    else if b == 0xed
    then range 2 0x80 0x9f
    else if ltb b 0xf0
    then range 2 0x80 0xbf
    else if b == 0xf0
    then range 3 0x90 0xbf
    else if ltb b 0xf4
    then range 3 0x80 0xbf
    else if b == 0xf4
    then range 3 0x80 0x8f
    else none

-- The rest of a text is valid when `k` bytes of a rune are pending, the next within `lo` and `hi`.
unfoldable pub valid_rest : ℕ → ℕ → ℕ → Bytes → Bool
valid_rest zero lo hi [] = true
valid_rest (suc k) lo hi [] = false
valid_rest zero lo hi (b ∷ s) = elim (first b) [
  | none ↦ false
  | some r ↦ valid_rest r.pending r.lo r.hi s
]
valid_rest (suc k) lo hi (b ∷ s) = (leb lo b && leb b hi) && valid_rest k 0x80 0xbf s

-- utf8.ValidString
unfoldable pub valid_string : Bytes → Bool
unfolding valid_rest first
valid_string = valid_rest 0 0x80 0xbf

-- The loop of truncateUTF8, at b = s[:n].
unfoldable pub shorten : ℕ → Bytes → Bytes
unfolding valid_string
shorten zero s = []
shorten (suc n) s =
    let shorter = shorten n s in if valid_string (take (suc n) s) then take (suc n) s else shorter

unfoldable pub truncate_utf8 : Bytes → ℕ → Bytes
unfolding shorten
truncate_utf8 s max_bytes =
    if max_bytes == 0 then [] else if leb (length s) max_bytes then s else shorten max_bytes s

-- Meta and Annotations are carried along unread.
pub record TextContent : Type 0 where
  pub meta : Option Bytes
  pub annotations : Option Bytes
  pub text : Bytes

pub data Content : Type 0 where
  text_block : TextContent → Content
  other_block : Bytes → Content

pub record CallToolResult : Type 0 where
  pub meta : Option Bytes
  pub content : List Content
  pub structured : Option Bytes
  pub is_error : Bool

abbrev pub truncation_notice : Bytes
truncation_notice = codes "[TRUNCATED: response exceeded max_response_bytes]"

unfoldable pub text_total : List Content → ℕ
text_total [] = 0
text_total (text_block t ∷ cs) = length t.text + text_total cs
text_total (other_block b ∷ cs) = text_total cs

-- The second loop of clampResponse, with `remaining` bytes of budget left.
unfoldable pub clamp_blocks : ℕ → List Content → List Content
unfolding truncate_utf8
clamp_blocks remaining [] = []
clamp_blocks remaining (other_block b ∷ cs) = other_block b ∷ clamp_blocks remaining cs
clamp_blocks remaining (text_block t ∷ cs) =
    let dropped = clamp_blocks remaining cs in
    let kept = text_block t ∷ clamp_blocks (remaining - length t.text) cs in
    let cut = text_block (record t { text = truncate_utf8 t.text remaining }) ∷ clamp_blocks 0 cs in
    if remaining == 0 then dropped else if leb (length t.text) remaining then kept else cut

abbrev pub notice : Content
notice = text_block (record { meta = none; annotations = none; text = truncation_notice })

unfoldable pub clamp_to : ℕ → CallToolResult → CallToolResult
unfolding text_total clamp_blocks
clamp_to max_bytes result =
    if leb (text_total result.content) max_bytes then result else record result {
      content = clamp_blocks max_bytes result.content ++ notice ∷ [];
      is_error = false;
    }

-- clampResponse; `none` is a nil result.
unfoldable pub clamp_response : Option CallToolResult → ℤ → Option CallToolResult
unfolding clamp_to
clamp_response none max_bytes = none
clamp_response (some result) (negsuc n) = some result
clamp_response (some result) (pos zero) = some result
clamp_response (some result) (pos (suc n)) = some (clamp_to (suc n) result)
