-- ===== src/Glob/Total.antt =====
-- The fuel of path.Match's loops.
use mcp_resile.Base.{
  ℕ, zero, suc, ◌≤◌, Bytes, Bool, true, false, Option, none, some, [], ◌∷◌, ◌==◌, length, is_empty,
  arith, Bool-cases, inl, inr, ◌&&◌,
}
use mcp_resile.Pattern.{Parsed, star_byte, read_item, read_items, read_chunk, backslash}
use mcp_resile.Glob.{drop_stars, in_range_after, scan, scan_chunk, check_rest, match_from, go_on}
use mcp_resile.Glob.Reading.{Answers, >>=-Answers, read_item-Leaves}

-- It has an answer.
abbrev pub Ends {ℓ} : {A : Type ℓ} → Parsed A → Type 0
Ends = Answers (λ a. Unit)

read_items-Ends : (f : ℕ) (s : Bytes) → length s ≤ f → Ends (read_items f s)
unfolding read_items
read_items-Ends f [] h = tt
read_items-Ends zero (b ∷ s) h = omega arith
read_items-Ends (suc f) (b ∷ s) h =
    >>=-Answers (λ r. length r.1 ≤ length s) _ (read_item b s) _ (read_item-Leaves b s)
      (λ (item, rest) k.
        >>=-Answers (λ a. Unit) _ (read_items f rest) _ (read_items-Ends f rest (omega arith))
          (λ items t. tt))

pub read_chunk-Ends : (s : Bytes) → Ends (read_chunk s)
unfolding read_chunk
read_chunk-Ends s = read_items-Ends (length s) s (omega arith)

length-scan : (q r : Bool) (s : Bytes) → length (scan q r s).1 ≤ length s
unfolding scan
length-scan q r [] = omega arith
length-scan true r (b ∷ s) = omega (arith, length-scan false r s)
length-scan false r (b ∷ s) = ground (arith, length-scan (b == backslash) (in_range_after b r) s)

length-drop_stars : (s : Bytes) → length (drop_stars s) ≤ length s
length-drop_stars [] = omega arith
length-drop_stars (b ∷ s) = ground (arith, length-drop_stars s)

-- A chunk takes at least one byte of the pattern, its star included.
pub length-scan_chunk : (b : ℕ) (p : Bytes) → length (scan_chunk (b ∷ p)).2 ≤ length p
unfolding scan_chunk
length-scan_chunk b p = elim (Bool-cases (b == star_byte)) [
  | inl e ↦ rw e (omega (arith, length-scan false false (drop_stars p), length-drop_stars p))
  | inr e ↦ rw e (unfold scan in rw e (length-scan (b == backslash) (in_range_after b false) p))
]

pub check_rest-Ends : (f : ℕ) (p : Bytes) → length p ≤ f → Ends (check_rest f p)
unfolding check_rest
check_rest-Ends f [] h = tt
check_rest-Ends zero (b ∷ p) h = omega arith
check_rest-Ends (suc f) (b ∷ p) h =
    let (_, chunk, rest) = scan_chunk (b ∷ p) in
    >>=-Answers (λ a. Unit) _ (read_chunk chunk) _ (read_chunk-Ends chunk)
      (λ items t. check_rest-Ends f rest (omega (arith, length-scan_chunk b p)))

go_on-Ends :
    (next : Bytes → Parsed Bool) (failed : Parsed Bool) (o : Option Bytes)
    → ((t : Bytes) → Ends (next t))
    → Ends failed
    → Ends (go_on next failed o)
go_on-Ends next failed none h k = k
go_on-Ends next failed (some t) h k = h t

pub match_from-Ends : (f : ℕ) (p name : Bytes) → length p ≤ f → Ends (match_from f p name)
unfolding match_from
match_from-Ends f [] name h = tt
match_from-Ends zero (b ∷ p) name h = omega arith
match_from-Ends (suc f) (b ∷ p) name h =
    let (star, chunk, rest) = scan_chunk (b ∷ p) in
    let shorter : length rest ≤ f = omega (arith, length-scan_chunk b p) in
    elim (Bool-cases (star && is_empty chunk)) [
      | inl e ↦ rw e tt
      | inr e ↦ rw e (
          >>=-Answers (λ a. Unit) (λ a. Unit) (read_chunk chunk) _ (read_chunk-Ends chunk)
            (λ items t.
              go_on-Ends (match_from f rest) (check_rest f rest) _
                (λ u. match_from-Ends f rest u shorter) (check_rest-Ends f rest shorter)))
    ]
