-- ===== src/Proxy/Response/Truncation.antt =====
-- truncateUTF8, internal/proxy/response.go.
use mcp_resile.Base.{
  ℕ, zero, suc, ◌+◌, ◌≤◌, ◌<◌, Bytes, true, false, none, some, [], ◌∷◌, length, take, ◌≡◌, refl,
  arith, ◌⊎◌, inl, inr, Bool-cases, Option-cases, length-take, if◌then◌else◌, ◌∙◌, sym,
}
use mathlib.Core.Bool.{false≢true}
use native.Mathlib.Decide.{dec_le}
use mcp_resile.Proxy.Response.{Range, first, valid_rest, valid_string, shorten, truncate_utf8}

-- `n` bytes of `s` are valid, and no longer prefix within `bound` is.
pub record IsLongest (s : Bytes) (bound n : ℕ) : Type 0 where
  pub within : n ≤ bound
  pub valid : valid_string (take n s) ≡ true
  pub maximal : (m : ℕ) → n < m → m ≤ bound → valid_string (take m s) ≡ false

-- The length of what the loop leaves.
shortened : ℕ → Bytes → ℕ
shortened zero s = 0
shortened (suc n) s = let r = shortened n s in if valid_string (take (suc n) s) then suc n else r

shorten-eq-take : (n : ℕ) (s : Bytes) → shorten n s ≡ take (shortened n s) s
unfolding shorten shortened
shorten-eq-take zero s = refl
shorten-eq-take (suc n) s = elim (Bool-cases (valid_string (take (suc n) s))) [
  | inl t ↦ rw (t) refl
  | inr f ↦ rw (f) (shorten-eq-take n s)
]

last_or_below :
    (n : ℕ) (s : Bytes)
    → valid_string (take (suc n) s) ≡ false
    → IsLongest s n (shortened n s)
    → (m : ℕ) → shortened n s < m
    → m ≤ suc n
    → valid_string (take m s) ≡ false
last_or_below n s f ih m h k = elim (dec_le m n) [
  | yes below ↦ ih.maximal m h below
  | no above ↦ let e : m ≡ suc n = omega arith in rw e f
]

shortened-IsLongest : (n : ℕ) (s : Bytes) → IsLongest s n (shortened n s)
unfolding shortened
shortened-IsLongest zero s = record {
  within = omega arith;
  valid = unfold valid_string valid_rest in refl;
  maximal = λ m h k. absurd (omega arith);
}
shortened-IsLongest (suc n) s = elim (Bool-cases (valid_string (take (suc n) s))) [
  | inl t ↦
      rw t (record { within = omega arith; valid = t; maximal = λ m h k. absurd (omega arith) })
  | inr f ↦
      let ih = shortened-IsLongest n s in
      rw f (record {
        within = omega (arith, ih.within);
        valid = ih.valid;
        maximal = λ m h k. last_or_below n s f ih m h k;
      })
]

truncate_utf8-eq-shorten :
    (s : Bytes) (bound : ℕ) → bound < length s → truncate_utf8 s bound ≡ shorten bound s
unfolding truncate_utf8
truncate_utf8-eq-shorten s zero h = refl
truncate_utf8-eq-shorten s (suc b) h = ground arith

-- Of a text that does not fit, the result is the longest prefix within the bound that is valid
-- UTF-8.
pub truncate_utf8-IsLongest :
    (s : Bytes) (bound : ℕ)
    → bound < length s
    → (n : ℕ) × (truncate_utf8 s bound ≡ take n s) × IsLongest s bound n
truncate_utf8-IsLongest s bound h = (
  shortened bound s,
  truncate_utf8-eq-shorten s bound h ∙ shorten-eq-take bound s,
  shortened-IsLongest bound s,
)

-- Where a valid text is cut inside a rune, the bytes before that rune are valid and at most three
-- are lost; while `k` bytes are pending the cut may fall among those.
abbrev Boundary : ℕ → ℕ → ℕ → Bytes → ℕ → ℕ → Type 0
Boundary k lo hi s n m = (k ≤ m) × (m ≤ n) × (n ≤ m + 3) × (valid_rest k lo hi (take m s) ≡ true)

first-pending : (b : ℕ) (r : Range) → first b ≡ some r → r.pending ≤ 3
unfolding first
first-pending b r h = ground arith

not_first : (lo hi b : ℕ) (s : Bytes) → first b ≡ none → ¬ (valid_rest 0 lo hi (b ∷ s) ≡ true)
unfolding valid_rest
not_first lo hi b s e v = ground arith

at_start :
    (lo hi b : ℕ) (r : Range) (s : Bytes) (n : ℕ)
    → first b ≡ some r
    → (n < r.pending) ⊎ ((m : ℕ) × Boundary r.pending r.lo r.hi s n m)
    → (m : ℕ) × Boundary 0 lo hi (b ∷ s) (suc n) m
unfolding valid_rest
at_start lo hi b r s n e (inl cut) =
    (0, (omega arith, omega arith, omega (arith, first-pending b r e), refl))
at_start lo hi b r s n e (inr (m, bound)) =
    (suc m, (omega arith, omega arith, omega arith, rw (e, valid_rest) bound.3))

find-Boundary :
    (k lo hi : ℕ) (s : Bytes) (n : ℕ)
    → k ≤ 3
    → valid_rest k lo hi s ≡ true
    → n ≤ length s
    → (n < k) ⊎ ((m : ℕ) × Boundary k lo hi s n m)
unfolding valid_rest
find-Boundary zero lo hi s zero h v l = inr (0, (omega arith, omega arith, omega arith, refl))
find-Boundary zero lo hi [] (suc n) h v l = absurd (omega arith)
find-Boundary zero lo hi (b ∷ s) (suc n) h v l = elim (Option-cases (first b)) [
  | inl e ↦ absurd (not_first lo hi b s e v)
  | inr (r, e) ↦ inr (
      at_start lo hi b r s n e (
        find-Boundary r.pending r.lo r.hi s n (first-pending b r e) (rw (e, valid_rest) at v)
          (omega arith)))
]
find-Boundary (suc k) lo hi [] n h v l = cc
find-Boundary (suc k) lo hi (b ∷ s) zero h v l = inl (omega arith)
find-Boundary (suc k) lo hi (b ∷ s) (suc n) h v l =
    elim (find-Boundary k 0x80 0xbf s n (omega arith) (ground arith) (omega arith)) [
      | inl cut ↦ inl (omega arith)
      | inr (m, bound) ↦
          inr (suc m, (omega arith, omega arith, omega arith, ground (arith, bound.3)))
    ]

longest_reaches :
    (s : Bytes) (bound n m : ℕ)
    → IsLongest s bound n
    → m ≤ bound
    → valid_rest 0 0x80 0xbf (take m s) ≡ true
    → m ≤ n
unfolding valid_string
longest_reaches s bound n m best within v = elim (dec_le m n) [
  | yes p ↦ p
  | no p ↦ absurd (false≢true (sym (best.maximal m (omega arith) within) ∙ v))
]

-- A text of valid UTF-8 loses at most three bytes more than the bound takes.
pub truncate_utf8-length :
    (s : Bytes) (bound : ℕ)
    → valid_string s ≡ true
    → bound < length s
    → (length (truncate_utf8 s bound) ≤ bound) × (bound ≤ length (truncate_utf8 s bound) + 3)
truncate_utf8-length s bound v h =
    let (n, e, best) = truncate_utf8-IsLongest s bound h in
    elim (find-Boundary 0 0x80 0xbf s bound (omega arith) (unfold valid_string in v)
      (omega arith)) [
        | inl cut ↦ absurd (omega arith)
        | inr (m, bounded) ↦ rw e (
            omega (
              arith,
              length-take n s,
              best.within,
              longest_reaches s bound n m best bounded.1 bounded.3,
            ))
      ]
