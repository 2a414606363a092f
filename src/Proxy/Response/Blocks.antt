-- ===== src/Proxy/Response/Blocks.antt =====
-- The loop of clampResponse, internal/proxy/response.go.
use mcp_resile.Base.{
  ℕ, zero, suc, ◌+◌, ◌-◌, ◌≤◌, ◌<◌, Bytes, true, List, [], ◌∷◌, ◌++◌, length, take, ◌≡◌, ◌∙◌, sym,
  ap, refl, arith, length-append, append-nil, append_assoc, All,
}
use native.Mathlib.Decide.{dec_le}
use mcp_resile.Proxy.Response.{
  Content, text_block, other_block, TextContent, text_total, clamp_blocks, truncate_utf8,
  valid_string,
}
use mcp_resile.Proxy.Response.Truncation.{truncate_utf8-IsLongest, truncate_utf8-length}

-- The text of a response, its blocks joined.
unfoldable pub text_of : List Content → Bytes
text_of [] = []
text_of (text_block t ∷ cs) = t.text ++ text_of cs
text_of (other_block b ∷ cs) = text_of cs

-- The blocks that are not text, in order.
pub others : List Content → List Bytes
others [] = []
others (text_block t ∷ cs) = others cs
others (other_block b ∷ cs) = b ∷ others cs

pub text_total-eq-length : (cs : List Content) → text_total cs ≡ length (text_of cs)
unfolding text_total text_of
text_total-eq-length [] = refl
text_total-eq-length (text_block t ∷ cs) =
    omega (arith, length-append t.text (text_of cs), text_total-eq-length cs)
text_total-eq-length (other_block b ∷ cs) = text_total-eq-length cs

pub text_of-append : (cs ds : List Content) → text_of (cs ++ ds) ≡ text_of cs ++ text_of ds
unfolding text_of
text_of-append [] ds = refl
text_of-append (text_block t ∷ cs) ds =
    ap (◌++◌ t.text) (text_of-append cs ds) ∙ sym (append_assoc t.text (text_of cs) (text_of ds))
text_of-append (other_block b ∷ cs) ds = text_of-append cs ds

take-append_le : (m : ℕ) (s t : Bytes) → m ≤ length s → take m (s ++ t) ≡ take m s
take-append_le zero s t h = refl
take-append_le (suc m) [] t h = absurd (omega arith)
take-append_le (suc m) (b ∷ s) t h = ap (◌∷◌ b) (take-append_le m s t (omega arith))

take-append_add : (m : ℕ) (s t : Bytes) → take (length s + m) (s ++ t) ≡ s ++ take m t
take-append_add m [] t = let e : 0 + m ≡ m = omega arith in rw e
take-append_add m (b ∷ s) t =
    let e : suc (length s) + m ≡ suc (length s + m) = omega arith in
    rw e (ap (◌∷◌ b) (take-append_add m s t))

clamp_blocks-other :
    (n : ℕ) (b : Bytes) (cs : List Content)
    → clamp_blocks n (other_block b ∷ cs) ≡ other_block b ∷ clamp_blocks n cs
unfolding clamp_blocks
clamp_blocks-other n b cs = refl

-- The three ways in which the loop treats a text block.
clamp_blocks-dropped :
    (t : TextContent) (cs : List Content) → clamp_blocks 0 (text_block t ∷ cs) ≡ clamp_blocks 0 cs
unfolding clamp_blocks
clamp_blocks-dropped t cs = refl

clamp_blocks-kept :
    (n : ℕ) (t : TextContent) (cs : List Content)
    → 0 < n
    → length t.text ≤ n
    → clamp_blocks n (text_block t ∷ cs) ≡ text_block t ∷ clamp_blocks (n - length t.text) cs
unfolding clamp_blocks
clamp_blocks-kept n t cs p h = ground arith

clamp_blocks-cut :
    (n : ℕ) (t : TextContent) (cs : List Content)
    → 0 < n
    → n < length t.text
    → clamp_blocks n (text_block t ∷ cs)
      ≡ text_block (record t { text = truncate_utf8 t.text n }) ∷ clamp_blocks 0 cs
unfolding clamp_blocks
clamp_blocks-cut n t cs p h = ground arith

text_of-clamp_blocks_zero : (cs : List Content) → text_of (clamp_blocks 0 cs) ≡ []
unfolding text_of clamp_blocks
text_of-clamp_blocks_zero [] = refl
text_of-clamp_blocks_zero (text_block t ∷ cs) = text_of-clamp_blocks_zero cs
text_of-clamp_blocks_zero (other_block b ∷ cs) = text_of-clamp_blocks_zero cs

-- The loop leaves a prefix of the text, within the budget.
abbrev Kept : ℕ → List Content → Type 0
Kept n cs = (m : ℕ) × (text_of (clamp_blocks n cs) ≡ take m (text_of cs)) × (m ≤ n)

Kept-text :
    (n : ℕ) (t : TextContent) (cs : List Content)
    → Kept (suc n - length t.text) cs
    → Kept (suc n) (text_block t ∷ cs)
unfolding text_of
Kept-text n t cs (m, e, h) = elim (dec_le (length t.text) (suc n)) [
  | yes fits ↦ (
    length t.text + m,
    rw (clamp_blocks-kept (suc n) t cs (omega arith) fits)
        (ap (◌++◌ t.text) e ∙ sym (take-append_add m t.text (text_of cs))),
    omega arith,
  )
  | no over ↦
      let (k, cut, best) = truncate_utf8-IsLongest t.text (suc n) (omega arith) in
      (
        k,
        rw
            (
              clamp_blocks-cut (suc n) t cs (omega arith) (omega arith),
              text_of-clamp_blocks_zero cs,
              append-nil,
              cut,
            )
            (sym (take-append_le k t.text (text_of cs) (omega (arith, best.within)))),
        best.within,
      )
]

pub clamp_blocks-Kept : (n : ℕ) (cs : List Content) → Kept n cs
unfolding text_of
clamp_blocks-Kept n [] = (0, unfold clamp_blocks in refl, omega arith)
clamp_blocks-Kept n (other_block b ∷ cs) = rw (clamp_blocks-other n b cs) (clamp_blocks-Kept n cs)
clamp_blocks-Kept zero (text_block t ∷ cs) =
    (0, rw (clamp_blocks-dropped t cs) (text_of-clamp_blocks_zero cs), omega arith)
clamp_blocks-Kept (suc n) (text_block t ∷ cs) =
    Kept-text n t cs (clamp_blocks-Kept (suc n - length t.text) cs)

pub others-clamp_blocks : (n : ℕ) (cs : List Content) → others (clamp_blocks n cs) ≡ others cs
unfolding others
others-clamp_blocks n [] = unfold clamp_blocks in refl
others-clamp_blocks n (other_block b ∷ cs) =
    rw (clamp_blocks-other n b cs) (ap (◌∷◌ b) (others-clamp_blocks n cs))
others-clamp_blocks zero (text_block t ∷ cs) =
    rw (clamp_blocks-dropped t cs) (others-clamp_blocks 0 cs)
others-clamp_blocks (suc n) (text_block t ∷ cs) = elim (dec_le (length t.text) (suc n)) [
  | yes fits ↦
      rw (clamp_blocks-kept (suc n) t cs (omega arith) fits)
        (others-clamp_blocks (suc n - length t.text) cs)
  | no over ↦
      rw (clamp_blocks-cut (suc n) t cs (omega arith) (omega arith)) (others-clamp_blocks 0 cs)
]

-- With valid texts and more of them than the budget, at most three bytes of it are left unused.
abbrev pub IsText : Content → Type 0
IsText (text_block t) = valid_string t.text ≡ true
IsText (other_block b) = Unit

pub clamp_blocks-full :
    (n : ℕ) (cs : List Content)
    → All IsText cs
    → n < text_total cs
    → n ≤ length (text_of (clamp_blocks n cs)) + 3
unfolding text_total text_of
clamp_blocks-full n [] v h = absurd (omega arith)
clamp_blocks-full n (other_block b ∷ cs) (_, v) h =
    rw (clamp_blocks-other n b cs) (clamp_blocks-full n cs v h)
clamp_blocks-full zero (text_block t ∷ cs) v h = omega arith
clamp_blocks-full (suc n) (text_block t ∷ cs) (valid, v) h = elim (dec_le (length t.text) (suc n)) [
  | yes fits ↦ rw (clamp_blocks-kept (suc n) t cs (omega arith) fits) (
      omega (
        arith,
        clamp_blocks-full (suc n - length t.text) cs v (omega arith),
        length-append t.text (text_of (clamp_blocks (suc n - length t.text) cs)),
      ))
  | no over ↦
      rw
        (
          clamp_blocks-cut (suc n) t cs (omega arith) (omega arith),
          text_of-clamp_blocks_zero cs,
          append-nil,
        )
        (truncate_utf8-length t.text (suc n) valid (omega arith)).1
]
