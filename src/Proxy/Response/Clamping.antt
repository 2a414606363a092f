-- ===== src/Proxy/Response/Clamping.antt =====
-- clampResponse, internal/proxy/response.go.
use mcp_resile.Base.{
  ℕ, zero, suc, ◌+◌, ◌≤◌, ◌<◌, false, Option, none, some, List, [], ◌∷◌, ◌++◌, length, take, ◌≡◌,
  ◌∙◌, sym, ap, refl, arith, ◌⊎◌, inl, inr, length-take, length-append, le→leb, lt→leb-false, All,
  pos,
}
use native.Mathlib.Decide.{dec_le}
use mcp_resile.Proxy.Response.{
  Content, CallToolResult, text_total, clamp_blocks, clamp_response, notice, truncation_notice,
}
use mcp_resile.Proxy.Response.Blocks.{
  text_of, others, text_total-eq-length, text_of-append, clamp_blocks-Kept, others-clamp_blocks,
  IsText, clamp_blocks-full,
}

-- What a response over the limit becomes: `blocks` and the notice.
pub record IsClamped (r out : CallToolResult) (limit : ℕ) (blocks : List Content) : Type 0 where
  pub content : out.content ≡ blocks ++ notice ∷ []
  pub kept : (m : ℕ) × (text_of blocks ≡ take m (text_of r.content)) × (m ≤ limit)
  pub others_kept : others blocks ≡ others r.content
  pub is_error : out.is_error ≡ false
  pub structured : out.structured ≡ r.structured
  pub meta : out.meta ≡ r.meta

-- A response whose text is over a positive limit becomes some blocks and the notice: their text is
-- a prefix of the original text within the limit, all blocks that are not text are kept in order,
-- the structured content and the metadata are unchanged, and the error flag is false.
pub clamp_response_over :
    (r : CallToolResult) (limit : ℕ)
    → 0 < limit
    → limit < text_total r.content
    → (out : CallToolResult) × (clamp_response (some r) (pos limit) ≡ some out)
      × IsClamped r out limit (clamp_blocks limit r.content)
unfolding clamp_response
clamp_response_over r zero p h = absurd (omega arith)
clamp_response_over r (suc n) p h = (
  record r { content = clamp_blocks (suc n) r.content ++ notice ∷ []; is_error = false },
  rw (lt→leb-false (text_total r.content) (suc n) h) refl,
  record {
    content = refl;
    kept = clamp_blocks-Kept (suc n) r.content;
    others_kept = others-clamp_blocks (suc n) r.content;
    is_error = refl;
    structured = refl;
    meta = refl;
  },
)

-- The limit is used up, but for three bytes, when every text is valid UTF-8 and the response is
-- over the limit; and the text that is kept is never longer than the limit.
pub clamp_response_length :
    (r : CallToolResult) (limit : ℕ)
    → All IsText r.content
    → limit < text_total r.content
    → (length (text_of (clamp_blocks limit r.content)) ≤ limit)
      × (limit ≤ length (text_of (clamp_blocks limit r.content)) + 3)
clamp_response_length r limit v h =
    let (m, e, within) = clamp_blocks-Kept limit r.content in
    (
      rw e (omega (arith, length-take m (text_of r.content), within)),
      clamp_blocks-full limit r.content v h,
    )

-- A response within the limit is returned as it is, and so is every response when the limit is 0.
pub clamp_response_within :
    (r : CallToolResult) (limit : ℕ)
    → (limit ≡ 0) ⊎ (text_total r.content ≤ limit)
    → clamp_response (some r) (pos limit) ≡ some r
unfolding clamp_response
clamp_response_within r zero h = refl
clamp_response_within r (suc n) (inl e) = absurd (omega arith)
clamp_response_within r (suc n) (inr h) = rw (le→leb (text_total r.content) (suc n) h)

clamped_total :
    (r : CallToolResult) (n : ℕ)
    → text_total (clamp_blocks n r.content ++ notice ∷ []) ≤ n + length truncation_notice
clamped_total r n =
    let (m, e, within) = clamp_blocks-Kept n r.content in
    rw
      (
        text_total-eq-length (clamp_blocks n r.content ++ notice ∷ []),
        text_of-append (clamp_blocks n r.content) (notice ∷ []),
        e,
      )
      (unfold text_of in
        omega (
          arith,
          length-append (take m (text_of r.content)) (truncation_notice ++ []),
          length-take m (text_of r.content),
          within,
        ))

-- No response that comes out of a positive limit has more text than the limit and the notice.
pub clamp_response-le :
    (r out : CallToolResult) (limit : ℕ)
    → 0 < limit
    → clamp_response (some r) (pos limit) ≡ some out
    → text_total out.content ≤ limit + length truncation_notice
clamp_response-le r out limit p e = elim (dec_le (text_total r.content) limit) [
  | yes fits ↦
      let same : some r ≡ some out = sym (clamp_response_within r limit (inr fits)) ∙ e in
      let total =
        ap {B = ℕ}
          (λ (o : Option CallToolResult). elim o [ none ↦ 0 | some x ↦ text_total x.content ])
          same in
      omega (arith, total)
  | no over ↦
      let (cut, f, clamped) = clamp_response_over r limit p (omega arith) in
      let same : some cut ≡ some out = sym f ∙ e in
      let total =
        ap {B = ℕ}
          (λ (o : Option CallToolResult). elim o [ none ↦ 0 | some x ↦ text_total x.content ])
          same in
      let shape = ap text_total clamped.content in
      omega (arith, total, shape, clamped_total r limit)
]
