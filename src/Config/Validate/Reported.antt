-- ===== src/Config/Validate/Reported.antt =====
-- The two backends that a duplicate-id message names.
use mcp_resile.Base.{
  ℕ, zero, suc, ◌+◌, ◌<◌, Bytes, Option, none, some, List, [], ◌∷◌, str_eq_iff, ◌≡◌, arith, inl,
  inr, Option-cases, ap, sym, ◌∙◌,
}
use mcp_resile.Base.Dict.{Dict, lookup, insert, lookup-insert}
use mcp_resile.Config.Types.{Backend}
use mcp_resile.Config.Validate.{ConfigError, check_ids, validate_backend_ids, duplicate_id}
use mcp_resile.Config.Validate.Unique.{check_ids-fresh, check_ids-again}

-- The id of the backend at an index.
pub id_at : List Backend → ℕ → Option Bytes
id_at [] i = none
id_at (b ∷ bs) zero = some b.id
id_at (b ∷ bs) (suc i) = id_at bs i

-- Every index that the map holds is below `i`, and that of a backend with the id that is its key.
abbrev Sees : List Backend → ℕ → Dict ℕ → Type 0
Sees all i seen = (k : Bytes) (j : ℕ) → lookup k seen ≡ some j → (j < i) × (id_at all j ≡ some k)

Sees-insert :
    (all : List Backend) (i : ℕ) (seen : Dict ℕ) (b : Backend)
    → Sees all i seen
    → id_at all i ≡ some b.id
    → Sees all (suc i) (insert b.id i seen)
Sees-insert all i seen b h here =
    λ k j e. ground (arith, lookup-insert b.id k i seen, str_eq_iff b.id k, h k j)

-- The two named backends have the id, at different places.
pub record IsDuplicate (bs : List Backend) (first second : ℕ) (id : Bytes) : Type 0 where
  pub earlier : first < second
  pub first_id : id_at bs first ≡ some id
  pub second_id : id_at bs second ≡ some id

module _ (all : List Backend) (i : ℕ) (b : Backend) (bs : List Backend)
    (tail : (n : ℕ) → id_at (b ∷ bs) n ≡ id_at all (i + n)) where
  here_id : id_at all i ≡ some b.id
  unfolding id_at
  here_id = let e : i + 0 ≡ i = omega arith in ap (id_at all) (sym e) ∙ sym (tail 0)

  later_ids : (n : ℕ) → id_at bs n ≡ id_at all (suc i + n)
  unfolding id_at
  later_ids n = let e : i + suc n ≡ suc i + n = omega arith in tail (suc n) ∙ ap (id_at all) e

check_ids-nil : (seen : Dict ℕ) (i : ℕ) {e : ConfigError} → ¬ (check_ids seen i [] ≡ some e)
unfolding check_ids
check_ids-nil seen i h = cc

lookup-nil : (k : Bytes) {j : ℕ} → ¬ (lookup k [] ≡ some j)
unfolding lookup
lookup-nil k h = cc

check_ids-reports :
    (all : List Backend) (seen : Dict ℕ) (i : ℕ) (bs : List Backend) (f s : ℕ) (id : Bytes)
    → Sees all i seen
    → ((n : ℕ) → id_at bs n ≡ id_at all (i + n))
    → check_ids seen i bs ≡ some (duplicate_id f s id)
    → IsDuplicate all f s id
check_ids-reports all seen i [] f s id h tail e = absurd (check_ids-nil seen i e)
check_ids-reports all seen i (b ∷ bs) f s id h tail e = elim (Option-cases (lookup b.id seen)) [
  | inl fresh ↦
      check_ids-reports all (insert b.id i seen) (suc i) bs f s id
        (Sees-insert all i seen b h (here_id all i b bs tail)) (later_ids all i b bs tail)
        (sym (check_ids-fresh seen i b bs fresh) ∙ e)
  | inr (first, again) ↦
      let same : some (duplicate_id first i b.id) ≡ some (duplicate_id f s id) =
        sym (check_ids-again seen i b bs again) ∙ e in
      record {
        earlier = ground (arith, h b.id first);
        first_id = ground (arith, h b.id first);
        second_id = ground (arith, here_id all i b bs tail);
      }
]

-- The message about a duplicate id names two different backends that have that id, the earlier one
-- first.
pub validate_backend_ids-IsDuplicate :
    (bs : List Backend) (f s : ℕ) (id : Bytes)
    → validate_backend_ids bs ≡ some (duplicate_id f s id)
    → IsDuplicate bs f s id
unfolding validate_backend_ids
validate_backend_ids-IsDuplicate bs f s id e =
    check_ids-reports bs [] 0 bs f s id (λ k j h. absurd (lookup-nil k h))
      (λ n. ap (id_at bs) (omega arith)) e
