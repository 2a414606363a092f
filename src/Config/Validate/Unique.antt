-- ===== src/Config/Validate/Unique.antt =====
-- What the checks on ids and prefixes accept.
use mcp_resile.Base.{
  ℕ, suc, ◌<◌, Bytes, true, false, none, some, List, [], ◌∷◌, is_empty, str_eq_iff, ◌≡◌, ◌≢◌, ◌↔◌,
  ◌⊎◌, refl, arith, All, inl, inr, Option-cases, Bool-cases, length, map, ltb, ltb→lt,
}
use mcp_resile.Base.Dict.{Dict, lookup, insert, lookup-insert}
use mcp_resile.Config.Types.{Backend}
use mcp_resile.Config.Validate.{
  check_ids, validate_backend_ids, check_prefixes, validate_prefixes, duplicate_id,
  duplicate_prefix, prefix_required,
}

-- The texts differ from one another.
abbrev pub Distinct : List Bytes → Type 0
Distinct [] = Unit
Distinct (x ∷ xs) = All (λ y. x ≢ y) xs × Distinct xs

abbrev Absent : {V : Type 0} → Dict V → Bytes → Type 0
Absent m k = lookup k m ≡ none

module _ {V : Type 0} (k : Bytes) (v : V) (m : Dict V) where
  insert-Absent : (j : Bytes) → Absent (insert k v m) j ↔ ((k ≢ j) × Absent m j)
  insert-Absent j = rw lookup-insert (ground (arith, str_eq_iff k j))

  insert-All-Absent :
      (ks : List Bytes) → All (Absent (insert k v m)) ks ↔ (All (λ y. k ≢ y) ks × All (Absent m) ks)
  insert-All-Absent [] = (λ _. (tt, tt), λ _. tt)
  insert-All-Absent (j ∷ ks) =
      let (to, from) = insert-Absent j in
      let (all_to, all_from) = insert-All-Absent ks in
      (
        λ a. ((((to a.0).0, (all_to a.1).0), ((to a.0).1, (all_to a.1).1))),
        λ a. (from (a.0.0, a.1.0), all_from (a.0.1, a.1.1)),
      )

abbrev pub ids : List Backend → List Bytes
ids = map (λ b. b.id)

abbrev pub prefixes : List Backend → List Bytes
prefixes = map (λ b. b.prefix)

module _ (seen : Dict ℕ) (i : ℕ) (b : Backend) (bs : List Backend) where
  pub check_ids-fresh :
      lookup b.id seen ≡ none
      → check_ids seen i (b ∷ bs) ≡ check_ids (insert b.id i seen) (suc i) bs
  unfolding check_ids
  check_ids-fresh e = ground arith

  pub check_ids-again :
      {first : ℕ}
      → lookup b.id seen ≡ some first
      → check_ids seen i (b ∷ bs) ≡ some (duplicate_id first i b.id)
  unfolding check_ids
  check_ids-again e = ground arith

module _ (seen : Dict Bytes) (b : Backend) (bs : List Backend) where
  check_prefixes-fresh :
      is_empty b.prefix ≡ false
      → lookup b.prefix seen ≡ none
      → check_prefixes seen (b ∷ bs) ≡ check_prefixes (insert b.prefix b.id seen) bs
  unfolding check_prefixes
  check_prefixes-fresh e f = ground arith

  check_prefixes-missing :
      is_empty b.prefix ≡ true → check_prefixes seen (b ∷ bs) ≡ some (prefix_required b.id)
  unfolding check_prefixes
  check_prefixes-missing e = ground arith

  check_prefixes-again :
      {owner : Bytes}
      → is_empty b.prefix ≡ false
      → lookup b.prefix seen ≡ some owner
      → check_prefixes seen (b ∷ bs) ≡ some (duplicate_prefix owner b.id b.prefix)
  unfolding check_prefixes
  check_prefixes-again e f = ground arith

ids_iff :
    (seen : Dict ℕ) (i : ℕ) (bs : List Backend)
    → (check_ids seen i bs ≡ none) ↔ (Distinct (ids bs) × All (Absent seen) (ids bs))
ids_iff seen i [] = unfold check_ids in (λ _. (tt, tt), λ _. refl)
ids_iff seen i (b ∷ bs) = elim (Option-cases (lookup b.id seen)) [
  | inl e ↦
      let (to, from) = ids_iff (insert b.id i seen) (suc i) bs in
      let (all_to, all_from) = insert-All-Absent b.id i seen (ids bs) in
      rw (check_ids-fresh seen i b bs e) (
        λ h. let (d, a) = to h in (((all_to a).0, d), (e, (all_to a).1)),
        λ h. from (h.0.1, all_from (h.0.0, h.1.1)),
      )
  | inr (first, e) ↦ rw (check_ids-again seen i b bs e) (λ h. cc, λ h. absurd (cc (h.1.0)))
]

abbrev pub NonEmpty : Bytes → Type 0
NonEmpty p = is_empty p ≡ false

prefixes_iff :
    (seen : Dict Bytes) (bs : List Backend)
    → (check_prefixes seen bs ≡ none)
      ↔ (All NonEmpty (prefixes bs) × Distinct (prefixes bs) × All (Absent seen) (prefixes bs))
prefixes_iff seen [] = unfold check_prefixes in (λ _. (tt, tt, tt), λ _. refl)
prefixes_iff seen (b ∷ bs) = elim (Bool-cases (is_empty b.prefix)) [
  | inl e ↦ rw (check_prefixes-missing seen b bs e) (λ h. cc, λ h. absurd (cc (h.0.0)))
  | inr named ↦ elim (Option-cases (lookup b.prefix seen)) [
    | inl e ↦
        let (to, from) = prefixes_iff (insert b.prefix b.id seen) bs in
        let (all_to, all_from) = insert-All-Absent b.prefix b.id seen (prefixes bs) in
        rw (check_prefixes-fresh seen b bs named e) (
          λ h. let (n, d, a) = to h in ((named, n), ((all_to a).0, d), (e, (all_to a).1)),
          λ h. from (h.0.1, h.1.1, all_from (h.1.0, h.2.1)),
        )
    | inr (owner, e) ↦
        rw (check_prefixes-again seen b bs named e) (λ h. cc, λ h. absurd (cc (h.2.0)))
  ]
]

Absent-empty : (V : Type 0) (ks : List Bytes) → All (Absent {V = V} []) ks
unfolding lookup
Absent-empty V [] = tt
Absent-empty V (k ∷ ks) = (refl, Absent-empty V ks)

-- Backend ids are accepted exactly when they differ from one another.
pub validate_backend_ids_iff :
    (bs : List Backend) → (validate_backend_ids bs ≡ none) ↔ Distinct (ids bs)
unfolding validate_backend_ids
validate_backend_ids_iff bs =
    let (to, from) = ids_iff [] 0 bs in (λ h. (to h).0, λ d. from (d, Absent-empty ℕ (ids bs)))

-- Prefixes are accepted exactly when there are fewer than two backends, or no prefix is empty and
-- they differ from one another.
pub validate_prefixes_iff :
    (bs : List Backend)
    → (validate_prefixes bs ≡ none)
      ↔ ((length bs < 2) ⊎ (All NonEmpty (prefixes bs) × Distinct (prefixes bs)))
unfolding validate_prefixes
validate_prefixes_iff bs =
    let (to, from) = prefixes_iff [] bs in
    elim (Bool-cases (ltb (length bs) 2)) [
      | inl few ↦ rw few (λ _. inl (ltb→lt (length bs) 2 few), λ _. refl)
      | inr many ↦ rw many (
        λ h. let (n, d, _) = to h in inr (n, d),
        λ h. elim h [
          | inl few ↦ absurd (ground arith)
          | inr (n, d) ↦ from (n, d, Absent-empty Bytes (prefixes bs))
        ],
      )
    ]
