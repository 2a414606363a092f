-- ===== src/Durations/Bounds.antt =====
-- The range of what internal/config/config.go gets from time.ParseDuration.
use mcp_resile.Base.{
  ℕ, zero, suc, ◌-◌, ◌≤◌, ◌<◌, Bytes, codes, Bool, true, false, Option, none, some, [], ◌∷◌, ◌==◌,
  ltb, is_empty, str_eq, length, if◌then◌else◌, ℤ, pos, negsuc, ◌≡◌, refl, arith,
}
use mcp_resile.Durations.{
  int64_limit, ◌>>=◌, one_part, add_part, parts, signed, unsigned, parse_duration,
}

pub >>=-inv {ℓ κ} :
    {A : Type ℓ} {B : Type κ} (o : Option A) (f : A → Option B) (b : B)
    → (o >>= f) ≡ some b
    → (a : A) × (o ≡ some a) × (f a ≡ some b)
>>=-inv none f b e = cc
>>=-inv (some a) f b e = (a, refl, e)

-- The values of an int64.
abbrev pub IsInt64 : ℤ → Type 0
IsInt64 (pos n) = n < int64_limit
IsInt64 (negsuc n) = n < int64_limit

-- What is returned, if anything, is an int64.
abbrev pub Fits : Option ℤ → Type 0
Fits none = Unit
Fits (some z) = IsInt64 z

>>=-Fits {ℓ} :
    {A : Type ℓ} (o : Option A) (f : A → Option ℤ)
    → ((a : A) → o ≡ some a → Fits (f a))
    → Fits (o >>= f)
>>=-Fits none f fits = tt
>>=-Fits (some a) f fits = fits a refl

if-Fits :
    (b : Bool) (x y : Option ℤ)
    → (b ≡ true → Fits x)
    → (b ≡ false → Fits y)
    → Fits (if b then x else y)
if-Fits true x y then_fits else_fits = then_fits refl
if-Fits false x y then_fits else_fits = else_fits refl

module _ (fraction : ℕ → ℕ → ℕ → ℕ) where
  add_part-le : (d v e : ℕ) → add_part fraction d v ≡ some e → e ≤ int64_limit
  add_part-le d v e h = ground arith

  parts-le :
      (f d : ℕ) (s : Bytes) (e : ℕ)
      → d ≤ int64_limit
      → parts fraction f d s ≡ some e
      → e ≤ int64_limit
  unfolding parts
  parts-le f d [] e small h = ground arith
  parts-le zero d (c ∷ s) e small h = cc
  parts-le (suc f) d (c ∷ s) e small h =
      let ((v, rest), _, h1) = >>=-inv (one_part fraction (c ∷ s)) _ e h in
      let (d', added, h2) = >>=-inv (add_part fraction d v) _ e h1 in
      parts-le f d' rest e (add_part-le d v d' added) h2

  signed-Fits : (neg : Bool) (d : ℕ) → d ≤ int64_limit → Fits (signed fraction neg d)
  signed-Fits true zero small = omega arith
  signed-Fits true (suc n) small = omega arith
  signed-Fits false d small =
      if-Fits (ltb (int64_limit - 1) d) none (some (pos d)) (λ _. tt) (λ h. ground arith)

  unsigned-Fits : (neg : Bool) (s : Bytes) → Fits (unsigned fraction neg s)
  unsigned-Fits neg s =
      if-Fits (str_eq s (codes "0")) _ _ (λ _. omega arith)
        (λ _.
          if-Fits (is_empty s) _ _ (λ _. tt)
            (λ _.
              >>=-Fits (parts fraction (length s) 0 s) (signed fraction neg)
                (λ d h. signed-Fits neg d (parts-le (length s) 0 s d (omega arith) h))))

  pub parse_duration-Fits : (s : Bytes) → Fits (parse_duration fraction s)
  unfolding parse_duration
  parse_duration-Fits [] = tt
  parse_duration-Fits (c ∷ s) =
      if-Fits (c == 45) _ _ (λ _. unsigned-Fits true s)
        (λ _. if-Fits (c == 43) _ _ (λ _. unsigned-Fits false s) (λ _. unsigned-Fits false (c ∷ s)))
