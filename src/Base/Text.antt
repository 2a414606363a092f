-- ===== src/Base/Text.antt =====
-- Go strings and byte slices: lists of bytes, with the tests that package strings makes on them.
use Prim.Native.Nat.{ℕ}
use Prim.Native.Char.{code}
use Prim.Native.String.{String}
use mathlib.Core.Path.{◌≡◌, refl}
use mathlib.Core.Logic.{◌↔◌}
use mathlib.Core.Bool.{Bool, true, false, ◌&&◌}
use mathlib.Core.List.{List, [], ◌∷◌, ◌++◌}
use native.Mathlib.Omega.{arith}
use mcp_resile.Base.Tests.{◌==◌, ==_iff}
use mcp_resile.Base.Lists.{length, drop}

abbrev pub Bytes : Type 0
Bytes = List ℕ

-- The bytes of an ASCII literal.
abbrev pub codes : String → Bytes
codes String.[] = []
codes (String.◌∷◌ c s) = code c ∷ codes s

-- a == b on strings
unfoldable pub str_eq : Bytes → Bytes → Bool
str_eq [] [] = true
str_eq [] (_ ∷ _) = false
str_eq (_ ∷ _) [] = false
str_eq (a ∷ s) (b ∷ t) = (a == b) && str_eq s t

pub str_eq_iff : (s t : Bytes) → (str_eq s t ≡ true) ↔ (s ≡ t)
unfolding str_eq
str_eq_iff [] [] = (λ _. refl, λ _. refl)
str_eq_iff [] (b ∷ t) = (λ e. cc, λ e. cc)
str_eq_iff (a ∷ s) [] = (λ e. cc, λ e. cc)
str_eq_iff (a ∷ s) (b ∷ t) = ground (arith, ==_iff a b, str_eq_iff s t)

pub str_eq_refl : (s : Bytes) → str_eq s s ≡ true
str_eq_refl s = (str_eq_iff s s).1 refl

-- strings.HasPrefix(s, p)
unfoldable pub has_prefix : Bytes → Bytes → Bool
has_prefix s [] = true
has_prefix [] (_ ∷ _) = false
has_prefix (a ∷ s) (b ∷ p) = (a == b) && has_prefix s p

-- A prefix and what follows it make up the text.
pub has_prefix-drop : (s p : Bytes) → has_prefix s p ≡ true → p ++ drop (length p) s ≡ s
unfolding has_prefix
has_prefix-drop [] [] h = refl
has_prefix-drop (a ∷ s) [] h = refl
has_prefix-drop [] (b ∷ p) h = cc
has_prefix-drop (a ∷ s) (b ∷ p) h = ground (arith, has_prefix-drop s p, ==_iff a b)

pub has_prefix-append : (p t : Bytes) → has_prefix (p ++ t) p ≡ true
unfolding has_prefix
has_prefix-append [] [] = refl
has_prefix-append [] (b ∷ t) = refl
has_prefix-append (a ∷ p) t = ground (arith, has_prefix-append p t)

-- The empty test, s == "".
abbrev pub is_empty {ℓ} : {A : Type ℓ} → List A → Bool
is_empty [] = true
is_empty (_ ∷ _) = false
