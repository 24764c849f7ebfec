-- ===== src/Base/Strings.antt =====
-- C strings as the list of their bytes without the final zero, and `strcmp` on them.
use Prim.Native.Nat.{ℕ}
use Prim.Native.Char.{code}
use Prim.Native.String.{String}
use mathlib.Core.Path.{◌≡◌, refl}
use mathlib.Core.Logic.{◌↔◌, ◌⊎◌, inl, inr}
use mathlib.Core.Bool.{Bool, true, false}
use mathlib.Core.List.{List, [], ◌∷◌}
use native.Mathlib.Omega.{arith}
use seafile_server.Base.Tests.{ltb, ◌==◌, if◌then◌else◌}

abbrev pub CString : Type 0
CString = List ℕ

-- The bytes of an ASCII literal.
abbrev pub codes : String → CString
codes String.[] = []
codes (String.◌∷◌ c s) = code c ∷ codes s

-- `strcmp (a, b) == 0`
unfoldable pub str_eq : CString → CString → Bool
str_eq [] [] = true
str_eq [] (y ∷ ys) = false
str_eq (x ∷ xs) [] = false
str_eq (x ∷ xs) (y ∷ ys) = let rest = str_eq xs ys in if x == y then rest else false

-- `strcmp (a, b) < 0`: bytes compare as unsigned characters.
unfoldable pub str_lt : CString → CString → Bool
str_lt [] [] = false
str_lt [] (y ∷ ys) = true
str_lt (x ∷ xs) [] = false
str_lt (x ∷ xs) (y ∷ ys) = let rest = str_lt xs ys in if x == y then rest else ltb x y

pub str_eq_iff : (a b : CString) → (str_eq a b ≡ true) ↔ (a ≡ b)
unfolding str_eq
str_eq_iff [] [] = ground arith
str_eq_iff [] (y ∷ ys) = ground arith
str_eq_iff (x ∷ xs) [] = ground arith
str_eq_iff (x ∷ xs) (y ∷ ys) = ground (arith, str_eq_iff xs ys)

pub str_eq_refl : (a : CString) → str_eq a a ≡ true
str_eq_refl a = (str_eq_iff a a).1 refl

pub str_eq_comm : (a b : CString) → str_eq a b ≡ str_eq b a
str_eq_comm a b = ground (arith, str_eq_iff a b, str_eq_iff b a)

pub str_lt_irrefl : (a : CString) → str_lt a a ≡ false
unfolding str_lt
str_lt_irrefl [] = refl
str_lt_irrefl (x ∷ xs) = ground (arith, str_lt_irrefl xs)

pub str_lt_trans : (a b c : CString) → str_lt a b ≡ true → str_lt b c ≡ true → str_lt a c ≡ true
unfolding str_lt
str_lt_trans [] b [] h k = ground arith
str_lt_trans [] b (z ∷ zs) h k = refl
str_lt_trans (x ∷ xs) [] c h k = ground arith
str_lt_trans (x ∷ xs) (y ∷ ys) [] h k = ground arith
str_lt_trans (x ∷ xs) (y ∷ ys) (z ∷ zs) h k = ground (arith, str_lt_trans xs ys zs)

pub str_lt_asymm : (a b : CString) → str_lt a b ≡ true → str_lt b a ≡ false
str_lt_asymm a b h = ground (arith, str_lt_trans a b a h, str_lt_irrefl a)

-- Names are totally ordered.
pub str_cases : (a b : CString) → (a ≡ b) ⊎ ((str_lt a b ≡ true) ⊎ (str_lt b a ≡ true))
unfolding str_lt
str_cases [] [] = inl refl
str_cases [] (y ∷ ys) = inr (inl refl)
str_cases (x ∷ xs) [] = inr (inr refl)
str_cases (x ∷ xs) (y ∷ ys) = ground (arith, str_cases xs ys)

pub str_lt-ne : (a b : CString) → str_lt a b ≡ true → str_eq a b ≡ false
str_lt-ne a b h = ground (arith, str_eq_iff a b, str_lt_irrefl a)

-- The negation of the order is transitive too.
pub str_not_lt_trans :
    (a b c : CString) → str_lt a b ≡ false → str_lt b c ≡ false → str_lt a c ≡ false
unfolding str_lt
str_not_lt_trans [] [] c h k = k
str_not_lt_trans [] (y ∷ ys) c h k = ground arith
str_not_lt_trans (x ∷ xs) [] [] h k = refl
str_not_lt_trans (x ∷ xs) [] (z ∷ zs) h k = ground arith
str_not_lt_trans (x ∷ xs) (y ∷ ys) [] h k = refl
str_not_lt_trans (x ∷ xs) (y ∷ ys) (z ∷ zs) h k = ground (arith, str_not_lt_trans xs ys zs)
