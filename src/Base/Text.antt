-- ===== src/Base/Text.antt =====
-- A Go string is its bytes. Strings are compared byte by byte, as Go's `==` and `<` do.
use Prim.Native.Nat.{ℕ}
use Prim.Native.Char.{code}
use Prim.Native.String.{String}
use mathlib.Core.Bool.{Bool, true, false, not, ◌&&◌, ◌||◌}
use mathlib.Core.Path.{◌≡◌, refl}
use native.Mathlib.Omega.{arith}
use mathlib.Core.List.{List, [], ◌∷◌}
use jelly.Base.Tests.{ltb, ◌==◌, if◌then◌else◌}

abbrev pub Bytes : Type 0
Bytes = List ℕ

-- The bytes of an ASCII literal.
abbrev pub bytes : String → Bytes
bytes String.[] = []
bytes (String.◌∷◌ c s) = code c ∷ bytes s

unfoldable pub bytes_eq : Bytes → Bytes → Bool
bytes_eq [] [] = true
bytes_eq [] (y ∷ ys) = false
bytes_eq (x ∷ xs) [] = false
bytes_eq (x ∷ xs) (y ∷ ys) = x == y && bytes_eq xs ys

unfoldable pub bytes_lt : Bytes → Bytes → Bool
bytes_lt [] [] = false
bytes_lt [] (y ∷ ys) = true
bytes_lt (x ∷ xs) [] = false
bytes_lt (x ∷ xs) (y ∷ ys) = if x == y then bytes_lt xs ys else ltb x y

unfoldable pub bytes_le : Bytes → Bytes → Bool
bytes_le [] ys = true
bytes_le (x ∷ xs) [] = false
bytes_le (x ∷ xs) (y ∷ ys) = if x == y then bytes_le xs ys else ltb x y

-- Strings are ordered totally.
pub bytes_le-eq-not-bytes_lt : (xs ys : Bytes) → bytes_le xs ys ≡ not (bytes_lt ys xs)
unfolding bytes_le bytes_lt
bytes_le-eq-not-bytes_lt [] [] = refl
bytes_le-eq-not-bytes_lt [] (y ∷ ys) = refl
bytes_le-eq-not-bytes_lt (x ∷ xs) [] = refl
bytes_le-eq-not-bytes_lt (x ∷ xs) (y ∷ ys) = ground (arith, bytes_le-eq-not-bytes_lt xs ys)

-- Of `<`, `==` and `>` exactly one holds of two strings.
pub bytes_lt-trichotomy :
    (xs ys : Bytes)
    → (bytes_lt xs ys ≡ not (bytes_eq xs ys || bytes_lt ys xs))
      × ((bytes_eq xs ys && bytes_lt ys xs) ≡ false)
unfolding bytes_eq bytes_lt
bytes_lt-trichotomy [] [] = (refl, refl)
bytes_lt-trichotomy [] (y ∷ ys) = (refl, refl)
bytes_lt-trichotomy (x ∷ xs) [] = (refl, refl)
bytes_lt-trichotomy (x ∷ xs) (y ∷ ys) = ground (arith, bytes_lt-trichotomy xs ys)

pub bytes_eq_sound : (xs ys : Bytes) → bytes_eq xs ys ≡ true → xs ≡ ys
unfolding bytes_eq
bytes_eq_sound [] [] e = refl
bytes_eq_sound [] (y ∷ ys) e = cc
bytes_eq_sound (x ∷ xs) [] e = cc
bytes_eq_sound (x ∷ xs) (y ∷ ys) e =
    let tail : bytes_eq xs ys ≡ true = ground arith in
    let head : x ≡ y = ground arith in λ i. head i ∷ bytes_eq_sound xs ys tail i

pub bytes_eq_refl : (xs : Bytes) → bytes_eq xs xs ≡ true
unfolding bytes_eq
bytes_eq_refl [] = refl
bytes_eq_refl (x ∷ xs) = ground (arith, bytes_eq_refl xs)

pub bytes_eq_comm : (xs ys : Bytes) → bytes_eq xs ys ≡ bytes_eq ys xs
unfolding bytes_eq
bytes_eq_comm [] [] = refl
bytes_eq_comm [] (y ∷ ys) = refl
bytes_eq_comm (x ∷ xs) [] = refl
bytes_eq_comm (x ∷ xs) (y ∷ ys) = ground (arith, bytes_eq_comm xs ys)
