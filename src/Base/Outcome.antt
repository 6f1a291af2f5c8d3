-- ===== src/Base/Outcome.antt =====
-- How a call of Go code ends: with a value, in a panic, or, in the model of a recursion on fuel,
-- without fuel. `read` and `write` are accesses of a slice, which panic out of range.
use Prim.Native.Nat.{ℕ, zero, suc}
use mathlib.Core.Path.{◌≡◌, refl}
use mathlib.Core.List.{List, [], ◌∷◌, ◌++◌}
use jelly.Base.Lists.{length}

pub data Run {ℓ} (A : Type ℓ) : Type ℓ where
  done : A → Run A
  panics : Run A
  starved : Run A

infixl 5 ◌>>=◌ ◌>>◌
abbrev pub ◌>>=◌ {ℓ κ} : {A : Type ℓ} {B : Type κ} → Run A → (A → Run B) → Run B
done a >>= f = f a
panics >>= f = panics
starved >>= f = starved

abbrev pub ◌>>◌ {ℓ κ} : {A : Type ℓ} {B : Type κ} → Run A → Run B → Run B
m >> k = m >>= λ _. k

module _ {ℓ} {A : Type ℓ} where
  unfoldable pub read : List A → ℕ → Run A
  read [] i = panics
  read (x ∷ xs) zero = done x
  read (x ∷ xs) (suc i) = read xs i

  unfoldable pub write : List A → ℕ → A → Run (List A)
  write [] i v = panics
  write (x ∷ xs) zero v = done (v ∷ xs)
  write (x ∷ xs) (suc i) v = write xs i v >>= λ ys. done (x ∷ ys)

pub done-injective {ℓ} : {A : Type ℓ} {a b : A} → done a ≡ done b → a ≡ b
done-injective e = cc

-- Inversion of a sequence that returns.
pub >>=-eq-done {ℓ κ} :
    {A : Type ℓ} {B : Type κ} (m : Run A) (f : A → Run B) {b : B}
    → (m >>= f) ≡ done b
    → (a : A) × (m ≡ done a) × (f a ≡ done b)
>>=-eq-done (done a) f h = (a, refl, h)
>>=-eq-done panics f h = cc
>>=-eq-done starved f h = cc

-- Accesses of a slice that stay in range.
module _ {ℓ} {A : Type ℓ} where
  pub read_middle : (xs : List A) (y : A) (ys : List A) → read (xs ++ y ∷ ys) (length xs) ≡ done y
  unfolding read
  read_middle [] y ys = refl
  read_middle (x ∷ xs) y ys = read_middle xs y ys

  pub write_middle :
      (xs : List A) (y : A) (ys : List A) (v : A)
      → write (xs ++ y ∷ ys) (length xs) v ≡ done (xs ++ v ∷ ys)
  unfolding write
  write_middle [] y ys v = refl
  write_middle (x ∷ xs) y ys v = rw (write_middle xs y ys v)
