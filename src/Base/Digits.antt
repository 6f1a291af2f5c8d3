-- ===== src/Base/Digits.antt =====
-- Decimal numerals of different numbers differ.
use Prim.Native.Nat.{ℕ, zero, suc, ◌+◌, ◌-◌, ◌*◌, ◌≤◌, ◌/◌, ◌%◌}
use mathlib.Core.Path.{◌≡◌, refl, sym, ap, ◌∙◌}
use mathlib.Core.Logic.{inl, inr, ◌≢◌}
use mathlib.Core.List.{[], ◌∷◌, ◌++◌}
use native.Mathlib.Omega.{arith}
use jelly.Base.Tests.{ltb, Bool-cases}
use jelly.Base.Text.{Bytes}
use jelly.Base.Strings.{decimal_on, decimal}

abbrev value_on : ℕ → Bytes → ℕ
value_on acc [] = acc
value_on acc (c ∷ s) = value_on (acc * 10 + (c - 48)) s

value_on_append :
    (acc : ℕ) (s : Bytes) (c : ℕ) → value_on acc (s ++ c ∷ []) ≡ value_on acc s * 10 + (c - 48)
value_on_append acc [] c = refl
value_on_append acc (d ∷ s) c = value_on_append (acc * 10 + (d - 48)) s c

value-decimal_on : (fuel n : ℕ) → n ≤ fuel → value_on 0 (decimal_on fuel n) ≡ n
unfolding decimal_on
value-decimal_on zero n bound = omega arith
value-decimal_on (suc fuel) n bound = elim (Bool-cases (ltb n 10)) [
  | inl small ↦ rw (decimal_on, small) (omega arith)
  | inr large ↦
      let big : 10 ≤ n = ground arith in
      let front : value_on 0 (decimal_on fuel (n / 10)) ≡ n / 10 =
        value-decimal_on fuel (n / 10) (omega arith) in
      rw (decimal_on, large, value_on_append 0 (decimal_on fuel (n / 10)) (48 + n % 10), front)
        (omega arith)
]

pub decimal-injective : (m n : ℕ) → decimal m ≡ decimal n → m ≡ n
unfolding decimal
decimal-injective m n e =
    sym (value-decimal_on m m (omega arith))
    ∙ (ap (λ s. value_on 0 s) e ∙ value-decimal_on n n (omega arith))

abbrev pub head_of : Bytes → ℕ
head_of [] = 0
head_of (c ∷ s) = c

head_of_append : (s t : Bytes) → 48 ≤ head_of s → 48 ≤ head_of (s ++ t)
head_of_append [] t bound = ground arith
head_of_append (c ∷ s) t bound = bound

pub head-decimal_on : (fuel n : ℕ) → 48 ≤ head_of (decimal_on fuel n)
unfolding decimal_on
head-decimal_on zero n = omega arith
head-decimal_on (suc fuel) n = elim (Bool-cases (ltb n 10)) [
  | inl small ↦ rw (decimal_on, small) (omega arith)
  | inr large ↦
      rw (decimal_on, large)
        (head_of_append (decimal_on fuel (n / 10)) ((48 + n % 10) ∷ [])
          (head-decimal_on fuel (n / 10)))
]

-- A numeral does not begin with a minus.
pub decimal-not-minus : (n : ℕ) (s : Bytes) → decimal n ≢ 45 ∷ s
unfolding decimal
decimal-not-minus n s e =
    let first : head_of (decimal_on n n) ≡ 45 = ap head_of e in
    let bound : 48 ≤ head_of (decimal_on n n) = head-decimal_on n n in omega arith
