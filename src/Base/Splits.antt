-- ===== src/Base/Splits.antt =====
-- A string is split at the separator that joins it.
use Prim.Native.Nat.{ℕ}
use mathlib.Core.Path.{◌≡◌, refl}
use mathlib.Core.Bool.{Bool, true, false, not, ◌&&◌}
use mathlib.Core.Option.{some}
use mathlib.Core.List.{[], ◌∷◌, ◌++◌}
use native.Mathlib.Omega.{arith}
use jelly.Base.Tests.{◌==◌}
use jelly.Base.Text.{Bytes}
use jelly.Base.Strings.{split_2}

-- Whether a byte does not occur.
abbrev pub lacks : ℕ → Bytes → Bool
lacks sep [] = true
lacks sep (c ∷ s) = not (c == sep) && lacks sep s

pub split_2_append :
    (sep : ℕ) (s t : Bytes) → lacks sep s ≡ true → split_2 sep (s ++ sep ∷ t) ≡ (s, some t)
unfolding split_2
split_2_append sep [] t e = let same : (sep == sep) ≡ true = ground arith in rw same refl
split_2_append sep (c ∷ s) t e =
    let other : (c == sep) ≡ false = ground arith in
    let tail : lacks sep s ≡ true = ground arith in rw (other, split_2_append sep s t tail) refl
