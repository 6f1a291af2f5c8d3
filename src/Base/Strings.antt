-- ===== src/Base/Strings.antt =====
-- What the code uses of Go's packages strings and strconv, on bytes.
use Prim.Native.Nat.{ℕ, zero, suc, ◌+◌, ◌/◌, ◌%◌}
use mathlib.Core.Bool.{Bool, true, false, ◌&&◌}
use mathlib.Core.Option.{Option, none, some}
use mathlib.Core.List.{List, [], ◌∷◌, ◌++◌, reverse}
use jelly.Base.Tests.{ltb, leb, ◌==◌, if◌then◌else◌}
use jelly.Base.Text.{Bytes}

-- `strings.ToLower`, as far as the result is ASCII: of the other characters only U+0130 and U+212A
-- have a lower-case form in ASCII, and the rest is left as it is.
abbrev lower : ℕ → ℕ
lower c = if leb 65 c && leb c 90 then c + 32 else c

unfoldable pub to_lower : Bytes → Bytes
to_lower [] = []
to_lower (c ∷ []) = lower c ∷ []
to_lower (c ∷ d ∷ []) =
    let rest = to_lower (d ∷ []) in if c == 196 && d == 176 then 105 ∷ [] else lower c ∷ rest
to_lower (c ∷ d ∷ e ∷ s) =
    let after_1 = to_lower (d ∷ e ∷ s) in
    let after_2 = to_lower (e ∷ s) in
    let after_3 = to_lower s in
    if c == 196 && d == 176
    then 105 ∷ after_2
    else if c == 226 && d == 132 && e == 170
    then 107 ∷ after_3
    else lower c ∷ after_1

-- `strings.SplitN(s, sep, 2)` for a separator of one byte: the first part, and the second if the
-- separator occurs.
unfoldable pub split_2 : ℕ → Bytes → Bytes × Option Bytes
split_2 sep [] = ([], none)
split_2 sep (c ∷ s) =
    let rest = split_2 sep s in if c == sep then ([], some s) else (c ∷ rest.0, rest.1)

-- `strings.Split(s, sep)` for a separator of one byte: the first part and the others.
unfoldable pub split_all : ℕ → Bytes → Bytes × List Bytes
split_all sep [] = ([], [])
split_all sep (c ∷ s) =
    let rest = split_all sep s in if c == sep then ([], rest.0 ∷ rest.1) else (c ∷ rest.0, rest.1)

-- The string without a prefix that it has.
unfoldable pub cut_prefix : Bytes → Bytes → Option Bytes
cut_prefix [] s = some s
cut_prefix (p ∷ prefix) [] = none
cut_prefix (p ∷ prefix) (c ∷ s) = let rest = cut_prefix prefix s in if p == c then rest else none

-- `strings.Contains(s, part)`
unfoldable pub has_part : Bytes → Bytes → Bool
unfolding cut_prefix
has_part part [] = elim (cut_prefix part []) [ none ↦ false | some r ↦ true ]
has_part part (c ∷ s) =
    let later = has_part part s in elim (cut_prefix part (c ∷ s)) [ none ↦ later | some r ↦ true ]

-- The encodings of the characters that are white space.
abbrev spaces : List Bytes
spaces =
    (9 ∷ [])
    ∷ (10 ∷ [])
    ∷ (11 ∷ [])
    ∷ (12 ∷ [])
    ∷ (13 ∷ [])
    ∷ (32 ∷ [])
    ∷ (194 ∷ 133 ∷ [])
    ∷ (194 ∷ 160 ∷ [])
    ∷ (225 ∷ 154 ∷ 128 ∷ [])
    ∷ (226 ∷ 128 ∷ 128 ∷ [])
    ∷ (226 ∷ 128 ∷ 129 ∷ [])
    ∷ (226 ∷ 128 ∷ 130 ∷ [])
    ∷ (226 ∷ 128 ∷ 131 ∷ [])
    ∷ (226 ∷ 128 ∷ 132 ∷ [])
    ∷ (226 ∷ 128 ∷ 133 ∷ [])
    ∷ (226 ∷ 128 ∷ 134 ∷ [])
    ∷ (226 ∷ 128 ∷ 135 ∷ [])
    ∷ (226 ∷ 128 ∷ 136 ∷ [])
    ∷ (226 ∷ 128 ∷ 137 ∷ [])
    ∷ (226 ∷ 128 ∷ 138 ∷ [])
    ∷ (226 ∷ 128 ∷ 168 ∷ [])
    ∷ (226 ∷ 128 ∷ 169 ∷ [])
    ∷ (226 ∷ 128 ∷ 175 ∷ [])
    ∷ (226 ∷ 129 ∷ 159 ∷ [])
    ∷ (227 ∷ 128 ∷ 128 ∷ [])
    ∷ []

unfoldable pub cut_any : List Bytes → Bytes → Option Bytes
unfolding cut_prefix
cut_any [] s = none
cut_any (p ∷ ps) s =
    let others = cut_any ps s in elim (cut_prefix p s) [ none ↦ others | some rest ↦ some rest ]

-- Removes prefixes, at most as many as the fuel, which is the length: each has a byte at least.
unfoldable pub trim_prefixes : List Bytes → (fuel : Bytes) → Bytes → Bytes
unfolding cut_any
trim_prefixes ps [] s = s
trim_prefixes ps (f ∷ fuel) s = elim (cut_any ps s) [
  | none ↦ s
  | some rest ↦ trim_prefixes ps fuel rest
]

abbrev reversed_all : List Bytes → List Bytes
reversed_all [] = []
reversed_all (p ∷ ps) = reverse p ∷ reversed_all ps

-- `strings.TrimSpace`
unfoldable pub trim_space : Bytes → Bytes
unfolding trim_prefixes
trim_space s =
    let from_left = trim_prefixes spaces s s in
    let backwards = reverse from_left in
    reverse (trim_prefixes (reversed_all spaces) backwards backwards)

-- The decimal digits of a number; each step divides by 10, so that the number is fuel enough.
unfoldable pub decimal_on : (fuel : ℕ) → ℕ → Bytes
decimal_on zero n = (48 + n) ∷ []
decimal_on (suc fuel) n =
    let front = decimal_on fuel (n / 10) in
    if ltb n 10 then (48 + n) ∷ [] else front ++ ((48 + n % 10) ∷ [])

-- `fmt.Sprintf("%d", n)`
unfoldable pub decimal : ℕ → Bytes
unfolding decimal_on
decimal n = decimal_on n n
