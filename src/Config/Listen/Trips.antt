-- ===== src/Config/Listen/Trips.antt =====
-- What is written of the configuration is read back.
use Prim.Native.Nat.{zero, suc, ◌/◌, ◌%◌}
use jelly.Base.{
  ℕ, ◌≡◌, refl, sym, ap, ◌∙◌, ◌+◌, ◌-◌, ◌*◌, ◌^◌, ◌≤◌, ◌<◌, [], ◌∷◌, ◌++◌, none, some, true, false,
  ◌&&◌, Bytes, bytes_eq, ◌==◌, leb, ltb, to_lower, decimal, decimal_on, Bool-cases, inl, inr, arith,
}
use jelly.Base.Digits.{head_of, head-decimal_on}
use jelly.Auth.User.{success}
use jelly.Auth.Token.{signed_decimal}
use jelly.Base.Splits.{lacks, split_2_append}
use jelly.Config.{atoi, digits_value}
use jelly.Config.Listen.{
  Globals, marshal_globals, unmarshal_globals, LogConfig, marshal_log, unmarshal_log,
  provider_string, parse_log_provider,
}

digits_value-snoc :
    (acc v : ℕ) (s : Bytes) (d : ℕ)
    → d < 10
    → digits_value acc s ≡ some v
    → digits_value acc (s ++ (48 + d) ∷ []) ≡ some (v * 10 + d)
unfolding digits_value
digits_value-snoc acc v [] d small e = ground arith
digits_value-snoc acc v (c ∷ s) d small e = elim (Bool-cases (leb 48 c && leb c 57)) [
  | inl p ↦
      let tail : digits_value (acc * 10 + (c - 48)) s ≡ some v =
        sym (rw (digits_value, p) refl) ∙ e in
      rw (digits_value, p) (digits_value-snoc (acc * 10 + (c - 48)) v s d small tail)
  | inr p ↦ let h : digits_value acc (c ∷ s) ≡ none = rw (digits_value, p) refl in cc
]

digits_value-decimal_on : (fuel n : ℕ) → n ≤ fuel → digits_value 0 (decimal_on fuel n) ≡ some n
unfolding decimal_on digits_value
digits_value-decimal_on zero n bound = ground arith
digits_value-decimal_on (suc fuel) n bound = elim (Bool-cases (ltb n 10)) [
  | inl small ↦
      let upper : leb (48 + n) 57 ≡ true = ground arith in
      let lower : leb 48 (48 + n) ≡ true = ground arith in
      let value : 48 + n - 48 ≡ n = omega arith in
      rw (decimal_on, small, digits_value, upper, lower, value) (ap some (omega arith))
  | inr large ↦
      let front : digits_value 0 (decimal_on fuel (n / 10)) ≡ some (n / 10) =
        digits_value-decimal_on fuel (n / 10) (omega arith) in
      let value : n / 10 * 10 + n % 10 ≡ n = omega arith in
      rw (decimal_on, large)
        (digits_value-snoc 0 (n / 10) (decimal_on fuel (n / 10)) (n % 10) (omega arith) front
          ∙ ap some value)
]

parse_log_provider-provider_string :
    (p : ℕ) → p < 3 → parse_log_provider (provider_string p) ≡ success p
unfolding parse_log_provider provider_string bytes_eq to_lower
parse_log_provider-provider_string zero known = refl
parse_log_provider-provider_string (suc zero) known = refl
parse_log_provider-provider_string (suc (suc zero)) known = refl
parse_log_provider-provider_string (suc (suc (suc p))) known = ground arith

-- A numeral that fits.
atoi-digits :
    (n : ℕ) (s : Bytes) → digits_value 0 s ≡ some n → 48 ≤ head_of s → n < 2 ^ 63 → atoi s ≡ some n
unfolding atoi
atoi-digits n [] e first bound = ground arith
atoi-digits n (c ∷ s) e first bound =
    let no_minus : (c == 45) ≡ false = ground arith in
    let no_plus : (c == 43) ≡ false = ground arith in
    let fits : leb n (2 ^ 63 - 1) ≡ true = ground arith in
    rw (atoi, no_minus, no_plus, e, fits) refl

atoi-minus :
    (n : ℕ) (s : Bytes)
    → digits_value 0 s ≡ some n
    → 48 ≤ head_of s
    → 0 < n
    → n ≤ 2 ^ 63
    → atoi (45 ∷ s) ≡ some (2 ^ 64 - n)
unfolding atoi
atoi-minus n [] e first positive bound = ground arith
atoi-minus n (c ∷ s) e first positive bound =
    let fits : leb n (2 ^ 63) ≡ true = ground arith in
    let some_n : (n == 0) ≡ false = ground arith in rw (atoi, e, fits, some_n) refl

atoi-signed_decimal : (n : ℕ) → n < 2 ^ 64 → atoi (signed_decimal n) ≡ some n
unfolding signed_decimal decimal
atoi-signed_decimal n bits = elim (Bool-cases (ltb n (2 ^ 63))) [
  | inl p ↦
      rw (signed_decimal, p)
        (atoi-digits n (decimal n) (digits_value-decimal_on n n (omega arith)) (head-decimal_on n n)
          (ground arith))
  | inr p ↦
      let m = 2 ^ 64 - n in
      let large : 2 ^ 63 ≤ n = ground arith in
      let back : 2 ^ 64 - (2 ^ 64 - n) ≡ n = omega arith in
      rw (signed_decimal, p)
        (atoi-minus m (decimal m) (digits_value-decimal_on m m (omega arith)) (head-decimal_on m m)
            (omega arith) (omega arith)
          ∙ ap some back)
]

-- Globals whose address has no colon, with any port, and the configuration of a log with one of the
-- three providers are read back from what is written of them as they were.
pub unmarshal_globals-marshal_globals :
    (g : Globals) (log : LogConfig)
    → g.port < 2 ^ 64
    → lacks 58 g.address ≡ true
    → log.provider < 3
    → (unmarshal_globals (marshal_globals g) ≡ success g)
      × (unmarshal_log (marshal_log log) ≡ success log)
unfolding unmarshal_globals marshal_globals unmarshal_log marshal_log
unmarshal_globals-marshal_globals g log bits no_colon known = (
  rw
      (
        unmarshal_globals,
        split_2_append 58 g.address (signed_decimal g.port) no_colon,
        atoi-signed_decimal g.port bits,
      )
      refl,
  rw (parse_log_provider-provider_string log.provider known) refl,
)
