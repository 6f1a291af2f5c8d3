-- ===== src/Auth/Token/Keys.antt =====
-- What the login service relies on of the JWT package, and that the keys of tokens change.
use jelly.Base.{
  ℕ, ◌+◌, ◌-◌, ◌^◌, ◌<◌, ◌≡◌, ◌≢◌, sym, ap, ◌∙◌, [], ◌∷◌, ◌++◌, none, some, Bytes, Bool-cases, inl,
  inr, ltb, decimal, arith,
}
use jelly.Base.Digits.{decimal-injective, decimal-not-minus}
use jelly.Time.{Time}
use jelly.Auth.Errors.{Error}
use jelly.Auth.User.{AuthUser, success}
use jelly.Auth.Token.{Claims, Jwt, unix, signed_decimal, sign_key, issuer_name}

-- What the JWT package documents: a signed token carries its subject, it is accepted with its key
-- until it expires, with a leeway of a minute, and it is not accepted with another key. Times are
-- since 1970.
pub record IsJwt (jwt : Jwt) : Type 0 where
  pub named :
      (c : Claims) (key tok : Bytes)
      → jwt.sign c key ≡ success tok
      → jwt.subject_of tok ≡ success c.subject
  pub accepted :
      (c : Claims) (key tok : Bytes) (now : Time)
      → jwt.sign c key ≡ success tok
      → c.issuer ≡ issuer_name
      → unix now < c.expires + 60
      → unix now < 2 ^ 63
      → c.expires < 2 ^ 63
      → jwt.verify now tok key ≡ none
  pub other_key :
      (c : Claims) (key other tok : Bytes) (now : Time)
      → jwt.sign c key ≡ success tok
      → key ≢ other
      → (err : Error) × (jwt.verify now tok other ≡ some err)

append-cancel : (s : Bytes) {t u : Bytes} → s ++ t ≡ s ++ u → t ≡ u
append-cancel [] e = e
append-cancel (c ∷ s) e = append-cancel s cc

minus-injective : {s t : Bytes} → (45 ∷ s) ≡ (45 ∷ t) → s ≡ t
minus-injective e = cc

signed_decimal-injective :
    (m n : ℕ) → m < 2 ^ 64 → n < 2 ^ 64 → signed_decimal m ≡ signed_decimal n → m ≡ n
unfolding signed_decimal
signed_decimal-injective m n m_bits n_bits = elim (Bool-cases (ltb m (2 ^ 63))) [
  | inl p ↦ elim (Bool-cases (ltb n (2 ^ 63))) [
    | inl q ↦ rw (signed_decimal, p, q) (decimal-injective m n)
    | inr q ↦
        rw (signed_decimal, p, q) (λ e. elim (decimal-not-minus m (decimal (2 ^ 64 - n)) e) [ ])
  ]
  | inr p ↦ elim (Bool-cases (ltb n (2 ^ 63))) [
    | inl q ↦
        rw (signed_decimal, p, q)
          (λ e. elim (decimal-not-minus n (decimal (2 ^ 64 - m)) (sym e)) [ ])
    | inr q ↦
        rw (signed_decimal, p, q)
          (λ e.
            let same : 2 ^ 64 - m ≡ 2 ^ 64 - n =
              decimal-injective (2 ^ 64 - m) (2 ^ 64 - n) (minus-injective e) in
            omega arith)
  ]
]

unix-bits : (t : Time) → unix t < 2 ^ 64
unfolding unix
unix-bits t = omega arith

-- The key changes with the second of the last logout.
pub sign_key-changes :
    (secret : Bytes) (u v : AuthUser)
    → u.password ≡ v.password
    → unix u.last_logout ≢ unix v.last_logout
    → sign_key secret u ≢ sign_key secret v
unfolding sign_key
sign_key-changes secret u v same other e = other (
    signed_decimal-injective (unix u.last_logout) (unix v.last_logout) (unix-bits u.last_logout)
      (unix-bits v.last_logout)
      (append-cancel v.password (
        ap (λ (p : Bytes). p ++ signed_decimal (unix u.last_logout)) (sym same)
        ∙ append-cancel secret e)))
