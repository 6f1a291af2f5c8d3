-- ===== src/Auth/Errors/Wrapping.antt =====
-- What errors.Is says of a wrapped error of a database.
use Prim.Native.Nat.{◌%◌}
use jelly.Base.{ℕ, ◌≡◌, refl, ap, ◌∙◌, none, some, Bool, true, false, ◌||◌, Bytes, if◌then◌else◌}
use jelly.Auth.Errors.{
  Error, sentinel, err_db, err_db_not_found, err_db_constraint_violation, err_no_rows, is,
  as_sqlite, converted, wrap_db_error,
}

or_true : (b : Bool) → (b || true) ≡ true
or_true true = refl
or_true false = refl

or_left : (b c : Bool) → b ≡ true → (b || c) ≡ true
or_left b c e = rw e refl

module _ (error_code_string : ℕ → Bytes) (err : Error) where
  converted-not_found :
      is err err_no_rows ≡ true → is (converted error_code_string none err) err_db_not_found ≡ true
  unfolding converted is
  converted-not_found e =
      ap (λ b. is (if b then sentinel err_db_not_found else err) err_db_not_found) e

  converted-constraint :
      (code : ℕ)
      → (code % 256) ≡ 19
      → is (converted error_code_string (some code) err) err_db_constraint_violation ≡ true
  unfolding converted is
  converted-constraint code e = rw e (or_true (is err err_db_constraint_violation))

-- A wrapped error matches ErrDB. An error that matches sql.ErrNoRows and has no error of the driver
-- in it matches ErrDBNotFound once wrapped, and one in which the first error of the driver has
-- primary code 19 matches ErrDBConstraintViolation.
wrap_db_error-is :
    (error_code_string : ℕ → Bytes) (no_rows violation : Error) (code : ℕ) (msg : Bytes)
    → as_sqlite no_rows ≡ none
    → is no_rows err_no_rows ≡ true
    → as_sqlite violation ≡ some code
    → (code % 256) ≡ 19
    → (is (wrap_db_error error_code_string no_rows msg) err_db ≡ true)
      × (is (wrap_db_error error_code_string violation msg) err_db ≡ true)
      × (is (wrap_db_error error_code_string no_rows msg) err_db_not_found ≡ true)
      × (is (wrap_db_error error_code_string violation msg) err_db_constraint_violation ≡ true)
unfolding wrap_db_error is
wrap_db_error-is error_code_string no_rows violation code msg a e b f = (
  or_true _,
  or_true _,
  or_left _ _ (
      ap (λ o. is (converted error_code_string o no_rows) err_db_not_found) a
      ∙ converted-not_found error_code_string no_rows e),
  or_left _ _ (
      ap (λ o. is (converted error_code_string o violation) err_db_constraint_violation) b
      ∙ converted-constraint error_code_string violation code f),
)
