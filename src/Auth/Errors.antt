-- ===== src/Auth/Errors.antt =====
-- The errors of errors.go. An error of another package is known by its text, an error of the SQLite
-- driver also by its code.
pub mod Wrapping
use Prim.Native.Nat.{◌%◌}
use jelly.Base.{
  ℕ, ◌≡◌, refl, [], ◌∷◌, ◌++◌, Option, none, some, Bool, true, false, ◌||◌, Bytes, bytes, bytes_eq,
  Run, done, panics, ◌>>=◌, if◌then◌else◌, ◌==◌, arith,
}

-- The error variables of the package, and `sql.ErrNoRows`.
pub data Sentinel : Type 0 where
  err_bad_credentials err_permissions err_not_found err_already_exists err_db err_bad_argument :
      Sentinel
  err_body_unmarshal err_db_constraint_violation err_db_not_found err_db_decoding_failure : Sentinel
  err_no_rows : Sentinel

-- A sentinel by its number, to compare it.
abbrev tag : Sentinel → ℕ
tag err_bad_credentials = 0
tag err_permissions = 1
tag err_not_found = 2
tag err_already_exists = 3
tag err_db = 4
tag err_bad_argument = 5
tag err_body_unmarshal = 6
tag err_db_constraint_violation = 7
tag err_db_not_found = 8
tag err_db_decoding_failure = 9
tag err_no_rows = 10

abbrev pub text_of : Sentinel → Bytes
text_of err_bad_credentials = bytes "the supplied username/password combination is incorrect"
text_of err_permissions = bytes "you don't have permission to do that"
text_of err_not_found = bytes "the requested entity could not be found"
text_of err_already_exists = bytes "resource with same identifying information already exists"
text_of err_db = bytes "an error occured with the DB"
text_of err_bad_argument = bytes "one or more of the arguments is invalid"
text_of err_body_unmarshal = bytes "malformed data in request"
text_of err_db_constraint_violation = bytes "a uniqueness constraint was violated"
text_of err_db_not_found = bytes "the requested resource was not found"
text_of err_db_decoding_failure =
    bytes "field could not be decoded from DB storage format to model format"
text_of err_no_rows = bytes "sql: no rows in result set"

-- An `error` that is not nil. The causes of an `Error` may be nil.
mutual
  pub data Error : Type 0 where
    sentinel : Sentinel → Error
    foreign : Bytes → Error
    sqlite_error : ℕ → Bytes → Error
    an_error : Bytes → Causes → Error

  pub data Causes : Type 0 where
    no_causes : Causes
    nil_cause : Causes → Causes
    more_causes : Error → Causes → Causes

-- `errors.Is(err, target)`, with the method Is and the causes that Unwrap gives
unfoldable mutual
  pub is : Error → Sentinel → Bool
  is (sentinel s) target = tag s == tag target
  is (foreign text) target = false
  is (sqlite_error code text) target = false
  is (an_error msg causes) target = any_is causes target

  pub any_is : Causes → Sentinel → Bool
  any_is no_causes target = false
  any_is (nil_cause rest) target = any_is rest target
  any_is (more_causes e rest) target = is e target || any_is rest target

-- `err.Error()`, which panics on a nil first cause
unfoldable mutual
  pub error_text : Error → Run Bytes
  error_text (sentinel s) = done (text_of s)
  error_text (foreign text) = done text
  error_text (sqlite_error code text) = done text
  error_text (an_error msg causes) = with_cause msg causes

  pub with_cause : Bytes → Causes → Run Bytes
  with_cause msg no_causes = done msg
  with_cause msg (nil_cause rest) = panics
  with_cause [] (more_causes e rest) = error_text e
  with_cause (c ∷ msg) (more_causes e rest) =
      error_text e >>= λ t. done ((c ∷ msg) ++ (bytes ": " ++ t))

-- `errors.As` for an error of the SQLite driver: the code of the first that is found
unfoldable mutual
  pub as_sqlite : Error → Option ℕ
  as_sqlite (sentinel s) = none
  as_sqlite (foreign text) = none
  as_sqlite (sqlite_error code text) = some code
  as_sqlite (an_error msg causes) = any_as_sqlite causes

  pub any_as_sqlite : Causes → Option ℕ
  any_as_sqlite no_causes = none
  any_as_sqlite (nil_cause rest) = any_as_sqlite rest
  any_as_sqlite (more_causes e rest) =
      let others = any_as_sqlite rest in
      elim (as_sqlite e) [ none ↦ others | some code ↦ some code ]

-- `NewError`
abbrev pub new_error : Bytes → Causes → Error
new_error msg causes = an_error msg causes

-- `sqlite.ErrorCodeString`, a map of the driver, is a parameter.
module _ (error_code_string : ℕ → Bytes) where
  -- The conversion of an error in which a driver's error with this code is found, or none.
  unfoldable pub converted : Option ℕ → Error → Error
  unfolding is
  converted none err = if is err err_no_rows then sentinel err_db_not_found else err
  converted (some code) err =
      let primary_code = code % 256 in
      if primary_code == 19
      then new_error (text_of err_db_constraint_violation)
          (more_causes err (more_causes (sentinel err_db_constraint_violation) no_causes))
      else if primary_code == 1
      then err
      else new_error (error_code_string code) no_causes

  unfoldable pub convert_db_error : Error → Error
  unfolding converted as_sqlite
  convert_db_error err = converted (as_sqlite err) err

  -- `WrapDBError`, with the message that its arguments print as
  unfoldable pub wrap_db_error : Error → Bytes → Error
  unfolding convert_db_error
  wrap_db_error err msg =
      an_error msg (more_causes (convert_db_error err) (more_causes (sentinel err_db) no_causes))
