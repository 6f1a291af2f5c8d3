-- ===== src/Auth/Service.antt =====
-- The login service of auth/service.go, over a repository of users: Login, Logout and the look-ups.
-- What it calls of bcrypt, the UUID package, mail and base64 is a parameter. The messages of errors
-- are kept.
pub mod Accounts
pub mod Users
use jelly.Base.{
  ℕ, ◌≡◌, ◌∷◌, [], Option, none, some, Bool, true, false, not, Bytes, bytes, bytes_eq,
  if◌then◌else◌, ◌==◌,
}
use jelly.Time.{Time, zero_time}
use jelly.Auth.Errors.{
  Error, Causes, sentinel, err_bad_credentials, err_not_found, err_already_exists, err_bad_argument,
  err_db_not_found, err_db_constraint_violation, is, wrap_db_error, new_error, no_causes, nil_cause,
  more_causes,
}
use jelly.Auth.User.{AuthUser, Result, success, failure, AuthUserRepo}

-- How bcrypt.CompareHashAndPassword ends.
pub data Compared : Type 0 where
  matching mismatched : Compared
  not_compared : Error → Compared

-- How bcrypt.GenerateFromPassword ends.
pub data Hashed : Type 0 where
  hashed : Bytes → Hashed
  too_long : Error → Hashed
  not_hashed : Error → Hashed

pub record Outside : Type 0 where
  pub parse_uuid : Bytes → Option ℕ
  pub parse_address : Bytes → Result Bytes
  pub decode : Bytes → Result Bytes
  pub encode : Bytes → Bytes
  pub compare_password : (hash password : Bytes) → Compared
  pub hash_password : Bytes → Hashed
  pub error_code_string : ℕ → Bytes

abbrev pub because : Bytes → Error → Error
because msg cause = new_error msg (more_causes cause no_causes)

abbrev pub bad_argument : Bytes → Error
bad_argument msg = because msg (sentinel err_bad_argument)

-- `NewError(msg, err, ErrBadArgument)` where `err` is nil
abbrev pub bad_argument_after_nil : Bytes → Error
bad_argument_after_nil msg =
    new_error msg (nil_cause (more_causes (sentinel err_bad_argument) no_causes))

abbrev pub bad_argument_after : Bytes → Error → Error
bad_argument_after msg err =
    new_error msg (more_causes err (more_causes (sentinel err_bad_argument) no_causes))

-- The zero AuthUser.
abbrev pub zero_auth_user : AuthUser
zero_auth_user = record {
  id = 0;
  username = [];
  password = [];
  email = [];
  role = 0;
  created = zero_time;
  modified = zero_time;
  last_logout = zero_time;
  last_login = zero_time;
}

module _ (o : Outside) where
  -- An error of the repository: `kind` if it matches ErrDBNotFound, or else wrapped.
  abbrev pub unless_not_found : Error → Bytes → Error → Error
  unless_not_found kind msg err =
      if is err err_db_not_found then kind else wrap_db_error o.error_code_string err msg

module _ {S : Type 0} (o : Outside) (repo : AuthUserRepo S) where
  -- The result of a call that changes users, its error wrapped.
  abbrev wrapped : Bytes → Result AuthUser × S → Result AuthUser × S
  wrapped msg (success user, s) = (success user, s)
  wrapped msg (failure err, s) = (failure (wrap_db_error o.error_code_string err msg), s)

  -- `Login`, from the stored user.
  unfoldable pub verify : Time → AuthUser → Bytes → S → Result AuthUser × S
  verify now user password s = elim (o.decode user.password) [
    | failure err ↦ (failure err, s)
    | success bcrypt_hash ↦ elim (o.compare_password bcrypt_hash password) [
      | mismatched ↦ (failure (sentinel err_bad_credentials), s)
      | not_compared err ↦ (failure (wrap_db_error o.error_code_string err []), s)
      | matching ↦
          wrapped (bytes "cannot update user login time")
            (repo.update now user.id (record user { last_login = now }) s)
    ]
  ]

  unfoldable pub login : Time → Bytes → Bytes → S → Result AuthUser × S
  unfolding verify
  login now username password s = elim (repo.get_by_username username s) [
    | failure err ↦ (failure (unless_not_found o (sentinel err_bad_credentials) [] err), s)
    | success user ↦ verify now user password s
  ]

  unfoldable pub logout : Time → ℕ → S → Result AuthUser × S
  logout now who s = elim (repo.get who s) [
    | failure err ↦ (
      failure (unless_not_found o (sentinel err_not_found) (bytes "could not retrieve user") err),
      s,
    )
    | success existing ↦
        wrapped (bytes "could not update user")
          (repo.update now existing.id (record existing { last_logout = now }) s)
  ]

  unfoldable pub get_user : Bytes → S → Result AuthUser
  get_user id s = elim (o.parse_uuid id) [
    | none ↦ failure (bad_argument (bytes "ID is not valid"))
    | some uuid_id ↦ elim (repo.get uuid_id s) [
      | failure err ↦
          failure (unless_not_found o (sentinel err_not_found) (bytes "could not get user") err)
      | success user ↦ success user
    ]
  ]

  unfoldable pub get_user_by_username : Bytes → S → Result AuthUser
  get_user_by_username username s = elim (repo.get_by_username username s) [
    | failure err ↦
        failure (unless_not_found o (sentinel err_not_found) (bytes "could not get user") err)
    | success user ↦ success user
  ]
