-- ===== src/Auth/Service/Users.antt =====
-- The methods of loginService of auth/service.go for CreateUser, DeleteUser, UpdateUser and
-- UpdatePassword, with the hash of a password that they store.
use jelly.Base.{ℕ, ◌∷◌, [], Option, none, some, not, Bytes, bytes, bytes_eq, if◌then◌else◌}
use jelly.Time.{Time}
use jelly.Auth.Errors.{
  Error, sentinel, err_not_found, err_already_exists, err_db_not_found, err_db_constraint_violation,
  is, wrap_db_error,
}
use jelly.Auth.User.{AuthUser, Result, success, failure, AuthUserRepo}
use jelly.Auth.Service.{
  Outside, hashed, too_long, not_hashed, because, bad_argument, bad_argument_after_nil,
  bad_argument_after, zero_auth_user, unless_not_found,
}

module _ {S : Type 0} (o : Outside) (repo : AuthUserRepo S) where
  unfoldable pub hash_user_pass : Bytes → Result Bytes
  hash_user_pass password = elim (o.hash_password password) [
    | hashed pass_hash ↦ success (o.encode pass_hash)
    | too_long err ↦ failure (bad_argument_after (bytes "password is too long") err)
    | not_hashed err ↦ failure (because (bytes "password could not be encrypted") err)
  ]

  -- The check of an email address, if there is one: its error, if it has one.
  abbrev email_error : Bytes → Option Error
  email_error [] = none
  email_error (c ∷ email) = elim (o.parse_address (c ∷ email)) [
    | success address ↦ none
    | failure err ↦ some (bad_argument_after (bytes "email is not valid") err)
  ]

  -- The result of Create.
  abbrev created : Result AuthUser × S → Result AuthUser × S
  created (success user, s) = (success user, s)
  created (failure err, s) = (
    failure (
        if is err err_db_constraint_violation
        then sentinel err_already_exists
        else wrap_db_error o.error_code_string err (bytes "could not create user")),
    s,
  )

  abbrev pub fresh_user : (username password email : Bytes) → (role : ℕ) → AuthUser
  fresh_user name pass address r = record zero_auth_user {
    username = name;
    password = pass;
    email = address;
    role = r;
  }

  -- CreateUser, after the checks of its arguments.
  unfoldable pub create_checked :
      Option ℕ → Time → (username password email : Bytes) → ℕ → S → Result AuthUser × S
  unfolding hash_user_pass
  create_checked new_id now username password email role s =
      elim (repo.get_by_username username s) [
        | success user ↦ (
          failure (
              because (bytes "a user with that username already exists")
                (sentinel err_already_exists)),
          s,
        )
        | failure err ↦
            if not (is err err_db_not_found)
            then (failure (wrap_db_error o.error_code_string err []), s)
            else elim (hash_user_pass password) [
              | failure err ↦ (failure err, s)
              | success stored_pass ↦
                  created (repo.create new_id now (fresh_user username stored_pass email role) s)
            ]
      ]

  -- `CreateUser`; the repository is given the new ID and the time.
  unfoldable pub create_user :
      Option ℕ → Time → (username password email : Bytes) → ℕ → S → Result AuthUser × S
  unfolding create_checked
  create_user new_id now [] password email role s =
      (failure (bad_argument_after_nil (bytes "username cannot be blank")), s)
  create_user new_id now (c ∷ username) [] email role s =
      (failure (bad_argument_after_nil (bytes "password cannot be blank")), s)
  create_user new_id now (c ∷ username) (d ∷ password) email role s = elim (email_error email) [
    | some err ↦ (failure err, s)
    | none ↦ create_checked new_id now (c ∷ username) (d ∷ password) email role s
  ]

  -- The result of Delete.
  abbrev deleted : Result AuthUser × S → Result AuthUser × S
  deleted (success user, s) = (success user, s)
  deleted (failure err, s) =
      (failure (unless_not_found o (sentinel err_not_found) (bytes "could not delete user") err), s)

  unfoldable pub delete_user : Bytes → S → Result AuthUser × S
  delete_user id s = elim (o.parse_uuid id) [
    | none ↦ (failure (bad_argument (bytes "ID is not valid")), s)
    | some uuid_id ↦ deleted (repo.delete uuid_id s)
  ]

  -- The result of Update in UpdatePassword.
  abbrev password_updated : Result AuthUser × S → Result AuthUser × S
  password_updated (success user, s) = (success user, s)
  password_updated (failure err, s) = (
    failure (
        unless_not_found o (because (bytes "no user with that ID exists") (sentinel err_not_found))
          (bytes "could not update user") err),
    s,
  )

  unfoldable pub update_password : Time → (id password : Bytes) → S → Result AuthUser × S
  unfolding hash_user_pass
  update_password now id [] s = (failure (bad_argument (bytes "password cannot be empty")), s)
  update_password now id (c ∷ password) s = elim (o.parse_uuid id) [
    | none ↦ (failure (bad_argument (bytes "ID is not valid")), s)
    | some uuid_id ↦ elim (repo.get uuid_id s) [
      | failure err ↦ (
        failure (
            unless_not_found o
              (because (bytes "no user with that ID exists") (sentinel err_not_found)) [] err),
        s,
      )
      | success existing ↦ elim (hash_user_pass (c ∷ password)) [
        | failure err ↦ (failure err, s)
        | success stored_pass ↦
            password_updated
              (repo.update now uuid_id (record existing { password = stored_pass }) s)
      ]
    ]
  ]

  -- A check that nothing is found: the error, if something is, or if the look-up fails otherwise.
  abbrev found_error : Result AuthUser → Option Error
  found_error (success user) =
      some
        (because (bytes "a user with that username already exists") (sentinel err_already_exists))
  found_error (failure err) =
      if is err err_db_not_found then none else some (wrap_db_error o.error_code_string err [])

  -- The result of Update in UpdateUser.
  abbrev user_updated : Result AuthUser × S → Result AuthUser × S
  user_updated (success user, s) = (success user, s)
  user_updated (failure err, s) = (
    failure (
        if is err err_db_constraint_violation
        then because (bytes "a user with that ID/username already exists")
            (sentinel err_already_exists)
        else unless_not_found o (because (bytes "user not found") (sentinel err_not_found)) [] err),
    s,
  )

  -- UpdateUser, from the user that it starts from.
  unfoldable pub update_found :
      Time
      → (cur_id new_id : Bytes) → (uuid_cur_id uuid_new_id : ℕ) → (username email : Bytes) → ℕ
      → AuthUser
      → S
      → Result AuthUser × S
  update_found now cur_id new_id uuid_cur_id uuid_new_id name address r dao_user s =
      let id_error =
        if not (bytes_eq cur_id new_id) then found_error (repo.get uuid_new_id s) else none in
      let name_error =
        if not (bytes_eq dao_user.username name)
        then found_error (repo.get_by_username name s)
        else none in
      elim id_error [
        | some err ↦ (failure err, s)
        | none ↦ elim name_error [
          | some err ↦ (failure err, s)
          | none ↦ user_updated (
              repo.update now uuid_cur_id
                (record dao_user { email = address; id = uuid_new_id; username = name; role = r })
                s)
        ]
      ]

  -- `UpdateUser`: an error of the first look-up other than ErrDBNotFound is dropped, and the user is
  -- then the zero one that Get returned.
  unfoldable pub update_user :
      Time → (cur_id new_id username email : Bytes) → ℕ → S → Result AuthUser × S
  unfolding update_found
  update_user now cur_id new_id [] email role s =
      (failure (bad_argument_after_nil (bytes "username cannot be blank")), s)
  update_user now cur_id new_id (c ∷ username) email role s = elim (email_error email) [
    | some err ↦ (failure err, s)
    | none ↦ elim (o.parse_uuid cur_id) [
      | none ↦ (failure (bad_argument (bytes "current ID is not valid")), s)
      | some uuid_cur_id ↦ elim (o.parse_uuid new_id) [
        | none ↦ (failure (bad_argument (bytes "new ID is not valid")), s)
        | some uuid_new_id ↦ elim (repo.get uuid_cur_id s) [
          | success dao_user ↦
              update_found now cur_id new_id uuid_cur_id uuid_new_id (c ∷ username) email role
                dao_user s
          | failure err ↦
              if is err err_db_not_found
              then (failure (because (bytes "user not found") (sentinel err_not_found)), s)
              else update_found now cur_id new_id uuid_cur_id uuid_new_id (c ∷ username) email role
                  zero_auth_user s
        ]
      ]
    ]
  ]
