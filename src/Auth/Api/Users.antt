-- ===== src/Auth/Api/Users.antt =====
-- The handlers of auth/api.go that read, create and delete users: httpGetAllUsers, httpCreateUser,
-- httpGetUser and httpDeleteUser.
use jelly.Base.{
  ℕ, List, [], ◌∷◌, ◌++◌, map, Option, not, Bytes, bytes, bytes_eq, done, ◌>>=◌, if◌then◌else◌,
  ◌==◌,
}
use jelly.Time.{Time}
use jelly.Auth.Errors.{
  Error, is, error_text, err_not_found, err_already_exists, err_bad_argument, wrap_db_error,
}
use jelly.Auth.User.{AuthUser, Result, success, failure, AuthUserRepo}
use jelly.Auth.Service.{Outside, get_user}
use jelly.Auth.Service.Users.{create_user, delete_user}
use jelly.Auth.Api.{
  UserModel, user_reply, users_reply, Web, Api, Handled, with_value, after_call, after_check,
  internal_error, bad_request_error, acts_on_other, user_model, parse_role, admin, unverified,
}
use jelly.Server.Requests.{Request, parse_json_request, require_id_param}
use jelly.Server.Responses.{ok, no_content, created, bad_request, conflict, not_found, forbidden}
use jelly.Middle.{get_logged_in_user}

-- The role in a request: Unverified, if it is empty.
unfoldable pub requested_role : Bytes → Result ℕ
unfolding parse_role
requested_role [] = success unverified
requested_role (c ∷ role) = parse_role (c ∷ role)

module _ {S : Type 0} where
  -- An error of CreateUser.
  unfoldable pub create_error : Error → S → Handled S
  create_error err s =
      if is err err_already_exists
      then (done (conflict (bytes "User with that username already exists")), s)
      else if is err err_bad_argument
      then bad_request_error err s
      else internal_error err s

  -- `em.BadRequest("role: " + err.Error(), ...)`
  unfoldable pub role_error : Error → S → Handled S
  role_error err s = (error_text err >>= λ msg. done (bad_request (bytes "role: " ++ msg)), s)

  unfoldable pub get_user_error : Error → S → Handled S
  get_user_error err s =
      if is err err_bad_argument
      then bad_request_error err s
      else if is err err_not_found
      then (done not_found, s)
      else internal_error err s

  -- An error of DeleteUser: a user that is not found counts as deleted.
  unfoldable pub delete_error : Error → S → Handled S
  delete_error err s =
      if not (is err err_not_found)
      then (if is err err_bad_argument then bad_request_error err s else internal_error err s)
      else (done no_content, s)

module _ {S : Type 0} (o : Outside) (w : Web) (api : Api) (repo : AuthUserRepo S) where
  abbrev all_users : Result (List AuthUser) → Result (List AuthUser)
  all_users (success users) = success users
  all_users (failure err) = failure (wrap_db_error o.error_code_string err [])

  -- `GetAllUsers`; `get_all` is the GetAll of the repository.
  unfoldable pub get_all_users : (S → Result (List AuthUser)) → S → Result (List AuthUser)
  get_all_users get_all s = all_users (get_all s)

  unfoldable pub http_get_all_users : (S → Result (List AuthUser)) → Request → S → Handled S
  unfolding get_all_users
  http_get_all_users get_all req s = with_value (get_logged_in_user req) s (λ u.
      if not (u.0.role == admin)
      then (done forbidden, s)
      else after_check (get_all_users get_all s) s internal_error
          (λ users. (done (ok (users_reply (map (user_model w api) users))), s)))

  unfoldable pub create_from_model : Option ℕ → Time → UserModel → S → Handled S
  unfolding requested_role create_error role_error user_model
  create_from_model new_id now m s =
      if bytes_eq m.username []
      then (done (bad_request (bytes "username: property is empty or missing from request")), s)
      else if bytes_eq m.password []
      then (done (bad_request (bytes "password: property is empty or missing from request")), s)
      else after_check (requested_role m.role) s role_error (λ role.
        after_call (create_user o repo new_id now m.username m.password m.email role s) create_error
          (λ u t. (done (created (user_reply (user_model w api u))), t)))

  unfoldable pub http_create_user : Option ℕ → Time → Request → S → Handled S
  unfolding create_from_model
  http_create_user new_id now req s = with_value (get_logged_in_user req) s (λ u.
      if not (u.0.role == admin)
      then (done forbidden, s)
      else after_check (parse_json_request w.unmarshal_user req) s bad_request_error
          (λ m. create_from_model new_id now m s))

  -- A user that may not get another looks that user up for the log, with either result.
  unfoldable pub get_user_as : ℕ → AuthUser → S → Handled S
  unfolding get_user_error user_model
  get_user_as id user s =
      if acts_on_other id user
      then (done forbidden, s)
      else after_check (get_user o repo (w.uuid_string id) s) s get_user_error
          (λ info. (done (ok (user_reply (user_model w api info))), s))

  unfoldable pub http_get_user : Request → S → Handled S
  unfolding get_user_as
  http_get_user req s =
      with_value (require_id_param o.parse_uuid req) s
        (λ id. with_value (get_logged_in_user req) s (λ u. get_user_as id u.0 s))

  unfoldable pub delete_user_as : ℕ → AuthUser → S → Handled S
  unfolding delete_error
  delete_user_as id user s =
      if acts_on_other id user
      then (done forbidden, s)
      else after_call (delete_user o repo (w.uuid_string id) s) delete_error
          (λ gone t. (done no_content, t))

  unfoldable pub http_delete_user : Request → S → Handled S
  unfolding delete_user_as
  http_delete_user req s =
      with_value (require_id_param o.parse_uuid req) s
        (λ id. with_value (get_logged_in_user req) s (λ u. delete_user_as id u.0 s))
