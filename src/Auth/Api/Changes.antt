-- ===== src/Auth/Api/Changes.antt =====
-- The handlers of auth/api.go that change a user: httpUpdateUser (PATCH) and httpReplaceUser (PUT).
-- Each of their calls that change users is given its own time.
use jelly.Base.{
  ℕ, [], Option, not, Bytes, bytes, bytes_eq, done, panics, ◌>>=◌, if◌then◌else◌, ◌==◌,
}
use jelly.Time.{Time}
use jelly.Auth.Errors.{Error, is, error_text, err_not_found, err_already_exists, err_body_unmarshal}
use jelly.Auth.User.{AuthUser, Result, success, failure, AuthUserRepo}
use jelly.Auth.Service.{Outside, get_user}
use jelly.Auth.Service.Users.{create_user, update_user, update_password}
use jelly.Auth.Api.{
  UserModel, UpdateField, UserUpdateRequest, user_reply, Web, Api, Handled, with_value, after_call,
  after_check, internal_error, bad_request_error, acts_on_other, user_model, parse_role, admin,
  guest,
}
use jelly.Auth.Api.Users.{requested_role, role_error, create_error}
use jelly.Server.Requests.{Request, parse_json_request, require_id_param}
use jelly.Server.Responses.{created, bad_request, conflict, not_found, forbidden}
use jelly.Middle.{get_logged_in_user}

abbrev pub new_value : UpdateField → Bytes → Bytes
new_value f old = if f.update then f.value else old

-- The role of an update, parsed if it is to be updated.
unfoldable pub update_role : UpdateField → Result ℕ
unfolding parse_role
update_role f = if f.update then parse_role f.value else success guest

module _ {S : Type 0} where
  unfoldable pub missing_error : Error → S → Handled S
  missing_error err s = if is err err_not_found then (done not_found, s) else internal_error err s

  -- An error of UpdateUser.
  unfoldable pub update_error : Error → S → Handled S
  unfolding missing_error
  update_error err s =
      if is err err_already_exists
      then (error_text err >>= λ msg. done (conflict msg), s)
      else missing_error err s

  -- The end of an update with a password: `err.Error()` is called also when UpdatePassword returns
  -- a nil error, and then panics.
  unfoldable pub password_answer : Result AuthUser × S → Handled S
  unfolding missing_error
  password_answer (success user, s) = (panics, s)
  password_answer (failure err, s) = missing_error err s

module _ {S : Type 0} (o : Outside) (w : Web) (api : Api) (repo : AuthUserRepo S) where
  abbrev user_model_sent : Error → S → Result UserModel → Handled S
  user_model_sent err s (success normal_user) = (
    done (
        bad_request (bytes "updated fields must be objects with keys {'u': true, 'v': NEW_VALUE}")),
    s,
  )
  user_model_sent err s (failure err2) = bad_request_error err s

  -- An error of the parsing of an update: a body that is a userModel has a message of its own.
  unfoldable pub update_parse_error : Request → Error → S → Handled S
  update_parse_error req err s =
      if is err err_body_unmarshal
      then user_model_sent err s (parse_json_request w.unmarshal_user req)
      else bad_request_error err s

  -- After UpdateUser.
  unfoldable pub finish_update : Time → UpdateField → AuthUser → S → Handled S
  unfolding password_answer user_model
  finish_update now password updated s =
      if password.update
      then password_answer (update_password o repo now (w.uuid_string updated.id) password.value s)
      else (done (created (user_reply (user_model w api updated))), s)

  -- The update of a user that exists.
  unfoldable pub update_existing :
      (now later : Time) → ℕ → UserUpdateRequest → ℕ → AuthUser → S → Handled S
  unfolding update_error finish_update
  update_existing now later id upd role existing s =
      after_call
        (update_user o repo now (w.uuid_string id) (new_value upd.id (w.uuid_string existing.id))
          (new_value upd.username existing.username) (new_value upd.email existing.email)
          (if upd.role.update then role else existing.role) s)
        update_error (finish_update later upd.password)

  unfoldable pub update_user_as : (now later : Time) → ℕ → AuthUser → Request → S → Handled S
  unfolding update_parse_error update_role update_existing missing_error
  update_user_as now later id user req s =
      if acts_on_other id user
      then (done forbidden, s)
      else after_check (parse_json_request w.unmarshal_update req) s (update_parse_error req)
          (λ upd. after_check (update_role upd.role) s bad_request_error (λ role.
            after_check (get_user o repo (w.uuid_string id) s) s missing_error
              (λ existing. update_existing now later id upd role existing s)))

  unfoldable pub http_update_user : (now later : Time) → Request → S → Handled S
  unfolding update_user_as
  http_update_user now later req s =
      with_value (require_id_param o.parse_uuid req) s
        (λ id. with_value (get_logged_in_user req) s (λ u. update_user_as now later id u.0 req s))

  -- CreateUser, and then UpdateUser to set the ID.
  unfoldable pub create_with_id :
      Option ℕ → (now later : Time) → Bytes → UserModel → ℕ → S → Handled S
  unfolding create_error user_model
  create_with_id new_id now later id m role s =
      after_call (create_user o repo new_id now m.username m.password m.email role s) create_error
        (λ made t.
          after_call
            (update_user o repo later (w.uuid_string made.id) id made.username made.email made.role
              t)
            create_error (λ u end. (done (created (user_reply (user_model w api u))), end)))

  unfoldable pub replace_from_model : Option ℕ → (now later : Time) → ℕ → UserModel → S → Handled S
  unfolding requested_role role_error create_with_id
  replace_from_model new_id now later id m s =
      let uri_id = w.uuid_string id in
      let body_id = if bytes_eq m.id [] then uri_id else m.id in
      if bytes_eq m.username []
      then (done (bad_request (bytes "username: property is empty or missing from request")), s)
      else if bytes_eq m.password []
      then (done (bad_request (bytes "password: property is empty or missing from request")), s)
      else if not (bytes_eq body_id uri_id)
      then (done (bad_request (bytes "id: must be same as ID in URI")), s)
      else after_check (requested_role m.role) s role_error
          (λ role. create_with_id new_id now later body_id m role s)

  unfoldable pub http_replace_user : Option ℕ → (now later : Time) → Request → S → Handled S
  unfolding replace_from_model
  http_replace_user new_id now later req s = with_value (require_id_param o.parse_uuid req) s (λ id.
      with_value (get_logged_in_user req) s (λ u.
        if not (u.0.role == admin)
        then (done forbidden, s)
        else after_check (parse_json_request w.unmarshal_user req) s bad_request_error
            (λ m. replace_from_model new_id now later id m s)))
