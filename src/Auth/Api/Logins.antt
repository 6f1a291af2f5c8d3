-- ===== src/Auth/Api/Logins.antt =====
-- The handlers of auth/api.go for logins, tokens and information: httpGetInfo, httpCreateLogin,
-- httpDeleteLogin and httpCreateToken.
use jelly.Base.{ℕ, [], not, Bytes, bytes, bytes_eq, done, ◌>>=◌, if◌then◌else◌}
use jelly.Time.{Time}
use jelly.Auth.Errors.{Error, is, error_text, text_of, err_bad_credentials, err_not_found}
use jelly.Auth.User.{AuthUser, Result, success, failure, AuthUserRepo}
use jelly.Auth.Service.{Outside, login, logout, get_user}
use jelly.Auth.Token.{generate_token}
use jelly.Auth.Api.{
  LoginRequest, login_reply, info_reply, Web, Api, Handled, with_value, after_call, after_check,
  internal_error, bad_request_error, acts_on_other,
}
use jelly.Server.Requests.{Request, parse_json_request, require_id_param}
use jelly.Server.Responses.{
  ok, no_content, created, bad_request, not_found, forbidden, unauthorized,
}
use jelly.Middle.{get_logged_in_user}

module _ {S : Type 0} where
  -- An error of Login.
  unfoldable pub login_error : Error → S → Handled S
  login_error err s =
      if is err err_bad_credentials
      then (error_text err >>= λ msg. done (unauthorized (text_of err_bad_credentials)), s)
      else internal_error err s

  unfoldable pub logout_error : Error → S → Handled S
  logout_error err s = if is err err_not_found then (done not_found, s) else internal_error err s

  unfoldable pub refuse_looked_up : Result AuthUser → S → Handled S
  refuse_looked_up (success other_user) s = (done forbidden, s)
  refuse_looked_up (failure err) s =
      if not (is err err_not_found) then internal_error err s else (done forbidden, s)

module _ {S : Type 0} (o : Outside) (w : Web) (api : Api) (repo : AuthUserRepo S) where
  -- Version of auth/auth.go is given.
  unfoldable pub http_get_info : Bytes → Request → S → Handled S
  http_get_info version req s =
      with_value (get_logged_in_user req) s (λ u. (done (ok (info_reply version)), s))

  -- A token for a user: the end of httpCreateLogin and of httpCreateToken.
  unfoldable pub answer_with_token : Time → AuthUser → S → Handled S
  answer_with_token now user s =
      after_check (generate_token w.jwt w.uuid_string now api.secret user) s internal_error (λ tok.
        (done (created (login_reply (record { token = tok; user_id = w.uuid_string user.id }))), s))

  unfoldable pub create_login_with : Time → LoginRequest → S → Handled S
  unfolding login_error answer_with_token
  create_login_with now login_data s =
      if bytes_eq login_data.username []
      then (done (bad_request (bytes "username: property is empty or missing from request")), s)
      else if bytes_eq login_data.password []
      then (done (bad_request (bytes "password: property is empty or missing from request")), s)
      else after_call (login o repo now login_data.username login_data.password s) login_error
          (answer_with_token now)

  unfoldable pub http_create_login : Time → Request → S → Handled S
  unfolding create_login_with
  http_create_login now req s =
      after_check (parse_json_request w.unmarshal_login req) s bad_request_error
        (λ login_data. create_login_with now login_data s)

  -- The answer to a user that may not log out another one, who was looked up for the log.
  unfoldable pub refuse_logout : ℕ → S → Handled S
  unfolding refuse_looked_up
  refuse_logout id s = refuse_looked_up (get_user o repo (w.uuid_string id) s) s

  unfoldable pub delete_login_as : Time → ℕ → AuthUser → S → Handled S
  unfolding refuse_logout logout_error
  delete_login_as now id user s =
      if acts_on_other id user
      then refuse_logout id s
      else after_call (logout o repo now id s) logout_error (λ out t. (done no_content, t))

  unfoldable pub http_delete_login : Time → Request → S → Handled S
  unfolding delete_login_as
  http_delete_login now req s =
      with_value (require_id_param o.parse_uuid req) s
        (λ id. with_value (get_logged_in_user req) s (λ u. delete_login_as now id u.0 s))

  unfoldable pub http_create_token : Time → Request → S → Handled S
  unfolding answer_with_token
  http_create_token now req s =
      with_value (get_logged_in_user req) s (λ u. answer_with_token now u.0 s)
