-- ===== src/Auth/Api/Tests.antt =====
-- The theorems on the API, its tokens and the middleware at concrete inputs.
use jelly.Base.{
  ◌≡◌, refl, [], ◌∷◌, Option, none, some, true, false, Bytes, bytes, bytes_eq, done, panics,
  to_lower, trim_space, trim_prefixes, cut_any, cut_prefix, split_2, decimal, decimal_on, arith,
}
use jelly.Auth.Errors.{is, error_text}
use jelly.Auth.User.{AuthUser, auth_user, success}
use jelly.Auth.Inmem.{UserMaps, inmem_repo, get, set_user, set_name, get_by_username}
use jelly.Auth.Service.{login, logout, get_user}
use jelly.Auth.Service.Users.{update_user, update_found, update_password, hash_user_pass}
use jelly.Auth.Token.{
  unix, signed_decimal, sign_key, generate_token, get_token, authenticate, validate_token,
  jwt_auth_provider,
}
use jelly.Auth.Token.Sessions.{authenticate-generate_token, authenticate-logout}
use jelly.Auth.Api.{Reply, login_reply, admin, parse_role}
use jelly.Auth.Api.Samples.{
  second, outside, open_jwt, open_jwt-IsJwt, bea_model, new_password, web, api, ann, bob, with_ann,
  request_by, request_with, ann_token, bad_token,
}
use jelly.Auth.Api.Logins.{http_create_login, http_delete_login}
use jelly.Auth.Api.Users.{
  http_get_all_users, http_create_user, http_get_user, http_delete_user, requested_role,
}
use jelly.Auth.Api.Changes.{
  http_update_user, http_replace_user, update_user_as, update_role, update_existing, finish_update,
  password_answer,
}
use jelly.Auth.Api.Setup.{init_admin}
use jelly.Auth.Api.Guards.{http_user-other, http_user-common}
use jelly.Auth.Api.Refusals.{refused, http_update_user-password}
use jelly.Auth.Api.Accounts.{made_user, login-init_admin, http_create_login-http_create_user}
use jelly.Auth.Api.Replacing.{http_replace_user-existing}
use jelly.Middle
use jelly.Middle.{get_logged_in_user, serve_http, Served, passed, Authenticator}
use jelly.Middle.Access.{serve_http-required}
use jelly.Server.Requests.{Request, get_url_param, parse_json_request, require_id_param}
use jelly.Server.Responses.{forbidden, unauthorized, conflict, created}

abbrev repo_none : Bytes → Option Bytes
repo_none s = none

trimmed : get_token (request_with ann_token) ≡ success ann_token
unfolding get_token trim_space trim_prefixes cut_any cut_prefix split_2 to_lower bytes_eq unix
trimmed = refl

authenticate-generate_token_example :
    authenticate open_jwt outside.parse_uuid
      (inmem_repo repo_none)
      api.secret
      (second 60)
      (request_with ann_token)
      with_ann
    ≡ record { user = auth_user ann; logged_in = true; err = none }
unfolding generate_token sign_key signed_decimal decimal decimal_on unix set_user get
authenticate-generate_token_example =
    authenticate-generate_token open_jwt open_jwt-IsJwt outside.parse_uuid web.uuid_string
      (inmem_repo repo_none) api.secret (second 0) (second 60) (auth_user ann) ann_token
      (request_with ann_token) with_ann refl trimmed refl refl (omega arith) (omega arith)
      (omega arith)

authenticate-logout_example :
    (authenticate open_jwt outside.parse_uuid
      (inmem_repo repo_none)
      api.secret
      (second 60)
      (request_with ann_token)
      (logout outside (inmem_repo repo_none) (second 30) 5 with_ann).1).logged_in
    ≡ false
unfolding generate_token sign_key signed_decimal decimal decimal_on unix set_user
authenticate-logout_example =
    authenticate-logout outside repo_none open_jwt open_jwt-IsJwt web.uuid_string api.secret
      (second 0) (second 30) (second 60) ann ann_token (request_with ann_token) with_ann refl refl
      trimmed refl (λ e. omega arith)

-- The authenticator of the samples.
abbrev provider : Authenticator UserMaps
provider =
    jwt_auth_provider open_jwt outside.parse_uuid (inmem_repo repo_none) api.secret 7 (second 60)

serve_http-required_example :
    (serve_http {B = Reply} true provider
        (λ req s. get_logged_in_user req)
        (request_by (auth_user ann) 5)
        with_ann
      ≡ done (jelly.Middle.refused 7 (unauthorized [])))
    × (serve_http {B = Reply} true provider
          (λ req s. get_logged_in_user req)
          (request_with bad_token)
          with_ann
        ≡ done (jelly.Middle.refused 7 (unauthorized [])))
    × ((next_req : Request) × (serve_http {B = Reply} true provider
            (λ req s. get_logged_in_user req)
            (request_with ann_token)
            with_ann
          ≡ done (passed (get_logged_in_user next_req)))
        × (get_logged_in_user next_req
            ≡ done ((provider.authenticate (request_with ann_token) with_ann).user, true)))
unfolding authenticate validate_token get_token sign_key signed_decimal decimal decimal_on unix
    set_user get trim_space trim_prefixes cut_any cut_prefix split_2 to_lower bytes_eq error_text
serve_http-required_example =
    serve_http-required provider (λ req s. get_logged_in_user req) (request_by (auth_user ann) 5)
      (request_with bad_token) (request_with ann_token) _ _ with_ann refl refl refl refl refl refl

http_user-other_example :
    (http_get_user outside web api (inmem_repo repo_none) (request_by bob 5) with_ann
      ≡ (done forbidden, with_ann))
    × (http_update_user outside web api
          (inmem_repo repo_none)
          (second 2)
          (second 3)
          (request_by bob 5)
          with_ann
        ≡ (done forbidden, with_ann))
    × (http_delete_user outside web api (inmem_repo repo_none) (request_by bob 5) with_ann
        ≡ (done forbidden, with_ann))
    × ((http_delete_login outside web api
          (inmem_repo repo_none)
          (second 2)
          (request_by bob 5)
          with_ann).1
        ≡ with_ann)
unfolding get_logged_in_user require_id_param get_url_param
http_user-other_example =
    http_user-other outside web api (inmem_repo repo_none) (request_by bob 5) bob with_ann 5
      (second 2) (second 3) refl refl refl refl

-- A request of bob without an ID in its path.
abbrev plain_request : Request
plain_request = record (request_by bob 6) { id_param = [] }

http_user-common_example :
    (http_get_all_users outside web api
        (inmem_repo repo_none)
        (λ s. success [])
        plain_request
        with_ann
      ≡ (done forbidden, with_ann))
    × (http_create_user outside web api
          (inmem_repo repo_none)
          (some 7)
          (second 2)
          plain_request
          with_ann
        ≡ (done forbidden, with_ann))
    × (http_replace_user outside web api
          (inmem_repo repo_none)
          (some 7)
          (second 2)
          (second 3)
          (request_by bob 6)
          with_ann
        ≡ (done forbidden, with_ann))
unfolding get_logged_in_user require_id_param get_url_param
http_user-common_example =
    http_user-common outside web api (inmem_repo repo_none) plain_request bob with_ann
      (λ s. success []) (some 7) 6 (second 2) (second 3) true (request_by bob 6) refl refl refl refl

http_update_user-password_example :
    refused
      (http_update_user outside web api
        (inmem_repo repo_none)
        (second 2)
        (second 3)
        (request_by (auth_user ann) 5)
        with_ann).0
    ≡ true
unfolding parse_json_request bytes_eq to_lower
http_update_user-password_example =
    http_update_user-password outside web api (inmem_repo repo_none) (second 2) (second 3)
      new_password refl (request_by (auth_user ann) 5) with_ann refl

-- In fact the password is changed, and the handler then panics.
password_is_changed :
    ((http_update_user outside web api
        (inmem_repo repo_none)
        (second 2)
        (second 3)
        (request_by (auth_user ann) 5)
        with_ann).0
      ≡ panics)
    × ((u : AuthUser) × (get 5
            (http_update_user outside web api
              (inmem_repo repo_none)
              (second 2)
              (second 3)
              (request_by (auth_user ann) 5)
              with_ann).1
          ≡ success u)
        × (u.password ≡ bytes "secret"))
unfolding http_update_user update_user_as update_role update_existing finish_update password_answer
    get_user update_user update_found update_password hash_user_pass parse_json_request bytes_eq
    to_lower get_logged_in_user require_id_param get_url_param get get_by_username set_user set_name
    jelly.Auth.Inmem.update jelly.Auth.Inmem.replaced jelly.Auth.Inmem.conflicts is
password_is_changed = (refl, (_, refl, refl))

login-init_admin_example :
    ((init_admin outside web
        (inmem_repo repo_none)
        (some 7)
        (second 2)
        (second 3)
        (bytes "bea:hi")
        with_ann).0
      ≡ none)
    × ((user : AuthUser) × (s : UserMaps) × (login outside
            (inmem_repo repo_none)
            (second 4)
            (bytes "bea")
            (bytes "hi")
            (init_admin outside web
              (inmem_repo repo_none)
              (some 7)
              (second 2)
              (second 3)
              (bytes "bea:hi")
              with_ann).1
          ≡ (success user, s))
        × (user.username ≡ bytes "bea")
        × (user.role ≡ admin))
unfolding set_name bytes_eq
login-init_admin_example =
    login-init_admin outside web api repo_none (bytes "hi") 7 (second 2) (second 3) (second 4) 98
      104 (bytes "ea") (bytes "i") with_ann refl refl refl refl refl

http_create_login-http_create_user_example :
    (tok : Bytes) × (s : UserMaps) × (http_create_login outside web api
        (inmem_repo repo_none)
        (second 4)
        (request_by bob 6)
        (http_create_user outside web api
          (inmem_repo repo_none)
          (some 7)
          (second 2)
          (request_by (auth_user ann) 5)
          with_ann).1
      ≡ (done (created (login_reply (record { token = tok; user_id = 7 ∷ [] }))), s))
unfolding set_name bytes_eq get_logged_in_user parse_json_request to_lower requested_role parse_role
    generate_token
http_create_login-http_create_user_example =
    http_create_login-http_create_user outside web api repo_none (bytes "hi") bea_model 2 98 104
      (bytes "ea") (bytes "i") with_ann refl refl refl refl refl refl 7 (second 2) (second 4)
      (request_by (auth_user ann) 5) (request_by bob 6) (auth_user ann) true (λ u. (_, refl)) refl
      refl refl refl refl refl

http_replace_user-existing_example :
    (end : UserMaps) × (http_replace_user outside web api
        (inmem_repo repo_none)
        (some 7)
        (second 2)
        (second 3)
        (request_by (auth_user ann) 5)
        with_ann
      ≡ (done (conflict (bytes "User with that username already exists")), end))
    × (get 5 end ≡ success (auth_user ann))
    × (get 7 end
        ≡ success (
            auth_user (
              made_user outside web api repo_none
                (bytes "hi")
                7
                (second 2)
                (bytes "bea")
                2
                with_ann)))
unfolding set_name set_user bytes_eq get_logged_in_user parse_json_request to_lower requested_role
    parse_role require_id_param get_url_param
http_replace_user-existing_example =
    http_replace_user-existing outside web api repo_none (bytes "hi") bea_model 2 98 104
      (bytes "ea") (bytes "i") with_ann refl refl refl refl refl refl 7 5 (second 2) (second 3) ann
      (request_by (auth_user ann) 5) (auth_user ann) true refl refl refl refl refl refl refl refl
      refl refl
