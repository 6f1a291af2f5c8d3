-- ===== src/Auth/Api/Guards.antt =====
-- Who may do what: the guards of the handlers of auth/api.go.
use jelly.Base.{ℕ, ◌≡◌, refl, List, Option, Bool, true, false, done, ◌==◌, Bool-cases, inl, inr}
use jelly.Time.{Time}
use jelly.Auth.Errors.{is, err_not_found}
use jelly.Auth.User.{AuthUser, Result, success, failure, AuthUserRepo}
use jelly.Auth.Service.{Outside, get_user}
use jelly.Auth.Api.{Web, Api, admin, internal_error}
use jelly.Auth.Api.Logins.{http_delete_login, delete_login_as, refuse_logout, refuse_looked_up}
use jelly.Auth.Api.Users.{
  http_get_all_users, http_create_user, http_get_user, http_delete_user, get_user_as,
  delete_user_as,
}
use jelly.Auth.Api.Changes.{http_update_user, http_replace_user, update_user_as}
use jelly.Middle.{get_logged_in_user}
use jelly.Server.Requests.{Request, require_id_param}
use jelly.Server.Responses.{forbidden}

refuse_looked_up-unchanged :
    {S : Type 0} (found : Result AuthUser) (s : S) → (refuse_looked_up found s).1 ≡ s
unfolding refuse_looked_up internal_error
refuse_looked_up-unchanged (success u) s = refl
refuse_looked_up-unchanged (failure err) s = elim (Bool-cases (is err err_not_found)) [
  | inl e ↦ rw (refuse_looked_up, e) refl
  | inr e ↦ rw (refuse_looked_up, e) refl
]

module _ {S : Type 0} (o : Outside) (w : Web) (api : Api) (repo : AuthUserRepo S) (req : Request)
    (user : AuthUser) (s : S) where
  -- For the request of a logged-in user that is not an administrator, with the ID of another user in
  -- its path, the handlers that get, update and delete a user answer with 403 and leave the state as
  -- it is, and the handler that logs a user out leaves the state as it is.
  pub http_user-other :
      (id : ℕ) (now later : Time)
      → get_logged_in_user req ≡ done (user, true)
      → require_id_param o.parse_uuid req ≡ done id
      → (id == user.id) ≡ false
      → (user.role == admin) ≡ false
      → (http_get_user o w api repo req s ≡ (done forbidden, s))
        × (http_update_user o w api repo now later req s ≡ (done forbidden, s))
        × (http_delete_user o w api repo req s ≡ (done forbidden, s))
        × ((http_delete_login o w api repo now req s).1 ≡ s)
  unfolding http_get_user http_update_user http_delete_user http_delete_login refuse_logout
      get_user_as update_user_as delete_user_as delete_login_as
  http_user-other id now later u i other common = (
    rw (http_get_user, i, u, get_user_as, other, common) refl,
    rw (http_update_user, i, u, update_user_as, other, common) refl,
    rw (http_delete_user, i, u, delete_user_as, other, common) refl,
    rw (http_delete_login, i, u, delete_login_as, other, common, refuse_logout)
        (refuse_looked_up-unchanged (get_user o repo (w.uuid_string id) s) s),
  )

  -- For requests of a user that is not an administrator the handlers that list all users and create
  -- a user, with any request, and the handler that replaces a user, with a request that has an ID in
  -- its path, answer with 403 and leave the state as it is.
  pub http_user-common :
      (get_all : S → Result (List AuthUser)) (new_id : Option ℕ) (id : ℕ) (now later : Time)
      (logged_in : Bool) (put_req : Request)
      → get_logged_in_user req ≡ done (user, logged_in)
      → get_logged_in_user put_req ≡ done (user, logged_in)
      → require_id_param o.parse_uuid put_req ≡ done id
      → (user.role == admin) ≡ false
      → (http_get_all_users o w api repo get_all req s ≡ (done forbidden, s))
        × (http_create_user o w api repo new_id now req s ≡ (done forbidden, s))
        × (http_replace_user o w api repo new_id now later put_req s ≡ (done forbidden, s))
  unfolding http_get_all_users http_create_user http_replace_user
  http_user-common get_all new_id id now later logged_in put_req u v i common = (
    rw (http_get_all_users, u, common) refl,
    rw (http_create_user, u, common) refl,
    rw (http_replace_user, i, v, common) refl,
  )
