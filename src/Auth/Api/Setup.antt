-- ===== src/Auth/Api/Setup.antt =====
-- The rest of the login API of auth/api.go: what Init does with the configured administrator,
-- Authenticators and Shutdown; and parseSetAdmin of auth/config.go.
use jelly.Base.{ℕ, [], ◌∷◌, Option, none, some, not, Bytes, bytes, if◌then◌else◌, ◌==◌, split_2}
use jelly.Time.{Time}
use jelly.Auth.Errors.{Error, foreign, is, err_not_found}
use jelly.Auth.User.{AuthUser, Result, success, failure, AuthUserRepo}
use jelly.Auth.Service.{Outside, get_user_by_username}
use jelly.Auth.Service.Users.{create_user, update_user, update_password}
use jelly.Auth.Api.{Web, Api, admin}
use jelly.Auth.Token.{jwt_auth_provider}
use jelly.Server.Requests.{errorf}
use jelly.Middle.{Authenticator}

abbrev named_parts : Bytes × Option Bytes → Result (Bytes × Bytes)
named_parts (user, none) = failure (foreign (bytes "set_admin: not in USERNAME:PASSWORD format"))
named_parts ([], some pass) = failure (foreign (bytes "set_admin: username cannot be blank"))
named_parts (c ∷ user, some []) = failure (foreign (bytes "set_admin: password cannot be blank"))
named_parts (c ∷ user, some (d ∷ pass)) = success (c ∷ user, d ∷ pass)

-- `parseSetAdmin`
unfoldable pub parse_set_admin : Bytes → Result (Bytes × Bytes)
parse_set_admin s = named_parts (split_2 58 s)

module _ {S : Type 0} (o : Outside) (w : Web) (repo : AuthUserRepo S) where
  -- The error of a step of Init, if there is one, and the state.
  abbrev outcome_of : Bytes → Result AuthUser × S → Option Error × S
  outcome_of msg (success user, s) = (none, s)
  outcome_of msg (failure err, s) = (some (errorf msg err), s)

  abbrev promoted : Time → Result AuthUser × S → Option Error × S
  promoted later (failure err, s) = (some (errorf (bytes "update password for user") err), s)
  promoted later (success user, s) =
      if not (user.role == admin)
      then outcome_of (bytes "update role to admin for user") (
          update_user o repo later (w.uuid_string user.id) (w.uuid_string user.id) user.username
            user.email admin s)
      else (none, s)

  -- The look-up of the administrator's name decides.
  unfoldable pub ensure_admin :
      Option ℕ → (now later : Time) → (username pass : Bytes) → S → Option Error × S
  ensure_admin new_id now later username pass s = elim (get_user_by_username o repo username s) [
    | success existing ↦
        promoted later (update_password o repo now (w.uuid_string existing.id) pass s)
    | failure err ↦
        if not (is err err_not_found)
        then (some (errorf (bytes "retrieve user for admin promotion") err), s)
        else outcome_of (bytes "creating admin user")
            (create_user o repo new_id now username pass [] admin s)
  ]

  abbrev admin_parsed :
      Option ℕ → (now later : Time) → S → Result (Bytes × Bytes) → Option Error × S
  admin_parsed new_id now later s (failure err) = (some (errorf (bytes "set_admin") err), s)
  admin_parsed new_id now later s (success (username, pass)) =
      ensure_admin new_id now later username pass s

  -- The end of Init: what it does with the value of the key set_admin. The names of users that
  -- messages quote are left out of these.
  unfoldable pub init_admin : Option ℕ → (now later : Time) → Bytes → S → Option Error × S
  unfolding ensure_admin parse_set_admin
  init_admin new_id now later [] s = (none, s)
  init_admin new_id now later (c ∷ set_admin) s =
      admin_parsed new_id now later s (parse_set_admin (c ∷ set_admin))

  -- `Authenticators`: the one called "jwt", at a time
  unfoldable pub authenticators : Api → ℕ → Time → Bytes × Authenticator S
  authenticators api delay now =
      (bytes "jwt", jwt_auth_provider w.jwt o.parse_uuid repo api.secret delay now)

-- `Shutdown` returns the error of the context.
unfoldable pub shutdown : Option Error → Option Error
shutdown ctx_err = ctx_err
