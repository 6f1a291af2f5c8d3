-- ===== src/Auth/Api.antt =====
-- What the handlers of auth/api.go share: the models of auth/auth.go, the roles of login.go, and how
-- a handler ends.
pub mod Logins
pub mod Users
pub mod Changes
pub mod Setup
pub mod Guards
pub mod Refusals
pub mod Accounts
pub mod Replacing
pub mod Samples
pub mod Tests
use Prim.Native.Nat.{◌%◌}
use jelly.Base.{
  ℕ, List, [], ◌∷◌, ◌++◌, Option, none, some, Bool, true, false, not, ◌&&◌, Bytes, bytes, bytes_eq,
  Run, done, panics, starved, ◌>>=◌, if◌then◌else◌, ◌==◌, to_lower,
}
use jelly.Time.{Time}
use jelly.Auth.Errors.{Error, foreign, error_text}
use jelly.Auth.User.{AuthUser, Result, success, failure}
use jelly.Auth.Token.{Jwt, signed_decimal}
use jelly.Server.Responses.{HttpResult, bad_request, internal_server_error}

-- The roles, an int64 each.
abbrev pub guest : ℕ
guest = 0

abbrev pub unverified : ℕ
unverified = 1

abbrev pub normal : ℕ
normal = 2

abbrev pub admin : ℕ
admin = 100

-- `Role.String`
unfoldable pub role_string : ℕ → Bytes
unfolding signed_decimal
role_string r =
    if r == guest
    then bytes "guest"
    else if r == unverified
    then bytes "unverified"
    else if r == normal
    then bytes "normal"
    else if r == admin
    then bytes "admin"
    else bytes "Role(" ++ (signed_decimal r ++ bytes ")")

-- `ParseRole`
unfoldable pub parse_role : Bytes → Result ℕ
parse_role s =
    let check = to_lower s in
    if bytes_eq check (bytes "guest")
    then success guest
    else if bytes_eq check (bytes "unverified")
    then success unverified
    else if bytes_eq check (bytes "normal")
    then success normal
    else if bytes_eq check (bytes "admin")
    then success admin
    else failure (foreign (bytes "must be one of 'guest', 'unverified', 'normal', or 'admin'"))

pub record LoginRequest : Type 0 where
  pub username : Bytes
  pub password : Bytes

pub record LoginResponse : Type 0 where
  pub token : Bytes
  pub user_id : Bytes

pub record UserModel : Type 0 where
  pub uri : Bytes
  pub id : Bytes
  pub username : Bytes
  pub password : Bytes
  pub email : Bytes
  pub role : Bytes
  pub created : Bytes
  pub modified : Bytes
  pub last_logout_time : Bytes
  pub last_login_time : Bytes

-- A field of a userUpdateRequest.
pub record UpdateField : Type 0 where
  pub update : Bool
  pub value : Bytes

pub record UserUpdateRequest : Type 0 where
  pub id : UpdateField
  pub username : UpdateField
  pub password : UpdateField
  pub email : UpdateField
  pub role : UpdateField

-- What the API answers with, beside errors. An infoModel is its version.
pub data Reply : Type 0 where
  login_reply : LoginResponse → Reply
  user_reply : UserModel → Reply
  users_reply : List UserModel → Reply
  info_reply : Bytes → Reply

-- What the handlers call of other packages: the text of a UUID, time.Format for RFC 3339, JSON for
-- the types of requests, and JWT.
pub record Web : Type 0 where
  pub uuid_string : ℕ → Bytes
  pub format_time : Time → Bytes
  pub unmarshal_login : Bytes → Result LoginRequest
  pub unmarshal_user : Bytes → Result UserModel
  pub unmarshal_update : Bytes → Result UserUpdateRequest
  pub jwt : Jwt

-- The fields of a loginAPI that handlers read.
pub record Api : Type 0 where
  pub secret : Bytes
  pub path_prefix : Bytes

-- The model of a user in a response.
unfoldable pub user_model : Web → Api → AuthUser → UserModel
unfolding role_string
user_model w api u = record {
  uri = api.path_prefix ++ (bytes "/users/" ++ w.uuid_string u.id);
  id = w.uuid_string u.id;
  username = u.username;
  password = [];
  email = u.email;
  role = role_string u.role;
  created = w.format_time u.created;
  modified = w.format_time u.modified;
  last_logout_time = w.format_time u.last_logout;
  last_login_time = w.format_time u.last_login;
}

-- What a handler returns, and the state after it, also if it panics.
abbrev pub Handled : Type 0 → Type 0
Handled S = Run (HttpResult Reply) × S

module _ {S : Type 0} where
  -- Goes on with a value, in the same state.
  abbrev pub with_value : {A : Type 0} → Run A → S → (A → Handled S) → Handled S
  with_value (done a) s f = f a
  with_value panics s f = (panics, s)
  with_value starved s f = (starved, s)

  -- Goes on after a call that may fail.
  abbrev pub after_call :
      {A : Type 0} → Result A × S → (Error → S → Handled S) → (A → S → Handled S) → Handled S
  after_call (success a, s) on_error f = f a s
  after_call (failure err, s) on_error f = on_error err s

  -- A check of a value, with its error.
  abbrev pub after_check :
      {A : Type 0} → Result A → S → (Error → S → Handled S) → (A → Handled S) → Handled S
  after_check (success a) s on_error f = f a
  after_check (failure err) s on_error f = on_error err s

  -- `em.InternalServerError` with a message that prints the error
  unfoldable pub internal_error : Error → S → Handled S
  internal_error err s = (error_text err >>= λ msg. done internal_server_error, s)

  -- `em.BadRequest(err.Error(), err.Error())`
  unfoldable pub bad_request_error : Error → S → Handled S
  bad_request_error err s = (error_text err >>= λ msg. done (bad_request msg), s)

-- `id != user.ID && user.Role != jelly.Admin`
abbrev pub acts_on_other : ℕ → AuthUser → Bool
acts_on_other id user = not (id == user.id) && not (user.role == admin)
