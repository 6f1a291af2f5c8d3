-- ===== src/Auth/Api/Accounts.antt =====
-- What the API of auth/api.go does to the accounts of the repository in memory.
use jelly.Base.{
  ℕ, ◌≡◌, refl, [], ◌∷◌, ◌++◌, Option, none, some, Bool, true, Bytes, bytes_eq, done, ◌==◌,
}
use jelly.Base.Splits.{lacks, split_2_append}
use jelly.Time.{Time}
use jelly.Auth.Errors.{is}
use jelly.Auth.User.{AuthUser, User, auth_user, success}
use jelly.Auth.Inmem.{UserMaps, inmem_repo}
use jelly.Auth.Inmem.Index.{put}
use jelly.Auth.Inmem.Calls.{created_user, updated_user}
use jelly.Auth.Service.{Outside, hashed, matching, login, get_user_by_username}
use jelly.Auth.Service.Users.{create_user}
use jelly.Auth.Service.Accounts.{
  account, create_user-put, login-put, login-create_user, get_by_username-none,
}
use jelly.Auth.Token.{generate_token}
use jelly.Auth.Api.{UserModel, login_reply, Web, Api, admin}
use jelly.Auth.Api.Users.{http_create_user, create_from_model, requested_role}
use jelly.Auth.Api.Logins.{http_create_login, create_login_with, answer_with_token}
use jelly.Auth.Api.Setup.{parse_set_admin, init_admin, ensure_admin}
use jelly.Middle.{get_logged_in_user}
use jelly.Server.Requests.{Request, parse_json_request}
use jelly.Server.Responses.{created}

parse_set_admin-joined :
    (c d : ℕ) (name pass : Bytes)
    → lacks 58 (c ∷ name) ≡ true
    → parse_set_admin ((c ∷ name) ++ 58 ∷ d ∷ pass) ≡ success (c ∷ name, d ∷ pass)
unfolding parse_set_admin
parse_set_admin-joined c d name pass e =
    rw (parse_set_admin, split_2_append 58 (c ∷ name) (d ∷ pass) e) refl

module _ (o : Outside) (w : Web) (api : Api) (parse_address : Bytes → Option Bytes)
    (hash : Bytes) where
  -- What CreateUser keeps.
  abbrev pub made_user : ℕ → Time → Bytes → ℕ → UserMaps → User
  made_user n now name role maps =
      created_user parse_address now (account o parse_address hash name role) maps n

  init_admin-create_user :
      (n : ℕ) (now later : Time) (c d : ℕ) (name pass : Bytes) (maps : UserMaps)
      → lacks 58 (c ∷ name) ≡ true
      → maps.by_username_index (c ∷ name) ≡ none
      → o.hash_password (d ∷ pass) ≡ hashed hash
      → init_admin o w
          (inmem_repo parse_address)
          (some n)
          now
          later
          ((c ∷ name) ++ 58 ∷ d ∷ pass)
          maps
        ≡ (
          none,
          (create_user o
              (inmem_repo parse_address)
              (some n)
              now
              (c ∷ name)
              (d ∷ pass)
              []
              admin
              maps).1,
        )
  unfolding init_admin ensure_admin get_user_by_username is
  init_admin-create_user n now later c d name pass maps no_colon free h =
      let step = create_user-put o parse_address hash n now c d name pass admin maps free h in
      rw
        (
          init_admin,
          parse_set_admin-joined c d name pass no_colon,
          ensure_admin,
          get_user_by_username,
          get_by_username-none (c ∷ name) maps free,
          step,
        )
        refl

  -- When Init of the API is configured with a name without a colon, a colon and a password, and the
  -- name is not in use in the repository in memory, it returns no error, and Login with the name and
  -- the password then gives that user as an administrator, if bcrypt can hash the password and the
  -- hash is decoded as it was encoded and matches the password.
  pub login-init_admin :
      (n : ℕ) (now later last : Time) (c d : ℕ) (name pass : Bytes) (maps : UserMaps)
      → lacks 58 (c ∷ name) ≡ true
      → maps.by_username_index (c ∷ name) ≡ none
      → o.hash_password (d ∷ pass) ≡ hashed hash
      → o.decode (o.encode hash) ≡ success hash
      → o.compare_password hash (d ∷ pass) ≡ matching
      → ((init_admin o w
            (inmem_repo parse_address)
            (some n)
            now
            later
            ((c ∷ name) ++ 58 ∷ d ∷ pass)
            maps).0
          ≡ none)
        × ((user : AuthUser) × (s : UserMaps) × (login o
                (inmem_repo parse_address)
                last
                (c ∷ name)
                (d ∷ pass)
                (init_admin o w
                  (inmem_repo parse_address)
                  (some n)
                  now
                  later
                  ((c ∷ name) ++ 58 ∷ d ∷ pass)
                  maps).1
              ≡ (success user, s))
            × (user.username ≡ c ∷ name)
            × (user.role ≡ admin))
  login-init_admin n now later last c d name pass maps no_colon free h decoded compared =
      let step = init_admin-create_user n now later c d name pass maps no_colon free h in
      let after =
        login-create_user o parse_address hash n now last c d name pass admin maps free h decoded
          compared in
      (rw step refl, (after.0, after.1, rw step after.2, after.4, after.5))

  module _ (m : UserModel) (role c d : ℕ) (name pass : Bytes) (maps : UserMaps)
      (named : m.username ≡ c ∷ name) (locked : m.password ≡ d ∷ pass) (no_email : m.email ≡ [])
      (asked : requested_role m.role ≡ success role)
      (free : maps.by_username_index (c ∷ name) ≡ none)
      (h : o.hash_password (d ∷ pass) ≡ hashed hash) where
    create_from_model-put :
        (n : ℕ) (now : Time)
        → (create_from_model o w api (inmem_repo parse_address) (some n) now m maps).1
          ≡ put (made_user n now (c ∷ name) role maps) maps
    unfolding create_from_model bytes_eq
    create_from_model-put n now =
        rw
          (
            create_from_model,
            named,
            locked,
            no_email,
            asked,
            create_user-put o parse_address hash n now c d name pass role maps free h,
          )
          refl

    -- An administrator creates a user with a name that is not in use in the repository in memory, a
    -- password, and no email address: a request to log in with that name and password is then
    -- answered with 201, a token and the ID of the new user, if bcrypt can hash the password, the
    -- hash is decoded as it was encoded and matches the password, and a token can be signed.
    pub http_create_login-http_create_user :
        (n : ℕ) (now later : Time) (req login_req : Request) (user : AuthUser) (logged_in : Bool)
        (sign : (u : AuthUser)
          → (tok : Bytes) × (generate_token w.jwt w.uuid_string later api.secret u ≡ success tok))
        → get_logged_in_user req ≡ done (user, logged_in)
        → (user.role == admin) ≡ true
        → parse_json_request w.unmarshal_user req ≡ success m
        → parse_json_request w.unmarshal_login login_req
          ≡ success (record { username = c ∷ name; password = d ∷ pass })
        → o.decode (o.encode hash) ≡ success hash
        → o.compare_password hash (d ∷ pass) ≡ matching
        → (tok : Bytes) × (s : UserMaps) × (http_create_login o w api
              (inmem_repo parse_address)
              later
              login_req
              (http_create_user o w api (inmem_repo parse_address) (some n) now req maps).1
            ≡ (done (created (login_reply (record { token = tok; user_id = w.uuid_string n }))), s))
    unfolding http_create_user http_create_login create_login_with answer_with_token bytes_eq
    http_create_login-http_create_user n now later req login_req user logged_in sign known boss sent
          sent_login decoded compared =
        let made = made_user n now (c ∷ name) role maps in
        let again = record (auth_user made) { last_login = later } in
        let kept = updated_user parse_address later again maps in
        let signed = sign (auth_user kept) in
        let logged = login-put o parse_address hash later made (d ∷ pass) maps decoded compared in
        (
          signed.0,
          put kept (put made maps),
          rw
              (
                http_create_user,
                known,
                boss,
                sent,
                create_from_model-put n now,
                http_create_login,
                sent_login,
                create_login_with,
                logged,
                answer_with_token,
                signed.1,
              )
              refl,
        )
