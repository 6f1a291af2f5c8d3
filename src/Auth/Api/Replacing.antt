-- ===== src/Auth/Api/Replacing.antt =====
-- What PUT of a user does to the accounts of the repository in memory.
use jelly.Base.{
  ℕ, ◌≡◌, refl, ◌∙◌, [], ◌∷◌, Option, none, some, Bool, true, false, Bytes, bytes, bytes_eq,
  bytes_eq_refl, done, ◌==◌,
}
use jelly.Time.{Time}
use jelly.Auth.Errors.{is}
use jelly.Auth.User.{AuthUser, User, auth_user, success}
use jelly.Auth.Inmem.{UserMaps, inmem_repo, get}
use jelly.Auth.Inmem.Index.{put, set_user-same, set_user-other}
use jelly.Auth.Inmem.Calls.{get-some}
use jelly.Auth.Service.{Outside, hashed}
use jelly.Auth.Service.Users.{update_user, update_found}
use jelly.Auth.Service.Accounts.{create_user-put}
use jelly.Auth.Api.{UserModel, Web, Api, admin}
use jelly.Auth.Api.Users.{requested_role, create_error}
use jelly.Auth.Api.Changes.{http_replace_user, replace_from_model, create_with_id}
use jelly.Middle.{get_logged_in_user}
use jelly.Server.Requests.{Request, parse_json_request, require_id_param}
use jelly.Server.Responses.{conflict}
use jelly.Auth.Api.Accounts.{made_user}

module _ (o : Outside) (w : Web) (api : Api) (parse_address : Bytes → Option Bytes) (hash : Bytes)
    (m : UserModel) (role c d : ℕ) (name pass : Bytes) (maps : UserMaps)
    (named : m.username ≡ c ∷ name) (locked : m.password ≡ d ∷ pass) (no_email : m.email ≡ [])
    (asked : requested_role m.role ≡ success role) (free : maps.by_username_index (c ∷ name) ≡ none)
    (h : o.hash_password (d ∷ pass) ≡ hashed hash) where
  create_with_id-existing :
      (n id : ℕ) (now later : Time) (other : User)
      → maps.users id ≡ some other
      → (id == n) ≡ false
      → o.parse_uuid (w.uuid_string n) ≡ some n
      → o.parse_uuid (w.uuid_string id) ≡ some id
      → bytes_eq (w.uuid_string n) (w.uuid_string id) ≡ false
      → create_with_id o w api
          (inmem_repo parse_address)
          (some n)
          now
          later
          (w.uuid_string id)
          m
          role
          maps
        ≡ (
          done (conflict (bytes "User with that username already exists")),
          put (made_user o w api parse_address hash n now (c ∷ name) role maps) maps,
        )
  unfolding create_with_id update_user update_found create_error is
  create_with_id-existing n id now later other taken differ parsed_n parsed_id texts =
      let made = made_user o w api parse_address hash n now (c ∷ name) role maps in
      let at_n = get-some n (put made maps) made (set_user-same n (some made) maps.users) in
      let at_id =
        get-some id (put made maps) other
          (set_user-other n (some made) maps.users id differ ∙ taken) in
      rw
        (
          create_with_id,
          named,
          locked,
          no_email,
          create_user-put o parse_address hash n now c d name pass role maps free h,
          update_user,
          parsed_n,
          parsed_id,
          at_n,
          update_found,
          texts,
          at_id,
        )
        refl

  replace_from_model-create_with_id :
      (n id : ℕ) (now later : Time)
      → m.id ≡ []
      → replace_from_model o w api (inmem_repo parse_address) (some n) now later id m maps
        ≡ create_with_id o w api
            (inmem_repo parse_address)
            (some n)
            now
            later
            (w.uuid_string id)
            m
            role
            maps
  unfolding replace_from_model create_with_id bytes_eq
  replace_from_model-create_with_id n id now later no_id =
      let same : bytes_eq (w.uuid_string id) (w.uuid_string id) ≡ true =
        bytes_eq_refl (w.uuid_string id) in
      rw (replace_from_model, create_with_id, no_id, named, locked, same, asked) refl

  -- An administrator replaces a user who exists in the repository in memory, by a request without
  -- an ID in its body, with a name that is neither blank nor in use, a password that is not blank
  -- and that bcrypt can hash, a role that is accepted, and no email address: the answer is 409, the
  -- user is as before, and a further user, with the new name and the new ID, is left behind. The
  -- new ID is another one, and both are parsed from their texts, which differ.
  pub http_replace_user-existing :
      (n id : ℕ) (now later : Time) (other : User) (req : Request) (user : AuthUser)
      (logged_in : Bool)
      → get_logged_in_user req ≡ done (user, logged_in)
      → (user.role == admin) ≡ true
      → require_id_param o.parse_uuid req ≡ done id
      → parse_json_request w.unmarshal_user req ≡ success m
      → m.id ≡ []
      → maps.users id ≡ some other
      → (id == n) ≡ false
      → o.parse_uuid (w.uuid_string n) ≡ some n
      → o.parse_uuid (w.uuid_string id) ≡ some id
      → bytes_eq (w.uuid_string n) (w.uuid_string id) ≡ false
      → (end : UserMaps) × (http_replace_user o w api
            (inmem_repo parse_address)
            (some n)
            now
            later
            req
            maps
          ≡ (done (conflict (bytes "User with that username already exists")), end))
        × (get id end ≡ success (auth_user other))
        × (get n end
            ≡ success (auth_user (made_user o w api parse_address hash n now (c ∷ name) role maps)))
  unfolding http_replace_user
  http_replace_user-existing n id now later other req user logged_in known boss at sent no_id taken
        differ parsed_n parsed_id texts =
      let made = made_user o w api parse_address hash n now (c ∷ name) role maps in
      (
        put made maps,
        rw
            (
              http_replace_user,
              at,
              known,
              boss,
              sent,
              replace_from_model-create_with_id n id now later no_id,
              create_with_id-existing n id now later other taken differ parsed_n parsed_id texts,
            )
            refl,
        get-some id (put made maps) other
            (set_user-other n (some made) maps.users id differ ∙ taken),
        get-some n (put made maps) made (set_user-same n (some made) maps.users),
      )
