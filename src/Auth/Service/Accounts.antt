-- ===== src/Auth/Service/Accounts.antt =====
-- What the login service does over any repository, and over the one in memory.
use jelly.Base.{
  ℕ, ◌≡◌, refl, ap, ◌∙◌, [], ◌∷◌, Option, none, some, Bool, true, false, Bytes, bytes_eq,
  bytes_eq_refl, if◌then◌else◌, ◌⊎◌, inl, inr, panics, ◌==◌, arith,
}
use jelly.Time.{Time}
use jelly.Auth.Errors.{
  Error, sentinel, err_bad_argument, err_bad_credentials, err_db_not_found, is, error_text,
}
use jelly.Auth.User.{AuthUser, User, auth_user, Result, success, failure, AuthUserRepo}
use jelly.Auth.Inmem.{UserMaps, inmem_repo, get_by_username}
use jelly.Auth.Inmem.Index.{put, set_user-same, set_name-same, set_name-other}
use jelly.Auth.Inmem.Calls.{
  created_user, updated_user, create-put, update-put, not-conflicts-same_name, get_by_username-some,
}
use jelly.Auth.Service.{
  Outside, Compared, hashed, matching, mismatched, not_compared, login, verify,
}
use jelly.Auth.Service.Users.{create_user, create_checked, update_user, hash_user_pass, fresh_user}

-- CreateUser and UpdateUser with a blank name change nothing and return an error that matches
-- ErrBadArgument, whose method Error panics: its first cause is nil.
pub blank_username-panics :
    {S : Type 0} (o : Outside) (repo : AuthUserRepo S) (new_id : Option ℕ) (now : Time)
    (password cur_id id email : Bytes) (role : ℕ) (s : S)
    → (err : Error) × (create_user o repo new_id now [] password email role s ≡ (failure err, s))
      × (update_user o repo now cur_id id [] email role s ≡ (failure err, s))
      × (is err err_bad_argument ≡ true)
      × (error_text err ≡ panics)
unfolding create_user update_user is error_text
blank_username-panics o repo new_id now password cur_id id email role s =
    (_, refl, refl, refl, refl)

pub get_by_username-none :
    (name : Bytes) (maps : UserMaps)
    → maps.by_username_index name ≡ none
    → get_by_username name maps ≡ failure (sentinel err_db_not_found)
unfolding get_by_username
get_by_username-none name maps e = rw (get_by_username, e) refl

module _ (o : Outside) (parse_address : Bytes → Option Bytes) (hash : Bytes) where
  abbrev pub repo : AuthUserRepo UserMaps
  repo = inmem_repo parse_address

  -- What CreateUser gives to the repository.
  abbrev pub account : Bytes → ℕ → AuthUser
  account name r = fresh_user o repo name (o.encode hash) [] r

  pub create_user-put :
      (n : ℕ) (now : Time) (c d : ℕ) (name pass : Bytes) (r : ℕ) (maps : UserMaps)
      → maps.by_username_index (c ∷ name) ≡ none
      → o.hash_password (d ∷ pass) ≡ hashed hash
      → create_user o repo (some n) now (c ∷ name) (d ∷ pass) [] r maps ≡ (
        success (auth_user (created_user parse_address now (account (c ∷ name) r) maps n)),
        put (created_user parse_address now (account (c ∷ name) r) maps n) maps,
      )
  unfolding create_user create_checked hash_user_pass is
  create_user-put n now c d name pass r maps e h =
      rw
        (
          create_user,
          create_checked,
          get_by_username-none (c ∷ name) maps e,
          hash_user_pass,
          h,
          create-put parse_address now (account (c ∷ name) r) maps n e,
        )
        refl

  pub login-put :
      (now : Time) (user : User) (password : Bytes) (maps : UserMaps)
      → o.decode user.password ≡ success hash
      → o.compare_password hash password ≡ matching
      → login o repo now user.username password (put user maps) ≡ (
        success (
            auth_user
              (updated_user parse_address now (record (auth_user user) { last_login = now }) maps)),
        put
            (updated_user parse_address now (record (auth_user user) { last_login = now }) maps)
            (put user maps),
      )
  unfolding login verify
  login-put now user password maps d c =
      let at_id = set_user-same user.id (some user) maps.users in
      let at_name = set_name-same user.username (some user.id) maps.by_username_index in
      let found = get_by_username-some user.username user.id (put user maps) user at_name at_id in
      let again = record (auth_user user) { last_login = now } in
      let same_id : (user.id == user.id) ≡ true = ground arith in
      let step = update-put parse_address now again (put user maps) user.id user at_id same_id (
        not-conflicts-same_name parse_address now again (put user maps) user.id user same_id
          (bytes_eq_refl user.username)) in
      rw (login, found, verify, d, c, step) refl

-- In the repository in memory, CreateUser with a name that is not in use, a password that bcrypt
-- can hash and no email address, followed by Login with that name and password, logs in the new
-- user at the time of the login, if the hash is decoded as it was encoded and matches the password.
pub login-create_user :
    (o : Outside) (parse_address : Bytes → Option Bytes) (hash : Bytes) (n : ℕ) (now later : Time)
    (c d : ℕ) (name pass : Bytes) (role : ℕ) (maps : UserMaps)
    → maps.by_username_index (c ∷ name) ≡ none
    → o.hash_password (d ∷ pass) ≡ hashed hash
    → o.decode (o.encode hash) ≡ success hash
    → o.compare_password hash (d ∷ pass) ≡ matching
    → (user : AuthUser) × (s : UserMaps) × (login o
          (inmem_repo parse_address)
          later
          (c ∷ name)
          (d ∷ pass)
          (create_user o
            (inmem_repo parse_address)
            (some n)
            now
            (c ∷ name)
            (d ∷ pass)
            []
            role
            maps).1
        ≡ (success user, s))
      × (user.id ≡ n)
      × (user.username ≡ c ∷ name)
      × (user.role ≡ role)
      × (user.last_login ≡ later)
login-create_user o parse_address hash n now later c d name pass role maps e h decoded compared =
    let made =
      created_user parse_address now (account o parse_address hash (c ∷ name) role) maps n in
    (
      _,
      _,
      ap
            (λ (r : Result AuthUser × UserMaps).
              login o (inmem_repo parse_address) later (c ∷ name) (d ∷ pass) r.1)
            (create_user-put o parse_address hash n now c d name pass role maps e h)
          ∙ login-put o parse_address hash later made (d ∷ pass) maps decoded compared,
      refl,
      refl,
      refl,
      refl,
    )

-- Whether a call succeeded.
abbrev pub succeeded : Result AuthUser → Bool
succeeded (success user) = true
succeeded (failure err) = false

-- What bcrypt finds of a password.
abbrev pub is_matching : Compared → Bool
is_matching matching = true
is_matching mismatched = false
is_matching (not_compared err) = false

abbrev pub is_mismatched : Compared → Bool
is_mismatched matching = false
is_mismatched mismatched = true
is_mismatched (not_compared err) = false

Compared-cases :
    (c : Compared) → (c ≡ matching) ⊎ ((c ≡ mismatched) ⊎ ((err : Error) × (c ≡ not_compared err)))
Compared-cases matching = inl refl
Compared-cases mismatched = inr (inl refl)
Compared-cases (not_compared err) = inr (inr (err, refl))

-- A login that ends with a result and a state goes by what bcrypt finds of the password.
abbrev pub GoesBy : Compared → Result AuthUser × UserMaps → UserMaps → Type 0
GoesBy c (reply, after) maps =
    (succeeded reply ≡ is_matching c)
    × ((if is_matching c then maps else after) ≡ maps)
    × ((if is_mismatched c then reply else failure (sentinel err_bad_credentials))
        ≡ failure (sentinel err_bad_credentials))

module _ (o : Outside) (parse_address : Bytes → Option Bytes) (hash : Bytes) (now : Time) where
  login-unused :
      (name password : Bytes) (maps : UserMaps)
      → maps.by_username_index name ≡ none
      → login o (inmem_repo parse_address) now name password maps
        ≡ (failure (sentinel err_bad_credentials), maps)
  unfolding login is
  login-unused name password maps e = rw (login, get_by_username-none name maps e) refl

  login-put-GoesBy :
      (user : User) (password : Bytes) (maps : UserMaps)
      → o.decode user.password ≡ success hash
      → GoesBy
          (o.compare_password hash password)
          (login o (inmem_repo parse_address) now user.username password (put user maps))
          (put user maps)
  unfolding login verify
  login-put-GoesBy user password maps d =
      let at_id = set_user-same user.id (some user) maps.users in
      let at_name = set_name-same user.username (some user.id) maps.by_username_index in
      let found = get_by_username-some user.username user.id (put user maps) user at_name at_id in
      elim (Compared-cases (o.compare_password hash password)) [
        | inl c ↦
            rw (c, login-put o parse_address hash now user password maps d c) (refl, refl, refl)
        | inr (inl c) ↦ rw (c, login, found, verify, d, c) (refl, refl, refl)
        | inr (inr (err, c)) ↦ rw (c, login, found, verify, d, c) (refl, refl, refl)
      ]

-- In the repository in memory, let CreateUser be called with a name that is neither blank nor in
-- use, a password that is not blank and that bcrypt can hash, and no email address, where the hash
-- is decoded as it was encoded. It returns a user, and Login with that name and any password then
-- succeeds exactly if bcrypt matches the password to the hash. A Login that fails leaves the users
-- as they are, and ends with ErrBadCredentials if bcrypt finds a mismatch. Login with another name
-- that is not in use ends so too, with any password.
pub login-compare_password :
    (o : Outside) (parse_address : Bytes → Option Bytes) (hash : Bytes) (n : ℕ) (now later : Time)
    (c d : ℕ) (name pass other tried : Bytes) (role : ℕ) (maps : UserMaps)
    → maps.by_username_index (c ∷ name) ≡ none
    → o.hash_password (d ∷ pass) ≡ hashed hash
    → o.decode (o.encode hash) ≡ success hash
    → maps.by_username_index other ≡ none
    → bytes_eq other (c ∷ name) ≡ false
    → (after : UserMaps) × (user : AuthUser) × (create_user o
          (inmem_repo parse_address)
          (some n)
          now
          (c ∷ name)
          (d ∷ pass)
          []
          role
          maps
        ≡ (success user, after))
      × GoesBy
          (o.compare_password hash tried)
          (login o (inmem_repo parse_address) later (c ∷ name) tried after)
          after
      × (login o (inmem_repo parse_address) later other tried after
          ≡ (failure (sentinel err_bad_credentials), after))
login-compare_password o parse_address hash n now later c d name pass other tried role maps e h
      decoded unused differ =
    let made =
      created_user parse_address now (account o parse_address hash (c ∷ name) role) maps n in
    (
      put made maps,
      auth_user made,
      create_user-put o parse_address hash n now c d name pass role maps e h,
      login-put-GoesBy o parse_address hash later made tried maps decoded,
      login-unused o parse_address hash later other tried (put made maps)
          (set_name-other (c ∷ name) (some n) maps.by_username_index other differ ∙ unused),
    )
