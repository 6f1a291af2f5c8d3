-- ===== src/Auth/Inmem.antt =====
-- AuthUserRepo of internal/authuserdao/inmem/users.go. A Go map is the function that looks keys up.
-- GetAll, which iterates over the map and sorts, is left out.
pub mod Index
pub mod Calls
pub mod Removal
use jelly.Base.{
  ℕ, ◌≡◌, ◌∷◌, [], Option, none, some, Bool, true, false, not, Bytes, bytes, bytes_eq,
  if◌then◌else◌, ◌==◌,
}
use jelly.Time.{Time, zero_time}
use jelly.Auth.Errors.{
  Error, sentinel, foreign, err_db_not_found, err_db_constraint_violation, new_error, more_causes,
  no_causes,
}
use jelly.Auth.User.{AuthUser, User, auth_user, new_user, Result, success, failure, AuthUserRepo}

pub record UserMaps : Type 0 where
  pub users : ℕ → Option User
  pub by_username_index : Bytes → Option ℕ

-- `NewAuthUserRepository`
abbrev pub new_maps : UserMaps
new_maps = record { users = λ id. none; by_username_index = λ name. none }

unfoldable pub set_user : ℕ → Option User → (ℕ → Option User) → ℕ → Option User
set_user id user users k = if k == id then user else users k

unfoldable pub set_name : Bytes → Option ℕ → (Bytes → Option ℕ) → Bytes → Option ℕ
set_name name id index k = if bytes_eq k name then id else index k

abbrev is_some : {A : Type 0} → Option A → Bool
is_some none = false
is_some (some a) = true

-- The zero User, which a map gives for a key that it does not have.
abbrev zero_user : User
zero_user = record {
  id = 0;
  username = [];
  password = [];
  email = none;
  role = 0;
  created = zero_time;
  modified = zero_time;
  last_logout = zero_time;
  last_login = zero_time;
}

abbrev or_zero : Option User → User
or_zero none = zero_user
or_zero (some user) = user

module _ (parse_address : Bytes → Option Bytes) where
  unfoldable pub create : Option ℕ → Time → AuthUser → UserMaps → Result AuthUser × UserMaps
  unfolding set_user set_name
  create none now u maps = (failure (foreign (bytes "could not generate ID")), maps)
  create (some new_uuid) now u maps =
      let user = record (new_user parse_address u) { id = new_uuid } in
      if is_some (maps.by_username_index user.username)
      then (failure (sentinel err_db_constraint_violation), maps)
      else (let stamped = record user { last_logout = now; created = now; modified = now } in
          (
            success (auth_user stamped),
            record {
              users = set_user stamped.id (some stamped) maps.users;
              by_username_index =
                  set_name stamped.username (some stamped.id) maps.by_username_index;
            },
          ))

  -- The conflicts that Update looks for: of the name if that changes, or else of the ID.
  unfoldable pub conflicts : ℕ → User → User → UserMaps → Bool
  conflicts id user existing maps =
      if not (bytes_eq user.username existing.username)
      then is_some (maps.by_username_index user.username)
      else if not (user.id == id)
      then is_some (maps.users user.id)
      else false

  -- The part of Update that changes the maps.
  unfoldable pub replaced : ℕ → User → UserMaps → UserMaps
  unfolding set_user set_name
  replaced id user maps =
      let users = set_user user.id (some user) maps.users in
      record {
        users = if not (user.id == id) then set_user id none users else users;
        by_username_index = set_name user.username (some user.id) maps.by_username_index;
      }

  unfoldable pub update : Time → ℕ → AuthUser → UserMaps → Result AuthUser × UserMaps
  unfolding conflicts replaced
  update now id u maps = elim (maps.users id) [
    | none ↦ (failure (sentinel err_db_not_found), maps)
    | some existing ↦
        let user = new_user parse_address u in
        if conflicts id user existing maps
        then (failure (sentinel err_db_constraint_violation), maps)
        else (let stamped = record user { modified = now } in
            (success (auth_user stamped), replaced id stamped maps))
  ]

unfoldable pub get : ℕ → UserMaps → Result AuthUser
get id maps = elim (maps.users id) [
  | none ↦ failure (sentinel err_db_not_found)
  | some user ↦ success (auth_user user)
]

unfoldable pub get_by_username : Bytes → UserMaps → Result AuthUser
get_by_username username maps = elim (maps.by_username_index username) [
  | none ↦ failure (sentinel err_db_not_found)
  | some user_id ↦ success (auth_user (or_zero (maps.users user_id)))
]

unfoldable pub delete : ℕ → UserMaps → Result AuthUser × UserMaps
unfolding set_user set_name
delete id maps = elim (maps.users id) [
  | none ↦ (failure (sentinel err_db_not_found), maps)
  | some user ↦ (
    success (auth_user user),
    record {
      users = set_user user.id none maps.users;
      by_username_index = set_name user.username none maps.by_username_index;
    },
  )
]

-- The repository as the services use it.
abbrev pub inmem_repo : (Bytes → Option Bytes) → AuthUserRepo UserMaps
inmem_repo parse_address = record {
  create = create parse_address;
  get = get;
  update = update parse_address;
  delete = delete;
  get_by_username = get_by_username;
}
