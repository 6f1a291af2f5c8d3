-- ===== src/Auth/Tests.antt =====
-- The theorems about users and logins at concrete inputs.
use jelly.Base.{
  ℕ, ◌≡◌, refl, [], Option, none, some, true, Bytes, bytes, panics, if◌then◌else◌, bytes_eq,
}
use jelly.Time.{Time, utc_zone}
use jelly.Auth.Errors.{
  Error, sentinel, err_db_not_found, err_bad_argument, err_bad_credentials, is, error_text,
}
use jelly.Auth.User.{AuthUser, User, auth_user, success, failure}
use jelly.Auth.Inmem.{
  delete, UserMaps, new_maps, inmem_repo, create, update, get, get_by_username, set_user, set_name,
}
use jelly.Auth.Inmem.Index.{IsIndexed, put, put-IsIndexed}
use jelly.Auth.Inmem.Removal.{delete-IsIndexed}
use jelly.Auth.Inmem.Calls.{create-IsIndexed, update-IsIndexed, get_by_username-update}
use jelly.Auth.Service.{Outside, hashed, matching, mismatched, login}
use jelly.Auth.Service.Users.{create_user, update_user}
use jelly.Auth.Service.Accounts.{
  GoesBy, blank_username-panics, login-compare_password, login-create_user,
}

abbrev at : ℕ → Time
at n = record { instant = n; monotonic = none; zone = utc_zone }

-- The packages outside, with a hash that is the password.
abbrev outside : Outside
outside = record {
  parse_uuid = λ s. some 5;
  parse_address = λ s. success s;
  decode = λ s. success s;
  encode = λ s. s;
  compare_password = λ hash password. if bytes_eq hash password then matching else mismatched;
  hash_password = λ password. hashed password;
  error_code_string = λ code. [];
}

abbrev no_address : Bytes → Option Bytes
no_address s = none

abbrev ann : User
ann = record {
  id = 5;
  username = bytes "ann";
  password = bytes "pw";
  email = none;
  role = 2;
  created = at 1;
  modified = at 1;
  last_logout = at 1;
  last_login = at 0;
}

abbrev renamed : AuthUser
renamed = record (auth_user ann) { username = bytes "bea" }

new_maps-IsIndexed : IsIndexed new_maps
new_maps-IsIndexed = record { kept = λ id u e. cc; indexed = λ id u e. cc; named = λ name id e. cc }

with_ann : UserMaps
with_ann = put ann new_maps

with_ann-IsIndexed : IsIndexed with_ann
unfolding with_ann
with_ann-IsIndexed = put-IsIndexed ann new_maps new_maps-IsIndexed (λ v e. cc) (λ k e. cc)

create-IsIndexed_example :
    IsIndexed (create no_address (some 6) (at 2) (auth_user ann) with_ann).1
    × (get 6 (create no_address (some 6) (at 2) renamed with_ann).1
        ≡ (create no_address (some 6) (at 2) renamed with_ann).0)
    × (get_by_username (bytes "bea") (create no_address (some 6) (at 2) renamed with_ann).1
        ≡ (create no_address (some 6) (at 2) renamed with_ann).0)
unfolding with_ann set_user set_name bytes_eq
create-IsIndexed_example =
    create-IsIndexed no_address (at 2) (auth_user ann) renamed 6 with_ann with_ann-IsIndexed refl
      refl

update-IsIndexed_example : IsIndexed (update no_address (at 2) 5 (auth_user ann) with_ann).1
unfolding with_ann set_user
update-IsIndexed_example =
    update-IsIndexed no_address (at 2) (auth_user ann) ann with_ann with_ann-IsIndexed refl refl

get_by_username-update_example :
    (get_by_username (bytes "bea") (update no_address (at 2) 5 renamed with_ann).1
      ≡ (update no_address (at 2) 5 renamed with_ann).0)
    × (get_by_username (bytes "ann") (update no_address (at 2) 5 renamed with_ann).1
        ≡ (update no_address (at 2) 5 renamed with_ann).0)
unfolding with_ann set_user set_name bytes_eq
get_by_username-update_example =
    get_by_username-update no_address (at 2) renamed ann with_ann with_ann-IsIndexed refl refl refl

blank_username-panics_example :
    (err : Error) × (create_user outside
        (inmem_repo no_address)
        (some 6)
        (at 2)
        []
        (bytes "pw")
        []
        2
        with_ann
      ≡ (failure err, with_ann))
    × (update_user outside (inmem_repo no_address) (at 2) (bytes "5") (bytes "5") [] [] 2 with_ann
        ≡ (failure err, with_ann))
    × (is err err_bad_argument ≡ true)
    × (error_text err ≡ panics)
blank_username-panics_example =
    blank_username-panics outside (inmem_repo no_address) (some 6) (at 2) (bytes "pw") (bytes "5")
      (bytes "5") [] 2 with_ann

login-compare_password_example :
    (after : UserMaps) × (user : AuthUser) × (create_user outside
        (inmem_repo no_address)
        (some 6)
        (at 3)
        (bytes "bea")
        (bytes "hi")
        []
        2
        with_ann
      ≡ (success user, after))
    × GoesBy
        (outside.compare_password (bytes "hi") (bytes "ho"))
        (login outside (inmem_repo no_address) (at 4) (bytes "bea") (bytes "ho") after)
        after
    × (login outside (inmem_repo no_address) (at 4) (bytes "bob") (bytes "ho") after
        ≡ (failure (sentinel err_bad_credentials), after))
unfolding with_ann set_name bytes_eq
login-compare_password_example =
    login-compare_password outside no_address (bytes "hi") 6 (at 3) (at 4) 98 104 (bytes "ea")
      (bytes "i") (bytes "bob") (bytes "ho") 2 with_ann refl refl refl refl refl

login-create_user_example :
    (user : AuthUser) × (s : UserMaps) × (login outside
        (inmem_repo no_address)
        (at 4)
        (bytes "bea")
        (bytes "hi")
        (create_user outside
          (inmem_repo no_address)
          (some 6)
          (at 3)
          (bytes "bea")
          (bytes "hi")
          []
          2
          with_ann).1
      ≡ (success user, s))
    × (user.id ≡ 6)
    × (user.username ≡ bytes "bea")
    × (user.role ≡ 2)
    × (user.last_login ≡ at 4)
unfolding with_ann set_name bytes_eq
login-create_user_example =
    login-create_user outside no_address (bytes "hi") 6 (at 3) (at 4) 98 104 (bytes "ea")
      (bytes "i") 2 with_ann refl refl refl refl

delete-IsIndexed_example :
    IsIndexed (delete 7 with_ann).1
    × (delete 5 with_ann ≡ (success (auth_user ann), (delete 5 with_ann).1))
    × (get 5 (delete 5 with_ann).1 ≡ failure (sentinel err_db_not_found))
    × (get_by_username (bytes "ann") (delete 5 with_ann).1 ≡ failure (sentinel err_db_not_found))
unfolding with_ann set_user
delete-IsIndexed_example = delete-IsIndexed 7 ann with_ann with_ann-IsIndexed refl
