-- ===== src/Auth/User.antt =====
-- AuthUser of login.go, User of internal/authuserdao/authuserdao.go and the repository interface of
-- login.go. An ID is the number that the 16 bytes of a UUID are.
use jelly.Base.{ℕ, ◌∷◌, [], Option, none, some, Bytes}
use jelly.Time.{Time}
use jelly.Auth.Errors.{Error}

pub record AuthUser : Type 0 where
  pub id : ℕ
  pub username : Bytes
  pub password : Bytes
  pub email : Bytes
  pub role : ℕ
  pub created : Time
  pub modified : Time
  pub last_logout : Time
  pub last_login : Time

-- As it is stored: an email address is nil if there is none.
pub record User : Type 0 where
  pub id : ℕ
  pub username : Bytes
  pub password : Bytes
  pub email : Option Bytes
  pub role : ℕ
  pub created : Time
  pub modified : Time
  pub last_logout : Time
  pub last_login : Time

-- `Email.String()`
abbrev pub email_string : Option Bytes → Bytes
email_string none = []
email_string (some address) = address

-- `User.AuthUser()`
abbrev pub auth_user : User → AuthUser
auth_user u = record {
  id = u.id;
  username = u.username;
  password = u.password;
  email = email_string u.email;
  role = u.role;
  created = u.created;
  modified = u.modified;
  last_logout = u.last_logout;
  last_login = u.last_login;
}

-- The email of NewUserFromAuthUser. `parse_address` is mail.ParseAddress, and gives the address.
abbrev pub user_email : (Bytes → Option Bytes) → Bytes → Option Bytes
user_email parse_address [] = none
user_email parse_address (c ∷ email) = parse_address (c ∷ email)

-- `NewUserFromAuthUser`
abbrev pub new_user : (Bytes → Option Bytes) → AuthUser → User
new_user parse_address au = record {
  id = au.id;
  username = au.username;
  password = au.password;
  email = user_email parse_address au.email;
  role = au.role;
  created = au.created;
  modified = au.modified;
  last_logout = au.last_logout;
  last_login = au.last_login;
}

-- What a function that may fail returns.
pub data Result (A : Type 0) : Type 0 where
  success : A → Result A
  failure : Error → Result A

-- A repository of users, whose calls change a state; each call that looks at the clock is given the
-- time, and Create the new ID, or that there is none.
pub record AuthUserRepo (S : Type 0) : Type 0 where
  pub create : Option ℕ → Time → AuthUser → S → Result AuthUser × S
  pub get : ℕ → S → Result AuthUser
  pub update : Time → ℕ → AuthUser → S → Result AuthUser × S
  pub delete : ℕ → S → Result AuthUser × S
  pub get_by_username : Bytes → S → Result AuthUser
