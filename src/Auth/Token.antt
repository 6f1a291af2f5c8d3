-- ===== src/Auth/Token.antt =====
-- The tokens of auth/token.go and the authenticator of auth/provider.go. The JWT package is a
-- parameter.
pub mod Keys
pub mod Sessions
use Prim.Native.Nat.{◌/◌, ◌%◌}
use jelly.Base.{
  ℕ, ◌+◌, ◌-◌, ◌*◌, ◌^◌, [], ◌∷◌, ◌++◌, Option, none, some, Bool, true, false, not, Bytes, bytes,
  bytes_eq, if◌then◌else◌, ltb, to_lower, trim_space, split_2, decimal,
}
use jelly.Time.{Time}
use jelly.Auth.Errors.{Error, foreign, is, err_db_not_found}
use jelly.Auth.User.{AuthUser, Result, success, failure, AuthUserRepo}
use jelly.Auth.Service.{zero_auth_user}
use jelly.Server.Requests.{Request, errorf}
use jelly.Middle.{Answer, Authenticator}

-- The claims "iss", "exp" (in seconds as `Unix` gives them) and "sub"; "authorized" is always true.
pub record Claims : Type 0 where
  pub issuer : Bytes
  pub expires : ℕ
  pub subject : Bytes

-- The JWT package: `sign` is SignedString with HS512, `subject_of` the parsing of a token, with the
-- check of its method, up to the claim "sub", and `verify` the checks with a key, at a time: none if they succeed.
pub record Jwt : Type 0 where
  pub sign : Claims → (key : Bytes) → Result Bytes
  pub subject_of : (token : Bytes) → Result Bytes
  pub verify : Time → (token key : Bytes) → Option Error

-- `Unix()` as 64 bits, of which the first is the sign: seconds since 1970, where a Time counts from
-- the earliest one.
unfoldable pub unix : Time → ℕ
unix t = (t.instant / 1000000000 + (2 ^ 63 - 62135596800)) % 2 ^ 64

-- `fmt.Sprintf("%d", ...)` of an int64
unfoldable pub signed_decimal : ℕ → Bytes
signed_decimal n = if ltb n (2 ^ 63) then decimal n else 45 ∷ decimal (2 ^ 64 - n)

-- The key that a token of the user is signed with.
unfoldable pub sign_key : Bytes → AuthUser → Bytes
unfolding signed_decimal unix
sign_key secret u = secret ++ (u.password ++ signed_decimal (unix u.last_logout))

abbrev pub issuer_name : Bytes
issuer_name = bytes "jelly"

module _ (jwt : Jwt) (uuid_string : ℕ → Bytes) where
  -- `now.Add(time.Hour).Unix()`
  abbrev pub claims_of : Time → AuthUser → Claims
  claims_of now u = record {
    issuer = issuer_name;
    expires = unix (record now { instant = now.instant + 3600 * 1000000000 });
    subject = uuid_string u.id;
  }

  unfoldable pub generate_token : Time → Bytes → AuthUser → Result Bytes
  unfolding sign_key
  generate_token now secret u = jwt.sign (claims_of now u) (sign_key secret u)

abbrev not_bearer : Result Bytes
not_bearer = failure (foreign (bytes "authorization header not in Bearer format"))

abbrev of_scheme : Bytes × Option Bytes → Result Bytes
of_scheme (scheme, none) = not_bearer
of_scheme (scheme, some token) =
    if bytes_eq (trim_space (to_lower scheme)) (bytes "bearer")
    then success (trim_space token)
    else not_bearer

abbrev token_in : Bytes → Result Bytes
token_in [] = failure (foreign (bytes "no authorization header present"))
token_in (c ∷ auth_header) = of_scheme (split_2 32 (c ∷ auth_header))

unfoldable pub get_token : Request → Result Bytes
get_token req = token_in (trim_space req.authorization)

module _ {S : Type 0} (jwt : Jwt) (parse_uuid : Bytes → Option ℕ) (repo : AuthUserRepo S)
    (secret : Bytes) where
  abbrev subject_error : Error → Error
  subject_error err =
      if is err err_db_not_found
      then foreign (bytes "subject does not exist")
      else foreign (bytes "subject could not be validated")

  abbrev verified : AuthUser → Option Error → Result AuthUser
  verified u none = success u
  verified u (some err) = failure err

  abbrev validated_user : Time → Bytes → Result AuthUser → Result AuthUser
  validated_user now tok (failure err) = failure (subject_error err)
  validated_user now tok (success u) = verified u (jwt.verify now tok (sign_key secret u))

  -- The user of the subject, with the rest of the checks.
  abbrev subject_user : Time → Bytes → S → Option ℕ → Result AuthUser
  subject_user now tok s none = failure (foreign (bytes "cannot parse subject UUID"))
  subject_user now tok s (some id) = validated_user now tok (repo.get id s)

  abbrev token_user : Time → Bytes → S → Result Bytes → Result AuthUser
  token_user now tok s (failure err) = failure (errorf (bytes "cannot get subject") err)
  token_user now tok s (success subj) = subject_user now tok s (parse_uuid subj)

  -- `validateToken`; an error of the key function, which the package wraps, is returned as it is.
  unfoldable pub validate_token : Time → Bytes → S → Result AuthUser
  unfolding sign_key is
  validate_token now tok s = token_user now tok s (jwt.subject_of tok)

  abbrev answer_validated : Result AuthUser → Answer
  answer_validated (success u) = record { user = u; logged_in = true; err = none }
  answer_validated (failure e) = record { user = zero_auth_user; logged_in = false; err = some e }

  abbrev answer_token : Time → S → Result Bytes → Answer
  answer_token now s (failure err) = record { user = zero_auth_user; logged_in = false; err = none }
  answer_token now s (success tok) = answer_validated (validate_token now tok s)

  -- `jwtAuthProvider.Authenticate`
  unfoldable pub authenticate : Time → Request → S → Answer
  unfolding get_token validate_token
  authenticate now req s = answer_token now s (get_token req)

  -- `jwtAuthProvider`, at a time
  abbrev pub jwt_auth_provider : ℕ → Time → Authenticator S
  jwt_auth_provider delay now = record {
    authenticate = λ req s. authenticate now req s;
    unauth_delay = delay;
  }
