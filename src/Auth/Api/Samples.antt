-- ===== src/Auth/Api/Samples.antt =====
-- Samples for the tests of the API: the packages outside, users, and requests.
use jelly.Base.{
  ℕ, ◌+◌, ◌^◌, ◌≡◌, ◌≢◌, refl, sym, ap, ◌∙◌, ◌*◌, [], ◌∷◌, ◌++◌, Option, none, some, true, false,
  ◌&&◌, Bytes, bytes, bytes_eq, bytes_eq_refl, bytes_eq_sound, length, take, drop, ltb,
  if◌then◌else◌, Bool-cases, inl, inr, arith,
}
use jelly.Time.{Time, utc_zone}
use jelly.Auth.Errors.{Error, foreign}
use jelly.Auth.User.{AuthUser, User, auth_user, Result, success, failure}
use jelly.Auth.Inmem.{UserMaps, new_maps}
use jelly.Auth.Inmem.Index.{put}
use jelly.Auth.Service.{Outside, hashed, matching, mismatched}
use jelly.Auth.Token.{Jwt, unix}
use jelly.Auth.Token.Keys.{IsJwt}
use jelly.Auth.Api.{Web, Api, UpdateField, UserModel, UserUpdateRequest}
use jelly.Server.Requests.{Request}

-- Times in seconds since 1970.
abbrev pub second : ℕ → Time
second n = record {
  instant = (2 ^ 63 + 62135596800 + n) * 1000000000;
  monotonic = none;
  zone = utc_zone;
}

-- A UUID is one byte here, and its text that byte.
abbrev parse_one : Bytes → Option ℕ
parse_one [] = none
parse_one (n ∷ []) = some n
parse_one (n ∷ m ∷ s) = none

abbrev pub outside : Outside
outside = record {
  parse_uuid = parse_one;
  parse_address = λ s. success s;
  decode = λ s. success s;
  encode = λ s. s;
  compare_password = λ hash password. if bytes_eq hash password then matching else mismatched;
  hash_password = λ password. hashed password;
  error_code_string = λ code. [];
}

-- A token that shows its key.
abbrev subject_part : Bytes → Result Bytes
subject_part [] = failure (foreign (bytes "token"))
subject_part (n ∷ []) = failure (foreign (bytes "token"))
subject_part (n ∷ e ∷ rest) = success (take n rest)

abbrev checked : Time → Bytes → Bytes → Option Error
checked now [] key = some (foreign (bytes "token"))
checked now (n ∷ []) key = some (foreign (bytes "token"))
checked now (n ∷ e ∷ rest) key =
    if bytes_eq (drop n rest) key && ltb (unix now) (e + 60)
    then none
    else some (foreign (bytes "token"))

abbrev pub open_jwt : Jwt
open_jwt = record {
  sign = λ c key. success (length c.subject ∷ c.expires ∷ (c.subject ++ key));
  subject_of = subject_part;
  verify = checked;
}

take-length : (s t : Bytes) → take (length s) (s ++ t) ≡ s
take-length [] [] = refl
take-length [] (c ∷ t) = refl
take-length (c ∷ s) t = ap (λ (r : Bytes). c ∷ r) (take-length s t)

drop-length : (s t : Bytes) → drop (length s) (s ++ t) ≡ t
drop-length [] [] = refl
drop-length [] (c ∷ t) = refl
drop-length (c ∷ s) t = drop-length s t

differ : (s t : Bytes) → s ≢ t → bytes_eq s t ≡ false
differ s t other = elim (Bool-cases (bytes_eq s t)) [
  | inl e ↦ elim (other (bytes_eq_sound s t e)) [ ]
  | inr e ↦ e
]

success-injective : {s t : Bytes} → Result.success s ≡ success t → s ≡ t
success-injective e = cc

pub open_jwt-IsJwt : IsJwt open_jwt
open_jwt-IsJwt = record {
  named = λ c key tok e.
      ap subject_part (sym (success-injective e)) ∙ ap success (take-length c.subject key);
  accepted = λ c key tok now e issued fresh now_63 end_63.
      ap (λ t. checked now t key) (sym (success-injective e))
      ∙ (let early : ltb (unix now) (c.expires + 60) ≡ true = ground arith in
          rw (drop-length c.subject key, bytes_eq_refl key, early) refl);
  other_key = λ c key other tok now e different. (
    foreign (bytes "token"),
    ap (λ t. checked now t other) (sym (success-injective e))
        ∙ (rw (drop-length c.subject key, differ key other different) refl),
  );
}

abbrev keep_field : UpdateField
keep_field = record { update = false; value = [] }

-- The one body of each kind that the tests send.
abbrev pub bea_model : UserModel
bea_model = record {
  uri = [];
  id = [];
  username = bytes "bea";
  password = bytes "hi";
  email = [];
  role = bytes "normal";
  created = [];
  modified = [];
  last_logout_time = [];
  last_login_time = [];
}

abbrev pub new_password : UserUpdateRequest
new_password = record {
  id = keep_field;
  username = keep_field;
  password = record { update = true; value = bytes "secret" };
  email = keep_field;
  role = keep_field;
}

abbrev pub web : Web
web = record {
  uuid_string = λ n. n ∷ [];
  format_time = λ t. [];
  unmarshal_login = λ s. success (record { username = bytes "bea"; password = bytes "hi" });
  unmarshal_user = λ s. success bea_model;
  unmarshal_update = λ s. success new_password;
  jwt = open_jwt;
}

abbrev pub api : Api
api = record { secret = bytes "s3cret"; path_prefix = bytes "/auth" }

abbrev pub ann : User
ann = record {
  id = 5;
  username = bytes "ann";
  password = bytes "pw";
  email = none;
  role = 100;
  created = second 1;
  modified = second 1;
  last_logout = second 1;
  last_login = second 1;
}

abbrev pub bob : AuthUser
bob = record (auth_user ann) { id = 6; username = bytes "bob"; role = 2 }

abbrev pub with_ann : UserMaps
with_ann = put ann new_maps

-- A request with a JSON body by a user who is logged in, with an ID in its path.
abbrev pub request_by : AuthUser → ℕ → Request
request_by u id = record {
  content_type = bytes "Application/JSON";
  authorization = [];
  id_param = id ∷ [];
  body = success [];
  context = record { logged_in = some true; user = some u };
}

-- A request with a token, not yet authenticated.
abbrev pub request_with : Bytes → Request
request_with tok = record {
  content_type = [];
  authorization = bytes "Bearer " ++ tok;
  id_param = 5 ∷ [];
  body = success [];
  context = record { logged_in = none; user = none };
}

-- A token of ann's, and one that is not of the right form.
abbrev pub ann_token : Bytes
ann_token = 1 ∷ unix (second 3600) ∷ 5 ∷ (api.secret ++ (bytes "pw" ++ bytes "1"))

abbrev pub bad_token : Bytes
bad_token = bytes "x"
