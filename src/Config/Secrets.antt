-- ===== src/Config/Secrets.antt =====
-- The configuration of the login API, auth/config.go.
pub mod Values
use jelly.Base.{
  ℕ, ◌≡◌, refl, sym, ◌∙◌, List, [], ◌∷◌, ◌++◌, Option, none, some, Bool, true, false, ◌&&◌, Bytes,
  bytes, bytes_eq, if◌then◌else◌, ◌==◌, ltb, length, to_lower, Bool-cases, inl, inr, arith,
}
use jelly.Auth.Errors.{Error, foreign}
use jelly.Auth.User.{Result, success, failure}
use jelly.Auth.Api.Setup.{parse_set_admin}
use jelly.Config.{
  Value, a_string, a_bool, some_strings, some_bytes, an_int, CommonConfig, common_fill_defaults,
  common_validate, common_get, common_set, common_set_from_string, common_key, CommonKey, key_name,
  key_enabled, key_base, key_uses, common_keys, wrong_type, atoi, validate_base_uri, within,
}
use jelly.Server.Requests.{errorf}

-- A secret may be nil.
pub record AuthConfig : Type 0 where
  pub common_conf : CommonConfig
  pub secret : Option Bytes
  pub set_admin : Bytes
  pub unauth_delay_millis : ℕ

abbrev pub default_secret : Bytes
default_secret = bytes "DEFAULT_NONPROD_TOKEN_SECRET_DO_NOT_USE"

abbrev pub uses_or_auth : List Bytes → List Bytes
uses_or_auth [] = bytes "auth" ∷ []
uses_or_auth (db ∷ dbs) = db ∷ dbs

-- The defaults of an API that is enabled.
abbrev pub enabled_defaults : CommonConfig → CommonConfig
enabled_defaults cc =
    if cc.enabled
    then record cc {
      base = if bytes_eq cc.base [] then bytes "/auth" else cc.base;
      uses_dbs = uses_or_auth cc.uses_dbs;
    }
    else cc

abbrev secret_or_default : Option Bytes → Option Bytes
secret_or_default none = some default_secret
secret_or_default (some s) = some s

-- `Config.FillDefaults`
unfoldable pub auth_fill_defaults : AuthConfig → AuthConfig
unfolding common_fill_defaults bytes_eq
auth_fill_defaults cfg = record {
  common_conf = common_fill_defaults (enabled_defaults cfg.common_conf);
  secret = secret_or_default cfg.secret;
  set_admin = cfg.set_admin;
  unauth_delay_millis = if cfg.unauth_delay_millis == 0 then 1000 else cfg.unauth_delay_millis;
}

abbrev secret_bytes : Option Bytes → Bytes
secret_bytes none = []
secret_bytes (some s) = s

abbrev result_error : {A : Type 0} → Result A → Option Error
result_error (success a) = none
result_error (failure err) = some err

abbrev admin_error : Bytes → Option Error
admin_error [] = none
admin_error (c ∷ s) = result_error (parse_set_admin (c ∷ s))

abbrev pub or_else : Option Error → Option Error → Option Error
or_else none later = later
or_else (some err) later = some err

abbrev pub uses_error : List Bytes → Option Error
uses_error [] = some (foreign (bytes "use of at least one database must be declared"))
uses_error (db ∷ dbs) = none

abbrev secret_error : Bytes → Option Error
secret_error s =
    if ltb (length s) 32
    then some (foreign (bytes "secret: must be at least 32 bytes"))
    else if ltb 64 (length s)
    then some (foreign (bytes "secret: must be no more than 64 bytes"))
    else none

-- `Config.Validate`
unfoldable pub auth_validate : AuthConfig → Option Error
unfolding common_validate parse_set_admin
auth_validate cfg = or_else (common_validate cfg.common_conf) (
    or_else (uses_error cfg.common_conf.uses_dbs)
      (or_else (secret_error (secret_bytes cfg.secret)) (admin_error cfg.set_admin)))

pub data AuthKey : Type 0 where
  key_secret key_set_admin key_unauth_delay another_key : AuthKey

-- The case of a switch on `strings.ToLower(key)`.
unfoldable pub auth_key : Bytes → AuthKey
auth_key key =
    let low = to_lower key in
    if bytes_eq low (bytes "secret")
    then key_secret
    else if bytes_eq low (bytes "set_admin")
    then key_set_admin
    else if bytes_eq low (bytes "unauth_delay")
    then key_unauth_delay
    else another_key

-- `Config.Keys`
abbrev pub auth_keys : List Bytes
auth_keys = common_keys ++ (bytes "secret" ∷ bytes "set_admin" ∷ bytes "unauth_delay" ∷ [])

abbrev pub auth_value_at : AuthKey → Bytes → AuthConfig → Option Value
auth_value_at key_secret key cfg = some (some_bytes cfg.secret)
auth_value_at key_set_admin key cfg = some (a_string cfg.set_admin)
auth_value_at key_unauth_delay key cfg = some (an_int cfg.unauth_delay_millis)
auth_value_at another_key key cfg = common_get key cfg.common_conf

-- `Config.Get`
unfoldable pub auth_get : Bytes → AuthConfig → Option Value
unfolding auth_key common_get
auth_get key cfg = auth_value_at (auth_key key) key cfg

abbrev with_secret : AuthConfig → Value → Result AuthConfig
with_secret cfg (some_bytes s) = success (record cfg { secret = s })
with_secret cfg (a_string s) = success (record cfg { secret = some s })
with_secret cfg v = wrong_type

abbrev with_set_admin : AuthConfig → Value → Result AuthConfig
with_set_admin cfg (a_string s) = success (record cfg { set_admin = s })
with_set_admin cfg v = wrong_type

abbrev with_unauth_delay : AuthConfig → Value → Result AuthConfig
with_unauth_delay cfg (an_int n) = success (record cfg { unauth_delay_millis = n })
with_unauth_delay cfg v = wrong_type

abbrev pub with_common : AuthConfig → Result CommonConfig → Result AuthConfig
with_common cfg (success cc) = success (record cfg { common_conf = cc })
with_common cfg (failure err) = failure err

abbrev pub auth_set_at : AuthKey → Bytes → Value → AuthConfig → Result AuthConfig
auth_set_at key_secret key v cfg = with_secret cfg v
auth_set_at key_set_admin key v cfg = with_set_admin cfg v
auth_set_at key_unauth_delay key v cfg = with_unauth_delay cfg v
auth_set_at another_key key v cfg = with_common cfg (common_set key v cfg.common_conf)

-- `Config.Set`
unfoldable pub auth_set : Bytes → Value → AuthConfig → Result AuthConfig
unfolding auth_key common_set
auth_set key v cfg = auth_set_at (auth_key key) key v cfg

abbrev delay_parsed : Bytes → AuthConfig → Option ℕ → Result AuthConfig
delay_parsed key cfg none = failure (foreign (bytes "key 'unauth_delay': invalid syntax"))
delay_parsed key cfg (some n) = auth_set key (an_int n) cfg

abbrev auth_set_string_at : AuthKey → Bytes → Bytes → AuthConfig → Result AuthConfig
auth_set_string_at key_secret key value cfg = auth_set key (a_string value) cfg
auth_set_string_at key_set_admin key value cfg = auth_set key (a_string value) cfg
auth_set_string_at key_unauth_delay key value cfg = delay_parsed key cfg (atoi value)
auth_set_string_at another_key key value cfg =
    with_common cfg (common_set_from_string key value cfg.common_conf)

-- `Config.SetFromString`
unfoldable pub auth_set_from_string : Bytes → Bytes → AuthConfig → Result AuthConfig
unfolding auth_set atoi common_set_from_string
auth_set_from_string key value cfg = auth_set_string_at (auth_key key) key value cfg
