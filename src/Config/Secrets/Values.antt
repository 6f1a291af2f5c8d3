-- ===== src/Config/Secrets/Values.antt =====
-- The values of a configuration: what is set is read, and defaults are valid.
use jelly.Base.{
  ◌≡◌, ◌≢◌, refl, sym, ap, ◌∙◌, List, [], ◌∷◌, Option, none, some, true, false, Bytes, bytes_eq,
  has_part, cut_prefix, Bool-cases, inl, inr,
}
use jelly.Auth.Errors.{Error}
use jelly.Auth.User.{Result, success, failure}
use jelly.Config.{
  Value, a_string, a_bool, some_strings, some_bytes, an_int, an_object, another, CommonConfig,
  CommonKey, key_name, key_enabled, key_base, key_uses, common_key, common_get, common_set,
  value_at, set_at, common_fill_defaults, common_validate, validate_base_uri,
}
use jelly.Config.Secrets.{
  AuthConfig, AuthKey, key_secret, key_set_admin, key_unauth_delay, another_key, auth_key, auth_get,
  auth_set, auth_set_at, auth_value_at, with_common, or_else, uses_error, uses_or_auth,
  enabled_defaults, auth_fill_defaults, auth_validate,
}

-- A value as the configuration keeps it: a secret that is given as a string is kept as its bytes.
abbrev pub kept : AuthKey → Value → Value
kept key_secret (a_string s) = some_bytes (some s)
kept k v = v

success-injective : {A : Type 0} {a b : A} → Result.success a ≡ success b → a ≡ b
success-injective e = cc

value_at-key_name :
    (v : Value) (conf end : CommonConfig)
    → set_at (some key_name) v conf ≡ success end
    → value_at (some key_name) end ≡ some v
value_at-key_name (a_string s) conf end e =
    ap (λ (r : CommonConfig). some (a_string r.name)) (sym (success-injective e))
value_at-key_name (a_bool b) conf end e = cc
value_at-key_name (some_strings xs) conf end e = cc
value_at-key_name (some_bytes s) conf end e = cc
value_at-key_name (an_int n) conf end e = cc
value_at-key_name (an_object o) conf end e = cc
value_at-key_name another conf end e = cc

value_at-key_enabled :
    (v : Value) (conf end : CommonConfig)
    → set_at (some key_enabled) v conf ≡ success end
    → value_at (some key_enabled) end ≡ some v
value_at-key_enabled (a_string s) conf end e = cc
value_at-key_enabled (a_bool b) conf end e =
    ap (λ (r : CommonConfig). some (a_bool r.enabled)) (sym (success-injective e))
value_at-key_enabled (some_strings xs) conf end e = cc
value_at-key_enabled (some_bytes s) conf end e = cc
value_at-key_enabled (an_int n) conf end e = cc
value_at-key_enabled (an_object o) conf end e = cc
value_at-key_enabled another conf end e = cc

value_at-key_base :
    (v : Value) (conf end : CommonConfig)
    → set_at (some key_base) v conf ≡ success end
    → value_at (some key_base) end ≡ some v
value_at-key_base (a_string s) conf end e =
    ap (λ (r : CommonConfig). some (a_string r.base)) (sym (success-injective e))
value_at-key_base (a_bool b) conf end e = cc
value_at-key_base (some_strings xs) conf end e = cc
value_at-key_base (some_bytes s) conf end e = cc
value_at-key_base (an_int n) conf end e = cc
value_at-key_base (an_object o) conf end e = cc
value_at-key_base another conf end e = cc

value_at-key_uses :
    (v : Value) (conf end : CommonConfig)
    → set_at (some key_uses) v conf ≡ success end
    → value_at (some key_uses) end ≡ some v
value_at-key_uses (a_string s) conf end e = cc
value_at-key_uses (a_bool b) conf end e = cc
value_at-key_uses (some_strings xs) conf end e =
    ap (λ (r : CommonConfig). some (some_strings r.uses_dbs)) (sym (success-injective e))
value_at-key_uses (some_bytes s) conf end e = cc
value_at-key_uses (an_int n) conf end e = cc
value_at-key_uses (an_object o) conf end e = cc
value_at-key_uses another conf end e = cc

value_at-set_at :
    (k : Option CommonKey) (v : Value) (conf end : CommonConfig)
    → set_at k v conf ≡ success end
    → value_at k end ≡ some v
value_at-set_at none v conf end e = cc
value_at-set_at (some key_name) v conf end e = value_at-key_name v conf end e
value_at-set_at (some key_enabled) v conf end e = value_at-key_enabled v conf end e
value_at-set_at (some key_base) v conf end e = value_at-key_base v conf end e
value_at-set_at (some key_uses) v conf end e = value_at-key_uses v conf end e

common_get-common_set :
    (key : Bytes) (v : Value) (conf end : CommonConfig)
    → common_set key v conf ≡ success end
    → common_get key end ≡ some v
unfolding common_set common_get
common_get-common_set key v conf end e = value_at-set_at (common_key key) v conf end e

auth_value_at-key_secret :
    (key : Bytes) (v : Value) (conf end : AuthConfig)
    → auth_set_at key_secret key v conf ≡ success end
    → auth_value_at key_secret key end ≡ some (kept key_secret v)
auth_value_at-key_secret key (a_string s) conf end e =
    ap (λ (r : AuthConfig). some (some_bytes r.secret)) (sym (success-injective e))
auth_value_at-key_secret key (a_bool b) conf end e = cc
auth_value_at-key_secret key (some_strings xs) conf end e = cc
auth_value_at-key_secret key (some_bytes s) conf end e =
    ap (λ (r : AuthConfig). some (some_bytes r.secret)) (sym (success-injective e))
auth_value_at-key_secret key (an_int n) conf end e = cc
auth_value_at-key_secret key (an_object o) conf end e = cc
auth_value_at-key_secret key another conf end e = cc

auth_value_at-key_set_admin :
    (key : Bytes) (v : Value) (conf end : AuthConfig)
    → auth_set_at key_set_admin key v conf ≡ success end
    → auth_value_at key_set_admin key end ≡ some (kept key_set_admin v)
auth_value_at-key_set_admin key (a_string s) conf end e =
    ap (λ (r : AuthConfig). some (a_string r.set_admin)) (sym (success-injective e))
auth_value_at-key_set_admin key (a_bool b) conf end e = cc
auth_value_at-key_set_admin key (some_strings xs) conf end e = cc
auth_value_at-key_set_admin key (some_bytes s) conf end e = cc
auth_value_at-key_set_admin key (an_int n) conf end e = cc
auth_value_at-key_set_admin key (an_object o) conf end e = cc
auth_value_at-key_set_admin key another conf end e = cc

auth_value_at-key_unauth_delay :
    (key : Bytes) (v : Value) (conf end : AuthConfig)
    → auth_set_at key_unauth_delay key v conf ≡ success end
    → auth_value_at key_unauth_delay key end ≡ some (kept key_unauth_delay v)
auth_value_at-key_unauth_delay key (a_string s) conf end e = cc
auth_value_at-key_unauth_delay key (a_bool b) conf end e = cc
auth_value_at-key_unauth_delay key (some_strings xs) conf end e = cc
auth_value_at-key_unauth_delay key (some_bytes s) conf end e = cc
auth_value_at-key_unauth_delay key (an_int n) conf end e =
    ap (λ (r : AuthConfig). some (an_int r.unauth_delay_millis)) (sym (success-injective e))
auth_value_at-key_unauth_delay key (an_object o) conf end e = cc
auth_value_at-key_unauth_delay key another conf end e = cc

with_common-common_get :
    (key : Bytes) (v : Value) (conf end : AuthConfig) (r : Result CommonConfig)
    → common_set key v conf.common_conf ≡ r
    → with_common conf r ≡ success end
    → common_get key end.common_conf ≡ some v
with_common-common_get key v conf end (success c) done e =
    ap (λ (r : AuthConfig). common_get key r.common_conf) (sym (success-injective e))
    ∙ common_get-common_set key v conf.common_conf c done
with_common-common_get key v conf end (failure err) done e = cc

auth_value_at-auth_set_at :
    (k : AuthKey) (key : Bytes) (v : Value) (conf end : AuthConfig)
    → auth_set_at k key v conf ≡ success end
    → auth_value_at k key end ≡ some (kept k v)
auth_value_at-auth_set_at key_secret key v conf end e = auth_value_at-key_secret key v conf end e
auth_value_at-auth_set_at key_set_admin key v conf end e =
    auth_value_at-key_set_admin key v conf end e
auth_value_at-auth_set_at key_unauth_delay key v conf end e =
    auth_value_at-key_unauth_delay key v conf end e
auth_value_at-auth_set_at another_key key v conf end e =
    with_common-common_get key v conf end (common_set key v conf.common_conf) refl e

-- What Set of the configuration of the login API or of the one that all APIs have stores without an
-- error, under any key, Get returns under that key; a secret that is given as a string is returned
-- as its bytes.
pub auth_get-auth_set :
    (key plain_key : Bytes) (v plain : Value) (conf end : AuthConfig)
    (common common_end : CommonConfig)
    → auth_set key v conf ≡ success end
    → common_set plain_key plain common ≡ success common_end
    → (auth_get key end ≡ some (kept (auth_key key) v))
      × (common_get plain_key common_end ≡ some plain)
unfolding auth_set auth_get
auth_get-auth_set key plain_key v plain conf end common common_end e f = (
  auth_value_at-auth_set_at (auth_key key) key v conf end e,
  common_get-common_set plain_key plain common common_end f,
)

or_else-fails : (first : Option Error) (err : Error) → or_else first (some err) ≢ none
or_else-fails none err e = cc
or_else-fails (some first) err e = cc

uses_or_auth-valid : (dbs : List Bytes) → uses_error (uses_or_auth dbs) ≡ none
uses_or_auth-valid [] = refl
uses_or_auth-valid (db ∷ dbs) = refl

enabled_defaults-valid :
    (conf : CommonConfig)
    → conf.enabled ≡ true
    → validate_base_uri conf.base ≡ none
    → common_validate (common_fill_defaults (enabled_defaults conf)) ≡ none
unfolding common_fill_defaults common_validate validate_base_uri has_part cut_prefix bytes_eq
enabled_defaults-valid conf on base = elim (Bool-cases (bytes_eq conf.base [])) [
  | inl blank ↦ rw (on, common_fill_defaults, blank) refl
  | inr given ↦ rw (on, common_fill_defaults, common_validate, given, given, base) refl
]

-- An enabled configuration of the login API with a base that is valid, if one is set, and with
-- neither a secret nor an administrator is valid once it has its defaults. A disabled one that does
-- not name a database is not.
pub auth_validate-auth_fill_defaults :
    (conf off : AuthConfig)
    → conf.common_conf.enabled ≡ true
    → validate_base_uri conf.common_conf.base ≡ none
    → conf.secret ≡ none
    → conf.set_admin ≡ []
    → off.common_conf.enabled ≡ false
    → off.common_conf.uses_dbs ≡ []
    → (auth_validate (auth_fill_defaults conf) ≡ none)
      × (auth_validate (auth_fill_defaults off) ≢ none)
unfolding auth_fill_defaults auth_validate
auth_validate-auth_fill_defaults conf off on base secret admin disabled no_db = (
  rw
      (
        auth_validate,
        auth_fill_defaults,
        enabled_defaults-valid conf.common_conf on base,
        on,
        uses_or_auth-valid conf.common_conf.uses_dbs,
        secret,
        admin,
      )
      refl,
  rw (auth_validate, auth_fill_defaults, disabled, no_db)
      (or_else-fails (common_validate (common_fill_defaults off.common_conf)) _),
)
