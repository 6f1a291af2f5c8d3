-- ===== src/Config/Whole/Defaults.antt =====
-- The configuration of a server with the login API and nothing else.
use jelly.Base.{
  ℕ, ◌≡◌, refl, List, [], ◌∷◌, Option, none, some, true, false, Bytes, bytes, bytes_eq, done,
  panics, to_lower, has_part, cut_prefix, ◌==◌, Bool-cases, inl, inr,
}
use jelly.Config.{
  CommonConfig, common_get, common_set, common_key, common_fill_defaults, validate_base_uri,
}
use jelly.Config.Dbs.{DatabaseConfig, db_fill_defaults, db_validate}
use jelly.Config.Listen.{
  Globals, globals_fill_defaults, globals_validate, LogConfig, no_log, log_fill_defaults,
  log_validate,
}
use jelly.Config.Secrets.{
  AuthConfig, auth_fill_defaults, auth_validate, auth_get, auth_set, auth_key,
}
use jelly.Config.Secrets.Values.{auth_validate-auth_fill_defaults}
use jelly.Config.Whole.{
  auth_api, api_get, api_set, api_has, has_key, api_fill_defaults, api_validate, Config, config_get,
  find, named_api, named_apis, fill_auth_defaults, fill_defaults, validate, dbs_error, apis_error,
  name_error,
}

-- The login API, enabled, with a base, DBs and a delay.
abbrev pub login_conf : Bytes → Bytes → List Bytes → ℕ → AuthConfig
login_conf own_name base uses delay = record {
  common_conf = record { name = own_name; enabled = true; base = base; uses_dbs = uses };
  secret = none;
  set_admin = [];
  unauth_delay_millis = delay;
}

abbrev pub no_globals : Globals
no_globals = record { port = 0; address = []; uri_base = []; main_auth_provider = [] }

-- A configuration with nothing but the login API and a log.
abbrev pub login_only :
    Option (List (Bytes × DatabaseConfig)) → Bytes → List Bytes → ℕ → LogConfig → Config
login_only dbs base uses delay log = record {
  globals = no_globals;
  dbs = dbs;
  apis = (bytes "jellyauth", auth_api (login_conf [] base uses delay)) ∷ [];
  log = log;
}

log_fill_defaults-valid : (log : LogConfig) → log_validate (log_fill_defaults log) ≡ none
unfolding log_fill_defaults log_validate
log_fill_defaults-valid log = elim (Bool-cases (log.provider == no_log)) [
  | inl e ↦ rw (log_fill_defaults, log_validate, e) refl
  | inr e ↦ rw (log_fill_defaults, log_validate, e, e) refl
]

-- The first half of auth_validate-auth_fill_defaults.
auth_conf-valid :
    (base : Bytes) (uses : List Bytes) (delay : ℕ)
    → validate_base_uri base ≡ none
    → auth_validate (auth_fill_defaults (login_conf (bytes "jellyauth") base uses delay)) ≡ none
auth_conf-valid base uses delay ok =
    let off : CommonConfig = record { name = []; enabled = false; base = []; uses_dbs = [] } in
    (auth_validate-auth_fill_defaults (login_conf (bytes "jellyauth") base uses delay)
      (record { common_conf = off; secret = none; set_admin = []; unauth_delay_millis = 0 }) refl ok
      refl refl refl refl).0

fill_defaults-nil :
    (base : Bytes) (uses : List Bytes) (delay : ℕ) (log : LogConfig)
    → fill_defaults (login_only none base uses delay log) ≡ panics
unfolding fill_defaults named_apis named_api fill_auth_defaults config_get api_has has_key api_get
    auth_get auth_key common_get common_key api_set auth_set common_set api_fill_defaults to_lower
    bytes_eq find auth_fill_defaults common_fill_defaults
fill_defaults-nil base [] delay log = refl
fill_defaults-nil base (db ∷ uses) delay log = refl

fill_defaults-valid :
    (base : Bytes) (uses : List Bytes) (delay : ℕ) (log : LogConfig)
    → validate_base_uri base ≡ none
    → (cfg : Config) × (fill_defaults (login_only (some []) base uses delay log) ≡ done cfg)
      × (validate cfg ≡ none)
      × (cfg.globals.main_auth_provider ≡ bytes "jellyauth.jwt")
unfolding fill_defaults named_apis named_api fill_auth_defaults config_get api_has has_key api_get
    auth_get auth_key common_get common_key api_set auth_set common_set api_fill_defaults to_lower
    bytes_eq find auth_fill_defaults common_fill_defaults validate apis_error name_error
    api_validate dbs_error db_validate db_fill_defaults globals_validate globals_fill_defaults
    validate_base_uri has_part cut_prefix
fill_defaults-valid base [] delay log ok =
    (_, refl, rw (log_fill_defaults-valid log, auth_conf-valid base [] delay ok) refl, refl)
fill_defaults-valid base (db ∷ uses) delay log ok = (
  _,
  refl,
  rw (log_fill_defaults-valid log, auth_conf-valid base (db ∷ uses) delay ok) refl,
  refl,
)

-- A configuration that sets nothing but a log and the login API, enabled, with any DBs and delay and
-- with a base that is valid, is filled with defaults to one that is valid and has that API's
-- authenticator as the main one, if its map of DBs is empty; if the map is nil, FillDefaults panics.
pub fill_defaults-login_only :
    (base : Bytes) (uses : List Bytes) (delay : ℕ) (log : LogConfig)
    → validate_base_uri base ≡ none
    → (fill_defaults (login_only none base uses delay log) ≡ panics)
      × ((cfg : Config) × (fill_defaults (login_only (some []) base uses delay log) ≡ done cfg)
          × (validate cfg ≡ none)
          × (cfg.globals.main_auth_provider ≡ bytes "jellyauth.jwt"))
fill_defaults-login_only base uses delay log ok =
    (fill_defaults-nil base uses delay log, fill_defaults-valid base uses delay log ok)
