-- ===== src/Config/Whole.antt =====
-- The interface APIConfig and Config of config.go. A map is a list in the order in which Go iterates
-- over it; of the implementations of APIConfig the library has two.
pub mod Defaults
use jelly.Base.{
  ℕ, List, [], ◌∷◌, Option, none, some, Bool, true, false, not, ◌&&◌, Bytes, bytes, bytes_eq, Run,
  done, panics, ◌>>=◌, if◌then◌else◌, to_lower,
}
use jelly.Auth.Errors.{Error, foreign}
use jelly.Auth.User.{Result, success, failure}
use jelly.Config.{
  Value, a_string, a_bool, some_strings, CommonConfig, common_fill_defaults, common_validate,
  common_get, common_set, common_keys, within,
}
use jelly.Config.Dbs.{DatabaseConfig, db_fill_defaults, db_validate, database_in_memory}
use jelly.Config.Listen.{
  Globals, globals_fill_defaults, globals_validate, LogConfig, log_fill_defaults, log_validate,
}
use jelly.Config.Secrets.{
  AuthConfig, auth_fill_defaults, auth_validate, auth_get, auth_set, auth_keys,
}

-- `*CommonConfig` and `*auth.Config`
pub data ApiConfig : Type 0 where
  common_api : CommonConfig → ApiConfig
  auth_api : AuthConfig → ApiConfig

-- The methods of the interface.
abbrev pub api_common : ApiConfig → CommonConfig
api_common (common_api cc) = cc
api_common (auth_api cfg) = cfg.common_conf

abbrev pub api_keys : ApiConfig → List Bytes
api_keys (common_api cc) = common_keys
api_keys (auth_api cfg) = auth_keys

unfoldable pub api_get : Bytes → ApiConfig → Option Value
unfolding common_get auth_get
api_get key (common_api cc) = common_get key cc
api_get key (auth_api cfg) = auth_get key cfg

abbrev common_result : Result CommonConfig → Result ApiConfig
common_result (success cc) = success (common_api cc)
common_result (failure err) = failure err

abbrev auth_result : Result AuthConfig → Result ApiConfig
auth_result (success cfg) = success (auth_api cfg)
auth_result (failure err) = failure err

unfoldable pub api_set : Bytes → Value → ApiConfig → Result ApiConfig
unfolding common_set auth_set
api_set key v (common_api cc) = common_result (common_set key v cc)
api_set key v (auth_api cfg) = auth_result (auth_set key v cfg)

unfoldable pub api_fill_defaults : ApiConfig → ApiConfig
unfolding common_fill_defaults auth_fill_defaults
api_fill_defaults (common_api cc) = common_api (common_fill_defaults cc)
api_fill_defaults (auth_api cfg) = auth_api (auth_fill_defaults cfg)

unfoldable pub api_validate : ApiConfig → Option Error
unfolding common_validate auth_validate
api_validate (common_api cc) = common_validate cc
api_validate (auth_api cfg) = auth_validate cfg

-- A map of DBs may be nil. The format of the file does not matter here.
pub record Config : Type 0 where
  pub globals : Globals
  pub dbs : Option (List (Bytes × DatabaseConfig))
  pub apis : List (Bytes × ApiConfig)
  pub log : LogConfig

unfoldable pub has_key : Bytes → List Bytes → Bool
unfolding to_lower bytes_eq
has_key needle [] = false
has_key needle (k ∷ keys) =
    let later = has_key needle keys in if bytes_eq (to_lower k) needle then true else later

-- `apiHas`
unfoldable pub api_has : ApiConfig → Bytes → Bool
unfolding has_key
api_has api key = has_key (to_lower key) (api_keys api)

-- `configGet` at three types
abbrev pub string_in : Option Value → Run Bytes
string_in (some (a_string s)) = done s
string_in v = panics

abbrev pub bool_in : Option Value → Run Bool
bool_in (some (a_bool b)) = done b
bool_in v = panics

abbrev pub strings_in : Option Value → Run (List Bytes)
strings_in (some (some_strings xs)) = done xs
strings_in v = panics

unfoldable pub config_get : {A : Type 0} → (Option Value → Run A) → ApiConfig → Bytes → Run A
unfolding api_has api_get
config_get typed api key = if not (api_has api key) then panics else typed (api_get key api)

unfoldable pub find : {A : Type 0} → Bytes → List (Bytes × A) → Option A
unfolding bytes_eq
find key [] = none
find key ((k, v) ∷ rest) = let later = find key rest in if bytes_eq k key then some v else later

abbrev filled_dbs : List (Bytes × DatabaseConfig) → List (Bytes × DatabaseConfig)
filled_dbs [] = []
filled_dbs ((name, db) ∷ rest) = (name, db_fill_defaults db) ∷ filled_dbs rest

abbrev map_dbs : Option (List (Bytes × DatabaseConfig)) → Option (List (Bytes × DatabaseConfig))
map_dbs none = none
map_dbs (some dbs) = some (filled_dbs dbs)

abbrev set_or_panic : Result ApiConfig → Run ApiConfig
set_or_panic (success api) = done api
set_or_panic (failure err) = panics

-- A round of the loop over the APIs in FillDefaults.
unfoldable pub named_api : Bytes → ApiConfig → Run ApiConfig
unfolding config_get api_set api_fill_defaults
named_api name api = config_get string_in api (bytes "name") >>= λ own_name.
    (if bytes_eq own_name []
      then set_or_panic (api_set (bytes "name") (a_string name) api)
      else done api)
    >>= λ named. done (api_fill_defaults named)

unfoldable pub named_apis : List (Bytes × ApiConfig) → Run (List (Bytes × ApiConfig))
unfolding named_api
named_apis [] = done []
named_apis ((name, api) ∷ rest) =
    let others = named_apis rest in
    named_api name api >>= λ filled. others >>= λ apis. done ((name, filled) ∷ apis)

-- An assignment to an entry that is missing, which panics if the map is nil.
abbrev add_db :
    Bytes
    → DatabaseConfig
    → Option (List (Bytes × DatabaseConfig))
    → Run (Option (List (Bytes × DatabaseConfig)))
add_db name db none = panics
add_db name db (some dbs) = done (some ((name, db) ∷ dbs))

abbrev find_db : Bytes → Option (List (Bytes × DatabaseConfig)) → Option DatabaseConfig
find_db name none = none
find_db name (some dbs) = find name dbs

abbrev auth_database : DatabaseConfig
auth_database = db_fill_defaults (record {
  db_type = database_in_memory;
  connector = bytes "authuser";
  data_dir = [];
  data_file = [];
})

-- The first DB that the login API uses, if it is missing.
abbrev ensure_db :
    List Bytes
    → Option (List (Bytes × DatabaseConfig))
    → Run (Option (List (Bytes × DatabaseConfig)))
ensure_db [] dbs = done dbs
ensure_db (db ∷ others) dbs = elim (find_db db dbs) [
  | some known ↦ done dbs
  | none ↦ add_db db auth_database dbs
]

abbrev main_or_jwt : Globals → Globals
main_or_jwt g =
    if bytes_eq g.main_auth_provider []
    then record g { main_auth_provider = bytes "jellyauth.jwt" }
    else g

-- The end of FillDefaults, for the configuration of the login API.
unfoldable pub fill_auth_defaults : Config → Option ApiConfig → Run Config
unfolding config_get find db_fill_defaults
fill_auth_defaults cfg none = done cfg
fill_auth_defaults cfg (some auth_conf) =
    config_get bool_in auth_conf (bytes "enabled") >>= λ enabled.
    let filled = config_get strings_in auth_conf (bytes "uses") >>= λ uses.
    ensure_db uses cfg.dbs >>= λ dbs.
    done (record cfg { dbs = dbs; globals = main_or_jwt cfg.globals }) in
    if enabled then filled else done cfg

-- `Config.FillDefaults`
unfoldable pub fill_defaults : Config → Run Config
unfolding named_apis fill_auth_defaults globals_fill_defaults log_fill_defaults
fill_defaults cfg = named_apis cfg.apis >>= λ apis.
    fill_auth_defaults
      (record {
        globals = globals_fill_defaults cfg.globals;
        dbs = map_dbs cfg.dbs;
        apis = apis;
        log = log_fill_defaults cfg.log;
      })
      (find (bytes "jellyauth") apis)

abbrev or_else : Option Error → Option Error → Option Error
or_else none later = later
or_else (some err) later = some err

unfoldable pub dbs_error : List (Bytes × DatabaseConfig) → Option Error
unfolding db_validate
dbs_error [] = none
dbs_error ((name, db) ∷ rest) = or_else (within (bytes "dbs") (db_validate db)) (dbs_error rest)

unfoldable pub name_error : Bytes → CommonConfig → Option Error
unfolding bytes_eq
name_error name com_conf =
    if not (bytes_eq name com_conf.name) && not (bytes_eq com_conf.name [])
    then some (foreign (bytes "name mismatch; API.Name is set to another name"))
    else none

unfoldable pub apis_error : List (Bytes × ApiConfig) → Option Error
unfolding name_error api_validate
apis_error [] = none
apis_error ((name, api) ∷ rest) =
    or_else (or_else (name_error name (api_common api)) (within name (api_validate api)))
      (apis_error rest)

abbrev entries : Option (List (Bytes × DatabaseConfig)) → List (Bytes × DatabaseConfig)
entries none = []
entries (some dbs) = dbs

-- `Config.Validate`
unfoldable pub validate : Config → Option Error
unfolding globals_validate log_validate dbs_error apis_error
validate cfg = or_else (globals_validate cfg.globals) (
    or_else (within (bytes "logging") (log_validate cfg.log))
      (or_else (dbs_error (entries cfg.dbs)) (apis_error cfg.apis)))
