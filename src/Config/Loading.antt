-- ===== src/Config/Loading.antt =====
-- How internal/config/config.go turns a configuration into the form that is written to a file and
-- back. The maps of a file are lists in the order in which Go iterates over them.
pub mod Files
pub mod Formats
use jelly.Base.{
  ℕ, List, [], ◌∷◌, ◌++◌, Option, none, some, Bool, true, false, not, ◌&&◌, Bytes, bytes, bytes_eq,
  Run, done, panics, ◌>>=◌, if◌then◌else◌, to_lower, split_all,
}
use jelly.Auth.Errors.{Error, foreign}
use jelly.Auth.User.{Result, success, failure}
use jelly.Config.{
  Value, a_string, a_bool, some_strings, some_bytes, another, CommonConfig, common_keys,
}
use jelly.Config.Dbs.{DatabaseConfig, parse_db_type}
use jelly.Config.Listen.{
  Globals, LogConfig, MarshaledGlobals, MarshaledLog, marshal_globals, unmarshal_globals,
  marshal_log, unmarshal_log,
}
use jelly.Config.Whole.{
  ApiConfig, common_api, api_keys, api_get, api_set, Config, find, bool_in, string_in, strings_in,
}
use jelly.Server.Requests.{errorf}

-- Goes on with a value.
abbrev pub and_then : {A B : Type 0} → Result A → (A → Result B) → Result B
and_then (success a) f = f a
and_then (failure err) f = failure err

-- The error with what it is about.
abbrev pub about : {A : Type 0} → Bytes → Result A → Result A
about msg (success a) = success a
about msg (failure err) = failure (errorf msg err)

pub record MarshaledDatabase : Type 0 where
  pub db_type : Bytes
  pub connector : Bytes
  pub dir : Bytes
  pub file : Bytes

-- `marshalDatabase`
unfoldable pub marshal_database : DatabaseConfig → MarshaledDatabase
marshal_database db = record {
  db_type = db.db_type;
  connector = db.connector;
  dir = db.data_dir;
  file = db.data_file;
}

-- `unmarshalDatabase`
unfoldable pub unmarshal_database : MarshaledDatabase → Result DatabaseConfig
unfolding parse_db_type
unmarshal_database m = and_then (about (bytes "type") (parse_db_type m.db_type)) (λ t.
    success (record { db_type = t; connector = m.connector; data_dir = m.dir; data_file = m.file }))

pub record MarshaledApi : Type 0 where
  pub base : Bytes
  pub enabled : Bool
  pub uses : List Bytes
  pub others : List (Bytes × Value)

-- A value of bytes is written as a string.
abbrev written : Option Value → Value
written (some (some_bytes (some s))) = a_string s
written (some (some_bytes none)) = a_string []
written (some v) = v
written none = another

unfoldable pub in_keys : Bytes → List Bytes → Bool
unfolding bytes_eq
in_keys key [] = false
in_keys key (k ∷ keys) = let later = in_keys key keys in if bytes_eq k key then true else later

-- The loop of marshalAPI.
unfoldable pub other_fields : ApiConfig → List Bytes → List (Bytes × Value)
unfolding in_keys api_get
other_fields api [] = []
other_fields api (key ∷ keys) =
    let rest = other_fields api keys in
    if in_keys key common_keys then rest else (key, written (api_get key api)) ∷ rest

-- `marshalAPI`
unfoldable pub marshal_api : ApiConfig → Run MarshaledApi
unfolding other_fields api_get
marshal_api api = bool_in (api_get (bytes "enabled") api) >>= λ enabled.
    string_in (api_get (bytes "base") api) >>= λ base.
    strings_in (api_get (bytes "uses") api) >>= λ uses. done (record {
      base = base;
      enabled = enabled;
      uses = uses;
      others = other_fields api (api_keys api);
    })

abbrev blank_common : CommonConfig
blank_common = record { name = []; enabled = false; base = []; uses_dbs = [] }

abbrev provided : Option ApiConfig → ApiConfig
provided none = common_api blank_common
provided (some api) = api

-- The loop of unmarshalAPI.
unfoldable pub set_others : List (Bytes × Value) → ApiConfig → Result ApiConfig
unfolding api_set to_lower
set_others [] api = success api
set_others ((k, v) ∷ rest) api =
    and_then (about (to_lower k) (api_set (to_lower k) v api)) (λ next. set_others rest next)

-- `unmarshalAPI`; the environment is what its providers make, by their names.
unfoldable pub unmarshal_api : List (Bytes × ApiConfig) → MarshaledApi → Bytes → Result ApiConfig
unfolding api_set set_others find
unmarshal_api env ma name =
    let api = provided (find (to_lower name) env) in
    and_then (about (bytes "name") (api_set (bytes "name") (a_string (to_lower name)) api)) (λ a.
      and_then (about (bytes "enabled") (api_set (bytes "enabled") (a_bool ma.enabled) a)) (λ b.
        and_then (about (bytes "base") (api_set (bytes "base") (a_string ma.base) b)) (λ c.
          and_then (about (bytes "uses") (api_set (bytes "uses") (some_strings ma.uses) c))
            (λ d. set_others ma.others d))))

pub record MarshaledConfig : Type 0 where
  pub globals : MarshaledGlobals
  pub dbs : List (Bytes × MarshaledDatabase)
  pub apis : List (Bytes × MarshaledApi)
  pub logging : MarshaledLog

unfoldable pub unmarshal_dbs :
    List (Bytes × MarshaledDatabase) → Result (List (Bytes × DatabaseConfig))
unfolding unmarshal_database
unmarshal_dbs [] = success []
unmarshal_dbs ((n, m) ∷ rest) =
    let others = unmarshal_dbs rest in
    and_then (about (bytes "dbs") (unmarshal_database m))
      (λ db. and_then others (λ dbs. success ((n, db) ∷ dbs)))

unfoldable pub unmarshal_apis :
    List (Bytes × ApiConfig) → List (Bytes × MarshaledApi) → Result (List (Bytes × ApiConfig))
unfolding unmarshal_api
unmarshal_apis env [] = success []
unmarshal_apis env ((n, m) ∷ rest) =
    let others = unmarshal_apis env rest in
    and_then (about n (unmarshal_api env m n))
      (λ api. and_then others (λ apis. success ((n, api) ∷ apis)))

-- `unmarshalConfig`
unfoldable pub unmarshal_config : List (Bytes × ApiConfig) → MarshaledConfig → Result Config
unfolding unmarshal_globals unmarshal_dbs unmarshal_apis unmarshal_log
unmarshal_config env m = and_then (unmarshal_globals m.globals) (λ globals.
    and_then (unmarshal_dbs m.dbs) (λ dbs. and_then (unmarshal_apis env m.apis) (λ apis.
      and_then (about (bytes "logging") (unmarshal_log m.logging))
        (λ log. success (record { globals = globals; dbs = some dbs; apis = apis; log = log })))))

abbrev marshal_dbs : Option (List (Bytes × DatabaseConfig)) → List (Bytes × MarshaledDatabase)
marshal_dbs none = []
marshal_dbs (some []) = []
marshal_dbs (some ((n, db) ∷ rest)) = (n, marshal_database db) ∷ marshal_dbs (some rest)

unfoldable pub marshal_apis : List (Bytes × ApiConfig) → Run (List (Bytes × MarshaledApi))
unfolding marshal_api
marshal_apis [] = done []
marshal_apis ((n, api) ∷ rest) =
    let others = marshal_apis rest in marshal_api api >>= λ m. others >>= λ ms. done ((n, m) ∷ ms)

-- `marshalConfig`
unfoldable pub marshal_config : Config → Run MarshaledConfig
unfolding marshal_apis marshal_database marshal_globals marshal_log
marshal_config cfg = marshal_apis cfg.apis >>= λ apis. done (record {
  globals = marshal_globals cfg.globals;
  dbs = marshal_dbs cfg.dbs;
  apis = apis;
  logging = marshal_log cfg.log;
})
