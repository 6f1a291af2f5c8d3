-- ===== src/Config/Tests.antt =====
-- The theorems on the configuration and the life of a server at concrete inputs, and tests.
use jelly.Base.{
  ◌≡◌, ◌≢◌, refl, [], ◌∷◌, List, none, some, Bool, true, false, Bytes, bytes, bytes_eq, done,
  panics, to_lower, trim_space, trim_prefixes, cut_any, cut_prefix, split_2, has_part, bytes_le,
  arith,
}
use jelly.Auth.Errors.{Error}
use jelly.Auth.User.{Result, success, failure}
use jelly.Config.{
  a_string, Fields, no_fields, field, common_set, common_key, common_get, validate_base_uri,
}
use jelly.Config.Dbs.{
  DatabaseConfig, database_of, database_sqlite, parse_db_type, parse_db_conn_string,
}
use jelly.Config.Dbs.Strings.{usable, parse_db_conn_string-usable}
use jelly.Config.Listen.{Globals, LogConfig}
use jelly.Config.Secrets.{AuthConfig, auth_get, auth_set, auth_key}
use jelly.Config.Secrets.Values.{kept, auth_get-auth_set}
use jelly.Config.Whole.{
  Config, auth_api, fill_defaults, validate, find, config_get, api_has, has_key, api_get,
}
use jelly.Config.Whole.Defaults.{login_only, fill_defaults-login_only}
use jelly.Config.Loading.{MarshaledConfig, marshal_config, unmarshal_config}
use jelly.Config.Loading.Files.{login_api, unmarshal_config-marshal_config}
use jelly.Config.Loading.Formats.{
  unmarshal_map, lower_fields, should_be, detect_format, yaml, is_one_of,
}
use jelly.Config.Loading.Formats.Authenticator.{unmarshal_map-authenticator}
use jelly.Config.Connectors.{list_connectors, sort_strings, insert_string}
use jelly.Config.Bundle.{
  normal_base, without_end_slashes, full_base, server_base, api_base, get_string, get_or,
}
use jelly.Server.Apis.{Apis, add_named, init_api, all_connected, claim_base}
use jelly.Server.Apis.Routes.{IsRouted, add_named-bases}
use jelly.Server.Missed.{shut_down-missed}
use jelly.Server.Lifecycle.{
  Life, new_life, begin_serving, set_http, shut_down, Reachable, fresh, after, begin, IsSound,
  reachable-IsSound, ApiEnd, shut_down_serving, end_apis, still, onward,
}

parse_db_conn_string-usable_example :
    ((r : Result DatabaseConfig) × (parse_db_conn_string (bytes "owdb:dir=/var/db,file=a.owv")
        ≡ done r)
      × (usable r ≡ true))
    × (parse_db_conn_string (bytes "SQLite : /var/db")
        ≡ done (success (database_of database_sqlite (bytes "/var/db") [])))
unfolding split_2 trim_space trim_prefixes cut_any cut_prefix parse_db_type to_lower bytes_eq
parse_db_conn_string-usable_example =
    parse_db_conn_string-usable (bytes "owdb:dir=/var/db,file=a.owv") (bytes "SQLite : /var/db")
      (bytes "SQLite ") (bytes " /var/db") refl refl refl

abbrev conf : AuthConfig
conf = login_api (bytes "jellyauth") true (bytes "/auth") (bytes "auth" ∷ []) (bytes "s3cret") [] 5

abbrev patient : AuthConfig
patient = record conf { secret = some (bytes "other") }

auth_get-auth_set_example :
    (auth_get (bytes "SECRET") patient
      ≡ some (kept (auth_key (bytes "SECRET")) (a_string (bytes "other"))))
    × (common_get (bytes "Base") (record conf.common_conf { base = bytes "/b" })
        ≡ some (a_string (bytes "/b")))
unfolding auth_set common_set auth_key common_key to_lower bytes_eq
auth_get-auth_set_example =
    auth_get-auth_set (bytes "SECRET") (bytes "Base") (a_string (bytes "other"))
      (a_string (bytes "/b")) conf patient conf.common_conf
      (record conf.common_conf { base = bytes "/b" }) refl refl

abbrev a_log : LogConfig
a_log = record { enabled = true; provider = 0; file = [] }

fill_defaults-login_only_example :
    (fill_defaults (login_only none (bytes "/auth") [] 5 a_log) ≡ panics)
    × ((cfg : Config) × (fill_defaults (login_only (some []) (bytes "/auth") [] 5 a_log) ≡ done cfg)
        × (validate cfg ≡ none)
        × (cfg.globals.main_auth_provider ≡ bytes "jellyauth.jwt"))
unfolding validate_base_uri has_part cut_prefix
fill_defaults-login_only_example = fill_defaults-login_only (bytes "/auth") [] 5 a_log refl

abbrev here : Globals
here = record {
  port = 8080;
  address = bytes "localhost";
  uri_base = bytes "/";
  main_auth_provider = bytes "jellyauth.jwt";
}

abbrev one_db : List (Bytes × DatabaseConfig)
one_db = (bytes "auth", database_of database_sqlite (bytes "/var/db") []) ∷ []

abbrev written_config : Config
written_config = record {
  globals = here;
  dbs = some one_db;
  apis = (bytes "jellyauth", auth_api conf) ∷ [];
  log = a_log;
}

unmarshal_config-marshal_config_example :
    (m : MarshaledConfig) × (marshal_config written_config ≡ done m)
    × (unmarshal_config ((bytes "jellyauth", auth_api patient) ∷ []) m ≡ success written_config)
unfolding bytes_eq
unmarshal_config-marshal_config_example =
    unmarshal_config-marshal_config patient here a_log (some one_db) (bytes "jellyauth") true
      (bytes "/auth") (bytes "auth" ∷ []) (bytes "s3cret") [] 5 (omega arith) refl (omega arith)
      refl

abbrev a_file : Fields
a_file = field (bytes "Authenticator") (a_string (bytes "jellyauth.jwt")) no_fields

unmarshal_map-authenticator_example :
    (err : Error) × (unmarshal_map
        (λ o. should_be [])
        (λ v. should_be [])
        (λ o. should_be [])
        a_file
      ≡ failure err)
unfolding lower_fields to_lower find bytes_eq
unmarshal_map-authenticator_example =
    unmarshal_map-authenticator (λ o. should_be []) (λ v. should_be []) (λ o. should_be [])
      (a_string (bytes "jellyauth.jwt")) a_file refl

reachable-IsSound_example : IsSound (begin_serving new_life).1
reachable-IsSound_example = reachable-IsSound (begin_serving new_life).1 (after fresh begin)

-- A server with an API that stops without an error, and one that is not enabled.
abbrev quiet_apis : List ApiEnd
quiet_apis =
    record { enabled = true; ctx_err = none; result = none }
    ∷ record { enabled = false; ctx_err = none; result = none }
    ∷ []

abbrev missed_life : Life
missed_life = set_http (shut_down none false quiet_apis (begin_serving new_life).1).1

shut_down-missed_example :
    ((shut_down none false quiet_apis (begin_serving new_life).1).0 ≡ [])
    × Reachable (begin_serving missed_life).1
    × ((begin_serving missed_life).1.serving ≡ true)
    × ((begin_serving missed_life).1.http ≡ true)
    × ((shut_down none false [] (begin_serving missed_life).1).1 ≡ (begin_serving missed_life).1)
    × ((shut_down none false [] (begin_serving missed_life).1).0 ≢ [])
unfolding begin_serving set_http shut_down shut_down_serving end_apis
shut_down-missed_example =
    shut_down-missed new_life (begin_serving missed_life).1 false false quiet_apis [] none fresh
      refl refl (onward still begin refl)

-- The names of the connectors of an engine with two of them: the first is blank.
one_name_is_lost :
    list_connectors {C = Bool}
      (bytes "inmem")
      ((bytes "inmem", (bytes "b", true) ∷ (bytes "a", false) ∷ []) ∷ [])
    ≡ [] ∷ bytes "a" ∷ []
unfolding list_connectors find bytes_eq sort_strings insert_string bytes_le
one_name_is_lost = refl

format_of_upper_case : detect_format (bytes "YML") ≡ yaml
unfolding detect_format is_one_of to_lower bytes_eq
format_of_upper_case = refl

abbrev no_apis : Apis
no_apis = record { apis = []; api_bases = []; bases_to_apis = [] }

no_apis-IsRouted : IsRouted no_apis
unfolding find
no_apis-IsRouted = record { leads_back = λ n b at other. cc }

add_named-bases_example :
    IsRouted
      (add_named
        ((bytes "auth", true) ∷ [])
        none
        (bytes "jellyauth")
        true
        (bytes "Auth" ∷ [])
        (bytes "/auth")
        no_apis).1
    × (bytes "jellyauth" ≡ bytes "jellyauth")
unfolding add_named init_api all_connected claim_base find to_lower bytes_eq
add_named-bases_example =
    add_named-bases ((bytes "auth", true) ∷ []) none (bytes "jellyauth") true (bytes "Auth" ∷ [])
      (bytes "/auth") (bytes "jellyauth") (bytes "jellyauth") (bytes "/auth") no_apis
      no_apis-IsRouted refl refl refl

-- A base is given a slash at its start and none at its end, in lower case.
base_is_normal :
    (normal_base (bytes "Api//") ≡ bytes "/api")
    × (normal_base (bytes "//") ≡ bytes "/")
    × (full_base (record {
      api =
          auth_api
            (record conf { common_conf = record conf.common_conf { base = bytes "Login/" } });
      g = record here { uri_base = bytes "/V1/" };
    })
        ≡ done (bytes "/v1/login"))
unfolding normal_base without_end_slashes full_base server_base api_base get_string get_or
    config_get api_has has_key api_get auth_get auth_key common_get common_key to_lower bytes_eq
base_is_normal = (refl, refl, refl)
