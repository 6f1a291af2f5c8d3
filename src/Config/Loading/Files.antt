-- ===== src/Config/Loading/Files.antt =====
-- A configuration that is written and read again.
use jelly.Base.{
  ℕ, ◌≡◌, refl, sym, ap, ◌^◌, ◌<◌, List, [], ◌∷◌, Option, none, some, Bool, true, ◌&&◌, ◌||◌, Bytes,
  bytes, bytes_eq, bytes_eq_sound, Run, done, ◌>>=◌, to_lower, subst, Bool-cases, inl, inr, arith,
}
use jelly.Base.Splits.{lacks}
use jelly.Auth.User.{success}
use jelly.Config.{common_get, common_set, common_key}
use jelly.Config.Dbs.{
  DatabaseConfig, database_sqlite, database_owdb, database_in_memory, parse_db_type,
}
use jelly.Config.Listen.{Globals, LogConfig, marshal_globals, marshal_log}
use jelly.Config.Listen.Trips.{unmarshal_globals-marshal_globals}
use jelly.Config.Secrets.{AuthConfig, auth_get, auth_set, auth_key}
use jelly.Config.Whole.{auth_api, api_get, api_set, find}
use jelly.Config.Loading.{
  marshal_database, unmarshal_database, MarshaledApi, in_keys, other_fields, marshal_api,
  set_others, unmarshal_api, MarshaledConfig, marshal_dbs, unmarshal_dbs, marshal_apis,
  unmarshal_apis, marshal_config, unmarshal_config,
}

abbrev known_type : Bytes → Bool
known_type t =
    bytes_eq t database_sqlite || bytes_eq t database_in_memory || bytes_eq t database_owdb

-- Whether all databases have one of the types that have a name.
abbrev pub all_known : List (Bytes × DatabaseConfig) → Bool
all_known [] = true
all_known ((n, db) ∷ rest) = known_type db.db_type && all_known rest

parse-known : (t : Bytes) → known_type t ≡ true → parse_db_type t ≡ success t
unfolding parse_db_type bytes_eq to_lower
parse-known t e = elim (Bool-cases (bytes_eq t database_sqlite)) [
  | inl a ↦ subst (λ s. parse_db_type s ≡ success s) (sym (bytes_eq_sound t database_sqlite a)) refl
  | inr a ↦ elim (Bool-cases (bytes_eq t database_in_memory)) [
    | inl b ↦
        subst (λ s. parse_db_type s ≡ success s) (sym (bytes_eq_sound t database_in_memory b)) refl
    | inr b ↦
        let c : bytes_eq t database_owdb ≡ true = ground arith in
        subst (λ s. parse_db_type s ≡ success s) (sym (bytes_eq_sound t database_owdb c)) refl
  ]
]

unmarshal_dbs-marshal_dbs :
    (dbs : List (Bytes × DatabaseConfig))
    → all_known dbs ≡ true
    → unmarshal_dbs (marshal_dbs (some dbs)) ≡ success dbs
unfolding unmarshal_dbs marshal_database unmarshal_database
unmarshal_dbs-marshal_dbs [] e = refl
unmarshal_dbs-marshal_dbs ((n, db) ∷ rest) e =
    let first : known_type db.db_type ≡ true = ground arith in
    let others : all_known rest ≡ true = ground arith in
    rw
      (
        unmarshal_dbs,
        unmarshal_database,
        parse-known db.db_type first,
        unmarshal_dbs-marshal_dbs rest others,
      )
      refl

-- The configuration of the login API, with a secret.
abbrev pub login_api :
    (name : Bytes)
    → Bool
    → (base : Bytes) → List Bytes
    → (secret set_admin : Bytes) → ℕ
    → AuthConfig
login_api name enabled base uses secret set_admin delay = record {
  common_conf = record { name = name; enabled = enabled; base = base; uses_dbs = uses };
  secret = some secret;
  set_admin = set_admin;
  unauth_delay_millis = delay;
}

unmarshal_api-marshal_api :
    (fresh : AuthConfig) (name : Bytes) (enabled : Bool) (base : Bytes) (uses : List Bytes)
    (secret set_admin : Bytes) (delay : ℕ)
    → (m : List (Bytes × MarshaledApi)) × (marshal_apis (
          (bytes "jellyauth", auth_api (login_api name enabled base uses secret set_admin delay))
          ∷ [])
        ≡ done m)
      × (unmarshal_apis ((bytes "jellyauth", auth_api fresh) ∷ []) m
          ≡ success (
              (
                bytes "jellyauth",
                auth_api (login_api (bytes "jellyauth") enabled base uses secret set_admin delay),
              )
              ∷ []))
unfolding marshal_apis marshal_api other_fields in_keys api_get auth_get auth_key common_get
    common_key bytes_eq to_lower unmarshal_apis unmarshal_api set_others api_set auth_set common_set
    find
unmarshal_api-marshal_api fresh name enabled base uses secret set_admin delay = (_, refl, refl)

abbrev entries : Option (List (Bytes × DatabaseConfig)) → List (Bytes × DatabaseConfig)
entries none = []
entries (some dbs) = dbs

unmarshal_dbs-marshal_dbs_of :
    (dbs : Option (List (Bytes × DatabaseConfig)))
    → all_known (entries dbs) ≡ true
    → unmarshal_dbs (marshal_dbs dbs) ≡ success (entries dbs)
unfolding unmarshal_dbs
unmarshal_dbs-marshal_dbs_of none known = refl
unmarshal_dbs-marshal_dbs_of (some dbs) known = unmarshal_dbs-marshal_dbs dbs known

-- A configuration is read back from the form that is written of it, if its port has 64 bits, its
-- address has no colon, its log has one of the three providers, its databases have types that
-- have names, and it has the login API, with a secret, under the name "jellyauth", as its only
-- API, for which the environment has a provider. It is then as it was, but for a nil map of
-- databases, which is read as an empty one, and the field Name of the API, which is read as
-- "jellyauth" whatever it was.
pub unmarshal_config-marshal_config :
    (fresh : AuthConfig) (g : Globals) (log : LogConfig)
    (dbs : Option (List (Bytes × DatabaseConfig))) (name : Bytes) (enabled : Bool) (base : Bytes)
    (uses : List Bytes) (secret set_admin : Bytes) (delay : ℕ)
    → g.port < 2 ^ 64
    → lacks 58 g.address ≡ true
    → log.provider < 3
    → all_known (entries dbs) ≡ true
    → (m : MarshaledConfig) × (marshal_config (record {
      globals = g;
      dbs = dbs;
      apis =
          (bytes "jellyauth", auth_api (login_api name enabled base uses secret set_admin delay))
          ∷ [];
      log = log;
    })
        ≡ done m)
      × (unmarshal_config ((bytes "jellyauth", auth_api fresh) ∷ []) m
          ≡ success (record {
            globals = g;
            dbs = some (entries dbs);
            apis =
                (
                  bytes "jellyauth",
                  auth_api (login_api (bytes "jellyauth") enabled base uses secret set_admin delay),
                )
                ∷ [];
            log = log;
          }))
unfolding marshal_config unmarshal_config
unmarshal_config-marshal_config fresh g log dbs name enabled base uses secret set_admin delay bits
      no_colon known types =
    let (apis, made, back) =
      unmarshal_api-marshal_api fresh name enabled base uses secret set_admin delay in
    let (of_globals, of_log) = unmarshal_globals-marshal_globals g log bits no_colon known in
    (
      record {
        globals = marshal_globals g;
        dbs = marshal_dbs dbs;
        apis = apis;
        logging = marshal_log log;
      },
      ap
          (λ (r : Run (List (Bytes × MarshaledApi))). r >>= λ found. done (record {
            globals = marshal_globals g;
            dbs = marshal_dbs dbs;
            apis = found;
            logging = marshal_log log;
          }))
          made,
      rw (unmarshal_config, of_globals, unmarshal_dbs-marshal_dbs_of dbs types, back, of_log) refl,
    )
