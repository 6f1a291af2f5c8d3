-- ===== src/Server/Apis.antt =====
-- The APIs of a server: Add and initAPI of server/server.go, with getAPIConfigBundle.
pub mod Routes
use jelly.Base.{
  ℕ, List, [], ◌∷◌, ◌++◌, Option, none, some, Bool, true, false, not, ◌&&◌, Bytes, bytes, bytes_eq,
  Run, done, panics, starved, ◌>>=◌, if◌then◌else◌, to_lower,
}
use jelly.Auth.Errors.{Error, foreign}
use jelly.Auth.User.{Result, success, failure}
use jelly.Config.{CommonConfig, common_fill_defaults}
use jelly.Config.Bundle.{Bundle, api_base, uses_dbs, enabled}
use jelly.Config.Listen.{Globals}
use jelly.Config.Whole.{ApiConfig, common_api, find}
use jelly.Middle.{Authenticator, Provider, register_authenticator}
use jelly.Server.Requests.{errorf}

-- The fields of a restServer that Add changes. Of `apis` the names matter here.
pub record Apis : Type 0 where
  pub apis : List (Bytes × Bool)
  pub api_bases : List (Bytes × Bytes)
  pub bases_to_apis : List (Bytes × Bytes)

abbrev or_common : Bytes → Option ApiConfig → ApiConfig
or_common name none =
    common_api
      (common_fill_defaults (record { name = name; enabled = false; base = []; uses_dbs = [] }))
or_common name (some conf) = conf

-- `getAPIConfigBundle`
unfoldable pub get_api_config_bundle : List (Bytes × ApiConfig) → Globals → Bytes → Bundle
unfolding find to_lower common_fill_defaults
get_api_config_bundle confs globals name = record {
  api = or_common name (find (to_lower name) confs);
  g = globals;
}

-- Whether all databases that the API uses are connected; `dbs` are lower-case names.
unfoldable pub all_connected : List (Bytes × Bool) → List Bytes → Bool
unfolding find to_lower
all_connected dbs [] = true
all_connected dbs (db ∷ used) =
    let others = all_connected dbs used in
    elim (find (to_lower db) dbs) [ none ↦ false | some c ↦ others ]

-- The check and the claim of the base of an API, which is free for all if it is the root.
unfoldable pub claim_base : Bytes → Bytes → Apis → Result Apis
unfolding find bytes_eq
claim_base name base m =
    if bytes_eq base (bytes "/") then success m else elim (find base m.bases_to_apis) [
      | some cur_user ↦ failure (foreign (bytes "effectively identical API route bases"))
      | none ↦ success (record m { bases_to_apis = (base, name) ∷ m.bases_to_apis })
    ]

-- The base of an API that is initialised, or its error, and the fields; `init` is what its Init
-- returns.
abbrev initialized : Option Error → Bytes → Apis → Result Bytes × Apis
initialized none base m = (success base, m)
initialized (some err) base m = (failure (errorf (bytes "Init()") err), m)

abbrev pub claimed : Option Error → Bytes → Apis → Result Apis → Result Bytes × Apis
claimed init base m (failure err) = (failure err, m)
claimed init base m (success n) = initialized init base n

-- `initAPI`, with the values that it reads from the bundle
unfoldable pub init_api :
    List (Bytes × Bool) → Option Error → Bytes → List Bytes → Bytes → Apis → Result Bytes × Apis
unfolding all_connected claim_base
init_api dbs init name used base m =
    if not (all_connected dbs used)
    then (failure (foreign (bytes "API refers to missing DB")), m)
    else claimed init base m (claim_base name base m)

-- Add of an API that is enabled: the error, and the fields.
abbrev pub with_base : Bytes → Result Bytes × Apis → Option Error × Apis
with_base name (failure err, m) = (some err, m)
with_base name (success base, m) = (none, record m { api_bases = (name, base) ∷ m.api_bases })

abbrev already_added : Option Error
already_added = some (foreign (bytes "API of that name has already been added"))

-- Add, for a name in lower case, with the values that it reads from the bundle.
unfoldable pub add_named :
    List (Bytes × Bool)
    → Option Error
    → Bytes
    → Bool
    → List Bytes
    → Bytes
    → Apis
    → Option Error × Apis
unfolding init_api find
add_named dbs init name is_enabled used base m =
    let added : Apis = record m { apis = (name, true) ∷ m.apis } in
    elim (find name m.apis) [
      | some known ↦ (already_added, m)
      | none ↦
          if is_enabled
          then with_base name (init_api dbs init name used base added)
          else (none, added)
    ]

-- `Add`, up to the registration of authenticators
unfoldable pub add :
    List (Bytes × ApiConfig)
    → Globals
    → List (Bytes × Bool)
    → Option Error
    → Bytes
    → Apis
    → Run (Option Error × Apis)
unfolding add_named get_api_config_bundle api_base uses_dbs enabled to_lower
add confs globals dbs init name m =
    let b = get_api_config_bundle confs globals (to_lower name) in
    enabled b >>= λ is_enabled. uses_dbs b >>= λ used.
    api_base b >>= λ base. done (add_named dbs init (to_lower name) is_enabled used base m)

-- The registration of the authenticators of an API, whose errors Add drops.
abbrev kept_or : {S : Type 0} → Provider S → Result (Provider S) → Provider S
kept_or p (success q) = q
kept_or p (failure err) = p

unfoldable pub register_all :
    {S : Type 0} → Bytes → List (Bytes × Authenticator S) → Provider S → Provider S
unfolding register_authenticator
register_all name [] p = p
register_all name ((a_name, a) ∷ auths) p =
    register_all name auths (kept_or p (register_authenticator (name ++ (46 ∷ a_name)) (some a) p))
