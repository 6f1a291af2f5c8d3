-- ===== src/Config/Dbs.antt =====
-- The configuration of databases of config.go, and connection strings.
pub mod Strings
use jelly.Base.{
  ℕ, ◌+◌, List, [], ◌∷◌, ◌++◌, Option, none, some, Bool, true, false, not, ◌&&◌, Bytes, bytes,
  bytes_eq, Run, done, panics, ◌>>=◌, if◌then◌else◌, ◌==◌, leb, ltb, to_lower, trim_space, split_2,
  has_part, length, read, take,
}
use jelly.Auth.Errors.{Error, foreign}
use jelly.Auth.User.{Result, success, failure}
use jelly.Server.Requests.{errorf}

-- A DBType is a string.
abbrev pub database_none : Bytes
database_none = bytes "none"

abbrev pub database_sqlite : Bytes
database_sqlite = bytes "sqlite"

abbrev pub database_owdb : Bytes
database_owdb = bytes "owdb"

abbrev pub database_in_memory : Bytes
database_in_memory = bytes "inmem"

pub record DatabaseConfig : Type 0 where
  pub db_type : Bytes
  pub connector : Bytes
  pub data_dir : Bytes
  pub data_file : Bytes

abbrev pub database_of : Bytes → Bytes → Bytes → DatabaseConfig
database_of t dir file = record { db_type = t; connector = []; data_dir = dir; data_file = file }

-- `ParseDBType`
unfoldable pub parse_db_type : Bytes → Result Bytes
parse_db_type s =
    let low = to_lower s in
    if bytes_eq low database_sqlite
    then success database_sqlite
    else if bytes_eq low database_in_memory
    then success database_in_memory
    else if bytes_eq low database_owdb
    then success database_owdb
    else failure (foreign (bytes "DB type is not one of 'sqlite', 'owdb', or 'inmem'"))

abbrev typed : DatabaseConfig → DatabaseConfig
typed db = if bytes_eq db.db_type database_none then database_of database_in_memory [] [] else db

abbrev with_file : DatabaseConfig → DatabaseConfig
with_file db =
    if bytes_eq db.db_type database_owdb && bytes_eq db.data_file []
    then record db { data_file = bytes "db.owv" }
    else db

abbrev with_connector : DatabaseConfig → DatabaseConfig
with_connector db = if bytes_eq db.connector [] then record db { connector = bytes "*" } else db

-- `DatabaseConfig.FillDefaults`
unfoldable pub db_fill_defaults : DatabaseConfig → DatabaseConfig
unfolding bytes_eq
db_fill_defaults db = with_connector (with_file (typed db))

abbrev needs_dir : DatabaseConfig → Option Error
needs_dir db =
    if bytes_eq db.data_dir [] then some (foreign (bytes "DataDir not set to path")) else none

-- `DatabaseConfig.Validate`
unfoldable pub db_validate : DatabaseConfig → Option Error
unfolding bytes_eq
db_validate db =
    if bytes_eq db.db_type database_in_memory
    then none
    else if bytes_eq db.db_type database_sqlite
    then needs_dir db
    else if bytes_eq db.db_type database_owdb
    then needs_dir db
    else if bytes_eq db.db_type database_none
    then some (foreign (bytes "'none' DB is not valid"))
    else some (foreign (bytes "unknown database type"))

-- What the loop of splitWithEscaped changes.
pub record Splitting : Type 0 where
  pub parts : List Bytes
  pub cur : Bytes
  pub sepr_pos : ℕ

abbrev snoc : List Bytes → Bytes → List Bytes
snoc xs x = xs ++ (x ∷ [])

-- The first half of a round of the loop: the test against the separator.
unfoldable pub match_separator : Bytes → ℕ → Splitting → Run Splitting
match_separator sepr ch st = read sepr st.sepr_pos >>= λ expected. done (
    if ch == expected
    then (if leb (length sepr) (st.sepr_pos + 1)
        then record { parts = snoc st.parts st.cur; cur = []; sepr_pos = 0 }
        else record st { sepr_pos = st.sepr_pos + 1 })
    else record st { sepr_pos = 0 })

-- The rest of the string after a round, and the state: a backslash also takes the next character.
unfoldable pub split_loop : Bytes → Splitting → Bytes → Run Splitting
unfolding match_separator
split_loop sepr st [] = done st
split_loop sepr st (ch ∷ []) =
    match_separator sepr ch st >>= λ next. if ch == 92 then panics else done next
split_loop sepr st (ch ∷ after ∷ s) = match_separator sepr ch st >>= λ next.
    let escaped = split_loop sepr (record next { cur = next.cur ++ (ch ∷ after ∷ []) }) s in
    let plain = split_loop sepr next (after ∷ s) in if ch == 92 then escaped else plain

abbrev last_part : Bytes → Splitting → List Bytes
last_part sepr st =
    if ltb 0 (length st.cur) then snoc st.parts (take st.sepr_pos sepr ++ st.cur) else st.parts

abbrev pub start : Splitting
start = record { parts = []; cur = []; sepr_pos = 0 }

-- `splitWithEscaped`, for a separator in ASCII; nil is the empty list.
unfoldable pub split_with_escaped : Bytes → Bytes → Run (List Bytes)
unfolding split_loop has_part
split_with_escaped s sep =
    if has_part (92 ∷ []) s
    then done []
    else split_loop sep start s >>= λ st. done (last_part sep st)

-- The value of a key in a map that later entries overwrite.
unfoldable pub param : Bytes → List (Bytes × Bytes) → Option Bytes
param key [] = none
param key ((k, v) ∷ rest) = elim (param key rest) [
  | some later ↦ some later
  | none ↦ if bytes_eq k key then some v else none
]

abbrev one_param : List Bytes → Result (Bytes × Bytes)
one_param (k ∷ v ∷ []) = success (to_lower k, v)
one_param parts = failure (foreign (bytes "param: not a kv-pair"))

abbrev add_param :
    Result (Bytes × Bytes)
    → Run (Result (List (Bytes × Bytes)))
    → Run (Result (List (Bytes × Bytes)))
add_param (failure err) rest = done (failure err)
add_param (success kv) rest = rest >>= λ r. elim r [
  | failure err ↦ done (failure err)
  | success params ↦ done (success (kv ∷ params))
]

-- The loop of parseParamsMap.
unfoldable pub params_of : List Bytes → Run (Result (List (Bytes × Bytes)))
unfolding split_with_escaped
params_of [] = done (success [])
params_of (kv ∷ seqs) =
    let rest = params_of seqs in
    split_with_escaped kv (61 ∷ []) >>= λ parsed. add_param (one_param parsed) rest

abbrev checked_seqs : List Bytes → Run (Result (List (Bytes × Bytes)))
checked_seqs [] = done (failure (foreign (bytes "not a map format string")))
checked_seqs (kv ∷ seqs) = params_of (kv ∷ seqs)

-- `parseParamsMap`
unfoldable pub parse_params_map : Bytes → Run (Result (List (Bytes × Bytes)))
unfolding params_of
parse_params_map param_str = split_with_escaped param_str (44 ∷ []) >>= λ seqs. checked_seqs seqs

-- On systems where paths are separated by slashes, `filepath.FromSlash` changes nothing.
abbrev file_or_default : Option Bytes → Bytes
file_or_default none = bytes "db.owv"
file_or_default (some file) = file

abbrev owdb_of : Result (List (Bytes × Bytes)) → Result DatabaseConfig
owdb_of (failure err) = failure err
owdb_of (success params) = elim (param (bytes "dir") params) [
  | none ↦ failure (foreign (bytes "owdb DB engine params missing key 'dir'"))
  | some dir ↦
      success (database_of database_owdb dir (file_or_default (param (bytes "file") params)))
]

abbrev pub trimmed_params : Option Bytes → Bytes
trimmed_params none = []
trimmed_params (some s) = trim_space s

-- The part of ParseDBConnString after the engine is parsed.
unfoldable pub connection_of : Bytes → Bytes → Run (Result DatabaseConfig)
unfolding parse_params_map param
connection_of engine param_str =
    if bytes_eq engine database_in_memory
    then done (
        if not (bytes_eq param_str [])
        then failure (foreign (bytes "unsupported param(s) for in-memory DB engine"))
        else success (database_of database_in_memory [] []))
    else if bytes_eq engine database_sqlite
    then done (
        if bytes_eq param_str []
        then failure (foreign (bytes "sqlite DB engine requires path to data directory after ':'"))
        else success (database_of database_sqlite param_str []))
    else if bytes_eq engine database_owdb
    then (if bytes_eq param_str []
        then done (failure (foreign (bytes "owdb DB engine requires path to data directory")))
        else parse_params_map param_str >>= λ params. done (owdb_of params))
    else if bytes_eq engine database_none
    then done (failure (foreign (bytes "cannot specify DB engine 'none'")))
    else done (failure (foreign (bytes "unknown DB engine")))

abbrev pub connected : Bytes → Result Bytes → Run (Result DatabaseConfig)
connected param_str (failure err) = done (failure (errorf (bytes "unsupported DB engine") err))
connected param_str (success engine) = connection_of engine param_str

-- `ParseDBConnString`
unfoldable pub parse_db_conn_string : Bytes → Run (Result DatabaseConfig)
unfolding connection_of parse_db_type
parse_db_conn_string s =
    let db_parts = split_2 58 s in
    connected (trimmed_params db_parts.1) (parse_db_type (trim_space db_parts.0))
