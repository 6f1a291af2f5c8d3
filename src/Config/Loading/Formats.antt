-- ===== src/Config/Loading/Formats.antt =====
-- The file that a configuration is read from: DetectFormat, and marshaledConfig.unmarshalMap of
-- internal/config/config.go, which reads the object that the file is.
pub mod Authenticator
use jelly.Base.{
  ℕ, List, [], ◌∷◌, ◌++◌, Option, none, some, Bool, true, false, not, ◌&&◌, ◌||◌, Bytes, bytes,
  bytes_eq, if◌then◌else◌, to_lower, split_all,
}
use jelly.Auth.Errors.{Error, foreign}
use jelly.Auth.User.{Result, success, failure}
use jelly.Config.{Value, a_string, an_object, another, Fields, no_fields, field}
use jelly.Config.Listen.{MarshaledGlobals, MarshaledLog}
use jelly.Config.Whole.{find}
use jelly.Config.Loading.{MarshaledDatabase, MarshaledApi, MarshaledConfig, and_then, about}

-- `Format`
pub data Format : Type 0 where
  no_format json yaml : Format

-- `Format.Extensions`
abbrev pub extensions : Format → List Bytes
extensions no_format = []
extensions json = bytes "json" ∷ bytes "jsn" ∷ []
extensions yaml = bytes "yaml" ∷ bytes "yml" ∷ []

unfoldable pub is_one_of : Bytes → List Bytes → Bool
unfolding bytes_eq to_lower
is_one_of ext [] = false
is_one_of ext (e ∷ exts) =
    let later = is_one_of ext exts in if bytes_eq ext (to_lower e) then true else later

abbrev first_format : Bytes → List Format → Format
first_format ext [] = no_format
first_format ext (f ∷ fs) = if is_one_of ext (extensions f) then f else first_format ext fs

-- `DetectFormat`, from what filepath.Ext gives without its dot
unfoldable pub detect_format : Bytes → Format
unfolding is_one_of
detect_format ext = first_format (to_lower ext) (json ∷ yaml ∷ [])

-- The fields of an object, with keys in lower case.
unfoldable pub lower_fields : Fields → List (Bytes × Value)
unfolding to_lower
lower_fields no_fields = []
lower_fields (field k v fields) = (to_lower k, v) ∷ lower_fields fields

-- `delete(m, key)`
unfoldable pub without : {A : Type 0} → Bytes → List (Bytes × A) → List (Bytes × A)
unfolding bytes_eq
without key [] = []
without key ((k, v) ∷ rest) =
    let others = without key rest in if bytes_eq k key then others else (k, v) ∷ others

abbrev pub should_be : {A : Type 0} → Bytes → Result A
should_be what = failure (foreign what)

-- A string under a key that may be missing.
abbrev pub string_or : Option Value → Result Bytes
string_or none = success []
string_or (some (a_string s)) = success s
string_or (some v) = should_be (bytes "should be a string")

abbrev two_parts : Bytes → Bytes × List Bytes → Result Bytes
two_parts s (component, provider ∷ []) = success s
two_parts s parts = should_be (bytes "authenticator: not in COMPONENT.PROVIDER format")

abbrev pub authenticator_or : Option Value → Result Bytes
authenticator_or none = success []
authenticator_or (some (a_string s)) = two_parts s (split_all 46 s)
authenticator_or (some v) = should_be (bytes "authenticator: should be a string")

abbrev pub zero_log : MarshaledLog
zero_log = record { enabled = false; provider = []; file = [] }

-- Values are encoded again and decoded as what they should be: these are parameters.
module _ (decode_log : Fields → Result MarshaledLog) (decode_db : Value → Result MarshaledDatabase)
    (decode_api : Fields → Result MarshaledApi) where
  abbrev pub log_or : Option Value → Result MarshaledLog
  log_or none = success zero_log
  log_or (some (an_object o)) = about (bytes "logging") (decode_log o)
  log_or (some v) = should_be (bytes "logging: should be an object")

  unfoldable pub dbs_of : Fields → Result (List (Bytes × MarshaledDatabase))
  dbs_of no_fields = success []
  dbs_of (field name v fields) =
      let others = dbs_of fields in
      and_then (about (bytes "dbs") (decode_db v))
        (λ db. and_then others (λ dbs. success ((name, db) ∷ dbs)))

  abbrev pub dbs_or : Option Value → Result (List (Bytes × MarshaledDatabase))
  dbs_or none = success []
  dbs_or (some (an_object o)) = dbs_of o
  dbs_or (some v) = should_be (bytes "dbs: should be an object")

  -- One section of an API.
  unfoldable pub api_section : Value → Result MarshaledApi
  unfolding lower_fields without
  api_section (an_object o) = and_then (decode_api o) (λ api. success (record api {
    others =
        without (bytes "enabled")
          (without (bytes "uses") (without (bytes "base") (lower_fields o)));
  }))
  api_section v = should_be (bytes "should be an object")

  unfoldable pub api_sections : List (Bytes × Value) → Result (List (Bytes × MarshaledApi))
  unfolding api_section
  api_sections [] = success []
  api_sections ((name, v) ∷ rest) =
      let others = api_sections rest in
      and_then (about name (api_section v))
        (λ api. and_then others (λ apis. success ((name, api) ∷ apis)))

  -- What is left of the object after the keys that are deleted.
  abbrev pub sections : List (Bytes × Value) → List (Bytes × Value)
  sections m =
      without (bytes "dbs")
        (without (bytes "logging") (without (bytes "base") (without (bytes "listen") m)))

  -- `unmarshalMap`: the key "authenticator" is not deleted.
  unfoldable pub unmarshal_lowered : List (Bytes × Value) → Result MarshaledConfig
  unfolding find dbs_of api_sections split_all without
  unmarshal_lowered m = and_then (string_or (find (bytes "listen") m)) (λ listen.
      and_then (string_or (find (bytes "base") m)) (λ base.
        and_then (log_or (find (bytes "logging") m)) (λ log.
          and_then (authenticator_or (find (bytes "authenticator") m)) (λ auth.
            and_then (dbs_or (find (bytes "dbs") m)) (λ dbs.
              and_then (api_sections (sections m)) (λ apis. success (record {
                globals = record { listen = listen; auth = auth; base = base };
                dbs = dbs;
                apis = apis;
                logging = log;
              })))))))

  unfoldable pub unmarshal_map : Fields → Result MarshaledConfig
  unfolding unmarshal_lowered lower_fields
  unmarshal_map m = unmarshal_lowered (lower_fields m)
