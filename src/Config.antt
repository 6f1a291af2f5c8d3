-- ===== src/Config.antt =====
-- Configuration values and the configuration that all APIs have: CommonConfig of config.go. What
-- messages of errors quote is left out of these. An int is its 64 bits.
pub mod Dbs
pub mod Listen
pub mod Secrets
pub mod Whole
pub mod Bundle
pub mod Loading
pub mod Connectors
pub mod Tests
use jelly.Base.{
  ℕ, ◌+◌, ◌-◌, ◌*◌, ◌^◌, List, [], ◌∷◌, Option, none, some, Bool, true, false, ◌&&◌, ◌||◌, Bytes,
  bytes, bytes_eq, if◌then◌else◌, ltb, leb, ◌==◌, to_lower, split_all, has_part,
}
use jelly.Auth.Errors.{Error, foreign}
use jelly.Auth.User.{Result, success, failure}
use jelly.Server.Requests.{errorf}

-- A value that a key of a configuration can have, or that a file has: of the types string, bool,
-- []string, []byte (perhaps nil), int, and an object or any other type.
mutual
  pub data Value : Type 0 where
    a_string : Bytes → Value
    a_bool : Bool → Value
    some_strings : List Bytes → Value
    some_bytes : Option Bytes → Value
    an_int : ℕ → Value
    an_object : Fields → Value
    another : Value

  pub data Fields : Type 0 where
    no_fields : Fields
    field : Bytes → Value → Fields → Fields

pub record CommonConfig : Type 0 where
  pub name : Bytes
  pub enabled : Bool
  pub base : Bytes
  pub uses_dbs : List Bytes

-- `CommonConfig.FillDefaults`
unfoldable pub common_fill_defaults : CommonConfig → CommonConfig
unfolding bytes_eq
common_fill_defaults cc = record cc { base = if bytes_eq cc.base [] then bytes "/" else cc.base }

-- Validation: the error, if there is one.
unfoldable pub validate_base_uri : Bytes → Option Error
unfolding has_part
validate_base_uri base =
    if has_part (123 ∷ []) base
    then some (foreign (bytes "contains disallowed char \"{\""))
    else if has_part (125 ∷ []) base
    then some (foreign (bytes "contains disallowed char \"}\""))
    else if has_part (bytes "//") base
    then some (foreign (bytes "contains disallowed double-slash \"//\""))
    else none

abbrev pub within : Bytes → Option Error → Option Error
within msg none = none
within msg (some err) = some (errorf msg err)

-- `CommonConfig.Validate`
unfoldable pub common_validate : CommonConfig → Option Error
unfolding validate_base_uri
common_validate cc = within (bytes "base") (validate_base_uri cc.base)

pub data CommonKey : Type 0 where
  key_name key_enabled key_base key_uses : CommonKey

-- The case of a switch on `strings.ToLower(key)`, if any.
unfoldable pub common_key : Bytes → Option CommonKey
common_key key =
    let low = to_lower key in
    if bytes_eq low (bytes "name")
    then some key_name
    else if bytes_eq low (bytes "enabled")
    then some key_enabled
    else if bytes_eq low (bytes "base")
    then some key_base
    else if bytes_eq low (bytes "uses")
    then some key_uses
    else none

abbrev pub common_keys : List Bytes
common_keys = bytes "name" ∷ bytes "enabled" ∷ bytes "base" ∷ bytes "uses" ∷ []

abbrev pub value_at : Option CommonKey → CommonConfig → Option Value
value_at (some key_name) cc = some (a_string cc.name)
value_at (some key_enabled) cc = some (a_bool cc.enabled)
value_at (some key_base) cc = some (a_string cc.base)
value_at (some key_uses) cc = some (some_strings cc.uses_dbs)
value_at none cc = none

-- `CommonConfig.Get`; none is nil.
unfoldable pub common_get : Bytes → CommonConfig → Option Value
unfolding common_key
common_get key cc = value_at (common_key key) cc

abbrev pub wrong_type : {A : Type 0} → Result A
wrong_type = failure (foreign (bytes "key requires a value of another type"))

abbrev pub invalid_key : {A : Type 0} → Result A
invalid_key = failure (foreign (bytes "not a valid key"))

abbrev with_name : CommonConfig → Value → Result CommonConfig
with_name cc (a_string s) = success (record cc { name = s })
with_name cc v = wrong_type

abbrev with_enabled : CommonConfig → Value → Result CommonConfig
with_enabled cc (a_bool b) = success (record cc { enabled = b })
with_enabled cc v = wrong_type

abbrev with_base : CommonConfig → Value → Result CommonConfig
with_base cc (a_string s) = success (record cc { base = s })
with_base cc v = wrong_type

abbrev with_uses : CommonConfig → Value → Result CommonConfig
with_uses cc (some_strings dbs) = success (record cc { uses_dbs = dbs })
with_uses cc v = wrong_type

abbrev pub set_at : Option CommonKey → Value → CommonConfig → Result CommonConfig
set_at (some key_name) v cc = with_name cc v
set_at (some key_enabled) v cc = with_enabled cc v
set_at (some key_base) v cc = with_base cc v
set_at (some key_uses) v cc = with_uses cc v
set_at none v cc = invalid_key

-- `CommonConfig.Set`
unfoldable pub common_set : Bytes → Value → CommonConfig → Result CommonConfig
unfolding common_key
common_set key v cc = set_at (common_key key) v cc

-- `strconv.ParseBool`
unfoldable pub parse_bool : Bytes → Result Bool
parse_bool s =
    if bytes_eq s (bytes "1")
      || bytes_eq s (bytes "t")
      || bytes_eq s (bytes "T")
      || bytes_eq s (bytes "TRUE")
      || bytes_eq s (bytes "true")
      || bytes_eq s (bytes "True")
    then success true
    else if bytes_eq s (bytes "0")
        || bytes_eq s (bytes "f")
        || bytes_eq s (bytes "F")
        || bytes_eq s (bytes "FALSE")
        || bytes_eq s (bytes "false")
        || bytes_eq s (bytes "False")
    then success false
    else failure (foreign (bytes "strconv.ParseBool: invalid syntax"))

-- `strings.Split(value, ",")`, or nothing for no value
abbrev listed : Bytes → List Bytes
listed [] = []
listed (c ∷ value) = let parts = split_all 44 (c ∷ value) in parts.0 ∷ parts.1

abbrev parsed_bool : Bytes → CommonConfig → Result Bool → Result CommonConfig
parsed_bool key cc (failure err) = failure err
parsed_bool key cc (success b) = common_set key (a_bool b) cc

abbrev set_string_at : Option CommonKey → Bytes → Bytes → CommonConfig → Result CommonConfig
set_string_at (some key_name) key value cc = common_set key (a_string value) cc
set_string_at (some key_base) key value cc = common_set key (a_string value) cc
set_string_at (some key_enabled) key value cc = parsed_bool key cc (parse_bool value)
set_string_at (some key_uses) key value cc = common_set key (some_strings (listed value)) cc
set_string_at none key value cc = invalid_key

-- `CommonConfig.SetFromString`
unfoldable pub common_set_from_string : Bytes → Bytes → CommonConfig → Result CommonConfig
unfolding common_set parse_bool split_all
common_set_from_string key value cc = set_string_at (common_key key) key value cc

-- The digits of a number, with what is before them.
unfoldable pub digits_value : ℕ → Bytes → Option ℕ
digits_value acc [] = some acc
digits_value acc (c ∷ s) =
    let rest = digits_value (acc * 10 + (c - 48)) s in if leb 48 c && leb c 57 then rest else none

abbrev in_range : ℕ → Option ℕ → Option ℕ
in_range limit none = none
in_range limit (some n) = if leb n limit then some n else none

abbrev negated_bits : Option ℕ → Option ℕ
negated_bits none = none
negated_bits (some n) = some (if n == 0 then 0 else 2 ^ 64 - n)

abbrev unsigned : ℕ → Bytes → Option ℕ
unsigned limit [] = none
unsigned limit (c ∷ s) = in_range limit (digits_value 0 (c ∷ s))

-- `strconv.Atoi`: none if it fails
unfoldable pub atoi : Bytes → Option ℕ
unfolding digits_value
atoi [] = none
atoi (c ∷ s) =
    if c == 45
    then negated_bits (unsigned (2 ^ 63) s)
    else if c == 43
    then unsigned (2 ^ 63 - 1) s
    else unsigned (2 ^ 63 - 1) (c ∷ s)
