-- ===== src/Config/Bundle.antt =====
-- What an API is given of its configuration: Bundle of jelly.go.
use jelly.Base.{
  ℕ, List, [], ◌∷◌, ◌++◌, Option, none, some, Bool, false, not, ◌&&◌, ◌||◌, Bytes, bytes, bytes_eq,
  Run, done, panics, ◌>>=◌, if◌then◌else◌, ◌==◌, to_lower,
}
use jelly.Config.{Value, some_bytes, an_int}
use jelly.Config.Listen.{Globals}
use jelly.Config.Whole.{ApiConfig, api_has, config_get, string_in, bool_in, strings_in}

-- The logger and the connected databases are left out.
pub record Bundle : Type 0 where
  pub api : ApiConfig
  pub g : Globals

-- The loop that removes slashes from the end: from the last character on.
unfoldable pub without_end_slashes : Bytes → Bytes
unfolding bytes_eq
without_end_slashes [] = []
without_end_slashes (c ∷ s) =
    let rest = without_end_slashes s in if c == 47 && bytes_eq rest [] then [] else c ∷ rest

abbrev rooted : Bytes → Bytes
rooted [] = bytes "/"
rooted (c ∷ s) = if c == 47 then c ∷ s else 47 ∷ c ∷ s

unfoldable pub normal_base : Bytes → Bytes
unfolding without_end_slashes to_lower
normal_base base = to_lower (rooted (without_end_slashes base))

-- `ServerBase`
unfoldable pub server_base : Bundle → Bytes
unfolding normal_base
server_base b = normal_base b.g.uri_base

-- `Get`, `GetBool` and `GetSlice`: the zero value if the key is not there.
unfoldable pub get_or : {A : Type 0} → (Option Value → Run A) → A → Bundle → Bytes → Run A
unfolding config_get
get_or typed zero_value b key =
    if not (api_has b.api key) then done zero_value else config_get typed b.api key

abbrev bytes_in : Option Value → Run (Option Bytes)
bytes_in (some (some_bytes s)) = done s
bytes_in v = panics

abbrev int_in : Option Value → Run ℕ
int_in (some (an_int n)) = done n
int_in v = panics

unfoldable pub get_string : Bundle → Bytes → Run Bytes
unfolding get_or
get_string b key = get_or string_in [] b key

-- `GetByteSlice`
unfoldable pub get_byte_slice : Bundle → Bytes → Run (Option Bytes)
unfolding get_or
get_byte_slice b key = get_or bytes_in none b key

-- `GetInt`
unfoldable pub get_int : Bundle → Bytes → Run ℕ
unfolding get_or
get_int b key = get_or int_in 0 b key

-- `Name`
unfoldable pub bundle_name : Bundle → Run Bytes
unfolding get_string
bundle_name b = get_string b (bytes "name")

-- `APIBase`
unfoldable pub api_base : Bundle → Run Bytes
unfolding get_string normal_base
api_base b = get_string b (bytes "base") >>= λ base. done (normal_base base)

-- `UsesDBs`
unfoldable pub uses_dbs : Bundle → Run (List Bytes)
unfolding get_or
uses_dbs b = get_or strings_in [] b (bytes "uses")

-- `Enabled`
unfoldable pub enabled : Bundle → Run Bool
unfolding get_or
enabled b = get_or bool_in false b (bytes "enabled")

abbrev is_root : Bytes → Bool
is_root base = bytes_eq base [] || bytes_eq base (bytes "/")

abbrev root_if_empty : Bytes → Bytes
root_if_empty [] = bytes "/"
root_if_empty (c ∷ s) = c ∷ s

-- `Base`
unfoldable pub full_base : Bundle → Run Bytes
unfolding server_base api_base bytes_eq
full_base b = api_base b >>= λ own. done (
    root_if_empty (
      (if is_root (server_base b) then [] else server_base b) ++ (if is_root own then [] else own)))
