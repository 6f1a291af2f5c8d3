-- ===== src/Config/Connectors.antt =====
-- The connectors of databases by engine and name: ConnectorRegistry of internal/config/config.go.
use jelly.Base.{
  List, [], ◌∷◌, Option, none, some, Bool, false, not, Bytes, bytes, bytes_eq, bytes_le,
  if◌then◌else◌, to_lower,
}
use jelly.Auth.Errors.{foreign}
use jelly.Auth.User.{Result, success, failure}
use jelly.Config.Dbs.{database_sqlite, database_owdb, database_in_memory}
use jelly.Config.Whole.{find}
use jelly.Config.Loading.Formats.{without}

-- The connectors of each engine that is supported; `C` is the type of connector functions.
abbrev pub Registry : Type 0 → Type 0
Registry C = List (Bytes × List (Bytes × C))

module _ {C : Type 0} where
  -- `initDefaults`, with the connectors that are built in
  unfoldable pub init_defaults : Bool → (inmem sqlite owdb : C) → Registry C
  init_defaults disable inmem sqlite owdb =
      if disable
      then ((database_in_memory, []) ∷ (database_sqlite, []) ∷ (database_owdb, []) ∷ [])
      else ((database_in_memory, (bytes "authuser", inmem) ∷ [])
          ∷ (database_sqlite, (bytes "authuser", sqlite) ∷ [])
          ∷ (database_owdb, (bytes "*", owdb) ∷ [])
          ∷ [])

  abbrev with_connectors : Bytes → List (Bytes × C) → Registry C → Registry C
  with_connectors engine conns cr = (engine, conns) ∷ without engine cr

  abbrev taken : Bytes → List (Bytes × C) → Bool
  taken name conns = elim (find name conns) [
    | none ↦ false
    | some c ↦ not (bytes_eq name (bytes "*"))
  ]

  abbrev register_for :
      Bytes → Bytes → C → Registry C → Option (List (Bytes × C)) → Result (Registry C)
  register_for engine name c cr none = failure (foreign (bytes "not a supported DB type"))
  register_for engine name c cr (some conns) =
      if taken name conns
      then failure (foreign (bytes "duplicate connector registration"))
      else success (with_connectors engine ((name, c) ∷ without name conns) cr)

  -- `Register`; none is a nil function.
  unfoldable pub register : Bytes → Bytes → Option C → Registry C → Result (Registry C)
  unfolding find without bytes_eq
  register engine name none cr = failure (foreign (bytes "connector function cannot be nil"))
  register engine name (some c) cr = register_for engine (to_lower name) c cr (find engine cr)

  abbrev connectors_of : Option (List (Bytes × C)) → List (Bytes × C)
  connectors_of none = []
  connectors_of (some conns) = conns

  abbrev or_default : Option C → Option C → Result C
  or_default (some c) d = success c
  or_default none (some c) = success c
  or_default none none = failure (foreign (bytes "no default \"*\" connector registered"))

  -- The connector that Connect calls.
  unfoldable pub connector_for : Bytes → Bytes → Registry C → Result C
  unfolding find
  connector_for engine name cr =
      let conns = connectors_of (find engine cr) in
      or_default (find (to_lower name) conns) (find (bytes "*") conns)

  abbrev empty_names : List (Bytes × C) → List Bytes
  empty_names [] = []
  empty_names (entry ∷ rest) = [] ∷ empty_names rest

  abbrev keys_of : List (Bytes × C) → List Bytes
  keys_of [] = []
  keys_of ((k, c) ∷ rest) = k ∷ keys_of rest

-- The loop of List: each name is written to the first place.
abbrev overwrite : List Bytes → List Bytes → List Bytes
overwrite [] names = names
overwrite (k ∷ keys) [] = []
overwrite (k ∷ keys) (n ∷ names) = overwrite keys (k ∷ names)

-- `sort.Strings`
unfoldable pub insert_string : Bytes → List Bytes → List Bytes
unfolding bytes_le
insert_string x [] = x ∷ []
insert_string x (y ∷ ys) =
    let later = insert_string x ys in if bytes_le x y then x ∷ y ∷ ys else y ∷ later

unfoldable pub sort_strings : List Bytes → List Bytes
unfolding insert_string
sort_strings [] = []
sort_strings (x ∷ xs) = insert_string x (sort_strings xs)

-- `List`
unfoldable pub list_connectors : {C : Type 0} → Bytes → Registry C → List Bytes
unfolding sort_strings find
list_connectors engine cr =
    let conns = connectors_of (find engine cr) in
    sort_strings (overwrite (keys_of conns) (empty_names conns))
