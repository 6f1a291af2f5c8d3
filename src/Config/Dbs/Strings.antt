-- ===== src/Config/Dbs/Strings.antt =====
-- What connection strings of databases are parsed to, and the defaults of databases.
use Prim.Native.Nat.{zero, suc}
use jelly.Base.{
  ℕ, ◌≡◌, refl, sym, ap, ◌∙◌, List, [], ◌∷◌, ◌++◌, none, some, Bool, true, false, not, ◌&&◌, Bytes,
  bytes, bytes_eq, Run, done, if◌then◌else◌, ◌==◌, to_lower, trim_space, split_2, has_part,
  cut_prefix, read, Bool-cases, inl, inr, arith,
}
use jelly.Auth.Errors.{Error, foreign}
use jelly.Auth.User.{Result, success, failure}
use jelly.Config.Dbs.{
  DatabaseConfig, database_of, database_sqlite, database_owdb, database_in_memory, parse_db_type,
  db_fill_defaults, db_validate, Splitting, match_separator, split_loop, split_with_escaped,
  parse_params_map, params_of, connection_of, parse_db_conn_string, connected, trimmed_params,
}

abbrev blanks : ℕ → List Bytes
blanks zero = []
blanks (suc n) = [] ∷ blanks n

blanks_snoc : (n : ℕ) → blanks n ++ ([] ∷ []) ≡ blanks (suc n)
blanks_snoc zero = refl
blanks_snoc (suc n) = ap (λ (xs : List Bytes). [] ∷ xs) (blanks_snoc n)

-- A state in which nothing but separators has been seen.
abbrev blank_state : ℕ → Splitting
blank_state n = record { parts = blanks n; cur = []; sepr_pos = 0 }

has_part-cons :
    (c : ℕ) (s : Bytes)
    → has_part (92 ∷ []) (c ∷ s) ≡ false
    → ((c == 92) ≡ false) × (has_part (92 ∷ []) s ≡ false)
unfolding has_part cut_prefix
has_part-cons c s e = elim (Bool-cases (92 == c)) [
  | inl p ↦ let h : has_part (92 ∷ []) (c ∷ s) ≡ true = rw (has_part, cut_prefix, p) refl in cc
  | inr p ↦
      let h : has_part (92 ∷ []) (c ∷ s) ≡ has_part (92 ∷ []) s =
        rw (has_part, cut_prefix, p) refl in
      (ground arith, sym h ∙ e)
]

match_separator-blank :
    (sep ch n : ℕ)
    → (m : ℕ) × (match_separator (sep ∷ []) ch (blank_state n) ≡ done (blank_state m))
unfolding match_separator read
match_separator-blank sep ch n = elim (Bool-cases (ch == sep)) [
  | inl e ↦ (suc n, rw (match_separator, e, blanks_snoc n) refl)
  | inr e ↦ (n, rw (match_separator, e) refl)
]

-- The loop writes nothing but separated blanks.
split_loop-blank :
    (sep n : ℕ) (s : Bytes)
    → has_part (92 ∷ []) s ≡ false
    → (m : ℕ) × (split_loop (sep ∷ []) (blank_state n) s ≡ done (blank_state m))
unfolding split_loop
split_loop-blank sep n [] e = (n, refl)
split_loop-blank sep n (ch ∷ []) e =
    let (m, step) = match_separator-blank sep ch n in
    let plain = has_part-cons ch [] e in (m, rw (split_loop, step, plain.0) refl)
split_loop-blank sep n (ch ∷ after ∷ s) e =
    let (m, step) = match_separator-blank sep ch n in
    let plain = has_part-cons ch (after ∷ s) e in
    let (k, rest) = split_loop-blank sep m (after ∷ s) plain.1 in
    (k, rw (split_loop, step, plain.0) rest)

split_with_escaped-blank :
    (sep : ℕ) (s : Bytes) → (n : ℕ) × (split_with_escaped s (sep ∷ []) ≡ done (blanks n))
unfolding split_with_escaped
split_with_escaped-blank sep s = elim (Bool-cases (has_part (92 ∷ []) s)) [
  | inl e ↦ (0, rw (split_with_escaped, e) refl)
  | inr e ↦ let (m, ends) = split_loop-blank sep 0 s e in (m, rw (split_with_escaped, e, ends) refl)
]

params-blank : (n : ℕ) → (err : Error) × (params_of ([] ∷ blanks n) ≡ done (failure err))
unfolding params_of split_with_escaped has_part cut_prefix split_loop
params-blank n = (_, refl)

parse_params_map-failure : (s : Bytes) → (err : Error) × (parse_params_map s ≡ done (failure err))
unfolding parse_params_map
parse_params_map-failure s = let (n, parts) = split_with_escaped-blank 44 s in of_blanks n parts
  where
    of_blanks :
        (n : ℕ)
        → split_with_escaped s (44 ∷ []) ≡ done (blanks n)
        → (err : Error) × (parse_params_map s ≡ done (failure err))
    of_blanks zero parts =
        (foreign (bytes "not a map format string"), rw (parse_params_map, parts) refl)
    of_blanks (suc n) parts =
        let (err, fails) = params-blank n in (err, rw (parse_params_map, parts) fails)

-- A database configuration that is not for OWDB and is valid once it has its defaults, or an error.
abbrev pub usable : Result DatabaseConfig → Bool
usable (failure err) = true
usable (success db) =
    not (bytes_eq db.db_type database_owdb)
    && elim (db_validate (db_fill_defaults db)) [ none ↦ true | some err ↦ false ]

abbrev Usable : Run (Result DatabaseConfig) → Type 0
Usable m = (r : Result DatabaseConfig) × (m ≡ done r) × (usable r ≡ true)

Usable-if :
    (b : Bool) (x y : Result DatabaseConfig)
    → (b ≡ true → usable x ≡ true)
    → (b ≡ false → usable y ≡ true)
    → Usable (done (if b then x else y))
Usable-if true x y p q = (x, refl, p refl)
Usable-if false x y p q = (y, refl, q refl)

module _ (param_str : Bytes) where
  in_memory-Usable : Usable (connection_of database_in_memory param_str)
  unfolding connection_of bytes_eq db_validate db_fill_defaults
  in_memory-Usable = Usable-if (not (bytes_eq param_str [])) _ _ (λ e. refl) (λ e. refl)

  sqlite-Usable : Usable (connection_of database_sqlite param_str)
  unfolding connection_of bytes_eq db_validate db_fill_defaults
  sqlite-Usable =
      Usable-if (bytes_eq param_str []) _ _ (λ e. refl)
        (λ e. rw (db_validate, db_fill_defaults, e) refl)

  owdb-Usable : Usable (connection_of database_owdb param_str)
  unfolding connection_of bytes_eq
  owdb-Usable = elim (Bool-cases (bytes_eq param_str [])) [
    | inl e ↦ (
      failure (foreign (bytes "owdb DB engine requires path to data directory")),
      rw (connection_of, e) refl,
      refl,
    )
    | inr e ↦
        let (err, fails) = parse_params_map-failure param_str in
        (failure err, rw (connection_of, e, fails) refl, refl)
  ]

  connected-Usable : (s : Bytes) → Usable (connected param_str (parse_db_type s))
  unfolding parse_db_type
  connected-Usable s = elim (Bool-cases (bytes_eq (to_lower s) database_sqlite)) [
    | inl a ↦ rw (parse_db_type, a) sqlite-Usable
    | inr a ↦ elim (Bool-cases (bytes_eq (to_lower s) database_in_memory)) [
      | inl b ↦ rw (parse_db_type, a, b) in_memory-Usable
      | inr b ↦ elim (Bool-cases (bytes_eq (to_lower s) database_owdb)) [
        | inl c ↦ rw (parse_db_type, a, b, c) owdb-Usable
        | inr c ↦ rw (parse_db_type, a, b, c) (_, refl, refl)
      ]
    ]
  ]

-- ParseDBConnString returns for every string, in an error or in a configuration of another type than
-- OWDB that is valid once it has its defaults. A string with the engine sqlite and a directory gives
-- the configuration for SQLite with the directory without white space around it.
pub parse_db_conn_string-usable :
    (s given engine dir : Bytes)
    → split_2 58 given ≡ (engine, some dir)
    → parse_db_type (trim_space engine) ≡ success database_sqlite
    → bytes_eq (trim_space dir) [] ≡ false
    → ((r : Result DatabaseConfig) × (parse_db_conn_string s ≡ done r) × (usable r ≡ true))
      × (parse_db_conn_string given
          ≡ done (success (database_of database_sqlite (trim_space dir) [])))
unfolding parse_db_conn_string connection_of bytes_eq
parse_db_conn_string-usable s given engine dir parts sqlite some_dir = (
  connected-Usable (trimmed_params (split_2 58 s).1) (trim_space (split_2 58 s).0),
  rw (parse_db_conn_string, parts, sqlite, connection_of, some_dir) refl,
)
