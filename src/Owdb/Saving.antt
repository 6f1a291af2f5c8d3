-- ===== src/Owdb/Saving.antt =====
-- How a Store of db/owdb/owdb.go is written to its data file and read from it, with the backup of
-- db/owdb/fs.go. Calls of the packages os, io, bufio and rezi are parameters, over the state of the
-- files. A file is closed at the end of each function, which leaves its contents.
pub mod Loss
pub mod Tests
use jelly.Base.{
  ℕ, List, [], ◌∷◌, ◌++◌, Option, none, some, Bool, true, false, Bytes, bytes, bytes_eq,
  if◌then◌else◌,
}
use jelly.Owdb.Hit.{Hit}
use jelly.Owdb.Store.{Store}

-- An error of another package, or the result of fmt.Errorf with or without a cause.
pub data Fault : Type 0 where
  foreign : ℕ → Fault
  errorf : Bytes → Fault
  wrapped : Bytes → Fault → Fault

pub data Attempt (A : Type 0) : Type 0 where
  got : A → Attempt A
  failed : Fault → Attempt A

-- What is called outside: `buffered_write` is the write of bytes to a new bufio.Writer on the file,
-- `copy` an io.Copy to one. `enc` and `dec` are the forms that rezi gives to the bytes of
-- MarshalBinary; the encoding of hits returns no error.
pub record Disk (S : Type 0) : Type 0 where
  pub read_file : Bytes → S → Attempt Bytes
  pub open_file : Bytes → S → Option Fault
  pub create : Bytes → S → Option Fault × S
  pub write : (file content : Bytes) → S → Option Fault × S
  pub buffered_write : (file content : Bytes) → S → Option Fault × S
  pub copy : (from to : Bytes) → S → Option Fault × S
  pub remove : Bytes → S → S
  pub is_not_exist : Fault → Bool
  pub dir : Bytes → Bytes
  pub base : Bytes → Bytes
  pub join : Bytes → Bytes → Bytes
  pub must_enc : List Hit → Bytes
  pub enc : Bytes → Attempt Bytes
  pub dec : Bytes → Attempt Bytes
  pub new_reader : Bytes → Option Fault
  pub dec_hits : Bytes → Attempt (List Hit)
  pub wrapf : Bytes → Fault → Fault

-- `&Store{}`
abbrev pub zero_store : Store
zero_store = record { data_file = []; closed = false; hits = [] }

abbrev operation_on_closed : Fault
operation_on_closed = errorf (bytes "operation called on closed *Store")

abbrev with_context : Bytes → Option Fault → Option Fault
with_context msg none = none
with_context msg (some err) = some (wrapped msg err)

module _ {S : Type 0} (d : Disk S) where
  -- `MarshalBinary`, of a pointer that may be nil
  abbrev pub marshal_binary : Option Store → Bytes
  marshal_binary none = []
  marshal_binary (some s) = d.must_enc s.hits

  -- `UnmarshalBinary`, which sets the hits of the store
  abbrev pub unmarshal_binary : Option Store → Bytes → Attempt Store
  unmarshal_binary none content = failed (errorf (bytes "cannot unmarshal to nil Store"))
  unmarshal_binary (some s) content = elim (d.new_reader content) [
    | some err ↦ failed err
    | none ↦ elim (d.dec_hits content) [
      | failed err ↦ failed (d.wrapf (bytes "hits: ") err)
      | got hits ↦ got (record s { hits = hits })
    ]
  ]

  -- `Import`; the store that it returns beside an error is left out
  unfoldable pub import : Bytes → Attempt Store
  import content = elim (d.dec content) [
    | failed err ↦ failed err
    | got inner ↦ unmarshal_binary (some zero_store) inner
  ]

  -- `ImportFile`
  abbrev pub import_file : Bytes → S → Attempt Store
  import_file file files = elim (d.read_file file files) [
    | failed err ↦ failed (wrapped (bytes "read file") err)
    | got content ↦ import content
  ]

  -- Open, of a file that does not exist: after its creation, and after the write of one byte.
  abbrev pub first_written : Option Fault × S → Attempt Store × S
  first_written (none, files) = (got zero_store, files)
  first_written (some err, files) = (failed (wrapped (bytes "initial write") err), files)

  abbrev pub first_created : Bytes → Option Fault × S → Attempt Store × S
  first_created file (some err, files) = (failed (wrapped (bytes "create new") err), files)
  first_created file (none, files) = first_written (d.write file (0 ∷ []) files)

  -- Open, of the bytes of a file.
  abbrev pub loaded : Attempt Store → Attempt Store
  loaded (got s) = got s
  loaded (failed err) = failed (wrapped (bytes "load data") err)

  -- `Open`
  unfoldable pub open_store : Bytes → S → Attempt Store × S
  unfolding import
  open_store [] files = (got zero_store, files)
  open_store (c ∷ file) files = elim (d.read_file (c ∷ file) files) [
    | got content ↦ (loaded (import content), files)
    | failed err ↦
        if d.is_not_exist err
        then first_created (c ∷ file) (d.create (c ∷ file) files)
        else (failed (wrapped (bytes "read file") err), files)
  ]

  abbrev export_unsafe : Store → Attempt Bytes
  export_unsafe s = if s.closed then failed operation_on_closed else d.enc (marshal_binary (some s))

  abbrev pub backup_path : Bytes → Bytes
  backup_path file = d.join (d.dir file) (d.base file ++ bytes ".bak")

  -- createFileBackup, after the creation of the backup.
  abbrev copied : Bytes → Option Fault × S → Option Fault × S
  copied file (some err, files) = (some (wrapped (bytes "create backup") err), files)
  copied file (none, files) =
      let r = d.copy file (backup_path file) files in
      (with_context (bytes "copy data to backup") r.0, r.1)

  -- `createFileBackup`, less the path, which it returns always
  unfoldable pub create_file_backup : Bytes → S → Option Fault × S
  create_file_backup file files = elim (d.open_file file files) [
    | some err ↦ (some (wrapped (bytes "open original") err), files)
    | none ↦ copied file (d.create (backup_path file) files)
  ]

  -- The end of persistUnsafe: the backup, if there is one, is removed.
  abbrev data_written : Bytes → Option Fault × S → Option Fault × S
  data_written bu_file (some err, files) = (some (wrapped (bytes "write data file") err), files)
  data_written bu_file (none, files) =
      (none, if bytes_eq bu_file [] then files else d.remove bu_file files)

  abbrev pub data_created : Store → Bytes → Option Fault × S → Option Fault × S
  data_created s bu_file (some err, files) = (some (wrapped (bytes "create data file") err), files)
  data_created s bu_file (none, files) = elim (export_unsafe s) [
    | failed err ↦ (some (wrapped (bytes "get data bytes") err), files)
    | got content ↦ data_written bu_file (d.buffered_write s.data_file content files)
  ]

  -- persistUnsafe, after the backup.
  abbrev backed_up : Store → Option Fault × S → Option Fault × S
  backed_up s (none, files) = data_created s (backup_path s.data_file) (d.create s.data_file files)
  backed_up s (some err, files) =
      if d.is_not_exist err
      then data_created s [] (d.create s.data_file files)
      else (some (wrapped (bytes "create backup") err), files)

  unfoldable pub persist_unsafe : Store → S → Option Fault × S
  unfolding create_file_backup
  persist_unsafe s files =
      if s.closed
      then (some operation_on_closed, files)
      else if bytes_eq s.data_file []
      then (none, files)
      else backed_up s (create_file_backup s.data_file files)

  -- `Close`: its error, the store and the files
  unfoldable pub close : Store → S → Option Fault × (Store × S)
  unfolding persist_unsafe
  close s files =
      if s.closed
      then (none, (s, files))
      else let r = persist_unsafe s files in
        (with_context (bytes "persist data to disk") r.0, (record s { closed = true }, r.1))
