-- ===== src/Owdb/Saving/Loss.antt =====
-- What Open, Persist and Close of db/owdb/owdb.go leave in the data file.
use jelly.Base.{
  ℕ, ◌≡◌, ◌≤◌, refl, ◌∙◌, subst, [], ◌∷◌, List, Option, none, some, true, false, Bytes, bytes,
  bytes_eq, length, Bool-cases, inl, inr, ◌⊎◌, Option-cases,
}
use jelly.Owdb.Hit.{Hit}
use jelly.Owdb.Store.{Store}
use jelly.Owdb.Saving.{
  Fault, wrapped, Attempt, got, failed, Disk, import, loaded, first_written, first_created,
  open_store, marshal_binary, data_created, backup_path, create_file_backup, persist_unsafe, close,
}

-- What is relied on of the files: os.Create truncates a file, os.Remove of a file keeps the others,
-- a bufio.Writer that is not flushed keeps what fits its buffer, and os.IsNotExist does not look
-- into the errors of fmt.Errorf. `contents` are the contents of a file, if it exists.
pub record IsDisk {S : Type 0} (d : Disk S) (contents : Bytes → S → Option Bytes) (buffer : ℕ)
    : Type 0 where
  pub truncates :
      (file : Bytes) (files files' : S)
      → d.create file files ≡ (none, files')
      → contents file files' ≡ some []
  pub removes :
      (file other : Bytes) (files : S)
      → bytes_eq file other ≡ false
      → contents other (d.remove file files) ≡ contents other files
  pub buffers :
      (file content : Bytes) (files : S)
      → length content ≤ buffer
      → d.buffered_write file content files ≡ (none, files)
  pub unwraps : (msg : Bytes) (err : Fault) → d.is_not_exist (wrapped msg err) ≡ false

Attempt-cases :
    {A : Type 0} (a : Attempt A) → ((x : A) × (a ≡ got x)) ⊎ ((err : Fault) × (a ≡ failed err))
Attempt-cases (got x) = inl (x, refl)
Attempt-cases (failed err) = inr (err, refl)

-- Whether a store that a call returns, if it returns one, is open and has no data file.
AllInMemory : Attempt Store → Type 0
AllInMemory (got s) = (s.data_file ≡ []) × (s.closed ≡ false)
AllInMemory (failed err) = tt ≡ tt

module _ {S : Type 0} (d : Disk S) where
  import-AllInMemory : (content : Bytes) → AllInMemory (import d content)
  unfolding import AllInMemory
  import-AllInMemory content = elim (Attempt-cases (d.dec content)) [
    | inr (err, e) ↦ rw (AllInMemory, e) refl
    | inl (inner, e) ↦
        rw (AllInMemory, e)
          (elim (Option-cases (d.new_reader inner)) [
            | inr (err, n) ↦ rw (AllInMemory, n) refl
            | inl n ↦
                rw (AllInMemory, n)
                  (elim (Attempt-cases (d.dec_hits inner)) [
                    | inr (err, h) ↦ rw (AllInMemory, h) refl
                    | inl (hits, h) ↦ rw (AllInMemory, h) (refl, refl)
                  ])
          ])
  ]

  loaded-AllInMemory : (a : Attempt Store) → AllInMemory a → AllInMemory (loaded d a)
  unfolding AllInMemory
  loaded-AllInMemory (got s) h = h
  loaded-AllInMemory (failed err) h = refl

  first_written-AllInMemory : (r : Option Fault × S) → AllInMemory ((first_written d r).0)
  unfolding AllInMemory
  first_written-AllInMemory (none, files) = (refl, refl)
  first_written-AllInMemory (some err, files) = refl

  first_created-AllInMemory :
      (file : Bytes) (r : Option Fault × S) → AllInMemory ((first_created d file r).0)
  unfolding AllInMemory
  first_created-AllInMemory file (none, files) =
      first_written-AllInMemory (d.write file (0 ∷ []) files)
  first_created-AllInMemory file (some err, files) = refl

  open_store-AllInMemory : (file : Bytes) (files : S) → AllInMemory ((open_store d file files).0)
  unfolding open_store AllInMemory
  open_store-AllInMemory [] files = (refl, refl)
  open_store-AllInMemory (c ∷ file) files = elim (Attempt-cases (d.read_file (c ∷ file) files)) [
    | inl (content, e) ↦
        rw (open_store, e) (loaded-AllInMemory (import d content) (import-AllInMemory content))
    | inr (err, e) ↦ elim (Bool-cases (d.is_not_exist err)) [
      | inl n ↦
          rw (open_store, e, n) (first_created-AllInMemory (c ∷ file) (d.create (c ∷ file) files))
      | inr n ↦ rw (open_store, e, n) refl
    ]
  ]

  -- A store from Open has no data file: whatever hits it then gets, Persist and Close report success
  -- and leave the files as they are.
  pub persist-open_store :
      (file : Bytes) (files files' : S) (s : Store)
      → open_store d file files ≡ (got s, files')
      → (hits : List Hit) (now : S)
      → (persist_unsafe d (record s { hits = hits }) now ≡ (none, now))
        × (close d (record s { hits = hits }) now
            ≡ (none, (record s { hits = hits; closed = true }, now)))
  unfolding persist_unsafe close AllInMemory bytes_eq
  persist-open_store file files files' s e hits now =
      let (no_file, is_open) = subst (λ r. AllInMemory r.0) e (open_store-AllInMemory file files) in
      (
        rw (persist_unsafe, no_file, is_open) refl,
        rw (close, persist_unsafe, no_file, is_open) refl,
      )

  module _ (contents : Bytes → S → Option Bytes) (buffer : ℕ) (disk : IsDisk d contents buffer)
      (s : Store) (files : S) (is_open : s.closed ≡ false)
      (configured : bytes_eq s.data_file [] ≡ false) where
    -- Persist of an open store to a data file that exists, when each step that can fail succeeds and
    -- the bytes to write fit the buffer of a bufio.Writer: it reports success, and the data file is
    -- then empty. The hypotheses are that the backup is another file with a name, and that the files
    -- behave as IsDisk says.
    pub persist-lost :
        (content : Bytes) (files1 files2 files3 : S)
        → d.open_file s.data_file files ≡ none
        → d.create (backup_path d s.data_file) files ≡ (none, files1)
        → d.copy s.data_file (backup_path d s.data_file) files1 ≡ (none, files2)
        → d.create s.data_file files2 ≡ (none, files3)
        → d.enc (marshal_binary d (some s)) ≡ got content
        → length content ≤ buffer
        → bytes_eq (backup_path d s.data_file) [] ≡ false
        → bytes_eq (backup_path d s.data_file) s.data_file ≡ false
        → ((persist_unsafe d s files).0 ≡ none)
          × (contents s.data_file ((persist_unsafe d s files).1) ≡ some [])
    unfolding persist_unsafe create_file_backup
    persist-lost content files1 files2 files3 opened made copied_to truncated exported fits named
          apart =
        let emptied = disk.truncates s.data_file files2 files3 truncated in
        let kept = disk.removes (backup_path d s.data_file) s.data_file files3 apart in
        let unsent = disk.buffers s.data_file content files3 fits in
        let computed : persist_unsafe d s files
            ≡ (none, d.remove (backup_path d s.data_file) files3) =
          rw
            (
              persist_unsafe, create_file_backup, is_open, configured, opened, made, copied_to,
              truncated, data_created, exported, unsent, named,
            )
            refl in
        rw computed (refl, kept ∙ emptied)

    -- Persist of an open store to a data file that cannot be opened to copy it, for one because it
    -- does not exist yet: it fails with that error, and leaves the files as they are.
    persist-missing :
        (err : Fault)
        → d.open_file s.data_file files ≡ some err
        → persist_unsafe d s files
          ≡ (some (wrapped (bytes "create backup") (wrapped (bytes "open original") err)), files)
    unfolding persist_unsafe create_file_backup
    persist-missing err missing =
        let shut = disk.unwraps (bytes "open original") err in
        rw (persist_unsafe, create_file_backup, is_open, configured, missing, shut) refl
