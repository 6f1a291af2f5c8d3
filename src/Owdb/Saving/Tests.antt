-- ===== src/Owdb/Saving/Tests.antt =====
-- The theorems on the data file of db/owdb/owdb.go at a disk that is a function from paths.
use jelly.Base.{
  ◌≡◌, refl, [], ◌∷◌, Option, none, some, Bool, true, false, Bytes, bytes, bytes_eq, if◌then◌else◌,
  leb, length, arith, subst, bytes_eq_refl, ◌==◌,
}
use jelly.Owdb.Store.{Store}
use jelly.Owdb.Saving.{
  Fault, foreign, errorf, wrapped, Attempt, got, failed, Disk, import, open_store, persist_unsafe,
  close,
}
use jelly.Owdb.Saving.Loss.{IsDisk, persist-open_store, persist-lost}
use jelly.Owdb.Tests.Samples.{a_store, three_hits}

abbrev Paths : Type 0
Paths = Bytes → Option Bytes

abbrev put_file : Bytes → Bytes → Paths → Paths
put_file file content files other = if bytes_eq file other then some content else files other

abbrev no_such_file : Fault
no_such_file = foreign 2

abbrev contents_or_fault : Option Bytes → Attempt Bytes
contents_or_fault none = failed no_such_file
contents_or_fault (some content) = got content

abbrev fault_if_none : Option Bytes → Option Fault
fault_if_none none = some no_such_file
fault_if_none (some content) = none

abbrev copy_file : Option Bytes → Bytes → Paths → Option Fault × Paths
copy_file none to files = (some no_such_file, files)
copy_file (some content) to files = (none, put_file to content files)

abbrev is_missing : Fault → Bool
is_missing (foreign n) = n == 2
is_missing (errorf msg) = false
is_missing (wrapped msg err) = false

abbrev a_disk : Disk Paths
a_disk = record {
  read_file = λ file files. contents_or_fault (files file);
  open_file = λ file files. fault_if_none (files file);
  create = λ file files. (none, put_file file [] files);
  write = λ file content files. (none, put_file file content files);
  buffered_write = λ file content files.
      (none, if leb (length content) 4096 then files else put_file file content files);
  copy = λ from to files. copy_file (files from) to files;
  remove = λ file files other. if bytes_eq file other then none else files other;
  is_not_exist = is_missing;
  dir = λ file. [];
  base = λ file. file;
  join = λ front rest. rest;
  must_enc = λ hits. length hits ∷ [];
  enc = got;
  dec = got;
  new_reader = λ content. none;
  dec_hits = λ content. got [];
  wrapf = wrapped;
}

abbrev contents : Bytes → Paths → Option Bytes
contents file files = files file

a_disk-IsDisk : IsDisk a_disk contents 4096
a_disk-IsDisk = record {
  truncates =
      λ file files files' e. subst (λ r. r.1 file ≡ some []) e (rw (bytes_eq_refl file) refl);
  removes = λ file other files e. rw e refl;
  buffers = λ file content files h. ground arith;
  unwraps = λ msg err. refl;
}

abbrev data_path : Bytes
data_path = bytes "hits.owv"

abbrev a_saved_store : Store
a_saved_store = record a_store { data_file = data_path }

abbrev old_files : Paths
old_files = put_file data_path (bytes "old") (λ file. none)

persist-open_store_example :
    (persist_unsafe a_disk (record { data_file = []; closed = false; hits = three_hits }) old_files
      ≡ (none, old_files))
    × (close a_disk (record { data_file = []; closed = false; hits = three_hits }) old_files
        ≡ (none, (record { data_file = []; closed = true; hits = three_hits }, old_files)))
unfolding open_store import bytes_eq
persist-open_store_example =
    persist-open_store a_disk data_path old_files old_files
      (record { data_file = []; closed = false; hits = [] }) refl three_hits old_files

persist-lost_example :
    ((persist_unsafe a_disk a_saved_store old_files).0 ≡ none)
    × (contents data_path ((persist_unsafe a_disk a_saved_store old_files).1) ≡ some [])
unfolding bytes_eq
persist-lost_example =
    persist-lost a_disk contents 4096 a_disk-IsDisk a_saved_store old_files refl refl (3 ∷ []) _ _ _
      refl refl refl refl refl (omega arith) refl refl
