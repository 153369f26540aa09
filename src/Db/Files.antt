-- ===== src/Db/Files.antt =====
-- db/db.go: the table files of a database.
use lsmdb.Base.{
  ℕ, zero, suc, ◌+◌, ◌-◌, ◌/◌, ◌%◌, List, [], ◌∷◌, ◌++◌, Option, none, some, ◌==◌, if◌then◌else◌,
  length, Result, ok, err, either,
}
use lsmdb.Memtable.{same_key, live_value}
use lsmdb.Wal.{WalError}
use lsmdb.Sstable.Reader.{Reader, SstError, open_table, get}
use lsmdb.Manifest.{ManifestError}

pub data DbError : Type 0 where
  unavailable : DbError
  needs_replica : DbError
  needs_path : DbError
  zero_index : DbError
  index_gap : ℕ → ℕ → DbError
  empty_key : DbError
  unknown_mutation : ℕ → DbError
  unsorted_keys : DbError
  older_snapshot : ℕ → ℕ → DbError
  no_file : List ℕ → DbError
  bad_table : SstError → DbError
  bad_manifest : ManifestError → DbError
  bad_log : WalError → DbError

-- A file in the directory of the database.
pub record File : Type 0 where
  pub name : List ℕ
  pub contents : List ℕ

-- A reader, and the name of its file.
pub record Table : Type 0 where
  pub name : List ℕ
  pub reader : Reader

unfoldable pub read_file : List ℕ → List File → Option (List ℕ)
read_file name [] = none
read_file name (f ∷ fs) = if same_key f.name name then some f.contents else read_file name fs

unfoldable pub remove_file : List ℕ → List File → List File
remove_file name [] = []
remove_file name (f ∷ fs) =
    let rest = remove_file name fs in if same_key f.name name then rest else f ∷ rest

abbrev pub write_file : List ℕ → List ℕ → List File → List File
write_file name contents files =
    record { name = name; contents = contents } ∷ remove_file name files

abbrev pub remove_files : List (List ℕ) → List File → List File
remove_files [] files = files
remove_files (name ∷ names) files = remove_files names (remove_file name files)

-- sstable.Open
unfoldable pub open_file : List ℕ → List File → Result DbError Reader
unfolding read_file
open_file name files = elim (read_file name files) [
  | none ↦ err (no_file name)
  | some bytes ↦ either (open_table bytes) (λ r. ok r) (λ e. err (bad_table e))
]

-- The decimal digits of a uint64.
unfoldable pub digits : ℕ → ℕ → List ℕ
digits zero n = []
digits (suc fuel) n =
    let high = digits fuel (n / 10) in (if n / 10 == 0 then [] else high) ++ (48 + n % 10) ∷ []

abbrev pub pad : ℕ → List ℕ → List ℕ
pad zero ds = ds
pad (suc n) ds = 48 ∷ pad n ds

-- fmt.Sprintf("%06d.sst", n)
unfoldable pub sst_name : ℕ → List ℕ
unfolding digits
sst_name n = let ds = digits 20 n in pad (6 - length ds) ds ++ 46 ∷ 115 ∷ 115 ∷ 116 ∷ []

-- Get's loop over the readers, newest first. A reader that fails is passed over.
unfoldable pub get_tables : (List ℕ → ℕ) → List Table → List ℕ → Option (List ℕ)
get_tables fnv [] key = none
get_tables fnv (t ∷ ts) key =
    let older = get_tables fnv ts key in
    either (get fnv t.reader key)
      (λ found. elim found [ none ↦ older | some r ↦ live_value (some r) ]) (λ e. older)
