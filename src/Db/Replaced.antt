-- ===== src/Db/Replaced.antt =====
-- db/db.go: ReplaceReplicaState, which puts the pairs of a snapshot in place of all data.
use lsmdb.Base.{
  ℕ, List, [], ◌∷◌, Option, none, some, Bool, true, false, ◌||◌, not, ◌==◌, ltb, if◌then◌else◌,
  is_empty, add64, either,
}
use lsmdb.Memtable.{Record, put, key_before, new_with_seq}
use lsmdb.Sstable.{Hashing, table_file}
use lsmdb.Manifest.{store, is_seen}
use lsmdb.Db.Files.{
  DbError, needs_replica, zero_index, unsorted_keys, older_snapshot, bad_manifest, File, Table,
  write_file, remove_file, remove_files, open_file, sst_name,
}
use lsmdb.Db.Engine.{Db, is_replica, names_of}
use lsmdb.Db.Calls.{KvPair}

-- The key comes after the one before it, if there is one.
abbrev is_above : Option (List ℕ) → List ℕ → Bool
is_above none key = true
is_above (some last) key = key_before last key

-- The keys are not empty, and each is above the one before it.
unfoldable pub are_sorted : Option (List ℕ) → List KvPair → Bool
are_sorted last [] = true
are_sorted last (p ∷ ps) =
    let rest = are_sorted (some p.key) ps in
    if is_empty p.key || not (is_above last p.key) then false else rest

unfoldable pub snapshot_records : ℕ → List KvPair → List Record
snapshot_records index [] = []
snapshot_records index (p ∷ ps) =
    record { key = p.key; value = p.value; seq_num = index; type = put } ∷ snapshot_records index ps

-- The files of the old tables go, but not the new one.
abbrev remove_others : List (List ℕ) → List (List ℕ) → List File → List File
remove_others kept [] files = files
remove_others kept (name ∷ names) files =
    let left = remove_others kept names files in
    if is_seen name kept then left else remove_file name left

-- From the opened table on.
unfoldable pub publish_replaced : Db → ℕ → ℕ → List File → List Table → Db × Option DbError
publish_replaced db index next files tables =
    let state = record db.manifest {
      sstables = names_of tables;
      next_sst = next;
      applied_index = index;
    } in
    either (store state)
      (λ published. (
        record db {
          readers = tables;
          mem = new_with_seq (add64 index 1);
          next_sst = next;
          manifest = state;
          applied_index = index;
          durable_index = index;
          files = remove_others (names_of tables) (names_of db.readers) files;
          published = some published;
        },
        none,
      ))
      (λ e. (record db { files = remove_files (names_of tables) files }, some (bad_manifest e)))

-- No table for no records.
unfoldable pub write_replaced : Hashing → Db → ℕ → ℕ → List Record → Db × Option DbError
unfolding publish_replaced
write_replaced hash db index next [] = publish_replaced db index next db.files []
write_replaced hash db index next (r ∷ rs) =
    let name = sst_name next in
    let files = write_file name (table_file hash r rs) db.files in
    either (open_file name files)
      (λ reader.
        publish_replaced db index next files (record { name = name; reader = reader } ∷ []))
      (λ e. (record db { files = remove_file name files }, some e))

unfoldable pub replace_replica_state : Hashing → Db → ℕ → List KvPair → Db × Option DbError
unfolding are_sorted snapshot_records write_replaced
replace_replica_state hash db index pairs =
    if not (is_replica db.opts)
    then (db, some needs_replica)
    else if index == 0
    then (db, some zero_index)
    else if ltb index db.applied_index
    then (db, some (older_snapshot index db.applied_index))
    else if not (are_sorted none pairs)
    then (db, some unsorted_keys)
    else write_replaced hash db index (add64 db.next_sst 1) (snapshot_records index pairs)
