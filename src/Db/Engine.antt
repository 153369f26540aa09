-- ===== src/Db/Engine.antt =====
-- db/db.go: the state of a database, its reads, and the flush and the compaction of its tables.
use lsmdb.Base.{
  ℕ, List, [], ◌∷◌, ◌++◌, Option, none, some, Bool, true, false, ◌&&◌, not, ◌==◌, ltb,
  if◌then◌else◌, is_empty, max, add64, sub64, length, either,
}
use lsmdb.Memtable.{MemTable, Record, new_with_seq, sorted_entries, get_record, live_value}
use lsmdb.Wal.{Wal, reset}
use lsmdb.Sstable.{Hashing, table_file}
use lsmdb.Sstable.Reader.{Reader}
use lsmdb.Compact
use lsmdb.Manifest.{State, store}
use lsmdb.Db.Files.{
  DbError, bad_manifest, bad_table, File, Table, write_file, remove_file, remove_files, open_file,
  sst_name, get_tables,
}

pub data DurabilityMode : Type 0 where
  embedded replica : DurabilityMode

-- A threshold that is not positive is 0 here.
pub record Options : Type 0 where
  pub flush_threshold_option : ℕ
  pub compaction_threshold_option : ℕ
  pub durability_mode : DurabilityMode

abbrev pub flush_threshold : Options → ℕ
flush_threshold o = if o.flush_threshold_option == 0 then 1000 else o.flush_threshold_option

abbrev pub compaction_threshold : Options → ℕ
compaction_threshold o =
    if o.compaction_threshold_option == 0 then 4 else o.compaction_threshold_option

abbrev pub is_replica : Options → Bool
is_replica o = elim o.durability_mode [ embedded ↦ false | replica ↦ true ]

-- The fields of DB, and its directory: the table files, and the published manifest. `is_persistent`
-- says that the path is not empty; `log` holds the log's file.
pub record Db : Type 0 where
  pub mem : MemTable
  pub log : Option Wal
  pub is_persistent : Bool
  pub readers : List Table
  pub next_sst : ℕ
  pub opts : Options
  pub manifest : State
  pub applied_index : ℕ
  pub durable_index : ℕ
  pub closed : Bool
  pub files : List File
  pub published : Option State

-- The code that the database takes from outside.
pub record Outside : Type 0 where
  pub hash : Hashing
  pub crc : List ℕ → ℕ

unfoldable pub get : (List ℕ → ℕ) → Db → List ℕ → Option (List ℕ)
unfolding get_tables
get fnv db key = elim (get_record db.mem key) [
  | none ↦ get_tables fnv db.readers key
  | some r ↦ live_value (some r)
]

abbrev pub readers_of : List Table → List Reader
readers_of [] = []
readers_of (t ∷ ts) = t.reader ∷ readers_of ts

abbrev pub names_of : List Table → List (List ℕ)
names_of [] = []
names_of (t ∷ ts) = t.name ∷ names_of ts

-- What compact publishes: the new table, if there is one, in place of the old ones. A failure to
-- publish removes the file of the new table.
unfoldable pub compacted : Db → ℕ → List File → List Table → Db × Option DbError
compacted db next files tables =
    let state = record db.manifest { sstables = names_of tables; next_sst = next } in
    either (store state)
      (λ published. (
        record db {
          readers = tables;
          next_sst = next;
          manifest = state;
          files = remove_files (names_of db.readers) files;
          published = some published;
        },
        none,
      ))
      (λ e. (record db { files = remove_files (names_of tables) files }, some (bad_manifest e)))

-- A table that does not open after its merge is left in the directory, and its number is used up.
unfoldable pub open_compacted : Db → ℕ → Option (List ℕ) → Db × Option DbError
unfolding compacted
open_compacted db next none = compacted db next db.files []
open_compacted db next (some bytes) =
    let name = sst_name next in
    let files = write_file name bytes db.files in
    either (open_file name files)
      (λ r. compacted db next files (record { name = name; reader = r } ∷ []))
      (λ e. (record db { next_sst = next; files = files }, some e))

unfoldable pub compact : Hashing → Db → Db × Option DbError
unfolding open_compacted
compact hash db =
    if is_empty db.readers
    then (db, none)
    else either (Compact.compact hash (readers_of db.readers) true)
        (λ (written : ℕ × Option (List ℕ)). open_compacted db (add64 db.next_sst 1) written.1)
        (λ e. (db, some (bad_table e)))

unfoldable pub maybe_compact : Hashing → Db → Db × Option DbError
unfolding compact
maybe_compact hash db =
    if ltb (length db.readers) (compaction_threshold db.opts) then (db, none) else compact hash db

abbrev reset_log : Option Wal → Option Wal
reset_log none = none
reset_log (some w) = some (reset w)

-- The manifest of a flush.
abbrev pub flushed_state : Db → ℕ → List ℕ → State
flushed_state db next name =
    let state = record db.manifest {
      sstables = db.manifest.sstables ++ name ∷ [];
      next_sst = next;
    } in
    if is_replica db.opts
    then record state { applied_index = db.applied_index }
    else record state { last_seq = max state.last_seq (sub64 db.mem.next_seq 1) }

-- flush, from the opened table on, without the compaction at its end.
unfoldable pub publish_flush : Db → ℕ → List File → Table → Db × Option DbError
publish_flush db next files table =
    let state = flushed_state db next table.name in
    either (store state)
      (λ published. (
        record db {
          readers = table ∷ db.readers;
          mem = new_with_seq db.mem.next_seq;
          manifest = state;
          durable_index = if is_replica db.opts then db.applied_index else db.durable_index;
          log = reset_log db.log;
          next_sst = next;
          files = files;
          published = some published;
        },
        none,
      ))
      (λ e. (record db { files = remove_file table.name files }, some (bad_manifest e)))

-- flush, with records to write.
unfoldable pub flush_records : Hashing → Db → Record → List Record → Db × Option DbError
unfolding publish_flush
flush_records hash db r rs =
    let next = add64 db.next_sst 1 in
    let name = sst_name next in
    let files = write_file name (table_file hash r rs) db.files in
    either (open_file name files)
      (λ reader. publish_flush db next files (record { name = name; reader = reader }))
      (λ e. (record db { files = remove_file name files }, some e))

-- flush, with nothing in memory.
unfoldable pub flush_index : Db → Db × Option DbError
flush_index db =
    let state = record db.manifest { applied_index = db.applied_index } in
    if is_replica db.opts && ltb db.durable_index db.applied_index
    then either (store state)
        (λ published. (
          record db {
            manifest = state;
            durable_index = db.applied_index;
            published = some published;
          },
          none,
        ))
        (λ e. (db, some (bad_manifest e)))
    else (db, none)

-- A call after one that did not fail.
abbrev pub then_do : Db × Option DbError → (Db → Db × Option DbError) → Db × Option DbError
then_do (db, some e) f = (db, some e)
then_do (db, none) f = f db

-- flush, with the records in memory.
unfoldable pub flush_sorted : Hashing → Db → List Record → Db × Option DbError
unfolding flush_records flush_index maybe_compact
flush_sorted hash db [] = flush_index db
flush_sorted hash db (r ∷ rs) =
    if not db.is_persistent
    then (db, none)
    else then_do (flush_records hash db r rs) (maybe_compact hash)

unfoldable pub flush : Hashing → Db → Db × Option DbError
unfolding flush_sorted
flush hash db = flush_sorted hash db (sorted_entries db.mem)

unfoldable pub maybe_flush : Hashing → Db → Db × Option DbError
unfolding flush
maybe_flush hash db =
    if not db.is_persistent
    then (db, none)
    else if ltb (length db.mem.entries) (flush_threshold db.opts)
    then (db, none)
    else flush hash db
