-- ===== src/Db/Opening.antt =====
-- db/db.go: opening a database on what its directory holds. What a call that fails leaves in the
-- directory is not part of its result.
use lsmdb.Base.{
  ℕ, zero, suc, ◌+◌, ◌-◌, ◌*◌, ◌%◌, List, [], ◌∷◌, Option, none, some, Bool, true, false, ◌&&◌,
  ◌||◌, not, ltb, leb, if◌then◌else◌, max, add64, u64_mod, length, sort_slice, Result, ok, err,
  ◌>>=◌, either,
}
use lsmdb.Memtable
use lsmdb.Memtable.{
  MemTable, RecordType, put, delete, other_type, new_with_seq, set_raw, key_before,
}
use lsmdb.Wal
use lsmdb.Wal.{Wal, read_all}
use lsmdb.Sstable.{Hashing}
use lsmdb.Sstable.Reader.{Reader, SstError, next, type_from}
use lsmdb.Manifest
use lsmdb.Manifest.{State, load, store, is_legacy, has_suffix, extension, last_element}
use lsmdb.Db.Files.{DbError, needs_path, bad_manifest, bad_table, bad_log, File, Table, open_file}
use lsmdb.Db.Engine.{Db, Options, Outside, is_replica, flush}

-- The directory of a database: its table files, the published manifest, and the bytes of the log.
pub record Disk : Type 0 where
  pub files : List File
  pub published : Option State
  pub wal : List ℕ

abbrev table_names : List File → List (List ℕ)
table_names [] = []
table_names (f ∷ fs) =
    if has_suffix f.name extension then f.name ∷ table_names fs else table_names fs

abbrev last_name : List ℕ → List (List ℕ) → List ℕ
last_name name [] = name
last_name name (n ∷ ns) = last_name n ns

-- The number that a name starts with, as Sscanf scans it from a name that starts with digits.
unfoldable pub leading_number : ℕ → List ℕ → ℕ
leading_number n [] = n
leading_number n (c ∷ cs) =
    let more = leading_number (n * 10 + (c - 48)) cs in if leb 48 c && leb c 57 then more else n

-- The state of a directory without a manifest. Sscanf fails for a number that has more than 64 bits,
-- and leaves the 0 that was there.
unfoldable pub bootstrap_state : List File → State
unfolding leading_number
bootstrap_state files =
    let names = sort_slice key_before (table_names files) in
    let scanned = leading_number 0 (last_name [] names) in
    record Manifest.new { sstables = names; next_sst = if ltb scanned u64_mod then scanned else 0 }

abbrev pub reversed : List (List ℕ) → List (List ℕ) → List (List ℕ)
reversed acc [] = acc
reversed acc (name ∷ names) = reversed (name ∷ acc) names

unfoldable pub open_names : List File → List (List ℕ) → Result DbError (List Table)
open_names files [] = ok []
open_names files (name ∷ names) = open_file name files >>= λ (r : Reader).
    open_names files names >>= λ (tables : List Table).
    ok (record { name = name; reader = r } ∷ tables)

-- The readers, newest first, the state, and whether it was made from the names in the directory.
unfoldable pub open_sstables : Disk → Result DbError (List Table × State × Bool)
unfolding open_names bootstrap_state
open_sstables disk =
    either (load disk.published)
      (λ (loaded : Option State).
        let state : State = elim loaded [ some s ↦ s | none ↦ bootstrap_state disk.files ] in
        open_names disk.files (reversed [] state.sstables) >>= λ (readers : List Table).
        ok (readers, state, elim loaded [ some s ↦ false | none ↦ true ]))
      (λ e. err (bad_manifest e))

-- The loop of maxSequence over one table.
unfoldable pub max_loop : ℕ → Reader → ℕ → ℕ → Result SstError ℕ
max_loop zero r pos highest = ok highest
max_loop (suc fuel) r pos highest = next r pos >>= λ (step : Option (Memtable.Record × ℕ)).
    elim step [
      | none ↦ ok highest
      | some (found, after) ↦ max_loop fuel r after (max highest found.seq_num)
    ]

unfoldable pub max_sequence : List Table → ℕ → Result SstError ℕ
unfolding max_loop
max_sequence [] highest = ok highest
max_sequence (t ∷ ts) highest =
    max_loop (suc (length t.reader.file)) t.reader 0 highest >>= λ (n : ℕ). max_sequence ts n

-- The records of a log that the published tables do not have.
unfoldable pub newer_than : ℕ → List Wal.Record → List Wal.Record
newer_than last_seq [] = []
newer_than last_seq (r ∷ rs) =
    if ltb last_seq r.seq_num then r ∷ newer_than last_seq rs else newer_than last_seq rs

abbrev pub base_seq : ℕ → List Wal.Record → ℕ
base_seq base [] = base
base_seq base (r ∷ rs) = base_seq (max base r.seq_num) rs

abbrev pub is_reused : ℕ → List Wal.Record → Bool
is_reused last_seq [] = false
is_reused last_seq (r ∷ rs) = leb r.seq_num last_seq || is_reused last_seq rs

unfoldable pub renumbered : ℕ → ℕ → List Wal.Record → List Wal.Record
renumbered base i [] = []
renumbered base i (r ∷ rs) =
    record r { seq_num = add64 (add64 base i) 1 } ∷ renumbered base (i + 1) rs

unfoldable pub sequence_wal : List Wal.Record → ℕ → Bool → List Wal.Record × Bool
unfolding newer_than renumbered
sequence_wal records last_seq legacy =
    if not legacy
    then (newer_than last_seq records, false)
    else if not (is_reused last_seq records)
    then (records, false)
    else (renumbered (base_seq last_seq records) 0 records, true)

-- The record of a log as one of a table: its type is one less, in a byte.
abbrev pub replayed : Wal.Record → Memtable.Record
replayed r = record {
  key = r.key;
  value = r.value;
  seq_num = r.seq_num;
  type = type_from ((r.type + 255) % 256);
}

unfoldable pub replay_log : MemTable → List Wal.Record → MemTable
replay_log mem [] = mem
replay_log mem (r ∷ rs) = replay_log (set_raw mem (replayed r)) rs

-- publishSequenceUpgrade
unfoldable pub publish_sequence_upgrade : Hashing → Db → ℕ → Bool → Db × Option DbError
publish_sequence_upgrade hash db last_seq is_renumbered =
    let state = record db.manifest { last_seq = last_seq } in
    if is_renumbered
    then flush hash (record db { manifest = state })
    else either (store state)
        (λ published. (record db { manifest = state; published = some published }, none))
        (λ e. (db, some (bad_manifest e)))

unfoldable pub open_embedded :
    Outside → Disk → Options → List Table → State → ℕ → Bool → Result DbError Db
unfolding sequence_wal replay_log publish_sequence_upgrade
open_embedded env disk opts readers state last_seq legacy =
    either (read_all env.crc (record { contents = disk.wal; cursor = 0 }))
      (λ (read : List Wal.Record × Wal).
        let (records, is_renumbered) = sequence_wal read.0 last_seq legacy in
        let db : Db = record {
          mem = replay_log (new_with_seq (add64 last_seq 1)) records;
          log = some read.1;
          is_persistent = true;
          readers = readers;
          next_sst = state.next_sst;
          opts = opts;
          manifest = state;
          applied_index = 0;
          durable_index = 0;
          closed = false;
          files = disk.files;
          published = disk.published;
        } in
        let upgraded = publish_sequence_upgrade env.hash db last_seq is_renumbered in
        if legacy then elim upgraded.1 [ none ↦ ok upgraded.0 | some e ↦ err e ] else ok db)
      (λ e. err (bad_log e))

-- Open in replica mode.
unfoldable pub open_replica : Disk → Options → List Table → State → Bool → Result DbError Db
open_replica disk opts readers state bootstrapped =
    let db = λ (published : Option State).
      (let db : Db = record {
        mem = Memtable.new;
        log = none;
        is_persistent = true;
        readers = readers;
        next_sst = state.next_sst;
        opts = opts;
        manifest = state;
        applied_index = state.applied_index;
        durable_index = state.applied_index;
        closed = false;
        files = disk.files;
        published = published;
      } in
        db) in
    if bootstrapped
    then either (store state) (λ published. ok (db (some published))) (λ e. err (bad_manifest e))
    else ok (db disk.published)

-- Open at a path that is not empty.
unfoldable pub open_db : Outside → Disk → Options → Result DbError Db
unfolding open_sstables max_sequence open_embedded open_replica
open_db env disk opts = open_sstables disk >>= λ (found : List Table × State × Bool).
    (let (readers, state, bootstrapped) = found in
      let legacy = bootstrapped || is_legacy state in
      if is_replica opts
      then open_replica disk opts readers state bootstrapped
      else either (if legacy then max_sequence readers 0 else ok state.last_seq)
          (λ (last_seq : ℕ). open_embedded env disk opts readers state last_seq legacy)
          (λ e. err (bad_table e)))

-- Open without a path: nothing is kept.
unfoldable pub open_memory : Options → Result DbError Db
open_memory opts =
    if is_replica opts
    then err needs_path
    else ok (record {
      mem = Memtable.new;
      log = none;
      is_persistent = false;
      readers = [];
      next_sst = 0;
      opts = opts;
      manifest = record {
        version_of = 0;
        sstables = [];
        next_sst = 0;
        applied_index = 0;
        last_seq = 0;
      };
      applied_index = 0;
      durable_index = 0;
      closed = false;
      files = [];
      published = none;
    })
