-- ===== src/Db/Calls.antt =====
-- db/db.go: the calls that write and read a database.
use lsmdb.Base.{
  ℕ, List, [], ◌∷◌, ◌++◌, Option, none, some, true, ◌&&◌, not, ◌==◌, ◌!=◌, leb, if◌then◌else◌,
  is_empty, add64, sort_slice, Result, ok, err, ◌>>=◌, either,
}
use lsmdb.Memtable.{
  MemTable, Record, RecordType, put, delete, alloc_seq, set_raw, find, store_record, is_newer,
  key_before, sorted_entries, scan_range,
}
use lsmdb.Wal
use lsmdb.Wal.{Wal, type_put, type_delete}
use lsmdb.Sstable.{Hashing}
use lsmdb.Sstable.Reader.{Reader, SstError, load_all, scan}
use lsmdb.Db.Files.{
  DbError, unavailable, needs_replica, zero_index, index_gap, empty_key, unknown_mutation,
  bad_table, Table,
}
use lsmdb.Db.Engine.{Db, Outside, is_replica, compact, flush, maybe_flush}

abbrev pub append_log : (List ℕ → ℕ) → Option Wal → Wal.Record → Option Wal
append_log crc none r = none
append_log crc (some w) r = some (Wal.append crc w r)

-- Set and Delete, from the allocation of the number on.
unfoldable pub write_record : Outside → Db → ℕ → RecordType → List ℕ → List ℕ → Db × Option DbError
write_record env db wal_type type key value =
    let (seq, taken) = alloc_seq db.mem in
    let logged : Wal.Record = record { type = wal_type; seq_num = seq; key = key; value = value } in
    maybe_flush env.hash (record db {
      mem = set_raw taken (record { key = key; value = value; seq_num = seq; type = type });
      log = append_log env.crc db.log logged;
    })

unfoldable pub set : Outside → Db → List ℕ → List ℕ → Db × Option DbError
unfolding write_record
set env db key value =
    if is_replica db.opts
    then (db, some unavailable)
    else write_record env db type_put put key value

unfoldable pub remove : Outside → Db → List ℕ → Db × Option DbError
unfolding write_record
remove env db key =
    if is_replica db.opts
    then (db, some unavailable)
    else write_record env db type_delete delete key []

-- MutationPut is 0, and MutationDelete 1.
pub record Mutation : Type 0 where
  pub type : ℕ
  pub key : List ℕ
  pub value : List ℕ

-- The loop of ApplyBatch that checks the mutations.
unfoldable pub check_mutations : List Mutation → Option DbError
check_mutations [] = none
check_mutations (m ∷ ms) =
    let rest = check_mutations ms in
    if is_empty m.key
    then some empty_key
    else if m.type != 0 && m.type != 1
    then some (unknown_mutation m.type)
    else rest

abbrev pub mutation_record : ℕ → Mutation → Record
mutation_record index m = record {
  key = m.key;
  value = m.value;
  seq_num = index;
  type = if m.type == 1 then delete else put;
}

unfoldable pub apply_mutations : ℕ → List Mutation → MemTable → MemTable
apply_mutations index [] mem = mem
apply_mutations index (m ∷ ms) mem =
    apply_mutations index ms (set_raw mem (mutation_record index m))

unfoldable pub apply_batch : Hashing → Db → ℕ → List Mutation → Db × Option DbError
unfolding check_mutations apply_mutations
apply_batch hash db index mutations =
    let applied =
      maybe_flush hash
        (record db { mem = apply_mutations index mutations db.mem; applied_index = index }) in
    if not (is_replica db.opts)
    then (db, some needs_replica)
    else if index == 0
    then (db, some zero_index)
    else if leb index db.applied_index
    then (db, none)
    else if index != add64 db.applied_index 1
    then (db, some (index_gap index (add64 db.applied_index 1)))
    else elim (check_mutations mutations) [ some e ↦ (db, some e) | none ↦ applied ]

pub record KvPair : Type 0 where
  pub key : List ℕ
  pub value : List ℕ

-- byKey, with the record of the highest number at each key.
unfoldable pub newest_by_key : List Record → List Record → List Record
newest_by_key known [] = known
newest_by_key known (r ∷ rs) =
    let stored = newest_by_key (store_record r known) rs in
    let passed = newest_by_key known rs in if is_newer r (find r.key known) then stored else passed

-- The pairs of the records that are not deletions, or of another type.
unfoldable pub live_pairs : List Record → List KvPair
live_pairs [] = []
live_pairs (r ∷ rs) = elim r.type [
  | put ↦ record { key = r.key; value = r.value } ∷ live_pairs rs
  | _ ↦ live_pairs rs
]

unfoldable pub sorted_pairs : List Record → List KvPair
unfolding newest_by_key live_pairs
sorted_pairs all =
    sort_slice (λ (a b : KvPair). key_before a.key b.key) (live_pairs (newest_by_key [] all))

-- The records of each table, after those of the tables before it.
unfoldable pub collect :
    (Reader → Result SstError (List Record)) → List Table → Result DbError (List Record)
collect read [] = ok []
collect read (t ∷ ts) =
    either (read t.reader)
      (λ records. collect read ts >>= λ (rest : List Record). ok (records ++ rest))
      (λ e. err (bad_table e))

unfoldable pub export_replica_state : Db → Result DbError (List KvPair)
unfolding sorted_pairs collect
export_replica_state db =
    if not (is_replica db.opts)
    then err needs_replica
    else collect load_all db.readers >>= λ (records : List Record).
        ok (sorted_pairs (sorted_entries db.mem ++ records))

unfoldable pub scan_pairs : Db → List ℕ → List ℕ → Result DbError (List KvPair)
unfolding sorted_pairs collect
scan_pairs db from to = collect (λ r. scan r from to) db.readers >>= λ (records : List Record).
    ok (sorted_pairs (scan_range db.mem from to ++ records))

unfoldable pub force_flush : Hashing → Db → Db × Option DbError
force_flush hash db = flush hash db

unfoldable pub force_compact : Hashing → Db → Db × Option DbError
force_compact hash db = compact hash db

-- Closing the files succeeds.
unfoldable pub close : Hashing → Db → Db × Option DbError
close hash db =
    let flushed = flush hash db in
    if db.closed
    then (db, none)
    else if is_replica db.opts
    then elim flushed.1 [ some e ↦ flushed | none ↦ (record flushed.0 { closed = true }, none) ]
    else (record db { closed = true }, none)
