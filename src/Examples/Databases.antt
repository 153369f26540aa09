-- ===== src/Examples/Databases.antt =====
-- Runs of the database of db.
use lsmdb.Base.{
  ℕ, ◌^◌, ◌<◌, ◌≡◌, ◌↔◌, ◌≤◌, refl, sym, subst, List, [], ◌∷◌, none, some, true, false, arith, ltb,
  ltb→lt, length, ◌≤◌, if◌then◌else◌, put_uint, sort_slice,
}
use lsmdb.Bloom
use lsmdb.Memtable.{Record, put, delete, find, same_key, set_raw, store_record, sorted_entries}
use lsmdb.Wal.{type_put, type_delete}
use lsmdb.Sstable.{table_file, record_header}
use lsmdb.Sstable.Opened.{IsTable, table_reader}
use lsmdb.Compact.{merge}
use lsmdb.Manifest.{State}
use lsmdb.Db.Files.{Table}
use lsmdb.Db.Engine.{Db, DurabilityMode, embedded, replica, Outside, get, flush}
use lsmdb.Db.Calls.{Mutation, set, remove, apply_batch, apply_mutations, check_mutations}
use lsmdb.Db.Lookups.{no_tables, one_more}
use lsmdb.Db.Kept.{IsDb, Fits}
use lsmdb.Db.Flushed.{FlushFits, get-flush}
use lsmdb.Db.Written.{IsOpen, written, get-set, get-remove}
use lsmdb.Db.Batches.{IsApplied, first_mutation, mutated, get-apply_batch, apply_batch_once}
use lsmdb.Examples.Sorted.{
  by_length, old_a, old_b, both, both-IsTable, both-IsReadable, both-IsAscending, one_word,
}

abbrev pub outside : Outside
outside = record { hash = by_length; crc = λ bytes. 7 }

-- 1.sst
abbrev pub name : List ℕ
name = 49 ∷ 46 ∷ 115 ∷ 115 ∷ 116 ∷ []

abbrev pub both_table : Table
both_table = record { name = name; reader = table_reader by_length old_a (old_b ∷ []) }

abbrev pub published : State
published = record {
  version_of = 2;
  sstables = name ∷ [];
  next_sst = 1;
  applied_index = 0;
  last_seq = 2;
}

-- One table, and nothing in memory; any write is flushed, and two tables are merged.
abbrev pub eager : DurabilityMode → Db
eager mode = record {
  mem = record { entries = []; next_seq = 3 };
  log = none;
  is_persistent = true;
  readers = both_table ∷ [];
  next_sst = 1;
  opts = record {
    flush_threshold_option = 1;
    compaction_threshold_option = 2;
    durability_mode = mode;
  };
  manifest = published;
  applied_index = 2;
  durable_index = 2;
  closed = false;
  files = [];
  published = some published;
}

eager-IsDb : (mode : DurabilityMode) → IsDb by_length (both ∷ []) (eager mode)
eager-IsDb mode = record {
  differ = tt;
  readable = tt;
  holds = one_more refl both-IsTable both-IsReadable both-IsAscending no_tables;
  stacked = (tt, ((tt, (tt, tt)), tt));
}

eager-IsOpen : IsOpen by_length (both ∷ []) (eager embedded)
eager-IsOpen = record {
  sound = eager-IsDb embedded;
  below = (tt, ((omega arith, (omega arith, tt)), tt));
}

abbrev new_a : Record
new_a = record { key = 97 ∷ []; value = 9 ∷ []; seq_num = 3; type = put }

abbrev gone_a : Record
gone_a = record { key = 97 ∷ []; value = []; seq_num = 3; type = delete }

-- A table of one record or two with keys of one byte.
one_fits : ltb (length (table_file by_length new_a [])) (2 ^ 63) ≡ true
unfolding table_file record_header put_uint Bloom.encode Bloom.add Bloom.set_positions Bloom.new
    Bloom.set_in_word Bloom.bloom_hashes
one_fits = refl

gone_fits : ltb (length (table_file by_length gone_a [])) (2 ^ 63) ≡ true
unfolding table_file record_header put_uint Bloom.encode Bloom.add Bloom.set_positions Bloom.new
    Bloom.set_in_word Bloom.bloom_hashes
gone_fits = refl

two_fits : ltb (length (table_file by_length new_a (old_b ∷ []))) (2 ^ 63) ≡ true
unfolding table_file record_header put_uint Bloom.encode Bloom.add Bloom.set_positions Bloom.new
    Bloom.set_in_word Bloom.bloom_hashes
two_fits = refl

last_fits : ltb (length (table_file by_length old_b [])) (2 ^ 63) ≡ true
unfolding table_file record_header put_uint Bloom.encode Bloom.add Bloom.set_positions Bloom.new
    Bloom.set_in_word Bloom.bloom_hashes
last_fits = refl

one_key :
    (r : Record)
    → length r.key < 2 ^ 32
    → ltb (length (table_file by_length r [])) (2 ^ 63) ≡ true
    → IsTable by_length r []
one_key r short fits = record {
  short_keys = (short, tt);
  file_fits = ltb→lt _ _ fits;
  filter_fits = one_word 1;
}

two-IsTable : IsTable by_length new_a (old_b ∷ [])
two-IsTable = record {
  short_keys = (omega arith, (omega arith, tt));
  file_fits = ltb→lt _ _ two_fits;
  filter_fits = one_word 2;
}

merged_new : merge ((new_a ∷ []) ∷ both ∷ []) true ≡ new_a ∷ old_b ∷ []
unfolding merge same_key
merged_new = refl

merged_gone : merge ((gone_a ∷ []) ∷ both ∷ []) true ≡ old_b ∷ []
unfolding merge same_key
merged_gone = refl

fits_lem :
    (db : Db) (r : Record)
    → sorted_entries db.mem ≡ r ∷ []
    → Fits by_length (r ∷ [])
    → Fits by_length (merge ((r ∷ []) ∷ both ∷ []) true)
    → FlushFits by_length (both ∷ []) db
fits_lem db r e one two = record {
  table = subst (Fits by_length) (sym e) one;
  merged = subst (λ s. Fits by_length (merge (s ∷ both ∷ []) true)) (sym e) two;
}

set_entries :
    sorted_entries
      (written outside
        (both ∷ [])
        (eager embedded)
        eager-IsOpen
        (omega arith)
        type_put
        put
        (97 ∷ [])
        (9 ∷ [])).mem
    ≡ new_a ∷ []
unfolding sorted_entries set_raw sort_slice find store_record
set_entries = refl

new-Fits : Fits by_length (merge ((new_a ∷ []) ∷ both ∷ []) true)
new-Fits = subst (Fits by_length) (sym merged_new) two-IsTable

get-set_example :
    (get by_length.fnv (set outside (eager embedded) (97 ∷ []) (9 ∷ [])).0 (97 ∷ []) ≡ (
      if same_key (97 ∷ []) (97 ∷ [])
      then some (9 ∷ [])
      else get by_length.fnv (eager embedded) (97 ∷ [])))
    × ((lists : List (List Record)) × IsOpen by_length lists
          (set outside (eager embedded) (97 ∷ []) (9 ∷ [])).0)
get-set_example =
    get-set outside (both ∷ []) (eager embedded) eager-IsOpen (omega arith) refl (97 ∷ [])
      (omega arith) (9 ∷ []) (97 ∷ []) (omega arith)
      (fits_lem _ new_a set_entries (one_key new_a (omega arith) one_fits) new-Fits)

remove_entries :
    sorted_entries
      (written outside
        (both ∷ [])
        (eager embedded)
        eager-IsOpen
        (omega arith)
        type_delete
        delete
        (97 ∷ [])
        []).mem
    ≡ gone_a ∷ []
unfolding sorted_entries set_raw sort_slice find store_record
remove_entries = refl

get-remove_example :
    (get by_length.fnv (remove outside (eager embedded) (97 ∷ [])).0 (98 ∷ []) ≡ (
      if same_key (97 ∷ []) (98 ∷ []) then none else get by_length.fnv (eager embedded) (98 ∷ [])))
    × ((lists : List (List Record)) × IsOpen by_length lists
          (remove outside (eager embedded) (97 ∷ [])).0)
get-remove_example =
    get-remove outside (both ∷ []) (eager embedded) eager-IsOpen (omega arith) refl (97 ∷ [])
      (omega arith) (98 ∷ [])
      (fits_lem _ gone_a remove_entries (one_key gone_a (omega arith) gone_fits)
        (subst (Fits by_length) (sym merged_gone) (one_key old_b (omega arith) last_fits)))

-- With a record in memory that waits for a flush.
abbrev waiting : Db
waiting = record (eager embedded) { mem = record { entries = new_a ∷ []; next_seq = 4 } }

waiting-IsDb : IsDb by_length (both ∷ []) waiting
waiting-IsDb = record {
  differ = (tt, tt);
  readable = (
    record {
      short_key = omega arith;
      short_value = omega arith;
      seq_fits = omega arith;
      known = refl;
    },
    tt,
  );
  holds = one_more refl both-IsTable both-IsReadable both-IsAscending no_tables;
  stacked = ((((omega arith, (omega arith, tt)), tt), tt), ((tt, (tt, tt)), tt));
}

waiting_entries : sorted_entries waiting.mem ≡ new_a ∷ []
unfolding sorted_entries sort_slice
waiting_entries = refl

get-flush_example :
    get by_length.fnv (flush by_length waiting).0 (97 ∷ []) ≡ get by_length.fnv waiting (97 ∷ [])
get-flush_example =
    get-flush by_length (both ∷ []) waiting waiting-IsDb (97 ∷ [])
      (fits_lem waiting new_a waiting_entries (one_key new_a (omega arith) one_fits) new-Fits)

abbrev put_a : Mutation
put_a = record { type = 0; key = 97 ∷ []; value = 9 ∷ [] }

eager-IsApplied : IsApplied by_length (both ∷ []) (eager replica)
eager-IsApplied = record {
  sound = eager-IsDb replica;
  below = (tt, ((omega arith, (omega arith, tt)), tt));
  mode = refl;
}

batch_entries : sorted_entries (apply_mutations 3 (put_a ∷ []) (eager replica).mem) ≡ new_a ∷ []
unfolding sorted_entries sort_slice apply_mutations set_raw find store_record
batch_entries = refl

batch_checked : check_mutations (put_a ∷ []) ≡ none
unfolding check_mutations
batch_checked = refl

get-apply_batch_example :
    get by_length.fnv (apply_batch by_length (eager replica) 3 (put_a ∷ [])).0 (97 ∷ [])
    ≡ mutated (first_mutation (97 ∷ []) (put_a ∷ [])) (get by_length.fnv (eager replica) (97 ∷ []))
get-apply_batch_example =
    get-apply_batch by_length (both ∷ []) (eager replica) eager-IsApplied (omega arith) (put_a ∷ [])
      batch_checked ((omega arith, omega arith), tt) (97 ∷ [])
      (fits_lem _ new_a batch_entries (one_key new_a (omega arith) one_fits) new-Fits)

apply_batch_once_example :
    let after = (apply_batch by_length (eager replica) 3 (put_a ∷ [])).0 in
    ((apply_batch by_length after 3 (put_a ∷ [])).0 ≡ after)
    × ((apply_batch by_length after 3 (put_a ∷ [])).1 ≡ none ↔ (0 < 3) × (3 ≤ 3))
apply_batch_once_example =
    apply_batch_once by_length (both ∷ []) (eager replica) eager-IsApplied (omega arith)
      (put_a ∷ []) batch_checked ((omega arith, omega arith), tt) 3 (put_a ∷ [])
      (fits_lem _ new_a batch_entries (one_key new_a (omega arith) one_fits) new-Fits) (omega arith)
