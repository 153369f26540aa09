-- ===== src/Examples/Machines.antt =====
-- Runs of the state machine of internal/kvstate.
use lsmdb.Base.{
  ℕ, ◌^◌, ◌≡◌, refl, sym, subst, List, [], ◌∷◌, ◌++◌, none, true, false, arith, ltb, ltb→lt, length,
  put_uint, get_uint, sort_slice, if◌then◌else◌,
}
use lsmdb.Bloom
use lsmdb.Memtable.{
  Record, put, find, same_key, key_before, get_record, set_raw, store_record, sorted_entries,
}
use lsmdb.Sstable.{table_file, record_header}
use lsmdb.Sstable.Opened.{IsTable}
use lsmdb.Compact.{merge}
use lsmdb.Db.Engine.{Db, Options, replica, get}
use lsmdb.Db.Engine
use lsmdb.Db.Calls.{apply_mutations}
use lsmdb.Db.Lookups.{no_tables}
use lsmdb.Db.Kept.{Fits}
use lsmdb.Db.Flushed.{FlushFits}
use lsmdb.Db.Batches.{IsApplied}
use lsmdb.Machine.{Command, user_prefix, is_retry, mutations, apply_command}
use lsmdb.Machine.Retries.{IsCommand, outcome, apply_command_new, apply_command_retry}
use lsmdb.Examples.Sorted.{by_length, one_word}

abbrev put_a : Command
put_a = record { operation = 1; key = 97 ∷ []; value = 9 ∷ []; client_id = 5 ∷ []; request_seq = 1 }

put_a-IsCommand : IsCommand put_a
put_a-IsCommand = record {
  known = refl;
  identified = refl;
  seq_fits = omega arith;
  short_key = omega arith;
  short_value = omega arith;
  short_client = omega arith;
}

abbrev session : Record
session = record {
  key = 0 ∷ 115 ∷ 101 ∷ 115 ∷ 115 ∷ 105 ∷ 111 ∷ 110 ∷ 47 ∷ 5 ∷ [];
  value = 0 ∷ 0 ∷ 0 ∷ 0 ∷ 0 ∷ 0 ∷ 0 ∷ 1 ∷ [];
  seq_num = 1;
  type = put;
}

abbrev user : Record
user = record { key = 1 ∷ 97 ∷ []; value = 9 ∷ []; seq_num = 1; type = put }

-- A replica without tables.
abbrev lone : List Record → ℕ → Db
lone entries index = record {
  mem = record { entries = entries; next_seq = 9 };
  log = none;
  is_persistent = true;
  readers = [];
  next_sst = 0;
  opts = record {
    flush_threshold_option = 1;
    compaction_threshold_option = 0;
    durability_mode = replica;
  };
  manifest = record {
    version_of = 2;
    sstables = [];
    next_sst = 0;
    applied_index = 0;
    last_seq = 0;
  };
  applied_index = index;
  durable_index = 0;
  closed = false;
  files = [];
  published = none;
}

fresh-IsApplied : IsApplied by_length [] (lone [] 0)
fresh-IsApplied = record {
  sound = record { differ = tt; readable = tt; holds = no_tables; stacked = (tt, tt) };
  below = (tt, tt);
  mode = refl;
}

used-IsApplied : IsApplied by_length [] (lone (session ∷ []) 1)
used-IsApplied = record {
  sound = record {
    differ = (tt, tt);
    readable = (
      record {
        short_key = omega arith;
        short_value = omega arith;
        seq_fits = omega arith;
        known = refl;
      },
      tt,
    );
    holds = no_tables;
    stacked = ((tt, tt), tt);
  };
  below = ((omega arith, tt), tt);
  mode = refl;
}

pair_fits : ltb (length (table_file by_length session (user ∷ []))) (2 ^ 63) ≡ true
unfolding table_file record_header put_uint Bloom.encode Bloom.add Bloom.set_positions Bloom.new
    Bloom.set_in_word Bloom.bloom_hashes
pair_fits = refl

session_fits : ltb (length (table_file by_length session [])) (2 ^ 63) ≡ true
unfolding table_file record_header put_uint Bloom.encode Bloom.add Bloom.set_positions Bloom.new
    Bloom.set_in_word Bloom.bloom_hashes
session_fits = refl

pair-IsTable : IsTable by_length session (user ∷ [])
pair-IsTable = record {
  short_keys = (omega arith, (omega arith, tt));
  file_fits = ltb→lt _ _ pair_fits;
  filter_fits = one_word 2;
}

session-IsTable : IsTable by_length session []
session-IsTable = record {
  short_keys = (omega arith, tt);
  file_fits = ltb→lt _ _ session_fits;
  filter_fits = one_word 1;
}

Fits-alone :
    (db : Db) (rs : List Record)
    → sorted_entries db.mem ≡ rs
    → merge (rs ∷ []) true ≡ rs
    → Fits by_length rs
    → FlushFits by_length [] db
Fits-alone db rs e m fits = record {
  table = subst (Fits by_length) (sym e) fits;
  merged =
      subst (λ s. Fits by_length (merge (s ∷ []) true)) (sym e)
        (subst (Fits by_length) (sym m) fits);
}

new_entries :
    sorted_entries (apply_mutations 1 (mutations put_a) (lone [] 0).mem) ≡ session ∷ user ∷ []
unfolding sorted_entries sort_slice apply_mutations set_raw find store_record same_key put_uint
    key_before
new_entries = refl

pair_merged : merge ((session ∷ user ∷ []) ∷ []) true ≡ session ∷ user ∷ []
unfolding merge same_key
pair_merged = refl

session_merged : merge ((session ∷ []) ∷ []) true ≡ session ∷ []
unfolding merge same_key
session_merged = refl

not_yet : is_retry by_length.fnv (lone [] 0) put_a ≡ false
unfolding is_retry Engine.get find get_record
not_yet = refl

again : is_retry by_length.fnv (lone (session ∷ []) 1) put_a ≡ true
unfolding is_retry Engine.get find get_record same_key get_uint
again = refl

apply_command_new_example :
    (get by_length.fnv (apply_command by_length (lone [] 0) 1 put_a).0 (user_prefix ++ 97 ∷ []) ≡ (
      if same_key (97 ∷ []) (97 ∷ [])
      then outcome put_a
      else get by_length.fnv (lone [] 0) (user_prefix ++ 97 ∷ [])))
    × (is_retry by_length.fnv (apply_command by_length (lone [] 0) 1 put_a).0 put_a ≡ true)
apply_command_new_example =
    apply_command_new by_length [] (lone [] 0) fresh-IsApplied (omega arith) put_a put_a-IsCommand
      (97 ∷ []) not_yet (Fits-alone _ (session ∷ user ∷ []) new_entries pair_merged pair-IsTable)

retry_entries : sorted_entries (apply_mutations 2 [] (lone (session ∷ []) 1).mem) ≡ session ∷ []
unfolding sorted_entries sort_slice apply_mutations
retry_entries = refl

apply_command_retry_example :
    get by_length.fnv (apply_command by_length (lone (session ∷ []) 1) 2 put_a).0 (1 ∷ 97 ∷ [])
    ≡ get by_length.fnv (lone (session ∷ []) 1) (1 ∷ 97 ∷ [])
apply_command_retry_example =
    apply_command_retry by_length [] (lone (session ∷ []) 1) used-IsApplied (omega arith) put_a
      put_a-IsCommand (1 ∷ 97 ∷ []) again
      (Fits-alone _ (session ∷ []) retry_entries session_merged session-IsTable)
