-- ===== src/Examples/Recoveries.antt =====
-- Runs of the database of db that is opened again, and of the manifest of internal/manifest.
use lsmdb.Base.{
  ◌+◌, ◌<◌, ◌≡◌, ◌↔◌, ◌⊎◌, refl, [], ◌∷◌, none, some, true, false, arith, length, All, inl, inr,
  u64_mod,
}
use lsmdb.Memtable.{put, delete, find, same_key, set_raw, store_record}
use lsmdb.Wal
use lsmdb.Wal.{type_put, type_delete}
use lsmdb.Wal.Replay.Files.{file, append_all}
use lsmdb.Sstable.{table_file}
use lsmdb.Manifest.{validate, is_legacy, version, legacy_version}
use lsmdb.Manifest.Names.{IsTableName, NoRepeats, validate_iff}
use lsmdb.Db.Files.{write_file}
use lsmdb.Db.Engine.{Db, embedded}
use lsmdb.Db.Calls.{set}
use lsmdb.Db.Kept.{open_file-write_file}
use lsmdb.Db.Opening.{sequence_wal}
use lsmdb.Db.Numbers.{IsRising, Replays, sequence_wal-Replays}
use lsmdb.Db.Replayed.{stored}
use lsmdb.Db.Recovery.{IsDurable, set-IsDurable, stepped}
use lsmdb.Examples.Sorted.{by_length, old_a, old_b, both-IsTable}
use lsmdb.Examples.Databases.{outside, name, published, eager}

abbrev old_write : Wal.Record
old_write = record { type = 1; seq_num = 2; key = 98 ∷ []; value = 2 ∷ [] }

abbrev new_write : Wal.Record
new_write = record { type = 1; seq_num = 3; key = 97 ∷ []; value = 9 ∷ [] }

abbrev new_delete : Wal.Record
new_delete = record { type = 2; seq_num = 4; key = 98 ∷ []; value = [] }

-- The log still has a record of the published table, and two that are only in memory.
abbrev logging : Db
logging = record (eager embedded) {
  mem = record {
    entries =
        record { key = 97 ∷ []; value = 9 ∷ []; seq_num = 3; type = put }
        ∷ record { key = 98 ∷ []; value = []; seq_num = 4; type = delete }
        ∷ [];
    next_seq = 5;
  };
  log = some (append_all outside.crc (file []) (old_write ∷ new_write ∷ new_delete ∷ []));
  opts = record {
    flush_threshold_option = 0;
    compaction_threshold_option = 0;
    durability_mode = embedded;
  };
  files = write_file name (table_file by_length old_a (old_b ∷ [])) [];
}

published_valid : validate published ≡ none
unfolding validate same_key
published_valid = refl

published_current : is_legacy published ≡ false
unfolding is_legacy
published_current = refl

logging_writes : logging.mem.entries ≡ stored [] (new_write ∷ new_delete ∷ [])
unfolding store_record same_key
logging_writes = refl

logging_counted : logging.mem.next_seq ≡ 5
logging_counted = omega arith

logging_small : logging.mem.next_seq < u64_mod
logging_small = omega arith

logging-IsDurable : IsDurable outside (old_write ∷ []) (new_write ∷ new_delete ∷ []) logging
logging-IsDurable = record {
  published = refl;
  valid = published_valid;
  current = published_current;
  named = refl;
  in_files = (open_file-write_file by_length name [] old_a (old_b ∷ []) both-IsTable, tt);
  log = refl;
  recorded = (
    record {
      known = inl refl;
      short_key = omega arith;
      short_value = omega arith;
      seq_fits = omega arith;
    },
    (
      record {
        known = inl refl;
        short_key = omega arith;
        short_value = omega arith;
        seq_fits = omega arith;
      },
      (
        record {
          known = inr refl;
          short_key = omega arith;
          short_value = omega arith;
          seq_fits = omega arith;
        },
        tt,
      ),
    ),
  );
  older = (omega arith, tt);
  rising = (omega arith, (omega arith, tt));
  writes = logging_writes;
  counted = logging_counted;
  room = logging_small;
  mode = refl;
}

sequence_wal-Replays_example :
    let (kept, is_renumbered) = sequence_wal (old_write ∷ new_write ∷ []) 2 true in
    Replays 2 true is_renumbered (old_write ∷ new_write ∷ []) kept
    × All (λ (r : Wal.Record). 2 < r.seq_num) kept
    × (is_renumbered ≡ true → IsRising 2 kept)
sequence_wal-Replays_example =
    sequence_wal-Replays (old_write ∷ new_write ∷ []) 2 true (omega arith)

validate_iff_example : (validate published ≡ none) ↔ (
    ((2 ≡ version) ⊎ (2 ≡ legacy_version)) × All IsTableName (name ∷ []) × NoRepeats [] (name ∷ []))
validate_iff_example = validate_iff published

logging_room : logging.mem.next_seq + 1 < u64_mod
logging_room = omega arith

logging_low :
    length
      (stepped outside
        (old_write ∷ [])
        (new_write ∷ new_delete ∷ [])
        logging
        logging-IsDurable
        logging_room
        (98 ∷ [])
        (4 ∷ [])
        (omega arith)
        (omega arith)).mem.entries
    < 1000
unfolding set_raw find store_record same_key
logging_low = omega arith

set-IsDurable_example :
    let write : Wal.Record = record {
      type = 1;
      seq_num = logging.mem.next_seq;
      key = 98 ∷ [];
      value = 4 ∷ [];
    } in
    (set outside logging (98 ∷ []) (4 ∷ []) ≡ (
      stepped outside
          (old_write ∷ [])
          (new_write ∷ new_delete ∷ [])
          logging
          logging-IsDurable
          logging_room
          (98 ∷ [])
          (4 ∷ [])
          (omega arith)
          (omega arith),
      none,
    ))
    × IsDurable outside
        (old_write ∷ [])
        (new_write ∷ new_delete ∷ write ∷ [])
        (set outside logging (98 ∷ []) (4 ∷ [])).0
set-IsDurable_example =
    set-IsDurable outside (old_write ∷ []) (new_write ∷ new_delete ∷ []) logging logging-IsDurable
      logging_room (98 ∷ []) (4 ∷ []) (omega arith) (omega arith) logging_low
