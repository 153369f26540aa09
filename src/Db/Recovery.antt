-- ===== src/Db/Recovery.antt =====
-- db/db.go: a database that is opened again on what it left on the disk, without a call of Close.
use lsmdb.Base.{
  ℕ, ◌+◌, ◌≤◌, ◌<◌, ◌^◌, ◌≡◌, refl, sym, ap, subst, ◌∙◌, List, [], ◌∷◌, ◌++◌, Option, none, some,
  inl, append_assoc, true, false, arith, if_no, if_yes, if_both, if◌then◌else◌, ltb, leb, add64,
  u64_mod, All, All-append, not, ok, length,
}
use lsmdb.Memtable
use lsmdb.Memtable.{
  MemTable, RecordType, put, delete, set_raw, alloc_seq, find, store_record, is_newer,
}
use lsmdb.Wal
use lsmdb.Wal.{Wal, type_put, max_key_len, max_val_len}
use lsmdb.Wal.Replay.{IsRecord}
use lsmdb.Wal.Replay.Files.{file, append_all}
use lsmdb.Manifest.{validate, is_legacy}
use lsmdb.Db.Files.{Table, open_file, DbError}
use lsmdb.Db.Engine.{Db, Outside, get, is_replica, maybe_flush, flush_threshold}
use lsmdb.Db.Calls.{append_log, write_record, set}
use lsmdb.Db.Opening.{Disk}
use lsmdb.Db.Numbers.{IsRising}
use lsmdb.Db.Replayed.{
  written, stored, last_number, stored-below, set_raw-next, stored-append, last_number-append,
  IsRising-append,
}

-- What a crash leaves of the database.
abbrev pub disk_of : Db → Wal → Disk
disk_of db w = record { files = db.files; published = db.published; wal = w.contents }

-- The names of the tables, the oldest first, as the manifest lists them.
abbrev pub oldest_first : List Table → List (List ℕ)
oldest_first [] = []
oldest_first (t ∷ ts) = oldest_first ts ++ t.name ∷ []

-- The disk has all that the database knows: the published manifest names the tables in use, each in
-- its file, and the log holds `old` records, which these tables have, and then `new` ones, of rising
-- numbers, whose writes make the table in memory.
pub record IsDurable (env : Outside) (old new : List Wal.Record) (db : Db) : Type 0 where
  pub published : db.published ≡ some db.manifest
  pub valid : validate db.manifest ≡ none
  pub current : is_legacy db.manifest ≡ false
  pub named : db.manifest.sstables ≡ oldest_first db.readers
  pub in_files : All (λ (t : Table). open_file t.name db.files ≡ ok t.reader) db.readers
  pub log : db.log ≡ some (append_all env.crc (file []) (old ++ new))
  pub recorded : All IsRecord (old ++ new)
  pub older : All (λ (r : Wal.Record). r.seq_num ≤ db.manifest.last_seq) old
  pub rising : IsRising db.manifest.last_seq new
  pub writes : db.mem.entries ≡ stored [] new
  pub counted : db.mem.next_seq ≡ last_number db.manifest.last_seq new + 1
  pub room : db.mem.next_seq < u64_mod
  pub mode : is_replica db.opts ≡ false

-- The state that Open makes of it.
abbrev pub reopened : Db → Db
reopened db = record db {
  is_persistent = true;
  next_sst = db.manifest.next_sst;
  applied_index = 0;
  durable_index = 0;
  closed = false;
}

module _ (env : Outside) (small : (bytes : List ℕ) → env.crc bytes < 2 ^ 32)
    (old new : List Wal.Record) (db : Db) (d : IsDurable env old new db) where
  abbrev w : Wal
  w = append_all env.crc (file []) (old ++ new)

append_all-append :
    (crc : List ℕ → ℕ) (w : Wal) (rs : List Wal.Record) (r : Wal.Record)
    → append_all crc w (rs ++ r ∷ []) ≡ Wal.append crc (append_all crc w rs) r
append_all-append crc w [] r = refl
append_all-append crc w (s ∷ rs) r = append_all-append crc (Wal.append crc w s) rs r

-- A number taken before the write of its record, or by the write.
set_raw_taken :
    (m : MemTable) (r : Memtable.Record)
    → r.seq_num ≡ m.next_seq
    → m.next_seq + 1 < u64_mod
    → set_raw (record m { next_seq = add64 m.next_seq 1 }) r ≡ set_raw m r
unfolding set_raw
set_raw_taken m r e room = λ i. record {
  entries = if is_newer r (find r.key m.entries) then store_record r m.entries else m.entries;
  next_seq = counter i;
}
  where
    counter :
        (if leb (add64 m.next_seq 1) r.seq_num then add64 r.seq_num 1 else add64 m.next_seq 1)
        ≡ (if leb m.next_seq r.seq_num then add64 r.seq_num 1 else m.next_seq)
    counter = ground (arith, e, room)

module _ (env : Outside) (old new : List Wal.Record) (db : Db) (d : IsDurable env old new db)
    (room : db.mem.next_seq + 1 < u64_mod) (key value : List ℕ)
    (short_key : length key ≤ max_key_len) (short_value : length value ≤ max_val_len) where
  abbrev pub logged : Wal.Record
  logged = record { type = type_put; seq_num = db.mem.next_seq; key = key; value = value }

  -- The database after Set, before a flush.
  abbrev pub stepped : Db
  stepped = record db {
    mem =
        set_raw (record db.mem { next_seq = add64 db.mem.next_seq 1 })
          (record { key = key; value = value; seq_num = db.mem.next_seq; type = put });
    log = append_log env.crc db.log logged;
  }

  taken_lem : stepped.mem ≡ record {
    entries = store_record (written logged) db.mem.entries;
    next_seq = db.mem.next_seq + 1;
  }
  taken_lem =
      let below : All (λ (s : Memtable.Record). s.seq_num < db.mem.next_seq) db.mem.entries =
        subst (λ n. All (λ (s : Memtable.Record). s.seq_num < n) db.mem.entries) (sym d.counted)
          (subst
            (All (λ (s : Memtable.Record). s.seq_num < last_number db.manifest.last_seq new + 1))
            (sym d.writes) (stored-below db.manifest.last_seq [] new tt d.rising)) in
      set_raw_taken db.mem (written logged) refl room
      ∙ set_raw-next db.mem (written logged) below (omega arith) room

  stepped-IsDurable : IsDurable env old (new ++ logged ∷ []) stepped
  stepped-IsDurable = record {
    published = d.published;
    valid = d.valid;
    current = d.current;
    named = d.named;
    in_files = d.in_files;
    log =
        ap (λ l. append_log env.crc l logged) d.log
        ∙ ap some (
            sym (append_all-append env.crc (file []) (old ++ new) logged)
            ∙ ap (append_all env.crc (file [])) (append_assoc old new (logged ∷ [])));
    recorded = subst (All IsRecord) (append_assoc old new (logged ∷ [])) (
        All-append IsRecord (old ++ new) (logged ∷ []) d.recorded (
          record {
            known = inl refl;
            short_key = short_key;
            short_value = short_value;
            seq_fits = omega (arith, room);
          },
          tt,
        ));
    older = d.older;
    rising = IsRising-append db.manifest.last_seq new logged d.rising (omega (arith, d.counted));
    writes =
        ap (λ (m : MemTable). m.entries) taken_lem
        ∙ ap (store_record (written logged)) d.writes
        ∙ sym (stored-append [] new logged);
    counted =
        ap (λ (m : MemTable). m.next_seq) taken_lem
        ∙ ap (λ n. n + 1) (sym (last_number-append db.manifest.last_seq new logged));
    room = subst (λ (m : MemTable). m.next_seq < u64_mod) (sym taken_lem) room;
    mode = d.mode;
  }

  -- Set that does not reach the threshold keeps the disk in step with the database: what a crash
  -- leaves then holds the write. In embedded mode, for a sound disk, where the counter has room for
  -- one more number, and the key and the value are within the limits of the log.
  pub set-IsDurable :
      length stepped.mem.entries < flush_threshold db.opts
      → (set env db key value ≡ (stepped, none))
        × IsDurable env old (new ++ logged ∷ []) (set env db key value).0
  unfolding set write_record alloc_seq maybe_flush
  set-IsDurable low =
      let e : set env db key value ≡ (stepped, none) =
        if_no (is_replica db.opts) _ _ d.mode
        ∙ if_both (λ p. p ≡ (stepped, none)) (not db.is_persistent) _ _ refl
            (if_yes (ltb (length stepped.mem.entries) (flush_threshold db.opts)) _ _
              (ground (arith, low))) in
      (
        e,
        subst (λ (p : Db × Option DbError). IsDurable env old (new ++ logged ∷ []) p.0) (sym e)
            stepped-IsDurable,
      )

-- The database that is opened again reads as the one that was lost.
pub get-reopened :
    (fnv : List ℕ → ℕ) (db : Db) (key : List ℕ) → get fnv (reopened db) key ≡ get fnv db key
unfolding get
get-reopened fnv db key = refl
