-- ===== src/Db/Written.antt =====
-- db/db.go: Set and Delete.
use lsmdb.Base.{
  ℕ, ◌+◌, ◌<◌, ◌≡◌, refl, sym, ap, subst, ◌∙◌, List, [], ◌∷◌, Option, none, some, Bool, true, false,
  arith, if_no, if_yes, if_both, if◌then◌else◌, leb, add64, u64_mod, All, All-map,
}
use lsmdb.Memtable.{
  MemTable, Record, RecordType, put, delete, find, same_key, store_record, live_value, set_raw,
  alloc_seq, is_newer,
}
use lsmdb.Memtable.Keys.{find-store_record, All-store_record}
use lsmdb.Memtable.Sorted.{KeysDiffer, store_record-KeysDiffer}
use lsmdb.Memtable.Writes.{newest, All-below}
use lsmdb.Wal.{type_put, type_delete}
use lsmdb.Sstable.{Hashing}
use lsmdb.Sstable.Sections.{IsShort}
use lsmdb.Sstable.Records.{IsReadable}
use lsmdb.Db.Files.{DbError}
use lsmdb.Db.Engine.{Db, Outside, get, is_replica}
use lsmdb.Db.Calls.{append_log, write_record, set, remove}
use lsmdb.Db.Lookups.{lookup, first_of, IsStacked, Holds}
use lsmdb.Db.Kept.{IsDb, AllBelow, Keeps, get-Keeps, get-lookup}
use lsmdb.Db.Flushed.{FlushFits, maybe_flush-Keeps}

-- The database is sound, and its counter is above every number in use.
pub record IsOpen (hash : Hashing) (ls : List (List Record)) (db : Db) : Type 0 where
  pub sound : IsDb hash ls db
  pub below : AllBelow db.mem.next_seq (db.mem.entries ∷ ls)

live_first_if :
    (b : Bool) (r : Record) (o later : Option Record)
    → live_value (first_of (if b then some r else o) later)
      ≡ (if b then live_value (some r) else live_value (first_of o later))
live_first_if true r o later = refl
live_first_if false r o later = refl

module _ (hash : Hashing) (ls : List (List Record)) (db : Db) (d : IsDb hash ls db) where
  -- A record that is newer than all tables may enter the table in memory.
  pub store_record-IsDb :
      (r : Record) (after : Db)
      → IsReadable r
      → AllBelow r.seq_num ls
      → after.mem.entries ≡ store_record r db.mem.entries
      → after.readers ≡ db.readers
      → IsDb hash ls after
  store_record-IsDb r after readable above e t = record {
    differ = subst KeysDiffer (sym e) (store_record-KeysDiffer r db.mem.entries d.differ);
    readable =
        subst (All IsReadable) (sym e)
          (All-store_record IsReadable r db.mem.entries readable d.readable);
    holds = subst (λ ts. Holds hash ts ls) (sym t) d.holds;
    stacked =
        subst (λ es. IsStacked (es ∷ ls)) (sym e)
          (All-store_record _ r db.mem.entries above d.stacked.0, d.stacked.1);
  }

  lookup-store_record :
      (r : Record) (other : List ℕ)
      → live_value (lookup other (store_record r db.mem.entries ∷ ls)) ≡ (
          if same_key r.key other
          then live_value (some r)
          else live_value (lookup other (db.mem.entries ∷ ls)))
  unfolding lookup
  lookup-store_record r other =
      ap (λ o. live_value (first_of o (lookup other ls))) (find-store_record other r db.mem.entries)
      ∙ live_first_if (same_key r.key other) r (find other db.mem.entries) (lookup other ls)

fresh_lem :
    (m : MemTable) (r : Record)
    → All (λ (s : Record). s.seq_num < r.seq_num) m.entries
    → (set_raw m r).entries ≡ store_record r m.entries
unfolding set_raw
fresh_lem m r h = if_yes (is_newer r (find r.key m.entries)) _ _ (newest r r.key m.entries h)

module _ (env : Outside) (ls : List (List Record)) (db : Db) (o : IsOpen env.hash ls db)
    (room : db.mem.next_seq + 1 < u64_mod) (wal_type : ℕ) (type : RecordType)
    (key value : List ℕ) where
  abbrev r : Record
  r = record { key = key; value = value; seq_num = db.mem.next_seq; type = type }

  abbrev taken : MemTable
  taken = record db.mem { next_seq = add64 db.mem.next_seq 1 }

  abbrev pub written : Db
  written = record db {
    mem = set_raw taken r;
    log =
        append_log env.crc db.log
          (record { type = wal_type; seq_num = db.mem.next_seq; key = key; value = value });
  }

  written_entries : written.mem.entries ≡ store_record r db.mem.entries
  written_entries = fresh_lem taken r o.below.0

  written_next : written.mem.next_seq ≡ db.mem.next_seq + 1
  unfolding set_raw
  written_next =
      if_both (λ n. n ≡ db.mem.next_seq + 1) (leb (add64 db.mem.next_seq 1) db.mem.next_seq) _ _
        (omega (arith, room)) (omega (arith, room))

  write_record-Keeps :
      IsReadable r
      → FlushFits env.hash ls written
      → IsDb env.hash ls written
        × Keeps env.hash written ls (write_record env db wal_type type key value).0
  unfolding write_record alloc_seq
  write_record-Keeps readable fits =
      let sound =
        store_record-IsDb env.hash ls db o.sound r written readable o.below.1 written_entries
          refl in
      (sound, maybe_flush-Keeps env.hash ls written sound fits)

  get-write_record :
      (other : List ℕ)
      → IsReadable r
      → FlushFits env.hash ls written
      → get env.hash.fnv (write_record env db wal_type type key value).0 other
        ≡ (if same_key key other then live_value (some r) else get env.hash.fnv db other)
  get-write_record other readable fits =
      let (sound, k) = write_record-Keeps readable fits in
      get-Keeps env.hash written ls _ other sound k
      ∙ get-lookup env.hash ls written other sound
      ∙ ap (λ es. live_value (lookup other (es ∷ ls))) written_entries
      ∙ lookup-store_record env.hash ls db o.sound r other
      ∙ ap (λ x. if same_key key other then live_value (some r) else x)
          (sym (get-lookup env.hash ls db other o.sound))

  write_record-IsOpen :
      IsReadable r
      → FlushFits env.hash ls written
      → (lists : List (List Record)) × IsOpen env.hash lists
          (write_record env db wal_type type key value).0
  write_record-IsOpen readable fits =
      let (sound, k) = write_record-Keeps readable fits in
      let n = db.mem.next_seq in
      let higher =
        λ (rs : List Record). All-below n written.mem.next_seq rs (omega (arith, written_next)) in
      (
        k.lists,
        record {
          sound = k.sound;
          below =
              subst
                (λ n.
                  AllBelow n
                    ((write_record env db wal_type type key value).0.mem.entries ∷ k.lists))
                (sym k.same_next)
                (k.no_higher written.mem.next_seq (
                  subst (All (λ (s : Record). s.seq_num < written.mem.next_seq))
                      (sym written_entries)
                      (All-store_record _ r db.mem.entries (omega (arith, written_next))
                        (higher db.mem.entries o.below.0)),
                  All-map (All (λ (s : Record). s.seq_num < n)) _ ls (λ l. higher l) o.below.1,
                ));
        },
      )

IsReadable-put :
    (key value : List ℕ) (seq : ℕ)
    → IsShort key
    → IsShort value
    → seq + 1 < u64_mod
    → IsReadable (record { key = key; value = value; seq_num = seq; type = put })
IsReadable-put key value seq k v s = record {
  short_key = k;
  short_value = v;
  seq_fits = omega (arith, s);
  known = refl;
}

IsReadable-delete :
    (key : List ℕ) (seq : ℕ)
    → IsShort key
    → seq + 1 < u64_mod
    → IsReadable (record { key = key; value = []; seq_num = seq; type = delete })
IsReadable-delete key seq k s = record {
  short_key = k;
  short_value = omega arith;
  seq_fits = omega (arith, s);
  known = refl;
}

module _ (env : Outside) (ls : List (List Record)) (db : Db) (o : IsOpen env.hash ls db)
    (room : db.mem.next_seq + 1 < u64_mod) (embedded_mode : is_replica db.opts ≡ false)
    (key : List ℕ) (short : IsShort key) where
  -- After Set, with the flush and the compaction that it may start, its key reads as the value and
  -- every other key as before, and the database is sound for the next call: in embedded mode, where
  -- the database is sound, the counter has room for one more number, the lengths of the key and the
  -- value fit in 32 bits, and the tables that are written fit the format.
  pub get-set :
      (value other : List ℕ)
      → IsShort value
      → FlushFits env.hash ls (written env ls db o room type_put put key value)
      → (get env.hash.fnv (set env db key value).0 other
          ≡ (if same_key key other then some value else get env.hash.fnv db other))
        × ((lists : List (List Record)) × IsOpen env.hash lists (set env db key value).0)
  unfolding set
  get-set value other fits_value fits =
      let readable = IsReadable-put key value db.mem.next_seq short fits_value room in
      let P = λ (p : Db × Option DbError).
        (get env.hash.fnv p.0 other
          ≡ (if same_key key other then some value else get env.hash.fnv db other))
        × ((lists : List (List Record)) × IsOpen env.hash lists p.0) in
      subst P (sym (if_no (is_replica db.opts) _ _ embedded_mode)) (
        get-write_record env ls db o room type_put put key value other readable fits,
        write_record-IsOpen env ls db o room type_put put key value readable fits,
      )

  -- After Delete its key reads as missing and every other key as before, and the database is sound
  -- for the next call: in embedded mode, where the database is sound, the counter has room for one
  -- more number, the length of the key fits in 32 bits, and the tables that are written fit the
  -- format.
  pub get-remove :
      (other : List ℕ)
      → FlushFits env.hash ls (written env ls db o room type_delete delete key [])
      → (get env.hash.fnv (remove env db key).0 other
          ≡ (if same_key key other then none else get env.hash.fnv db other))
        × ((lists : List (List Record)) × IsOpen env.hash lists (remove env db key).0)
  unfolding remove
  get-remove other fits =
      let readable = IsReadable-delete key db.mem.next_seq short room in
      let P = λ (p : Db × Option DbError).
        (get env.hash.fnv p.0 other
          ≡ (if same_key key other then none else get env.hash.fnv db other))
        × ((lists : List (List Record)) × IsOpen env.hash lists p.0) in
      subst P (sym (if_no (is_replica db.opts) _ _ embedded_mode)) (
        get-write_record env ls db o room type_delete delete key [] other readable fits,
        write_record-IsOpen env ls db o room type_delete delete key [] readable fits,
      )
