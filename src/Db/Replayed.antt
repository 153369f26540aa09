-- ===== src/Db/Replayed.antt =====
-- db/db.go: what the replay of a log of rising numbers makes of the table in memory.
use lsmdb.Base.{
  ℕ, ◌+◌, ◌≤◌, ◌<◌, ◌≡◌, refl, sym, ap, ◌∙◌, List, [], ◌∷◌, ◌++◌, Option, some, inl, inr, arith,
  if◌then◌else◌, if_yes, if_no, ◌%◌, leb, ◌==◌, add64, u64_mod, All,
}
use lsmdb.Memtable
use lsmdb.Memtable.{MemTable, put, delete, same_key, find, set_raw, store_record, is_newer}
use lsmdb.Memtable.Keys.{All-store_record, find-store_record}
use lsmdb.Memtable.Writes.{newest, All-below}
use lsmdb.Wal
use lsmdb.Wal.{type_put}
use lsmdb.Wal.Replay.{IsRecord}
use lsmdb.Sstable.Reader.{type_from}
use lsmdb.Db.Opening.{replayed, replay_log}
use lsmdb.Db.Numbers.{IsRising}

-- The record that a call of Set or of Delete keeps in memory for its record in the log.
abbrev pub written : Wal.Record → Memtable.Record
written r = record {
  key = r.key;
  value = r.value;
  seq_num = r.seq_num;
  type = if r.type == type_put then put else delete;
}

-- The map in memory after these writes, one after the other.
abbrev pub stored : List Memtable.Record → List Wal.Record → List Memtable.Record
stored entries [] = entries
stored entries (r ∷ rs) = stored (store_record (written r) entries) rs

abbrev pub last_number : ℕ → List Wal.Record → ℕ
last_number low [] = low
last_number low (r ∷ rs) = last_number r.seq_num rs

pub last_number-above :
    (low : ℕ) (rs : List Wal.Record) → IsRising low rs → low ≤ last_number low rs
last_number-above low [] h = omega arith
last_number-above low (r ∷ rs) h = omega (arith, h.0, last_number-above r.seq_num rs h.1)

replayed-IsRecord : (r : Wal.Record) → IsRecord r → replayed r ≡ written r
replayed-IsRecord r h = elim h.known [
  | inl e ↦ (λ i. record {
    key = r.key;
    value = r.value;
    seq_num = r.seq_num;
    type =
        (ap (λ t. type_from ((t + 255) % 256)) e
            ∙ sym (if_yes (r.type == type_put) put delete (ground (arith, e))))
          i;
  })
  | inr e ↦ (λ i. record {
    key = r.key;
    value = r.value;
    seq_num = r.seq_num;
    type =
        (ap (λ t. type_from ((t + 255) % 256)) e
            ∙ sym (if_no (r.type == type_put) put delete (ground (arith, e))))
          i;
  })
]

pub stored-below :
    (low : ℕ) (entries : List Memtable.Record) (rs : List Wal.Record)
    → All (λ (s : Memtable.Record). s.seq_num < low + 1) entries
    → IsRising low rs
    → All (λ (s : Memtable.Record). s.seq_num < last_number low rs + 1) (stored entries rs)
stored-below low entries [] h rise = h
stored-below low entries (r ∷ rs) h rise =
    stored-below r.seq_num (store_record (written r) entries) rs
      (All-store_record _ (written r) entries (omega arith)
        (All-below (low + 1) (r.seq_num + 1) entries (omega (arith, rise.0)) h))
      rise.1

-- A record whose number the counter has reached or passed, and that no record of the table has.
pub set_raw-next :
    (m : MemTable) (r : Memtable.Record)
    → All (λ (s : Memtable.Record). s.seq_num < m.next_seq) m.entries
    → m.next_seq ≤ r.seq_num
    → r.seq_num + 1 < u64_mod
    → set_raw m r ≡ record { entries = store_record r m.entries; next_seq = r.seq_num + 1 }
unfolding set_raw
set_raw-next m r h above room =
    let fresh = newest r r.key m.entries (All-below m.next_seq r.seq_num m.entries above h) in
    let counter : (if leb m.next_seq r.seq_num then add64 r.seq_num 1 else m.next_seq)
        ≡ r.seq_num + 1 =
      ground (arith, above, room) in
    (λ i. record {
      entries =
          if_yes (is_newer r (find r.key m.entries)) (store_record r m.entries) m.entries fresh i;
      next_seq = counter i;
    })

pub replay_log-stored :
    (low : ℕ) (entries : List Memtable.Record) (rs : List Wal.Record)
    → All (λ (s : Memtable.Record). s.seq_num < low + 1) entries
    → IsRising low rs
    → All IsRecord rs
    → last_number low rs + 1 < u64_mod
    → replay_log (record { entries = entries; next_seq = low + 1 }) rs
      ≡ record { entries = stored entries rs; next_seq = last_number low rs + 1 }
unfolding replay_log
replay_log-stored low entries [] h rise good room = refl
replay_log-stored low entries (r ∷ rs) h rise good room =
    let top = last_number-above r.seq_num rs rise.1 in
    let m : MemTable = record { entries = entries; next_seq = low + 1 } in
    ap (λ x. replay_log (set_raw m x) rs) (replayed-IsRecord r good.0)
    ∙ ap (λ x. replay_log x rs)
        (set_raw-next m (written r) h (omega (arith, rise.0)) (omega (arith, top, room)))
    ∙ replay_log-stored r.seq_num (store_record (written r) entries) rs
        (All-store_record _ (written r) entries (omega arith)
          (All-below (low + 1) (r.seq_num + 1) entries (omega (arith, rise.0)) h))
        rise.1 good.1 room

pub stored-append :
    (entries : List Memtable.Record) (rs : List Wal.Record) (r : Wal.Record)
    → stored entries (rs ++ r ∷ []) ≡ store_record (written r) (stored entries rs)
stored-append entries [] r = refl
stored-append entries (s ∷ rs) r = stored-append (store_record (written s) entries) rs r

pub last_number-append :
    (low : ℕ) (rs : List Wal.Record) (r : Wal.Record) → last_number low (rs ++ r ∷ []) ≡ r.seq_num
last_number-append low [] r = refl
last_number-append low (s ∷ rs) r = last_number-append s.seq_num rs r

pub IsRising-append :
    (low : ℕ) (rs : List Wal.Record) (r : Wal.Record)
    → IsRising low rs
    → last_number low rs < r.seq_num
    → IsRising low (rs ++ r ∷ [])
IsRising-append low [] r h above = (above, tt)
IsRising-append low (s ∷ rs) r h above = (h.0, IsRising-append s.seq_num rs r h.1 above)

-- What the last write of a key leaves of it, where there is one.
abbrev pub last_write : List ℕ → Option Memtable.Record → List Wal.Record → Option Memtable.Record
last_write key found [] = found
last_write key found (r ∷ rs) =
    last_write key (if same_key r.key key then some (written r) else found) rs

pub find-stored :
    (key : List ℕ) (entries : List Memtable.Record) (rs : List Wal.Record)
    → find key (stored entries rs) ≡ last_write key (find key entries) rs
find-stored key entries [] = refl
find-stored key entries (r ∷ rs) =
    find-stored key (store_record (written r) entries) rs
    ∙ ap (λ o. last_write key o rs) (find-store_record key (written r) entries)
