-- ===== src/Memtable.antt =====
-- internal/memtable/memtable.go: the latest record of each key, in memory. A call holds the lock
-- throughout, so it is one step. The map is the list of its records, in no order that a caller can
-- see; keys and values are bytes.
pub mod Keys
pub mod Order
pub mod Sorted
pub mod Replays
pub mod Writes
use lsmdb.Base.{
  ℕ, suc, ◌+◌, List, [], ◌∷◌, Option, none, some, Bool, true, false, ◌&&◌, ◌||◌, not, ◌==◌, ltb,
  leb, if◌then◌else◌, add64, length, drop, get_or, sort_slice, sort_search,
}

pub data RecordType : Type 0 where
  put delete : RecordType
  -- any other uint8
  other_type : ℕ → RecordType

pub record Record : Type 0 where
  pub key : List ℕ
  pub value : List ℕ
  pub seq_num : ℕ
  pub type : RecordType

pub record MemTable : Type 0 where
  pub entries : List Record
  pub next_seq : ℕ

-- Strings are compared byte by byte.
unfoldable pub same_key : List ℕ → List ℕ → Bool
same_key [] [] = true
same_key [] (b ∷ bs) = false
same_key (a ∷ as') [] = false
same_key (a ∷ as') (b ∷ bs) = a == b && same_key as' bs

unfoldable pub key_before : List ℕ → List ℕ → Bool
key_before [] [] = false
key_before [] (b ∷ bs) = true
key_before (a ∷ as') [] = false
key_before (a ∷ as') (b ∷ bs) = ltb a b || a == b && key_before as' bs

-- m.entries[key]
unfoldable pub find : List ℕ → List Record → Option Record
find key [] = none
find key (r ∷ rs) = if same_key r.key key then some r else find key rs

-- m.entries[r.Key] = r
unfoldable pub store_record : Record → List Record → List Record
store_record r [] = r ∷ []
store_record r (s ∷ ss) = if same_key s.key r.key then r ∷ ss else s ∷ store_record r ss

unfoldable pub new_with_seq : ℕ → MemTable
new_with_seq start_seq = record { entries = []; next_seq = start_seq }

unfoldable pub new : MemTable
unfolding new_with_seq
new = new_with_seq 1

unfoldable pub set : MemTable → List ℕ → List ℕ → MemTable
set m key value = record {
  entries =
      store_record (record { key = key; value = value; seq_num = m.next_seq; type = put })
        m.entries;
  next_seq = add64 m.next_seq 1;
}

-- The value, unless the key is missing or deleted.
abbrev pub live_value : Option Record → Option (List ℕ)
live_value none = none
live_value (some r) = elim r.type [ delete ↦ none | _ ↦ some r.value ]

unfoldable pub get : MemTable → List ℕ → Option (List ℕ)
get m key = live_value (find key m.entries)

unfoldable pub remove : MemTable → List ℕ → MemTable
remove m key = record {
  entries =
      store_record (record { key = key; value = []; seq_num = m.next_seq; type = delete })
        m.entries;
  next_seq = add64 m.next_seq 1;
}

unfoldable pub alloc_seq : MemTable → ℕ × MemTable
alloc_seq m = (m.next_seq, record m { next_seq = add64 m.next_seq 1 })

-- A record is stored where its key has none, or an older one.
abbrev pub is_newer : Record → Option Record → Bool
is_newer r none = true
is_newer r (some existing) = ltb existing.seq_num r.seq_num

unfoldable pub set_raw : MemTable → Record → MemTable
set_raw m r = record {
  entries = if is_newer r (find r.key m.entries) then store_record r m.entries else m.entries;
  next_seq = if leb m.next_seq r.seq_num then add64 r.seq_num 1 else m.next_seq;
}

unfoldable pub size : MemTable → ℕ
size m = length m.entries

unfoldable pub get_record : MemTable → List ℕ → Option Record
get_record m key = find key m.entries

unfoldable pub sorted_entries : MemTable → List Record
sorted_entries m = sort_slice (λ (a b : Record). key_before a.key b.key) m.entries

-- The records up to the first whose key is above `to`.
unfoldable pub up_to : List ℕ → List Record → List Record
up_to to [] = []
up_to to (r ∷ rs) = if key_before to r.key then [] else r ∷ up_to to rs

abbrev blank_record : Record
blank_record = record { key = []; value = []; seq_num = 0; type = put }

unfoldable pub scan_range : MemTable → List ℕ → List ℕ → List Record
unfolding sorted_entries
scan_range m from to =
    let all = sorted_entries m in
    let start =
      sort_search (length all) (λ i. not (key_before (get_or all i blank_record).key from)) in
    up_to to (drop start all)
