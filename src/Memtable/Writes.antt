-- ===== src/Memtable/Writes.antt =====
-- internal/memtable/memtable.go: sequence numbers, and the two ways to write a key.
use lsmdb.Base.{
  ℕ, ◌+◌, ◌<◌, ◌≤◌, ◌≡◌, refl, ap, ◌∙◌, List, [], ◌∷◌, Option, none, some, Bool, true, false,
  if◌then◌else◌, arith, leb, add64, u64_mod, if_both, if_yes, All,
}
use lsmdb.Memtable.{
  Record, MemTable, put, delete, same_key, find, store_record, set, remove, alloc_seq, set_raw,
  is_newer, get, live_value,
}
use lsmdb.Memtable.Keys.{find-store_record, All-store_record}

-- The table has given out the number of every record it holds.
abbrev pub IsOrdered : MemTable → Type 0
IsOrdered m = All (λ (r : Record). r.seq_num < m.next_seq) m.entries

pub All-below :
    (a b : ℕ) (rs : List Record)
    → a ≤ b
    → All (λ (r : Record). r.seq_num < a) rs
    → All (λ (r : Record). r.seq_num < b) rs
All-below a b [] h p = tt
All-below a b (r ∷ rs) h p = (omega (arith, h, p.0), All-below a b rs h p.1)

-- Each write keeps the number of every record below the counter: while the counter has room for
-- one more number, and for SetRaw, where the number of its record is below 2^64 - 1.
pub writes-IsOrdered :
    (m : MemTable) (key value : List ℕ) (r : Record)
    → IsOrdered m
    → m.next_seq + 1 < u64_mod
    → r.seq_num + 1 < u64_mod
    → IsOrdered (set m key value) × IsOrdered (remove m key) × IsOrdered (set_raw m r)
unfolding set remove set_raw
writes-IsOrdered m key value r h room fits =
    let next = m.next_seq in
    let above : All (λ (s : Record). s.seq_num < add64 next 1) m.entries =
      All-below next (add64 next 1) m.entries (omega arith) h in
    let raw_next = if leb next r.seq_num then add64 r.seq_num 1 else next in
    let raised : next ≤ raw_next = ground arith in
    let covers : r.seq_num < raw_next = ground arith in
    let kept = All-below next raw_next m.entries raised h in
    (
      All-store_record _ _ m.entries (omega arith) above,
      All-store_record _ _ m.entries (omega arith) above,
      if_both (All (λ (s : Record). s.seq_num < raw_next)) (is_newer r (find r.key m.entries)) _ _
          (All-store_record _ r m.entries covers kept) kept,
    )

pub newest :
    (r : Record) (key : List ℕ) (rs : List Record)
    → All (λ (s : Record). s.seq_num < r.seq_num) rs
    → is_newer r (find key rs) ≡ true
unfolding find
newest r key [] h = refl
newest r key (s ∷ ss) h =
    if_both (λ o. is_newer r o ≡ true) (same_key s.key key) (some s) (find key ss)
      (ground (arith, h.0)) (newest r key ss h.1)

-- To take a number first and then write a record with it, as a database does around its log,
-- comes to the same table as a direct write or deletion, while the counter has room.
pub set_raw-alloc_seq :
    (m : MemTable) (key value : List ℕ)
    → IsOrdered m
    → m.next_seq + 1 < u64_mod
    → let (seq, taken) = alloc_seq m in
      (set_raw taken (record { key = key; value = value; seq_num = seq; type = put })
        ≡ set m key value)
      × (set_raw taken (record { key = key; value = []; seq_num = seq; type = delete })
          ≡ remove m key)
unfolding set remove set_raw alloc_seq
set_raw-alloc_seq m key value h room =
    let next = m.next_seq in
    let counter : (if leb (add64 next 1) next then add64 next 1 else add64 next 1) ≡ add64 next 1 =
      if_both (λ n. n ≡ add64 next 1) (leb (add64 next 1) next) _ _ refl refl in
    let written = λ (r : Record) (e : r.seq_num ≡ next).
      if_yes (is_newer r (find r.key m.entries)) (store_record r m.entries) m.entries
        (newest r r.key m.entries (All-below next r.seq_num m.entries (omega (arith, e)) h)) in
    (
      (λ i. record {
        entries = written (record { key = key; value = value; seq_num = next; type = put }) refl i;
        next_seq = counter i;
      }),
      (λ i. record {
        entries = written (record { key = key; value = []; seq_num = next; type = delete }) refl i;
        next_seq = counter i;
      }),
    )

live_value_if :
    (b : Bool) (r : Record) (o : Option Record)
    → live_value (if b then some r else o) ≡ (if b then live_value (some r) else live_value o)
live_value_if true r o = refl
live_value_if false r o = refl

-- After a write a key reads as the value written, after a deletion as missing, and every other
-- key as before.
pub get-writes :
    (m : MemTable) (key value other : List ℕ)
    → (get (set m key value) other ≡ (if same_key key other then some value else get m other))
      × (get (remove m key) other ≡ (if same_key key other then none else get m other))
unfolding get set remove
get-writes m key value other =
    let wrote = λ (r : Record). find-store_record other r m.entries in
    let written : Record = record { key = key; value = value; seq_num = m.next_seq; type = put } in
    let deleted : Record = record { key = key; value = []; seq_num = m.next_seq; type = delete } in
    (
      ap live_value (wrote written)
          ∙ live_value_if (same_key key other) written (find other m.entries),
      ap live_value (wrote deleted)
          ∙ live_value_if (same_key key other) deleted (find other m.entries),
    )
