-- ===== src/Compact.antt =====
-- internal/compact/compactor.go: the merge of sorted tables into one. The heap of container/heap is
-- the list of its entries: `Pop` removes a least entry, and the entry at 0 is one.
pub mod Order
pub mod Heap
pub mod Merge
pub mod Newest
use lsmdb.Base.{
  ℕ, zero, suc, ◌+◌, List, [], ◌∷◌, Option, none, some, Bool, true, false, ◌&&◌, ◌||◌, not, ◌==◌,
  ltb, if◌then◌else◌, is_empty, length, get_or, get_elem?, Result, ok, err, ◌>>=◌,
}
use lsmdb.Memtable.{Record, RecordType, delete, same_key, key_before}
use lsmdb.Sstable.{Hashing, write}
use lsmdb.Sstable.Reader.{Reader, SstError, load_all}

pub record Entry : Type 0 where
  pub rec : Record
  pub src_idx : ℕ
  pub rec_idx : ℕ

-- mergeHeap.Less: the least key first, and for one key the highest number first.
unfoldable pub less : Record → Record → Bool
less a b = if not (same_key a.key b.key) then key_before a.key b.key else ltb b.seq_num a.seq_num

-- heap.Pop: a least entry, and the others.
unfoldable pub pop_least : Entry → List Entry → Entry × List Entry
unfolding less
pop_least e [] = (e, [])
pop_least e (x ∷ xs) =
    let (m, rest) = pop_least x xs in if less m.rec e.rec then (m, e ∷ rest) else (e, x ∷ xs)

-- The entry of a record, where there is one.
abbrev pub push_at : ℕ → ℕ → Option Record → List Entry → List Entry
push_at src_idx rec_idx none h = h
push_at src_idx rec_idx (some r) h = record { rec = r; src_idx = src_idx; rec_idx = rec_idx } ∷ h

unfoldable pub advance_cursor : List Entry → List (List Record) → ℕ → ℕ → List Entry
advance_cursor h sources src_idx rec_idx =
    let next = rec_idx + 1 in push_at src_idx next (get_elem? (get_or sources src_idx []) next) h

-- The first record of each source that has one.
unfoldable pub seed : ℕ → List (List Record) → List Entry
seed i [] = []
seed i (src ∷ sources) = push_at i 0 (get_elem? src 0) (seed (i + 1) sources)

-- The entries for the same key are popped. Each round reads a record, so the fuel is never used up
-- when it is more than the number of the records.
unfoldable pub drain : ℕ → List (List Record) → List ℕ → List Entry → List Entry
unfolding pop_least advance_cursor
drain zero sources key h = h
drain (suc fuel) sources key [] = []
drain (suc fuel) sources key (e ∷ es) =
    let (m, rest) = pop_least e es in
    let popped = drain fuel sources key (advance_cursor rest sources m.src_idx m.rec_idx) in
    if same_key m.rec.key key then popped else e ∷ es

-- A deletion that nothing older needs.
abbrev pub is_dropped : Bool → Record → Bool
is_dropped is_bottom r = (elim r.type [ delete ↦ true | _ ↦ false ]) && is_bottom

-- The loop over the heap.
unfoldable pub merge_loop : ℕ → List (List Record) → Bool → List Entry → List Record
unfolding pop_least advance_cursor drain
merge_loop zero sources is_bottom h = []
merge_loop (suc fuel) sources is_bottom [] = []
merge_loop (suc fuel) sources is_bottom (e ∷ es) =
    let (top, rest) = pop_least e es in
    let advanced = advance_cursor rest sources top.src_idx top.rec_idx in
    let output =
      merge_loop fuel sources is_bottom (drain (suc fuel) sources top.rec.key advanced) in
    if is_dropped is_bottom top.rec then output else top.rec ∷ output

abbrev pub total_in : List (List Record) → ℕ
total_in [] = 0
total_in (src ∷ sources) = length src + total_in sources

unfoldable pub merge : List (List Record) → Bool → List Record
unfolding seed merge_loop
merge sources is_bottom = merge_loop (suc (total_in sources)) sources is_bottom (seed 0 sources)

unfoldable pub load_sources : List Reader → Result SstError (List (List Record))
load_sources [] = ok []
load_sources (r ∷ rs) = load_all r >>= λ (records : List Record).
    load_sources rs >>= λ (sources : List (List Record)). ok (records ∷ sources)

-- Compact: the number of records written, and the file, where there is one.
unfoldable pub compact : Hashing → List Reader → Bool → Result SstError (ℕ × Option (List ℕ))
unfolding load_sources merge
compact hash readers is_bottom =
    if is_empty readers
    then ok (0, none)
    else load_sources readers >>= λ (sources : List (List Record)).
        (let output = merge sources is_bottom in
          if total_in sources == 0 || is_empty output
          then ok (0, none)
          else ok (length output, write hash output))
