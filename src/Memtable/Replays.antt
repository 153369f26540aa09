-- ===== src/Memtable/Replays.antt =====
-- internal/memtable/memtable.go: the replay of a log into a table.
use lsmdb.Base.{
  ℕ, ◌≡◌, ◌≢◌, refl, sym, ap, ◌∙◌, List, [], ◌∷◌, Option, some, Bool, true, false, ◌&&◌, inl, inr,
  if◌then◌else◌, arith, Bool-cases, All,
}
use lsmdb.Memtable.{Record, MemTable, same_key, find, store_record, set_raw, get_record, is_newer}
use lsmdb.Memtable.Keys.{find-store_record, find_same}

-- What a record makes of what is found at a key.
abbrev pub newer : List ℕ → Option Record → Record → Option Record
newer key found r = if same_key r.key key && is_newer r found then some r else found

set_raw_view :
    (m : MemTable) (r : Record) (key : List ℕ) (found : Option Record) (b : Bool)
    → find key m.entries ≡ found
    → find key (if b then store_record r m.entries else m.entries)
      ≡ (if same_key r.key key && b then some r else found)
set_raw_view m r key found true e = find-store_record key r m.entries ∙ ground (arith, e)
set_raw_view m r key found false e = e ∙ ground arith

pub find-set_raw :
    (m : MemTable) (r : Record) (key : List ℕ)
    → find key (set_raw m r).entries ≡ newer key (find key m.entries) r
unfolding set_raw
find-set_raw m r key =
    let found = find key m.entries in
    let b = is_newer r (find r.key m.entries) in
    let view = set_raw_view m r key found b refl in
    elim (Bool-cases (same_key r.key key)) [
      | inl e ↦
          view
          ∙ ap (λ o. if same_key r.key key && is_newer r o then some r else found)
              (find_same r.key key m.entries e)
      | inr e ↦ view ∙ rw e refl
    ]

get_record-set_raw :
    (m : MemTable) (r : Record) (key : List ℕ)
    → get_record (set_raw m r) key ≡ newer key (get_record m key) r
unfolding get_record
get_record-set_raw m r key = find-set_raw m r key

-- The replay of a log.
abbrev pub replay : MemTable → List Record → MemTable
replay m [] = m
replay m (r ∷ rs) = replay (set_raw m r) rs

abbrev latest : List ℕ → Option Record → List Record → Option Record
latest key found [] = found
latest key found (r ∷ rs) = latest key (newer key found r) rs

get_record-replay :
    (m : MemTable) (rs : List Record) (key : List ℕ)
    → get_record (replay m rs) key ≡ latest key (get_record m key) rs
get_record-replay m [] key = refl
get_record-replay m (r ∷ rs) key =
    get_record-replay (set_raw m r) rs key ∙ ap (λ o. latest key o rs) (get_record-set_raw m r key)

newer_swap :
    (key : List ℕ) (o : Option Record) (a b : Record)
    → a.seq_num ≢ b.seq_num
    → newer key (newer key o a) b ≡ newer key (newer key o b) a
newer_swap key o a b apart = ground arith

-- No two records of the list have one sequence number.
abbrev pub SeqsDiffer : List Record → Type 0
SeqsDiffer [] = Unit {0}
SeqsDiffer (r ∷ rs) = All (λ (s : Record). r.seq_num ≢ s.seq_num) rs × SeqsDiffer rs

-- The same records in another order, by swaps of neighbours.
pub data Reorders : List Record → List Record → Type 0 where
  none_left : Reorders [] []
  same_head : {r : Record} {rs ss : List Record} → Reorders rs ss → Reorders (r ∷ rs) (r ∷ ss)
  swapped : {a b : Record} {rs : List Record} → Reorders (a ∷ b ∷ rs) (b ∷ a ∷ rs)
  in_turn : {rs ss ts : List Record} → Reorders rs ss → Reorders ss ts → Reorders rs ts

All-Reorders : (P : Record → Type 0) (rs ss : List Record) → Reorders rs ss → All P rs → All P ss
All-Reorders P _ _ none_left h = h
All-Reorders P _ _ (same_head p) (x, h) = (x, All-Reorders P _ _ p h)
All-Reorders P _ _ swapped (x, (y, h)) = (y, (x, h))
All-Reorders P _ _ (in_turn p q) h = All-Reorders P _ _ q (All-Reorders P _ _ p h)

SeqsDiffer-Reorders : (rs ss : List Record) → Reorders rs ss → SeqsDiffer rs → SeqsDiffer ss
SeqsDiffer-Reorders _ _ none_left h = h
SeqsDiffer-Reorders _ _ (same_head p) (x, h) = (All-Reorders _ _ _ p x, SeqsDiffer-Reorders _ _ p h)
SeqsDiffer-Reorders _ _ swapped ((ab, a), (b, h)) = ((λ e. ab (sym e), b), (a, h))
SeqsDiffer-Reorders _ _ (in_turn p q) h = SeqsDiffer-Reorders _ _ q (SeqsDiffer-Reorders _ _ p h)

latest-Reorders :
    (key : List ℕ) (rs ss : List Record)
    → Reorders rs ss
    → SeqsDiffer rs
    → (o : Option Record) → latest key o rs ≡ latest key o ss
latest-Reorders key _ _ none_left h o = refl
latest-Reorders key _ _ (same_head {r} p) h o = latest-Reorders key _ _ p h.1 (newer key o r)
latest-Reorders key _ _ (swapped {a} {b} {rs}) h o =
    ap (λ x. latest key x rs) (newer_swap key o a b h.0.0)
latest-Reorders key _ _ (in_turn p q) h o =
    latest-Reorders key _ _ p h o ∙ latest-Reorders key _ _ q (SeqsDiffer-Reorders _ _ p h) o

-- The records of a log may be replayed in any order: where no two of them have one sequence
-- number, each key gets the same record, whatever the table held before.
pub replay-Reorders :
    (m : MemTable) (rs ss : List Record) (key : List ℕ)
    → Reorders rs ss
    → SeqsDiffer rs
    → get_record (replay m rs) key ≡ get_record (replay m ss) key
replay-Reorders m rs ss key p h =
    get_record-replay m rs key
    ∙ latest-Reorders key rs ss p h (get_record m key)
    ∙ sym (get_record-replay m ss key)
