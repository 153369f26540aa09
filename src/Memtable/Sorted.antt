-- ===== src/Memtable/Sorted.antt =====
-- internal/memtable/memtable.go: SortedEntries, whose keys differ.
use lsmdb.Base.{
  ℕ, ◌≡◌, refl, sym, ap, ◌∙◌, List, [], ◌∷◌, some, true, false, Bool, inl, inr, Bool-cases, if_both,
  if_split, if_no, if_yes, if◌then◌else◌, sort_slice, insert_sorted, All, All-map,
}
use lsmdb.Memtable.{Record, MemTable, same_key, key_before, find, store_record, sorted_entries}
use lsmdb.Memtable.Keys.{same_key-eq, All-store_record}
use lsmdb.Memtable.Order.{IsAscending, key_before_total, same_key_sym, All_above}

-- No two records have one key, as in a map.
abbrev pub KeysDiffer : List Record → Type 0
KeysDiffer [] = Unit {0}
KeysDiffer (r ∷ rs) = All (λ (s : Record). same_key s.key r.key ≡ false) rs × KeysDiffer rs

pub store_record-KeysDiffer :
    (r : Record) (rs : List Record) → KeysDiffer rs → KeysDiffer (store_record r rs)
unfolding store_record
store_record-KeysDiffer r [] d = (tt, tt)
store_record-KeysDiffer r (s ∷ ss) d =
    if_split KeysDiffer (same_key s.key r.key) _ _
      (λ same. (
        All-map (λ (t : Record). same_key t.key s.key ≡ false) _ ss
            (λ t e. ap (same_key t.key) (sym (same_key-eq s.key r.key same)) ∙ e) d.0,
        d.1,
      ))
      (λ apart. (
        All-store_record (λ t. same_key t.key s.key ≡ false) r ss (same_key_sym s.key r.key apart)
            d.0,
        store_record-KeysDiffer r ss d.1,
      ))

abbrev by_key : Record → Record → Bool
by_key a b = key_before a.key b.key

All-insert_sorted :
    (P : Record → Type 0) (r : Record) (rs : List Record)
    → P r
    → All P rs
    → All P (insert_sorted by_key r rs)
unfolding insert_sorted
All-insert_sorted P r [] p h = (p, tt)
All-insert_sorted P r (s ∷ ss) p h =
    if_both (All P) (by_key s r) _ _ (h.0, All-insert_sorted P r ss p h.1) (p, h)

pub All-sort_slice :
    (P : Record → Type 0) (rs : List Record) → All P rs → All P (sort_slice by_key rs)
unfolding sort_slice
All-sort_slice P [] h = tt
All-sort_slice P (r ∷ rs) h =
    All-insert_sorted P r (sort_slice by_key rs) h.0 (All-sort_slice P rs h.1)

insert_sorted-IsAscending :
    (r : Record) (rs : List Record)
    → All (λ (s : Record). same_key s.key r.key ≡ false) rs
    → IsAscending rs
    → IsAscending (insert_sorted by_key r rs)
unfolding insert_sorted
insert_sorted-IsAscending r [] apart asc = (tt, tt)
insert_sorted-IsAscending r (s ∷ ss) apart asc =
    if_split IsAscending (by_key s r) _ _
      (λ below. (
        All-insert_sorted (λ t. key_before s.key t.key ≡ true) r ss below asc.0,
        insert_sorted-IsAscending r ss apart.1 asc.1,
      ))
      (λ above.
        let low = key_before_total s.key r.key apart.0 above in
        ((low, All_above r.key s.key ss low asc.0), asc))

find-insert_sorted :
    (key : List ℕ) (r : Record) (rs : List Record)
    → All (λ (s : Record). same_key s.key r.key ≡ false) rs
    → find key (insert_sorted by_key r rs) ≡ find key (r ∷ rs)
unfolding insert_sorted find
find-insert_sorted key r [] apart = refl
find-insert_sorted key r (s ∷ ss) apart =
    if_split (λ x. find key x ≡ find key (r ∷ s ∷ ss)) (by_key s r) _ _
      (λ below. elim (Bool-cases (same_key s.key key)) [
        | inl same ↦
            if_yes (same_key s.key key) _ _ same
            ∙ sym (
                if_no (same_key r.key key) _ _ (
                  ap (same_key r.key) (sym (same_key-eq s.key key same))
                  ∙ same_key_sym s.key r.key apart.0)
                ∙ if_yes (same_key s.key key) _ _ same)
        | inr other ↦
            if_no (same_key s.key key) _ _ other
            ∙ find-insert_sorted key r ss apart.1
            ∙ ap (λ x. if same_key r.key key then some r else x)
                (sym (if_no (same_key s.key key) _ _ other))
      ])
      (λ above. refl)

sort_slice_lem :
    (rs : List Record) (key : List ℕ)
    → KeysDiffer rs
    → IsAscending (sort_slice by_key rs) × (find key (sort_slice by_key rs) ≡ find key rs)
unfolding sort_slice find
sort_slice_lem [] key d = (tt, refl)
sort_slice_lem (r ∷ rs) key d =
    let (asc, found) = sort_slice_lem rs key d.1 in
    let apart = All-sort_slice (λ s. same_key s.key r.key ≡ false) rs d.0 in
    (
      insert_sorted-IsAscending r (sort_slice by_key rs) apart asc,
      find-insert_sorted key r (sort_slice by_key rs) apart
          ∙ ap (λ x. if same_key r.key key then some r else x) found,
    )

-- The sorted entries of a table whose keys differ are in the order of their keys, and the same
-- record is found in them at each key.
pub sorted_entries_lem :
    (m : MemTable) (key : List ℕ)
    → KeysDiffer m.entries
    → IsAscending (sorted_entries m) × (find key (sorted_entries m) ≡ find key m.entries)
unfolding sorted_entries
sorted_entries_lem m key d = sort_slice_lem m.entries key d

pub All-sorted_entries :
    (P : Record → Type 0) (m : MemTable) → All P m.entries → All P (sorted_entries m)
unfolding sorted_entries
All-sorted_entries P m h = All-sort_slice P m.entries h
