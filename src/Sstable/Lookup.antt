-- ===== src/Sstable/Lookup.antt =====
-- internal/sstable: `Get` on a table file that `Write` made.
use lsmdb.Base.{
  ℕ, zero, suc, ◌+◌, ◌-◌, ◌%◌, ◌<◌, ◌≡◌, refl, sym, ap, subst, ◌∙◌, List, [], ◌∷◌, ◌++◌, ◌==◌, ◌||◌,
  true, false, Option, none, some, not, if_yes, if_no, if_both, if_split, arith, length, get_or,
  All, All-map, All-get_or, ok, bind_ok, Bool-cases, inl, inr, sort_search, sort_search-below,
}
use lsmdb.Bloom.{may_contain}
use lsmdb.Bloom.Membership.{may_contain-add_all}
use lsmdb.Memtable.{Record, same_key, key_before, find}
use lsmdb.Memtable.Keys.{same_key-eq}
use lsmdb.Memtable.Order.{
  IsAscending, key_before_trans, key_before-same_key, find_absent, find_above, find-append,
  All_above, same_key_sym, IsAscending_suffix,
}
use lsmdb.Sstable.{
  Hashing, IndexEntry, record_size, sampled, put_records, last_key, keys_of, table_filter,
  index_step,
}
use lsmdb.Sstable.Reader.{Reader, in_records, get_loop, start_offset, get}
use lsmdb.Sstable.Opened.{IsTable, table_reader, length-put_records}
use lsmdb.Sstable.Records.{
  IsReadable, IsAt, in_records-IsAt, in_records-IsAt_end, read_record_at-IsAt, IsAt-next, IsAt-skip,
  table_reader-IsAt, records_fit,
}

-- Above the key, the loop ends with what it has.
get_loop_above :
    (fuel : ℕ) (reader : Reader) (key : List ℕ) (pos : ℕ) (best : Option Record) (rs : List Record)
    → IsAt reader pos rs
    → All (λ (r : Record). key_before key r.key ≡ true) rs
    → get_loop fuel reader key pos best ≡ ok best
unfolding get_loop
get_loop_above zero reader key pos best rs a h = refl
get_loop_above (suc fuel) reader key pos best [] a h =
    if_no (in_records reader pos) _ _ (in_records-IsAt_end reader pos a)
get_loop_above (suc fuel) reader key pos best (r ∷ rs) a h =
    if_yes (in_records reader pos) _ _ (in_records-IsAt reader pos r rs a)
    ∙ bind_ok _ _ (read_record_at-IsAt reader pos r rs a) (
        if_no (same_key r.key key) _ _ (same_key_sym key r.key (key_before-same_key key r.key h.0))
        ∙ if_yes (key_before key r.key) _ _ h.0)

-- The loop finds the key among ascending records.
get_loop-find :
    (fuel : ℕ) (reader : Reader) (key : List ℕ) (pos : ℕ) (rs : List Record)
    → length (put_records rs) < fuel
    → IsAt reader pos rs
    → IsAscending rs
    → get_loop fuel reader key pos none ≡ ok (find key rs)
unfolding get_loop find
get_loop-find zero reader key pos rs enough a asc = absurd (omega (arith, enough))
get_loop-find (suc fuel) reader key pos [] enough a asc =
    if_no (in_records reader pos) _ _ (in_records-IsAt_end reader pos a)
get_loop-find (suc fuel) reader key pos (r ∷ rs) enough a asc =
    let next = IsAt-next reader pos r rs a in
    if_yes (in_records reader pos) _ _ (in_records-IsAt reader pos r rs a)
    ∙ bind_ok _ _ (read_record_at-IsAt reader pos r rs a) (elim (Bool-cases (same_key r.key key)) [
      | inl e ↦
          if_yes (same_key r.key key) _ _ e
          ∙ get_loop_above fuel reader key (pos + record_size r) (some r) rs next (
              subst (λ k. All (λ (s : Record). key_before k s.key ≡ true) rs)
                (same_key-eq r.key key e) asc.0)
          ∙ ap ok (sym (if_yes (same_key r.key key) _ _ e))
      | inr e ↦
          if_no (same_key r.key key) _ _ e
          ∙ if_split (λ x. x ≡ ok (find key (r ∷ rs))) (key_before key r.key) _ _
              (λ above.
                ap ok (sym (find_above key (r ∷ rs) (above, All_above key r.key rs above asc.0))))
              (λ below.
                get_loop-find fuel reader key (pos + record_size r) rs
                  (omega (arith, length-put_records r rs, enough)) next asc.1
                ∙ ap ok (sym (if_no (same_key r.key key) _ _ e)))
    ])

-- The index entry stands for one of the records, the first of which is at `pos`.
record PointsInto (pos : ℕ) (rs : List Record) (e : IndexEntry) : Type 0 where
  front : List Record
  at : Record
  tail : List Record
  splits : rs ≡ front ++ at ∷ tail
  key_at : e.key ≡ at.key
  offset_at : e.offset ≡ pos + length (put_records front)

PointsInto-cons :
    (pos : ℕ) (r : Record) (rs : List Record) (e : IndexEntry)
    → PointsInto (pos + record_size r) rs e
    → PointsInto pos (r ∷ rs) e
PointsInto-cons pos r rs e p = record {
  front = r ∷ p.front;
  at = p.at;
  tail = p.tail;
  splits = ap (λ x. r ∷ x) p.splits;
  key_at = p.key_at;
  offset_at = omega (arith, p.offset_at, length-put_records r p.front);
}

sampled-PointsInto : (i pos : ℕ) (rs : List Record) → All (PointsInto pos rs) (sampled i pos rs)
unfolding sampled put_records
sampled-PointsInto i pos [] = tt
sampled-PointsInto i pos (r ∷ rs) =
    let rest =
      All-map (PointsInto (pos + record_size r) rs) (PointsInto pos (r ∷ rs)) _
        (PointsInto-cons pos r rs) (sampled-PointsInto (i + 1) (pos + record_size r) rs) in
    if_both (All (PointsInto pos (r ∷ rs))) (i % index_step == 0) _ _
      (
        record {
          front = [];
          at = r;
          tail = rs;
          splits = refl;
          key_at = refl;
          offset_at = omega arith;
        },
        rest,
      )
      rest

-- Where a read of the key may start.
record StartsAt (rs : List Record) (key : List ℕ) (offset : ℕ) : Type 0 where
  front : List Record
  rest : List Record
  splits : rs ≡ front ++ rest
  offset_at : offset ≡ length (put_records front)
  same_found : find key rs ≡ find key rest

PointsInto-StartsAt :
    (rs : List Record) (key : List ℕ) (e : IndexEntry)
    → IsAscending rs
    → PointsInto 0 rs e
    → key_before key e.key ≡ false
    → StartsAt rs key e.offset
PointsInto-StartsAt rs key e asc p below = record {
  front = p.front;
  rest = p.at ∷ p.tail;
  splits = p.splits;
  offset_at = omega (arith, p.offset_at);
  same_found =
      ap (find key) p.splits
      ∙ find-append key p.front p.at p.tail (subst IsAscending p.splits asc)
          (ap (key_before key) (sym p.key_at) ∙ below);
}

start_offset-StartsAt :
    (rs : List Record) (key : List ℕ)
    → IsAscending rs
    → StartsAt rs key (start_offset (sampled 0 0 rs) key)
unfolding start_offset put_records
start_offset-StartsAt rs key asc =
    let index = sampled 0 0 rs in
    let blank : IndexEntry = record { key = []; offset = 0 } in
    let f = λ (i : ℕ). key_before key (get_or index i blank).key in
    let (below, inside) = sort_search-below (length index) f in
    let i = sort_search (length index) f in
    if_split (StartsAt rs key) (i == 0) _ _
      (λ first. record {
        front = [];
        rest = rs;
        splits = refl;
        offset_at = refl;
        same_found = refl;
      })
      (λ later.
        PointsInto-StartsAt rs key (get_or index (i - 1) blank) asc
          (All-get_or (PointsInto 0 rs) index (i - 1) blank (ground (arith, later, inside))
            (sampled-PointsInto 0 0 rs))
          (below (ground (arith, later))))

-- All keys are below one that the greatest is below.
last_key_below :
    (r : Record) (rs : List Record) (key : List ℕ)
    → IsAscending (r ∷ rs)
    → key_before (last_key r.key rs) key ≡ true
    → All (λ (s : Record). key_before s.key key ≡ true) (r ∷ rs)
last_key_below r [] key asc h = (h, tt)
last_key_below r (s ∷ ss) key asc h =
    let rest = last_key_below s ss key asc.1 h in
    (key_before_trans r.key s.key key asc.0.0 rest.0, rest)

find_unlisted :
    (P : List ℕ → Type 0) (key : List ℕ) (rs : List Record)
    → ((k : List ℕ) → P k → same_key k key ≡ false)
    → All P (keys_of rs)
    → find key rs ≡ none
unfolding find
find_unlisted P key [] f h = refl
find_unlisted P key (r ∷ rs) f h =
    if_no (same_key r.key key) _ _ (f r.key h.0) ∙ find_unlisted P key rs f h.1

-- A key that the filter turns away has no record.
find_filtered :
    (hash : Hashing) (r : Record) (rs : List Record) (key : List ℕ)
    → IsTable hash r rs
    → may_contain hash.fnv (table_filter hash (r ∷ rs)) key ≡ false
    → find key (r ∷ rs) ≡ none
find_filtered hash r rs key t gone =
    let test = may_contain hash.fnv (table_filter hash (r ∷ rs)) in
    find_unlisted (λ k. test k ≡ true) key (r ∷ rs)
      (λ k e. elim (Bool-cases (same_key k key)) [
        | inr apart ↦ apart
        | inl same ↦ absurd (ground (arith, e, gone, ap test (same_key-eq k key same)))
      ])
      (may_contain-add_all hash.fnv _ (keys_of (r ∷ rs)) t.filter_fits)

-- A key outside the range of the table's keys has no record.
find_outside :
    (r : Record) (rs : List Record) (key : List ℕ)
    → IsAscending (r ∷ rs)
    → (key_before key r.key || key_before (last_key r.key rs) key) ≡ true
    → find key (r ∷ rs) ≡ none
find_outside r rs key asc h = elim (Bool-cases (key_before key r.key)) [
  | inl e ↦ find_above key (r ∷ rs) (e, All_above key r.key rs e asc.0)
  | inr e ↦ find_absent key (r ∷ rs) (
      All-map (λ (s : Record). key_before s.key key ≡ true) _ (r ∷ rs)
        (λ s below. key_before-same_key s.key key below)
        (last_key_below r rs key asc (ground (arith, h, e))))
]

-- A read of a table that was made of readable records in the order of their keys finds the record
-- of the key, and none where there is none: neither the filter, the range of keys nor the sparse
-- index loses a record.
pub get-table_reader :
    (hash : Hashing) (r : Record) (rs : List Record) (key : List ℕ)
    → IsTable hash r rs
    → All IsReadable (r ∷ rs)
    → IsAscending (r ∷ rs)
    → get hash.fnv (table_reader hash r rs) key ≡ ok (find key (r ∷ rs))
unfolding get
get-table_reader hash r rs key t h asc =
    let reader = table_reader hash r rs in
    let bf = table_filter hash (r ∷ rs) in
    let start = start_offset-StartsAt (r ∷ rs) key asc in
    let pos = start_offset reader.index key in
    let at_start : IsAt reader pos start.rest =
      subst (λ n. IsAt reader n start.rest) (omega (arith, start.offset_at))
        (IsAt-skip reader 0 start.front start.rest
          (subst (IsAt reader 0) start.splits (table_reader-IsAt hash r rs t h))) in
    if_split (λ x. x ≡ ok (find key (r ∷ rs))) (not (may_contain hash.fnv bf key)) _ _
      (λ gone. ap ok (sym (find_filtered hash r rs key t (ground (arith, gone)))))
      (λ maybe.
        if_split (λ x. x ≡ ok (find key (r ∷ rs)))
          (key_before key r.key || key_before (last_key r.key rs) key) _ _
          (λ out. ap ok (sym (find_outside r rs key asc out)))
          (λ inside.
            get_loop-find (suc (length reader.file)) reader key pos start.rest
              (omega (arith, at_start.ends, records_fit hash r rs t)) at_start
              (IsAscending_suffix start.front start.rest (subst IsAscending start.splits asc))
            ∙ ap ok (sym start.same_found)))
