-- ===== src/Db/Lookups.antt =====
-- db/db.go: what a read finds in the tables, as a look at lists of records, newest first.
use lsmdb.Base.{
  ℕ, ◌<◌, ◌≡◌, refl, sym, ap, subst, ◌∙◌, List, [], ◌∷◌, Option, none, some, true, ◌⊎◌, inl, inr,
  arith, Option-cases, if_no, if_yes, All, All-map, All-zip, All-elem, ok, either_ok,
}
use lsmdb.Memtable.{Record, same_key, key_before, find, live_value}
use lsmdb.Memtable.Keys.{same_key-eq}
use lsmdb.Memtable.Order.{IsAscending, key_before-same_key}
use lsmdb.Sstable.{Hashing}
use lsmdb.Sstable.Reader.{SstError}
use lsmdb.Sstable.Reader
use lsmdb.Sstable.Opened.{IsTable, table_reader}
use lsmdb.Sstable.Records.{IsReadable}
use lsmdb.Sstable.Lookup.{get-table_reader}
use lsmdb.Compact.Newest.{find-All, IsNewest, IsMergeOf}
use lsmdb.Db.Files.{Table, get_tables}

abbrev pub first_of : Option Record → Option Record → Option Record
first_of none later = later
first_of (some r) later = some r

-- The first record of the key in the lists.
unfoldable pub lookup : List ℕ → List (List Record) → Option Record
lookup key [] = none
lookup key (l ∷ ls) = first_of (find key l) (lookup key ls)

-- Every record is newer than all in the lists after its own.
abbrev pub IsStacked : List (List Record) → Type 0
IsStacked [] = Unit {0}
IsStacked (l ∷ ls) =
    All (λ (s : Record). All (All (λ (o : Record). o.seq_num < s.seq_num)) ls) l × IsStacked ls

-- The tables hold these lists of records.
pub data Holds (hash : Hashing) : List Table → List (List Record) → Type 0 where
  no_tables : Holds hash [] []
  one_more :
      {t : Table} {r : Record} {rs : List Record} {ts : List Table} {ls : List (List Record)}
      → t.reader ≡ table_reader hash r rs
      → IsTable hash r rs
      → All IsReadable (r ∷ rs)
      → IsAscending (r ∷ rs)
      → Holds hash ts ls
      → Holds hash (t ∷ ts) ((r ∷ rs) ∷ ls)

pub picked :
    (o : Option Record) (older : Option (List ℕ)) (found : Option Record)
    → older ≡ live_value found
    → (elim o as (λ _. Option (List ℕ)) [ none ↦ older | some s ↦ live_value (some s) ])
      ≡ live_value (first_of o found)
picked none older found e = e
picked (some s) older found e = refl

pub get_tables-lookup :
    (hash : Hashing) (ts : List Table) (ls : List (List Record)) (key : List ℕ)
    → Holds hash ts ls
    → get_tables hash.fnv ts key ≡ live_value (lookup key ls)
unfolding get_tables lookup
get_tables-lookup hash _ _ key no_tables = refl
get_tables-lookup hash _ _ key (one_more {t} {r} {rs} {ts} {ls} e table readable asc rest) =
    let older = get_tables-lookup hash ts ls key rest in
    let found : Reader.get hash.fnv t.reader key ≡ ok (find key (r ∷ rs)) =
      ap (λ x. Reader.get hash.fnv x key) e ∙ get-table_reader hash r rs key table readable asc in
    either_ok (Reader.get hash.fnv t.reader key) _ _ found
    ∙ picked (find key (r ∷ rs)) (get_tables hash.fnv ts key) (lookup key ls) older

-- What is found is the record itself or a newer one.
abbrev IsShadowed : List ℕ → Option Record → Record → Type 0
IsShadowed key found s =
    same_key s.key key ≡ true
    → (found ≡ some s) ⊎ ((r : Record) × (found ≡ some r) × (s.seq_num < r.seq_num))

find-IsAscending :
    (key : List ℕ) (l : List Record)
    → IsAscending l
    → All (λ (s : Record). same_key s.key key ≡ true → find key l ≡ some s) l
unfolding find
find-IsAscending key [] asc = tt
find-IsAscending key (r ∷ rs) asc = (
  (λ same. if_yes (same_key r.key key) _ _ same),
  All-map
      (λ (s : Record).
        (key_before r.key s.key ≡ true) × (same_key s.key key ≡ true → find key rs ≡ some s))
      _ rs
      (λ s (above, here) same.
        if_no (same_key r.key key) _ _ (
          ap (same_key r.key) (sym (same_key-eq s.key key same))
          ∙ key_before-same_key r.key s.key above)
        ∙ here same)
      (All-zip (λ (s : Record). key_before r.key s.key ≡ true) _ rs asc.0
        (find-IsAscending key rs asc.1)),
)

lookup-IsShadowed :
    (key : List ℕ) (ls : List (List Record))
    → All IsAscending ls
    → IsStacked ls
    → All (All (IsShadowed key (lookup key ls))) ls
unfolding lookup
lookup-IsShadowed key [] asc stacked = tt
lookup-IsShadowed key (l ∷ ls) asc stacked =
    let rest = lookup-IsShadowed key ls asc.1 stacked.1 in
    (
      All-map (λ (s : Record). same_key s.key key ≡ true → find key l ≡ some s) _ l
          (λ s here same. inl (ap (λ o. first_of o (lookup key ls)) (here same)))
          (find-IsAscending key l asc.0),
      elim (Option-cases (find key l)) [
        | inl gone ↦
            subst (λ o. All (All (IsShadowed key (first_of o (lookup key ls)))) ls) (sym gone) rest
        | inr (r, here) ↦
            subst (λ o. All (All (IsShadowed key (first_of o (lookup key ls)))) ls) (sym here)
              (All-map (All (λ (o : Record). o.seq_num < r.seq_num)) _ ls
                (λ old.
                  All-map (λ (o : Record). o.seq_num < r.seq_num) _ old
                    (λ o older same. inr (r, refl, older)))
                (find-All _ key l r here stacked.0).0)
      ],
    )

lookup-All :
    (P : Record → Type 0) (key : List ℕ) (ls : List (List Record)) (r : Record)
    → lookup key ls ≡ some r
    → All (All P) ls
    → P r × (same_key r.key key ≡ true)
unfolding lookup
lookup-All P key [] r e h = absurd (ground (arith, e))
lookup-All P key (l ∷ ls) r e h = elim (Option-cases (find key l)) [
  | inl gone ↦ lookup-All P key ls r (sym (ap (λ o. first_of o (lookup key ls)) gone) ∙ e) h.1
  | inr (s, here) ↦
      find-All P key l r (here ∙ sym (ap (λ o. first_of o (lookup key ls)) here) ∙ e) h.0
]

-- The newest record of a key is the one that is found first.
lookup-IsNewest :
    (key : List ℕ) (ls : List (List Record)) (r : Record)
    → All IsAscending ls
    → IsStacked ls
    → IsNewest key ls r
    → lookup key ls ≡ some r
lookup-IsNewest key ls r asc stacked newest =
    let (src, in_sources, in_src) = newest.among in
    let shadowed = All-elem (IsShadowed key (lookup key ls)) src r in_src (
      All-elem (All (IsShadowed key (lookup key ls))) ls src in_sources
        (lookup-IsShadowed key ls asc stacked)) in
    elim (shadowed newest.same) [
      | inl here ↦ here
      | inr (s, here, older) ↦
          let (no_newer, same) = lookup-All _ key ls s here newest.no_newer in
          absurd (omega (arith, older, no_newer same))
    ]

-- What a merge at the bottom level finds reads as what the lists hold.
pub lookup-IsMergeOf :
    (key : List ℕ) (ls : List (List Record)) (found : Option Record)
    → All IsAscending ls
    → IsStacked ls
    → IsMergeOf key ls true found
    → live_value found ≡ live_value (lookup key ls)
lookup-IsMergeOf key ls none asc stacked (inl absent) = elim (Option-cases (lookup key ls)) [
  | inl gone ↦ sym (ap live_value gone)
  | inr (s, here) ↦
      let (apart, same) = lookup-All _ key ls s here absent in absurd (ground (arith, apart, same))
]
lookup-IsMergeOf key ls none asc stacked (inr (r, newest, dropped)) =
    sym (ap live_value (lookup-IsNewest key ls r asc stacked newest) ∙ ground (arith, dropped))
lookup-IsMergeOf key ls (some r) asc stacked (newest, stays) =
    sym (ap live_value (lookup-IsNewest key ls r asc stacked newest))
