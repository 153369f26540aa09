-- ===== src/Db/Maintained.antt =====
-- db/db.go: flush and compact.
use lsmdb.Base.{
  ℕ, ◌<◌, ◌≡◌, refl, sym, ap, subst, ◌∙◌, List, [], ◌∷◌, Option, none, some, true, if_both,
  if_split, is_empty, length, ltb, All, All-map, either_ok, either_both, add64,
}
use lsmdb.Memtable.{Record, MemTable, find, live_value}
use lsmdb.Memtable.Order.{IsAscending}
use lsmdb.Memtable.Sorted.{KeysDiffer}
use lsmdb.Sstable.{Hashing, table_file, write}
use lsmdb.Sstable.Opened.{table_reader}
use lsmdb.Sstable.Records.{IsReadable}
use lsmdb.Compact.{merge}
use lsmdb.Compact
use lsmdb.Compact.Newest.{merge-IsMergeOf, All-merge}
use lsmdb.Manifest.{store}
use lsmdb.Db.Files.{DbError, File, Table, open_file, write_file, sst_name}
use lsmdb.Db.Engine.{
  Db, readers_of, names_of, compacted, open_compacted, compact, maybe_compact, compaction_threshold,
}
use lsmdb.Db.Lookups.{lookup, first_of, IsStacked, Holds, no_tables, one_more, lookup-IsMergeOf}
use lsmdb.Db.Kept.{
  IsDb, AllBelow, SameRest, Keeps, Keeps_refl, Keeps_view, Holds-IsAscending, Holds-IsReadable,
  compact_tables, Fits, open_file-write_file,
}

live_first :
    (o a b : Option Record)
    → live_value a ≡ live_value b
    → live_value (first_of o a) ≡ live_value (first_of o b)
live_first none a b e = e
live_first (some r) a b e = refl

All_unit : (rs : List Record) → All (λ _. Unit {0}) rs
All_unit [] = tt
All_unit (r ∷ rs) = (tt, All_unit rs)

-- The lists of one merge.
abbrev one_list : List Record → List (List Record)
one_list [] = []
one_list (r ∷ rs) = (r ∷ rs) ∷ []

one_list-All : (P : Record → Type 0) (out : List Record) → All P out → All (All P) (one_list out)
one_list-All P [] h = tt
one_list-All P (r ∷ rs) h = (h, tt)

lookup-one_list : (key : List ℕ) (out : List Record) → lookup key (one_list out) ≡ find key out
unfolding lookup find
lookup-one_list key [] = refl
lookup-one_list key (r ∷ rs) = only (find key (r ∷ rs))
  where
    only : (o : Option Record) → first_of o none ≡ o
    only none = refl
    only (some r) = refl

module _ (hash : Hashing) (ls : List (List Record)) (db : Db) (d : IsDb hash ls db) where
  abbrev output : List Record
  output = merge ls true

  abbrev asc : All IsAscending ls
  asc = Holds-IsAscending hash db.readers ls d.holds

  output-All : (P : Record → Type 0) → All (All P) ls → All (All P) (one_list output)
  output-All P h = one_list-All P output (All-merge P ls true asc h)

  output-IsStacked : IsStacked (one_list output)
  output-IsStacked = stacked output
    where
      stacked : (out : List Record) → IsStacked (one_list out)
      stacked [] = tt
      stacked (r ∷ rs) = (All_unit (r ∷ rs), tt)

  -- The tables of the merge in place of the old ones.
  merged-Keeps :
      (after : Db)
      → after.mem ≡ db.mem
      → Holds hash after.readers (one_list output)
      → SameRest db after
      → Keeps hash db ls after
  unfolding lookup
  merged-Keeps after m holds rest = record {
    lists = one_list output;
    sound = record {
      differ = subst (λ (x : MemTable). KeysDiffer x.entries) (sym m) d.differ;
      readable = subst (λ (x : MemTable). All IsReadable x.entries) (sym m) d.readable;
      holds = holds;
      stacked =
          subst (λ (x : MemTable). IsStacked (x.entries ∷ one_list output)) (sym m)
            (
              All-map (λ (s : Record). All (All (λ (o : Record). o.seq_num < s.seq_num)) ls) _
                  db.mem.entries
                  (λ s older. output-All (λ (o : Record). o.seq_num < s.seq_num) older) d.stacked.0,
              output-IsStacked,
            );
    };
    same_reads = λ key.
        ap (λ (x : MemTable). live_value (lookup key (x.entries ∷ one_list output))) m
        ∙ live_first (find key db.mem.entries) _ _ (
            ap live_value (lookup-one_list key output)
            ∙ lookup-IsMergeOf key ls (find key output) asc d.stacked.1
                (merge-IsMergeOf ls true key asc).1);
    no_higher = λ n below.
        subst (λ (x : MemTable). AllBelow n (x.entries ∷ one_list output)) (sym m)
          (below.0, output-All (λ (r : Record). r.seq_num < n) below.1);
    same_next = ap (λ (x : MemTable). x.next_seq) m;
    same_rest = rest;
  }

  compacted-Keeps :
      (next : ℕ) (files : List File) (tables : List Table)
      → Holds hash tables (one_list output)
      → Keeps hash db ls (compacted db next files tables).0
  unfolding compacted
  compacted-Keeps next files tables holds =
      either_both (λ (p : Db × Option DbError). Keeps hash db ls p.0)
        (store (record db.manifest { sstables = names_of tables; next_sst = next })) _ _
        (λ published. merged-Keeps _ refl holds (refl, refl))
        (λ e. Keeps_view hash db ls _ d refl refl (refl, refl))

  open_compacted-Keeps :
      (next : ℕ)
      → Fits hash output
      → Keeps hash db ls (open_compacted db next (write hash output)).0
  unfolding open_compacted write
  open_compacted-Keeps next = by_output output refl
    where
      by_output :
          (out : List Record)
          → output ≡ out
          → Fits hash out
          → Keeps hash db ls (open_compacted db next (write hash out)).0
      by_output [] e fits =
          compacted-Keeps next db.files []
            (subst (λ x. Holds hash [] (one_list x)) (sym e) no_tables)
      by_output (r ∷ rs) e fits =
          let name = sst_name next in
          let files = write_file name (table_file hash r rs) db.files in
          let table : Table = record { name = name; reader = table_reader hash r rs } in
          let readable =
            subst (All IsReadable) e
              (All-merge IsReadable ls true asc (Holds-IsReadable hash db.readers ls d.holds)) in
          let ascending = subst IsAscending e (merge-IsMergeOf ls true [] asc).0 in
          subst (λ (p : Db × Option DbError). Keeps hash db ls p.0)
            (sym (
              either_ok (open_file name files) _ _
                (open_file-write_file hash name db.files r rs fits)))
            (compacted-Keeps next files (table ∷ []) (
              subst (λ x. Holds hash (table ∷ []) (one_list x)) (sym e)
                (one_more refl fits readable ascending no_tables)))

  -- A compaction changes no read, and keeps the database sound, where its output fits a table.
  pub compact-Keeps : Fits hash output → Keeps hash db ls (compact hash db).0
  unfolding compact
  compact-Keeps fits =
      if_split (λ (p : Db × Option DbError). Keeps hash db ls p.0) (is_empty db.readers) _ _
        (λ none_left. Keeps_refl hash db ls d)
        (λ some_left.
          let (n, merged) = compact_tables hash db.readers ls d.holds some_left in
          subst (λ (p : Db × Option DbError). Keeps hash db ls p.0)
            (sym (either_ok (Compact.compact hash (readers_of db.readers) true) _ _ merged))
            (open_compacted-Keeps (add64 db.next_sst 1) fits))

  pub maybe_compact-Keeps : Fits hash output → Keeps hash db ls (maybe_compact hash db).0
  unfolding maybe_compact
  maybe_compact-Keeps fits =
      if_both (λ (p : Db × Option DbError). Keeps hash db ls p.0)
        (ltb (length db.readers) (compaction_threshold db.opts)) _ _ (Keeps_refl hash db ls d)
        (compact-Keeps fits)
