-- ===== src/Db/Flushed.antt =====
-- db/db.go: flush.
use lsmdb.Base.{
  ℕ, ◌≡◌, refl, sym, ap, subst, ◌∙◌, List, [], ◌∷◌, Option, true, not, ltb, ◌&&◌, if_both, All,
  either_ok, either_both, add64, length,
}
use lsmdb.Memtable.{MemTable, Record, find, live_value, sorted_entries, new_with_seq}
use lsmdb.Memtable.Order.{IsAscending}
use lsmdb.Memtable.Sorted.{KeysDiffer, sorted_entries_lem, All-sorted_entries}
use lsmdb.Sstable.{Hashing, table_file}
use lsmdb.Sstable.Opened.{table_reader}
use lsmdb.Sstable.Records.{IsReadable}
use lsmdb.Compact.{merge}
use lsmdb.Manifest.{store}
use lsmdb.Db.Files.{DbError, File, Table, open_file, write_file, sst_name}
use lsmdb.Db.Engine.{
  Db, get, is_replica, flushed_state, publish_flush, flush_records, flush_index, flush_sorted,
  flush, maybe_flush, flush_threshold, then_do, maybe_compact,
}
use lsmdb.Db.Lookups.{lookup, first_of, IsStacked, Holds, one_more}
use lsmdb.Db.Kept.{
  IsDb, AllBelow, SameRest, Keeps, Keeps_refl, Keeps_view, Keeps_trans, get-Keeps, Fits,
  open_file-write_file,
}
use lsmdb.Db.Maintained.{maybe_compact-Keeps}

-- The records in memory fit a table, and so does their merge with all tables.
pub record FlushFits (hash : Hashing) (ls : List (List Record)) (db : Db) : Type 0 where
  pub table : Fits hash (sorted_entries db.mem)
  pub merged : Fits hash (merge (sorted_entries db.mem ∷ ls) true)

module _ (hash : Hashing) (ls : List (List Record)) (db : Db) (d : IsDb hash ls db) where
  -- The call before a compaction.
  abbrev KeepsThen : Db × Option DbError → Type 0
  KeepsThen p = Keeps hash db ls (then_do p (maybe_compact hash)).0

  module _ (r : Record) (rs : List Record) (e : sorted_entries db.mem ≡ r ∷ rs)
      (fits : FlushFits hash ls db) where
    sorted_found : (key : List ℕ) → find key (r ∷ rs) ≡ find key db.mem.entries
    sorted_found key = ap (find key) (sym e) ∙ (sorted_entries_lem db.mem key d.differ).1

    sorted-All : (P : Record → Type 0) → All P db.mem.entries → All P (r ∷ rs)
    sorted-All P h = subst (All P) e (All-sorted_entries P db.mem h)

    pushed-Keeps :
        (after : Db)
        → after.mem ≡ new_with_seq db.mem.next_seq
        → Holds hash after.readers ((r ∷ rs) ∷ ls)
        → SameRest db after
        → Keeps hash db ls after
    unfolding new_with_seq lookup find
    pushed-Keeps after m holds rest = record {
      lists = (r ∷ rs) ∷ ls;
      sound = record {
        differ = subst (λ (x : MemTable). KeysDiffer x.entries) (sym m) tt;
        readable = subst (λ (x : MemTable). All IsReadable x.entries) (sym m) tt;
        holds = holds;
        stacked =
            subst (λ (x : MemTable). IsStacked (x.entries ∷ (r ∷ rs) ∷ ls)) (sym m)
              (tt, (sorted-All _ d.stacked.0, d.stacked.1));
      };
      same_reads = λ key.
          ap (λ (x : MemTable). live_value (lookup key (x.entries ∷ (r ∷ rs) ∷ ls))) m
          ∙ ap (λ o. live_value (first_of o (lookup key ls))) (sorted_found key);
      no_higher = λ n below.
          subst (λ (x : MemTable). AllBelow n (x.entries ∷ (r ∷ rs) ∷ ls)) (sym m)
            (tt, (sorted-All _ below.0, below.1));
      same_next = ap (λ (x : MemTable). x.next_seq) m;
      same_rest = rest;
    }

    publish_flush-Keeps :
        (next : ℕ) (name : List ℕ) (files : List File)
        → KeepsThen
            (publish_flush db next files (record { name = name; reader = table_reader hash r rs }))
    unfolding publish_flush pushed-Keeps
    publish_flush-Keeps next name files =
        let table : Table = record { name = name; reader = table_reader hash r rs } in
        either_both KeepsThen (store (flushed_state db next name)) _ _
          (λ published.
            let pushed =
              pushed-Keeps _ refl
                (one_more refl (subst (Fits hash) e fits.table) (sorted-All IsReadable d.readable)
                  (subst IsAscending e (sorted_entries_lem db.mem [] d.differ).0) d.holds)
                (refl, refl) in
            Keeps_trans hash db ls _ _ pushed (
              maybe_compact-Keeps hash pushed.lists _ pushed.sound
                (subst (λ x. Fits hash (merge (x ∷ ls) true)) e fits.merged)))
          (λ bad. Keeps_view hash db ls _ d refl refl (refl, refl))

    flush_records-Keeps : KeepsThen (flush_records hash db r rs)
    unfolding flush_records
    flush_records-Keeps =
        let next = add64 db.next_sst 1 in
        let name = sst_name next in
        let files = write_file name (table_file hash r rs) db.files in
        subst KeepsThen
          (sym (
            either_ok (open_file name files) _ _
              (open_file-write_file hash name db.files r rs (subst (Fits hash) e fits.table))))
          (publish_flush-Keeps next name files)

  flush_index-Keeps : Keeps hash db ls (flush_index db).0
  unfolding flush_index
  flush_index-Keeps =
      let P = λ (p : Db × Option DbError). Keeps hash db ls p.0 in
      if_both P (is_replica db.opts && ltb db.durable_index db.applied_index) _ _
        (either_both P (store (record db.manifest { applied_index = db.applied_index })) _ _
          (λ published. Keeps_view hash db ls _ d refl refl (refl, refl))
          (λ bad. Keeps_refl hash db ls d))
        (Keeps_refl hash db ls d)

  flush_sorted-Keeps :
      (sorted : List Record)
      → sorted_entries db.mem ≡ sorted
      → FlushFits hash ls db
      → Keeps hash db ls (flush_sorted hash db sorted).0
  unfolding flush_sorted
  flush_sorted-Keeps [] e fits = flush_index-Keeps
  flush_sorted-Keeps (r ∷ rs) e fits =
      if_both (λ (p : Db × Option DbError). Keeps hash db ls p.0) (not db.is_persistent) _ _
        (Keeps_refl hash db ls d) (flush_records-Keeps r rs e fits)

  -- A flush, with the compaction that may follow, keeps the database sound and changes no read,
  -- whether it succeeds or fails, where the tables that it writes fit the format.
  pub flush-Keeps : FlushFits hash ls db → Keeps hash db ls (flush hash db).0
  unfolding flush
  flush-Keeps fits = flush_sorted-Keeps (sorted_entries db.mem) refl fits

  pub maybe_flush-Keeps : FlushFits hash ls db → Keeps hash db ls (maybe_flush hash db).0
  unfolding maybe_flush
  maybe_flush-Keeps fits =
      let P = λ (p : Db × Option DbError). Keeps hash db ls p.0 in
      let here = Keeps_refl hash db ls d in
      if_both P (not db.is_persistent) _ _ here (
        if_both P (ltb (length db.mem.entries) (flush_threshold db.opts)) _ _ here
          (flush-Keeps fits))

  -- After a flush every key reads as before, whether it succeeds or fails: where the tables hold
  -- readable records in the order of their keys, newer ones in front, and the tables that the flush
  -- and the compaction that may follow it write fit the format.
  pub get-flush :
      (key : List ℕ)
      → FlushFits hash ls db
      → get hash.fnv (flush hash db).0 key ≡ get hash.fnv db key
  get-flush key fits = get-Keeps hash db ls _ key d (flush-Keeps fits)
