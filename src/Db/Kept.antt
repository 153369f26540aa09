-- ===== src/Db/Kept.antt =====
-- db/db.go: what flushes and compactions keep.
use lsmdb.Base.{
  ℕ, ◌<◌, ◌≡◌, refl, sym, ap, subst, ◌∙◌, List, [], ◌∷◌, Option, none, some, true, false, arith,
  if_no, if_yes, if_both, if◌then◌else◌, ◌==◌, ◌||◌, is_empty, length, All, Result, ok, err, either,
  either_ok, bind_ok,
}
use lsmdb.Memtable.{Record, MemTable, find, get_record, same_key, live_value}
use lsmdb.Memtable.Keys.{same_key_refl}
use lsmdb.Memtable.Order.{IsAscending}
use lsmdb.Memtable.Sorted.{KeysDiffer}
use lsmdb.Sstable.{Hashing, table_file, write}
use lsmdb.Sstable.Reader.{Reader, SstError, load_all, open_table}
use lsmdb.Sstable.Opened.{IsTable, table_reader, open_table-table_file}
use lsmdb.Sstable.Records.{IsReadable, load_all-table_reader}
use lsmdb.Compact.{merge, load_sources, total_in}
use lsmdb.Compact
use lsmdb.Db.Files.{DbError, no_file, bad_table, File, Table, open_file, read_file, write_file}
use lsmdb.Db.Engine.{Db, get, readers_of}
use lsmdb.Db.Lookups.{lookup, IsStacked, Holds, picked, no_tables, one_more, get_tables-lookup}

-- The tables of the database hold the lists; the keys in memory differ; and records are the newer,
-- the nearer they are to the front.
pub record IsDb (hash : Hashing) (ls : List (List Record)) (db : Db) : Type 0 where
  pub differ : KeysDiffer db.mem.entries
  pub readable : All IsReadable db.mem.entries
  pub holds : Holds hash db.readers ls
  pub stacked : IsStacked (db.mem.entries ∷ ls)

-- Every record of the lists has a number below `n`.
abbrev pub AllBelow : ℕ → List (List Record) → Type 0
AllBelow n ls = All (All (λ (r : Record). r.seq_num < n)) ls

pub get-lookup :
    (hash : Hashing) (ls : List (List Record)) (db : Db) (key : List ℕ)
    → IsDb hash ls db
    → get hash.fnv db key ≡ live_value (lookup key (db.mem.entries ∷ ls))
unfolding get get_record lookup
get-lookup hash ls db key d =
    let tables = get_tables-lookup hash db.readers ls key d.holds in
    picked (find key db.mem.entries) _ _ tables

-- What no flush changes.
abbrev pub SameRest : Db → Db → Type 0
SameRest db after = (after.applied_index ≡ db.applied_index) × (after.opts ≡ db.opts)

-- Both databases read the same at every key, and the second is sound and has no new numbers.
pub record Keeps (hash : Hashing) (db : Db) (ls : List (List Record)) (after : Db) : Type 0 where
  pub lists : List (List Record)
  pub sound : IsDb hash lists after
  pub same_reads :
      (key : List ℕ)
      → live_value (lookup key (after.mem.entries ∷ lists))
        ≡ live_value (lookup key (db.mem.entries ∷ ls))
  pub no_higher :
      (n : ℕ) → AllBelow n (db.mem.entries ∷ ls) → AllBelow n (after.mem.entries ∷ lists)
  pub same_next : after.mem.next_seq ≡ db.mem.next_seq
  pub same_rest : SameRest db after

pub Holds-IsAscending :
    (hash : Hashing) (ts : List Table) (ls : List (List Record))
    → Holds hash ts ls
    → All IsAscending ls
Holds-IsAscending hash _ _ no_tables = tt
Holds-IsAscending hash _ _ (one_more e table readable asc rest) =
    (asc, Holds-IsAscending hash _ _ rest)

pub Holds-IsReadable :
    (hash : Hashing) (ts : List Table) (ls : List (List Record))
    → Holds hash ts ls
    → All (All IsReadable) ls
Holds-IsReadable hash _ _ no_tables = tt
Holds-IsReadable hash _ _ (one_more e table readable asc rest) =
    (readable, Holds-IsReadable hash _ _ rest)

load_sources-Holds :
    (hash : Hashing) (ts : List Table) (ls : List (List Record))
    → Holds hash ts ls
    → load_sources (readers_of ts) ≡ ok ls
unfolding load_sources
load_sources-Holds hash _ _ no_tables = refl
load_sources-Holds hash _ _ (one_more {t} {r} {rs} {ts} {ls} e table readable asc rest) =
    bind_ok _ _ (ap load_all e ∙ load_all-table_reader hash r rs table readable)
      (bind_ok _ _ (load_sources-Holds hash ts ls rest) refl)

written_lem :
    (hash : Hashing) (output : List Record) (total : ℕ)
    → 0 < total
    → (n : ℕ) × (let result : Result SstError (ℕ × Option (List ℕ)) = ok (n, write hash output) in
        (if total == 0 || is_empty output
          then ok (0, none)
          else ok (length output, write hash output))
        ≡ result)
unfolding write
written_lem hash [] total some_in =
    (0, if_both (λ x. x ≡ ok (0, none)) (total == 0 || true) _ _ refl refl)
written_lem hash (r ∷ rs) total some_in =
    (_, if_no (total == 0 || false) _ _ (ground (arith, some_in)))

pub compact_tables :
    (hash : Hashing) (ts : List Table) (ls : List (List Record))
    → Holds hash ts ls
    → is_empty ts ≡ false
    → (n : ℕ) × (Compact.compact hash (readers_of ts) true ≡ ok (n, write hash (merge ls true)))
unfolding Compact.compact
compact_tables hash _ _ no_tables filled = absurd (ground (arith, filled))
compact_tables hash _ _ (one_more {t} {r} {rs} {ts} {ls} e table readable asc rest) filled =
    let all = (r ∷ rs) ∷ ls in
    let (n, written) = written_lem hash (merge all true) (total_in all) (omega arith) in
    (
      n,
      bind_ok _ _ (load_sources-Holds hash (t ∷ ts) all (one_more e table readable asc rest))
          written,
    )

-- The records, where there are any, fit a table.
abbrev pub Fits : Hashing → List Record → Type 0
Fits hash [] = Unit {0}
Fits hash (r ∷ rs) = IsTable hash r rs

-- A table file that was just written opens.
pub open_file-write_file :
    (hash : Hashing) (name : List ℕ) (files : List File) (r : Record) (rs : List Record)
    → IsTable hash r rs
    → open_file name (write_file name (table_file hash r rs) files) ≡ ok (table_reader hash r rs)
unfolding open_file read_file
open_file-write_file hash name files r rs table =
    ap
      (λ x. elim x as (λ (_ : Option (List ℕ)). Result DbError Reader) [
        | none ↦ err (no_file name)
        | some bytes ↦ either (open_table bytes) (λ r. ok r) (λ e. err (bad_table e))
      ])
      (if_yes (same_key name name) (some (table_file hash r rs)) _ (same_key_refl name))
    ∙ either_ok (open_table (table_file hash r rs)) _ _ (open_table-table_file hash r rs table)

pub Keeps_refl :
    (hash : Hashing) (db : Db) (ls : List (List Record)) → IsDb hash ls db → Keeps hash db ls db
Keeps_refl hash db ls d = record {
  lists = ls;
  sound = d;
  same_reads = λ key. refl;
  no_higher = λ n below. below;
  same_next = refl;
  same_rest = (refl, refl);
}

-- Only the records in memory and the readers matter.
pub IsDb-view :
    (hash : Hashing) (db : Db) (ls : List (List Record)) (after : Db)
    → IsDb hash ls db
    → after.mem.entries ≡ db.mem.entries
    → after.readers ≡ db.readers
    → IsDb hash ls after
IsDb-view hash db ls after d e t = record {
  differ = subst KeysDiffer (sym e) d.differ;
  readable = subst (All IsReadable) (sym e) d.readable;
  holds = subst (λ ts. Holds hash ts ls) (sym t) d.holds;
  stacked = subst (λ es. IsStacked (es ∷ ls)) (sym e) d.stacked;
}

pub Keeps_view :
    (hash : Hashing) (db : Db) (ls : List (List Record)) (after : Db)
    → IsDb hash ls db
    → after.mem ≡ db.mem
    → after.readers ≡ db.readers
    → SameRest db after
    → Keeps hash db ls after
Keeps_view hash db ls after d m t s = record {
  lists = ls;
  sound = IsDb-view hash db ls after d (ap (λ (x : MemTable). x.entries) m) t;
  same_reads = λ key. ap (λ (x : MemTable). live_value (lookup key (x.entries ∷ ls))) m;
  no_higher = λ n below. subst (λ (x : MemTable). AllBelow n (x.entries ∷ ls)) (sym m) below;
  same_next = ap (λ (x : MemTable). x.next_seq) m;
  same_rest = s;
}

pub Keeps_trans :
    (hash : Hashing) (a : Db) (ls : List (List Record)) (b c : Db)
    → (k : Keeps hash a ls b) → Keeps hash b k.lists c
    → Keeps hash a ls c
Keeps_trans hash a ls b c k l = record {
  lists = l.lists;
  sound = l.sound;
  same_reads = λ key. l.same_reads key ∙ k.same_reads key;
  no_higher = λ n below. l.no_higher n (k.no_higher n below);
  same_next = l.same_next ∙ k.same_next;
  same_rest = (l.same_rest.0 ∙ k.same_rest.0, l.same_rest.1 ∙ k.same_rest.1);
}

pub get-Keeps :
    (hash : Hashing) (db : Db) (ls : List (List Record)) (after : Db) (key : List ℕ)
    → IsDb hash ls db
    → Keeps hash db ls after
    → get hash.fnv after key ≡ get hash.fnv db key
get-Keeps hash db ls after key d k =
    get-lookup hash k.lists after key k.sound ∙ k.same_reads key ∙ sym (get-lookup hash ls db key d)
