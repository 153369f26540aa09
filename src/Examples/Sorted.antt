-- ===== src/Examples/Sorted.antt =====
-- Runs of the bloom filter of internal/bloom, the tables of internal/sstable, and the merge of
-- internal/compact.
use lsmdb.Base.{
  ℕ, ◌^◌, ◌≡◌, refl, List, [], ◌∷◌, true, arith, ltb, ltb→lt, length, All, ok, put_uint,
}
use lsmdb.Bloom
use lsmdb.Bloom.{BloomFilter, may_contain}
use lsmdb.Bloom.Membership.{IsFilter, add_all, may_contain-add_all, new-IsFilter}
use lsmdb.Bloom.Codec.{decode-encode}
use lsmdb.Memtable.{Record, put, delete, find, same_key, key_before, MemTable, sorted_entries}
use lsmdb.Memtable.Order.{IsAscending}
use lsmdb.Memtable.Sorted.{sorted_entries_lem}
use lsmdb.Sstable.{Hashing, table_file, record_header}
use lsmdb.Sstable.Reader.{open_table, load_all, get}
use lsmdb.Sstable.Opened.{IsTable, table_reader, open_table-table_file}
use lsmdb.Sstable.Records.{IsReadable, load_all-table_reader}
use lsmdb.Sstable.Lookup.{get-table_reader}
use lsmdb.Compact.{merge}
use lsmdb.Compact.Newest.{IsMergeOf, merge-IsMergeOf}

-- A hash by length, and one word for a filter.
abbrev pub by_length : Hashing
by_length = record { fnv = λ key. length key; sizes = λ n. (64, 2) }

abbrev pub old_a : Record
old_a = record { key = 97 ∷ []; value = 1 ∷ []; seq_num = 1; type = put }

abbrev pub old_b : Record
old_b = record { key = 98 ∷ []; value = 2 ∷ []; seq_num = 2; type = put }

abbrev pub deleted_a : Record
deleted_a = record { key = 97 ∷ []; value = []; seq_num = 3; type = delete }

abbrev pub both : List Record
both = old_a ∷ old_b ∷ []

pub both-IsReadable : All IsReadable both
both-IsReadable = (
  record {
    short_key = omega arith;
    short_value = omega arith;
    seq_fits = omega arith;
    known = refl;
  },
  (
    record {
      short_key = omega arith;
      short_value = omega arith;
      seq_fits = omega arith;
      known = refl;
    },
    tt,
  ),
)

pub both-IsAscending : IsAscending both
unfolding key_before
both-IsAscending = ((refl, tt), (tt, tt))

pub one_word : (n : ℕ) → IsFilter (Bloom.new by_length.sizes n)
one_word n = new-IsFilter by_length.sizes n (omega arith) (omega arith)

both_fits : ltb (length (table_file by_length old_a (old_b ∷ []))) (2 ^ 63) ≡ true
unfolding table_file record_header put_uint Bloom.encode Bloom.add Bloom.set_positions Bloom.new
    Bloom.set_in_word Bloom.bloom_hashes
both_fits = refl

pub both-IsTable : IsTable by_length old_a (old_b ∷ [])
both-IsTable = record {
  short_keys = (omega arith, (omega arith, tt));
  file_fits = ltb→lt _ _ both_fits;
  filter_fits = one_word 2;
}

may_contain-add_all_example :
    All
      (λ key.
        may_contain by_length.fnv
          (add_all by_length.fnv (Bloom.new by_length.sizes 2) ((97 ∷ []) ∷ (98 ∷ 99 ∷ []) ∷ []))
          key
        ≡ true)
      ((97 ∷ []) ∷ (98 ∷ 99 ∷ []) ∷ [])
may_contain-add_all_example =
    may_contain-add_all by_length.fnv (Bloom.new by_length.sizes 2)
      ((97 ∷ []) ∷ (98 ∷ 99 ∷ []) ∷ []) (one_word 2)

decode-encode_example :
    Bloom.decode (Bloom.encode (Bloom.new by_length.sizes 2)) ≡ ok (Bloom.new by_length.sizes 2)
decode-encode_example = decode-encode (Bloom.new by_length.sizes 2) (one_word 2)

open_table-table_file_example :
    open_table (table_file by_length old_a (old_b ∷ []))
    ≡ ok (table_reader by_length old_a (old_b ∷ []))
open_table-table_file_example = open_table-table_file by_length old_a (old_b ∷ []) both-IsTable

load_all-table_reader_example : load_all (table_reader by_length old_a (old_b ∷ [])) ≡ ok both
load_all-table_reader_example =
    load_all-table_reader by_length old_a (old_b ∷ []) both-IsTable both-IsReadable

get-table_reader_example :
    get by_length.fnv (table_reader by_length old_a (old_b ∷ [])) (98 ∷ [])
    ≡ ok (find (98 ∷ []) both)
get-table_reader_example =
    get-table_reader by_length old_a (old_b ∷ []) (98 ∷ []) both-IsTable both-IsReadable
      both-IsAscending

merge-IsMergeOf_example :
    IsAscending (merge ((deleted_a ∷ []) ∷ both ∷ []) true)
    × IsMergeOf
        (97 ∷ [])
        ((deleted_a ∷ []) ∷ both ∷ [])
        true
        (find (97 ∷ []) (merge ((deleted_a ∷ []) ∷ both ∷ []) true))
merge-IsMergeOf_example =
    merge-IsMergeOf ((deleted_a ∷ []) ∷ both ∷ []) true (97 ∷ []) ((tt, tt), (both-IsAscending, tt))

merged_test : merge ((deleted_a ∷ []) ∷ both ∷ []) true ≡ old_b ∷ []
unfolding merge same_key
merged_test = refl

sorted_entries_lem_example :
    let m : MemTable = record { entries = old_b ∷ old_a ∷ []; next_seq = 3 } in
    IsAscending (sorted_entries m) × (find (97 ∷ []) (sorted_entries m) ≡ find (97 ∷ []) m.entries)
unfolding same_key
sorted_entries_lem_example =
    sorted_entries_lem (record { entries = old_b ∷ old_a ∷ []; next_seq = 3 }) (97 ∷ [])
      ((refl, tt), (tt, tt))
