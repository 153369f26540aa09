-- ===== src/Sstable.antt =====
-- internal/sstable: sorted tables in files. This module has format.go and writer.go, on the bytes of
-- a file; Sstable.Reader has reader.go. Creating, writing and syncing a file succeed.
pub mod Reader
pub mod Sections
pub mod Opened
pub mod Records
pub mod Lookup
use lsmdb.Base.{
  ℕ, zero, suc, ◌+◌, ◌*◌, ◌%◌, ◌^◌, List, [], ◌∷◌, ◌++◌, Option, none, some, ◌==◌, if◌then◌else◌,
  length, put_uint, map,
}
use lsmdb.Bloom.{BloomFilter, new, encode, put_words}
use lsmdb.Bloom.Membership.{add_all}
use lsmdb.Memtable.{Record, RecordType, put, delete, other_type}

abbrev pub index_step : ℕ
index_step = 16

abbrev pub footer_size : ℕ
footer_size = 48

abbrev pub record_header_size : ℕ
record_header_size = 17

-- What the bloom filter takes from outside: FNV-1a, and the sizes computed in floating point.
pub record Hashing : Type 0 where
  pub fnv : List ℕ → ℕ
  pub sizes : ℕ → ℕ × ℕ

pub record IndexEntry : Type 0 where
  pub key : List ℕ
  pub offset : ℕ

abbrev pub type_byte : RecordType → ℕ
type_byte put = 0
type_byte delete = 1
type_byte (other_type n) = n

-- uint32(len(bytes)), in four bytes.
abbrev pub put_length : List ℕ → List ℕ
put_length bytes = put_uint 4 (length bytes % 2 ^ 32)

unfoldable pub record_header : Record → List ℕ
record_header r =
    put_length r.key ++ (put_length r.value ++ (put_uint 8 r.seq_num ++ type_byte r.type ∷ []))

unfoldable pub put_record : Record → List ℕ
put_record r = record_header r ++ (r.key ++ r.value)

unfoldable pub put_records : List Record → List ℕ
unfolding put_record
put_records [] = []
put_records (r ∷ rs) = put_record r ++ put_records rs

-- The size of a record in the file.
abbrev pub record_size : Record → ℕ
record_size r = record_header_size + length r.key + length r.value

-- An index entry for each record whose position is a multiple of the step.
unfoldable pub sampled : ℕ → ℕ → List Record → List IndexEntry
sampled i offset [] = []
sampled i offset (r ∷ rs) =
    let rest = sampled (i + 1) (offset + record_size r) rs in
    if i % index_step == 0 then record { key = r.key; offset = offset } ∷ rest else rest

unfoldable pub put_meta : List ℕ → List ℕ → List ℕ
put_meta min_key max_key = put_length min_key ++ (min_key ++ (put_length max_key ++ max_key))

unfoldable pub put_index : List IndexEntry → List ℕ
put_index [] = []
put_index (e ∷ es) = put_length e.key ++ (e.key ++ (put_uint 8 e.offset ++ put_index es))

abbrev pub last_key : List ℕ → List Record → List ℕ
last_key key [] = key
last_key key (r ∷ rs) = last_key r.key rs

-- The keys of the records, in order.
abbrev pub keys_of : List Record → List (List ℕ)
keys_of [] = []
keys_of (r ∷ rs) = r.key ∷ keys_of rs

abbrev pub table_filter : Hashing → List Record → BloomFilter
table_filter hash records = add_all hash.fnv (new hash.sizes (length records)) (keys_of records)

-- The numbers of the footer, eight bytes each.
abbrev pub put_footer : List ℕ → List ℕ
put_footer numbers = put_words numbers

-- The file that `Write` makes of the records, the first of which is `r`. Offsets do not wrap: a
-- file has less than 2 ^ 63 bytes.
unfoldable pub table_file : Hashing → Record → List Record → List ℕ
unfolding put_records sampled put_meta put_index
table_file hash r rs =
    let records = put_records (r ∷ rs) in
    let meta = put_meta r.key (last_key r.key rs) in
    let filter = encode (table_filter hash (r ∷ rs)) in
    let index = put_index (sampled 0 0 (r ∷ rs)) in
    let meta_offset = length records in
    let bloom_offset = meta_offset + length meta in
    let index_offset = bloom_offset + length filter in
    records
    ++ (meta
        ++ (filter
            ++ (index
                ++ put_footer (
                    meta_offset
                    ∷ bloom_offset
                    ∷ length filter
                    ∷ index_offset
                    ∷ length index
                    ∷ length (r ∷ rs)
                    ∷ []))))

-- No file for no records.
unfoldable pub write : Hashing → List Record → Option (List ℕ)
write hash [] = none
write hash (r ∷ rs) = some (table_file hash r rs)
