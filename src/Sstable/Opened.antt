-- ===== src/Sstable/Opened.antt =====
-- internal/sstable: `Open` on a file that `Write` made.
use lsmdb.Base.{
  ℕ, ◌+◌, ◌*◌, ◌%◌, ◌^◌, ◌≤◌, ◌≡◌, refl, sym, ap, ◌∙◌, List, [], ◌∷◌, ◌++◌, ◌==◌, ◌||◌, ltb, ◌<◌,
  if_no, if_both, arith, sub64, length, length-append, All, Result, ok, err, bind_ok, put_uint,
  length-put_uint, append_assoc, append_nil,
}
use lsmdb.Bloom.{BloomFilter, new, put_words, encode}
use lsmdb.Bloom.Membership.{IsFilter, add_all-IsFilter}
use lsmdb.Bloom.Codec.{decode-encode, length-encode, length-put_words}
use lsmdb.Memtable.{Record}
use lsmdb.Sstable.{
  Hashing, IndexEntry, footer_size, record_size, sampled, put_records, put_record, put_meta,
  put_index, last_key, keys_of, table_filter, table_file, put_length, record_header, type_byte,
  index_step,
}
use lsmdb.Sstable.Reader.{
  Reader, get_meta, get_index, get_filter, open_sections, open_table, is_negative, SstError,
  bad_filter,
}
use lsmdb.Sstable.Sections.{
  IsShort, IsSmall, read_at_part, read_new_part, length-put_meta, get_meta-put_meta,
  get_index-put_index, footer_field-put_words,
}

module _ (records meta filter index : List ℕ) (count : ℕ) (some_meta : 0 < length meta)
    (some_filter : 0 < length filter) (some_index : 0 < length index)
    (fits : length records + length meta + length filter + length index + 48 < 2 ^ 63)
    (few : count < 2 ^ 64) where
  abbrev meta_offset : ℕ
  meta_offset = length records

  abbrev bloom_offset : ℕ
  bloom_offset = length records + length meta

  abbrev index_offset : ℕ
  index_offset = length records + length meta + length filter

  abbrev numbers : List ℕ
  numbers = meta_offset ∷ bloom_offset ∷ length filter ∷ index_offset ∷ length index ∷ count ∷ []

  abbrev file : List ℕ
  file = records ++ (meta ++ (filter ++ (index ++ put_words numbers)))

  numbers_fit : All (λ n. n < 2 ^ 64) numbers
  numbers_fit = omega (arith, fits, few)

  length-file : length file ≡ length records + length meta + length filter + length index + 48
  length-file = omega (
    arith,
    length-append records (meta ++ (filter ++ (index ++ put_words numbers))),
    length-append meta (filter ++ (index ++ put_words numbers)),
    length-append filter (index ++ put_words numbers),
    length-append index (put_words numbers),
    length-put_words numbers,
  )

  at_filter : file ≡ (records ++ meta) ++ (filter ++ (index ++ put_words numbers))
  at_filter = sym (append_assoc records meta (filter ++ (index ++ put_words numbers)))

  at_index : file ≡ (records ++ (meta ++ filter)) ++ (index ++ put_words numbers)
  at_index =
      ap (λ x. records ++ x) (sym (append_assoc meta filter (index ++ put_words numbers)))
      ∙ sym (append_assoc records (meta ++ filter) (index ++ put_words numbers))

  at_footer : file ≡ (records ++ (meta ++ (filter ++ index))) ++ (put_words numbers ++ [])
  at_footer =
      ap (λ x. records ++ (meta ++ (filter ++ (index ++ x)))) (sym (append_nil (put_words numbers)))
      ∙ ap (λ x. records ++ (meta ++ x)) (sym (append_assoc filter index (put_words numbers ++ [])))
      ∙ ap (λ x. records ++ x) (sym (append_assoc meta (filter ++ index) (put_words numbers ++ [])))
      ∙ sym (append_assoc records (meta ++ (filter ++ index)) (put_words numbers ++ []))

  open_sections_lem :
      (range : List ℕ × List ℕ) (bf : BloomFilter) (entries : List IndexEntry)
      → get_meta meta ≡ ok range
      → get_filter filter ≡ ok bf
      → get_index index ≡ ok entries
      → open_sections file meta_offset bloom_offset
          (length filter)
          index_offset
          (length index)
          count
        ≡ ok (record {
          file = file;
          bf = bf;
          index = entries;
          min_key = range.0;
          max_key = range.1;
          record_count = count;
          meta_offset = meta_offset;
        })
  unfolding open_sections
  open_sections_lem range bf entries m f x =
      let size : length meta ≡ sub64 bloom_offset meta_offset = omega (arith, fits) in
      bind_ok _ _
        (read_new_part file records meta _ meta_offset _ refl refl size (omega (arith, fits, size))
          (omega (arith, some_meta, size)))
        (bind_ok _ _ m (
          bind_ok _ _
            (read_new_part file (records ++ meta) filter _ bloom_offset (length filter) at_filter
              (length-append records meta) refl (omega (arith, fits)) some_filter)
            (bind_ok _ _ f (
              bind_ok _ _
                (if_no (length index == 0 || is_negative (length index)) _ _
                    (ground (arith, fits, some_index))
                  ∙ bind_ok _ _
                      (read_new_part file (records ++ (meta ++ filter)) index _ index_offset
                        (length index) at_index
                        (omega (
                          arith,
                          length-append records (meta ++ filter),
                          length-append meta filter,
                        ))
                        refl (omega (arith, fits)) some_index)
                      x)
                refl))))

  pub open_table_lem :
      (range : List ℕ × List ℕ) (bf : BloomFilter) (entries : List IndexEntry)
      → get_meta meta ≡ ok range
      → get_filter filter ≡ ok bf
      → get_index index ≡ ok entries
      → open_table file
        ≡ ok (record {
          file = file;
          bf = bf;
          index = entries;
          min_key = range.0;
          max_key = range.1;
          record_count = count;
          meta_offset = meta_offset;
        })
  unfolding open_table
  open_table_lem range bf entries m f x =
      let footer = put_words numbers in
      let field = λ (k : ℕ) (h : k < 6). footer_field-put_words numbers k numbers_fit h in
      if_no (ltb (length file) footer_size) _ _ (ground (arith, length-file))
      ∙ bind_ok _ _
          (read_at_part file (records ++ (meta ++ (filter ++ index))) footer [] _ 48 at_footer
            (omega (
              arith,
              length-file,
              length-append records (meta ++ (filter ++ index)),
              length-append meta (filter ++ index),
              length-append filter index,
            ))
            (length-put_words numbers) (omega (arith, fits, length-file)) (omega arith))
          ((λ i.
              open_sections file (field 0 (omega arith) i) (field 1 (omega arith) i)
                (field 2 (omega arith) i) (field 3 (omega arith) i) (field 4 (omega arith) i)
                (field 5 (omega arith) i))
            ∙ open_sections_lem range bf entries m f x)

pub length-put_record : (r : Record) → length (put_record r) ≡ record_size r
unfolding put_record record_header
length-put_record r =
    let a = put_length r.key in
    let b = put_length r.value in
    let c = put_uint 8 r.seq_num in
    let t = type_byte r.type ∷ [] in
    omega (
      arith,
      length-append (a ++ (b ++ (c ++ t))) (r.key ++ r.value),
      length-append r.key r.value,
      length-append a (b ++ (c ++ t)),
      length-append b (c ++ t),
      length-append c t,
      length-put_uint 4 (length r.key % 2 ^ 32),
      length-put_uint 4 (length r.value % 2 ^ 32),
      length-put_uint 8 r.seq_num,
    )

pub length-put_records :
    (r : Record) (rs : List Record)
    → length (put_records (r ∷ rs)) ≡ record_size r + length (put_records rs)
unfolding put_records
length-put_records r rs =
    omega (arith, length-append (put_record r) (put_records rs), length-put_record r)

pub few_records : (rs : List Record) → length rs * 17 ≤ length (put_records rs)
unfolding put_records
few_records [] = omega arith
few_records (r ∷ rs) = omega (arith, few_records rs, length-put_records r rs)

sampled-IsSmall :
    (i offset : ℕ) (rs : List Record)
    → All (λ (r : Record). IsShort r.key) rs
    → offset + length (put_records rs) < 2 ^ 64
    → All IsSmall (sampled i offset rs)
unfolding sampled
sampled-IsSmall i offset [] short fits = tt
sampled-IsSmall i offset (r ∷ rs) short fits =
    let size = length-put_records r rs in
    let rest =
      sampled-IsSmall (i + 1) (offset + record_size r) rs short.1 (omega (arith, size, fits)) in
    if_both (All IsSmall) (i % index_step == 0) _ _ ((short.0, omega (arith, fits)), rest) rest

last_key-IsShort :
    (r : Record) (rs : List Record)
    → All (λ (r : Record). IsShort r.key) (r ∷ rs)
    → IsShort (last_key r.key rs)
last_key-IsShort r [] short = short.0
last_key-IsShort r (s ∷ ss) short = last_key-IsShort s ss short.1

filled_index : (e : IndexEntry) (es : List IndexEntry) → 0 < length (put_index (e ∷ es))
unfolding put_index
filled_index e es = omega (
  arith,
  length-append (put_length e.key) (e.key ++ (put_uint 8 e.offset ++ put_index es)),
  length-put_uint 4 (length e.key % 2 ^ 32),
)

-- The records fit the format: their keys and the whole file, and the filter's size.
pub record IsTable (hash : Hashing) (r : Record) (rs : List Record) : Type 0 where
  pub short_keys : All (λ (r : Record). IsShort r.key) (r ∷ rs)
  pub file_fits : length (table_file hash r rs) < 2 ^ 63
  pub filter_fits : IsFilter (new hash.sizes (length (r ∷ rs)))

-- The reader of such a file.
abbrev pub table_reader : Hashing → Record → List Record → Reader
table_reader hash r rs = record {
  file = table_file hash r rs;
  bf = table_filter hash (r ∷ rs);
  index = sampled 0 0 (r ∷ rs);
  min_key = r.key;
  max_key = last_key r.key rs;
  record_count = length (r ∷ rs);
  meta_offset = length (put_records (r ∷ rs));
}

-- A table file opens as the reader of its records.
pub open_table-table_file :
    (hash : Hashing) (r : Record) (rs : List Record)
    → IsTable hash r rs
    → open_table (table_file hash r rs) ≡ ok (table_reader hash r rs)
unfolding table_file
open_table-table_file hash r rs t =
    let records = put_records (r ∷ rs) in
    let meta = put_meta r.key (last_key r.key rs) in
    let bf = table_filter hash (r ∷ rs) in
    let filter = encode bf in
    let entries = sampled 0 0 (r ∷ rs) in
    let index = put_index entries in
    let sound : IsFilter bf = add_all-IsFilter hash.fnv _ (keys_of (r ∷ rs)) t.filter_fits in
    let numbers : List ℕ =
      length records
      ∷ (length records + length meta)
      ∷ length filter
      ∷ (length records + length meta + length filter)
      ∷ length index
      ∷ length (r ∷ rs)
      ∷ [] in
    let small : length records + length meta + length filter + length index + 48 < 2 ^ 63 = omega (
      arith,
      t.file_fits,
      length-append records (meta ++ (filter ++ (index ++ put_words numbers))),
      length-append meta (filter ++ (index ++ put_words numbers)),
      length-append filter (index ++ put_words numbers),
      length-append index (put_words numbers),
      length-put_words numbers,
    ) in
    open_table_lem records meta filter index (length (r ∷ rs))
      (omega (arith, length-put_meta r.key (last_key r.key rs))) (omega (arith, length-encode bf))
      (filled_index _ _) small (omega (arith, few_records (r ∷ rs), small))
      (r.key, last_key r.key rs) bf entries
      (get_meta-put_meta r.key (last_key r.key rs) t.short_keys.0
        (last_key-IsShort r rs t.short_keys))
      (ap
        (λ x. elim x as (λ z. Result SstError BloomFilter) [
          | ok b ↦ ok b
          | err e ↦ err (bad_filter e)
        ])
        (decode-encode bf sound))
      (get_index-put_index entries
        (sampled-IsSmall 0 0 (r ∷ rs) t.short_keys (omega (arith, small))))
