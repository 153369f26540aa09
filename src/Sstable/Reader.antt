-- ===== src/Sstable/Reader.antt =====
-- internal/sstable/reader.go: a table file that is opened, and reads of its records. The counter of
-- keys that the filter turned away is left out. Lengths taken from a file may be more than a slice
-- has: Go panics there, and for a negative length of `make`.
use lsmdb.Base.{
  ℕ, zero, suc, ◌+◌, ◌-◌, ◌*◌, ◌%◌, ◌^◌, List, [], ◌∷◌, Option, none, some, Bool, ◌||◌, not, ◌==◌,
  ltb, leb, if◌then◌else◌, is_empty, sub64, length, take, drop, get_or, get_uint, sort_slice,
  sort_search, Result, ok, err, ◌>>=◌,
}
use lsmdb.Bloom.{BloomFilter, BloomError, may_contain, decode}
use lsmdb.Memtable.{
  Record, RecordType, put, delete, other_type, same_key, key_before, find, store_record, is_newer,
}
use lsmdb.Sstable.{IndexEntry, footer_size, record_header_size}

pub data SstError : Type 0 where
  too_small : ℕ → SstError
  negative_offset : SstError
  unexpected_end : ℕ → SstError
  bad_filter : BloomError → SstError
  truncated_entry : ℕ → SstError
  truncated_key : ℕ → SstError
  panicked : SstError

pub record Reader : Type 0 where
  pub file : List ℕ
  pub bf : BloomFilter
  pub index : List IndexEntry
  pub min_key : List ℕ
  pub max_key : List ℕ
  pub record_count : ℕ
  pub meta_offset : ℕ

-- An int64 that came from a uint64.
abbrev pub is_negative : ℕ → Bool
is_negative n = leb (2 ^ 63) n

-- File.ReadAt of `len` bytes.
unfoldable pub read_at : List ℕ → ℕ → ℕ → Result SstError (List ℕ)
read_at file offset len =
    if is_negative offset
    then err negative_offset
    else if len == 0
    then ok []
    else if ltb (length file) (offset + len)
    then err (unexpected_end offset)
    else ok (take len (drop offset file))

-- make([]byte, len), and a read into it.
unfoldable pub read_new : List ℕ → ℕ → ℕ → Result SstError (List ℕ)
unfolding read_at
read_new file offset len = if is_negative len then err panicked else read_at file offset len

-- bytes[from : from+len]
unfoldable pub slice : List ℕ → ℕ → ℕ → Result SstError (List ℕ)
slice bytes from len =
    if ltb (length bytes) (from + len) then err panicked else ok (take len (drop from bytes))

-- The metadata block: the least and the greatest key.
unfoldable pub get_meta : List ℕ → Result SstError (List ℕ × List ℕ)
unfolding slice
get_meta bytes = do
  min_len ← slice bytes 0 4
  min_key ← slice bytes 4 (get_uint min_len)
  max_len ← slice bytes (4 + get_uint min_len) 4
  max_key ← slice bytes (4 + get_uint min_len + 4) (get_uint max_len)
  ok (min_key, max_key)

-- One round of decodeIndex, from the length of the key on. `next` is the next round, on the position
-- and the bytes left.
unfoldable pub index_entry :
    (ℕ → List ℕ → Result SstError (List IndexEntry))
    → ℕ
    → ℕ
    → List ℕ
    → Result SstError (List IndexEntry)
index_entry next pos key_len rest =
    let after = drop key_len rest in
    let entry : IndexEntry = record { key = take key_len rest; offset = get_uint (take 8 after) } in
    if ltb (length rest) (key_len + 8)
    then err (truncated_key (pos + 4))
    else next (pos + 4 + key_len + 8) (drop 8 after) >>= λ (entries : List IndexEntry).
        ok (entry ∷ entries)

-- A round reads at least 12 bytes, so the fuel is never used up when it is more than their number.
unfoldable pub index_loop : ℕ → ℕ → List ℕ → Result SstError (List IndexEntry)
index_loop zero pos bytes = ok []
index_loop (suc fuel) pos bytes =
    if is_empty bytes
    then ok []
    else if ltb (length bytes) 4
    then err (truncated_entry pos)
    else index_entry (index_loop fuel) pos (get_uint (take 4 bytes)) (drop 4 bytes)

unfoldable pub get_index : List ℕ → Result SstError (List IndexEntry)
unfolding index_loop
get_index bytes = index_loop (suc (length bytes)) 0 bytes

-- The filter's error as one of the table.
abbrev pub get_filter : List ℕ → Result SstError BloomFilter
get_filter bytes = elim (decode bytes) [ ok bf ↦ ok bf | err e ↦ err (bad_filter e) ]

-- The number at a place of the footer.
abbrev pub footer_field : List ℕ → ℕ → ℕ
footer_field footer k = get_uint (take 8 (drop (8 * k) footer))

-- Open, with the numbers of the footer.
unfoldable pub open_sections : List ℕ → ℕ → ℕ → ℕ → ℕ → ℕ → ℕ → Result SstError Reader
unfolding read_new get_meta get_index
open_sections file meta_offset bloom_offset bloom_len index_offset index_len record_count =
    read_new file meta_offset (sub64 bloom_offset meta_offset) >>= λ (meta : List ℕ).
    get_meta meta >>= λ (range : List ℕ × List ℕ).
    read_new file bloom_offset bloom_len >>= λ (filter_bytes : List ℕ).
    get_filter filter_bytes >>= λ (bf : BloomFilter).
    (if index_len == 0 || is_negative index_len
      then ok []
      else read_new file index_offset index_len >>= λ (bytes : List ℕ). get_index bytes)
    >>= λ (index : List IndexEntry). ok (record {
      file = file;
      bf = bf;
      index = index;
      min_key = range.0;
      max_key = range.1;
      record_count = record_count;
      meta_offset = meta_offset;
    })

unfoldable pub open_table : List ℕ → Result SstError Reader
unfolding open_sections read_at
open_table file =
    if ltb (length file) footer_size
    then err (too_small (length file))
    else read_at file (length file - footer_size) footer_size >>= λ (footer : List ℕ).
        open_sections file (footer_field footer 0) (footer_field footer 1) (footer_field footer 2)
          (footer_field footer 3) (footer_field footer 4) (footer_field footer 5)

abbrev pub type_from : ℕ → RecordType
type_from zero = put
type_from (suc zero) = delete
type_from n = other_type n

-- The record of a header and a body.
abbrev pub record_from : List ℕ → List ℕ → Record
record_from hdr body =
    let key_len = get_uint (take 4 hdr) in
    let val_len = get_uint (take 4 (drop 4 hdr)) in
    record {
      key = take key_len body;
      value = take val_len (drop key_len body);
      seq_num = get_uint (take 8 (drop 8 hdr));
      type = type_from (get_or hdr 16 0);
    }

-- The record at the offset, and its size.
unfoldable pub read_record_at : List ℕ → ℕ → Result SstError (Record × ℕ)
unfolding read_at
read_record_at file offset = read_at file offset record_header_size >>= λ (hdr : List ℕ).
    (let size = get_uint (take 4 hdr) + get_uint (take 4 (drop 4 hdr)) in
      (if size == 0 then ok [] else read_at file (offset + record_header_size) size)
      >>= λ (body : List ℕ). ok (record_from hdr body, record_header_size + size))

-- The position is before the end of the records: two numbers of 64 bits, compared as signed ones.
abbrev pub in_records : Reader → ℕ → Bool
in_records r pos = ltb ((pos + 2 ^ 63) % 2 ^ 64) ((r.meta_offset + 2 ^ 63) % 2 ^ 64)

-- Iterator.Next: the record, and the position after it.
unfoldable pub next : Reader → ℕ → Result SstError (Option (Record × ℕ))
unfolding read_record_at
next r pos =
    if not (in_records r pos)
    then ok none
    else read_record_at r.file pos >>= λ (found : Record × ℕ). ok (some (found.0, pos + found.1))

-- The loops over the records. A record takes at least 17 bytes, so the fuel is never used up when
-- it is more than the bytes of the file.
unfoldable pub load_loop : ℕ → Reader → ℕ → Result SstError (List Record)
load_loop zero r pos = ok []
load_loop (suc fuel) r pos =
    let step = read_record_at r.file pos >>= λ (found : Record × ℕ).
    load_loop fuel r (pos + found.1) >>= λ (rest : List Record). ok (found.0 ∷ rest) in
    if in_records r pos then step else ok []

unfoldable pub load_all : Reader → Result SstError (List Record)
unfolding load_loop
load_all r =
    if is_negative r.record_count then err panicked else load_loop (suc (length r.file)) r 0

unfoldable pub get_loop : ℕ → Reader → List ℕ → ℕ → Option Record → Result SstError (Option Record)
get_loop zero r key pos best = ok best
get_loop (suc fuel) r key pos best =
    let step = read_record_at r.file pos >>= λ (found : Record × ℕ).
    (let better = if is_newer found.0 best then some found.0 else best in
      let here = get_loop fuel r key (pos + found.1) better in
      let past = get_loop fuel r key (pos + found.1) best in
      if same_key found.0.key key
      then here
      else if key_before key found.0.key
      then ok best
      else past) in
    if in_records r pos then step else ok best

-- The offset of the last index entry whose key is at most `key`, or the first record.
unfoldable pub start_offset : List IndexEntry → List ℕ → ℕ
start_offset index key =
    let blank : IndexEntry = record { key = []; offset = 0 } in
    let i = sort_search (length index) (λ i. key_before key (get_or index i blank).key) in
    if i == 0 then 0 else (get_or index (i - 1) blank).offset

unfoldable pub get : (List ℕ → ℕ) → Reader → List ℕ → Result SstError (Option Record)
unfolding get_loop start_offset
get fnv r key =
    let found = get_loop (suc (length r.file)) r key (start_offset r.index key) none in
    if not (may_contain fnv r.bf key)
    then ok none
    else if key_before key r.min_key || key_before r.max_key key
    then ok none
    else found

-- byKey[rec.Key], kept to the newest record.
abbrev pub keep_newest : List Record → Record → List Record
keep_newest known r = if is_newer r (find r.key known) then store_record r known else known

unfoldable pub scan_loop :
    ℕ → Reader → List ℕ → List ℕ → ℕ → List Record → Result SstError (List Record)
scan_loop zero r from to pos known = ok known
scan_loop (suc fuel) r from to pos known =
    let step = read_record_at r.file pos >>= λ (found : Record × ℕ).
    (let more =
        scan_loop fuel r from to (pos + found.1)
          (if key_before found.0.key from then known else keep_newest known found.0) in
      if key_before to found.0.key then ok known else more) in
    if in_records r pos then step else ok known

unfoldable pub scan : Reader → List ℕ → List ℕ → Result SstError (List Record)
unfolding scan_loop start_offset
scan r from to =
    let found = scan_loop (suc (length r.file)) r from to (start_offset r.index from) [] in
    if key_before to r.min_key || key_before r.max_key from
    then ok []
    else found >>= λ (known : List Record).
        ok (sort_slice (λ (a b : Record). key_before a.key b.key) known)
