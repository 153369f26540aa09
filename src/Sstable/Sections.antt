-- ===== src/Sstable/Sections.antt =====
-- internal/sstable: each section of a table file, as it is written and read.
use lsmdb.Base.{
  ℕ, zero, suc, ◌+◌, ◌*◌, ◌%◌, ◌^◌, ◌≤◌, ◌<◌, ◌≡◌, refl, sym, ap, ◌∙◌, List, [], ◌∷◌, ◌++◌, ◌==◌,
  ltb, if_no, is_empty, arith, length, length-append, take, drop, get_or, All, Result, ok, bind_ok,
  put_uint, get_uint, length-put_uint, get_uint-put_uint, take-append, drop-append, drop_add,
  append_assoc, append_nil, is_empty_filled,
}
use lsmdb.Bloom.{put_words}
use lsmdb.Sstable.{IndexEntry, put_length, put_meta, put_index}
use lsmdb.Sstable.Reader.{
  SstError, read_at, read_new, slice, get_meta, index_entry, index_loop, get_index, footer_field,
  is_negative,
}

-- A length that four bytes hold.
abbrev pub IsShort : List ℕ → Type 0
IsShort bytes = length bytes < 2 ^ 32

pub get_uint-put_length :
    (bytes : List ℕ) → IsShort bytes → get_uint (put_length bytes) ≡ length bytes
get_uint-put_length bytes short =
    get_uint-put_uint 4 (length bytes % 2 ^ 32) (omega arith) ∙ omega (arith, short)

pub take_part :
    (bytes before part after : List ℕ) (from len : ℕ)
    → bytes ≡ before ++ (part ++ after)
    → length before ≡ from
    → length part ≡ len
    → take len (drop from bytes) ≡ part
take_part bytes before part after from len e b p =
    ap (λ x. take len (drop from x)) e
    ∙ ap (take len) (drop-append from before (part ++ after) b)
    ∙ take-append len part after p

length_parts :
    (bytes before part after : List ℕ) (from len : ℕ)
    → bytes ≡ before ++ (part ++ after)
    → length before ≡ from
    → length part ≡ len
    → from + len ≤ length bytes
length_parts bytes before part after from len e b p = omega (
  arith,
  ap (λ (x : List ℕ). length x) e,
  b,
  p,
  length-append before (part ++ after),
  length-append part after,
)

pub slice_part :
    (bytes before part after : List ℕ) (from len : ℕ)
    → bytes ≡ before ++ (part ++ after)
    → length before ≡ from
    → length part ≡ len
    → slice bytes from len ≡ ok part
unfolding slice
slice_part bytes before part after from len e b p =
    if_no (ltb (length bytes) (from + len)) _ _
      (ground (arith, length_parts bytes before part after from len e b p))
    ∙ ap ok (take_part bytes before part after from len e b p)

pub read_at_part :
    (file before part after : List ℕ) (from len : ℕ)
    → file ≡ before ++ (part ++ after)
    → length before ≡ from
    → length part ≡ len
    → from < 2 ^ 63
    → 0 < len
    → read_at file from len ≡ ok part
unfolding read_at
read_at_part file before part after from len e b p fits filled =
    if_no (is_negative from) _ _ (ground (arith, fits))
    ∙ if_no (len == 0) _ _ (ground (arith, filled))
    ∙ if_no (ltb (length file) (from + len)) _ _
        (ground (arith, length_parts file before part after from len e b p))
    ∙ ap ok (take_part file before part after from len e b p)

pub read_new_part :
    (file before part after : List ℕ) (from len : ℕ)
    → file ≡ before ++ (part ++ after)
    → length before ≡ from
    → length part ≡ len
    → from + len < 2 ^ 63
    → 0 < len
    → read_new file from len ≡ ok part
unfolding read_new
read_new_part file before part after from len e b p fits filled =
    if_no (is_negative len) _ _ (ground (arith, fits))
    ∙ read_at_part file before part after from len e b p (omega (arith, fits)) filled

pub length-put_meta :
    (min_key max_key : List ℕ)
    → length (put_meta min_key max_key) ≡ 8 + length min_key + length max_key
unfolding put_meta
length-put_meta min_key max_key = omega (
  arith,
  length-append (put_length min_key) (min_key ++ (put_length max_key ++ max_key)),
  length-append min_key (put_length max_key ++ max_key),
  length-append (put_length max_key) max_key,
  length-put_uint 4 (length min_key % 2 ^ 32),
  length-put_uint 4 (length max_key % 2 ^ 32),
)

pub get_meta-put_meta :
    (min_key max_key : List ℕ)
    → IsShort min_key
    → IsShort max_key
    → get_meta (put_meta min_key max_key) ≡ ok (min_key, max_key)
unfolding get_meta put_meta
get_meta-put_meta min_key max_key short_min short_max =
    let a = put_length min_key in
    let b = put_length max_key in
    let bytes = a ++ (min_key ++ (b ++ max_key)) in
    let la = length-put_uint 4 (length min_key % 2 ^ 32) in
    let lb = length-put_uint 4 (length max_key % 2 ^ 32) in
    let n = get_uint-put_length min_key short_min in
    let m = get_uint-put_length max_key short_max in
    let two = append_assoc a min_key (b ++ max_key) in
    let three : bytes ≡ (a ++ (min_key ++ b)) ++ (max_key ++ []) =
      ap (λ x. a ++ (min_key ++ (b ++ x))) (sym (append_nil max_key))
      ∙ ap (λ x. a ++ x) (sym (append_assoc min_key b (max_key ++ [])))
      ∙ sym (append_assoc a (min_key ++ b) (max_key ++ [])) in
    bind_ok _ _ (slice_part bytes [] a (min_key ++ (b ++ max_key)) 0 4 refl refl la) (
      bind_ok _ _ (slice_part bytes a min_key (b ++ max_key) 4 _ refl la (sym n)) (
        bind_ok _ _
          (slice_part bytes (a ++ min_key) b max_key _ 4 (sym two)
            (omega (arith, length-append a min_key, la, n)) lb)
          (bind_ok _ _
            (slice_part bytes (a ++ (min_key ++ b)) max_key [] _ _ three
              (omega (arith, length-append a (min_key ++ b), length-append min_key b, la, lb, n))
              (sym m))
            refl)))

-- An index entry that is read back as it was written.
abbrev pub IsSmall : IndexEntry → Type 0
IsSmall e = IsShort e.key × (e.offset < 2 ^ 64)

index_entry-put_index :
    (next : ℕ → List ℕ → Result SstError (List IndexEntry)) (pos : ℕ) (e : IndexEntry)
    (es : List IndexEntry)
    → e.offset < 2 ^ 64
    → ((p : ℕ) → next p (put_index es) ≡ ok es)
    → index_entry next pos (length e.key) (e.key ++ (put_uint 8 e.offset ++ put_index es))
      ≡ ok (e ∷ es)
unfolding index_entry
index_entry-put_index next pos e es fits ih =
    let a = put_uint 8 e.offset in
    let rest = e.key ++ (a ++ put_index es) in
    let la = length-put_uint 8 e.offset in
    let after = drop-append (length e.key) e.key (a ++ put_index es) refl in
    let offset =
      ap (λ x. get_uint (take 8 x)) after
      ∙ ap get_uint (take-append 8 a (put_index es) la)
      ∙ get_uint-put_uint 8 e.offset (omega (arith, fits)) in
    let key = take-append (length e.key) e.key (a ++ put_index es) refl in
    let left = ap (drop 8) after ∙ drop-append 8 a (put_index es) la in
    if_no (ltb (length rest) (length e.key + 8)) _ _
      (ground (arith, length-append e.key (a ++ put_index es), length-append a (put_index es), la))
    ∙ bind_ok _ _ (ap (next (pos + 4 + length e.key + 8)) left ∙ ih _)
        (λ i. ok (record { key = key i; offset = offset i } ∷ es))

index_loop-put_index :
    (fuel pos : ℕ) (es : List IndexEntry)
    → length (put_index es) < fuel
    → All IsSmall es
    → index_loop fuel pos (put_index es) ≡ ok es
unfolding index_loop put_index
index_loop-put_index zero pos es enough small = absurd (omega arith)
index_loop-put_index (suc fuel) pos [] enough small = refl
index_loop-put_index (suc fuel) pos (e ∷ es) enough ((short, fits), small) =
    let a = put_length e.key in
    let rest = e.key ++ (put_uint 8 e.offset ++ put_index es) in
    let la = length-put_uint 4 (length e.key % 2 ^ 32) in
    let bytes = a ++ rest in
    let size = length-append a rest in
    let key_len = ap get_uint (take-append 4 a rest la) ∙ get_uint-put_length e.key short in
    let left = drop-append 4 a rest la in
    if_no (is_empty bytes) _ _ (is_empty_filled bytes (omega (arith, size, la)))
    ∙ if_no (ltb (length bytes) 4) _ _ (ground (arith, size, la))
    ∙ (λ i. index_entry (index_loop fuel) pos (key_len i) (left i))
    ∙ index_entry-put_index (index_loop fuel) pos e es fits (λ p.
      index_loop-put_index fuel p es
        (omega (
          arith,
          enough,
          size,
          la,
          length-append e.key (put_uint 8 e.offset ++ put_index es),
          length-append (put_uint 8 e.offset) (put_index es),
        ))
        small)

pub get_index-put_index : (es : List IndexEntry) → All IsSmall es → get_index (put_index es) ≡ ok es
unfolding get_index
get_index-put_index es small =
    index_loop-put_index (suc (length (put_index es))) 0 es (omega arith) small

pub footer_field-put_words :
    (numbers : List ℕ) (k : ℕ)
    → All (λ n. n < 2 ^ 64) numbers
    → k < length numbers
    → footer_field (put_words numbers) k ≡ get_or numbers k 0
unfolding put_words
footer_field-put_words [] k small h = absurd (omega (arith, h))
footer_field-put_words (n ∷ ns) zero small h =
    ap get_uint (take-append 8 (put_uint 8 n) (put_words ns) (length-put_uint 8 n))
    ∙ get_uint-put_uint 8 n (omega (arith, small.0))
footer_field-put_words (n ∷ ns) (suc k) small h =
    ap (λ m. get_uint (take 8 (drop m (put_words (n ∷ ns))))) (omega arith)
    ∙ ap (λ x. get_uint (take 8 x)) (drop_add 8 (8 * k) (put_words (n ∷ ns)))
    ∙ ap (λ x. get_uint (take 8 (drop (8 * k) x)))
        (drop-append 8 (put_uint 8 n) (put_words ns) (length-put_uint 8 n))
    ∙ footer_field-put_words ns k small.1 (omega (arith, h))
