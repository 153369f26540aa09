-- ===== src/Sstable/Records.antt =====
-- internal/sstable/reader.go: the records of a table file, read one after another.
use lsmdb.Base.{
  ℕ, zero, suc, ◌+◌, ◌%◌, ◌^◌, ◌≤◌, ◌<◌, ◌≡◌, refl, sym, ap, subst, ◌∙◌, List, [], ◌∷◌, ◌++◌, ◌==◌,
  true, false, if◌then◌else◌, if_yes, if_no, if_split, ==_iff, arith, length, length-append, take,
  drop, get_or, All, ok, bind_ok, put_uint, get_uint, length-put_uint, get_uint-put_uint,
  take-append, append_assoc, append_nil,
}
use lsmdb.Memtable.{Record}
use lsmdb.Sstable.{
  record_size, record_header_size, put_length, type_byte, record_header, put_record, put_records,
  Hashing, table_file,
}
use lsmdb.Sstable.Reader.{
  Reader, type_from, record_from, read_at, read_record_at, in_records, is_negative, load_loop,
  load_all,
}
use lsmdb.Sstable.Sections.{IsShort, get_uint-put_length, take_part, read_at_part}
use lsmdb.Sstable.Opened.{IsTable, table_reader, length-put_record, length-put_records, few_records}

-- A record that is read back as it was written.
pub record IsReadable (r : Record) : Type 0 where
  pub short_key : IsShort r.key
  pub short_value : IsShort r.value
  pub seq_fits : r.seq_num < 2 ^ 64
  pub known : type_from (type_byte r.type) ≡ r.type

length-record_header : (r : Record) → length (record_header r) ≡ record_header_size
unfolding record_header
length-record_header r =
    let a = put_length r.key in
    let b = put_length r.value in
    let c = put_uint 8 r.seq_num in
    let t = type_byte r.type ∷ [] in
    omega (
      arith,
      length-append a (b ++ (c ++ t)),
      length-append b (c ++ t),
      length-append c t,
      length-put_uint 4 (length r.key % 2 ^ 32),
      length-put_uint 4 (length r.value % 2 ^ 32),
      length-put_uint 8 r.seq_num,
    )

get_or-append : (n : ℕ) (xs : List ℕ) (x : ℕ) → length xs ≡ n → get_or (xs ++ x ∷ []) n 0 ≡ x
get_or-append zero [] x e = refl
get_or-append zero (y ∷ ys) x e = absurd (omega (arith, e))
get_or-append (suc n) [] x e = absurd (omega (arith, e))
get_or-append (suc n) (y ∷ ys) x e = get_or-append n ys x (omega (arith, e))

empty_list : (xs : List ℕ) → length xs ≡ 0 → xs ≡ []
empty_list [] e = refl
empty_list (x ∷ xs) e = absurd (omega (arith, e))

whole_size :
    (key value body size : ℕ)
    → size ≡ body
    → body ≡ key + value
    → record_header_size + size ≡ record_header_size + key + value
whole_size key value body size e f = omega (arith, e, f)

module _ (r : Record) (readable : IsReadable r) where
  header_key : get_uint (take 4 (record_header r)) ≡ length r.key
  unfolding record_header
  header_key =
      ap get_uint (take-append 4 (put_length r.key) _ (length-put_uint 4 (length r.key % 2 ^ 32)))
      ∙ get_uint-put_length r.key readable.short_key

  header_value : get_uint (take 4 (drop 4 (record_header r))) ≡ length r.value
  unfolding record_header
  header_value =
      ap get_uint (
        take_part (record_header r) (put_length r.key) (put_length r.value) _ 4 4 refl
          (length-put_uint 4 (length r.key % 2 ^ 32)) (length-put_uint 4 (length r.value % 2 ^ 32)))
      ∙ get_uint-put_length r.value readable.short_value

  header_seq : get_uint (take 8 (drop 8 (record_header r))) ≡ r.seq_num
  unfolding record_header
  header_seq =
      let a = put_length r.key in
      let b = put_length r.value in
      let c = put_uint 8 r.seq_num in
      ap get_uint (
        take_part (record_header r) (a ++ b) c _ 8 8
          (sym (append_assoc a b (c ++ type_byte r.type ∷ [])))
          (omega (
            arith,
            length-append a b,
            length-put_uint 4 (length r.key % 2 ^ 32),
            length-put_uint 4 (length r.value % 2 ^ 32),
          ))
          (length-put_uint 8 r.seq_num))
      ∙ get_uint-put_uint 8 r.seq_num (omega (arith, readable.seq_fits))

  header_type : type_from (get_or (record_header r) 16 0) ≡ r.type
  unfolding record_header
  header_type =
      let a = put_length r.key in
      let b = put_length r.value in
      let c = put_uint 8 r.seq_num in
      let t = type_byte r.type ∷ [] in
      ap (λ x. type_from (get_or x 16 0))
        (ap (λ x. a ++ x) (sym (append_assoc b c t)) ∙ sym (append_assoc a (b ++ c) t))
      ∙ ap type_from (
          get_or-append 16 (a ++ (b ++ c)) (type_byte r.type) (
            omega (
              arith,
              length-append a (b ++ c),
              length-append b c,
              length-put_uint 4 (length r.key % 2 ^ 32),
              length-put_uint 4 (length r.value % 2 ^ 32),
              length-put_uint 8 r.seq_num,
            )))
      ∙ readable.known

  record_from-record_header : record_from (record_header r) (r.key ++ r.value) ≡ r
  record_from-record_header =
      let key =
        ap (λ n. take n (r.key ++ r.value)) header_key
        ∙ take-append (length r.key) r.key r.value refl in
      let value =
        (λ i. take (header_value i) (drop (header_key i) (r.key ++ r.value)))
        ∙ take_part (r.key ++ r.value) r.key r.value [] (length r.key) (length r.value)
            (ap (λ x. r.key ++ x) (sym (append_nil r.value))) refl refl in
      λ i. record { key = key i; value = value i; seq_num = header_seq i; type = header_type i }

  pub read_record_at_part :
      (file before after : List ℕ) (pos : ℕ)
      → file ≡ before ++ (put_record r ++ after)
      → length before ≡ pos
      → pos + record_header_size < 2 ^ 63
      → read_record_at file pos ≡ ok (r, record_size r)
  unfolding read_record_at put_record
  read_record_at_part file before after pos e b fits =
      let hdr = record_header r in
      let body = r.key ++ r.value in
      let at_header : file ≡ before ++ (hdr ++ (body ++ after)) =
        e ∙ ap (λ x. before ++ x) (append_assoc hdr body after) in
      let at_body : file ≡ (before ++ hdr) ++ (body ++ after) =
        at_header ∙ sym (append_assoc before hdr (body ++ after)) in
      let size : get_uint (take 4 hdr) + get_uint (take 4 (drop 4 hdr)) ≡ length body =
        omega (arith, header_key, header_value, length-append r.key r.value) in
      bind_ok _ _
        (read_at_part file before hdr (body ++ after) pos record_header_size at_header b
          (length-record_header r) (omega (arith, fits)) (omega arith))
        (bind_ok _ _
          (ap (λ n. if n == 0 then ok [] else read_at file (pos + record_header_size) n) size
            ∙ if_split (λ x. x ≡ ok body) (length body == 0) _ _
                (λ none_left. ap ok (sym (empty_list body ((==_iff (length body) 0).0 none_left))))
                (λ some_left.
                  read_at_part file (before ++ hdr) body after _ (length body) at_body
                    (omega (arith, length-append before hdr, length-record_header r, b)) refl fits
                    (ground (arith, some_left))))
          (λ i. ok (
            record_from-record_header i,
            whole_size (length r.key) (length r.value) (length body) _ size
                (length-append r.key r.value) i,
          )))

-- The reader's records from the position on are `rs`.
pub record IsAt (reader : Reader) (pos : ℕ) (rs : List Record) : Type 0 where
  pub before : List ℕ
  pub after : List ℕ
  pub laid : reader.file ≡ before ++ (put_records rs ++ after)
  pub starts : length before ≡ pos
  pub ends : reader.meta_offset ≡ pos + length (put_records rs)
  pub fits : reader.meta_offset < 2 ^ 63
  pub readable : All IsReadable rs

pub in_records-IsAt_end :
    (reader : Reader) (pos : ℕ) → IsAt reader pos [] → in_records reader pos ≡ false
unfolding put_records
in_records-IsAt_end reader pos a =
    let ends = a.ends in let fits = a.fits in ground (arith, ends, fits)

module _ (reader : Reader) (pos : ℕ) (r : Record) (rs : List Record)
    (a : IsAt reader pos (r ∷ rs)) where
  pub in_records-IsAt : in_records reader pos ≡ true
  in_records-IsAt =
      let ends = a.ends in let fits = a.fits in ground (arith, ends, fits, length-put_records r rs)

  pub read_record_at-IsAt : read_record_at reader.file pos ≡ ok (r, record_size r)
  unfolding put_records
  read_record_at-IsAt =
      read_record_at_part r a.readable.0 reader.file a.before (put_records rs ++ a.after) pos
        (a.laid ∙ ap (λ x. a.before ++ x) (append_assoc (put_record r) (put_records rs) a.after))
        a.starts (omega (arith, a.ends, a.fits, length-put_records r rs))

  pub IsAt-next : IsAt reader (pos + record_size r) rs
  unfolding put_records
  IsAt-next = record {
    before = a.before ++ put_record r;
    after = a.after;
    laid =
        a.laid
        ∙ ap (λ x. a.before ++ x) (append_assoc (put_record r) (put_records rs) a.after)
        ∙ sym (append_assoc a.before (put_record r) (put_records rs ++ a.after));
    starts = omega (arith, a.starts, length-append a.before (put_record r), length-put_record r);
    ends = omega (arith, a.ends, length-put_records r rs);
    fits = a.fits;
    readable = a.readable.1;
  }

pub IsAt-skip :
    (reader : Reader) (pos : ℕ) (front rs : List Record)
    → IsAt reader pos (front ++ rs)
    → IsAt reader (pos + length (put_records front)) rs
unfolding put_records
IsAt-skip reader pos [] rs a = subst (λ n. IsAt reader n rs) {x = pos} (omega arith) a
IsAt-skip reader pos (r ∷ front) rs a =
    subst (λ n. IsAt reader n rs) {x = pos + record_size r + length (put_records front)}
      (omega (arith, length-put_records r front))
      (IsAt-skip reader (pos + record_size r) front rs (IsAt-next reader pos r (front ++ rs) a))

-- The records are read in order from where they begin.
load_loop-IsAt :
    (fuel : ℕ) (reader : Reader) (pos : ℕ) (rs : List Record)
    → length (put_records rs) < fuel
    → IsAt reader pos rs
    → load_loop fuel reader pos ≡ ok rs
unfolding load_loop
load_loop-IsAt zero reader pos rs enough a = absurd (omega (arith, enough))
load_loop-IsAt (suc fuel) reader pos [] enough a =
    if_no (in_records reader pos) _ _ (in_records-IsAt_end reader pos a)
load_loop-IsAt (suc fuel) reader pos (r ∷ rs) enough a =
    if_yes (in_records reader pos) _ _ (in_records-IsAt reader pos r rs a)
    ∙ bind_ok _ _ (read_record_at-IsAt reader pos r rs a) (
        bind_ok _ _
          (load_loop-IsAt fuel reader (pos + record_size r) rs
            (omega (arith, length-put_records r rs, enough)) (IsAt-next reader pos r rs a))
          refl)

-- A table file starts with its records.
pub records_first :
    (hash : Hashing) (r : Record) (rs : List Record)
    → (after : List ℕ) × (table_file hash r rs ≡ put_records (r ∷ rs) ++ after)
unfolding table_file
records_first hash r rs = (_, refl)

-- The records end where a file still may be read.
pub records_fit :
    (hash : Hashing) (r : Record) (rs : List Record)
    → IsTable hash r rs
    → length (put_records (r ∷ rs)) ≤ length (table_file hash r rs)
records_fit hash r rs t =
    let (after, e) = records_first hash r rs in
    omega (arith, ap (λ (x : List ℕ). length x) e, length-append (put_records (r ∷ rs)) after)

pub table_reader-IsAt :
    (hash : Hashing) (r : Record) (rs : List Record)
    → IsTable hash r rs
    → All IsReadable (r ∷ rs)
    → IsAt (table_reader hash r rs) 0 (r ∷ rs)
table_reader-IsAt hash r rs t h =
    let (after, e) = records_first hash r rs in
    record {
      before = [];
      after = after;
      laid = e;
      starts = refl;
      ends = omega arith;
      fits = omega (arith, records_fit hash r rs t, t.file_fits);
      readable = h;
    }

-- A table file gives back all its records, in order.
pub load_all-table_reader :
    (hash : Hashing) (r : Record) (rs : List Record)
    → IsTable hash r rs
    → All IsReadable (r ∷ rs)
    → load_all (table_reader hash r rs) ≡ ok (r ∷ rs)
unfolding load_all
load_all-table_reader hash r rs t h =
    let fits = records_fit hash r rs t in
    let few = few_records (r ∷ rs) in
    let file = t.file_fits in
    if_no (is_negative (length (r ∷ rs))) _ _ (ground (arith, fits, few, file))
    ∙ load_loop-IsAt (suc (length (table_file hash r rs))) (table_reader hash r rs) 0 (r ∷ rs)
        (omega (arith, fits)) (table_reader-IsAt hash r rs t h)
