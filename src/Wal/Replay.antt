-- ===== src/Wal/Replay.antt =====
-- internal/wal/wal.go: what `ReadAll` finds in a file that `Append` wrote.
pub mod Rounds
pub mod Files
use lsmdb.Base.{
  put_uint, get_uint, length-put_uint, get_uint-put_uint, take_all, take-append, drop-append,
  append_assoc, ℕ, zero, suc, ◌+◌, ◌%◌, ◌^◌, ◌≤◌, ◌<◌, ◌≡◌, refl, sym, ap, ◌∙◌, ◌⊎◌, inl, inr, List,
  [], ◌∷◌, ◌++◌, none, some, ◌&&◌, ◌!=◌, false, if◌then◌else◌, arith, length, length-append, take,
  drop, get_or, if_no,
}
use lsmdb.Wal.{
  Record, type_put, type_delete, max_key_len, max_val_len, header, key_len, val_len, decode,
}

-- A record that `ReadAll` can give back.
pub record IsRecord (r : Record) : Type 0 where
  pub known : (r.type ≡ type_put) ⊎ (r.type ≡ type_delete)
  pub short_key : length r.key ≤ max_key_len
  pub short_value : length r.value ≤ max_val_len
  pub seq_fits : r.seq_num < 2 ^ 64

pub length-header : (r : Record) → length (header r) ≡ 17
unfolding header
length-header r =
    let a = put_uint 8 r.seq_num in
    let b = put_uint 4 (length r.key % 2 ^ 32) in
    let c = put_uint 4 (length r.value % 2 ^ 32) in
    omega (
      arith,
      length-append a (b ++ c),
      length-append b c,
      length-put_uint 8 r.seq_num,
      length-put_uint 4 (length r.key % 2 ^ 32),
      length-put_uint 4 (length r.value % 2 ^ 32),
    )

pub seq_num-header : (r : Record) → IsRecord r → get_uint (take 8 (drop 1 (header r))) ≡ r.seq_num
unfolding header
seq_num-header r h =
    ap get_uint (take-append 8 (put_uint 8 r.seq_num) _ (length-put_uint 8 r.seq_num))
    ∙ get_uint-put_uint 8 r.seq_num (omega (arith, h.seq_fits))

pub key_len-header : (r : Record) → IsRecord r → key_len (header r) ≡ length r.key
unfolding header
key_len-header r h =
    let n = length r.key % 2 ^ 32 in
    ap (λ (xs : List ℕ). get_uint (take 4 xs))
      (drop-append 8 (put_uint 8 r.seq_num) _ (length-put_uint 8 r.seq_num))
    ∙ ap get_uint (take-append 4 (put_uint 4 n) _ (length-put_uint 4 n))
    ∙ get_uint-put_uint 4 n (omega arith)
    ∙ omega (arith, h.short_key)

pub val_len-header : (r : Record) → IsRecord r → val_len (header r) ≡ length r.value
unfolding header
val_len-header r h =
    let a = put_uint 8 r.seq_num in
    let b = put_uint 4 (length r.key % 2 ^ 32) in
    let n = length r.value % 2 ^ 32 in
    let c = put_uint 4 n in
    ap (λ (xs : List ℕ). get_uint (take 4 (drop 12 xs))) (sym (append_assoc a b c))
    ∙ ap (λ (xs : List ℕ). get_uint (take 4 xs))
        (drop-append 12 (a ++ b) c (
          omega (
            arith,
            length-append a b,
            length-put_uint 8 r.seq_num,
            length-put_uint 4 (length r.key % 2 ^ 32),
          )))
    ∙ ap get_uint (take_all 4 c (length-put_uint 4 n))
    ∙ get_uint-put_uint 4 n (omega arith)
    ∙ omega (arith, h.short_value)

-- What stands after the header of a record.
abbrev pub body : (List ℕ → ℕ) → Record → List ℕ
body crc r = (r.key ++ r.value) ++ put_uint 4 (crc (header r ++ (r.key ++ r.value)))

known_type :
    (n : ℕ) → (n ≡ type_put) ⊎ (n ≡ type_delete) → (n != type_put && n != type_delete) ≡ false
known_type n h = ground arith

equal_sums : (a b : ℕ) → a ≡ b → (a != b) ≡ false
equal_sums a b h = ground arith

pub decode-header :
    (crc : List ℕ → ℕ)
    → ((bytes : List ℕ) → crc bytes < 2 ^ 32)
    → (r : Record) → IsRecord r
    → decode crc (header r) (body crc r) ≡ some r
unfolding decode header
decode-header crc small r h =
    let kv = r.key ++ r.value in
    let sum = crc (header r ++ kv) in
    let size : length kv ≡ key_len (header r) + val_len (header r) =
      omega (arith, key_len-header r h, val_len-header r h, length-append r.key r.value) in
    let kv_part = take-append _ kv (put_uint 4 sum) size in
    let sum_part = drop-append _ kv (put_uint 4 sum) size in
    let same : crc (header r ++ take (key_len (header r) + val_len (header r)) (body crc r))
        ≡ get_uint (drop (key_len (header r) + val_len (header r)) (body crc r)) =
      ap (λ (x : List ℕ). crc (header r ++ x)) kv_part
      ∙ sym (
          ap get_uint sum_part ∙ get_uint-put_uint 4 sum (omega (arith, small (header r ++ kv)))) in
    let at_value = append_assoc r.key r.value (put_uint 4 sum) in
    let key_part =
      ap (take (key_len (header r))) at_value
      ∙ take-append _ r.key (r.value ++ put_uint 4 sum) (sym (key_len-header r h)) in
    let value_part =
      ap (λ (x : List ℕ). take (val_len (header r)) (drop (key_len (header r)) x)) at_value
      ∙ ap (take (val_len (header r)))
          (drop-append _ r.key (r.value ++ put_uint 4 sum) (sym (key_len-header r h)))
      ∙ take-append _ r.value (put_uint 4 sum) (sym (val_len-header r h)) in
    if_no
      (crc (header r ++ take (key_len (header r) + val_len (header r)) (body crc r))
        != get_uint (drop (key_len (header r) + val_len (header r)) (body crc r)))
      _ _ (equal_sums _ _ same)
    ∙ if_no (r.type != type_put && r.type != type_delete) _ _ (known_type r.type h.known)
    ∙ (λ i. some (record {
      type = r.type;
      seq_num = seq_num-header r h i;
      key = key_part i;
      value = value_part i;
    }))
