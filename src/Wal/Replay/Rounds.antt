-- ===== src/Wal/Replay/Rounds.antt =====
-- internal/wal/wal.go: the rounds of `ReadAll` over a file of records, the last of which may be
-- torn.
use lsmdb.Base.{
  put_uint, length-put_uint, append_assoc, append_nil, take_over, empty_length, filled_length, ℕ,
  zero, suc, ◌+◌, ◌-◌, ◌^◌, ◌≤◌, ◌<◌, ◌≡◌, refl, sym, ap, ◌∙◌, List, [], ◌∷◌, ◌++◌, ◌||◌, ◌==◌,
  false, ltb, is_empty, if◌then◌else◌, if_split, if_yes, if_no, if_both, Bool-cases, ltb→lt, inl,
  inr, length-take, arith, length, length-append, take, All, Result, ok, err,
}
use lsmdb.Wal.{
  Record, WalError, read_body, Read, eof, unexpected_eof, read_full, max_key_len, max_val_len,
  header, encode, key_len, val_len, Scan, scanned, after_header, after_body, read_loop,
}
use lsmdb.Wal.Reads.{read_full-append, read_full_short}
use lsmdb.Wal.Replay.{IsRecord, length-header, key_len-header, val_len-header, body, decode-header}

-- A scan whose last round found a record.
abbrev pub at : List Record → ℕ → Scan
at records p = record { records = records; pos = p; valid_end = p }

abbrev pub log_of : (List ℕ → ℕ) → List Record → List ℕ
log_of crc [] = []
log_of crc (r ∷ rs) = encode crc r ++ log_of crc rs

fits :
    (key value : ℕ)
    → key ≤ max_key_len
    → value ≤ max_val_len
    → (ltb max_key_len key || ltb max_val_len value) ≡ false
fits key value k v = ground arith

module _ (crc : List ℕ → ℕ) (small : (bytes : List ℕ) → crc bytes < 2 ^ 32) where
  pub encode-body :
      (r : Record) (tail : List ℕ) → encode crc r ++ tail ≡ header r ++ (body crc r ++ tail)
  unfolding encode
  encode-body r tail =
      let kv = r.key ++ r.value in
      let sum = put_uint 4 (crc (header r ++ kv)) in
      append_assoc (header r ++ kv) sum tail
      ∙ append_assoc (header r) kv (sum ++ tail)
      ∙ ap (λ x. header r ++ x) (sym (append_assoc kv sum tail))

  pub length-body :
      (r : Record) → IsRecord r → length (body crc r) ≡ key_len (header r) + val_len (header r) + 4
  length-body r h =
      let kv = r.key ++ r.value in
      let sum = crc (header r ++ kv) in
      omega (
        arith,
        key_len-header r h,
        val_len-header r h,
        length-append r.key r.value,
        length-append kv (put_uint 4 sum),
        length-put_uint 4 sum,
      )

  pub length-encode : (r : Record) → length (encode crc r) ≡ 17 + length (body crc r)
  unfolding encode
  length-encode r =
      let kv = r.key ++ r.value in
      let sum = put_uint 4 (crc (header r ++ kv)) in
      omega (
        arith,
        length-append (header r ++ kv) sum,
        length-append (header r) kv,
        length-append kv sum,
        length-header r,
      )

  encode_parts : (r : Record) → encode crc r ≡ header r ++ body crc r
  encode_parts r =
      sym (append_nil (encode crc r))
      ∙ encode-body r []
      ∙ ap (λ x. header r ++ x) (append_nil (body crc r))

  lengths_fit :
      (r : Record)
      → IsRecord r
      → (ltb max_key_len (key_len (header r)) || ltb max_val_len (val_len (header r))) ≡ false
  lengths_fit r h =
      fits (key_len (header r)) (val_len (header r))
        (omega (arith, key_len-header r h, h.short_key))
        (omega (arith, val_len-header r h, h.short_value))

  -- A round at a whole record takes it.
  read_one :
      (fuel : ℕ) (r : Record) (tail : List ℕ) (records : List Record) (p : ℕ)
      → IsRecord r
      → read_loop crc (suc fuel) (encode crc r ++ tail) (at records p)
        ≡ read_loop crc fuel tail (at (records ++ r ∷ []) (p + length (encode crc r)))
  unfolding read_loop after_header after_body scanned
  read_one fuel r tail records p h =
      let next = read_loop crc fuel in
      let s = at records p in
      ap (λ x. after_header crc next s (read_full 17 x)) (encode-body r tail)
      ∙ ap (after_header crc next s)
          (read_full-append 17 (header r) (body crc r ++ tail) (length-header r))
      ∙ if_no (ltb max_key_len (key_len (header r)) || ltb max_val_len (val_len (header r))) _ _
          (lengths_fit r h)
      ∙ ap (after_body crc next s (header r))
          (read_full-append _ (body crc r) tail (length-body r h))
      ∙ ap (λ d. next tail (scanned s (17 + length (body crc r)) d)) (decode-header crc small r h)
      ∙ ap (λ n. next tail (at (records ++ r ∷ []) (p + n))) (sym (length-encode r))

  pub read_many :
      (f fuel : ℕ) (rs : List Record) (tail : List ℕ) (records : List Record) (p : ℕ)
      → All IsRecord rs
      → f ≡ length rs + fuel
      → read_loop crc f (log_of crc rs ++ tail) (at records p)
        ≡ read_loop crc fuel tail (at (records ++ rs) (p + length (log_of crc rs)))
  read_many f fuel [] tail records p h e =
      ap (λ n. read_loop crc n tail (at records p)) (omega (arith, e))
      ∙ ap (λ x. read_loop crc fuel tail (at x p)) (sym (append_nil records))
      ∙ ap (λ n. read_loop crc fuel tail (at (records ++ []) n)) (omega arith)
  read_many zero fuel (r ∷ rs) tail records p h e = absurd (omega (arith, e))
  read_many (suc f) fuel (r ∷ rs) tail records p h e =
      let one = length (encode crc r) in
      let rest = log_of crc rs in
      ap (λ x. read_loop crc (suc f) x (at records p)) (append_assoc (encode crc r) rest tail)
      ∙ read_one f r (rest ++ tail) records p h.0
      ∙ read_many f fuel rs tail (records ++ r ∷ []) (p + one) h.1 (omega (arith, e))
      ∙ ap (λ x. read_loop crc fuel tail (at x (p + one + length rest)))
          (append_assoc records (r ∷ []) rs)
      ∙ ap (λ n. read_loop crc fuel tail (at (records ++ r ∷ rs) n))
          (omega (arith, length-append (encode crc r) rest))

  in_header :
      (fuel : ℕ) (r : Record) (k : ℕ) (records : List Record) (p : ℕ)
      → k < 17
      → read_loop crc (suc fuel) (take k (encode crc r)) (at records p)
        ≡ (if k == 17 then err (read_body eof) else ok (at records p))
  unfolding read_loop after_header
  in_header fuel r k records p low =
      let s = at records p in
      let bytes = take k (encode crc r) in
      let next = read_loop crc fuel in
      ap (after_header crc next s)
        (read_full_short 17 bytes (omega (arith, low, length-take k (encode crc r))))
      ∙ if_both (λ (x : Read). after_header crc next s x ≡ ok s) (is_empty bytes) eof unexpected_eof
          refl refl
      ∙ sym (if_no (k == 17) _ _ (ground (arith, low)))

  ends_in_body :
      (next : List ℕ → Scan → Result WalError Scan) (s : Scan) (r : Record) (k : ℕ)
      → 17 ≤ k
      → k < length (encode crc r)
      → after_body crc next s
          (header r)
          (if is_empty (take (k - 17) (body crc r)) then eof else unexpected_eof)
        ≡ (if k == 17 then err (read_body eof) else ok s)
  unfolding after_body
  ends_in_body next s r k high cut =
      let left = take (k - 17) (body crc r) in
      let size = length-take (k - 17) (body crc r) in
      if_split
        (λ (x : Read).
          after_body crc next s (header r) x ≡ (if k == 17 then err (read_body eof) else ok s))
        (is_empty left) eof unexpected_eof
        (λ e. sym (
          if_yes (k == 17) _ _
            (ground (arith, high, cut, size, length-encode r, empty_length left e))))
        (λ e. sym (
          if_no (k == 17) _ _
            (ground (arith, high, cut, size, length-encode r, filled_length left e))))

  in_body :
      (fuel : ℕ) (r : Record) (k : ℕ) (records : List Record) (p : ℕ)
      → IsRecord r
      → k < length (encode crc r)
      → 17 ≤ k
      → read_loop crc (suc fuel) (take k (encode crc r)) (at records p)
        ≡ (if k == 17 then err (read_body eof) else ok (at records p))
  unfolding read_loop after_header
  in_body fuel r k records p h cut high =
      let s = at records p in
      let next = read_loop crc fuel in
      let left = take (k - 17) (body crc r) in
      ap (λ x. after_header crc next s (read_full 17 (take k x))) (encode_parts r)
      ∙ ap (λ x. after_header crc next s (read_full 17 x))
          (take_over k (header r) (body crc r) (omega (arith, high, length-header r))
            ∙ ap (λ n. header r ++ take (k - n) (body crc r)) (length-header r))
      ∙ ap (after_header crc next s) (read_full-append 17 (header r) left (length-header r))
      ∙ if_no (ltb max_key_len (key_len (header r)) || ltb max_val_len (val_len (header r))) _ _
          (lengths_fit r h)
      ∙ ap (after_body crc next s (header r)) (
          read_full_short _ left (
            omega (
              arith,
              cut,
              high,
              length-take (k - 17) (body crc r),
              length-body r h,
              length-encode r,
            )))
      ∙ ends_in_body next s r k high cut

  -- A round at a record of which only the first `k` bytes are there ends the scan.
  pub read_torn :
      (fuel : ℕ) (r : Record) (k : ℕ) (records : List Record) (p : ℕ)
      → IsRecord r
      → k < length (encode crc r)
      → read_loop crc (suc fuel) (take k (encode crc r)) (at records p)
        ≡ (if k == 17 then err (read_body eof) else ok (at records p))
  unfolding read_loop after_header after_body
  read_torn fuel r k records p h cut = elim (Bool-cases (ltb k 17)) [
    | inl low ↦ in_header fuel r k records p (ltb→lt k 17 low)
    | inr high ↦ in_body fuel r k records p h cut (ground (arith, high))
  ]
