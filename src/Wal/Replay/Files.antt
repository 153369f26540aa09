-- ===== src/Wal/Replay/Files.antt =====
-- internal/wal/wal.go: a file of appended records, whole or torn, as `ReadAll` gives it back.
use lsmdb.Base.{
  take-append, append_assoc, append_nil, take_whole, drop_all, ℕ, suc, ◌+◌, ◌-◌, ◌^◌, ◌≤◌, ◌<◌, ◌≡◌,
  refl, sym, ap, ◌∙◌, List, [], ◌∷◌, ◌++◌, ◌==◌, if◌then◌else◌, if_split, if_yes, if_no, arith,
  length, length-append, take, drop, All, ok, err,
}
use lsmdb.Wal.{
  Record, Wal, read_body, eof, encode, write, append, read_loop, after_header, read_full, finished,
  read_all,
}
use lsmdb.Wal.Replay.{IsRecord}
use lsmdb.Wal.Replay.Rounds.{at, log_of, length-encode, read_many, read_torn}

-- A file whose next write goes to its end.
abbrev pub file : List ℕ → Wal
file bytes = record { contents = bytes; cursor = length bytes }

-- Appends of each record, in order.
abbrev pub append_all : (List ℕ → ℕ) → Wal → List Record → Wal
append_all crc w [] = w
append_all crc w (r ∷ rs) = append_all crc (append crc w r) rs

write-file : (old bytes : List ℕ) → write (file old) bytes ≡ file (old ++ bytes)
unfolding write
write-file old bytes =
    let contents =
      ap (λ x. x ++ (bytes ++ drop (length old + length bytes) old)) (take_whole old)
      ∙ ap (λ x. old ++ (bytes ++ x)) (drop_all (length old + length bytes) old (omega arith))
      ∙ ap (λ x. old ++ x) (append_nil bytes) in
    λ i. record { contents = contents i; cursor = sym (length-append old bytes) i }

pub append_all-file :
    (crc : List ℕ → ℕ) (old : List ℕ) (rs : List Record)
    → append_all crc (file old) rs ≡ file (old ++ log_of crc rs)
unfolding append
append_all-file crc old [] = ap file (sym (append_nil old))
append_all-file crc old (r ∷ rs) =
    ap (λ w. append_all crc w rs) (write-file old (encode crc r))
    ∙ append_all-file crc (old ++ encode crc r) rs
    ∙ ap file (append_assoc old (encode crc r) (log_of crc rs))

count_below :
    (crc : List ℕ → ℕ)
    → ((bytes : List ℕ) → crc bytes < 2 ^ 32)
    → (rs : List Record) → length rs ≤ length (log_of crc rs)
count_below crc small [] = omega arith
count_below crc small (r ∷ rs) = omega (
  arith,
  count_below crc small rs,
  length-append (encode crc r) (log_of crc rs),
  length-encode crc small r,
)

-- What a scan of whole records and then a tail comes to.
scan_of :
    (crc : List ℕ → ℕ) (small : (bytes : List ℕ) → crc bytes < 2 ^ 32) (rs : List Record)
    (tail : List ℕ)
    → All IsRecord rs
    → read_loop crc (suc (length (log_of crc rs ++ tail))) (log_of crc rs ++ tail) (at [] 0)
      ≡ read_loop crc
          (suc (length (log_of crc rs ++ tail) - length rs))
          tail
          (at rs (length (log_of crc rs)))
scan_of crc small rs tail h =
    let all = length (log_of crc rs ++ tail) in
    read_many crc small (suc all) (suc (all - length rs)) rs tail [] 0 h
      (omega (arith, count_below crc small rs, length-append (log_of crc rs) tail))
    ∙ ap (λ n. read_loop crc (suc (all - length rs)) tail (at rs n)) (omega arith)

-- Records appended to an empty file are read back, all of them and in order, and the file stays as
-- it is, ready for the next append: for a checksum of 32 bits, and records of a known type, with a
-- key and a value within the limits and a sequence number of 64 bits.
pub read_all-append_all :
    (crc : List ℕ → ℕ)
    → ((bytes : List ℕ) → crc bytes < 2 ^ 32)
    → (rs : List Record) → All IsRecord rs
    → let w = append_all crc (file []) rs in read_all crc w ≡ ok (rs, w)
unfolding read_all read_loop after_header read_full
read_all-append_all crc small rs h =
    let log = log_of crc rs in
    let written = append_all-file crc [] rs in
    ap (read_all crc) written
    ∙ ap (λ x. read_all crc (file x)) (sym (append_nil log))
    ∙ ap (finished (file (log ++ []))) (scan_of crc small rs [] h)
    ∙ ap (λ x. ok (rs, record { contents = x; cursor = length log }))
        (take-append (length log) log [] refl)
    ∙ ap (λ x. ok (rs, x)) (sym written)

-- A file in which the last append was cut short after `k` bytes gives back the records before it,
-- and the torn bytes are cut off, unless just the header of 17 bytes was written: then the call
-- fails. The checksum has 32 bits; the records have a known type, a key and a value within the
-- limits, and a sequence number of 64 bits.
pub read_all_torn :
    (crc : List ℕ → ℕ)
    → ((bytes : List ℕ) → crc bytes < 2 ^ 32)
    → (rs : List Record) (r : Record) (k : ℕ) → All IsRecord rs
    → IsRecord r
    → k < length (encode crc r)
    → let w = append_all crc (file []) rs in
      read_all crc (file (w.contents ++ take k (encode crc r)))
      ≡ (if k == 17 then err (read_body eof) else ok (rs, w))
unfolding read_all
read_all_torn crc small rs r k hs h cut =
    let log = log_of crc rs in
    let torn = take k (encode crc r) in
    let written = append_all-file crc [] rs in
    ap (λ w. read_all crc (file (w.contents ++ torn))) written
    ∙ ap (finished (file (log ++ torn)))
        (scan_of crc small rs torn hs ∙ read_torn crc small _ r k rs (length log) h cut)
    ∙ if_split
        (λ x.
          finished (file (log ++ torn)) x
          ≡ (if k == 17 then err (read_body eof) else ok (rs, append_all crc (file []) rs)))
        (k == 17) (err (read_body eof)) (ok (at rs (length log)))
        (λ e. sym (if_yes (k == 17) _ _ e))
        (λ e.
          ap (λ x. ok (rs, record { contents = x; cursor = length log }))
            (take-append (length log) log torn refl)
          ∙ ap (λ x. ok (rs, x)) (sym written)
          ∙ sym (if_no (k == 17) _ _ e))
