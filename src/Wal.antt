-- ===== src/Wal.antt =====
-- internal/wal/wal.go: the write-ahead log of a database. A file is its bytes; seeking, writing and
-- truncating it succeed. The checksum of hash/crc32 is a parameter.
pub mod Reads
pub mod Replay
use lsmdb.Base.{
  put_uint, get_uint, ℕ, zero, suc, ◌+◌, ◌-◌, ◌*◌, ◌/◌, ◌%◌, ◌^◌, List, [], ◌∷◌, ◌++◌, Option, none,
  some, Bool, true, false, ◌&&◌, ◌||◌, ◌==◌, ◌!=◌, ltb, leb, if◌then◌else◌, is_empty, length, take,
  drop, get_or, Result, ok, err,
}

abbrev pub type_put : ℕ
type_put = 1

abbrev pub type_delete : ℕ
type_delete = 2

abbrev pub max_key_len : ℕ
max_key_len = 16384

abbrev pub max_val_len : ℕ
max_val_len = 67108864

pub record Record : Type 0 where
  pub type : ℕ
  pub seq_num : ℕ
  pub key : List ℕ
  pub value : List ℕ

-- The bytes of the file, and the place of the next write.
pub record Wal : Type 0 where
  pub contents : List ℕ
  pub cursor : ℕ

unfoldable pub header : Record → List ℕ
header r =
    r.type
    ∷ (put_uint 8 r.seq_num
        ++ (put_uint 4 (length r.key % 2 ^ 32) ++ put_uint 4 (length r.value % 2 ^ 32)))

-- The bytes of one record.
unfoldable pub encode : (List ℕ → ℕ) → Record → List ℕ
encode crc r = let head = header r ++ (r.key ++ r.value) in head ++ put_uint 4 (crc head)

unfoldable pub write : Wal → List ℕ → Wal
write w bytes = record {
  contents = take w.cursor w.contents ++ (bytes ++ drop (w.cursor + length bytes) w.contents);
  cursor = w.cursor + length bytes;
}

unfoldable pub append : (List ℕ → ℕ) → Wal → Record → Wal
append crc w r = write w (encode crc r)

-- io.ReadFull: the bytes asked for and those left, or the end of the file before the first byte or
-- after some.
pub data Read : Type 0 where
  full : List ℕ → List ℕ → Read
  eof unexpected_eof : Read

unfoldable pub read_full : ℕ → List ℕ → Read
read_full n bytes =
    if leb n (length bytes)
    then full (take n bytes) (drop n bytes)
    else if is_empty bytes
    then eof
    else unexpected_eof

pub data WalError : Type 0 where
  read_body : Read → WalError

-- The lengths that a header gives.
abbrev pub key_len : List ℕ → ℕ
key_len hdr = get_uint (take 4 (drop 9 hdr))

abbrev pub val_len : List ℕ → ℕ
val_len hdr = get_uint (take 4 (drop 13 hdr))

-- The record of a header and a body, where its checksum and its type are good.
unfoldable pub decode : (List ℕ → ℕ) → List ℕ → List ℕ → Option Record
decode crc hdr body =
    let size = key_len hdr + val_len hdr in
    let type = get_or hdr 0 0 in
    if crc (hdr ++ take size body) != get_uint (drop size body)
    then none
    else if type != type_put && type != type_delete
    then none
    else some (record {
      type = type;
      seq_num = get_uint (take 8 (drop 1 hdr));
      key = take (key_len hdr) body;
      value = take (val_len hdr) (drop (key_len hdr) body);
    })

-- The records found, the place in the file, and the end of the last record found.
pub record Scan : Type 0 where
  pub records : List Record
  pub pos : ℕ
  pub valid_end : ℕ

-- One record more, or one that is skipped.
unfoldable pub scanned : Scan → ℕ → Option Record → Scan
scanned s size none = record s { pos = s.pos + size }
scanned s size (some r) = record {
  records = s.records ++ r ∷ [];
  pos = s.pos + size;
  valid_end = s.pos + size;
}

-- What follows a body in the loop of ReadAll. `next` is the next round, on the bytes left.
unfoldable pub after_body :
    (List ℕ → ℕ)
    → (List ℕ → Scan → Result WalError Scan)
    → Scan
    → List ℕ
    → Read
    → Result WalError Scan
after_body crc next s hdr unexpected_eof = ok s
after_body crc next s hdr eof = err (read_body eof)
after_body crc next s hdr (full body rest) =
    next rest (scanned s (17 + length body) (decode crc hdr body))

unfoldable pub after_header :
    (List ℕ → ℕ) → (List ℕ → Scan → Result WalError Scan) → Scan → Read → Result WalError Scan
after_header crc next s eof = ok s
after_header crc next s unexpected_eof = ok s
after_header crc next s (full hdr rest) =
    if ltb max_key_len (key_len hdr) || ltb max_val_len (val_len hdr)
    then ok s
    else after_body crc next s hdr (read_full (key_len hdr + val_len hdr + 4) rest)

-- Each round but the last reads at least 21 bytes, so the fuel is never used up when it is more
-- than their number.
unfoldable pub read_loop : (List ℕ → ℕ) → ℕ → List ℕ → Scan → Result WalError Scan
read_loop crc zero bytes s = ok s
read_loop crc (suc fuel) bytes s = after_header crc (read_loop crc fuel) s (read_full 17 bytes)

abbrev start : Scan
start = record { records = []; pos = 0; valid_end = 0 }

-- What follows the last good record is cut off, and the next write goes to the end.
abbrev pub finished : Wal → Result WalError Scan → Result WalError (List Record × Wal)
finished w (ok s) =
    ok (s.records, record { contents = take s.valid_end w.contents; cursor = s.valid_end })
finished w (err e) = err e

unfoldable pub read_all : (List ℕ → ℕ) → Wal → Result WalError (List Record × Wal)
unfolding read_loop
read_all crc w = finished w (read_loop crc (suc (length w.contents)) w.contents start)

unfoldable pub reset : Wal → Wal
reset w = record { contents = []; cursor = 0 }
