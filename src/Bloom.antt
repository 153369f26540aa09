-- ===== src/Bloom.antt =====
-- internal/bloom/bloom.go: a set of keys that errs on the side of membership. The hash FNV-1a of
-- hash/fnv is a parameter, and so are the sizes that `New` computes in floating point.
pub mod Words
pub mod Membership
pub mod Codec
use lsmdb.Base.{
  ℕ, zero, suc, ◌+◌, ◌-◌, ◌*◌, ◌/◌, ◌%◌, ◌^◌, List, [], ◌∷◌, ◌++◌, Bool, true, false, ◌||◌, not,
  ◌==◌, ◌!=◌, ltb, if◌then◌else◌, min, max, add64, mul64, length, take, drop, put_uint, get_uint,
  Result, ok, err,
}

pub record BloomFilter : Type 0 where
  pub bits : List ℕ
  pub num_bits : ℕ
  pub num_hash : ℕ

-- w | 1 << k
unfoldable pub set_bit : ℕ → ℕ → ℕ
set_bit zero w = if w % 2 == 0 then w + 1 else w
set_bit (suc k) w = set_bit k (w / 2) * 2 + w % 2

-- w & (1 << k) != 0
unfoldable pub has_bit : ℕ → ℕ → Bool
has_bit zero w = w % 2 != 0
has_bit (suc k) w = has_bit k (w / 2)

-- bits[i] |= 1 << k. An index out of range would panic: a filter that `New` or `Decode` makes has a
-- word for each position.
unfoldable pub set_in_word : List ℕ → ℕ → ℕ → List ℕ
set_in_word [] i k = []
set_in_word (w ∷ ws) zero k = set_bit k w ∷ ws
set_in_word (w ∷ ws) (suc i) k = w ∷ set_in_word ws i k

unfoldable pub has_in_word : List ℕ → ℕ → ℕ → Bool
has_in_word [] i k = false
has_in_word (w ∷ ws) zero k = has_bit k w
has_in_word (w ∷ ws) (suc i) k = has_in_word ws i k

-- `make([]uint64, n)`
unfoldable pub zeros : ℕ → List ℕ
zeros zero = []
zeros (suc n) = 0 ∷ zeros n

-- `sizes n` has the bits that the theory asks for, rounded up, and the rounded number of hashes.
unfoldable pub new : (ℕ → ℕ × ℕ) → ℕ → BloomFilter
unfolding zeros
new sizes expected =
    let (wanted, hashes) = sizes (max 1 expected) in
    let m = mul64 (add64 wanted 63 / 64) 64 in
    record { bits = zeros (m / 64); num_bits = m; num_hash = min 30 (max 1 hashes) }

-- The bits that the rotation puts together do not overlap, so `|` is a sum.
unfoldable pub bloom_hashes : (List ℕ → ℕ) → List ℕ → ℕ × ℕ
bloom_hashes fnv key =
    let h1 = fnv key in
    let turned = h1 * 2 ^ 17 % 2 ^ 64 + h1 / 2 ^ 47 in
    (h1, if turned % 2 == 0 then turned + 1 else turned)

abbrev pub position : ℕ × ℕ → ℕ → ℕ → ℕ
position (h1, h2) num_bits i = add64 h1 (mul64 i h2) % num_bits

-- The loop of `Add`, with `rounds` to go.
unfoldable pub set_positions : ℕ × ℕ → ℕ → ℕ → ℕ → List ℕ → List ℕ
set_positions h num_bits zero i bits = bits
set_positions h num_bits (suc rounds) i bits =
    let pos = position h num_bits i in
    set_positions h num_bits rounds (i + 1) (set_in_word bits (pos / 64) (pos % 64))

unfoldable pub add : (List ℕ → ℕ) → BloomFilter → List ℕ → BloomFilter
add fnv bf key = record bf {
  bits = set_positions (bloom_hashes fnv key) bf.num_bits bf.num_hash 0 bf.bits;
}

-- The loop of `MayContain`.
unfoldable pub has_positions : ℕ × ℕ → ℕ → ℕ → ℕ → List ℕ → Bool
has_positions h num_bits zero i bits = true
has_positions h num_bits (suc rounds) i bits =
    let pos = position h num_bits i in
    let rest = has_positions h num_bits rounds (i + 1) bits in
    if not (has_in_word bits (pos / 64) (pos % 64)) then false else rest

unfoldable pub may_contain : (List ℕ → ℕ) → BloomFilter → List ℕ → Bool
may_contain fnv bf key = has_positions (bloom_hashes fnv key) bf.num_bits bf.num_hash 0 bf.bits

unfoldable pub put_words : List ℕ → List ℕ
put_words [] = []
put_words (w ∷ ws) = put_uint 8 w ++ put_words ws

unfoldable pub encode : BloomFilter → List ℕ
unfolding put_words
encode bf = put_uint 8 bf.num_bits ++ (put_uint 8 bf.num_hash ++ put_words bf.bits)

pub data BloomError : Type 0 where
  too_short : ℕ → BloomError
  invalid_num_bits : ℕ → BloomError
  truncated : ℕ → ℕ → BloomError

unfoldable pub get_words : ℕ → List ℕ → List ℕ
get_words zero bytes = []
get_words (suc n) bytes = get_uint (take 8 bytes) ∷ get_words n (drop 8 bytes)

unfoldable pub decode : List ℕ → Result BloomError BloomFilter
unfolding get_words
decode bytes =
    let num_bits = get_uint (take 8 bytes) in
    let num_hash = get_uint (take 8 (drop 8 bytes)) in
    if ltb (length bytes) 16
    then err (too_short (length bytes))
    else if num_bits == 0 || num_bits % 64 != 0
    then err (invalid_num_bits num_bits)
    else if ltb (length bytes - 16) (num_bits / 64 * 8)
    then err (truncated num_bits (length bytes))
    else ok (record {
      bits = get_words (num_bits / 64) (drop 16 bytes);
      num_bits = num_bits;
      num_hash = num_hash;
    })
