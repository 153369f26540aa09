-- ===== src/Bloom/Codec.antt =====
-- internal/bloom/bloom.go: `Encode` and `Decode`.
use lsmdb.Base.{
  ℕ, ◌+◌, ◌-◌, ◌*◌, ◌/◌, ◌%◌, ◌^◌, ◌<◌, ◌≡◌, refl, sym, ap, ◌∙◌, List, [], ◌∷◌, ◌++◌, ◌||◌, ◌==◌,
  ◌!=◌, if_no, ltb, arith, length, length-append, take, drop, All, ok, put_uint, get_uint,
  length-put_uint, get_uint-put_uint, take-append, drop-append, append_assoc, append_nil,
}
use lsmdb.Bloom.{BloomFilter, put_words, get_words, encode, decode}
use lsmdb.Bloom.Membership.{IsFilter}

pub length-put_words : (ws : List ℕ) → length (put_words ws) ≡ length ws * 8
unfolding put_words
length-put_words [] = refl
length-put_words (w ∷ ws) =
    omega
      (arith, length-append (put_uint 8 w) (put_words ws), length-put_uint 8 w, length-put_words ws)

get_words-put_words :
    (ws : List ℕ) (rest : List ℕ)
    → All (λ w. w < 2 ^ 64) ws
    → get_words (length ws) (put_words ws ++ rest) ≡ ws
unfolding put_words get_words
get_words-put_words [] rest h = refl
get_words-put_words (w ∷ ws) rest h =
    let first = append_assoc (put_uint 8 w) (put_words ws) rest in
    let head =
      ap (λ bytes. get_uint (take 8 bytes)) first
      ∙ ap get_uint (take-append 8 (put_uint 8 w) _ (length-put_uint 8 w))
      ∙ get_uint-put_uint 8 w (omega (arith, h.0)) in
    let tail =
      ap (λ bytes. get_words (length ws) (drop 8 bytes)) first
      ∙ ap (get_words (length ws)) (drop-append 8 (put_uint 8 w) _ (length-put_uint 8 w))
      ∙ get_words-put_words ws rest h.1 in
    λ i. head i ∷ tail i

pub length-encode : (bf : BloomFilter) → length (encode bf) ≡ 16 + length bf.bits * 8
unfolding encode
length-encode bf =
    let a = put_uint 8 bf.num_bits in
    let b = put_uint 8 bf.num_hash in
    omega (
      arith,
      length-append a (b ++ put_words bf.bits),
      length-append b (put_words bf.bits),
      length-put_uint 8 bf.num_bits,
      length-put_uint 8 bf.num_hash,
      length-put_words bf.bits,
    )

-- A filter that is encoded is decoded to itself.
pub decode-encode : (bf : BloomFilter) → IsFilter bf → decode (encode bf) ≡ ok bf
unfolding decode encode
decode-encode bf f =
    let a = put_uint 8 bf.num_bits in
    let b = put_uint 8 bf.num_hash in
    let ws = put_words bf.bits in
    let bytes = a ++ (b ++ ws) in
    let n : get_uint (take 8 bytes) ≡ bf.num_bits =
      ap get_uint (take-append 8 a _ (length-put_uint 8 bf.num_bits))
      ∙ get_uint-put_uint 8 bf.num_bits (omega (arith, f.num_bits_fit)) in
    let hashes : get_uint (take 8 (drop 8 bytes)) ≡ bf.num_hash =
      ap (λ x. get_uint (take 8 x)) (drop-append 8 a _ (length-put_uint 8 bf.num_bits))
      ∙ ap get_uint (take-append 8 b _ (length-put_uint 8 bf.num_hash))
      ∙ get_uint-put_uint 8 bf.num_hash (omega (arith, f.num_hash_fit)) in
    let size : length bytes ≡ 16 + length bf.bits * 8 = length-encode bf in
    let left : drop 16 bytes ≡ ws ++ [] =
      ap (drop 16) (sym (append_assoc a b ws))
      ∙ drop-append 16 (a ++ b) ws (
          omega (
            arith,
            length-append a b,
            length-put_uint 8 bf.num_bits,
            length-put_uint 8 bf.num_hash,
          ))
      ∙ sym (append_nil ws) in
    let words : get_words (get_uint (take 8 bytes) / 64) (drop 16 bytes) ≡ bf.bits =
      ap (λ k. get_words k (drop 16 bytes)) (omega (arith, n, f.sized))
      ∙ ap (get_words (length bf.bits)) left
      ∙ get_words-put_words bf.bits [] f.words_fit in
    if_no (ltb (length bytes) 16) _ _ (ground (arith, size))
    ∙ if_no (get_uint (take 8 bytes) == 0 || get_uint (take 8 bytes) % 64 != 0) _ _
        (ground (arith, n, f.sized, f.some_bits))
    ∙ if_no (ltb (length bytes - 16) (get_uint (take 8 bytes) / 64 * 8)) _ _
        (ground (arith, n, size, f.sized))
    ∙ (λ i. ok (record { bits = words i; num_bits = n i; num_hash = hashes i }))
