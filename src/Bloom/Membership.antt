-- ===== src/Bloom/Membership.antt =====
-- internal/bloom/bloom.go: the keys that a filter reports.
use lsmdb.Base.{
  ℕ, zero, suc, ◌+◌, ◌*◌, ◌/◌, ◌%◌, ◌<◌, ◌≡◌, refl, ◌∙◌, List, [], ◌∷◌, true, ◌^◌, arith, length,
  All, Bool-cases, inl, inr, max, add64, mul64, u64_mod,
}
use lsmdb.Bloom.{
  BloomFilter, zeros, new, set_in_word, has_in_word, set_positions, has_positions, position, add,
  may_contain, bloom_hashes,
}
use lsmdb.Bloom.Words.{
  has_in_word-set_in_word, has_in_word-set_in_word_keep, length-set_in_word, set_in_word_bound,
}

-- The filter has 64 bits to a word, and at least one word, and its numbers fit in 64 bits.
pub record IsFilter (bf : BloomFilter) : Type 0 where
  pub sized : bf.num_bits ≡ 64 * length bf.bits
  pub some_bits : 0 < bf.num_bits
  pub words_fit : All (λ w. w < 2 ^ 64) bf.bits
  pub num_bits_fit : bf.num_bits < 2 ^ 64
  pub num_hash_fit : bf.num_hash < 2 ^ 64

module _ (h : ℕ × ℕ) (num_bits : ℕ) where
  set_positions_keep :
      (rounds i : ℕ) (bits : List ℕ) (j l : ℕ)
      → has_in_word bits j l ≡ true
      → has_in_word (set_positions h num_bits rounds i bits) j l ≡ true
  unfolding set_positions
  set_positions_keep zero i bits j l e = e
  set_positions_keep (suc rounds) i bits j l e =
      let pos = position h num_bits i in
      set_positions_keep rounds (i + 1) (set_in_word bits (pos / 64) (pos % 64)) j l
        (has_in_word-set_in_word_keep bits (pos / 64) (pos % 64) j l e)

  length-set_positions :
      (rounds i : ℕ) (bits : List ℕ) → length (set_positions h num_bits rounds i bits) ≡ length bits
  unfolding set_positions
  length-set_positions zero i bits = refl
  length-set_positions (suc rounds) i bits =
      let pos = position h num_bits i in
      length-set_positions rounds (i + 1) (set_in_word bits (pos / 64) (pos % 64))
      ∙ length-set_in_word bits (pos / 64) (pos % 64)

  set_positions_bound :
      (rounds i : ℕ) (bits : List ℕ)
      → All (λ w. w < 2 ^ 64) bits
      → All (λ w. w < 2 ^ 64) (set_positions h num_bits rounds i bits)
  unfolding set_positions
  set_positions_bound zero i bits b = b
  set_positions_bound (suc rounds) i bits b =
      let pos = position h num_bits i in
      set_positions_bound rounds (i + 1) (set_in_word bits (pos / 64) (pos % 64))
        (set_in_word_bound bits (pos / 64) (pos % 64) (omega arith) b)

  has_positions_step :
      (rounds i : ℕ) (bits : List ℕ)
      → has_in_word bits (position h num_bits i / 64) (position h num_bits i % 64) ≡ true
      → has_positions h num_bits rounds (i + 1) bits ≡ true
      → has_positions h num_bits (suc rounds) i bits ≡ true
  unfolding has_positions
  has_positions_step rounds i bits e rest = ground (arith, e, rest)

  has_positions-set_positions :
      (rounds i : ℕ) (bits : List ℕ)
      → num_bits ≡ 64 * length bits
      → 0 < num_bits
      → has_positions h num_bits rounds i (set_positions h num_bits rounds i bits) ≡ true
  unfolding set_positions has_positions
  has_positions-set_positions zero i bits sized filled = refl
  has_positions-set_positions (suc rounds) i bits sized filled =
      let pos = position h num_bits i in
      let below : pos < num_bits = grind arith in
      let next = set_in_word bits (pos / 64) (pos % 64) in
      has_positions_step rounds i (set_positions h num_bits rounds (i + 1) next)
        (set_positions_keep rounds (i + 1) next (pos / 64) (pos % 64)
          (has_in_word-set_in_word bits (pos / 64) (pos % 64) (omega (arith, below, sized))))
        (has_positions-set_positions rounds (i + 1) next
          (omega (arith, sized, length-set_in_word bits (pos / 64) (pos % 64))) filled)

  -- More bits never take a key away.
  has_positions_keep :
      (rounds i : ℕ) (bits more : List ℕ)
      → ((j l : ℕ) → has_in_word bits j l ≡ true → has_in_word more j l ≡ true)
      → has_positions h num_bits rounds i bits ≡ true
      → has_positions h num_bits rounds i more ≡ true
  unfolding has_positions
  has_positions_keep zero i bits more grow e = refl
  has_positions_keep (suc rounds) i bits more grow e =
      let pos = position h num_bits i in
      elim (Bool-cases (has_in_word bits (pos / 64) (pos % 64))) [
        | inl here ↦
            has_positions_step rounds i more (grow (pos / 64) (pos % 64) here)
              (has_positions_keep rounds (i + 1) bits more grow (ground (arith, here, e)))
        | inr gone ↦ absurd (ground (arith, gone, e))
      ]

module _ (fnv : List ℕ → ℕ) where
  pub add-IsFilter : (bf : BloomFilter) (key : List ℕ) → IsFilter bf → IsFilter (add fnv bf key)
  unfolding add
  add-IsFilter bf key f =
      let h = bloom_hashes fnv key in
      record {
        sized = omega (arith, f.sized, length-set_positions h bf.num_bits bf.num_hash 0 bf.bits);
        some_bits = f.some_bits;
        words_fit = set_positions_bound h bf.num_bits bf.num_hash 0 bf.bits f.words_fit;
        num_bits_fit = f.num_bits_fit;
        num_hash_fit = f.num_hash_fit;
      }

  pub may_contain-add :
      (bf : BloomFilter) (key : List ℕ) → IsFilter bf → may_contain fnv (add fnv bf key) key ≡ true
  unfolding may_contain add
  may_contain-add bf key f =
      has_positions-set_positions (bloom_hashes fnv key) bf.num_bits bf.num_hash 0 bf.bits f.sized
        f.some_bits

  pub may_contain-add_keep :
      (bf : BloomFilter) (key other : List ℕ)
      → may_contain fnv bf key ≡ true
      → may_contain fnv (add fnv bf other) key ≡ true
  unfolding may_contain add
  may_contain-add_keep bf key other e =
      has_positions_keep (bloom_hashes fnv key) bf.num_bits bf.num_hash 0 bf.bits _
        (set_positions_keep (bloom_hashes fnv other) bf.num_bits bf.num_hash 0 bf.bits) e

  abbrev pub add_all : BloomFilter → List (List ℕ) → BloomFilter
  add_all bf [] = bf
  add_all bf (key ∷ keys) = add_all (add fnv bf key) keys

  pub add_all-IsFilter :
      (bf : BloomFilter) (keys : List (List ℕ)) → IsFilter bf → IsFilter (add_all bf keys)
  add_all-IsFilter bf [] f = f
  add_all-IsFilter bf (key ∷ keys) f =
      add_all-IsFilter (add fnv bf key) keys (add-IsFilter bf key f)

  pub may_contain-add_all_keep :
      (bf : BloomFilter) (keys : List (List ℕ)) (key : List ℕ)
      → may_contain fnv bf key ≡ true
      → may_contain fnv (add_all bf keys) key ≡ true
  may_contain-add_all_keep bf [] key e = e
  may_contain-add_all_keep bf (k ∷ keys) key e =
      may_contain-add_all_keep (add fnv bf k) keys key (may_contain-add_keep bf key k e)

  -- The filter reports every key that was added to it: it has no false negatives.
  pub may_contain-add_all :
      (bf : BloomFilter) (keys : List (List ℕ))
      → IsFilter bf
      → All (λ key. may_contain fnv (add_all bf keys) key ≡ true) keys
  may_contain-add_all bf [] f = tt
  may_contain-add_all bf (key ∷ keys) f = (
    may_contain-add_all_keep (add fnv bf key) keys key (may_contain-add bf key f),
    may_contain-add_all (add fnv bf key) keys (add-IsFilter bf key f),
  )

zeros_bound : (n : ℕ) → All (λ w. w < 2 ^ 64) (zeros n)
unfolding zeros
zeros_bound zero = tt
zeros_bound (suc n) = (omega arith, zeros_bound n)

length-zeros : (n : ℕ) → length (zeros n) ≡ n
unfolding zeros
length-zeros zero = refl
length-zeros (suc n) = omega (arith, length-zeros n)

-- A new filter is sound where the theory asks for at least one bit, and its size fits.
pub new-IsFilter :
    (sizes : ℕ → ℕ × ℕ) (expected : ℕ)
    → 0 < (sizes (max 1 expected)).0
    → (sizes (max 1 expected)).0 + 63 < u64_mod
    → IsFilter (new sizes expected)
unfolding new
new-IsFilter sizes expected some fits =
    let wanted = (sizes (max 1 expected)).0 in
    let m = mul64 (add64 wanted 63 / 64) 64 in
    record {
      sized = omega (arith, some, fits, length-zeros (m / 64));
      some_bits = omega (arith, some, fits);
      words_fit = zeros_bound (m / 64);
      num_bits_fit = omega arith;
      num_hash_fit = omega arith;
    }
