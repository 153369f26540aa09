-- ===== src/Bloom/Words.antt =====
-- internal/bloom/bloom.go: bits of words, set and read.
use lsmdb.Base.{
  ℕ, zero, suc, ◌/◌, ◌%◌, ◌^◌, ◌<◌, ◌≡◌, refl, ap, ◌∙◌, List, [], ◌∷◌, true, ◌==◌, arith, length,
  All, if_split, ==_iff,
}
use lsmdb.Bloom.{set_bit, has_bit, set_in_word, has_in_word}

has_bit-set_bit : (k w : ℕ) → has_bit k (set_bit k w) ≡ true
unfolding has_bit set_bit
has_bit-set_bit zero w = ground arith
has_bit-set_bit (suc k) w = ap (has_bit k) (omega arith) ∙ has_bit-set_bit k (w / 2)

-- A bit that is set stays so.
has_bit-set_bit_keep : (j k w : ℕ) → has_bit j w ≡ true → has_bit j (set_bit k w) ≡ true
unfolding has_bit set_bit
has_bit-set_bit_keep zero zero w h = ground arith
has_bit-set_bit_keep zero (suc k) w h = ground arith
has_bit-set_bit_keep (suc j) zero w h = ap (has_bit j) (ground arith) ∙ h
has_bit-set_bit_keep (suc j) (suc k) w h =
    ap (has_bit j) (omega arith) ∙ has_bit-set_bit_keep j k (w / 2) h

set_bit_bound : (k n w : ℕ) → k < n → w < 2 ^ n → set_bit k w < 2 ^ n
unfolding set_bit
set_bit_bound zero zero w h b = absurd (omega arith)
set_bit_bound zero (suc n) w h b =
    if_split (λ x. x < 2 ^ suc n) (w % 2 == 0) _ _
      (λ even. omega (arith, (==_iff (w % 2) 0).0 even)) (λ _. b)
set_bit_bound (suc k) zero w h b = absurd (omega arith)
set_bit_bound (suc k) (suc n) w h b =
    omega (arith, set_bit_bound k n (w / 2) (omega arith) (omega arith))

pub has_in_word-set_in_word :
    (bits : List ℕ) (i k : ℕ) → i < length bits → has_in_word (set_in_word bits i k) i k ≡ true
unfolding has_in_word set_in_word
has_in_word-set_in_word [] i k h = absurd (omega arith)
has_in_word-set_in_word (w ∷ ws) zero k h = has_bit-set_bit k w
has_in_word-set_in_word (w ∷ ws) (suc i) k h = has_in_word-set_in_word ws i k (omega arith)

pub has_in_word-set_in_word_keep :
    (bits : List ℕ) (i k j l : ℕ)
    → has_in_word bits j l ≡ true
    → has_in_word (set_in_word bits i k) j l ≡ true
unfolding has_in_word set_in_word
has_in_word-set_in_word_keep [] i k j l h = h
has_in_word-set_in_word_keep (w ∷ ws) zero k zero l h = has_bit-set_bit_keep l k w h
has_in_word-set_in_word_keep (w ∷ ws) zero k (suc j) l h = h
has_in_word-set_in_word_keep (w ∷ ws) (suc i) k zero l h = h
has_in_word-set_in_word_keep (w ∷ ws) (suc i) k (suc j) l h =
    has_in_word-set_in_word_keep ws i k j l h

pub length-set_in_word : (bits : List ℕ) (i k : ℕ) → length (set_in_word bits i k) ≡ length bits
unfolding set_in_word
length-set_in_word [] i k = refl
length-set_in_word (w ∷ ws) zero k = refl
length-set_in_word (w ∷ ws) (suc i) k = omega (arith, length-set_in_word ws i k)

pub set_in_word_bound :
    (bits : List ℕ) (i k : ℕ)
    → k < 64
    → All (λ w. w < 2 ^ 64) bits
    → All (λ w. w < 2 ^ 64) (set_in_word bits i k)
unfolding set_in_word
set_in_word_bound [] i k h b = b
set_in_word_bound (w ∷ ws) zero k h b = (set_bit_bound k 64 w h b.0, b.1)
set_in_word_bound (w ∷ ws) (suc i) k h b = (b.0, set_in_word_bound ws i k h b.1)
