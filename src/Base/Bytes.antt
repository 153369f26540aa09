-- ===== src/Base/Bytes.antt =====
-- Go's encoding/binary, big endian, and lists that stand after one another.
use Prim.Native.Nat.{ℕ, zero, suc, ◌+◌, ◌-◌, ◌*◌, ◌/◌, ◌%◌, ◌^◌, ◌≤◌, ◌<◌}
use mathlib.Core.Path.{◌≡◌, refl, ap, ◌∙◌}
use mathlib.Core.Bool.{true, false}
use mathlib.Core.List.{List, [], ◌∷◌, ◌++◌}
use native.Mathlib.Omega.{arith}
use lsmdb.Base.Lists.{length, length-append, take, drop, is_empty}

-- binary.BigEndian.PutUint32 and PutUint64, of `width` bytes.
unfoldable pub put_uint : ℕ → ℕ → List ℕ
put_uint zero v = []
put_uint (suc width) v = put_uint width (v / 256) ++ v % 256 ∷ []

unfoldable pub uint_from : ℕ → List ℕ → ℕ
uint_from high [] = high
uint_from high (b ∷ bytes) = uint_from (high * 256 + b) bytes

-- binary.BigEndian.Uint32 and Uint64.
unfoldable pub get_uint : List ℕ → ℕ
unfolding uint_from
get_uint bytes = uint_from 0 bytes

pub length-put_uint : (width v : ℕ) → length (put_uint width v) ≡ width
unfolding put_uint
length-put_uint zero v = refl
length-put_uint (suc width) v = omega (
  arith,
  length-append (put_uint width (v / 256)) (v % 256 ∷ []),
  length-put_uint width (v / 256),
)

uint_from-append :
    (high : ℕ) (xs : List ℕ) (b : ℕ) → uint_from high (xs ++ b ∷ []) ≡ uint_from high xs * 256 + b
unfolding uint_from
uint_from-append high [] b = refl
uint_from-append high (x ∷ xs) b = uint_from-append (high * 256 + x) xs b

pub get_uint-put_uint : (width v : ℕ) → v < 256 ^ width → get_uint (put_uint width v) ≡ v
unfolding put_uint get_uint uint_from
get_uint-put_uint zero v small = omega (arith, small)
get_uint-put_uint (suc width) v small =
    let below : v / 256 < 256 ^ width = omega (arith, small) in
    let rest : uint_from 0 (put_uint width (v / 256)) ≡ v / 256 =
      get_uint-put_uint width (v / 256) below in
    omega (arith, rest, uint_from-append 0 (put_uint width (v / 256)) (v % 256))

pub take-append : {A : Type 0} (n : ℕ) (xs ys : List A) → length xs ≡ n → take n (xs ++ ys) ≡ xs
take-append zero [] ys e = refl
take-append zero (x ∷ xs) ys e = absurd (omega (arith, e))
take-append (suc n) [] ys e = absurd (omega (arith, e))
take-append (suc n) (x ∷ xs) ys e = ap (λ r. x ∷ r) (take-append n xs ys (omega (arith, e)))

pub take_all : {A : Type 0} (n : ℕ) (xs : List A) → length xs ≡ n → take n xs ≡ xs
take_all zero [] e = refl
take_all zero (x ∷ xs) e = absurd (omega (arith, e))
take_all (suc n) [] e = refl
take_all (suc n) (x ∷ xs) e = ap (λ r. x ∷ r) (take_all n xs (omega (arith, e)))

pub drop-append : {A : Type 0} (n : ℕ) (xs ys : List A) → length xs ≡ n → drop n (xs ++ ys) ≡ ys
drop-append zero [] ys e = refl
drop-append zero (x ∷ xs) ys e = absurd (omega (arith, e))
drop-append (suc n) [] ys e = absurd (omega (arith, e))
drop-append (suc n) (x ∷ xs) ys e = drop-append n xs ys (omega (arith, e))

pub drop_add : {A : Type 0} (n m : ℕ) (xs : List A) → drop (n + m) xs ≡ drop m (drop n xs)
drop_add zero m xs = ap (λ k. drop k xs) {y = m} (omega arith)
drop_add (suc n) zero [] = ap (λ k. drop k []) {y = suc n} (omega arith)
drop_add (suc n) (suc m) [] = ap (λ k. drop k []) {y = suc (n + suc m)} (omega arith)
drop_add (suc n) m (x ∷ xs) =
    ap (λ k. drop k (x ∷ xs)) {y = suc (n + m)} (omega arith) ∙ drop_add n m xs

pub is_empty_filled : {A : Type 0} (xs : List A) → 0 < length xs → is_empty xs ≡ false
is_empty_filled [] h = absurd (omega (arith, h))
is_empty_filled (x ∷ xs) h = refl

pub append_assoc : {A : Type 0} (xs ys zs : List A) → (xs ++ ys) ++ zs ≡ xs ++ (ys ++ zs)
append_assoc [] ys zs = refl
append_assoc (x ∷ xs) ys zs = ap (λ r. x ∷ r) (append_assoc xs ys zs)

pub append_nil : {A : Type 0} (xs : List A) → xs ++ [] ≡ xs
append_nil [] = refl
append_nil (x ∷ xs) = ap (λ r. x ∷ r) (append_nil xs)

pub take_whole : {A : Type 0} (xs : List A) → take (length xs) xs ≡ xs
take_whole xs = take_all (length xs) xs refl

pub drop_all : {A : Type 0} (n : ℕ) (xs : List A) → length xs ≤ n → drop n xs ≡ []
drop_all zero [] h = refl
drop_all zero (x ∷ xs) h = absurd (omega (arith, h))
drop_all (suc n) [] h = refl
drop_all (suc n) (x ∷ xs) h = drop_all n xs (omega (arith, h))

pub take_over :
    {A : Type 0} (k : ℕ) (xs ys : List A)
    → length xs ≤ k
    → take k (xs ++ ys) ≡ xs ++ take (k - length xs) ys
take_over k [] ys h = ap (λ n. take n ys) (omega arith)
take_over zero (x ∷ xs) ys h = absurd (omega (arith, h))
take_over (suc k) (x ∷ xs) ys h =
    ap (λ r. x ∷ r) (take_over k xs ys (omega (arith, h)) ∙ ap (λ n. xs ++ take n ys) (omega arith))

pub empty_length : (xs : List ℕ) → is_empty xs ≡ true → length xs ≡ 0
empty_length [] e = refl
empty_length (x ∷ xs) e = absurd (ground (arith, e))

pub filled_length : (xs : List ℕ) → is_empty xs ≡ false → 0 < length xs
filled_length [] e = absurd (ground (arith, e))
filled_length (x ∷ xs) e = omega arith
