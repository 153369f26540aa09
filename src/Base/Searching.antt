-- ===== src/Base/Searching.antt =====
-- What `sort.Search` finds on a monotone test.
use Prim.Native.Nat.{ℕ, zero, suc, ◌+◌, ◌-◌, ◌/◌, ◌≤◌, ◌<◌}
use mathlib.Core.Path.{◌≡◌, ap, ◌∙◌}
use mathlib.Core.Bool.{Bool, true, false}
use mathlib.Core.Logic.{inl, inr}
use native.Mathlib.Omega.{arith}
use lsmdb.Base.Tests.{ltb, Bool-cases, if_split}
use lsmdb.Base.Sorting.{search_loop, sort_search}

-- The test fails below `r`, and holds from `r` up to `n`.
abbrev pub SplitsAt : ℕ → (ℕ → Bool) → ℕ → Type 0
SplitsAt n f r = ((k : ℕ) → k < r → f k ≡ false) × ((k : ℕ) → r ≤ k → k < n → f k ≡ true)

module _ (n : ℕ) (f : ℕ → Bool) (mono : (k l : ℕ) → k ≤ l → l < n → f k ≡ true → f l ≡ true) where
  falls : (k l : ℕ) → k ≤ l → l < n → f l ≡ false → f k ≡ false
  falls k l h lt e = elim (Bool-cases (f k)) [ inl t ↦ cc (mono k l h lt t) | inr t ↦ t ]

  search_loop_lem :
      (fuel i j : ℕ)
      → j ≤ i + fuel
      → i ≤ j
      → j ≤ n
      → ((k : ℕ) → k < i → f k ≡ false)
      → ((k : ℕ) → j ≤ k → k < n → f k ≡ true)
      → SplitsAt n f (search_loop fuel i j f) × (search_loop fuel i j f ≤ n)
  unfolding search_loop
  search_loop_lem zero i j m h hn below above =
      ((below, λ k p q. above k (omega arith) q), omega arith)
  search_loop_lem (suc fuel) i j m h hn below above = elim (Bool-cases (ltb i j)) [
    | inl lt ↦ elim (Bool-cases (f ((i + j) / 2))) [
      | inl e ↦
          rw (lt, e)
            (search_loop_lem fuel i ((i + j) / 2) (ground arith) (ground arith) (ground arith) below
              (λ k p q. mono ((i + j) / 2) k p q e))
      | inr e ↦
          rw (lt, e)
            (search_loop_lem fuel ((i + j) / 2 + 1) j (ground arith) (ground arith) hn
              (λ k p. falls k ((i + j) / 2) (omega arith) (ground arith) e) above)
    ]
    | inr ge ↦ rw ge ((below, λ k p q. above k (ground arith) q), ground arith)
  ]

  pub sort_search_lem : SplitsAt n f (sort_search n f) × (sort_search n f ≤ n)
  unfolding sort_search
  sort_search_lem =
      search_loop_lem n 0 n (omega arith) (omega arith) (omega arith) (λ k p. absurd (omega arith))
        (λ k p q. absurd (omega arith))

-- On any test, what is found comes after an index at which the test fails, or is 0.
module _ (n : ℕ) (f : ℕ → Bool) where
  abbrev FoundAfter : ℕ → Type 0
  FoundAfter r = (0 < r → f (r - 1) ≡ false) × (r ≤ n)

  search_loop-FoundAfter :
      (fuel i j : ℕ) → j ≤ n → FoundAfter i → FoundAfter (search_loop fuel i j f)
  unfolding search_loop
  search_loop-FoundAfter zero i j hn h = h
  search_loop-FoundAfter (suc fuel) i j hn h =
      let m = (i + j) / 2 in
      if_split FoundAfter (ltb i j) _ _
        (λ lt.
          if_split FoundAfter (f m) _ _
            (λ e. search_loop-FoundAfter fuel i m (ground (arith, lt, hn)) h)
            (λ e.
              search_loop-FoundAfter fuel (m + 1) j hn
                ((λ _. ap f {y = m} (omega arith) ∙ e), ground (arith, lt, hn))))
        (λ ge. h)

  pub sort_search-below :
      (0 < sort_search n f → f (sort_search n f - 1) ≡ false) × (sort_search n f ≤ n)
  unfolding sort_search
  sort_search-below =
      search_loop-FoundAfter n 0 n (omega arith) ((λ h. absurd (omega (arith, h))), omega arith)
