-- ===== src/Raft/Membership/Voters.antt =====
-- internal/raft/membership.go: voter sets in order.

use lsmdb.Base.{
  ℕ, ◌≤◌, ◌<◌, ◌≡◌, sym, subst, List, [], ◌∷◌, Option, none, some, false, ◌==◌, ltb, Perm, arith,
  All, ok, sort_slice, insert_sorted, sort_slice-perm,
}
use lsmdb.Raft.Membership.{normalize_voters, check_voters}

-- Strictly rising.
abbrev pub IsAscending : List ℕ → Type 0
IsAscending [] = Unit {0}
IsAscending (x ∷ xs) = All (λ y. x < y) xs × IsAscending xs

abbrev pub IsSorted : List ℕ → Type 0
IsSorted [] = Unit {0}
IsSorted (x ∷ xs) = All (λ y. x ≤ y) xs × IsSorted xs

All-le : (a b : ℕ) (xs : List ℕ) → a ≤ b → All (λ y. b ≤ y) xs → All (λ y. a ≤ y) xs
All-le a b [] h p = tt
All-le a b (x ∷ xs) h p = (omega arith, All-le a b xs h p.1)

insert_sorted-All :
    (b a : ℕ) (xs : List ℕ)
    → b ≤ a
    → All (λ y. b ≤ y) xs
    → All (λ y. b ≤ y) (insert_sorted ltb a xs)
unfolding insert_sorted
insert_sorted-All b a [] h p = (h, tt)
insert_sorted-All b a (x ∷ xs) h p = ground (arith, insert_sorted-All b a xs)

insert_sorted-IsSorted : (a : ℕ) (xs : List ℕ) → IsSorted xs → IsSorted (insert_sorted ltb a xs)
unfolding insert_sorted
insert_sorted-IsSorted a [] h = (tt, tt)
insert_sorted-IsSorted a (x ∷ xs) h =
    ground (arith, insert_sorted-IsSorted a xs, insert_sorted-All x a xs, All-le a x xs)

pub sort_slice-IsSorted : (xs : List ℕ) → IsSorted (sort_slice ltb xs)
unfolding sort_slice
sort_slice-IsSorted [] = tt
sort_slice-IsSorted (x ∷ xs) = insert_sorted-IsSorted x (sort_slice ltb xs) (sort_slice-IsSorted xs)

pub All-lt : (a b : ℕ) (xs : List ℕ) → a ≤ b → All (λ y. b < y) xs → All (λ y. a < y) xs
All-lt a b [] h p = tt
All-lt a b (x ∷ xs) h p = (omega arith, All-lt a b xs h p.1)

check_voters-rest :
    (p : Option ℕ) (x : ℕ) (xs : List ℕ)
    → check_voters p (x ∷ xs) ≡ none
    → (check_voters (some x) xs ≡ none) × (0 < x)
unfolding check_voters
check_voters-rest p x xs h = ground arith

check_voters-ne : (x y : ℕ) (ys : List ℕ) → check_voters (some x) (y ∷ ys) ≡ none → (x == y) ≡ false
unfolding check_voters
check_voters-ne x y ys h = ground arith

check_voters-below :
    (x : ℕ) (xs : List ℕ)
    → All (λ y. x ≤ y) xs
    → IsAscending xs
    → check_voters (some x) xs ≡ none
    → All (λ y. x < y) xs
check_voters-below x [] s r h = tt
check_voters-below x (y ∷ ys) s r h =
    let ne = check_voters-ne x y ys h in
    let lt : x < y = ground arith in (lt, All-lt x y ys (omega arith) r.0)

-- The loop's checks on a sorted list leave it strictly rising and positive.
check_voters-IsAscending :
    (p : Option ℕ) (xs : List ℕ)
    → IsSorted xs
    → check_voters p xs ≡ none
    → IsAscending xs × All (λ v. 0 < v) xs
check_voters-IsAscending p [] s h = (tt, tt)
check_voters-IsAscending p (x ∷ xs) s h =
    let (e, pos) = check_voters-rest p x xs h in
    let (rises, positive) = check_voters-IsAscending (some x) xs s.1 e in
    ((check_voters-below x xs s.0 rises e, rises), (pos, positive))

pub normalize_voters-check :
    (voters result : List ℕ)
    → normalize_voters voters ≡ ok result
    → (check_voters none result ≡ none) × (result ≡ sort_slice ltb voters)
unfolding normalize_voters
normalize_voters-check [] result h = cc
normalize_voters-check (v ∷ vs) result h = ground arith

-- A voter set that is accepted comes back in strictly rising order, with no 0, and with the same
-- members.
pub normalize_voters-IsAscending :
    (voters result : List ℕ)
    → normalize_voters voters ≡ ok result
    → IsAscending result × All (λ v. 0 < v) result × Perm result voters
normalize_voters-IsAscending voters result h =
    let (e, same) = normalize_voters-check voters result h in
    let sorted : IsSorted result = subst IsSorted (sym same) (sort_slice-IsSorted voters) in
    let (rises, positive) = check_voters-IsAscending none result sorted e in
    (rises, positive, subst (λ r. Perm r voters) (sym same) (sort_slice-perm ltb voters))
