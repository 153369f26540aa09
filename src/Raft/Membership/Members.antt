-- ===== src/Raft/Membership/Members.antt =====
-- internal/raft/membership.go: the members of voter sets, by binary search and of a union.
use lsmdb.Base.{
  ℕ, zero, suc, ◌≤◌, ◌<◌, ◌≡◌, refl, sym, ◌∙◌, inl, inr, List, [], ◌∷◌, true, false, ◌&&◌, ◌||◌,
  ◌==◌, leb, ltb, arith, length, get_or, All, Bool-cases, sort_search, sort_search_lem, sort_slice,
  insert_sorted, SplitsAt,
}
use lsmdb.Raft.Types.{Membership, contains}
use lsmdb.Raft.Membership.{contains_voter, union_voters, add_voters}
use lsmdb.Raft.Membership.Voters.{IsAscending, All-lt}

-- What `get_or` reads in a rising list rises.
get_or-All : (P : ℕ → Type 0) (xs : List ℕ) (i : ℕ) → All P xs → i < length xs → P (get_or xs i 0)
get_or-All P [] i h lt = absurd (omega arith)
get_or-All P (x ∷ xs) zero h lt = h.0
get_or-All P (x ∷ xs) (suc i) h lt = get_or-All P xs i h.1 (omega arith)

get_or_rises :
    (xs : List ℕ) (i j : ℕ) → IsAscending xs → i ≤ j → j < length xs → get_or xs i 0 ≤ get_or xs j 0
get_or_rises [] i j h p q = absurd (omega arith)
get_or_rises (x ∷ xs) zero zero h p q = omega arith
get_or_rises (x ∷ xs) zero (suc j) h p q =
    omega (arith, get_or-All (λ y. x < y) xs j h.0 (omega arith))
get_or_rises (x ∷ xs) (suc i) zero h p q = absurd (omega arith)
get_or_rises (x ∷ xs) (suc i) (suc j) h p q = get_or_rises xs i j h.1 (omega arith) (omega arith)

contains_at : (xs : List ℕ) (i id : ℕ) → i < length xs → get_or xs i 0 ≡ id → contains xs id ≡ true
unfolding contains
contains_at [] i id h e = absurd (omega arith)
contains_at (x ∷ xs) zero id h e = ground arith
contains_at (x ∷ xs) (suc i) id h e = ground (arith, contains_at xs i id (omega arith) e)

contains_place :
    (xs : List ℕ) (id : ℕ)
    → contains xs id ≡ true
    → (i : ℕ) × (i < length xs) × (get_or xs i 0 ≡ id)
unfolding contains
contains_place [] id h = absurd (cc)
contains_place (x ∷ xs) id h = elim (Bool-cases (x == id)) [
  | inl e ↦ (0, omega arith, ground arith)
  | inr e ↦ let (i, lt, same) = contains_place xs id (ground arith) in (suc i, omega arith, same)
]

module _ (xs : List ℕ) (id : ℕ) (rises : IsAscending xs) where
  at_or_above_mono :
      (k l : ℕ)
      → k ≤ l
      → l < length xs
      → leb id (get_or xs k 0) ≡ true
      → leb id (get_or xs l 0) ≡ true
  at_or_above_mono k l p q h = ground (arith, get_or_rises xs k l rises p q)

  missed :
      (r : ℕ)
      → SplitsAt (length xs) (λ k. leb id (get_or xs k 0)) r
      → ltb r (length xs) && get_or xs r 0 == id ≡ false
      → contains xs id ≡ false
  missed r splits h = elim (Bool-cases (contains xs id)) [
    | inr e ↦ e
    | inl e ↦
        let (i, lt, same) = contains_place xs id e in
        elim (Bool-cases (ltb i r)) [
          | inl low ↦ absurd (ground (arith, splits.0 i))
          | inr high ↦ absurd (ground (arith, splits.1 r, get_or_rises xs r i rises))
        ]
  ]

  -- The binary search finds the members of a rising list, and nothing else.
  pub contains_voter-contains : contains_voter xs id ≡ contains xs id
  unfolding contains_voter
  contains_voter-contains =
      let r = sort_search (length xs) (λ k. leb id (get_or xs k 0)) in
      let (splits, within) =
        sort_search_lem (length xs) (λ k. leb id (get_or xs k 0)) at_or_above_mono in
      elim (Bool-cases (ltb r (length xs) && get_or xs r 0 == id)) [
        | inl e ↦ rw e (sym (contains_at xs r id (ground arith) (ground arith)))
        | inr e ↦ rw e (sym (missed r splits e))
      ]

-- No element twice.
abbrev AllDistinct : List ℕ → Type 0
AllDistinct [] = Unit {0}
AllDistinct (x ∷ xs) = (contains xs x ≡ false) × AllDistinct xs

contains-insert_sorted :
    (a id : ℕ) (xs : List ℕ) → contains (insert_sorted ltb a xs) id ≡ (a == id || contains xs id)
unfolding contains insert_sorted
contains-insert_sorted a id [] = refl
contains-insert_sorted a id (x ∷ xs) = ground (arith, contains-insert_sorted a id xs)

contains-sort_slice : (id : ℕ) (xs : List ℕ) → contains (sort_slice ltb xs) id ≡ contains xs id
unfolding contains sort_slice
contains-sort_slice id [] = refl
contains-sort_slice id (x ∷ xs) =
    ground (arith, contains-insert_sorted x id (sort_slice ltb xs), contains-sort_slice id xs)

insert_sorted-All-lt :
    (b a : ℕ) (xs : List ℕ)
    → b < a
    → All (λ y. b < y) xs
    → All (λ y. b < y) (insert_sorted ltb a xs)
unfolding insert_sorted
insert_sorted-All-lt b a [] h p = (h, tt)
insert_sorted-All-lt b a (x ∷ xs) h p = ground (arith, insert_sorted-All-lt b a xs)

insert_sorted-IsAscending :
    (a : ℕ) (xs : List ℕ)
    → contains xs a ≡ false
    → IsAscending xs
    → IsAscending (insert_sorted ltb a xs)
unfolding insert_sorted contains
insert_sorted-IsAscending a [] h r = (tt, tt)
insert_sorted-IsAscending a (x ∷ xs) h r =
    ground (arith, insert_sorted-IsAscending a xs, insert_sorted-All-lt x a xs, All-lt a x xs)

sort_slice-IsAscending : (xs : List ℕ) → AllDistinct xs → IsAscending (sort_slice ltb xs)
unfolding sort_slice
sort_slice-IsAscending [] d = tt
sort_slice-IsAscending (x ∷ xs) d =
    insert_sorted-IsAscending x (sort_slice ltb xs) (rw (contains-sort_slice x xs) d.0)
      (sort_slice-IsAscending xs d.1)

add_voters-AllDistinct : (xs set : List ℕ) → AllDistinct set → AllDistinct (add_voters xs set)
unfolding add_voters
add_voters-AllDistinct [] set d = d
add_voters-AllDistinct (x ∷ xs) set d = elim (Bool-cases (contains set x)) [
  | inl e ↦ rw e (add_voters-AllDistinct xs set d)
  | inr e ↦ rw e (add_voters-AllDistinct xs (x ∷ set) (e, d))
]

contains-add_voters :
    (id : ℕ) (xs set : List ℕ)
    → contains (add_voters xs set) id ≡ (contains xs id || contains set id)
unfolding add_voters contains
contains-add_voters id [] set = refl
contains-add_voters id (x ∷ xs) set = elim (Bool-cases (contains set x)) [
  | inl e ↦ rw e (ground (arith, contains-add_voters id xs set))
  | inr e ↦ rw e (ground (arith, contains-add_voters id xs (x ∷ set)))
]

-- The union of the two voter sets rises strictly, and has the members of both.
pub union_voters_lem :
    (m : Membership) (id : ℕ)
    → IsAscending (union_voters m)
      × (contains (union_voters m) id ≡ (contains m.voters id || contains m.joint_voters id))
unfolding union_voters contains
union_voters_lem m id = (
  sort_slice-IsAscending (add_voters m.joint_voters (add_voters m.voters [])) (
      add_voters-AllDistinct m.joint_voters (add_voters m.voters [])
        (add_voters-AllDistinct m.voters [] tt)),
  ground (
    arith,
    contains-sort_slice id (add_voters m.joint_voters (add_voters m.voters [])),
    contains-add_voters id m.joint_voters (add_voters m.voters []),
    contains-add_voters id m.voters [],
  ),
)

-- A node counts as a voter exactly if one of the two voter sets of its configuration names it.
pub union_voters_search :
    (m : Membership) (id : ℕ)
    → contains_voter (union_voters m) id ≡ (contains m.voters id || contains m.joint_voters id)
union_voters_search m id =
    let (rises, members) = union_voters_lem m id in
    contains_voter-contains (union_voters m) id rises ∙ members
