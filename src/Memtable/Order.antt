-- ===== src/Memtable/Order.antt =====
-- internal/memtable/memtable.go: the order of keys, and records in the order of their keys.
use lsmdb.Base.{
  ℕ, ◌≡◌, refl, sym, ap, ◌∙◌, List, [], ◌∷◌, ◌++◌, none, true, false, arith, inl, inr, Bool-cases,
  if_no, All, All_middle,
}
use lsmdb.Memtable.{Record, same_key, key_before, find}
use lsmdb.Memtable.Keys.{same_key-eq, same_key_refl}

pub key_before_irrefl : (a : List ℕ) → key_before a a ≡ false
unfolding key_before
key_before_irrefl [] = refl
key_before_irrefl (a ∷ as') = ground (arith, key_before_irrefl as')

pub key_before_trans :
    (a b c : List ℕ) → key_before a b ≡ true → key_before b c ≡ true → key_before a c ≡ true
unfolding key_before
key_before_trans [] [] c h k = cc
key_before_trans [] (b ∷ bs) [] h k = cc
key_before_trans [] (b ∷ bs) (c ∷ cs) h k = refl
key_before_trans (a ∷ as') [] c h k = cc
key_before_trans (a ∷ as') (b ∷ bs) [] h k = cc
key_before_trans (a ∷ as') (b ∷ bs) (c ∷ cs) h k = ground (arith, key_before_trans as' bs cs)

pub key_before_total :
    (a b : List ℕ) → same_key a b ≡ false → key_before a b ≡ false → key_before b a ≡ true
unfolding key_before same_key
key_before_total [] [] h k = absurd (ground (arith, h))
key_before_total [] (b ∷ bs) h k = absurd (ground (arith, k))
key_before_total (a ∷ as') [] h k = refl
key_before_total (a ∷ as') (b ∷ bs) h k = ground (arith, key_before_total as' bs)

pub key_before-same_key : (a b : List ℕ) → key_before a b ≡ true → same_key a b ≡ false
key_before-same_key a b h = elim (Bool-cases (same_key a b)) [
  | inr e ↦ e
  | inl e ↦
      absurd (ground (arith, h, ap (key_before a) (sym (same_key-eq a b e)), key_before_irrefl a))
]

pub same_key_sym : (a b : List ℕ) → same_key a b ≡ false → same_key b a ≡ false
same_key_sym a b h = elim (Bool-cases (same_key b a)) [
  | inr e ↦ e
  | inl e ↦
      absurd (ground (arith, h, ap (λ k. same_key k b) (sym (same_key-eq b a e)), same_key_refl b))
]

-- The records are in the order of their keys, and no two have one key.
abbrev pub IsAscending : List Record → Type 0
IsAscending [] = Unit {0}
IsAscending (r ∷ rs) = All (λ (s : Record). key_before r.key s.key ≡ true) rs × IsAscending rs

pub find_absent :
    (key : List ℕ) (rs : List Record)
    → All (λ (r : Record). same_key r.key key ≡ false) rs
    → find key rs ≡ none
unfolding find
find_absent key [] h = refl
find_absent key (r ∷ rs) h = if_no (same_key r.key key) _ _ h.0 ∙ find_absent key rs h.1

pub find_above :
    (key : List ℕ) (rs : List Record)
    → All (λ (r : Record). key_before key r.key ≡ true) rs
    → find key rs ≡ none
unfolding find
find_above key [] h = refl
find_above key (r ∷ rs) h =
    if_no (same_key r.key key) _ _ (same_key_sym key r.key (key_before-same_key key r.key h.0))
    ∙ find_above key rs h.1

pub All_above :
    (key low : List ℕ) (rs : List Record)
    → key_before key low ≡ true
    → All (λ (r : Record). key_before low r.key ≡ true) rs
    → All (λ (r : Record). key_before key r.key ≡ true) rs
All_above key low [] h k = tt
All_above key low (r ∷ rs) h k = (key_before_trans key low r.key h k.0, All_above key low rs h k.1)

-- What is found in ascending records is found from any record that is not above the key.
pub find-append :
    (key : List ℕ) (front : List Record) (s : Record) (tail : List Record)
    → IsAscending (front ++ s ∷ tail)
    → key_before key s.key ≡ false
    → find key (front ++ s ∷ tail) ≡ find key (s ∷ tail)
unfolding find
find-append key [] s tail asc h = refl
find-append key (r ∷ front) s tail asc h =
    if_no (same_key r.key key) _ _ (elim (Bool-cases (same_key r.key key)) [
      | inr e ↦ e
      | inl e ↦ absurd (
          ground (
            arith,
            h,
            ap (λ k. key_before k s.key) (sym (same_key-eq r.key key e)),
            All_middle (λ (s : Record). key_before r.key s.key ≡ true) front s tail asc.0,
          ))
    ])
    ∙ find-append key front s tail asc.1 h

pub IsAscending_suffix : (front rest : List Record) → IsAscending (front ++ rest) → IsAscending rest
IsAscending_suffix [] rest asc = asc
IsAscending_suffix (r ∷ front) rest asc = IsAscending_suffix front rest asc.1
