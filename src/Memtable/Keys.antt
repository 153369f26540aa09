-- ===== src/Memtable/Keys.antt =====
-- internal/memtable/memtable.go: keys, and records found after a write.
use lsmdb.Base.{
  ℕ, ◌≡◌, refl, sym, ap, ◌∙◌, List, [], ◌∷◌, some, true, false, if◌then◌else◌, arith, inl, inr,
  Bool-cases, if_no, if_both, All,
}
use lsmdb.Memtable.{Record, same_key, find, store_record}

pub same_key-eq : (a b : List ℕ) → same_key a b ≡ true → a ≡ b
unfolding same_key
same_key-eq [] [] h = refl
same_key-eq [] (b ∷ bs) h = cc
same_key-eq (a ∷ as') [] h = cc
same_key-eq (a ∷ as') (b ∷ bs) h = ground (arith, same_key-eq as' bs)

pub same_key_refl : (a : List ℕ) → same_key a a ≡ true
unfolding same_key
same_key_refl [] = refl
same_key_refl (a ∷ as') = ground (arith, same_key_refl as')

apart : (s r key : List ℕ) → same_key s r ≡ false → same_key s key ≡ true → same_key r key ≡ false
apart s r key e t = elim (Bool-cases (same_key r key)) [
  | inr f ↦ f
  | inl f ↦ absurd (
      ground (
        arith,
        e,
        same_key_refl s,
        ap (same_key s) (same_key-eq r key f ∙ sym (same_key-eq s key t)),
      ))
]

-- A write of a record changes what is found at its key only.
pub find-store_record :
    (key : List ℕ) (r : Record) (rs : List Record)
    → find key (store_record r rs) ≡ (if same_key r.key key then some r else find key rs)
unfolding find store_record
find-store_record key r [] = refl
find-store_record key r (s ∷ ss) = elim (Bool-cases (same_key s.key r.key)) [
  | inl e ↦
      let same = same_key-eq s.key r.key e in
      elim (Bool-cases (same_key r.key key)) [
        | inl t ↦ rw (e, t) refl
        | inr t ↦
            rw (e, t) (sym (if_no (same_key s.key key) _ _ (ap (λ k. same_key k key) same ∙ t)))
      ]
  | inr e ↦ elim (Bool-cases (same_key s.key key)) [
    | inl t ↦ rw (e, t) (sym (if_no (same_key r.key key) _ _ (apart s.key r.key key e t)))
    | inr t ↦ rw (e, t) (find-store_record key r ss)
  ]
]

pub find_same : (k l : List ℕ) (rs : List Record) → same_key k l ≡ true → find k rs ≡ find l rs
find_same k l rs e = ap (λ x. find x rs) (same_key-eq k l e)

pub All-store_record :
    (P : Record → Type 0) (r : Record) (rs : List Record)
    → P r
    → All P rs
    → All P (store_record r rs)
unfolding store_record
All-store_record P r [] p h = (p, tt)
All-store_record P r (s ∷ ss) p h =
    if_both (All P) (same_key s.key r.key) _ _ (p, h.1) (h.0, All-store_record P r ss p h.1)
