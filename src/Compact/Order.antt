-- ===== src/Compact/Order.antt =====
-- internal/compact/compactor.go: the order of the heap.
use lsmdb.Base.{ℕ, ◌≤◌, ◌≡◌, sym, ap, ◌∙◌, List, true, false, arith, inl, inr, Bool-cases}
use lsmdb.Memtable.{Record, same_key, key_before}
use lsmdb.Memtable.Keys.{same_key-eq}
use lsmdb.Memtable.Order.{key_before_irrefl, key_before_total, key_before_trans}
use lsmdb.Compact.{less}

-- `r` does not come before `m`.
pub record IsAfter (m r : Record) : Type 0 where
  pub no_lower : key_before r.key m.key ≡ false
  pub no_newer : same_key r.key m.key ≡ true → r.seq_num ≤ m.seq_num

pub less-IsAfter : (r m : Record) → less r m ≡ false → IsAfter m r
unfolding less
less-IsAfter r m h = elim (Bool-cases (same_key r.key m.key)) [
  | inl same ↦ record {
    no_lower =
        ap (λ k. key_before k m.key) (same_key-eq r.key m.key same) ∙ key_before_irrefl m.key;
    no_newer = λ _. ground (arith, h, same);
  }
  | inr apart ↦ record {
    no_lower = ground (arith, h, apart);
    no_newer = λ same. absurd (ground (arith, same, apart));
  }
]

pub IsAfter-refl : (r : Record) → IsAfter r r
IsAfter-refl r = record { no_lower = key_before_irrefl r.key; no_newer = λ _. omega arith }

pub key_before-IsAfter : (r m : Record) → key_before r.key m.key ≡ true → IsAfter r m
key_before-IsAfter r m h = record {
  no_lower = elim (Bool-cases (key_before m.key r.key)) [
    | inr e ↦ e
    | inl e ↦
        absurd (ground (arith, key_before_irrefl m.key, key_before_trans m.key r.key m.key e h))
  ];
  no_newer = λ same. absurd (
      ground
        (arith, h, ap (key_before r.key) (same_key-eq m.key r.key same), key_before_irrefl r.key));
}

pub less-IsAfter_yes : (r m : Record) → less r m ≡ true → IsAfter r m
unfolding less
less-IsAfter_yes r m h = elim (Bool-cases (same_key r.key m.key)) [
  | inl same ↦ record {
    no_lower = ap (key_before m.key) (same_key-eq r.key m.key same) ∙ key_before_irrefl m.key;
    no_newer = λ _. ground (arith, h, same);
  }
  | inr apart ↦ key_before-IsAfter r m (ground (arith, h, apart))
]

pub same_key_between :
    (a b c : List ℕ)
    → key_before a b ≡ false
    → key_before b c ≡ false
    → same_key a c ≡ true
    → same_key a b ≡ true
same_key_between a b c ab bc same = elim (Bool-cases (same_key a b)) [
  | inl e ↦ e
  | inr e ↦ absurd (
      ground (arith, bc, ap (key_before b) (sym (same_key-eq a c same)), key_before_total a b e ab))
]

pub no_lower_trans :
    (a b c : List ℕ) → key_before a b ≡ false → key_before b c ≡ false → key_before a c ≡ false
no_lower_trans a b c ab bc = elim (Bool-cases (key_before a c)) [
  | inr e ↦ e
  | inl e ↦ elim (Bool-cases (same_key b c)) [
    | inl same ↦ absurd (ground (arith, ab, e, ap (key_before a) (same_key-eq b c same)))
    | inr apart ↦
        absurd (ground (arith, ab, key_before_trans a c b e (key_before_total b c apart bc)))
  ]
]

pub IsAfter-trans : (a b c : Record) → IsAfter b a → IsAfter c b → IsAfter c a
IsAfter-trans a b c ab bc = record {
  no_lower = no_lower_trans a.key b.key c.key ab.no_lower bc.no_lower;
  no_newer = λ same.
      let ab_same = same_key_between a.key b.key c.key ab.no_lower bc.no_lower same in
      omega (
        arith,
        ab.no_newer ab_same,
        bc.no_newer (ap (λ k. same_key k c.key) (sym (same_key-eq a.key b.key ab_same)) ∙ same),
      );
}
