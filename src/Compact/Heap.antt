-- ===== src/Compact/Heap.antt =====
-- internal/compact/compactor.go: what a pop of the heap, and the push of the next record of its
-- source, leave to be merged.
use lsmdb.Base.{
  ℕ, zero, suc, ◌+◌, ◌≡◌, refl, sym, ap, subst, ◌∙◌, List, [], ◌∷◌, none, some, true, ◌⊎◌, inl, inr,
  arith, if_both, if_split, length, drop, drop_add, get_or, get_elem?, All, All-map,
}
use lsmdb.Memtable.{Record, key_before}
use lsmdb.Memtable.Order.{IsAscending}
use lsmdb.Compact.{Entry, less, pop_least, advance_cursor, push_at}
use lsmdb.Compact.Order.{
  IsAfter, less-IsAfter, less-IsAfter_yes, key_before-IsAfter, IsAfter-refl, IsAfter-trans,
}

pub pop_least_forth :
    (P : Entry → Type 0) (e : Entry) (es : List Entry)
    → All P (e ∷ es)
    → P (pop_least e es).0 × All P (pop_least e es).1
unfolding pop_least
pop_least_forth P e [] h = h
pop_least_forth P e (x ∷ xs) h =
    let (m, rest) = pop_least_forth P x xs h.1 in
    if_both (λ (p : Entry × List Entry). P p.0 × All P p.1) (less (pop_least x xs).0.rec e.rec) _ _
      (m, (h.0, rest)) h

pub pop_least_back :
    (P : Entry → Type 0) (e : Entry) (es : List Entry)
    → P (pop_least e es).0
    → All P (pop_least e es).1
    → All P (e ∷ es)
unfolding pop_least
pop_least_back P e [] m rest = (m, rest)
pop_least_back P e (x ∷ xs) m rest =
    if_both (λ (p : Entry × List Entry). P p.0 → All P p.1 → All P (e ∷ x ∷ xs))
      (less (pop_least x xs).0.rec e.rec) _ _ (λ m rest. (rest.0, pop_least_back P x xs m rest.1))
      (λ m rest. (m, rest)) m rest

pub pop_least-IsAfter :
    (e : Entry) (es : List Entry)
    → All (λ (x : Entry). IsAfter (pop_least e es).0.rec x.rec) (pop_least e es).1
unfolding pop_least
pop_least-IsAfter e [] = tt
pop_least-IsAfter e (x ∷ xs) =
    let m = (pop_least x xs).0 in
    let rest = (pop_least x xs).1 in
    let after = pop_least-IsAfter x xs in
    if_split (λ (p : Entry × List Entry). All (λ (y : Entry). IsAfter p.0.rec y.rec) p.1)
      (less m.rec e.rec) _ _ (λ yes. (less-IsAfter_yes m.rec e.rec yes, after))
      (λ no.
        let em = less-IsAfter m.rec e.rec no in
        pop_least_back (λ y. IsAfter e.rec y.rec) x xs em
          (All-map (λ (y : Entry). IsAfter m.rec y.rec) _ rest
            (λ y ym. IsAfter-trans y.rec m.rec e.rec ym em) after))

module _ (sources : List (List Record)) where
  -- The records of an entry's source from its record on.
  abbrev pub view : Entry → List Record
  view e = drop e.rec_idx (get_or sources e.src_idx [])

  pub record IsCursor (e : Entry) : Type 0 where
    pub tail : List Record
    pub at : view e ≡ e.rec ∷ tail
    pub ascending : IsAscending (e.rec ∷ tail)

  -- Every record that the heap still leads to.
  abbrev pub Pending : (Record → Type 0) → List Entry → Type 0
  Pending P h = All (λ e. All P (view e)) h

  abbrev pub pending_size : List Entry → ℕ
  pending_size [] = 0
  pending_size (e ∷ es) = length (view e) + pending_size es

pub get_elem?-drop :
    (n : ℕ) (xs : List Record)
    → ((get_elem? xs n ≡ none) × (drop n xs ≡ []))
      ⊎ ((x : Record) × (get_elem? xs n ≡ some x) × (drop n xs ≡ x ∷ drop (suc n) xs))
get_elem?-drop zero [] = inl (refl, refl)
get_elem?-drop (suc n) [] = inl (refl, refl)
get_elem?-drop zero (x ∷ xs) = inr (x, refl, refl)
get_elem?-drop (suc n) (x ∷ xs) = get_elem?-drop n xs

module _ (sources : List (List Record)) where
  -- A push of the record at a place of a source, if there is one, adds what stands there.
  pub record IsPushed (src_idx rec_idx : ℕ) (h pushed : List Entry) : Type 1 where
    pub cursors : All (IsCursor sources) h → All (IsCursor sources) pushed
    pub back :
        (P : Record → Type 0)
        → All P (drop rec_idx (get_or sources src_idx []))
        → Pending sources P h
        → Pending sources P pushed
    pub forth :
        (P : Record → Type 0)
        → Pending sources P pushed
        → All P (drop rec_idx (get_or sources src_idx [])) × Pending sources P h
    pub grown :
        pending_size sources pushed
        ≡ length (drop rec_idx (get_or sources src_idx [])) + pending_size sources h

  pub push_at-IsPushed :
      (src_idx rec_idx : ℕ) (h : List Entry)
      → IsAscending (drop rec_idx (get_or sources src_idx []))
      → IsPushed src_idx rec_idx h
          (push_at src_idx rec_idx (get_elem? (get_or sources src_idx []) rec_idx) h)
  push_at-IsPushed src_idx rec_idx h asc =
      elim (get_elem?-drop rec_idx (get_or sources src_idx [])) [
        | inl (gone, empty) ↦
            subst (λ o. IsPushed src_idx rec_idx h (push_at src_idx rec_idx o h)) (sym gone)
              (record {
                cursors = λ c. c;
                back = λ P t p. p;
                forth = λ P p. (subst (All P) (sym empty) tt, p);
                grown = omega (arith, ap (λ (x : List Record). length x) empty);
              })
        | inr (x, here, full) ↦
            subst (λ o. IsPushed src_idx rec_idx h (push_at src_idx rec_idx o h)) (sym here)
              (record {
                cursors = λ c.
                    (record { tail = _; at = full; ascending = subst IsAscending full asc }, c);
                back = λ P t p. (t, p);
                forth = λ P p. p;
                grown = refl;
              })
      ]

  -- A pop takes a record that no other comes before, and leaves the others.
  pub record IsPopped (h : List Entry) (m : Record) (left : List Entry) : Type 1 where
    pub cursors : All (IsCursor sources) left
    pub back : (P : Record → Type 0) → P m → Pending sources P left → Pending sources P h
    pub forth : (P : Record → Type 0) → Pending sources P h → P m × Pending sources P left
    pub least : Pending sources (IsAfter m) h
    pub shrunk : pending_size sources h ≡ suc (pending_size sources left)

  tail_at :
      (e : Entry) (c : IsCursor sources e)
      → drop (e.rec_idx + 1) (get_or sources e.src_idx []) ≡ c.tail
  tail_at e c = drop_add e.rec_idx 1 (get_or sources e.src_idx []) ∙ ap (λ xs. drop 1 xs) c.at

  -- Every record that an entry leads to comes after the entry's.
  view-IsAfter : (e : Entry) → IsCursor sources e → All (IsAfter e.rec) (view sources e)
  view-IsAfter e c = subst (All (IsAfter e.rec)) (sym c.at) (
    IsAfter-refl e.rec,
    All-map (λ (r : Record). key_before e.rec.key r.key ≡ true) (IsAfter e.rec) c.tail
        (λ r above. key_before-IsAfter e.rec r above) c.ascending.0,
  )

  Pending-IsAfter :
      (m : Record) (rest : List Entry)
      → All (λ (x : Entry). IsAfter m x.rec) rest
      → All (IsCursor sources) rest
      → Pending sources (IsAfter m) rest
  Pending-IsAfter m [] after cs = tt
  Pending-IsAfter m (x ∷ xs) after cs = (
    All-map (IsAfter x.rec) (IsAfter m) (view sources x)
        (λ r xr. IsAfter-trans r x.rec m xr after.0) (view-IsAfter x cs.0),
    Pending-IsAfter m xs after.1 cs.1,
  )

  size_pop_least :
      (e : Entry) (es : List Entry)
      → pending_size sources (e ∷ es)
        ≡ pending_size sources ((pop_least e es).0 ∷ (pop_least e es).1)
  unfolding pop_least
  size_pop_least e [] = refl
  size_pop_least e (x ∷ xs) =
      if_both
        (λ (p : Entry × List Entry).
          pending_size sources (e ∷ x ∷ xs) ≡ pending_size sources (p.0 ∷ p.1))
        (less (pop_least x xs).0.rec e.rec) _ _ (omega (arith, size_pop_least x xs)) refl

  pub advance_cursor-IsPopped :
      (e : Entry) (es : List Entry)
      → All (IsCursor sources) (e ∷ es)
      → let (m, rest) = pop_least e es in
        IsPopped (e ∷ es) m.rec (advance_cursor rest sources m.src_idx m.rec_idx)
  unfolding advance_cursor
  advance_cursor-IsPopped e es cs =
      let m = (pop_least e es).0 in
      let rest = (pop_least e es).1 in
      let (c, cs_rest) = pop_least_forth (IsCursor sources) e es cs in
      let src = get_or sources m.src_idx [] in
      let next = tail_at m c in
      let pushed =
        push_at-IsPushed m.src_idx (m.rec_idx + 1) rest
          (subst IsAscending (sym next) c.ascending.1) in
      record {
        cursors = pushed.cursors cs_rest;
        back = λ P pm left.
            let (t, r) = pushed.forth P left in
            pop_least_back (λ x. All P (view sources x)) e es
              (subst (All P) (sym c.at) (pm, subst (All P) next t)) r;
        forth = λ P all.
            let (v, r) = pop_least_forth (λ x. All P (view sources x)) e es all in
            let (pm, t) = subst (All P) c.at v in
            (pm, pushed.back P (subst (All P) (sym next) t) r);
        least =
            pop_least_back (λ x. All (IsAfter m.rec) (view sources x)) e es (view-IsAfter m c)
              (Pending-IsAfter m.rec rest (pop_least-IsAfter e es) cs_rest);
        shrunk = omega (
          arith,
          size_pop_least e es,
          pushed.grown,
          ap (λ (x : List Record). length x) next,
          ap (λ (x : List Record). length x) c.at,
        );
      }
