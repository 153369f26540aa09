-- ===== src/Compact/Merge.antt =====
-- internal/compact/compactor.go: the winners of the merge.
use lsmdb.Base.{
  ℕ, zero, suc, ◌+◌, ◌≤◌, ◌<◌, ◌≡◌, refl, sym, ap, subst, ◌∙◌, List, [], ◌∷◌, ◌++◌, some, true, inl,
  inr, arith, Bool-cases, if_no, if_yes, if_split, length, length-append, get_or, get_elem?, All,
  All-map, All-zip, get_or_middle, append_assoc,
}
use lsmdb.Memtable.{Record, same_key, key_before, find}
use lsmdb.Memtable.Keys.{same_key-eq, same_key_refl}
use lsmdb.Memtable.Order.{IsAscending, key_before_total, key_before_trans, key_before-same_key}
use lsmdb.Compact.{Entry, pop_least, advance_cursor, push_at, drain, seed, total_in}
use lsmdb.Compact.Order.{IsAfter}
use lsmdb.Compact.Heap.{
  view, IsCursor, Pending, pending_size, advance_cursor-IsPopped, push_at-IsPushed,
}

above_IsAfter :
    (low m r : Record)
    → key_before low.key m.key ≡ true
    → IsAfter m r
    → key_before low.key r.key ≡ true
above_IsAfter low m r h after = elim (Bool-cases (same_key r.key m.key)) [
  | inl e ↦ ap (key_before low.key) (same_key-eq r.key m.key e) ∙ h
  | inr e ↦ key_before_trans low.key m.key r.key h (key_before_total r.key m.key e after.no_lower)
]

-- One of the records is the newest of its key.
pub record IsCovered (ws : List Record) (r : Record) : Type 0 where
  pub winner : Record
  pub found : find r.key ws ≡ some winner
  pub no_newer : r.seq_num ≤ winner.seq_num

find_head :
    (top r : Record) (ws : List Record)
    → same_key r.key top.key ≡ true
    → r.seq_num ≤ top.seq_num
    → IsCovered (top ∷ ws) r
unfolding find
find_head top r ws same le = record {
  winner = top;
  found =
      if_yes (same_key top.key r.key) _ _
        (ap (same_key top.key) (same_key-eq r.key top.key same) ∙ same_key_refl top.key);
  no_newer = le;
}

find_tail :
    (top r : Record) (ws : List Record)
    → key_before top.key r.key ≡ true
    → IsCovered ws r
    → IsCovered (top ∷ ws) r
unfolding find
find_tail top r ws above c = record {
  winner = c.winner;
  found = if_no (same_key top.key r.key) _ _ (key_before-same_key top.key r.key above) ∙ c.found;
  no_newer = c.no_newer;
}

module _ (sources : List (List Record)) where
  Pending-map :
      (P Q : Record → Type 0) (h : List Entry)
      → ((r : Record) → P r → Q r)
      → Pending sources P h
      → Pending sources Q h
  Pending-map P Q h f =
      All-map (λ e. All P (view sources e)) (λ e. All Q (view sources e)) h
        (λ e. All-map P Q (view sources e) f)

  Pending-zip :
      (P Q : Record → Type 0) (h : List Entry)
      → Pending sources P h
      → Pending sources Q h
      → Pending sources (λ r. P r × Q r) h
  Pending-zip P Q [] p q = tt
  Pending-zip P Q (e ∷ es) p q = (All-zip P Q (view sources e) p.0 q.0, Pending-zip P Q es p.1 q.1)

  -- The records that the heap leads to, without older versions of the winner.
  record IsDrained (h : List Entry) (top : Record) (left : List Entry) : Type 1 where
    cursors : All (IsCursor sources) left
    back :
        (P : Record → Type 0)
        → ((r : Record) → same_key r.key top.key ≡ true → r.seq_num ≤ top.seq_num → P r)
        → Pending sources P left
        → Pending sources P h
    forth : (P : Record → Type 0) → Pending sources P h → Pending sources P left
    above : Pending sources (λ r. key_before top.key r.key ≡ true) left
    shrunk : pending_size sources left ≤ pending_size sources h

  drain-IsDrained :
      (fuel : ℕ) (top : Record) (h : List Entry)
      → All (IsCursor sources) h
      → Pending sources (IsAfter top) h
      → pending_size sources h < fuel
      → IsDrained h top (drain fuel sources top.key h)
  unfolding drain
  drain-IsDrained zero top h cs after enough = absurd (omega (arith, enough))
  drain-IsDrained (suc fuel) top [] cs after enough = record {
    cursors = tt;
    back = λ P old p. p;
    forth = λ P p. p;
    above = tt;
    shrunk = omega arith;
  }
  drain-IsDrained (suc fuel) top (e ∷ es) cs after enough =
      let m = (pop_least e es).0 in
      let popped = advance_cursor-IsPopped sources e es cs in
      let (m_after, left_after) = popped.forth (IsAfter top) after in
      if_split (IsDrained (e ∷ es) top) (same_key m.rec.key top.key) _ _
        (λ same.
          let rest =
            drain-IsDrained fuel top _ popped.cursors left_after
              (omega (arith, enough, popped.shrunk)) in
          record {
            cursors = rest.cursors;
            back = λ P old p.
                popped.back P (old m.rec same (m_after.no_newer same)) (rest.back P old p);
            forth = λ P p. rest.forth P (popped.forth P p).1;
            above = rest.above;
            shrunk = omega (arith, rest.shrunk, popped.shrunk);
          })
        (λ apart.
          let low = key_before_total m.rec.key top.key apart m_after.no_lower in
          record {
            cursors = cs;
            back = λ P old p. p;
            forth = λ P p. p;
            above =
                Pending-map (IsAfter m.rec) _ (e ∷ es) (λ r. above_IsAfter top m.rec r low)
                  popped.least;
            shrunk = omega arith;
          })

  -- The loop without the deletions it drops.
  unfoldable pub winners : ℕ → List Entry → List Record
  unfolding pop_least advance_cursor drain
  winners zero h = []
  winners (suc fuel) [] = []
  winners (suc fuel) (e ∷ es) =
      let (top, rest) = pop_least e es in
      let advanced = advance_cursor rest sources top.src_idx top.rec_idx in
      top.rec ∷ winners fuel (drain (suc fuel) sources top.rec.key advanced)

  pub record IsMerged (h : List Entry) (ws : List Record) : Type 1 where
    pub ascending : IsAscending ws
    pub forth : (P : Record → Type 0) → Pending sources P h → All P ws
    pub covered : Pending sources (IsCovered ws) h

  pub winners-IsMerged :
      (fuel : ℕ) (h : List Entry)
      → All (IsCursor sources) h
      → pending_size sources h < fuel
      → IsMerged h (winners fuel h)
  unfolding winners
  winners-IsMerged zero h cs enough = absurd (omega (arith, enough))
  winners-IsMerged (suc fuel) [] cs enough = record {
    ascending = tt;
    forth = λ P p. tt;
    covered = tt;
  }
  winners-IsMerged (suc fuel) (e ∷ es) cs enough =
      let top = (pop_least e es).0.rec in
      let popped = advance_cursor-IsPopped sources e es cs in
      let after = (popped.forth (IsAfter top) popped.least).1 in
      let drained =
        drain-IsDrained (suc fuel) top _ popped.cursors after
          (omega (arith, enough, popped.shrunk)) in
      let rest =
        winners-IsMerged fuel _ drained.cursors
          (omega (arith, enough, popped.shrunk, drained.shrunk)) in
      record {
        ascending = (rest.forth _ drained.above, rest.ascending);
        forth = λ P p. let (t, left) = popped.forth P p in (t, rest.forth P (drained.forth P left));
        covered = popped.back _ (find_head top top _ (same_key_refl top.key) (omega arith)) (
            drained.back _ (λ r same le. find_head top r _ same le)
              (Pending-map _ _ _
                (λ r (p : (key_before top.key r.key ≡ true) × IsCovered _ r).
                  find_tail top r _ p.0 p.1)
                (Pending-zip _ _ _ drained.above rest.covered)));
      }

  -- The first entries lead to all records of the sources from `i` on.
  pub record IsSeeded (left : List (List Record)) (h : List Entry) : Type 1 where
    pub cursors : All (IsCursor sources) h
    pub back : (P : Record → Type 0) → Pending sources P h → All (All P) left
    pub forth : (P : Record → Type 0) → All (All P) left → Pending sources P h
    pub size : pending_size sources h ≡ total_in left

  pub seed-IsSeeded :
      (front left : List (List Record)) (i : ℕ)
      → sources ≡ front ++ left
      → length front ≡ i
      → All IsAscending left
      → IsSeeded left (seed i left)
  unfolding seed
  seed-IsSeeded front [] i e n asc = record {
    cursors = tt;
    back = λ P p. tt;
    forth = λ P p. tt;
    size = refl;
  }
  seed-IsSeeded front (src ∷ left) i e n asc =
      let here : get_or sources i [] ≡ src =
        ap (λ s. get_or s i []) e ∙ get_or_middle front src left i [] n in
      let rest =
        seed-IsSeeded (front ++ src ∷ []) left (i + 1)
          (e ∙ sym (append_assoc front (src ∷ []) left))
          (omega (arith, length-append front (src ∷ []), n)) asc.1 in
      let pushed =
        push_at-IsPushed sources i 0 (seed (i + 1) left) (subst IsAscending (sym here) asc.0) in
      subst (λ s. IsSeeded (src ∷ left) (push_at i 0 (get_elem? s 0) (seed (i + 1) left))) here
        (record {
          cursors = pushed.cursors rest.cursors;
          back = λ P p. let (s, r) = pushed.forth P p in (subst (All P) here s, rest.back P r);
          forth = λ P p. pushed.back P (subst (All P) (sym here) p.0) (rest.forth P p.1);
          size = omega (arith, pushed.grown, rest.size, ap (λ (x : List Record). length x) here);
        })
