-- ===== src/Compact/Newest.antt =====
-- internal/compact/compactor.go: the merge keeps the newest record of each key.
use lsmdb.Base.{
  ℕ, zero, suc, ◌≤◌, ◌≡◌, refl, sym, ap, subst, ◌∙◌, List, [], ◌∷◌, Bool, Option, none, some, true,
  false, ◌⊎◌, inl, inr, arith, Bool-cases, Option-cases, if_no, if_yes, if_both, if_split,
  if◌then◌else◌, All, All-map, Memᴰ, All-Memᴰ,
}
use lsmdb.Memtable.{Record, same_key, key_before, find}
use lsmdb.Memtable.Keys.{same_key-eq, find_same}
use lsmdb.Memtable.Order.{IsAscending, find_above}
use lsmdb.Compact.{Entry, pop_least, merge_loop, seed, is_dropped, merge, total_in}
use lsmdb.Compact.Merge.{winners, IsCovered, winners-IsMerged, seed-IsSeeded}

-- The winners that the output keeps.
kept_records : Bool → List Record → List Record
kept_records is_bottom [] = []
kept_records is_bottom (r ∷ rs) =
    if is_dropped is_bottom r then kept_records is_bottom rs else r ∷ kept_records is_bottom rs

merge_loop_lem :
    (sources : List (List Record)) (is_bottom : Bool) (fuel : ℕ) (h : List Entry)
    → merge_loop fuel sources is_bottom h ≡ kept_records is_bottom (winners sources fuel h)
unfolding merge_loop winners kept_records
merge_loop_lem sources is_bottom zero h = refl
merge_loop_lem sources is_bottom (suc fuel) [] = refl
merge_loop_lem sources is_bottom (suc fuel) (e ∷ es) =
    let top = (pop_least e es).0.rec in
    ap (λ x. if is_dropped is_bottom top then x else top ∷ x)
      (merge_loop_lem sources is_bottom fuel _)

All-kept_records :
    (P : Record → Type 0) (is_bottom : Bool) (rs : List Record)
    → All P rs
    → All P (kept_records is_bottom rs)
unfolding kept_records
All-kept_records P is_bottom [] h = tt
All-kept_records P is_bottom (r ∷ rs) h =
    let rest = All-kept_records P is_bottom rs h.1 in
    if_both (All P) (is_dropped is_bottom r) _ _ rest (h.0, rest)

kept_records-IsAscending :
    (is_bottom : Bool) (rs : List Record) → IsAscending rs → IsAscending (kept_records is_bottom rs)
unfolding kept_records
kept_records-IsAscending is_bottom [] h = tt
kept_records-IsAscending is_bottom (r ∷ rs) h =
    let rest = kept_records-IsAscending is_bottom rs h.1 in
    if_both IsAscending (is_dropped is_bottom r) _ _ rest
      (All-kept_records _ is_bottom rs h.0, rest)

-- What is left of a winner.
abbrev visible : Bool → Option Record → Option Record
visible is_bottom none = none
visible is_bottom (some r) = if is_dropped is_bottom r then none else some r

find-kept_records :
    (is_bottom : Bool) (key : List ℕ) (rs : List Record)
    → IsAscending rs
    → find key (kept_records is_bottom rs) ≡ visible is_bottom (find key rs)
unfolding find kept_records
find-kept_records is_bottom key [] asc = refl
find-kept_records is_bottom key (r ∷ rs) asc =
    let rest = find-kept_records is_bottom key rs asc.1 in
    elim (Bool-cases (is_dropped is_bottom r)) [
      | inl gone ↦ elim (Bool-cases (same_key r.key key)) [
        | inl same ↦
            rw (gone, same)
              (find_above key (kept_records is_bottom rs) (
                  All-kept_records _ is_bottom rs (
                    subst (λ k. All (λ (s : Record). key_before k s.key ≡ true) rs)
                      (same_key-eq r.key key same) asc.0))
                ∙ sym (if_yes (is_dropped is_bottom r) none (some r) gone))
        | inr apart ↦ rw (gone, apart) rest
      ]
      | inr stays ↦ elim (Bool-cases (same_key r.key key)) [
        | inl same ↦ rw (stays, same) (sym (if_no (is_dropped is_bottom r) none (some r) stays))
        | inr apart ↦ rw (stays, apart) rest
      ]
    ]

-- The record is in one of the sources.
abbrev pub IsAmong : List (List Record) → Record → Type 0
IsAmong sources r = (src : List Record) × Memᴰ src sources × Memᴰ r src

all-IsAmong : (sources : List (List Record)) → All (All (IsAmong sources)) sources
all-IsAmong sources =
    All-map (λ src. Memᴰ src sources) _ sources
      (λ src m. All-map (λ (r : Record). Memᴰ r src) _ src (λ r n. (src, m, n)) (All-Memᴰ src))
      (All-Memᴰ sources)

-- No record of the key in the sources is newer than this one, which is one of them.
pub record IsNewest (key : List ℕ) (sources : List (List Record)) (r : Record) : Type 0 where
  pub among : IsAmong sources r
  pub same : same_key r.key key ≡ true
  pub no_newer :
      All (All (λ (s : Record). same_key s.key key ≡ true → s.seq_num ≤ r.seq_num)) sources

-- What a merge should find of a key: its newest record, but no deletion at the bottom level.
abbrev pub IsMergeOf : List ℕ → List (List Record) → Bool → Option Record → Type 0
IsMergeOf key sources is_bottom none =
    All (All (λ (s : Record). same_key s.key key ≡ false)) sources
    ⊎ ((r : Record) × IsNewest key sources r × (is_dropped is_bottom r ≡ true))
IsMergeOf key sources is_bottom (some r) = IsNewest key sources r × (is_dropped is_bottom r ≡ false)

pub find-All :
    (P : Record → Type 0) (key : List ℕ) (rs : List Record) (r : Record)
    → find key rs ≡ some r
    → All P rs
    → P r × (same_key r.key key ≡ true)
unfolding find
find-All P key [] r e h = absurd (ground (arith, e))
find-All P key (x ∷ xs) r e h = elim (Bool-cases (same_key x.key key)) [
  | inl same ↦
      let eq : some x ≡ some r = sym (if_yes (same_key x.key key) _ _ same) ∙ e in
      subst
        (λ o. elim o as (λ _. Type 0) [
          | none ↦ Unit {0}
          | some y ↦ P y × (same_key y.key key ≡ true)
        ])
        eq (h.0, same)
  | inr apart ↦ find-All P key xs r (sym (if_no (same_key x.key key) _ _ apart) ∙ e) h.1
]

module _ (sources : List (List Record)) (key : List ℕ) (ws : List Record)
    (among : All (IsAmong sources) ws) (covered : All (All (IsCovered ws)) sources) where
  newest_lem : (r : Record) → find key ws ≡ some r → IsNewest key sources r
  newest_lem r here =
      let (inside, same) = find-All (IsAmong sources) key ws r here among in
      record {
        among = inside;
        same = same;
        no_newer =
            All-map (All (IsCovered ws)) _ sources
              (λ src.
                All-map (IsCovered ws) _ src
                  (λ (s : Record) (c : IsCovered ws s) (e : same_key s.key key ≡ true).
                    let found : some c.winner ≡ some r =
                      sym c.found ∙ find_same s.key key ws e ∙ here in
                    let no_newer = c.no_newer in ground (arith, found, no_newer)))
              covered;
      }

  absent_lem : find key ws ≡ none → All (All (λ (s : Record). same_key s.key key ≡ false)) sources
  absent_lem gone =
      All-map (All (IsCovered ws)) _ sources
        (λ src. All-map (IsCovered ws) _ src (λ (s : Record) (c : IsCovered ws s).
          elim (Bool-cases (same_key s.key key)) [
            | inr apart ↦ apart
            | inl e ↦ absurd (ground (arith, sym c.found ∙ find_same s.key key ws e ∙ gone))
          ]))
        covered

  winner_lem :
      (is_bottom : Bool) → IsMergeOf key sources is_bottom (visible is_bottom (find key ws))
  winner_lem is_bottom = elim (Option-cases (find key ws)) [
    | inl gone ↦
        subst (λ o. IsMergeOf key sources is_bottom (visible is_bottom o)) (sym gone)
          (inl (absent_lem gone))
    | inr (r, here) ↦
        subst (λ o. IsMergeOf key sources is_bottom (visible is_bottom o)) (sym here)
          (if_split (IsMergeOf key sources is_bottom) (is_dropped is_bottom r) none (some r)
            (λ dropped. inr (r, newest_lem r here, dropped)) (λ stays. (newest_lem r here, stays)))
  ]

-- The merge of sources in the order of their keys comes in that order too, and what is found in it
-- at any key is the newest record that the sources have of it: a deletion is left out at the bottom
-- level, and nothing is found of a key that no source has.
pub merge-IsMergeOf :
    (sources : List (List Record)) (is_bottom : Bool) (key : List ℕ)
    → All IsAscending sources
    → IsAscending (merge sources is_bottom)
      × IsMergeOf key sources is_bottom (find key (merge sources is_bottom))
unfolding merge
merge-IsMergeOf sources is_bottom key asc =
    let fuel = suc (total_in sources) in
    let seeded = seed-IsSeeded sources [] sources 0 refl refl asc in
    let merged =
      winners-IsMerged sources fuel (seed 0 sources) seeded.cursors (omega (arith, seeded.size)) in
    let ws = winners sources fuel (seed 0 sources) in
    let among =
      merged.forth (IsAmong sources) (seeded.forth (IsAmong sources) (all-IsAmong sources)) in
    let covered = seeded.back (IsCovered ws) merged.covered in
    let e = merge_loop_lem sources is_bottom fuel (seed 0 sources) in
    (
      subst IsAscending (sym e) (kept_records-IsAscending is_bottom ws merged.ascending),
      subst (IsMergeOf key sources is_bottom)
          (sym (ap (find key) e ∙ find-kept_records is_bottom key ws merged.ascending))
          (winner_lem sources key ws among covered is_bottom),
    )

-- What holds of every record of the sources holds of the output.
pub All-merge :
    (P : Record → Type 0) (sources : List (List Record)) (is_bottom : Bool)
    → All IsAscending sources
    → All (All P) sources
    → All P (merge sources is_bottom)
unfolding merge
All-merge P sources is_bottom asc h =
    let fuel = suc (total_in sources) in
    let seeded = seed-IsSeeded sources [] sources 0 refl refl asc in
    let merged =
      winners-IsMerged sources fuel (seed 0 sources) seeded.cursors (omega (arith, seeded.size)) in
    subst (All P) (sym (merge_loop_lem sources is_bottom fuel (seed 0 sources))) (
      All-kept_records P is_bottom (winners sources fuel (seed 0 sources))
        (merged.forth P (seeded.forth P h)))
