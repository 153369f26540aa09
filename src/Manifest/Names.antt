-- ===== src/Manifest/Names.antt =====
-- internal/manifest/manifest.go: the names that Validate lets through.
use lsmdb.Base.{
  ℕ, ◌≡◌, ◌≢◌, ◌↔◌, ◌⊎◌, refl, sym, ap, subst, ◌∙◌, List, [], ◌∷◌, ◌++◌, none, true, false, ◌==◌,
  inl, inr, arith, Bool-cases, if_both, if_split, if_no, is_empty, All, All-append, append_assoc,
  append_nil,
}
use lsmdb.Memtable.{same_key}
use lsmdb.Memtable.Keys.{same_key-eq, same_key_refl}
use lsmdb.Manifest.{
  State, slash, version, legacy_version, last_element, base, has_suffix, extension, is_table_name,
  is_seen, check_names, validate,
}

-- A name without a slash.
abbrev pub IsFlat : List ℕ → Type 0
IsFlat name = All (λ c. c ≢ slash) name

last_element-IsFlat : (part name : List ℕ) → IsFlat part → IsFlat (last_element part name)
unfolding last_element
last_element-IsFlat part [] h = h
last_element-IsFlat part (c ∷ cs) h =
    if_split IsFlat (c == slash) _ _
      (λ _. if_both IsFlat (is_empty (last_element [] cs)) _ _ h (last_element-IsFlat [] cs tt))
      (λ e.
        last_element-IsFlat (part ++ c ∷ []) cs
          (All-append (λ c. c ≢ slash) part (c ∷ []) h ((λ eq. ground (arith, e, eq)), tt)))

last_element_flat : (part name : List ℕ) → IsFlat name → last_element part name ≡ part ++ name
unfolding last_element
last_element_flat part [] h = sym (append_nil part)
last_element_flat part (c ∷ cs) h =
    if_no (c == slash) _ _ (ground (arith, h.0))
    ∙ last_element_flat (part ++ c ∷ []) cs h.1
    ∙ append_assoc part (c ∷ []) cs

base_flat : (name : List ℕ) → name ≢ [] → IsFlat name → base name ≡ name
unfolding base
base_flat [] filled h = absurd (filled refl)
base_flat (c ∷ cs) filled h =
    let e = last_element_flat [] (c ∷ cs) h in
    if_no (is_empty (last_element [] (c ∷ cs))) _ _ (ap is_empty e) ∙ e

base-IsFlat : (name : List ℕ) → (base name ≡ slash ∷ []) ⊎ IsFlat (base name)
unfolding base
base-IsFlat [] = inr (ground arith)
base-IsFlat (c ∷ cs) =
    if_both (λ x. (x ≡ slash ∷ []) ⊎ IsFlat x) (is_empty (last_element [] (c ∷ cs))) _ _ (inl refl)
      (inr (last_element-IsFlat [] (c ∷ cs) tt))

empty_list : (name : List ℕ) → is_empty name ≡ true → name ≡ []
empty_list [] e = refl
empty_list (c ∷ cs) e = absurd (ground (arith, e))

-- A file name of its own directory, that ends in .sst.
abbrev pub IsTableName : List ℕ → Type 0
IsTableName name = IsFlat name × (has_suffix name extension ≡ true)

short_suffix : (has_suffix [] extension ≡ false) × (has_suffix (slash ∷ []) extension ≡ false)
unfolding has_suffix
short_suffix = (refl, refl)

pub is_table_name_iff : (name : List ℕ) → (is_table_name name ≡ true) ↔ IsTableName name
unfolding is_table_name
is_table_name_iff name = (
  (λ good.
      let same = same_key-eq (base name) name (ground (arith, good)) in
      let suffix : has_suffix name extension ≡ true = ground (arith, good) in
      (
        elim (base-IsFlat name) [
          | inl e ↦ absurd (
              ground
                (arith, suffix, short_suffix.1, ap (λ n. has_suffix n extension) (sym same ∙ e)))
          | inr flat ↦ subst IsFlat same flat
        ],
        suffix,
      )),
  (λ h.
      let filled : is_empty name ≡ false = elim (Bool-cases (is_empty name)) [
        | inr e ↦ e
        | inl e ↦ absurd (
            ground
              (arith, h.1, short_suffix.0, ap (λ n. has_suffix n extension) (empty_list name e)))
      ] in
      let same : same_key (base name) name ≡ true =
        ap (λ n. same_key n name) (base_flat name (λ e. ground (arith, filled, ap is_empty e)) h.0)
        ∙ same_key_refl name in
      ground (arith, filled, same, h.1)),
)

is_seen-All :
    (name : List ℕ) (seen : List (List ℕ)) → (is_seen name seen ≡ false) ↔ All (λ n. n ≢ name) seen
unfolding is_seen
is_seen-All name [] = ((λ _. tt), (λ _. refl))
is_seen-All name (n ∷ ns) =
    let rest = is_seen-All name ns in
    (
      (λ unseen. (
        (λ e. ground (arith, unseen, ap (λ k. same_key k name) e, same_key_refl name)),
        rest.0 (ground (arith, unseen)),
      )),
      (λ h.
          let apart : same_key n name ≡ false = elim (Bool-cases (same_key n name)) [
            | inr e ↦ e
            | inl e ↦ absurd (h.0 (same_key-eq n name e))
          ] in
          ground (arith, apart, rest.1 h.1)),
    )

-- No name is one of those before it.
abbrev pub NoRepeats : List (List ℕ) → List (List ℕ) → Type 0
NoRepeats seen [] = Unit {0}
NoRepeats seen (name ∷ names) = All (λ n. n ≢ name) seen × NoRepeats (name ∷ seen) names

check_names_iff :
    (seen names : List (List ℕ))
    → (check_names seen names ≡ none) ↔ (All IsTableName names × NoRepeats seen names)
unfolding check_names
check_names_iff seen [] = ((λ _. (tt, tt)), (λ _. refl))
check_names_iff seen (name ∷ names) =
    let good = is_table_name_iff name in
    let fresh = is_seen-All name seen in
    let rest = check_names_iff (name ∷ seen) names in
    (
      (λ e.
          let g : is_table_name name ≡ true = ground (arith, e) in
          let f : is_seen name seen ≡ false = ground (arith, e) in
          let r = rest.0 (ground (arith, e)) in ((good.0 g, r.0), (fresh.0 f, r.1))),
      (λ h.
          let g = good.1 h.0.0 in
          let f = fresh.1 h.1.0 in let r = rest.1 (h.0.1, h.1.1) in ground (arith, g, f, r)),
    )

-- A manifest passes validation exactly if it has one of the two known versions, each of its files
-- is named in .sst and without a slash, so that it lies in the directory of the database, and no
-- file is named twice.
pub validate_iff :
    (s : State)
    → (validate s ≡ none) ↔ (
        ((s.version_of ≡ version) ⊎ (s.version_of ≡ legacy_version))
        × All IsTableName s.sstables
        × NoRepeats [] s.sstables)
unfolding validate
validate_iff s =
    let names = check_names_iff [] s.sstables in
    (
      (λ e. let r = names.0 (ground (arith, e)) in (ground (arith, e), r.0, r.1)),
      (λ (v, good, fresh). let r = names.1 (good, fresh) in ground (arith, v, r)),
    )
