-- ===== src/Raft/Chunks.antt =====
-- internal/raft/node.go: the entries of one append, under the cap of `cappedEntries`.
use lsmdb.Base.{
  ℕ, suc, ◌+◌, ◌-◌, ◌≤◌, ◌<◌, ◌≡◌, refl, sym, ap, subst, ◌∙◌, ◌⊎◌, inl, inr, List, [], ◌∷◌, Bool,
  true, false, ◌&&◌, ◌||◌, not, arith, Bool-cases, if_both, if_split, if_no, if_yes, ltb, leb,
  add64, length, take, drop, length-drop,
}
use lsmdb.Raft.Types.{Entry, entry_overhead_bytes}
use lsmdb.Raft.Node.{Node, last_index, entries_between}
use lsmdb.Raft.Replicate.{capped_count, append_limit, capped_entries}
use lsmdb.Raft.Append.Splices.{HasRoom, last_index_lem}

-- The accounted size of the entries.
abbrev pub total_size : List Entry → ℕ
total_size [] = 0
total_size (e ∷ es) = length e.bytes + entry_overhead_bytes + total_size es

-- The first entries of `rest`, at least one of them if there is one, and within the limit unless
-- there is just one.
pub record IsChunk (limit : ℕ) (rest chunk : List Entry) : Type 0 where
  pub prefix : (k : ℕ) × (chunk ≡ take k rest)
  pub some_sent : 0 < length rest → 0 < length chunk
  pub fits : (length chunk ≡ 1) ⊎ (total_size chunk ≤ limit)

later_fit :
    (limit size : ℕ) (es : List Entry)
    → size ≤ limit
    → size + total_size (take (capped_count limit size false es) es) ≤ limit
unfolding capped_count
later_fit limit size [] h = omega (arith, h)
later_fit limit size (e ∷ es) h =
    let entry_size = length e.bytes + entry_overhead_bytes in
    if_split (λ c. size + total_size (take c (e ∷ es)) ≤ limit) (ltb limit (size + entry_size)) _ _
      (λ _. omega (arith, h))
      (λ fits. ground (arith, later_fit limit (size + entry_size) es (ground (arith, fits))))

later_none :
    (limit size : ℕ) (es : List Entry)
    → limit < size
    → take (capped_count limit size false es) es ≡ []
unfolding capped_count
later_none limit size [] h = refl
later_none limit size (e ∷ es) h =
    let entry_size = length e.bytes + entry_overhead_bytes in
    ap (λ c. take c (e ∷ es)) (if_yes (ltb limit (size + entry_size)) 0 _ (ground (arith, h)))

capped_count-IsChunk :
    (limit : ℕ) (rest : List Entry)
    → IsChunk limit rest (take (capped_count limit 0 true rest) rest)
unfolding capped_count
capped_count-IsChunk limit [] = record {
  prefix = (0, refl);
  some_sent = λ h. h;
  fits = inr (omega arith);
}
capped_count-IsChunk limit (e ∷ es) =
    let first = length e.bytes + entry_overhead_bytes in
    record {
      prefix = (capped_count limit 0 true (e ∷ es), refl);
      some_sent = λ h. omega arith;
      fits = elim (Bool-cases (ltb limit first)) [
        | inl over ↦ inl (ground (arith, later_none limit (0 + first) es (ground (arith, over))))
        | inr within ↦ inr (ground (arith, later_fit limit (0 + first) es (ground (arith, within))))
      ];
    }

capped_count_bound :
    (limit size : ℕ) (first : Bool) (es : List Entry) → capped_count limit size first es ≤ length es
unfolding capped_count
capped_count_bound limit size first [] = omega arith
capped_count_bound limit size first (e ∷ es) =
    let entry_size = length e.bytes + entry_overhead_bytes in
    if_both (λ c. c ≤ suc (length es)) (not first && ltb limit (size + entry_size)) _ _
      (omega arith) (omega (arith, capped_count_bound limit (size + entry_size) false es))

capped_count_some : (limit : ℕ) (es : List Entry) → 0 < length es → 0 < capped_count limit 0 true es
unfolding capped_count
capped_count_some limit [] h = h
capped_count_some limit (e ∷ es) h = omega arith

-- `count` entries from `from` on, all of them in the log.
entries_between-take :
    (n : Node) (from count : ℕ)
    → HasRoom n 0
    → n.snapshot.index < from
    → 0 < count
    → from + count ≤ n.snapshot.index + length n.log + 1
    → entries_between n from (add64 from count)
      ≡ take count (drop (from - n.snapshot.index - 1) n.log)
unfolding entries_between
entries_between-take n from count room above some_asked within =
    let last = last_index_lem n 0 room in
    let to = add64 from count in
    if_no (leb to from || leb from n.snapshot.index || ltb (last_index n) from) _ _
      (ground (arith, above, some_asked, within, last))
    ∙ ap (λ c. take c (drop (from - n.snapshot.index - 1) n.log))
        (omega (arith, above, within, last))

-- The entries of an append start at the index asked for, are at least one, and are just one or
-- within the limit in size: for an index of the log, where the indexes have room.
pub capped_entries-IsChunk :
    (n : Node) (from : ℕ)
    → HasRoom n 0
    → n.snapshot.index < from
    → from ≤ last_index n
    → IsChunk (append_limit n) (drop (from - n.snapshot.index - 1) n.log) (capped_entries n from)
      × (0 < length (capped_entries n from))
unfolding capped_entries
capped_entries-IsChunk n from room above within =
    let last = last_index_lem n 0 room in
    let rest = drop (from - n.snapshot.index - 1) n.log in
    let limit = append_limit n in
    let count = capped_count limit 0 true rest in
    let left = length-drop (from - n.snapshot.index - 1) n.log in
    let some_left : 0 < length rest = omega (arith, left, above, within, last) in
    let chunk = capped_count-IsChunk limit rest in
    let taken =
      if_no (leb from n.snapshot.index || ltb (last_index n) from) _ _
        (ground (arith, above, within))
      ∙ entries_between-take n from count room above (capped_count_some limit rest some_left)
          (omega (arith, left, above, within, last, capped_count_bound limit 0 true rest)) in
    subst (λ es. IsChunk limit rest es × (0 < length es)) (sym taken)
      (chunk, chunk.some_sent some_left)
