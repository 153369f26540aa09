-- ===== src/Raft/Append/Splices.antt =====
-- internal/raft/node.go:handleAppend: where the entries of an append go.
use lsmdb.Base.{
  ℕ, suc, ◌+◌, ◌≤◌, ◌<◌, ◌≡◌, sym, subst, List, [], ◌∷◌, ◌==◌, leb, arith, length, u64_mod, All,
  if_split,
}
use lsmdb.Raft.Types.{Entry, Message, max_entry_bytes}
use lsmdb.Raft.Node.{Node, last_index, term_at}
use lsmdb.Raft.Append.{Splice, all_present, committed_conflict, replace, extend, splice}
use lsmdb.Raft.Append.WellFormed.{AreGood}

-- The log of the node and `more` entries have indexes below the largest.
abbrev pub HasRoom : Node → ℕ → Type 0
HasRoom n more = n.snapshot.index + length n.log + more + 1 < u64_mod

pub last_index_lem :
    (n : Node) (more : ℕ) → HasRoom n more → last_index n ≡ n.snapshot.index + length n.log
unfolding last_index
last_index_lem n more h = omega arith

-- The entries have the indexes from `first` on.
abbrev pub Consecutive : ℕ → List Entry → Type 0
Consecutive first [] = Unit {0}
Consecutive first (e ∷ es) = (e.index ≡ first) × Consecutive (suc first) es

-- The entries are as in an append: they have a term, and data within the limit.
abbrev pub IsStorable : Entry → Type 0
IsStorable e = (0 < e.term) × (length e.bytes ≤ max_entry_bytes)

pub AreGood-Consecutive :
    (message : Message) (i previous : ℕ) (es : List Entry)
    → message.log_index + i + length es < u64_mod
    → AreGood message i previous es
    → Consecutive (message.log_index + i + 1) es
AreGood-Consecutive message i previous [] room g = tt
AreGood-Consecutive message i previous (e ∷ es) room g = (
  omega (arith, g.0.at_index),
  subst (λ k. Consecutive k es) (omega arith)
      (AreGood-Consecutive message (i + 1) e.term es (omega arith) g.1),
)

pub AreGood-IsStorable :
    (message : Message) (i previous : ℕ) (es : List Entry)
    → AreGood message i previous es
    → All IsStorable es
AreGood-IsStorable message i previous [] g = tt
AreGood-IsStorable message i previous (e ∷ es) g =
    ((g.0.has_term, g.0.fits), AreGood-IsStorable message (i + 1) e.term es g.1)

-- A splice that cuts above the commit index, within the log, and adds storable entries at the next
-- indexes.
abbrev pub Placed : Node → Splice → Type 0
Placed n all_present = Unit {0}
Placed n committed_conflict = Unit {0}
Placed n (replace index remaining) =
    (n.commit < index)
    × (index ≤ last_index n)
    × Consecutive index remaining
    × All IsStorable remaining
Placed n (extend remaining) = Consecutive (suc (last_index n)) remaining × All IsStorable remaining

-- Where the entries of an append that is kept enter a log that reaches the index before them, they
-- cut off entries above the commit index only, what they add has the next indexes without a gap,
-- and each new entry has a term and data within the limit, where the indexes have room.
pub splice-Placed :
    (n : Node) (message : Message) (i previous : ℕ) (es : List Entry)
    → HasRoom n (length es)
    → message.log_index + i ≤ last_index n
    → AreGood message i previous es
    → Placed n (splice n es)
unfolding splice
splice-Placed n message i previous [] room h g = tt
splice-Placed n message i previous (e ∷ es) room h g =
    let last = last_index_lem n (suc (length es)) room in
    let run = AreGood-Consecutive message i previous (e ∷ es) (omega arith) g in
    let storable = AreGood-IsStorable message i previous (e ∷ es) g in
    if_split (Placed n) (leb e.index (last_index n)) _ _
      (λ within.
        let below : message.log_index + (i + 1) ≤ last_index n = ground (arith, run.0) in
        if_split (Placed n) (term_at n e.index == e.term) _ _
          (λ _. splice-Placed n message (i + 1) e.term es (omega arith) below g.1)
          (λ _.
            if_split (Placed n) (leb e.index n.commit) _ _ (λ _. tt)
              (λ above. (
                ground arith,
                ground arith,
                subst (λ k. Consecutive k (e ∷ es)) (sym run.0) run,
                storable,
              ))))
      (λ beyond. (subst (λ k. Consecutive k (e ∷ es)) (ground (arith, run.0)) run, storable))
