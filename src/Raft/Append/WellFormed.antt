-- ===== src/Raft/Append/WellFormed.antt =====
-- internal/raft/node.go:malformedAppend: the appends that are not dropped.
use lsmdb.Base.{
  ℕ, ◌+◌, ◌≤◌, ◌<◌, ◌≡◌, ◌↔◌, refl, inl, inr, List, [], ◌∷◌, none, arith, length, add64,
  Option-cases,
}
use lsmdb.Raft.Types.{Entry, Message, max_entry_bytes}
use lsmdb.Raft.Append.{malformed_entry, malformed_from, malformed_append}

-- Entry `i` of an append, after an entry of term `previous`.
pub record IsGood (message : Message) (i previous : ℕ) (e : Entry) : Type 0 where
  pub at_index : e.index ≡ add64 (add64 message.log_index i) 1
  pub has_term : 0 < e.term
  pub fits : length e.bytes ≤ max_entry_bytes
  pub in_term : e.term ≤ message.term
  pub rises : previous ≤ e.term

abbrev pub AreGood : Message → ℕ → ℕ → List Entry → Type 0
AreGood message i previous [] = Unit {0}
AreGood message i previous (e ∷ es) =
    IsGood message i previous e × AreGood message (i + 1) e.term es

malformed_entry-IsGood :
    (message : Message) (i previous : ℕ) (e : Entry)
    → malformed_entry message i previous e ≡ none
    → IsGood message i previous e
unfolding malformed_entry
malformed_entry-IsGood message i previous e h = ground arith

IsGood-malformed_entry :
    (message : Message) (i previous : ℕ) (e : Entry)
    → IsGood message i previous e
    → malformed_entry message i previous e ≡ none
unfolding malformed_entry
IsGood-malformed_entry message i previous e g = ground arith

pub malformed_from-AreGood :
    (message : Message) (i previous : ℕ) (es : List Entry)
    → malformed_from message i previous es ≡ none
    → AreGood message i previous es
unfolding malformed_from
malformed_from-AreGood message i previous [] h = tt
malformed_from-AreGood message i previous (e ∷ es) h =
    elim (Option-cases (malformed_entry message i previous e)) [
      | inl good ↦ (
        malformed_entry-IsGood message i previous e good,
        malformed_from-AreGood message (i + 1) e.term es (ground arith),
      )
      | inr (reason, bad) ↦ absurd (ground arith)
    ]

AreGood-malformed_from :
    (message : Message) (i previous : ℕ) (es : List Entry)
    → AreGood message i previous es
    → malformed_from message i previous es ≡ none
unfolding malformed_from
AreGood-malformed_from message i previous [] g = refl
AreGood-malformed_from message i previous (e ∷ es) g = ground (
  arith,
  IsGood-malformed_entry message i previous e g.0,
  AreGood-malformed_from message (i + 1) e.term es g.1,
)

-- An append is kept exactly if entry i has index LogIndex + i + 1, a positive term that is at least
-- that of the entry before (of LogTerm for the first) and at most the message's, and data within
-- the limit.
pub malformed_append_iff :
    (message : Message)
    → (malformed_append message ≡ none) ↔ AreGood message 0 message.log_term message.entries
unfolding malformed_append
malformed_append_iff message = (
  malformed_from-AreGood message 0 message.log_term message.entries,
  AreGood-malformed_from message 0 message.log_term message.entries,
)
