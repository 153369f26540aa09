-- ===== src/Raft/Emits/Relation.antt =====
-- internal/raft/types.go:Update against the node: the hard state that it saves, and the entries that
-- it appends.
use mathlib.Core.List.{append-nil, append_assoc}
use lsmdb.Base.{
  ℕ, suc, ◌+◌, ◌≡◌, refl, sym, ap, subst, ◌∙◌, List, [], ◌∷◌, ◌++◌, none, some, arith, length,
  length-append, add64, All, All-append,
}
use lsmdb.Raft.Types.{Entry, HardState, Snapshot, Message, Update, no_update, merge, send}
use lsmdb.Raft.Node.{Node, hard_state}
use lsmdb.Raft.Frame.{SameNode}

-- The hard state after an update.
abbrev pub saved : HardState → Update → HardState
saved h u = elim u.hard_state [ none ↦ h | some h' ↦ h' ]

-- The entries have the indexes that follow `len` entries above `base`.
abbrev pub Chain : ℕ → ℕ → List Entry → Type 0
Chain base len [] = Unit {0}
Chain base len (e ∷ es) = (e.index ≡ add64 (add64 base len) 1) × Chain base (suc len) es

abbrev pub OfTerm : ℕ → List Entry → Type 0
OfTerm term = All (λ e. e.term ≡ term)

-- From `n` to `m` the log only grows, by the update's entries, which have the next indexes and the
-- term of the node; and the update saves the new hard state.
pub record Emits (n m : Node) (u : Update) : Type 0 where
  pub hard : saved (hard_state n) u ≡ hard_state m
  pub log : m.log ≡ n.log ++ u.entries
  pub truncates : u.truncate_from ≡ 0
  pub snapshots : u.snapshot ≡ none
  pub base : m.snapshot ≡ n.snapshot
  pub chain : Chain n.snapshot.index (length n.log) u.entries
  pub terms : OfTerm m.term u.entries

pub Chain-append :
    (base len : ℕ) (xs ys : List Entry)
    → Chain base len xs
    → Chain base (len + length xs) ys
    → Chain base len (xs ++ ys)
Chain-append base len [] ys p q = subst (λ l. Chain base l ys) (omega arith) q
Chain-append base len (x ∷ xs) ys p q =
    (p.0, Chain-append base (suc len) xs ys p.1 (subst (λ l. Chain base l ys) (omega arith) q))

-- A step that writes nothing.
pub Emits-still :
    (n m : Node) (u : Update)
    → hard_state m ≡ hard_state n
    → m.snapshot ≡ n.snapshot
    → m.log ≡ n.log
    → u.hard_state ≡ none
    → u.entries ≡ []
    → u.truncate_from ≡ 0
    → u.snapshot ≡ none
    → Emits n m u
Emits-still n m u h s l uh ue ut us = record {
  hard = ground arith;
  log = l ∙ sym (append-nil n.log) ∙ ap (λ es. n.log ++ es) (sym ue);
  truncates = ut;
  snapshots = us;
  base = s;
  chain = subst (Chain n.snapshot.index (length n.log)) (sym ue) tt;
  terms = subst (OfTerm m.term) (sym ue) tt;
}

pub Emits-refl : (n : Node) → Emits n n no_update
Emits-refl n = Emits-still n n no_update refl refl refl refl refl refl refl

pub Emits-send :
    (n m : Node) (u : Update) (messages : List Message) → Emits n m u → Emits n m (send u messages)
Emits-send n m u messages h = record {
  hard = h.hard;
  log = h.log;
  truncates = h.truncates;
  snapshots = h.snapshots;
  base = h.base;
  chain = h.chain;
  terms = h.terms;
}

pub hard_state-SameNode : (n m : Node) → SameNode n m → hard_state m ≡ hard_state n
hard_state-SameNode n m s = ground arith

-- A step that leaves the durable fields alone, before or after.
pub Emits-before :
    (n m k : Node) (u : Update)
    → hard_state m ≡ hard_state n
    → m.snapshot ≡ n.snapshot
    → m.log ≡ n.log
    → Emits m k u
    → Emits n k u
Emits-before n m k u same_hard same_snapshot same_log h = record {
  hard = subst (λ x. saved x u ≡ hard_state k) same_hard h.hard;
  log = subst (λ l. k.log ≡ l ++ u.entries) same_log h.log;
  truncates = h.truncates;
  snapshots = h.snapshots;
  base = h.base ∙ same_snapshot;
  chain =
      subst (λ (x : Snapshot). Chain x.index (length n.log) u.entries) same_snapshot
        (subst (λ l. Chain m.snapshot.index (length l) u.entries) same_log h.chain);
  terms = h.terms;
}

pub Emits-after : (n m k : Node) (u : Update) → Emits n m u → SameNode m k → Emits n k u
Emits-after n m k u h s = record {
  hard = h.hard ∙ sym (hard_state-SameNode m k s);
  log = s.same_log ∙ h.log;
  truncates = h.truncates;
  snapshots = h.snapshots;
  base = s.same_snapshot ∙ h.base;
  chain = h.chain;
  terms = subst (λ t. OfTerm t u.entries) (sym s.same_term) h.terms;
}

pub saved-merge : (h : HardState) (u v : Update) → saved h (merge u v) ≡ saved (saved h u) v
unfolding merge
saved-merge h u v = ground arith

entries-merge : (u v : Update) → (merge u v).entries ≡ u.entries ++ v.entries
unfolding merge
entries-merge u v = refl

quiet-merge :
    (u v : Update)
    → u.truncate_from ≡ 0
    → v.truncate_from ≡ 0
    → u.snapshot ≡ none
    → v.snapshot ≡ none
    → ((merge u v).truncate_from ≡ 0) × ((merge u v).snapshot ≡ none)
unfolding merge
quiet-merge u v a b c d = ground arith

pub Emits-merge :
    (n m k : Node) (u v : Update)
    → Emits n m u
    → Emits m k v
    → OfTerm k.term u.entries
    → Emits n k (merge u v)
Emits-merge n m k u v p q t =
    let (cut, snap) = quiet-merge u v p.truncates q.truncates p.snapshots q.snapshots in
    let chain' : Chain n.snapshot.index (length n.log + length u.entries) v.entries =
      subst (λ l. Chain n.snapshot.index l v.entries)
        (ap length p.log ∙ length-append n.log u.entries)
        (subst (λ (x : Snapshot). Chain x.index (length m.log) v.entries) p.base q.chain) in
    record {
      hard = saved-merge (hard_state n) u v ∙ ap (λ h. saved h v) p.hard ∙ q.hard;
      log =
          q.log
          ∙ ap (λ l. l ++ v.entries) p.log
          ∙ append_assoc n.log u.entries v.entries
          ∙ ap (λ l. n.log ++ l) (sym (entries-merge u v));
      truncates = cut;
      snapshots = snap;
      base = q.base ∙ p.base;
      chain =
          subst (Chain n.snapshot.index (length n.log)) (sym (entries-merge u v))
            (Chain-append n.snapshot.index (length n.log) u.entries v.entries p.chain chain');
      terms =
          subst (OfTerm k.term) (sym (entries-merge u v))
            (All-append (λ e. e.term ≡ k.term) u.entries v.entries t q.terms);
    }

-- The same of a step's result.
pub record Writes (n : Node) (r : Node × Update) : Type 0 where
  pub emits : Emits n r.0 r.1
