-- ===== src/Store/Appends.antt =====
-- internal/raftstore/store.go against internal/raft/node.go: a store in step with a node,
-- and updates that only append.
use mathlib.Core.List.{append-nil, append_assoc}
use lsmdb.Base.{
  suc, ◌≡◌, sym, ap, subst, ◌∙◌, List, [], ◌∷◌, ◌++◌, arith, length, length-append, ok, All, add64,
  none,
}
use lsmdb.Raft.Types.{Entry, Update}
use lsmdb.Raft.Membership.{Codec}
use lsmdb.Raft.Node.{Node, hard_state}
use lsmdb.Raft.Append.Splices.{IsStorable}
use lsmdb.Raft.Driver.{tick}
use lsmdb.Raft.Emits.Relation.{Writes, Chain, saved}
use lsmdb.Raft.Emits.Handlers.{tick-Writes}
use lsmdb.Store.{Store, append, persist}

-- The store holds the durable state of the node.
pub record InSync (s : Store) (n : Node) : Type 0 where
  pub hard : s.hard ≡ hard_state n
  pub entries : s.entries ≡ n.log
  pub base : s.snapshot.index ≡ n.snapshot.index
  pub base_term : s.snapshot.term ≡ n.snapshot.term

pub append-one :
    (s : Store) (e : Entry) (es : List Entry)
    → e.index ≡ add64 (add64 s.snapshot.index (length s.entries)) 1
    → IsStorable e
    → append s (e ∷ es) ≡ append (record s { entries = s.entries ++ e ∷ [] }) es
unfolding append
append-one s e es c a = ground arith

pub append-Chain :
    (s : Store) (es : List Entry)
    → Chain s.snapshot.index (length s.entries) es
    → All IsStorable es
    → append s es ≡ ok (record s { entries = s.entries ++ es })
append-Chain s [] c a =
    unfold append in ap (λ l. ok (record s { entries = l })) (sym (append-nil s.entries))
append-Chain s (e ∷ es) c a =
    let next : Store = record s { entries = s.entries ++ e ∷ [] } in
    let longer : length (s.entries ++ e ∷ []) ≡ suc (length s.entries) =
      length-append s.entries (e ∷ []) ∙ omega arith in
    append-one s e es c.0 a.0
    ∙ append-Chain next es (subst (λ l. Chain s.snapshot.index l es) (sym longer) c.1) a.1
    ∙ ap (λ l. ok (record s { entries = l })) (append_assoc s.entries (e ∷ []) es)

-- The parts of an update that neither truncates nor installs a snapshot.
pub persist-plain :
    (s : Store) (u : Update)
    → u.truncate_from ≡ 0
    → u.snapshot ≡ none
    → persist s u ≡ append (record s { hard = saved s.hard u }) u.entries
unfolding persist
persist-plain s u t n = ground arith

-- The store after a step has the hard state and the log of the node.
abbrev pub stored : Store → Node → Store
stored s m = record s { hard = hard_state m; entries = m.log }

pub Writes-persist :
    (s : Store) (n : Node) (r : Node × Update)
    → InSync s n
    → Writes n r
    → All IsStorable r.1.entries
    → persist s r.1 ≡ ok (stored s r.0)
Writes-persist s n r sync w a =
    let e = w.emits in
    let hard : saved s.hard r.1 ≡ hard_state r.0 = ap (λ h. saved h r.1) sync.hard ∙ e.hard in
    let log : s.entries ++ r.1.entries ≡ r.0.log =
      ap (λ l. l ++ r.1.entries) sync.entries ∙ sym e.log in
    let chain : Chain s.snapshot.index (length s.entries) r.1.entries =
      subst (λ b. Chain b (length s.entries) r.1.entries) (sym sync.base)
        (subst (λ l. Chain n.snapshot.index (length l) r.1.entries) (sym sync.entries) e.chain) in
    persist-plain s r.1 e.truncates e.snapshots
    ∙ append-Chain (record s { hard = saved s.hard r.1 }) r.1.entries chain a
    ∙ ap (λ h. ok (record s { hard = h; entries = s.entries ++ r.1.entries })) hard
    ∙ ap (λ l. ok (record s { hard = hard_state r.0; entries = l })) log

-- After a tick the persisted update leaves a store that held the node's durable state before with
-- the node's hard state and log, where the update's entries have a term and data within the limit.
pub tick-persist :
    (codec : Codec) (s : Store) (n : Node)
    → InSync s n
    → All IsStorable (tick codec n).1.entries
    → persist s (tick codec n).1 ≡ ok (stored s (tick codec n).0)
tick-persist codec s n sync a = Writes-persist s n (tick codec n) sync (tick-Writes codec n) a
