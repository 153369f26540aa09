-- ===== src/Raft/Frame.antt =====
-- internal/raft/node.go: what the steps that build messages leave alone.
use lsmdb.Base.{
  ℕ, ◌+◌, ◌≡◌, refl, ◌∙◌, if◌then◌else◌, true, false, List, [], ◌∷◌, ◌&&◌, arith, ◌==◌, ◌!=◌, leb,
  Bool-cases, inl, inr, Bool,
}
use lsmdb.Raft.Types.{MessageOrigin, is_proposal}
use lsmdb.Raft.Membership.{Codec}
use lsmdb.Raft.Node.{Node, assign, reset_election_timer, replication_peers}
use lsmdb.Raft.Replicate.{
  append_message, broadcast_loop, broadcast_append, settle_outstanding, expire_loop,
  expire_outstanding, resend_limit,
}
use lsmdb.Raft.Driver.{append_to}

-- The same node, but for timers, marks of activity and appends in flight.
pub record SameNode (n m : Node) : Type 0 where
  pub same_cfg : m.cfg ≡ n.cfg
  pub same_role : m.role ≡ n.role
  pub same_term : m.term ≡ n.term
  pub same_vote : m.voted_for ≡ n.voted_for
  pub same_snapshot : m.snapshot ≡ n.snapshot
  pub same_log : m.log ≡ n.log
  pub same_commit : m.commit ≡ n.commit
  pub same_initial : m.initial_membership ≡ n.initial_membership
  pub same_membership : m.membership ≡ n.membership
  pub same_match : m.match_index ≡ n.match_index
  pub same_panicked : m.panicked ≡ n.panicked

pub SameNode-refl : (n : Node) → SameNode n n
SameNode-refl n = record {
  same_cfg = refl;
  same_role = refl;
  same_term = refl;
  same_vote = refl;
  same_snapshot = refl;
  same_log = refl;
  same_commit = refl;
  same_initial = refl;
  same_membership = refl;
  same_match = refl;
  same_panicked = refl;
}

pub SameNode-trans : (n m k : Node) → SameNode n m → SameNode m k → SameNode n k
SameNode-trans n m k p q = record {
  same_cfg = q.same_cfg ∙ p.same_cfg;
  same_role = q.same_role ∙ p.same_role;
  same_term = q.same_term ∙ p.same_term;
  same_vote = q.same_vote ∙ p.same_vote;
  same_snapshot = q.same_snapshot ∙ p.same_snapshot;
  same_log = q.same_log ∙ p.same_log;
  same_commit = q.same_commit ∙ p.same_commit;
  same_initial = q.same_initial ∙ p.same_initial;
  same_membership = q.same_membership ∙ p.same_membership;
  same_match = q.same_match ∙ p.same_match;
  same_panicked = q.same_panicked ∙ p.same_panicked;
}

pub reset_election_timer-SameNode : (n : Node) → SameNode n (reset_election_timer n)
unfolding reset_election_timer
reset_election_timer-SameNode n = ground arith

-- A node that a test chooses.
pub SameNode-if :
    (b : Bool) (n m k : Node) → SameNode n m → SameNode n k → SameNode n (if b then m else k)
SameNode-if true n m k p q = p
SameNode-if false n m k p q = q

pub append_message-SameNode :
    (n : Node) (peer context : ℕ) (origin : MessageOrigin)
    → SameNode n (append_message n peer context origin).0
unfolding append_message
append_message-SameNode n peer context origin = ground arith

pub settle_outstanding-SameNode : (n : Node) (peer : ℕ) → SameNode n (settle_outstanding n peer)
unfolding settle_outstanding
settle_outstanding-SameNode n peer = ground arith

outstanding-SameNode :
    (n : Node) (last age : ℕ → ℕ)
    → SameNode n (record n { outstanding = last; outstanding_age = age })
outstanding-SameNode n last age = ground arith

broadcast_loop-SameNode :
    (origin : MessageOrigin) (n : Node) (ps : List ℕ) → SameNode n (broadcast_loop origin n ps).0
unfolding broadcast_loop
broadcast_loop-SameNode origin n [] = SameNode-refl n
broadcast_loop-SameNode origin n (peer ∷ rest) =
    let m = (append_message n peer 0 origin).0 in
    let sent =
      SameNode-trans n m (broadcast_loop origin m rest).0 (append_message-SameNode n peer 0 origin)
        (broadcast_loop-SameNode origin m rest) in
    let skipped = broadcast_loop-SameNode origin n rest in
    elim (Bool-cases (peer == n.cfg.id)) [
      | inl e ↦ rw e skipped
      | inr e ↦ elim (Bool-cases (is_proposal origin && n.outstanding peer != 0)) [
        | inl b ↦ rw (e, b) skipped
        | inr b ↦ rw (e, b) sent
      ]
    ]

pub broadcast_append-SameNode :
    (codec : Codec) (n : Node) (origin : MessageOrigin)
    → SameNode n (broadcast_append codec n origin).0
unfolding broadcast_append
broadcast_append-SameNode codec n origin =
    broadcast_loop-SameNode origin n (replication_peers codec n)

pub append_to-SameNode :
    (context : ℕ) (origin : MessageOrigin) (n : Node) (ps : List ℕ)
    → SameNode n (append_to context origin n ps).0
unfolding append_to
append_to-SameNode context origin n [] = SameNode-refl n
append_to-SameNode context origin n (peer ∷ rest) =
    let m = (append_message n peer context origin).0 in
    SameNode-trans n m (append_to context origin m rest).0
      (append_message-SameNode n peer context origin) (append_to-SameNode context origin m rest)

expire_loop-SameNode : (limit : ℕ) (n : Node) (ps : List ℕ) → SameNode n (expire_loop limit n ps).0
unfolding expire_loop
expire_loop-SameNode limit n [] = SameNode-refl n
expire_loop-SameNode limit n (peer ∷ rest) =
    let age = n.outstanding_age peer + 1 in
    let aged : Node = record n { outstanding_age = assign n.outstanding_age peer age } in
    let ended : Node = record aged { outstanding = assign n.outstanding peer 0 } in
    let idle = expire_loop-SameNode limit n rest in
    let after_end = expire_loop-SameNode limit ended rest in
    let after_wait = expire_loop-SameNode limit aged rest in
    elim (Bool-cases (n.outstanding peer == 0)) [
      | inl e ↦ rw e idle
      | inr e ↦ elim (Bool-cases (leb limit age)) [
        | inl b ↦
            rw (e, b)
              (SameNode-trans n ended (expire_loop limit ended rest).0 (outstanding-SameNode n _ _)
                after_end)
        | inr b ↦
            rw (e, b)
              (SameNode-trans n aged (expire_loop limit aged rest).0 (outstanding-SameNode n _ _)
                after_wait)
      ]
    ]

pub expire_outstanding-SameNode :
    (codec : Codec) (n : Node) → SameNode n (expire_outstanding codec n).0
unfolding expire_outstanding
expire_outstanding-SameNode codec n =
    expire_loop-SameNode (resend_limit n) n (replication_peers codec n)
