-- ===== src/Raft/Rises/Relation.antt =====
-- What holds between a node and the node after a step, for each way in which steps are put together.
use lsmdb.Base.{ℕ, ◌≤◌, ◌≡◌, ◌≢◌, refl, sym, ◌∙◌, Bool, if◌then◌else◌, arith, if_both}
use lsmdb.Raft.Types.{Update}
use lsmdb.Raft.Node.{Node, become_follower, reset_election_timer}
use lsmdb.Raft.Frame.{SameNode}

-- From `n` to `m` the term does not fall, a vote of the same term stays, and the commit index does
-- not fall.
pub record Rises (n m : Node) : Type 0 where
  pub term_up : n.term ≤ m.term
  pub vote_kept : m.term ≡ n.term → n.voted_for ≢ 0 → m.voted_for ≡ n.voted_for
  pub commit_up : n.commit ≤ m.commit

pub Rises-refl : (n : Node) → Rises n n
Rises-refl n = record { term_up = omega arith; vote_kept = λ t v. refl; commit_up = omega arith }

-- The three fields are as before, or the commit index is higher.
pub Rises-same :
    (n m : Node) → m.term ≡ n.term → m.voted_for ≡ n.voted_for → n.commit ≤ m.commit → Rises n m
Rises-same n m t v c = record { term_up = omega arith; vote_kept = λ _ _. v; commit_up = c }

pub SameNode-Rises : (n m : Node) → SameNode n m → Rises n m
SameNode-Rises n m s = Rises-same n m s.same_term s.same_vote (omega (arith, s.same_commit))

pub Rises-trans : (n m k : Node) → Rises n m → Rises m k → Rises n k
Rises-trans n m k p q = record {
  term_up = omega (arith, p.term_up, q.term_up);
  vote_kept = λ t v.
      let t1 : m.term ≡ n.term = omega (arith, p.term_up, q.term_up) in
      let v1 = p.vote_kept t1 v in q.vote_kept (t ∙ sym t1) (λ z. v (sym v1 ∙ z)) ∙ v1;
  commit_up = omega (arith, p.commit_up, q.commit_up);
}

-- The same of a step's result.
pub record Advances (n : Node) (r : Node × Update) : Type 0 where
  pub rises : Rises n r.0

pub advances : (n m : Node) (u : Update) → Rises n m → Advances n (m, u)
advances n m u h = record { rises = h }

pub choose :
    (n : Node) (b : Bool) (x y : Node × Update)
    → Advances n x
    → Advances n y
    → Advances n (if b then x else y)
choose n = if_both (Advances n)

pub become_follower-Rises : (n : Node) (term leader : ℕ) → Rises n (become_follower n term leader).0
unfolding become_follower reset_election_timer
become_follower-Rises n term leader = record {
  term_up = ground arith;
  vote_kept = λ t v. ground arith;
  commit_up = omega arith;
}
