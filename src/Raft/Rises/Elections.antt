-- ===== src/Raft/Rises/Elections.antt =====
-- The commit index, and campaigns.
use lsmdb.Base.{
  ◌+◌, ◌-◌, ◌<◌, ◌≡◌, refl, ap, [], ◌∷◌, ◌++◌, ◌&&◌, not, arith, u64_mod, leb, ◌==◌, is_empty,
  Result, ok, err, if_split,
}
use lsmdb.Raft.Types.{RaftError, no_update, origin_other, origin_commit_advance}
use lsmdb.Raft.Membership.{Codec, has_quorum}
use lsmdb.Raft.Node.{Node, last_index, reset_election_timer, rebuild_membership, is_voter}
use lsmdb.Raft.Frame.{broadcast_append-SameNode, reset_election_timer-SameNode}
use lsmdb.Raft.Replicate.{
  final_entry, install_final, finish_joint, after_commit, maybe_commit, broadcast_append,
  commit_candidate,
}
use lsmdb.Raft.Election.{
  become_leader, start_election, start_pre_vote, campaigning, pre_campaigning,
}
use lsmdb.Raft.Emits.Log.{rebuild_membership-eq}
use lsmdb.Raft.Rises.Relation.{
  Rises, Rises-refl, Rises-same, SameNode-Rises, Rises-trans, Advances, advances, choose,
  become_follower-Rises,
}

install_final-Advances :
    (codec : Codec) (n : Node) (r : Result RaftError Node)
    → rebuild_membership codec (record n { log = n.log ++ final_entry codec n ∷ [] }) ≡ r
    → Advances n (install_final n (final_entry codec n) r)
unfolding install_final
install_final-Advances codec n (err e) h = advances n _ _ (Rises-same n _ refl refl (omega arith))
install_final-Advances codec n (ok m) h =
    let (x, e) = rebuild_membership-eq codec _ m h in
    advances n _ _ (
      Rises-same n _ (ap (λ (k : Node). k.term) e) (ap (λ (k : Node). k.voted_for) e)
        (omega (arith, ap (λ (k : Node). k.commit) e)))

finish_joint-Advances : (codec : Codec) (n : Node) → Advances n (finish_joint codec n)
unfolding finish_joint
finish_joint-Advances codec n =
    choose n (not (is_empty n.membership.joint_voters) && leb n.membership.index n.commit) _ _
      (install_final-Advances codec n _ refl) (advances n n no_update (Rises-refl n))

after_commit-Advances : (codec : Codec) (n : Node) → Advances n (after_commit codec n)
unfolding after_commit
after_commit-Advances codec n =
    let m = (finish_joint codec n).0 in
    let m' = (broadcast_append codec m origin_commit_advance).0 in
    let sent =
      Rises-trans n m m' ((finish_joint-Advances codec n).rises)
        (SameNode-Rises m m' (broadcast_append-SameNode codec m origin_commit_advance)) in
    choose n (leb m'.membership.index m'.commit && not (is_voter m' m'.cfg.id)) _ _
      (advances n _ _ (Rises-trans n m' _ sent (become_follower-Rises m' m'.term 0)))
      (advances n m' _ sent)

pub maybe_commit-Advances : (codec : Codec) (n : Node) → Advances n (maybe_commit codec n)
unfolding maybe_commit
maybe_commit-Advances codec n =
    let last = last_index n in
    let found = commit_candidate (last - n.commit) n last in
    let advanced : Node = record n { commit = found } in
    if_split (Advances n) (leb found n.commit) _ _ (λ _. advances n n no_update (Rises-refl n))
      (λ above. advances n _ _ (
        Rises-trans n advanced _ (Rises-same n advanced refl refl (ground arith))
          ((after_commit-Advances codec advanced).rises)))

pub become_leader-Advances : (codec : Codec) (n : Node) → Advances n (become_leader codec n)
unfolding become_leader
become_leader-Advances codec n = advances n _ _ (
    Rises-trans n _ _
      (Rises-trans n _ _ (Rises-same n _ refl refl (omega arith))
        (SameNode-Rises _ _ (broadcast_append-SameNode codec _ origin_other)))
      ((maybe_commit-Advances codec _).rises))

-- A new term, where the counter does not wrap.
campaigning-Rises : (n : Node) → n.term + 1 < u64_mod → Rises n (campaigning n)
campaigning-Rises n room = record {
  term_up = omega arith;
  vote_kept = λ t v. absurd (omega arith);
  commit_up = omega arith;
}

pub start_election-Advances :
    (codec : Codec) (n : Node) → n.term + 1 < u64_mod → Advances n (start_election codec n)
unfolding start_election
start_election-Advances codec n room =
    let m = reset_election_timer (campaigning n) in
    let started =
      Rises-trans n (campaigning n) m (campaigning-Rises n room)
        (SameNode-Rises _ _ (reset_election_timer-SameNode (campaigning n))) in
    choose n (has_quorum m.membership (λ id. id == m.cfg.id)) _ _
      (advances n _ _ (Rises-trans n m _ started ((become_leader-Advances codec m).rises)))
      (advances n m _ started)

pub start_pre_vote-Advances :
    (codec : Codec) (n : Node) → n.term + 1 < u64_mod → Advances n (start_pre_vote codec n)
unfolding start_pre_vote
start_pre_vote-Advances codec n room =
    let m = reset_election_timer (pre_campaigning n) in
    let timed = reset_election_timer-SameNode (pre_campaigning n) in
    let started =
      Rises-trans n (pre_campaigning n) m (Rises-same n (pre_campaigning n) refl refl (omega arith))
        (SameNode-Rises _ _ timed) in
    choose n (has_quorum m.membership (λ id. id == m.cfg.id)) _ _
      (advances n _ _ (
        Rises-trans n m _ started
          ((start_election-Advances codec m (omega (arith, timed.same_term))).rises)))
      (advances n m _ started)
