-- ===== src/Raft/Rises/Handlers.antt =====
-- The handlers of messages.
use lsmdb.Base.{
  ℕ, ◌+◌, ◌<◌, ◌≡◌, ◌≢◌, refl, ◌∙◌, some, true, ◌&&◌, ◌||◌, ◌==◌, ◌!=◌, not, if◌then◌else◌, arith,
  add64, u64_mod, ltb, leb, min, if_both, if_split,
}
use lsmdb.Raft.Types.{
  Message, MessageOrigin, Update, no_update, is_pre_candidate, is_candidate, is_leader,
}
use lsmdb.Raft.Membership.{Codec, has_quorum, vote_lost}
use lsmdb.Raft.Node.{Node, assign, last_index, become_follower}
use lsmdb.Raft.Frame.{
  reset_election_timer-SameNode, append_message-SameNode, settle_outstanding-SameNode,
}
use lsmdb.Raft.Replicate.{append_message, settle_outstanding, maybe_commit}
use lsmdb.Raft.Election.{
  granted, refused, grants_vote, handle_pre_vote_response, handle_vote, handle_vote_response,
}
use lsmdb.Raft.Append.{handle_append_response}
use lsmdb.Raft.Snapshots.{handle_snapshot_response}
use lsmdb.Raft.Rises.Relation.{
  Rises, Rises-refl, Rises-same, SameNode-Rises, Rises-trans, Advances, advances, choose,
  become_follower-Rises,
}
use lsmdb.Raft.Rises.Elections.{
  maybe_commit-Advances, become_leader-Advances, start_election-Advances,
}

pub idle : (n : Node) (u : Update) → Advances n (n, u)
idle n u = advances n n u (Rises-refl n)

-- A change of the bookkeeping of votes and peers, and then a step.
pub prepared :
    (n m : Node) (r : Node × Update)
    → m.term ≡ n.term
    → m.voted_for ≡ n.voted_for
    → m.commit ≡ n.commit
    → Advances m r
    → Advances n r
prepared n m r t v c h = record {
  rises = Rises-trans n m r.0 (Rises-same n m t v (omega (arith, c))) h.rises;
}

pub down : (m : Node) → Advances m (become_follower m m.term 0)
down m = record { rises = become_follower-Rises m m.term 0 }

-- The term, the vote and the commit index are the same.
abbrev Unmoved : Node → Node → Type 0
Unmoved n m = (m.term ≡ n.term) × (m.voted_for ≡ n.voted_for) × (m.commit ≡ n.commit)

module _ (codec : Codec) (n : Node) (message : Message) where
  pub handle_pre_vote_response-Advances :
      n.term + 1 < u64_mod → Advances n (handle_pre_vote_response codec n message)
  unfolding handle_pre_vote_response
  handle_pre_vote_response-Advances room =
      let grant = not message.reject && message.term == add64 n.term 1 in
      let rejection = message.reject && leb message.term n.term in
      let m : Node = record n { votes = assign n.votes message.from (some grant) } in
      choose n (message.reject && ltb n.term message.term) _ _
        (record { rises = become_follower-Rises n message.term 0 })
        (choose n (not (is_pre_candidate n.role) || not grant && not rejection) _ _
          (idle n no_update)
          (choose n (has_quorum m.membership (granted m.votes)) _ _
            (prepared n m _ refl refl refl (start_election-Advances codec m room))
            (choose n (vote_lost m.membership (refused m.votes)) _ _
              (prepared n m _ refl refl refl (down m))
              (advances n m no_update (Rises-same n m refl refl (omega arith))))))

  pub handle_vote_response-Advances : Advances n (handle_vote_response codec n message)
  unfolding handle_vote_response
  handle_vote_response-Advances =
      let m : Node = record n { votes = assign n.votes message.from (some (not message.reject)) } in
      choose n (not (is_candidate n.role) || message.term != n.term) _ _ (idle n no_update) (
        choose n (has_quorum m.membership (granted m.votes)) _ _
          (prepared n m _ refl refl refl (become_leader-Advances codec m))
          (choose n (vote_lost m.membership (refused m.votes)) _ _
            (prepared n m _ refl refl refl (down m))
            (advances n m no_update (Rises-same n m refl refl (omega arith)))))

  granting : grants_vote n message ≡ true → n.voted_for ≢ 0 → message.from ≡ n.voted_for
  unfolding grants_vote
  granting h v = ground arith

  pub handle_vote-Advances : Advances n (handle_vote n message)
  unfolding handle_vote
  handle_vote-Advances =
      let voted : Node = record n { voted_for = message.from; leader_id = 0 } in
      let timed = reset_election_timer-SameNode voted in
      if_split (Advances n) (grants_vote n message) _ _
        (λ yes'. advances n _ _ (record {
          term_up = omega (arith, timed.same_term);
          vote_kept = λ t v. timed.same_vote ∙ granting yes' v;
          commit_up = omega (arith, timed.same_commit);
        }))
        (λ _. idle n _)

  probe :
      (m : Node) (u v : Update) (context : ℕ) (origin : MessageOrigin)
      → Rises n m
      → Advances n ((append_message m message.from context origin).0, v)
  probe m u v context origin h = advances n _ v (
      Rises-trans n m _ h
        (SameNode-Rises _ _ (append_message-SameNode m message.from context origin)))

  acked-Rises :
      (m : Node)
      → m.term ≡ n.term
      → m.voted_for ≡ n.voted_for
      → m.commit ≡ n.commit
      → Rises n (maybe_commit codec (settle_outstanding m message.from)).0
  acked-Rises m t v c =
      let settled = settle_outstanding-SameNode m message.from in
      (prepared n (settle_outstanding m message.from) _ (settled.same_term ∙ t)
        (settled.same_vote ∙ v) (settled.same_commit ∙ c) (maybe_commit-Advances codec _)).rises

  pub handle_append_response-Advances : Advances n (handle_append_response codec n message)
  unfolding handle_append_response
  handle_append_response-Advances =
      let peer = message.from in
      let heard : Node = record n { recent_active = assign n.recent_active peer true } in
      let matched = min message.log_index (last_index n) in
      let higher = ltb (n.match_index peer) message.log_index in
      let grown : Node = record heard {
        match_index = assign n.match_index peer matched;
        next_index = assign n.next_index peer (add64 matched 1);
      } in
      let acked : Node = if higher then grown else heard in
      let same = if_both (Unmoved n) higher grown heard (refl, refl, refl) (refl, refl, refl) in
      let risen = acked-Rises acked same.0 same.1 same.2 in
      let m = (maybe_commit codec (settle_outstanding acked peer)).0 in
      choose n (not (is_leader n.role) || message.term != n.term) _ _ (idle n no_update) (
        choose n message.reject _ _
          (probe _ no_update _ _ _ (Rises-same n _ refl refl (omega arith)))
          (choose n
            ((higher && ltb (n.match_index peer) matched)
              && m.outstanding peer == 0
              && leb (m.next_index peer) (last_index m))
            _ _ (probe m no_update _ _ _ risen) (advances n m _ risen)))

  pub handle_snapshot_response-Advances : Advances n (handle_snapshot_response codec n message)
  unfolding handle_snapshot_response
  handle_snapshot_response-Advances =
      let peer = message.from in
      let heard : Node = record n { recent_active = assign n.recent_active peer true } in
      let matched = min message.log_index (last_index n) in
      let higher = ltb (n.match_index peer) matched in
      let grown : Node = record heard {
        match_index = assign n.match_index peer matched;
        next_index = assign n.next_index peer (add64 matched 1);
      } in
      let acked : Node = if higher then grown else heard in
      let same = if_both (Unmoved n) higher grown heard (refl, refl, refl) (refl, refl, refl) in
      let risen = acked-Rises acked same.0 same.1 same.2 in
      let m = (maybe_commit codec (settle_outstanding acked peer)).0 in
      choose n (not (is_leader n.role) || message.term != n.term) _ _ (idle n no_update) (
        choose n message.reject _ _
          (probe _ no_update _ _ _ (Rises-same n _ refl refl (omega arith)))
          (choose n (leb (m.next_index peer) (last_index m)) _ _ (probe m no_update _ _ _ risen)
            (advances n m _ risen)))
