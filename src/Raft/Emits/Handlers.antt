-- ===== src/Raft/Emits/Handlers.antt =====
-- internal/raft/node.go: what the handlers of messages and the ticks write to the durable state.
use lsmdb.Base.{
  ℕ, ◌+◌, ◌≡◌, refl, ◌∙◌, List, [], ◌∷◌, some, Bool, true, false, if◌then◌else◌, add64, min, ◌!=◌,
  not, ◌&&◌, ◌||◌, ◌==◌, leb, ltb, if_both,
}
use lsmdb.Raft.Types.{
  Message, MessageOrigin, Update, no_update, merge, send, messages_only, origin_heartbeat,
  is_pre_candidate, is_candidate, is_leader,
}
use lsmdb.Raft.Membership.{Codec, has_quorum, vote_lost}
use lsmdb.Raft.Node.{Node, is_voter, peers, assign, last_index, hard_state}
use lsmdb.Raft.Frame.{
  append_message-SameNode, settle_outstanding-SameNode, broadcast_append-SameNode,
  reset_election_timer-SameNode, append_to-SameNode, expire_outstanding-SameNode,
}
use lsmdb.Raft.Replicate.{
  broadcast_append, append_message, settle_outstanding, maybe_commit, expire_outstanding,
}
use lsmdb.Raft.Election.{
  granted, refused, grants_vote, handle_pre_vote_response, handle_vote, handle_vote_response,
}
use lsmdb.Raft.Append.{handle_append_response}
use lsmdb.Raft.Snapshots.{handle_snapshot_response}
use lsmdb.Raft.Driver.{append_to, collect_active, check_quorum, leader_tick, tick}
use lsmdb.Raft.Emits.Relation.{
  Emits, Writes, Emits-still, Emits-refl, Emits-send, Emits-before, Emits-after, Emits-merge,
  hard_state-SameNode,
}
use lsmdb.Raft.Emits.Log.{
  become_follower-Emits, maybe_commit-Emits, become_leader-Emits, start_election-Emits,
  start_pre_vote-Emits, campaign-Emits,
}

either :
    (n : Node) (b : Bool) (x y : Node × Update)
    → Writes n x
    → Writes n y
    → Writes n (if b then x else y)
either n = if_both (Writes n)

quiet : (n : Node) → Writes n (n, no_update)
quiet n = record { emits = Emits-refl n }

-- A change of the bookkeeping of votes and peers, and then the step `r`.
module _ (n m : Node) (r : Node × Update) where
  prepared :
      hard_state m ≡ hard_state n
      → m.snapshot ≡ n.snapshot
      → m.log ≡ n.log
      → Emits m r.0 r.1
      → Writes n r
  prepared h s l e = record { emits = Emits-before n m r.0 r.1 h s l e }

-- What a node learns of the sender of a response leaves the durable state alone.
abbrev Heard : Node → Node → Type 0
Heard n m = (hard_state m ≡ hard_state n) × (m.snapshot ≡ n.snapshot) × (m.log ≡ n.log)

module _ (codec : Codec) (n : Node) (message : Message) where
  pub handle_pre_vote_response-Writes : Writes n (handle_pre_vote_response codec n message)
  unfolding handle_pre_vote_response
  handle_pre_vote_response-Writes =
      let grant = not message.reject && message.term == add64 n.term 1 in
      let rejection = message.reject && leb message.term n.term in
      let m : Node = record n { votes = assign n.votes message.from (some grant) } in
      either n (message.reject && ltb n.term message.term) _ _
        (record { emits = become_follower-Emits n message.term 0 })
        (either n (not (is_pre_candidate n.role) || not grant && not rejection) _ _ (quiet n) (
          either n (has_quorum m.membership (granted m.votes)) _ _
            (prepared n m _ refl refl refl (start_election-Emits codec m))
            (either n (vote_lost m.membership (refused m.votes)) _ _
              (prepared n m _ refl refl refl (become_follower-Emits m m.term 0))
              (record { emits = Emits-still n _ _ refl refl refl refl refl refl refl }))))

  pub handle_vote_response-Writes : Writes n (handle_vote_response codec n message)
  unfolding handle_vote_response
  handle_vote_response-Writes =
      let m : Node = record n { votes = assign n.votes message.from (some (not message.reject)) } in
      either n (not (is_candidate n.role) || message.term != n.term) _ _ (quiet n) (
        either n (has_quorum m.membership (granted m.votes)) _ _
          (prepared n m _ refl refl refl (become_leader-Emits codec m))
          (either n (vote_lost m.membership (refused m.votes)) _ _
            (prepared n m _ refl refl refl (become_follower-Emits m m.term 0))
            (record { emits = Emits-still n m no_update refl refl refl refl refl refl refl })))

  pub handle_vote-Writes : Writes n (handle_vote n message)
  unfolding handle_vote
  handle_vote-Writes =
      let timed =
        reset_election_timer-SameNode (record n { voted_for = message.from; leader_id = 0 }) in
      either n (grants_vote n message) _ _
        (record {
          emits = campaign-Emits n _ _ refl timed.same_snapshot timed.same_log refl refl refl;
        })
        (record { emits = Emits-still n _ _ refl refl refl refl refl refl refl })

  probe-Writes :
      (m : Node) (u : Update) (context : ℕ) (origin : MessageOrigin)
      → Emits n m u
      → Writes n (
        (append_message m message.from context origin).0,
        send u ((append_message m message.from context origin).1 ∷ []),
      )
  probe-Writes m u context origin h = record {
    emits =
        Emits-send n _ u _
          (Emits-after n m _ u h (append_message-SameNode m message.from context origin));
  }

  acked-Emits :
      (m : Node)
      → hard_state m ≡ hard_state n
      → m.snapshot ≡ n.snapshot
      → m.log ≡ n.log
      → Emits n
          (maybe_commit codec (settle_outstanding m message.from)).0
          (maybe_commit codec (settle_outstanding m message.from)).1
  acked-Emits m h s l =
      let settled = settle_outstanding-SameNode m message.from in
      Emits-before n _ _ _ (hard_state-SameNode _ _ settled ∙ h) (settled.same_snapshot ∙ s)
        (settled.same_log ∙ l) (maybe_commit-Emits codec _)

  Heard-either : (b : Bool) (x y : Node) → Heard n x → Heard n y → Heard n (if b then x else y)
  Heard-either = if_both (Heard n)

  pub handle_append_response-Writes : Writes n (handle_append_response codec n message)
  unfolding handle_append_response
  handle_append_response-Writes =
      let peer = message.from in
      let heard : Node = record n { recent_active = assign n.recent_active peer true } in
      let matched = min message.log_index (last_index n) in
      let higher = ltb (n.match_index peer) message.log_index in
      let grown : Node = record heard {
        match_index = assign n.match_index peer matched;
        next_index = assign n.next_index peer (add64 matched 1);
      } in
      let acked : Node = if higher then grown else heard in
      let same = Heard-either higher grown heard (refl, refl, refl) (refl, refl, refl) in
      let written = acked-Emits acked same.0 same.1 same.2 in
      let m = (maybe_commit codec (settle_outstanding acked peer)).0 in
      either n (not (is_leader n.role) || message.term != n.term) _ _ (quiet n) (
        either n message.reject _ _
          (probe-Writes _ no_update _ _ (Emits-still n _ _ refl refl refl refl refl refl refl))
          (either n
            ((higher && ltb (n.match_index peer) matched)
              && m.outstanding peer == 0
              && leb (m.next_index peer) (last_index m))
            _ _ (probe-Writes _ _ _ _ written) (record { emits = written })))

  pub handle_snapshot_response-Writes : Writes n (handle_snapshot_response codec n message)
  unfolding handle_snapshot_response
  handle_snapshot_response-Writes =
      let peer = message.from in
      let heard : Node = record n { recent_active = assign n.recent_active peer true } in
      let matched = min message.log_index (last_index n) in
      let higher = ltb (n.match_index peer) matched in
      let grown : Node = record heard {
        match_index = assign n.match_index peer matched;
        next_index = assign n.next_index peer (add64 matched 1);
      } in
      let acked : Node = if higher then grown else heard in
      let same = Heard-either higher grown heard (refl, refl, refl) (refl, refl, refl) in
      let written = acked-Emits acked same.0 same.1 same.2 in
      let m = (maybe_commit codec (settle_outstanding acked peer)).0 in
      either n (not (is_leader n.role) || message.term != n.term) _ _ (quiet n) (
        either n message.reject _ _
          (probe-Writes _ no_update _ _ (Emits-still n _ _ refl refl refl refl refl refl refl))
          (either n (leb (m.next_index peer) (last_index m)) _ _ (probe-Writes _ _ _ _ written)
            (record { emits = written })))

-- A leader steps down, or keeps its role.
check_quorum-Writes : (n : Node) → Writes n (check_quorum n)
unfolding check_quorum
check_quorum-Writes n =
    let self = if is_voter n n.cfg.id then assign (λ id. false) n.cfg.id true else λ id. false in
    let (recent, active) = collect_active n.cfg.id n.recent_active (peers n) self in
    let m : Node = record n { quorum_elapsed = 0; recent_active = recent } in
    either n (ltb n.quorum_elapsed n.cfg.check_quorum_ticks) _ _ (quiet n) (
      either n (has_quorum n.membership active) _ _
        (record { emits = Emits-still n m no_update refl refl refl refl refl refl refl })
        (prepared n m _ refl refl refl (become_follower-Emits m m.term 0)))

-- A step that sends messages, and then the check of the quorum.
sent_check-Writes :
    (n s : Node) (messages : List Message)
    → hard_state s ≡ hard_state n
    → s.snapshot ≡ n.snapshot
    → s.log ≡ n.log
    → Writes n ((check_quorum s).0, merge (messages_only messages) (check_quorum s).1)
sent_check-Writes n s messages h b l = record {
  emits =
      Emits-merge n s _ _ _ (Emits-still n s _ h b l refl refl refl refl)
        ((check_quorum-Writes s).emits) tt;
}

abbrev Unwritten : Node → Node × List Message → Type 0
Unwritten n r = Heard n r.0

leader_tick-Writes : (codec : Codec) (n : Node) → Writes n (leader_tick codec n)
unfolding leader_tick
leader_tick-Writes codec n =
    let aged : Node = record n {
      heartbeat_elapsed = n.heartbeat_elapsed + 1;
      quorum_elapsed = n.quorum_elapsed + 1;
    } in
    let m = (expire_outstanding codec aged).0 in
    let expired = (expire_outstanding codec aged).1 in
    let beating : Node = record m { heartbeat_elapsed = 0 } in
    let beat = broadcast_append codec beating origin_heartbeat in
    let resent = append_to 0 origin_heartbeat m expired in
    let aged_same = expire_outstanding-SameNode codec aged in
    let beat_same = broadcast_append-SameNode codec beating origin_heartbeat in
    let resent_same = append_to-SameNode 0 origin_heartbeat m expired in
    let s : Node × List Message =
      if leb m.cfg.heartbeat_ticks m.heartbeat_elapsed then beat else resent in
    let same : Unwritten n s =
      if_both (Unwritten n) (leb m.cfg.heartbeat_ticks m.heartbeat_elapsed) beat resent
        (
          hard_state-SameNode _ _ beat_same ∙ hard_state-SameNode _ _ aged_same,
          beat_same.same_snapshot ∙ aged_same.same_snapshot,
          beat_same.same_log ∙ aged_same.same_log,
        )
        (
          hard_state-SameNode _ _ resent_same ∙ hard_state-SameNode _ _ aged_same,
          resent_same.same_snapshot ∙ aged_same.same_snapshot,
          resent_same.same_log ∙ aged_same.same_log,
        ) in
    sent_check-Writes n s.0 s.1 same.0 same.1 same.2

pub tick-Writes : (codec : Codec) (n : Node) → Writes n (tick codec n)
unfolding tick
tick-Writes codec n =
    let waited : Node = record n { election_elapsed = n.election_elapsed + 1 } in
    let still = Emits-still n waited no_update refl refl refl refl refl refl refl in
    either n (is_leader n.role) _ _ (leader_tick-Writes codec n) (
      either n (not (is_voter n n.cfg.id)) _ _ (quiet n) (
        either n (leb waited.election_timeout waited.election_elapsed) _ _
          (record {
            emits = Emits-merge n waited _ no_update _ still (start_pre_vote-Emits codec waited) tt;
          })
          (record { emits = still })))
