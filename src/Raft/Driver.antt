-- ===== src/Raft/Driver.antt =====
-- internal/raft/node.go: the calls that drive a node.
use lsmdb.Base.{
  ℕ, ◌+◌, List, [], ◌∷◌, Option, none, some, Bool, true, false, ◌&&◌, ◌||◌, not, ◌==◌, ◌!=◌, ltb,
  leb, if◌then◌else◌, add64,
}
use lsmdb.Raft.Types.{
  Message, MessageType, MessageOrigin, Malformed, msg_pre_vote, msg_pre_vote_response, msg_vote,
  msg_vote_response, msg_append, msg_append_response, msg_snapshot, msg_snapshot_response,
  other_message, origin_heartbeat, blank_message, Update, no_update, messages_only, merge,
  is_leader,
}
use lsmdb.Raft.Membership.{Codec, has_quorum}
use lsmdb.Raft.Node.{
  Node, assign, last_index, peers, is_voter, is_communication_peer, become_follower,
}
use lsmdb.Raft.Replicate.{append_message, broadcast_append, expire_outstanding}
use lsmdb.Raft.Election.{
  start_pre_vote, in_lease, handle_pre_vote, handle_pre_vote_response, handle_vote,
  handle_vote_response,
}
use lsmdb.Raft.Append.{malformed_append, handle_append, handle_append_response}
use lsmdb.Raft.Snapshots.{handle_snapshot, handle_snapshot_response}

-- An append to each peer of the list.
unfoldable pub append_to : ℕ → MessageOrigin → Node → List ℕ → Node × List Message
append_to context origin n [] = (n, [])
append_to context origin n (peer ∷ rest) =
    let (m, message) = append_message n peer context origin in
    let (m', messages) = append_to context origin m rest in (m', message ∷ messages)

-- The peers heard from since the last check, and the map with their marks cleared.
unfoldable pub collect_active : ℕ → (ℕ → Bool) → List ℕ → (ℕ → Bool) → (ℕ → Bool) × (ℕ → Bool)
collect_active self recent [] active = (recent, active)
collect_active self recent (peer ∷ rest) active =
    collect_active self (assign recent peer false) rest
      (if peer != self && recent peer then assign active peer true else active)

-- A leader that has not heard from a quorum for a while steps down.
unfoldable pub check_quorum : Node → Node × Update
unfolding collect_active
check_quorum n =
    let self = if is_voter n n.cfg.id then assign (λ id. false) n.cfg.id true else λ id. false in
    let (recent, active) = collect_active n.cfg.id n.recent_active (peers n) self in
    let m : Node = record n { quorum_elapsed = 0; recent_active = recent } in
    let (f, down) = become_follower m m.term 0 in
    if ltb n.quorum_elapsed n.cfg.check_quorum_ticks
    then (n, no_update)
    else if has_quorum n.membership active
    then (m, no_update)
    else (f, down)

unfoldable pub leader_tick : Codec → Node → Node × Update
unfolding append_to
leader_tick codec n =
    let aged : Node = record n {
      heartbeat_elapsed = n.heartbeat_elapsed + 1;
      quorum_elapsed = n.quorum_elapsed + 1;
    } in
    let (m, expired) = expire_outstanding codec aged in
    let beat = broadcast_append codec (record m { heartbeat_elapsed = 0 }) origin_heartbeat in
    let resent = append_to 0 origin_heartbeat m expired in
    let (s, messages) : Node × List Message =
      if leb m.cfg.heartbeat_ticks m.heartbeat_elapsed then beat else resent in
    let (s', down) = check_quorum s in (s', merge (messages_only messages) down)

unfoldable pub tick : Codec → Node → Node × Update
tick codec n =
    let led = leader_tick codec n in
    let waited : Node = record n { election_elapsed = n.election_elapsed + 1 } in
    let (m, u) = start_pre_vote codec waited in
    if is_leader n.role
    then led
    else if not (is_voter n n.cfg.id)
    then (n, no_update)
    else if leb waited.election_timeout waited.election_elapsed
    then (m, merge no_update u)
    else (waited, no_update)

unfoldable pub reject_stale : Node → Message → Message
reject_stale n message =
    let response = λ (kind : MessageType).
      record (blank_message kind n.cfg.id message.from n.term) { reject = true } in
    elim message.kind [
      | msg_vote ↦ response msg_vote_response
      | msg_append ↦ record (response msg_append_response) { reject_hint = add64 (last_index n) 1 }
      | msg_snapshot ↦ response msg_snapshot_response
      | kind ↦ response kind
    ]

abbrev pub is_pre_vote_kind : MessageType → Bool
is_pre_vote_kind msg_pre_vote = true
is_pre_vote_kind msg_pre_vote_response = true
is_pre_vote_kind _ = false

unfoldable pub dispatch : Codec → MessageType → Node → Message → Node × Update
dispatch codec msg_pre_vote n message = (n, messages_only (handle_pre_vote n message ∷ []))
dispatch codec msg_pre_vote_response n message = handle_pre_vote_response codec n message
dispatch codec msg_vote n message = handle_vote n message
dispatch codec msg_vote_response n message = handle_vote_response codec n message
dispatch codec msg_append n message = handle_append codec n message
dispatch codec msg_append_response n message = handle_append_response codec n message
dispatch codec msg_snapshot n message = handle_snapshot codec n message
dispatch codec msg_snapshot_response n message = handle_snapshot_response codec n message
dispatch codec (other_message type) n message = (n, no_update)

-- The checks of the term, then the handler.
unfoldable pub step_in_term : Codec → Node → Message → Node × Update
step_in_term codec n message =
    let (f, down) = become_follower n message.term 0 in
    let (m, u) = dispatch codec message.kind f message in
    let current = dispatch codec message.kind n message in
    if is_pre_vote_kind message.kind
    then current
    else if ltb n.term message.term
    then (m, merge down u)
    else if ltb message.term n.term
    then (n, messages_only (reject_stale n message ∷ []))
    else current

abbrev pub dropped : MessageType → Message → Option Malformed
dropped msg_append message = malformed_append message
dropped _ message = none

abbrev pub is_vote : MessageType → Bool
is_vote msg_vote = true
is_vote _ = false

-- A malformed append is dropped, and a vote request within the lease is ignored.
unfoldable pub kept : Codec → Node → Message → Option Malformed → Node × Update
kept codec n message (some reason) = (
  record n { malformed_appends_dropped = add64 n.malformed_appends_dropped 1 },
  record no_update {
    dropped_append = some (record { from = message.from; term = message.term; reason = reason });
  },
)
kept codec n message none =
    let handled = step_in_term codec n message in
    if is_vote message.kind && ltb n.term message.term && in_lease n
    then (record n { votes_ignored_in_lease = add64 n.votes_ignored_in_lease 1 }, no_update)
    else handled

unfoldable pub step : Codec → Node → Message → Node × Update
step codec n message =
    let handled = kept codec n message (dropped message.kind message) in
    if message.to != 0 && message.to != n.cfg.id
    then (n, no_update)
    else if not (is_communication_peer codec n message.from) || message.from == n.cfg.id
    then (n, no_update)
    else handled
