-- ===== src/Raft/Election.antt =====
-- internal/raft/node.go: pre-votes, votes and the start of a term.
use lsmdb.Base.{
  ℕ, List, [], ◌∷◌, ◌++◌, Option, none, some, Bool, true, false, ◌&&◌, ◌||◌, not, ◌==◌, ◌!=◌, ltb,
  leb, if◌then◌else◌, add64,
}
use lsmdb.Raft.Types.{
  candidate, pre_candidate, leader, is_pre_candidate, is_candidate, is_leader, Entry, Message,
  MessageType, origin_other, msg_pre_vote, msg_pre_vote_response, msg_vote, msg_vote_response,
  blank_message, Update, no_update, messages_only, send, merge,
}
use lsmdb.Raft.Membership.{Codec, has_quorum, vote_lost}
use lsmdb.Raft.Node.{
  Node, assign, hard_state, last_index, term_at, is_up_to_date, reset_election_timer, peers,
  is_voter, become_follower,
}
use lsmdb.Raft.Replicate.{broadcast_append, maybe_commit}

-- n.nextIndex of a new leader: `next` for each peer, and no key for any other.
next_for : List ℕ → ℕ → ℕ → ℕ
next_for [] next id = 0
next_for (peer ∷ rest) next id = if peer == id then next else next_for rest next id

unfoldable pub become_leader : Codec → Node → Node × Update
unfolding next_for
become_leader codec n =
    let last = last_index n in
    let noop : Entry = record { index = add64 last 1; term = n.term; bytes = [] } in
    let led : Node = record n {
      role = leader;
      leader_id = n.cfg.id;
      heartbeat_elapsed = 0;
      quorum_elapsed = 0;
      next_index = assign (next_for (peers n) (add64 last 1)) n.cfg.id (add64 noop.index 1);
      match_index = assign (λ id. 0) n.cfg.id noop.index;
      recent_active = λ id. false;
      outstanding = λ id. 0;
      outstanding_age = λ id. 0;
      log = n.log ++ noop ∷ [];
    } in
    let (m, messages) = broadcast_append codec led origin_other in
    let (m', u) = maybe_commit codec m in
    (
      m',
      merge (record no_update { entries = noop ∷ []; role_changed = true; messages = messages }) u,
    )

-- A request to every other peer.
unfoldable pub requests : MessageType → Node → ℕ → List ℕ → List Message
requests kind n term [] = []
requests kind n term (peer ∷ rest) =
    let message : Message = record (blank_message kind n.cfg.id peer term) {
      log_index = last_index n;
      log_term = term_at n (last_index n);
    } in
    if peer == n.cfg.id then requests kind n term rest else message ∷ requests kind n term rest

-- The votes that a campaign starts with.
abbrev pub own_vote : Node → ℕ → Option Bool
own_vote n id = if id == n.cfg.id then some true else none

-- The fields that a candidate sets, and those that a pre-candidate sets.
abbrev pub campaigning : Node → Node
campaigning n = record n {
  role = candidate;
  term = add64 n.term 1;
  voted_for = n.cfg.id;
  leader_id = 0;
  votes = own_vote n;
}

abbrev pub pre_campaigning : Node → Node
pre_campaigning n = record n { role = pre_candidate; leader_id = 0; votes = own_vote n }

unfoldable pub start_election : Codec → Node → Node × Update
start_election codec n =
    let m = reset_election_timer (campaigning n) in
    let update : Update = record no_update {
      hard_state = some (hard_state m);
      role_changed = true;
    } in
    let (led, u) = become_leader codec m in
    if has_quorum m.membership (λ id. id == m.cfg.id)
    then (led, merge update u)
    else (m, send update (requests msg_vote m m.term (peers m)))

unfoldable pub start_pre_vote : Codec → Node → Node × Update
start_pre_vote codec n =
    let m = reset_election_timer (pre_campaigning n) in
    let elected = start_election codec m in
    if has_quorum m.membership (λ id. id == m.cfg.id) then elected else (
      m,
      record no_update {
        role_changed = not (is_pre_candidate n.role);
        messages = requests msg_pre_vote m (add64 m.term 1) (peers m);
      },
    )

unfoldable pub in_lease : Node → Bool
in_lease n = is_leader n.role || n.leader_id != 0 && ltb n.election_elapsed n.cfg.election_tick_min

unfoldable pub grants_pre_vote : Node → Message → Bool
grants_pre_vote n message =
    let leader_is_recent = n.leader_id != 0 && ltb n.election_elapsed n.election_timeout in
    is_voter n n.cfg.id
    && leb (add64 n.term 1) message.term
    && not leader_is_recent
    && is_up_to_date n message.log_index message.log_term

unfoldable pub handle_pre_vote : Node → Message → Message
handle_pre_vote n message =
    let grant = grants_pre_vote n message in
    record (blank_message msg_pre_vote_response n.cfg.id message.from
      (if grant then message.term else n.term)) { reject = not grant }

-- votes[id], and whether a vote is there and is a refusal
abbrev pub granted : (ℕ → Option Bool) → ℕ → Bool
granted votes id = elim (votes id) [ none ↦ false | some vote ↦ vote ]

abbrev pub refused : (ℕ → Option Bool) → ℕ → Bool
refused votes id = elim (votes id) [ none ↦ false | some vote ↦ not vote ]

unfoldable pub handle_pre_vote_response : Codec → Node → Message → Node × Update
handle_pre_vote_response codec n message =
    let grant = not message.reject && message.term == add64 n.term 1 in
    let rejection = message.reject && leb message.term n.term in
    let m : Node = record n { votes = assign n.votes message.from (some grant) } in
    if message.reject && ltb n.term message.term
    then become_follower n message.term 0
    else if not (is_pre_candidate n.role) || not grant && not rejection
    then (n, no_update)
    else if has_quorum m.membership (granted m.votes)
    then start_election codec m
    else if vote_lost m.membership (refused m.votes)
    then become_follower m m.term 0
    else (m, no_update)

unfoldable pub grants_vote : Node → Message → Bool
grants_vote n message =
    let can_vote = n.voted_for == 0 || n.voted_for == message.from in
    is_voter n n.cfg.id && can_vote && is_up_to_date n message.log_index message.log_term

unfoldable pub handle_vote : Node → Message → Node × Update
handle_vote n message =
    let grant = grants_vote n message in
    let m = reset_election_timer (record n { voted_for = message.from; leader_id = 0 }) in
    let response : Message = record (blank_message msg_vote_response n.cfg.id message.from n.term) {
      reject = not grant;
    } in
    if grant
    then (m, record (messages_only (response ∷ [])) { hard_state = some (hard_state m) })
    else (n, messages_only (response ∷ []))

unfoldable pub handle_vote_response : Codec → Node → Message → Node × Update
handle_vote_response codec n message =
    let m : Node = record n { votes = assign n.votes message.from (some (not message.reject)) } in
    if not (is_candidate n.role) || message.term != n.term
    then (n, no_update)
    else if has_quorum m.membership (granted m.votes)
    then become_leader codec m
    else if vote_lost m.membership (refused m.votes)
    then become_follower m m.term 0
    else (m, no_update)
