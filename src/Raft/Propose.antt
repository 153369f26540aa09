-- ===== src/Raft/Propose.antt =====
-- internal/raft/node.go: proposals, read probes and what a node reports.
use lsmdb.Base.{
  ℕ, List, [], ◌∷◌, ◌++◌, Bool, ◌||◌, not, ◌==◌, ◌!=◌, ltb, if◌then◌else◌, is_empty, length, add64,
  ok, err, ◌>>=◌,
}
use lsmdb.Raft.Types.{
  Entry, Membership, origin_other, origin_proposal, Update, no_update, messages_only, merge,
  not_leader, read_not_ready, change_in_progress, entry_too_large, max_entry_bytes, is_leader, Role,
}
use lsmdb.Raft.Membership.{
  Codec, config_joint, normalize_voters, equal_voters, encode_membership, has_quorum,
}
use lsmdb.Raft.Node.{Node, assign, last_index, term_at, rebuild_membership, peers}
use lsmdb.Raft.Replicate.{broadcast_append, maybe_commit}
use lsmdb.Raft.Driver.{append_to}
use lsmdb.Raft.Snapshots.{Outcome}

-- nextIndex of the peers that the new configuration brings in.
unfoldable pub start_new_peers : (ℕ → ℕ) → ℕ → List ℕ → ℕ → ℕ
start_new_peers next_index index [] = next_index
start_new_peers next_index index (peer ∷ rest) =
    start_new_peers (if next_index peer == 0 then assign next_index peer index else next_index)
      index rest

-- The joint entry is appended and in force at once.
begin_joint : Codec → Node → List ℕ → Outcome (ℕ × Update)
begin_joint codec n new_voters =
    let bytes =
      encode_membership codec
        (record { phase = config_joint; old = n.membership.voters; new = new_voters }) in
    let entry : Entry = record { index = add64 (last_index n) 1; term = n.term; bytes = bytes } in
    let grown : Node = record n { log = n.log ++ entry ∷ [] } in
    elim (rebuild_membership codec grown) [
      | err e ↦ (grown, err e)
      | ok m ↦
          let self = m.cfg.id in
          let led : Node = record m {
            match_index = assign m.match_index self entry.index;
            next_index =
                assign (start_new_peers m.next_index entry.index (peers m)) self
                  (add64 entry.index 1);
          } in
          let (sent, messages) = broadcast_append codec led origin_other in
          let (m', u) = maybe_commit codec sent in
          (
            m',
            ok (
              add64 entry.index 1,
              merge (record no_update { entries = entry ∷ []; messages = messages }) u,
            ),
          )
    ]

unfoldable pub propose_membership : Codec → Node → List ℕ → Outcome (ℕ × Update)
unfolding begin_joint
propose_membership codec n voters =
    if not (is_leader n.role)
    then (n, err not_leader)
    else if not (is_empty n.membership.joint_voters) || ltb n.commit n.membership.index
    then (n, err change_in_progress)
    else elim (normalize_voters voters) [
      | err e ↦ (n, err e)
      | ok new_voters ↦
          if equal_voters new_voters n.membership.voters
          then (n, ok (n.membership.index, no_update))
          else begin_joint codec n new_voters
    ]

-- The loop of `ProposeBatch`: the node with the commands appended, their indexes (0 for one that
-- is too large) and the new entries.
unfoldable pub append_commands : Node → List (List ℕ) → Node × List ℕ × List Entry
append_commands n [] = (n, [], [])
append_commands n (command ∷ rest) =
    let entry : Entry = record { index = add64 (last_index n) 1; term = n.term; bytes = command } in
    let (m, indexes, entries) = append_commands (record n { log = n.log ++ entry ∷ [] }) rest in
    let (s, skipped, others) = append_commands n rest in
    if ltb max_entry_bytes (length command)
    then (s, 0 ∷ skipped, others)
    else (m, entry.index ∷ indexes, entry ∷ entries)

unfoldable pub propose_batch : Codec → Node → List (List ℕ) → Outcome (List ℕ × Update)
propose_batch codec n commands =
    let (m, indexes, entries) = append_commands n commands in
    let led : Node = record m {
      match_index = assign m.match_index m.cfg.id (last_index m);
      next_index = assign m.next_index m.cfg.id (add64 (last_index m) 1);
    } in
    let (sent, messages) = broadcast_append codec led origin_proposal in
    let (m', u) = maybe_commit codec sent in
    if not (is_leader n.role)
    then (n, err not_leader)
    else if is_empty entries
    then (m, ok (indexes, no_update))
    else (m', ok (indexes, merge (record no_update { entries = entries; messages = messages }) u))

-- indexes[0]
abbrev first_index : List ℕ → ℕ
first_index [] = 0
first_index (i ∷ is) = i

unfoldable pub propose : Codec → Node → List ℕ → Outcome (ℕ × Update)
propose codec n command =
    let (m, result) = propose_batch codec n (command ∷ []) in
    if ltb max_entry_bytes (length command)
    then (n, err entry_too_large)
    else (m, result >>= λ (r : List ℕ × Update). ok (first_index r.0, r.1))

other_peers : ℕ → List ℕ → List ℕ
other_peers self [] = []
other_peers self (peer ∷ rest) =
    if peer == self then other_peers self rest else peer ∷ other_peers self rest

unfoldable pub read_probe : Codec → Node → ℕ → Outcome Update
unfolding other_peers
read_probe codec n context =
    let (m, messages) = append_to context origin_other n (other_peers n.cfg.id (peers n)) in
    if not (is_leader n.role)
    then (n, err not_leader)
    else if n.commit == 0 || term_at n n.commit != n.term
    then (n, err read_not_ready)
    else (m, ok (messages_only messages))

-- HasQuorum of a set of IDs.
unfoldable pub node_has_quorum : Node → (ℕ → Bool) → Bool
node_has_quorum n ids = has_quorum n.membership ids

-- The Go field types.go:Status; its map is nil, and reads as 0, unless the node leads.
pub record Status : Type 0 where
  pub id : ℕ
  pub role : Role
  pub term : ℕ
  pub leader_id : ℕ
  pub commit_index : ℕ
  pub last_log_index : ℕ
  pub snapshot_index : ℕ
  pub retained_log_entries : ℕ
  pub voted_for : ℕ
  pub match_index : ℕ → ℕ
  pub membership : Membership
  pub malformed_appends_dropped : ℕ
  pub votes_ignored_in_lease : ℕ

unfoldable pub status : Node → Status
status n = record {
  id = n.cfg.id;
  role = n.role;
  term = n.term;
  leader_id = n.leader_id;
  commit_index = n.commit;
  last_log_index = last_index n;
  snapshot_index = n.snapshot.index;
  retained_log_entries = length n.log;
  voted_for = n.voted_for;
  match_index = if is_leader n.role then n.match_index else λ id. 0;
  membership = n.membership;
  malformed_appends_dropped = n.malformed_appends_dropped;
  votes_ignored_in_lease = n.votes_ignored_in_lease;
}
