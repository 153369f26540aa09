-- ===== src/Raft/Create.antt =====
-- internal/raft/node.go: `New`, which restores a node from its durable state.
use lsmdb.Base.{
  ℕ, ◌+◌, List, [], ◌∷◌, none, some, false, ◌&&◌, ◌||◌, not, ◌==◌, ◌!=◌, ltb, if◌then◌else◌,
  is_empty, add64, mul64, Result, ok, err, ◌>>=◌,
}
use lsmdb.Raft.Types.{
  follower, Entry, HardState, Membership, Snapshot, no_snapshot, Config, RaftError,
  too_many_snapshots, snapshot_boundary, snapshot_membership_index, not_contiguous, applied_outside,
  validate,
}
use lsmdb.Raft.Membership.{Codec, normalize_voters, validate_membership}
use lsmdb.Raft.Node.{Node, last_index, reset_election_timer, rebuild_membership}

-- New: the checks on a restored snapshot.
check_restored : List Snapshot → Result RaftError Snapshot
check_restored [] = ok no_snapshot
check_restored (s ∷ []) =
    if (if s.index == 0 then s.term != 0 else s.term == 0) || s.index == 0 && not (is_empty s.bytes)
    then err snapshot_boundary
    else if ltb s.index s.membership.index
    then err snapshot_membership_index
    else ok s
check_restored (s ∷ t ∷ rest) = err too_many_snapshots

-- Each entry at position `i` has index `base` + i + 1 and a positive term.
check_log : ℕ → ℕ → List Entry → Result RaftError (Unit {0})
check_log base i [] = ok tt
check_log base i (e ∷ es) =
    let rest = check_log base (i + 1) es in
    if e.index != add64 (add64 base i) 1 || e.term == 0 then err (not_contiguous i) else rest

restored_membership : Snapshot → Membership → Result RaftError Membership
restored_membership s initial =
    if ltb 0 s.index && not (is_empty s.membership.voters)
    then elim (validate_membership s.membership) [ some e ↦ err e | none ↦ ok s.membership ]
    else ok initial

abbrev fresh_node : Config → HardState → Snapshot → List Entry → Membership → Membership → Node
fresh_node cfg hard snapshot log initial membership = record {
  cfg = cfg;
  role = follower;
  term = hard.term;
  voted_for = hard.voted_for;
  leader_id = 0;
  snapshot = snapshot;
  log = log;
  commit = cfg.applied_index;
  initial_membership = initial;
  membership = membership;
  election_elapsed = 0;
  election_timeout = 0;
  heartbeat_elapsed = 0;
  quorum_elapsed = 0;
  random = cfg.random_seed;
  votes = λ id. none;
  next_index = λ id. 0;
  match_index = λ id. 0;
  recent_active = λ id. false;
  outstanding = λ id. 0;
  outstanding_age = λ id. 0;
  malformed_appends_dropped = 0;
  votes_ignored_in_lease = 0;
  panicked = false;
}

-- The end of `New`: the applied index must lie within the snapshot and the log.
start_node : Node → Result RaftError Node
start_node n =
    let seed = add64 (mul64 n.cfg.id 6364136223846793005) 1442695040888963407 in
    if ltb n.cfg.applied_index n.snapshot.index || ltb (last_index n) n.cfg.applied_index
    then err (applied_outside n.cfg.applied_index n.snapshot.index (last_index n))
    else ok (reset_election_timer (record n { random = if n.random == 0 then seed else n.random }))

unfoldable pub new : Codec → Config → HardState → List Entry → List Snapshot → Result RaftError Node
unfolding check_restored check_log restored_membership start_node
new codec cfg hard entries restored = elim (validate cfg) [
  | some e ↦ err e
  | none ↦ (do
    snapshot ← check_restored restored
    checked ← check_log snapshot.index 0 entries
    voters ← normalize_voters cfg.peers
    let initial : Membership = record { voters = voters; joint_voters = []; index = 0 }
    membership ← restored_membership snapshot initial
    n ←
        rebuild_membership codec
          (fresh_node (record cfg { peers = voters }) hard snapshot entries initial membership)
    start_node n)
]
