-- ===== src/Raft/Node.antt =====
-- internal/raft/node.go: the state of a node, its log and its configuration. A method that changes
-- the node returns the new node. A Go map is a function that is the zero value where the map has no
-- key. `panicked` is no field of the source: it is set where the source panics, and what the model
-- does after that stands for nothing. Counters of ticks are numbers.
use lsmdb.Base.{
  ℕ, ◌+◌, ◌-◌, ◌%◌, List, [], ◌∷◌, Option, none, some, Bool, ◌&&◌, ◌||◌, not, ◌==◌, ◌!=◌, ltb, leb,
  if◌then◌else◌, is_empty, length, get_elem?, take, drop, min, add64, mul64, Result, ok, err, ◌>>=◌,
}
use lsmdb.Raft.Types.{
  Role, follower, is_follower, Update, no_update, Entry, HardState, Membership, Snapshot, Config,
  RaftError,
}
use lsmdb.Raft.Membership.{Codec, decode_membership, apply_membership, union_voters, contains_voter}

pub record Node : Type 0 where
  pub cfg : Config
  pub role : Role
  pub term : ℕ
  pub voted_for : ℕ
  pub leader_id : ℕ
  pub snapshot : Snapshot
  pub log : List Entry
  pub commit : ℕ
  pub initial_membership : Membership
  pub membership : Membership
  pub election_elapsed : ℕ
  pub election_timeout : ℕ
  pub heartbeat_elapsed : ℕ
  pub quorum_elapsed : ℕ
  pub random : ℕ
  pub votes : ℕ → Option Bool
  pub next_index : ℕ → ℕ
  pub match_index : ℕ → ℕ
  pub recent_active : ℕ → Bool
  pub outstanding : ℕ → ℕ
  pub outstanding_age : ℕ → ℕ
  pub malformed_appends_dropped : ℕ
  pub votes_ignored_in_lease : ℕ
  pub panicked : Bool

-- m[k] = v
abbrev pub assign {ℓ} : {A : Type ℓ} → (ℕ → A) → ℕ → A → ℕ → A
assign m k v j = if j == k then v else m j

abbrev pub hard_state : Node → HardState
hard_state n = record { term = n.term; voted_for = n.voted_for }

unfoldable pub last_index : Node → ℕ
last_index n = add64 n.snapshot.index (length n.log)

entry_term : Option Entry → ℕ
entry_term none = 0
entry_term (some e) = e.term

-- The slice is read behind the bounds test, so the subtraction is exact.
unfoldable pub term_at : Node → ℕ → ℕ
unfolding last_index entry_term
term_at n index =
    if index == 0
    then 0
    else if index == n.snapshot.index
    then n.snapshot.term
    else if leb index n.snapshot.index || ltb (last_index n) index
    then 0
    else entry_term (get_elem? n.log (index - n.snapshot.index - 1))

unfoldable pub entries_between : Node → ℕ → ℕ → List Entry
unfolding last_index
entries_between n from to =
    if leb to from || leb from n.snapshot.index || ltb (last_index n) from
    then []
    else let end = min to (add64 (last_index n) 1) in
      let first = from - n.snapshot.index - 1 in
      take (end - n.snapshot.index - 1 - first) (drop first n.log)

unfoldable pub is_up_to_date : Node → ℕ → ℕ → Bool
is_up_to_date n index term =
    let local_term = term_at n (last_index n) in
    ltb local_term term || term == local_term && leb (last_index n) index

unfoldable pub reset_election_timer : Node → Node
reset_election_timer n =
    let random = add64 (mul64 n.random 6364136223846793005) 1442695040888963407 in
    let span = n.cfg.election_tick_max - n.cfg.election_tick_min in
    record n {
      election_elapsed = 0;
      random = random;
      election_timeout = n.cfg.election_tick_min + random % span;
    }

unfoldable pub compact_log : Node → Snapshot → Node
compact_log n snapshot =
    let suffix = entries_between n (add64 snapshot.index 1) (add64 (last_index n) 1) in
    record n {
      snapshot = snapshot;
      log =
          if ltb snapshot.index (last_index n) && term_at n snapshot.index == snapshot.term
          then suffix
          else [];
    }

-- The configuration before the first entry of the log.
unfoldable pub base_membership : Node → Membership
base_membership n =
    if ltb 0 n.snapshot.index && not (is_empty n.snapshot.membership.voters)
    then n.snapshot.membership
    else n.initial_membership

-- One entry of the log, folded into the configuration.
unfoldable pub fold_entry : Codec → Membership → Entry → Result RaftError Membership
fold_entry codec m e = elim (decode_membership codec e.bytes) [
  | err x ↦ err x
  | ok none ↦ ok m
  | ok (some command) ↦ apply_membership m command e.index
]

unfoldable pub fold_membership : Codec → Membership → List Entry → Result RaftError Membership
fold_membership codec m [] = ok m
fold_membership codec m (e ∷ es) = fold_entry codec m e >>= λ m'. fold_membership codec m' es

-- The configuration that the whole log gives, put in place; an error leaves the node as it was.
unfoldable pub rebuild_membership : Codec → Node → Result RaftError Node
rebuild_membership codec n =
    fold_membership codec (base_membership n) n.log >>= λ m. ok (record n { membership = m })

-- The entries before the first one above `index`.
entries_through : ℕ → List Entry → List Entry
entries_through index [] = []
entries_through index (e ∷ es) = if ltb index e.index then [] else e ∷ entries_through index es

unfoldable pub membership_at : Codec → Node → ℕ → Result RaftError Membership
unfolding entries_through
membership_at codec n index =
    fold_membership codec (base_membership n) (entries_through index n.log)

unfoldable pub peers : Node → List ℕ
peers n = union_voters n.membership

unfoldable pub is_voter : Node → ℕ → Bool
is_voter n id = contains_voter (peers n) id

unfoldable pub replication_peers : Codec → Node → List ℕ
replication_peers codec n =
    if is_empty n.membership.joint_voters && ltb n.commit n.membership.index
    then elim (membership_at codec n (n.membership.index - 1)) [
      | err e ↦ peers n
      | ok prior ↦ if is_empty prior.joint_voters then peers n else union_voters prior
    ]
    else peers n

unfoldable pub is_communication_peer : Codec → Node → ℕ → Bool
is_communication_peer codec n id = contains_voter (replication_peers codec n) id

unfoldable pub become_follower : Node → ℕ → ℕ → Node × Update
become_follower n term leader =
    let changed = not (is_follower n.role) || n.term != term in
    let hard_changed = term != n.term || ltb n.term term && n.voted_for != 0 in
    let m = reset_election_timer (record n {
      term = if ltb n.term term then term else n.term;
      voted_for = if ltb n.term term then 0 else n.voted_for;
      role = follower;
      leader_id = leader;
      votes = λ id. none;
    }) in
    (
      m,
      record no_update {
        role_changed = changed;
        hard_state = if hard_changed then some (hard_state m) else none;
      },
    )
