-- ===== src/Raft/Types.antt =====
-- internal/raft/types.go: roles, messages, updates and the configuration.
use lsmdb.Base.{
  ℕ, ◌+◌, ◌*◌, ◌^◌, List, [], ◌∷◌, ◌++◌, Option, none, some, Bool, true, false, ◌||◌, ◌==◌, ◌!=◌,
  ltb, leb, if◌then◌else◌, is_empty,
}

pub data Role : Type 0 where
  follower pre_candidate candidate leader : Role

-- Tests of the role.
abbrev pub is_follower : Role → Bool
is_follower follower = true
is_follower _ = false

abbrev pub is_pre_candidate : Role → Bool
is_pre_candidate pre_candidate = true
is_pre_candidate _ = false

abbrev pub is_candidate : Role → Bool
is_candidate candidate = true
is_candidate _ = false

abbrev pub is_leader : Role → Bool
is_leader leader = true
is_leader _ = false

pub data MessageType : Type 0 where
  msg_pre_vote msg_pre_vote_response msg_vote msg_vote_response : MessageType
  msg_append msg_append_response msg_snapshot msg_snapshot_response : MessageType
  -- any other uint8
  other_message : ℕ → MessageType

-- A byte is a number; `bytes` is the Go field Data.
pub record Entry : Type 0 where
  pub index : ℕ
  pub term : ℕ
  pub bytes : List ℕ

pub record HardState : Type 0 where
  pub term : ℕ
  pub voted_for : ℕ

pub record Membership : Type 0 where
  pub voters : List ℕ
  pub joint_voters : List ℕ
  pub index : ℕ

pub record Snapshot : Type 0 where
  pub index : ℕ
  pub term : ℕ
  pub bytes : List ℕ
  pub membership : Membership

-- The Go zero values.
abbrev pub no_membership : Membership
no_membership = record { voters = []; joint_voters = []; index = 0 }

abbrev pub no_snapshot : Snapshot
no_snapshot = record { index = 0; term = 0; bytes = []; membership = no_membership }

pub data MessageOrigin : Type 0 where
  origin_other origin_heartbeat origin_proposal origin_commit_advance : MessageOrigin
  origin_ack_resend : MessageOrigin

abbrev pub is_proposal : MessageOrigin → Bool
is_proposal origin_proposal = true
is_proposal _ = false

pub record Message : Type 0 where
  pub kind : MessageType
  pub from : ℕ
  pub to : ℕ
  pub term : ℕ
  pub log_index : ℕ
  pub log_term : ℕ
  pub entries : List Entry
  pub leader_commit : ℕ
  pub reject : Bool
  pub reject_hint : ℕ
  pub context : ℕ
  pub snapshot : Option Snapshot
  pub origin : MessageOrigin

-- A message with the fields that every literal sets; the others have their zero values.
abbrev pub blank_message : MessageType → ℕ → ℕ → ℕ → Message
blank_message kind from to term = record {
  kind = kind;
  from = from;
  to = to;
  term = term;
  log_index = 0;
  log_term = 0;
  entries = [];
  leader_commit = 0;
  reject = false;
  reject_hint = 0;
  context = 0;
  snapshot = none;
  origin = origin_other;
}

-- Why an append was dropped: the position of the entry, and what the text of the reason reports.
pub data Malformed : Type 0 where
  bad_index : ℕ → ℕ → ℕ → Malformed
  zero_term : ℕ → ℕ → Malformed
  too_large : ℕ → ℕ → ℕ → Malformed
  above_message_term : ℕ → ℕ → ℕ → ℕ → Malformed
  below_log_term : ℕ → ℕ → ℕ → Malformed
  below_previous_term : ℕ → ℕ → ℕ → ℕ → Malformed

pub record DroppedAppend : Type 0 where
  pub from : ℕ
  pub term : ℕ
  pub reason : Malformed

pub record Update : Type 0 where
  pub hard_state : Option HardState
  pub truncate_from : ℕ
  pub entries : List Entry
  pub messages : List Message
  pub committed : List Entry
  pub role_changed : Bool
  pub snapshot : Option Snapshot
  pub dropped_append : Option DroppedAppend

abbrev pub no_update : Update
no_update = record {
  hard_state = none;
  truncate_from = 0;
  entries = [];
  messages = [];
  committed = [];
  role_changed = false;
  snapshot = none;
  dropped_append = none;
}

abbrev pub messages_only : List Message → Update
messages_only messages = record no_update { messages = messages }

-- `other` where it is set, and `this` otherwise.
abbrev pub or_keep {ℓ} : {A : Type ℓ} → Option A → Option A → Option A
or_keep this none = this
or_keep this (some a) = some a

unfoldable pub merge : Update → Update → Update
merge u other = record {
  hard_state = or_keep u.hard_state other.hard_state;
  truncate_from = if other.truncate_from != 0 then other.truncate_from else u.truncate_from;
  entries = u.entries ++ other.entries;
  messages = u.messages ++ other.messages;
  committed = u.committed ++ other.committed;
  role_changed = u.role_changed || other.role_changed;
  snapshot = or_keep u.snapshot other.snapshot;
  dropped_append = or_keep u.dropped_append other.dropped_append;
}

abbrev pub send : Update → List Message → Update
send u messages = record u { messages = u.messages ++ messages }

-- The `int` fields are numbers: `validate` refuses a negative tick count as it refuses 0.
pub record Config : Type 0 where
  pub id : ℕ
  pub peers : List ℕ
  pub election_tick_min : ℕ
  pub election_tick_max : ℕ
  pub heartbeat_ticks : ℕ
  pub check_quorum_ticks : ℕ
  pub random_seed : ℕ
  pub applied_index : ℕ
  pub max_append_bytes : ℕ
  pub inflight_resend_ticks : ℕ

pub data RaftError : Type 0 where
  zero_id no_peers zero_peer election_range heartbeat_range check_quorum_range : RaftError
  duplicate_peer : ℕ → RaftError
  empty_voters zero_voter unsorted_voters unsorted_joint_voters : RaftError
  duplicate_voter : ℕ → RaftError
  decode_failed invalid_phase unknown_phase : RaftError
  joint_mismatch final_mismatch : RaftError
  too_many_snapshots snapshot_boundary snapshot_membership_index : RaftError
  snapshot_membership_mismatch : RaftError
  not_contiguous : ℕ → RaftError
  applied_outside : ℕ → ℕ → ℕ → RaftError
  invalid_boundary : ℕ → ℕ → ℕ → RaftError
  not_leader read_not_ready change_in_progress entry_too_large : RaftError

unfoldable pub contains : List ℕ → ℕ → Bool
contains [] id = false
contains (x ∷ xs) id = x == id || contains xs id

-- The loop over the peers, with the set of those seen.
validate_peers : List ℕ → List ℕ → Option RaftError
unfolding contains
validate_peers seen [] = none
validate_peers seen (peer ∷ rest) =
    let next = validate_peers (peer ∷ seen) rest in
    if peer == 0
    then some zero_peer
    else if contains seen peer
    then some (duplicate_peer peer)
    else next

unfoldable pub validate : Config → Option RaftError
unfolding validate_peers
validate c =
    if c.id == 0
    then some zero_id
    else if is_empty c.peers
    then some no_peers
    else elim (validate_peers [] c.peers) [
      | some e ↦ some e
      | none ↦
          if leb c.election_tick_min 0 || leb c.election_tick_max c.election_tick_min
          then some election_range
          else if leb c.heartbeat_ticks 0 || leb c.election_tick_min c.heartbeat_ticks
          then some heartbeat_range
          else if leb c.check_quorum_ticks 0 || ltb c.election_tick_min c.check_quorum_ticks
          then some check_quorum_range
          else none
    ]

abbrev pub max_entry_bytes : ℕ
max_entry_bytes = 4 * 2 ^ 20 + 32 * 2 ^ 10

abbrev pub entry_overhead_bytes : ℕ
entry_overhead_bytes = 32

abbrev pub default_max_append_bytes : ℕ
default_max_append_bytes = 2 ^ 20

abbrev pub default_inflight_resend_ticks : ℕ
default_inflight_resend_ticks = 5
