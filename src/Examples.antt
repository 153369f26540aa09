-- ===== src/Examples.antt =====
-- Runs of the model on small inputs: a three-voter cluster of internal/raft, the store of
-- internal/raftstore, and a file of internal/wal.
pub mod Entries
pub mod Leaders
pub mod Storage
pub mod Tables
pub mod Sorted
pub mod Databases
pub mod Recoveries
pub mod Machines
use lsmdb.Base.{
  ℕ, zero, suc, ◌+◌, ◌*◌, ◌%◌, ◌^◌, ◌≤◌, ◌<◌, ◌≡◌, ◌≢◌, ◌↔◌, ◌⊎◌, inl, inr, refl, List, [], ◌∷◌,
  ◌++◌, Option, none, some, Bool, true, false, ◌||◌, ◌==◌, if◌then◌else◌, arith, length, take, drop,
  is_empty, All, Perm, Result, ok, err, u64_mod, sort_slice, insert_sorted, sort_search,
  search_loop,
}
use lsmdb.Raft.Types.{
  Config, Role, follower, leader, Entry, HardState, Membership, Snapshot, Message, MessageType,
  blank_message, msg_append, msg_vote, contains, no_snapshot, RaftError, merge, is_follower,
}
use lsmdb.Raft.Membership.{
  Codec, MembershipCommand, config_joint, config_final, same_text, normalize_voters, contains_voter,
  union_voters, has_quorum, has_set_quorum, count_acknowledged, vote_lost, apply_membership,
  equal_voters, check_voters,
}
use lsmdb.Raft.Membership.Quorum.{Shared, quorum_intersection, change_intersection, won_not_lost}
use lsmdb.Raft.Membership.Voters.{IsAscending, normalize_voters-IsAscending}
use lsmdb.Raft.Membership.Members.{union_voters_search, contains_voter-contains}
use lsmdb.Raft.Node.{Node, last_index}
use lsmdb.Raft.Append.{malformed_append, malformed_from, malformed_entry, splice, handle_append}
use lsmdb.Raft.Append.WellFormed.{AreGood, malformed_append_iff}
use lsmdb.Raft.Append.Splices.{IsStorable, Placed, splice-Placed}
use lsmdb.Raft.Driver.{tick, step}
use lsmdb.Raft.Rises.Relation.{Rises}
use lsmdb.Raft.Rises.Calls.{tick-Rises}
use lsmdb.Raft.Rises.Steps.{step-Rises}

-- A configuration entry as a list of numbers.
abbrev pub list_codec : Codec
list_codec = record {
  marshal = λ c. length c.phase ∷ length c.old ∷ (c.phase ++ (c.old ++ c.new));
  unmarshal = λ bytes. elim bytes [
    | p ∷ n ∷ rest ↦
        some
          (record { phase = take p rest; old = take n (drop p rest); new = drop n (drop p rest) })
    | _ ↦ none
  ];
}

abbrev pub three_voters : Membership
three_voters = record { voters = 1 ∷ 2 ∷ 3 ∷ []; joint_voters = []; index = 0 }

abbrev config : Config
config = record {
  id = 1;
  peers = 1 ∷ 2 ∷ 3 ∷ [];
  election_tick_min = 10;
  election_tick_max = 20;
  heartbeat_ticks = 2;
  check_quorum_ticks = 10;
  random_seed = 1;
  applied_index = 0;
  max_append_bytes = 0;
  inflight_resend_ticks = 0;
}

abbrev old_log : List Entry
old_log =
    record { index = 1; term = 1; bytes = [] } ∷ record { index = 2; term = 1; bytes = 7 ∷ [] } ∷ []

-- Node 1 follows node 2 and has committed the first of its two entries.
abbrev pub first_node : Node
first_node = record {
  cfg = config;
  role = follower;
  term = 1;
  voted_for = 2;
  leader_id = 2;
  snapshot = no_snapshot;
  log = old_log;
  commit = 1;
  initial_membership = three_voters;
  membership = three_voters;
  election_elapsed = 14;
  election_timeout = 15;
  heartbeat_elapsed = 0;
  quorum_elapsed = 0;
  random = 1;
  votes = λ id. none;
  next_index = λ id. 0;
  match_index = λ id. 0;
  recent_active = λ id. false;
  outstanding = λ id. 0;
  outstanding_age = λ id. 0;
  malformed_appends_dropped = 0;
  votes_ignored_in_lease = 0;
  panicked = false;
}

abbrev pub new_entries : List Entry
new_entries =
    record { index = 2; term = 2; bytes = 9 ∷ [] } ∷ record { index = 3; term = 2; bytes = [] } ∷ []

-- Node 3, the leader of term 2, replaces the second entry and adds a third.
abbrev pub replacing_append : Message
replacing_append = record (blank_message msg_append 3 1 2) {
  log_index = 1;
  log_term = 1;
  entries = new_entries;
  leader_commit = 2;
}

-- Node 3 adds an entry after the two.
abbrev pub growing_append : Message
growing_append = record (blank_message msg_append 3 1 2) {
  log_index = 2;
  log_term = 1;
  entries = record { index = 3; term = 2; bytes = 9 ∷ [] } ∷ [];
  leader_commit = 3;
}

malformed_append_good : malformed_append replacing_append ≡ none
unfolding malformed_append malformed_from malformed_entry
malformed_append_good = refl

malformed_append_iff_example :
    (malformed_append replacing_append ≡ none) ↔ AreGood replacing_append 0 1 new_entries
malformed_append_iff_example = malformed_append_iff replacing_append

splice-Placed_example : Placed first_node (splice first_node new_entries)
unfolding last_index
splice-Placed_example =
    splice-Placed first_node replacing_append 0 1 new_entries (omega arith) (omega arith)
      (malformed_append_iff_example.0 malformed_append_good)

tick-Rises_example : Rises first_node (tick list_codec first_node).0
tick-Rises_example = tick-Rises list_codec first_node (omega arith)

step-Rises_example : Rises first_node (step list_codec first_node replacing_append).0
step-Rises_example = step-Rises list_codec first_node replacing_append (omega arith)

abbrev joining : MembershipCommand
joining = record { phase = config_joint; old = 1 ∷ 2 ∷ 3 ∷ []; new = 3 ∷ 4 ∷ 5 ∷ [] }

abbrev joint_set : Membership
joint_set = record { voters = 1 ∷ 2 ∷ 3 ∷ []; joint_voters = 3 ∷ 4 ∷ 5 ∷ []; index = 4 }

abbrev low_set : ℕ → Bool
low_set id = id == 1 || id == 2

abbrev wide_set : ℕ → Bool
wide_set id = id == 2 || (id == 3 || id == 4)

joint_applied : apply_membership three_voters joining 4 ≡ ok joint_set
unfolding apply_membership equal_voters same_text
joint_applied = refl

low_quorum : has_quorum three_voters low_set ≡ true
unfolding has_quorum has_set_quorum count_acknowledged
low_quorum = refl

wide_quorum : has_quorum joint_set wide_set ≡ true
unfolding has_quorum has_set_quorum count_acknowledged
wide_quorum = refl

quorum_intersection_example :
    Shared (1 ∷ 2 ∷ 3 ∷ []) wide_set wide_set
    × (is_empty joint_set.joint_voters ≡ false → Shared (3 ∷ 4 ∷ 5 ∷ []) wide_set wide_set)
quorum_intersection_example =
    quorum_intersection joint_set wide_set wide_set wide_quorum wide_quorum

change_intersection_example :
    ((config_joint ≡ config_joint) × Shared (1 ∷ 2 ∷ 3 ∷ []) low_set wide_set)
    ⊎ ((config_joint ≡ config_final) × Shared [] low_set wide_set)
change_intersection_example =
    change_intersection three_voters joint_set joining 4 low_set wide_set joint_applied low_quorum
      wide_quorum

only_three : ((id : ℕ) → low_set id ≡ true → (id == 3) ≡ false)
only_three id h = ground arith

won_not_lost_example : vote_lost three_voters (λ id. id == 3) ≡ false
won_not_lost_example = won_not_lost three_voters low_set (λ id. id == 3) only_three low_quorum

union_voters_search_example :
    contains_voter (union_voters joint_set) 5
    ≡ (contains joint_set.voters 5 || contains joint_set.joint_voters 5)
union_voters_search_example = union_voters_search joint_set 5

normalized : normalize_voters (3 ∷ 1 ∷ 2 ∷ []) ≡ ok (1 ∷ 2 ∷ 3 ∷ [])
unfolding normalize_voters check_voters sort_slice insert_sorted
normalized = refl

normalize_voters-IsAscending_example :
    IsAscending (1 ∷ 2 ∷ 3 ∷ [])
    × All (λ v. 0 < v) (1 ∷ 2 ∷ 3 ∷ [])
    × Perm {A = ℕ} (1 ∷ 2 ∷ 3 ∷ []) (3 ∷ 1 ∷ 2 ∷ [])
normalize_voters-IsAscending_example =
    normalize_voters-IsAscending (3 ∷ 1 ∷ 2 ∷ []) (1 ∷ 2 ∷ 3 ∷ []) normalized

contains_voter-contains_example : contains_voter (1 ∷ 4 ∷ 9 ∷ []) 4 ≡ contains (1 ∷ 4 ∷ 9 ∷ []) 4
contains_voter-contains_example =
    contains_voter-contains (1 ∷ 4 ∷ 9 ∷ []) 4
      ((omega arith, (omega arith, tt)), ((omega arith, tt), (tt, tt)))
