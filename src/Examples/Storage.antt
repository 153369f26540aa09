-- ===== src/Examples/Storage.antt =====
-- Runs of the store of internal/raftstore and of a file of internal/wal.
use lsmdb.Base.{
  put_uint, sort_slice, sort_search, ℕ, ◌+◌, ◌%◌, ◌^◌, ◌<◌, ◌≡◌, ◌≢◌, inl, inr, refl, List, [], ◌∷◌,
  ◌++◌, none, arith, length, take, All, ok, err,
}
use lsmdb.Raft.Types.{contains, msg_append, msg_snapshot, no_snapshot, merge}
use lsmdb.Raft.Node.{
  replication_peers, peers, is_voter, hard_state, is_communication_peer, become_follower,
  reset_election_timer, last_index, term_at,
}
use lsmdb.Raft.Append.{
  malformed_append, malformed_from, malformed_entry, handle_append, follow_sender, splice,
  store_entries, place_entries, claims_config, accept_append,
}
use lsmdb.Raft.Append.Splices.{IsStorable}
use lsmdb.Raft.Driver.{tick, step, kept, step_in_term, dispatch}
use lsmdb.Raft.Election.{start_pre_vote, in_lease}
use lsmdb.Raft.Membership.{
  has_membership_prefix, count_acknowledged, has_set_quorum, has_quorum, union_voters,
  contains_voter,
}
use lsmdb.Store.{Store, persist}
use lsmdb.Store.Appends.{InSync, stored, tick-persist}
use lsmdb.Store.Handled.{handle_append-persist}
use lsmdb.Store.Stepped.{step-persist}
use lsmdb.Wal.{Record, type_put, type_delete, encode, header, read_all, read_body, eof}
use lsmdb.Wal.Replay.{IsRecord}
use lsmdb.Wal.Replay.Files.{file, append_all, read_all-append_all, read_all_torn}
use lsmdb.Examples.{list_codec, first_node, replacing_append, growing_append}

-- What node 1 has on its disk.
abbrev first_store : Store
first_store = record {
  hard = hard_state first_node;
  snapshot = no_snapshot;
  entries = first_node.log;
}

first_InSync : InSync first_store first_node
first_InSync = record { hard = refl; entries = refl; base = refl; base_term = refl }

replacing_good : malformed_append replacing_append ≡ none
unfolding malformed_append malformed_from malformed_entry
replacing_good = refl

handle_append-persist_example :
    persist first_store (handle_append list_codec first_node replacing_append).1
    ≡ ok (stored first_store (handle_append list_codec first_node replacing_append).0)
handle_append-persist_example =
    handle_append-persist list_codec first_store first_node replacing_append first_InSync
      (omega arith) (omega arith) replacing_good

tick-IsStorable : All IsStorable (tick list_codec first_node).1.entries
unfolding tick start_pre_vote union_voters contains_voter is_voter sort_search peers sort_slice
    contains merge has_quorum has_set_quorum reset_election_timer count_acknowledged
tick-IsStorable = tt

tick-persist_example :
    persist first_store (tick list_codec first_node).1
    ≡ ok (stored first_store (tick list_codec first_node).0)
tick-persist_example = tick-persist list_codec first_store first_node first_InSync tick-IsStorable

step-IsStorable : All IsStorable (step list_codec first_node growing_append).1.entries
unfolding step kept is_communication_peer union_voters contains_voter step_in_term become_follower
    reset_election_timer dispatch handle_append follow_sender last_index term_at splice
    store_entries place_entries claims_config accept_append merge malformed_append malformed_from
    malformed_entry in_lease sort_search replication_peers peers sort_slice contains
    has_membership_prefix
step-IsStorable = ((omega arith, omega arith), tt)

append_no_snapshot : msg_append ≢ msg_snapshot
append_no_snapshot e = absurd (ground (arith, e))

step-persist_example :
    persist first_store (step list_codec first_node growing_append).1
    ≡ ok (stored first_store (step list_codec first_node growing_append).0)
step-persist_example =
    step-persist list_codec first_store first_node growing_append first_InSync (omega arith)
      (omega arith) append_no_snapshot step-IsStorable

abbrev sum : List ℕ → ℕ
sum [] = 0
sum (b ∷ bytes) = b + sum bytes

-- A checksum: the sum of the bytes.
abbrev checksum : List ℕ → ℕ
checksum bytes = sum bytes % 2 ^ 32

checksum_small : (bytes : List ℕ) → checksum bytes < 2 ^ 32
checksum_small bytes = omega arith

abbrev two_records : List Record
two_records =
    record { type = type_put; seq_num = 1; key = 97 ∷ []; value = 1 ∷ 2 ∷ [] }
    ∷ record { type = type_delete; seq_num = 2; key = 98 ∷ []; value = [] }
    ∷ []

abbrev third_record : Record
third_record = record { type = type_put; seq_num = 3; key = 97 ∷ []; value = 5 ∷ [] }

third_IsRecord : IsRecord third_record
third_IsRecord = record {
  known = inl refl;
  short_key = omega arith;
  short_value = omega arith;
  seq_fits = omega arith;
}

two_IsRecord : All IsRecord two_records
two_IsRecord = (
  record {
    known = inl refl;
    short_key = omega arith;
    short_value = omega arith;
    seq_fits = omega arith;
  },
  (
    record {
      known = inr refl;
      short_key = omega arith;
      short_value = omega arith;
      seq_fits = omega arith;
    },
    tt,
  ),
)

read_all-append_all_example :
    read_all checksum (append_all checksum (file []) two_records)
    ≡ ok (two_records, append_all checksum (file []) two_records)
read_all-append_all_example = read_all-append_all checksum checksum_small two_records two_IsRecord

longer_than : 17 < length (encode checksum third_record)
unfolding encode header put_uint
longer_than = omega arith

-- The crash leaves the header of the third record and nothing of its body.
read_all_torn_example :
    read_all checksum (
      file (
        (append_all checksum (file []) two_records).contents
        ++ take 17 (encode checksum third_record)))
    ≡ err (read_body eof)
read_all_torn_example =
    read_all_torn checksum checksum_small two_records third_record 17 two_IsRecord third_IsRecord
      longer_than
