-- ===== src/Examples/Leaders.antt =====
-- Runs of a leader of internal/raft.
use lsmdb.Base.{◌-◌, ◌<◌, arith, length, drop, ◌==◌, if◌then◌else◌}
use lsmdb.Raft.Types.{leader}
use lsmdb.Raft.Node.{Node, last_index}
use lsmdb.Raft.Replicate.{append_limit, capped_entries, maybe_commit}
use lsmdb.Raft.Commits.{IsHighest, maybe_commit-IsHighest}
use lsmdb.Raft.Chunks.{IsChunk, capped_entries-IsChunk}
use lsmdb.Examples.{list_codec, first_node}

-- A leader whose second entry is on two of the three voters.
abbrev leading_node : Node
leading_node = record first_node {
  role = leader;
  leader_id = 1;
  match_index = λ id. if id == 3 then 0 else 2;
}

maybe_commit-IsHighest_example :
    IsHighest leading_node (last_index leading_node) (maybe_commit list_codec leading_node).0.commit
unfolding last_index
maybe_commit-IsHighest_example = maybe_commit-IsHighest list_codec leading_node (omega arith)

capped_entries-IsChunk_example :
    IsChunk
      (append_limit leading_node)
      (drop (1 - 0 - 1) leading_node.log)
      (capped_entries leading_node 1)
    × (0 < length (capped_entries leading_node 1))
unfolding last_index
capped_entries-IsChunk_example =
    capped_entries-IsChunk leading_node 1 (omega arith) (omega arith) (omega arith)
