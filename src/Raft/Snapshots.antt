-- ===== src/Raft/Snapshots.antt =====
-- internal/raft/node.go: snapshots that a leader sends, and local log compaction.
use lsmdb.Base.{
  ℕ, List, [], ◌∷◌, Option, none, some, true, ◌&&◌, ◌||◌, not, ◌==◌, ◌!=◌, ltb, leb, if◌then◌else◌,
  is_empty, is_some, min, max, add64, Result, ok, err,
}
use lsmdb.Raft.Types.{
  Snapshot, Message, origin_other, msg_snapshot_response, blank_message, Update, no_update,
  messages_only, send, RaftError, invalid_boundary, snapshot_membership_index,
  snapshot_membership_mismatch, is_leader,
}
use lsmdb.Raft.Membership.{Codec, equal_voters, validate_membership}
use lsmdb.Raft.Node.{
  Node, assign, last_index, term_at, compact_log, rebuild_membership, membership_at,
}
use lsmdb.Raft.Replicate.{append_message, settle_outstanding, maybe_commit}
use lsmdb.Raft.Append.{follow_sender}

unfoldable pub snapshot_response : Node → Message → Message
snapshot_response n message = blank_message msg_snapshot_response n.cfg.id message.from n.term

unfoldable pub reject_snapshot : Node → Message → Message
unfolding snapshot_response
reject_snapshot n message = record (snapshot_response n message) {
  reject = true;
  reject_hint = add64 (last_index n) 1;
}

unfoldable pub accept_snapshot : Node → Update → Message → Snapshot → Node × Update
unfolding snapshot_response
accept_snapshot n update message snapshot =
    let response : Message = record (snapshot_response n message) {
      log_index = max snapshot.index n.snapshot.index;
    } in
    (n, send update (response ∷ []))

-- The compacted node with its configuration rebuilt; an error leaves `n` as it was.
unfoldable pub install_rebuilt :
    Node → Update → Message → Snapshot → Result RaftError Node → Node × Update
install_rebuilt n update message snapshot (err e) =
    (n, send update (reject_snapshot n message ∷ []))
install_rebuilt n update message snapshot (ok m) =
    accept_snapshot
      (record m { commit = if ltb m.commit snapshot.index then snapshot.index else m.commit })
      (record update { snapshot = some snapshot }) message snapshot

-- The snapshot replaces the log up to its index.
unfoldable pub install_snapshot : Codec → Node → Update → Message → Snapshot → Node × Update
install_snapshot codec n update message snapshot =
    let refuse : Node × Update = (n, send update (reject_snapshot n message ∷ [])) in
    let installed =
      install_rebuilt n update message snapshot
        (rebuild_membership codec (compact_log n snapshot)) in
    if leb snapshot.index n.snapshot.index
    then accept_snapshot n update message snapshot
    else if leb snapshot.index n.commit && term_at n snapshot.index != snapshot.term
    then refuse
    else installed

-- A snapshot without voters has the bootstrap configuration.
abbrev pub with_membership : Node → Snapshot → Snapshot
with_membership n snapshot =
    if is_empty snapshot.membership.voters
    then record snapshot { membership = n.initial_membership }
    else snapshot

-- The checks on the snapshot's configuration.
unfoldable pub receive_snapshot : Codec → Node → Update → Message → Snapshot → Node × Update
receive_snapshot codec n update message snapshot =
    let refuse : Node × Update = (n, send update (reject_snapshot n message ∷ [])) in
    let installed = install_snapshot codec n update message snapshot in
    if is_some (validate_membership snapshot.membership)
    then refuse
    else if ltb snapshot.index snapshot.membership.index
    then refuse
    else installed

unfoldable pub handle_image : Codec → Node → Message → Option Snapshot → Node × Update
handle_image codec n message none = (n, messages_only (reject_snapshot n message ∷ []))
handle_image codec n message (some snapshot) =
    let (f, update) = follow_sender n message in
    let received = receive_snapshot codec f update message (with_membership f snapshot) in
    if snapshot.index == 0 || snapshot.term == 0
    then (n, messages_only (reject_snapshot n message ∷ []))
    else received

unfoldable pub handle_snapshot : Codec → Node → Message → Node × Update
handle_snapshot codec n message = handle_image codec n message message.snapshot

unfoldable pub handle_snapshot_response : Codec → Node → Message → Node × Update
handle_snapshot_response codec n message =
    let peer = message.from in
    let heard : Node = record n { recent_active = assign n.recent_active peer true } in
    let probing : Node = record heard { outstanding = assign n.outstanding peer 0 } in
    let (probed, probe) = append_message probing peer 0 origin_other in
    let matched = min message.log_index (last_index n) in
    let acked : Node =
      if ltb (n.match_index peer) matched
      then record heard {
        match_index = assign n.match_index peer matched;
        next_index = assign n.next_index peer (add64 matched 1);
      }
      else heard in
    let (m, update) = maybe_commit codec (settle_outstanding acked peer) in
    let (m', follow_up) = append_message m peer 0 origin_other in
    if not (is_leader n.role) || message.term != n.term
    then (n, no_update)
    else if message.reject
    then (probed, messages_only (probe ∷ []))
    else if leb (m.next_index peer) (last_index m)
    then (m', send update (follow_up ∷ []))
    else (m, update)

-- A method that returns an error beside the update: the node is what it left behind.
abbrev pub Outcome {ℓ} : Type ℓ → Type ℓ
Outcome A = Node × Result RaftError A

unfoldable pub compact : Codec → Node → Snapshot → Outcome Update
compact codec n snapshot =
    let invalid : Outcome Update =
      (n, err (invalid_boundary snapshot.index snapshot.term n.commit)) in
    if leb snapshot.index n.snapshot.index
    then (n, ok no_update)
    else if ltb n.commit snapshot.index
        || snapshot.term == 0
        || term_at n snapshot.index != snapshot.term
    then invalid
    else elim (membership_at codec n snapshot.index) [
      | err e ↦ (n, err e)
      | ok expected ↦
          let filled : Snapshot =
            if is_empty snapshot.membership.voters
            then record snapshot { membership = expected }
            else snapshot in
          let compacted = compact_log n filled in
          if ltb filled.index filled.membership.index
          then (n, err snapshot_membership_index)
          else if not (equal_voters filled.membership.voters expected.voters)
              || not (equal_voters filled.membership.joint_voters expected.joint_voters)
              || filled.membership.index != expected.index
          then (n, err snapshot_membership_mismatch)
          else elim (rebuild_membership codec compacted) [
            | err e ↦ (compacted, err e)
            | ok m ↦ (m, ok (record no_update { snapshot = some filled }))
          ]
    ]

unfoldable pub create_snapshot : Codec → Node → ℕ → List ℕ → Outcome Update
create_snapshot codec n index bytes = elim (membership_at codec n index) [
  | err e ↦ (n, err e)
  | ok membership ↦
      compact codec n
        (record { index = index; term = term_at n index; bytes = bytes; membership = membership })
]
