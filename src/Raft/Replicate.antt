-- ===== src/Raft/Replicate.antt =====
-- internal/raft/node.go: what a leader sends, and how it advances its commit index.
use lsmdb.Base.{
  ℕ, zero, suc, ◌+◌, ◌-◌, List, [], ◌∷◌, ◌++◌, some, Bool, true, false, ◌&&◌, ◌||◌, not, ◌==◌, ◌!=◌,
  ltb, leb, if◌then◌else◌, is_empty, length, drop, add64, Result, ok, err, ok, err,
}
use lsmdb.Raft.Types.{
  Entry, Message, MessageOrigin, origin_commit_advance, is_proposal, msg_append, msg_snapshot,
  blank_message, Update, no_update, RaftError, send, merge, entry_overhead_bytes,
  default_max_append_bytes, default_inflight_resend_ticks,
}
use lsmdb.Raft.Membership.{Codec, config_final, encode_membership, has_quorum}
use lsmdb.Raft.Node.{
  Node, assign, last_index, term_at, entries_between, rebuild_membership, is_voter,
  replication_peers, become_follower,
}

-- How many entries of the list fit; the first always does. The sizes of entries in memory do not
-- wrap.
unfoldable pub capped_count : ℕ → ℕ → Bool → List Entry → ℕ
capped_count limit size first [] = 0
capped_count limit size first (e ∷ es) =
    let entry_size = length e.bytes + entry_overhead_bytes in
    let rest = suc (capped_count limit (size + entry_size) false es) in
    if not first && ltb limit (size + entry_size) then 0 else rest

unfoldable pub append_limit : Node → ℕ
append_limit n =
    if n.cfg.max_append_bytes == 0 then default_max_append_bytes else n.cfg.max_append_bytes

unfoldable pub capped_entries : Node → ℕ → List Entry
capped_entries n from =
    if leb from n.snapshot.index || ltb (last_index n) from
    then []
    else let rest = drop (from - n.snapshot.index - 1) n.log in
      entries_between n from (add64 from (capped_count (append_limit n) 0 true rest))

-- The index of the last entry of a non-empty list.
last_entry_index : List Entry → ℕ
last_entry_index [] = 0
last_entry_index (e ∷ []) = e.index
last_entry_index (e ∷ f ∷ es) = last_entry_index (f ∷ es)

-- Behind the test against the snapshot `next` is positive, so `next - 1` is exact.
unfoldable pub append_message : Node → ℕ → ℕ → MessageOrigin → Node × Message
unfolding last_entry_index
append_message n peer context origin =
    let next = if n.next_index peer == 0 then add64 (last_index n) 1 else n.next_index peer in
    let entries = capped_entries n next in
    let message : Message = record (blank_message msg_append n.cfg.id peer n.term) {
      log_index = next - 1;
      log_term = term_at n (next - 1);
      leader_commit = n.commit;
      context = context;
      origin = origin;
    } in
    if leb next n.snapshot.index
    then (
      n,
      record (blank_message msg_snapshot n.cfg.id peer n.term) {
        snapshot = some n.snapshot;
        origin = origin;
      },
    )
    else if n.outstanding peer != 0
    then (n, message)
    else if is_empty entries
    then (n, message)
    else (
      record n {
        outstanding = assign n.outstanding peer (last_entry_index entries);
        outstanding_age = assign n.outstanding_age peer 0;
      },
      record message { entries = entries },
    )

-- The loop of `broadcastAppend` over the peers.
unfoldable pub broadcast_loop : MessageOrigin → Node → List ℕ → Node × List Message
broadcast_loop origin n [] = (n, [])
broadcast_loop origin n (peer ∷ rest) =
    let (m, message) = append_message n peer 0 origin in
    let skipped = broadcast_loop origin n rest in
    let (m', messages) = broadcast_loop origin m rest in
    if peer == n.cfg.id
    then skipped
    else if is_proposal origin && n.outstanding peer != 0
    then skipped
    else (m', message ∷ messages)

unfoldable pub broadcast_append : Codec → Node → MessageOrigin → Node × List Message
unfolding broadcast_loop
broadcast_append codec n origin = broadcast_loop origin n (replication_peers codec n)

unfoldable pub settle_outstanding : Node → ℕ → Node
settle_outstanding n peer =
    if n.outstanding peer != 0 && leb (n.outstanding peer) (n.match_index peer)
    then record n { outstanding = assign n.outstanding peer 0 }
    else n

unfoldable pub resend_limit : Node → ℕ
resend_limit n =
    if n.cfg.inflight_resend_ticks == 0
    then default_inflight_resend_ticks
    else n.cfg.inflight_resend_ticks

unfoldable pub expire_loop : ℕ → Node → List ℕ → Node × List ℕ
expire_loop limit n [] = (n, [])
expire_loop limit n (peer ∷ rest) =
    let age = n.outstanding_age peer + 1 in
    let aged : Node = record n { outstanding_age = assign n.outstanding_age peer age } in
    let ended : Node = record aged { outstanding = assign n.outstanding peer 0 } in
    let idle = expire_loop limit n rest in
    let (m, expired) = expire_loop limit ended rest in
    let waiting = expire_loop limit aged rest in
    if n.outstanding peer == 0 then idle else if leb limit age then (m, peer ∷ expired) else waiting

unfoldable pub expire_outstanding : Codec → Node → Node × List ℕ
unfolding expire_loop
expire_outstanding codec n = expire_loop (resend_limit n) n (replication_peers codec n)

-- The entry at `candidate` may be committed: it is of this term, and a quorum holds it.
unfoldable pub is_committable : Node → ℕ → Bool
is_committable n candidate =
    term_at n candidate == n.term
    && has_quorum n.membership (λ id. leb candidate (n.match_index id))

-- The loop of `maybeCommit`, from `candidate` down to the commit index, `rounds` below it.
unfoldable pub commit_candidate : ℕ → Node → ℕ → ℕ
commit_candidate zero n candidate = candidate
commit_candidate (suc rounds) n candidate =
    let lower = commit_candidate rounds n (candidate - 1) in
    if is_committable n candidate then candidate else lower

abbrev pub final_entry : Codec → Node → Entry
final_entry codec n = record {
  index = add64 (last_index n) 1;
  term = n.term;
  bytes =
      encode_membership codec
        (record { phase = config_final; old = []; new = n.membership.joint_voters });
}

-- The node with the rebuilt configuration; the source panics where it cannot be rebuilt.
unfoldable pub install_final : Node → Entry → Result RaftError Node → Node × Update
install_final n final (err e) = (record n { panicked = true }, no_update)
install_final n final (ok m) = (
  record m {
    match_index = assign m.match_index m.cfg.id final.index;
    next_index = assign m.next_index m.cfg.id (add64 final.index 1);
  },
  record no_update { entries = final ∷ [] },
)

-- The entry that ends a joint configuration, once the joint entry is committed.
unfoldable pub finish_joint : Codec → Node → Node × Update
finish_joint codec n =
    let grown : Node = record n { log = n.log ++ final_entry codec n ∷ [] } in
    let finished = install_final n (final_entry codec n) (rebuild_membership codec grown) in
    if not (is_empty n.membership.joint_voters) && leb n.membership.index n.commit
    then finished
    else (n, no_update)

-- What follows an advance of the commit index: the final entry, the broadcast, and stepping down
-- where the committed configuration leaves this node out.
unfoldable pub after_commit : Codec → Node → Node × Update
after_commit codec n =
    let (m, u) = finish_joint codec n in
    let (m', messages) = broadcast_append codec m origin_commit_advance in
    let (f, down) = become_follower m' m'.term 0 in
    if leb m'.membership.index m'.commit && not (is_voter m' m'.cfg.id)
    then (f, merge (send u messages) down)
    else (m', send u messages)

unfoldable pub maybe_commit : Codec → Node → Node × Update
maybe_commit codec n =
    let last = last_index n in
    let found = commit_candidate (last - n.commit) n last in
    let advanced : Node = record n { commit = found } in
    let (m, u) = after_commit codec advanced in
    if leb found n.commit then (n, no_update) else (
      m,
      merge
          (record no_update {
            committed = entries_between advanced (add64 n.commit 1) (add64 found 1);
          })
          u,
    )
