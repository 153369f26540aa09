-- ===== src/Raft/Append.antt =====
-- internal/raft/node.go: append messages and their responses.
pub mod WellFormed
pub mod Splices
use lsmdb.Base.{
  Result, ok, err, ℕ, zero, suc, ◌+◌, ◌-◌, List, [], ◌∷◌, ◌++◌, Option, none, some, Bool, true,
  false, ◌&&◌, ◌||◌, not, ◌==◌, ◌!=◌, ltb, leb, if◌then◌else◌, length, take, drop, min, max, add64,
  ok, err,
}
use lsmdb.Raft.Types.{
  RaftError, Entry, Message, Malformed, bad_index, zero_term, too_large, above_message_term,
  below_log_term, below_previous_term, origin_ack_resend, msg_append_response, blank_message,
  Update, no_update, messages_only, send, merge, max_entry_bytes, is_follower, is_leader,
}
use lsmdb.Raft.Membership.{Codec, has_membership_prefix}
use lsmdb.Raft.Node.{
  Node, assign, last_index, term_at, entries_between, reset_election_timer, rebuild_membership,
  become_follower,
}
use lsmdb.Raft.Replicate.{append_message, settle_outstanding, maybe_commit}

-- The first case that applies to entry `i`.
unfoldable pub malformed_entry : Message → ℕ → ℕ → Entry → Option Malformed
malformed_entry message i previous e =
    let want = add64 (add64 message.log_index i) 1 in
    if e.index != want
    then some (bad_index i e.index want)
    else if e.term == 0
    then some (zero_term i e.index)
    else if ltb max_entry_bytes (length e.bytes)
    then some (too_large i e.index (length e.bytes))
    else if ltb message.term e.term
    then some (above_message_term i e.index e.term message.term)
    else if i == 0 && ltb e.term previous
    then some (below_log_term e.index e.term previous)
    else if ltb e.term previous
    then some (below_previous_term i e.index e.term previous)
    else none

unfoldable pub malformed_from : Message → ℕ → ℕ → List Entry → Option Malformed
malformed_from message i previous [] = none
malformed_from message i previous (e ∷ es) =
    let rest = malformed_from message (i + 1) e.term es in
    elim (malformed_entry message i previous e) [ some reason ↦ some reason | none ↦ rest ]

unfoldable pub malformed_append : Message → Option Malformed
malformed_append message = malformed_from message 0 message.log_term message.entries

-- The loop that looks for the first entry of the conflicting term.
unfoldable pub conflict_hint : ℕ → Node → ℕ → ℕ → ℕ
conflict_hint zero n conflict_term hint = hint
conflict_hint (suc fuel) n conflict_term hint =
    let lower = conflict_hint fuel n conflict_term (hint - 1) in
    if ltb (add64 n.snapshot.index 1) hint && term_at n (hint - 1) == conflict_term
    then lower
    else hint

-- The hint of a rejected append; the loop lowers `hint` at most `log_index` times.
unfoldable pub reject_hint : Node → Message → ℕ
reject_hint n message =
    let index = message.log_index in
    if leb index (last_index n)
    then conflict_hint index n (term_at n index) index
    else add64 (last_index n) 1

-- What the loop over the entries does: every entry is there; an entry below the commit index has
-- another term; the log is cut at an index and goes on with the entries; or it only grows by them.
pub data Splice : Type 0 where
  all_present committed_conflict : Splice
  replace : ℕ → List Entry → Splice
  extend : List Entry → Splice

unfoldable pub splice : Node → List Entry → Splice
splice n [] = all_present
splice n (e ∷ es) =
    if leb e.index (last_index n)
    then (if term_at n e.index == e.term
        then splice n es
        else if leb e.index n.commit
        then committed_conflict
        else replace e.index (e ∷ es))
    else extend (e ∷ es)

unfoldable pub claims_config : List Entry → Bool
claims_config [] = false
claims_config (e ∷ es) = has_membership_prefix e.bytes || claims_config es

unfoldable pub append_response : Node → Message → Message
append_response n message = blank_message msg_append_response n.cfg.id message.from n.term

unfoldable pub reject_append : Node → Message → ℕ → Message
unfolding append_response
reject_append n message hint = record (append_response n message) {
  reject = true;
  reject_hint = hint;
}

-- The end of `handleAppend`: the commit index follows the leader's, as far as the entries prove.
unfoldable pub accept_append : Node → Update → Message → Node × Update
unfolding append_response
accept_append n update message =
    let proved = min (add64 message.log_index (length message.entries)) (last_index n) in
    let commit = min message.leader_commit proved in
    let response : Message = record (append_response n message) {
      log_index = proved;
      context = message.context;
    } in
    let committed = entries_between n (add64 n.commit 1) (add64 commit 1) in
    if ltb n.commit commit
    then (
      record n { commit = commit },
      send (record update { committed = update.committed ++ committed }) (response ∷ []),
    )
    else (n, send update (response ∷ []))

-- What follows the rebuilding: an error puts the old length and the tail back.
unfoldable pub accept_or_undo :
    Node → ℕ → List Entry → Update → Message → Result RaftError Node → Node × Update
accept_or_undo n old_len truncated_tail update message (ok m) = accept_append m update message
accept_or_undo n old_len truncated_tail update message (err e) =
    let undone : Node = record n {
      log = take (old_len - length truncated_tail) n.log ++ truncated_tail;
    } in
    (
      undone,
      send (record update { truncate_from = 0; entries = [] })
          (reject_append undone message (add64 (last_index undone) 1) ∷ []),
    )

-- The configuration is rebuilt over the new log.
unfoldable pub rebuild_or_undo : Codec → Node → ℕ → List Entry → Update → Message → Node × Update
rebuild_or_undo codec n old_len truncated_tail update message =
    accept_or_undo n old_len truncated_tail update message (rebuild_membership codec n)

unfoldable pub place_entries : Codec → Node → Update → Message → Splice → Node × Update
unfolding claims_config
place_entries codec n update message all_present = accept_append n update message
place_entries codec n update message committed_conflict =
    (n, send update (reject_append n message (add64 n.commit 1) ∷ []))
place_entries codec n update message (replace index remaining) =
    let keep = index - n.snapshot.index - 1 in
    let cut : Node = record n { log = take keep n.log ++ remaining } in
    -- an index at or below the snapshot's is out of the slice's bounds
    if leb index n.snapshot.index
    then (record n { panicked = true }, update)
    else rebuild_or_undo codec cut (length n.log) (drop keep n.log)
        (record update { truncate_from = index; entries = update.entries ++ remaining }) message
place_entries codec n update message (extend remaining) =
    let grown : Node = record n { log = n.log ++ remaining } in
    let grown_update : Update = record update { entries = update.entries ++ remaining } in
    if claims_config remaining
    then rebuild_or_undo codec grown (length n.log) [] grown_update message
    else accept_append grown grown_update message

unfoldable pub store_entries : Codec → Node → Update → Message → Node × Update
store_entries codec n update message =
    place_entries codec n update message (splice n message.entries)

-- The node as a follower of the sender, its election timer reset.
unfoldable pub follow_sender : Node → Message → Node × Update
follow_sender n message =
    let (m, u) = become_follower n n.term message.from in
    let (f, update) : Node × Update =
      if not (is_follower n.role) || n.leader_id != message.from
      then (m, merge no_update u)
      else (n, no_update) in
    (reset_election_timer (record f { leader_id = message.from }), update)

unfoldable pub handle_append : Codec → Node → Message → Node × Update
handle_append codec n message =
    let (f, update) = follow_sender n message in
    if ltb (last_index f) message.log_index || term_at f message.log_index != message.log_term
    then (f, send update (reject_append f message (reject_hint f message) ∷ []))
    else store_entries codec f update message

-- nextIndex after a rejection.
unfoldable pub next_after_reject : Node → Message → ℕ
next_after_reject n message =
    let next = n.next_index message.from in
    let lowered =
      if ltb 0 message.reject_hint && ltb message.reject_hint next
      then message.reject_hint
      else if ltb 1 next
      then next - 1
      else next in
    max 1 (max lowered (add64 (n.match_index message.from) 1))

unfoldable pub handle_append_response : Codec → Node → Message → Node × Update
handle_append_response codec n message =
    let peer = message.from in
    let heard : Node = record n { recent_active = assign n.recent_active peer true } in
    let probing : Node = record heard {
      next_index = assign n.next_index peer (next_after_reject n message);
      outstanding = assign n.outstanding peer 0;
    } in
    let (probed, probe) = append_message probing peer message.context origin_ack_resend in
    let matched = min message.log_index (last_index n) in
    let higher = ltb (n.match_index peer) message.log_index in
    let advanced = higher && ltb (n.match_index peer) matched in
    let acked : Node =
      if higher
      then record heard {
        match_index = assign n.match_index peer matched;
        next_index = assign n.next_index peer (add64 matched 1);
      }
      else heard in
    let (m, update) = maybe_commit codec (settle_outstanding acked peer) in
    let (m', follow_up) = append_message m peer message.context origin_ack_resend in
    if not (is_leader n.role) || message.term != n.term
    then (n, no_update)
    else if message.reject
    then (probed, messages_only (probe ∷ []))
    else if advanced && m.outstanding peer == 0 && leb (m.next_index peer) (last_index m)
    then (m', send update (follow_up ∷ []))
    else (m, update)
