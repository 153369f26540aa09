-- ===== src/Raft/Rises/Steps.antt =====
-- What a whole step does to the term, the vote and the commit index.
use lsmdb.Base.{
  ◌+◌, ◌<◌, refl, arith, [], ◌∷◌, Option, none, some, ◌&&◌, ◌||◌, ◌==◌, ◌!=◌, not, if◌then◌else◌,
  ltb, u64_mod,
}
use lsmdb.Raft.Types.{
  Message, MessageType, Malformed, Update, merge, messages_only, no_update, msg_pre_vote,
  msg_pre_vote_response, msg_vote, msg_vote_response, msg_append, msg_append_response, msg_snapshot,
  msg_snapshot_response, other_message,
}
use lsmdb.Raft.Membership.{Codec}
use lsmdb.Raft.Node.{Node, become_follower, is_communication_peer}
use lsmdb.Raft.Election.{in_lease}
use lsmdb.Raft.Snapshots.{handle_snapshot}
use lsmdb.Raft.Driver.{
  dispatch, step_in_term, reject_stale, kept, step, dropped, is_vote, is_pre_vote_kind,
}
use lsmdb.Raft.Rises.Relation.{Rises, Rises-same, Advances, advances, choose, become_follower-Rises}
use lsmdb.Raft.Rises.Handlers.{
  idle, handle_pre_vote_response-Advances, handle_vote-Advances, handle_vote_response-Advances,
  handle_append_response-Advances, handle_snapshot_response-Advances,
}
use lsmdb.Raft.Rises.Calls.{onward, handle_append-Advances, handle_image-Advances}

abbrev in_term : Codec → MessageType → Node → Message → Node × Update
in_term codec kind n message =
    let (f, down) = become_follower n message.term 0 in
    let (m, u) = dispatch codec kind f message in
    let current = dispatch codec kind n message in
    if is_pre_vote_kind kind
    then current
    else if ltb n.term message.term
    then (m, merge down u)
    else if ltb message.term n.term
    then (n, messages_only (reject_stale n message ∷ []))
    else current

in_order :
    (codec : Codec) (kind : MessageType) (n : Node) (message : Message)
    → ((x : Node) → Advances x (dispatch codec kind x message))
    → let (f, down) = become_follower n message.term 0 in
      Advances n (
        if ltb n.term message.term
        then ((dispatch codec kind f message).0, merge down (dispatch codec kind f message).1)
        else if ltb message.term n.term
        then (n, messages_only (reject_stale n message ∷ []))
        else dispatch codec kind n message)
in_order codec kind n message handler =
    let f = (become_follower n message.term 0).0 in
    choose n (ltb n.term message.term) _ _
      (advances n _ _ (onward n f _ (become_follower-Rises n message.term 0) (handler f)).rises)
      (choose n (ltb message.term n.term) _ _ (idle n _) (handler n))

in_term-Advances :
    (codec : Codec) (kind : MessageType) (n : Node) (message : Message)
    → n.term + 1 < u64_mod
    → Advances n (in_term codec kind n message)
unfolding dispatch handle_snapshot
in_term-Advances codec msg_pre_vote n message room = idle n _
in_term-Advances codec msg_pre_vote_response n message room =
    handle_pre_vote_response-Advances codec n message room
in_term-Advances codec msg_vote n message room =
    in_order codec msg_vote n message (λ x. handle_vote-Advances codec x message)
in_term-Advances codec msg_vote_response n message room =
    in_order codec msg_vote_response n message (λ x. handle_vote_response-Advances codec x message)
in_term-Advances codec msg_append n message room =
    in_order codec msg_append n message (λ x. handle_append-Advances codec x message)
in_term-Advances codec msg_append_response n message room =
    in_order codec msg_append_response n message
      (λ x. handle_append_response-Advances codec x message)
in_term-Advances codec msg_snapshot n message room =
    in_order codec msg_snapshot n message
      (λ x. handle_image-Advances codec x message message.snapshot)
in_term-Advances codec msg_snapshot_response n message room =
    in_order codec msg_snapshot_response n message
      (λ x. handle_snapshot_response-Advances codec x message)
in_term-Advances codec (other_message type) n message room =
    in_order codec (other_message type) n message (λ x. idle x _)

kept-Advances :
    (codec : Codec) (n : Node) (message : Message) (d : Option Malformed)
    → n.term + 1 < u64_mod
    → Advances n (kept codec n message d)
unfolding kept step_in_term
kept-Advances codec n message (some reason) room =
    advances n _ _ (Rises-same n _ refl refl (omega arith))
kept-Advances codec n message none room =
    choose n (is_vote message.kind && ltb n.term message.term && in_lease n) _ _
      (advances n _ _ (Rises-same n _ refl refl (omega arith)))
      (in_term-Advances codec message.kind n message room)

-- Handling any message, well formed or not, never lowers the term or the commit index, and while
-- the term stays it never takes back or changes a vote, where the term counter has room for one
-- more.
pub step-Rises :
    (codec : Codec) (n : Node) (message : Message)
    → n.term + 1 < u64_mod
    → Rises n (step codec n message).0
unfolding step
step-Rises codec n message room =
    (choose n (message.to != 0 && message.to != n.cfg.id) _ _ (idle n no_update) (
      choose n (not (is_communication_peer codec n message.from) || message.from == n.cfg.id) _ _
        (idle n no_update)
        (kept-Advances codec n message (dropped message.kind message) room))).rises
