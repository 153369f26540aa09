-- ===== src/Raft/Rises/Calls.antt =====
-- Appends and snapshots that a follower receives, ticks and steps.
use lsmdb.Base.{
  ℕ, ◌+◌, ◌-◌, ◌≤◌, ◌<◌, ◌≡◌, refl, ap, List, ◌++◌, Option, none, some, true, false, ◌&&◌, ◌||◌,
  ◌==◌, ◌!=◌, not, if◌then◌else◌, arith, add64, u64_mod, ltb, leb, min, length, take, is_some,
  Result, ok, err, if_both, if_split,
}
use lsmdb.Raft.Types.{
  Entry, Snapshot, Message, Update, RaftError, no_update, origin_heartbeat, is_leader, is_follower,
  merge,
}
use lsmdb.Raft.Membership.{Codec, has_quorum, validate_membership}
use lsmdb.Raft.Node.{
  Node, assign, last_index, term_at, become_follower, rebuild_membership, compact_log, is_voter,
  peers,
}
use lsmdb.Raft.Frame.{
  reset_election_timer-SameNode, broadcast_append-SameNode, append_to-SameNode,
  expire_outstanding-SameNode,
}
use lsmdb.Raft.Replicate.{broadcast_append, expire_outstanding}
use lsmdb.Raft.Append.{
  accept_append, accept_or_undo, rebuild_or_undo, place_entries, store_entries, follow_sender,
  handle_append, claims_config, Splice, all_present, committed_conflict, replace, extend, splice,
}
use lsmdb.Raft.Snapshots.{
  accept_snapshot, install_snapshot, install_rebuilt, receive_snapshot, handle_image,
  with_membership,
}
use lsmdb.Raft.Driver.{append_to, collect_active, check_quorum, leader_tick, tick}
use lsmdb.Raft.Emits.Log.{rebuild_membership-eq}
use lsmdb.Raft.Rises.Relation.{
  Rises, Rises-same, SameNode-Rises, Rises-trans, Advances, advances, choose, become_follower-Rises,
}
use lsmdb.Raft.Rises.Elections.{start_pre_vote-Advances}
use lsmdb.Raft.Rises.Handlers.{idle, prepared, down}

-- From a node to one that has the same term, vote and commit index, and on.
pub onward : (n m : Node) (r : Node × Update) → Rises n m → Advances m r → Advances n r
onward n m r p q = record { rises = Rises-trans n m r.0 p q.rises }

accept_append-Advances :
    (n : Node) (u : Update) (message : Message) → Advances n (accept_append n u message)
unfolding accept_append
accept_append-Advances n u message =
    if_split (Advances n)
      (ltb n.commit (
        min message.leader_commit
          (min (add64 message.log_index (length message.entries)) (last_index n))))
      _ _ (λ above. advances n _ _ (Rises-same n _ refl refl (ground arith))) (λ _. idle n _)

accept_or_undo-Advances :
    (codec : Codec) (n : Node) (old_len : ℕ) (tail : List Entry) (u : Update) (message : Message)
    (r : Result RaftError Node)
    → rebuild_membership codec n ≡ r
    → Advances n (accept_or_undo n old_len tail u message r)
unfolding accept_or_undo
accept_or_undo-Advances codec n old_len tail u message (ok m) h =
    let (x, e) = rebuild_membership-eq codec n m h in
    onward n m _
      (Rises-same n m (ap (λ (k : Node). k.term) e) (ap (λ (k : Node). k.voted_for) e)
        (omega (arith, ap (λ (k : Node). k.commit) e)))
      (accept_append-Advances m u message)
accept_or_undo-Advances codec n old_len tail u message (err e) h =
    advances n _ _ (Rises-same n _ refl refl (omega arith))

place_entries-Advances :
    (codec : Codec) (n : Node) (u : Update) (message : Message) (sp : Splice)
    → Advances n (place_entries codec n u message sp)
unfolding place_entries rebuild_or_undo
place_entries-Advances codec n u message all_present = accept_append-Advances n u message
place_entries-Advances codec n u message committed_conflict = idle n _
place_entries-Advances codec n u message (replace index remaining) =
    let cut : Node = record n { log = take (index - n.snapshot.index - 1) n.log ++ remaining } in
    choose n (leb index n.snapshot.index) _ _
      (advances n _ u (Rises-same n _ refl refl (omega arith)))
      (prepared n cut _ refl refl refl (accept_or_undo-Advances codec cut _ _ _ message _ refl))
place_entries-Advances codec n u message (extend remaining) =
    let grown : Node = record n { log = n.log ++ remaining } in
    choose n (claims_config remaining) _ _
      (prepared n grown _ refl refl refl (accept_or_undo-Advances codec grown _ _ _ message _ refl))
      (prepared n grown _ refl refl refl (accept_append-Advances grown _ message))

follow_sender-Advances : (n : Node) (message : Message) → Advances n (follow_sender n message)
unfolding follow_sender
follow_sender-Advances n message =
    let f : Node × Update =
      if not (is_follower n.role) || n.leader_id != message.from
      then (
        (become_follower n n.term message.from).0,
        merge no_update (become_follower n n.term message.from).1,
      )
      else (n, no_update) in
    let followed : Advances n f =
      choose n (not (is_follower n.role) || n.leader_id != message.from) _ _
        (record { rises = become_follower-Rises n n.term message.from }) (idle n no_update) in
    let led : Node = record f.0 { leader_id = message.from } in
    advances n _ _ (
      Rises-trans n f.0 _ followed.rises (
        Rises-trans f.0 led _ (Rises-same f.0 led refl refl (omega arith))
          (SameNode-Rises led _ (reset_election_timer-SameNode led))))

pub handle_append-Advances :
    (codec : Codec) (n : Node) (message : Message) → Advances n (handle_append codec n message)
unfolding handle_append store_entries
handle_append-Advances codec n message =
    let f = (follow_sender n message).0 in
    onward n f _ ((follow_sender-Advances n message).rises) (
      choose f
        (ltb (last_index f) message.log_index || term_at f message.log_index != message.log_term) _
        _ (idle f _) (place_entries-Advances codec f _ message (splice f message.entries)))

commit_covers :
    (old commit index : ℕ) → commit ≡ old → old ≤ (if ltb commit index then index else commit)
commit_covers old commit index e = ground arith

install_rebuilt-Advances :
    (codec : Codec) (n : Node) (u : Update) (message : Message) (snapshot : Snapshot)
    (r : Result RaftError Node)
    → rebuild_membership codec (compact_log n snapshot) ≡ r
    → Advances n (install_rebuilt n u message snapshot r)
unfolding install_rebuilt accept_snapshot compact_log
install_rebuilt-Advances codec n u message snapshot (err e) h = idle n _
install_rebuilt-Advances codec n u message snapshot (ok m) h =
    let (x, e) = rebuild_membership-eq codec _ m h in
    advances n _ _ (
      Rises-same n _ (ap (λ (k : Node). k.term) e) (ap (λ (k : Node). k.voted_for) e)
        (commit_covers n.commit m.commit snapshot.index (ap (λ (k : Node). k.commit) e)))

install_snapshot-Advances :
    (codec : Codec) (n : Node) (u : Update) (message : Message) (snapshot : Snapshot)
    → Advances n (install_snapshot codec n u message snapshot)
unfolding install_snapshot accept_snapshot
install_snapshot-Advances codec n u message snapshot =
    choose n (leb snapshot.index n.snapshot.index) _ _ (idle n _) (
      choose n (leb snapshot.index n.commit && term_at n snapshot.index != snapshot.term) _ _
        (idle n _) (install_rebuilt-Advances codec n u message snapshot _ refl))

receive_snapshot-Advances :
    (codec : Codec) (n : Node) (u : Update) (message : Message) (snapshot : Snapshot)
    → Advances n (receive_snapshot codec n u message snapshot)
unfolding receive_snapshot
receive_snapshot-Advances codec n u message snapshot =
    choose n (is_some (validate_membership snapshot.membership)) _ _ (idle n _) (
      choose n (ltb snapshot.index snapshot.membership.index) _ _ (idle n _)
        (install_snapshot-Advances codec n u message snapshot))

pub handle_image-Advances :
    (codec : Codec) (n : Node) (message : Message) (image : Option Snapshot)
    → Advances n (handle_image codec n message image)
unfolding handle_image
handle_image-Advances codec n message none = idle n _
handle_image-Advances codec n message (some snapshot) =
    let f = (follow_sender n message).0 in
    choose n (snapshot.index == 0 || snapshot.term == 0) _ _ (idle n _) (
      onward n f _ ((follow_sender-Advances n message).rises)
        (receive_snapshot-Advances codec f _ message (with_membership f snapshot)))

check_quorum-Advances : (n : Node) → Advances n (check_quorum n)
unfolding check_quorum
check_quorum-Advances n =
    let self = if is_voter n n.cfg.id then assign (λ id. false) n.cfg.id true else λ id. false in
    let (recent, active) = collect_active n.cfg.id n.recent_active (peers n) self in
    let m : Node = record n { quorum_elapsed = 0; recent_active = recent } in
    choose n (ltb n.quorum_elapsed n.cfg.check_quorum_ticks) _ _ (idle n no_update) (
      choose n (has_quorum n.membership active) _ _
        (advances n m no_update (Rises-same n m refl refl (omega arith)))
        (prepared n m _ refl refl refl (down m)))

leader_tick-Advances : (codec : Codec) (n : Node) → Advances n (leader_tick codec n)
unfolding leader_tick
leader_tick-Advances codec n =
    let aged : Node = record n {
      heartbeat_elapsed = n.heartbeat_elapsed + 1;
      quorum_elapsed = n.quorum_elapsed + 1;
    } in
    let m = (expire_outstanding codec aged).0 in
    let expired = (expire_outstanding codec aged).1 in
    let beating : Node = record m { heartbeat_elapsed = 0 } in
    let beat = broadcast_append codec beating origin_heartbeat in
    let resent = append_to 0 origin_heartbeat m expired in
    let s : Node × List Message =
      if leb m.cfg.heartbeat_ticks m.heartbeat_elapsed then beat else resent in
    let old : Rises n m =
      Rises-trans n aged m (Rises-same n aged refl refl (omega arith))
        (SameNode-Rises aged m (expire_outstanding-SameNode codec aged)) in
    let sent : Rises n s.0 =
      if_both (λ (x : Node × List Message). Rises n x.0)
        (leb m.cfg.heartbeat_ticks m.heartbeat_elapsed) beat resent
        (Rises-trans n m _ old (
          Rises-trans m beating _ (Rises-same m beating refl refl (omega arith))
            (SameNode-Rises beating _ (broadcast_append-SameNode codec beating origin_heartbeat))))
        (Rises-trans n m _ old
          (SameNode-Rises m _ (append_to-SameNode 0 origin_heartbeat m expired))) in
    advances n _ _ (Rises-trans n s.0 _ sent ((check_quorum-Advances s.0).rises))

-- A tick never lowers the term or the commit index, and never takes back or changes a vote of the
-- term, where the term counter has room for one more.
pub tick-Rises : (codec : Codec) (n : Node) → n.term + 1 < u64_mod → Rises n (tick codec n).0
unfolding tick
tick-Rises codec n room =
    let waited : Node = record n { election_elapsed = n.election_elapsed + 1 } in
    let waiting = Rises-same n waited refl refl (omega arith) in
    (choose n (is_leader n.role) _ _ (leader_tick-Advances codec n) (
      choose n (not (is_voter n n.cfg.id)) _ _ (idle n no_update) (
        choose n (leb waited.election_timeout waited.election_elapsed) _ _
          (advances n _ _
            (Rises-trans n waited _ waiting ((start_pre_vote-Advances codec waited room).rises)))
          (advances n waited no_update waiting)))).rises
