-- ===== src/Store/Stepped.antt =====
-- internal/raftstore/store.go against `Step` of internal/raft/node.go, put together.
use lsmdb.Base.{
  ℕ, ◌≤◌, ◌≡◌, ◌≢◌, refl, ap, [], Option, none, some, ◌||◌, ◌&&◌, ◌==◌, ◌!=◌, not, ltb, arith,
  length, All, if_both, ok,
}
use lsmdb.Raft.Types.{Snapshot, Message, msg_snapshot, Update, no_update, Malformed}
use lsmdb.Raft.Membership.{Codec}
use lsmdb.Raft.Node.{Node, hard_state, become_follower, reset_election_timer, is_communication_peer}
use lsmdb.Raft.Append.Splices.{HasRoom, IsStorable}
use lsmdb.Raft.Election.{in_lease}
use lsmdb.Raft.Driver.{dispatch, step_in_term, step, kept, dropped, is_vote, is_pre_vote_kind}
use lsmdb.Raft.Emits.Log.{become_follower-Emits}
use lsmdb.Store.{Store, persist}
use lsmdb.Store.Appends.{InSync, stored}
use lsmdb.Store.Splices.{IsCalm}
use lsmdb.Store.Steps.{Stores, still, no_write, dispatch-Stores, adopted-Stores}

-- What the change of the term leaves alone.
become_follower-same :
    (n : Node) (term : ℕ)
    → ((become_follower n term 0).0.log ≡ n.log)
      × ((become_follower n term 0).0.snapshot ≡ n.snapshot)
      × ((become_follower n term 0).0.commit ≡ n.commit)
      × ((become_follower n term 0).1.entries ≡ [])
unfolding become_follower reset_election_timer
become_follower-same n term = (refl, refl, refl, refl)

module _ (codec : Codec) (s : Store) (n : Node) (message : Message) (sync : InSync s n)
    (within : n.snapshot.index ≤ n.commit) (room : HasRoom n (length message.entries))
    (other : message.kind ≢ msg_snapshot) where
  step_in_term-Stores :
      dropped message.kind message ≡ none → Stores s (step_in_term codec n message)
  unfolding step_in_term
  step_in_term-Stores good =
      let f = (become_follower n message.term 0).0 in
      let (log, snapshot, commit, entries) = become_follower-same n message.term in
      let base = ap (λ (x : Snapshot). x.index) snapshot in
      let counts = ap length log in
      let current = dispatch-Stores codec s message.kind n message sync within room good other in
      if_both (Stores s) (is_pre_vote_kind message.kind) _ _ current (
        if_both (Stores s) (ltb n.term message.term) _ _
          (adopted-Stores s n f _ (dispatch codec message.kind f message) sync
            (become_follower-Emits n message.term 0) entries log
            (λ sync'.
              dispatch-Stores codec (record s { hard = hard_state f }) message.kind f message sync'
                (omega (arith, commit)) (omega arith) good other))
          (if_both (Stores s) (ltb message.term n.term) _ _
            (still s n n _ sync (no_write _) refl refl) current))

  -- A node that counts a message and ignores it.
  counted :
      (m : Node) (u : Update)
      → hard_state m ≡ hard_state n
      → m.log ≡ n.log
      → IsCalm u
      → Stores s (m, u)
  counted m u h l calm = still s n m u sync calm h l

  IsCalm-update : IsCalm no_update
  IsCalm-update = record {
    calm_hard = refl;
    calm_entries = refl;
    calm_truncate = refl;
    calm_snapshot = refl;
  }

  kept-Stores :
      (d : Option Malformed) → dropped message.kind message ≡ d → Stores s (kept codec n message d)
  unfolding kept
  kept-Stores (some reason) e =
      counted _ _ refl refl (record {
        calm_hard = refl;
        calm_entries = refl;
        calm_truncate = refl;
        calm_snapshot = refl;
      })
  kept-Stores none e =
      if_both (Stores s) (is_vote message.kind && ltb n.term message.term && in_lease n) _ _
        (counted _ _ refl refl IsCalm-update) (step_in_term-Stores e)

  step-Stores : Stores s (step codec n message)
  unfolding step
  step-Stores =
      let ignored = counted n no_update refl refl IsCalm-update in
      if_both (Stores s) (message.to != 0 && message.to != n.cfg.id) _ _ ignored (
        if_both (Stores s)
          (not (is_communication_peer codec n message.from) || message.from == n.cfg.id) _ _ ignored
          (kept-Stores (dropped message.kind message) refl))

  -- A step on any message but a snapshot leaves a store that held the node's durable state before
  -- with its durable state after, once the update is persisted, and no part of the update is
  -- refused: where the snapshot is not above the commit index, the indexes have room for the
  -- message's entries, and the update's entries have a term and data within the limit.
  pub step-persist :
      All IsStorable (step codec n message).1.entries
      → persist s (step codec n message).1 ≡ ok (stored s (step codec n message).0)
  step-persist a = (step-Stores a).persisted
