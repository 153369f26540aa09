-- ===== src/Store/Handled.antt =====
-- internal/raftstore/store.go against `handleAppend` of internal/raft/node.go, put together.
use mathlib.Core.List.{append-nil}
use lsmdb.Base.{
  ℕ, suc, ◌-◌, ◌≤◌, ◌≡◌, refl, sym, ap, subst, ◌∙◌, List, [], ◌∷◌, ◌++◌, none, ◌||◌, ◌!=◌, ◌==◌,
  not, ltb, leb, arith, length, take, drop, if_both, if_split, ok,
}
use lsmdb.Raft.Types.{Entry, Snapshot, Message, Update, no_update, is_follower, merge}
use lsmdb.Raft.Membership.{Codec}
use lsmdb.Raft.Node.{Node, hard_state, last_index, term_at, become_follower, reset_election_timer}
use lsmdb.Raft.Append.{
  malformed_append, rebuild_or_undo, place_entries, store_entries, follow_sender, handle_append,
  claims_config, splice, Splice, all_present, committed_conflict, replace, extend,
}
use lsmdb.Raft.Append.WellFormed.{malformed_append_iff}
use lsmdb.Raft.Append.Splices.{HasRoom, Consecutive, Placed, splice-Placed, last_index_lem}
use lsmdb.Store.{Store, persist}
use lsmdb.Store.Appends.{InSync, stored}
use lsmdb.Store.Splices.{
  Persists, IsCalm, calm-Persists, accept_append-Persists, send-Persists, undone_log, take-length,
  accept_or_undo-Persists, replaced-Persists, extended-Persists,
}

-- The entries that a splice adds.
abbrev added : Splice → List Entry
added all_present = []
added committed_conflict = []
added (replace index remaining) = remaining
added (extend remaining) = remaining

module _ (codec : Codec) (s : Store) (f : Node) (u : Update) (message : Message) (sync : InSync s f)
    (calm : IsCalm u) (within : f.snapshot.index ≤ f.commit) where
  undone-Persists : Persists s (f, record u { truncate_from = 0; entries = [] })
  undone-Persists =
      calm-Persists s f f _ sync
        (record {
          calm_hard = calm.calm_hard;
          calm_entries = refl;
          calm_truncate = refl;
          calm_snapshot = calm.calm_snapshot;
        })
        refl refl

  new_entries : (remaining : List Entry) → u.entries ++ remaining ≡ remaining
  new_entries remaining = ap (λ es. es ++ remaining) calm.calm_entries

  place_entries-Persists :
      (sp : Splice)
      → HasRoom f (length (added sp))
      → Placed f sp
      → Persists s (place_entries codec f u message sp)
  unfolding place_entries rebuild_or_undo
  place_entries-Persists all_present room p =
      accept_append-Persists s f u message (calm-Persists s f f u sync calm refl refl)
  place_entries-Persists committed_conflict room p =
      send-Persists s f u _ (calm-Persists s f f u sync calm refl refl)
  place_entries-Persists (replace index remaining) room p =
      let last = last_index_lem f (length remaining) room in
      let keep = index - f.snapshot.index - 1 in
      let cut : Node = record f { log = take keep f.log ++ remaining } in
      if_split (Persists s) (leb index f.snapshot.index) _ _ (λ low. absurd (ground (arith, p.0)))
        (λ high.
          accept_or_undo-Persists codec s f cut (drop keep f.log) _ message
            (undone_log keep f.log remaining) refl _ refl
            (replaced-Persists s f remaining _ sync room p.3 calm.calm_hard calm.calm_snapshot
              (new_entries remaining) index (omega arith) (omega (arith, p.1)) p.2 refl)
            undone-Persists)
  place_entries-Persists (extend remaining) room p =
      let last = last_index_lem f (length remaining) room in
      let grown : Node = record f { log = f.log ++ remaining } in
      let done =
        extended-Persists s f remaining (record u { entries = u.entries ++ remaining }) sync room
          p.1 calm.calm_hard calm.calm_snapshot (new_entries remaining)
          (subst (λ k. Consecutive k remaining) (omega (arith, last)) p.0) calm.calm_truncate in
      if_both (Persists s) (claims_config remaining) _ _
        (accept_or_undo-Persists codec s f grown [] _ message
          (append-nil _ ∙ ap (λ k. take k grown.log) (omega arith) ∙ take-length f.log remaining)
          refl _ refl done undone-Persists)
        (accept_append-Persists s grown _ message done)

-- Following the sender writes nothing.
pub record Followed (n f : Node) (u : Update) : Type 0 where
  pub calm : IsCalm u
  pub same_hard : hard_state f ≡ hard_state n
  pub same_log : f.log ≡ n.log
  pub same_snapshot : f.snapshot ≡ n.snapshot
  pub same_commit : f.commit ≡ n.commit

become_follower-Followed :
    (n : Node) (leader : ℕ)
    → Followed n
        (become_follower n n.term leader).0
        (merge no_update (become_follower n n.term leader).1)
unfolding become_follower reset_election_timer merge
become_follower-Followed n leader = ground arith

abbrev Following : Node → Node × Update → Type 0
Following n r = Followed n r.0 r.1

pub follow_sender-Followed :
    (n : Node) (message : Message)
    → Followed n (follow_sender n message).0 (follow_sender n message).1
unfolding follow_sender reset_election_timer
follow_sender-Followed n message =
    let followed =
      if_both (Following n) (not (is_follower n.role) || n.leader_id != message.from)
        (
          (become_follower n n.term message.from).0,
          merge no_update (become_follower n n.term message.from).1,
        )
        (n, no_update) (become_follower-Followed n message.from)
        (record {
          calm = record {
            calm_hard = refl;
            calm_entries = refl;
            calm_truncate = refl;
            calm_snapshot = refl;
          };
          same_hard = refl;
          same_log = refl;
          same_snapshot = refl;
          same_commit = refl;
        }) in
    record {
      calm = followed.calm;
      same_hard = followed.same_hard;
      same_log = followed.same_log;
      same_snapshot = followed.same_snapshot;
      same_commit = followed.same_commit;
    }

-- The splice adds no more entries than the append holds.
length-added : (n : Node) (es : List Entry) → length (added (splice n es)) ≤ length es
unfolding splice
length-added n [] = omega arith
length-added n (e ∷ es) =
    if_both (λ sp. length (added sp) ≤ suc (length es)) (leb e.index (last_index n)) _ _
      (if_both (λ sp. length (added sp) ≤ suc (length es)) (term_at n e.index == e.term) _ _
        (omega (arith, length-added n es))
        (if_both (λ sp. length (added sp) ≤ suc (length es)) (leb e.index n.commit) _ _
          (omega arith) (omega arith)))
      (omega arith)

-- A well-formed append, whatever the node makes of it, leaves a store that held the node's durable
-- state before with its durable state after, once the update is persisted: where the snapshot is
-- not above the commit index and the indexes have room for the message's entries.
pub handle_append-persist :
    (codec : Codec) (s : Store) (n : Node) (message : Message)
    → InSync s n
    → n.snapshot.index ≤ n.commit
    → HasRoom n (length message.entries)
    → malformed_append message ≡ none
    → persist s (handle_append codec n message).1 ≡ ok (stored s (handle_append codec n message).0)
unfolding handle_append store_entries
handle_append-persist codec s n message sync within room good =
    let f = (follow_sender n message).0 in
    let u = (follow_sender n message).1 in
    let followed = follow_sender-Followed n message in
    let base = ap (λ (x : Snapshot). x.index) followed.same_snapshot in
    let base_term = ap (λ (x : Snapshot). x.term) followed.same_snapshot in
    let counts = ap length followed.same_log in
    let sync' : InSync s f = record {
      hard = sync.hard ∙ sym followed.same_hard;
      entries = sync.entries ∙ sym followed.same_log;
      base = sync.base ∙ sym base;
      base_term = sync.base_term ∙ sym base_term;
    } in
    let within' : f.snapshot.index ≤ f.commit = omega (arith, followed.same_commit) in
    let room' : HasRoom f (length message.entries) = omega arith in
    let good' = (malformed_append_iff message).0 good in
    let result =
      if_split (Persists s)
        (ltb (last_index f) message.log_index || term_at f message.log_index != message.log_term) _
        _ (λ _. send-Persists s f u _ (calm-Persists s f f u sync' followed.calm refl refl))
        (λ fits.
          place_entries-Persists codec s f u message sync' followed.calm within'
            (splice f message.entries) (omega (arith, length-added f message.entries))
            (splice-Placed f message 0 message.log_term message.entries room' (ground arith)
              good')) in
    result.persisted
