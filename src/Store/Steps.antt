-- ===== src/Store/Steps.antt =====
-- internal/raftstore/store.go against `Step` of internal/raft/node.go.
use lsmdb.Base.{◌≤◌, ◌≡◌, ◌≢◌, refl, sym, ap, subst, ◌∙◌, List, [], ◌++◌, none, arith, length, All}
use lsmdb.Raft.Types.{
  Snapshot, Message, MessageType, msg_pre_vote, msg_pre_vote_response, msg_vote, msg_vote_response,
  msg_append, msg_append_response, msg_snapshot, msg_snapshot_response, other_message, Update,
  messages_only, merge,
}
use lsmdb.Raft.Membership.{Codec}
use lsmdb.Raft.Node.{Node, hard_state}
use lsmdb.Raft.Append.Splices.{HasRoom, IsStorable}
use lsmdb.Raft.Driver.{dispatch, dropped}
use lsmdb.Raft.Emits.Relation.{Emits, Writes, saved, saved-merge}
use lsmdb.Raft.Emits.Handlers.{
  handle_pre_vote_response-Writes, handle_vote-Writes, handle_vote_response-Writes,
  handle_append_response-Writes, handle_snapshot_response-Writes,
}
use lsmdb.Store.{Store, persist, write_parts}
use lsmdb.Store.Appends.{InSync, Writes-persist}
use lsmdb.Store.Splices.{Persists, IsCalm, calm-Persists}
use lsmdb.Store.Handled.{handle_append-persist}

-- Where the new entries are storable, the store takes the update.
abbrev pub Stores : Store → Node × Update → Type 0
Stores s r = All IsStorable r.1.entries → Persists s r

pub still :
    (s : Store) (n m : Node) (u : Update)
    → InSync s n
    → IsCalm u
    → hard_state m ≡ hard_state n
    → m.log ≡ n.log
    → Stores s (m, u)
still s n m u sync calm h l a = calm-Persists s n m u sync calm h l

pub no_write : (messages : List Message) → IsCalm (messages_only messages)
no_write messages = record {
  calm_hard = refl;
  calm_entries = refl;
  calm_truncate = refl;
  calm_snapshot = refl;
}

written : (s : Store) (n : Node) (r : Node × Update) → InSync s n → Writes n r → Stores s r
written s n r sync w a = record { persisted = Writes-persist s n r sync w a }

pub dispatch-Stores :
    (codec : Codec) (s : Store) (kind : MessageType) (n : Node) (message : Message)
    → InSync s n
    → n.snapshot.index ≤ n.commit
    → HasRoom n (length message.entries)
    → dropped kind message ≡ none
    → kind ≢ msg_snapshot
    → Stores s (dispatch codec kind n message)
unfolding dispatch
dispatch-Stores codec s msg_pre_vote n message sync w room good other =
    still s n n _ sync (no_write _) refl refl
dispatch-Stores codec s msg_pre_vote_response n message sync w room good other =
    written s n _ sync (handle_pre_vote_response-Writes codec n message)
dispatch-Stores codec s msg_vote n message sync w room good other =
    written s n _ sync (handle_vote-Writes codec n message)
dispatch-Stores codec s msg_vote_response n message sync w room good other =
    written s n _ sync (handle_vote_response-Writes codec n message)
dispatch-Stores codec s msg_append n message sync w room good other =
    λ a. record { persisted = handle_append-persist codec s n message sync w room good }
dispatch-Stores codec s msg_append_response n message sync w room good other =
    written s n _ sync (handle_append_response-Writes codec n message)
dispatch-Stores codec s msg_snapshot n message sync w room good other = absurd (other refl)
dispatch-Stores codec s msg_snapshot_response n message sync w room good other =
    written s n _ sync (handle_snapshot_response-Writes codec n message)
dispatch-Stores codec s (other_message type) n message sync w room good other =
    still s n n _ sync (no_write []) refl refl

-- An update that saves only the hard state, and then another one.
merge_fields :
    (down u : Update)
    → down.entries ≡ []
    → down.truncate_from ≡ 0
    → down.snapshot ≡ none
    → ((merge down u).entries ≡ u.entries)
      × ((merge down u).truncate_from ≡ u.truncate_from)
      × ((merge down u).snapshot ≡ u.snapshot)
unfolding merge
merge_fields down u e t n = (ap (λ es. es ++ u.entries) e, ground arith, ground arith)

persist-merge :
    (s : Store) (down u : Update)
    → down.entries ≡ []
    → down.truncate_from ≡ 0
    → down.snapshot ≡ none
    → persist s (merge down u) ≡ persist (record s { hard = saved s.hard down }) u
unfolding persist
persist-merge s down u e t n =
    let (entries, cut, snapshot) = merge_fields down u e t n in
    ap
      (λ h.
        write_parts (record s { hard = h }) (merge down u).snapshot (merge down u).truncate_from
          (merge down u).entries)
      (saved-merge s.hard down u)
    ∙ ap
        (λ x.
          write_parts (record s { hard = saved (saved s.hard down) u }) x
            (merge down u).truncate_from (merge down u).entries)
        snapshot
    ∙ ap
        (λ k.
          write_parts (record s { hard = saved (saved s.hard down) u }) u.snapshot k
            (merge down u).entries)
        cut
    ∙ ap
        (λ es.
          write_parts (record s { hard = saved (saved s.hard down) u }) u.snapshot u.truncate_from
            es)
        entries

-- The new term first, and then the handler.
pub adopted-Stores :
    (s : Store) (n f : Node) (down : Update) (r : Node × Update)
    → InSync s n
    → Emits n f down
    → down.entries ≡ []
    → f.log ≡ n.log
    → (InSync (record s { hard = hard_state f }) f → Stores (record s { hard = hard_state f }) r)
    → Stores s (r.0, merge down r.1)
adopted-Stores s n f down r sync e none_new same handled a =
    let hardened : Store = record s { hard = hard_state f } in
    let (entries, _, _) = merge_fields down r.1 none_new e.truncates e.snapshots in
    let hard : saved s.hard down ≡ hard_state f = ap (λ h. saved h down) sync.hard ∙ e.hard in
    let sync' : InSync hardened f = record {
      hard = refl;
      entries = sync.entries ∙ sym same;
      base = sync.base ∙ sym (ap (λ (x : Snapshot). x.index) e.base);
      base_term = sync.base_term ∙ sym (ap (λ (x : Snapshot). x.term) e.base);
    } in
    record {
      persisted =
          persist-merge s down r.1 none_new e.truncates e.snapshots
          ∙ ap (λ h. persist (record s { hard = h }) r.1) hard
          ∙ (handled sync' (subst (All IsStorable) entries a)).persisted;
    }
