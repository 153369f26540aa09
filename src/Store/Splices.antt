-- ===== src/Store/Splices.antt =====
-- internal/raftstore/store.go against `handleAppend` of internal/raft/node.go: each way in
-- which its entries are placed.
use lsmdb.Base.{
  ℕ, suc, ◌+◌, ◌-◌, ◌≤◌, ◌<◌, ◌≡◌, refl, sym, ap, subst, ◌∙◌, List, [], ◌∷◌, ◌++◌, none, ltb, arith,
  length, length-take, length-drop, take, drop, take-append-drop, add64, u64_mod, min, All, if_both,
  Result, ok, err,
}
use lsmdb.Raft.Types.{Entry, HardState, Message, Update, send, RaftError}
use lsmdb.Raft.Membership.{Codec}
use lsmdb.Raft.Node.{Node, hard_state, last_index, rebuild_membership}
use lsmdb.Raft.Append.{accept_append, accept_or_undo}
use lsmdb.Raft.Append.Splices.{HasRoom, IsStorable, Consecutive}
use lsmdb.Raft.Emits.Relation.{Chain, saved}
use lsmdb.Raft.Emits.Log.{rebuild_membership-eq}
use lsmdb.Store.{Store, Failure, truncate, append, persist}
use lsmdb.Store.Appends.{InSync, append-Chain, persist-plain, stored}

-- The store takes the update of the step, and then holds the hard state and the log of the node.
pub record Persists (s : Store) (r : Node × Update) : Type 0 where
  pub persisted : persist s r.1 ≡ ok (stored s r.0)

-- An update that writes nothing.
pub record IsCalm (u : Update) : Type 0 where
  pub calm_hard : u.hard_state ≡ none
  pub calm_entries : u.entries ≡ []
  pub calm_truncate : u.truncate_from ≡ 0
  pub calm_snapshot : u.snapshot ≡ none

Consecutive-Chain :
    (base len : ℕ) (es : List Entry)
    → base + len + length es + 1 < u64_mod
    → Consecutive (base + len + 1) es
    → Chain base len es
Consecutive-Chain base len [] room c = tt
Consecutive-Chain base len (e ∷ es) room c = (
  omega (arith, c.0),
  Consecutive-Chain base (suc len) es (omega arith)
      (subst (λ k. Consecutive k es) (omega arith) c.1),
)

pub calm-Persists :
    (s : Store) (f m : Node) (u : Update)
    → InSync s f
    → IsCalm u
    → hard_state m ≡ hard_state f
    → m.log ≡ f.log
    → Persists s (m, u)
unfolding append
calm-Persists s f m u sync calm h l = record {
  persisted = ground (arith, persist-plain s u calm.calm_truncate calm.calm_snapshot);
}

-- The messages, the committed entries and the commit index are not written.
pub accept_append-Persists :
    (s : Store) (m : Node) (u : Update) (message : Message)
    → Persists s (m, u)
    → Persists s (accept_append m u message)
unfolding accept_append persist
accept_append-Persists s m u message p =
    if_both (Persists s)
      (ltb m.commit (
        min message.leader_commit
          (min (add64 message.log_index (length message.entries)) (last_index m))))
      _ _ (record { persisted = p.persisted }) (record { persisted = p.persisted })

pub send-Persists :
    (s : Store) (m : Node) (u : Update) (messages : List Message)
    → Persists s (m, u)
    → Persists s (m, send u messages)
unfolding persist
send-Persists s m u messages p = record { persisted = p.persisted }

pub take-length : (xs ys : List Entry) → take (length xs) (xs ++ ys) ≡ xs
take-length [] ys = refl
take-length (x ∷ xs) ys = ap (λ r. x ∷ r) (take-length xs ys)

-- The log after an undone splice is the log before it.
pub undone_log :
    (keep : ℕ) (log remaining : List Entry)
    → take (length log - length (drop keep log)) (take keep log ++ remaining) ++ drop keep log ≡ log
undone_log keep log remaining =
    let kept : length log - length (drop keep log) ≡ length (take keep log) =
      omega (arith, length-take keep log, length-drop keep log) in
    ap (λ k. take k (take keep log ++ remaining) ++ drop keep log) kept
    ∙ ap (λ l. l ++ drop keep log) (take-length (take keep log) remaining)
    ∙ take-append-drop keep log

module _ (codec : Codec) (s : Store) (f cut : Node) (tail : List Entry) (u : Update)
    (message : Message) (restores : take (length f.log - length tail) cut.log ++ tail ≡ f.log)
    (same : hard_state cut ≡ hard_state f) where
  pub accept_or_undo-Persists :
      (r : Result RaftError Node)
      → rebuild_membership codec cut ≡ r
      → Persists s (cut, u)
      → Persists s (f, record u { truncate_from = 0; entries = [] })
      → Persists s (accept_or_undo cut (length f.log) tail u message r)
  unfolding accept_or_undo
  accept_or_undo-Persists (ok m) h done undone =
      let (x, e) = rebuild_membership-eq codec cut m h in
      accept_append-Persists s m u message
        (record { persisted = done.persisted ∙ ap (λ k. ok (stored s k)) (sym e) })
  accept_or_undo-Persists (err e) h done undone = send-Persists s _ _ _ (record {
    persisted =
        undone.persisted
        ∙ ap (λ h'. ok (record s { hard = h'; entries = f.log })) (sym same)
        ∙ ap (λ l. ok (record s { hard = hard_state cut; entries = l })) (sym restores);
  })

truncate_lem :
    (s : Store) (from : ℕ)
    → s.snapshot.index + length s.entries + 1 < u64_mod
    → s.snapshot.index < from
    → from ≤ s.snapshot.index + length s.entries
    → truncate s from ≡ ok (record s { entries = take (from - s.snapshot.index - 1) s.entries })
unfolding truncate
truncate_lem s from room lo hi =
    let first : from - add64 s.snapshot.index 1 ≡ from - s.snapshot.index - 1 = omega arith in
    ground (arith, ap (λ k. take k s.entries) first)

unsaved : (h : HardState) (u : Update) → u.hard_state ≡ none → saved h u ≡ h
unsaved h u e = ground arith

-- An update that cuts the log and appends.
persist-cut :
    (s t : Store) (u : Update)
    → u.hard_state ≡ none
    → u.snapshot ≡ none
    → 0 < u.truncate_from
    → truncate s u.truncate_from ≡ ok t
    → persist s u ≡ append t u.entries
unfolding persist
persist-cut s t u h n pos cut = ground arith

append-run :
    (t : Store) (es : List Entry)
    → t.snapshot.index + length t.entries + length es + 1 < u64_mod
    → Consecutive (t.snapshot.index + length t.entries + 1) es
    → All IsStorable es
    → append t es ≡ ok (record t { entries = t.entries ++ es })
append-run t es room run storable =
    append-Chain t es (Consecutive-Chain t.snapshot.index (length t.entries) es room run) storable

module _ (s : Store) (f : Node) (remaining : List Entry) (u : Update) (sync : InSync s f)
    (room : HasRoom f (length remaining)) (storable : All IsStorable remaining)
    (uh : u.hard_state ≡ none) (us : u.snapshot ≡ none) (ue : u.entries ≡ remaining) where
  in_step :
      (l m : List Entry)
      → l ≡ m
      → ◌≡◌ {A = Result Failure Store}
          (ok (record s { entries = l ++ remaining }))
          (ok (record s { hard = hard_state f; entries = m ++ remaining }))
  in_step l m e =
      ap (λ k. ok (record s { entries = k ++ remaining })) e
      ∙ ap (λ h. ok (record s { hard = h; entries = m ++ remaining })) sync.hard

  pub replaced-Persists :
      (index : ℕ)
      → f.snapshot.index < index
      → index ≤ f.snapshot.index + length f.log
      → Consecutive index remaining
      → u.truncate_from ≡ index
      → Persists s (record f { log = take (index - f.snapshot.index - 1) f.log ++ remaining }, u)
  replaced-Persists index lo hi run ut =
      let keep = index - f.snapshot.index - 1 in
      let same = sync.base in
      let counts = ap length sync.entries in
      let t : Store = record s { entries = take (index - s.snapshot.index - 1) s.entries } in
      let kept : length t.entries ≡ keep =
        omega (arith, length-take (index - s.snapshot.index - 1) s.entries) in
      record {
        persisted =
            persist-cut s t u uh us (omega arith)
              (ap (truncate s) ut ∙ truncate_lem s index (omega arith) (omega arith) (omega arith))
            ∙ ap (append t) ue
            ∙ append-run t remaining (omega arith)
                (subst (λ k. Consecutive k remaining) (omega arith) run) storable
            ∙ in_step t.entries (take keep f.log)
                (ap (λ b. take (index - b - 1) s.entries) sync.base ∙ ap (take keep) sync.entries);
      }

  pub extended-Persists :
      Consecutive (f.snapshot.index + length f.log + 1) remaining
      → u.truncate_from ≡ 0
      → Persists s (record f { log = f.log ++ remaining }, u)
  extended-Persists run ut =
      let same = sync.base in
      let counts = ap length sync.entries in
      record {
        persisted =
            persist-plain s u ut us
            ∙ ap (append (record s { hard = saved s.hard u })) ue
            ∙ ap (λ h. append (record s { hard = h }) remaining) (unsaved s.hard u uh)
            ∙ append-run s remaining (omega arith)
                (subst (λ k. Consecutive k remaining) (omega arith) run) storable
            ∙ in_step s.entries f.log sync.entries;
      }
