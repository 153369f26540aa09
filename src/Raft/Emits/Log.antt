-- ===== src/Raft/Emits/Log.antt =====
-- internal/raft/node.go: what a change of role, a commit and a campaign write to the durable state.
use mathlib.Core.List.{append-nil}
use lsmdb.Base.{
  ℕ, ◌≡◌, refl, sym, ap, subst, ◌∙◌, [], ◌∷◌, ◌++◌, none, some, Bool, true, false, ◌&&◌, not,
  if◌then◌else◌, arith, length, add64, leb, is_empty, Result, ok, ◌>>=◌, err,
}
use lsmdb.Raft.Types.{
  Entry, HardState, Membership, Update, no_update, send, origin_other, origin_commit_advance,
  RaftError,
}
use lsmdb.Raft.Membership.{Codec}
use lsmdb.Raft.Node.{
  Node, hard_state, last_index, become_follower, reset_election_timer, rebuild_membership,
  fold_membership, base_membership, is_voter,
}
use lsmdb.Raft.Frame.{broadcast_append-SameNode, reset_election_timer-SameNode}
use lsmdb.Raft.Replicate.{
  final_entry, install_final, finish_joint, after_commit, maybe_commit, broadcast_append,
}
use lsmdb.Raft.Election.{
  become_leader, start_election, start_pre_vote, campaigning, pre_campaigning,
}
use lsmdb.Raft.Emits.Relation.{
  Emits, OfTerm, Chain, Emits-still, Emits-refl, Emits-send, Emits-before, Emits-after, Emits-merge,
  hard_state-SameNode,
}

pub become_follower-Emits :
    (n : Node) (term leader : ℕ)
    → Emits n (become_follower n term leader).0 (become_follower n term leader).1
unfolding become_follower reset_election_timer
become_follower-Emits n term leader = record {
  hard = ground arith;
  log = sym (append-nil n.log);
  truncates = refl;
  snapshots = refl;
  base = refl;
  chain = tt;
  terms = tt;
}

-- Stepping down in the same term.
pub become_follower-term :
    (n : Node) (leader : ℕ) → (become_follower n n.term leader).0.term ≡ n.term
unfolding become_follower reset_election_timer
become_follower-term n leader = ground arith

rebuilt :
    (n : Node) (r : Result RaftError Membership) (m : Node)
    → (r >>= λ x. ok (record n { membership = x })) ≡ ok m
    → (x : Membership) × (m ≡ record n { membership = x })
rebuilt n (ok x) m h = (x, ground arith)
rebuilt n (err e) m h = absurd (ground arith)

-- Rebuilding changes the configuration alone.
pub rebuild_membership-eq :
    (codec : Codec) (n m : Node)
    → rebuild_membership codec n ≡ ok m
    → (x : Membership) × (m ≡ record n { membership = x })
unfolding rebuild_membership
rebuild_membership-eq codec n m h = rebuilt n (fold_membership codec (base_membership n) n.log) m h

-- A node whose log has one more entry of its term, at the next index.
grown-Emits :
    (n m : Node) (e : Entry) (u : Update)
    → hard_state m ≡ hard_state n
    → m.snapshot ≡ n.snapshot
    → m.log ≡ n.log ++ e ∷ []
    → e.index ≡ add64 (last_index n) 1
    → e.term ≡ n.term
    → u.hard_state ≡ none
    → u.entries ≡ e ∷ []
    → u.truncate_from ≡ 0
    → u.snapshot ≡ none
    → Emits n m u
unfolding last_index
grown-Emits n m e u h s l i t uh ue ut us = record {
  hard = ground arith;
  log = l ∙ ap (λ es. n.log ++ es) (sym ue);
  truncates = ut;
  snapshots = us;
  base = s;
  chain = subst (Chain n.snapshot.index (length n.log)) (sym ue) (i, tt);
  terms = subst (OfTerm m.term) (sym ue) (t ∙ sym (ap (λ (x : HardState). x.term) h), tt);
}

install_final-Emits :
    (codec : Codec) (n : Node) (r : Result RaftError Node)
    → rebuild_membership codec (record n { log = n.log ++ final_entry codec n ∷ [] }) ≡ r
    → Emits n
        (install_final n (final_entry codec n) r).0
        (install_final n (final_entry codec n) r).1
unfolding install_final
install_final-Emits codec n (err e) h = Emits-still n _ no_update refl refl refl refl refl refl refl
install_final-Emits codec n (ok m) h =
    let (x, e) = rebuild_membership-eq codec _ m h in
    grown-Emits n _ (final_entry codec n) _ (ground arith) (ground arith) (ground arith) refl refl
      refl refl refl refl

-- Both sides of a test.
pub Emits-if :
    (n : Node) (b : Bool) (x y : Node × Update)
    → Emits n x.0 x.1
    → Emits n y.0 y.1
    → Emits n (if b then x else y).0 (if b then x else y).1
Emits-if n true x y p q = p
Emits-if n false x y p q = q

finish_joint-Emits :
    (codec : Codec) (n : Node) → Emits n (finish_joint codec n).0 (finish_joint codec n).1
unfolding finish_joint
finish_joint-Emits codec n =
    Emits-if n (not (is_empty n.membership.joint_voters) && leb n.membership.index n.commit) _ _
      (install_final-Emits codec n _ refl) (Emits-refl n)

after_commit-Emits :
    (codec : Codec) (n : Node) → Emits n (after_commit codec n).0 (after_commit codec n).1
unfolding after_commit
after_commit-Emits codec n =
    let m = (finish_joint codec n).0 in
    let u = (finish_joint codec n).1 in
    let m' = (broadcast_append codec m origin_commit_advance).0 in
    let messages = (broadcast_append codec m origin_commit_advance).1 in
    let fin : Emits n m' (send u messages) = Emits-send n m' u messages (
      Emits-after n m m' u (finish_joint-Emits codec n)
        (broadcast_append-SameNode codec m origin_commit_advance)) in
    Emits-if n (leb m'.membership.index m'.commit && not (is_voter m' m'.cfg.id)) _ _
      (Emits-merge n m' (become_follower m' m'.term 0).0 (send u messages)
        (become_follower m' m'.term 0).1 fin (become_follower-Emits m' m'.term 0)
        (subst (λ t. OfTerm t u.entries) (sym (become_follower-term m' 0)) fin.terms))
      fin

-- The term stays.
install_final-term :
    (codec : Codec) (n : Node) (r : Result RaftError Node)
    → rebuild_membership codec (record n { log = n.log ++ final_entry codec n ∷ [] }) ≡ r
    → (install_final n (final_entry codec n) r).0.term ≡ n.term
unfolding install_final
install_final-term codec n (err e) h = refl
install_final-term codec n (ok m) h =
    let (x, e) = rebuild_membership-eq codec _ m h in ap (λ (k : Node). k.term) e

term-if :
    (t : ℕ) (b : Bool) (x y : Node × Update)
    → x.0.term ≡ t
    → y.0.term ≡ t
    → (if b then x else y).0.term ≡ t
term-if t true x y p q = p
term-if t false x y p q = q

finish_joint-term : (codec : Codec) (n : Node) → (finish_joint codec n).0.term ≡ n.term
unfolding finish_joint
finish_joint-term codec n =
    term-if n.term (not (is_empty n.membership.joint_voters) && leb n.membership.index n.commit) _ _
      (install_final-term codec n _ refl) refl

after_commit-term : (codec : Codec) (n : Node) → (after_commit codec n).0.term ≡ n.term
unfolding after_commit
after_commit-term codec n =
    let m = (finish_joint codec n).0 in
    let m' = (broadcast_append codec m origin_commit_advance).0 in
    let kept =
      (broadcast_append-SameNode codec m origin_commit_advance).same_term
      ∙ finish_joint-term codec n in
    term-if n.term (leb m'.membership.index m'.commit && not (is_voter m' m'.cfg.id)) _ _
      (become_follower-term m' 0 ∙ kept) kept

pub maybe_commit-term : (codec : Codec) (n : Node) → (maybe_commit codec n).0.term ≡ n.term
unfolding maybe_commit
maybe_commit-term codec n = term-if n.term _ _ _ refl (after_commit-term codec _)

pub maybe_commit-Emits :
    (codec : Codec) (n : Node) → Emits n (maybe_commit codec n).0 (maybe_commit codec n).1
unfolding maybe_commit
maybe_commit-Emits codec n = Emits-if n _ _ _ (Emits-refl n) (
    Emits-merge n _ _ _ _ (Emits-still n _ _ refl refl refl refl refl refl refl)
      (after_commit-Emits codec _) tt)

pub become_leader-Emits :
    (codec : Codec) (n : Node) → Emits n (become_leader codec n).0 (become_leader codec n).1
unfolding become_leader
become_leader-Emits codec n =
    Emits-merge n _ _ _ _
      (Emits-after n _ _ _ (grown-Emits n _ _ _ refl refl refl refl refl refl refl refl refl)
        (broadcast_append-SameNode codec _ origin_other))
      (maybe_commit-Emits codec _)
      (
        sym (
            maybe_commit-term codec _ ∙ (broadcast_append-SameNode codec _ origin_other).same_term),
        tt,
      )

pub campaign-Emits :
    (n m : Node) (u : Update)
    → u.hard_state ≡ some (hard_state m)
    → m.snapshot ≡ n.snapshot
    → m.log ≡ n.log
    → u.entries ≡ []
    → u.truncate_from ≡ 0
    → u.snapshot ≡ none
    → Emits n m u
campaign-Emits n m u h s l ue ut us = record {
  hard = ground arith;
  log = l ∙ sym (append-nil n.log) ∙ ap (λ es. n.log ++ es) (sym ue);
  truncates = ut;
  snapshots = us;
  base = s;
  chain = subst (Chain n.snapshot.index (length n.log)) (sym ue) tt;
  terms = subst (OfTerm m.term) (sym ue) tt;
}

pub start_election-Emits :
    (codec : Codec) (n : Node) → Emits n (start_election codec n).0 (start_election codec n).1
unfolding start_election
start_election-Emits codec n =
    let own = λ (m : Node) (s : m.snapshot ≡ n.snapshot) (l : m.log ≡ n.log).
      campaign-Emits n m
        (record no_update { hard_state = some (hard_state m); role_changed = true }) refl s l refl
        refl refl in
    let timed = reset_election_timer-SameNode (campaigning n) in
    Emits-if n _ _ _
      (Emits-merge n _ _ _ _ (own _ timed.same_snapshot timed.same_log)
        (become_leader-Emits codec _) tt)
      (Emits-send n _ _ _ (own _ timed.same_snapshot timed.same_log))

pub start_pre_vote-Emits :
    (codec : Codec) (n : Node) → Emits n (start_pre_vote codec n).0 (start_pre_vote codec n).1
unfolding start_pre_vote
start_pre_vote-Emits codec n =
    let timed = reset_election_timer-SameNode (pre_campaigning n) in
    Emits-if n _ _ _
      (Emits-before n _ _ _ (hard_state-SameNode _ _ timed) timed.same_snapshot timed.same_log
        (start_election-Emits codec _))
      (Emits-still n _ _ (hard_state-SameNode _ _ timed) timed.same_snapshot timed.same_log refl
        refl refl refl)
