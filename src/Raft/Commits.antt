-- ===== src/Raft/Commits.antt =====
-- internal/raft/node.go: what `maybeCommit` commits.
use lsmdb.Base.{
  ℕ, zero, suc, ◌+◌, ◌-◌, ◌≤◌, ◌<◌, ◌≡◌, refl, sym, ap, subst, ◌∙◌, ◌⊎◌, ◌↔◌, inl, inr, true, ◌&&◌,
  not, arith, Bool-cases, if_both, if_split, is_empty, leb, Result, ok, err,
}
use lsmdb.Raft.Types.{Entry, Update, RaftError, origin_commit_advance}
use lsmdb.Raft.Membership.{Codec, has_quorum}
use lsmdb.Raft.Node.{
  Node, last_index, term_at, rebuild_membership, become_follower, reset_election_timer, is_voter,
}
use lsmdb.Raft.Frame.{broadcast_append-SameNode}
use lsmdb.Raft.Emits.Log.{rebuild_membership-eq}
use lsmdb.Raft.Replicate.{
  is_committable, commit_candidate, install_final, finish_joint, after_commit, maybe_commit,
  broadcast_append,
}

-- The entry at the index is of the node's term, and a quorum has stored it.
abbrev pub IsCommittable : Node → ℕ → Type 0
IsCommittable n index =
    (term_at n index ≡ n.term)
    × (has_quorum n.membership (λ id. leb index (n.match_index id)) ≡ true)

is_committable_iff : (n : Node) (k : ℕ) → (is_committable n k ≡ true) ↔ IsCommittable n k
unfolding is_committable
is_committable_iff n k = ground arith

-- `index` is the commit index or a committable one above it, and nothing from it to `last` is
-- committable.
pub record IsHighest (n : Node) (last index : ℕ) : Type 0 where
  pub at_least : n.commit ≤ index
  pub at_most : index ≤ last
  pub allowed : (index ≡ n.commit) ⊎ IsCommittable n index
  pub none_above : (k : ℕ) → index < k → k ≤ last → ¬ IsCommittable n k

commit_candidate-IsHighest :
    (rounds : ℕ) (n : Node) (candidate : ℕ)
    → candidate ≡ n.commit + rounds
    → IsHighest n candidate (commit_candidate rounds n candidate)
unfolding commit_candidate
commit_candidate-IsHighest zero n candidate e = record {
  at_least = omega (arith, e);
  at_most = omega arith;
  allowed = inl (omega (arith, e));
  none_above = λ k p q. absurd (omega (arith, p, q));
}
commit_candidate-IsHighest (suc rounds) n candidate e =
    let lower = commit_candidate-IsHighest rounds n (candidate - 1) (omega (arith, e)) in
    if_split (IsHighest n candidate) (is_committable n candidate) _ _
      (λ yes_here. record {
        at_least = omega (arith, e);
        at_most = omega arith;
        allowed = inr ((is_committable_iff n candidate).0 yes_here);
        none_above = λ k p q. absurd (omega (arith, p, q));
      })
      (λ not_here. record {
        at_least = lower.at_least;
        at_most = omega (arith, lower.at_most);
        allowed = lower.allowed;
        none_above = λ k p q. elim (Bool-cases (leb candidate k)) [
          | inl top ↦
              let same : k ≡ candidate = ground (arith, top, q) in
              λ c. absurd (
                ground (
                  arith,
                  not_here,
                  (is_committable_iff n candidate).1 (subst (IsCommittable n) same c),
                ))
          | inr below ↦ lower.none_above k p (ground (arith, below))
        ];
      })

install_final-commit :
    (codec : Codec) (n m : Node) (final : Entry) (r : Result RaftError Node)
    → rebuild_membership codec n ≡ r
    → m.commit ≡ n.commit
    → (install_final m final r).0.commit ≡ n.commit
unfolding install_final
install_final-commit codec n m final (err e) h c = c
install_final-commit codec n m final (ok x) h c =
    let (k, e) = rebuild_membership-eq codec n x h in ap (λ (z : Node). z.commit) e

finish_joint-commit : (codec : Codec) (n : Node) → (finish_joint codec n).0.commit ≡ n.commit
unfolding finish_joint
finish_joint-commit codec n =
    if_both (λ (r : Node × Update). r.0.commit ≡ n.commit)
      (not (is_empty n.membership.joint_voters) && leb n.membership.index n.commit) _ _
      (install_final-commit codec _ n _ _ refl refl) refl

after_commit-commit : (codec : Codec) (n : Node) → (after_commit codec n).0.commit ≡ n.commit
unfolding after_commit become_follower reset_election_timer
after_commit-commit codec n =
    let m = (finish_joint codec n).0 in
    let m' = (broadcast_append codec m origin_commit_advance).0 in
    let sent : m'.commit ≡ n.commit =
      (broadcast_append-SameNode codec m origin_commit_advance).same_commit
      ∙ finish_joint-commit codec n in
    if_both (λ (r : Node × Update). r.0.commit ≡ n.commit)
      (leb m'.membership.index m'.commit && not (is_voter m' m'.cfg.id)) _ _ sent sent

-- The commit index becomes the highest index of the log whose entry is of this term and stored on
-- a quorum, and stays where there is none above it: where it was within the log.
pub maybe_commit-IsHighest :
    (codec : Codec) (n : Node)
    → n.commit ≤ last_index n
    → IsHighest n (last_index n) (maybe_commit codec n).0.commit
unfolding maybe_commit
maybe_commit-IsHighest codec n within =
    let last = last_index n in
    let found = commit_candidate (last - n.commit) n last in
    let advanced : Node = record n { commit = found } in
    let highest = commit_candidate-IsHighest (last - n.commit) n last (omega (arith, within)) in
    if_split (λ (r : Node × Update). IsHighest n last r.0.commit) (leb found n.commit) _ _
      (λ low.
        let same : found ≡ n.commit = ground (arith, low, highest.at_least) in
        subst (IsHighest n last) same highest)
      (λ high. subst (IsHighest n last) (sym (after_commit-commit codec advanced)) highest)
