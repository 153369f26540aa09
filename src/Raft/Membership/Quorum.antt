-- ===== src/Raft/Membership/Quorum.antt =====
-- internal/raft/membership.go: quorums of one configuration, and of two that follow one another.
use mathlib.Core.List.{mem-cons_self, mem-cons_of_mem}
use lsmdb.Base.{
  ℕ, ◌+◌, ◌<◌, ◌≡◌, refl, subst, ◌⊎◌, inl, inr, List, [], ◌∷◌, Bool, true, false, Mem, arith,
  is_empty, length, Bool-cases, ok,
}
use lsmdb.Raft.Types.{Membership}
use lsmdb.Raft.Membership.{
  MembershipCommand, config_joint, config_final, same_text, count_acknowledged, has_set_quorum,
  has_quorum, vote_lost, equal_voters, apply_membership,
}

-- A voter of the list that both functions name.
abbrev pub Shared : List ℕ → (ℕ → Bool) → (ℕ → Bool) → Type 0
Shared voters f g = (id : ℕ) × Mem id voters × (f id ≡ true) × (g id ≡ true)

Shared-cons : (v : ℕ) (vs : List ℕ) (f g : ℕ → Bool) → Shared vs f g → Shared (v ∷ vs) f g
Shared-cons v vs f g (id, m, p, q) = (id, mem-cons_of_mem _ m, p, q)

Shared-of_count :
    (voters : List ℕ) (f g : ℕ → Bool)
    → length voters < count_acknowledged voters f + count_acknowledged voters g
    → Shared voters f g
unfolding count_acknowledged
Shared-of_count [] f g h = absurd (omega arith)
Shared-of_count (v ∷ vs) f g h = elim (Bool-cases (f v)) [
  | inl p ↦ elim (Bool-cases (g v)) [
    | inl q ↦ (v, mem-cons_self, p, q)
    | inr q ↦ Shared-cons v vs f g (Shared-of_count vs f g (ground arith))
  ]
  | inr p ↦ Shared-cons v vs f g (Shared-of_count vs f g (ground arith))
]

pub set_quorum-Shared :
    (voters : List ℕ) (f g : ℕ → Bool)
    → has_set_quorum voters f ≡ true
    → has_set_quorum voters g ≡ true
    → Shared voters f g
unfolding has_set_quorum
set_quorum-Shared voters f g p q = Shared-of_count voters f g (ground arith)

pub equal_voters-eq : (as' bs : List ℕ) → equal_voters as' bs ≡ true → as' ≡ bs
unfolding equal_voters
equal_voters-eq [] [] h = refl
equal_voters-eq [] (b ∷ bs) h = cc
equal_voters-eq (a ∷ as') [] h = cc
equal_voters-eq (a ∷ as') (b ∷ bs) h = ground (arith, equal_voters-eq as' bs)

-- What a quorum of a configuration is a quorum of.
pub has_quorum_voters :
    (m : Membership) (f : ℕ → Bool) → has_quorum m f ≡ true → has_set_quorum m.voters f ≡ true
unfolding has_quorum
has_quorum_voters m f h = ground arith

pub has_quorum_joint :
    (m : Membership) (f : ℕ → Bool)
    → has_quorum m f ≡ true
    → is_empty m.joint_voters ≡ false
    → has_set_quorum m.joint_voters f ≡ true
unfolding has_quorum
has_quorum_joint m f h e = ground arith

-- Two quorums of one configuration share a voter; of a joint one, a voter of the old set and a
-- voter of the new set.
pub quorum_intersection :
    (m : Membership) (f g : ℕ → Bool)
    → has_quorum m f ≡ true
    → has_quorum m g ≡ true
    → Shared m.voters f g × (is_empty m.joint_voters ≡ false → Shared m.joint_voters f g)
quorum_intersection m f g p q = (
  set_quorum-Shared m.voters f g (has_quorum_voters m f p) (has_quorum_voters m g q),
  λ e. set_quorum-Shared m.joint_voters f g (has_quorum_joint m f p e) (has_quorum_joint m g q e),
)

pub same_text-eq : (a b : List ℕ) → same_text a b ≡ true → a ≡ b
unfolding same_text
same_text-eq [] [] h = refl
same_text-eq [] (b ∷ bs) h = cc
same_text-eq (a ∷ as') [] h = cc
same_text-eq (a ∷ as') (b ∷ bs) h = ground (arith, same_text-eq as' bs)

apply_joint :
    (m m' : Membership) (command : MembershipCommand) (index : ℕ)
    → same_text command.phase config_joint ≡ true
    → apply_membership m command index ≡ ok m'
    → m'.voters ≡ m.voters
unfolding apply_membership
apply_joint m m' command index p h = ground (arith, equal_voters-eq m.voters command.old)

apply_final :
    (m m' : Membership) (command : MembershipCommand) (index : ℕ)
    → same_text command.phase config_joint ≡ false
    → apply_membership m command index ≡ ok m'
    → (same_text command.phase config_final ≡ true)
      × (m'.voters ≡ m.joint_voters)
      × (is_empty m.joint_voters ≡ false)
unfolding apply_membership
apply_final m m' command index p h = ground (arith, equal_voters-eq m.joint_voters command.new)

vote_lost_quorum :
    (m : Membership) (g : ℕ → Bool)
    → vote_lost m g ≡ true
    → (has_set_quorum m.voters g ≡ true)
      ⊎ ((is_empty m.joint_voters ≡ false) × (has_set_quorum m.joint_voters g ≡ true))
unfolding vote_lost
vote_lost_quorum m g h = ground arith

-- Across one configuration entry every quorum before shares a voter with every quorum after: of the
-- old set where the entry is joint, and of the new set where it is final.
pub change_intersection :
    (m m' : Membership) (command : MembershipCommand) (index : ℕ) (f g : ℕ → Bool)
    → apply_membership m command index ≡ ok m'
    → has_quorum m f ≡ true
    → has_quorum m' g ≡ true
    → ((command.phase ≡ config_joint) × Shared m.voters f g)
      ⊎ ((command.phase ≡ config_final) × Shared m.joint_voters f g)
change_intersection m m' command index f g applied p q =
    elim (Bool-cases (same_text command.phase config_joint)) [
      | inl e ↦ inl (
        same_text-eq command.phase config_joint e,
        set_quorum-Shared m.voters f g (has_quorum_voters m f p) (
            subst (λ vs. has_set_quorum vs g ≡ true) (apply_joint m m' command index e applied)
              (has_quorum_voters m' g q)),
      )
      | inr e ↦
          let (final, same, joint) = apply_final m m' command index e applied in
          inr (
            same_text-eq command.phase config_final final,
            set_quorum-Shared m.joint_voters f g (has_quorum_joint m f p joint)
                (subst (λ vs. has_set_quorum vs g ≡ true) same (has_quorum_voters m' g q)),
          )
    ]

-- A campaign is not both won and lost: where no voter both grants and refuses, a quorum of grants
-- leaves no quorum of refusals in either voter set.
pub won_not_lost :
    (m : Membership) (f g : ℕ → Bool)
    → ((id : ℕ) → f id ≡ true → g id ≡ false)
    → has_quorum m f ≡ true
    → vote_lost m g ≡ false
won_not_lost m f g apart won = elim (Bool-cases (vote_lost m g)) [
  | inr e ↦ e
  | inl e ↦ elim (vote_lost_quorum m g e) [
    | inl q ↦ absurd (clash m.voters (set_quorum-Shared m.voters f g (has_quorum_voters m f won) q))
    | inr (joint, q) ↦ absurd (
        clash m.joint_voters
          (set_quorum-Shared m.joint_voters f g (has_quorum_joint m f won joint) q))
  ]
]
  where
    clash : (voters : List ℕ) → Shared voters f g → ⊥
    clash voters (id, _, p, q) = cc (apart id p)
