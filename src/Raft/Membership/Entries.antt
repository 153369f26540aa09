-- ===== src/Raft/Membership/Entries.antt =====
-- internal/raft/membership.go: configuration entries as they are written and read.
use lsmdb.Base.{
  ℕ, ◌≤◌, ◌≡◌, ◌≢◌, ◌⊎◌, inl, inr, refl, sym, ap, subst, ◌∙◌, List, [], ◌∷◌, ◌++◌, none, some, true,
  arith, ltb, All, ok, sort_slice, insert_sorted,
}
use lsmdb.Raft.Membership.{
  Codec, MembershipCommand, config_joint, config_final, membership_prefix, has_prefix,
  has_membership_prefix, normalize_voters, normalize_command, encode_membership, decode_membership,
  check_voters, same_text, equal_voters,
}
use lsmdb.Raft.Membership.Voters.{IsSorted, sort_slice-IsSorted, normalize_voters-check}

insert_sorted_first : (a : ℕ) (xs : List ℕ) → All (λ y. a ≤ y) xs → insert_sorted ltb a xs ≡ a ∷ xs
unfolding insert_sorted
insert_sorted_first a [] h = refl
insert_sorted_first a (x ∷ xs) h = ground (arith, h.0)

sort_slice-sorted : (xs : List ℕ) → IsSorted xs → sort_slice ltb xs ≡ xs
unfolding sort_slice
sort_slice-sorted [] h = refl
sort_slice-sorted (x ∷ xs) h =
    ap (insert_sorted ltb x) (sort_slice-sorted xs h.1) ∙ insert_sorted_first x xs h.0

insert_sorted_filled : (a : ℕ) (xs : List ℕ) → insert_sorted ltb a xs ≢ []
unfolding insert_sorted
insert_sorted_filled a [] e = absurd (ground (arith, e))
insert_sorted_filled a (x ∷ xs) e = absurd (ground (arith, e))

normalize_sorted :
    (result : List ℕ)
    → check_voters none result ≡ none
    → IsSorted result
    → result ≢ []
    → normalize_voters result ≡ ok result
unfolding normalize_voters
normalize_sorted [] checked sorted filled = absurd (filled refl)
normalize_sorted (v ∷ vs) checked sorted filled =
    ground (arith, sort_slice-sorted (v ∷ vs) sorted, checked)

normalize_voters_filled :
    (voters result : List ℕ) → normalize_voters voters ≡ ok result → result ≢ []
unfolding sort_slice normalize_voters
normalize_voters_filled [] result h e = cc
normalize_voters_filled (v ∷ vs) result h e =
    insert_sorted_filled v (sort_slice ltb vs)
      (sym (normalize_voters-check (v ∷ vs) result h).1 ∙ e)

-- A voter set in normal form stays as it is.
pub normalize_voters_again :
    (voters result : List ℕ)
    → normalize_voters voters ≡ ok result
    → normalize_voters result ≡ ok result
normalize_voters_again voters result h =
    let (checked, same) = normalize_voters-check voters result h in
    normalize_sorted result checked (subst IsSorted (sym same) (sort_slice-IsSorted voters))
      (normalize_voters_filled voters result h)

pub equal_voters_refl : (a : List ℕ) → equal_voters a a ≡ true
unfolding equal_voters
equal_voters_refl [] = refl
equal_voters_refl (a ∷ as') = ground (arith, equal_voters_refl as')

-- The two commands of a change, as `ProposeMembership` and the leader's `maybeFinish` write them.
abbrev pub joint_command : List ℕ → List ℕ → MembershipCommand
joint_command old new = record { phase = config_joint; old = old; new = new }

abbrev pub final_command : List ℕ → MembershipCommand
final_command new = record { phase = config_final; old = []; new = new }

abbrev pub IsChange : List ℕ → List ℕ → MembershipCommand → Type 0
IsChange old new command = (command ≡ joint_command old new) ⊎ (command ≡ final_command new)

has_membership_prefix_lem :
    (bytes : List ℕ) → has_membership_prefix (membership_prefix ++ bytes) ≡ true
unfolding has_membership_prefix has_prefix
has_membership_prefix_lem bytes = refl

module _ (codec : Codec) (old new : List ℕ)
    (law : (command : MembershipCommand)
      → IsChange old new command
      → codec.unmarshal (codec.marshal command) ≡ some command)
    (normal_old : normalize_voters old ≡ ok old) (normal_new : normalize_voters new ≡ ok new) where
  pub decode_joint :
      decode_membership codec (encode_membership codec (joint_command old new))
      ≡ ok (some (joint_command old new))
  unfolding decode_membership encode_membership normalize_command has_membership_prefix has_prefix
      same_text
  decode_joint =
      let joint = joint_command old new in
      rw (law joint (inl refl)) (rw normal_new (rw normal_old refl))

  pub decode_final :
      decode_membership codec (encode_membership codec (final_command new))
      ≡ ok (some (final_command new))
  unfolding decode_membership encode_membership normalize_command has_membership_prefix has_prefix
      same_text
  decode_final = rw (law (final_command new) (inr refl)) (rw normal_new refl)
