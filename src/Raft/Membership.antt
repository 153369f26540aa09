-- ===== src/Raft/Membership.antt =====
-- internal/raft/membership.go, with `applyMembership` and `equalVoters` of node.go: voter sets,
-- quorums, and the configuration entries of the log. The JSON text of an entry is `encoding/json`'s:
-- it is the parameter `Codec`.
pub mod Quorum
pub mod Voters
pub mod Members
pub mod Entries
use lsmdb.Base.{
  ℕ, ◌+◌, ◌/◌, List, [], ◌∷◌, ◌++◌, Option, none, some, Bool, true, false, ◌&&◌, ◌||◌, not, ◌==◌,
  ltb, leb, if◌then◌else◌, is_empty, length, get_or, drop, sort_slice, sort_search, Result, ok, err,
  ◌>>=◌,
}
use lsmdb.Raft.Types.{
  Membership, RaftError, empty_voters, zero_voter, unsorted_voters, unsorted_joint_voters,
  duplicate_voter, decode_failed, invalid_phase, unknown_phase, joint_mismatch, final_mismatch,
  contains,
}

-- "joint"
abbrev pub config_joint : List ℕ
config_joint = 106 ∷ 111 ∷ 105 ∷ 110 ∷ 116 ∷ []

-- "final"
abbrev pub config_final : List ℕ
config_final = 102 ∷ 105 ∷ 110 ∷ 97 ∷ 108 ∷ []

-- Two strings are compared byte by byte.
unfoldable pub same_text : List ℕ → List ℕ → Bool
same_text [] [] = true
same_text [] (b ∷ bs) = false
same_text (a ∷ as') [] = false
same_text (a ∷ as') (b ∷ bs) = a == b && same_text as' bs

pub record MembershipCommand : Type 0 where
  pub phase : List ℕ
  pub old : List ℕ
  pub new : List ℕ

-- json.Marshal and json.Unmarshal of a `membershipCommand`.
pub record Codec : Type 0 where
  pub marshal : MembershipCommand → List ℕ
  pub unmarshal : List ℕ → Option MembershipCommand

-- "\0lsmdb-member-\1"
abbrev pub membership_prefix : List ℕ
membership_prefix =
    0 ∷ 108 ∷ 115 ∷ 109 ∷ 100 ∷ 98 ∷ 45 ∷ 109 ∷ 101 ∷ 109 ∷ 98 ∷ 101 ∷ 114 ∷ 45 ∷ 1 ∷ []

has_prefix : List ℕ → List ℕ → Bool
has_prefix [] bytes = true
has_prefix (p ∷ ps) [] = false
has_prefix (p ∷ ps) (b ∷ bs) = p == b && has_prefix ps bs

unfoldable pub has_membership_prefix : List ℕ → Bool
unfolding has_prefix
has_membership_prefix bytes = has_prefix membership_prefix bytes

-- The loop of `normalizeVoters` over the sorted copy; `previous` is the element before.
unfoldable pub check_voters : Option ℕ → List ℕ → Option RaftError
check_voters previous [] = none
check_voters previous (id ∷ rest) =
    let next = check_voters (some id) rest in
    if id == 0
    then some zero_voter
    else if elim previous [ none ↦ false | some p ↦ p == id ]
    then some (duplicate_voter id)
    else next

unfoldable pub normalize_voters : List ℕ → Result RaftError (List ℕ)
unfolding check_voters
normalize_voters [] = err empty_voters
normalize_voters (v ∷ vs) =
    let result = sort_slice ltb (v ∷ vs) in
    elim (check_voters none result) [ none ↦ ok result | some e ↦ err e ]

unfoldable pub equal_voters : List ℕ → List ℕ → Bool
equal_voters [] [] = true
equal_voters [] (b ∷ bs) = false
equal_voters (a ∷ as') [] = false
equal_voters (a ∷ as') (b ∷ bs) = a == b && equal_voters as' bs

unfoldable pub validate_membership : Membership → Option RaftError
validate_membership m = elim (normalize_voters m.voters) [
  | err e ↦ some e
  | ok voters ↦
      if not (equal_voters voters m.voters)
      then some unsorted_voters
      else if is_empty m.joint_voters
      then none
      else elim (normalize_voters m.joint_voters) [
        | err e ↦ some e
        | ok joint ↦ if equal_voters joint m.joint_voters then none else some unsorted_joint_voters
      ]
]

unfoldable pub encode_membership : Codec → MembershipCommand → List ℕ
encode_membership codec command = membership_prefix ++ codec.marshal command

-- The two voter lists of a decoded command, normalised.
normalize_command : MembershipCommand → Result RaftError MembershipCommand
normalize_command command =
    let is_joint = same_text command.phase config_joint in
    if not is_joint && not (same_text command.phase config_final) then err invalid_phase else (do
      new ← normalize_voters command.new
      (if is_joint
          then (do old ← normalize_voters command.old; ok (record command { old = old; new = new }))
          else ok (record command { new = new })))

-- `ok none` for data that is no configuration entry.
unfoldable pub decode_membership : Codec → List ℕ → Result RaftError (Option MembershipCommand)
unfolding normalize_command
decode_membership codec bytes =
    if has_membership_prefix bytes
    then elim (codec.unmarshal (drop (length membership_prefix) bytes)) [
      | none ↦ err decode_failed
      | some command ↦ (do normal ← normalize_command command; ok (some normal))
    ]
    else ok none

-- On an error the source also reports `true`; here the error stands alone.
unfoldable pub is_membership_entry : Codec → List ℕ → Result RaftError Bool
is_membership_entry codec bytes = elim (decode_membership codec bytes) [
  | err e ↦ err e
  | ok none ↦ ok false
  | ok (some c) ↦ ok true
]

unfoldable pub contains_voter : List ℕ → ℕ → Bool
contains_voter voters id =
    let i = sort_search (length voters) (λ k. leb id (get_or voters k 0)) in
    ltb i (length voters) && get_or voters i 0 == id

abbrev pub majority : List ℕ → ℕ
majority voters = length voters / 2 + 1

-- The keys of the map `set`, which the sort puts in order.
add_voters : List ℕ → List ℕ → List ℕ
add_voters [] set = set
add_voters (id ∷ rest) set = add_voters rest (if contains set id then set else id ∷ set)

unfoldable pub union_voters : Membership → List ℕ
unfolding add_voters
union_voters m = sort_slice ltb (add_voters m.joint_voters (add_voters m.voters []))

unfoldable pub count_acknowledged : List ℕ → (ℕ → Bool) → ℕ
count_acknowledged [] acknowledged = 0
count_acknowledged (id ∷ rest) acknowledged =
    (if acknowledged id then 1 else 0) + count_acknowledged rest acknowledged

unfoldable pub has_set_quorum : List ℕ → (ℕ → Bool) → Bool
has_set_quorum voters acknowledged = leb (majority voters) (count_acknowledged voters acknowledged)

unfoldable pub has_quorum : Membership → (ℕ → Bool) → Bool
has_quorum m acknowledged =
    if not (has_set_quorum m.voters acknowledged)
    then false
    else is_empty m.joint_voters || has_set_quorum m.joint_voters acknowledged

unfoldable pub vote_lost : Membership → (ℕ → Bool) → Bool
vote_lost m rejected =
    if has_set_quorum m.voters rejected
    then true
    else not (is_empty m.joint_voters) && has_set_quorum m.joint_voters rejected

unfoldable pub apply_membership : Membership → MembershipCommand → ℕ → Result RaftError Membership
apply_membership current command index =
    if same_text command.phase config_joint
    then if not (is_empty current.joint_voters) || not (equal_voters current.voters command.old)
      then err joint_mismatch
      else ok (record { voters = command.old; joint_voters = command.new; index = index })
    else if same_text command.phase config_final
    then if is_empty current.joint_voters || not (equal_voters current.joint_voters command.new)
      then err final_mismatch
      else ok (record { voters = command.new; joint_voters = []; index = index })
    else err unknown_phase
