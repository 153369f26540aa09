-- ===== src/Raft/Changes.antt =====
-- internal/raft/membership.go and node.go: the two configuration entries of a change of the voters.
use lsmdb.Base.{ℕ, ◌≡◌, List, [], some, ok}
use lsmdb.Raft.Types.{Membership, Entry}
use lsmdb.Raft.Membership.{Codec, MembershipCommand, normalize_voters, encode_membership}
use lsmdb.Raft.Membership.Entries.{joint_command, final_command, IsChange}

abbrev pub stable : List ℕ → ℕ → Membership
stable voters index = record { voters = voters; joint_voters = []; index = index }

abbrev pub joint : List ℕ → List ℕ → ℕ → Membership
joint old new index = record { voters = old; joint_voters = new; index = index }

abbrev pub command_entry : Codec → MembershipCommand → ℕ → ℕ → Entry
command_entry codec command index term = record {
  index = index;
  term = term;
  bytes = encode_membership codec command;
}

module _ (codec : Codec) (old new : List ℕ)
    (law : (command : MembershipCommand)
      → IsChange old new command
      → codec.unmarshal (codec.marshal command) ≡ some command)
    (normal_old : normalize_voters old ≡ ok old) (normal_new : normalize_voters new ≡ ok new)
    (start first second term : ℕ) where
  abbrev opening_entry : Entry
  opening_entry = command_entry codec (joint_command old new) first term

  abbrev closing_entry : ℕ → Entry
  closing_entry index = command_entry codec (final_command new) index term
