-- ===== src/Examples/Entries.antt =====
-- A run of the configuration entries of internal/raft.
use lsmdb.Base.{ℕ, List, [], ◌∷◌, ◌++◌, Option, none, some, length, take, drop}
use lsmdb.Raft.Membership.{Codec, MembershipCommand}
use lsmdb.Raft.Types.{Entry}
use lsmdb.Raft.Membership.Entries.{joint_command, final_command}
use lsmdb.Raft.Changes.{command_entry}

abbrev write_command : MembershipCommand → List ℕ
write_command c = length c.phase ∷ length c.old ∷ (c.phase ++ (c.old ++ c.new))

abbrev read_command : List ℕ → Option MembershipCommand
read_command (p ∷ n ∷ rest) =
    some (record { phase = take p rest; old = take n (drop p rest); new = drop n (drop p rest) })
read_command _ = none

abbrev full_codec : Codec
full_codec = record { marshal = write_command; unmarshal = read_command }

abbrev join : ℕ → Entry
join index = command_entry full_codec (joint_command (1 ∷ 2 ∷ 3 ∷ []) (3 ∷ 4 ∷ 5 ∷ [])) index 2

abbrev leave : ℕ → Entry
leave index = command_entry full_codec (final_command (3 ∷ 4 ∷ 5 ∷ [])) index 2
