-- ===== src/Machine.antt =====
-- internal/kvstate/state_machine.go: committed commands, applied to a database in replica mode. The
-- protobuf encoding of a command is a parameter. Keys and client IDs are bytes.
pub mod Retries
use lsmdb.Base.{
  ℕ, List, [], ◌∷◌, ◌++◌, Option, none, some, Bool, true, false, ◌&&◌, ◌||◌, ◌==◌, ◌!=◌, ltb, leb,
  if◌then◌else◌, is_empty, length, put_uint, get_uint, Result, ok, err,
}
use lsmdb.Sstable.{Hashing}
use lsmdb.Db.Files.{DbError}
use lsmdb.Db.Engine
use lsmdb.Db.Engine.{Db}
use lsmdb.Db.Calls.{Mutation, apply_batch}

-- OPERATION_PUT is 1, and OPERATION_DELETE 2.
pub record Command : Type 0 where
  pub operation : ℕ
  pub key : List ℕ
  pub value : List ℕ
  pub client_id : List ℕ
  pub request_seq : ℕ

pub data MachineError : Type 0 where
  not_applied : DbError → MachineError
  undecodable : MachineError
  unsupported_operation : ℕ → MachineError
  invalid_identity : MachineError
  bad_key_length : ℕ → MachineError
  large_value : MachineError

abbrev pub user_prefix : List ℕ
user_prefix = 1 ∷ []

-- "\x00session/"
abbrev pub session_prefix : List ℕ
session_prefix = 0 ∷ 115 ∷ 101 ∷ 115 ∷ 115 ∷ 105 ∷ 111 ∷ 110 ∷ 47 ∷ []

abbrev pub max_key_bytes : ℕ
max_key_bytes = 16384

abbrev pub max_value_bytes : ℕ
max_value_bytes = 4194304

unfoldable pub encode_command : (Command → List ℕ) → Command → Result MachineError (List ℕ)
encode_command marshal c =
    if c.operation != 1 && c.operation != 2
    then err (unsupported_operation c.operation)
    else if is_empty c.key || ltb max_key_bytes (length c.key)
    then err (bad_key_length (length c.key))
    else if ltb max_value_bytes (length c.value)
    then err large_value
    else if is_empty c.client_id || c.request_seq == 0
    then err invalid_identity
    else ok (marshal c)

abbrev applied_with : Db × Option DbError → Db × Option MachineError
applied_with (db, none) = (db, none)
applied_with (db, some e) = (db, some (not_applied e))

abbrev pub session_key : Command → List ℕ
session_key c = session_prefix ++ c.client_id

-- The session has the number of this request already, or a later one.
abbrev pub is_covered : ℕ → Option (List ℕ) → Bool
is_covered request_seq none = false
is_covered request_seq (some raw) = length raw == 8 && leb request_seq (get_uint raw)

unfoldable pub is_retry : (List ℕ → ℕ) → Db → Command → Bool
is_retry fnv db c = is_covered c.request_seq (Engine.get fnv db (session_key c))

-- The change of the key, and of the session.
abbrev pub mutations : Command → List Mutation
mutations c =
    record {
      type = if c.operation == 2 then 1 else 0;
      key = user_prefix ++ c.key;
      value = if c.operation == 2 then [] else c.value;
    }
    ∷ record { type = 0; key = session_key c; value = put_uint 8 c.request_seq }
    ∷ []

-- Apply, with the command.
unfoldable pub apply_command : Hashing → Db → ℕ → Command → Db × Option MachineError
unfolding is_retry
apply_command hash db index c =
    if c.operation != 1 && c.operation != 2
    then (db, some (unsupported_operation c.operation))
    else if is_empty c.client_id || c.request_seq == 0
    then (db, some invalid_identity)
    else if is_retry hash.fnv db c
    then applied_with (apply_batch hash db index [])
    else applied_with (apply_batch hash db index (mutations c))

unfoldable pub apply :
    (List ℕ → Option Command) → Hashing → Db → ℕ → List ℕ → Db × Option MachineError
unfolding apply_command
apply unmarshal hash db index bytes =
    if is_empty bytes then applied_with (apply_batch hash db index []) else elim (unmarshal bytes) [
      | none ↦ (db, some undecodable)
      | some c ↦ apply_command hash db index c
    ]

unfoldable pub get : (List ℕ → ℕ) → Db → List ℕ → Result MachineError (Option (List ℕ))
get fnv db key =
    if is_empty key || ltb max_key_bytes (length key)
    then err (bad_key_length (length key))
    else ok (Engine.get fnv db (user_prefix ++ key))
