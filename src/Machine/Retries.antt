-- ===== src/Machine/Retries.antt =====
-- internal/kvstate/state_machine.go: a request takes effect once.
use lsmdb.Base.{
  ℕ, ◌+◌, ◌<◌, ◌^◌, ◌≡◌, refl, ap, ◌∙◌, List, [], ◌∷◌, ◌++◌, Option, none, some, Bool, true, false,
  ◌&&◌, ◌||◌, ◌==◌, ◌!=◌, arith, if_no, if_yes, if_both, if◌then◌else◌, is_empty, length, put_uint,
  length-put_uint, get_uint-put_uint, u64_mod, All,
}
use lsmdb.Memtable.{Record, same_key}
use lsmdb.Memtable.Keys.{same_key_refl}
use lsmdb.Sstable.{Hashing}
use lsmdb.Sstable.Sections.{IsShort}
use lsmdb.Db.Files.{DbError}
use lsmdb.Db.Engine.{Db, get}
use lsmdb.Db.Calls.{apply_batch, check_mutations}
use lsmdb.Db.Flushed.{FlushFits}
use lsmdb.Db.Batches.{IsApplied, IsShortMutation, batched, mutated, get-apply_batch}
use lsmdb.Machine.{
  Command, MachineError, user_prefix, session_key, is_covered, is_retry, mutations, applied_with,
  apply_command,
}

applied_with_db : (p : Db × Option DbError) → (applied_with p).0 ≡ p.0
applied_with_db (db, none) = refl
applied_with_db (db, some e) = refl

-- A command that EncodeCommand lets through, with lengths that fit 32 bits.
pub record IsCommand (c : Command) : Type 0 where
  pub known : (c.operation != 1 && c.operation != 2) ≡ false
  pub identified : (is_empty c.client_id || c.request_seq == 0) ≡ false
  pub seq_fits : c.request_seq < 2 ^ 64
  pub short_key : length c.key + 1 < 2 ^ 32
  pub short_value : length c.value < 2 ^ 32
  pub short_client : length c.client_id + 9 < 2 ^ 32

pub mutations_good : (c : Command) → check_mutations (mutations c) ≡ none
unfolding check_mutations
mutations_good c =
    let delete = c.operation == 2 in
    if_both
      (λ t.
        check_mutations (
          record { type = t; key = user_prefix ++ c.key; value = if delete then [] else c.value }
          ∷ record { type = 0; key = session_key c; value = put_uint 8 c.request_seq }
          ∷ [])
        ≡ none)
      delete 1 0 refl refl

pub nothing_good : check_mutations [] ≡ none
unfolding check_mutations
nothing_good = refl

pub mutations_short : (c : Command) → IsCommand c → All IsShortMutation (mutations c)
mutations_short c h = (
  (
    omega (arith, h.short_key),
    if_both IsShort (c.operation == 2) [] c.value (omega arith) h.short_value,
  ),
  ((omega (arith, h.short_client), omega (arith, length-put_uint 8 c.request_seq)), tt),
)

user_lem :
    (same delete : Bool) (key value : List ℕ) (before : Option (List ℕ))
    → mutated
        (if same
          then some (record {
            type = if delete then 1 else 0;
            key = key;
            value = if delete then [] else value;
          })
          else none)
        before
      ≡ (if same then if delete then none else some value else before)
user_lem false delete key value before = refl
user_lem true false key value before = refl
user_lem true true key value before = refl

-- What a command makes of its key.
abbrev pub outcome : Command → Option (List ℕ)
outcome c = if c.operation == 2 then none else some c.value

module _ (hash : Hashing) (ls : List (List Record)) (db : Db) (a : IsApplied hash ls db)
    (room : db.applied_index + 1 < u64_mod) (c : Command) (h : IsCommand c) where
  abbrev after : Db
  after = (apply_command hash db (db.applied_index + 1) c).0

  apply_new :
      is_retry hash.fnv db c ≡ false
      → after ≡ (apply_batch hash db (db.applied_index + 1) (mutations c)).0
  unfolding apply_command
  apply_new fresh =
      ap (λ (p : Db × Option MachineError). p.0)
        (if_no (c.operation != 1 && c.operation != 2) _ _ h.known
          ∙ if_no (is_empty c.client_id || c.request_seq == 0) _ _ h.identified
          ∙ if_no (is_retry hash.fnv db c) _ _ fresh)
      ∙ applied_with_db _

  covered_lem : is_covered c.request_seq (some (put_uint 8 c.request_seq)) ≡ true
  covered_lem =
      let size = length-put_uint 8 c.request_seq in
      let seq = get_uint-put_uint 8 c.request_seq (omega (arith, h.seq_fits)) in
      ground (arith, size, seq)

  -- A new request gives its key its outcome and leaves all other keys of users, and the same
  -- request counts as a retry from then on: at the next index, on a sound database, for a command
  -- that passes the checks with lengths that fit in 32 bits, where the index has room and the tables
  -- that are written fit the format.
  pub apply_command_new :
      (key : List ℕ)
      → is_retry hash.fnv db c ≡ false
      → FlushFits hash ls
          (batched hash ls db a room (mutations c) (mutations_good c) (mutations_short c h))
      → (get hash.fnv (apply_command hash db (db.applied_index + 1) c).0 (user_prefix ++ key)
          ≡ (if same_key c.key key then outcome c else get hash.fnv db (user_prefix ++ key)))
        × (is_retry hash.fnv (apply_command hash db (db.applied_index + 1) c).0 c ≡ true)
  unfolding is_retry same_key
  apply_command_new key fresh fits =
      let reads = λ (k : List ℕ).
        ap (λ (x : Db). get hash.fnv x k) (apply_new fresh)
        ∙ get-apply_batch hash ls db a room (mutations c) (mutations_good c) (mutations_short c h) k
            fits in
      (
        reads (user_prefix ++ key)
            ∙ user_lem (same_key c.key key) (c.operation == 2) (user_prefix ++ c.key) c.value _,
        ap (is_covered c.request_seq) (reads (session_key c))
            ∙ ap (λ o. is_covered c.request_seq (mutated o (get hash.fnv db (session_key c))))
                (if_yes (same_key c.client_id c.client_id) _ _ (same_key_refl c.client_id))
            ∙ covered_lem,
      )

  -- A retry changes nothing that can be read, under the same conditions.
  pub apply_command_retry :
      (key : List ℕ)
      → is_retry hash.fnv db c ≡ true
      → FlushFits hash ls (batched hash ls db a room [] nothing_good tt)
      → get hash.fnv (apply_command hash db (db.applied_index + 1) c).0 key ≡ get hash.fnv db key
  unfolding apply_command
  apply_command_retry key again fits =
      ap (λ (p : Db × Option MachineError). get hash.fnv p.0 key)
        (if_no (c.operation != 1 && c.operation != 2) _ _ h.known
          ∙ if_no (is_empty c.client_id || c.request_seq == 0) _ _ h.identified
          ∙ if_yes (is_retry hash.fnv db c) _ _ again)
      ∙ ap (λ (x : Db). get hash.fnv x key) (applied_with_db _)
      ∙ get-apply_batch hash ls db a room [] nothing_good tt key fits
