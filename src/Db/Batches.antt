-- ===== src/Db/Batches.antt =====
-- db/db.go: ApplyBatch.
use lsmdb.Base.{
  ℕ, ◌+◌, ◌<◌, ◌≤◌, ◌≡◌, ◌≢◌, ◌↔◌, refl, sym, ap, subst, ◌∙◌, List, [], ◌∷◌, Option, none, some,
  Bool, true, false, ◌&&◌, not, ◌==◌, ◌!=◌, arith, if_no, if_yes, if_both, if_split, if◌then◌else◌,
  leb, add64, u64_mod, All, All-map, Bool-cases, inl, inr,
}
use lsmdb.Memtable.{MemTable, Record, put, delete, find, same_key, live_value, set_raw, is_newer}
use lsmdb.Memtable.Keys.{All-store_record}
use lsmdb.Memtable.Writes.{All-below}
use lsmdb.Memtable.Replays.{newer, find-set_raw}
use lsmdb.Sstable.{Hashing, type_byte}
use lsmdb.Sstable.Reader.{type_from}
use lsmdb.Sstable.Sections.{IsShort}
use lsmdb.Sstable.Records.{IsReadable}
use lsmdb.Compact.Newest.{find-All}
use lsmdb.Db.Files.{DbError}
use lsmdb.Db.Engine.{Db, get, is_replica, maybe_flush}
use lsmdb.Db.Calls.{Mutation, mutation_record, check_mutations, apply_mutations, apply_batch}
use lsmdb.Db.Lookups.{lookup, first_of}
use lsmdb.Db.Kept.{IsDb, IsDb-view, AllBelow, get-Keeps, get-lookup}
use lsmdb.Db.Flushed.{FlushFits, maybe_flush-Keeps}
use lsmdb.Db.Written.{store_record-IsDb}

-- The first mutation of the key.
abbrev pub first_mutation : List ℕ → List Mutation → Option Mutation
first_mutation key [] = none
first_mutation key (m ∷ ms) = if same_key m.key key then some m else first_mutation key ms

-- What a mutation makes of a key.
abbrev pub mutated : Option Mutation → Option (List ℕ) → Option (List ℕ)
mutated none before = before
mutated (some m) before = if m.type == 1 then none else some m.value

-- The lengths of a mutation fit the format.
abbrev pub IsShortMutation : Mutation → Type 0
IsShortMutation m = IsShort m.key × IsShort m.value

module _ (index : ℕ) where
  -- A record of the index stays.
  find-apply_done :
      (key : List ℕ) (ms : List Mutation) (mem : MemTable) (r : Record)
      → find key mem.entries ≡ some r
      → r.seq_num ≡ index
      → find key (apply_mutations index ms mem).entries ≡ some r
  unfolding apply_mutations
  find-apply_done key [] mem r here e = here
  find-apply_done key (m ∷ ms) mem r here e =
      find-apply_done key ms (set_raw mem (mutation_record index m)) r
        (find-set_raw mem (mutation_record index m) key
          ∙ ap (λ o. newer key o (mutation_record index m)) here
          ∙ if_no (same_key m.key key && is_newer (mutation_record index m) (some r)) _ _
              (ground (arith, e)))
        e

  -- What a table with older records only gives a key after the mutations.
  abbrev applied_record : Option Mutation → Option Record → Option Record
  applied_record none found = found
  applied_record (some m) found = some (mutation_record index m)

  abbrev IsOlder : Option Record → Type 0
  IsOlder o = (r : Record) → o ≡ some r → r.seq_num < index

  older_lem : (r : Record) (o : Option Record) → r.seq_num ≡ index → IsOlder o → is_newer r o ≡ true
  older_lem r none e old = refl
  older_lem r (some s) e old = ground (arith, old s refl, e)

  find-apply_mutations :
      (key : List ℕ) (ms : List Mutation) (mem : MemTable)
      → IsOlder (find key mem.entries)
      → find key (apply_mutations index ms mem).entries
        ≡ applied_record (first_mutation key ms) (find key mem.entries)
  unfolding apply_mutations
  find-apply_mutations key [] mem old = refl
  find-apply_mutations key (m ∷ ms) mem old =
      let r = mutation_record index m in
      let step = find-set_raw mem r key in
      elim (Bool-cases (same_key m.key key)) [
        | inl same ↦
            find-apply_done key ms (set_raw mem r) r
              (step
                ∙ if_yes (same_key m.key key && is_newer r (find key mem.entries)) _ _
                    (ground (arith, same, older_lem r (find key mem.entries) refl old)))
              refl
            ∙ sym (
                ap (λ o. applied_record o (find key mem.entries))
                  (if_yes (same_key m.key key) (some m) (first_mutation key ms) same))
        | inr apart ↦
            let kept : find key (set_raw mem r).entries ≡ find key mem.entries =
              step
              ∙ if_no (same_key m.key key && is_newer r (find key mem.entries)) _ _
                  (ground (arith, apart)) in
            find-apply_mutations key ms (set_raw mem r) (subst IsOlder (sym kept) old)
            ∙ ap (applied_record (first_mutation key ms)) kept
            ∙ sym (
                ap (λ o. applied_record o (find key mem.entries))
                  (if_no (same_key m.key key) (some m) (first_mutation key ms) apart))
      ]

  All-apply_mutations :
      (P : Record → Type 0) (ms : List Mutation) (mem : MemTable)
      → All (λ m. P (mutation_record index m)) ms
      → All P mem.entries
      → All P (apply_mutations index ms mem).entries
  unfolding apply_mutations set_raw
  All-apply_mutations P [] mem hs h = h
  All-apply_mutations P (m ∷ ms) mem hs h =
      let r = mutation_record index m in
      All-apply_mutations P ms (set_raw mem r) hs.1 (
        if_both (All P) (is_newer r (find r.key mem.entries)) _ _
          (All-store_record P r mem.entries hs.0 h) h)

  known_type : (b : Bool) → let t = if b then delete else put in type_from (type_byte t) ≡ t
  known_type true = refl
  known_type false = refl

  apply_mutations-IsDb :
      (hash : Hashing) (ls : List (List Record)) (ms : List Mutation) (db : Db)
      → IsDb hash ls db
      → All IsShortMutation ms
      → AllBelow index ls
      → index < u64_mod
      → IsDb hash ls (record db { mem = apply_mutations index ms db.mem })
  unfolding apply_mutations set_raw
  apply_mutations-IsDb hash ls [] db d short above fits = d
  apply_mutations-IsDb hash ls (m ∷ ms) db d short above fits =
      let r = mutation_record index m in
      let after : Db = record db { mem = set_raw db.mem r } in
      let readable : IsReadable r = record {
        short_key = short.0.0;
        short_value = short.0.1;
        seq_fits = fits;
        known = known_type (m.type == 1);
      } in
      let step : IsDb hash ls after = elim (Bool-cases (is_newer r (find m.key db.mem.entries))) [
        | inl newer ↦
            store_record-IsDb hash ls db d r after readable above
              (if_yes (is_newer r (find m.key db.mem.entries)) _ _ newer) refl
        | inr older ↦
            IsDb-view hash db ls after d (if_no (is_newer r (find m.key db.mem.entries)) _ _ older)
              refl
      ] in
      apply_mutations-IsDb hash ls ms after step short.1 above fits

  live_mutation :
      (o : Option Mutation) (found later : Option Record)
      → live_value (first_of (applied_record o found) later)
        ≡ mutated o (live_value (first_of found later))
  live_mutation none found later = refl
  live_mutation (some m) found later =
      if_split
        (λ t.
          live_value (some (record { key = m.key; value = m.value; seq_num = index; type = t }))
          ≡ (if m.type == 1 then none else some m.value))
        (m.type == 1) delete put (λ e. sym (if_yes (m.type == 1) none (some m.value) e))
        (λ e. sym (if_no (m.type == 1) none (some m.value) e))

-- A batch at another index than the next one.
out_of_turn :
    (hash : Hashing) (db : Db) (n index : ℕ) (ms : List Mutation)
    → is_replica db.opts ≡ true
    → db.applied_index ≡ n
    → n < u64_mod
    → index ≢ n + 1
    → ((apply_batch hash db index ms).0 ≡ db)
      × ((apply_batch hash db index ms).1 ≡ none ↔ ((0 < index) × (index ≤ n)))
unfolding apply_batch
out_of_turn hash db n index ms mode same room other =
    let P = λ (p : Db × Option DbError). (p.0 ≡ db) × (p.1 ≡ none ↔ ((0 < index) × (index ≤ n))) in
    if_split P (not (is_replica db.opts)) _ _ (λ h. absurd (ground (arith, h, mode)))
      (λ _.
        if_split P (index == 0) _ _
          (λ h. (refl, ((λ e. cc), (λ r. absurd (ground (arith, h, r.0))))))
          (λ positive.
            if_split P (leb index db.applied_index) _ _
              (λ h. (refl, ((λ _. (ground (arith, positive), ground (arith, h, same))), λ _. refl)))
              (λ above.
                if_split P (index != add64 db.applied_index 1) _ _
                  (λ _. (refl, ((λ e. cc), (λ r. absurd (ground (arith, above, same, r.1))))))
                  (λ h. absurd (other (next_lem h positive))))))
  where
    next_lem : (index != add64 db.applied_index 1) ≡ false → (index == 0) ≡ false → index ≡ n + 1
    next_lem h positive = ground (arith, h, positive, same, room)

-- A replica's database is sound, and no record has a number above the index applied last.
pub record IsApplied (hash : Hashing) (ls : List (List Record)) (db : Db) : Type 0 where
  pub sound : IsDb hash ls db
  pub below : AllBelow (db.applied_index + 1) (db.mem.entries ∷ ls)
  pub mode : is_replica db.opts ≡ true

module _ (hash : Hashing) (ls : List (List Record)) (db : Db) (a : IsApplied hash ls db)
    (room : db.applied_index + 1 < u64_mod) (ms : List Mutation) (good : check_mutations ms ≡ none)
    (short : All IsShortMutation ms) where
  abbrev index : ℕ
  index = db.applied_index + 1

  -- The database before the flush.
  abbrev pub batched : Db
  batched = record db { mem = apply_mutations index ms db.mem; applied_index = index }

  batched-IsDb : IsDb hash ls batched
  batched-IsDb =
      IsDb-view hash _ ls batched
        (apply_mutations-IsDb index hash ls ms db a.sound short a.below.1 room) refl refl

  apply_batch_next : apply_batch hash db index ms ≡ maybe_flush hash batched
  unfolding apply_batch
  apply_batch_next =
      if_no (not (is_replica db.opts)) _ _ (ground (arith, a.mode))
      ∙ if_no (index == 0) _ _ (ground arith)
      ∙ if_no (leb index db.applied_index) _ _ (ground arith)
      ∙ if_no (index != add64 db.applied_index 1) _ _ (ground (arith, room))
      ∙ ap
          (λ o. elim o as (λ _. Db × Option DbError) [
            | some e ↦ (db, some e)
            | none ↦ maybe_flush hash batched
          ])
          good

  batched_reads :
      (key : List ℕ)
      → get hash.fnv batched key ≡ mutated (first_mutation key ms) (get hash.fnv db key)
  unfolding lookup
  batched_reads key =
      get-lookup hash ls batched key batched-IsDb
      ∙ ap (λ o. live_value (first_of o (lookup key ls)))
          (find-apply_mutations index key ms db.mem (λ r here.
            (find-All (λ (s : Record). s.seq_num < index) key db.mem.entries r here a.below.0).0))
      ∙ live_mutation index (first_mutation key ms) (find key db.mem.entries) (lookup key ls)
      ∙ ap (mutated (first_mutation key ms)) (sym (get-lookup hash ls db key a.sound))

  -- A batch at the next index gives each key what its first mutation in the batch says, and leaves
  -- the other keys: where the database is sound, the mutations pass the checks and their lengths
  -- fit in 32 bits, the index has room, and the tables that are written fit the format.
  pub get-apply_batch :
      (key : List ℕ)
      → FlushFits hash ls batched
      → get hash.fnv (apply_batch hash db (db.applied_index + 1) ms).0 key
        ≡ mutated (first_mutation key ms) (get hash.fnv db key)
  get-apply_batch key fits =
      ap (λ (p : Db × Option DbError). get hash.fnv p.0 key) apply_batch_next
      ∙ get-Keeps hash batched ls _ key batched-IsDb
          (maybe_flush-Keeps hash ls batched batched-IsDb fits)
      ∙ batched_reads key

  all_next : (n : ℕ) (ms : List Mutation) → All (λ m. (mutation_record n m).seq_num < n + 1) ms
  all_next n [] = tt
  all_next n (m ∷ ms) = (omega arith, all_next n ms)

  batched-AllBelow : AllBelow (index + 1) (batched.mem.entries ∷ ls)
  batched-AllBelow =
      let higher = λ (rs : List Record). All-below index (index + 1) rs (omega arith) in
      (
        All-apply_mutations index (λ (r : Record). r.seq_num < index + 1) ms db.mem
            (all_next index ms) (higher db.mem.entries a.below.0),
        All-map (All (λ (r : Record). r.seq_num < index)) _ ls (λ l. higher l) a.below.1,
      )

  -- The database is sound for the next batch.
  pub apply_batch-IsApplied :
      FlushFits hash ls batched
      → (lists : List (List Record)) × IsApplied hash lists
          (apply_batch hash db (db.applied_index + 1) ms).0
        × ((apply_batch hash db (db.applied_index + 1) ms).0.applied_index ≡ db.applied_index + 1)
  apply_batch-IsApplied fits =
      let k = maybe_flush-Keeps hash ls batched batched-IsDb fits in
      let after = (maybe_flush hash batched).0 in
      let (same_index, same_opts) = k.same_rest in
      subst
        (λ (p : Db × Option DbError).
          (lists : List (List Record)) × IsApplied hash lists p.0 × (p.0.applied_index ≡ index))
        (sym apply_batch_next)
        (
          k.lists,
          record {
            sound = k.sound;
            below =
                subst (λ n. AllBelow (n + 1) (after.mem.entries ∷ k.lists)) (sym same_index)
                  (k.no_higher (index + 1) batched-AllBelow);
            mode = ap is_replica same_opts ∙ a.mode;
          },
          same_index,
        )

  abbrev pub applied : Db
  applied = (apply_batch hash db (db.applied_index + 1) ms).0

  -- After a batch at the next index, a batch at any index but the one that then comes next leaves
  -- the database as it is, whatever its mutations, and it is acknowledged exactly if its index is
  -- one from 1 to the index just applied: so no index is applied twice, and none is passed over.
  -- The database is sound, the first batch's mutations pass the checks and their lengths fit in 32
  -- bits, the index has room, and the tables that are written fit the format.
  pub apply_batch_once :
      (index' : ℕ) (others : List Mutation)
      → FlushFits hash ls batched
      → index' ≢ db.applied_index + 2
      → ((apply_batch hash applied index' others).0 ≡ applied)
        × ((apply_batch hash applied index' others).1 ≡ none
            ↔ (0 < index') × (index' ≤ db.applied_index + 1))
  apply_batch_once index' others fits other =
      let (lists, after, same_index) = apply_batch-IsApplied fits in
      out_of_turn hash applied (db.applied_index + 1) index' others after.mode same_index room
        (omega (arith, other))
