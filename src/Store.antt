-- ===== src/Store.antt =====
-- internal/raftstore/store.go: the durable store of a node, as `Persist` changes it. The files
-- behind it are not modelled: each of their operations succeeds.
pub mod Appends
pub mod Splices
pub mod Handled
pub mod Steps
pub mod Stepped
use lsmdb.Base.{
  ℕ, suc, ◌+◌, ◌-◌, List, [], ◌∷◌, ◌++◌, Option, none, some, Bool, true, false, ◌&&◌, ◌||◌, ◌==◌,
  ◌!=◌, ltb, leb, if◌then◌else◌, length, get_elem?, take, drop, add64, Result, ok, err, ◌>>=◌,
}
use lsmdb.Raft.Types.{Entry, HardState, Snapshot, Update, max_entry_bytes}

pub record Store : Type 0 where
  pub hard : HardState
  pub snapshot : Snapshot
  pub entries : List Entry

pub data StoreError : Type 0 where
  invalid_truncation invalid_append too_large invalid_snapshot : ℕ → StoreError

-- The error, and the store as the part before it left it.
pub record Failure : Type 0 where
  pub reason : StoreError
  pub left : Store

unfoldable pub truncate : Store → ℕ → Result Failure Store
truncate s from =
    let first = add64 s.snapshot.index 1 in
    let last = add64 s.snapshot.index (length s.entries) in
    if ltb from first || ltb (add64 last 1) from
    then err (record { reason = invalid_truncation from; left = s })
    else if from == add64 last 1
    then ok s
    else ok (record s { entries = take (from - first) s.entries })

-- Entries before the one that is refused stay written.
unfoldable pub append : Store → List Entry → Result Failure Store
append s [] = ok s
append s (e ∷ es) =
    let want = add64 (add64 s.snapshot.index (length s.entries)) 1 in
    let rest = append (record s { entries = s.entries ++ e ∷ [] }) es in
    if e.index != want || e.term == 0
    then err (record { reason = invalid_append e.index; left = s })
    else if ltb max_entry_bytes (length e.bytes)
    then err (record { reason = too_large e.index; left = s })
    else rest

stored_term : Option Entry → ℕ
stored_term none = 0
stored_term (some e) = e.term

-- The data of the snapshot goes to its file.
unfoldable pub install_snapshot : Store → Snapshot → Result Failure Store
unfolding stored_term
install_snapshot s snapshot =
    let offset = snapshot.index - s.snapshot.index in
    let keep =
      leb snapshot.index (add64 s.snapshot.index (length s.entries))
      && stored_term (get_elem? s.entries (offset - 1)) == snapshot.term in
    if snapshot.index == 0 || snapshot.term == 0
    then err (record { reason = invalid_snapshot snapshot.index; left = s })
    else if leb snapshot.index s.snapshot.index
    then ok s
    else ok (record s {
      snapshot = record snapshot { bytes = [] };
      entries = if keep then drop offset s.entries else [];
    })

-- The snapshot, the truncation and the entries of an update, in the order in which they are
-- written.
unfoldable pub write_parts : Store → Option Snapshot → ℕ → List Entry → Result Failure Store
write_parts s snapshot truncate_from entries =
    (elim snapshot [ none ↦ ok s | some image ↦ install_snapshot s image ])
    >>= λ (installed : Store).
        (if truncate_from != 0 then truncate installed truncate_from else ok installed)
        >>= λ (cut : Store). append cut entries

unfoldable pub persist : Store → Update → Result Failure Store
unfolding write_parts
persist s u =
    write_parts (record s { hard = elim u.hard_state [ none ↦ s.hard | some h ↦ h ] }) u.snapshot
      u.truncate_from u.entries
