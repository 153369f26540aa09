-- ===== src/Db/Numbers.antt =====
-- db/db.go: the numbers of the records of a log.
use lsmdb.Base.{
  ℕ, ◌+◌, ◌≤◌, ◌<◌, ◌≡◌, List, [], ◌∷◌, ◌++◌, Bool, true, false, not, arith, if_split, max, ltb,
  add64, u64_mod, length, All, refl, sym, subst, ap, ◌∙◌, if_no, if_yes,
}
use lsmdb.Wal.{Record}
use lsmdb.Db.Opening.{newer_than, base_seq, is_reused, renumbered, sequence_wal}

-- Each number is above the one before it.
abbrev pub IsRising : ℕ → List Record → Type 0
IsRising low [] = Unit {0}
IsRising low (r ∷ rs) = (low < r.seq_num) × IsRising r.seq_num rs

newer_than-above :
    (last_seq : ℕ) (rs : List Record)
    → All (λ (r : Record). last_seq < r.seq_num) (newer_than last_seq rs)
unfolding newer_than
newer_than-above last_seq [] = tt
newer_than-above last_seq (r ∷ rs) =
    let rest = newer_than-above last_seq rs in
    if_split (All (λ (r : Record). last_seq < r.seq_num)) (ltb last_seq r.seq_num) _ _
      (λ e. (ground (arith, e), rest)) (λ _. rest)

base_seq-above : (base : ℕ) (rs : List Record) → base ≤ base_seq base rs
base_seq-above base [] = omega arith
base_seq-above base (r ∷ rs) = omega (arith, base_seq-above (max base r.seq_num) rs)

unused-above :
    (last_seq : ℕ) (rs : List Record)
    → is_reused last_seq rs ≡ false
    → All (λ (r : Record). last_seq < r.seq_num) rs
unused-above last_seq [] e = tt
unused-above last_seq (r ∷ rs) e = (ground (arith, e), unused-above last_seq rs (ground (arith, e)))

renumbered-IsRising :
    (base i : ℕ) (rs : List Record)
    → base + i + length rs < u64_mod
    → IsRising (base + i) (renumbered base i rs)
unfolding renumbered
renumbered-IsRising base i [] room = tt
renumbered-IsRising base i (r ∷ rs) room =
    let seq : add64 (add64 base i) 1 ≡ base + (i + 1) = omega (arith, room) in
    (
      omega (arith, seq),
      subst (λ n. IsRising n (renumbered base (i + 1) rs)) (sym seq)
          (renumbered-IsRising base (i + 1) rs (omega (arith, room))),
    )

pub IsRising-above :
    (low : ℕ) (n : ℕ) (rs : List Record)
    → n ≤ low
    → IsRising low rs
    → All (λ (r : Record). n < r.seq_num) rs
IsRising-above low n [] h rise = tt
IsRising-above low n (r ∷ rs) h rise =
    (omega (arith, h, rise.0), IsRising-above r.seq_num n rs (omega (arith, h, rise.0)) rise.1)

IsRising-lower : (low : ℕ) (n : ℕ) (rs : List Record) → n ≤ low → IsRising low rs → IsRising n rs
IsRising-lower low n [] h rise = tt
IsRising-lower low n (r ∷ rs) h rise = (omega (arith, h, rise.0), rise.1)

-- The records to replay of a log, in its order: a record is left out only where the directory has a
-- current manifest whose tables have it, and one that is replayed keeps its type, key and value, and
-- its number too where the records are not numbered anew.
pub data Replays (last_seq : ℕ) (legacy is_renumbered : Bool)
    : List Record → List Record → Type 0 where
  none_left : Replays last_seq legacy is_renumbered [] []
  left_out :
      {r : Record} {rs ks : List Record}
      → legacy ≡ false
      → r.seq_num ≤ last_seq
      → Replays last_seq legacy is_renumbered rs ks
      → Replays last_seq legacy is_renumbered (r ∷ rs) ks
  taken :
      {r k : Record} {rs ks : List Record}
      → (k.type ≡ r.type) × (k.key ≡ r.key) × (k.value ≡ r.value)
      → (is_renumbered ≡ false → k.seq_num ≡ r.seq_num)
      → Replays last_seq legacy is_renumbered rs ks
      → Replays last_seq legacy is_renumbered (r ∷ rs) (k ∷ ks)

newer_than-Replays :
    (last_seq : ℕ) (legacy : Bool) (rs : List Record)
    → legacy ≡ false
    → Replays last_seq legacy false rs (newer_than last_seq rs)
unfolding newer_than
newer_than-Replays last_seq legacy [] e = none_left
newer_than-Replays last_seq legacy (r ∷ rs) e =
    let rest = newer_than-Replays last_seq legacy rs e in
    if_split (Replays last_seq legacy false (r ∷ rs)) (ltb last_seq r.seq_num) _ _
      (λ _. taken (refl, refl, refl) (λ _. refl) rest) (λ h. left_out e (ground (arith, h)) rest)

Replays-same :
    (last_seq : ℕ) (legacy : Bool) (rs : List Record) → Replays last_seq legacy false rs rs
Replays-same last_seq legacy [] = none_left
Replays-same last_seq legacy (r ∷ rs) =
    taken (refl, refl, refl) (λ _. refl) (Replays-same last_seq legacy rs)

renumbered-Replays :
    (last_seq : ℕ) (legacy : Bool) (base i : ℕ) (rs : List Record)
    → Replays last_seq legacy true rs (renumbered base i rs)
unfolding renumbered
renumbered-Replays last_seq legacy base i [] = none_left
renumbered-Replays last_seq legacy base i (r ∷ rs) =
    taken (refl, refl, refl) (λ e. absurd (ground (arith, e)))
      (renumbered-Replays last_seq legacy base (i + 1) rs)

-- The records that are replayed are those of the log, in its order and with their types, keys and
-- values; only records that the published tables have are left out, and only where the manifest is
-- current. Their numbers are above those of the published tables, and are those of the log, or where
-- they are numbered anew, rise in the order of the log: where there is room for the new numbers.
pub sequence_wal-Replays :
    (records : List Record) (last_seq : ℕ) (legacy : Bool)
    → base_seq last_seq records + length records < u64_mod
    → let (kept, is_renumbered) = sequence_wal records last_seq legacy in
      Replays last_seq legacy is_renumbered records kept
      × All (λ (r : Record). last_seq < r.seq_num) kept
      × (is_renumbered ≡ true → IsRising last_seq kept)
unfolding sequence_wal
sequence_wal-Replays records last_seq legacy room =
    let P = λ (p : List Record × Bool).
      Replays last_seq legacy p.1 records p.0
      × All (λ (r : Record). last_seq < r.seq_num) p.0
      × (p.1 ≡ true → IsRising last_seq p.0) in
    let base = base_seq last_seq records in
    let low = base_seq-above last_seq records in
    let rising = renumbered-IsRising base 0 records (omega (arith, room)) in
    if_split P (not legacy) _ _
      (λ current. (
        newer_than-Replays last_seq legacy records (ground (arith, current)),
        newer_than-above last_seq records,
        λ e. absurd (ground (arith, e)),
      ))
      (λ _.
        if_split P (not (is_reused last_seq records)) _ _
          (λ unused. (
            Replays-same last_seq legacy records,
            unused-above last_seq records (ground (arith, unused)),
            λ e. absurd (ground (arith, e)),
          ))
          (λ reused. (
            renumbered-Replays last_seq legacy base 0 records,
            IsRising-above (base + 0) last_seq _ (omega (arith, low)) rising,
            λ _. IsRising-lower (base + 0) last_seq _ (omega (arith, low)) rising,
          )))

-- Only what is new in the log is replayed: records of published tables stand before it.
pub newer_than-append :
    (last_seq : ℕ) (old new : List Record)
    → All (λ (r : Record). r.seq_num ≤ last_seq) old
    → All (λ (r : Record). last_seq < r.seq_num) new
    → newer_than last_seq (old ++ new) ≡ new
unfolding newer_than
newer_than-append last_seq [] [] o n = refl
newer_than-append last_seq [] (r ∷ rs) o n =
    if_yes (ltb last_seq r.seq_num) _ _ (ground (arith, n.0))
    ∙ ap (λ x. r ∷ x) (newer_than-append last_seq [] rs tt n.1)
newer_than-append last_seq (r ∷ old) new o n =
    if_no (ltb last_seq r.seq_num) _ _ (ground (arith, o.0))
    ∙ newer_than-append last_seq old new o.1 n
