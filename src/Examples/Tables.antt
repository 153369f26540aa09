-- ===== src/Examples/Tables.antt =====
-- Runs of the table of internal/memtable.
use lsmdb.Base.{◌≡◌, refl, List, [], ◌∷◌, some, none, if◌then◌else◌, arith, sort_slice, sort_search}
use lsmdb.Memtable.{
  Record, MemTable, put, delete, same_key, set, remove, get, alloc_seq, set_raw, get_record,
  scan_range, sorted_entries, store_record, up_to, key_before,
}
use lsmdb.Memtable.Writes.{IsOrdered, writes-IsOrdered, set_raw-alloc_seq, get-writes}
use lsmdb.Memtable.Replays.{replay, SeqsDiffer, swapped, replay-Reorders}

abbrev old_put : Record
old_put = record { key = 97 ∷ []; value = 1 ∷ []; seq_num = 3; type = put }

abbrev other_put : Record
other_put = record { key = 98 ∷ []; value = 2 ∷ []; seq_num = 4; type = put }

abbrev late_delete : Record
late_delete = record { key = 97 ∷ []; value = []; seq_num = 5; type = delete }

abbrev small_table : MemTable
small_table = record { entries = old_put ∷ other_put ∷ []; next_seq = 5 }

writes-IsOrdered_example :
    IsOrdered (set small_table (98 ∷ []) (7 ∷ []))
    × IsOrdered (remove small_table (98 ∷ []))
    × IsOrdered (set_raw small_table late_delete)
writes-IsOrdered_example =
    writes-IsOrdered small_table (98 ∷ []) (7 ∷ []) late_delete (omega arith, (omega arith, tt))
      (omega arith) (omega arith)

set_raw-alloc_seq_example :
    (set_raw
        (alloc_seq small_table).1
        (record { key = 97 ∷ []; value = 7 ∷ []; seq_num = (alloc_seq small_table).0; type = put })
      ≡ set small_table (97 ∷ []) (7 ∷ []))
    × (set_raw
          (alloc_seq small_table).1
          (record { key = 97 ∷ []; value = []; seq_num = (alloc_seq small_table).0; type = delete })
        ≡ remove small_table (97 ∷ []))
set_raw-alloc_seq_example =
    set_raw-alloc_seq small_table (97 ∷ []) (7 ∷ []) (omega arith, (omega arith, tt)) (omega arith)

get-writes_example :
    (get (set small_table (97 ∷ []) (7 ∷ [])) (98 ∷ [])
      ≡ (if same_key (97 ∷ []) (98 ∷ []) then some (7 ∷ []) else get small_table (98 ∷ [])))
    × (get (remove small_table (97 ∷ [])) (98 ∷ [])
        ≡ (if same_key (97 ∷ []) (98 ∷ []) then none else get small_table (98 ∷ [])))
get-writes_example = get-writes small_table (97 ∷ []) (7 ∷ []) (98 ∷ [])

abbrev logged : List Record
logged = old_put ∷ late_delete ∷ other_put ∷ []

logged-SeqsDiffer : SeqsDiffer logged
logged-SeqsDiffer = (
  ((λ e. absurd (omega (arith, e))), ((λ e. absurd (omega (arith, e))), tt)),
  (((λ e. absurd (omega (arith, e))), tt), (tt, tt)),
)

replay-Reorders_example :
    get_record (replay small_table logged) (97 ∷ [])
    ≡ get_record (replay small_table (late_delete ∷ old_put ∷ other_put ∷ [])) (97 ∷ [])
replay-Reorders_example =
    replay-Reorders small_table logged (late_delete ∷ old_put ∷ other_put ∷ []) (97 ∷ []) swapped
      logged-SeqsDiffer

scan_range_run : scan_range (set small_table (96 ∷ []) []) (97 ∷ []) (97 ∷ 200 ∷ []) ≡ old_put ∷ []
unfolding scan_range sorted_entries up_to key_before set sort_slice sort_search store_record
    same_key
scan_range_run = refl
