-- ===== src/SizeCappedLog/Tests.antt =====
-- A log of at most four bytes (src/backend/src/size_capped_log.rs).
use carnine.Prelude.{ℕ, ◌≤◌, ◌≡◌, refl, true, false, none, some, List, [], ◌∷◌, arith}
use carnine.SizeCappedLog.{
  Disk, Calls, open_log, open_append, rename, reopen, rotate, put, append, write, write_all,
}
use carnine.SizeCappedLog.Bounds.{size, write_all_sizes}

abbrev fine : Calls
fine = record { flushes = true; renames = true; opens = true; takes = some 9 }

abbrev no_file : Calls
no_file = record { flushes = true; renames = true; opens = false; takes = some 9 }

abbrev three : Disk
three = record { log = some (7 ∷ 8 ∷ 9 ∷ []); rotated = none }

abbrev writes : List (Calls × List ℕ)
writes = (fine, 1 ∷ 2 ∷ []) ∷ (no_file, 3 ∷ 4 ∷ 5 ∷ []) ∷ (fine, 6 ∷ []) ∷ []

moved_on :
    (write_all (open_log three 4) writes).disk
    ≡ record { log = none; rotated = some (1 ∷ 2 ∷ 6 ∷ []) }
unfolding open_log open_append write_all write rotate rename reopen append put
moved_on = refl

write_all_sizes_example :
    (size (write_all (open_log three 4) writes).disk.log ≤ 4)
    × (size (write_all (open_log three 4) writes).disk.rotated ≤ 4)
write_all_sizes_example =
    write_all_sizes 4 three writes (omega arith) (omega arith)
      (omega arith, (omega arith, (omega arith, tt)))
