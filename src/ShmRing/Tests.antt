-- ===== src/ShmRing/Tests.antt =====
-- Runs of a ring of four items, and the theorems at concrete inputs.
use thoth_ipc.Base.{
  List, length, ℕ, ◌-◌, ◌^◌, ◌<◌, ◌≡◌, ◌⊎◌, refl, arith, true, false, none, some, [], ◌∷◌,
}
use thoth_ipc.ShmRing.{
  capacity, ShmRing, construct, write_slot, write_commit, write, write_overwrite, read_slot,
  read_commit, read, available,
}
use thoth_ipc.ShmRing.Queue.{IsQueue}
use thoth_ipc.ShmRing.Operations.{
  write-IsQueue, read-IsQueue, write_overwrite-IsQueue, construct-IsQueue,
}

abbrev zeroed : ShmRing ℕ
zeroed = record { write_idx = 0; read_idx = 0; constructed = false; slots = [] }

abbrev full : ShmRing ℕ
full = record { write_idx = 6; read_idx = 2; constructed = true; slots = 5 ∷ 6 ∷ 3 ∷ 4 ∷ [] }

abbrev four : List ℕ
four = 3 ∷ 4 ∷ 5 ∷ 6 ∷ []

full-IsQueue : IsQueue 2 full (3 ∷ 4 ∷ 5 ∷ 6 ∷ [])
full-IsQueue = record {
  size = refl;
  write_eq = refl;
  write_lt = omega arith;
  fits = omega arith;
  items = (refl, (refl, (refl, (refl, tt))));
}

no_room_runs : (write 2 full 7).0 ≡ false
unfolding write write_slot write_commit
no_room_runs = refl

overwrite_runs :
    write_overwrite 2 full 7
    ≡ record { write_idx = 7; read_idx = 3; constructed = true; slots = 5 ∷ 6 ∷ 7 ∷ 4 ∷ [] }
unfolding write_overwrite
overwrite_runs = refl

read_runs : (read 2 full).0 ≡ some 3
unfolding read read_slot read_commit
read_runs = refl

-- Past 2^64 the reader finds nothing although an item is there.
wrapped_available : available 2 (record full { write_idx = 0; read_idx = 2 ^ 64 - 1 }) ≡ 1
unfolding available
wrapped_available = refl

wrapped_read : (read 2 (record full { write_idx = 0; read_idx = 2 ^ 64 - 1 })).0 ≡ none
unfolding read read_slot read_commit
wrapped_read = refl

write-IsQueue_example :
    ((4 < 4) × ((write 2 full 7).0 ≡ true) × IsQueue 2 (write 2 full 7).1 (3 ∷ 4 ∷ 5 ∷ 6 ∷ 7 ∷ []))
    ⊎ ((length four ≡ capacity 2) × (write 2 full 7 ≡ (false, full)))
write-IsQueue_example = write-IsQueue 2 full (3 ∷ 4 ∷ 5 ∷ 6 ∷ []) 7 full-IsQueue (omega arith)

read-IsQueue_example : ((read 2 full).0 ≡ some 3) × IsQueue 2 (read 2 full).1 (4 ∷ 5 ∷ 6 ∷ [])
read-IsQueue_example = read-IsQueue 2 full (3 ∷ 4 ∷ 5 ∷ 6 ∷ []) full-IsQueue

write_overwrite-IsQueue_example : IsQueue 2 (write_overwrite 2 full 7) (4 ∷ 5 ∷ 6 ∷ 7 ∷ [])
write_overwrite-IsQueue_example =
    write_overwrite-IsQueue 2 full (3 ∷ 4 ∷ 5 ∷ 6 ∷ []) 7 full-IsQueue (omega arith)

construct-IsQueue_example : IsQueue 2 (construct 2 0 zeroed) []
construct-IsQueue_example = construct-IsQueue 2 zeroed 0 refl
