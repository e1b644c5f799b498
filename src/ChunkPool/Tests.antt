-- ===== src/ChunkPool/Tests.antt =====
-- Runs of the pool, and the theorems at concrete inputs.
use thoth_ipc.Base.{ℕ, ◌≡◌, refl, arith, List, [], ◌∷◌, none, replicate, ◌⊎◌}
use thoth_ipc.ChunkPool.{
  ChunkInfo, ChunkShm, prepare, acquire, link_from, acquire_storage, calc_chunk_size,
}
use thoth_ipc.ChunkPool.FreeList.{IsPool, count_up}
use thoth_ipc.ChunkPool.Storage.{
  IsStorage, Acquired, acquire_storage_lem, recycle_all, recycle_all_lem,
}

abbrev zeroed : ChunkInfo
zeroed = record { next_ = replicate 32 0; cursor_ = 0; prepared_ = 0 }

abbrev fresh : ChunkInfo
fresh = record { next_ = count_up 32 1; cursor_ = 0; prepared_ = 1 }

prepare_runs : prepare zeroed ≡ fresh
unfolding prepare link_from
prepare_runs = refl

-- A pool that is not all zero is taken for one in use.
prepare_partial :
    prepare (record { next_ = 0 ∷ 7 ∷ []; cursor_ = 0; prepared_ = 0 })
    ≡ record { next_ = 0 ∷ 7 ∷ []; cursor_ = 0; prepared_ = 1 }
unfolding prepare link_from
prepare_partial = refl

fresh-IsPool : IsPool fresh (count_up 32 0)
fresh-IsPool = omega arith

abbrev segment : ChunkShm
segment = record {
  info = record fresh { cursor_ = 1 };
  chunks = replicate 32 (record { conns = 3; payload = [] });
}

segment-IsStorage : IsStorage segment (count_up 31 1)
segment-IsStorage = omega arith

acquire_twice : (acquire (acquire fresh).1).0 ≡ 1
unfolding acquire
acquire_twice = refl

acquire_storage_lem_example :
    ((count_up 31 1 ≡ []) × (acquire_storage segment 5 ≡ (none, segment)))
    ⊎ ((x : ℕ) × (xs : List ℕ) × Acquired segment 5 (count_up 31 1) x xs)
acquire_storage_lem_example = acquire_storage_lem segment 5 (count_up 31 1) segment-IsStorage

-- chunk 0 was handed out for the readers 1 and 2
recycle_all_lem_example :
    IsStorage (recycle_all segment 0 (1 ∷ [])) (count_up 31 1)
    × IsStorage (recycle_all segment 0 (1 ∷ 2 ∷ [])) (0 ∷ count_up 31 1)
recycle_all_lem_example =
    recycle_all_lem segment (count_up 31 1) 0 (1 ∷ []) 2 segment-IsStorage (omega arith)
      (omega arith) (omega arith) (omega arith)

calc_chunk_size_runs : calc_chunk_size 1009 ≡ 2048
unfolding calc_chunk_size
calc_chunk_size_runs = refl
