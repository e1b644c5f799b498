-- ===== src/ChunkPool/Storage.antt =====
-- A chunk is handed out to one message at a time, and comes back when its last reader recycles it.
use thoth_ipc.Base.{
  ℕ, ◌+◌, ◌%◌, ◌-◌, ◌^◌, ◌≤◌, ◌<◌, ◌≡◌, ◌≢◌, refl, ◌∙◌, arith, List, [], ◌∷◌, ◌++◌, length,
  length-set, get_or, set, get_or-set_self, ◌⊎◌, inl, inr, none, some, bit_and, not32, false,
  if◌then◌else◌, ◌==◌,
}
use thoth_ipc.Base.Bits.{bit_and-zero_left}
use thoth_ipc.ChunkPool.{
  calc_chunk_size, chunk_align, chunk_header, ChunkInfo, ChunkShm, Chunk, no_chunk, max_count,
  acquire, release, acquire_storage, recycle_storage,
}
use thoth_ipc.ChunkPool.FreeList.{IsPool, NotIn, acquire-IsPool, release-IsPool, prepare_in_use}

-- A segment in use, whose free ids are `fl`.
pub record IsStorage (shm : ChunkShm) (fl : List ℕ) : Type 0 where
  pub pool : IsPool shm.info fl
  pub prepared : shm.info.prepared_ ≡ 1
  pub chunks : length shm.chunks ≡ max_count

abbrev pub chunk_at : ChunkShm → ℕ → Chunk
chunk_at shm id = get_or shm.chunks id no_chunk

acquire-prepared : (info : ChunkInfo) → (acquire info).1.prepared_ ≡ info.prepared_
unfolding acquire
acquire-prepared info = ground arith

release-prepared : (info : ChunkInfo) (id : ℕ) → (release info id).prepared_ ≡ info.prepared_
unfolding release
release-prepared info id = ground arith

-- With no free id, `acquire_storage` fails and changes nothing.
acquire_storage-full :
    (shm : ChunkShm) (conns : ℕ)
    → shm.info.prepared_ ≡ 1
    → acquire shm.info ≡ (2 ^ 32 - 1, shm.info)
    → acquire_storage shm conns ≡ (none, shm)
unfolding acquire_storage
acquire_storage-full shm conns h e = ground (arith, prepare_in_use shm.info h)

acquire_storage-free :
    (shm : ChunkShm) (conns x : ℕ)
    → shm.info.prepared_ ≡ 1
    → (acquire shm.info).0 ≡ x
    → x < max_count
    → acquire_storage shm conns ≡ (
      some x,
      record {
        info = (acquire shm.info).1;
        chunks = set shm.chunks x (record (chunk_at shm x) { conns = conns });
      },
    )
unfolding acquire_storage
acquire_storage-free shm conns x h e lt = ground (arith, prepare_in_use shm.info h)

-- what a successful `acquire_storage` does
pub record Acquired (shm : ChunkShm) (conns : ℕ) (fl : List ℕ) (x : ℕ) (xs : List ℕ) : Type 0 where
  pub was : fl ≡ x ∷ xs
  pub result : (acquire_storage shm conns).0 ≡ some x
  pub valid : IsStorage (acquire_storage shm conns).1 xs
  pub held : NotIn x xs
  pub stamped : (chunk_at (acquire_storage shm conns).1 x).conns ≡ conns

-- On a segment with free ids `fl`, `acquire_storage` either fails and changes nothing, and then
-- `fl` is empty; or it hands out the first of `fl`, stamped with `conns`, which is no longer free,
-- while the rest of `fl` stays free.
pub acquire_storage_lem :
    (shm : ChunkShm) (conns : ℕ) (fl : List ℕ)
    → IsStorage shm fl
    → ((fl ≡ []) × (acquire_storage shm conns ≡ (none, shm)))
      ⊎ ((x : ℕ) × (xs : List ℕ) × Acquired shm conns fl x xs)
acquire_storage_lem shm conns fl v = elim (acquire-IsPool shm.info fl v.pool) [
  | inl (e, full) ↦ inl (e, acquire_storage-full shm conns v.prepared full)
  | inr (x, xs, e, id, pool) ↦ inr (x, xs, got x xs e id pool)
]
  where
    got :
        (x : ℕ) (xs : List ℕ)
        → fl ≡ x ∷ xs
        → (acquire shm.info).0 ≡ x
        → IsPool (acquire shm.info).1 xs
        → Acquired shm conns fl x xs
    got x xs e id pool =
        let p : IsPool shm.info (x ∷ xs) = rw e at v.pool in
        let done = acquire_storage-free shm conns x v.prepared id p.chain.1 in
        record {
          was = e;
          result = rw done;
          valid = rw done (record {
            pool = pool;
            prepared = acquire-prepared shm.info ∙ v.prepared;
            chunks = length-set shm.chunks x _ ∙ v.chunks;
          });
          held = p.distinct.0;
          stamped =
              rw (
                done,
                get_or-set_self shm.chunks x _ no_chunk (omega (arith, v.chunks, p.chain.1)),
              );
        }

-- the bits that are left on chunk `id` after its reader `conn_id` has gone
abbrev pub left_over : ChunkShm → ℕ → ℕ → ℕ
left_over shm id conn_id = bit_and (chunk_at shm id).conns (not32 conn_id)

recycle_storage-eq :
    (shm : ChunkShm) (id conn_id : ℕ)
    → id < max_count
    → recycle_storage shm id conn_id ≡ record {
      info = if left_over shm id conn_id == 0 then release shm.info id else shm.info;
      chunks = set shm.chunks id (record (chunk_at shm id) { conns = left_over shm id conn_id });
    }
unfolding recycle_storage
recycle_storage-eq shm id conn_id h = ground arith

module _ (shm : ChunkShm) (fl : List ℕ) (id conn_id : ℕ) (v : IsStorage shm fl)
    (lt : id < max_count) where
  -- A reader that is not the last one leaves the chunk in use.
  recycle_storage-shared :
      left_over shm id conn_id ≢ 0
      → IsStorage (recycle_storage shm id conn_id) fl
        × ((chunk_at (recycle_storage shm id conn_id) id).conns ≡ left_over shm id conn_id)
  recycle_storage-shared h = (
    rw (recycle_storage-eq shm id conn_id lt, busy)
        (record {
          pool = v.pool;
          prepared = v.prepared;
          chunks = length-set shm.chunks id _ ∙ v.chunks;
        }),
    rw (
      recycle_storage-eq shm id conn_id lt,
      get_or-set_self shm.chunks id _ no_chunk (omega (arith, v.chunks)),
    ),
  )
    where
      busy : (left_over shm id conn_id == 0) ≡ false
      busy = ground arith

  -- The last one frees it.
  recycle_storage-last :
      NotIn id fl
      → left_over shm id conn_id ≡ 0
      → IsStorage (recycle_storage shm id conn_id) (id ∷ fl)
  recycle_storage-last new h =
      rw (recycle_storage-eq shm id conn_id lt, h)
        (record {
          pool = release-IsPool shm.info fl id v.pool lt new;
          prepared = release-prepared shm.info id ∙ v.prepared;
          chunks = length-set shm.chunks id _ ∙ v.chunks;
        })

-- the readers `bits` recycle chunk `id`, one after the other
abbrev pub recycle_all : ChunkShm → ℕ → List ℕ → ChunkShm
recycle_all shm id [] = shm
recycle_all shm id (b ∷ bs) = recycle_all (recycle_storage shm id b) id bs

-- the bits of `conns` that are not among `bits`
abbrev pub clear : ℕ → List ℕ → ℕ
clear conns [] = conns
clear conns (b ∷ bs) = clear (bit_and conns (not32 b)) bs

clear-zero : (bs : List ℕ) → clear 0 bs ≡ 0
clear-zero [] = refl
clear-zero (b ∷ bs) = rw (bit_and-zero_left (not32 b)) (clear-zero bs)

-- While some reader has not recycled a chunk, it stays in use; the reader that clears the last bit
-- frees it. So a chunk that was handed out for the readers of `conns` is free again exactly after
-- the last of them, and is then the next one to be handed out.
pub recycle_all_lem :
    (shm : ChunkShm) (fl : List ℕ) (id : ℕ) (bits : List ℕ) (last : ℕ)
    → IsStorage shm fl
    → id < max_count
    → NotIn id fl
    → clear (chunk_at shm id).conns bits ≢ 0
    → clear (chunk_at shm id).conns (bits ++ last ∷ []) ≡ 0
    → IsStorage (recycle_all shm id bits) fl
      × IsStorage (recycle_all shm id (bits ++ last ∷ [])) (id ∷ fl)
recycle_all_lem shm fl id [] last v lt new some_left none_left =
    (v, recycle_storage-last shm fl id last v lt new none_left)
recycle_all_lem shm fl id (b ∷ bs) last v lt new some_left none_left =
    let more : left_over shm id b ≢ 0 = λ e. some_left (rw e (clear-zero bs)) in
    let (v', e) = recycle_storage-shared shm fl id b v lt more in
    recycle_all_lem (recycle_storage shm id b) fl id bs last v' lt new (rw e some_left)
      (rw e none_left)

-- The size of a chunk holds its header and the message, in whole units of 1024 bytes, with less
-- than one unit to spare.
pub calc_chunk_size_lem :
    (size : ℕ)
    → (calc_chunk_size size % chunk_align ≡ 0)
      × (chunk_header + size ≤ calc_chunk_size size)
      × (calc_chunk_size size < chunk_header + size + chunk_align)
unfolding calc_chunk_size
calc_chunk_size_lem size = omega arith
