-- ===== src/Channel/Assemble.antt =====
-- The receiver's half of a message: what `recv` and `recv_multi` take out of a slot, and
-- `assemble_message`, which joins fragments by their message id. `none` as the outer result is a
-- panic (a slice out of range, or `unwrap` of `None`).
use thoth_ipc.Base.{
  ℕ, ◌+◌, ◌^◌, Bool, not, ◌&&◌, ◌||◌, List, ◌++◌, Option, none, some, length, take, drop, add32,
  ltb, leb, ◌==◌, if◌then◌else◌, replicate,
}
use thoth_ipc.Base.Maybe.{◌>>=◌}
use thoth_ipc.ChunkPool.{ChunkShm, calc_chunk_size, find_storage, recycle_storage}
use thoth_ipc.Channel.Slot.{data_length, read_header, read_payload, read_storage_id}

-- `remain <= 0` and `r_size > 0` of an `i32`
unfoldable pub le_zero : ℕ → Bool
le_zero w = (w == 0) || leb (2 ^ 31) w

abbrev pub gt_zero : ℕ → Bool
gt_zero w = ltb 0 w && ltb w (2 ^ 31)

-- what one turn of the receive loop takes out of a slot before it releases it
pub record Taken : Type 0 where
  pub keep : Bool
  pub id : ℕ
  pub remain : ℕ
  pub r_size : ℕ
  pub storage_id : Option ℕ
  pub frag : Option (List ℕ)

unfoldable pub take_out : ℕ → List ℕ → Taken
take_out own_cc_id slot =
    let h = read_header slot in
    let r_size = add32 data_length h.remain in
    let keep = not (h.cc_id == own_cc_id) && gt_zero r_size in
    record {
      keep = keep;
      id = h.id;
      remain = h.remain;
      r_size = r_size;
      storage_id = if keep && h.storage then some (read_storage_id slot) else none;
      frag =
          if keep && not h.storage
          then some (read_payload slot (if le_zero h.remain then r_size else data_length))
          else none;
    }

-- an entry of `recv_cache`: the fill offset and the buffer
pub record Entry : Type 0 where
  pub off : ℕ
  pub buf : List ℕ

-- The receiver's own state. `chunk_shm` answers `none` for a size whose segment cannot be mapped.
pub record Receiver : Type 0 where
  pub conn_id : ℕ
  pub recv_cache : ℕ → Option Entry
  pub chunk_shm : ℕ → Option ChunkShm

abbrev pub update {ℓ} : {A : Type ℓ} → (ℕ → A) → ℕ → A → ℕ → A
update f k a j = if j == k then a else f j

-- `buf[off..off + n].copy_from_slice(frag)` with `n = frag.len()`
unfoldable pub copy_into : List ℕ → ℕ → List ℕ → Option (List ℕ)
copy_into buf off frag =
    if ltb (length buf) (off + length frag)
    then none
    else some (take off buf ++ (frag ++ drop (off + length frag) buf))

-- a message in chunk storage
unfoldable pub read_chunk : Receiver → ℕ → ℕ → Option (List ℕ) × Receiver
unfolding calc_chunk_size find_storage recycle_storage
read_chunk r r_size sid =
    let chunk_size = calc_chunk_size r_size in
    elim (r.chunk_shm chunk_size) [
      | none ↦ (none, r)
      | some shm ↦ (
        elim (find_storage shm sid) [ none ↦ none | some payload ↦ some (take r_size payload) ],
        record r {
          chunk_shm = update r.chunk_shm chunk_size (some (recycle_storage shm sid r.conn_id));
        },
      )
    ]

-- an inline fragment
unfoldable pub join_fragment : Receiver → ℕ → ℕ → ℕ → List ℕ → Option (Option (List ℕ) × Receiver)
unfolding copy_into le_zero
join_fragment r id remain r_size frag = elim (r.recv_cache id) [
  | some e ↦ do
    buf ← copy_into e.buf e.off frag
    if le_zero remain
        then some (some buf, record r { recv_cache = update r.recv_cache id none })
        else some (
          none,
          record r {
            recv_cache =
                update r.recv_cache id (some (record { off = e.off + length frag; buf = buf }));
          },
        )
  | none ↦ if le_zero remain then some (some frag, r) else do
    buf ← copy_into (replicate r_size 0) 0 frag
    some (
      none,
      record r {
        recv_cache = update r.recv_cache id (some (record { off = length frag; buf = buf }));
      },
    )
]

unfoldable pub assemble_message : Receiver → Taken → Option (Option (List ℕ) × Receiver)
unfolding read_chunk join_fragment
assemble_message r t = if not t.keep then some (none, r) else elim t.storage_id [
  | some sid ↦ some (read_chunk r t.r_size sid)
  | none ↦ do frag ← t.frag; join_fragment r t.id t.remain t.r_size frag
]
