-- ===== src/ChunkPool.antt =====
-- rust/thoth-ipc/src/chunk_storage.rs: the pool of 32 slots for large messages of one chunk size,
-- in shared memory. `i32` ids are their 32-bit patterns, so -1 is 2^32 - 1. The pool operations run
-- under the spin lock of the segment (`SpinLock` is about that lock), so each is one step here.
pub mod FreeList
pub mod Storage
mod Tests
use thoth_ipc.Base.{
  ℕ, zero, suc, ◌+◌, ◌-◌, ◌*◌, ◌/◌, ◌^◌, bit_and, not32, Bool, true, false, not, ◌&&◌, ◌||◌, Option,
  none, some, List, [], ◌∷◌, ltb, leb, ◌==◌, if◌then◌else◌, u8, length, get_or, set, take,
}

-- `large_msg_cache`, `large_msg_align` and `chunk_header_size` (8 on Apple and MSVC, 16 elsewhere)
abbrev pub max_count : ℕ
max_count = 32

abbrev pub chunk_align : ℕ
chunk_align = 1024

abbrev pub chunk_header : ℕ
chunk_header = 16

-- `id < 0` of an `i32`
abbrev pub is_negative : ℕ → Bool
is_negative id = leb (2 ^ 31) id

pub record ChunkInfo : Type 0 where
  pub next_ : List ℕ  -- [u8; 32]
  pub cursor_ : ℕ  -- u8
  pub prepared_ : ℕ  -- u8

abbrev pub all_zero : List ℕ → Bool
all_zero [] = true
all_zero (b ∷ bs) = (b == 0) && all_zero bs

-- `for i in i..i + n { next_[i] = (i + 1) as u8 }`
unfoldable pub link_from : ℕ → ℕ → List ℕ → List ℕ
link_from zero i next_ = next_
link_from (suc n) i next_ = link_from n (i + 1) (set next_ i (u8 (i + 1)))

unfoldable pub prepare : ChunkInfo → ChunkInfo
prepare info =
    let fresh = (info.prepared_ == 0) && ((info.cursor_ == 0) && all_zero info.next_) in
    record info {
      next_ = if fresh then link_from max_count 0 info.next_ else info.next_;
      prepared_ = 1;
    }

unfoldable pub acquire : ChunkInfo → ℕ × ChunkInfo
acquire info =
    if leb max_count info.cursor_
    then (2 ^ 32 - 1, info)
    else (info.cursor_, record info { cursor_ = get_or info.next_ info.cursor_ 0 })

unfoldable pub release : ChunkInfo → ℕ → ChunkInfo
release info id =
    if is_negative id || leb max_count id
    then info
    else record info { next_ = set info.next_ id info.cursor_; cursor_ = u8 id }

-- `x.div_ceil(y)` for `y > 0`
abbrev div_ceil : ℕ → ℕ → ℕ
div_ceil x y = (x + (y - 1)) / y

unfoldable pub calc_chunk_size : ℕ → ℕ
calc_chunk_size size = div_ceil (chunk_header + size) chunk_align * chunk_align

-- One `chunk_t`: the connection bits of the readers that still owe a read, then the payload.
pub record Chunk : Type 0 where
  pub conns : ℕ  -- u32
  pub payload : List ℕ

-- A mapped segment: the header and its 32 chunks.
pub record ChunkShm : Type 0 where
  pub info : ChunkInfo
  pub chunks : List Chunk

abbrev pub no_chunk : Chunk
no_chunk = record { conns = 0; payload = [] }

-- The caller fills the payload through the pointer that it gets for the id.
unfoldable pub acquire_storage : ChunkShm → ℕ → Option ℕ × ChunkShm
unfolding acquire prepare
acquire_storage shm conns =
    let (id, info) = acquire (prepare shm.info) in
    if is_negative id then (none, record shm { info = info }) else (
      some id,
      record {
        info = info;
        chunks = set shm.chunks id (record (get_or shm.chunks id no_chunk) { conns = conns });
      },
    )

-- the payload of chunk `id`; a reader copies its first bytes
unfoldable pub find_storage : ChunkShm → ℕ → Option (List ℕ)
find_storage shm id =
    if is_negative id || leb max_count id
    then none
    else some (get_or shm.chunks id no_chunk).payload

-- The compare-exchange loop is one step: it stores `cur & !conn_id` for the `cur` that it replaces.
unfoldable pub recycle_storage : ChunkShm → ℕ → ℕ → ChunkShm
unfolding release
recycle_storage shm id conn_id =
    if is_negative id || leb max_count id
    then shm
    else (let chunk = get_or shm.chunks id no_chunk in
        let nxt = bit_and chunk.conns (not32 conn_id) in
        record {
          info = if nxt == 0 then release shm.info id else shm.info;
          chunks = set shm.chunks id (record chunk { conns = nxt });
        })
