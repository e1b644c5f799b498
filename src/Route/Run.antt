-- ===== src/Route/Run.antt =====
-- Runs of a route as receiver `i` sees them: its own reads, the sender, and the other receivers,
-- interleaved in any order. Nobody is evicted: `force_push` and the reaper are not steps.
use thoth_ipc.Base.{
  ℕ, ◌+◌, ◌^◌, ◌%◌, ◌≤◌, ◌<◌, ◌≡◌, List, [], ◌∷◌, ◌++◌, some, length, u8, get_elem?, bit_and, not64,
}
use thoth_ipc.Base.Bits.{bit}
use thoth_ipc.Liveness.{SlotOwner, owner_at}
use thoth_ipc.Route.{
  Ring, Claim, ep_mask, ring_size, ring_slot, claim_slot, write_slot, publish, release_slot,
  recv_slot, join_bit, leave,
}

-- Where the sender is in a push: before its claim, after it, or after its write.
pub data Stage : Type 0 where
  idle : Stage
  owns_slot : Stage
  written : Stage

-- The ring, the sender and receiver `i`, and what was published and received since it joined.
pub record Sys : Type 0 where
  pub ring : Ring
  pub stage : Stage
  pub read_cursor : ℕ
  pub pushed : List (List ℕ)
  pub got : List (List ℕ)

-- Fewer than 2^31 fragments are published since `i` joined: `live_marks` compares cursors as `i32`.
pub data Step (i : ℕ) : Sys → Sys → Type 0 where
  claim :
      (s : Sys) (ring : Ring)
      → s.stage ≡ Stage.idle
      → length s.pushed < 2 ^ 31
      → claim_slot s.ring ≡ Claim.claimed ring
      → Step i s (record s { ring = ring; stage = Stage.owns_slot })
  write :
      (s : Sys) (bytes : List ℕ)
      → s.stage ≡ Stage.owns_slot
      → Step i s (record s { ring = write_slot bytes s.ring; stage = Stage.written })
  finish :
      (s : Sys)
      → s.stage ≡ Stage.written
      → Step i s (record s {
        ring = publish s.ring;
        stage = Stage.idle;
        pushed = s.pushed ++ ((ring_slot s.ring (u8 s.ring.write_cursor)).data_ ∷ []);
      })
  receive :
      (s : Sys) (bytes : List ℕ) (ring : Ring) (cursor : ℕ)
      → recv_slot s.ring (2 ^ i) s.read_cursor ≡ some (bytes, ring, cursor)
      → Step i s (record s { ring = ring; read_cursor = cursor; got = s.got ++ (bytes ∷ []) })
  other_release :
      (s : Sys) (conn_id idx : ℕ)
      → conn_id < 2 ^ 32
      → bit i conn_id ≡ 0
      → idx < ring_size
      → Step i s (record s { ring = release_slot s.ring conn_id idx })
  other_join :
      (s : Sys) (since conn_id : ℕ) (ring : Ring)
      → join_bit s.ring since ≡ some (conn_id, ring)
      → Step i s (record s { ring = ring })
  other_leave :
      (s : Sys) (conn_id : ℕ)
      → conn_id < 2 ^ 32
      → bit i conn_id ≡ 0
      → Step i s (record s { ring = leave s.ring conn_id })

pub data Run (i : ℕ) : Sys → Sys → Type 0 where
  done : (s : Sys) → Run i s s
  next : (s t u : Sys) → Run i s t → Step i t u → Run i s u

-- The ring's words are in range.
pub record IsRing (ring : Ring) : Type 0 where
  pub connections_lt : ring.connections < 2 ^ 32
  pub epoch_lt : ring.epoch < 2 ^ 64
  pub epoch_high : ring.epoch % 2 ^ 32 ≡ 0
  pub cursor_lt : ring.write_cursor < 2 ^ 32
  pub size : length ring.slots ≡ ring_size
  pub rc_lt : (idx : ℕ) → (ring_slot ring idx).rc_ < 2 ^ 64

-- Receiver `i` is connected and started to read at `since`.
pub record IsReader (i since : ℕ) (ring : Ring) : Type 0 where
  pub connected : bit i ring.connections ≡ 1
  pub owners : List SlotOwner
  pub table : ring.liveness ≡ some owners
  pub started : (owner_at owners i).since ≡ since

-- The slot carries the unread mark of `i` in the ring's epoch.
pub record IsMarked (i idx : ℕ) (ring : Ring) : Type 0 where
  pub marked : bit i (ring_slot ring idx).rc_ ≡ 1
  pub current : bit_and (ring_slot ring idx).rc_ (not64 ep_mask) ≡ ring.epoch

-- From `cursor` on, the ring holds `pending` for receiver `i`.
abbrev pub Holds : ℕ → Ring → ℕ → List (List ℕ) → Type 0
Holds i ring cursor pending =
    (k : ℕ) (bytes : List ℕ)
    → get_elem? pending k ≡ some bytes
    → IsMarked i ((cursor + k) % 2 ^ 8) ring
      × ((ring_slot ring ((cursor + k) % 2 ^ 8)).data_ ≡ bytes)

-- A slot that the sender has claimed is marked for `i`, and is none of those `i` has yet to read.
abbrev pub Claims : ℕ → Ring → List (List ℕ) → Stage → Type 0
Claims i ring pending Stage.idle = Unit
Claims i ring pending _ = (length pending < ring_size) × IsMarked i (ring.write_cursor % 2 ^ 8) ring

-- What is published and not received yet is `pending`, and the ring holds it.
pub record Waits (i since : ℕ) (s : Sys) (pending : List (List ℕ)) : Type 0 where
  pub ring_ok : IsRing s.ring
  pub reader : IsReader i since s.ring
  pub cursor_lt : s.read_cursor < 2 ^ 32
  pub since_lt : since < 2 ^ 32
  pub cursor_eq : s.read_cursor ≡ (since + length s.got) % 2 ^ 32
  pub write_eq : s.ring.write_cursor ≡ (s.read_cursor + length pending) % 2 ^ 32
  pub fits : length pending ≤ ring_size
  pub log : s.pushed ≡ s.got ++ pending
  pub holds : Holds i s.ring s.read_cursor pending
  pub claims : Claims i s.ring pending s.stage
