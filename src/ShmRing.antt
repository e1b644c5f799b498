-- ===== src/ShmRing.antt =====
-- rust/thoth-ipc/src/proto/shm_ring.rs: the ring of one producer and one consumer in shared memory.
-- `k` is the exponent of the capacity, `N` = 2^k, and `A` the type of an item. Each operation of the
-- producer or of the consumer is one step.
pub mod Queue
pub mod Operations
mod Tests
use thoth_ipc.Base.{
  ℕ, ◌-◌, ◌^◌, bit_and, Bool, true, false, Option, some, none, List, leb, ◌==◌, if◌then◌else◌,
  add64, sub64, get_elem?, set, replicate,
}

pub record ShmRing {ℓ} (A : Type ℓ) : Type ℓ where
  pub write_idx : ℕ  -- u64
  pub read_idx : ℕ  -- u64
  pub constructed : Bool
  pub slots : List A

abbrev pub capacity : ℕ → ℕ
capacity k = 2 ^ k

-- The slot that an index stands for: `(idx & MASK) as usize`.
abbrev pub slot_ptr : ℕ → ℕ → ℕ
slot_ptr k idx = bit_and idx (capacity k - 1)

module _ {ℓ} {A : Type ℓ} (k : ℕ) where
  -- What `open_or_create` does to the segment it has mapped: `zeroed` is an item of zero bytes.
  unfoldable pub construct : A → ShmRing A → ShmRing A
  construct zeroed ring = if ring.constructed then ring else record {
    write_idx = 0;
    read_idx = 0;
    constructed = true;
    slots = replicate (capacity k) zeroed;
  }

  -- The index of the slot to fill
  unfoldable pub write_slot : ShmRing A → Option ℕ
  write_slot ring =
      if leb (capacity k) (sub64 ring.write_idx ring.read_idx)
      then none
      else some (slot_ptr k ring.write_idx)

  unfoldable pub write_commit : ShmRing A → ShmRing A
  write_commit ring = record ring { write_idx = add64 ring.write_idx 1 }

  unfoldable pub write : ShmRing A → A → Bool × ShmRing A
  write ring item = elim (write_slot ring) [
    | none ↦ (false, ring)
    | some slot ↦ (true, write_commit (record ring { slots = set ring.slots slot item }))
  ]

  unfoldable pub write_overwrite : ShmRing A → A → ShmRing A
  write_overwrite ring item =
      let w = ring.write_idx in
      let r = ring.read_idx in
      record ring {
        read_idx = if leb (capacity k) (sub64 w r) then add64 r 1 else r;
        slots = set ring.slots (slot_ptr k w) item;
        write_idx = add64 w 1;
      }

  unfoldable pub read_slot : ShmRing A → Option ℕ
  read_slot ring =
      if leb ring.write_idx ring.read_idx then none else some (slot_ptr k ring.read_idx)

  unfoldable pub read_commit : ShmRing A → ShmRing A
  read_commit ring = record ring { read_idx = add64 ring.read_idx 1 }

  -- `none` is `false`: `out` is left as it was.
  unfoldable pub read : ShmRing A → Option A × ShmRing A
  read ring = elim (read_slot ring) [
    | none ↦ (none, ring)
    | some slot ↦ (get_elem? ring.slots slot, read_commit ring)
  ]

  unfoldable pub available : ShmRing A → ℕ
  available ring = sub64 ring.write_idx ring.read_idx

  unfoldable pub is_empty : ShmRing A → Bool
  is_empty ring = available ring == 0

  unfoldable pub is_full : ShmRing A → Bool
  is_full ring = leb (capacity k) (available ring)
