-- ===== src/ShmRing/Operations.antt =====
-- Each operation of the ring does to the queue what a bounded queue does.
use thoth_ipc.Base.{
  ℕ, suc, ◌+◌, ◌^◌, ◌%◌, ◌≤◌, ◌<◌, ◌≡◌, ◌⊎◌, inl, inr, refl, ap, ◌∙◌, arith, dec_lt, true, false,
  some, none, List, [], ◌∷◌, ◌++◌, leb, ◌==◌, if◌then◌else◌, add64, sub64, length, length-append,
  length-set, length-replicate, get_elem?, set, drop,
}
use native.Mathlib.Nat.{one-le-pow}
use thoth_ipc.ShmRing.{
  ShmRing, capacity, slot_ptr, construct, write_slot, write_commit, write, write_overwrite,
  read_slot, read_commit, read, available, is_empty, is_full,
}
use thoth_ipc.ShmRing.Queue.{slot_ptr_lem, Items, IsQueue, Items-push, count_lem}

lower_is_leb : (a b : ℕ) → a ≤ b → leb a b ≡ true
lower_is_leb a b h = ground arith

higher_is_not_leb : (a b : ℕ) → b < a → leb a b ≡ false
higher_is_not_leb a b h = ground arith

module _ {ℓ} {A : Type ℓ} (k : ℕ) where
  put-Items :
      (ring : ShmRing A) (queue : List A) (item : A)
      → IsQueue k ring queue
      → length queue < capacity k
      → Items k
          (set ring.slots (slot_ptr k ring.write_idx) item)
          ring.read_idx
          (queue ++ (item ∷ []))
  put-Items ring queue item q room =
      let here : slot_ptr k ring.write_idx ≡ (ring.read_idx + length queue) % capacity k =
        slot_ptr_lem k ring.write_idx ∙ ap (λ (x : ℕ). x % capacity k) q.write_eq in
      rw here (Items-push k ring.slots ring.read_idx item queue q.size room q.items)

  put-IsQueue :
      (ring : ShmRing A) (queue : List A) (item : A)
      → IsQueue k ring queue
      → length queue < capacity k
      → ring.write_idx + 1 < 2 ^ 64
      → IsQueue k
          (record ring {
            slots = set ring.slots (slot_ptr k ring.write_idx) item;
            write_idx = add64 ring.write_idx 1;
          })
          (queue ++ (item ∷ []))
  put-IsQueue ring queue item q room early = record {
    size = length-set ring.slots (slot_ptr k ring.write_idx) item ∙ q.size;
    write_eq = omega (arith, q.write_eq, length-append queue (item ∷ []), early);
    write_lt = omega (arith, early);
    fits = omega (arith, length-append queue (item ∷ []), room);
    items = put-Items ring queue item q room;
  }

  write_room :
      (ring : ShmRing A) (queue : List A) (item : A)
      → IsQueue k ring queue
      → length queue < capacity k
      → write k ring item ≡ (
        true,
        record ring {
          slots = set ring.slots (slot_ptr k ring.write_idx) item;
          write_idx = add64 ring.write_idx 1;
        },
      )
  unfolding write write_slot write_commit
  write_room ring queue item q room =
      let count : sub64 ring.write_idx ring.read_idx ≡ length queue =
        omega (arith, q.write_eq, q.write_lt) in
      let slot : write_slot k ring ≡ some (slot_ptr k ring.write_idx) =
        rw (count, higher_is_not_leb (capacity k) (length queue) room) refl in
      rw (slot, write) refl

  write_full :
      (ring : ShmRing A) (queue : List A) (item : A)
      → IsQueue k ring queue
      → length queue ≡ capacity k
      → write k ring item ≡ (false, ring)
  unfolding write write_slot
  write_full ring queue item q full =
      let count : sub64 ring.write_idx ring.read_idx ≡ length queue =
        omega (arith, q.write_eq, q.write_lt) in
      let slot : write_slot k ring ≡ none =
        rw (count, lower_is_leb (capacity k) (length queue) (omega (arith, full))) refl in
      rw (slot, write) refl

  read_empty : (ring : ShmRing A) → ring.write_idx ≤ ring.read_idx → read k ring ≡ (none, ring)
  unfolding read read_slot
  read_empty ring h =
      let slot : read_slot k ring ≡ none = rw (lower_is_leb ring.write_idx ring.read_idx h) refl in
      rw (slot, read) refl

  read_item :
      (ring : ShmRing A)
      → ring.read_idx < ring.write_idx
      → read k ring ≡ (
        get_elem? ring.slots (slot_ptr k ring.read_idx),
        record ring { read_idx = add64 ring.read_idx 1 },
      )
  unfolding read read_slot read_commit
  read_item ring h =
      let slot : read_slot k ring ≡ some (slot_ptr k ring.read_idx) =
        rw (higher_is_not_leb ring.write_idx ring.read_idx h) refl in
      rw (slot, read) refl

  -- Before the write index comes to its last value: a write to a ring with room puts the item at the
  -- end of the queue; a write to a full ring answers `false` and changes nothing.
  pub write-IsQueue :
      (ring : ShmRing A) (queue : List A) (item : A)
      → IsQueue k ring queue
      → ring.write_idx + 1 < 2 ^ 64
      → ((length queue < capacity k)
          × ((write k ring item).0 ≡ true)
          × IsQueue k (write k ring item).1 (queue ++ (item ∷ [])))
        ⊎ ((length queue ≡ capacity k) × (write k ring item ≡ (false, ring)))
  write-IsQueue ring queue item q early = elim (dec_lt (length queue) (capacity k)) [
    | yes room ↦
        let e = write_room ring queue item q room in
        inl (room, rw e refl, rw e (put-IsQueue ring queue item q room early))
    | no full ↦
        let at_capacity : length queue ≡ capacity k = omega (arith, q.fits) in
        inr (at_capacity, write_full ring queue item q at_capacity)
  ]

  -- A read of an empty ring finds nothing and changes nothing; any other takes the oldest item.
  abbrev pub Reads : ShmRing A → List A → Type ℓ
  Reads ring [] = read k ring ≡ (none, ring)
  Reads ring (x ∷ xs) = ((read k ring).0 ≡ some x) × IsQueue k (read k ring).1 xs

  drop_oldest :
      (ring : ShmRing A) (x : A) (xs : List A)
      → IsQueue k ring (x ∷ xs)
      → IsQueue k (record ring { read_idx = add64 ring.read_idx 1 }) xs
  drop_oldest ring x xs q =
      let next : add64 ring.read_idx 1 ≡ suc ring.read_idx =
        omega (arith, q.write_eq, q.write_lt) in
      rw next (record {
        size = q.size;
        write_eq = omega (arith, q.write_eq);
        write_lt = q.write_lt;
        fits = omega (arith, q.fits);
        items = q.items.1;
      })

  overwrite_full :
      (ring : ShmRing A) (queue : List A) (item : A)
      → IsQueue k ring queue
      → ring.write_idx + 1 < 2 ^ 64
      → capacity k ≤ length queue
      → IsQueue k
          (record ring {
            read_idx = add64 ring.read_idx 1;
            slots = set ring.slots (slot_ptr k ring.write_idx) item;
            write_idx = add64 ring.write_idx 1;
          })
          (drop 1 queue ++ (item ∷ []))
  overwrite_full ring [] item q early full =
      absurd (omega (arith, full, one-le-pow k 2 (omega arith)))
  overwrite_full ring (x ∷ xs) item q early full =
      put-IsQueue (record ring { read_idx = add64 ring.read_idx 1 }) xs item
        (drop_oldest ring x xs q) (omega (arith, q.fits)) early

  -- On a ring that holds a queue, a read takes the oldest item, and finds nothing where there is none.
  pub read-IsQueue : (ring : ShmRing A) (queue : List A) → IsQueue k ring queue → Reads ring queue
  read-IsQueue ring [] q = read_empty ring (omega (arith, q.write_eq))
  read-IsQueue ring (x ∷ xs) q =
      let e = read_item ring (omega (arith, q.write_eq)) in
      (rw (e, slot_ptr_lem k ring.read_idx) q.items.0, rw e (drop_oldest ring x xs q))

  -- Before the write index comes to its last value, `write_overwrite` puts the item at the end of the
  -- queue, and drops the oldest first where the ring is full.
  pub write_overwrite-IsQueue :
      (ring : ShmRing A) (queue : List A) (item : A)
      → IsQueue k ring queue
      → ring.write_idx + 1 < 2 ^ 64
      → IsQueue k
          (write_overwrite k ring item)
          ((if leb (capacity k) (length queue) then drop 1 queue else queue) ++ (item ∷ []))
  unfolding write_overwrite
  write_overwrite-IsQueue ring queue item q early =
      let count : sub64 ring.write_idx ring.read_idx ≡ length queue =
        omega (arith, q.write_eq, q.write_lt) in
      elim (dec_lt (length queue) (capacity k)) [
        | yes room ↦
            rw (count, higher_is_not_leb (capacity k) (length queue) room)
              (put-IsQueue ring queue item q room early)
        | no full ↦
            rw (count, lower_is_leb (capacity k) (length queue) (omega arith))
              (overwrite_full ring queue item q early (omega (arith, full)))
      ]

  -- The status calls answer the length of the queue, whether it is 0, and whether it is the capacity.
  pub status-IsQueue :
      (ring : ShmRing A) (queue : List A)
      → IsQueue k ring queue
      → (available k ring ≡ length queue)
        × (is_empty k ring ≡ (length queue == 0))
        × (is_full k ring ≡ leb (capacity k) (length queue))
  unfolding is_empty is_full
  status-IsQueue ring queue q =
      let count = count_lem k ring queue q in
      (count, ap (λ (n : ℕ). n == 0) count, ap (λ (n : ℕ). leb (capacity k) n) count)

  -- A segment that nobody has set up becomes an empty queue.
  pub construct-IsQueue :
      (ring : ShmRing A) (zeroed : A)
      → ring.constructed ≡ false
      → IsQueue k (construct k zeroed ring) []
  unfolding construct
  construct-IsQueue ring zeroed h = rw h (record {
    size = length-replicate (capacity k) zeroed;
    write_eq = refl;
    write_lt = omega arith;
    fits = omega arith;
    items = tt;
  })
