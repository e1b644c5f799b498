-- ===== src/Route.antt =====
-- rust/thoth-ipc/src/channel.rs: the ring of a route, with one sender and up to 32 receivers. A slot
-- carries the marks of the receivers that owe a read (low 32 bits of `rc`) and the epoch of its
-- write (high 32 bits). The loads of one round of a loop and the compare-exchange that ends it are
-- one step; the calls between the steps of one party interleave with those of the others.
pub mod Words
pub mod Run
pub mod Frame
pub mod Sender
pub mod Push
pub mod Commit
pub mod Readers
pub mod Receive
pub mod Peers
pub mod Evict
pub mod Timeout
pub mod Adopt
pub mod Delivery
mod Tests
use thoth_ipc.Base.{
  ℕ, zero, suc, ◌+◌, ◌-◌, ◌^◌, bit_and, bit_or, bit_xor, Bool, true, false, not, ◌&&◌, Option, none,
  some, List, [], ◌∷◌, ◌==◌, if◌then◌else◌, u8, u32, u64, add32, sub32, not32, not64, get_or, set,
}
use thoth_ipc.Liveness.{ConnLiveness, set_since, live_marks, clear_owner}

abbrev pub ring_size : ℕ
ring_size = 256

abbrev pub ring_lap : ℕ
ring_lap = 256

-- `EP_MASK` and `EP_INCR`
abbrev pub ep_mask : ℕ
ep_mask = 2 ^ 32 - 1

abbrev pub ep_incr : ℕ
ep_incr = 2 ^ 32

pub record ElemT : Type 0 where
  pub data_ : List ℕ
  pub rc_ : ℕ  -- u64

abbrev pub blank : ElemT
blank = record { data_ = []; rc_ = 0 }

pub record Ring : Type 0 where
  pub connections : ℕ  -- u32
  pub epoch : ℕ  -- u64
  pub write_cursor : ℕ  -- u32
  pub liveness : ConnLiveness
  pub slots : List ElemT

abbrev pub ring_slot : Ring → ℕ → ElemT
ring_slot ring idx = get_or ring.slots idx blank

-- `slot.rc_.store(rc)`
abbrev pub set_rc : Ring → ℕ → ℕ → Ring
set_rc ring idx rc = record ring {
  slots = set ring.slots idx (record (ring_slot ring idx) { rc_ = rc });
}

-- A live reader still owes a read of the slot in the current epoch.
unfoldable pub is_busy : Ring → ℕ → ℕ → ℕ → Bool
is_busy ring cc cur_rc prev =
    let rem_cc = bit_and cur_rc ep_mask in
    not (bit_and cc rem_cc == 0)
    && ((bit_and cur_rc (not64 ep_mask) == ring.epoch)
        && not (live_marks ring.liveness (u32 (bit_and cc rem_cc)) prev == 0))

pub data Claim : Type 0 where
  no_receivers : Claim
  must_wait : Claim
  claimed : Ring → Claim

-- One round of the sender's claim loop.
unfoldable pub claim_slot : Ring → Claim
claim_slot ring =
    let cc = ring.connections in
    let wt = ring.write_cursor in
    let cur_rc = (ring_slot ring (u8 wt)).rc_ in
    if cc == 0
    then no_receivers
    else if is_busy ring cc cur_rc (sub32 wt ring_lap)
    then must_wait
    else claimed (set_rc ring (u8 wt) (bit_or ring.epoch cc))

-- The timeout of the wait for a busy slot: `false` where no receiver is left. The changes of the
-- epoch, the connections and the slot are one step, and `cc` is the mask of that moment, where the
-- source keeps the one that it loaded before the wait.
unfoldable pub force_push : Ring → Bool × Ring
force_push ring =
    let cc = ring.connections in
    let wt = ring.write_cursor in
    let cur_rc = (ring_slot ring (u8 wt)).rc_ in
    let bumped = record ring { epoch = u64 (ring.epoch + ep_incr) } in
    let marks = bit_and (bit_and cur_rc ep_mask) cc in
    let rem2 = live_marks ring.liveness (u32 marks) (sub32 wt ring_lap) in
    let new_cc = bit_and cc (not32 rem2) in
    if rem2 == 0
    then (true, bumped)
    else if new_cc == 0
    then (false, record bumped { connections = new_cc })
    else (
      true,
      set_rc (record bumped { connections = new_cc }) (u8 wt) (bit_and cur_rc (not64 rem2)),
    )

-- `slot.write_msg(…)`, which makes `data_` of what the slot held
unfoldable pub write_slot : List ℕ → Ring → Ring
write_slot bytes ring =
    let idx = u8 ring.write_cursor in
    record ring { slots = set ring.slots idx (record (ring_slot ring idx) { data_ = bytes }) }

unfoldable pub publish : Ring → Ring
publish ring = record ring { write_cursor = add32 ring.write_cursor 1 }

-- What a wait for a slot comes to: whether the slot came free in time, and the ring then.
pub record Waited : Type 0 where
  pub ok : Bool
  pub after : Ring

-- A push: the claim loop, then the write and the publication. `none` is a push that still waits when
-- the waits given are over.
unfoldable pub push_fragment : List Waited → List ℕ → Ring → Option (Bool × Ring)
push_fragment [] bytes ring = elim (claim_slot ring) [
  | Claim.no_receivers ↦ some (false, ring)
  | Claim.must_wait ↦ none
  | Claim.claimed owned ↦ some (true, publish (write_slot bytes owned))
]
push_fragment (w ∷ waits) bytes ring = elim (claim_slot ring) [
  | Claim.no_receivers ↦ some (false, ring)
  | Claim.must_wait ↦ elim w.ok [
    | true ↦ push_fragment waits bytes w.after
    | false ↦
        let forced = force_push w.after in
        elim forced.0 [ true ↦ push_fragment waits bytes forced.1 | false ↦ some (false, forced.1) ]
  ]
  | Claim.claimed owned ↦ some (true, publish (write_slot bytes owned))
]

unfoldable pub release_slot : Ring → ℕ → ℕ → Ring
release_slot ring conn_id idx =
    let cur_rc = (ring_slot ring idx).rc_ in
    if bit_and cur_rc ep_mask == 0 then ring else set_rc ring idx (bit_and cur_rc (not64 conn_id))

-- One round of the receiver's loop: the slot it reads, then the ring and the cursor after it.
unfoldable pub recv_slot : Ring → ℕ → ℕ → Option (List ℕ × Ring × ℕ)
recv_slot ring conn_id read_cursor =
    let idx = u8 read_cursor in
    if ring.write_cursor == read_cursor
    then none
    else some ((ring_slot ring idx).data_, release_slot ring conn_id idx, add32 read_cursor 1)

-- `curr | (curr + 1)` sets the lowest bit that is clear; where none is, nothing changes.
unfoldable pub claim_bit : ℕ → Option (ℕ × ℕ)
claim_bit curr =
    let next = bit_or curr (add32 curr 1) in
    if next == curr then none else some (next, bit_xor next curr)

-- The walk back from the write cursor over what already carries the mark of this receiver
unfoldable pub adopt_from : ℕ → Ring → ℕ → ℕ → ℕ → ℕ
adopt_from zero ring since bit cur = cur
adopt_from (suc n) ring since bit cur =
    let rc = (ring_slot ring (u8 (sub32 cur 1))).rc_ in
    let rest = adopt_from n ring since bit (sub32 cur 1) in
    if cur == since
    then cur
    else if bit_and rc bit == 0
    then cur
    else if not (bit_and rc (not64 ep_mask) == ring.epoch)
    then cur
    else rest

unfoldable pub adopt_cursor : Ring → ℕ → ℕ → ℕ
adopt_cursor ring since bit = adopt_from ring_size ring since bit ring.write_cursor

-- A receiver that loaded the write cursor `since` joins with the bit it has claimed.
abbrev pub joined : Ring → ℕ → Option (ℕ × ℕ) → Option (ℕ × Ring)
joined ring since none = none
joined ring since (some (next, conn_id)) =
    some (
      conn_id,
      record ring { connections = next; liveness = set_since ring.liveness conn_id since },
    )

unfoldable pub join_bit : Ring → ℕ → Option (ℕ × Ring)
join_bit ring since = joined ring since (claim_bit ring.connections)

-- A receiver leaves.
unfoldable pub leave : Ring → ℕ → Ring
leave ring conn_id = record ring {
  connections = bit_and ring.connections (not32 conn_id);
  liveness = clear_owner ring.liveness conn_id;
}
