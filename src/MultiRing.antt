-- ===== src/MultiRing.antt =====
-- rust/thoth-ipc/src/channel.rs: the ring of a channel, with many writers and up to 32 receivers. A
-- slot carries a commit flag `f_ct_`: the complement of the position it was committed for, or the
-- position it is free for. Its `rc_` has the marks of the receivers in the low 32 bits, a generation
-- in the next 24 and the epoch in the top byte. The loads of one round of a loop and the
-- compare-exchange that ends it are one step; the calls between them interleave.
pub mod Words
pub mod Run
pub mod Frame
pub mod Marks
pub mod Keeps
pub mod Claim
pub mod Writers
pub mod Write
pub mod Commit
pub mod Readers
pub mod Delivery
pub mod Laps
mod Tests
use thoth_ipc.Base.{
  ℕ, zero, suc, ◌+◌, ◌-◌, ◌/◌, ◌^◌, bit_and, bit_or, Bool, true, false, not, ◌&&◌, ◌||◌, Option,
  none, some, List, [], ◌∷◌, ◌==◌, if◌then◌else◌, u8, u32, add32, add64, not32, not64, get_or, set,
  each_bit,
}
use thoth_ipc.Liveness.{ConnLiveness, set_since, live_marks, clear_owner, at_or_after}
use thoth_ipc.Route.{ring_size, claim_bit}

abbrev pub rc_mask : ℕ
rc_mask = 2 ^ 32 - 1

abbrev pub ch_ep_mask : ℕ
ch_ep_mask = 2 ^ 56 - 1

abbrev pub ch_ic_mask : ℕ
ch_ic_mask = 0xff000000ffffffff

abbrev pub ch_ic_incr : ℕ
ch_ic_incr = 2 ^ 32

unfoldable pub inc_rc : ℕ → ℕ
inc_rc rc = bit_or (bit_and rc ch_ic_mask) (bit_and (add64 rc ch_ic_incr) (not64 ch_ic_mask))

unfoldable pub inc_mask : ℕ → ℕ
inc_mask rc = bit_and (inc_rc rc) (not64 rc_mask)

pub record ChannelElemT : Type 0 where
  pub data_ : List ℕ
  pub rc_ : ℕ  -- u64
  pub f_ct_ : ℕ  -- u64

abbrev pub unused : ChannelElemT
unused = record { data_ = []; rc_ = 0; f_ct_ = 0 }

pub record ChannelRing : Type 0 where
  pub connections : ℕ  -- u32
  pub epoch : ℕ  -- u64
  pub write_cursor : ℕ  -- u32, the commit index `ct_`
  pub liveness : ConnLiveness
  pub slots : List ChannelElemT

abbrev pub channel_slot : ChannelRing → ℕ → ChannelElemT
channel_slot ring idx = get_or ring.slots idx unused

abbrev pub set_slot : ChannelRing → ℕ → ChannelElemT → ChannelRing
set_slot ring idx slot = record ring { slots = set ring.slots idx slot }

-- Drop the marks `id` of a slot; where none is left, the slot is free for the position `free`.
unfoldable pub clear_mark : ChannelRing → ℕ → ℕ → ℕ → ChannelRing
clear_mark ring idx id free =
    let slot = channel_slot ring idx in
    let nxt = bit_and (inc_rc slot.rc_) (not64 id) in
    set_slot ring idx
      (record slot { rc_ = nxt; f_ct_ = if bit_and nxt rc_mask == 0 then free else slot.f_ct_ })

unfoldable pub release_mark : ChannelRing → ℕ → ℕ → ℕ → ChannelRing
release_mark ring idx pos bit =
    let slot = channel_slot ring idx in
    if not (bit_and slot.rc_ bit == 0) && (slot.f_ct_ == not64 pos)
    then clear_mark ring idx bit (pos + ring_size)
    else ring

unfoldable pub release_stale_at : ChannelRing → ℕ → ℕ → ℕ → ChannelRing
release_stale_at ring since bit idx =
    let cur_fl = (channel_slot ring idx).f_ct_ in
    let pos = u32 (not64 cur_fl) in
    if not (cur_fl / 2 ^ 32 == 0xffffffff)
    then ring
    else if at_or_after pos since
    then ring
    else release_mark ring idx pos bit

-- `for idx in idx..idx + n`
unfoldable pub release_stale_from : ℕ → ℕ → ChannelRing → ℕ → ℕ → ChannelRing
release_stale_from zero idx ring since bit = ring
release_stale_from (suc n) idx ring since bit =
    release_stale_from n (suc idx) (release_stale_at ring since bit idx) since bit

unfoldable pub release_stale : ChannelRing → ℕ → ℕ → ChannelRing
release_stale ring since bit = release_stale_from ring_size 0 ring since bit

unfoldable pub commit_multi : ChannelRing → ℕ → ChannelRing
commit_multi ring pos =
    let idx = u8 pos in
    let slot = channel_slot ring idx in
    let committed = set_slot ring idx (record slot { f_ct_ = not64 pos }) in
    let marks = bit_and slot.rc_ rc_mask in
    let stale = bit_and marks (not64 (live_marks ring.liveness (u32 marks) pos)) in
    if marks == 0
    then committed
    else each_bit 32 (λ bit r. release_mark r idx pos bit) stale committed

pub data MultiClaim : Type 0 where
  no_receivers : MultiClaim
  must_wait : MultiClaim
  claimed : ChannelRing → MultiClaim
  -- the slot is stamped, but the epoch has moved since it was loaded
  stamped : ChannelRing → MultiClaim

-- One round of a writer's claim loop, with the epoch it has loaded.
unfoldable pub claim_multi : ChannelRing → ℕ → MultiClaim
claim_multi ring epoch =
    let cc = ring.connections in
    let cur_ct = ring.write_cursor in
    let slot = channel_slot ring (u8 cur_ct) in
    let rem_cc = bit_and slot.rc_ rc_mask in
    let desired = bit_or (inc_mask (bit_or epoch (bit_and slot.rc_ ch_ep_mask))) cc in
    let won = set_slot ring (u8 cur_ct) (record slot { rc_ = desired }) in
    if cc == 0
    then no_receivers
    else if not (bit_and cc rem_cc == 0) && (bit_and slot.rc_ (not64 ch_ep_mask) == epoch)
    then must_wait
    else if (rem_cc == 0) && (not (slot.f_ct_ == cur_ct) && not (slot.f_ct_ == 0))
    then must_wait
    else if ring.epoch == epoch
    then claimed won
    else stamped won

unfoldable pub advance_multi : ChannelRing → ℕ → ChannelRing
advance_multi ring claimed_ct = record ring { write_cursor = add32 claimed_ct 1 }

-- `slot.write_msg(…)`, which makes `data_` of what the slot held
unfoldable pub write_multi : List ℕ → ChannelRing → ℕ → ChannelRing
write_multi bytes ring claimed_ct =
    let idx = u8 claimed_ct in set_slot ring idx (record (channel_slot ring idx) { data_ = bytes })

-- A push with the rings that it finds at its later rounds; the deadline passes when they are over.
-- `none` is a push whose last claim met a moved epoch.
unfoldable pub push_fragment_multi :
    List ChannelRing → List ℕ → ChannelRing → ℕ → Option (Bool × ChannelRing)
push_fragment_multi [] bytes ring epoch = elim (claim_multi ring epoch) [
  | MultiClaim.no_receivers ↦ some (false, ring)
  | MultiClaim.must_wait ↦ some (false, ring)
  | MultiClaim.claimed won ↦
      let ct = ring.write_cursor in
      some (true, commit_multi (write_multi bytes (advance_multi won ct) ct) ct)
  | MultiClaim.stamped won ↦ none
]
push_fragment_multi (later ∷ polls) bytes ring epoch = elim (claim_multi ring epoch) [
  | MultiClaim.no_receivers ↦ some (false, ring)
  | MultiClaim.must_wait ↦ push_fragment_multi polls bytes later epoch
  | MultiClaim.claimed won ↦
      let ct = ring.write_cursor in
      some (true, commit_multi (write_multi bytes (advance_multi won ct) ct) ct)
  | MultiClaim.stamped won ↦ push_fragment_multi polls bytes later ring.epoch
]

-- The position that the slot of `cur` is free for once its last reader has left it
unfoldable pub free_flag : ℕ → ℕ
free_flag cur = add32 cur 1 + (ring_size - 1)

unfoldable pub release_multi : ChannelRing → ℕ → ℕ → ChannelRing
release_multi ring conn_id cur =
    let idx = u8 cur in
    let slot = channel_slot ring idx in
    if bit_and slot.rc_ rc_mask == 0
    then set_slot ring idx (record slot { f_ct_ = free_flag cur })
    else clear_mark ring idx conn_id (free_flag cur)

-- One round of the receiver's loop: the slot it reads, then the ring and the cursor after it.
unfoldable pub recv_slot_multi : ChannelRing → ℕ → ℕ → Option (List ℕ × ChannelRing × ℕ)
recv_slot_multi ring conn_id cur =
    let slot = channel_slot ring (u8 cur) in
    if not (slot.f_ct_ == not64 cur)
    then none
    else some (slot.data_, release_multi ring conn_id cur, add32 cur 1)

-- A receiver that loaded the write cursor `since` joins: it claims a bit, records where it starts
-- and drops what a previous owner of the bit left unread.
abbrev pub joined_multi : ChannelRing → ℕ → Option (ℕ × ℕ) → Option (ℕ × ChannelRing)
joined_multi ring since none = none
joined_multi ring since (some (next, conn_id)) =
    let in_table = record ring {
      connections = next;
      liveness = set_since ring.liveness conn_id since;
    } in
    some (conn_id, release_stale in_table since conn_id)

unfoldable pub join_multi : ChannelRing → ℕ → Option (ℕ × ChannelRing)
join_multi ring since = joined_multi ring since (claim_bit ring.connections)

unfoldable pub leave_multi : ChannelRing → ℕ → ChannelRing
leave_multi ring conn_id = record ring {
  connections = bit_and ring.connections (not32 conn_id);
  liveness = clear_owner ring.liveness conn_id;
}
