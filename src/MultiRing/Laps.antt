-- ===== src/MultiRing/Laps.antt =====
-- A writer's claim of a slot that its last receiver has left.
use thoth_ipc.Base.{
  ℕ, ◌+◌, ◌-◌, ◌^◌, ◌≤◌, ◌<◌, ◌≡◌, ◌≢◌, ◌⊎◌, inl, inr, refl, sym, ap, subst, ◌∙◌, arith, not, ◌&&◌,
  ◌==◌, ==_self, ==_ne, if◌then◌else◌, u8, bit_and, bit_or, not64, length, ℕ_discrete,
}
use thoth_ipc.Base.Bits.{
  bit, bit-le, bit-zero, bit-and, bit-or, bit-not, bit-mask_low, eq_of_bits, bit_and-zero,
  bit_and-low_mask,
}
use thoth_ipc.Route.{ring_size}
use thoth_ipc.MultiRing.{
  ChannelElemT, ChannelRing, MultiClaim, rc_mask, ch_ep_mask, channel_slot, set_slot, claim_multi,
  inc_rc, inc_mask, clear_mark, free_flag, release_multi,
}
use thoth_ipc.MultiRing.Words.{bit-inc_rc_low, bit-marks, stamp}
use thoth_ipc.MultiRing.Frame.{slot-set_self, slot-set_ne}

-- No receiver has a mark on the slot of the commit index, and the flag is the one that the last
-- release of position `cur` has left.
pub record IsFreed (ring : ChannelRing) (cur : ℕ) : Type 0 where
  pub no_marks : bit_and (channel_slot ring (u8 ring.write_cursor)).rc_ rc_mask ≡ 0
  pub flag : (channel_slot ring (u8 ring.write_cursor)).f_ct_ ≡ free_flag cur

-- A slot without marks is claimed where its flag is the commit index or 0.
unmarked_claim :
    (ring : ChannelRing)
    → bit_and (channel_slot ring (u8 ring.write_cursor)).rc_ rc_mask ≡ 0
    → ring.connections ≢ 0
    → claim_multi ring ring.epoch ≡ (
        let slot = channel_slot ring (u8 ring.write_cursor) in
        if not (slot.f_ct_ == ring.write_cursor) && not (slot.f_ct_ == 0)
        then MultiClaim.must_wait
        else MultiClaim.claimed (
            set_slot ring (u8 ring.write_cursor) (record slot {
              rc_ =
                  bit_or
                    (inc_mask (bit_or ring.epoch (bit_and slot.rc_ ch_ep_mask)))
                    ring.connections;
            })))
unfolding claim_multi
unmarked_claim ring h c =
    let b1 = ==_ne ring.connections 0 c in
    let b2 = bit_and-zero ring.connections in rw (b1, h, b2, ==_self ring.epoch) refl

-- No mark is left once that of the last receiver is dropped.
last_mark :
    (rc id : ℕ)
    → id < 2 ^ 32
    → bit_and (bit_and rc rc_mask) (not64 id) ≡ 0
    → bit_and (bit_and (inc_rc rc) (not64 id)) rc_mask ≡ 0
last_mark rc id hid only =
    eq_of_bits 32 (bit_and (bit_and (inc_rc rc) (not64 id)) rc_mask) 0
      (omega (arith, bit_and-low_mask 32 (bit_and (inc_rc rc) (not64 id)))) (omega arith)
      (λ i hi. omega (
        arith,
        bit-marks (bit_and (inc_rc rc) (not64 id)) i hi,
        bit-and i (inc_rc rc) (not64 id),
        bit-inc_rc_low rc i hi,
        bit-marks rc i hi,
        sym (bit-and i (bit_and rc rc_mask) (not64 id)) ∙ ap (bit i) only,
        bit-zero i,
      ))

-- The low half of a stamp is what is connected.
stamp_marks : (epoch rc cc i : ℕ) → i < 32 → bit i (stamp epoch rc cc) ≡ bit i cc
unfolding inc_mask
stamp_marks epoch rc cc i hi =
    let old = bit_or epoch (bit_and rc ch_ep_mask) in
    omega (
      arith,
      bit-or i (bit_and (inc_rc old) (not64 rc_mask)) cc,
      bit-and i (inc_rc old) (not64 rc_mask),
      bit-not 64 i rc_mask (omega arith) (omega arith),
      bit-mask_low 32 i hi,
      bit-le i cc,
    )

-- The release by the one receiver whose mark is left frees the slot.
release_multi-IsFreed :
    (ring : ChannelRing) (conn_id cur : ℕ)
    → length ring.slots ≡ ring_size
    → conn_id < 2 ^ 32
    → bit_and (bit_and (channel_slot ring (u8 cur)).rc_ rc_mask) (not64 conn_id) ≡ 0
    → (let slot = channel_slot (release_multi ring conn_id cur) (u8 cur) in
        (bit_and slot.rc_ rc_mask ≡ 0) × (slot.f_ct_ ≡ free_flag cur))
unfolding release_multi clear_mark
release_multi-IsFreed ring conn_id cur size hid only =
    let slot = channel_slot ring (u8 cur) in
    elim (ℕ_discrete (bit_and slot.rc_ rc_mask) 0) [
      | yes z ↦
          rw
            (
              z,
              slot-set_self ring (u8 cur) (record slot { f_ct_ = free_flag cur }) size
                  (omega arith),
            )
            (z, refl)
      | no ne ↦
          let nxt = bit_and (inc_rc slot.rc_) (not64 conn_id) in
          let left : bit_and (bit_and (inc_rc slot.rc_) (not64 conn_id)) rc_mask ≡ 0 =
            last_mark slot.rc_ conn_id hid only in
          rw
            (
              ==_ne (bit_and slot.rc_ rc_mask) 0 ne,
              left,
              slot-set_self ring (u8 cur) (record slot { rc_ = nxt; f_ct_ = free_flag cur }) size
                  (omega arith),
            )
            (left, refl)
    ]

-- `won` is `ring` with its claimed slot stamped: the marks are those of all that are connected.
pub record IsClaimed (ring won : ChannelRing) : Type 0 where
  pub marks :
      (i : ℕ)
      → i < 32
      → bit i (channel_slot won (u8 ring.write_cursor)).rc_ ≡ bit i ring.connections
  pub same_data :
      (channel_slot won (u8 ring.write_cursor)).data_
      ≡ (channel_slot ring (u8 ring.write_cursor)).data_
  pub others : (j : ℕ) → u8 ring.write_cursor ≢ j → channel_slot won j ≡ channel_slot ring j
  pub same_cursor : won.write_cursor ≡ ring.write_cursor

stamped_ring : ChannelRing → ChannelRing
stamped_ring ring =
    let slot = channel_slot ring (u8 ring.write_cursor) in
    set_slot ring (u8 ring.write_cursor)
      (record slot { rc_ = stamp ring.epoch slot.rc_ ring.connections })

stamped_ring-IsClaimed :
    (ring : ChannelRing) → length ring.slots ≡ ring_size → IsClaimed ring (stamped_ring ring)
unfolding stamped_ring
stamped_ring-IsClaimed ring size =
    let slot = channel_slot ring (u8 ring.write_cursor) in
    let now =
      slot-set_self ring (u8 ring.write_cursor)
        (record slot { rc_ = stamp ring.epoch slot.rc_ ring.connections }) size (omega arith) in
    record {
      marks = λ i hi.
          ap (λ (c : ChannelElemT). bit i c.rc_) now
          ∙ stamp_marks ring.epoch slot.rc_ ring.connections i hi;
      same_data = ap (λ (c : ChannelElemT). c.data_) now;
      others = λ j ne.
          slot-set_ne ring (record slot { rc_ = stamp ring.epoch slot.rc_ ring.connections }) ne;
      same_cursor = refl;
    }

lap_claim :
    (ring : ChannelRing) (cur : ℕ)
    → bit_and (channel_slot ring (u8 ring.write_cursor)).rc_ rc_mask ≡ 0
    → (channel_slot ring (u8 ring.write_cursor)).f_ct_ ≡ free_flag cur
    → cur < 2 ^ 32 - 1
    → ring.connections ≢ 0
    → ring.write_cursor ≡ cur + ring_size
    → claim_multi ring ring.epoch ≡ MultiClaim.claimed (stamped_ring ring)
unfolding free_flag stamped_ring
lap_claim ring cur no_marks flag hc c e =
    let same : (channel_slot ring (u8 ring.write_cursor)).f_ct_ ≡ ring.write_cursor =
      flag ∙ omega (arith, e, hc) in
    unmarked_claim ring no_marks c ∙ rw (same, ==_self ring.write_cursor) refl

lap_waits :
    (ring : ChannelRing) (cur : ℕ)
    → bit_and (channel_slot ring (u8 ring.write_cursor)).rc_ rc_mask ≡ 0
    → (channel_slot ring (u8 ring.write_cursor)).f_ct_ ≡ free_flag cur
    → cur < 2 ^ 32 - 1
    → ring.connections ≢ 0
    → ring.write_cursor ≢ cur + ring_size
    → claim_multi ring ring.epoch ≡ MultiClaim.must_wait
unfolding free_flag
lap_waits ring cur no_marks flag hc c ne =
    let fl = (channel_slot ring (u8 ring.write_cursor)).f_ct_ in
    let b1 = ==_ne fl ring.write_cursor (λ e. ne (omega (arith, flag, hc, e))) in
    let b2 = ==_ne fl 0 (λ e. omega (arith, flag, e)) in
    unmarked_claim ring no_marks c ∙ rw (b1, b2) refl

-- The last receiver with a mark on the slot of position `cur`, below 2^32 - 1, releases it, and
-- later the commit index of writers comes to that slot, as it was left, with receivers connected.
-- At the next lap, `cur + 256`, the claim is won, and stamps that slot alone with the marks of all
-- that are connected; at any other index the writer has to wait.
pub claim-next_lap :
    (ring later : ChannelRing) (conn_id cur : ℕ)
    → length ring.slots ≡ ring_size
    → length later.slots ≡ ring_size
    → conn_id < 2 ^ 32
    → cur < 2 ^ 32 - 1
    → bit_and (bit_and (channel_slot ring (u8 cur)).rc_ rc_mask) (not64 conn_id) ≡ 0
    → channel_slot later (u8 cur) ≡ channel_slot (release_multi ring conn_id cur) (u8 cur)
    → later.connections ≢ 0
    → u8 later.write_cursor ≡ u8 cur
    → ((later.write_cursor ≡ cur + ring_size)
        × ((won : ChannelRing) × (claim_multi later later.epoch ≡ MultiClaim.claimed won)
            × IsClaimed later won))
      ⊎ ((later.write_cursor ≢ cur + ring_size)
          × (claim_multi later later.epoch ≡ MultiClaim.must_wait))
claim-next_lap ring later conn_id cur size size' hid hc only left c at =
    let (no_marks, flag) =
      subst (λ (q : ChannelElemT). (bit_and q.rc_ rc_mask ≡ 0) × (q.f_ct_ ≡ free_flag cur))
        (sym left ∙ ap (channel_slot later) (sym at))
        (release_multi-IsFreed ring conn_id cur size hid only) in
    elim (ℕ_discrete later.write_cursor (cur + ring_size)) [
      | yes e ↦ inl (
        e,
        (
          stamped_ring later,
          lap_claim later cur no_marks flag hc c e,
          stamped_ring-IsClaimed later size',
        ),
      )
      | no ne ↦ inr (ne, lap_waits later cur no_marks flag hc c ne)
    ]

-- A slot that the last receiver left at one of the 255 positions from 2^32 - 256 on is claimed at
-- no 32-bit commit index: the flag that the release leaves is 2^32 or more.
pub claim-wrap_stalls :
    (ring : ChannelRing) (cur : ℕ)
    → IsFreed ring cur
    → ring.connections ≢ 0
    → 2 ^ 32 - ring_size ≤ cur
    → cur < 2 ^ 32 - 1
    → ring.write_cursor < 2 ^ 32
    → claim_multi ring ring.epoch ≡ MultiClaim.must_wait
claim-wrap_stalls ring cur f c lo up lt =
    lap_waits ring cur f.no_marks f.flag (omega arith) c (λ e. omega (arith, e))
