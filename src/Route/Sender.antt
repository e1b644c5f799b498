-- ===== src/Route/Sender.antt =====
-- The sender's steps: what each does to the ring.
use thoth_ipc.Base.{
  ==_ne, ==_self, ℕ, ◌<◌, bit_and, bit_or, ◌≡◌, refl, ◌∙◌, arith, Bool, true, false, ◌==◌,
  if◌then◌else◌, u8, u32, sub32, not64,
}
use thoth_ipc.Base.Bits.{bit, bit-and, bit_and-lt}
use thoth_ipc.Liveness.{at_or_after, live_marks}
use thoth_ipc.Liveness.Marks.{bit-live_marks}
use thoth_ipc.Route.{Ring, Claim, ep_mask, ring_size, ring_slot, set_rc, is_busy, claim_slot}
use thoth_ipc.Route.Words.{bit-marks, nonzero_of_bit}
use thoth_ipc.Route.Run.{IsRing, IsReader, IsMarked}

-- A slot that receiver `i` has yet to read is busy.
busy_of_mark :
    (ring : Ring) (i since prev : ℕ)
    → i < 32
    → IsRing ring
    → IsReader i since ring
    → IsMarked i (u8 ring.write_cursor) ring
    → at_or_after prev since ≡ true
    → is_busy ring ring.connections (ring_slot ring (u8 ring.write_cursor)).rc_ prev ≡ true
unfolding is_busy
busy_of_mark ring i since prev hi ok reader mark after =
    let rc = (ring_slot ring (u8 ring.write_cursor)).rc_ in
    let both = bit_and ring.connections (bit_and rc ep_mask) in
    let set : bit i both ≡ 1 = omega (
      arith,
      bit-and i ring.connections (bit_and rc ep_mask),
      reader.connected,
      bit-marks rc i hi,
      mark.marked,
    ) in
    let small : u32 both ≡ both =
      omega (arith, bit_and-lt 32 ring.connections (bit_and rc ep_mask) ok.connections_lt) in
    let alive : bit i (live_marks ring.liveness (u32 both) prev) ≡ 1 =
      rw (reader.table, small)
        (bit-live_marks reader.owners both prev i
            (bit_and-lt 32 ring.connections (bit_and rc ep_mask) ok.connections_lt)
          ∙ rw (reader.started, after) set) in
    let b1 = ==_ne both 0 (nonzero_of_bit i both set) in
    let b2 : (bit_and rc (not64 ep_mask) == ring.epoch) ≡ true =
      rw mark.current (==_self ring.epoch) in
    let b3 =
      ==_ne (live_marks ring.liveness (u32 both) prev) 0
        (nonzero_of_bit i (live_marks ring.liveness (u32 both) prev) alive) in
    rw (b1, b2, b3) refl

pub claim_waits :
    (ring : Ring) (i since : ℕ)
    → i < 32
    → IsRing ring
    → IsReader i since ring
    → IsMarked i (u8 ring.write_cursor) ring
    → at_or_after (sub32 ring.write_cursor ring_size) since ≡ true
    → claim_slot ring ≡ Claim.must_wait
unfolding claim_slot
claim_waits ring i since hi ok reader mark after =
    let busy =
      busy_of_mark ring i since (sub32 ring.write_cursor ring_size) hi ok reader mark after in
    let some_reader =
      ==_ne ring.connections 0 (nonzero_of_bit i ring.connections reader.connected) in
    rw (some_reader, busy) refl

claimed_is :
    (a b : Bool) (r r' : Ring)
    → (if a then Claim.no_receivers else if b then Claim.must_wait else Claim.claimed r)
      ≡ Claim.claimed r'
    → r' ≡ r
claimed_is true b r r' h = cc
claimed_is false true r r' h = cc
claimed_is false false r r' h = cc

-- The claim marks the slot for every receiver that is connected.
pub claim-eq :
    (ring ring' : Ring)
    → claim_slot ring ≡ Claim.claimed ring'
    → ring' ≡ set_rc ring (u8 ring.write_cursor) (bit_or ring.epoch ring.connections)
unfolding claim_slot
claim-eq ring ring' h =
    let wt = ring.write_cursor in
    let busy = is_busy ring ring.connections (ring_slot ring (u8 wt)).rc_ (sub32 wt ring_size) in
    claimed_is (ring.connections == 0) busy
      (set_rc ring (u8 wt) (bit_or ring.epoch ring.connections)) ring' h
