-- ===== src/Route/Push.antt =====
-- The sender's steps keep what receiver `i` waits for: it never writes over a slot that `i` has yet
-- to read.
use thoth_ipc.Base.{
  ℕ, ◌+◌, ◌^◌, ◌%◌, ◌<◌, bit_or, ◌≡◌, ◌≢◌, refl, subst, ap, ◌∙◌, arith, List, [], ◌∷◌, length,
  length-append, some, dec_lt, u8, sub32, get_elem?, true, lt→ltb,
}
use thoth_ipc.Base.Bits.{bit, bit_or-lt}
use thoth_ipc.Liveness.{at_or_after}
use thoth_ipc.Route.{Ring, ElemT, Claim, ring_size, set_rc, claim_slot}
use thoth_ipc.Route.Words.{epoch_of_mark, bit-mark}
use thoth_ipc.Route.Run.{Stage, IsRing, IsMarked, Sys, Waits}
use thoth_ipc.Route.Sender.{claim_waits, claim-eq}
use thoth_ipc.Route.Frame.{
  ring_slot-set_rc_self, ring_slot-set_rc_ne, set_rc-IsRing, set_rc-IsReader, IsMarked-same, Keeps,
  Holds-Keeps,
}

first_pending : (xs : List (List ℕ)) → 0 < length xs → (x : List ℕ) × (get_elem? xs 0 ≡ some x)
first_pending [] h = absurd (omega arith)
first_pending (x ∷ xs) h = (x, refl)

-- The oldest of a full ring's slots is the one the sender would write next, and it is unread.
claim_full :
    (s : Sys) (i since : ℕ) (pending : List (List ℕ))
    → i < 32
    → Waits i since s pending
    → length s.pushed < 2 ^ 31
    → length pending ≡ ring_size
    → claim_slot s.ring ≡ Claim.must_wait
claim_full s i since pending hi w few full =
    let wt = s.ring.write_cursor in
    let (x, e) = first_pending pending (omega arith) in
    let here : (s.read_cursor + 0) % 2 ^ 8 ≡ wt % 2 ^ 8 = omega (arith, w.write_eq, full) in
    let mark : IsMarked i (u8 wt) s.ring =
      subst (λ idx. IsMarked i idx s.ring) here (w.holds 0 x e).0 in
    let count : length s.pushed ≡ length s.got + length pending =
      ap length w.log ∙ length-append s.got pending in
    let prev : sub32 wt ring_size ≡ s.read_cursor = omega (arith, w.write_eq, full, w.cursor_lt) in
    let gone : sub32 s.read_cursor since ≡ length s.got =
      omega (arith, w.cursor_eq, w.since_lt, count, few) in
    let after : at_or_after (sub32 wt ring_size) since ≡ true =
      rw (prev, gone) (lt→ltb (length s.got) (2 ^ 31) (omega arith)) in
    claim_waits s.ring i since hi w.ring_ok w.reader mark after

claimed_ring :
    (ring : Ring) (i : ℕ)
    → IsRing ring
    → bit i ring.connections ≡ 1
    → IsMarked i
        (u8 ring.write_cursor)
        (set_rc ring (u8 ring.write_cursor) (bit_or ring.epoch ring.connections))
claimed_ring ring i ok c =
    let idx = u8 ring.write_cursor in
    let rc = bit_or ring.epoch ring.connections in
    let self = ring_slot-set_rc_self ring idx rc ok.size (omega arith) in
    record {
      marked = rw self (bit-mark ring.epoch ring.connections i c);
      current =
          rw self
            (epoch_of_mark ring.epoch ring.connections ok.epoch_lt ok.epoch_high ok.connections_lt);
    }

set_rc-Keeps :
    (ring : Ring) (i : ℕ) {idx j : ℕ} (rc : ℕ) → idx ≢ j → Keeps i j ring (set_rc ring idx rc)
set_rc-Keeps ring i {idx = idx} {j = j} rc ne m =
    let same = ring_slot-set_rc_ne ring rc ne in
    (
      IsMarked-same ring (set_rc ring idx rc) i j refl (ap (λ (x : ElemT). x.rc_) same) m,
      ap (λ (x : ElemT). x.data_) same,
    )

pub claim-Waits :
    (s : Sys) (ring : Ring) (i since : ℕ) (pending : List (List ℕ))
    → i < 32
    → Waits i since s pending
    → length s.pushed < 2 ^ 31
    → claim_slot s.ring ≡ Claim.claimed ring
    → Waits i since (record s { ring = ring; stage = Stage.owns_slot }) pending
claim-Waits s ring i since pending hi w few h = elim (dec_lt (length pending) ring_size) [
  | yes lt ↦
      let wt = s.ring.write_cursor in
      let rc = bit_or s.ring.epoch s.ring.connections in
      rw (claim-eq s.ring ring h) (record {
        ring_ok = set_rc-IsRing s.ring (u8 wt) rc w.ring_ok (omega arith) (
            bit_or-lt 64 s.ring.epoch s.ring.connections w.ring_ok.epoch_lt
              (omega (arith, w.ring_ok.connections_lt)));
        reader = set_rc-IsReader s.ring i since (u8 wt) rc w.reader;
        cursor_lt = w.cursor_lt;
        since_lt = w.since_lt;
        cursor_eq = w.cursor_eq;
        write_eq = w.write_eq;
        fits = w.fits;
        log = w.log;
        holds =
            Holds-Keeps s.ring (set_rc s.ring (u8 wt) rc) i s.read_cursor pending
              (λ k hk. set_rc-Keeps s.ring i rc (λ e. omega (arith, w.write_eq, e))) w.holds;
        claims = (lt, claimed_ring s.ring i w.ring_ok w.reader.connected);
      })
  | no ge ↦ let stuck = claim_full s i since pending hi w few (omega (arith, w.fits)) in cc
]
