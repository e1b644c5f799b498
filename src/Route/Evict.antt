-- ===== src/Route/Evict.antt =====
-- The timeout of a push: which receivers `force_push` disconnects, and that the sender can go on.
use thoth_ipc.Base.{
  ==_ne, ℕ, ◌+◌, ◌-◌, ◌^◌, ◌<◌, min, bit_and, bit_or, ◌≡◌, ◌≢◌, refl, sym, ap, ◌∙◌, arith, List,
  some, ℕ_discrete, Bool, true, false, not, ◌&&◌, ◌==◌, if◌then◌else◌, u8, u32, u64, sub32, not32,
  not64,
}
use thoth_ipc.Base.Bits.{bit, bit-le, bit-zero, bit-and, bit-not, bit_and-le, bit_and-low_mask}
use thoth_ipc.Liveness.{SlotOwner, owner_at, at_or_after, live_marks}
use thoth_ipc.Liveness.Marks.{bit-live_marks, live_marks-lt}
use thoth_ipc.Route.{
  Ring, ElemT, Claim, ep_mask, ep_incr, ring_lap, ring_slot, set_rc, is_busy, claim_slot,
  force_push,
}
use thoth_ipc.Route.Words.{bit-marks, epoch_of_clear}
use thoth_ipc.Route.Run.{IsRing}
use thoth_ipc.Route.Frame.{ring_slot-set_rc_self}

-- The marks of the slot at the write cursor that `force_push` takes for those of wedged receivers
abbrev pub wedged : Ring → ℕ
wedged ring =
    let cur_rc = (ring_slot ring (u8 ring.write_cursor)).rc_ in
    live_marks ring.liveness (u32 (bit_and (bit_and cur_rc ep_mask) ring.connections))
      (sub32 ring.write_cursor ring_lap)

marks_lt : (rc cc : ℕ) → bit_and (bit_and rc ep_mask) cc < 2 ^ 32
marks_lt rc cc = omega (arith, bit_and-le (bit_and rc ep_mask) cc, bit_and-low_mask 32 rc)

-- Receiver `i` is taken for wedged exactly where it is connected, has not read the slot at the
-- write cursor, and started at or before the position that the slot held.
pub bit-wedged :
    (ring : Ring) (owners : List SlotOwner) (i : ℕ)
    → i < 32
    → ring.liveness ≡ some owners
    → bit i (wedged ring) ≡ (
        if at_or_after (sub32 ring.write_cursor ring_lap) (owner_at owners i).since
        then min (bit i (ring_slot ring (u8 ring.write_cursor)).rc_) (bit i ring.connections)
        else 0)
bit-wedged ring owners i hi table =
    let rc = (ring_slot ring (u8 ring.write_cursor)).rc_ in
    let marks = bit_and (bit_and rc ep_mask) ring.connections in
    let lt : marks < 2 ^ 32 = marks_lt rc ring.connections in
    let small : u32 marks ≡ marks = omega (arith, lt) in
    let of_marks : bit i marks ≡ min (bit i rc) (bit i ring.connections) =
      bit-and i (bit_and rc ep_mask) ring.connections
      ∙ ap (λ (n : ℕ). min n (bit i ring.connections)) (bit-marks rc i hi) in
    let prev = sub32 ring.write_cursor ring_lap in
    rw (table, small)
      (bit-live_marks owners marks prev i lt
        ∙ ap (λ (n : ℕ). if at_or_after prev (owner_at owners i).since then n else 0) of_marks)

-- One call of `force_push`, in its three cases.
data Forced (ring : Ring) : Bool × Ring → Type 0 where
  nobody : wedged ring ≡ 0 → Forced ring (true, record ring { epoch = u64 (ring.epoch + ep_incr) })
  all_gone :
      wedged ring ≢ 0
      → bit_and ring.connections (not32 (wedged ring)) ≡ 0
      → Forced ring (
        false,
        record ring {
          epoch = u64 (ring.epoch + ep_incr);
          connections = bit_and ring.connections (not32 (wedged ring));
        },
      )
  some_left :
      wedged ring ≢ 0
      → bit_and ring.connections (not32 (wedged ring)) ≢ 0
      → Forced ring (
        true,
        set_rc
            (record ring {
              epoch = u64 (ring.epoch + ep_incr);
              connections = bit_and ring.connections (not32 (wedged ring));
            })
            (u8 ring.write_cursor)
            (bit_and (ring_slot ring (u8 ring.write_cursor)).rc_ (not64 (wedged ring))),
      )

force_push-Forced : (ring : Ring) → Forced ring (force_push ring)
unfolding force_push
force_push-Forced ring = elim (ℕ_discrete (wedged ring) 0) [
  | yes e ↦ rw e (Forced.nobody e)
  | no ne ↦ elim (ℕ_discrete (bit_and ring.connections (not32 (wedged ring))) 0) [
    | yes e ↦
        let gone = ap (λ (n : ℕ). n == 0) e in
        rw (==_ne (wedged ring) 0 ne, gone) (Forced.all_gone ne e)
    | no ne' ↦
        rw (==_ne (wedged ring) 0 ne, ==_ne (bit_and ring.connections (not32 (wedged ring))) 0 ne')
          (Forced.some_left ne ne')
  ]
]

wedged_lt :
    (ring : Ring) (owners : List SlotOwner) → ring.liveness ≡ some owners → wedged ring < 2 ^ 32
wedged_lt ring owners table =
    let marks =
      u32
        (bit_and (bit_and (ring_slot ring (u8 ring.write_cursor)).rc_ ep_mask) ring.connections) in
    rw table (live_marks-lt owners marks (sub32 ring.write_cursor ring_lap) (omega arith))

-- `force_push` disconnects the receivers it takes for wedged, and no other.
pub bit-force_push :
    (ring : Ring) (owners : List SlotOwner) (i : ℕ)
    → i < 32
    → ring.liveness ≡ some owners
    → bit i (force_push ring).1.connections ≡ bit i ring.connections - bit i (wedged ring)
bit-force_push ring owners i hi table = go (force_push ring) (force_push-Forced ring)
  where
    lt : wedged ring < 2 ^ 32
    lt = wedged_lt ring owners table

    rest :
        bit i (bit_and ring.connections (not32 (wedged ring)))
        ≡ bit i ring.connections - bit i (wedged ring)
    rest =
        bit-and i ring.connections (not32 (wedged ring))
        ∙ omega (
          arith,
          bit-not 32 i (wedged ring) lt hi,
          bit-le i ring.connections,
          bit-le i (wedged ring),
        )

    go :
        (r : Bool × Ring)
        → Forced ring r
        → bit i r.1.connections ≡ bit i ring.connections - bit i (wedged ring)
    go _ (Forced.nobody e) = omega (arith, ap (bit i) e, bit-zero i)
    go _ (Forced.all_gone ne e) = rest
    go _ (Forced.some_left ne ne') = rest

-- A slot of another epoch is free, whoever has yet to read it.
stale_is_free :
    (ring : Ring)
    → ring.connections ≢ 0
    → bit_and (ring_slot ring (u8 ring.write_cursor)).rc_ (not64 ep_mask) ≢ ring.epoch
    → claim_slot ring
      ≡ Claim.claimed (set_rc ring (u8 ring.write_cursor) (bit_or ring.epoch ring.connections))
unfolding claim_slot is_busy
stale_is_free ring live stale =
    let rc = (ring_slot ring (u8 ring.write_cursor)).rc_ in
    rw (==_ne ring.connections 0 live, ==_ne (bit_and rc (not64 ep_mask)) ring.epoch stale)
      (free (not (bit_and ring.connections (bit_and rc ep_mask) == 0)))
  where
    claim : Claim
    claim = Claim.claimed (set_rc ring (u8 ring.write_cursor) (bit_or ring.epoch ring.connections))

    free : (b : Bool) → (if b && false then Claim.must_wait else claim) ≡ claim
    free true = refl
    free false = refl

claim_nobody : (ring : Ring) → ring.connections ≡ 0 → claim_slot ring ≡ Claim.no_receivers
unfolding claim_slot
claim_nobody ring e = rw (ap (λ (n : ℕ). n == 0) e) refl

-- The sender waits only for a slot of its epoch, and only while someone is connected.
waits_for :
    (ring : Ring)
    → claim_slot ring ≡ Claim.must_wait
    → (ring.connections ≢ 0)
      × (bit_and (ring_slot ring (u8 ring.write_cursor)).rc_ (not64 ep_mask) ≡ ring.epoch)
waits_for ring h =
    let live : ring.connections ≢ 0 = λ e. (let nobody = claim_nobody ring e in cc) in
    (
      live,
      elim (ℕ_discrete (bit_and (ring_slot ring (u8 ring.write_cursor)).rc_ (not64 ep_mask))
          ring.epoch) [ yes e ↦ e | no ne ↦ let free = stale_is_free ring live ne in cc ],
    )

-- Where the sender has waited in vain and somebody is left, it can claim the slot after `force_push`.
pub force_push-claims :
    (ring : Ring) (owners : List SlotOwner)
    → IsRing ring
    → ring.liveness ≡ some owners
    → claim_slot ring ≡ Claim.must_wait
    → (force_push ring).0 ≡ true
    → (ring' : Ring) × (claim_slot (force_push ring).1 ≡ Claim.claimed ring')
force_push-claims ring owners ok table waits = go (force_push ring) (force_push-Forced ring)
  where
    go :
        (r : Bool × Ring)
        → Forced ring r
        → r.0 ≡ true
        → (ring' : Ring) × (claim_slot r.1 ≡ Claim.claimed ring')
    go _ (Forced.nobody e) t = (
      _,
      stale_is_free (record ring { epoch = u64 (ring.epoch + ep_incr) }) (waits_for ring waits).0
          (λ e. omega (arith, e, (waits_for ring waits).1, ok.epoch_lt)),
    )
    go _ (Forced.all_gone ne e) t = cc
    go _ (Forced.some_left ne ne') t = (_, stale_is_free after ne' fresh)
      where
        left : Ring
        left = record ring {
          epoch = u64 (ring.epoch + ep_incr);
          connections = bit_and ring.connections (not32 (wedged ring));
        }

        old : ℕ
        old = (ring_slot ring (u8 ring.write_cursor)).rc_

        after : Ring
        after = set_rc left (u8 ring.write_cursor) (bit_and old (not64 (wedged ring)))

        fresh :
            bit_and (ring_slot after (u8 ring.write_cursor)).rc_ (not64 ep_mask)
            ≢ u64 (ring.epoch + ep_incr)
        fresh e =
            let self =
              ring_slot-set_rc_self left (u8 ring.write_cursor) (bit_and old (not64 (wedged ring)))
                ok.size (omega arith) in
            let kept =
              epoch_of_clear old (wedged ring) ring.epoch (ok.rc_lt (u8 ring.write_cursor))
                (wedged_lt ring owners table) (waits_for ring waits).1 in
            let now : ring.epoch ≡ u64 (ring.epoch + ep_incr) =
              sym kept ∙ ap (λ (x : ElemT). bit_and x.rc_ (not64 ep_mask)) (sym self) ∙ e in
            omega (arith, now, ok.epoch_lt)
