-- ===== src/Locks/Words.antt =====
-- The word of the reader-writer lock: the flag of a writer above the count of the readers.
use thoth_ipc.Base.{
  ℕ, ◌+◌, ◌^◌, ◌<◌, ◌≡◌, ◌≢◌, refl, sym, ap, ◌∙◌, arith, bit_and, bit_or, ℕ_discrete, false, ◌==◌,
  ==_ne,
}
use thoth_ipc.Base.Bits.{
  bit, bit-le, bit-zero, bit-and, bit-or, bit-high, eq_of_bits, bit_and-lt, bit_or-lt,
  bit_or-disjoint, bit_or_comm, bit_and-low_mask,
}
use thoth_ipc.Base.LowBit.{bit-pow_self, bit-pow_ne}
use thoth_ipc.Locks.{WriteRound, w_mask, w_flag, lock, drained, may_share}

no_flag : (r : ℕ) → r < 2 ^ 31 → bit_and r w_flag ≡ 0
no_flag r h =
    eq_of_bits 32 (bit_and r w_flag) 0 (bit_and-lt 32 r w_flag (omega arith)) (omega arith) (λ i hi.
      elim (ℕ_discrete i 31) [
        | yes e ↦ bit-and i r w_flag ∙ omega (arith, bit-high 31 i r h (omega arith), bit-zero i)
        | no ne ↦ bit-and i r w_flag ∙ omega (arith, bit-pow_ne i 31 ne, bit-zero i)
      ])

with_flag : (r : ℕ) → r < 2 ^ 31 → bit_or w_flag r ≡ w_flag + r
with_flag r h = bit_or-disjoint 31 1 r h

flag_set : (r : ℕ) → r < 2 ^ 31 → bit_and (w_flag + r) w_flag ≢ 0
flag_set r h z =
    let on : bit 31 (w_flag + r) ≡ 1 =
      ap (bit 31) (sym (with_flag r h))
      ∙ bit-or 31 w_flag r
      ∙ omega (arith, bit-pow_self 31, bit-le 31 r) in
    omega (
      arith,
      sym (bit-and 31 (w_flag + r) w_flag) ∙ ap (bit 31) z ∙ bit-zero 31,
      on,
      bit-pow_self 31,
    )

pub lock-free : lock 0 ≡ (WriteRound.got, w_flag)
unfolding lock
lock-free = refl

-- Readers are there and no writer.
pub lock-readers : (r : ℕ) → r < 2 ^ 31 → r ≢ 0 → lock r ≡ (WriteRound.readers_left, w_flag + r)
unfolding lock
lock-readers r h ne = rw (==_ne r 0 ne, no_flag r h, bit_or_comm r w_flag, with_flag r h) refl

-- A writer is there.
pub lock-writer : (r : ℕ) → r < 2 ^ 31 → lock (w_flag + r) ≡ (WriteRound.retry, w_flag + r)
unfolding lock
lock-writer r h =
    let or_same : bit_or (w_flag + r) w_flag ≡ w_flag + r =
      eq_of_bits 32 (bit_or (w_flag + r) w_flag) (w_flag + r)
        (bit_or-lt 32 (w_flag + r) w_flag (omega arith) (omega arith)) (omega arith)
        (λ i hi.
          bit-or i (w_flag + r) w_flag
          ∙ omega (arith, ap (bit i) (sym (with_flag r h)) ∙ bit-or i w_flag r)) in
    rw
      (
        ==_ne (w_flag + r) 0 (λ e. omega (arith, e)),
        ==_ne (bit_and (w_flag + r) w_flag) 0 (flag_set r h),
        or_same,
      )
      refl

pub drained-eq : (r : ℕ) → r < 2 ^ 31 → drained (w_flag + r) ≡ (r == 0)
unfolding drained
drained-eq r h =
    let low : bit_and (w_flag + r) w_mask ≡ r = bit_and-low_mask 31 (w_flag + r) ∙ omega arith in
    ap (λ n. n == 0) low

pub may_share-writer : (r : ℕ) → r < 2 ^ 31 → may_share (w_flag + r) ≡ false
unfolding may_share
may_share-writer r h = ==_ne (bit_and (w_flag + r) w_flag) 0 (flag_set r h)
