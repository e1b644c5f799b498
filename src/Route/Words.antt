-- ===== src/Route/Words.antt =====
-- The two halves of `rc`: the marks of the receivers and the epoch.
use thoth_ipc.Base.{
  ℕ, ◌-◌, ◌^◌, ◌%◌, ◌≤◌, ◌<◌, min, bit_and, bit_or, ◌≡◌, ◌≢◌, ap, ◌∙◌, arith, dec_lt, not64,
}
use thoth_ipc.Base.Bits.{
  bit-mask_low, bit, bit-le, bit-zero, bit-and, bit-or, bit-not, bit-high, eq_of_bits, bit_and-lt,
  bit_or-lt, bit_and-low_mask,
}
use thoth_ipc.Route.{ep_mask}

-- the mask of the epoch, by bits
bit-ep_high : (i : ℕ) → 32 ≤ i → i < 64 → bit i (not64 ep_mask) ≡ 1
bit-ep_high i lo hi =
    omega (arith, bit-not 64 i ep_mask (omega arith) hi, bit-high 32 i ep_mask (omega arith) lo)

bit-ep_low : (i : ℕ) → i < 32 → bit i (not64 ep_mask) ≡ 0
bit-ep_low i hi =
    let ones : bit i ep_mask ≡ 1 = bit-mask_low 32 i hi in
    omega (arith, bit-not 64 i ep_mask (omega arith) (omega arith), ones)

-- A number of 64 bits whose low half is 0 has its low bits 0.
bit-multiple : (i n : ℕ) → i < 32 → n % 2 ^ 32 ≡ 0 → bit i n ≡ 0
bit-multiple i n hi h =
    let low : bit_and n (2 ^ 32 - 1) ≡ 0 = bit_and-low_mask 32 n ∙ h in
    let ones : bit i ep_mask ≡ 1 = bit-mask_low 32 i hi in
    omega (arith, bit-and i n (2 ^ 32 - 1), ap (bit i) low, bit-zero i, ones, bit-le i n)

-- The epoch of `epoch | cc` is `epoch`,
pub epoch_of_mark :
    (epoch cc : ℕ)
    → epoch < 2 ^ 64
    → epoch % 2 ^ 32 ≡ 0
    → cc < 2 ^ 32
    → bit_and (bit_or epoch cc) (not64 ep_mask) ≡ epoch
epoch_of_mark epoch cc he h0 hc =
    eq_of_bits 64 (bit_and (bit_or epoch cc) (not64 ep_mask)) epoch
      (bit_and-lt 64 (bit_or epoch cc) (not64 ep_mask) (bit_or-lt 64 epoch cc he (omega arith))) he
      (λ i hi.
        let join =
          bit-and i (bit_or epoch cc) (not64 ep_mask)
          ∙ ap (λ (n : ℕ). min n (bit i (not64 ep_mask))) (bit-or i epoch cc) in
        elim (dec_lt i 32) [
          | yes lo ↦ omega (arith, join, bit-ep_low i lo, bit-multiple i epoch lo h0)
          | no hi' ↦ omega (
            arith,
            join,
            bit-ep_high i (omega arith) hi,
            bit-high 32 i cc hc (omega arith),
            bit-le i epoch,
          )
        ])

-- and its marks are those of `cc`.
pub bit-mark : (epoch cc i : ℕ) → bit i cc ≡ 1 → bit i (bit_or epoch cc) ≡ 1
bit-mark epoch cc i h = omega (arith, bit-or i epoch cc, bit-le i epoch, h)

-- Clearing marks leaves the epoch,
pub epoch_of_clear :
    (rc id epoch : ℕ)
    → rc < 2 ^ 64
    → id < 2 ^ 32
    → bit_and rc (not64 ep_mask) ≡ epoch
    → bit_and (bit_and rc (not64 id)) (not64 ep_mask) ≡ epoch
epoch_of_clear rc id epoch hr hid h =
    eq_of_bits 64 (bit_and (bit_and rc (not64 id)) (not64 ep_mask)) (bit_and rc (not64 ep_mask))
      (bit_and-lt 64 (bit_and rc (not64 id)) (not64 ep_mask) (bit_and-lt 64 rc (not64 id) hr))
      (bit_and-lt 64 rc (not64 ep_mask) hr)
      (λ i hi.
        let outer = bit-and i (bit_and rc (not64 id)) (not64 ep_mask) in
        let inner = bit-and i rc (not64 id) in
        let plain = bit-and i rc (not64 ep_mask) in
        elim (dec_lt i 32) [
          | yes lo ↦ omega (arith, outer, inner, plain, bit-ep_low i lo)
          | no hi' ↦ omega (
            arith,
            outer,
            inner,
            plain,
            bit-not 64 i id (omega arith) hi,
            bit-high 32 i id hid (omega arith),
            bit-le i rc,
          )
        ])
    ∙ h

-- and the marks that are not cleared.
pub bit-clear :
    (rc id i : ℕ) → id < 2 ^ 32 → i < 32 → bit i id ≡ 0 → bit i (bit_and rc (not64 id)) ≡ bit i rc
bit-clear rc id i hid hi h =
    omega
      (arith, bit-and i rc (not64 id), bit-not 64 i id (omega arith) (omega arith), h, bit-le i rc)

-- A mark shows in `rc & EP_MASK`.
pub bit-marks : (rc i : ℕ) → i < 32 → bit i (bit_and rc ep_mask) ≡ bit i rc
bit-marks rc i hi =
    let ones : bit i ep_mask ≡ 1 = bit-mask_low 32 i hi in
    omega (arith, bit-and i rc ep_mask, ones, bit-le i rc)

-- A word with a bit set is not 0.
pub nonzero_of_bit : (i n : ℕ) → bit i n ≡ 1 → n ≢ 0
nonzero_of_bit i n h e = omega (arith, h, ap (bit i) e, bit-zero i)
