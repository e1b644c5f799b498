-- ===== src/MultiRing/Words.antt =====
-- The three regions of `rc`: marks, generation and epoch.
use thoth_ipc.Base.{
  ℕ, ◌-◌, ◌^◌, ◌%◌, ◌≤◌, ◌<◌, min, max, bit_and, bit_or, ◌≡◌, sym, ap, ◌∙◌, arith, dec_lt, add64,
  not64,
}
use thoth_ipc.Base.Bits.{
  bit-mask_low, bit, bit-le, bit-zero, bit-and, bit-or, bit-not, bit-high, eq_of_bits, bit_and-lt,
  bit_or-lt, bit_and-low_mask,
}
use thoth_ipc.MultiRing.{rc_mask, ch_ep_mask, ch_ic_mask, ch_ic_incr, inc_rc, inc_mask}

bit-ep_high : (i : ℕ) → 56 ≤ i → i < 64 → bit i (not64 ch_ep_mask) ≡ 1
bit-ep_high i lo hi =
    omega
      (arith, bit-not 64 i ch_ep_mask (omega arith) hi, bit-high 56 i ch_ep_mask (omega arith) lo)

bit-ep_low : (i : ℕ) → i < 56 → bit i (not64 ch_ep_mask) ≡ 0
bit-ep_low i h =
    omega (arith, bit-not 64 i ch_ep_mask (omega arith) (omega arith), bit-mask_low 56 i h)

bit-ic : (i : ℕ) → bit i ch_ic_mask ≡ max (bit i (not64 ch_ep_mask)) (bit i rc_mask)
bit-ic i = bit-or i (not64 ch_ep_mask) rc_mask

-- `inc_rc` moves the generation alone.
bit-inc_rc : (rc i : ℕ) → i < 64 → bit i ch_ic_mask ≡ 1 → bit i (inc_rc rc) ≡ bit i rc
unfolding inc_rc
bit-inc_rc rc i hi h = omega (
  arith,
  h,
  bit-or i (bit_and rc ch_ic_mask) (bit_and (add64 rc ch_ic_incr) (not64 ch_ic_mask)),
  bit-and i rc ch_ic_mask,
  bit-and i (add64 rc ch_ic_incr) (not64 ch_ic_mask),
  bit-not 64 i ch_ic_mask (omega arith) hi,
  bit-le i rc,
)

pub bit-inc_rc_low : (rc i : ℕ) → i < 32 → bit i (inc_rc rc) ≡ bit i rc
bit-inc_rc_low rc i h =
    bit-inc_rc rc i (omega arith)
      (bit-ic i ∙ omega (arith, bit-mask_low 32 i h, bit-le i (not64 ch_ep_mask)))

pub bit-inc_rc_high : (rc i : ℕ) → 56 ≤ i → i < 64 → bit i (inc_rc rc) ≡ bit i rc
bit-inc_rc_high rc i lo hi =
    bit-inc_rc rc i hi (bit-ic i ∙ omega (arith, bit-ep_high i lo hi, bit-le i rc_mask))

pub inc_rc-lt : (rc : ℕ) → rc < 2 ^ 64 → inc_rc rc < 2 ^ 64
unfolding inc_rc
inc_rc-lt rc h =
    bit_or-lt 64 (bit_and rc ch_ic_mask) (bit_and (add64 rc ch_ic_incr) (not64 ch_ic_mask))
      (bit_and-lt 64 rc ch_ic_mask h)
      (bit_and-lt 64 (add64 rc ch_ic_incr) (not64 ch_ic_mask) (omega arith))

-- Words whose top bytes agree have the same epoch.
epoch_of_top :
    (x y : ℕ)
    → x < 2 ^ 64
    → y < 2 ^ 64
    → ((i : ℕ) → 56 ≤ i → i < 64 → bit i x ≡ bit i y)
    → bit_and x (not64 ch_ep_mask) ≡ bit_and y (not64 ch_ep_mask)
epoch_of_top x y hx hy same =
    eq_of_bits 64 (bit_and x (not64 ch_ep_mask)) (bit_and y (not64 ch_ep_mask))
      (bit_and-lt 64 x (not64 ch_ep_mask) hx) (bit_and-lt 64 y (not64 ch_ep_mask) hy)
      (λ i hi. elim (dec_lt i 56) [
        | yes lo ↦
            omega (
              arith,
              bit-and i x (not64 ch_ep_mask),
              bit-and i y (not64 ch_ep_mask),
              bit-ep_low i lo,
            )
        | no ge ↦
            bit-and i x (not64 ch_ep_mask)
            ∙ ap (λ (n : ℕ). min n (bit i (not64 ch_ep_mask))) (same i (omega arith) hi)
            ∙ sym (bit-and i y (not64 ch_ep_mask))
      ])

-- Dropping the mark `id` keeps the epoch
pub epoch_of_drop :
    (rc id : ℕ)
    → rc < 2 ^ 64
    → id < 2 ^ 32
    → bit_and (bit_and (inc_rc rc) (not64 id)) (not64 ch_ep_mask) ≡ bit_and rc (not64 ch_ep_mask)
epoch_of_drop rc id hr hid =
    epoch_of_top (bit_and (inc_rc rc) (not64 id)) rc
      (bit_and-lt 64 (inc_rc rc) (not64 id) (inc_rc-lt rc hr)) hr
      (λ i lo hi. omega (
        arith,
        bit-and i (inc_rc rc) (not64 id),
        bit-inc_rc_high rc i lo hi,
        bit-not 64 i id (omega arith) hi,
        bit-high 32 i id hid (omega arith),
        bit-le i rc,
      ))

-- and every other mark.
pub bit-drop :
    (rc id i : ℕ)
    → id < 2 ^ 32
    → i < 32
    → bit i id ≡ 0
    → bit i (bit_and (inc_rc rc) (not64 id)) ≡ bit i rc
bit-drop rc id i hid hi h = omega (
  arith,
  bit-and i (inc_rc rc) (not64 id),
  bit-inc_rc_low rc i hi,
  bit-not 64 i id (omega arith) (omega arith),
  h,
  bit-le i rc,
)

-- an epoch with its low 56 bits clear
low_clear : (i n : ℕ) → i < 56 → n % 2 ^ 56 ≡ 0 → bit i n ≡ 0
low_clear i n hi h = omega (
  arith,
  bit-and i n (2 ^ 56 - 1),
  ap (bit i) (bit_and-low_mask 56 n ∙ h),
  bit-zero i,
  bit-mask_low 56 i hi,
  bit-le i n,
)

-- The stamp of a claim: the marks of all that are connected, in the epoch of the claim.
abbrev pub stamp : ℕ → ℕ → ℕ → ℕ
stamp epoch cur_rc cc = bit_or (inc_mask (bit_or epoch (bit_and cur_rc ch_ep_mask))) cc

pub bit-stamp : (epoch cur_rc cc i : ℕ) → bit i cc ≡ 1 → bit i (stamp epoch cur_rc cc) ≡ 1
bit-stamp epoch cur_rc cc i h = omega (
  arith,
  bit-or i (inc_mask (bit_or epoch (bit_and cur_rc ch_ep_mask))) cc,
  h,
  bit-le i (inc_mask (bit_or epoch (bit_and cur_rc ch_ep_mask))),
)

pub stamp-lt :
    (epoch cur_rc cc : ℕ)
    → epoch < 2 ^ 64
    → cur_rc < 2 ^ 64
    → cc < 2 ^ 32
    → stamp epoch cur_rc cc < 2 ^ 64
unfolding inc_mask
stamp-lt epoch cur_rc cc he hr hc =
    let old = bit_or epoch (bit_and cur_rc ch_ep_mask) in
    bit_or-lt 64 (inc_mask old) cc
      (bit_and-lt 64 (inc_rc old) (not64 rc_mask) (
        inc_rc-lt old
          (bit_or-lt 64 epoch (bit_and cur_rc ch_ep_mask) he (bit_and-lt 64 cur_rc ch_ep_mask hr))))
      (omega arith)

pub epoch_of_stamp :
    (epoch cur_rc cc : ℕ)
    → epoch < 2 ^ 64
    → epoch % 2 ^ 56 ≡ 0
    → cur_rc < 2 ^ 64
    → cc < 2 ^ 32
    → bit_and (stamp epoch cur_rc cc) (not64 ch_ep_mask) ≡ epoch
unfolding inc_mask
epoch_of_stamp epoch cur_rc cc he h0 hr hc =
    let old = bit_or epoch (bit_and cur_rc ch_ep_mask) in
    epoch_of_top (stamp epoch cur_rc cc) epoch (stamp-lt epoch cur_rc cc he hr hc) he (λ i lo hi.
      omega (
        arith,
        bit-or i (bit_and (inc_rc old) (not64 rc_mask)) cc,
        bit-high 32 i cc hc (omega arith),
        bit-and i (inc_rc old) (not64 rc_mask),
        bit-not 64 i rc_mask (omega arith) hi,
        bit-high 32 i rc_mask (omega arith) (omega arith),
        bit-inc_rc_high old i lo hi,
        bit-or i epoch (bit_and cur_rc ch_ep_mask),
        bit-and i cur_rc ch_ep_mask,
        bit-high 56 i ch_ep_mask (omega arith) lo,
        bit-le i epoch,
        bit-le i cur_rc,
      ))
    ∙ eq_of_bits 64 (bit_and epoch (not64 ch_ep_mask)) epoch
        (bit_and-lt 64 epoch (not64 ch_ep_mask) he) he
        (λ i hi. elim (dec_lt i 56) [
          | yes lo ↦
              omega (
                arith,
                bit-and i epoch (not64 ch_ep_mask),
                bit-ep_low i lo,
                low_clear i epoch lo h0,
              )
          | no ge ↦ omega (
            arith,
            bit-and i epoch (not64 ch_ep_mask),
            bit-ep_high i (omega arith) hi,
            bit-le i epoch,
          )
        ])

-- A mark shows in `rc & RC_MASK`.
pub bit-marks : (rc i : ℕ) → i < 32 → bit i (bit_and rc rc_mask) ≡ bit i rc
bit-marks rc i hi = omega (arith, bit-and i rc rc_mask, bit-mask_low 32 i hi, bit-le i rc)
