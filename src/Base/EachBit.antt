-- ===== src/Base/EachBit.antt =====
-- The loop over the set bits of a word, the lowest first:
-- `while m != 0 { let bit = m & m.wrapping_neg(); m &= m - 1; … }`.
use Prim.Native.Nat.{ℕ, zero, suc, ◌+◌, ◌-◌, ◌^◌, ◌≤◌, ◌<◌, bit_and}
use mathlib.Core.Path.{◌≡◌, refl, sym, ◌∙◌, subst}
use mathlib.Core.Logic.{◌≢◌}
use mathlib.Core.Bool.{false}
use native.Mathlib.Omega.{arith}
use native.Mathlib.Decide.{ℕ_discrete, dec_lt}
use thoth_ipc.Base.Tests.{◌==◌, if◌then◌else◌}
use thoth_ipc.Base.Words.{neg32}
use thoth_ipc.Base.Bits.{bit, bit-zero, bit_and-lt, eq_of_bits}
use thoth_ipc.Base.LowBit.{
  trailing_zeros, bit_and-neg, bit-drop_lowest, bit-drop_lowest_ne, bit-trailing_zeros,
  bit-below_trailing_zeros,
}

-- The first argument is fuel: a word of 32 bits takes 32 rounds at most (`each_bit-elim`).
unfoldable pub each_bit {ℓ} : {A : Type ℓ} → ℕ → (ℕ → A → A) → ℕ → A → A
each_bit zero body m r = r
each_bit (suc n) body m r =
    let rest = each_bit n body (bit_and m (m - 1)) (body (bit_and m (neg32 m)) r) in
    if m == 0 then r else rest

each_bit_stop {ℓ} : {A : Type ℓ} (n : ℕ) (body : ℕ → A → A) (r : A) → each_bit n body 0 r ≡ r
unfolding each_bit
each_bit_stop zero body r = refl
each_bit_stop (suc n) body r = refl

each_bit_round {ℓ} :
    {A : Type ℓ} (n : ℕ) (body : ℕ → A → A) (m : ℕ) (r : A)
    → 0 < m
    → m < 2 ^ 32
    → each_bit (suc n) body m r
      ≡ each_bit n body (bit_and m (m - 1)) (body (2 ^ trailing_zeros 32 m) r)
unfolding each_bit
each_bit_round n body m r hp h =
    let ne : (m == 0) ≡ false = ground arith in
    let low : bit_and m (neg32 m) ≡ 2 ^ trailing_zeros 32 m =
      (let e : neg32 m ≡ 2 ^ 32 - m = omega arith in rw e (bit_and-neg 32 m hp h)) in
    rw (ne, low) refl

below_or_low :
    (k m i : ℕ)
    → 0 < m
    → m < 2 ^ 32
    → ((i : ℕ) → i < k → bit i m ≡ 0)
    → i < suc k
    → i ≢ trailing_zeros 32 m
    → bit i m ≡ 0
below_or_low k m i pos hm low hi ne =
    let t = trailing_zeros 32 m in
    elim (dec_lt i t) [
      | yes lt ↦ bit-below_trailing_zeros 32 m i lt
      | no ge ↦ elim (dec_lt t k) [
        | yes lt ↦ absurd (omega (arith, low t lt, bit-trailing_zeros 32 m pos hm))
        | no ge' ↦ absurd (ne (omega arith))
      ]
    ]

-- What holds before the loop, and holds after the round of each bit, holds at the end.
pub each_bit-elim {ℓ κ} :
    {A : Type ℓ} (P : ℕ → A → Type κ) (body : ℕ → A → A)
    → ((m : ℕ) (r : A)
        → 0 < m
        → m < 2 ^ 32
        → P m r
        → P (bit_and m (m - 1)) (body (2 ^ trailing_zeros 32 m) r))
    → (n k m : ℕ) (r : A) → 32 ≤ n + k
    → m < 2 ^ 32
    → ((i : ℕ) → i < k → bit i m ≡ 0)
    → P m r
    → P 0 (each_bit n body m r)
each_bit-elim P body round zero k m r hn hm low p =
    let e : m ≡ 0 =
      eq_of_bits 32 m 0 hm (omega arith) (λ i hi. low i (omega arith) ∙ sym (bit-zero i)) in
    unfold each_bit in subst (λ m. P m r) e p
each_bit-elim P body round (suc n) k m r hn hm low p = elim (ℕ_discrete m 0) [
  | yes e ↦ rw (e, each_bit_stop (suc n) body r) (subst (λ m. P m r) e p)
  | no ne ↦
      let pos : 0 < m = omega arith in
      let t = trailing_zeros 32 m in
      let lowest : (i : ℕ) → i < suc k → bit i (bit_and m (m - 1)) ≡ 0 = λ i hi.
        elim (ℕ_discrete i t) [
          | yes it ↦ rw it (bit-drop_lowest 32 m pos hm)
          | no it ↦ bit-drop_lowest_ne 32 m i pos hm it ∙ below_or_low k m i pos hm low hi it
        ] in
      rw (each_bit_round n body m r pos hm) (
        each_bit-elim P body round n (suc k) (bit_and m (m - 1)) (body (2 ^ t) r) (omega arith)
          (bit_and-lt 32 m (m - 1) hm) lowest (round m r pos hm p))
]
