-- ===== src/RobustMutex/Words.antt =====
-- The owner in a futex word and its flag, by the operations on the word.
use thoth_ipc.Base.{
  ℕ, ◌-◌, ◌^◌, ◌<◌, ◌≡◌, ◌⊎◌, inl, inr, refl, sym, ap, subst, ◌∙◌, arith, bit_and, bit_or,
  ℕ_discrete, false,
}
use thoth_ipc.Base.Bits.{
  bit-le, bit-zero, bit-and, bit-or, bit-not, bit-mask_low, bit-high, eq_of_bits, bit_and-lt,
  bit_and_comm, bit_and-low_mask,
}
use thoth_ipc.Base.LowBit.{bit-pow_ne}
use thoth_ipc.RobustMutex.{
  Errno, A0Result, LockRound, UnlockRound, futex_tid_mask, futex_owner_died, ftx_not_recoverable,
  ftx_tid, ftx_owner_died, cas, lock_round, mtx_consistent, new_val, unlock_round, mark,
}

pub ftx_tid-small : (t : ℕ) → t < 2 ^ 30 → ftx_tid t ≡ t
unfolding ftx_tid
ftx_tid-small t h = bit_and-low_mask 30 t ∙ omega arith

pub ftx_owner_died-small : (t : ℕ) → t < 2 ^ 30 → ftx_owner_died t ≡ false
unfolding ftx_owner_died
ftx_owner_died-small t h =
    let none_set : bit_and t futex_owner_died ≡ 0 =
      eq_of_bits 31 (bit_and t futex_owner_died) 0 (bit_and-lt 31 t futex_owner_died (omega arith))
        (omega arith)
        (λ i hi. elim (ℕ_discrete i 30) [
          | yes e ↦
              bit-and i t futex_owner_died
              ∙ omega (arith, bit-high 30 i t h (omega arith), bit-zero i)
          | no ne ↦ bit-and i t futex_owner_died ∙ omega (arith, bit-pow_ne i 30 ne, bit-zero i)
        ]) in
    rw none_set refl

-- The unrecoverable mark covers the whole of the owner.
pub ftx_tid-marked : (w : ℕ) → ftx_tid (bit_or w ftx_not_recoverable) ≡ futex_tid_mask
unfolding ftx_tid
ftx_tid-marked w =
    eq_of_bits 30 (bit_and (bit_or w ftx_not_recoverable) futex_tid_mask) futex_tid_mask
      (bit_and_mask-lt (bit_or w ftx_not_recoverable)) (omega arith)
      (λ i hi.
        bit-and i (bit_or w ftx_not_recoverable) futex_tid_mask
        ∙ omega (
          arith,
          bit-or i w ftx_not_recoverable,
          bit-le i w,
          bit-mask_low 31 i (omega arith),
          bit-mask_low 30 i hi,
        ))
  where
    bit_and_mask-lt : (a : ℕ) → bit_and a futex_tid_mask < 2 ^ 30
    bit_and_mask-lt a = omega (arith, bit_and-low_mask 30 a)

-- Clearing the flag of the dead owner leaves the owner.
pub ftx_tid-consistent : (w : ℕ) → ftx_tid (bit_and w (2 ^ 32 - 1 - futex_owner_died)) ≡ ftx_tid w
unfolding ftx_tid
ftx_tid-consistent w =
    eq_of_bits 30 (bit_and (bit_and w (2 ^ 32 - 1 - futex_owner_died)) futex_tid_mask)
      (bit_and w futex_tid_mask)
      (omega (arith, bit_and-low_mask 30 (bit_and w (2 ^ 32 - 1 - futex_owner_died))))
      (omega (arith, bit_and-low_mask 30 w))
      (λ i hi.
        bit-and i (bit_and w (2 ^ 32 - 1 - futex_owner_died)) futex_tid_mask
        ∙ omega (
          arith,
          bit-and i w (2 ^ 32 - 1 - futex_owner_died),
          bit-and i w futex_tid_mask,
          bit-not 32 i futex_owner_died (omega arith) (omega arith),
          bit-pow_ne i 30 (λ e. omega (arith, e)),
          bit-le i w,
        ))

pub ftx_owner_died-consistent :
    (w : ℕ) → ftx_owner_died (bit_and w (2 ^ 32 - 1 - futex_owner_died)) ≡ false
unfolding ftx_owner_died
ftx_owner_died-consistent w =
    let none_set : bit_and (bit_and w (2 ^ 32 - 1 - futex_owner_died)) futex_owner_died ≡ 0 =
      eq_of_bits 31 (bit_and (bit_and w (2 ^ 32 - 1 - futex_owner_died)) futex_owner_died) 0
        (flag-lt (bit_and w (2 ^ 32 - 1 - futex_owner_died))) (omega arith)
        (λ i hi.
          bit-and i (bit_and w (2 ^ 32 - 1 - futex_owner_died)) futex_owner_died
          ∙ omega (
            arith,
            bit-and i w (2 ^ 32 - 1 - futex_owner_died),
            bit-not 32 i futex_owner_died (omega arith) (omega arith),
            bit-le i futex_owner_died,
            bit-zero i,
          )) in
    rw none_set refl
  where
    flag-lt : (a : ℕ) → bit_and a futex_owner_died < 2 ^ 31
    flag-lt a =
        rw (bit_and_comm a futex_owner_died) (bit_and-lt 31 futex_owner_died a (omega arith))

pub ftx_tid-not_recoverable : ftx_tid ftx_not_recoverable ≡ futex_tid_mask
unfolding ftx_tid
ftx_tid-not_recoverable = bit_and-low_mask 30 ftx_not_recoverable

-- `new_val` is one of two values.
unfoldable pub IsMark : ℕ → Type 0
IsMark new = (new ≡ 0) ⊎ (new ≡ ftx_not_recoverable)

pub new_val-IsMark : (w : ℕ) → IsMark (new_val w)
unfolding new_val IsMark
new_val-IsMark w = ground arith

-- A round that gets the lock found the word free, and writes its owner; any other leaves the word.
pub lock_round-cases :
    (t w w' : ℕ) (r : LockRound)
    → lock_round t w ≡ (r, w')
    → ((r ≡ LockRound.returns A0Result.ok) × (w ≡ 0) × (w' ≡ t))
      ⊎ (((r ≡ LockRound.ask_kernel) ⊎ (r ≡ LockRound.returns (A0Result.err Errno.enotrecoverable)))
          × (w' ≡ w))
unfolding lock_round cas
lock_round-cases t w w' r h = ground (arith, h)

pub mtx_consistent-ok :
    (t w w' : ℕ)
    → mtx_consistent t w ≡ (A0Result.ok, w')
    → (ftx_tid w' ≡ ftx_tid w) × (ftx_owner_died w' ≡ false)
unfolding mtx_consistent
mtx_consistent-ok t w w' h =
    let e : w' ≡ bit_and w (2 ^ 32 - 1 - futex_owner_died) = ground (arith, h) in
    (ap ftx_tid e ∙ ftx_tid-consistent w, ap ftx_owner_died e ∙ ftx_owner_died-consistent w)

pub unlock_round-unlocked : (t w w' : ℕ) → unlock_round t w ≡ (UnlockRound.unlocked, w') → IsMark w'
unfolding unlock_round cas
unlock_round-unlocked t w w' h =
    let m = new_val-IsMark w in let e : w' ≡ new_val w = ground (arith, h) in subst IsMark (sym e) m

pub unlock_round-slow :
    (t w new w' : ℕ) → unlock_round t w ≡ (UnlockRound.slow new, w') → (w' ≡ w) × IsMark new
unfolding unlock_round cas
unlock_round-slow t w new w' h =
    let m = new_val-IsMark w in
    let e : new ≡ new_val w = ground (arith, h) in (ground (arith, h), subst IsMark (sym e) m)

pub ftx_tid-mark :
    (new w : ℕ) → IsMark new → (ftx_tid (mark new w) ≡ futex_tid_mask) ⊎ (mark new w ≡ w)
unfolding mark IsMark
ftx_tid-mark new w (inl z) = inr (rw z refl)
ftx_tid-mark new w (inr n) = inl (rw n (ftx_tid-marked w))

pub ftx_tid-IsMark : (w : ℕ) → IsMark w → (ftx_tid w ≡ 0) ⊎ (ftx_tid w ≡ futex_tid_mask)
unfolding IsMark
ftx_tid-IsMark w (inl z) = inl (ap ftx_tid z ∙ ftx_tid-small 0 (omega arith))
ftx_tid-IsMark w (inr n) = inr (ap ftx_tid n ∙ ftx_tid-not_recoverable)
