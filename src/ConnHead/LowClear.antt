-- ===== src/ConnHead/LowClear.antt =====
-- `m | (m + 1)` sets the lowest bit that is clear.
use thoth_ipc.Base.{
  ℕ, zero, suc, ◌+◌, ◌*◌, ◌/◌, ◌%◌, ◌^◌, ◌≤◌, ◌<◌, bit_or, bit_xor, ◌≡◌, refl, ap, ◌∙◌, arith,
  ℕ_discrete,
}
use native.Mathlib.Nat.{pow-suc}
use thoth_ipc.Base.Bits.{bit, bit_or_step, bit_xor_step}
use thoth_ipc.ConnHead.{count_ones}

-- Bit `t` is the lowest of `m` that is clear; `next` has it besides, and `id` is that bit alone.
pub record IsLowClear (w m next id t : ℕ) : Type 0 where
  pub below : t < w
  pub clear : bit t m ≡ 0
  pub ones : (i : ℕ) → i < t → bit i m ≡ 1
  pub next_eq : next ≡ m + 2 ^ t
  pub id_eq : id ≡ 2 ^ t
  pub count : count_ones w next ≡ suc (count_ones w m)

or_self : (n m : ℕ) → m ≤ n → bit_or m m ≡ m
or_self n zero h = refl
or_self zero (suc m) h = absurd (omega arith)
or_self (suc n) (suc m) h =
    omega (arith, bit_or_step (suc m) (suc m), or_self n (suc m / 2) (omega arith))

xor_self : (n m : ℕ) → m ≤ n → bit_xor m m ≡ 0
xor_self n zero h = refl
xor_self zero (suc m) h = absurd (omega arith)
xor_self (suc n) (suc m) h =
    omega (arith, bit_xor_step (suc m) (suc m), xor_self n (suc m / 2) (omega arith))

ones_up :
    (m t : ℕ)
    → m % 2 ≡ 1
    → ((i : ℕ) → i < t → bit i (m / 2) ≡ 1)
    → (i : ℕ) → i < suc t
    → bit i m ≡ 1
ones_up m t odd rest zero h = odd
ones_up m t odd rest (suc i) h = rest i (omega arith)

-- one round of the walk over the low ones
step_up :
    (w m t : ℕ)
    → m % 2 ≡ 1
    → IsLowClear w
        (m / 2)
        (bit_or (m / 2) (m / 2 + 1))
        (bit_xor (bit_or (m / 2) (m / 2 + 1)) (m / 2))
        t
    → IsLowClear (suc w) m (bit_or m (m + 1)) (bit_xor (bit_or m (m + 1)) m) (suc t)
unfolding count_ones
step_up w m t odd low =
    let half : (m + 1) / 2 ≡ m / 2 + 1 = omega arith in
    let or : bit_or m (m + 1) ≡ bit_or (m / 2) (m / 2 + 1) * 2 + 1 =
      omega (arith, bit_or_step m (m + 1), ap (bit_or (m / 2)) half) in
    let or_half : bit_or m (m + 1) / 2 ≡ bit_or (m / 2) (m / 2 + 1) = omega (arith, or) in
    record {
      below = omega (arith, low.below);
      clear = low.clear;
      ones = ones_up m t odd low.ones;
      next_eq = omega (arith, or, low.next_eq, pow-suc 2 t);
      id_eq = omega (
        arith,
        bit_xor_step (bit_or m (m + 1)) m,
        or,
        ap (λ (x : ℕ). bit_xor x (m / 2)) or_half,
        low.id_eq,
        pow-suc 2 t,
      );
      count =
          ap (λ (x : ℕ). bit_or m (m + 1) % 2 + count_ones w x) or_half
          ∙ omega (arith, low.count, or);
    }

pub low_clear :
    (w m : ℕ)
    → m + 1 < 2 ^ w
    → (t : ℕ) × IsLowClear w m (bit_or m (m + 1)) (bit_xor (bit_or m (m + 1)) m) t
unfolding count_ones
low_clear zero m h = absurd (omega arith)
low_clear (suc w) m h = elim (ℕ_discrete (m % 2) 1) [
  | yes odd ↦
      let (t, low) = low_clear w (m / 2) (omega (arith, pow-suc 2 w)) in
      (suc t, step_up w m t odd low)
  | no even ↦
      let half : (m + 1) / 2 ≡ m / 2 = omega arith in
      let or : bit_or m (m + 1) ≡ m + 1 = omega (
        arith,
        bit_or_step m (m + 1),
        ap (bit_or (m / 2)) half,
        or_self (m / 2) (m / 2) (omega arith),
      ) in
      let or_half : bit_or m (m + 1) / 2 ≡ m / 2 = omega (arith, or) in
      (
        0,
        record {
          below = omega arith;
          clear = omega arith;
          ones = λ i hi. absurd (omega arith);
          next_eq = or;
          id_eq = omega (
            arith,
            bit_xor_step (bit_or m (m + 1)) m,
            or,
            ap (λ (x : ℕ). bit_xor x (m / 2)) or_half,
            xor_self (m / 2) (m / 2) (omega arith),
          );
          count = ap (λ (x : ℕ). bit_or m (m + 1) % 2 + count_ones w x) or_half ∙ omega (arith, or);
        },
      )
]
