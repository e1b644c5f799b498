-- ===== src/Base/Bits/Step.antt =====
-- The native bit operations recur on binary digits, with the first number as fuel. Here is one
-- equation for the lowest digit of each, with no fuel.
use Prim.Native.Nat.{ℕ, zero, suc, ◌+◌, ◌*◌, ◌/◌, ◌%◌, ◌≤◌, ◌<◌, ◌-◌, min, max}
use Prim.Native.Nat.{digits, bitwise, differ, bit_and, bit_or, bit_xor}
use Prim.Native.Nat.{bit_and-bitwise, bit_or-bitwise, bit_xor-bitwise}
use mathlib.Core.Path.{◌≡◌, refl, ◌∙◌, ap}
use native.Mathlib.Omega.{arith}

module _ (base : ℕ → ℕ) (join : ℕ → ℕ → ℕ) where
  -- One unit of fuel beyond the number itself makes no difference.
  spare : (fuel x y : ℕ) → x ≤ fuel → digits base join (suc fuel) x y ≡ digits base join fuel x y
  spare zero zero y h = refl
  spare (suc fuel) zero y h = refl
  spare zero (suc x) y h = absurd (omega arith)
  spare (suc fuel) (suc x) y h =
      ap (λ (t : ℕ). t * 2 + join (suc x % 2) (y % 2))
        (spare fuel (suc x / 2) (y / 2) (omega arith))

  shed : (k fuel x y : ℕ) → x + k ≡ fuel → digits base join fuel x y ≡ digits base join x x y
  shed zero fuel x y e = ap (λ n. digits base join n x y) (omega arith)
  shed (suc k) zero x y e = absurd (omega arith)
  shed (suc k) (suc fuel) x y e = spare fuel x y (omega arith) ∙ shed k fuel x y (omega arith)

  lowest :
      (x y : ℕ)
      → bitwise base join (suc x) y
        ≡ bitwise base join (suc x / 2) (y / 2) * 2 + join (suc x % 2) (y % 2)
  lowest x y =
      ap (λ (t : ℕ). t * 2 + join (suc x % 2) (y % 2))
        (shed (x - suc x / 2) x (suc x / 2) (y / 2) (omega arith))

-- exclusive or of two digits
differ-mod : (a b : ℕ) → a < 2 → b < 2 → differ a b ≡ (a + b) % 2
differ-mod zero b ha hb = omega arith
differ-mod (suc zero) zero ha hb = omega arith
differ-mod (suc zero) (suc zero) ha hb = omega arith
differ-mod (suc zero) (suc (suc b)) ha hb = absurd (omega arith)
differ-mod (suc (suc a)) b ha hb = absurd (omega arith)

pub bit_and_step : (a b : ℕ) → bit_and a b ≡ bit_and (a / 2) (b / 2) * 2 + min (a % 2) (b % 2)
bit_and_step zero y = omega (arith, bit_and-bitwise 0 y, bit_and-bitwise 0 (y / 2))
bit_and_step (suc x) y =
    omega (
      arith,
      lowest (λ _. 0) min x y,
      bit_and-bitwise (suc x) y,
      bit_and-bitwise (suc x / 2) (y / 2),
    )

pub bit_or_step : (a b : ℕ) → bit_or a b ≡ bit_or (a / 2) (b / 2) * 2 + max (a % 2) (b % 2)
bit_or_step zero y = omega (arith, bit_or-bitwise 0 y, bit_or-bitwise 0 (y / 2))
bit_or_step (suc x) y =
    omega
      (arith, lowest (λ t. t) max x y, bit_or-bitwise (suc x) y, bit_or-bitwise (suc x / 2) (y / 2))

pub bit_xor_step : (a b : ℕ) → bit_xor a b ≡ bit_xor (a / 2) (b / 2) * 2 + (a % 2 + b % 2) % 2
bit_xor_step zero y = omega (arith, bit_xor-bitwise 0 y, bit_xor-bitwise 0 (y / 2))
bit_xor_step (suc x) y = omega (
  arith,
  lowest (λ t. t) differ x y,
  differ-mod (suc x % 2) (y % 2) (omega arith) (omega arith),
  bit_xor-bitwise (suc x) y,
  bit_xor-bitwise (suc x / 2) (y / 2),
)
