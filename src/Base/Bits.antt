-- ===== src/Base/Bits.antt =====
-- The bits of a number, and what `&`, `|`, `^` and the complement of a word do to each of them.
mod Step
pub use Step.*
use Prim.Native.Nat.{
  ℕ, zero, suc, ◌+◌, ◌-◌, ◌*◌, ◌/◌, ◌%◌, ◌^◌, ◌≤◌, ◌<◌, min, max, bit_and, bit_or, bit_xor,
  bit_and-bitwise,
}
use mathlib.Core.Path.{◌≡◌, refl, ◌∙◌, ap}
use mathlib.Core.Bool.{Bool, true, false}
use native.Mathlib.Nat.{pow-suc, one-le-pow}
use native.Mathlib.Omega.{arith}

-- bit `i` of `a`, as 0 or 1
abbrev pub bit : ℕ → ℕ → ℕ
bit zero a = a % 2
bit (suc i) a = bit i (a / 2)

pub bit_and-zero_left : (b : ℕ) → bit_and 0 b ≡ 0
bit_and-zero_left b = bit_and-bitwise 0 b

pub bit-le : (i a : ℕ) → bit i a ≤ 1
bit-le zero a = omega arith
bit-le (suc i) a = bit-le i (a / 2)

pub bit-zero : (i : ℕ) → bit i 0 ≡ 0
bit-zero zero = refl
bit-zero (suc i) = bit-zero i

pub bit-and : (i a b : ℕ) → bit i (bit_and a b) ≡ min (bit i a) (bit i b)
bit-and zero a b = omega (arith, bit_and_step a b)
bit-and (suc i) a b =
    let e : bit_and a b / 2 ≡ bit_and (a / 2) (b / 2) = omega (arith, bit_and_step a b) in
    ap (bit i) e ∙ bit-and i (a / 2) (b / 2)

pub bit-or : (i a b : ℕ) → bit i (bit_or a b) ≡ max (bit i a) (bit i b)
bit-or zero a b = omega (arith, bit_or_step a b)
bit-or (suc i) a b =
    let e : bit_or a b / 2 ≡ bit_or (a / 2) (b / 2) = omega (arith, bit_or_step a b) in
    ap (bit i) e ∙ bit-or i (a / 2) (b / 2)

pub bit-xor : (i a b : ℕ) → bit i (bit_xor a b) ≡ (bit i a + bit i b) % 2
bit-xor zero a b = omega (arith, bit_xor_step a b)
bit-xor (suc i) a b =
    let e : bit_xor a b / 2 ≡ bit_xor (a / 2) (b / 2) = omega (arith, bit_xor_step a b) in
    ap (bit i) e ∙ bit-xor i (a / 2) (b / 2)

-- The complement within `w` bits.
pub bit-not : (w i a : ℕ) → a < 2 ^ w → i < w → bit i (2 ^ w - 1 - a) ≡ 1 - bit i a
bit-not zero i a ha hi = absurd (omega arith)
bit-not (suc w) zero a ha hi = omega (arith, pow-suc 2 w, one-le-pow w 2)
bit-not (suc w) (suc i) a ha hi =
    let e : (2 ^ suc w - 1 - a) / 2 ≡ 2 ^ w - 1 - a / 2 = omega (arith, pow-suc 2 w) in
    ap (bit i) e ∙ bit-not w i (a / 2) (omega (arith, pow-suc 2 w)) (omega arith)

-- A mask of `k` low bits has each of them.
pub bit-mask_low : (k i : ℕ) → i < k → bit i (2 ^ k - 1) ≡ 1
bit-mask_low k i h =
    let e : 2 ^ k - 1 ≡ 2 ^ k - 1 - 0 = omega arith in
    ap (bit i) e
    ∙ bit-not k i 0 (omega (arith, one-le-pow k 2)) h
    ∙ ap (λ (n : ℕ). 1 - n) (bit-zero i)

-- A number below `2 ^ w` has no bit from `w` on.
pub bit-high : (w i a : ℕ) → a < 2 ^ w → w ≤ i → bit i a ≡ 0
bit-high zero zero a ha hi = omega arith
bit-high zero (suc i) a ha hi = bit-high zero i (a / 2) (omega arith) (omega arith)
bit-high (suc w) zero a ha hi = absurd (omega arith)
bit-high (suc w) (suc i) a ha hi = bit-high w i (a / 2) (omega (arith, pow-suc 2 w)) (omega arith)

-- Numbers below `2 ^ w` with the same bits are equal.
pub eq_of_bits : (w a b : ℕ) → a < 2 ^ w → b < 2 ^ w → ((i : ℕ) → i < w → bit i a ≡ bit i b) → a ≡ b
eq_of_bits zero a b ha hb h = omega arith
eq_of_bits (suc w) a b ha hb h =
    let rest : a / 2 ≡ b / 2 =
      eq_of_bits w (a / 2) (b / 2) (omega (arith, pow-suc 2 w)) (omega (arith, pow-suc 2 w))
        (λ i hi. h (suc i) (omega arith)) in
    omega (arith, h 0 (omega arith))

bit_and-le_self_fuel : (n a b : ℕ) → a ≤ n → bit_and a b ≤ a
bit_and-le_self_fuel n zero b h = omega (arith, bit_and-zero_left b)
bit_and-le_self_fuel zero (suc a) b h = absurd (omega arith)
bit_and-le_self_fuel (suc n) (suc a) b h =
    omega (arith, bit_and_step (suc a) b, bit_and-le_self_fuel n (suc a / 2) (b / 2) (omega arith))

pub bit_and-le : (a b : ℕ) → bit_and a b ≤ a
bit_and-le a b = bit_and-le_self_fuel a a b (omega arith)

pub bit_and-lt : (w a b : ℕ) → a < 2 ^ w → bit_and a b < 2 ^ w
bit_and-lt w a b ha = omega (arith, bit_and-le a b)

pub bit_or-lt : (w a b : ℕ) → a < 2 ^ w → b < 2 ^ w → bit_or a b < 2 ^ w
bit_or-lt zero zero zero ha hb = omega arith
bit_or-lt zero (suc a) b ha hb = absurd (omega arith)
bit_or-lt zero zero (suc b) ha hb = absurd (omega arith)
bit_or-lt (suc w) a b ha hb = omega (
  arith,
  bit_or_step a b,
  pow-suc 2 w,
  bit_or-lt w (a / 2) (b / 2) (omega (arith, pow-suc 2 w)) (omega (arith, pow-suc 2 w)),
)

pub bit_xor-lt : (w a b : ℕ) → a < 2 ^ w → b < 2 ^ w → bit_xor a b < 2 ^ w
bit_xor-lt zero zero zero ha hb = omega arith
bit_xor-lt zero (suc a) b ha hb = absurd (omega arith)
bit_xor-lt zero zero (suc b) ha hb = absurd (omega arith)
bit_xor-lt (suc w) a b ha hb = omega (
  arith,
  bit_xor_step a b,
  pow-suc 2 w,
  bit_xor-lt w (a / 2) (b / 2) (omega (arith, pow-suc 2 w)) (omega (arith, pow-suc 2 w)),
)

bit_and-zero_right : (n a : ℕ) → a ≤ n → bit_and a 0 ≡ 0
bit_and-zero_right n zero h = bit_and-zero_left 0
bit_and-zero_right zero (suc a) h = absurd (omega arith)
bit_and-zero_right (suc n) (suc a) h =
    omega (arith, bit_and_step (suc a) 0, bit_and-zero_right n (suc a / 2) (omega arith))

pub bit_and-zero : (a : ℕ) → bit_and a 0 ≡ 0
bit_and-zero a = bit_and-zero_right a a (omega arith)

bit_or-zero_right : (n a : ℕ) → a ≤ n → bit_or a 0 ≡ a
bit_or-zero_right n zero h = omega arith
bit_or-zero_right zero (suc a) h = absurd (omega arith)
bit_or-zero_right (suc n) (suc a) h =
    omega (arith, bit_or_step (suc a) 0, bit_or-zero_right n (suc a / 2) (omega arith))

pub bit_or-zero : (a : ℕ) → bit_or a 0 ≡ a
bit_or-zero a = bit_or-zero_right a a (omega arith)

mul-two_pow_suc : (a k : ℕ) → a * 2 ^ suc k ≡ 2 * (a * 2 ^ k)
mul-two_pow_suc a k = omega (arith, ap (λ (t : ℕ). a * t) (pow-suc 2 k))

-- `(a << k) | b` is a sum where `b` fits in the `k` low bits.
pub bit_or-disjoint : (k a b : ℕ) → b < 2 ^ k → bit_or (a * 2 ^ k) b ≡ a * 2 ^ k + b
bit_or-disjoint zero a b h = ground (arith, bit_or-zero a)
bit_or-disjoint (suc k) a b h = ground (
  arith,
  bit_or_step (a * 2 ^ suc k) b,
  mul-two_pow_suc a k,
  pow-suc 2 k,
  bit_or-disjoint k a (b / 2),
)

low_mask_parts : (k q r : ℕ) → r < 2 ^ k → bit_and (q * 2 ^ k + r) (2 ^ k - 1) ≡ r
low_mask_parts zero q r h = ground (arith, bit_and-zero (q * 2 ^ zero + r))
low_mask_parts (suc k) q r h = ground (
  arith,
  bit_and_step (q * 2 ^ suc k + r) (2 ^ suc k - 1),
  mul-two_pow_suc q k,
  pow-suc 2 k,
  one-le-pow k 2,
  low_mask_parts k q (r / 2),
)

-- `a & (2^k - 1)` is the remainder by `2^k`.
pub bit_and-low_mask : (k a : ℕ) → bit_and a (2 ^ k - 1) ≡ a % 2 ^ k
bit_and-low_mask k a = ground (arith, one-le-pow k 2, low_mask_parts k (a / 2 ^ k) (a % 2 ^ k))

bit_or_comm_fuel : (n a b : ℕ) → a ≤ n → b ≤ n → bit_or a b ≡ bit_or b a
bit_or_comm_fuel n zero zero ha hb = refl
bit_or_comm_fuel zero (suc a) b ha hb = absurd (omega arith)
bit_or_comm_fuel zero zero (suc b) ha hb = absurd (omega arith)
bit_or_comm_fuel (suc n) a b ha hb = omega (
  arith,
  bit_or_step a b,
  bit_or_step b a,
  bit_or_comm_fuel n (a / 2) (b / 2) (omega arith) (omega arith),
)

pub bit_or_comm : (a b : ℕ) → bit_or a b ≡ bit_or b a
bit_or_comm a b = bit_or_comm_fuel (a + b) a b (omega arith) (omega arith)

bit_and_comm_fuel : (n a b : ℕ) → a ≤ n → b ≤ n → bit_and a b ≡ bit_and b a
bit_and_comm_fuel n zero zero ha hb = refl
bit_and_comm_fuel zero (suc a) b ha hb = absurd (omega arith)
bit_and_comm_fuel zero zero (suc b) ha hb = absurd (omega arith)
bit_and_comm_fuel (suc n) a b ha hb = omega (
  arith,
  bit_and_step a b,
  bit_and_step b a,
  bit_and_comm_fuel n (a / 2) (b / 2) (omega arith) (omega arith),
)

pub bit_and_comm : (a b : ℕ) → bit_and a b ≡ bit_and b a
bit_and_comm a b = bit_and_comm_fuel (a + b) a b (omega arith) (omega arith)
