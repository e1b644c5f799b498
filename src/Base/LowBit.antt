-- ===== src/Base/LowBit.antt =====
-- The lowest set bit of a word: `trailing_zeros`, `m & m.wrapping_neg()` and `m & (m - 1)`.
use Prim.Native.Nat.{ℕ, zero, suc, ◌-◌, ◌/◌, ◌%◌, ◌^◌, ◌≤◌, ◌<◌, bit_and}
use mathlib.Core.Path.{◌≡◌, refl, ◌∙◌, ap, sym}
use mathlib.Core.Logic.{◌≢◌}
use native.Mathlib.Nat.{pow-suc, one-le-pow}
use native.Mathlib.Omega.{arith}
use native.Mathlib.Decide.{ℕ_discrete}
use thoth_ipc.Base.Tests.{◌==◌, if◌then◌else◌}
use thoth_ipc.Base.Bits.{bit, bit-zero, bit_and_step}

-- `trailing_zeros` of a word of `w` bits
unfoldable pub trailing_zeros : ℕ → ℕ → ℕ
trailing_zeros zero m = 0
trailing_zeros (suc w) m = let rest = trailing_zeros w (m / 2) in if m % 2 == 1 then 0 else suc rest

trailing_odd : (w m : ℕ) → m % 2 ≡ 1 → trailing_zeros (suc w) m ≡ 0
unfolding trailing_zeros
trailing_odd w m h = rw h refl

trailing_even : (w m : ℕ) → m % 2 ≡ 0 → trailing_zeros (suc w) m ≡ suc (trailing_zeros w (m / 2))
unfolding trailing_zeros
trailing_even w m h = rw h refl

pub trailing_zeros-lt : (w m : ℕ) → 0 < m → m < 2 ^ w → trailing_zeros w m < w
trailing_zeros-lt zero m hp h = absurd (omega arith)
trailing_zeros-lt (suc w) m hp h = elim (ℕ_discrete (m % 2) 1) [
  | yes odd ↦ omega (arith, trailing_odd w m odd)
  | no even ↦ omega (
    arith,
    trailing_even w m (omega arith),
    pow-suc 2 w,
    trailing_zeros-lt w (m / 2) (omega arith) (omega (arith, pow-suc 2 w)),
  )
]

pub bit-trailing_zeros : (w m : ℕ) → 0 < m → m < 2 ^ w → bit (trailing_zeros w m) m ≡ 1
bit-trailing_zeros zero m hp h = absurd (omega arith)
bit-trailing_zeros (suc w) m hp h = elim (ℕ_discrete (m % 2) 1) [
  | yes odd ↦ rw (trailing_odd w m odd) odd
  | no even ↦
      rw (trailing_even w m (omega arith))
        (bit-trailing_zeros w (m / 2) (omega arith) (omega (arith, pow-suc 2 w)))
]

bit_and_self : (n m : ℕ) → m ≤ n → bit_and m m ≡ m
bit_and_self n zero h = refl
bit_and_self zero (suc m) h = absurd (omega arith)
bit_and_self (suc n) (suc m) h =
    omega (arith, bit_and_step (suc m) (suc m), bit_and_self n (suc m / 2) (omega arith))

bit_and-complement : (w m : ℕ) → m < 2 ^ w → bit_and m (2 ^ w - 1 - m) ≡ 0
bit_and-complement zero zero h = refl
bit_and-complement zero (suc m) h = absurd (omega arith)
bit_and-complement (suc w) m h =
    let e : (2 ^ suc w - 1 - m) / 2 ≡ 2 ^ w - 1 - m / 2 = omega (arith, pow-suc 2 w) in
    let below : bit_and (m / 2) ((2 ^ suc w - 1 - m) / 2) ≡ 0 =
      rw e (bit_and-complement w (m / 2) (omega (arith, pow-suc 2 w))) in
    omega (arith, pow-suc 2 w, one-le-pow w 2, bit_and_step m (2 ^ suc w - 1 - m), below)

-- `m & -m` is the lowest set bit alone.
pub bit_and-neg : (w m : ℕ) → 0 < m → m < 2 ^ w → bit_and m (2 ^ w - m) ≡ 2 ^ trailing_zeros w m
bit_and-neg zero m hp h = absurd (omega arith)
bit_and-neg (suc w) m hp h = elim (ℕ_discrete (m % 2) 1) [
  | yes odd ↦
      let e : (2 ^ suc w - m) / 2 ≡ 2 ^ w - 1 - m / 2 = omega (arith, pow-suc 2 w) in
      let above : bit_and (m / 2) ((2 ^ suc w - m) / 2) ≡ 0 =
        rw e (bit_and-complement w (m / 2) (omega (arith, pow-suc 2 w))) in
      rw (trailing_odd w m odd) (omega (arith, pow-suc 2 w, bit_and_step m (2 ^ suc w - m), above))
  | no even ↦
      let e : (2 ^ suc w - m) / 2 ≡ 2 ^ w - m / 2 = omega (arith, pow-suc 2 w) in
      let above : bit_and (m / 2) ((2 ^ suc w - m) / 2) ≡ 2 ^ trailing_zeros w (m / 2) =
        rw e (bit_and-neg w (m / 2) (omega arith) (omega (arith, pow-suc 2 w))) in
      rw (trailing_even w m (omega arith)) (
        omega (
          arith,
          pow-suc 2 w,
          pow-suc 2 (trailing_zeros w (m / 2)),
          bit_and_step m (2 ^ suc w - m),
          above,
        ))
]

pub bit-pow_self : (t : ℕ) → bit t (2 ^ t) ≡ 1
bit-pow_self zero = refl
bit-pow_self (suc t) =
    let e : 2 ^ suc t / 2 ≡ 2 ^ t = omega (arith, pow-suc 2 t) in ap (bit t) e ∙ bit-pow_self t

pub bit-pow_ne : (i t : ℕ) → i ≢ t → bit i (2 ^ t) ≡ 0
bit-pow_ne zero zero ne = absurd (ne refl)
bit-pow_ne zero (suc t) ne = omega (arith, pow-suc 2 t)
bit-pow_ne (suc i) zero ne = bit-zero i
bit-pow_ne (suc i) (suc t) ne =
    let e : 2 ^ suc t / 2 ≡ 2 ^ t = omega (arith, pow-suc 2 t) in
    ap (bit i) e ∙ bit-pow_ne i t (λ h. ne (ap suc h))

pub trailing_zeros-pow : (w t : ℕ) → t < w → trailing_zeros w (2 ^ t) ≡ t
trailing_zeros-pow zero t h = absurd (omega arith)
trailing_zeros-pow (suc w) zero h = trailing_odd w 1 refl
trailing_zeros-pow (suc w) (suc t) h =
    let e : 2 ^ suc t / 2 ≡ 2 ^ t = omega (arith, pow-suc 2 t) in
    trailing_even w (2 ^ suc t) (omega (arith, pow-suc 2 t))
    ∙ rw e (ap suc (trailing_zeros-pow w t (omega arith)))

-- `m & (m - 1)` drops the lowest set bit,
pub bit-drop_lowest :
    (w m : ℕ) → 0 < m → m < 2 ^ w → bit (trailing_zeros w m) (bit_and m (m - 1)) ≡ 0
bit-drop_lowest zero m hp h = absurd (omega arith)
bit-drop_lowest (suc w) m hp h = elim (ℕ_discrete (m % 2) 1) [
  | yes odd ↦ rw (trailing_odd w m odd) (omega (arith, bit_and_step m (m - 1)))
  | no even ↦
      let e : (m - 1) / 2 ≡ m / 2 - 1 = omega arith in
      let half : bit_and m (m - 1) / 2 ≡ bit_and (m / 2) (m / 2 - 1) =
        rw (sym e) (omega (arith, bit_and_step m (m - 1))) in
      rw (trailing_even w m (omega arith)) (
        ap (bit (trailing_zeros w (m / 2))) half
        ∙ bit-drop_lowest w (m / 2) (omega arith) (omega (arith, pow-suc 2 w)))
]

drop_lowest_odd : (m i : ℕ) → m % 2 ≡ 1 → i ≢ 0 → bit i (bit_and m (m - 1)) ≡ bit i m
drop_lowest_odd m zero odd ne = absurd (ne refl)
drop_lowest_odd m (suc i) odd ne =
    let e : (m - 1) / 2 ≡ m / 2 = omega arith in
    let below : bit_and (m / 2) ((m - 1) / 2) ≡ m / 2 =
      rw e (bit_and_self (m / 2) (m / 2) (omega arith)) in
    let half : bit_and m (m - 1) / 2 ≡ m / 2 = omega (arith, bit_and_step m (m - 1), below) in
    ap (bit i) half

-- and leaves every other bit.
pub bit-drop_lowest_ne :
    (w m i : ℕ) → 0 < m → m < 2 ^ w → i ≢ trailing_zeros w m → bit i (bit_and m (m - 1)) ≡ bit i m
bit-drop_lowest_ne zero m i hp h ne = absurd (omega arith)
bit-drop_lowest_ne (suc w) m zero hp h ne = elim (ℕ_discrete (m % 2) 1) [
  | yes odd ↦ absurd (ne (sym (trailing_odd w m odd)))
  | no even ↦ omega (arith, bit_and_step m (m - 1))
]
bit-drop_lowest_ne (suc w) m (suc i) hp h ne = elim (ℕ_discrete (m % 2) 1) [
  | yes odd ↦ drop_lowest_odd m (suc i) odd (λ e. omega (arith, e))
  | no even ↦
      let even' : m % 2 ≡ 0 = omega arith in
      let e : (m - 1) / 2 ≡ m / 2 - 1 = omega arith in
      let half : bit_and m (m - 1) / 2 ≡ bit_and (m / 2) (m / 2 - 1) =
        rw (sym e) (omega (arith, bit_and_step m (m - 1))) in
      ap (bit i) half
      ∙ bit-drop_lowest_ne w (m / 2) i (omega arith) (omega (arith, pow-suc 2 w))
          (λ e. ne (ap suc e ∙ sym (trailing_even w m even')))
]

-- Below the lowest set bit there is none.
pub bit-below_trailing_zeros : (w m i : ℕ) → i < trailing_zeros w m → bit i m ≡ 0
unfolding trailing_zeros
bit-below_trailing_zeros zero m i h = absurd (omega arith)
bit-below_trailing_zeros (suc w) m zero h = elim (ℕ_discrete (m % 2) 1) [
  | yes odd ↦ absurd (omega (arith, h, trailing_odd w m odd))
  | no even ↦ omega arith
]
bit-below_trailing_zeros (suc w) m (suc i) h = elim (ℕ_discrete (m % 2) 1) [
  | yes odd ↦ absurd (omega (arith, h, trailing_odd w m odd))
  | no even ↦
      bit-below_trailing_zeros w (m / 2) i (omega (arith, h, trailing_even w m (omega arith)))
]

pub two_pow-lt : (t w : ℕ) → t < w → 2 ^ t < 2 ^ w
two_pow-lt t zero h = absurd (omega arith)
two_pow-lt zero (suc w) h = omega (arith, pow-suc 2 w, one-le-pow w 2)
two_pow-lt (suc t) (suc w) h = omega (arith, pow-suc 2 t, pow-suc 2 w, two_pow-lt t w (omega arith))
