-- ===== src/ShmName/Hex.antt =====
-- The hexadecimal form of a hash, and how it is read back.
use thoth_ipc.Base.{
  ℕ, zero, suc, ◌+◌, ◌-◌, ◌*◌, ◌/◌, ◌%◌, ◌^◌, ◌<◌, ◌≡◌, refl, ap, ◌∙◌, arith, bit_and, List, [],
  ◌∷◌, length, get_or, ltb, if◌then◌else◌, Bool, true, false, ◌&&◌, ◌==◌, ℕ_discrete,
}
use thoth_ipc.Base.Bits.{bit_and-low_mask}
use native.Mathlib.Nat.{pow-suc}
use thoth_ipc.ShmName.{digits, hex_from, to_hex}

-- The value of a digit, and of the digits after `n`
abbrev pub digit_value : ℕ → ℕ
digit_value c = if ltb c 97 then c - 48 else c - 87

unfoldable pub of_hex : ℕ → List ℕ → ℕ
of_hex n [] = n
of_hex n (c ∷ cs) = of_hex (n * 16 + digit_value c) cs

-- `p` holds of all numbers below `n`.
abbrev all_below : (ℕ → Bool) → ℕ → Bool
all_below p zero = true
all_below p (suc n) = p n && all_below p n

both_true : (a b : Bool) → (a && b) ≡ true → (a ≡ true) × (b ≡ true)
both_true true b h = (refl, h)
both_true false b h = cc

all_below_sound : (p : ℕ → Bool) (n d : ℕ) → all_below p n ≡ true → d < n → p d ≡ true
all_below_sound p zero d h lt = absurd (omega arith)
all_below_sound p (suc n) d h lt =
    let (here, below) = both_true (p n) (all_below p n) h in
    elim (ℕ_discrete d n) [
      | yes e ↦ ap p e ∙ here
      | no ne ↦ all_below_sound p n d below (omega arith)
    ]

digit-read : (d : ℕ) → d < 16 → digit_value (get_or digits d 0) ≡ d
digit-read d h =
    let test : (digit_value (get_or digits d 0) == d) ≡ true =
      all_below_sound (λ d. digit_value (get_or digits d 0) == d) 16 d refl h in
    ground (arith, test)

hex_from-reads : (k v : ℕ) (buf : List ℕ) → v < 16 ^ k → of_hex 0 (hex_from k v buf) ≡ of_hex v buf
unfolding hex_from of_hex
hex_from-reads zero v buf h = let z : v ≡ 0 = omega arith in rw z refl
hex_from-reads (suc k) v buf h =
    let low : bit_and v 15 ≡ v % 16 = bit_and-low_mask 4 v in
    let digit : digit_value (get_or digits (bit_and v 15) 0) ≡ v % 16 =
      digit-read (bit_and v 15) (omega (arith, low)) ∙ low in
    hex_from-reads k (v / 16) (get_or digits (bit_and v 15) 0 ∷ buf) (omega (arith, pow-suc 16 k))
    ∙ ap (λ n. of_hex n buf) (omega (arith, digit))

length-hex_from : (k v : ℕ) (buf : List ℕ) → length (hex_from k v buf) ≡ k + length buf
unfolding hex_from
length-hex_from zero v buf = omega arith
length-hex_from (suc k) v buf =
    omega (arith, length-hex_from k (v / 16) (get_or digits (bit_and v 15) 0 ∷ buf))

pub length-to_hex : (v : ℕ) → length (to_hex v) ≡ 16
unfolding to_hex
length-to_hex v = omega (arith, length-hex_from 16 v [])

-- A hash of 64 bits has a hexadecimal form of 16 digits, and reading the digits gives the hash
-- back.
pub of_hex-to_hex : (v : ℕ) → v < 2 ^ 64 → (length (to_hex v) ≡ 16) × (of_hex 0 (to_hex v) ≡ v)
unfolding to_hex of_hex
of_hex-to_hex v h = (length-to_hex v, hex_from-reads 16 v [] h)
