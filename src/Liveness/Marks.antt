-- ===== src/Liveness/Marks.antt =====
-- Which unread marks hold a writer up: those of receivers that started at or before the element.
use thoth_ipc.Base.{
  ℕ, ◌-◌, ◌^◌, ◌≤◌, ◌<◌, max, bit_and, bit_or, ◌≡◌, refl, ap, ◌∙◌, arith, ℕ_discrete, some, Bool,
  true, false, List, if◌then◌else◌, trailing_zeros,
}
use thoth_ipc.Base.Bits.{bit_and-le, bit_or-lt, bit, bit-le, bit-zero, bit-or}
use thoth_ipc.Base.LowBit.{
  bit_and-neg, bit-pow_self, bit-pow_ne, bit-trailing_zeros, trailing_zeros-lt, trailing_zeros-pow,
  bit-drop_lowest, bit-drop_lowest_ne,
}
use thoth_ipc.Base.EachBit.{each_bit-elim}
use thoth_ipc.Liveness.{SlotOwner, owner_at, at_or_after, keep_live, live_marks}

-- One round at the bit of the round, and at any other bit.
pub round_same :
    (b c : Bool) (pow lb bb mb mb' kept : ℕ)
    → b ≡ c
    → pow ≡ 1
    → mb ≡ 1
    → mb' ≡ 0
    → bb ≤ 1
    → mb ≤ bb
    → lb ≡ (if b then bb - mb else 0)
    → kept ≡ (if c then max lb pow else lb)
    → (mb' ≤ bb) × (kept ≡ (if b then bb - mb' else 0))
round_same true true pow lb bb mb mb' kept e p m m' b1 le l k = (omega arith, omega arith)
round_same false false pow lb bb mb mb' kept e p m m' b1 le l k = (omega arith, omega arith)
round_same true false pow lb bb mb mb' kept e p m m' b1 le l k = cc
round_same false true pow lb bb mb mb' kept e p m m' b1 le l k = cc

pub round_other :
    (b c : Bool) (pow lb bb mb mb' kept : ℕ)
    → pow ≡ 0
    → mb' ≡ mb
    → mb ≤ bb
    → lb ≡ (if b then bb - mb else 0)
    → kept ≡ (if c then max lb pow else lb)
    → (mb' ≤ bb) × (kept ≡ (if b then bb - mb' else 0))
round_other true true pow lb bb mb mb' kept p m le l k = (omega arith, omega arith)
round_other true false pow lb bb mb mb' kept p m le l k = (omega arith, omega arith)
round_other false true pow lb bb mb mb' kept p m le l k = (omega arith, omega arith)
round_other false false pow lb bb mb mb' kept p m le l k = (omega arith, omega arith)

module _ (slots : List SlotOwner) (pos : ℕ) where
  abbrev counts : ℕ → Bool
  counts i = at_or_after pos (owner_at slots i).since

  -- Where `m` are the bits still to do, `live` has those done of `bits` that count.
  abbrev Done : ℕ → ℕ → ℕ → Type 0
  Done bits m live =
      (i : ℕ)
      → (bit i m ≤ bit i bits) × (bit i live ≡ (if counts i then bit i bits - bit i m else 0))

  keep_live_pow :
      (t live i : ℕ)
      → t < 32
      → bit i (keep_live slots pos (2 ^ t) live)
        ≡ (if counts t then max (bit i live) (bit i (2 ^ t)) else bit i live)
  unfolding keep_live
  keep_live_pow t live i h = rw (trailing_zeros-pow 32 t h) (go (counts t))
    where
      go :
          (b : Bool)
          → bit i (if b then bit_or live (2 ^ t) else live)
            ≡ (if b then max (bit i live) (bit i (2 ^ t)) else bit i live)
      go true = bit-or i live (2 ^ t)
      go false = refl

  keep_live-Done :
      (bits m live : ℕ)
      → 0 < m
      → m < 2 ^ 32
      → Done bits m live
      → Done bits (bit_and m (m - 1)) (keep_live slots pos (2 ^ trailing_zeros 32 m) live)
  keep_live-Done bits m live hp hm done i =
      let t = trailing_zeros 32 m in
      let kept = keep_live_pow t live i (trailing_zeros-lt 32 m hp hm) in
      let (le, e) = done i in
      elim (ℕ_discrete i t) [
        | yes it ↦
            round_same (counts i) (counts t) (bit i (2 ^ t)) (bit i live) (bit i bits) (bit i m)
              (bit i (bit_and m (m - 1))) (bit i (keep_live slots pos (2 ^ t) live)) (ap counts it)
              (rw it (bit-pow_self t)) (rw it (bit-trailing_zeros 32 m hp hm))
              (rw it (bit-drop_lowest 32 m hp hm)) (bit-le i bits) le e kept
        | no it ↦
            round_other (counts i) (counts t) (bit i (2 ^ t)) (bit i live) (bit i bits) (bit i m)
              (bit i (bit_and m (m - 1))) (bit i (keep_live slots pos (2 ^ t) live))
              (bit-pow_ne i t it) (bit-drop_lowest_ne 32 m i hp hm it) le e kept
      ]

  none-Done : (bits : ℕ) → Done bits bits 0
  none-Done bits i = (omega arith, rw (bit-zero i) (go (counts i) (bit i bits)))
    where
      go : (b : Bool) (n : ℕ) → 0 ≡ (if b then n - n else 0)
      go true n = omega arith
      go false n = refl

-- A mark of `bits` is live exactly where the owner of its bit started to read at or before `pos`,
-- counting round the 32-bit cursor.
pub bit-live_marks :
    (slots : List SlotOwner) (bits pos i : ℕ)
    → bits < 2 ^ 32
    → bit i (live_marks (some slots) bits pos)
      ≡ (if at_or_after pos (owner_at slots i).since then bit i bits else 0)
unfolding live_marks
bit-live_marks slots bits pos i h =
    let done =
      each_bit-elim (Done slots pos bits) (keep_live slots pos) (keep_live-Done slots pos bits) 32 0
        bits 0 (omega arith) h (λ i hi. absurd (omega arith)) (none-Done slots pos bits) in
    let all : bit i bits - bit i 0 ≡ bit i bits = omega (arith, bit-zero i) in
    (done i).1 ∙ ap (λ (n : ℕ). if at_or_after pos (owner_at slots i).since then n else 0) all

keep_live-lt :
    (slots : List SlotOwner) (pos m live : ℕ)
    → 0 < m
    → m < 2 ^ 32
    → live < 2 ^ 32
    → keep_live slots pos (2 ^ trailing_zeros 32 m) live < 2 ^ 32
unfolding keep_live
keep_live-lt slots pos m live hp hm h =
    let bit_lt : 2 ^ trailing_zeros 32 m < 2 ^ 32 =
      omega (arith, bit_and-neg 32 m hp hm, bit_and-le m (2 ^ 32 - m)) in
    go (at_or_after pos (owner_at slots (trailing_zeros 32 (2 ^ trailing_zeros 32 m))).since)
      (bit_or-lt 32 live (2 ^ trailing_zeros 32 m) h bit_lt)
  where
    go : (b : Bool) {x : ℕ} → x < 2 ^ 32 → (if b then x else live) < 2 ^ 32
    go true hx = hx
    go false hx = h

pub live_marks-lt :
    (slots : List SlotOwner) (bits pos : ℕ)
    → bits < 2 ^ 32
    → live_marks (some slots) bits pos < 2 ^ 32
unfolding live_marks
live_marks-lt slots bits pos h =
    each_bit-elim (λ m live. live < 2 ^ 32) (keep_live slots pos)
      (λ m live hp hm lt. keep_live-lt slots pos m live hp hm lt) 32 0 bits 0 (omega arith) h
      (λ i hi. absurd (omega arith)) (omega arith)
