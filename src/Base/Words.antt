-- ===== src/Base/Words.antt =====
-- Unsigned machine words as native numbers: every operation that can wrap, wraps.
use Prim.Native.Nat.{ℕ, ◌+◌, ◌-◌, ◌%◌, ◌^◌, compare, Ordering}
use mathlib.Core.Option.{Option, none, some}

abbrev pub u8 : ℕ → ℕ
u8 n = n % 2 ^ 8

abbrev pub u16 : ℕ → ℕ
u16 n = n % 2 ^ 16

abbrev pub u32 : ℕ → ℕ
u32 n = n % 2 ^ 32

abbrev pub u64 : ℕ → ℕ
u64 n = n % 2 ^ 64

-- `wrapping_add`, `wrapping_sub`, `wrapping_neg` and `!` of a `u32`
abbrev pub add32 : ℕ → ℕ → ℕ
add32 a b = (a + b) % 2 ^ 32

abbrev pub sub32 : ℕ → ℕ → ℕ
sub32 a b = (a + 2 ^ 32 - b) % 2 ^ 32

abbrev pub neg32 : ℕ → ℕ
neg32 a = (2 ^ 32 - a) % 2 ^ 32

abbrev pub not32 : ℕ → ℕ
not32 a = 2 ^ 32 - 1 - a

-- the same of a `u64`
abbrev pub add64 : ℕ → ℕ → ℕ
add64 a b = (a + b) % 2 ^ 64

abbrev pub sub64 : ℕ → ℕ → ℕ
sub64 a b = (a + 2 ^ 64 - b) % 2 ^ 64

abbrev pub neg64 : ℕ → ℕ
neg64 a = (2 ^ 64 - a) % 2 ^ 64

abbrev pub not64 : ℕ → ℕ
not64 a = 2 ^ 64 - 1 - a

-- `usize::checked_add` on a 64-bit target
abbrev pub checked_add : ℕ → ℕ → Option ℕ
checked_add a b = elim (compare (a + b) (2 ^ 64)) [ Ordering.lt ↦ some (a + b) | _ ↦ none ]

-- `usize::checked_sub`
abbrev pub checked_sub : ℕ → ℕ → Option ℕ
checked_sub a b = elim (compare a b) [ Ordering.lt ↦ none | _ ↦ some (a - b) ]
