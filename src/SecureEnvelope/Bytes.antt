-- ===== src/SecureEnvelope/Bytes.antt =====
-- The little-endian fields of the SIPC header: what is written is read back, and back again.
use thoth_ipc.Base.{ℕ, ◌+◌, ◌*◌, ◌%◌, ◌^◌, ◌<◌, bit_and, bit_or, ◌≡◌, arith, u8}
use thoth_ipc.Base.Bits.{bit_and-low_mask, bit_or-disjoint, bit_or_comm}

-- a byte of a word: `(v & 0xff) as u8`
pub low_byte : (v : ℕ) → u8 (bit_and v 0xff) ≡ v % 256
low_byte v = omega (arith, bit_and-low_mask 8 v)

-- `b0 | (b1 << 8)`
pub join16 : (b0 b1 : ℕ) → b0 < 256 → bit_or b0 (b1 * 2 ^ 8) ≡ b0 + b1 * 256
join16 b0 b1 h = omega (arith, bit_or_comm b0 (b1 * 2 ^ 8), bit_or-disjoint 8 b1 b0 h)

pub join32 :
    (b0 b1 b2 b3 : ℕ)
    → b0 < 256
    → b1 < 256
    → b2 < 256
    → bit_or (bit_or (bit_or b0 (b1 * 2 ^ 8)) (b2 * 2 ^ 16)) (b3 * 2 ^ 24)
      ≡ b0 + b1 * 256 + b2 * 65536 + b3 * 16777216
join32 b0 b1 b2 b3 h0 h1 h2 = ground (
  arith,
  join16 b0 b1 h0,
  bit_or_comm (b0 + b1 * 256) (b2 * 2 ^ 16),
  bit_or-disjoint 16 b2 (b0 + b1 * 256),
  bit_or_comm (b0 + b1 * 256 + b2 * 65536) (b3 * 2 ^ 24),
  bit_or-disjoint 24 b3 (b0 + b1 * 256 + b2 * 65536),
)
