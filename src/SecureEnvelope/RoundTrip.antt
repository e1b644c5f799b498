-- ===== src/SecureEnvelope/RoundTrip.antt =====
-- `parse_secure_envelope` reads back what `build_secure_envelope` writes.
use thoth_ipc.Base.{
  ℕ, ◌+◌, ◌*◌, ◌/◌, ◌^◌, ◌≤◌, ◌<◌, ◌≡◌, refl, ◌∙◌, ap, arith, List, ◌++◌, some, length,
  length-append, get_or, drop, take_all, take-append, drop-append, append_assoc, u8, u16, u32,
  bit_and,
}
use thoth_ipc.Base.Maybe.{◌>>=◌}
use thoth_ipc.SecureEnvelope.{
  envelope_bytes, build_secure_envelope, split_payload, parse_fields, parse_secure_envelope,
  read_u16_le, read_u32_le,
}
use thoth_ipc.SecureEnvelope.Bytes.{low_byte, join16, join32}

pub read_u16_le_lem :
    (input : List ℕ) (off : ℕ)
    → off + 2 ≤ length input
    → get_or input off 0 < 256
    → read_u16_le input off ≡ some (get_or input off 0 + get_or input (off + 1) 0 * 256)
unfolding read_u16_le
read_u16_le_lem input off h b0 =
    ground (arith, join16 (get_or input off 0) (get_or input (off + 1) 0) b0)

pub read_u32_le_lem :
    (input : List ℕ) (off : ℕ)
    → off + 4 ≤ length input
    → get_or input off 0 < 256
    → get_or input (off + 1) 0 < 256
    → get_or input (off + 2) 0 < 256
    → read_u32_le input off
      ≡ some (
          get_or input off 0
          + get_or input (off + 1) 0 * 256
          + get_or input (off + 2) 0 * 65536
          + get_or input (off + 3) 0 * 16777216)
unfolding read_u32_le
read_u32_le_lem input off h b0 b1 b2 = ground (
  arith,
  join32 (get_or input off 0) (get_or input (off + 1) 0) (get_or input (off + 2) 0)
      (get_or input (off + 3) 0) b0 b1 b2,
)

split_payload_lem :
    (input : List ℕ) (a k : ℕ) (nonce ciphertext tag : List ℕ)
    → drop 19 input ≡ (nonce ++ ciphertext) ++ tag
    → length input ≡ 19 + length nonce + length ciphertext + length tag
    → length nonce < 2 ^ 16
    → length ciphertext < 2 ^ 32
    → length tag < 2 ^ 16
    → split_payload input a k (length nonce) (length tag) (length ciphertext)
      ≡ some (record {
        algorithm_id = a;
        key_id = k;
        nonce = nonce;
        ciphertext = ciphertext;
        tag = tag;
      })
unfolding split_payload
split_payload_lem input a k nonce ciphertext tag e l hn hc ht = ground (
  arith,
  append_assoc nonce ciphertext tag,
  take-append nonce (ciphertext ++ tag),
  drop-append nonce (ciphertext ++ tag),
  take-append ciphertext tag,
  drop-append (nonce ++ ciphertext) tag,
  length-append nonce ciphertext,
  length-append (nonce ++ ciphertext) tag,
  take_all (length tag) tag,
)

-- a little-endian word from its bytes
word16 : (v : ℕ) → v < 2 ^ 16 → u8 (bit_and v 0xff) + u8 (bit_and (v / 2 ^ 8) 0xff) * 256 ≡ v
word16 v h = omega (arith, low_byte v, low_byte (v / 2 ^ 8))

word32 :
    (v : ℕ)
    → v < 2 ^ 32
    → u8 (bit_and v 0xff)
        + u8 (bit_and (v / 2 ^ 8) 0xff) * 256
        + u8 (bit_and (v / 2 ^ 16) 0xff) * 65536
        + u8 (bit_and (v / 2 ^ 24) 0xff) * 16777216
      ≡ v
word32 v h =
    omega (arith, low_byte v, low_byte (v / 2 ^ 8), low_byte (v / 2 ^ 16), low_byte (v / 2 ^ 24))

module _ (a k : ℕ) (nonce ciphertext tag : List ℕ) where
  abbrev out : List ℕ
  out = envelope_bytes a k nonce ciphertext tag

  length-out : length out ≡ 19 + length nonce + length ciphertext + length tag
  unfolding envelope_bytes
  length-out =
      omega (arith, length-append (nonce ++ ciphertext) tag, length-append nonce ciphertext)

  read-algorithm_id : a < 2 ^ 16 → read_u16_le out 5 ≡ some a
  unfolding envelope_bytes
  read-algorithm_id h =
      read_u16_le_lem out 5 (omega (arith, length-out)) (omega arith) ∙ ap some (word16 a h)

  read-key_id : k < 2 ^ 32 → read_u32_le out 7 ≡ some k
  unfolding envelope_bytes
  read-key_id h =
      read_u32_le_lem out 7 (omega (arith, length-out)) (omega arith) (omega arith) (omega arith)
      ∙ ap some (word32 k h)

  read-nonce_size : length nonce < 2 ^ 16 → read_u16_le out 11 ≡ some (length nonce)
  unfolding envelope_bytes
  read-nonce_size h =
      read_u16_le_lem out 11 (omega (arith, length-out)) (omega arith)
      ∙ ap some (omega (arith, word16 (u16 (length nonce)) (omega arith)))

  read-tag_size : length tag < 2 ^ 16 → read_u16_le out 13 ≡ some (length tag)
  unfolding envelope_bytes
  read-tag_size h =
      read_u16_le_lem out 13 (omega (arith, length-out)) (omega arith)
      ∙ ap some (omega (arith, word16 (u16 (length tag)) (omega arith)))

  read-ciphertext_size : length ciphertext < 2 ^ 32 → read_u32_le out 15 ≡ some (length ciphertext)
  unfolding envelope_bytes
  read-ciphertext_size h =
      read_u32_le_lem out 15 (omega (arith, length-out)) (omega arith) (omega arith) (omega arith)
      ∙ ap some (omega (arith, word32 (u32 (length ciphertext)) (omega arith)))

  parse_fields-out :
      a < 2 ^ 16
      → k < 2 ^ 32
      → length nonce < 2 ^ 16
      → length ciphertext < 2 ^ 32
      → length tag < 2 ^ 16
      → parse_fields out
        ≡ some (record {
          algorithm_id = a;
          key_id = k;
          nonce = nonce;
          ciphertext = ciphertext;
          tag = tag;
        })
  unfolding parse_fields
  parse_fields-out ha hk hn hc ht =
      rw
        (
          read-algorithm_id ha,
          read-key_id hk,
          read-nonce_size hn,
          read-tag_size ht,
          read-ciphertext_size hc,
        )
        (split_payload_lem out a k nonce ciphertext tag payload length-out hn hc ht)
    where
      payload : drop 19 out ≡ (nonce ++ ciphertext) ++ tag
      payload = unfold envelope_bytes in refl

  parse_secure_envelope-out : parse_secure_envelope out ≡ parse_fields out
  unfolding parse_secure_envelope
  parse_secure_envelope-out = unfold envelope_bytes in ground (arith, length-out)

pub build_secure_envelope_lem :
    (a k : ℕ) (nonce ciphertext tag : List ℕ)
    → length nonce < 2 ^ 16
    → length ciphertext < 2 ^ 32
    → length tag < 2 ^ 16
    → build_secure_envelope a k nonce ciphertext tag
      ≡ some (envelope_bytes a k nonce ciphertext tag)
unfolding build_secure_envelope
build_secure_envelope_lem a k nonce ciphertext tag hn hc ht = ground arith

-- For an algorithm id of 16 bits, a key id of 32, a nonce and a tag shorter than 2^16 bytes and a
-- ciphertext shorter than 2^32, the envelope is built, and parsing it gives back all five parts.
pub parse-build :
    (a k : ℕ) (nonce ciphertext tag : List ℕ)
    → a < 2 ^ 16
    → k < 2 ^ 32
    → length nonce < 2 ^ 16
    → length ciphertext < 2 ^ 32
    → length tag < 2 ^ 16
    → (build_secure_envelope a k nonce ciphertext tag >>= parse_secure_envelope)
      ≡ some (record {
        algorithm_id = a;
        key_id = k;
        nonce = nonce;
        ciphertext = ciphertext;
        tag = tag;
      })
parse-build a k nonce ciphertext tag ha hk hn hc ht =
    ap (λ o. o >>= parse_secure_envelope)
      (build_secure_envelope_lem a k nonce ciphertext tag hn hc ht)
    ∙ parse_secure_envelope-out a k nonce ciphertext tag
    ∙ parse_fields-out a k nonce ciphertext tag ha hk hn hc ht
