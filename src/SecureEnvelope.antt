-- ===== src/SecureEnvelope.antt =====
-- rust/thoth-ipc/src/proto/codecs/secure_codec.rs: the SIPC envelope v1, its writer and its parser,
-- and the codec that wraps another codec by a cipher. A byte is a number; the lists hold bytes.
pub mod Bytes
pub mod RoundTrip
pub mod Canonical
pub mod Codec
mod Tests
use thoth_ipc.Base.{
  ℕ, ◌+◌, ◌-◌, ◌*◌, ◌/◌, ◌^◌, bit_and, bit_or, Bool, true, false, not, Option, none, some, List, [],
  ◌∷◌, ◌++◌, ltb, ◌==◌, if◌then◌else◌, u8, u16, u32, checked_add, checked_sub, length, get_or, take,
  drop, bytes_eq,
}
use thoth_ipc.Base.Maybe.{◌>>=◌}

-- `SECURE_ENVELOPE_MAGIC` ("SIPC") and the generated offsets of the fixed header
abbrev pub envelope_magic : List ℕ
envelope_magic = b'S' ∷ b'I' ∷ b'P' ∷ b'C' ∷ []

abbrev pub envelope_version : ℕ
envelope_version = 1

abbrev pub offset_version : ℕ
offset_version = 4

abbrev pub offset_algorithm_id : ℕ
offset_algorithm_id = 5

abbrev pub offset_key_id : ℕ
offset_key_id = 7

abbrev pub offset_nonce_size : ℕ
offset_nonce_size = 11

abbrev pub offset_tag_size : ℕ
offset_tag_size = 13

abbrev pub offset_ciphertext_size : ℕ
offset_ciphertext_size = 15

abbrev pub fixed_header_size : ℕ
fixed_header_size = 19

pub record SecureEnvelopeView : Type 0 where
  pub algorithm_id : ℕ
  pub key_id : ℕ
  pub nonce : List ℕ
  pub ciphertext : List ℕ
  pub tag : List ℕ

-- `x >> k` is `x / 2 ^ k`; the cast to `u8` stays written out.
unfoldable pub append_u16_le : List ℕ → ℕ → List ℕ
append_u16_le out value =
    out ++ u8 (bit_and value 0x00ff) ∷ u8 (bit_and (value / 2 ^ 8) 0x00ff) ∷ []

unfoldable pub append_u32_le : List ℕ → ℕ → List ℕ
append_u32_le out value =
    out
    ++ u8 (bit_and value 0x0000_00ff)
      ∷ u8 (bit_and (value / 2 ^ 8) 0x0000_00ff)
      ∷ u8 (bit_and (value / 2 ^ 16) 0x0000_00ff)
      ∷ u8 (bit_and (value / 2 ^ 24) 0x0000_00ff)
      ∷ []

-- The indices are in range behind the two guards, so the default of `get_or` is never read.
unfoldable pub read_u16_le : List ℕ → ℕ → Option ℕ
read_u16_le input offset =
    if ltb (length input) offset
    then none
    else if ltb (length input - offset) 2
    then none
    else some (bit_or (get_or input offset 0) (get_or input (offset + 1) 0 * 2 ^ 8))

unfoldable pub read_u32_le : List ℕ → ℕ → Option ℕ
read_u32_le input offset =
    if ltb (length input) offset
    then none
    else if ltb (length input - offset) 4
    then none
    else some (
        bit_or
          (bit_or (bit_or (get_or input offset 0) (get_or input (offset + 1) 0 * 2 ^ 8))
            (get_or input (offset + 2) 0 * 2 ^ 16))
          (get_or input (offset + 3) 0 * 2 ^ 24))

-- the bytes that `build_secure_envelope` writes once its checks have passed
unfoldable pub envelope_bytes : ℕ → ℕ → List ℕ → List ℕ → List ℕ → List ℕ
unfolding append_u16_le append_u32_le
envelope_bytes algorithm_id key_id nonce ciphertext tag =
    let o1 = envelope_magic ++ envelope_version ∷ [] in
    let o2 = append_u16_le o1 algorithm_id in
    let o3 = append_u32_le o2 key_id in
    let o4 = append_u16_le o3 (u16 (length nonce)) in
    let o5 = append_u16_le o4 (u16 (length tag)) in
    let o6 = append_u32_le o5 (u32 (length ciphertext)) in ((o6 ++ nonce) ++ ciphertext) ++ tag

unfoldable pub build_secure_envelope : ℕ → ℕ → List ℕ → List ℕ → List ℕ → Option (List ℕ)
build_secure_envelope algorithm_id key_id nonce ciphertext tag =
    if ltb (2 ^ 16 - 1) (length nonce)
    then none
    else if ltb (2 ^ 16 - 1) (length tag)
    then none
    else if ltb (2 ^ 32 - 1) (length ciphertext)
    then none
    else do
      part ← checked_add (length nonce) (length ciphertext)
      payload_size ← checked_add part (length tag)
      total_size ← checked_add fixed_header_size payload_size
      some (envelope_bytes algorithm_id key_id nonce ciphertext tag)

-- the end of `parse_secure_envelope`: the sizes must add up to the input, which is then cut
unfoldable pub split_payload : List ℕ → ℕ → ℕ → ℕ → ℕ → ℕ → Option SecureEnvelopeView
split_payload input algorithm_id key_id nonce_size tag_size ciphertext_size = do
  part ← checked_add nonce_size ciphertext_size
  payload_size ← checked_add part tag_size
  actual_payload_size ← checked_sub (length input) fixed_header_size
  if not (payload_size == actual_payload_size) then none else do
    let payload = drop fixed_header_size input
    let nonce_end = nonce_size
    ciphertext_end ← checked_add nonce_end ciphertext_size
    tag_end ← checked_add ciphertext_end tag_size
    if not (tag_end == length payload)
        then none
        else some (record {
          algorithm_id = algorithm_id;
          key_id = key_id;
          nonce = take nonce_end payload;
          ciphertext = take (ciphertext_end - nonce_end) (drop nonce_end payload);
          tag = take (tag_end - ciphertext_end) (drop ciphertext_end payload);
        })

-- `parse_secure_envelope` behind its checks of size, magic and version
unfoldable pub parse_fields : List ℕ → Option SecureEnvelopeView
parse_fields input = do
  algorithm_id ← read_u16_le input offset_algorithm_id
  key_id ← read_u32_le input offset_key_id
  nonce_size ← read_u16_le input offset_nonce_size
  tag_size ← read_u16_le input offset_tag_size
  ciphertext_size ← read_u32_le input offset_ciphertext_size
  split_payload input algorithm_id key_id nonce_size tag_size ciphertext_size

unfoldable pub parse_secure_envelope : List ℕ → Option SecureEnvelopeView
parse_secure_envelope input =
    if ltb (length input) fixed_header_size
    then none
    else if not (bytes_eq (take 4 input) envelope_magic)
    then none
    else if not (get_or input offset_version 0 == envelope_version)
    then none
    else parse_fields input
