-- ===== src/SecureEnvelope/Tests.antt =====
-- Runs of the envelope code, and the theorems at concrete inputs.
use thoth_ipc.Base.{
  ℕ, ◌≡◌, refl, arith, List, [], ◌∷◌, Option, none, some, true, ◌⊎◌, length, ◌^◌, ◌<◌,
}
use thoth_ipc.Base.Maybe.{◌>>=◌}
use thoth_ipc.SecureEnvelope.{
  SecureEnvelopeView, build_secure_envelope, parse_secure_envelope, envelope_bytes, parse_fields,
  split_payload, read_u16_le, read_u32_le,
}
use thoth_ipc.SecureEnvelope.RoundTrip.{parse-build}
use thoth_ipc.SecureEnvelope.Canonical.{build-parse}
use thoth_ipc.SecureEnvelope.Codec.{
  SecureCipher, Codec, Sealed, IsCorrect, Opens, decode, from_inner, decode-from_inner,
  decode-fails_closed,
}

abbrev view : SecureEnvelopeView
view = record {
  algorithm_id = 1;
  key_id = 0x01020304;
  nonce = 9 ∷ 8 ∷ [];
  ciphertext = 7 ∷ [];
  tag = 6 ∷ 5 ∷ 4 ∷ [];
}

abbrev envelope : List ℕ
envelope =
    0x53 ∷ 0x49 ∷ 0x50 ∷ 0x43 ∷ 1 ∷ 1 ∷ 0 ∷ 4 ∷ 3 ∷ 2 ∷ 1 ∷ 2 ∷ 0 ∷ 3 ∷ 0 ∷ 1 ∷ 0 ∷ 0 ∷ 0 ∷ 9 ∷ 8
    ∷ 7 ∷ 6 ∷ 5 ∷ 4 ∷ []

build_runs :
    build_secure_envelope 1 0x01020304 (9 ∷ 8 ∷ []) (7 ∷ []) (6 ∷ 5 ∷ 4 ∷ []) ≡ some envelope
unfolding build_secure_envelope envelope_bytes
build_runs = refl

parse_runs : parse_secure_envelope envelope ≡ some view
unfolding parse_secure_envelope parse_fields split_payload read_u16_le read_u32_le
parse_runs = refl

-- one byte too many
parse_trailing :
    parse_secure_envelope (
      0x53 ∷ 0x49 ∷ 0x50 ∷ 0x43 ∷ 1 ∷ 1 ∷ 0 ∷ 4 ∷ 3 ∷ 2 ∷ 1 ∷ 0 ∷ 0 ∷ 0 ∷ 0 ∷ 0 ∷ 0 ∷ 0 ∷ 0 ∷ 9
      ∷ [])
    ≡ none
unfolding parse_secure_envelope parse_fields split_payload read_u16_le read_u32_le
parse_trailing = refl

parse-build_example :
    (build_secure_envelope 1 0x01020304 (9 ∷ 8 ∷ []) (7 ∷ []) (6 ∷ 5 ∷ 4 ∷ [])
      >>= parse_secure_envelope)
    ≡ some view
parse-build_example =
    parse-build 1 0x01020304 (9 ∷ 8 ∷ []) (7 ∷ []) (6 ∷ 5 ∷ 4 ∷ []) (omega arith) (omega arith)
      (omega arith) (omega arith) (omega arith)

build-parse_example :
    build_secure_envelope 1 0x01020304 (9 ∷ 8 ∷ []) (7 ∷ []) (6 ∷ 5 ∷ 4 ∷ []) ≡ some envelope
build-parse_example = build-parse envelope (omega arith) view parse_runs

-- a cipher for tests: it seals one byte, and the ciphertext is the text
abbrev seal_one : List ℕ → Option Sealed
seal_one (x ∷ []) = some (record { nonce = 1 ∷ []; ciphertext = x ∷ []; tag = 2 ∷ [] })
seal_one [] = none
seal_one (x ∷ y ∷ r) = none

abbrev one_byte_cipher : SecureCipher
one_byte_cipher = record {
  algorithm_id = 1;
  key_id = 7;
  seal = seal_one;
  open_sealed = λ nonce ciphertext tag. some ciphertext;
}

seal_one-sizes :
    (plain : List ℕ) (s : Sealed)
    → seal_one plain ≡ some s
    → (length s.nonce < 2 ^ 16) × (length s.ciphertext < 2 ^ 32) × (length s.tag < 2 ^ 16)
seal_one-sizes (x ∷ []) s h = ground arith
seal_one-sizes [] s h = cc
seal_one-sizes (x ∷ y ∷ r) s h = cc

seal_one-opens :
    (plain : List ℕ) (s : Sealed)
    → seal_one plain ≡ some s
    → ◌≡◌ {A = Option (List ℕ)} (some s.ciphertext) (some plain)
seal_one-opens (x ∷ []) s h = ground arith
seal_one-opens [] s h = cc
seal_one-opens (x ∷ y ∷ r) s h = cc

one_byte-IsCorrect : IsCorrect one_byte_cipher
one_byte-IsCorrect = record {
  algorithm_id = omega arith;
  key_id = omega arith;
  sizes = seal_one-sizes;
  opens = seal_one-opens;
}

abbrev raw_codec : Codec (List ℕ) (List ℕ)
raw_codec = record { encode = λ b. b; decode = λ b. b; verify = λ m. true }

decode-from_inner_example :
    decode raw_codec one_byte_cipher (from_inner raw_codec one_byte_cipher (42 ∷ [])) ≡ 42 ∷ []
decode-from_inner_example =
    decode-from_inner raw_codec one_byte_cipher one_byte-IsCorrect (42 ∷ [])
      (record { nonce = 1 ∷ []; ciphertext = 42 ∷ []; tag = 2 ∷ [] }) refl

-- bytes of another protocol: the inner codec gets the empty buffer
decode-fails_closed_example :
    ((plain : List ℕ) × Opens one_byte_cipher (1 ∷ 2 ∷ []) plain
      × (decode raw_codec one_byte_cipher (1 ∷ 2 ∷ []) ≡ plain))
    ⊎ (decode raw_codec one_byte_cipher (1 ∷ 2 ∷ []) ≡ [])
decode-fails_closed_example = decode-fails_closed raw_codec one_byte_cipher (1 ∷ 2 ∷ [])
