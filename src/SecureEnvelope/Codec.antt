-- ===== src/SecureEnvelope/Codec.antt =====
-- `SecureBuilder::from_inner` and `SecureCodec::decode`: the envelope round a cipher and an inner
-- codec, which are parameters. The cipher and the codecs it wraps are chosen by the client.
use thoth_ipc.Base.{
  ℕ, ◌^◌, ◌<◌, ◌≡◌, refl, arith, Bool, true, false, not, List, [], ◌∷◌, Option, none, some, length,
  ◌==◌, if◌then◌else◌, ◌⊎◌, inl, inr, Option-cases, ℕ_discrete,
}
use thoth_ipc.Base.Maybe.{>>=-eq-some}
use thoth_ipc.SecureEnvelope.{SecureEnvelopeView, build_secure_envelope, parse_secure_envelope}
use thoth_ipc.SecureEnvelope.RoundTrip.{parse-build}

-- what `seal` writes to its three output buffers
pub record Sealed : Type 0 where
  pub nonce : List ℕ
  pub ciphertext : List ℕ
  pub tag : List ℕ

-- `trait SecureCipher`: `seal` and `open` answer `none` for `false`.
pub record SecureCipher : Type 0 where
  pub algorithm_id : ℕ
  pub key_id : ℕ
  pub seal : List ℕ → Option Sealed
  pub open_sealed : List ℕ → List ℕ → List ℕ → Option (List ℕ)

-- `trait Codec<T>`, as far as the decorator uses it
pub record Codec (Builder Message : Type 0) : Type 0 where
  pub encode : Builder → List ℕ
  pub decode : List ℕ → Message
  pub verify : Message → Bool

abbrev is_empty : List ℕ → Bool
is_empty [] = true
is_empty (x ∷ xs) = false

module _ {Builder Message : Type 0} (inner : Codec Builder Message) (cipher : SecureCipher) where
  -- `SecureBuilder::from_inner`: the bytes of the builder, empty where a step fails
  pub from_inner : Builder → List ℕ
  from_inner builder =
      let plain = inner.encode builder in
      if is_empty plain then [] else elim (cipher.seal plain) [
        | none ↦ []
        | some s ↦
            elim (build_secure_envelope cipher.algorithm_id cipher.key_id s.nonce s.ciphertext
              s.tag) [ none ↦ [] | some bytes ↦ bytes ]
      ]

  -- `SecureCodec::decode` behind the check for an empty buffer and the parser
  pub open_envelope : SecureEnvelopeView → Message
  open_envelope envelope =
      if not (envelope.algorithm_id == cipher.algorithm_id)
      then inner.decode []
      else if not (envelope.key_id == cipher.key_id)
      then inner.decode []
      else elim (cipher.open_sealed envelope.nonce envelope.ciphertext envelope.tag) [
        | none ↦ inner.decode []
        | some plain ↦ inner.decode plain
      ]

  pub decode : List ℕ → Message
  unfolding open_envelope
  decode buf = if is_empty buf then inner.decode [] else elim (parse_secure_envelope buf) [
    | none ↦ inner.decode []
    | some envelope ↦ open_envelope envelope
  ]

-- what the documentation of a cipher promises: its ids fit their fields, what it seals it opens
-- again, and nonce, tag and ciphertext fit the size fields of the envelope
pub record IsCorrect (cipher : SecureCipher) : Type 0 where
  pub algorithm_id : cipher.algorithm_id < 2 ^ 16
  pub key_id : cipher.key_id < 2 ^ 32
  pub sizes :
      (plain : List ℕ) (s : Sealed)
      → cipher.seal plain ≡ some s
      → (length s.nonce < 2 ^ 16) × (length s.ciphertext < 2 ^ 32) × (length s.tag < 2 ^ 16)
  pub opens :
      (plain : List ℕ) (s : Sealed)
      → cipher.seal plain ≡ some s
      → cipher.open_sealed s.nonce s.ciphertext s.tag ≡ some plain

is_empty-cases : (xs : List ℕ) → (xs ≡ []) ⊎ (is_empty xs ≡ false)
is_empty-cases [] = inl refl
is_empty-cases (x ∷ xs) = inr refl

-- an envelope that the cipher opens to `plain`
pub record Opens (cipher : SecureCipher) (buf plain : List ℕ) : Type 0 where
  pub envelope : SecureEnvelopeView
  pub parsed : parse_secure_envelope buf ≡ some envelope
  pub algorithm_id : envelope.algorithm_id ≡ cipher.algorithm_id
  pub key_id : envelope.key_id ≡ cipher.key_id
  pub opened : cipher.open_sealed envelope.nonce envelope.ciphertext envelope.tag ≡ some plain

module _ {Builder Message : Type 0} (inner : Codec Builder Message) (cipher : SecureCipher) where
  decode-Opens :
      (buf plain : List ℕ) → Opens cipher buf plain → decode inner cipher buf ≡ inner.decode plain
  unfolding decode
  decode-Opens [] plain o = let p = o.parsed in absurd (empty_not_parsed p)
    where
      empty_not_parsed : {v : SecureEnvelopeView} → parse_secure_envelope [] ≡ some v → ⊥
      empty_not_parsed p = unfold parse_secure_envelope in cc
  decode-Opens (x ∷ xs) plain o = ground (arith, o.parsed, o.opened)

  -- For a cipher that keeps its promises, decoding the bytes that `from_inner` produced gives what
  -- the inner codec decodes from the inner bytes, wherever the cipher seals them.
  pub decode-from_inner :
      IsCorrect cipher
      → (builder : Builder) (s : Sealed) → cipher.seal (inner.encode builder) ≡ some s
      → decode inner cipher (from_inner inner cipher builder) ≡ inner.decode (inner.encode builder)
  unfolding from_inner decode
  decode-from_inner ok builder s h = elim (is_empty-cases (inner.encode builder)) [
    | inl e ↦ ground (arith, e)
    | inr full ↦
        let (hn, hc, ht) = ok.sizes _ s h in
        let (bytes, built, parsed) =
          >>=-eq-some
            (build_secure_envelope cipher.algorithm_id cipher.key_id s.nonce s.ciphertext s.tag)
            parse_secure_envelope
            (parse-build cipher.algorithm_id cipher.key_id s.nonce s.ciphertext s.tag
              ok.algorithm_id ok.key_id hn hc ht) in
        rw (full, h, built)
          (decode-Opens bytes (inner.encode builder) (record {
            envelope = _;
            parsed = parsed;
            algorithm_id = refl;
            key_id = refl;
            opened = ok.opens _ s h;
          }))
  ]

  open_envelope_cases :
      (v : SecureEnvelopeView)
      → ((plain : List ℕ) × (v.algorithm_id ≡ cipher.algorithm_id)
          × (v.key_id ≡ cipher.key_id)
          × (cipher.open_sealed v.nonce v.ciphertext v.tag ≡ some plain))
        ⊎ (open_envelope inner cipher v ≡ inner.decode [])
  unfolding open_envelope
  open_envelope_cases v = elim (Option-cases (cipher.open_sealed v.nonce v.ciphertext v.tag)) [
    | inl e ↦ inr (ground (arith, e))
    | inr (plain, e) ↦ elim (ℕ_discrete v.algorithm_id cipher.algorithm_id) [
      | no a ↦ inr (ground (arith, a))
      | yes a ↦ elim (ℕ_discrete v.key_id cipher.key_id) [
        | no k ↦ inr (ground (arith, k))
        | yes k ↦ inl (plain, a, k, e)
      ]
    ]
  ]

  -- Decoding fails closed: either the input is an envelope of this cipher's algorithm and key that
  -- the cipher opens, and the inner codec decodes what it opens to; or the inner codec is given
  -- the empty buffer.
  pub decode-fails_closed :
      (buf : List ℕ)
      → ((plain : List ℕ) × Opens cipher buf plain × (decode inner cipher buf ≡ inner.decode plain))
        ⊎ (decode inner cipher buf ≡ inner.decode [])
  unfolding decode
  decode-fails_closed [] = inr refl
  decode-fails_closed (x ∷ xs) = elim (Option-cases (parse_secure_envelope (x ∷ xs))) [
    | inl e ↦ inr (rw e)
    | inr (v, e) ↦ elim (open_envelope_cases v) [
      | inl (plain, a, k, o) ↦
          let opens : Opens cipher (x ∷ xs) plain = record {
            envelope = v;
            parsed = e;
            algorithm_id = a;
            key_id = k;
            opened = o;
          } in
          inl (plain, opens, decode-Opens (x ∷ xs) plain opens)
      | inr closed ↦ inr (rw e closed)
    ]
  ]
