-- ===== src/SecureEnvelope/Canonical.antt =====
-- What `parse_secure_envelope` accepts is what `build_secure_envelope` writes, and nothing else.
use thoth_ipc.Base.{
  ℕ, ◌+◌, ◌-◌, ◌*◌, ◌/◌, ◌^◌, ◌≤◌, ◌<◌, ◌≡◌, refl, ◌∙◌, ap, sym, arith, List, ◌++◌, some, length,
  get_or, take, drop, take_all, append_assoc, u8, u16, u32, bit_and, bytes_eq, true, All, IsByte,
  All-get_or, gets, gets-append-drop, take-drop-gets, bytes_eq_sound, length-take, length-drop,
  drop-drop, take-append-drop,
}
use thoth_ipc.SecureEnvelope.{
  SecureEnvelopeView, envelope_bytes, build_secure_envelope, split_payload, parse_fields,
  parse_secure_envelope, envelope_magic,
}
use thoth_ipc.SecureEnvelope.Bytes.{low_byte}
use thoth_ipc.SecureEnvelope.RoundTrip.{read_u16_le_lem, read_u32_le_lem, build_secure_envelope_lem}

-- what an accepted split says of the view and the input
record IsSplit (input : List ℕ) (a k n t c : ℕ) (v : SecureEnvelopeView) : Type 0 where
  algorithm_id : v.algorithm_id ≡ a
  key_id : v.key_id ≡ k
  nonce : length v.nonce ≡ n
  tag : length v.tag ≡ t
  ciphertext : length v.ciphertext ≡ c
  payload : (v.nonce ++ v.ciphertext) ++ v.tag ≡ drop 19 input

cut_three :
    (n c t : ℕ) (xs : List ℕ)
    → n + c + t ≡ length xs
    → (take n xs ++ take c (drop n xs)) ++ take t (drop (n + c) xs) ≡ xs
cut_three n c t xs h =
    rw
      (
        take_all t (drop (n + c) xs) (omega (arith, length-drop (n + c) xs)),
        append_assoc (take n xs) (take c (drop n xs)) (drop (n + c) xs),
        ← drop-drop n c xs,
        take-append-drop c (drop n xs),
      )
      (take-append-drop n xs)

abbrev cut : List ℕ → ℕ → ℕ → ℕ → ℕ → ℕ → SecureEnvelopeView
cut p a k n t c = record {
  algorithm_id = a;
  key_id = k;
  nonce = take n p;
  ciphertext = take (n + c - n) (drop n p);
  tag = take (n + c + t - (n + c)) (drop (n + c) p);
}

split_payload-cut :
    (input : List ℕ) (a k n t c : ℕ) {v : SecureEnvelopeView}
    → split_payload input a k n t c ≡ some v
    → (19 ≤ length input) × (n + c + t + 19 ≡ length input) × (v ≡ cut (drop 19 input) a k n t c)
unfolding split_payload
split_payload-cut input a k n t c h = ground arith

split_payload-IsSplit :
    (input : List ℕ) (a k n t c : ℕ) {v : SecureEnvelopeView}
    → split_payload input a k n t c ≡ some v
    → IsSplit input a k n t c v
split_payload-IsSplit input a k n t c h =
    let (long, sum, e) = split_payload-cut input a k n t c h in
    let len = length-drop 19 input in
    let e1 : n + c - n ≡ c = omega arith in
    let e2 : n + c + t - (n + c) ≡ t = omega arith in
    rw (e, e1, e2)
      (record {
        algorithm_id = refl;
        key_id = refl;
        nonce = omega (arith, length-take n (drop 19 input));
        tag = omega (
          arith,
          length-take t (drop (n + c) (drop 19 input)),
          length-drop (n + c) (drop 19 input),
        );
        ciphertext =
            omega (arith, length-take c (drop n (drop 19 input)), length-drop n (drop 19 input));
        payload = cut_three n c t (drop 19 input) (omega arith);
      })

split16 :
    (b0 b1 : ℕ)
    → b0 < 256
    → b1 < 256
    → (u8 (bit_and (b0 + b1 * 256) 0xff) ≡ b0) × (u8 (bit_and ((b0 + b1 * 256) / 2 ^ 8) 0xff) ≡ b1)
split16 b0 b1 h0 h1 = omega (arith, low_byte (b0 + b1 * 256), low_byte ((b0 + b1 * 256) / 2 ^ 8))

split32 :
    (b0 b1 b2 b3 w : ℕ)
    → b0 < 256
    → b1 < 256
    → b2 < 256
    → b3 < 256
    → w ≡ b0 + b1 * 256 + b2 * 65536 + b3 * 16777216
    → (u8 (bit_and w 0xff) ≡ b0)
      × (u8 (bit_and (w / 2 ^ 8) 0xff) ≡ b1)
      × (u8 (bit_and (w / 2 ^ 16) 0xff) ≡ b2)
      × (u8 (bit_and (w / 2 ^ 24) 0xff) ≡ b3)
split32 b0 b1 b2 b3 w h0 h1 h2 h3 e =
    omega (arith, low_byte w, low_byte (w / 2 ^ 8), low_byte (w / 2 ^ 16), low_byte (w / 2 ^ 24))

-- what the fields of an accepted input are
module _ (input : List ℕ) (bytes : All IsByte input) where
  abbrev at : ℕ → ℕ
  at i = get_or input i 0

  at-lt : (i : ℕ) → at i < 256
  at-lt i = All-get_or input i bytes

  abbrev word16_at : ℕ → ℕ
  word16_at i = at i + at (i + 1) * 256

  abbrev word32_at : ℕ → ℕ
  word32_at i = at i + at (i + 1) * 256 + at (i + 2) * 65536 + at (i + 3) * 16777216

  parse_fields-split :
      19 ≤ length input
      → parse_fields input
        ≡ split_payload input
            (word16_at 5)
            (word32_at 7)
            (word16_at 11)
            (word16_at 13)
            (word32_at 15)
  unfolding parse_fields
  parse_fields-split h = rw (
    read_u16_le_lem input 5 (omega arith) (at-lt 5),
    read_u32_le_lem input 7 (omega arith) (at-lt 7) (at-lt 8) (at-lt 9),
    read_u16_le_lem input 11 (omega arith) (at-lt 11),
    read_u16_le_lem input 13 (omega arith) (at-lt 13),
    read_u32_le_lem input 15 (omega arith) (at-lt 15) (at-lt 16) (at-lt 17),
  )

  -- an accepted input has passed the checks of `parse_secure_envelope`
  checked :
      {v : SecureEnvelopeView}
      → parse_secure_envelope input ≡ some v
      → (19 ≤ length input)
        × (bytes_eq (take 4 input) envelope_magic ≡ true)
        × (at 4 ≡ 1)
        × (parse_fields input ≡ some v)
  unfolding parse_secure_envelope
  checked h = ground arith

  -- the bytes of an accepted input, one by one
  input-eq : 19 ≤ length input → gets input 0 19 ++ drop 19 input ≡ input
  input-eq h = gets-append-drop input 0 19 19 refl h

  header-eq :
      {v : SecureEnvelopeView}
      → 19 ≤ length input
      → take 4 input ≡ envelope_magic
      → at 4 ≡ 1
      → IsSplit input (word16_at 5) (word32_at 7) (word16_at 11) (word16_at 13) (word32_at 15) v
      → envelope_bytes v.algorithm_id v.key_id v.nonce v.ciphertext v.tag
        ≡ gets input 0 19 ++ drop 19 input
  unfolding envelope_bytes
  header-eq {v} h m e s =
      let magic : gets input 0 4 ≡ envelope_magic =
        sym (take-drop-gets input 0 4 (omega arith)) ∙ m in
      let (a0, a1) = split16 (at 5) (at 6) (at-lt 5) (at-lt 6) in
      let (k0, k1, k2, k3) =
        split32 (at 7) (at 8) (at 9) (at 10) (word32_at 7) (at-lt 7) (at-lt 8) (at-lt 9) (at-lt 10)
          refl in
      let (n0, n1) = split16 (at 11) (at 12) (at-lt 11) (at-lt 12) in
      let (t0, t1) = split16 (at 13) (at 14) (at-lt 13) (at-lt 14) in
      let (c0, c1, c2, c3) =
        split32 (at 15) (at 16) (at 17) (at 18) (word32_at 15) (at-lt 15) (at-lt 16) (at-lt 17)
          (at-lt 18) refl in
      let nw : u16 (length v.nonce) ≡ word16_at 11 = omega (arith, s.nonce, at-lt 11, at-lt 12) in
      let tw : u16 (length v.tag) ≡ word16_at 13 = omega (arith, s.tag, at-lt 13, at-lt 14) in
      let cw : u32 (length v.ciphertext) ≡ word32_at 15 =
        omega (arith, s.ciphertext, at-lt 15, at-lt 16, at-lt 17, at-lt 18) in
      rw
        (
          s.algorithm_id, s.key_id, nw, tw, cw, s.payload, a0, a1, k0, k1, k2, k3, n0, n1, t0, t1,
          c0, c1, c2, c3,
        )
        (cc)

-- The parser accepts only what the writer writes: for an input of bytes, if parsing gives a view,
-- then building an envelope from the view's five parts gives back that very input.
pub build-parse :
    (input : List ℕ)
    → All IsByte input
    → (v : SecureEnvelopeView) → parse_secure_envelope input ≡ some v
    → build_secure_envelope v.algorithm_id v.key_id v.nonce v.ciphertext v.tag ≡ some input
build-parse input bytes v h =
    let (long, magic, version, fields) = checked input bytes h in
    let s =
      split_payload-IsSplit input (word16_at input bytes 5) (word32_at input bytes 7)
        (word16_at input bytes 11) (word16_at input bytes 13) (word32_at input bytes 15)
        (sym (parse_fields-split input bytes long) ∙ fields) in
    let lt = at-lt input bytes in
    build_secure_envelope_lem v.algorithm_id v.key_id v.nonce v.ciphertext v.tag
      (omega (arith, s.nonce, lt 11, lt 12))
      (omega (arith, s.ciphertext, lt 15, lt 16, lt 17, lt 18)) (omega (arith, s.tag, lt 13, lt 14))
    ∙ ap some (
        header-eq input bytes long (bytes_eq_sound _ _ magic) version s ∙ input-eq input bytes long)
