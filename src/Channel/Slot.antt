-- ===== src/Channel/Slot.antt =====
-- The bytes of a ring slot (`msg_t<64,8>`): the header fields at their offsets, then the payload.
-- Both `ElemT` and `ChannelElemT` have these methods, with the same bodies. `to_ne_bytes` is little
-- endian on every target of the ABI; an `i32` is its 32-bit pattern.
use thoth_ipc.Base.{
  ℕ, ◌+◌, ◌*◌, ◌/◌, ◌%◌, ◌^◌, ◌≤◌, ◌<◌, ◌≡◌, refl, ap, ◌∙◌, arith, Bool, true, false, not, List, [],
  ◌∷◌, ◌++◌, ◌==◌, if◌then◌else◌, length, get_or, take, drop, length-take, length-drop, take-append,
  drop-append_of_eq,
}

-- the generated offsets of `msg_t`
abbrev pub data_length : ℕ
data_length = 64

abbrev pub msg_size : ℕ
msg_size = 80

abbrev pub msg_cc_id : ℕ
msg_cc_id = 0

abbrev pub msg_id : ℕ
msg_id = 4

abbrev pub msg_remain : ℕ
msg_remain = 8

abbrev pub msg_storage : ℕ
msg_storage = 12

abbrev pub msg_payload : ℕ
msg_payload = 16

abbrev pub to_ne_bytes : ℕ → List ℕ
to_ne_bytes v = v % 256 ∷ v / 256 % 256 ∷ v / 65536 % 256 ∷ v / 16777216 % 256 ∷ []

-- `copy_nonoverlapping` of `bytes` to offset `off`
abbrev pub copy_to : List ℕ → ℕ → List ℕ → List ℕ
copy_to slot off bytes = take off slot ++ (bytes ++ drop (off + length bytes) slot)

-- four bytes from offset `off` as a number
abbrev pub read_ne : List ℕ → ℕ → ℕ
read_ne slot off =
    get_or slot off 0
    + get_or slot (off + 1) 0 * 256
    + get_or slot (off + 2) 0 * 65536
    + get_or slot (off + 3) 0 * 16777216

unfoldable pub write_msg : List ℕ → ℕ → ℕ → ℕ → Bool → List ℕ → List ℕ
write_msg slot cc_id id remain storage payload =
    let s1 = copy_to slot msg_cc_id (to_ne_bytes cc_id) in
    let s2 = copy_to s1 msg_id (to_ne_bytes id) in
    let s3 = copy_to s2 msg_remain (to_ne_bytes remain) in
    let s4 = copy_to s3 msg_storage ((if storage then 1 else 0) ∷ []) in
    copy_to s4 msg_payload payload

pub record Header : Type 0 where
  pub cc_id : ℕ
  pub id : ℕ
  pub remain : ℕ
  pub storage : Bool

unfoldable pub read_header : List ℕ → Header
read_header slot = record {
  cc_id = read_ne slot msg_cc_id;
  id = read_ne slot msg_id;
  remain = read_ne slot msg_remain;
  storage = not (get_or slot msg_storage 0 == 0);
}

unfoldable pub read_payload : List ℕ → ℕ → List ℕ
read_payload slot n = take n (drop msg_payload slot)

unfoldable pub read_storage_id : List ℕ → ℕ
read_storage_id slot = read_ne slot msg_payload

module _ (slot payload : List ℕ) (cc_id id remain : ℕ) (storage : Bool) where
  word : (v : ℕ) → v < 2 ^ 32 → read_ne (to_ne_bytes v) 0 ≡ v
  word v h = omega arith

  abbrev written : List ℕ
  written = write_msg slot cc_id id remain storage payload

  -- On a slot of 80 bytes, what is read after a write is what was written: all four header fields,
  -- and, up to the length of a payload of at most 64 bytes, the payload.
  pub read-write_msg :
      length slot ≡ msg_size
      → length payload ≤ data_length
      → cc_id < 2 ^ 32
      → id < 2 ^ 32
      → remain < 2 ^ 32
      → (read_header written
          ≡ record { cc_id = cc_id; id = id; remain = remain; storage = storage })
        × (read_payload written (length payload) ≡ payload)
  unfolding write_msg read_header read_payload
  read-write_msg l p hc hi hr = (
    λ i. record {
      cc_id = word cc_id hc i;
      id = word id hi i;
      remain = word remain hr i;
      storage = flag storage i;
    },
    ap (take (length payload)) (
          drop-append_of_eq 3 (take 3 (drop 1 (drop 4 (drop 4 (drop 4 slot))))) (payload ++ rest)
            gap)
        ∙ take-append payload rest,
  )
    where
      rest : List ℕ
      rest = drop (msg_payload + length payload) (
          copy_to
            (copy_to (copy_to (copy_to slot 0 (to_ne_bytes cc_id)) 4 (to_ne_bytes id)) 8
              (to_ne_bytes remain))
            12 ((if storage then 1 else 0) ∷ []))

      flag : (b : Bool) → not ((if b then 1 else 0) == 0) ≡ b
      flag true = refl
      flag false = refl

      gap : 3 ≡ length (take 3 (drop 1 (drop 4 (drop 4 (drop 4 slot)))))
      gap = omega (
        arith,
        length-take 3 (drop 1 (drop 4 (drop 4 (drop 4 slot)))),
        length-drop 1 (drop 4 (drop 4 (drop 4 slot))),
        length-drop 4 (drop 4 (drop 4 slot)),
        length-drop 4 (drop 4 slot),
        length-drop 4 slot,
      )
