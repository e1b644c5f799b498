-- ===== src/Channel/Slots.antt =====
-- What `send` writes to a slot, and what a receiver takes out of it.
use thoth_ipc.Base.{
  ℕ, ◌<◌, ◌≡◌, ◌≢◌, ◌^◌, arith, List, length, false, true, length-take, take, add32, ◌∙◌, refl, ap,
  if◌then◌else◌, dec_lt,
}
use thoth_ipc.Channel.Slot.{
  Header, data_length, msg_size, write_msg, read-write_msg, read_header, read_payload,
}
use thoth_ipc.Channel.Fragments.{frame_of}
use thoth_ipc.Channel.Assemble.{take_out, le_zero, gt_zero}
use thoth_ipc.Channel.Join.{taken_of, frame-last, frame-more, frame-size}

module _ (rest : List ℕ) (pos : 0 < length rest) (small : length rest < 2 ^ 31) where
  frame-positive : gt_zero (add32 data_length (frame_of rest).remain) ≡ true
  frame-positive = ground arith

  -- `n` of the receive loop is the length of the payload.
  frame-length :
      (if le_zero (frame_of rest).remain
        then add32 data_length (frame_of rest).remain
        else data_length)
      ≡ length (take 64 rest)
  frame-length = elim (dec_lt 64 (length rest)) [
    | yes lt ↦ rw (frame-more rest lt small) (omega (arith, length-take 64 rest))
    | no ge ↦
        rw (frame-last rest pos (omega arith), frame-size rest small)
          (omega (arith, length-take 64 rest))
  ]

take_out-kept :
    (own : ℕ) (slot payload : List ℕ) (h : Header)
    → read_header slot ≡ h
    → h.storage ≡ false
    → h.cc_id ≢ own
    → gt_zero (add32 data_length h.remain) ≡ true
    → read_payload slot (if le_zero h.remain then add32 data_length h.remain else data_length)
      ≡ payload
    → take_out own slot ≡ taken_of h.id (record { remain = h.remain; payload = payload })
unfolding take_out
take_out-kept own slot payload h e s ne pos p = rw e (ground (arith, s, ne, pos, p))

-- On a slot of 80 bytes, another endpoint takes out of a written fragment exactly the fragment: its
-- id, `remain`, and payload. This is for the next fragment of a message of which 1 to 2^31 - 1 bytes
-- are left.
pub take_out-write_msg :
    (slot rest : List ℕ) (own cc_id id : ℕ)
    → length slot ≡ msg_size
    → 0 < length rest
    → length rest < 2 ^ 31
    → cc_id < 2 ^ 32
    → id < 2 ^ 32
    → cc_id ≢ own
    → take_out own (write_msg slot cc_id id (frame_of rest).remain false (frame_of rest).payload)
      ≡ taken_of id (frame_of rest)
take_out-write_msg slot rest own cc_id id l pos small hc hi ne =
    let (h, p) =
      read-write_msg slot (take 64 rest) cc_id id (frame_of rest).remain false l
        (omega (arith, length-take 64 rest)) hc hi (omega arith) in
    take_out-kept own _ (take 64 rest) _ h refl ne (frame-positive rest pos small)
      (ap (read_payload _) (frame-length rest pos small) ∙ p)
