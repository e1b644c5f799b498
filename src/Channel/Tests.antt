-- ===== src/Channel/Tests.antt =====
-- Runs of the framing code, and the theorems at concrete inputs.
use thoth_ipc.Base.{
  ℕ, ◌≡◌, ◌≢◌, refl, arith, List, [], ◌∷◌, none, some, replicate, false, ℕ_discrete, ◌==◌,
  if◌then◌else◌,
}
use mathlib.Core.Option
use thoth_ipc.Channel.Slot.{write_msg}
use thoth_ipc.Channel.Fragments.{fragments, full_fragments, frames, frame_of, fragments-eq-frames}
use thoth_ipc.Channel.Assemble.{Receiver, Taken, take_out}
use thoth_ipc.Channel.Join.{taken_of}
use thoth_ipc.Channel.Slots.{take_out-write_msg}
use thoth_ipc.Channel.Delivery.{
  Pending, between, Delivers, receive-Delivers, slots_of, sent, receive,
}

abbrev zeros : List ℕ
zeros = replicate 80 0

abbrev long_message : List ℕ
long_message = replicate 70 5

-- 70 bytes are 64 and 6: `remain` is 6, then -58
fragments_runs :
    fragments long_message
    ≡ record { remain = 6; payload = replicate 64 5 }
      ∷ record { remain = 0xffff_ffc6; payload = replicate 6 5 }
      ∷ []
unfolding fragments full_fragments
fragments_runs = refl

fragments-eq-frames_example : fragments long_message ≡ frames 70 long_message
fragments-eq-frames_example = fragments-eq-frames long_message (omega arith)

take_out-write_msg_example :
    take_out 3
      (write_msg zeros 7 8 (frame_of (1 ∷ 2 ∷ [])).remain false (frame_of (1 ∷ 2 ∷ [])).payload)
    ≡ taken_of 8 (frame_of (1 ∷ 2 ∷ []))
take_out-write_msg_example =
    take_out-write_msg zeros (1 ∷ 2 ∷ []) 3 7 8 refl (omega arith) (omega arith) (omega arith)
      (omega arith) (omega arith)

abbrev receiver : Receiver
receiver = record { conn_id = 1; recv_cache = λ k. none; chunk_shm = λ s. none }

abbrev short_message : List ℕ
short_message = 9 ∷ []

-- a message of two fragments under id 1, and one of one fragment under id 2 between them
abbrev mixed : List Taken
mixed =
    taken_of 1 (record { remain = 6; payload = replicate 64 5 })
    ∷ taken_of 2 (record { remain = 0xffff_ffc1; payload = short_message })
    ∷ taken_of 1 (record { remain = 0xffff_ffc6; payload = replicate 6 5 })
    ∷ []

abbrev expected : ℕ → List (List ℕ)
expected id = if id == 1 then long_message ∷ [] else if id == 2 then short_message ∷ [] else []

mixed-sent_1 : slots_of 1 mixed ≡ sent 1 (long_message ∷ [])
unfolding fragments full_fragments
mixed-sent_1 = refl

mixed-sent_2 : slots_of 2 mixed ≡ sent 2 (short_message ∷ [])
unfolding fragments full_fragments
mixed-sent_2 = refl

mixed-sent_other : (id : ℕ) → id ≢ 1 → id ≢ 2 → slots_of id mixed ≡ []
mixed-sent_other id n1 n2 = ground arith

expected_other : (id : ℕ) → id ≢ 1 → id ≢ 2 → expected id ≡ []
expected_other id n1 n2 = ground arith

mixed-Pending : (id : ℕ) → Pending id none (slots_of id mixed) (expected id)
mixed-Pending id = elim (ℕ_discrete id 1) [
  | yes e ↦ rw e (between (long_message ∷ []) (omega arith) refl mixed-sent_1 refl)
  | no n1 ↦ elim (ℕ_discrete id 2) [
    | yes e ↦ rw e (between (short_message ∷ []) (omega arith) refl mixed-sent_2 refl)
    | no n2 ↦ between [] tt refl (mixed-sent_other id n1 n2) (expected_other id n1 n2)
  ]
]

receive-Delivers_example : Delivers receiver mixed expected
receive-Delivers_example = receive-Delivers mixed receiver expected mixed-Pending

receive_runs :
    Option.map (λ p. p.0) (receive receiver mixed)
    ≡ some ((2, short_message) ∷ (1, long_message) ∷ [])
unfolding receive
receive_runs = refl
