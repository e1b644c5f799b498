-- ===== src/Route/Tests.antt =====
-- Runs of a route ring, and the theorems at concrete inputs.
use thoth_ipc.Base.{
  false, ◌⊎◌, true, suc, ◌-◌, ◌<◌, ℕ, zero, ◌+◌, ◌%◌, ◌≤◌, ◌^◌, ◌≡◌, refl, arith, List, [], ◌∷◌,
  ◌++◌, length, some, none, replicate, each_bit, trailing_zeros,
}
use thoth_ipc.Liveness.{no_owner, live_marks, keep_live}
use thoth_ipc.Route.{
  force_push, push_fragment, adopt_from, adopt_cursor, Ring, blank, Claim, ring_slot, is_busy,
  claim_slot, write_slot, publish, release_slot, recv_slot, claim_bit,
}
use thoth_ipc.Route.Run.{Stage, Sys, Step, Run, IsRing}
use thoth_ipc.Route.Evict.{force_push-claims}
use thoth_ipc.Route.Timeout.{push_fragment-Ends}
use thoth_ipc.Route.Adopt.{Adopts, adopt_cursor-Adopts}
use thoth_ipc.Route.Delivery.{HasJoined, NextIs, Run-Delivers}

-- Receivers 0 and 1 are connected, and nothing is written yet.
abbrev fresh : Ring
fresh = record {
  connections = 3;
  epoch = 0;
  write_cursor = 0;
  liveness = some (replicate 32 no_owner);
  slots = replicate 256 blank;
}

abbrev start : Sys
start = record { ring = fresh; stage = Stage.idle; read_cursor = 0; pushed = []; got = [] }

rc_zero : (n idx : ℕ) → (ring_slot (record fresh { slots = replicate n blank }) idx).rc_ < 2 ^ 64
rc_zero zero idx = omega arith
rc_zero (suc n) zero = omega arith
rc_zero (suc n) (suc idx) = rc_zero n idx

start-HasJoined : HasJoined 0 start
start-HasJoined = record {
  ring_ok = record {
    connections_lt = omega arith;
    epoch_lt = omega arith;
    epoch_high = refl;
    cursor_lt = omega arith;
    size = refl;
    rc_lt = rc_zero 256;
  };
  reader = record {
    connected = refl;
    owners = replicate 32 no_owner;
    table = refl;
    started = refl;
  };
  at_cursor = refl;
  between = refl;
  none_pushed = refl;
  none_got = refl;
}

abbrev marked : Ring
marked = record fresh { slots = record { data_ = []; rc_ = 3 } ∷ replicate 255 blank }

claim_runs : claim_slot fresh ≡ Claim.claimed marked
unfolding claim_slot is_busy
claim_runs = refl

abbrev owned : Sys
owned = record start { ring = marked; stage = Stage.owns_slot }

abbrev wrote : Sys
wrote = record owned { ring = write_slot (7 ∷ []) marked; stage = Stage.written }

abbrev sent : Sys
sent = record wrote {
  ring = publish (write_slot (7 ∷ []) marked);
  stage = Stage.idle;
  pushed = (7 ∷ []) ∷ [];
}

one_push : Run 0 start sent
unfolding write_slot
one_push =
    Run.next start wrote sent
      (Run.next start owned wrote
        (Run.next start start owned (Run.done start)
          (Step.claim start marked refl (omega arith) claim_runs))
        (Step.write owned (7 ∷ []) refl))
      (Step.finish wrote refl)

recv_runs :
    recv_slot sent.ring 1 0
    ≡ some (
      7 ∷ [],
      record sent.ring { slots = record { data_ = 7 ∷ []; rc_ = 2 } ∷ replicate 255 blank },
      1,
    )
unfolding recv_slot release_slot publish write_slot
recv_runs = refl

claim_bit_runs : claim_bit 5 ≡ some (7, 2)
unfolding claim_bit
claim_bit_runs = refl

claim_bit_full : claim_bit (2 ^ 32 - 1) ≡ none
unfolding claim_bit
claim_bit_full = refl

Run-Delivers_example :
    (rest : List (List ℕ)) × ((7 ∷ []) ∷ [] ≡ [] ++ rest)
    × (sent.ring.write_cursor ≡ (0 + length rest) % 2 ^ 32)
    × (length rest ≤ 256)
    × NextIs 0 sent rest
Run-Delivers_example = Run-Delivers 0 start sent (omega arith) start-HasJoined one_push

-- Receiver 0 has not read the slot that the writer laps back to; receiver 1 has.
abbrev lapped : Ring
lapped = record marked {
  write_cursor = 256;
  slots = record { data_ = []; rc_ = 1 } ∷ replicate 255 blank;
}

lapped_waits : claim_slot lapped ≡ Claim.must_wait
unfolding claim_slot is_busy live_marks each_bit keep_live trailing_zeros
lapped_waits = refl

force_push_runs : (force_push lapped).1.connections ≡ 2
unfolding force_push live_marks each_bit keep_live trailing_zeros
force_push_runs = refl

lapped_goes_on : (force_push lapped).0 ≡ true
unfolding force_push live_marks each_bit keep_live trailing_zeros
lapped_goes_on = refl

lapped-IsRing : IsRing lapped
lapped-IsRing = record {
  connections_lt = omega arith;
  epoch_lt = omega arith;
  epoch_high = refl;
  cursor_lt = omega arith;
  size = refl;
  rc_lt = λ idx. lapped_rc idx;
}
  where
    lapped_rc : (idx : ℕ) → (ring_slot lapped idx).rc_ < 2 ^ 64
    lapped_rc zero = omega arith
    lapped_rc (suc idx) = rc_zero 255 idx

force_push-claims_example : (ring : Ring) × (claim_slot (force_push lapped).1 ≡ Claim.claimed ring)
force_push-claims_example =
    force_push-claims lapped (replicate 32 no_owner) lapped-IsRing refl lapped_waits lapped_goes_on

adopt_cursor_runs : adopt_cursor (record marked { write_cursor = 1 }) 0 1 ≡ 0
unfolding adopt_cursor adopt_from
adopt_cursor_runs = refl

adopt_cursor-Adopts_example :
    Adopts
      (record marked { write_cursor = 1 })
      0
      1
      256
      1
      (adopt_cursor (record marked { write_cursor = 1 }) 0 1)
adopt_cursor-Adopts_example =
    adopt_cursor-Adopts (record marked { write_cursor = 1 }) 0 1 (omega arith)

push_fragment-Ends_example :
    (((force_push lapped).0 ≡ false)
      × (push_fragment (record { ok = false; after = lapped } ∷ []) (7 ∷ []) lapped
          ≡ some (false, (force_push lapped).1)))
    ⊎ (((force_push lapped).0 ≡ true)
        × ((owned : Ring) × (push_fragment
                (record { ok = false; after = lapped } ∷ [])
                (7 ∷ [])
                lapped
              ≡ some (true, publish (write_slot (7 ∷ []) owned)))))
push_fragment-Ends_example =
    push_fragment-Ends [] (7 ∷ []) (record { ok = false; after = lapped }) lapped
      (replicate 32 no_owner) lapped_waits refl lapped-IsRing refl lapped_waits
