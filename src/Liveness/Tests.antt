-- ===== src/Liveness/Tests.antt =====
-- Runs of the owner table, and the theorems at concrete inputs.
use thoth_ipc.Base.{
  true, false, ◌==◌, ◌-◌, ◌^◌, ◌+◌, ◌≡◌, refl, arith, List, [], ◌∷◌, some, each_bit, trailing_zeros,
  if◌then◌else◌,
}
use thoth_ipc.Base.Bits.{bit}
use thoth_ipc.Liveness.{
  Os, is_process_alive, reap_one, reap_dead_receivers, claim_sole_owner, SlotOwner, no_owner,
  live_marks, keep_live, owner_at, set_since,
}
use thoth_ipc.Liveness.Reaper.{is_dead, bit-reap_dead_receivers}
use thoth_ipc.Liveness.SoleOwner.{claim_sole_owner-Excludes}
use thoth_ipc.Liveness.Marks.{bit-live_marks}

abbrev owners : List SlotOwner
owners = record no_owner { since = 10 } ∷ record no_owner { since = 20 } ∷ []

-- Position 15 is before receiver 1 started.
live_marks_runs : live_marks (some owners) 3 15 ≡ 1
unfolding live_marks each_bit keep_live trailing_zeros
live_marks_runs = refl

set_since_runs :
    set_since (some owners) 2 15
    ≡ some (record no_owner { since = 10 } ∷ record no_owner { since = 15 } ∷ [])
unfolding set_since trailing_zeros
set_since_runs = refl

-- After 2^31 positions a mark no longer counts as one of a receiver that is still there.
live_marks_late : live_marks (some owners) 3 (2 ^ 31 + 10) ≡ 2
unfolding live_marks each_bit keep_live trailing_zeros
live_marks_late = refl

bit-live_marks_example : bit 1 (live_marks (some owners) 3 15) ≡ 0
bit-live_marks_example = bit-live_marks owners 3 15 1 (omega arith)

-- Process 100 runs, and every process it is asked about started at time 7; process 200 is gone.
abbrev os : Os
os = record {
  exists = λ pid. pid == 100;
  is_zombie = λ pid. false;
  start_token = λ pid. 7;
  self_pid = 100;
}

abbrev held : List SlotOwner
held =
    record { pid = 100; since = 0; start_tok = 7 }
    ∷ record { pid = 200; since = 0; start_tok = 7 }
    ∷ record { pid = 100; since = 0; start_tok = 6 }
    ∷ []

-- Receiver 1 is dead, the process of receiver 2 has reused its id, and receiver 3 has no owner yet.
reap_runs : (reap_dead_receivers os held 15 15).connections ≡ 9
unfolding reap_dead_receivers each_bit reap_one is_process_alive trailing_zeros
reap_runs = refl

bit-reap_dead_receivers_example :
    (bit 1 (reap_dead_receivers os held 15 15).reaped
      ≡ (if is_dead os (owner_at held 1) then bit 1 15 else 0))
    × (bit 1 (reap_dead_receivers os held 15 15).connections
        ≡ bit 1 15 - (if is_dead os (owner_at held 1) then bit 1 15 else 0))
bit-reap_dead_receivers_example =
    bit-reap_dead_receivers os held 15 15 1 (omega arith) (omega arith)

abbrev dead_holder : SlotOwner
dead_holder = record { pid = 200; since = 0; start_tok = 7 }

takes_over : (claim_sole_owner os dead_holder).0 ≡ true
unfolding claim_sole_owner is_process_alive
takes_over = refl

claim_sole_owner-Excludes_example :
    claim_sole_owner os (claim_sole_owner os dead_holder).1
    ≡ (false, (claim_sole_owner os dead_holder).1)
claim_sole_owner-Excludes_example =
    claim_sole_owner-Excludes os os dead_holder takes_over
      (record { is_pid = refl; exists = refl; no_zombie = refl; token = refl })
