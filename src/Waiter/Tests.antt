-- ===== src/Waiter/Tests.antt =====
-- A thread falls asleep, and another signals quit and wakes it.
use thoth_ipc.Base.{
  ℕ, ◌≡◌, ◌≢◌, refl, ◌∙◌, arith, true, false, none, update, update_self, ℕ_discrete,
}
use thoth_ipc.Waiter.{Call, Thread, Sys, tested, enter, bump, requeued, relocked}
use thoth_ipc.Waiter.Run.{moved, locked, unlocked, Step, Run}
use thoth_ipc.Waiter.Keeps.{stage}
use thoth_ipc.Waiter.Safety.{quit_Wakes}

abbrev fresh : Sys
fresh = record { quit = false; owner = none; seq = 0; threads = λ i. Thread.outside }

abbrev asks : Sys
asks = moved fresh 1 Thread.locking

abbrev tests : Sys
tests = locked asks 1 Thread.testing

abbrev goes : Sys
goes = moved tests 1 (tested false true)

abbrev notes : Sys
notes = moved goes 1 (Thread.noted 0)

abbrev enters : Sys
enters = unlocked notes 1 (Thread.entering 0)

abbrev sleeps : Sys
sleeps = moved enters 1 (enter 0 0)

abbrev quits : Sys
quits = record sleeps {
  quit = true;
  threads = update sleeps.threads 2 (Thread.starting Call.broadcasts);
}

abbrev takes : Sys
takes = locked quits 2 (Thread.at_barrier Call.broadcasts)

abbrev gives : Sys
gives = unlocked takes 2 (Thread.passed Call.broadcasts)

abbrev bumps : Sys
bumps = record gives {
  seq = bump 0;
  threads = update gives.threads 2 (Thread.bumped Call.broadcasts);
}

abbrev woken : Sys
woken = record bumps { threads = update (λ j. requeued (bumps.threads j)) 2 Thread.outside }

falls_asleep : sleeps.threads 1 ≡ Thread.asleep 0
unfolding enter
falls_asleep = update_self enters.threads 1 (Thread.asleep 0)

late_enters : enter 1 0 ≡ Thread.relocking true
unfolding enter
late_enters = refl

times_out : relocked false ≡ Thread.leaving
unfolding relocked
times_out = refl

to_goes : Run fresh goes
to_goes =
    Run.next fresh tests goes
      (Run.next fresh asks tests
        (Run.next fresh fresh asks (Run.done fresh) (Step.waits fresh 1 refl))
        (Step.locks asks 1 (update_self fresh.threads 1 Thread.locking) refl))
      (Step.tests tests 1 true (update_self asks.threads 1 Thread.testing))

to_sleeps : Run fresh sleeps
to_sleeps =
    Run.next fresh enters sleeps
      (Run.next fresh notes enters
        (Run.next fresh goes notes to_goes (
          Step.notes goes 1
            (update_self tests.threads 1 (tested false true) ∙ unfold tested in refl)))
        (Step.unlocks notes 1 0 (update_self goes.threads 1 (Thread.noted 0))))
      (Step.enters enters 1 0 (update_self notes.threads 1 (Thread.entering 0)))

-- The other threads are outside as long as thread 1 alone has moved.
two_outside : sleeps.threads 2 ≡ Thread.outside
unfolding ℕ_discrete
two_outside = refl

to_woken : Run fresh woken
to_woken =
    Run.next fresh bumps woken
      (Run.next fresh gives bumps
        (Run.next fresh takes gives
          (Run.next fresh quits takes
            (Run.next fresh sleeps quits to_sleeps (Step.quits sleeps 2 two_outside))
            (Step.takes quits 2 Call.broadcasts
              (update_self sleeps.threads 2 (Thread.starting Call.broadcasts)) refl))
          (Step.gives takes 2 Call.broadcasts
            (update_self quits.threads 2 (Thread.at_barrier Call.broadcasts))))
        (Step.bumps gives 2 Call.broadcasts
          (update_self takes.threads 2 (Thread.passed Call.broadcasts)) (omega arith)))
      (Step.requeues_all bumps 2 (update_self gives.threads 2 (Thread.bumped Call.broadcasts)))

-- Nobody is left who wakes.
woken_idle : (k : ℕ) → stage (woken.threads k) ≡ 0
unfolding stage requeued enter tested
woken_idle k = elim (ℕ_discrete 2 k) [
  | yes e ↦ ground arith
  | no ne ↦ elim (ℕ_discrete 1 k) [ yes e ↦ ground arith | no ne' ↦ ground arith ]
]

quit_Wakes_example :
    (woken.threads 1 ≢ Thread.asleep 0)
    × (woken.threads 1 ≡ Thread.entering 0 → enter woken.seq 0 ≡ Thread.relocking true)
quit_Wakes_example =
    quit_Wakes fresh woken 1 0 (record { unlocked_now = refl; all_outside = λ i. refl }) to_woken
      refl woken_idle
