-- ===== src/RobustMutex/Tests.antt =====
-- A thread dies with a robust mutex, and another recovers it.
use thoth_ipc.Base.{◌-◌, ◌+◌, ◌≡◌, refl, sym, arith, true, update_self, ◌^◌, ◌∙◌, update_ne}
use thoth_ipc.RobustMutex.{
  Errno, A0Result, LockRound, UnlockRound, futex_owner_died, lock_round, mtx_consistent,
  unlock_round, ftx_tid, ftx_owner_died, cas, ftx_notrecoverable, new_val,
}
use thoth_ipc.RobustMutex.Run.{Thread, Sys, placed, moved, Step, Run}
use thoth_ipc.RobustMutex.Safety.{Names, robust_Excludes}

abbrev fresh : Sys
fresh = record { ftx = 0; threads = λ i. Thread.outside }

abbrev one_holds : Sys
one_holds = moved fresh 7 (placed (LockRound.returns A0Result.ok)) 7

abbrev two_asks : Sys
two_asks = moved one_holds 9 (placed LockRound.ask_kernel) 7

abbrev one_dies : Sys
one_dies = moved two_asks 7 Thread.outside futex_owner_died

abbrev two_granted : Sys
two_granted = moved one_dies 9 Thread.granted (futex_owner_died + 9)

locks : lock_round 7 0 ≡ (LockRound.returns A0Result.ok, 7)
unfolding lock_round cas ftx_notrecoverable
locks = refl

asks : lock_round 9 7 ≡ (LockRound.ask_kernel, 7)
unfolding lock_round cas ftx_notrecoverable
asks = refl

gone :
    lock_round 9 (2 ^ 31 - 1) ≡ (LockRound.returns (A0Result.err Errno.enotrecoverable), 2 ^ 31 - 1)
unfolding lock_round cas ftx_notrecoverable
gone = refl

recovers : mtx_consistent 9 (futex_owner_died + 9) ≡ (A0Result.ok, 9)
unfolding mtx_consistent ftx_tid ftx_owner_died
recovers = refl

borks :
    unlock_round 9 (2 ^ 31 + futex_owner_died + 9)
    ≡ (UnlockRound.slow (2 ^ 31 - 1), 2 ^ 31 + futex_owner_died + 9)
unfolding unlock_round ftx_tid ftx_owner_died cas new_val
borks = refl

dead : (ftx_tid futex_owner_died ≡ 0) × (ftx_owner_died futex_owner_died ≡ true)
unfolding ftx_tid ftx_owner_died
dead = (refl, refl)

named : (ftx_tid (futex_owner_died + 9) ≡ 9) × (ftx_owner_died (futex_owner_died + 9) ≡ true)
unfolding ftx_tid ftx_owner_died
named = (refl, refl)

owner : ftx_tid 7 ≡ 7
unfolding ftx_tid
owner = refl

to_granted : Run fresh two_granted
to_granted =
    Run.next fresh one_dies two_granted
      (Run.next fresh two_asks one_dies
        (Run.next fresh one_holds two_asks
          (Run.next fresh fresh one_holds (Run.done fresh) (
            Step.rounds fresh 7 (LockRound.returns A0Result.ok) 7 (omega arith, omega arith) refl
              locks))
          (Step.rounds one_holds 9 LockRound.ask_kernel 7 (omega arith, omega arith)
            (update_ne fresh.threads (placed (LockRound.returns A0Result.ok))
              (λ e. omega (arith, e)))
            asks))
        (Step.dies two_asks 7 futex_owner_died (omega arith, omega arith) (λ e. dead)
          (λ ne. absurd (ne owner))))
      (Step.kernel_locks one_dies 9 (futex_owner_died + 9) (omega arith, omega arith) two_asking
        dead.0 named.0 (named.1 ∙ sym dead.1))
  where
    two_asking : one_dies.threads 9 ≡ Thread.asking
    two_asking =
        update_ne two_asks.threads Thread.outside (λ e. omega (arith, e))
        ∙ update_self one_holds.threads 9 (placed LockRound.ask_kernel)
        ∙ unfold placed in refl

robust_Excludes_example : Names two_granted
robust_Excludes_example =
    robust_Excludes fresh two_granted (record { free = refl; all_outside = λ i. refl }) to_granted
