-- ===== src/Locks/Tests.antt =====
-- Short runs of the locks, and the theorems there.
use thoth_ipc.Base.{ℕ, ◌+◌, ◌≡◌, ◌≢◌, ◌⊎◌, refl, arith, true, false, update, update_self}
use thoth_ipc.Locks.{
  Pause, WriteRound, w_flag, adaptive_yield, swap_lock, lock, drained, lock_shared,
}
use thoth_ipc.Locks.Spin
use thoth_ipc.Locks.Spin.{spin_Excludes, IsInside}
use thoth_ipc.Locks.ReadWrite
use thoth_ipc.Locks.ReadWrite.{moved, is_reading, is_writer, write_Excludes, quiet_Frees}

yields : adaptive_yield 15 ≡ (Pause.spin_loop, 16)
unfolding adaptive_yield
yields = refl

sleeps : adaptive_yield 32 ≡ (Pause.sleep_1ms, 32)
unfolding adaptive_yield
sleeps = refl

abbrev free_spin : Spin.Sys
free_spin = record { lc = 0; threads = λ i. Spin.Thread.outside }

abbrev asks : Spin.Sys
asks = record free_spin { threads = update free_spin.threads 2 (Spin.Thread.waiting 0) }

abbrev has : Spin.Sys
has = record { lc = 1; threads = update asks.threads 2 Spin.Thread.inside }

swaps : swap_lock 0 ≡ (true, 1)
unfolding swap_lock
swaps = refl

spin-Run : Spin.Run free_spin has
spin-Run =
    Spin.Run.next free_spin asks has
      (Spin.Run.next free_spin free_spin asks (Spin.Run.done free_spin)
        (Spin.Step.arrive free_spin 2 refl))
      (Spin.Step.acquire asks 2 0 1 (update_self free_spin.threads 2 (Spin.Thread.waiting 0)) swaps)

spin_Excludes_example :
    ((i j : ℕ) → IsInside (has.threads i) → IsInside (has.threads j) → i ≡ j)
    × ((swap_lock 1 ≡ (true, 1)) ⊎ ((i : ℕ) × IsInside (has.threads i)))
spin_Excludes_example =
    spin_Excludes free_spin has (record { free = refl; all_outside = λ i. refl }) spin-Run

abbrev free_rw : ReadWrite.Sys
free_rw = record { lc = 0; threads = λ i. ReadWrite.Thread.outside }

abbrev claims : ReadWrite.Sys
claims = moved free_rw 1 ReadWrite.Thread.claiming 0

abbrev writes : ReadWrite.Sys
writes = moved claims 1 ReadWrite.Thread.writing w_flag

lock_runs : lock 0 ≡ (WriteRound.got, w_flag)
unfolding lock
lock_runs = refl

lock_waits : lock 3 ≡ (WriteRound.readers_left, w_flag + 3)
unfolding lock
lock_waits = refl

lock_retries : lock (w_flag + 3) ≡ (WriteRound.retry, w_flag + 3)
unfolding lock
lock_retries = refl

still_read : drained (w_flag + 3) ≡ false
unfolding drained
still_read = refl

shares : lock_shared 3 3 ≡ (true, 4)
unfolding lock_shared
shares = refl

to_writes : ReadWrite.Run 4 free_rw writes
to_writes =
    ReadWrite.Run.next free_rw claims writes
      (ReadWrite.Run.next free_rw free_rw claims (ReadWrite.Run.done free_rw)
        (ReadWrite.Step.claim free_rw 1 (omega arith) refl))
      (ReadWrite.Step.win claims 1 w_flag (omega arith)
        (update_self free_rw.threads 1 ReadWrite.Thread.claiming) lock_runs)

free_rw-IsFresh : ReadWrite.IsFresh free_rw
free_rw-IsFresh = record { free = refl; all_outside = λ i. refl }

write_Excludes_example :
    (writes.threads 3 ≡ ReadWrite.Thread.writing → ◌≡◌ {A = ℕ} 1 3)
    × (writes.threads 3 ≢ ReadWrite.Thread.reading)
write_Excludes_example =
    write_Excludes 4 free_rw writes (omega arith) free_rw-IsFresh to_writes 1 3
      (update_self claims.threads 1 ReadWrite.Thread.writing)
