-- ===== src/RobustMutex/Run.antt =====
-- Any number of threads at a robust mutex, with the kernel, which grants it, hands it over and tidies
-- up after a thread that dies. What the kernel does to the word is only bounded here, as futex(2)
-- documents it.
use thoth_ipc.Base.{ℕ, ◌<◌, ◌≡◌, ◌≢◌, ◌⊎◌, Bool, true, false, none, some, update}
use thoth_ipc.RobustMutex.{
  Errno, A0Result, LockRound, UnlockRound, futex_tid_mask, ftx_tid, ftx_owner_died, lock_round,
  after_kernel, mtx_consistent, unlock_round, mark,
}

-- Not at the mutex or before a round of the lock, in the kernel, granted the mutex by it, with the
-- mutex, with that of an owner that died, in the kernel to unlock, and back from there
pub data Thread : Type 0 where
  outside : Thread
  asking : Thread
  granted : Thread
  holds : Thread
  recovers : Thread
  leaving : ℕ → Thread
  marking : ℕ → Thread

pub record Sys : Type 0 where
  pub ftx : ℕ
  pub threads : ℕ → Thread

unfoldable pub has : Thread → Bool
has Thread.outside = false
has Thread.asking = false
has Thread.granted = true
has Thread.holds = true
has Thread.recovers = true
has (Thread.leaving new) = true
has (Thread.marking new) = false

-- Where a thread is by the point that the loop of the lock has come to
unfoldable pub placed : LockRound → Thread
placed (LockRound.returns A0Result.ok) = Thread.holds
placed (LockRound.returns (A0Result.err Errno.eownerdead)) = Thread.recovers
placed (LockRound.returns (A0Result.err e)) = Thread.outside
placed LockRound.ask_kernel = Thread.asking
placed LockRound.again = Thread.outside

abbrev pub moved : Sys → ℕ → Thread → ℕ → Sys
moved s i t ftx = record { ftx = ftx; threads = update s.threads i t }

abbrev pub IsTid : ℕ → Type 0
IsTid i = (0 < i) × (i < futex_tid_mask)

pub data Step : Sys → Sys → Type 0 where
  rounds :
      (s : Sys) (i : ℕ) (r : LockRound) (ftx : ℕ)
      → IsTid i
      → s.threads i ≡ Thread.outside
      → lock_round i s.ftx ≡ (r, ftx)
      → Step s (moved s i (placed r) ftx)
  kernel_waits :
      (s : Sys) (ftx : ℕ)
      → ftx_tid ftx ≡ ftx_tid s.ftx
      → ftx_owner_died ftx ≡ ftx_owner_died s.ftx
      → Step s (record s { ftx = ftx })
  kernel_locks :
      (s : Sys) (i ftx : ℕ)
      → IsTid i
      → s.threads i ≡ Thread.asking
      → ftx_tid s.ftx ≡ 0
      → ftx_tid ftx ≡ i
      → ftx_owner_died ftx ≡ ftx_owner_died s.ftx
      → Step s (moved s i Thread.granted ftx)
  kernel_fails :
      (s : Sys) (i : ℕ) (e : Errno)
      → s.threads i ≡ Thread.asking
      → e ≢ Errno.eownerdead
      → Step s (moved s i (placed (after_kernel (some e) s.ftx)) s.ftx)
  checks :
      (s : Sys) (i : ℕ)
      → s.threads i ≡ Thread.granted
      → Step s (moved s i (placed (after_kernel none s.ftx)) s.ftx)
  fixes :
      (s : Sys) (i ftx : ℕ)
      → s.threads i ≡ Thread.recovers
      → mtx_consistent i s.ftx ≡ (A0Result.ok, ftx)
      → Step s (moved s i Thread.holds ftx)
  unlocks :
      (s : Sys) (i ftx : ℕ)
      → (s.threads i ≡ Thread.holds) ⊎ (s.threads i ≡ Thread.recovers)
      → unlock_round i s.ftx ≡ (UnlockRound.unlocked, ftx)
      → Step s (moved s i Thread.outside ftx)
  leaves :
      (s : Sys) (i new ftx : ℕ)
      → (s.threads i ≡ Thread.holds) ⊎ (s.threads i ≡ Thread.recovers)
      → unlock_round i s.ftx ≡ (UnlockRound.slow new, ftx)
      → Step s (moved s i (Thread.leaving new) ftx)
  kernel_refuses :
      (s : Sys) (i new : ℕ)
      → s.threads i ≡ Thread.leaving new
      → ftx_tid s.ftx ≢ i
      → Step s (moved s i (Thread.marking new) s.ftx)
  kernel_frees :
      (s : Sys) (i new : ℕ)
      → s.threads i ≡ Thread.leaving new
      → ftx_tid s.ftx ≡ i
      → Step s (moved s i (Thread.marking new) 0)
  kernel_hands :
      (s : Sys) (i j new ftx : ℕ)
      → s.threads i ≡ Thread.leaving new
      → ftx_tid s.ftx ≡ i
      → IsTid j
      → s.threads j ≡ Thread.asking
      → ftx_tid ftx ≡ j
      → Step s (moved (moved s i (Thread.marking new) 0) j Thread.granted ftx)
  marks :
      (s : Sys) (i new : ℕ)
      → s.threads i ≡ Thread.marking new
      → Step s (moved s i Thread.outside (mark new s.ftx))
  dies :
      (s : Sys) (i ftx : ℕ)
      → IsTid i
      → (ftx_tid s.ftx ≡ i → (ftx_tid ftx ≡ 0) × (ftx_owner_died ftx ≡ true))
      → (ftx_tid s.ftx ≢ i → ftx ≡ s.ftx)
      → Step s (moved s i Thread.outside ftx)

pub data Run : Sys → Sys → Type 0 where
  done : (s : Sys) → Run s s
  next : (s t u : Sys) → Run s t → Step t u → Run s u

pub record IsFresh (s : Sys) : Type 0 where
  pub free : s.ftx ≡ 0
  pub all_outside : (i : ℕ) → s.threads i ≡ Thread.outside
