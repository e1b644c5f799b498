-- ===== src/Waiter/Run.antt =====
-- The steps of any number of threads that wait and wake, in any order.
use thoth_ipc.Base.{ℕ, ◌-◌, ◌^◌, ◌<◌, ◌≡◌, Bool, true, false, none, some, update}
use thoth_ipc.Waiter.{Call, Thread, Sys, tested, enter, relocked, bump, requeued}

abbrev pub moved : Sys → ℕ → Thread → Sys
moved s i t = record s { threads = update s.threads i t }

abbrev pub locked : Sys → ℕ → Thread → Sys
locked s i t = record s { owner = some i; threads = update s.threads i t }

abbrev pub unlocked : Sys → ℕ → Thread → Sys
unlocked s i t = record s { owner = none; threads = update s.threads i t }

pub data Step : Sys → Sys → Type 0 where
  waits : (s : Sys) (i : ℕ) → s.threads i ≡ Thread.outside → Step s (moved s i Thread.locking)
  locks :
      (s : Sys) (i : ℕ)
      → s.threads i ≡ Thread.locking
      → s.owner ≡ none
      → Step s (locked s i Thread.testing)
  tests :
      (s : Sys) (i : ℕ) (pred : Bool)
      → s.threads i ≡ Thread.testing
      → Step s (moved s i (tested s.quit pred))
  notes : (s : Sys) (i : ℕ) → s.threads i ≡ Thread.going → Step s (moved s i (Thread.noted s.seq))
  unlocks :
      (s : Sys) (i init_cnd : ℕ)
      → s.threads i ≡ Thread.noted init_cnd
      → Step s (unlocked s i (Thread.entering init_cnd))
  enters :
      (s : Sys) (i init_cnd : ℕ)
      → s.threads i ≡ Thread.entering init_cnd
      → Step s (moved s i (enter s.seq init_cnd))
  times_out :
      (s : Sys) (i init_cnd : ℕ)
      → s.threads i ≡ Thread.asleep init_cnd
      → Step s (moved s i (Thread.relocking false))
  interrupted :
      (s : Sys) (i init_cnd : ℕ)
      → s.threads i ≡ Thread.asleep init_cnd
      → Step s (moved s i (Thread.entering init_cnd))
  relocks :
      (s : Sys) (i : ℕ) (woken : Bool)
      → s.threads i ≡ Thread.relocking woken
      → s.owner ≡ none
      → Step s (locked s i (relocked woken))
  returns : (s : Sys) (i : ℕ) → s.threads i ≡ Thread.leaving → Step s (unlocked s i Thread.outside)
  quits :
      (s : Sys) (i : ℕ)
      → s.threads i ≡ Thread.outside
      → Step s
          (record s { quit = true; threads = update s.threads i (Thread.starting Call.broadcasts) })
  wakes :
      (s : Sys) (i : ℕ) (call : Call)
      → s.threads i ≡ Thread.outside
      → Step s (moved s i (Thread.starting call))
  takes :
      (s : Sys) (i : ℕ) (call : Call)
      → s.threads i ≡ Thread.starting call
      → s.owner ≡ none
      → Step s (locked s i (Thread.at_barrier call))
  gives :
      (s : Sys) (i : ℕ) (call : Call)
      → s.threads i ≡ Thread.at_barrier call
      → Step s (unlocked s i (Thread.passed call))
  bumps :
      (s : Sys) (i : ℕ) (call : Call)
      → s.threads i ≡ Thread.passed call
      → s.seq < 2 ^ 32 - 1
      → Step s (record s { seq = bump s.seq; threads = update s.threads i (Thread.bumped call) })
  requeues_one :
      (s : Sys) (i j : ℕ)
      → s.threads i ≡ Thread.bumped Call.notifies
      → Step s (moved (moved s j (requeued (s.threads j))) i Thread.outside)
  requeues_all :
      (s : Sys) (i : ℕ)
      → s.threads i ≡ Thread.bumped Call.broadcasts
      → Step s (record s { threads = update (λ j. requeued (s.threads j)) i Thread.outside })

pub data Run : Sys → Sys → Type 0 where
  done : (s : Sys) → Run s s
  next : (s t u : Sys) → Run s t → Step t u → Run s u

pub record IsFresh (s : Sys) : Type 0 where
  pub unlocked_now : s.owner ≡ none
  pub all_outside : (i : ℕ) → s.threads i ≡ Thread.outside
