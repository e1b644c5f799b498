-- ===== src/Waiter.antt =====
-- rust/thoth-ipc/src/waiter.rs and the condition of platform/linux.rs beneath it: threads that wait
-- on one handle until they are let go, and threads that wake them. The mutex is the thread that has
-- it, of which there is one at most; the condition is its sequence number and the threads that sleep
-- on it. Calls that fail are not modelled.
pub mod Run
pub mod Keeps
mod Waits
mod Wakes
pub mod Safety
mod Tests
use thoth_ipc.Base.{ℕ, Bool, true, false, Option, ◌==◌, if◌then◌else◌, add32}

-- `notify` or `broadcast`
pub data Call : Type 0 where
  notifies : Call
  broadcasts : Call

-- Where a thread is: outside; in `wait_if` before the lock, before the test of the loop, before
-- `cond.wait`, with the sequence number that it has read there, past the unlocking, asleep, before
-- the lock again (woken or late), and before the last unlocking; in a call that wakes before the
-- lock, with it, before the sequence number is counted up, and before the sleepers are requeued
pub data Thread : Type 0 where
  outside : Thread
  locking : Thread
  testing : Thread
  going : Thread
  noted : ℕ → Thread
  entering : ℕ → Thread
  asleep : ℕ → Thread
  relocking : Bool → Thread
  leaving : Thread
  starting : Call → Thread
  at_barrier : Call → Thread
  passed : Call → Thread
  bumped : Call → Thread

pub record Sys : Type 0 where
  pub quit : Bool
  pub owner : Option ℕ
  pub seq : ℕ  -- u32
  pub threads : ℕ → Thread

-- The test of the loop, on the flag and the answer of the predicate
unfoldable pub tested : Bool → Bool → Thread
tested quit pred = if quit then Thread.leaving else if pred then Thread.going else Thread.leaving

-- The kernel puts to sleep only who has read the sequence number that still stands.
unfoldable pub enter : ℕ → ℕ → Thread
enter seq init_cnd = if seq == init_cnd then Thread.asleep init_cnd else Thread.relocking true

-- Once the mutex is locked again: the loop goes on, or the time is up.
unfoldable pub relocked : Bool → Thread
relocked true = Thread.testing
relocked false = Thread.leaving

-- `cnd.fetch_add(1, …)`
unfoldable pub bump : ℕ → ℕ
bump seq = add32 seq 1

-- A sleeper that is requeued onto the mutex
unfoldable pub requeued : Thread → Thread
requeued (Thread.asleep init_cnd) = Thread.relocking true
requeued t = t
