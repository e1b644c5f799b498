-- ===== src/Locks.antt =====
-- rust/thoth-ipc/src/spin_lock.rs and rw_lock.rs: a spin lock, and a lock for one writer or many
-- readers, each on one 32-bit word. An atomic operation on the word is one step. The backoff between
-- the rounds is `adaptive_yield`.
pub mod Spin
pub mod Words
pub mod ReadWrite
mod Tests
use thoth_ipc.Base.{
  ℕ, zero, suc, ◌+◌, ◌-◌, ◌^◌, bit_and, bit_or, Bool, true, false, not, ◌==◌, ltb, if◌then◌else◌,
  sub32, add32,
}

-- What a thread does between two rounds
pub data Pause : Type 0 where
  busy_spin : Pause
  spin_loop : Pause
  yield_now : Pause
  sleep_1ms : Pause

-- The pause, and the count for the next one
unfoldable pub adaptive_yield : ℕ → Pause × ℕ
adaptive_yield k =
    if ltb k 4
    then (Pause.busy_spin, add32 k 1)
    else if ltb k 16
    then (Pause.spin_loop, add32 k 1)
    else if ltb k 32
    then (Pause.yield_now, add32 k 1)
    else (Pause.sleep_1ms, k)

-- One round of `SpinLock::lock`: whether it has the lock, and the word
unfoldable pub swap_lock : ℕ → Bool × ℕ
swap_lock lc = (lc == 0, 1)

abbrev pub spin_unlock : ℕ → ℕ
spin_unlock lc = 0

abbrev pub w_mask : ℕ
w_mask = 2 ^ 31 - 1

abbrev pub w_flag : ℕ
w_flag = 2 ^ 31

-- What a round of `RwLock::lock` comes to: the lock, the wait for the readers, or another round
pub data WriteRound : Type 0 where
  got : WriteRound
  readers_left : WriteRound
  retry : WriteRound

-- `fetch_or`: the round and the word after it
unfoldable pub lock : ℕ → WriteRound × ℕ
lock old = (
  if old == 0
      then WriteRound.got
      else if bit_and old w_flag == 0
      then WriteRound.readers_left
      else WriteRound.retry,
  bit_or old w_flag,
)

-- Whether the readers are gone
unfoldable pub drained : ℕ → Bool
drained lc = bit_and lc w_mask == 0

abbrev pub unlock : ℕ → ℕ
unlock lc = 0

-- The branch of `lock_shared` on the value it has loaded: whether it tries the exchange
unfoldable pub may_share : ℕ → Bool
may_share old = bit_and old w_flag == 0

-- `compare_exchange_weak(old, old + 1)`
unfoldable pub lock_shared : ℕ → ℕ → Bool × ℕ
lock_shared old lc = if lc == old then (true, old + 1) else (false, lc)

unfoldable pub unlock_shared : ℕ → ℕ
unlock_shared lc = sub32 lc 1
