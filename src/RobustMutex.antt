-- ===== src/RobustMutex.antt =====
-- rust/thoth-ipc/src/platform/linux.rs: the futex word of a robust mutex, which is 0 or the id of
-- the thread that has it, with a flag for waiters and one for an owner that died. Taking it with a
-- deadline, making it consistent and giving it back; the calls of the kernel stand between the
-- functions here, in RobustMutex.Run.
pub mod Words
pub mod Run
mod Keeps
mod Round
pub mod Safety
mod Tests
use thoth_ipc.Base.{
  ℕ, ◌-◌, ◌^◌, Bool, true, false, not, Option, none, some, ◌==◌, if◌then◌else◌, bit_and, bit_or,
}

abbrev pub futex_tid_mask : ℕ
futex_tid_mask = 2 ^ 30 - 1

abbrev pub futex_owner_died : ℕ
futex_owner_died = 2 ^ 30

abbrev pub ftx_not_recoverable : ℕ
ftx_not_recoverable = 2 ^ 31 - 1

-- The error numbers that the code tells apart
pub data Errno : Type 0 where
  eintr : Errno
  enotrecoverable : Errno
  eownerdead : Errno
  einval : Errno
  eperm : Errno
  another : ℕ → Errno

pub data A0Result : Type 0 where
  ok : A0Result
  err : Errno → A0Result

unfoldable pub ftx_tid : ℕ → ℕ
ftx_tid ftx = bit_and ftx futex_tid_mask

unfoldable pub ftx_owner_died : ℕ → Bool
ftx_owner_died ftx = not (bit_and ftx futex_owner_died == 0)

unfoldable pub ftx_notrecoverable : ℕ → Bool
ftx_notrecoverable ftx = bit_and ftx ftx_not_recoverable == ftx_not_recoverable

-- Whether the word was exchanged, and the word
unfoldable pub cas : ℕ → ℕ → ℕ → Bool × ℕ
cas word old new = if word == old then (true, new) else (false, word)

-- Where the loop of `mtx_timedlock_robust` is: it returns, asks the kernel, or starts again
pub data LockRound : Type 0 where
  returns : A0Result → LockRound
  ask_kernel : LockRound
  again : LockRound

-- A round up to the call of the kernel
unfoldable pub lock_round : ℕ → ℕ → LockRound × ℕ
lock_round tid ftx =
    let c = cas ftx 0 tid in
    if ftx_notrecoverable ftx
    then (LockRound.returns (A0Result.err Errno.enotrecoverable), ftx)
    else (if c.0 then LockRound.returns A0Result.ok else LockRound.ask_kernel, c.1)

-- What follows the answer of the kernel, on the word that is loaded then
unfoldable pub after_kernel : Option Errno → ℕ → LockRound
after_kernel none ftx =
    if ftx_owner_died ftx
    then LockRound.returns (A0Result.err Errno.eownerdead)
    else LockRound.returns A0Result.ok
after_kernel (some Errno.eintr) ftx = LockRound.again
after_kernel (some e) ftx = LockRound.returns (A0Result.err e)

unfoldable pub mtx_consistent : ℕ → ℕ → A0Result × ℕ
mtx_consistent tid ftx =
    if not (ftx_owner_died ftx)
    then (A0Result.err Errno.einval, ftx)
    else if not (ftx_tid ftx == tid)
    then (A0Result.err Errno.eperm, ftx)
    else (A0Result.ok, bit_and ftx (2 ^ 32 - 1 - futex_owner_died))

unfoldable pub new_val : ℕ → ℕ
new_val val = if ftx_owner_died val then ftx_not_recoverable else 0

-- Where `mtx_unlock` is: refused, done, or about to ask the kernel with the value for later
pub data UnlockRound : Type 0 where
  refused : UnlockRound
  unlocked : UnlockRound
  slow : ℕ → UnlockRound

unfoldable pub unlock_round : ℕ → ℕ → UnlockRound × ℕ
unlock_round tid ftx =
    let new = new_val ftx in
    let c = cas ftx tid new in
    if not (ftx_tid ftx == tid)
    then (UnlockRound.refused, ftx)
    else (if c.0 then UnlockRound.unlocked else UnlockRound.slow new, c.1)

-- After the call of the kernel
unfoldable pub mark : ℕ → ℕ → ℕ
mark new ftx = if not (new == 0) then bit_or ftx new else ftx
