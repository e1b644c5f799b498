-- ===== src/ConnHead.antt =====
-- rust/thoth-ipc/src/circ.rs: the connection heads of a ring. Each operation is one step: the
-- compare-exchange of `connect` is the round that succeeds, and `init` runs under its spin lock.
pub mod LowClear
pub mod Broadcast
mod Tests
use thoth_ipc.Base.{
  ℕ, zero, suc, ◌+◌, ◌-◌, ◌/◌, ◌%◌, ◌^◌, bit_and, bit_or, bit_xor, Bool, true, false, not, ◌&&◌,
  ◌==◌, if◌then◌else◌, u8, add32, sub32, not32,
}

-- `index_of`
abbrev pub index_of : ℕ → ℕ
index_of cursor = u8 cursor

-- `u32::count_ones`: the first argument is the number of bits.
unfoldable pub count_ones : ℕ → ℕ → ℕ
count_ones zero m = 0
count_ones (suc w) m = m % 2 + count_ones w (m / 2)

-- The fields of both heads; their spin lock is free between two operations.
pub record ConnHead : Type 0 where
  pub cc : ℕ  -- u32
  pub constructed : Bool

unfoldable pub init : ConnHead → ConnHead
init head = if head.constructed then head else record { cc = 0; constructed = true }

-- The broadcast head: one bit for each receiver, and 0 where none is left.
unfoldable pub connect : ConnHead → ℕ × ConnHead
connect head =
    let curr = head.cc in
    let next = bit_or curr (add32 curr 1) in
    if next == curr then (0, head) else (bit_xor next curr, record head { cc = next })

unfoldable pub disconnect : ConnHead → ℕ → ℕ × ConnHead
disconnect head cc_id =
    let cc = bit_and head.cc (not32 cc_id) in (bit_and cc (not32 cc_id), record head { cc = cc })

unfoldable pub connected : ConnHead → ℕ → Bool
connected head cc_id = not (bit_and head.cc cc_id == 0)

unfoldable pub conn_count : ConnHead → ℕ
conn_count head = count_ones 32 head.cc

-- The unicast head: a counter. The sum and the difference that a call answers wrap as in a release
-- build.
unfoldable pub connect_one : ConnHead → ℕ × ConnHead
connect_one head = (add32 head.cc 1, record head { cc = add32 head.cc 1 })

unfoldable pub disconnect_one : ConnHead → ℕ → ℕ × ConnHead
disconnect_one head cc_id =
    if cc_id == 2 ^ 32 - 1
    then (0, record head { cc = 0 })
    else (sub32 head.cc 1, record head { cc = sub32 head.cc 1 })

unfoldable pub connected_one : ConnHead → ℕ → Bool
connected_one head cc_id = not (head.cc == 0) && not (cc_id == 0)
