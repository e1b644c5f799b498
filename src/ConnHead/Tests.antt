-- ===== src/ConnHead/Tests.antt =====
-- Runs of the connection heads, and the theorems at concrete inputs.
use thoth_ipc.Base.{ℕ, suc, ◌+◌, ◌-◌, ◌^◌, ◌<◌, ◌≡◌, ◌⊎◌, refl, arith, true, false}
use thoth_ipc.Base.Bits.{bit}
use thoth_ipc.ConnHead.{
  ConnHead, init, connect, disconnect, connected, conn_count, count_ones, connect_one,
  disconnect_one, connected_one,
}
use thoth_ipc.ConnHead.Broadcast.{connect_lem}

abbrev two : ConnHead
two = record { cc = 5; constructed = true }

connect_runs : connect two ≡ (2, record two { cc = 7 })
unfolding connect
connect_runs = refl

conn_count_runs : conn_count two ≡ 2
unfolding conn_count count_ones
conn_count_runs = refl

disconnect_runs : disconnect two 4 ≡ (1, record two { cc = 1 })
unfolding disconnect
disconnect_runs = refl

connected_runs : connected two 2 ≡ false
unfolding connected
connected_runs = refl

init_runs : init (record { cc = 9; constructed = false }) ≡ record { cc = 0; constructed = true }
unfolding init
init_runs = refl

unicast_runs : disconnect_one (connect_one two).1 1 ≡ (5, two)
unfolding connect_one disconnect_one
unicast_runs = refl

unicast_all : connected_one (disconnect_one two (2 ^ 32 - 1)).1 1 ≡ false
unfolding connected_one disconnect_one
unicast_all = refl

connect_lem_example :
    ((5 ≡ 2 ^ 32 - 1) × (connect two ≡ (0, two)))
    ⊎ ((t : ℕ) × (t < 32)
        × (bit t 5 ≡ 0)
        × ((i : ℕ) → i < t → bit i 5 ≡ 1)
        × (connect two ≡ (2 ^ t, record two { cc = 5 + 2 ^ t }))
        × (conn_count (connect two).1 ≡ suc (conn_count two)))
connect_lem_example = connect_lem two (omega arith)
