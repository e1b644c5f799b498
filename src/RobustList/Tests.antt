-- ===== src/RobustList/Tests.antt =====
-- A thread with its head at address 1 locks 10, 20 and 30 and unlocks 20.
use thoth_ipc.Base.{◌≡◌, arith, [], ◌∷◌}
use thoth_ipc.RobustList.{Memory, robust_init, robust_op_add, robust_op_del, walk}
use thoth_ipc.RobustList.Thread.{Holds, Holds-walk}

abbrev zeroed : Memory
zeroed = record { next = λ a. 0; prev = λ a. 0 }

abbrev one : Memory
one = robust_op_add (robust_init zeroed 1) 1 10

abbrev three : Memory
three = robust_op_add (robust_op_add one 1 20) 1 30

abbrev two : Memory
two = robust_op_del three 1 20

three-Holds : Holds 1 three (30 ∷ 20 ∷ 10 ∷ [])
three-Holds =
    Holds.locks (robust_op_add one 1 20) 30 (20 ∷ 10 ∷ [])
      (Holds.locks one 20 (10 ∷ [])
        (Holds.locks (robust_init zeroed 1) 10 [] (Holds.starts zeroed)
          ((λ e. omega (arith, e)), tt))
        ((λ e. omega (arith, e)), ((λ e. omega (arith, e)), tt)))
      ((λ e. omega (arith, e)), ((λ e. omega (arith, e)), ((λ e. omega (arith, e)), tt)))

Holds-walk_example : walk 3 two 1 (two.next 1) ≡ 30 ∷ 10 ∷ []
Holds-walk_example =
    Holds-walk 1 3 two (30 ∷ 10 ∷ []) (Holds.unlocks three 20 (30 ∷ []) (10 ∷ []) three-Holds)
      (omega arith)
