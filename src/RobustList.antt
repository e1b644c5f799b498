-- ===== src/RobustList.antt =====
-- rust/thoth-ipc/src/platform/linux.rs: the list of the robust mutexes that a thread holds, linked
-- through the mutexes themselves, which the kernel walks when the thread exits. Memory is the two
-- link fields by address; the head of the list is the address `head`, and its `prev` is not used.
-- The fences and the pending operation around the calls are not modelled.
pub mod Links
pub mod Thread
mod Tests
use thoth_ipc.Base.{
  ℕ, zero, suc, Bool, true, false, not, Option, none, some, List, [], ◌∷◌, ◌==◌, if◌then◌else◌,
  update,
}

-- `A0Mtx`, without its futex word
pub record Memory : Type 0 where
  pub next : ℕ → ℕ
  pub prev : ℕ → ℕ

abbrev pub set_next : Memory → ℕ → ℕ → Memory
set_next mem mtx target = record mem { next = update mem.next mtx target }

abbrev pub set_prev : Memory → ℕ → ℕ → Memory
set_prev mem mtx target = record mem { prev = update mem.prev mtx target }

-- The list of a thread that has just registered is empty.
unfoldable pub robust_init : Memory → ℕ → Memory
robust_init mem head = set_next mem head head

abbrev pub robust_is_head : ℕ → ℕ → Bool
robust_is_head head mtx = mtx == head

unfoldable pub robust_op_add : Memory → ℕ → ℕ → Memory
robust_op_add mem head mtx =
    let old_first = mem.next head in
    let linked = set_next (set_next (set_prev mem mtx head) mtx old_first) head mtx in
    if not (robust_is_head head old_first) then set_prev linked old_first mtx else linked

unfoldable pub robust_op_del : Memory → ℕ → ℕ → Memory
robust_op_del mem head mtx =
    let prev = mem.prev mtx in
    let next = mem.next mtx in
    let linked = set_next mem prev next in
    if not (robust_is_head head next) then set_prev linked next prev else linked

-- The kernel's walk from the entry `at` back to the head, of `n` entries at most
unfoldable pub walk : ℕ → Memory → ℕ → ℕ → List ℕ
walk zero mem head at = []
walk (suc n) mem head at =
    let rest = walk n mem head (mem.next at) in if at == head then [] else at ∷ rest
