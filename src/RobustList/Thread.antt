-- ===== src/RobustList/Thread.antt =====
-- A thread that locks and unlocks robust mutexes, while others write the links of theirs.
use thoth_ipc.Base.{ℕ, ◌<◌, ◌≡◌, ◌∙◌, List, [], ◌∷◌, ◌++◌, length, All, update_self}
use thoth_ipc.RobustList.{Memory, robust_init, robust_op_add, robust_op_del, walk}
use thoth_ipc.RobustList.Links.{
  NotIn, Linked, IsRobust, robust_op_add-IsRobust, robust_op_del-IsRobust, IsRobust-walk,
}

-- The thread holds `xs`, the last one locked first.
pub data Holds (head : ℕ) : Memory → List ℕ → Type 0 where
  starts : (mem : Memory) → Holds head (robust_init mem head) []
  locks :
      (mem : Memory) (x : ℕ) (xs : List ℕ)
      → Holds head mem xs
      → NotIn x (head ∷ xs)
      → Holds head (robust_op_add mem head x) (x ∷ xs)
  unlocks :
      (mem : Memory) (x : ℕ) (pre ys : List ℕ)
      → Holds head mem (pre ++ (x ∷ ys))
      → Holds head (robust_op_del mem head x) (pre ++ ys)
  others_write :
      (mem mem' : Memory) (xs : List ℕ)
      → Holds head mem xs
      → All (λ q. mem'.next q ≡ mem.next q) (head ∷ xs)
      → All (λ q. mem'.prev q ≡ mem.prev q) xs
      → Holds head mem' xs

agree-Linked :
    (mem mem' : Memory) (head p : ℕ) (xs : List ℕ)
    → All (λ q. mem'.next q ≡ mem.next q) (p ∷ xs)
    → All (λ q. mem'.prev q ≡ mem.prev q) xs
    → Linked mem head p xs
    → Linked mem' head p xs
agree-Linked mem mem' head p [] (n, _) ps l = n ∙ l
agree-Linked mem mem' head p (x ∷ xs) (n, ns) (e, ps) (ln, lp, l) =
    (n ∙ ln, e ∙ lp, agree-Linked mem mem' head x xs ns ps l)

Holds-IsRobust : (head : ℕ) (mem : Memory) (xs : List ℕ) → Holds head mem xs → IsRobust mem head xs
Holds-IsRobust head _ _ (Holds.starts mem) =
    unfold robust_init in record { linked = update_self mem.next head head; differ = (tt, tt) }
Holds-IsRobust head _ _ (Holds.locks mem x xs h n) =
    robust_op_add-IsRobust mem head x xs (Holds-IsRobust head mem xs h) n
Holds-IsRobust head _ _ (Holds.unlocks mem x pre ys h) =
    robust_op_del-IsRobust mem head x pre ys (Holds-IsRobust head mem (pre ++ (x ∷ ys)) h)
Holds-IsRobust head _ _ (Holds.others_write mem mem' xs h ns ps) =
    let r = Holds-IsRobust head mem xs h in
    record { linked = agree-Linked mem mem' head head xs ns ps r.linked; differ = r.differ }

-- Whatever mutexes a thread locks and unlocks, in any order, and whatever other threads write to
-- links that are not of these: the walk of the kernel from the head of the thread finds exactly the
-- mutexes that it holds, the last one locked first.
pub Holds-walk :
    (head n : ℕ) (mem : Memory) (xs : List ℕ)
    → Holds head mem xs
    → length xs < n
    → walk n mem head (mem.next head) ≡ xs
Holds-walk head n mem xs h few = IsRobust-walk n mem head xs (Holds-IsRobust head mem xs h) few
