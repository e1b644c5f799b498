-- ===== src/RobustMutex/Round.antt =====
-- Where the rounds of the lock leave a thread.
use thoth_ipc.Base.{
  ℕ, ◌^◌, ◌<◌, ◌≡◌, ◌≢◌, ◌⊎◌, inl, inr, refl, sym, subst, ap, ◌∙◌, arith, Bool, true, false, none,
  some,
}
use thoth_ipc.RobustMutex.{Errno, A0Result, LockRound, ftx_tid, ftx_owner_died, after_kernel}
use thoth_ipc.RobustMutex.Words.{ftx_tid-small, ftx_owner_died-small}
use thoth_ipc.RobustMutex.Run.{Thread, Sys, has, placed, moved, IsTid}
use thoth_ipc.RobustMutex.Keeps.{Owes, Has, Inv, holds-Has, stays-Inv, gains-Inv}

-- A place that a round of the lock leads to without the mutex
pub record IsOut (t : Thread) : Type 0 where
  pub owes : Owes t
  pub not_has : has t ≡ false

pub outside-IsOut : (t : Thread) → (t ≡ Thread.outside) ⊎ (t ≡ Thread.asking) → IsOut t
unfolding has Owes
outside-IsOut t (inl e) = subst IsOut (sym e) (record { owes = tt; not_has = refl })
outside-IsOut t (inr e) = subst IsOut (sym e) (record { owes = tt; not_has = refl })

pub after_failure :
    (e : Errno) (w : ℕ) → e ≢ Errno.eownerdead → placed (after_kernel (some e) w) ≡ Thread.outside
unfolding placed after_kernel
after_failure Errno.eintr w ne = refl
after_failure Errno.enotrecoverable w ne = refl
after_failure Errno.eownerdead w ne = absurd (ne refl)
after_failure Errno.einval w ne = refl
after_failure Errno.eperm w ne = refl
after_failure (Errno.another n) w ne = refl

-- Once the kernel has granted the mutex, the thread has it, and knows of an owner that died.
pub after_grant :
    (w : ℕ) (d : Bool)
    → ftx_owner_died w ≡ d
    → Owes (placed (after_kernel none w))
      × Has (placed (after_kernel none w))
      × (placed (after_kernel none w) ≡ Thread.holds → ftx_owner_died w ≡ false)
unfolding placed after_kernel has Owes
after_grant w true e = rw e (tt, refl, λ h. absurd (let c = h in cc))
after_grant w false e = rw e (tt, refl, λ h. refl)

failed-IsOut :
    (r : LockRound)
    → (r ≡ LockRound.ask_kernel) ⊎ (r ≡ LockRound.returns (A0Result.err Errno.enotrecoverable))
    → IsOut (placed r)
unfolding placed
failed-IsOut r (inl e) = outside-IsOut (placed r) (inr (ap placed e))
failed-IsOut r (inr e) = outside-IsOut (placed r) (inl (ap placed e))

-- The thread stays without the mutex.
pub out-Inv :
    (s : Sys) (i : ℕ) (t : Thread)
    → Inv s
    → has (s.threads i) ≡ false
    → IsOut t
    → Inv (moved s i t s.ftx)
out-Inv s i t v was out =
    stays-Inv s i t v out.owes (out.not_has ∙ sym was)
      (λ h. absurd (let c = sym out.not_has ∙ ap has h ∙ holds-Has in cc))

pub round-Inv :
    (s : Sys) (i : ℕ) (r : LockRound) (w : ℕ)
    → Inv s
    → IsTid i
    → has (s.threads i) ≡ false
    → ((r ≡ LockRound.returns A0Result.ok) × (s.ftx ≡ 0) × (w ≡ i))
      ⊎ (((r ≡ LockRound.ask_kernel) ⊎ (r ≡ LockRound.returns (A0Result.err Errno.enotrecoverable)))
          × (w ≡ s.ftx))
    → Inv (moved s i (placed r) w)
round-Inv s i r w v tid was (inr (e, same)) =
    subst (λ w. Inv (moved s i (placed r) w)) (sym same)
      (out-Inv s i (placed r) v was (failed-IsOut r e))
round-Inv s i r w v tid was (inl (got, free, mine)) =
    let (pos, below) = tid in
    let small : i < 2 ^ 30 = omega (arith, below) in
    let now : Inv (moved s i Thread.holds i) =
      gains-Inv s i Thread.holds i v tid (ap ftx_tid free ∙ ftx_tid-small 0 (omega arith))
        (ftx_tid-small i small) (unfold Owes in tt) holds-Has (λ _. ftx_owner_died-small i small) in
    subst (λ r. Inv (moved s i (placed r) w)) (sym got)
      (subst (λ w. Inv (moved s i (placed (LockRound.returns A0Result.ok)) w)) (sym mine)
        (unfold placed in now))
