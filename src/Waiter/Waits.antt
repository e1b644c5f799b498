-- ===== src/Waiter/Waits.antt =====
-- The steps of the threads that wait.
use thoth_ipc.Base.{
  ℕ, ◌≡◌, inl, inr, refl, sym, subst, ap, ◌∙◌, arith, Bool, true, false, ℕ_discrete, ==_self, ==_ne,
  ◌==◌,
}
use thoth_ipc.Waiter.{Thread, Sys, tested, enter}
use thoth_ipc.Waiter.Run.{moved, unlocked}
use thoth_ipc.Waiter.Keeps.{holding, stage, Comes, Awake, Inv, moved-Inv, unlocked-Inv}

-- The thread is not on its way to wake all.
pub stage_of : (t u : Thread) → t ≡ u → stage u ≡ 0 → stage t ≡ 0
stage_of t u e z = ap stage e ∙ z

pub not_held : (t : Thread) → holding t ≡ false → holding t ≡ true → ⊥
not_held t e h = let c = sym e ∙ h in cc

pub tests-Inv :
    (s : Sys) (i : ℕ) (pred quit : Bool)
    → Inv s
    → s.threads i ≡ Thread.testing
    → s.quit ≡ quit
    → Inv (moved s i (tested quit pred))
unfolding tested
tests-Inv s i pred true v e q =
    moved-Inv s i Thread.leaving v
      (inl (stage_of (s.threads i) Thread.testing e (unfold stage in refl))) (unfold Awake in tt)
      (λ h. ap holding e ∙ unfold holding in refl)
tests-Inv s i true false v e q =
    moved-Inv s i Thread.going v
      (inl (stage_of (s.threads i) Thread.testing e (unfold stage in refl)))
      (unfold Awake in λ h. absurd (let c = sym q ∙ h in cc))
      (λ h. ap holding e ∙ unfold holding in refl)
tests-Inv s i false false v e q =
    moved-Inv s i Thread.leaving v
      (inl (stage_of (s.threads i) Thread.testing e (unfold stage in refl))) (unfold Awake in tt)
      (λ h. ap holding e ∙ unfold holding in refl)

pub notes-Inv :
    (s : Sys) (i : ℕ) → Inv s → s.threads i ≡ Thread.going → Inv (moved s i (Thread.noted s.seq))
unfolding Awake
notes-Inv s i v e =
    moved-Inv s i (Thread.noted s.seq) v
      (inl (stage_of (s.threads i) Thread.going e (unfold stage in refl)))
      (omega arith, subst (Awake s.quit s.seq s.threads) e (v.awake i))
      (λ h. ap holding e ∙ unfold holding in refl)

pub wider : (f : ℕ → Thread) → Comes 1 1 f → Comes 1 3 f
wider f (k, a, b) = (k, a, omega arith)

pub unlocks-Inv :
    (s : Sys) (i q : ℕ)
    → Inv s
    → s.threads i ≡ Thread.noted q
    → Inv (unlocked s i (Thread.entering q))
unfolding Awake
unlocks-Inv s i q v e =
    let (le, ready) = subst (Awake s.quit s.seq s.threads) e (v.awake i) in
    unlocked-Inv s i (Thread.entering q) v (ap holding e ∙ unfold holding in refl)
      (unfold holding in refl)
      (inl (stage_of (s.threads i) (Thread.noted q) e (unfold stage in refl)))
      (le, λ h. inl (wider s.threads (ready h)))

pub enters-Inv :
    (s : Sys) (i q : ℕ) → Inv s → s.threads i ≡ Thread.entering q → Inv (moved s i (enter s.seq q))
unfolding Awake enter
enters-Inv s i q v e =
    let (le, ready) = subst (Awake s.quit s.seq s.threads) e (v.awake i) in
    let at = stage_of (s.threads i) (Thread.entering q) e (unfold stage in refl) in
    elim (ℕ_discrete s.seq q) [
      | yes same ↦ rw (ap (λ n. n == q) same ∙ ==_self q) (
          moved-Inv s i (Thread.asleep q) v (inl at)
            (le, λ h. elim (ready h) [ inl c ↦ inl c | inr lt ↦ absurd (omega (arith, lt, same)) ])
            (λ h. absurd (not_held (Thread.asleep q) (unfold holding in refl) h)))
      | no ne ↦ rw (==_ne s.seq q ne) (
          moved-Inv s i (Thread.relocking true) v (inl at) tt
            (λ h. absurd (not_held (Thread.relocking true) (unfold holding in refl) h)))
    ]

pub sleeper_moves :
    (s : Sys) (i q : ℕ) (t : Thread)
    → Inv s
    → s.threads i ≡ Thread.asleep q
    → Awake s.quit s.seq s.threads t
    → holding t ≡ false
    → Inv (moved s i t)
sleeper_moves s i q t v e a out =
    moved-Inv s i t v (inl (stage_of (s.threads i) (Thread.asleep q) e (unfold stage in refl))) a
      (λ h. absurd (let c = sym out ∙ h in cc))

pub interrupted_lem :
    (quit : Bool) (seq q : ℕ) (f : ℕ → Thread)
    → Awake quit seq f (Thread.asleep q)
    → Awake quit seq f (Thread.entering q)
unfolding Awake
interrupted_lem quit seq q f (le, ready) =
    (le, λ h. elim (ready h) [ inl c ↦ inl c | inr (lt, c) ↦ inr lt ])
