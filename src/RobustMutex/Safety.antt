-- ===== src/RobustMutex/Safety.antt =====
-- At most one thread has a robust mutex, also where owners die.
use thoth_ipc.Base.{
  ℕ, ◌≡◌, ◌≢◌, ◌⊎◌, inl, inr, refl, sym, subst, ap, ◌∙◌, arith, true, false, none, some, ℕ_discrete,
  Bool-cases,
}
use thoth_ipc.RobustMutex.{futex_tid_mask, ftx_tid, ftx_owner_died, after_kernel, mark}
use thoth_ipc.RobustMutex.Words.{
  IsMark, ftx_tid-small, lock_round-cases, mtx_consistent-ok, unlock_round-unlocked,
  unlock_round-slow, ftx_tid-mark, ftx_tid-IsMark,
}
use thoth_ipc.RobustMutex.Run.{Thread, Sys, has, placed, moved, IsTid, Step, Run, IsFresh}
use thoth_ipc.RobustMutex.Keeps.{
  Owes, Has, Inv, stays-Inv, fixes-Inv, nobody-Has, gains-Inv, loses-Inv, marks-Inv, waits-Inv,
}
use thoth_ipc.RobustMutex.Round.{
  IsOut, outside-IsOut, after_failure, after_grant, out-Inv, round-Inv,
}

had : (t : Thread) → (t ≡ Thread.holds) ⊎ (t ≡ Thread.recovers) → Has t
unfolding has
had t (inl e) = ap has e
had t (inr e) = ap has e

leaving_lem :
    (s : Sys) (i new : ℕ)
    → Inv s
    → s.threads i ≡ Thread.leaving new
    → Has (s.threads i) × IsMark new
unfolding has Owes
leaving_lem s i new v e = (ap has e, subst Owes e (v.owes i))

marking_lem : (s : Sys) (i new : ℕ) → Inv s → s.threads i ≡ Thread.marking new → IsMark new
unfolding Owes
marking_lem s i new v e = subst Owes e (v.owes i)

freed-Inv :
    (s : Sys) (i new : ℕ)
    → Inv s
    → s.threads i ≡ Thread.leaving new
    → Inv (moved s i (Thread.marking new) 0)
freed-Inv s i new v e =
    let (h, m) = leaving_lem s i new v e in
    loses-Inv s i (Thread.marking new) 0 v h (unfold Owes in m) (unfold has in refl)
      (inl (ftx_tid-small 0 (omega arith)))

dies_owner :
    (s : Sys) (i w : ℕ)
    → Inv s
    → Has (s.threads i)
    → (ftx_tid s.ftx ≡ i → (ftx_tid w ≡ 0) × (ftx_owner_died w ≡ true))
    → (ftx_tid s.ftx ≢ i → w ≡ s.ftx)
    → Inv (moved s i Thread.outside w)
dies_owner s i w v h freed kept =
    loses-Inv s i Thread.outside w v h (unfold Owes in tt) (unfold has in refl)
      (elim (ℕ_discrete (ftx_tid s.ftx) i) [
        | yes e ↦ inl (freed e).0
        | no ne ↦
            let ow = v.owner i h in
            inr (ap ftx_tid (kept ne) ∙ elim ow.named [ inl n ↦ absurd (ne n) | inr n ↦ n ])
      ])

-- The word names no thread that does not have the mutex.
unnamed : (s : Sys) (i : ℕ) → Inv s → IsTid i → has (s.threads i) ≡ false → ftx_tid s.ftx ≢ i
unnamed s i v (pos, below) was e = elim v.held [
  | inl z ↦ omega (arith, pos, z, e)
  | inr (inl m) ↦ omega (arith, below, m, e)
  | inr (inr h) ↦ let g = subst (λ k. Has (s.threads k)) e h in let c = sym was ∙ g in cc
]

Step-Inv : (s t : Sys) → Inv s → Step s t → Inv t
Step-Inv _ _ v (Step.rounds s i r w tid e h) =
    round-Inv s i r w v tid (ap has e ∙ unfold has in refl) (lock_round-cases i s.ftx w r h)
Step-Inv _ _ v (Step.kernel_waits s w same flag) = waits-Inv s w v same flag
Step-Inv _ _ v (Step.kernel_locks s i w tid e z named flag) =
    gains-Inv s i Thread.granted w v tid z named (unfold Owes in tt) (unfold has in refl)
      (λ h. absurd (let c = h in cc))
Step-Inv _ _ v (Step.kernel_fails s i a e ne) =
    out-Inv s i (placed (after_kernel (some a) s.ftx)) v (ap has e ∙ unfold has in refl)
      (outside-IsOut (placed (after_kernel (some a) s.ftx)) (inl (after_failure a s.ftx ne)))
Step-Inv _ _ v (Step.checks s i e) =
    let (o, h, clean) = after_grant s.ftx (ftx_owner_died s.ftx) refl in
    stays-Inv s i (placed (after_kernel none s.ftx)) v o (h ∙ sym (ap has e ∙ unfold has in refl))
      clean
Step-Inv _ _ v (Step.fixes s i w e h) =
    let (same, fixed) = mtx_consistent-ok i s.ftx w h in
    fixes-Inv s i w v (ap has e ∙ unfold has in refl) same fixed
Step-Inv _ _ v (Step.unlocks s i w e h) =
    loses-Inv s i Thread.outside w v (had (s.threads i) e) (unfold Owes in tt) (unfold has in refl)
      (ftx_tid-IsMark w (unlock_round-unlocked i s.ftx w h))
Step-Inv _ _ v (Step.leaves s i new w e h) =
    let (same, m) = unlock_round-slow i s.ftx new w h in
    subst (λ w. Inv (moved s i (Thread.leaving new) w)) (sym same)
      (stays-Inv s i (Thread.leaving new) v (unfold Owes in m)
        (unfold has in sym (had (s.threads i) e)) (λ h. absurd (let c = h in cc)))
Step-Inv _ _ v (Step.kernel_refuses s i new e ne) =
    let (h, m) = leaving_lem s i new v e in
    let ow = v.owner i h in
    loses-Inv s i (Thread.marking new) s.ftx v h (unfold Owes in m) (unfold has in refl)
      (inr (elim ow.named [ inl n ↦ absurd (ne n) | inr n ↦ n ]))
Step-Inv _ _ v (Step.kernel_frees s i new e named) = freed-Inv s i new v e
Step-Inv _ _ v (Step.kernel_hands s i j new w e named tid a to) =
    let v0 = freed-Inv s i new v e in
    gains-Inv (moved s i (Thread.marking new) 0) j Thread.granted w v0 tid
      (ftx_tid-small 0 (omega arith)) to (unfold Owes in tt) (unfold has in refl)
      (λ h. absurd (let c = h in cc))
Step-Inv _ _ v (Step.marks s i new e) =
    let m = marking_lem s i new v e in
    let was : has (s.threads i) ≡ false = ap has e ∙ unfold has in refl in
    let out : IsOut Thread.outside = outside-IsOut Thread.outside (inl refl) in
    elim (ftx_tid-mark new s.ftx m) [
      | inl marked ↦ marks-Inv s i Thread.outside (mark new s.ftx) v out.owes out.not_has marked
      | inr same ↦
          subst (λ w. Inv (moved s i Thread.outside w)) (sym same)
            (out-Inv s i Thread.outside v was out)
    ]
Step-Inv _ _ v (Step.dies s i w tid freed kept) = elim (Bool-cases (has (s.threads i))) [
  | inl h ↦ dies_owner s i w v h freed kept
  | inr was ↦
      let out : IsOut Thread.outside = outside-IsOut Thread.outside (inl refl) in
      subst (λ w. Inv (moved s i Thread.outside w)) (sym (kept (unnamed s i v tid was)))
        (out-Inv s i Thread.outside v was out)
]

Run-Inv : (s t : Sys) → Inv s → Run s t → Inv t
Run-Inv _ _ v (Run.done s) = v
Run-Inv _ _ v (Run.next s t u run step) = Step-Inv t u (Run-Inv s t v run) step

fresh-Has : (s : Sys) (i : ℕ) → IsFresh s → Has (s.threads i) → ⊥
fresh-Has s i f h =
    let out : IsOut Thread.outside = outside-IsOut Thread.outside (inl refl) in
    let c = sym out.not_has ∙ ap has (sym (f.all_outside i)) ∙ h in cc

fresh-Inv : (s : Sys) → IsFresh s → Inv s
fresh-Inv s f =
    let out : IsOut Thread.outside = outside-IsOut Thread.outside (inl refl) in
    record {
      owes = λ i. subst Owes (sym (f.all_outside i)) out.owes;
      owner = λ i h. absurd (fresh-Has s i f h);
      alone = λ i j h g. absurd (fresh-Has s i f h);
      held = inl (ap ftx_tid f.free ∙ ftx_tid-small 0 (omega arith));
    }

-- The word names one thread, or none, or is marked.
pub data Names (s : Sys) : Type 0 where
  nobody : ftx_tid s.ftx ≡ 0 → ((j : ℕ) → has (s.threads j) ≡ false) → Names s
  marked :
      ftx_tid s.ftx ≡ futex_tid_mask
      → ((i j : ℕ) → Has (s.threads i) → Has (s.threads j) → i ≡ j)
      → Names s
  owned :
      (i : ℕ)
      → ftx_tid s.ftx ≡ i
      → Has (s.threads i)
      → ((j : ℕ) → Has (s.threads j) → i ≡ j)
      → (s.threads i ≡ Thread.holds → ftx_owner_died s.ftx ≡ false)
      → Names s

nobody_lem : (s : Sys) (j : ℕ) → Inv s → ftx_tid s.ftx ≡ 0 → has (s.threads j) ≡ false
nobody_lem s j v z = elim (Bool-cases (has (s.threads j))) [
  | inl h ↦ absurd (nobody-Has s j v z h)
  | inr n ↦ n
]

owned_lem : (s : Sys) → Inv s → Has (s.threads (ftx_tid s.ftx)) → Names s
owned_lem s v h =
    Names.owned (ftx_tid s.ftx) refl h (λ j g. v.alone (ftx_tid s.ftx) j h g)
      (λ e. (v.owner (ftx_tid s.ftx) h).clean e refl)

-- Any number of threads take steps at a robust mutex that was free, in any order, and any of them
-- may die at any point; the kernel grants the mutex only where the word names no owner, hands it
-- over only for its owner, and clears an owner that dies. At any point one of three holds: the word
-- names nobody, and no thread has the mutex; it is marked as not recoverable, and at most one has
-- it; or it names a thread that has it, which is the only one, and which was told if an owner died
-- with it.
pub robust_Excludes : (s t : Sys) → IsFresh s → Run s t → Names t
robust_Excludes s t f run =
    let v = Run-Inv s t (fresh-Inv s f) run in
    elim v.held [
      | inl z ↦ Names.nobody z (λ j. nobody_lem t j v z)
      | inr (inl m) ↦ Names.marked m v.alone
      | inr (inr h) ↦ owned_lem t v h
    ]
