-- ===== src/Locks/Spin.antt =====
-- Any number of threads at a spin lock.
use thoth_ipc.Base.{
  ℕ, ◌≡◌, ◌≢◌, ◌⊎◌, inl, inr, refl, sym, ap, subst, ◌∙◌, arith, Bool, true, false, ◌==◌, update,
  update_ne, update_self, update-elim, update_unique,
}
use thoth_ipc.Locks.{adaptive_yield, swap_lock, spin_unlock}

-- Outside, between two rounds of `lock` with the count of its backoff, or with the lock
pub data Thread : Type 0 where
  outside : Thread
  waiting : ℕ → Thread
  inside : Thread

pub record Sys : Type 0 where
  pub lc : ℕ
  pub threads : ℕ → Thread

pub data Step : Sys → Sys → Type 0 where
  arrive :
      (s : Sys) (i : ℕ)
      → s.threads i ≡ Thread.outside
      → Step s (record s { threads = update s.threads i (Thread.waiting 0) })
  acquire :
      (s : Sys) (i k lc : ℕ)
      → s.threads i ≡ Thread.waiting k
      → swap_lock s.lc ≡ (true, lc)
      → Step s (record { lc = lc; threads = update s.threads i Thread.inside })
  spin :
      (s : Sys) (i k lc : ℕ)
      → s.threads i ≡ Thread.waiting k
      → swap_lock s.lc ≡ (false, lc)
      → Step s
          (record { lc = lc; threads = update s.threads i (Thread.waiting (adaptive_yield k).1) })
  release :
      (s : Sys) (i : ℕ)
      → s.threads i ≡ Thread.inside
      → Step s (record { lc = spin_unlock s.lc; threads = update s.threads i Thread.outside })

pub data Run : Sys → Sys → Type 0 where
  done : (s : Sys) → Run s s
  next : (s t u : Sys) → Run s t → Step t u → Run s u

pub record IsFresh (s : Sys) : Type 0 where
  pub free : s.lc ≡ 0
  pub all_outside : (i : ℕ) → s.threads i ≡ Thread.outside

abbrev pub IsInside : Thread → Type 0
IsInside t = t ≡ Thread.inside

record Inv (s : Sys) : Type 0 where
  locked : (i : ℕ) → IsInside (s.threads i) → s.lc ≡ 1
  held : (s.lc ≡ 0) ⊎ ((i : ℕ) × IsInside (s.threads i))
  alone : (i j : ℕ) → IsInside (s.threads i) → IsInside (s.threads j) → i ≡ j

swap_lock-eq :
    (lc lc' : ℕ) (b : Bool)
    → swap_lock lc ≡ (b, lc')
    → (lc' ≡ 1) × (b ≡ true → lc ≡ 0) × (b ≡ false → lc ≢ 0)
unfolding swap_lock
swap_lock-eq lc lc' b h =
    let test : (lc == 0) ≡ b = ap (λ (p : Bool × ℕ). p.0) h in
    (
      ap (λ (p : Bool × ℕ). p.1) (sym h),
      (λ e. ground (arith, test, e)),
      λ e. ground (arith, test, e),
    )

-- A thread that is not inside changes its place and stays outside of the section.
moves-Inv :
    (s : Sys) (i : ℕ) (t : Thread)
    → Inv s
    → (IsInside (s.threads i) → ⊥)
    → (IsInside t → ⊥)
    → Inv (record s { threads = update s.threads i t })
moves-Inv s i t v not_in stays = record {
  locked =
      update-elim (λ j p. IsInside p → s.lc ≡ 1) s.threads i t (λ h. absurd (stays h))
        (λ j ne. v.locked j);
  held = elim v.held [
    | inl free ↦ inl free
    | inr (j, h) ↦
        let ne : i ≢ j = (λ e. not_in (subst (λ j. IsInside (s.threads j)) (sym e) h)) in
        inr (j, update_ne s.threads t ne ∙ h)
  ];
  alone = update_unique IsInside s.threads i t (λ j ne h g. stays h) v.alone;
}

Step-Inv : (s t : Sys) → Inv s → Step s t → Inv t
Step-Inv _ _ v (Step.arrive s i e) =
    moves-Inv s i (Thread.waiting 0) v (λ h. let c = sym e ∙ h in cc) (λ h. cc)
Step-Inv _ _ v (Step.acquire s i k lc e h) =
    let (taken, was_free, _) = swap_lock-eq s.lc lc true h in
    let nobody : (j : ℕ) → IsInside (s.threads j) → ⊥ =
      (λ j g. omega (arith, v.locked j g, was_free refl)) in
    record {
      locked = λ j g. taken;
      held = inr (i, update_self s.threads i Thread.inside);
      alone = update_unique IsInside s.threads i Thread.inside (λ j ne h g. nobody j g) v.alone;
    }
Step-Inv _ _ v (Step.spin s i k lc e h) =
    let (taken, _, was_held) = swap_lock-eq s.lc lc false h in
    let w =
      moves-Inv s i (Thread.waiting (adaptive_yield k).1) v (λ h. let c = sym e ∙ h in cc)
        (λ h. cc) in
    record {
      locked = λ j g. taken;
      held = elim w.held [ inl free ↦ absurd (was_held refl free) | inr g ↦ inr g ];
      alone = w.alone;
    }
Step-Inv _ _ v (Step.release s i e) =
    let nobody : (j : ℕ) → IsInside (update s.threads i Thread.outside j) → ⊥ =
      update-elim (λ j p. IsInside p → ⊥) s.threads i Thread.outside (λ h. cc)
        (λ j ne h. ne (v.alone i j e h)) in
    record {
      locked = λ j g. absurd (nobody j g);
      held = inl refl;
      alone = λ j k g h. absurd (nobody j g);
    }

Run-Inv : (s t : Sys) → Inv s → Run s t → Inv t
Run-Inv _ _ v (Run.done s) = v
Run-Inv _ _ v (Run.next s t u run step) = Step-Inv t u (Run-Inv s t v run) step

fresh-Inv : (s : Sys) → IsFresh s → Inv s
fresh-Inv s f = record {
  locked = λ i h. let c = sym (f.all_outside i) ∙ h in cc;
  held = inl f.free;
  alone = λ i j h g. let c = sym (f.all_outside i) ∙ h in cc;
}

-- Any number of threads take steps at a spin lock that was free, in any order. At most one has the
-- lock, and where none has it the next round of `lock` gets it.
pub spin_Excludes :
    (s t : Sys)
    → IsFresh s
    → Run s t
    → ((i j : ℕ) → IsInside (t.threads i) → IsInside (t.threads j) → i ≡ j)
      × ((swap_lock t.lc ≡ (true, 1)) ⊎ ((i : ℕ) × IsInside (t.threads i)))
spin_Excludes s t f run =
    let v = Run-Inv s t (fresh-Inv s f) run in
    (v.alone, elim v.held [ inl free ↦ inl (unfold swap_lock in rw (free) refl) | inr h ↦ inr h ])
