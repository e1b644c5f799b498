-- ===== src/Waiter/Safety.antt =====
-- No thread sleeps on a waiter whose quit is signalled.
use thoth_ipc.Base.{
  ℕ, ◌<◌, ◌≡◌, ◌≢◌, inl, inr, refl, sym, subst, ap, ◌∙◌, arith, Bool, true, false, some, update,
  update-elim, ==_ne,
}
use thoth_ipc.Waiter.{Call, Thread, Sys, enter, relocked, requeued}
use thoth_ipc.Waiter.Run.{moved, Step, Run, IsFresh}
use thoth_ipc.Waiter.Keeps.{
  holding, stage, Comes, Awake, Inv, Comes-update, moved-Inv, locked-Inv, unlocked-Inv,
}
use thoth_ipc.Waiter.Waits.{
  stage_of, not_held, tests-Inv, notes-Inv, unlocks-Inv, enters-Inv, sleeper_moves, interrupted_lem,
}
use thoth_ipc.Waiter.Wakes.{quits-Inv, takes-Inv, gives-Inv, bumps-Inv}

requeued_stage : (t : Thread) → stage (requeued t) ≡ stage t
unfolding requeued stage
requeued_stage Thread.outside = refl
requeued_stage Thread.locking = refl
requeued_stage Thread.testing = refl
requeued_stage Thread.going = refl
requeued_stage (Thread.noted q) = refl
requeued_stage (Thread.entering q) = refl
requeued_stage (Thread.asleep q) = refl
requeued_stage (Thread.relocking w) = refl
requeued_stage Thread.leaving = refl
requeued_stage (Thread.starting call) = refl
requeued_stage (Thread.at_barrier call) = refl
requeued_stage (Thread.passed call) = refl
requeued_stage (Thread.bumped call) = refl

requeued-holding : (t : Thread) → holding (requeued t) ≡ true → holding t ≡ true
unfolding requeued holding
requeued-holding Thread.outside h = h
requeued-holding Thread.locking h = h
requeued-holding Thread.testing h = h
requeued-holding Thread.going h = h
requeued-holding (Thread.noted q) h = h
requeued-holding (Thread.entering q) h = h
requeued-holding (Thread.asleep q) h = h
requeued-holding (Thread.relocking w) h = h
requeued-holding Thread.leaving h = h
requeued-holding (Thread.starting call) h = h
requeued-holding (Thread.at_barrier call) h = h
requeued-holding (Thread.passed call) h = h
requeued-holding (Thread.bumped call) h = h

-- Requeueing needs no one else who comes to wake the sleeper.
requeued_map :
    (quit : Bool) (seq : ℕ) (f g : ℕ → Thread) (t : Thread)
    → (Comes 1 1 f → Comes 1 1 g)
    → (Comes 1 3 f → Comes 1 3 g)
    → Awake quit seq f t
    → Awake quit seq g (requeued t)
unfolding requeued Awake
requeued_map quit seq f g Thread.going a b v = λ h. a (v h)
requeued_map quit seq f g (Thread.noted q) a b (le, v) = (le, λ h. a (v h))
requeued_map quit seq f g (Thread.entering q) a b (le, v) =
    (le, λ h. elim (v h) [ inl e ↦ inl (b e) | inr lt ↦ inr lt ])
requeued_map quit seq f g (Thread.asleep q) a b v = tt
requeued_map quit seq f g Thread.outside a b v = tt
requeued_map quit seq f g Thread.locking a b v = tt
requeued_map quit seq f g Thread.testing a b v = tt
requeued_map quit seq f g (Thread.relocking w) a b v = tt
requeued_map quit seq f g Thread.leaving a b v = tt
requeued_map quit seq f g (Thread.starting call) a b v = tt
requeued_map quit seq f g (Thread.at_barrier call) a b v = tt
requeued_map quit seq f g (Thread.passed call) a b v = tt
requeued_map quit seq f g (Thread.bumped call) a b v = tt

requeues_all-Inv :
    (s : Sys) (i : ℕ)
    → Inv s
    → s.threads i ≡ Thread.bumped Call.broadcasts
    → Inv (record s { threads = update (λ j. requeued (s.threads j)) i Thread.outside })
requeues_all-Inv s i v e =
    let was : stage (requeued (s.threads i)) ≡ 4 =
      requeued_stage (s.threads i) ∙ ap stage e ∙ unfold stage in refl in
    let still : (lo hi : ℕ)
        → hi < 4
        → Comes lo hi s.threads
        → Comes lo hi (update (λ j. requeued (s.threads j)) i Thread.outside) =
      λ lo hi few (k, a, b).
        Comes-update lo hi (λ j. requeued (s.threads j)) i Thread.outside
          (λ a b. omega (arith, was, b, few))
          (
            k,
            omega (arith, requeued_stage (s.threads k), a),
            omega (arith, requeued_stage (s.threads k), b),
          ) in
    record {
      holds =
          update-elim (λ j u. holding u ≡ true → s.owner ≡ some j) (λ j. requeued (s.threads j)) i
            Thread.outside (λ h. absurd (not_held Thread.outside (unfold holding in refl) h))
            (λ j ne h. v.holds j (requeued-holding (s.threads j) h));
      awake =
          update-elim
            (λ j u. Awake s.quit s.seq (update (λ j. requeued (s.threads j)) i Thread.outside) u)
            (λ j. requeued (s.threads j)) i Thread.outside (unfold Awake in tt)
            (λ j ne.
              requeued_map s.quit s.seq s.threads
                (update (λ j. requeued (s.threads j)) i Thread.outside) (s.threads j)
                (still 1 1 (omega arith)) (still 1 3 (omega arith)) (v.awake j));
    }

requeues_one-Inv :
    (s : Sys) (i j : ℕ)
    → Inv s
    → s.threads i ≡ Thread.bumped Call.notifies
    → Inv (moved (moved s j (requeued (s.threads j))) i Thread.outside)
requeues_one-Inv s i j v e =
    let first =
      moved-Inv s j (requeued (s.threads j)) v (inr (inl (sym (requeued_stage (s.threads j)))))
        (requeued_map s.quit s.seq s.threads s.threads (s.threads j) (λ c. c) (λ c. c) (v.awake j))
        (requeued-holding (s.threads j)) in
    let none_yet : stage (s.threads i) ≡ 0 = ap stage e ∙ unfold stage in refl in
    let now : stage (update s.threads j (requeued (s.threads j)) i) ≡ stage (s.threads i) =
      update-elim (λ k u. stage u ≡ stage (s.threads k)) s.threads j (requeued (s.threads j))
        (requeued_stage (s.threads j)) (λ k ne. refl) i in
    moved-Inv (moved s j (requeued (s.threads j))) i Thread.outside first (inl (now ∙ none_yet))
      (unfold Awake in tt) (λ h. absurd (not_held Thread.outside (unfold holding in refl) h))

relocked-Awake :
    (quit : Bool) (seq : ℕ) (f : ℕ → Thread) (woken : Bool) → Awake quit seq f (relocked woken)
unfolding Awake relocked
relocked-Awake quit seq f true = tt
relocked-Awake quit seq f false = tt

Step-Inv : (s t : Sys) → Inv s → Step s t → Inv t
Step-Inv _ _ v (Step.waits s i e) =
    moved-Inv s i Thread.locking v
      (inl (stage_of (s.threads i) Thread.outside e (unfold stage in refl))) (unfold Awake in tt)
      (λ h. absurd (not_held Thread.locking (unfold holding in refl) h))
Step-Inv _ _ v (Step.locks s i e free) =
    locked-Inv s i Thread.testing v free
      (inl (stage_of (s.threads i) Thread.locking e (unfold stage in refl))) (unfold Awake in tt)
Step-Inv _ _ v (Step.tests s i pred e) = tests-Inv s i pred s.quit v e refl
Step-Inv _ _ v (Step.notes s i e) = notes-Inv s i v e
Step-Inv _ _ v (Step.unlocks s i q e) = unlocks-Inv s i q v e
Step-Inv _ _ v (Step.enters s i q e) = enters-Inv s i q v e
Step-Inv _ _ v (Step.times_out s i q e) =
    sleeper_moves s i q (Thread.relocking false) v e (unfold Awake in tt) (unfold holding in refl)
Step-Inv _ _ v (Step.interrupted s i q e) =
    sleeper_moves s i q (Thread.entering q) v e
      (interrupted_lem s.quit s.seq q s.threads
        (subst (Awake s.quit s.seq s.threads) e (v.awake i)))
      (unfold holding in refl)
Step-Inv _ _ v (Step.relocks s i woken e free) =
    locked-Inv s i (relocked woken) v free
      (inl (stage_of (s.threads i) (Thread.relocking woken) e (unfold stage in refl)))
      (relocked-Awake s.quit s.seq s.threads woken)
Step-Inv _ _ v (Step.returns s i e) =
    unlocked-Inv s i Thread.outside v (ap holding e ∙ unfold holding in refl)
      (unfold holding in refl)
      (inl (stage_of (s.threads i) Thread.leaving e (unfold stage in refl))) (unfold Awake in tt)
Step-Inv _ _ v (Step.quits s i e) = quits-Inv s i v e
Step-Inv _ _ v (Step.wakes s i call e) =
    moved-Inv s i (Thread.starting call) v
      (inl (stage_of (s.threads i) Thread.outside e (unfold stage in refl))) (unfold Awake in tt)
      (λ h. absurd (not_held (Thread.starting call) (unfold holding in refl) h))
Step-Inv _ _ v (Step.takes s i call e free) = takes-Inv s i call v e free
Step-Inv _ _ v (Step.gives s i call e) = gives-Inv s i call v e
Step-Inv _ _ v (Step.bumps s i call e small) = bumps-Inv s i call v e small
Step-Inv _ _ v (Step.requeues_one s i j e) = requeues_one-Inv s i j v e
Step-Inv _ _ v (Step.requeues_all s i e) = requeues_all-Inv s i v e

Run-Inv : (s t : Sys) → Inv s → Run s t → Inv t
Run-Inv _ _ v (Run.done s) = v
Run-Inv _ _ v (Run.next s t u run step) = Step-Inv t u (Run-Inv s t v run) step

fresh-Inv : (s : Sys) → IsFresh s → Inv s
fresh-Inv s f = record {
  holds = λ j h.
      absurd (not_held (s.threads j) (ap holding (f.all_outside j) ∙ unfold holding in refl) h);
  awake = λ j. subst (Awake s.quit s.seq s.threads) (sym (f.all_outside j)) (unfold Awake in tt);
}

-- Any number of threads wait on a handle, notify, broadcast and signal quit in any order, with
-- timeouts and interrupted waits, fewer than 2^32 calls that wake, and any answers of the
-- predicate. Whenever quit is signalled and every call that wakes all has ended, no thread is
-- asleep; and one that has released the mutex to sleep will find that it was woken.
pub quit_Wakes :
    (s t : Sys) (j init_cnd : ℕ)
    → IsFresh s
    → Run s t
    → t.quit ≡ true
    → ((k : ℕ) → stage (t.threads k) ≡ 0)
    → (t.threads j ≢ Thread.asleep init_cnd)
      × (t.threads j ≡ Thread.entering init_cnd → enter t.seq init_cnd ≡ Thread.relocking true)
unfolding Awake enter
quit_Wakes s t j q f run on idle =
    let v = Run-Inv s t (fresh-Inv s f) run in
    let nobody : (lo hi : ℕ) → 0 < lo → Comes lo hi t.threads → ⊥ =
      λ lo hi pos (k, a, b). omega (arith, a, idle k, pos) in
    (
      λ e.
          let (le, ready) = subst (Awake t.quit t.seq t.threads) e (v.awake j) in
          elim (ready on) [
            | inl c ↦ nobody 1 3 (omega arith) c
            | inr (lt, c) ↦ nobody 4 4 (omega arith) c
          ],
      λ e.
          let (le, ready) = subst (Awake t.quit t.seq t.threads) e (v.awake j) in
          elim (ready on) [
            | inl c ↦ absurd (nobody 1 3 (omega arith) c)
            | inr lt ↦ rw (==_ne t.seq q (λ same. omega (arith, lt, same))) refl
          ],
    )
