-- ===== src/Waiter/Wakes.antt =====
-- The steps of the threads that signal quit and wake, up to the requeueing.
use thoth_ipc.Base.{
  ℕ, ◌-◌, ◌^◌, ◌<◌, ◌≡◌, ◌⊎◌, inl, inr, refl, sym, subst, ap, ◌∙◌, arith, Bool, true, none, some,
  update, update_self, update-elim, add32, suc,
}
use thoth_ipc.Waiter.{Call, Thread, Sys, bump}
use thoth_ipc.Waiter.Run.{locked, unlocked}
use thoth_ipc.Waiter.Keeps.{
  holding, stage, Comes, Awake, Inv, Comes-update, free_lem, locked-Inv, unlocked-Inv,
}
use thoth_ipc.Waiter.Waits.{stage_of, not_held, wider}

-- The one that signals quit will wake all.
signalled :
    (quit : Bool) (seq : ℕ) (f g : ℕ → Thread) (t : Thread)
    → Comes 1 1 g
    → Awake quit seq f t
    → Awake true seq g t
unfolding Awake
signalled quit seq f g Thread.going c a = λ h. c
signalled quit seq f g (Thread.noted q) c (le, a) = (le, λ h. c)
signalled quit seq f g (Thread.entering q) c (le, a) = (le, λ h. inl (wider g c))
signalled quit seq f g (Thread.asleep q) c (le, a) = (le, λ h. inl (wider g c))
signalled quit seq f g Thread.outside c a = tt
signalled quit seq f g Thread.locking c a = tt
signalled quit seq f g Thread.testing c a = tt
signalled quit seq f g (Thread.relocking w) c a = tt
signalled quit seq f g Thread.leaving c a = tt
signalled quit seq f g (Thread.starting call) c a = tt
signalled quit seq f g (Thread.at_barrier call) c a = tt
signalled quit seq f g (Thread.passed call) c a = tt
signalled quit seq f g (Thread.bumped call) c a = tt

-- A thread signals quit, and is then the one that wakes all.
pub quits-Inv :
    (s : Sys) (i : ℕ)
    → Inv s
    → s.threads i ≡ Thread.outside
    → Inv (record s { quit = true; threads = update s.threads i (Thread.starting Call.broadcasts) })
quits-Inv s i v e = record {
  holds =
      update-elim (λ j u. holding u ≡ true → s.owner ≡ some j) s.threads i
        (Thread.starting Call.broadcasts)
        (λ h. absurd (not_held (Thread.starting Call.broadcasts) (unfold holding in refl) h))
        (λ j ne h. v.holds j h);
  awake =
      update-elim (λ j u. Awake true s.seq g u) s.threads i (Thread.starting Call.broadcasts)
        (unfold Awake in tt)
        (λ j ne. signalled s.quit s.seq s.threads g (s.threads j) comes (v.awake j));
}
  where
    g : ℕ → Thread
    g = update s.threads i (Thread.starting Call.broadcasts)

    comes : Comes 1 1 g
    comes =
        let at : stage (g i) ≡ 1 =
          ap stage (update_self s.threads i (Thread.starting Call.broadcasts))
          ∙ unfold stage in refl in
        (i, omega (arith, at), omega (arith, at))

-- The mutex is free: no waiter is between its test and its unlocking.
free_map :
    (quit : Bool) (seq : ℕ) (f g : ℕ → Thread) (t : Thread)
    → (holding t ≡ true → ⊥)
    → (Comes 1 3 f → Comes 1 3 g)
    → (Comes 4 4 f → Comes 4 4 g)
    → Awake quit seq f t
    → Awake quit seq g t
unfolding holding Awake
free_map quit seq f g Thread.going out b c a = absurd (out refl)
free_map quit seq f g (Thread.noted q) out b c a = absurd (out refl)
free_map quit seq f g (Thread.entering q) out b c (le, a) =
    (le, λ h. elim (a h) [ inl e ↦ inl (b e) | inr lt ↦ inr lt ])
free_map quit seq f g (Thread.asleep q) out b c (le, a) =
    (le, λ h. elim (a h) [ inl e ↦ inl (b e) | inr (lt, e) ↦ inr (lt, c e) ])
free_map quit seq f g Thread.outside out b c a = tt
free_map quit seq f g Thread.locking out b c a = tt
free_map quit seq f g Thread.testing out b c a = tt
free_map quit seq f g (Thread.relocking w) out b c a = tt
free_map quit seq f g Thread.leaving out b c a = tt
free_map quit seq f g (Thread.starting call) out b c a = tt
free_map quit seq f g (Thread.at_barrier call) out b c a = tt
free_map quit seq f g (Thread.passed call) out b c a = tt
free_map quit seq f g (Thread.bumped call) out b c a = tt

pub takes-Inv :
    (s : Sys) (i : ℕ) (call : Call)
    → Inv s
    → s.threads i ≡ Thread.starting call
    → s.owner ≡ none
    → Inv (locked s i (Thread.at_barrier call))
takes-Inv s i Call.notifies v e free =
    locked-Inv s i (Thread.at_barrier Call.notifies) v free
      (inl (stage_of (s.threads i) (Thread.starting Call.notifies) e (unfold stage in refl)))
      (unfold Awake in tt)
takes-Inv s i Call.broadcasts v e free =
    let t = Thread.at_barrier Call.broadcasts in
    let was : stage (s.threads i) ≡ 1 = ap stage e ∙ unfold stage in refl in
    let now : stage (Thread.at_barrier Call.broadcasts) ≡ 2 = unfold stage in refl in
    record {
      holds =
          update-elim (λ j u. holding u ≡ true → some i ≡ some j) s.threads i t (λ h. refl)
            (λ j ne h. absurd (free_lem s j v free h));
      awake =
          update-elim (λ j u. Awake s.quit s.seq (update s.threads i t) u) s.threads i t
            (unfold Awake in tt)
            (λ j ne.
              free_map s.quit s.seq s.threads (update s.threads i t) (s.threads j)
                (free_lem s j v free)
                (Comes-update 1 3 s.threads i t (λ a b. (omega (arith, now), omega (arith, now))))
                (Comes-update 4 4 s.threads i t (λ a b. omega (arith, was, a))) (v.awake j));
    }

pub gives-Inv :
    (s : Sys) (i : ℕ) (call : Call)
    → Inv s
    → s.threads i ≡ Thread.at_barrier call
    → Inv (unlocked s i (Thread.passed call))
gives-Inv s i Call.notifies v e =
    unlocked-Inv s i (Thread.passed Call.notifies) v (ap holding e ∙ unfold holding in refl)
      (unfold holding in refl)
      (inl (stage_of (s.threads i) (Thread.at_barrier Call.notifies) e (unfold stage in refl)))
      (unfold Awake in tt)
gives-Inv s i Call.broadcasts v e =
    unlocked-Inv s i (Thread.passed Call.broadcasts) v (ap holding e ∙ unfold holding in refl)
      (unfold holding in refl) (inr (inr (ap stage e ∙ unfold stage in refl, unfold stage in refl)))
      (unfold Awake in tt)

-- The sequence number is counted up: who has read it before will not fall asleep on it.
bumped_map :
    (quit : Bool) (seq : ℕ) (f g : ℕ → Thread) (t : Thread)
    → (Comes 1 1 f → Comes 1 1 g)
    → (Comes 1 3 f → Comes 1 3 g ⊎ Comes 4 4 g)
    → (Comes 4 4 f → Comes 4 4 g)
    → Awake quit seq f t
    → Awake quit (suc seq) g t
unfolding Awake
bumped_map quit seq f g Thread.going a b c v = λ h. a (v h)
bumped_map quit seq f g (Thread.noted q) a b c (le, v) = (omega arith, λ h. a (v h))
bumped_map quit seq f g (Thread.entering q) a b c (le, v) = (omega arith, λ h. inr (omega arith))
bumped_map quit seq f g (Thread.asleep q) a b c (le, v) = (
  omega arith,
  λ h. elim (v h) [
    | inl e ↦ elim (b e) [ inl d ↦ inl d | inr d ↦ inr (omega arith, d) ]
    | inr (lt, e) ↦ inr (omega arith, c e)
  ],
)
bumped_map quit seq f g Thread.outside a b c v = tt
bumped_map quit seq f g Thread.locking a b c v = tt
bumped_map quit seq f g Thread.testing a b c v = tt
bumped_map quit seq f g (Thread.relocking w) a b c v = tt
bumped_map quit seq f g Thread.leaving a b c v = tt
bumped_map quit seq f g (Thread.starting call) a b c v = tt
bumped_map quit seq f g (Thread.at_barrier call) a b c v = tt
bumped_map quit seq f g (Thread.passed call) a b c v = tt
bumped_map quit seq f g (Thread.bumped call) a b c v = tt

-- A thread that counts up, of either kind
passes :
    (f : ℕ → Thread) (i : ℕ) (call : Call)
    → f i ≡ Thread.passed call
    → (let g = update f i (Thread.bumped call) in
        (Comes 1 1 f → Comes 1 1 g)
        × (Comes 1 3 f → Comes 1 3 g ⊎ Comes 4 4 g)
        × (Comes 4 4 f → Comes 4 4 g))
passes f i Call.notifies e =
    let was = stage_of (f i) (Thread.passed Call.notifies) e (unfold stage in refl) in
    let t = Thread.bumped Call.notifies in
    (
      Comes-update 1 1 f i t (λ a b. omega (arith, was, a)),
      λ c. inl (Comes-update 1 3 f i t (λ a b. omega (arith, was, a)) c),
      Comes-update 4 4 f i t (λ a b. omega (arith, was, a)),
    )
passes f i Call.broadcasts e =
    let was : stage (f i) ≡ 3 = ap stage e ∙ unfold stage in refl in
    let t = Thread.bumped Call.broadcasts in
    let now : stage (update f i (Thread.bumped Call.broadcasts) i) ≡ 4 =
      ap stage (update_self f i (Thread.bumped Call.broadcasts)) ∙ unfold stage in refl in
    (
      Comes-update 1 1 f i t (λ a b. omega (arith, was, b)),
      λ c. inr (i, omega (arith, now), omega (arith, now)),
      Comes-update 4 4 f i t (λ a b. omega (arith, was, a)),
    )

pub bumps-Inv :
    (s : Sys) (i : ℕ) (call : Call)
    → Inv s
    → s.threads i ≡ Thread.passed call
    → s.seq < 2 ^ 32 - 1
    → Inv (record s { seq = bump s.seq; threads = update s.threads i (Thread.bumped call) })
unfolding bump
bumps-Inv s i call v e small =
    let (a, b, c) = passes s.threads i call e in
    let t = Thread.bumped call in
    let g = update s.threads i (Thread.bumped call) in
    let counted : add32 s.seq 1 ≡ suc s.seq = omega arith in
    record {
      holds =
          update-elim (λ j u. holding u ≡ true → s.owner ≡ some j) s.threads i t
            (λ h. absurd (not_held (Thread.bumped call) (unfold holding in refl) h))
            (λ j ne h. v.holds j h);
      awake =
          update-elim (λ j u. Awake s.quit (add32 s.seq 1) g u) s.threads i t (unfold Awake in tt)
            (λ j ne.
              subst (λ n. Awake s.quit n (update s.threads i (Thread.bumped call)) (s.threads j))
                (sym counted)
                (bumped_map s.quit s.seq s.threads (update s.threads i (Thread.bumped call))
                  (s.threads j) a b c (v.awake j)));
    }
