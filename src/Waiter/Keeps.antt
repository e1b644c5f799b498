-- ===== src/Waiter/Keeps.antt =====
-- Why a sleeper of a waiter will be woken once quit is signalled, and how a step keeps that.
use thoth_ipc.Base.{
  ℕ, ◌<◌, ◌≤◌, ◌≡◌, ◌≢◌, ◌⊎◌, inl, inr, refl, sym, subst, ap, ◌∙◌, arith, Bool, true, false, Option,
  none, some, ℕ_discrete, update, update_ne, update_self, update-elim,
}
use thoth_ipc.Waiter.{Call, Thread, Sys}
use thoth_ipc.Waiter.Run.{moved, locked, unlocked}

unfoldable pub holding : Thread → Bool
holding Thread.testing = true
holding Thread.going = true
holding (Thread.noted init_cnd) = true
holding Thread.leaving = true
holding (Thread.at_barrier call) = true
holding _ = false

-- How far a thread is that wakes all: before the lock, with it, past it, and past the counting
unfoldable pub stage : Thread → ℕ
stage (Thread.starting Call.broadcasts) = 1
stage (Thread.at_barrier Call.broadcasts) = 2
stage (Thread.passed Call.broadcasts) = 3
stage (Thread.bumped Call.broadcasts) = 4
stage _ = 0

-- Some thread is between two stages, both included.
abbrev pub Comes : ℕ → ℕ → (ℕ → Thread) → Type 0
Comes lo hi f = (k : ℕ) × (lo ≤ stage (f k)) × (stage (f k) ≤ hi)

-- What holds of a thread that waits, once quit is signalled
unfoldable pub Awake : Bool → ℕ → (ℕ → Thread) → Thread → Type 0
Awake quit seq f Thread.going = quit ≡ true → Comes 1 1 f
Awake quit seq f (Thread.noted q) = (q ≤ seq) × (quit ≡ true → Comes 1 1 f)
Awake quit seq f (Thread.entering q) = (q ≤ seq) × (quit ≡ true → Comes 1 3 f ⊎ (q < seq))
Awake quit seq f (Thread.asleep q) =
    (q ≤ seq) × (quit ≡ true → Comes 1 3 f ⊎ ((q < seq) × Comes 4 4 f))
Awake quit seq f _ = Unit

pub record Inv (s : Sys) : Type 0 where
  pub holds : (j : ℕ) → holding (s.threads j) ≡ true → s.owner ≡ some j
  pub awake : (j : ℕ) → Awake s.quit s.seq s.threads (s.threads j)

-- A thread moves that is not on its way to wake all, or comes to a stage between the same bounds.
pub Comes-update :
    (lo hi : ℕ) (f : ℕ → Thread) (i : ℕ) (t : Thread)
    → (lo ≤ stage (f i) → stage (f i) ≤ hi → (lo ≤ stage t) × (stage t ≤ hi))
    → Comes lo hi f
    → Comes lo hi (update f i t)
Comes-update lo hi f i t keep (k, a, b) = elim (ℕ_discrete i k) [
  | yes e ↦
      let same = ap stage (update_self f i t) in
      let (c, d) =
        keep (subst (λ k. lo ≤ stage (f k)) (sym e) a) (subst (λ k. stage (f k) ≤ hi) (sym e) b) in
      (i, omega (arith, same, c), omega (arith, same, d))
  | no ne ↦
      let same = ap stage (update_ne f t ne) in (k, omega (arith, same, a), omega (arith, same, b))
]

pub Awake-map :
    (quit : Bool) (seq : ℕ) (f g : ℕ → Thread) (t : Thread)
    → (Comes 1 1 f → Comes 1 1 g)
    → (Comes 1 3 f → Comes 1 3 g)
    → (Comes 4 4 f → Comes 4 4 g)
    → Awake quit seq f t
    → Awake quit seq g t
unfolding Awake
Awake-map quit seq f g Thread.outside a b c v = tt
Awake-map quit seq f g Thread.locking a b c v = tt
Awake-map quit seq f g Thread.testing a b c v = tt
Awake-map quit seq f g Thread.going a b c v = λ q. a (v q)
Awake-map quit seq f g (Thread.noted n) a b c (le, v) = (le, λ q. a (v q))
Awake-map quit seq f g (Thread.entering n) a b c (le, v) =
    (le, λ q. elim (v q) [ inl e ↦ inl (b e) | inr lt ↦ inr lt ])
Awake-map quit seq f g (Thread.asleep n) a b c (le, v) =
    (le, λ q. elim (v q) [ inl e ↦ inl (b e) | inr (lt, e) ↦ inr (lt, c e) ])
Awake-map quit seq f g (Thread.relocking w) a b c v = tt
Awake-map quit seq f g Thread.leaving a b c v = tt
Awake-map quit seq f g (Thread.starting call) a b c v = tt
Awake-map quit seq f g (Thread.at_barrier call) a b c v = tt
Awake-map quit seq f g (Thread.passed call) a b c v = tt
Awake-map quit seq f g (Thread.bumped call) a b c v = tt

-- The stages that a thread may go between without a look at the others
abbrev pub Goes : Thread → Thread → Type 0
Goes a b = (stage a ≡ 0) ⊎ ((stage a ≡ stage b) ⊎ ((stage a ≡ 2) × (stage b ≡ 3)))

Awake-update :
    (quit : Bool) (seq : ℕ) (f : ℕ → Thread) (i : ℕ) (t u : Thread)
    → Goes (f i) t
    → Awake quit seq f u
    → Awake quit seq (update f i t) u
Awake-update quit seq f i t u goes v =
    Awake-map quit seq f (update f i t) u
      (Comes-update 1 1 f i t (λ a b. elim goes [
        | inl z ↦ omega (arith, z)
        | inr (inl e) ↦ (omega (arith, e), omega (arith, e))
        | inr (inr (x, y)) ↦ omega (arith, x)
      ]))
      (Comes-update 1 3 f i t (λ a b. elim goes [
        | inl z ↦ omega (arith, z)
        | inr (inl e) ↦ (omega (arith, e), omega (arith, e))
        | inr (inr (x, y)) ↦ (omega (arith, y), omega (arith, y))
      ]))
      (Comes-update 4 4 f i t (λ a b. elim goes [
        | inl z ↦ omega (arith, z)
        | inr (inl e) ↦ (omega (arith, e), omega (arith, e))
        | inr (inr (x, y)) ↦ omega (arith, x)
      ]))
      v

keeps-Inv :
    (s : Sys) (i : ℕ) (t : Thread) (owner : Option ℕ)
    → Inv s
    → Goes (s.threads i) t
    → Awake s.quit s.seq s.threads t
    → (holding t ≡ true → owner ≡ some i)
    → ((j : ℕ) → i ≢ j → holding (s.threads j) ≡ true → owner ≡ some j)
    → Inv (record s { owner = owner; threads = update s.threads i t })
keeps-Inv s i t owner v goes a mine others = record {
  holds = update-elim (λ j u. holding u ≡ true → owner ≡ some j) s.threads i t mine others;
  awake =
      update-elim (λ j u. Awake s.quit s.seq (update s.threads i t) u) s.threads i t
        (Awake-update s.quit s.seq s.threads i t t goes a)
        (λ j ne. Awake-update s.quit s.seq s.threads i t (s.threads j) goes (v.awake j));
}

-- A step that leaves the mutex
pub moved-Inv :
    (s : Sys) (i : ℕ) (t : Thread)
    → Inv s
    → Goes (s.threads i) t
    → Awake s.quit s.seq s.threads t
    → (holding t ≡ true → holding (s.threads i) ≡ true)
    → Inv (moved s i t)
moved-Inv s i t v goes a h =
    keeps-Inv s i t s.owner v goes a (λ g. v.holds i (h g)) (λ j ne g. v.holds j g)

-- Nobody has a mutex that is free.
pub free_lem : (s : Sys) (j : ℕ) → Inv s → s.owner ≡ none → holding (s.threads j) ≡ true → ⊥
free_lem s j v e g = let c = sym e ∙ v.holds j g in cc

pub locked-Inv :
    (s : Sys) (i : ℕ) (t : Thread)
    → Inv s
    → s.owner ≡ none
    → Goes (s.threads i) t
    → Awake s.quit s.seq s.threads t
    → Inv (locked s i t)
locked-Inv s i t v e goes a =
    keeps-Inv s i t (some i) v goes a (λ g. refl) (λ j ne g. absurd (free_lem s j v e g))

pub unlocked-Inv :
    (s : Sys) (i : ℕ) (t : Thread)
    → Inv s
    → holding (s.threads i) ≡ true
    → holding t ≡ false
    → Goes (s.threads i) t
    → Awake s.quit s.seq s.threads t
    → Inv (unlocked s i t)
unlocked-Inv s i t v h out goes a =
    keeps-Inv s i t none v goes a (λ g. absurd (let c = sym out ∙ g in cc))
      (λ j ne g. let same : some i ≡ some j = sym (v.holds i h) ∙ v.holds j g in absurd (ne cc))
