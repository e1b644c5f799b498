-- ===== src/RobustMutex/Keeps.antt =====
-- What holds of a robust mutex in any run, and how a step of one thread keeps it.
use thoth_ipc.Base.{
  ℕ, ◌≡◌, ◌≢◌, ◌⊎◌, inl, inr, refl, sym, subst, ap, ◌∙◌, arith, true, false, update, update_self,
  update-elim, update_unique,
}
use thoth_ipc.RobustMutex.{futex_tid_mask, ftx_tid, ftx_owner_died}
use thoth_ipc.RobustMutex.Words.{IsMark}
use thoth_ipc.RobustMutex.Run.{Thread, Sys, has, moved, IsTid}

-- What a thread will leave in the word
unfoldable pub Owes : Thread → Type 0
Owes (Thread.leaving new) = IsMark new
Owes (Thread.marking new) = IsMark new
Owes _ = Unit

abbrev pub Has : Thread → Type 0
Has t = has t ≡ true

-- The word `w` and a thread `j` that has the mutex: the word names it, unless it is marked.
pub record Owner (w j : ℕ) (t : Thread) : Type 0 where
  pub is_tid : IsTid j
  pub named : (ftx_tid w ≡ j) ⊎ (ftx_tid w ≡ futex_tid_mask)
  pub clean : t ≡ Thread.holds → ftx_tid w ≡ j → ftx_owner_died w ≡ false

abbrev pub Held : ℕ → (ℕ → Thread) → Type 0
Held w threads = (ftx_tid w ≡ 0) ⊎ ((ftx_tid w ≡ futex_tid_mask) ⊎ Has (threads (ftx_tid w)))

pub record Inv (s : Sys) : Type 0 where
  pub owes : (j : ℕ) → Owes (s.threads j)
  pub owner : (j : ℕ) → Has (s.threads j) → Owner s.ftx j (s.threads j)
  pub alone : (i j : ℕ) → Has (s.threads i) → Has (s.threads j) → i ≡ j
  pub held : Held s.ftx s.threads

moved-Inv :
    (s : Sys) (i : ℕ) (t : Thread) (w : ℕ)
    → Inv s
    → Owes t
    → (Has t → Owner w i t)
    → ((j : ℕ) → i ≢ j → Has (s.threads j) → Owner w j (s.threads j))
    → ((j : ℕ) → i ≢ j → Has t → Has (s.threads j) → ⊥)
    → Held w (update s.threads i t)
    → Inv (moved s i t w)
moved-Inv s i t w v o mine others only h = record {
  owes = update-elim (λ j p. Owes p) s.threads i t o (λ j ne. v.owes j);
  owner = update-elim (λ j p. Has p → Owner w j p) s.threads i t mine others;
  alone = update_unique Has s.threads i t only v.alone;
  held = h;
}

-- A thread that has the mutex is the only one.
only_one : (s : Sys) (i j : ℕ) → Inv s → Has (s.threads i) → i ≢ j → Has (s.threads j) → ⊥
only_one s i j v h ne g = ne (v.alone i j h g)

-- The word is the same, and the thread has the mutex as before.
pub stays-Inv :
    (s : Sys) (i : ℕ) (t : Thread)
    → Inv s
    → Owes t
    → has t ≡ has (s.threads i)
    → (t ≡ Thread.holds → ftx_owner_died s.ftx ≡ false)
    → Inv (moved s i t s.ftx)
stays-Inv s i t v o same clean =
    let same_has =
      update-elim (λ k p. has p ≡ has (s.threads k)) s.threads i t same (λ k ne. refl) in
    moved-Inv s i t s.ftx v o
      (λ h.
        let ow = v.owner i (sym same ∙ h) in
        record { is_tid = ow.is_tid; named = ow.named; clean = λ e f. clean e })
      (λ j ne h. v.owner j h) (λ j ne h g. only_one s i j v (sym same ∙ h) ne g)
      (elim v.held [
        | inl z ↦ inl z
        | inr (inl m) ↦ inr (inl m)
        | inr (inr h) ↦ inr (inr (same_has (ftx_tid s.ftx) ∙ h))
      ])

pub holds-Has : Has Thread.holds
unfolding has
holds-Has = refl

-- The thread has the mutex, and clears the flag of the owner that died.
pub fixes-Inv :
    (s : Sys) (i w : ℕ)
    → Inv s
    → Has (s.threads i)
    → ftx_tid w ≡ ftx_tid s.ftx
    → ftx_owner_died w ≡ false
    → Inv (moved s i Thread.holds w)
fixes-Inv s i w v h same fixed =
    let ow = v.owner i h in
    moved-Inv s i Thread.holds w v (unfold Owes in tt)
      (λ g. record {
        is_tid = ow.is_tid;
        named = elim ow.named [ inl e ↦ inl (same ∙ e) | inr e ↦ inr (same ∙ e) ];
        clean = λ e f. fixed;
      })
      (λ j ne g. absurd (only_one s i j v h ne g)) (λ j ne _ g. only_one s i j v h ne g)
      (elim ow.named [
        | inl e ↦ inr (
            inr (
              subst (λ k. Has (update s.threads i Thread.holds k)) (sym (same ∙ e))
                (ap has (update_self s.threads i Thread.holds) ∙ holds-Has)))
        | inr e ↦ inr (inl (same ∙ e))
      ])

-- Where the word names nobody, nobody has the mutex.
pub nobody-Has : (s : Sys) (j : ℕ) → Inv s → ftx_tid s.ftx ≡ 0 → Has (s.threads j) → ⊥
nobody-Has s j v z h =
    let ow = v.owner j h in
    let (pos, below) = ow.is_tid in
    elim ow.named [ inl e ↦ omega (arith, pos, z, e) | inr e ↦ omega (arith, z, e) ]

-- The mutex is free, and the word comes to name the thread.
pub gains-Inv :
    (s : Sys) (i : ℕ) (t : Thread) (w : ℕ)
    → Inv s
    → IsTid i
    → ftx_tid s.ftx ≡ 0
    → ftx_tid w ≡ i
    → Owes t
    → Has t
    → (t ≡ Thread.holds → ftx_owner_died w ≡ false)
    → Inv (moved s i t w)
gains-Inv s i t w v tid z named o h clean =
    moved-Inv s i t w v o (λ _. record { is_tid = tid; named = inl named; clean = λ e f. clean e })
      (λ j ne g. absurd (nobody-Has s j v z g)) (λ j ne _ g. nobody-Has s j v z g)
      (inr (
        inr (
          subst (λ k. Has (update s.threads i t k)) (sym named)
            (ap has (update_self s.threads i t) ∙ h))))

-- The thread has the mutex and gives it up: the word names nobody, or is marked.
pub loses-Inv :
    (s : Sys) (i : ℕ) (t : Thread) (w : ℕ)
    → Inv s
    → Has (s.threads i)
    → Owes t
    → has t ≡ false
    → (ftx_tid w ≡ 0) ⊎ (ftx_tid w ≡ futex_tid_mask)
    → Inv (moved s i t w)
loses-Inv s i t w v h o not_has left =
    moved-Inv s i t w v o (λ g. absurd (let c = sym not_has ∙ g in cc))
      (λ j ne g. absurd (only_one s i j v h ne g)) (λ j ne _ g. only_one s i j v h ne g)
      (elim left [ inl z ↦ inl z | inr m ↦ inr (inl m) ])

-- A thread without the mutex marks the word.
pub marks-Inv :
    (s : Sys) (i : ℕ) (t : Thread) (w : ℕ)
    → Inv s
    → Owes t
    → has t ≡ false
    → ftx_tid w ≡ futex_tid_mask
    → Inv (moved s i t w)
marks-Inv s i t w v o not_has m =
    moved-Inv s i t w v o (λ g. absurd (let c = sym not_has ∙ g in cc))
      (λ j ne g.
        let ow = v.owner j g in
        let (pos, below) = ow.is_tid in
        record {
          is_tid = ow.is_tid;
          named = inr m;
          clean = λ e f. absurd (omega (arith, below, m, f));
        })
      (λ j ne g _. let c = sym not_has ∙ g in cc) (inr (inl m))

-- Another thread begins to wait.
pub waits-Inv :
    (s : Sys) (w : ℕ)
    → Inv s
    → ftx_tid w ≡ ftx_tid s.ftx
    → ftx_owner_died w ≡ ftx_owner_died s.ftx
    → Inv (record s { ftx = w })
waits-Inv s w v same flag = record {
  owes = v.owes;
  owner = λ j h.
      let ow = v.owner j h in
      record {
        is_tid = ow.is_tid;
        named = elim ow.named [ inl e ↦ inl (same ∙ e) | inr e ↦ inr (same ∙ e) ];
        clean = λ e f. flag ∙ ow.clean e (sym same ∙ f);
      };
  alone = v.alone;
  held = elim v.held [
    | inl z ↦ inl (same ∙ z)
    | inr (inl m) ↦ inr (inl (same ∙ m))
    | inr (inr h) ↦ inr (inr (subst (λ k. Has (s.threads k)) (sym same) h))
  ];
}
