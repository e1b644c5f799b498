-- ===== src/Locks/ReadWrite.antt =====
-- Fewer than 2^31 threads at a reader-writer lock.
use thoth_ipc.Base.{
  ℕ, ◌+◌, ◌*◌, ◌^◌, ◌≤◌, ◌<◌, ◌≡◌, ◌≢◌, refl, sym, ap, subst, ◌∙◌, arith, Bool, true, false, ◌==◌,
  if◌then◌else◌, update, update_ne, update_self, update-elim, update_unique, ℕ_discrete, dec_lt,
}
use thoth_ipc.Base.Total.{total, total-update, total-member, total-le, total-zero}
use thoth_ipc.Locks.{
  WriteRound, w_flag, lock, drained, unlock, may_share, lock_shared, unlock_shared,
}
use thoth_ipc.Locks.Words.{lock-free, lock-readers, lock-writer, drained-eq, may_share-writer}

-- Outside; between two rounds of `lock`; with the flag and waiting for the readers; with the write
-- lock; in `lock_shared` with the value it has loaded; or with a read lock.
pub data Thread : Type 0 where
  outside : Thread
  claiming : Thread
  draining : Thread
  writing : Thread
  loaded : ℕ → Thread
  reading : Thread

abbrev pub is_reading : Thread → ℕ
is_reading Thread.reading = 1
is_reading _ = 0

-- whether a thread has set the flag
abbrev pub is_writer : Thread → ℕ
is_writer Thread.draining = 1
is_writer Thread.writing = 1
is_writer _ = 0

pub record Sys : Type 0 where
  pub lc : ℕ
  pub threads : ℕ → Thread

abbrev pub moved : Sys → ℕ → Thread → ℕ → Sys
moved s i t lc = record { lc = lc; threads = update s.threads i t }

pub data Step (n : ℕ) : Sys → Sys → Type 0 where
  claim :
      (s : Sys) (i : ℕ)
      → i < n
      → s.threads i ≡ Thread.outside
      → Step n s (moved s i Thread.claiming s.lc)
  win :
      (s : Sys) (i lc : ℕ)
      → i < n
      → s.threads i ≡ Thread.claiming
      → lock s.lc ≡ (WriteRound.got, lc)
      → Step n s (moved s i Thread.writing lc)
  set_flag :
      (s : Sys) (i lc : ℕ)
      → i < n
      → s.threads i ≡ Thread.claiming
      → lock s.lc ≡ (WriteRound.readers_left, lc)
      → Step n s (moved s i Thread.draining lc)
  retry :
      (s : Sys) (i lc : ℕ)
      → i < n
      → s.threads i ≡ Thread.claiming
      → lock s.lc ≡ (WriteRound.retry, lc)
      → Step n s (moved s i Thread.claiming lc)
  drain :
      (s : Sys) (i : ℕ)
      → i < n
      → s.threads i ≡ Thread.draining
      → drained s.lc ≡ true
      → Step n s (moved s i Thread.writing s.lc)
  end_write :
      (s : Sys) (i : ℕ)
      → i < n
      → s.threads i ≡ Thread.writing
      → Step n s (moved s i Thread.outside (unlock s.lc))
  load :
      (s : Sys) (i : ℕ)
      → i < n
      → s.threads i ≡ Thread.outside
      → Step n s (moved s i (Thread.loaded s.lc) s.lc)
  reload :
      (s : Sys) (i old : ℕ)
      → i < n
      → s.threads i ≡ Thread.loaded old
      → Step n s (moved s i (Thread.loaded s.lc) s.lc)
  share :
      (s : Sys) (i old lc : ℕ)
      → i < n
      → s.threads i ≡ Thread.loaded old
      → may_share old ≡ true
      → lock_shared old s.lc ≡ (true, lc)
      → Step n s (moved s i Thread.reading lc)
  end_read :
      (s : Sys) (i : ℕ)
      → i < n
      → s.threads i ≡ Thread.reading
      → Step n s (moved s i Thread.outside (unlock_shared s.lc))

pub data Run (n : ℕ) : Sys → Sys → Type 0 where
  done : (s : Sys) → Run n s s
  next : (s t u : Sys) → Run n s t → Step n t u → Run n s u

pub record IsFresh (s : Sys) : Type 0 where
  pub free : s.lc ≡ 0
  pub all_outside : (i : ℕ) → s.threads i ≡ Thread.outside

abbrev readers : ℕ → Sys → ℕ
readers n s = total is_reading s.threads n

record Inv (n : ℕ) (s : Sys) : Type 0 where
  flag : ℕ
  flag_le : flag ≤ 1
  word : s.lc ≡ flag * 2 ^ 31 + readers n s
  flagged : (i : ℕ) → is_writer (s.threads i) ≡ 1 → flag ≡ 1
  owned : flag ≡ 1 → (i : ℕ) × (is_writer (s.threads i) ≡ 1)
  alone : (i j : ℕ) → is_writer (s.threads i) ≡ 1 → is_writer (s.threads j) ≡ 1 → i ≡ j
  drained_by : (i : ℕ) → s.threads i ≡ Thread.writing → readers n s ≡ 0
  beyond : (i : ℕ) → n ≤ i → s.threads i ≡ Thread.outside

reading_le : (t : Thread) → is_reading t ≤ 1
reading_le Thread.outside = omega arith
reading_le Thread.claiming = omega arith
reading_le Thread.draining = omega arith
reading_le Thread.writing = omega arith
reading_le (Thread.loaded old) = omega arith
reading_le Thread.reading = omega arith

-- what a round of `lock` says of the word
lock-eq :
    (flag r lc' : ℕ) (w : WriteRound)
    → flag ≤ 1
    → r < 2 ^ 31
    → lock (flag * 2 ^ 31 + r) ≡ (w, lc')
    → (lc' ≡ 2 ^ 31 + r)
      × (w ≡ WriteRound.got → (flag ≡ 0) × (r ≡ 0))
      × (w ≡ WriteRound.readers_left → flag ≡ 0)
      × (w ≡ WriteRound.retry → flag ≡ 1)
lock-eq flag r lc' w le small h = elim (ℕ_discrete flag 0) [
  | yes z ↦ elim (ℕ_discrete r 0) [
    | yes rz ↦
        let e : (WriteRound.got, w_flag) ≡ (w, lc') =
          sym lock-free ∙ ap lock (omega (arith, z, rz)) ∙ h in
        (
          omega (arith, ap (λ (p : WriteRound × ℕ). p.1) e, rz),
          (λ g. (z, rz)),
          (λ g. z),
          λ g.
              let f : WriteRound.got ≡ WriteRound.retry = ap (λ (p : WriteRound × ℕ). p.0) e ∙ g in
              cc,
        )
    | no rn ↦
        let e : (WriteRound.readers_left, w_flag + r) ≡ (w, lc') =
          sym (lock-readers r small rn) ∙ ap lock (omega (arith, z)) ∙ h in
        let f : WriteRound.readers_left ≡ w = ap (λ (p : WriteRound × ℕ). p.0) e in
        (
          omega (arith, ap (λ (p : WriteRound × ℕ). p.1) e),
          (λ g. absurd cc),
          (λ g. z),
          λ g. absurd cc,
        )
  ]
  | no nz ↦
      let one : flag ≡ 1 = omega (arith, nz) in
      let e : (WriteRound.retry, w_flag + r) ≡ (w, lc') =
        sym (lock-writer r small) ∙ ap lock (omega (arith, one)) ∙ h in
      let f : WriteRound.retry ≡ w = ap (λ (p : WriteRound × ℕ). p.0) e in
      (
        omega (arith, ap (λ (p : WriteRound × ℕ). p.1) e),
        (λ g. absurd cc),
        (λ g. absurd cc),
        λ g. one,
      )
]

module _ (n : ℕ) (few : n < 2 ^ 31) (s : Sys) (v : Inv n s) (i : ℕ) (hi : i < n) where
  count_lt : readers n s < 2 ^ 31
  count_lt = omega (arith, total-le is_reading s.threads n (λ j. reading_le (s.threads j)))

  -- the count of the readers after thread `i` has moved
  recount :
      (t : Thread) (lc : ℕ)
      → readers n (moved s i t lc) + is_reading (s.threads i) ≡ readers n s + is_reading t
  recount t lc = total-update is_reading s.threads i t n hi

  still_beyond : (t : Thread) (j : ℕ) → n ≤ j → update s.threads i t j ≡ Thread.outside
  still_beyond t j h = update_ne s.threads t (λ e. omega (arith, e)) ∙ v.beyond j h

  -- Thread `i` moves between places that neither write nor read.
  quiet-Inv :
      (old t : Thread)
      → s.threads i ≡ old
      → is_writer old ≡ 0
      → is_reading old ≡ 0
      → is_writer t ≡ 0
      → is_reading t ≡ 0
      → Inv n (moved s i t s.lc)
  quiet-Inv old t e w0 r0 w1 r1 =
      let same : readers n (moved s i t s.lc) ≡ readers n s =
        omega (arith, recount t s.lc, ap is_reading e, r0, r1) in
      let not_it : is_writer (s.threads i) ≡ 0 = ap is_writer e ∙ w0 in
      record {
        flag = v.flag;
        flag_le = v.flag_le;
        word = v.word ∙ ap (λ r. v.flag * 2 ^ 31 + r) (sym same);
        flagged =
            update-elim (λ j p. is_writer p ≡ 1 → v.flag ≡ 1) s.threads i t
              (λ h. absurd (omega (arith, w1, h))) (λ j ne. v.flagged j);
        owned = λ f.
            let (j, h) = v.owned f in
            let ne : i ≢ j = (λ q. omega (arith, ap (λ j. is_writer (s.threads j)) q, not_it, h)) in
            (j, ap is_writer (update_ne s.threads t ne) ∙ h);
        alone =
            update_unique (λ p. is_writer p ≡ 1) s.threads i t (λ j ne h g. omega (arith, w1, h))
              v.alone;
        drained_by =
            update-elim (λ j p. p ≡ Thread.writing → readers n (moved s i t s.lc) ≡ 0) s.threads i t
              (λ h. absurd (omega (arith, w1, ap is_writer h))) (λ j ne h. same ∙ v.drained_by j h);
        beyond = still_beyond t;
      }

  -- Thread `i` sets the flag, as the only writer.
  writer-Inv :
      (t : Thread) (lc : ℕ)
      → v.flag ≡ 0
      → is_reading (s.threads i) ≡ 0
      → is_writer t ≡ 1
      → is_reading t ≡ 0
      → (t ≡ Thread.writing → readers n s ≡ 0)
      → lc ≡ 2 ^ 31 + readers n s
      → Inv n (moved s i t lc)
  writer-Inv t lc f0 r0 w1 r1 dr el =
      let same : readers n (moved s i t lc) ≡ readers n s = omega (arith, recount t lc, r0, r1) in
      let nobody : (j : ℕ) → is_writer (s.threads j) ≡ 1 → ⊥ =
        (λ j h. omega (arith, v.flagged j h, f0)) in
      record {
        flag = 1;
        flag_le = omega arith;
        word = omega (arith, el, same);
        flagged = λ j h. refl;
        owned = λ f. (i, ap is_writer (update_self s.threads i t) ∙ w1);
        alone = update_unique (λ p. is_writer p ≡ 1) s.threads i t (λ j ne h g. nobody j g) v.alone;
        drained_by =
            update-elim (λ j p. p ≡ Thread.writing → readers n (moved s i t lc) ≡ 0) s.threads i t
              (λ h. same ∙ dr h) (λ j ne h. same ∙ v.drained_by j h);
        beyond = still_beyond t;
      }

  drain-Inv :
      s.threads i ≡ Thread.draining → drained s.lc ≡ true → Inv n (moved s i Thread.writing s.lc)
  drain-Inv e d =
      let same : readers n (moved s i Thread.writing s.lc) ≡ readers n s =
        omega (arith, recount Thread.writing s.lc, ap is_reading e) in
      let mine : is_writer (s.threads i) ≡ 1 = ap is_writer e in
      let one = v.flagged i mine in
      let gone : readers n s ≡ 0 =
        (let test : (readers n s == 0) ≡ true =
            sym (drained-eq (readers n s) count_lt) ∙ ap drained (omega (arith, v.word, one)) ∙ d in
          ground (arith, test)) in
      record {
        flag = v.flag;
        flag_le = v.flag_le;
        word = v.word ∙ ap (λ r. v.flag * 2 ^ 31 + r) (sym same);
        flagged = λ j h. one;
        owned = λ f. (i, ap is_writer (update_self s.threads i Thread.writing));
        alone =
            update_unique (λ p. is_writer p ≡ 1) s.threads i Thread.writing
              (λ j ne h g. ne (v.alone i j mine g)) v.alone;
        drained_by = λ j h. same ∙ gone;
        beyond = still_beyond Thread.writing;
      }

  end_write-Inv : s.threads i ≡ Thread.writing → Inv n (moved s i Thread.outside 0)
  end_write-Inv e =
      let same : readers n (moved s i Thread.outside 0) ≡ readers n s =
        omega (arith, recount Thread.outside 0, ap is_reading e) in
      let mine : is_writer (s.threads i) ≡ 1 = ap is_writer e in
      let nobody : (j : ℕ) → is_writer (update s.threads i Thread.outside j) ≡ 1 → ⊥ =
        update-elim (λ j p. is_writer p ≡ 1 → ⊥) s.threads i Thread.outside (λ h. omega (arith, h))
          (λ j ne h. ne (v.alone i j mine h)) in
      record {
        flag = 0;
        flag_le = omega arith;
        word = omega (arith, same, v.drained_by i e);
        flagged = λ j h. absurd (nobody j h);
        owned = λ f. absurd (omega (arith, f));
        alone = λ j k h g. absurd (nobody j h);
        drained_by = λ j h. same ∙ v.drained_by i e;
        beyond = still_beyond Thread.outside;
      }

  -- Thread `i`, which is no writer, comes to or leaves the readers while no flag is set, or leaves
  -- them while a writer waits.
  reader-Inv :
      (old t : Thread) (lc : ℕ)
      → s.threads i ≡ old
      → is_writer old ≡ 0
      → is_writer t ≡ 0
      → ((j : ℕ) → s.threads j ≡ Thread.writing → ⊥)
      → lc + readers n s ≡ s.lc + readers n (moved s i t lc)
      → Inv n (moved s i t lc)
  reader-Inv old t lc e w0 w1 nw el =
      let not_it : is_writer (s.threads i) ≡ 0 = ap is_writer e ∙ w0 in
      record {
        flag = v.flag;
        flag_le = v.flag_le;
        word = omega (arith, el, v.word);
        flagged =
            update-elim (λ j p. is_writer p ≡ 1 → v.flag ≡ 1) s.threads i t
              (λ h. absurd (omega (arith, w1, h))) (λ j ne. v.flagged j);
        owned = λ f.
            let (j, h) = v.owned f in
            let ne : i ≢ j = (λ q. omega (arith, ap (λ j. is_writer (s.threads j)) q, not_it, h)) in
            (j, ap is_writer (update_ne s.threads t ne) ∙ h);
        alone =
            update_unique (λ p. is_writer p ≡ 1) s.threads i t (λ j ne h g. omega (arith, w1, h))
              v.alone;
        drained_by =
            update-elim (λ j p. p ≡ Thread.writing → readers n (moved s i t lc) ≡ 0) s.threads i t
              (λ h. absurd (omega (arith, w1, ap is_writer h))) (λ j ne h. absurd (nw j h));
        beyond = still_beyond t;
      }

lock_shared-eq : (old lc lc' : ℕ) → lock_shared old lc ≡ (true, lc') → (lc ≡ old) × (lc' ≡ old + 1)
unfolding lock_shared
lock_shared-eq old lc lc' h = go (lc == old) refl h
  where
    exchanged : Bool × ℕ
    exchanged = (true, old + 1)

    failed : Bool × ℕ
    failed = (false, lc)

    go :
        (b : Bool)
        → (lc == old) ≡ b
        → (if b then exchanged else failed) ≡ (true, lc')
        → (lc ≡ old) × (lc' ≡ old + 1)
    go true e h = (ground (arith, e), ap (λ (p : Bool × ℕ). p.1) (sym h))
    go false e h = let f : false ≡ true = ap (λ (p : Bool × ℕ). p.0) h in cc

Step-Inv : (n : ℕ) (s t : Sys) → n < 2 ^ 31 → Inv n s → Step n s t → Inv n t
Step-Inv n _ _ few v (Step.claim s i hi e) =
    quiet-Inv n few s v i hi Thread.outside Thread.claiming e refl refl refl refl
Step-Inv n _ _ few v (Step.win s i lc hi e h) =
    let (el, got, left, again) =
      lock-eq v.flag (readers n s) lc WriteRound.got v.flag_le (count_lt n few s v i hi)
        (ap lock (sym v.word) ∙ h) in
    let (f0, none_read) = got refl in
    writer-Inv n few s v i hi Thread.writing lc f0 (ap is_reading e) refl refl (λ w. none_read) el
Step-Inv n _ _ few v (Step.set_flag s i lc hi e h) =
    let (el, got, left, again) =
      lock-eq v.flag (readers n s) lc WriteRound.readers_left v.flag_le (count_lt n few s v i hi)
        (ap lock (sym v.word) ∙ h) in
    writer-Inv n few s v i hi Thread.draining lc (left refl) (ap is_reading e) refl refl (λ w. cc)
      el
Step-Inv n _ _ few v (Step.retry s i lc hi e h) =
    let (el, got, left, again) =
      lock-eq v.flag (readers n s) lc WriteRound.retry v.flag_le (count_lt n few s v i hi)
        (ap lock (sym v.word) ∙ h) in
    let same : s.lc ≡ lc = omega (arith, v.word, again refl, el) in
    subst (λ lc. Inv n (moved s i Thread.claiming lc)) same
      (quiet-Inv n few s v i hi Thread.claiming Thread.claiming e refl refl refl refl)
Step-Inv n _ _ few v (Step.drain s i hi e d) = drain-Inv n few s v i hi e d
Step-Inv n _ _ few v (Step.end_write s i hi e) = end_write-Inv n few s v i hi e
Step-Inv n _ _ few v (Step.load s i hi e) =
    quiet-Inv n few s v i hi Thread.outside (Thread.loaded s.lc) e refl refl refl refl
Step-Inv n _ _ few v (Step.reload s i old hi e) =
    quiet-Inv n few s v i hi (Thread.loaded old) (Thread.loaded s.lc) e refl refl refl refl
Step-Inv n _ _ few v (Step.share s i old lc hi e m h) =
    let (same, more) = lock_shared-eq old s.lc lc h in
    let lt = count_lt n few s v i hi in
    let f0 : v.flag ≡ 0 = elim (ℕ_discrete v.flag 0) [
      | yes z ↦ z
      | no nz ↦
          let word : old ≡ w_flag + readers n s = omega (arith, v.word, same, v.flag_le, nz) in
          let no_share = sym (ap may_share word) ∙ m in
          let off = may_share-writer (readers n s) lt in cc
    ] in
    reader-Inv n few s v i hi (Thread.loaded old) Thread.reading lc e refl refl
      (λ j w. omega (arith, v.flagged j (ap is_writer w), f0))
      (omega (arith, more, same, recount n few s v i hi Thread.reading lc, ap is_reading e))
Step-Inv n _ _ few v (Step.end_read s i hi e) =
    let one : 1 ≤ readers n s =
      omega (arith, total-member is_reading s.threads i n hi, ap is_reading e) in
    let lt = count_lt n few s v i hi in
    unfold unlock_shared in
    reader-Inv n few s v i hi Thread.reading Thread.outside (unlock_shared s.lc) e refl refl
      (λ j w. omega (arith, v.drained_by j w, one))
      (omega (
        arith,
        v.word,
        v.flag_le,
        one,
        lt,
        recount n few s v i hi Thread.outside (unlock_shared s.lc),
        ap is_reading e,
      ))

Run-Inv : (n : ℕ) (s t : Sys) → n < 2 ^ 31 → Inv n s → Run n s t → Inv n t
Run-Inv n _ _ few v (Run.done s) = v
Run-Inv n _ _ few v (Run.next s t u run step) = Step-Inv n t u few (Run-Inv n s t few v run) step

fresh-Inv : (n : ℕ) (s : Sys) → IsFresh s → Inv n s
fresh-Inv n s f =
    let none_read : readers n s ≡ 0 =
      total-zero is_reading s.threads n (λ i. ap is_reading (f.all_outside i)) in
    let nobody : (i : ℕ) → is_writer (s.threads i) ≡ 1 → ⊥ =
      (λ i h. omega (arith, ap is_writer (f.all_outside i), h)) in
    record {
      flag = 0;
      flag_le = omega arith;
      word = omega (arith, f.free, none_read);
      flagged = λ i h. absurd (nobody i h);
      owned = λ e. absurd (omega (arith, e));
      alone = λ i j h g. absurd (nobody i h);
      drained_by = λ i h. none_read;
      beyond = λ i h. f.all_outside i;
    }

-- Fewer than 2^31 threads take steps at a reader-writer lock that was free, in any order. While a
-- thread has the write lock, no other has it, and no thread has a read lock.
pub write_Excludes :
    (n : ℕ) (s t : Sys)
    → n < 2 ^ 31
    → IsFresh s
    → Run n s t
    → (i j : ℕ) → t.threads i ≡ Thread.writing
    → ((t.threads j ≡ Thread.writing → i ≡ j) × (t.threads j ≢ Thread.reading))
write_Excludes n s t few f run i j hw =
    let v = Run-Inv n s t few (fresh-Inv n s f) run in
    (
      (λ h. v.alone i j (ap is_writer hw) (ap is_writer h)),
      λ h. elim (dec_lt j n) [
        | yes lt ↦
            omega
              (arith, total-member is_reading t.threads j n lt, ap is_reading h, v.drained_by i hw)
        | no ge ↦ let c = sym (v.beyond j (omega (arith, ge))) ∙ h in cc
      ],
    )

-- In such a run, whenever no thread has a lock or waits with the flag set, the next round of `lock`
-- gets the write lock, and an exchange of `lock_shared` on the loaded word gets a read lock as the
-- first.
pub quiet_Frees :
    (n : ℕ) (s t : Sys)
    → n < 2 ^ 31
    → IsFresh s
    → Run n s t
    → ((i : ℕ) → (is_writer (t.threads i) ≡ 0) × (is_reading (t.threads i) ≡ 0))
    → (lock t.lc ≡ (WriteRound.got, w_flag)) × (lock_shared t.lc t.lc ≡ (true, 1))
quiet_Frees n s t few f run quiet =
    let v = Run-Inv n s t few (fresh-Inv n s f) run in
    let none_read : readers n t ≡ 0 = total-zero is_reading t.threads n (λ i. (quiet i).1) in
    let unset : v.flag ≡ 0 = elim (ℕ_discrete v.flag 0) [
      | yes z ↦ z
      | no nz ↦ let (i, h) = v.owned (omega (arith, v.flag_le, nz)) in omega (arith, (quiet i).0, h)
    ] in
    let zero_word : t.lc ≡ 0 = omega (arith, v.word, none_read, unset) in
    (ap lock zero_word ∙ lock-free, unfold lock_shared in rw zero_word refl)
