-- ===== src/SyncAbi/Safety.antt =====
-- The steps of the openers of a stamp.
use thoth_ipc.Base.{
  ℕ, ◌≡◌, ◌≢◌, refl, sym, ap, subst, ◌∙◌, arith, Bool, true, false, ◌==◌, if◌then◌else◌, update,
  update-elim, update_unique,
}
use thoth_ipc.SyncAbi.{
  SyncAbiStamp, SyncAbiExpected, Store, Outcome, Place, sync_abi_magic, sync_abi_init_in_progress,
  actual, validate, store, init_or_validate,
}
use thoth_ipc.SyncAbi.Run.{Sys, Step, Run, IsFresh, Fits, Inv, is_storing}

-- Expectations with the same five fields are the same.
expected_ext :
    (a b : SyncAbiExpected)
    → a.abi_version_major ≡ b.abi_version_major
    → a.abi_version_minor ≡ b.abi_version_minor
    → a.backend_id ≡ b.backend_id
    → a.primitive_kind ≡ b.primitive_kind
    → a.payload_size ≡ b.payload_size
    → a ≡ b
expected_ext a b h1 h2 h3 h4 h5 i = record {
  abi_version_major = h1 i;
  abi_version_minor = h2 i;
  backend_id = h3 i;
  primitive_kind = h4 i;
  payload_size = h5 i;
}

pub validate_sound :
    (stamp : SyncAbiStamp) (e : SyncAbiExpected) → validate stamp e ≡ true → actual stamp ≡ e
unfolding validate
validate_sound stamp e h =
    expected_ext (actual stamp) e (ground (arith, h)) (ground (arith, h)) (ground (arith, h))
      (ground (arith, h)) (ground (arith, h))

pub validate_complete : (stamp : SyncAbiStamp) → validate stamp (actual stamp) ≡ true
unfolding validate
validate_complete stamp = ground arith

-- What an access of an opener does: it leaves the stamp and does not begin to store; it claims a
-- fresh stamp; or it makes its next store.
pub data Access (e : SyncAbiExpected) (stamp : SyncAbiStamp)
    : Place → Place → SyncAbiStamp → Type 0 where
  looks : (old new : Place) → is_storing new ≡ 0 → Fits e stamp new → Access e stamp old new stamp
  claims :
      (old : Place)
      → stamp.magic ≡ 0
      → Access e stamp old
          (Place.storing Store.major)
          (record stamp { magic = sync_abi_init_in_progress })
  stores : (f : Store) → Access e stamp (Place.storing f) (store f e stamp).0 (store f e stamp).1

abbrev AccessTo : SyncAbiExpected → SyncAbiStamp → Place → Place × SyncAbiStamp → Type 0
AccessTo e stamp old next = Access e stamp old next.0 next.1

reading-Access :
    (e : SyncAbiExpected) (late : Bool) (stamp : SyncAbiStamp)
    → AccessTo e stamp Place.reading (init_or_validate e late Place.reading stamp)
unfolding init_or_validate
reading-Access e late stamp =
    go (stamp.magic == sync_abi_magic) (stamp.magic == sync_abi_init_in_progress) (stamp.magic == 0)
      (validate stamp e) late (λ h. ground (arith, h)) (validate_sound stamp e)
  where
    go :
        (stamped busy zero_magic valid late : Bool)
        → (stamped ≡ true → stamp.magic ≡ sync_abi_magic)
        → (valid ≡ true → actual stamp ≡ e)
        → AccessTo e stamp Place.reading (
            if stamped
            then (Place.finished (if valid then Outcome.ok else Outcome.invalid_data), stamp)
            else if busy
            then (if late then Place.finished Outcome.timed_out else Place.reading, stamp)
            else if zero_magic
            then (Place.saw_zero, stamp)
            else (Place.finished Outcome.invalid_data, stamp))
    go true b z true l hm hv =
        Access.looks Place.reading (Place.finished Outcome.ok) refl (hm refl, hv refl)
    go true b z false l hm hv =
        Access.looks Place.reading (Place.finished Outcome.invalid_data) refl tt
    go false true z v true hm hv =
        Access.looks Place.reading (Place.finished Outcome.timed_out) refl tt
    go false true z v false hm hv = Access.looks Place.reading Place.reading refl tt
    go false false true v l hm hv = Access.looks Place.reading Place.saw_zero refl tt
    go false false false v l hm hv =
        Access.looks Place.reading (Place.finished Outcome.invalid_data) refl tt

saw_zero-Access :
    (e : SyncAbiExpected) (late : Bool) (stamp : SyncAbiStamp)
    → AccessTo e stamp Place.saw_zero (init_or_validate e late Place.saw_zero stamp)
unfolding init_or_validate
saw_zero-Access e late stamp = go (stamp.magic == 0) (λ h. ground (arith, h))
  where
    go :
        (free : Bool)
        → (free ≡ true → stamp.magic ≡ 0)
        → AccessTo e stamp Place.saw_zero (
            if free
            then (Place.storing Store.major, record stamp { magic = sync_abi_init_in_progress })
            else (Place.reading, stamp))
    go true h = Access.claims Place.saw_zero (h refl)
    go false h = Access.looks Place.saw_zero Place.reading refl tt

finished-Access :
    (e : SyncAbiExpected) (stamp : SyncAbiStamp) (o : Outcome)
    → Fits e stamp (Place.finished o)
    → AccessTo e stamp (Place.finished o) (Place.finished o, stamp)
finished-Access e stamp o f = Access.looks (Place.finished o) (Place.finished o) refl f

any-Access :
    (e : SyncAbiExpected) (late : Bool) (old : Place) (stamp : SyncAbiStamp)
    → Fits e stamp old
    → AccessTo e stamp old (init_or_validate e late old stamp)
any-Access e late Place.reading stamp f = reading-Access e late stamp
any-Access e late Place.saw_zero stamp f = saw_zero-Access e late stamp
any-Access e late (Place.storing w) stamp f = unfold init_or_validate in Access.stores w
any-Access e late (Place.finished o) stamp f =
    unfold init_or_validate in finished-Access e stamp o f

-- A place that is not before a store fits another stamp, unless it has succeeded on this one.
still-Fits :
    (e : SyncAbiExpected) (stamp stamp' : SyncAbiStamp) (p : Place)
    → stamp.magic ≢ sync_abi_magic
    → (is_storing p ≡ 1 → ⊥)
    → Fits e stamp p
    → Fits e stamp' p
still-Fits e stamp stamp' Place.reading ne un f = tt
still-Fits e stamp stamp' Place.saw_zero ne un f = tt
still-Fits e stamp stamp' (Place.storing w) ne un f = absurd (un refl)
still-Fits e stamp stamp' (Place.finished Outcome.ok) ne un f = absurd (ne f.0)
still-Fits e stamp stamp' (Place.finished Outcome.timed_out) ne un f = tt
still-Fits e stamp stamp' (Place.finished Outcome.invalid_data) ne un f = tt

-- Each store keeps what the next place says.
store-Fits :
    (w : Store) (e : SyncAbiExpected) (stamp : SyncAbiStamp)
    → Fits e stamp (Place.storing w)
    → Fits e (store w e stamp).1 (store w e stamp).0
store-Fits Store.major e stamp (m, _) = (m, refl)
store-Fits Store.minor e stamp (m, a) = (m, (a, refl))
store-Fits Store.backend e stamp (m, (a, b)) = (m, (a, b, refl))
store-Fits Store.kind e stamp (m, (a, b, c)) = (m, (a, b, c, refl))
store-Fits Store.payload e stamp (m, (a, b, c, d)) =
    (m, expected_ext (actual (record stamp { payload_size = e.payload_size })) e a b c d refl)
store-Fits Store.publish e stamp (m, a) = (refl, a)

-- who stores: nobody where the magic is 0 or the stamp is finished
storing-magic :
    (e : SyncAbiExpected) (stamp : SyncAbiStamp) (p : Place)
    → Fits e stamp p
    → is_storing p ≡ 1
    → stamp.magic ≡ sync_abi_init_in_progress
storing-magic e stamp Place.reading f h = absurd (omega (arith, h))
storing-magic e stamp Place.saw_zero f h = absurd (omega (arith, h))
storing-magic e stamp (Place.storing w) f h = f.0
storing-magic e stamp (Place.finished o) f h = absurd (omega (arith, h))

module _ (expect : ℕ → SyncAbiExpected) (s : Sys) (v : Inv expect s) (k : ℕ) where
  -- Opener `k` makes an access.
  Access-Inv :
      (old place : Place) (stamp : SyncAbiStamp)
      → s.places k ≡ old
      → Access (expect k) s.stamp old place stamp
      → Inv expect (record { stamp = stamp; places = update s.places k place })
  Access-Inv _ _ _ at (Access.looks old new un f) = record {
    fits = update-elim (λ l. Fits (expect l) s.stamp) s.places k new f (λ l ne. v.fits l);
    alone =
        update_unique (λ p. is_storing p ≡ 1) s.places k new (λ l ne h g. omega (arith, un, h))
          v.alone;
  }
  Access-Inv _ _ _ at (Access.claims old z) =
      let others : (l : ℕ) → is_storing (s.places l) ≡ 1 → ⊥ =
        (λ l h. omega (arith, z, storing-magic (expect l) s.stamp (s.places l) (v.fits l) h)) in
      let claimed = record s.stamp { magic = sync_abi_init_in_progress } in
      record {
        fits =
            update-elim (λ l. Fits (expect l) claimed) s.places k (Place.storing Store.major)
              (refl, tt)
              (λ l ne.
                still-Fits (expect l) s.stamp claimed (s.places l) (λ h. omega (arith, z, h))
                  (others l) (v.fits l));
        alone =
            update_unique (λ p. is_storing p ≡ 1) s.places k (Place.storing Store.major)
              (λ l ne h g. others l g) v.alone;
      }
  Access-Inv _ _ _ at (Access.stores w) =
      let f : Fits (expect k) s.stamp (Place.storing w) =
        subst (Fits (expect k) s.stamp) at (v.fits k) in
      let mine : is_storing (s.places k) ≡ 1 = ap is_storing at in
      let next = store w (expect k) s.stamp in
      record {
        fits =
            update-elim (λ l. Fits (expect l) next.1) s.places k next.0
              (store-Fits w (expect k) s.stamp f)
              (λ l ne.
                still-Fits (expect l) s.stamp next.1 (s.places l) (λ h. omega (arith, h, f.0))
                  (λ h. ne (v.alone k l mine h)) (v.fits l));
        alone =
            update_unique (λ p. is_storing p ≡ 1) s.places k next.0
              (λ l ne h g. ne (v.alone k l mine g)) v.alone;
      }

Step-Inv :
    (expect : ℕ → SyncAbiExpected) (s t : Sys) → Inv expect s → Step expect s t → Inv expect t
Step-Inv expect _ _ v (Step.access s k late place stamp e) =
    Access-Inv expect s v k (s.places k) place stamp refl (
      subst (AccessTo (expect k) s.stamp (s.places k)) e
        (any-Access (expect k) late (s.places k) s.stamp (v.fits k)))

Run-Inv : (expect : ℕ → SyncAbiExpected) (s t : Sys) → Inv expect s → Run expect s t → Inv expect t
Run-Inv expect _ _ v (Run.done s) = v
Run-Inv expect _ _ v (Run.next s t u run step) = Step-Inv expect t u (Run-Inv expect s t v run) step

IsFresh-Inv : (expect : ℕ → SyncAbiExpected) (s : Sys) → IsFresh s → Inv expect s
IsFresh-Inv expect s f = record {
  fits = λ k. subst (Fits (expect k) s.stamp) (sym (f.all_reading k)) tt;
  alone = λ k l h g. absurd (omega (arith, ap is_storing (f.all_reading k), h));
}

-- Any number of openers, each with its own expectations, make their accesses to a fresh stamp in
-- any order. Any two that come back with success expect the same five fields, and the stamp is
-- finished with these.
pub Run-Agrees :
    (expect : ℕ → SyncAbiExpected) (s t : Sys)
    → IsFresh s
    → Run expect s t
    → (k l : ℕ) → t.places k ≡ Place.finished Outcome.ok
    → t.places l ≡ Place.finished Outcome.ok
    → (expect k ≡ expect l) × (actual t.stamp ≡ expect k) × (t.stamp.magic ≡ sync_abi_magic)
Run-Agrees expect s t f run k l hk hl =
    let v = Run-Inv expect s t (IsFresh-Inv expect s f) run in
    let (m, ek) = subst (Fits (expect k) t.stamp) hk (v.fits k) in
    let (_, el) = subst (Fits (expect l) t.stamp) hl (v.fits l) in (sym ek ∙ el, ek, m)

-- An access leaves a stamp that is finished.
sealed-Access :
    (e : SyncAbiExpected) (stamp stamp' : SyncAbiStamp) (old new : Place)
    → stamp.magic ≡ sync_abi_magic
    → Fits e stamp old
    → Access e stamp old new stamp'
    → stamp' ≡ stamp
sealed-Access e stamp _ _ _ m f (Access.looks old new un g) = refl
sealed-Access e stamp _ _ _ m f (Access.claims old z) = absurd (omega (arith, m, z))
sealed-Access e stamp _ _ _ m f (Access.stores w) = absurd (omega (arith, m, f.0))

Step-Seals :
    (expect : ℕ → SyncAbiExpected) (s t : Sys)
    → Inv expect s
    → s.stamp.magic ≡ sync_abi_magic
    → Step expect s t
    → t.stamp ≡ s.stamp
Step-Seals expect _ _ v m (Step.access s k late place stamp e) =
    sealed-Access (expect k) s.stamp stamp (s.places k) place m (v.fits k) (
      subst (AccessTo (expect k) s.stamp (s.places k)) e
        (any-Access (expect k) late (s.places k) s.stamp (v.fits k)))

Run-Stays :
    (expect : ℕ → SyncAbiExpected) (t u : Sys)
    → Inv expect t
    → t.stamp.magic ≡ sync_abi_magic
    → Run expect t u
    → u.stamp ≡ t.stamp
Run-Stays expect _ _ v m (Run.done s) = refl
Run-Stays expect _ _ v m (Run.next s t u run step) =
    let same = Run-Stays expect s t v m run in
    Step-Seals expect t u (Run-Inv expect s t v run) (ap (λ (x : SyncAbiStamp). x.magic) same ∙ m)
      step
    ∙ same

-- In such a run, once the magic of the finished stamp is written, no later access changes the
-- stamp.
pub Run-Seals :
    (expect : ℕ → SyncAbiExpected) (s t u : Sys)
    → IsFresh s
    → Run expect s t
    → t.stamp.magic ≡ sync_abi_magic
    → Run expect t u
    → u.stamp ≡ t.stamp
Run-Seals expect s t u f run m later =
    Run-Stays expect t u (Run-Inv expect s t (IsFresh-Inv expect s f) run) m later
