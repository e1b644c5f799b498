-- ===== src/SyncAbi/Tests.antt =====
-- Openers of a stamp at concrete builds, and the theorems there.
use thoth_ipc.Base.{ℕ, ◌≡◌, ◌≢◌, ◌⊎◌, refl, ap, arith, true, false, ◌∙◌, update, update_self}
use thoth_ipc.SyncAbi.{
  SyncAbiStamp, SyncAbiExpected, PrimitiveKind, Store, Outcome, Place, sync_abi_magic,
  sync_abi_init_in_progress, actual, validate, store, init_or_validate, expected_for,
}
use thoth_ipc.SyncAbi.Run.{Sys, Step, Run, IsFresh}
use thoth_ipc.SyncAbi.Safety.{Run-Agrees, Run-Seals}
use thoth_ipc.SyncAbi.Outcomes.{finished_stamp, reading-Decides}

abbrev empty_stamp : SyncAbiStamp
empty_stamp = record {
  magic = 0;
  abi_version_major = 0;
  abi_version_minor = 0;
  backend_id = 0;
  primitive_kind = 0;
  payload_size = 0;
}

abbrev mutexes : ℕ → SyncAbiExpected
mutexes k = expected_for PrimitiveKind.mutex

abbrev start : Sys
start = record { stamp = empty_stamp; places = λ k. Place.reading }

-- Opener 3 makes its next access.
abbrev after : Sys → Place → SyncAbiStamp → Sys
after s place stamp = record { stamp = stamp; places = update s.places 3 place }

one_access :
    (s : Sys) (old place : Place) (stamp : SyncAbiStamp)
    → Run mutexes start s
    → s.places 3 ≡ old
    → init_or_validate (mutexes 3) false old s.stamp ≡ (place, stamp)
    → Run mutexes start (after s place stamp)
one_access s old place stamp run at h = Run.next start s (after s place stamp) run (
    Step.access s 3 false place stamp
      (ap (λ p. init_or_validate (mutexes 3) false p s.stamp) at ∙ h))

abbrev claimed : Sys
claimed = after start Place.saw_zero empty_stamp

abbrev won : Sys
won =
    after claimed (Place.storing Store.major)
      (record empty_stamp { magic = sync_abi_init_in_progress })

abbrev stored : Sys → Store → Sys
stored s f = let next = store f (mutexes 3) s.stamp in after s next.0 next.1

stored-Run :
    (s : Sys) (f : Store)
    → Run mutexes start s
    → s.places 3 ≡ Place.storing f
    → Run mutexes start (stored s f)
unfolding init_or_validate
stored-Run s f run at =
    let next = store f (mutexes 3) s.stamp in
    one_access s (Place.storing f) next.0 next.1 run at refl

to_won : Run mutexes start won
unfolding init_or_validate
to_won =
    one_access claimed Place.saw_zero (Place.storing Store.major)
      (record empty_stamp { magic = sync_abi_init_in_progress })
      (one_access start Place.reading Place.saw_zero empty_stamp (Run.done start) refl refl)
      (update_self start.places 3 Place.saw_zero) refl

-- After five stores and after the last
abbrev five : Sys
five =
    stored (stored (stored (stored (stored won Store.major) Store.minor) Store.backend) Store.kind)
      Store.payload

abbrev published : Sys
published = stored five Store.publish

stored_place : (s : Sys) (f : Store) → (stored s f).places 3 ≡ (store f (mutexes 3) s.stamp).0
stored_place s f = update_self s.places 3 (store f (mutexes 3) s.stamp).0

to_five : Run mutexes start five
to_five =
    let s0 = won in
    let s1 = stored s0 Store.major in
    let s2 = stored s1 Store.minor in
    let s3 = stored s2 Store.backend in
    let s4 = stored s3 Store.kind in
    stored-Run s4 Store.payload
      (stored-Run s3 Store.kind
        (stored-Run s2 Store.backend
          (stored-Run s1 Store.minor
            (stored-Run s0 Store.major to_won
              (update_self claimed.places 3 (Place.storing Store.major)))
            (stored_place s0 Store.major))
          (stored_place s1 Store.minor))
        (stored_place s2 Store.backend))
      (stored_place s3 Store.kind)

to_published : Run mutexes start published
to_published =
    let s4 =
      stored (stored (stored (stored won Store.major) Store.minor) Store.backend) Store.kind in
    stored-Run five Store.publish to_five (stored_place s4 Store.payload)

start-IsFresh : IsFresh start
start-IsFresh = record { zero_magic = refl; all_reading = λ k. refl }

Run-Agrees_example :
    (expected_for PrimitiveKind.mutex ≡ expected_for PrimitiveKind.mutex)
    × (actual published.stamp ≡ expected_for PrimitiveKind.mutex)
    × (published.stamp.magic ≡ sync_abi_magic)
Run-Agrees_example =
    Run-Agrees mutexes start published start-IsFresh to_published 3 3
      (stored_place five Store.publish) (stored_place five Store.publish)

Run-Seals_example : published.stamp ≡ published.stamp
Run-Seals_example =
    Run-Seals mutexes start published published start-IsFresh to_published refl (Run.done published)

-- An opener of a condition variable at the stamp of a mutex
abbrev of_mutex : SyncAbiStamp
of_mutex = finished_stamp (expected_for PrimitiveKind.mutex)

kind_differs :
    init_or_validate (expected_for PrimitiveKind.condition) false Place.reading of_mutex
    ≡ (Place.finished Outcome.invalid_data, of_mutex)
unfolding init_or_validate validate
kind_differs = refl

stalls :
    init_or_validate
      (expected_for PrimitiveKind.mutex)
      true
      Place.reading
      (record of_mutex { magic = sync_abi_init_in_progress })
    ≡ (Place.finished Outcome.timed_out, record of_mutex { magic = sync_abi_init_in_progress })
unfolding init_or_validate
stalls = refl

reading-Decides_example :
    ((init_or_validate (expected_for PrimitiveKind.mutex) false Place.reading of_mutex
        ≡ (Place.finished Outcome.ok, of_mutex))
      × (sync_abi_magic ≡ sync_abi_magic)
      × (actual of_mutex ≡ expected_for PrimitiveKind.mutex))
    ⊎ ((init_or_validate (expected_for PrimitiveKind.mutex) false Place.reading of_mutex
          ≡ (Place.finished Outcome.invalid_data, of_mutex))
        × (sync_abi_magic ≡ sync_abi_magic → actual of_mutex ≢ expected_for PrimitiveKind.mutex))
reading-Decides_example =
    reading-Decides (expected_for PrimitiveKind.mutex) false of_mutex (λ e. omega (arith, e))
      (λ e. omega (arith, e))
