-- ===== src/SyncAbi/Run.antt =====
-- Any number of openers of one stamp, whose accesses interleave in any order.
use thoth_ipc.Base.{ℕ, ◌≡◌, Bool, update}
use thoth_ipc.SyncAbi.{
  SyncAbiStamp, SyncAbiExpected, Store, Outcome, Place, sync_abi_magic, sync_abi_init_in_progress,
  actual, init_or_validate,
}

pub record Sys : Type 0 where
  pub stamp : SyncAbiStamp
  pub places : ℕ → Place

-- `expect k` is what the build of opener `k` expects.
pub data Step (expect : ℕ → SyncAbiExpected) : Sys → Sys → Type 0 where
  access :
      (s : Sys) (k : ℕ) (late : Bool) (place : Place) (stamp : SyncAbiStamp)
      → init_or_validate (expect k) late (s.places k) s.stamp ≡ (place, stamp)
      → Step expect s (record { stamp = stamp; places = update s.places k place })

pub data Run (expect : ℕ → SyncAbiExpected) : Sys → Sys → Type 0 where
  done : (s : Sys) → Run expect s s
  next : (s t u : Sys) → Run expect s t → Step expect t u → Run expect s u

-- The stamp is fresh memory, and nobody has begun.
pub record IsFresh (s : Sys) : Type 0 where
  pub zero_magic : s.stamp.magic ≡ 0
  pub all_reading : (k : ℕ) → s.places k ≡ Place.reading

-- The stores before `f` are made.
abbrev pub Stored : Store → SyncAbiExpected → SyncAbiStamp → Type 0
Stored Store.major e stamp = Unit
Stored Store.minor e stamp = stamp.abi_version_major ≡ e.abi_version_major
Stored Store.backend e stamp =
    (stamp.abi_version_major ≡ e.abi_version_major)
    × (stamp.abi_version_minor ≡ e.abi_version_minor)
Stored Store.kind e stamp =
    (stamp.abi_version_major ≡ e.abi_version_major)
    × (stamp.abi_version_minor ≡ e.abi_version_minor)
    × (stamp.backend_id ≡ e.backend_id)
Stored Store.payload e stamp =
    (stamp.abi_version_major ≡ e.abi_version_major)
    × (stamp.abi_version_minor ≡ e.abi_version_minor)
    × (stamp.backend_id ≡ e.backend_id)
    × (stamp.primitive_kind ≡ e.primitive_kind)
Stored Store.publish e stamp = actual stamp ≡ e

-- What the place of an opener says of the stamp
abbrev pub Fits : SyncAbiExpected → SyncAbiStamp → Place → Type 0
Fits e stamp (Place.storing f) = (stamp.magic ≡ sync_abi_init_in_progress) × Stored f e stamp
Fits e stamp (Place.finished Outcome.ok) = (stamp.magic ≡ sync_abi_magic) × (actual stamp ≡ e)
Fits e stamp _ = Unit

-- An opener that is about to store
abbrev pub is_storing : Place → ℕ
is_storing (Place.storing f) = 1
is_storing _ = 0

pub record Inv (expect : ℕ → SyncAbiExpected) (s : Sys) : Type 0 where
  pub fits : (k : ℕ) → Fits (expect k) s.stamp (s.places k)
  pub alone : (k l : ℕ) → is_storing (s.places k) ≡ 1 → is_storing (s.places l) ≡ 1 → k ≡ l
