-- ===== src/SyncAbi.antt =====
-- rust/thoth-ipc/src/sync_abi.rs: the stamp beside a mutex or a condition variable, which the first
-- opener writes and every other one compares with its own build. An opener is a machine that makes
-- one access to the shared words in a step; the five loads of `validate` go with the load of the
-- magic before them. The constants are those of the Linux build. `late` says whether the deadline
-- of the wait has passed at that step; the backoff between the rounds is not modelled.
pub mod Run
pub mod Safety
pub mod Outcomes
mod Tests
use thoth_ipc.Base.{ℕ, ◌-◌, ◌^◌, Bool, true, false, ◌&&◌, ◌==◌, if◌then◌else◌}

-- `abi::syncabi_magic`, "LISA"
abbrev pub sync_abi_magic : ℕ
sync_abi_magic = 1279873857

-- `u32::MAX`
abbrev pub sync_abi_init_in_progress : ℕ
sync_abi_init_in_progress = 2 ^ 32 - 1

pub data PrimitiveKind : Type 0 where
  mutex : PrimitiveKind
  condition : PrimitiveKind

abbrev pub id : PrimitiveKind → ℕ
id PrimitiveKind.mutex = 1
id PrimitiveKind.condition = 2

-- `sizeof(a0_mtx_t)` and `sizeof(a0_cnd_t)`
abbrev pub expected_payload_size : PrimitiveKind → ℕ
expected_payload_size PrimitiveKind.mutex = 24
expected_payload_size PrimitiveKind.condition = 4

pub record SyncAbiStamp : Type 0 where
  pub magic : ℕ  -- all are u32
  pub abi_version_major : ℕ
  pub abi_version_minor : ℕ
  pub backend_id : ℕ
  pub primitive_kind : ℕ
  pub payload_size : ℕ

pub record SyncAbiExpected : Type 0 where
  pub abi_version_major : ℕ
  pub abi_version_minor : ℕ
  pub backend_id : ℕ
  pub primitive_kind : ℕ
  pub payload_size : ℕ

abbrev pub expected_for : PrimitiveKind → SyncAbiExpected
expected_for primitive = record {
  abi_version_major = 1;
  abi_version_minor = 0;
  backend_id = 5;
  primitive_kind = id primitive;
  payload_size = expected_payload_size primitive;
}

-- what `validate` loads
abbrev pub actual : SyncAbiStamp → SyncAbiExpected
actual stamp = record {
  abi_version_major = stamp.abi_version_major;
  abi_version_minor = stamp.abi_version_minor;
  backend_id = stamp.backend_id;
  primitive_kind = stamp.primitive_kind;
  payload_size = stamp.payload_size;
}

unfoldable pub validate : SyncAbiStamp → SyncAbiExpected → Bool
validate stamp expected =
    (stamp.abi_version_major == expected.abi_version_major)
    && ((stamp.abi_version_minor == expected.abi_version_minor)
        && ((stamp.backend_id == expected.backend_id)
            && ((stamp.primitive_kind == expected.primitive_kind)
                && (stamp.payload_size == expected.payload_size))))

-- The stores of the opener that writes the stamp, in their order
pub data Store : Type 0 where
  major : Store
  minor : Store
  backend : Store
  kind : Store
  payload : Store
  publish : Store

pub data Outcome : Type 0 where
  ok : Outcome
  timed_out : Outcome
  invalid_data : Outcome

-- Where an opener is: at the top of the loop, before its compare-exchange, before a store, or back
-- with an outcome.
pub data Place : Type 0 where
  reading : Place
  saw_zero : Place
  storing : Store → Place
  finished : Outcome → Place

abbrev pub store : Store → SyncAbiExpected → SyncAbiStamp → Place × SyncAbiStamp
store Store.major expected stamp =
    (Place.storing Store.minor, record stamp { abi_version_major = expected.abi_version_major })
store Store.minor expected stamp =
    (Place.storing Store.backend, record stamp { abi_version_minor = expected.abi_version_minor })
store Store.backend expected stamp =
    (Place.storing Store.kind, record stamp { backend_id = expected.backend_id })
store Store.kind expected stamp =
    (Place.storing Store.payload, record stamp { primitive_kind = expected.primitive_kind })
store Store.payload expected stamp =
    (Place.storing Store.publish, record stamp { payload_size = expected.payload_size })
store Store.publish expected stamp =
    (Place.finished Outcome.ok, record stamp { magic = sync_abi_magic })

-- One access of `init_or_validate_within`
unfoldable pub init_or_validate :
    SyncAbiExpected → Bool → Place → SyncAbiStamp → Place × SyncAbiStamp
init_or_validate expected late Place.reading stamp =
    if stamp.magic == sync_abi_magic
    then (
      Place.finished (if validate stamp expected then Outcome.ok else Outcome.invalid_data),
      stamp,
    )
    else if stamp.magic == sync_abi_init_in_progress
    then (if late then Place.finished Outcome.timed_out else Place.reading, stamp)
    else if stamp.magic == 0
    then (Place.saw_zero, stamp)
    else (Place.finished Outcome.invalid_data, stamp)
init_or_validate expected late Place.saw_zero stamp =
    if stamp.magic == 0
    then (Place.storing Store.major, record stamp { magic = sync_abi_init_in_progress })
    else (Place.reading, stamp)
init_or_validate expected late (Place.storing f) stamp = store f expected stamp
init_or_validate expected late (Place.finished o) stamp = (Place.finished o, stamp)
