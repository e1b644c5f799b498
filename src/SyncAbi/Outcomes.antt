-- ===== src/SyncAbi/Outcomes.antt =====
-- What an opener that is not disturbed comes back with.
use thoth_ipc.Base.{
  ℕ, zero, suc, ◌≡◌, ◌≢◌, ◌⊎◌, inl, inr, refl, subst, Bool, true, false, ◌==◌, ==_ne, ==_self,
  ℕ_discrete, Bool-cases,
}
use thoth_ipc.SyncAbi.{
  SyncAbiStamp, SyncAbiExpected, Outcome, Place, sync_abi_magic, sync_abi_init_in_progress, actual,
  validate, init_or_validate,
}
use thoth_ipc.SyncAbi.Safety.{validate_sound, validate_complete}

-- `n` accesses of an opener, with nobody else at the stamp and the deadline far off
unfoldable pub accesses : ℕ → SyncAbiExpected → Place → SyncAbiStamp → Place × SyncAbiStamp
accesses zero e place stamp = (place, stamp)
accesses (suc n) e place stamp =
    let next = init_or_validate e false place stamp in accesses n e next.0 next.1

abbrev pub finished_stamp : SyncAbiExpected → SyncAbiStamp
finished_stamp e = record {
  magic = sync_abi_magic;
  abi_version_major = e.abi_version_major;
  abi_version_minor = e.abi_version_minor;
  backend_id = e.backend_id;
  primitive_kind = e.primitive_kind;
  payload_size = e.payload_size;
}

-- An opener that is alone at a stamp with magic 0 succeeds with its eighth access, and leaves the
-- finished stamp of what it expects.
pub first-Writes :
    (e : SyncAbiExpected) (stamp : SyncAbiStamp)
    → stamp.magic ≡ 0
    → accesses 8 e Place.reading stamp ≡ (Place.finished Outcome.ok, finished_stamp e)
unfolding accesses init_or_validate
first-Writes e stamp z = rw z refl

-- An opener that finds neither magic 0 nor a stamp that is being written decides at once and
-- changes nothing: it succeeds where the magic and all five fields are as it expects, and otherwise
-- reports invalid data.
pub reading-Decides :
    (e : SyncAbiExpected) (late : Bool) (stamp : SyncAbiStamp)
    → stamp.magic ≢ 0
    → stamp.magic ≢ sync_abi_init_in_progress
    → ((init_or_validate e late Place.reading stamp ≡ (Place.finished Outcome.ok, stamp))
        × (stamp.magic ≡ sync_abi_magic)
        × (actual stamp ≡ e))
      ⊎ ((init_or_validate e late Place.reading stamp
            ≡ (Place.finished Outcome.invalid_data, stamp))
          × (stamp.magic ≡ sync_abi_magic → actual stamp ≢ e))
unfolding init_or_validate
reading-Decides e late stamp nz nb = elim (ℕ_discrete stamp.magic sync_abi_magic) [
  | yes m ↦
      let is_magic : (stamp.magic == sync_abi_magic) ≡ true = rw m (==_self sync_abi_magic) in
      elim (Bool-cases (validate stamp e)) [
        | inl h ↦ inl (rw (is_magic, h) refl, m, validate_sound stamp e h)
        | inr h ↦ inr (
          rw (is_magic, h) refl,
          λ m' same.
              let t : validate stamp e ≡ true =
                subst (λ x. validate stamp x ≡ true) same (validate_complete stamp) in
              cc,
        )
      ]
  | no nm ↦ inr (
    rw
        (
          ==_ne stamp.magic sync_abi_magic nm,
          ==_ne stamp.magic sync_abi_init_in_progress nb,
          ==_ne stamp.magic 0 nz,
        )
        refl,
    λ m. absurd (nm m),
  )
]
