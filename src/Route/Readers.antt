-- ===== src/Route/Readers.antt =====
-- The receivers' steps: a receiver reads the oldest slot it waits for, and nothing that another
-- receiver does takes a mark, a connection or a start position from it.
use thoth_ipc.Base.{
  ℕ, ◌^◌, ◌<◌, bit_and, ◌≡◌, ◌≢◌, ◌⊎◌, inl, inr, refl, sym, subst, ap, ◌∙◌, List, ℕ_discrete, not64,
  Bool-cases, ◌==◌,
}
use thoth_ipc.Base.Bits.{bit, bit_and-lt}
use thoth_ipc.Route.{Ring, ElemT, ep_mask, ring_size, ring_slot, set_rc, release_slot}
use thoth_ipc.Route.Words.{epoch_of_clear, bit-clear}
use thoth_ipc.Route.Run.{IsRing, IsReader, IsMarked, Sys, Waits}
use thoth_ipc.Route.Frame.{
  ring_slot-set_rc_self, ring_slot-set_rc_ne, set_rc-IsRing, set_rc-IsReader, IsMarked-same, Keeps,
  Waits-Keeps,
}

abbrev cleared : Ring → ℕ → ℕ → Ring
cleared ring conn_id idx = set_rc ring idx (bit_and (ring_slot ring idx).rc_ (not64 conn_id))

release_cases :
    (ring : Ring) (conn_id idx : ℕ)
    → (release_slot ring conn_id idx ≡ ring)
      ⊎ (release_slot ring conn_id idx ≡ cleared ring conn_id idx)
unfolding release_slot
release_cases ring conn_id idx = elim (Bool-cases (bit_and (ring_slot ring idx).rc_ ep_mask == 0)) [
  | inl e ↦ inl (rw e refl)
  | inr e ↦ inr (rw e refl)
]

pub release-IsRing :
    (ring : Ring) (conn_id idx : ℕ)
    → IsRing ring
    → idx < ring_size
    → IsRing (release_slot ring conn_id idx)
release-IsRing ring conn_id idx ok hi = elim (release_cases ring conn_id idx) [
  | inl e ↦ rw e ok
  | inr e ↦ rw e (
      set_rc-IsRing ring idx (bit_and (ring_slot ring idx).rc_ (not64 conn_id)) ok hi
        (bit_and-lt 64 (ring_slot ring idx).rc_ (not64 conn_id) (ok.rc_lt idx)))
]

pub release-IsReader :
    (ring : Ring) (i since conn_id idx : ℕ)
    → IsReader i since ring
    → IsReader i since (release_slot ring conn_id idx)
release-IsReader ring i since conn_id idx r = elim (release_cases ring conn_id idx) [
  | inl e ↦ rw e r
  | inr e ↦
      rw e (set_rc-IsReader ring i since idx (bit_and (ring_slot ring idx).rc_ (not64 conn_id)) r)
]

pub release-cursor :
    (ring : Ring) (conn_id idx : ℕ)
    → (release_slot ring conn_id idx).write_cursor ≡ ring.write_cursor
release-cursor ring conn_id idx = elim (release_cases ring conn_id idx) [
  | inl e ↦ rw e refl
  | inr e ↦ rw e refl
]

-- A release of another slot keeps this one.
pub release-Keeps_ne :
    (ring : Ring) (i conn_id : ℕ) {idx j : ℕ}
    → idx ≢ j
    → Keeps i j ring (release_slot ring conn_id idx)
release-Keeps_ne ring i conn_id {idx = idx} {j = j} ne m = elim (release_cases ring conn_id idx) [
  | inl e ↦ rw e (m, refl)
  | inr e ↦
      let rc = bit_and (ring_slot ring idx).rc_ (not64 conn_id) in
      let same = ring_slot-set_rc_ne ring rc ne in
      rw e (
        IsMarked-same ring (set_rc ring idx rc) i j refl (ap (λ (x : ElemT). x.rc_) same) m,
        ap (λ (x : ElemT). x.data_) same,
      )
]

-- A release by another receiver keeps every slot.
release-Keeps :
    (ring : Ring) (i conn_id idx j : ℕ)
    → i < 32
    → IsRing ring
    → conn_id < 2 ^ 32
    → bit i conn_id ≡ 0
    → idx < ring_size
    → Keeps i j ring (release_slot ring conn_id idx)
release-Keeps ring i conn_id idx j hi ok hc other hx = elim (ℕ_discrete idx j) [
  | no ne ↦ release-Keeps_ne ring i conn_id ne
  | yes same ↦ λ m0. elim (release_cases ring conn_id idx) [
    | inl e ↦ rw e (m0, refl)
    | inr e ↦
        let m : IsMarked i idx ring = subst (λ j. IsMarked i j ring) (sym same) m0 in
        let old = (ring_slot ring idx).rc_ in
        let self = ring_slot-set_rc_self ring idx (bit_and old (not64 conn_id)) ok.size hx in
        rw (e, sym same, self)
          (
            record {
              marked = rw self (bit-clear old conn_id i hc hi other ∙ m.marked);
              current = rw self (epoch_of_clear old conn_id ring.epoch (ok.rc_lt idx) hc m.current);
            },
            refl,
          )
  ]
]

pub other_release-Waits :
    (s : Sys) (i since conn_id idx : ℕ) (pending : List (List ℕ))
    → i < 32
    → Waits i since s pending
    → conn_id < 2 ^ 32
    → bit i conn_id ≡ 0
    → idx < ring_size
    → Waits i since (record s { ring = release_slot s.ring conn_id idx }) pending
other_release-Waits s i since conn_id idx pending hi w hc other hx =
    Waits-Keeps s (release_slot s.ring conn_id idx) i since pending w
      (release-IsRing s.ring conn_id idx w.ring_ok hx)
      (release-IsReader s.ring i since conn_id idx w.reader) (release-cursor s.ring conn_id idx)
      (λ j hj. release-Keeps s.ring i conn_id idx j hi w.ring_ok hc other hx)
