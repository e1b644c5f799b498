-- ===== src/MultiRing/Marks.antt =====
-- What the receivers' releases, and the release of stale marks, keep for receiver `i`.
use thoth_ipc.Base.{
  ℕ, zero, suc, ◌+◌, ◌-◌, ◌/◌, ◌^◌, ◌≤◌, ◌<◌, bit_and, ◌≡◌, ◌≢◌, refl, sym, ap, ◌∙◌, arith, length,
  Bool, true, false, not, ◌&&◌, not64, ◌==◌, if◌then◌else◌, u8, u32, each_bit, trailing_zeros,
}
use thoth_ipc.Base.Bits.{bit, bit-zero}
use thoth_ipc.Base.LowBit.{bit-pow_ne, bit-trailing_zeros, bit_and-neg, bit-drop_lowest_ne}
use thoth_ipc.Base.Bits.{bit_and-le}
use thoth_ipc.Base.EachBit.{each_bit-elim}
use thoth_ipc.Liveness.{at_or_after}
use thoth_ipc.Route.{ring_size}
use thoth_ipc.MultiRing.{
  ChannelRing, ChannelElemT, rc_mask, channel_slot, set_slot, release_mark, release_stale_at,
  release_stale_from, release_stale, release_multi, free_flag, clear_mark,
}
use thoth_ipc.MultiRing.Words.{bit-marks}
use thoth_ipc.MultiRing.Frame.{Keeps, Keeps-refl, Keeps-trans, set_slot-Keeps, clear_mark-Keeps}

-- Slot `ring_size` is none, so every slot is kept.
module _ (i id : ℕ) (hi : i < 32) (hid : id < 2 ^ 32) (off : bit i id ≡ 0) where
  pub release_mark-Keeps :
      (ring : ChannelRing) (idx pos : ℕ)
      → length ring.slots ≡ ring_size
      → idx < ring_size
      → pos < 2 ^ 32
      → Keeps i ring_size ring (release_mark ring idx pos id)
  unfolding release_mark
  release_mark-Keeps ring idx pos size hx hp =
      let slot = channel_slot ring idx in
      go (not (bit_and slot.rc_ id == 0) && (slot.f_ct_ == not64 pos)) (
        clear_mark-Keeps i ring_size idx id (pos + ring_size) hi hid (omega arith) ring size hx
          (λ ne. off))
    where
      go :
          (b : Bool) {cleared : ChannelRing}
          → Keeps i ring_size ring cleared
          → Keeps i ring_size ring (if b then cleared else ring)
      go true k = k
      go false k = Keeps-refl i ring_size ring

  release_stale_at-Keeps :
      (ring : ChannelRing) (since idx : ℕ)
      → length ring.slots ≡ ring_size
      → idx < ring_size
      → Keeps i ring_size ring (release_stale_at ring since id idx)
  unfolding release_stale_at
  release_stale_at-Keeps ring since idx size hx =
      let fl = (channel_slot ring idx).f_ct_ in
      go (not (fl / 2 ^ 32 == 0xffffffff)) (at_or_after (u32 (not64 fl)) since)
        (release_mark-Keeps ring idx (u32 (not64 fl)) size hx (omega arith))
    where
      go :
          (b c : Bool) {released : ChannelRing}
          → Keeps i ring_size ring released
          → Keeps i ring_size ring (if b then ring else if c then ring else released)
      go true c k = Keeps-refl i ring_size ring
      go false true k = Keeps-refl i ring_size ring
      go false false k = k

  release_stale_from-Keeps :
      (n idx : ℕ) (ring : ChannelRing) (since : ℕ)
      → length ring.slots ≡ ring_size
      → idx + n ≤ ring_size
      → Keeps i ring_size ring (release_stale_from n idx ring since id)
  unfolding release_stale_from
  release_stale_from-Keeps zero idx ring since size h = Keeps-refl i ring_size ring
  release_stale_from-Keeps (suc n) idx ring since size h =
      let here = release_stale_at ring since id idx in
      let k = release_stale_at-Keeps ring since idx size (omega arith) in
      Keeps-trans i ring_size ring here (release_stale_from n (suc idx) here since id) k
        (release_stale_from-Keeps n (suc idx) here since (k.same_size ∙ size) (omega arith))

  pub release_stale-Keeps :
      (ring : ChannelRing) (since : ℕ)
      → length ring.slots ≡ ring_size
      → Keeps i ring_size ring (release_stale ring since id)
  unfolding release_stale
  release_stale-Keeps ring since size =
      release_stale_from-Keeps ring_size 0 ring since size (omega arith)

-- A receiver's release keeps every slot for the others, and for itself every other slot.
pub release_multi-Keeps :
    (i skip : ℕ) (ring : ChannelRing) (conn_id cur : ℕ)
    → i < 32
    → conn_id < 2 ^ 32
    → length ring.slots ≡ ring_size
    → (u8 cur ≢ skip → bit i conn_id ≡ 0)
    → Keeps i skip ring (release_multi ring conn_id cur)
unfolding release_multi free_flag
release_multi-Keeps i skip ring conn_id cur hi hid size off =
    go (bit_and (channel_slot ring (u8 cur)).rc_ rc_mask == 0) refl
  where
    slot : ChannelElemT
    slot = channel_slot ring (u8 cur)

    go :
        (b : Bool)
        → (bit_and slot.rc_ rc_mask == 0) ≡ b
        → Keeps i skip ring (
            if b
            then set_slot ring (u8 cur) (record slot { f_ct_ = free_flag cur })
            else clear_mark ring (u8 cur) conn_id (free_flag cur))
    go true e = set_slot-Keeps i skip ring (u8 cur) _ size (omega arith) (record {
      same_data = refl;
      rc_lt = λ h. h;
      mark = λ kept lt m.
          let none_left : bit_and slot.rc_ rc_mask ≡ 0 = ground (arith, e) in
          absurd
            (omega (arith, sym (bit-marks slot.rc_ i hi) ∙ ap (bit i) none_left ∙ bit-zero i, m));
      flag = λ pos h f. absurd (omega arith);
    })
    go false e =
        clear_mark-Keeps i skip (u8 cur) conn_id (free_flag cur) hi hid (omega arith) ring size
          (omega arith) off

-- The release of the marks `stale` that a commit finds dead
pub release_each-Keeps :
    (i : ℕ) (ring : ChannelRing) (idx pos stale : ℕ)
    → i < 32
    → length ring.slots ≡ ring_size
    → idx < ring_size
    → pos < 2 ^ 32
    → stale < 2 ^ 32
    → bit i stale ≡ 0
    → Keeps i ring_size ring (each_bit 32 (λ bit r. release_mark r idx pos bit) stale ring)
release_each-Keeps i ring idx pos stale hi size hx hp hs off =
    (each_bit-elim (λ m r. (bit i m ≡ 0) × Keeps i ring_size ring r)
      (λ bit r. release_mark r idx pos bit) round 32 0 stale ring (omega arith) hs
      (λ j hj. absurd (omega arith)) (off, Keeps-refl i ring_size ring)).1
  where
    round :
        (m : ℕ) (r : ChannelRing)
        → 0 < m
        → m < 2 ^ 32
        → (bit i m ≡ 0) × Keeps i ring_size ring r
        → (bit i (bit_and m (m - 1)) ≡ 0)
          × Keeps i ring_size ring (release_mark r idx pos (2 ^ trailing_zeros 32 m))
    round m r hm lt (z, k) =
        let t = trailing_zeros 32 m in
        let ne : i ≢ t =
          (λ e. omega (arith, z, bit-trailing_zeros 32 m hm lt, ap (λ j. bit j m) e)) in
        let small : 2 ^ t < 2 ^ 32 =
          omega (arith, bit_and-neg 32 m hm lt, bit_and-le m (2 ^ 32 - m)) in
        (
          bit-drop_lowest_ne 32 m i hm lt ne ∙ z,
          Keeps-trans i ring_size ring r (release_mark r idx pos (2 ^ t)) k (
              release_mark-Keeps i (2 ^ t) hi small (bit-pow_ne i t ne) r idx pos
                (k.same_size ∙ size) hx hp),
        )
