-- ===== src/MultiRing/Frame.antt =====
-- What an operation of another party keeps of the slots that receiver `i` has yet to read.
use thoth_ipc.Base.{
  ℕ, ◌^◌, ◌<◌, bit_and, ◌≡◌, ◌≢◌, refl, sym, ap, subst, ◌∙◌, arith, length, length-set, Bool, true,
  false, get_or-set_ne, get_or-set_self, ℕ_discrete, not64, ◌==◌, ==_ne, if◌then◌else◌,
}
use thoth_ipc.Base.Bits.{bit, bit_and-lt, bit-zero}
use thoth_ipc.Route.{ring_size}
use thoth_ipc.MultiRing.{
  ChannelElemT, ChannelRing, unused, ch_ep_mask, rc_mask, inc_rc, channel_slot, set_slot,
  clear_mark,
}
use thoth_ipc.MultiRing.Words.{inc_rc-lt, epoch_of_drop, bit-drop, bit-marks}
use thoth_ipc.MultiRing.Run.{IsRing, IsReader, IsMarked}

pub slot-set_self :
    (ring : ChannelRing) (idx : ℕ) (slot : ChannelElemT)
    → length ring.slots ≡ ring_size
    → idx < ring_size
    → channel_slot (set_slot ring idx slot) idx ≡ slot
slot-set_self ring idx slot e h = get_or-set_self ring.slots idx slot unused (omega arith)

pub slot-set_ne :
    (ring : ChannelRing) {idx j : ℕ} (slot : ChannelElemT)
    → idx ≢ j
    → channel_slot (set_slot ring idx slot) j ≡ channel_slot ring j
slot-set_ne ring slot ne = get_or-set_ne ring.slots slot unused ne

-- `Kept` says that the slot is one whose mark of `i` stays. A commit flag never appears.
pub record SlotKeeps (i : ℕ) (Kept : Type 0) (a b : ChannelElemT) : Type 0 where
  pub same_data : b.data_ ≡ a.data_
  pub rc_lt : a.rc_ < 2 ^ 64 → b.rc_ < 2 ^ 64
  pub mark :
      Kept
      → a.rc_ < 2 ^ 64
      → bit i a.rc_ ≡ 1
      → (bit i b.rc_ ≡ 1)
        × (bit_and b.rc_ (not64 ch_ep_mask) ≡ bit_and a.rc_ (not64 ch_ep_mask))
        × (b.f_ct_ ≡ a.f_ct_)
  pub flag : (pos : ℕ) → pos < 2 ^ 32 → b.f_ct_ ≡ not64 pos → a.f_ct_ ≡ not64 pos

SlotKeeps-refl : (i : ℕ) (Kept : Type 0) (a : ChannelElemT) → SlotKeeps i Kept a a
SlotKeeps-refl i Kept a = record {
  same_data = refl;
  rc_lt = λ h. h;
  mark = λ kept lt m. (m, refl, refl);
  flag = λ pos h e. e;
}

SlotKeeps-trans :
    (i : ℕ) (Kept : Type 0) (a b c : ChannelElemT)
    → SlotKeeps i Kept a b
    → SlotKeeps i Kept b c
    → SlotKeeps i Kept a c
SlotKeeps-trans i Kept a b c p q = record {
  same_data = q.same_data ∙ p.same_data;
  rc_lt = λ h. q.rc_lt (p.rc_lt h);
  mark = λ kept lt m.
      let (m1, e1, f1) = p.mark kept lt m in
      let (m2, e2, f2) = q.mark kept (p.rc_lt lt) m1 in (m2, e2 ∙ e1, f2 ∙ f1);
  flag = λ pos h e. p.flag pos h (q.flag pos h e);
}

-- Only the slots change, and each keeps what `i` has yet to read but for slot `skip`.
pub record Keeps (i skip : ℕ) (ring ring' : ChannelRing) : Type 0 where
  pub same_connections : ring'.connections ≡ ring.connections
  pub same_epoch : ring'.epoch ≡ ring.epoch
  pub same_cursor : ring'.write_cursor ≡ ring.write_cursor
  pub same_liveness : ring'.liveness ≡ ring.liveness
  pub same_size : length ring'.slots ≡ length ring.slots
  pub slot : (idx : ℕ) → SlotKeeps i (idx ≢ skip) (channel_slot ring idx) (channel_slot ring' idx)

pub Keeps-refl : (i skip : ℕ) (ring : ChannelRing) → Keeps i skip ring ring
Keeps-refl i skip ring = record {
  same_connections = refl;
  same_epoch = refl;
  same_cursor = refl;
  same_liveness = refl;
  same_size = refl;
  slot = λ idx. SlotKeeps-refl i (idx ≢ skip) (channel_slot ring idx);
}

pub Keeps-trans :
    (i skip : ℕ) (a b c : ChannelRing) → Keeps i skip a b → Keeps i skip b c → Keeps i skip a c
Keeps-trans i skip a b c p q = record {
  same_connections = q.same_connections ∙ p.same_connections;
  same_epoch = q.same_epoch ∙ p.same_epoch;
  same_cursor = q.same_cursor ∙ p.same_cursor;
  same_liveness = q.same_liveness ∙ p.same_liveness;
  same_size = q.same_size ∙ p.same_size;
  slot = λ idx.
      SlotKeeps-trans i (idx ≢ skip) (channel_slot a idx) (channel_slot b idx) (channel_slot c idx)
        (p.slot idx) (q.slot idx);
}

-- A write of one slot keeps the ring where it keeps the slot.
pub set_slot-Keeps :
    (i skip : ℕ) (ring : ChannelRing) (idx : ℕ) (slot : ChannelElemT)
    → length ring.slots ≡ ring_size
    → idx < ring_size
    → SlotKeeps i (idx ≢ skip) (channel_slot ring idx) slot
    → Keeps i skip ring (set_slot ring idx slot)
set_slot-Keeps i skip ring idx slot size hi k = record {
  same_connections = refl;
  same_epoch = refl;
  same_cursor = refl;
  same_liveness = refl;
  same_size = length-set ring.slots idx slot;
  slot = λ j. elim (ℕ_discrete idx j) [
    | yes e ↦
        subst
          (λ j.
            SlotKeeps i (j ≢ skip) (channel_slot ring j) (channel_slot (set_slot ring idx slot) j))
          e
          (subst (SlotKeeps i (idx ≢ skip) (channel_slot ring idx))
            (sym (slot-set_self ring idx slot size hi)) k)
    | no ne ↦
        subst (SlotKeeps i (j ≢ skip) (channel_slot ring j)) (sym (slot-set_ne ring slot ne))
          (SlotKeeps-refl i (j ≢ skip) (channel_slot ring j))
  ];
}

-- Dropping marks other than that of `i`
module _ (i skip idx id free : ℕ) (hi : i < 32) (hid : id < 2 ^ 32) (hf : free < 2 ^ 63) where
  dropped-SlotKeeps :
      (slot : ChannelElemT)
      → (idx ≢ skip → bit i id ≡ 0)
      → SlotKeeps i (idx ≢ skip) slot (
          let nxt = bit_and (inc_rc slot.rc_) (not64 id) in
          record slot { rc_ = nxt; f_ct_ = if bit_and nxt rc_mask == 0 then free else slot.f_ct_ })
  dropped-SlotKeeps slot off =
      let nxt = bit_and (inc_rc slot.rc_) (not64 id) in
      record {
        same_data = refl;
        rc_lt = λ h. bit_and-lt 64 (inc_rc slot.rc_) (not64 id) (inc_rc-lt slot.rc_ h);
        mark = λ kept lt m.
            let on : bit i nxt ≡ 1 = bit-drop slot.rc_ id i hid hi (off kept) ∙ m in
            let some_mark : bit_and nxt rc_mask ≢ 0 =
              (λ e. omega (arith, sym (bit-marks nxt i hi) ∙ ap (bit i) e ∙ bit-zero i, on)) in
            (
              on,
              epoch_of_drop slot.rc_ id lt hid,
              rw (==_ne (bit_and nxt rc_mask) 0 some_mark) refl,
            );
        flag = λ pos h e. go (bit_and nxt rc_mask == 0) pos h e;
      }
    where
      go :
          (b : Bool) (pos : ℕ)
          → pos < 2 ^ 32
          → (if b then free else slot.f_ct_) ≡ not64 pos
          → slot.f_ct_ ≡ not64 pos
      go true pos h e = absurd (omega arith)
      go false pos h e = e

  pub clear_mark-Keeps :
      (ring : ChannelRing)
      → length ring.slots ≡ ring_size
      → idx < ring_size
      → (idx ≢ skip → bit i id ≡ 0)
      → Keeps i skip ring (clear_mark ring idx id free)
  unfolding clear_mark
  clear_mark-Keeps ring size hx off =
      set_slot-Keeps i skip ring idx _ size hx (dropped-SlotKeeps (channel_slot ring idx) off)

-- What follows for the ring
pub Keeps-IsRing :
    (i skip : ℕ) (ring ring' : ChannelRing) → Keeps i skip ring ring' → IsRing ring → IsRing ring'
Keeps-IsRing i skip ring ring' k ok = record {
  connections_lt = rw k.same_connections ok.connections_lt;
  epoch_lt = rw k.same_epoch ok.epoch_lt;
  epoch_high = rw k.same_epoch ok.epoch_high;
  size = k.same_size ∙ ok.size;
  rc_lt = λ idx. (k.slot idx).rc_lt (ok.rc_lt idx);
}

pub Keeps-IsReader :
    (i skip since : ℕ) (ring ring' : ChannelRing)
    → Keeps i skip ring ring'
    → IsReader i since ring
    → IsReader i since ring'
Keeps-IsReader i skip since ring ring' k r = record {
  connected = rw k.same_connections r.connected;
  owners = r.owners;
  table = k.same_liveness ∙ r.table;
  started = r.started;
}

pub Keeps-IsMarked :
    (i skip : ℕ) (ring ring' : ChannelRing) {idx : ℕ}
    → Keeps i skip ring ring'
    → IsRing ring
    → idx ≢ skip
    → IsMarked i idx ring
    → IsMarked i idx ring' × ((channel_slot ring' idx).f_ct_ ≡ (channel_slot ring idx).f_ct_)
Keeps-IsMarked i skip ring ring' {idx = idx} k ok ne m =
    let (on, top, f) = (k.slot idx).mark ne (ok.rc_lt idx) m.marked in
    (record { marked = on; current = top ∙ m.current ∙ sym k.same_epoch }, f)
