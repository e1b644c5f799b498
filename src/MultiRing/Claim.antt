-- ===== src/MultiRing/Claim.antt =====
-- A writer's claim keeps the invariant: it never wins a slot that receiver `i` has yet to read, nor
-- one that another writer has won.
use thoth_ipc.Base.{
  ℕ, ◌+◌, ◌^◌, ◌%◌, ◌<◌, ◌≡◌, ◌≢◌, refl, sym, ap, subst, ◌∙◌, arith, inl, inr, some, length-set,
  not64, bit_and, Bool, true, false, not, ◌==◌, ◌&&◌, ==_ne, ==_self, if◌then◌else◌, u8, update,
  update_ne, update_self, update-elim, update_unique, ℕ_discrete, dec_lt,
}
use thoth_ipc.Base.Bits.{bit, bit-and, bit-zero}
use thoth_ipc.Route.{ring_size}
use thoth_ipc.MultiRing.{
  ChannelElemT, ChannelRing, MultiClaim, rc_mask, ch_ep_mask, channel_slot, set_slot, claim_multi,
}
use thoth_ipc.MultiRing.Words.{stamp, bit-stamp, stamp-lt, epoch_of_stamp, bit-marks}
use thoth_ipc.MultiRing.Run.{Writer, Sys, IsRing, IsMarked, Fits, Stored, Inv, position}
use thoth_ipc.MultiRing.Frame.{slot-set_self, slot-set_ne}

-- A slot that `i` has yet to read is not claimed.
pub claim_marked :
    (ring : ChannelRing) (i : ℕ)
    → i < 32
    → bit i ring.connections ≡ 1
    → IsMarked i (u8 ring.write_cursor) ring
    → claim_multi ring ring.epoch ≡ MultiClaim.must_wait
unfolding claim_multi
claim_marked ring i hi on m =
    let rc = (channel_slot ring (u8 ring.write_cursor)).rc_ in
    let cc = ring.connections in
    let both : bit i (bit_and cc (bit_and rc rc_mask)) ≡ 1 =
      omega (arith, bit-and i cc (bit_and rc rc_mask), on, bit-marks rc i hi, m.marked) in
    let b1 = ==_ne cc 0 (λ e. omega (arith, on, ap (bit i) e, bit-zero i)) in
    let b2 =
      ==_ne (bit_and cc (bit_and rc rc_mask)) 0
        (λ e. omega (arith, both, ap (bit i) e, bit-zero i)) in
    let b3 : (bit_and rc (not64 ch_ep_mask) == ring.epoch) ≡ true =
      rw m.current (==_self ring.epoch) in
    rw (b1, b2, b3) refl

-- The claim stamps the slot at the commit index and does nothing else.
pub claim_multi-eq :
    (ring ring' : ChannelRing)
    → claim_multi ring ring.epoch ≡ MultiClaim.claimed ring'
    → ring'
      ≡ set_slot ring (u8 ring.write_cursor) (
          let slot = channel_slot ring (u8 ring.write_cursor) in
          record slot { rc_ = stamp ring.epoch slot.rc_ ring.connections })
unfolding claim_multi
claim_multi-eq ring ring' h =
    let cc = ring.connections in
    let slot = channel_slot ring (u8 ring.write_cursor) in
    let rem = bit_and slot.rc_ rc_mask in
    go (cc == 0) (not (bit_and cc rem == 0) && (bit_and slot.rc_ (not64 ch_ep_mask) == ring.epoch))
      ((rem == 0) && (not (slot.f_ct_ == ring.write_cursor) && not (slot.f_ct_ == 0)))
      (ring.epoch == ring.epoch) h
  where
    go :
        (a b c d : Bool) {won : ChannelRing}
        → (if a
            then MultiClaim.no_receivers
            else if b
            then MultiClaim.must_wait
            else if c
            then MultiClaim.must_wait
            else if d
            then MultiClaim.claimed won
            else MultiClaim.stamped won)
          ≡ MultiClaim.claimed ring'
        → ring' ≡ won
    go true b c d h = cc
    go false true c d h = cc
    go false false true d h = cc
    go false false false false h = cc
    go false false false true h = cc

-- A new place for writer `k` leaves each position to one writer if none of the others is at it.
pub alone_update :
    (writers : ℕ → Writer) (k : ℕ) (w : Writer)
    → ((l ct : ℕ) → k ≢ l → position w ≡ some ct → position (writers l) ≡ some ct → ⊥)
    → ((a b ct : ℕ) → position (writers a) ≡ some ct → position (writers b) ≡ some ct → a ≡ b)
    → (a b ct : ℕ) → position (update writers k w a) ≡ some ct
    → position (update writers k w b) ≡ some ct
    → a ≡ b
alone_update writers k w new old a b ct ha hb =
    update_unique (λ p. position p ≡ some ct) writers k w (λ l. new l ct) (λ a b. old a b ct) a b ha
      hb

-- If writer `k` leaves no position, each stays with its writer.
pub held_update :
    (writers : ℕ → Writer) (k : ℕ) (w : Writer) (l ct : ℕ)
    → (position (writers k) ≡ some ct → position w ≡ some ct)
    → position (writers l) ≡ some ct
    → position (update writers k w l) ≡ some ct
held_update writers k w l ct stays h = elim (ℕ_discrete k l) [
  | yes e ↦
      ap position (ap (update writers k w) (sym e) ∙ update_self writers k w)
      ∙ stays (ap (λ l. position (writers l)) e ∙ h)
  | no ne ↦ ap position (update_ne writers w ne) ∙ h
]

module _ (i since : ℕ) (hi : i < 32) (s : Sys) (v : Inv i since s) where
  module _ (ring : ChannelRing)
      (c : claim_multi s.ring s.ring.epoch ≡ MultiClaim.claimed ring) where
    abbrev commit_index : ℕ
    commit_index = s.ring.write_cursor

    -- The slot of the commit index was not one that `i` has yet to read,
    unmarked : IsMarked i (u8 commit_index) s.ring → ⊥
    unmarked m = let e = claim_marked s.ring i hi v.reader.connected m in cc

    -- so the ring is not full,
    near : commit_index < s.read_cursor + ring_size
    near = elim (dec_lt commit_index (s.read_cursor + ring_size)) [
      | yes lt ↦ lt
      | no ge ↦
          let full : s.read_cursor % 2 ^ 8 ≡ u8 commit_index = omega (arith, v.lap) in
          absurd (
            unmarked (
              subst (λ idx. IsMarked i idx s.ring) full
                (v.marked s.read_cursor (omega arith) (omega (arith, v.lap)))))
    ]

    -- and no writer is at the commit index.
    free_position :
        (w : Writer)
        → Fits i since s.ring s.sent s.read_cursor w
        → position w ≡ some commit_index
        → ⊥
    free_position Writer.idle f e = cc
    free_position (Writer.won ct) (_, _, _, _, m) e =
        let same : ct ≡ commit_index = cc in
        unmarked (subst (λ n. IsMarked i (n % 2 ^ 8) s.ring) same m)
    free_position (Writer.owns ct) f e =
        let same : ct ≡ commit_index = cc in omega (arith, same, f.1)
    free_position (Writer.wrote ct) f e =
        let same : ct ≡ commit_index = cc in omega (arith, same, f.1)

    abbrev stamped_slot : ChannelElemT
    stamped_slot =
        let slot = channel_slot s.ring (u8 commit_index) in
        record slot { rc_ = stamp s.ring.epoch slot.rc_ s.ring.connections }

    abbrev won_ring : ChannelRing
    won_ring = set_slot s.ring (u8 commit_index) stamped_slot

    won_self : channel_slot won_ring (u8 commit_index) ≡ stamped_slot
    won_self = slot-set_self s.ring (u8 commit_index) stamped_slot v.ring_ok.size (omega arith)

    -- The stamp leaves the data and the flags.
    won_rest :
        (idx : ℕ)
        → ((channel_slot won_ring idx).data_ ≡ (channel_slot s.ring idx).data_)
          × ((channel_slot won_ring idx).f_ct_ ≡ (channel_slot s.ring idx).f_ct_)
    won_rest idx = elim (ℕ_discrete (u8 commit_index) idx) [
      | yes e ↦
          subst
            (λ j.
              ((channel_slot won_ring j).data_ ≡ (channel_slot s.ring j).data_)
              × ((channel_slot won_ring j).f_ct_ ≡ (channel_slot s.ring j).f_ct_))
            e
            (
              ap (λ (x : ChannelElemT). x.data_) won_self,
              ap (λ (x : ChannelElemT). x.f_ct_) won_self,
            )
      | no ne ↦
          let same = slot-set_ne s.ring stamped_slot ne in
          (ap (λ (x : ChannelElemT). x.data_) same, ap (λ (x : ChannelElemT). x.f_ct_) same)
    ]

    won_ne : (idx : ℕ) → u8 commit_index ≢ idx → IsMarked i idx s.ring → IsMarked i idx won_ring
    won_ne idx ne m =
        let same = slot-set_ne s.ring stamped_slot ne in
        record { marked = rw same m.marked; current = rw same m.current }

    won_mark : IsMarked i (u8 commit_index) won_ring
    won_mark =
        let rc = (channel_slot s.ring (u8 commit_index)).rc_ in
        record {
          marked = rw won_self (bit-stamp s.ring.epoch rc s.ring.connections i v.reader.connected);
          current = rw won_self (
              epoch_of_stamp s.ring.epoch rc s.ring.connections v.ring_ok.epoch_lt
                v.ring_ok.epoch_high (v.ring_ok.rc_lt (u8 commit_index)) v.ring_ok.connections_lt);
        }

    won-IsRing : IsRing won_ring
    won-IsRing = record {
      connections_lt = v.ring_ok.connections_lt;
      epoch_lt = v.ring_ok.epoch_lt;
      epoch_high = v.ring_ok.epoch_high;
      size = length-set s.ring.slots (u8 commit_index) stamped_slot ∙ v.ring_ok.size;
      rc_lt = λ idx. elim (ℕ_discrete (u8 commit_index) idx) [
        | yes e ↦
            rw (sym e, won_self)
              (stamp-lt s.ring.epoch (channel_slot s.ring (u8 commit_index)).rc_ s.ring.connections
                v.ring_ok.epoch_lt (v.ring_ok.rc_lt (u8 commit_index)) v.ring_ok.connections_lt)
        | no ne ↦ rw (slot-set_ne s.ring stamped_slot ne) (v.ring_ok.rc_lt idx)
      ];
    }

    won-Fits :
        (w : Writer)
        → Fits i since s.ring s.sent s.read_cursor w
        → Fits i since won_ring s.sent s.read_cursor w
    won-Fits Writer.idle f = tt
    won-Fits (Writer.won ct) (e, lo, early, small, m) =
        absurd (unmarked (subst (λ n. IsMarked i (n % 2 ^ 8) s.ring) e m))
    won-Fits (Writer.owns ct) (le, low, un) = (le, low, λ d. un (sym (won_rest (ct % 2 ^ 8)).1 ∙ d))
    won-Fits (Writer.wrote ct) (le, low, un, d) =
        (le, low, (λ f. un (sym (won_rest (ct % 2 ^ 8)).1 ∙ f)), (won_rest (ct % 2 ^ 8)).0 ∙ d)

    won-Stored :
        (k ct : ℕ)
        → s.writers k ≡ Writer.idle
        → Stored s.ring s.sent s.writers ct
        → Stored won_ring s.sent (update s.writers k (Writer.won commit_index)) ct
    won-Stored k ct free (inl (f, d)) =
        inl ((won_rest (ct % 2 ^ 8)).1 ∙ f, (won_rest (ct % 2 ^ 8)).0 ∙ d)
    won-Stored k ct free (inr (l, at)) = inr (
      l,
      held_update s.writers k (Writer.won commit_index) l ct (λ h. absurd (idle_nowhere h)) at,
    )
      where
        idle_nowhere : position (s.writers k) ≡ some ct → ⊥
        idle_nowhere h = let e = sym (ap position free) ∙ h in cc

    pub claim-Inv :
        (k : ℕ)
        → s.writers k ≡ Writer.idle
        → commit_index < since + 2 ^ 31
        → commit_index + 1 < 2 ^ 32
        → Inv i since
            (record s { ring = ring; writers = update s.writers k (Writer.won commit_index) })
    claim-Inv k free early small =
        subst
          (λ r.
            Inv i since
              (record s { ring = r; writers = update s.writers k (Writer.won commit_index) }))
          (sym (claim_multi-eq s.ring ring c))
          (record {
            ring_ok = won-IsRing;
            reader = record {
              connected = v.reader.connected;
              owners = v.reader.owners;
              table = v.reader.table;
              started = v.reader.started;
            };
            early = v.early;
            fresh = v.fresh;
            cursor_eq = v.cursor_eq;
            behind = v.behind;
            lap = v.lap;
            log = v.log;
            past = λ idx pos h e. v.past idx pos h (sym (won_rest idx).1 ∙ e);
            marked = λ ct lo up.
                won_ne (ct % 2 ^ 8) (λ e. omega (arith, lo, up, near, e)) (v.marked ct lo up);
            stored = λ ct lo up. won-Stored k ct free (v.stored ct lo up);
            fits =
                update-elim (λ l. Fits i since won_ring s.sent s.read_cursor) s.writers k
                  (Writer.won commit_index) (refl, near, early, small, won_mark)
                  (λ l ne. won-Fits (s.writers l) (v.fits l));
            alone =
                alone_update s.writers k (Writer.won commit_index)
                  (λ l ct ne e h.
                    let here : commit_index ≡ ct = cc in
                    free_position (s.writers l) (v.fits l) (h ∙ ap some (sym here)))
                  v.alone;
          })
