-- ===== src/MultiRing/Commit.antt =====
-- A writer's commit keeps the invariant, the release of marks it finds stale included: that of
-- receiver `i`, which started at or before the position, is none of them.
use thoth_ipc.Base.{
  ℕ, ◌^◌, ◌%◌, ◌≤◌, ◌<◌, ◌≡◌, ◌≢◌, refl, sym, ap, subst, ◌∙◌, arith, inl, inr, some, not64, bit_and,
  Bool, true, false, ◌==◌, if◌then◌else◌, u8, u32, sub32, each_bit, update, update_ne, update_self,
  ℕ_discrete, lt→ltb,
}
use thoth_ipc.Base.Bits.{bit, bit-le, bit-and, bit-not, bit_and-lt, bit_and-low_mask}
use thoth_ipc.Liveness.{at_or_after, live_marks}
use thoth_ipc.Liveness.Marks.{bit-live_marks, live_marks-lt}
use thoth_ipc.Route.{ring_size}
use thoth_ipc.MultiRing.{
  ChannelElemT, ChannelRing, rc_mask, channel_slot, set_slot, commit_multi, release_mark,
}
use thoth_ipc.MultiRing.Run.{Writer, Sys, IsMarked, IsCommitted, Fits, Stored, Inv, position}
use thoth_ipc.MultiRing.Frame.{Keeps, Keeps-refl, slot-set_self, slot-set_ne}
use thoth_ipc.MultiRing.Marks.{release_each-Keeps}
use thoth_ipc.MultiRing.Keeps.{Inv-Keeps}
use thoth_ipc.MultiRing.Claim.{alone_update}
use thoth_ipc.MultiRing.Writers.{other_position}
use thoth_ipc.MultiRing.Write.{touch_field, touch-IsRing, touch-IsMarked, touch-IsReader}

abbrev committed : ChannelRing → ℕ → ChannelRing
committed ring ct = set_slot ring (u8 ct) (record (channel_slot ring (u8 ct)) { f_ct_ = not64 ct })

module _ (i since : ℕ) (s : Sys) (v : Inv i since s) (k ct : ℕ)
    (e : s.writers k ≡ Writer.wrote ct) where
  wrote : Fits i since s.ring s.sent s.read_cursor (Writer.wrote ct)
  wrote = subst (Fits i since s.ring s.sent s.read_cursor) e (v.fits k)

  abbrev new_slot : ChannelElemT
  new_slot = record (channel_slot s.ring (u8 ct)) { f_ct_ = not64 ct }

  abbrev done_ring : ChannelRing
  done_ring = committed s.ring ct

  done_data : (j : ℕ) → (channel_slot done_ring j).data_ ≡ (channel_slot s.ring j).data_
  done_data =
      touch_field s.ring (u8 ct) new_slot v.ring_ok.size (omega arith) refl
        (λ (x : ChannelElemT). x.data_) refl

  done_mark : (j : ℕ) → IsMarked i j s.ring → IsMarked i j done_ring
  done_mark = touch-IsMarked s.ring (u8 ct) new_slot v.ring_ok.size (omega arith) refl i

  done_self : (channel_slot done_ring (u8 ct)).f_ct_ ≡ not64 ct
  done_self =
      ap (λ (x : ChannelElemT). x.f_ct_)
        (slot-set_self s.ring (u8 ct) new_slot v.ring_ok.size (omega arith))

  done_ne : (j : ℕ) → u8 ct ≢ j → (channel_slot done_ring j).f_ct_ ≡ (channel_slot s.ring j).f_ct_
  done_ne j ne = ap (λ (x : ChannelElemT). x.f_ct_) (slot-set_ne s.ring new_slot ne)

  apart : (c : ℕ) → c ≢ ct → s.read_cursor ≤ c → c < s.ring.write_cursor → u8 ct ≢ c % 2 ^ 8
  apart c ne lo up h = let (le, low, un, d) = wrote in omega (arith, lo, up, le, low, v.lap, ne, h)

  -- A slot that is committed now was so, or is that of `ct`.
  done-past :
      (idx pos : ℕ)
      → pos < 2 ^ 32
      → (channel_slot done_ring idx).f_ct_ ≡ not64 pos
      → pos < s.ring.write_cursor
  done-past idx pos h f = elim (ℕ_discrete (u8 ct) idx) [
    | yes g ↦
        let (le, low, un, d) = wrote in
        let same : not64 ct ≡ not64 pos =
          sym done_self ∙ subst (λ j. (channel_slot done_ring j).f_ct_ ≡ not64 pos) (sym g) f in
        omega (arith, same, low, v.early, h)
    | no ne ↦ v.past idx pos h (sym (done_ne idx ne) ∙ f)
  ]

  done-uncommitted :
      (l c : ℕ)
      → k ≢ l
      → position (s.writers l) ≡ some c
      → s.read_cursor ≤ c
      → c < s.ring.write_cursor
      → (IsCommitted s.ring c → ⊥)
      → IsCommitted done_ring c
      → ⊥
  done-uncommitted l c ne at lo up un f =
      let other : c ≢ ct =
        (λ h. other_position i since s v k l ct ne (ap position e) (at ∙ ap some h)) in
      un (sym (done_ne (c % 2 ^ 8) (apart c other lo up)) ∙ f)

  done-Fits :
      (l : ℕ) (w : Writer)
      → k ≢ l
      → s.writers l ≡ w
      → Fits i since s.ring s.sent s.read_cursor w
      → Fits i since done_ring s.sent s.read_cursor w
  done-Fits l Writer.idle ne h f = tt
  done-Fits l (Writer.won c) ne h (same, near, early, small, m) =
      (same, near, early, small, done_mark (c % 2 ^ 8) m)
  done-Fits l (Writer.owns c) ne h (le, low, un) =
      (le, low, done-uncommitted l c ne (ap position h) le low un)
  done-Fits l (Writer.wrote c) ne h (le, low, un, d) =
      (le, low, done-uncommitted l c ne (ap position h) le low un, done_data (c % 2 ^ 8) ∙ d)

  done-Stored :
      (c : ℕ)
      → s.read_cursor ≤ c
      → c < s.ring.write_cursor
      → Stored s.ring s.sent s.writers c
      → Stored done_ring s.sent (update s.writers k Writer.idle) c
  done-Stored c lo up st = elim (ℕ_discrete c ct) [
    | yes h ↦
        let (le, low, un, d) = wrote in
        inl (
          subst (IsCommitted done_ring) (sym h) done_self,
          done_data (c % 2 ^ 8)
              ∙ subst (λ n. (channel_slot s.ring (n % 2 ^ 8)).data_ ≡ s.sent n) (sym h) d,
        )
    | no ne ↦ elim st [
      | inl (f, d) ↦ inl (done_ne (c % 2 ^ 8) (apart c ne lo up) ∙ f, done_data (c % 2 ^ 8) ∙ d)
      | inr (l, at) ↦
          let other : k ≢ l = (λ h.
            let here : some ct ≡ some c =
              sym (ap position e) ∙ ap (λ l. position (s.writers l)) h ∙ at in
            ne cc) in
          inr (l, ap position (update_ne s.writers Writer.idle other) ∙ at)
    ]
  ]

  done-Inv : Inv i since (record s { ring = done_ring; writers = update s.writers k Writer.idle })
  done-Inv = record {
    ring_ok = touch-IsRing s.ring (u8 ct) new_slot v.ring_ok.size (omega arith) refl v.ring_ok;
    reader = touch-IsReader i since s.ring (u8 ct) new_slot v.reader;
    early = v.early;
    fresh = v.fresh;
    cursor_eq = v.cursor_eq;
    behind = v.behind;
    lap = v.lap;
    log = v.log;
    past = done-past;
    marked = λ c lo up. done_mark (c % 2 ^ 8) (v.marked c lo up);
    stored = λ c lo up. done-Stored c lo up (v.stored c lo up);
    fits = λ l. elim (ℕ_discrete k l) [
      | yes h ↦
          subst (Fits i since done_ring s.sent s.read_cursor)
            (sym (update_self s.writers k Writer.idle) ∙ ap (update s.writers k Writer.idle) h) tt
      | no ne ↦
          subst (Fits i since done_ring s.sent s.read_cursor)
            (sym (update_ne s.writers Writer.idle ne))
            (done-Fits l (s.writers l) ne refl (v.fits l))
    ];
    alone = alone_update s.writers k Writer.idle (λ l c ne h g. cc) v.alone;
  }

  -- The marks of the slot that are found stale
  abbrev slot_marks : ℕ
  slot_marks = bit_and (channel_slot s.ring (u8 ct)).rc_ rc_mask

  abbrev stale_marks : ℕ
  stale_marks = bit_and slot_marks (not64 (live_marks s.ring.liveness (u32 slot_marks) ct))

  marks_lt : slot_marks < 2 ^ 32
  marks_lt = omega (arith, bit_and-low_mask 32 (channel_slot s.ring (u8 ct)).rc_)

  not_stale : i < 32 → bit i stale_marks ≡ 0
  not_stale hi =
      let (le, low, un, d) = wrote in
      let small : u32 slot_marks ≡ slot_marks = omega (arith, marks_lt) in
      let gone : sub32 ct since < 2 ^ 31 = omega (arith, v.cursor_eq, le, low, v.fresh, v.early) in
      let after : at_or_after ct since ≡ true = lt→ltb (sub32 ct since) (2 ^ 31) gone in
      rw (v.reader.table, small)
        (let live = live_marks (some v.reader.owners) slot_marks ct in
          let on : bit i live ≡ bit i slot_marks =
            bit-live_marks v.reader.owners slot_marks ct i marks_lt
            ∙ rw (v.reader.started, after) refl in
          omega (
            arith,
            bit-and i slot_marks (not64 live),
            bit-not 64 i live (omega (arith, live_marks-lt v.reader.owners slot_marks ct marks_lt))
                (omega arith),
            on,
            bit-le i slot_marks,
          ))

  commit-Keeps : i < 32 → Keeps i ring_size done_ring (commit_multi s.ring ct)
  unfolding commit_multi
  commit-Keeps hi = go (slot_marks == 0)
    where
      go :
          (b : Bool)
          → Keeps i ring_size done_ring (
              if b
              then done_ring
              else each_bit 32 (λ bit r. release_mark r (u8 ct) ct bit) stale_marks done_ring)
      go true = Keeps-refl i ring_size done_ring
      go false =
          release_each-Keeps i done_ring (u8 ct) ct stale_marks hi done-Inv.ring_ok.size
            (omega arith) (let (le, low, un, d) = wrote in omega (arith, low, v.early))
            (bit_and-lt 32 slot_marks (not64 (live_marks s.ring.liveness (u32 slot_marks) ct))
              marks_lt)
            (not_stale hi)

  pub commit-Inv :
      i < 32
      → Inv i since
          (record s { ring = commit_multi s.ring ct; writers = update s.writers k Writer.idle })
  commit-Inv hi =
      Inv-Keeps (record s { ring = done_ring; writers = update s.writers k Writer.idle })
        (commit_multi s.ring ct) i since done-Inv (commit-Keeps hi)
