-- ===== src/MultiRing/Write.antt =====
-- A writer's write keeps the invariant: it touches no slot but its own, which `i` has not come to.
use thoth_ipc.Base.{
  ℕ, zero, suc, ◌+◌, ◌^◌, ◌%◌, ◌≤◌, ◌<◌, ◌≡◌, ◌≢◌, refl, sym, ap, subst, ◌∙◌, arith, inl, inr, some,
  List, length, length-set, u8, update, update_ne, update_self, ℕ_discrete,
}
use thoth_ipc.Route.{ring_size}
use thoth_ipc.MultiRing.{ChannelElemT, ChannelRing, channel_slot, set_slot, write_multi}
use thoth_ipc.MultiRing.Run.{
  Writer, Sys, IsRing, IsReader, IsMarked, Fits, Stored, Inv, position, sent_from,
}
use thoth_ipc.MultiRing.Frame.{slot-set_self, slot-set_ne}
use thoth_ipc.MultiRing.Writers.{same_alone, same_held, other_position}

-- A slot is replaced by one with the same `rc`.
module _ (ring : ChannelRing) (idx : ℕ) (slot : ChannelElemT) (size : length ring.slots ≡ ring_size)
    (hx : idx < ring_size) (same : slot.rc_ ≡ (channel_slot ring idx).rc_) where
  -- a field that the slots agree on is one that the rings agree on
  pub touch_field :
      {A : Type 0} (field : ChannelElemT → A)
      → field slot ≡ field (channel_slot ring idx)
      → (j : ℕ) → field (channel_slot (set_slot ring idx slot) j) ≡ field (channel_slot ring j)
  touch_field field h j = elim (ℕ_discrete idx j) [
    | yes e ↦
        subst (λ j. field (channel_slot (set_slot ring idx slot) j) ≡ field (channel_slot ring j)) e
          (ap field (slot-set_self ring idx slot size hx) ∙ h)
    | no ne ↦ ap field (slot-set_ne ring slot ne)
  ]

  touch_rc : (j : ℕ) → (channel_slot (set_slot ring idx slot) j).rc_ ≡ (channel_slot ring j).rc_
  touch_rc = touch_field (λ (x : ChannelElemT). x.rc_) same

  pub touch-IsRing : IsRing ring → IsRing (set_slot ring idx slot)
  touch-IsRing ok = record {
    connections_lt = ok.connections_lt;
    epoch_lt = ok.epoch_lt;
    epoch_high = ok.epoch_high;
    size = length-set ring.slots idx slot ∙ size;
    rc_lt = λ j. rw (touch_rc j) (ok.rc_lt j);
  }

  pub touch-IsMarked : (i j : ℕ) → IsMarked i j ring → IsMarked i j (set_slot ring idx slot)
  touch-IsMarked i j m = record {
    marked = rw (touch_rc j) m.marked;
    current = rw (touch_rc j) m.current;
  }

pub touch-IsReader :
    (i since : ℕ) (ring : ChannelRing) (idx : ℕ) (slot : ChannelElemT)
    → IsReader i since ring
    → IsReader i since (set_slot ring idx slot)
touch-IsReader i since ring idx slot r = record {
  connected = r.connected;
  owners = r.owners;
  table = r.table;
  started = r.started;
}

-- What was sent before position `ct` is what it was.
sent_from-update :
    (sent : ℕ → List ℕ) (ct : ℕ) (bytes : List ℕ) (start n : ℕ)
    → start + n ≤ ct
    → sent_from (update sent ct bytes) start n ≡ sent_from sent start n
sent_from-update sent ct bytes start zero h = refl
sent_from-update sent ct bytes start (suc n) h =
    let ne : ct ≢ start + n = (λ e. omega arith) in
    rw (sent_from-update sent ct bytes start n (omega arith), update_ne sent bytes ne) refl

module _ (i since : ℕ) (s : Sys) (v : Inv i since s) (k ct : ℕ) (bytes : List ℕ)
    (e : s.writers k ≡ Writer.owns ct) where
  owned : Fits i since s.ring s.sent s.read_cursor (Writer.owns ct)
  owned = subst (Fits i since s.ring s.sent s.read_cursor) e (v.fits k)

  abbrev new_slot : ChannelElemT
  new_slot = record (channel_slot s.ring (u8 ct)) { data_ = bytes }

  abbrev written_ring : ChannelRing
  written_ring = set_slot s.ring (u8 ct) new_slot

  abbrev now_sent : ℕ → List ℕ
  now_sent = update s.sent ct bytes

  written_flag : (j : ℕ) → (channel_slot written_ring j).f_ct_ ≡ (channel_slot s.ring j).f_ct_
  written_flag =
      touch_field s.ring (u8 ct) new_slot v.ring_ok.size (omega arith) refl
        (λ (x : ChannelElemT). x.f_ct_) refl

  written_mark : (j : ℕ) → IsMarked i j s.ring → IsMarked i j written_ring
  written_mark = touch-IsMarked s.ring (u8 ct) new_slot v.ring_ok.size (omega arith) refl i

  -- At another position that is waited for, the data and what was sent are what they were.
  other_data :
      (c : ℕ)
      → c ≢ ct
      → s.read_cursor ≤ c
      → c < s.ring.write_cursor
      → (channel_slot s.ring (c % 2 ^ 8)).data_ ≡ s.sent c
      → (channel_slot written_ring (c % 2 ^ 8)).data_ ≡ now_sent c
  other_data c ne lo up d =
      let (le, low, un) = owned in
      let apart : u8 ct ≢ c % 2 ^ 8 = (λ h. omega (arith, lo, up, le, low, v.lap, ne, h)) in
      ap (λ (x : ChannelElemT). x.data_) (slot-set_ne s.ring new_slot apart)
      ∙ d
      ∙ sym (update_ne s.sent bytes (λ h. ne (sym h)))

  written-Fits :
      (l : ℕ) (w : Writer)
      → k ≢ l
      → s.writers l ≡ w
      → Fits i since s.ring s.sent s.read_cursor w
      → Fits i since written_ring now_sent s.read_cursor w
  written-Fits l Writer.idle ne h f = tt
  written-Fits l (Writer.won c) ne h (same, near, early, small, m) =
      (same, near, early, small, written_mark (c % 2 ^ 8) m)
  written-Fits l (Writer.owns c) ne h (le, low, un) =
      (le, low, λ g. un (sym (written_flag (c % 2 ^ 8)) ∙ g))
  written-Fits l (Writer.wrote c) ne h (le, low, un, d) =
      let apart : c ≢ ct =
        (λ g. other_position i since s v k l ct ne (ap position e) (ap position h ∙ ap some g)) in
      (le, low, (λ g. un (sym (written_flag (c % 2 ^ 8)) ∙ g)), other_data c apart le low d)

  written-Stored :
      (c : ℕ)
      → s.read_cursor ≤ c
      → c < s.ring.write_cursor
      → Stored s.ring s.sent s.writers c
      → Stored written_ring now_sent (update s.writers k (Writer.wrote ct)) c
  written-Stored c lo up st = elim (ℕ_discrete c ct) [
    | yes h ↦ inr (k, ap position (update_self s.writers k (Writer.wrote ct)) ∙ ap some (sym h))
    | no ne ↦ elim st [
      | inl (f, d) ↦ inl (written_flag (c % 2 ^ 8) ∙ f, other_data c ne lo up d)
      | inr (l, at) ↦
          inr (l, same_held i since s v k (Writer.owns ct) (Writer.wrote ct) l c e refl at)
    ]
  ]

  pub write-Inv : Inv i since (record s {
    ring = write_multi bytes s.ring ct;
    writers = update s.writers k (Writer.wrote ct);
    sent = now_sent;
  })
  unfolding write_multi
  write-Inv =
      let (le, low, un) = owned in
      record {
        ring_ok = touch-IsRing s.ring (u8 ct) new_slot v.ring_ok.size (omega arith) refl v.ring_ok;
        reader = touch-IsReader i since s.ring (u8 ct) new_slot v.reader;
        early = v.early;
        fresh = v.fresh;
        cursor_eq = v.cursor_eq;
        behind = v.behind;
        lap = v.lap;
        log =
            v.log
            ∙ sym (
                sent_from-update s.sent ct bytes since (length s.got)
                  (omega (arith, v.cursor_eq, le)));
        past = λ idx pos h f. v.past idx pos h (sym (written_flag idx) ∙ f);
        marked = λ c lo up. written_mark (c % 2 ^ 8) (v.marked c lo up);
        stored = λ c lo up. written-Stored c lo up (v.stored c lo up);
        fits = λ l. elim (ℕ_discrete k l) [
          | yes h ↦
              subst (Fits i since written_ring now_sent s.read_cursor)
                (sym (update_self s.writers k (Writer.wrote ct))
                  ∙ ap (update s.writers k (Writer.wrote ct)) h)
                (
                  le,
                  low,
                  (λ g. un (sym (written_flag (ct % 2 ^ 8)) ∙ g)),
                  ap (λ (x : ChannelElemT). x.data_)
                        (slot-set_self s.ring (u8 ct) new_slot v.ring_ok.size (omega arith))
                      ∙ sym (update_self s.sent ct bytes),
                )
          | no ne ↦
              subst (Fits i since written_ring now_sent s.read_cursor)
                (sym (update_ne s.writers (Writer.wrote ct) ne))
                (written-Fits l (s.writers l) ne refl (v.fits l))
        ];
        alone = same_alone i since s v k (Writer.owns ct) (Writer.wrote ct) e refl;
      }
