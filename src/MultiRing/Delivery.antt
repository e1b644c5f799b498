-- ===== src/MultiRing/Delivery.antt =====
-- Runs of a channel from the moment that a receiver has joined.
use thoth_ipc.Base.{
  ℕ, ◌+◌, ◌^◌, ◌≤◌, ◌<◌, ◌≡◌, ◌≢◌, refl, sym, ap, subst, ◌∙◌, arith, inl, inr, some, [], length,
  not64, ==_self, u8, add32,
}
use thoth_ipc.Route.{ring_size}
use thoth_ipc.MultiRing.{ChannelRing, channel_slot, release_multi, recv_slot_multi}
use thoth_ipc.MultiRing.Run.{
  Writer, Sys, Step, Run, IsRing, IsReader, IsCommitted, Fits, Inv, position, sent_from,
}
use thoth_ipc.MultiRing.Claim.{claim-Inv}
use thoth_ipc.MultiRing.Writers.{advance-Inv}
use thoth_ipc.MultiRing.Write.{write-Inv}
use thoth_ipc.MultiRing.Commit.{commit-Inv}
use thoth_ipc.MultiRing.Readers.{receive-Inv, other_release-Inv, other_join-Inv, other_leave-Inv}

-- Receiver `i` has joined at the write cursor while no push was under way; nothing is committed for
-- a position that is yet to come.
pub record HasJoined (i : ℕ) (s : Sys) : Type 0 where
  pub ring_ok : IsRing s.ring
  pub reader : IsReader i s.read_cursor s.ring
  pub cursor_lt : s.ring.write_cursor < 2 ^ 32
  pub at_cursor : s.read_cursor ≡ s.ring.write_cursor
  pub all_idle : (k : ℕ) → s.writers k ≡ Writer.idle
  pub past :
      (idx pos : ℕ)
      → pos < 2 ^ 32
      → (channel_slot s.ring idx).f_ct_ ≡ not64 pos
      → pos < s.ring.write_cursor
  pub none_got : s.got ≡ []

HasJoined-Inv : (i : ℕ) (s : Sys) → HasJoined i s → Inv i s.read_cursor s
HasJoined-Inv i s j =
    let none_yet : length s.got ≡ 0 = ap length j.none_got in
    record {
      ring_ok = j.ring_ok;
      reader = j.reader;
      early = j.cursor_lt;
      fresh = omega (arith, j.at_cursor);
      cursor_eq = omega (arith, none_yet);
      behind = omega (arith, j.at_cursor);
      lap = omega (arith, j.at_cursor);
      log = rw j.none_got refl;
      past = j.past;
      marked = λ ct lo up. absurd (omega (arith, lo, up, j.at_cursor));
      stored = λ ct lo up. absurd (omega (arith, lo, up, j.at_cursor));
      fits = λ k. subst (Fits i s.read_cursor s.ring s.sent s.read_cursor) (sym (j.all_idle k)) tt;
      alone = λ k l ct h g. let e = sym (ap position (j.all_idle k)) ∙ h in cc;
    }

Step-Inv : (i since : ℕ) (s t : Sys) → i < 32 → Inv i since s → Step i since s t → Inv i since t
Step-Inv i since _ _ hi v (Step.claim s k ring idle early small c) =
    claim-Inv i since hi s v ring c k idle early small
Step-Inv i since _ _ hi v (Step.advance s k ct e) = advance-Inv i since s v k ct e
Step-Inv i since _ _ hi v (Step.write s k ct bytes e) = write-Inv i since s v k ct bytes e
Step-Inv i since _ _ hi v (Step.commit s k ct e) = commit-Inv i since s v k ct e hi
Step-Inv i since _ _ hi v (Step.receive s bytes ring cursor e) =
    receive-Inv i since hi s v bytes ring cursor e
Step-Inv i since _ _ hi v (Step.other_release s id cur hid off cur_lt) =
    other_release-Inv i since hi s v id cur hid off
Step-Inv i since _ _ hi v (Step.other_join s start id ring e) =
    other_join-Inv i since hi s v ring start id e
Step-Inv i since _ _ hi v (Step.other_leave s id hid off) =
    other_leave-Inv i since hi s v id hid off

Run-Inv : (i since : ℕ) (s t : Sys) → i < 32 → Inv i since s → Run i since s t → Inv i since t
Run-Inv i since _ _ hi v (Run.done s) = v
Run-Inv i since _ _ hi v (Run.next s t u run step) =
    Step-Inv i since t u hi (Run-Inv i since s t hi v run) step

-- Receiver `i` joins a channel while no push is under way, and starts to read at the write cursor;
-- then any number of writers, `i` itself and other receivers that read, join and leave take steps
-- in any order, with claims only while the commit index is below 2^32 - 1 and less than 2^31 past
-- the start. At any point `i` has got exactly what was sent for the positions from its start on, in
-- their order; its cursor is that far ahead; and the commit index is between its cursor and one lap
-- past it.
pub Run-Gets :
    (i : ℕ) (s t : Sys)
    → i < 32
    → HasJoined i s
    → Run i s.read_cursor s t
    → (t.got ≡ sent_from t.sent s.read_cursor (length t.got))
      × (t.read_cursor ≡ s.read_cursor + length t.got)
      × (t.read_cursor ≤ t.ring.write_cursor)
      × (t.ring.write_cursor ≤ t.read_cursor + ring_size)
Run-Gets i s t hi j run =
    let v = Run-Inv i s.read_cursor s t hi (HasJoined-Inv i s j) run in
    (v.log, v.cursor_eq, v.behind, v.lap)

-- In such a run, no two writers are ever at the same position between their claim and their commit.
pub Run-Exclusive :
    (i : ℕ) (s t : Sys)
    → i < 32
    → HasJoined i s
    → Run i s.read_cursor s t
    → (k l ct : ℕ) → position (t.writers k) ≡ some ct
    → position (t.writers l) ≡ some ct
    → k ≡ l
Run-Exclusive i s t hi j run = (Run-Inv i s.read_cursor s t hi (HasJoined-Inv i s j) run).alone

recv_committed :
    (ring : ChannelRing) (id cur : ℕ)
    → IsCommitted ring cur
    → recv_slot_multi ring id cur
      ≡ some ((channel_slot ring (u8 cur)).data_, release_multi ring id cur, add32 cur 1)
unfolding recv_slot_multi
recv_committed ring id cur c = rw (c, ==_self (not64 cur)) refl

-- In such a run, where the commit index is past the cursor of `i` and no writer is still at that
-- position, the next receive of `i` returns what was sent for it and moves the cursor by one.
pub Run-Reads :
    (i : ℕ) (s t : Sys)
    → i < 32
    → HasJoined i s
    → Run i s.read_cursor s t
    → t.read_cursor < t.ring.write_cursor
    → ((k : ℕ) → position (t.writers k) ≢ some t.read_cursor)
    → recv_slot_multi t.ring (2 ^ i) t.read_cursor
      ≡ some (t.sent t.read_cursor, release_multi t.ring (2 ^ i) t.read_cursor, t.read_cursor + 1)
Run-Reads i s t hi j run below none_at =
    let v = Run-Inv i s.read_cursor s t hi (HasJoined-Inv i s j) run in
    elim (v.stored t.read_cursor (omega arith) below) [
      | inl (c, d) ↦
          let next : add32 t.read_cursor 1 ≡ t.read_cursor + 1 = omega (arith, below, v.early) in
          recv_committed t.ring (2 ^ i) t.read_cursor c ∙ rw (d, next) refl
      | inr (k, at) ↦ absurd (none_at k at)
    ]
