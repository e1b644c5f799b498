-- ===== src/MultiRing/Run.antt =====
-- Runs of a channel as receiver `i` sees them: its own reads, any number of writers, and the other
-- receivers, interleaved in any order. The reaper is not a step.
use thoth_ipc.Base.{
  ℕ, zero, suc, ◌+◌, ◌^◌, ◌%◌, ◌≤◌, ◌<◌, ◌≡◌, ◌⊎◌, List, [], ◌∷◌, ◌++◌, Option, none, some, length,
  update, bit_and, not64,
}
use thoth_ipc.Base.Bits.{bit}
use thoth_ipc.Liveness.{SlotOwner, owner_at}
use thoth_ipc.Route.{ring_size}
use thoth_ipc.MultiRing.{
  ChannelRing, MultiClaim, ch_ep_mask, channel_slot, claim_multi, advance_multi, write_multi,
  commit_multi, recv_slot_multi, release_multi, join_multi, leave_multi,
}

-- Where a writer is in a push: before its claim, before it moves the commit index, before its write
-- and before its commit.
pub data Writer : Type 0 where
  idle : Writer
  won : ℕ → Writer
  owns : ℕ → Writer
  wrote : ℕ → Writer

-- `sent` is what was written for each position, and `got` what receiver `i` has read.
pub record Sys : Type 0 where
  pub ring : ChannelRing
  pub writers : ℕ → Writer
  pub sent : ℕ → List ℕ
  pub read_cursor : ℕ
  pub got : List (List ℕ)

-- Receiver `i` started to read at `since`. Claims stop 2^31 positions after that, where `live_marks`
-- no longer counts its marks, and before the commit index wraps.
pub data Step (i since : ℕ) : Sys → Sys → Type 0 where
  claim :
      (s : Sys) (k : ℕ) (ring : ChannelRing)
      → s.writers k ≡ Writer.idle
      → s.ring.write_cursor < since + 2 ^ 31
      → s.ring.write_cursor + 1 < 2 ^ 32
      → claim_multi s.ring s.ring.epoch ≡ MultiClaim.claimed ring
      → Step i since s
          (record s { ring = ring; writers = update s.writers k (Writer.won s.ring.write_cursor) })
  advance :
      (s : Sys) (k ct : ℕ)
      → s.writers k ≡ Writer.won ct
      → Step i since s (record s {
        ring = advance_multi s.ring ct;
        writers = update s.writers k (Writer.owns ct);
      })
  write :
      (s : Sys) (k ct : ℕ) (bytes : List ℕ)
      → s.writers k ≡ Writer.owns ct
      → Step i since s (record s {
        ring = write_multi bytes s.ring ct;
        writers = update s.writers k (Writer.wrote ct);
        sent = update s.sent ct bytes;
      })
  commit :
      (s : Sys) (k ct : ℕ)
      → s.writers k ≡ Writer.wrote ct
      → Step i since s
          (record s { ring = commit_multi s.ring ct; writers = update s.writers k Writer.idle })
  receive :
      (s : Sys) (bytes : List ℕ) (ring : ChannelRing) (cursor : ℕ)
      → recv_slot_multi s.ring (2 ^ i) s.read_cursor ≡ some (bytes, ring, cursor)
      → Step i since s (record s { ring = ring; read_cursor = cursor; got = s.got ++ (bytes ∷ []) })
  other_release :
      (s : Sys) (conn_id cur : ℕ)
      → conn_id < 2 ^ 32
      → bit i conn_id ≡ 0
      → cur < 2 ^ 32
      → Step i since s (record s { ring = release_multi s.ring conn_id cur })
  other_join :
      (s : Sys) (start conn_id : ℕ) (ring : ChannelRing)
      → join_multi s.ring start ≡ some (conn_id, ring)
      → Step i since s (record s { ring = ring })
  other_leave :
      (s : Sys) (conn_id : ℕ)
      → conn_id < 2 ^ 32
      → bit i conn_id ≡ 0
      → Step i since s (record s { ring = leave_multi s.ring conn_id })

pub data Run (i since : ℕ) : Sys → Sys → Type 0 where
  done : (s : Sys) → Run i since s s
  next : (s t u : Sys) → Run i since s t → Step i since t u → Run i since s u

-- The ring's words are in range.
pub record IsRing (ring : ChannelRing) : Type 0 where
  pub connections_lt : ring.connections < 2 ^ 32
  pub epoch_lt : ring.epoch < 2 ^ 64
  pub epoch_high : ring.epoch % 2 ^ 56 ≡ 0
  pub size : length ring.slots ≡ ring_size
  pub rc_lt : (idx : ℕ) → (channel_slot ring idx).rc_ < 2 ^ 64

-- Receiver `i` is connected and started to read at `since`.
pub record IsReader (i since : ℕ) (ring : ChannelRing) : Type 0 where
  pub connected : bit i ring.connections ≡ 1
  pub owners : List SlotOwner
  pub table : ring.liveness ≡ some owners
  pub started : (owner_at owners i).since ≡ since

-- The slot carries the unread mark of `i` in the ring's epoch.
pub record IsMarked (i idx : ℕ) (ring : ChannelRing) : Type 0 where
  pub marked : bit i (channel_slot ring idx).rc_ ≡ 1
  pub current : bit_and (channel_slot ring idx).rc_ (not64 ch_ep_mask) ≡ ring.epoch

-- The slot of position `pos` is committed for it.
abbrev pub IsCommitted : ChannelRing → ℕ → Type 0
IsCommitted ring pos = (channel_slot ring (pos % 2 ^ 8)).f_ct_ ≡ not64 pos

-- The position that a writer has claimed and not committed
abbrev pub position : Writer → Option ℕ
position Writer.idle = none
position (Writer.won ct) = some ct
position (Writer.owns ct) = some ct
position (Writer.wrote ct) = some ct

-- What a writer's place says of the ring that holds the positions from `cursor` on for `i`.
abbrev pub Fits : ℕ → ℕ → ChannelRing → (ℕ → List ℕ) → ℕ → Writer → Type 0
Fits i since ring sent cursor Writer.idle = Unit
Fits i since ring sent cursor (Writer.won ct) =
    (ct ≡ ring.write_cursor)
    × (ct < cursor + ring_size)
    × (ct < since + 2 ^ 31)
    × (ct + 1 < 2 ^ 32)
    × IsMarked i (ct % 2 ^ 8) ring
Fits i since ring sent cursor (Writer.owns ct) =
    (cursor ≤ ct) × (ct < ring.write_cursor) × (IsCommitted ring ct → ⊥)
Fits i since ring sent cursor (Writer.wrote ct) =
    (cursor ≤ ct)
    × (ct < ring.write_cursor)
    × (IsCommitted ring ct → ⊥)
    × ((channel_slot ring (ct % 2 ^ 8)).data_ ≡ sent ct)

-- Position `ct` is committed with what was sent for it, or a writer is still at it.
abbrev pub Stored : ChannelRing → (ℕ → List ℕ) → (ℕ → Writer) → ℕ → Type 0
Stored ring sent writers ct =
    (IsCommitted ring ct × ((channel_slot ring (ct % 2 ^ 8)).data_ ≡ sent ct))
    ⊎ ((k : ℕ) × (position (writers k) ≡ some ct))

-- What was sent for the positions `start`, …, `start + n - 1`
abbrev pub sent_from : (ℕ → List ℕ) → ℕ → ℕ → List (List ℕ)
sent_from sent start zero = []
sent_from sent start (suc n) = sent_from sent start n ++ (sent (start + n) ∷ [])

pub record Inv (i since : ℕ) (s : Sys) : Type 0 where
  pub ring_ok : IsRing s.ring
  pub reader : IsReader i since s.ring
  pub early : s.ring.write_cursor < 2 ^ 32
  pub fresh : s.ring.write_cursor ≤ since + 2 ^ 31
  pub cursor_eq : s.read_cursor ≡ since + length s.got
  pub behind : s.read_cursor ≤ s.ring.write_cursor
  pub lap : s.ring.write_cursor ≤ s.read_cursor + ring_size
  pub log : s.got ≡ sent_from s.sent since (length s.got)
  pub past :
      (idx pos : ℕ)
      → pos < 2 ^ 32
      → (channel_slot s.ring idx).f_ct_ ≡ not64 pos
      → pos < s.ring.write_cursor
  pub marked :
      (ct : ℕ) → s.read_cursor ≤ ct → ct < s.ring.write_cursor → IsMarked i (ct % 2 ^ 8) s.ring
  pub stored :
      (ct : ℕ) → s.read_cursor ≤ ct → ct < s.ring.write_cursor → Stored s.ring s.sent s.writers ct
  pub fits : (k : ℕ) → Fits i since s.ring s.sent s.read_cursor (s.writers k)
  pub alone :
      (k l ct : ℕ) → position (s.writers k) ≡ some ct → position (s.writers l) ≡ some ct → k ≡ l
