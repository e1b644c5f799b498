-- ===== src/MultiRing/Tests.antt =====
-- A run of a channel ring, and the theorems at concrete inputs.
use thoth_ipc.Base.{
  ◌*◌, ◌⊎◌, ℕ, zero, suc, ◌+◌, ◌-◌, ◌^◌, ◌≤◌, ◌<◌, ◌≡◌, ◌≢◌, refl, arith, [], ◌∷◌, some, replicate,
  update, update_self, update_ne, update-elim, get_or, set, each_bit, trailing_zeros,
}
use thoth_ipc.Liveness.{no_owner, live_marks, keep_live}
use thoth_ipc.Route.{ring_size}
use thoth_ipc.MultiRing.{
  ChannelRing, MultiClaim, unused, channel_slot, set_slot, inc_rc, inc_mask, claim_multi,
  advance_multi, write_multi, commit_multi, clear_mark, free_flag, release_multi, recv_slot_multi,
  release_mark,
}
use thoth_ipc.MultiRing.Run.{Writer, Sys, Step, Run, sent_from, position}
use thoth_ipc.MultiRing.Delivery.{HasJoined, Run-Gets, Run-Exclusive, Run-Reads}
use thoth_ipc.MultiRing.Laps.{IsFreed, IsClaimed, claim-next_lap, claim-wrap_stalls}

-- Receivers 0 and 1 are connected, and nothing is written yet.
abbrev fresh : ChannelRing
fresh = record {
  connections = 3;
  epoch = 0;
  write_cursor = 0;
  liveness = some (replicate 32 no_owner);
  slots = replicate 256 unused;
}

abbrev start : Sys
start = record {
  ring = fresh;
  writers = λ k. Writer.idle;
  sent = λ ct. [];
  read_cursor = 0;
  got = [];
}

unused_all : (n idx : ℕ) → get_or (replicate n unused) idx unused ≡ unused
unused_all zero idx = refl
unused_all (suc n) zero = refl
unused_all (suc n) (suc idx) = unused_all n idx

start-HasJoined : HasJoined 0 start
start-HasJoined = record {
  ring_ok = record {
    connections_lt = omega arith;
    epoch_lt = omega arith;
    epoch_high = refl;
    size = refl;
    rc_lt = λ idx. rw (unused_all 256 idx) (omega arith);
  };
  reader = record {
    connected = refl;
    owners = replicate 32 no_owner;
    table = refl;
    started = refl;
  };
  cursor_lt = omega arith;
  at_cursor = refl;
  all_idle = λ k. refl;
  past = λ idx pos h e.
      let zero_flag : (channel_slot fresh idx).f_ct_ ≡ 0 = rw (unused_all 256 idx) refl in
      absurd (omega (arith, e, zero_flag));
  none_got = refl;
}

-- Writer 4 claims the slot of position 0.
abbrev marked : ChannelRing
marked = set_slot fresh 0 (record { data_ = []; rc_ = 2 ^ 32 + 3; f_ct_ = 0 })

claim_runs : claim_multi fresh 0 ≡ MultiClaim.claimed marked
unfolding claim_multi inc_mask inc_rc
claim_runs = refl

abbrev claimed : Sys
claimed = record start { ring = marked; writers = update start.writers 4 (Writer.won 0) }

abbrev advanced : Sys
advanced = record claimed {
  ring = advance_multi marked 0;
  writers = update claimed.writers 4 (Writer.owns 0);
}

abbrev wrote : Sys
wrote = record advanced {
  ring = write_multi (7 ∷ []) advanced.ring 0;
  writers = update advanced.writers 4 (Writer.wrote 0);
  sent = update advanced.sent 0 (7 ∷ []);
}

abbrev committed : Sys
committed = record wrote {
  ring = commit_multi wrote.ring 0;
  writers = update wrote.writers 4 Writer.idle;
}

to_claimed : Run 0 0 start claimed
to_claimed =
    Run.next start start claimed (Run.done start)
      (Step.claim start 4 marked refl (omega arith) (omega arith) claim_runs)

one_push : Run 0 0 start committed
one_push =
    Run.next start wrote committed
      (Run.next start advanced wrote
        (Run.next start claimed advanced to_claimed
          (Step.advance claimed 4 0 (update_self start.writers 4 (Writer.won 0))))
        (Step.write advanced 4 0 (7 ∷ []) (update_self claimed.writers 4 (Writer.owns 0))))
      (Step.commit wrote 4 0 (update_self advanced.writers 4 (Writer.wrote 0)))

-- Receiver 0 reads it; the mark of receiver 1 stays.
abbrev after : ChannelRing
after = release_multi committed.ring 1 0

recv_runs : recv_slot_multi committed.ring 1 0 ≡ some (7 ∷ [], after, 1)
unfolding recv_slot_multi commit_multi write_multi advance_multi live_marks each_bit keep_live
    trailing_zeros release_mark
recv_runs = refl

after_mark : (channel_slot after 0).rc_ ≡ 2 ^ 33 + 2
unfolding release_multi clear_mark inc_rc commit_multi write_multi advance_multi live_marks each_bit
    keep_live trailing_zeros release_mark
after_mark = refl

abbrev received : Sys
received = record committed { ring = after; read_cursor = 1; got = (7 ∷ []) ∷ [] }

one_message : Run 0 0 start received
one_message =
    Run.next start committed received one_push (Step.receive committed (7 ∷ []) after 1 recv_runs)

Run-Gets_example :
    ((7 ∷ []) ∷ [] ≡ sent_from received.sent 0 1)
    × (1 ≡ 0 + 1)
    × (1 ≤ received.ring.write_cursor)
    × (received.ring.write_cursor ≤ 1 + ring_size)
Run-Gets_example = Run-Gets 0 start received (omega arith) start-HasJoined one_message

Run-Exclusive_example : ◌≡◌ {A = ℕ} 4 4
Run-Exclusive_example =
    Run-Exclusive 0 start claimed (omega arith) start-HasJoined to_claimed 4 4 0 (claimed_place)
      (claimed_place)
  where
    claimed_place : position (claimed.writers 4) ≡ some 0
    claimed_place = rw (update_self start.writers 4 (Writer.won 0)) refl

committed_behind : 0 < committed.ring.write_cursor
unfolding commit_multi write_multi advance_multi live_marks each_bit keep_live trailing_zeros
    release_mark
committed_behind = omega arith

none_at_zero : (k : ℕ) → position (committed.writers k) ≢ some 0
none_at_zero =
    update-elim (λ k w. position w ≢ some 0) wrote.writers 4 Writer.idle (λ e. cc)
      (λ k ne e.
        let idle : wrote.writers k ≡ Writer.idle =
          rw
            (
              update_ne advanced.writers (Writer.wrote 0) ne,
              update_ne claimed.writers (Writer.owns 0) ne,
              update_ne start.writers (Writer.won 0) ne,
            )
            refl in
        cc)

Run-Reads_example :
    recv_slot_multi committed.ring 1 0
    ≡ some (committed.sent 0, release_multi committed.ring 1 0, 1)
Run-Reads_example =
    Run-Reads 0 start committed (omega arith) start-HasJoined one_push committed_behind none_at_zero

-- Both receivers have left the slot of position 0, and the writer is a lap on.
abbrev freed : ChannelRing
freed = record fresh {
  write_cursor = 256;
  slots = set fresh.slots 0 (record { data_ = 7 ∷ []; rc_ = 2 ^ 34; f_ct_ = 256 });
}

-- Receiver 0 has still the last mark on it.
abbrev last_reader : ChannelRing
last_reader = record fresh {
  write_cursor = 1;
  slots = set fresh.slots 0 (record { data_ = 7 ∷ []; rc_ = 3 * 2 ^ 32 + 1; f_ct_ = 2 ^ 64 - 1 });
}

freed_slot : channel_slot freed 0 ≡ channel_slot (release_multi last_reader 1 0) 0
unfolding release_multi clear_mark inc_rc free_flag
freed_slot = refl

claim-next_lap_example :
    ((freed.write_cursor ≡ 0 + ring_size)
      × ((won : ChannelRing) × (claim_multi freed freed.epoch ≡ MultiClaim.claimed won)
          × IsClaimed freed won))
    ⊎ ((freed.write_cursor ≢ 0 + ring_size)
        × (claim_multi freed freed.epoch ≡ MultiClaim.must_wait))
claim-next_lap_example =
    claim-next_lap last_reader freed 1 0 refl refl (omega arith) (omega arith) refl freed_slot
      (λ e. omega (arith, e)) refl

-- The same at the end of the cursor: position 2^32 - 256 is left, and the index has wrapped to 0.
abbrev wrapped : ChannelRing
wrapped = record fresh {
  write_cursor = 0;
  slots = set fresh.slots 0 (record { data_ = 7 ∷ []; rc_ = 2 ^ 34; f_ct_ = 2 ^ 32 });
}

wrapped-IsFreed : IsFreed wrapped (2 ^ 32 - 256)
unfolding free_flag
wrapped-IsFreed = record { no_marks = refl; flag = refl }

claim-wrap_stalls_example : claim_multi wrapped 0 ≡ MultiClaim.must_wait
claim-wrap_stalls_example =
    claim-wrap_stalls wrapped (2 ^ 32 - 256) wrapped-IsFreed (λ e. omega (arith, e)) (omega arith)
      (omega arith) (omega arith)
