-- ===== src/MultiRing/Readers.antt =====
-- The receivers' steps keep the invariant: receiver `i` reads what was sent for its cursor, and no
-- other receiver takes anything from it.
use thoth_ipc.Base.{
  ℕ, suc, ◌+◌, ◌^◌, ◌%◌, ◌<◌, ◌≡◌, ◌≢◌, refl, sym, ap, subst, ◌∙◌, arith, inl, inr, Option, some,
  none, List, [], ◌∷◌, ◌++◌, length, length-append, not64, not32, bit_and, Bool, true, false, not,
  ◌==◌, if◌then◌else◌, u8, add32,
}
use thoth_ipc.Base.Bits.{bit, bit-and, bit-not, bit_and-lt}
use thoth_ipc.Base.LowBit.{two_pow-lt}
use thoth_ipc.Liveness.{set_since, clear_owner}
use thoth_ipc.Route.{ring_size, claim_bit}
use thoth_ipc.Route.Peers.{set_since-kept, clear_owner-kept, other_bit}
use thoth_ipc.MultiRing.{
  ChannelRing, channel_slot, release_stale, release_multi, recv_slot_multi, join_multi,
  joined_multi, leave_multi,
}
use thoth_ipc.MultiRing.Run.{Writer, Sys, IsCommitted, Fits, Inv, position, sent_from}
use thoth_ipc.MultiRing.Frame.{Keeps, Keeps-IsRing, Keeps-IsReader, Keeps-IsMarked}
use thoth_ipc.MultiRing.Marks.{release_multi-Keeps, release_stale-Keeps}
use thoth_ipc.MultiRing.Keeps.{Inv-Keeps, Inv-peers, with_peers, Keeps-Stored, Keeps-Fits}

pub recv-committed :
    (ring ring' : ChannelRing) (id cur cur' : ℕ) (bytes : List ℕ)
    → recv_slot_multi ring id cur ≡ some (bytes, ring', cur')
    → ((channel_slot ring (u8 cur)).f_ct_ ≡ not64 cur)
      × (bytes ≡ (channel_slot ring (u8 cur)).data_)
      × (ring' ≡ release_multi ring id cur)
      × (cur' ≡ add32 cur 1)
unfolding recv_slot_multi
recv-committed ring ring' id cur cur' bytes h =
    go ((channel_slot ring (u8 cur)).f_ct_ == not64 cur) refl h
  where
    found : Option (List ℕ × ChannelRing × ℕ)
    found = some ((channel_slot ring (u8 cur)).data_, release_multi ring id cur, add32 cur 1)

    go :
        (b : Bool)
        → ((channel_slot ring (u8 cur)).f_ct_ == not64 cur) ≡ b
        → (if not b then none else found) ≡ some (bytes, ring', cur')
        → ((channel_slot ring (u8 cur)).f_ct_ ≡ not64 cur)
          × (bytes ≡ (channel_slot ring (u8 cur)).data_)
          × (ring' ≡ release_multi ring id cur)
          × (cur' ≡ add32 cur 1)
    go true e h = (ground (arith, e), cc, cc, cc)
    go false e h = cc

module _ (i since : ℕ) (hi : i < 32) (s : Sys) (v : Inv i since s) where
  -- A committed slot that `i` has come to holds what was sent, and no writer is at it.
  pub stored_next :
      IsCommitted s.ring s.read_cursor
      → s.read_cursor < 2 ^ 32
      → (s.read_cursor < s.ring.write_cursor)
        × ((channel_slot s.ring (u8 s.read_cursor)).data_ ≡ s.sent s.read_cursor)
  stored_next c lt =
      let below = v.past (u8 s.read_cursor) s.read_cursor lt c in
      elim (v.stored s.read_cursor (omega arith) below) [
        | inl (c', d) ↦ (below, d)
        | inr (k, at) ↦ absurd (go k (s.writers k) at (v.fits k) below)
      ]
    where
      go :
          (k : ℕ) (w : Writer)
          → position w ≡ some s.read_cursor
          → Fits i since s.ring s.sent s.read_cursor w
          → s.read_cursor < s.ring.write_cursor
          → ⊥
      go k Writer.idle at f below = cc
      go k (Writer.won ct) at f below = let e : ct ≡ s.read_cursor = cc in omega (arith, e, f.0)
      go k (Writer.owns ct) at f below =
          let e : ct ≡ s.read_cursor = cc in f.2 (subst (IsCommitted s.ring) (sym e) c)
      go k (Writer.wrote ct) at f below =
          let e : ct ≡ s.read_cursor = cc in f.2 (subst (IsCommitted s.ring) (sym e) c)

  -- A writer that has not committed is past the slot that is read.
  read_Fits :
      (w : Writer)
      → IsCommitted s.ring s.read_cursor
      → Fits i since s.ring s.sent s.read_cursor w
      → Fits i since s.ring s.sent (s.read_cursor + 1) w
  read_Fits Writer.idle c f = tt
  read_Fits (Writer.won ct) c (e, near, early, small, m) = (e, omega (arith, near), early, small, m)
  read_Fits (Writer.owns ct) c (le, low, un) =
      let ne : ct ≢ s.read_cursor = (λ e. un (subst (IsCommitted s.ring) (sym e) c)) in
      (omega (arith, ne), low, un)
  read_Fits (Writer.wrote ct) c (le, low, un, d) =
      let ne : ct ≢ s.read_cursor = (λ e. un (subst (IsCommitted s.ring) (sym e) c)) in
      (omega (arith, ne), low, un, d)

  read-log :
      (bytes : List ℕ)
      → bytes ≡ s.sent s.read_cursor
      → s.got ++ (bytes ∷ []) ≡ sent_from s.sent since (length (s.got ++ (bytes ∷ [])))
  read-log bytes e =
      let longer : length (s.got ++ (bytes ∷ [])) ≡ suc (length s.got) =
        length-append s.got (bytes ∷ []) ∙ omega arith in
      ap (λ xs. xs ++ (bytes ∷ [])) v.log
      ∙ ap (λ b. sent_from s.sent since (length s.got) ++ (b ∷ [])) (e ∙ ap s.sent v.cursor_eq)
      ∙ ap (sent_from s.sent since) (sym longer)

  pub receive-Inv :
      (bytes : List ℕ) (ring : ChannelRing) (cursor : ℕ)
      → recv_slot_multi s.ring (2 ^ i) s.read_cursor ≡ some (bytes, ring, cursor)
      → Inv i since (record s { ring = ring; read_cursor = cursor; got = s.got ++ (bytes ∷ []) })
  receive-Inv bytes ring cursor h =
      let (c, eb, er, ec) = recv-committed s.ring ring (2 ^ i) s.read_cursor cursor bytes h in
      let lt : s.read_cursor < 2 ^ 32 = omega (arith, v.behind, v.early) in
      let (below, d) = stored_next c lt in
      let skip = u8 s.read_cursor in
      let k : Keeps i skip s.ring ring = subst (Keeps i skip s.ring) (sym er) (
        release_multi-Keeps i skip s.ring (2 ^ i) s.read_cursor hi (two_pow-lt i 32 hi)
          v.ring_ok.size (λ ne. absurd (ne refl))) in
      let next : cursor ≡ s.read_cursor + 1 = ec ∙ omega (arith, below, v.early) in
      let longer : length (s.got ++ (bytes ∷ [])) ≡ length s.got + 1 =
        length-append s.got (bytes ∷ []) in
      let other : (ct : ℕ)
          → s.read_cursor < ct
          → ct < s.read_cursor + ring_size
          → ct % 2 ^ 8 ≢ skip =
        (λ ct lo up e. omega (arith, lo, up, e)) in
      let won_other : (l ct : ℕ) → s.writers l ≡ Writer.won ct → ct % 2 ^ 8 ≢ skip = (λ l ct e.
        let f : Fits i since s.ring s.sent s.read_cursor (Writer.won ct) =
          subst (Fits i since s.ring s.sent s.read_cursor) e (v.fits l) in
        other ct (omega (arith, f.0, below)) f.1) in
      record {
        ring_ok = Keeps-IsRing i skip s.ring ring k v.ring_ok;
        reader = Keeps-IsReader i skip since s.ring ring k v.reader;
        early = omega (arith, k.same_cursor, v.early);
        fresh = omega (arith, k.same_cursor, v.fresh);
        cursor_eq = omega (arith, next, v.cursor_eq, longer);
        behind = omega (arith, k.same_cursor, below, next);
        lap = omega (arith, k.same_cursor, v.lap, next);
        log = read-log bytes (eb ∙ d);
        past = λ idx pos hp e.
            omega (arith, k.same_cursor, v.past idx pos hp ((k.slot idx).flag pos hp e));
        marked = λ ct lo up.
            (Keeps-IsMarked i skip s.ring ring k v.ring_ok
              (other ct (omega (arith, next, lo)) (omega (arith, up, k.same_cursor, v.lap)))
              (v.marked ct (omega (arith, next, lo)) (omega (arith, up, k.same_cursor)))).0;
        stored = λ ct lo up.
            Keeps-Stored i skip s.ring ring k v.ring_ok s.sent s.writers ct
              (other ct (omega (arith, next, lo)) (omega (arith, up, k.same_cursor, v.lap)))
              (v.marked ct (omega (arith, next, lo)) (omega (arith, up, k.same_cursor)))
              (v.stored ct (omega (arith, next, lo)) (omega (arith, up, k.same_cursor)));
        fits = λ l.
            subst (λ n. Fits i since ring s.sent n (s.writers l)) (sym next)
              (Keeps-Fits i skip s.ring ring k v.ring_ok since (s.read_cursor + 1) s.sent
                (s.writers l) v.early (won_other l) (read_Fits (s.writers l) c (v.fits l)));
        alone = v.alone;
      }

  pub other_release-Inv :
      (conn_id cur : ℕ)
      → conn_id < 2 ^ 32
      → bit i conn_id ≡ 0
      → Inv i since (record s { ring = release_multi s.ring conn_id cur })
  other_release-Inv conn_id cur hid off =
      Inv-Keeps s (release_multi s.ring conn_id cur) i since v
        (release_multi-Keeps i ring_size s.ring conn_id cur hi hid v.ring_ok.size (λ ne. off))

  pub other_leave-Inv :
      (conn_id : ℕ)
      → conn_id < 2 ^ 32
      → bit i conn_id ≡ 0
      → Inv i since (record s { ring = leave_multi s.ring conn_id })
  unfolding leave_multi
  other_leave-Inv conn_id hid off =
      let (owners', table, kept) = clear_owner-kept v.reader.owners i conn_id hid off in
      Inv-peers s i since (bit_and s.ring.connections (not32 conn_id))
        (clear_owner s.ring.liveness conn_id) v
        (bit_and-lt 32 s.ring.connections (not32 conn_id) v.ring_ok.connections_lt)
        (record {
          connected =
              bit-and i s.ring.connections (not32 conn_id)
              ∙ omega (arith, bit-not 32 i conn_id hid hi, v.reader.connected, off);
          owners = owners';
          table = rw v.reader.table table;
          started = kept ∙ v.reader.started;
        })

  join_multi-eq :
      (ring : ChannelRing) (start conn_id : ℕ)
      → join_multi s.ring start ≡ some (conn_id, ring)
      → (next : ℕ) × (claim_bit s.ring.connections ≡ some (next, conn_id))
        × (ring
            ≡ release_stale
                (with_peers s.ring next (set_since s.ring.liveness conn_id start))
                start
                conn_id)
  unfolding join_multi
  join_multi-eq ring start conn_id h = go (claim_bit s.ring.connections) refl h
    where
      go :
          (o : Option (ℕ × ℕ))
          → claim_bit s.ring.connections ≡ o
          → joined_multi s.ring start o ≡ some (conn_id, ring)
          → (next : ℕ) × (claim_bit s.ring.connections ≡ some (next, conn_id))
            × (ring
                ≡ release_stale
                    (with_peers s.ring next (set_since s.ring.liveness conn_id start))
                    start
                    conn_id)
      go none e h = cc
      go (some (next, id')) e h =
          let same : id' ≡ conn_id = cc in (next, rw (sym same) e, rw (sym same) cc)

  pub other_join-Inv :
      (ring : ChannelRing) (start conn_id : ℕ)
      → join_multi s.ring start ≡ some (conn_id, ring)
      → Inv i since (record s { ring = ring })
  other_join-Inv ring start conn_id h =
      let (next, claimed, e) = join_multi-eq ring start conn_id h in
      let (next_lt, id_lt, on, off) =
        other_bit s.ring.connections next conn_id i v.ring_ok.connections_lt v.reader.connected
          claimed in
      let (owners', table, kept) = set_since-kept v.reader.owners i conn_id start id_lt off in
      let peers = with_peers s.ring next (set_since s.ring.liveness conn_id start) in
      let v' : Inv i since (record s { ring = peers }) =
        Inv-peers s i since next (set_since s.ring.liveness conn_id start) v next_lt (record {
          connected = on;
          owners = owners';
          table = rw v.reader.table table;
          started = kept ∙ v.reader.started;
        }) in
      subst (λ r. Inv i since (record s { ring = r })) (sym e)
        (Inv-Keeps (record s { ring = peers }) (release_stale peers start conn_id) i since v'
          (release_stale-Keeps i conn_id hi id_lt off peers start v.ring_ok.size))
