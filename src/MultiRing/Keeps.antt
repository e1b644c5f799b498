-- ===== src/MultiRing/Keeps.antt =====
-- An operation that keeps the slots for receiver `i` keeps the invariant of its runs; so does one
-- that changes the connections and the table of owners for others.
use thoth_ipc.Base.{ℕ, ◌^◌, ◌%◌, ◌<◌, ◌≡◌, ◌≢◌, refl, sym, ◌∙◌, arith, inl, inr, List}
use thoth_ipc.Route.{ring_size}
use thoth_ipc.Liveness.{ConnLiveness}
use thoth_ipc.MultiRing.{ChannelRing}
use thoth_ipc.MultiRing.Run.{
  Writer, Sys, IsRing, IsReader, IsMarked, IsCommitted, Fits, Stored, Inv,
}
use thoth_ipc.MultiRing.Frame.{Keeps, Keeps-IsRing, Keeps-IsReader, Keeps-IsMarked}

module _ (i skip : ℕ) (ring ring' : ChannelRing) (k : Keeps i skip ring ring')
    (ok : IsRing ring) where
  -- A slot that is not committed does not become so.
  pub Keeps-uncommitted :
      (ct : ℕ) → ct < 2 ^ 32 → (IsCommitted ring ct → ⊥) → IsCommitted ring' ct → ⊥
  Keeps-uncommitted ct h un c = un ((k.slot (ct % 2 ^ 8)).flag ct h c)

  pub Keeps-Stored :
      (sent : ℕ → List ℕ) (writers : ℕ → Writer) (ct : ℕ)
      → ct % 2 ^ 8 ≢ skip
      → IsMarked i (ct % 2 ^ 8) ring
      → Stored ring sent writers ct
      → Stored ring' sent writers ct
  Keeps-Stored sent writers ct ne m (inl (c, d)) =
      inl ((Keeps-IsMarked i skip ring ring' k ok ne m).1 ∙ c, (k.slot (ct % 2 ^ 8)).same_data ∙ d)
  Keeps-Stored sent writers ct ne m (inr w) = inr w

  pub Keeps-Fits :
      (since cursor : ℕ) (sent : ℕ → List ℕ) (w : Writer)
      → ring.write_cursor < 2 ^ 32
      → ((ct : ℕ) → w ≡ Writer.won ct → ct % 2 ^ 8 ≢ skip)
      → Fits i since ring sent cursor w
      → Fits i since ring' sent cursor w
  Keeps-Fits since cursor sent Writer.idle lt ne f = tt
  Keeps-Fits since cursor sent (Writer.won ct) lt ne (e, near, early, small, m) = (
    e ∙ sym k.same_cursor,
    near,
    early,
    small,
    (Keeps-IsMarked i skip ring ring' k ok (ne ct refl) m).0,
  )
  Keeps-Fits since cursor sent (Writer.owns ct) lt ne (le, low, un) =
      (le, omega (arith, k.same_cursor), Keeps-uncommitted ct (omega arith) un)
  Keeps-Fits since cursor sent (Writer.wrote ct) lt ne (le, low, un, d) = (
    le,
    omega (arith, k.same_cursor),
    Keeps-uncommitted ct (omega arith) un,
    (k.slot (ct % 2 ^ 8)).same_data ∙ d,
  )

-- no slot is skipped
pub Inv-Keeps :
    (s : Sys) (ring' : ChannelRing) (i since : ℕ)
    → Inv i since s
    → Keeps i ring_size s.ring ring'
    → Inv i since (record s { ring = ring' })
Inv-Keeps s ring' i since v k =
    let any : (ct : ℕ) → ct % 2 ^ 8 ≢ ring_size = (λ ct e. omega (arith, e)) in
    record {
      ring_ok = Keeps-IsRing i ring_size s.ring ring' k v.ring_ok;
      reader = Keeps-IsReader i ring_size since s.ring ring' k v.reader;
      early = omega (arith, k.same_cursor, v.early);
      fresh = omega (arith, k.same_cursor, v.fresh);
      cursor_eq = v.cursor_eq;
      behind = omega (arith, k.same_cursor, v.behind);
      lap = omega (arith, k.same_cursor, v.lap);
      log = v.log;
      past =
          λ idx pos h e. omega (arith, k.same_cursor, v.past idx pos h ((k.slot idx).flag pos h e));
      marked = λ ct lo hi.
          (Keeps-IsMarked i ring_size s.ring ring' k v.ring_ok (any ct)
            (v.marked ct lo (omega (arith, k.same_cursor)))).0;
      stored = λ ct lo hi.
          let below : ct < s.ring.write_cursor = omega (arith, k.same_cursor) in
          Keeps-Stored i ring_size s.ring ring' k v.ring_ok s.sent s.writers ct (any ct)
            (v.marked ct lo below) (v.stored ct lo below);
      fits = λ l.
          Keeps-Fits i ring_size s.ring ring' k v.ring_ok since s.read_cursor s.sent (s.writers l)
            v.early (λ ct e. any ct) (v.fits l);
      alone = v.alone;
    }

-- a ring with other connections and owners
abbrev pub with_peers : ChannelRing → ℕ → ConnLiveness → ChannelRing
with_peers ring cc owners = record ring { connections = cc; liveness = owners }

peers-Fits :
    (i since : ℕ) (ring : ChannelRing) (cc : ℕ) (owners : ConnLiveness) (sent : ℕ → List ℕ)
    (cursor : ℕ) (w : Writer)
    → Fits i since ring sent cursor w
    → Fits i since (with_peers ring cc owners) sent cursor w
peers-Fits i since ring cc owners sent cursor Writer.idle f = tt
peers-Fits i since ring cc owners sent cursor (Writer.won ct) (e, near, early, small, m) =
    (e, near, early, small, record { marked = m.marked; current = m.current })
peers-Fits i since ring cc owners sent cursor (Writer.owns ct) f = f
peers-Fits i since ring cc owners sent cursor (Writer.wrote ct) f = f

pub Inv-peers :
    (s : Sys) (i since cc : ℕ) (owners : ConnLiveness)
    → Inv i since s
    → cc < 2 ^ 32
    → IsReader i since (with_peers s.ring cc owners)
    → Inv i since (record s { ring = with_peers s.ring cc owners })
Inv-peers s i since cc owners v lt reader = record {
  ring_ok = record {
    connections_lt = lt;
    epoch_lt = v.ring_ok.epoch_lt;
    epoch_high = v.ring_ok.epoch_high;
    size = v.ring_ok.size;
    rc_lt = v.ring_ok.rc_lt;
  };
  reader = reader;
  early = v.early;
  fresh = v.fresh;
  cursor_eq = v.cursor_eq;
  behind = v.behind;
  lap = v.lap;
  log = v.log;
  past = v.past;
  marked =
      λ ct lo hi. let m = v.marked ct lo hi in record { marked = m.marked; current = m.current };
  stored = v.stored;
  fits = λ l. peers-Fits i since s.ring cc owners s.sent s.read_cursor (s.writers l) (v.fits l);
  alone = v.alone;
}
