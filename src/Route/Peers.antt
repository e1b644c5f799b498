-- ===== src/Route/Peers.antt =====
-- Another receiver joins or leaves: receiver `i` stays connected, from where it started.
use thoth_ipc.Base.{
  ==_ne, ℕ, ◌^◌, ◌<◌, bit_or, bit_xor, ◌≡◌, ◌≢◌, refl, sym, ap, ◌∙◌, arith, List, set,
  get_or-set_ne, Option, some, none, ℕ_discrete, add32, not32, Bool, true, false, ◌==◌,
  if◌then◌else◌, trailing_zeros,
}
use thoth_ipc.Base.Bits.{
  bit, bit-le, bit-and, bit-or, bit-xor, bit-not, bit_and-lt, bit_or-lt, bit_xor-lt,
}
use thoth_ipc.Base.LowBit.{bit-trailing_zeros}
use thoth_ipc.Liveness.{SlotOwner, no_owner, owner_at, set_since, clear_owner}
use thoth_ipc.Route.{Ring, claim_bit, joined, join_bit, leave}
use thoth_ipc.Route.Run.{Sys, Waits}
use thoth_ipc.Route.Frame.{Waits-Keeps}

-- `claim_bit` adds to the connections a bit that was clear.
pub claim_bit-eq :
    (curr next id : ℕ)
    → claim_bit curr ≡ some (next, id)
    → (next ≡ bit_or curr (add32 curr 1)) × (id ≡ bit_xor next curr)
unfolding claim_bit
claim_bit-eq curr next id h =
    pick (bit_or curr (add32 curr 1) == curr) (bit_or curr (add32 curr 1)) h
  where
    found : ℕ → Option (ℕ × ℕ)
    found n = some (n, bit_xor n curr)

    pick :
        (b : Bool) (n : ℕ)
        → (if b then none else found n) ≡ some (next, id)
        → (next ≡ n) × (id ≡ bit_xor next curr)
    pick true n h = cc
    pick false n h = let e : next ≡ n = cc in (e, rw e cc)

index_ne : (i id : ℕ) → id ≢ 0 → id < 2 ^ 32 → bit i id ≡ 0 → trailing_zeros 32 id ≢ i
index_ne i id pos hid h e =
    omega (arith, bit-trailing_zeros 32 id (omega arith) hid, ap (λ j. bit j id) e, h)

-- The start position of `i` outlives what another receiver writes to the table.
since_kept :
    (owners : List SlotOwner) (i j : ℕ) (o : SlotOwner)
    → j ≢ i
    → (owner_at (set owners j o) i).since ≡ (owner_at owners i).since
since_kept owners i j o ne = ap (λ (x : SlotOwner). x.since) (get_or-set_ne owners o no_owner ne)

pub set_since-kept :
    (owners : List SlotOwner) (i id since : ℕ)
    → id < 2 ^ 32
    → bit i id ≡ 0
    → (owners' : List SlotOwner) × (set_since (some owners) id since ≡ some owners')
      × ((owner_at owners' i).since ≡ (owner_at owners i).since)
unfolding set_since
set_since-kept owners i id since hid h = elim (ℕ_discrete id 0) [
  | yes e ↦ (owners, rw e refl, refl)
  | no ne ↦
      let j = trailing_zeros 32 id in
      let o = record (owner_at owners j) { since = since } in
      (set owners j o, rw (==_ne id 0 ne) refl, since_kept owners i j o (index_ne i id ne hid h))
]

pub clear_owner-kept :
    (owners : List SlotOwner) (i id : ℕ)
    → id < 2 ^ 32
    → bit i id ≡ 0
    → (owners' : List SlotOwner) × (clear_owner (some owners) id ≡ some owners')
      × ((owner_at owners' i).since ≡ (owner_at owners i).since)
unfolding clear_owner
clear_owner-kept owners i id hid h = elim (ℕ_discrete id 0) [
  | yes e ↦ (owners, rw e refl, refl)
  | no ne ↦
      let j = trailing_zeros 32 id in
      let o = record (owner_at owners j) { pid = 0; start_tok = 0 } in
      (set owners j o, rw (==_ne id 0 ne) refl, since_kept owners i j o (index_ne i id ne hid h))
]

join_bit-eq :
    (ring ring' : Ring) (since id : ℕ)
    → join_bit ring since ≡ some (id, ring')
    → (next : ℕ) × (claim_bit ring.connections ≡ some (next, id))
      × (ring' ≡ record ring { connections = next; liveness = set_since ring.liveness id since })
unfolding join_bit
join_bit-eq ring ring' since id h = go (claim_bit ring.connections) refl h
  where
    go :
        (o : Option (ℕ × ℕ))
        → claim_bit ring.connections ≡ o
        → joined ring since o ≡ some (id, ring')
        → (next : ℕ) × (claim_bit ring.connections ≡ some (next, id))
          × (ring'
              ≡ record ring { connections = next; liveness = set_since ring.liveness id since })
    go none e h = cc
    go (some (next, id')) e h =
        let same : id' ≡ id = cc in (next, rw (sym same) e, rw (sym same) cc)

-- `i` is connected, so the bit another receiver claims is not that of `i`.
pub other_bit :
    (curr next id i : ℕ)
    → curr < 2 ^ 32
    → bit i curr ≡ 1
    → claim_bit curr ≡ some (next, id)
    → (next < 2 ^ 32) × (id < 2 ^ 32) × (bit i next ≡ 1) × (bit i id ≡ 0)
other_bit curr next id i hc h e =
    let (en, ei) = claim_bit-eq curr next id e in
    let lt : next < 2 ^ 32 = rw en (bit_or-lt 32 curr (add32 curr 1) hc (omega arith)) in
    let on : bit i next ≡ 1 =
      ap (bit i) en ∙ bit-or i curr (add32 curr 1) ∙ omega (arith, h, bit-le i (add32 curr 1)) in
    let off : bit i id ≡ 0 = ap (bit i) ei ∙ bit-xor i next curr ∙ omega (arith, on, h) in
    (lt, rw ei (bit_xor-lt 32 next curr lt hc), on, off)

pub other_join-Waits :
    (s : Sys) (ring : Ring) (i since since' id : ℕ) (pending : List (List ℕ))
    → Waits i since s pending
    → join_bit s.ring since' ≡ some (id, ring)
    → Waits i since (record s { ring = ring }) pending
other_join-Waits s ring i since since' id pending w h =
    let (next, claimed, e) = join_bit-eq s.ring ring since' id h in
    let (next_lt, id_lt, on, off) =
      other_bit s.ring.connections next id i w.ring_ok.connections_lt w.reader.connected claimed in
    let (owners', table, kept) = set_since-kept w.reader.owners i id since' id_lt off in
    rw e (
      Waits-Keeps s
        (record s.ring { connections = next; liveness = set_since s.ring.liveness id since' }) i
        since pending w
        (record {
          connections_lt = next_lt;
          epoch_lt = w.ring_ok.epoch_lt;
          epoch_high = w.ring_ok.epoch_high;
          cursor_lt = w.ring_ok.cursor_lt;
          size = w.ring_ok.size;
          rc_lt = w.ring_ok.rc_lt;
        })
        (record {
          connected = on;
          owners = owners';
          table = rw w.reader.table table;
          started = kept ∙ w.reader.started;
        })
        refl (λ idx hi m. (record { marked = m.marked; current = m.current }, refl)))

pub other_leave-Waits :
    (s : Sys) (i since id : ℕ) (pending : List (List ℕ))
    → i < 32
    → Waits i since s pending
    → id < 2 ^ 32
    → bit i id ≡ 0
    → Waits i since (record s { ring = leave s.ring id }) pending
unfolding leave
other_leave-Waits s i since id pending hi w id_lt off =
    let (owners', table, kept) = clear_owner-kept w.reader.owners i id id_lt off in
    Waits-Keeps s (leave s.ring id) i since pending w
      (record {
        connections_lt = bit_and-lt 32 s.ring.connections (not32 id) w.ring_ok.connections_lt;
        epoch_lt = w.ring_ok.epoch_lt;
        epoch_high = w.ring_ok.epoch_high;
        cursor_lt = w.ring_ok.cursor_lt;
        size = w.ring_ok.size;
        rc_lt = w.ring_ok.rc_lt;
      })
      (record {
        connected =
            bit-and i s.ring.connections (not32 id)
            ∙ omega (arith, bit-not 32 i id id_lt hi, w.reader.connected, off);
        owners = owners';
        table = rw w.reader.table table;
        started = kept ∙ w.reader.started;
      })
      refl (λ idx hi m. (record { marked = m.marked; current = m.current }, refl))
