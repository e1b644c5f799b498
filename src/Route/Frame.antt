-- ===== src/Route/Frame.antt =====
-- A write to one slot leaves the others, and what a receiver waits for with them.
use thoth_ipc.Base.{
  ℕ, zero, suc, ◌+◌, ◌^◌, ◌%◌, ◌<◌, ◌≡◌, ◌≢◌, sym, subst, ◌∙◌, arith, List, [], ◌∷◌, length,
  length-set, get_or-set_self, get_or-set_ne, some, ℕ_discrete, get_elem?,
}
use thoth_ipc.Route.{Ring, blank, ring_size, ring_slot, set_rc}
use thoth_ipc.Route.Run.{Stage, IsRing, IsReader, IsMarked, Holds, Claims, Sys, Waits}

pub get_elem?-lt {ℓ} :
    {A : Type ℓ} (xs : List A) (k : ℕ) {a : A} → get_elem? xs k ≡ some a → k < length xs
get_elem?-lt [] k h = cc
get_elem?-lt (x ∷ xs) zero h = omega arith
get_elem?-lt (x ∷ xs) (suc k) h = omega (arith, get_elem?-lt xs k h)

pub ring_slot-set_rc_self :
    (ring : Ring) (idx rc : ℕ)
    → length ring.slots ≡ ring_size
    → idx < ring_size
    → ring_slot (set_rc ring idx rc) idx ≡ record (ring_slot ring idx) { rc_ = rc }
ring_slot-set_rc_self ring idx rc e h =
    get_or-set_self ring.slots idx (record (ring_slot ring idx) { rc_ = rc }) blank (omega arith)

pub ring_slot-set_rc_ne :
    (ring : Ring) {idx j : ℕ} (rc : ℕ)
    → idx ≢ j
    → ring_slot (set_rc ring idx rc) j ≡ ring_slot ring j
ring_slot-set_rc_ne ring {idx = idx} rc ne =
    get_or-set_ne ring.slots (record (ring_slot ring idx) { rc_ = rc }) blank ne

pub set_rc-IsRing :
    (ring : Ring) (idx rc : ℕ)
    → IsRing ring
    → idx < ring_size
    → rc < 2 ^ 64
    → IsRing (set_rc ring idx rc)
set_rc-IsRing ring idx rc ok hi hr = record {
  connections_lt = ok.connections_lt;
  epoch_lt = ok.epoch_lt;
  epoch_high = ok.epoch_high;
  cursor_lt = ok.cursor_lt;
  size = length-set ring.slots idx (record (ring_slot ring idx) { rc_ = rc }) ∙ ok.size;
  rc_lt = λ j. elim (ℕ_discrete idx j) [
    | yes e ↦ rw (sym e, ring_slot-set_rc_self ring idx rc ok.size hi) hr
    | no ne ↦ rw (ring_slot-set_rc_ne ring rc ne) (ok.rc_lt j)
  ];
}

pub set_rc-IsReader :
    (ring : Ring) (i since idx rc : ℕ)
    → IsReader i since ring
    → IsReader i since (set_rc ring idx rc)
set_rc-IsReader ring i since idx rc r = record {
  connected = r.connected;
  owners = r.owners;
  table = r.table;
  started = r.started;
}

-- A slot that keeps its `rc` keeps its marks in the same epoch.
pub IsMarked-same :
    (ring ring' : Ring) (i idx : ℕ)
    → ring'.epoch ≡ ring.epoch
    → (ring_slot ring' idx).rc_ ≡ (ring_slot ring idx).rc_
    → IsMarked i idx ring
    → IsMarked i idx ring'
IsMarked-same ring ring' i idx e h m = record {
  marked = rw h m.marked;
  current = rw h (m.current ∙ sym e);
}

-- `ring'` keeps slot `idx` for receiver `i`.
abbrev pub Keeps : ℕ → ℕ → Ring → Ring → Type 0
Keeps i idx ring ring' =
    IsMarked i idx ring
    → IsMarked i idx ring' × ((ring_slot ring' idx).data_ ≡ (ring_slot ring idx).data_)

pub Holds-Keeps :
    (ring ring' : Ring) (i cursor : ℕ) (pending : List (List ℕ))
    → ((k : ℕ) → k < length pending → Keeps i ((cursor + k) % 2 ^ 8) ring ring')
    → Holds i ring cursor pending
    → Holds i ring' cursor pending
Holds-Keeps ring ring' i cursor pending keeps holds k bytes e =
    let (mark, stored) = holds k bytes e in
    let (mark', same) = keeps k (get_elem?-lt pending k e) mark in (mark', same ∙ stored)

pub Claims-Keeps :
    (ring ring' : Ring) (i : ℕ) (pending : List (List ℕ)) (stage : Stage)
    → ring'.write_cursor ≡ ring.write_cursor
    → Keeps i (ring.write_cursor % 2 ^ 8) ring ring'
    → Claims i ring pending stage
    → Claims i ring' pending stage
Claims-Keeps ring ring' i pending Stage.idle e keeps c = c
Claims-Keeps ring ring' i pending Stage.owns_slot e keeps (lt, m) =
    (lt, subst (λ w. IsMarked i (w % 2 ^ 8) ring') (sym e) (keeps m).0)
Claims-Keeps ring ring' i pending Stage.written e keeps (lt, m) =
    (lt, subst (λ w. IsMarked i (w % 2 ^ 8) ring') (sym e) (keeps m).0)

-- A step of another receiver that keeps every slot for `i` leaves what `i` waits for.
pub Waits-Keeps :
    (s : Sys) (ring' : Ring) (i since : ℕ) (pending : List (List ℕ))
    → Waits i since s pending
    → IsRing ring'
    → IsReader i since ring'
    → ring'.write_cursor ≡ s.ring.write_cursor
    → ((idx : ℕ) → idx < ring_size → Keeps i idx s.ring ring')
    → Waits i since (record s { ring = ring' }) pending
Waits-Keeps s ring' i since pending w ok reader e keeps = record {
  ring_ok = ok;
  reader = reader;
  cursor_lt = w.cursor_lt;
  since_lt = w.since_lt;
  cursor_eq = w.cursor_eq;
  write_eq = e ∙ w.write_eq;
  fits = w.fits;
  log = w.log;
  holds =
      Holds-Keeps s.ring ring' i s.read_cursor pending
        (λ k hk. keeps ((s.read_cursor + k) % 2 ^ 8) (omega arith)) w.holds;
  claims =
      Claims-Keeps s.ring ring' i pending s.stage e
        (keeps (s.ring.write_cursor % 2 ^ 8) (omega arith)) w.claims;
}
