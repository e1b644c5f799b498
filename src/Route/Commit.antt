-- ===== src/Route/Commit.antt =====
-- The sender writes the slot it has claimed and publishes it: what receiver `i` waits for grows by it.
use thoth_ipc.Base.{
  ◌⊎◌, inl, inr, ℕ, zero, suc, ◌+◌, ◌^◌, ◌%◌, ◌≡◌, ◌≢◌, refl, sym, subst, ap, ◌∙◌, arith, List, [],
  ◌∷◌, ◌++◌, length, length-append, length-set, set, get_or, get_or-set_self, get_or-set_ne, some,
  ℕ_discrete, u8, get_elem?, append_assoc,
}
use thoth_ipc.Route.{Ring, ElemT, blank, ring_size, ring_slot, write_slot, publish}
use thoth_ipc.Route.Run.{Stage, IsRing, IsMarked, Claims, Sys, Waits}
use thoth_ipc.Route.Frame.{IsMarked-same, Keeps, Holds-Keeps}

-- A write to the claimed slot.
abbrev with_data : List ℕ → ElemT → ElemT
with_data bytes e = record e { data_ = bytes }

module _ (bytes : List ℕ) (ring : Ring) (size : length ring.slots ≡ ring_size) where
  abbrev Cell : ElemT
  Cell = with_data bytes (ring_slot ring (u8 ring.write_cursor))

  write_rc :
      (j : ℕ)
      → (get_or (set ring.slots (u8 ring.write_cursor) Cell) j blank).rc_ ≡ (ring_slot ring j).rc_
  write_rc j = elim (ℕ_discrete (u8 ring.write_cursor) j) [
    | yes e ↦
        rw (sym e, get_or-set_self ring.slots (u8 ring.write_cursor) Cell blank (omega arith)) refl
    | no ne ↦ ap (λ (x : ElemT). x.rc_) (get_or-set_ne ring.slots Cell blank ne)
  ]

  write-IsMarked : (i j : ℕ) → IsMarked i j ring → IsMarked i j (write_slot bytes ring)
  unfolding write_slot
  write-IsMarked i j m = IsMarked-same ring (write_slot bytes ring) i j refl (write_rc j) m

  write-Keeps : (i j : ℕ) → u8 ring.write_cursor ≢ j → Keeps i j ring (write_slot bytes ring)
  unfolding write_slot
  write-Keeps i j ne m =
      (write-IsMarked i j m, ap (λ (x : ElemT). x.data_) (get_or-set_ne ring.slots Cell blank ne))

  write-IsRing : IsRing ring → IsRing (write_slot bytes ring)
  unfolding write_slot
  write-IsRing ok = record {
    connections_lt = ok.connections_lt;
    epoch_lt = ok.epoch_lt;
    epoch_high = ok.epoch_high;
    cursor_lt = ok.cursor_lt;
    size = length-set ring.slots (u8 ring.write_cursor) Cell ∙ ok.size;
    rc_lt = λ j. rw (write_rc j) (ok.rc_lt j);
  }

pub write-Waits :
    (s : Sys) (bytes : List ℕ) (i since : ℕ) (pending : List (List ℕ))
    → Waits i since s pending
    → s.stage ≡ Stage.owns_slot
    → Waits i since (record s { ring = write_slot bytes s.ring; stage = Stage.written }) pending
write-Waits s bytes i since pending w own =
    let (lt, mark) = subst (Claims i s.ring pending) own w.claims in
    let size = w.ring_ok.size in
    unfold write_slot in
    record {
      ring_ok = write-IsRing bytes s.ring size w.ring_ok;
      reader = record {
        connected = w.reader.connected;
        owners = w.reader.owners;
        table = w.reader.table;
        started = w.reader.started;
      };
      cursor_lt = w.cursor_lt;
      since_lt = w.since_lt;
      cursor_eq = w.cursor_eq;
      write_eq = w.write_eq;
      fits = w.fits;
      log = w.log;
      holds =
          Holds-Keeps s.ring (write_slot bytes s.ring) i s.read_cursor pending
            (λ k hk.
              write-Keeps bytes s.ring size i ((s.read_cursor + k) % 2 ^ 8)
                (λ e. omega (arith, w.write_eq, e, lt)))
            w.holds;
      claims = (lt, write-IsMarked bytes s.ring size i (u8 s.ring.write_cursor) mark);
    }

get_elem?-snoc :
    (xs : List (List ℕ)) (k : ℕ) (d b : List ℕ)
    → get_elem? (xs ++ (d ∷ [])) k ≡ some b
    → (get_elem? xs k ≡ some b) ⊎ ((k ≡ length xs) × (d ≡ b))
get_elem?-snoc [] zero d b h = inr (refl, cc)
get_elem?-snoc [] (suc k) d b h = cc
get_elem?-snoc (x ∷ xs) zero d b h = inl h
get_elem?-snoc (x ∷ xs) (suc k) d b h = elim (get_elem?-snoc xs k d b h) [
  | inl e ↦ inl e
  | inr (e, f) ↦ inr (ap suc e, f)
]

publish_keeps :
    (ring : Ring) (i j : ℕ) (b : List ℕ)
    → IsMarked i j ring × ((ring_slot ring j).data_ ≡ b)
    → IsMarked i j (publish ring) × ((ring_slot (publish ring) j).data_ ≡ b)
unfolding publish
publish_keeps ring i j b (m, e) = (IsMarked-same ring (publish ring) i j refl refl m, e)

-- What is published is the next that `i` waits for.
pub finish-Waits :
    (s : Sys) (i since : ℕ) (pending : List (List ℕ))
    → Waits i since s pending
    → s.stage ≡ Stage.written
    → Waits i since
        (record s {
          ring = publish s.ring;
          stage = Stage.idle;
          pushed = s.pushed ++ ((ring_slot s.ring (u8 s.ring.write_cursor)).data_ ∷ []);
        })
        (pending ++ ((ring_slot s.ring (u8 s.ring.write_cursor)).data_ ∷ []))
unfolding publish
finish-Waits s i since pending w wr =
    let bytes = (ring_slot s.ring (u8 s.ring.write_cursor)).data_ in
    let (lt, mark) = subst (Claims i s.ring pending) wr w.claims in
    let longer : length (pending ++ (bytes ∷ [])) ≡ length pending + 1 =
      length-append pending (bytes ∷ []) in
    record {
      ring_ok = record {
        connections_lt = w.ring_ok.connections_lt;
        epoch_lt = w.ring_ok.epoch_lt;
        epoch_high = w.ring_ok.epoch_high;
        cursor_lt = omega arith;
        size = w.ring_ok.size;
        rc_lt = w.ring_ok.rc_lt;
      };
      reader = record {
        connected = w.reader.connected;
        owners = w.reader.owners;
        table = w.reader.table;
        started = w.reader.started;
      };
      cursor_lt = w.cursor_lt;
      since_lt = w.since_lt;
      cursor_eq = w.cursor_eq;
      write_eq = omega (arith, w.write_eq, longer);
      fits = omega (arith, lt, longer);
      log = ap (λ xs. xs ++ (bytes ∷ [])) w.log ∙ append_assoc s.got pending (bytes ∷ []);
      holds = λ k b e. elim (get_elem?-snoc pending k bytes b e) [
        | inl f ↦ publish_keeps s.ring i ((s.read_cursor + k) % 2 ^ 8) b (w.holds k b f)
        | inr (f, g) ↦
            let here : (s.read_cursor + k) % 2 ^ 8 ≡ u8 s.ring.write_cursor =
              omega (arith, w.write_eq, f) in
            rw (here) (publish_keeps s.ring i (u8 s.ring.write_cursor) b (mark, g))
      ];
      claims = tt;
    }
