-- ===== src/Route/Receive.antt =====
-- Receiver `i` reads: the slot it reads is the oldest it waits for.
use thoth_ipc.Base.{
  ℕ, suc, ◌+◌, ◌^◌, ◌%◌, ◌≡◌, ◌≢◌, refl, sym, subst, ap, ◌∙◌, arith, List, [], ◌∷◌, ◌++◌, length,
  length-append, some, none, u8, add32, false, append_assoc, ◌==◌,
}
use thoth_ipc.Route.{Ring, ring_slot, release_slot, recv_slot}
use thoth_ipc.Route.Run.{Stage, IsMarked, Holds, Claims, Sys, Waits}
use thoth_ipc.Route.Frame.{Holds-Keeps}
use thoth_ipc.Route.Readers.{release-IsRing, release-IsReader, release-cursor, release-Keeps_ne}

-- At the write cursor there is nothing to read.
pub recv_none :
    (ring : Ring) (conn_id cursor : ℕ)
    → ring.write_cursor ≡ cursor
    → recv_slot ring conn_id cursor ≡ none
unfolding recv_slot
recv_none ring conn_id cursor h = ground (arith, h)

pub recv_some :
    (ring : Ring) (conn_id cursor : ℕ)
    → ring.write_cursor ≢ cursor
    → recv_slot ring conn_id cursor
      ≡ some (
        (ring_slot ring (u8 cursor)).data_,
        release_slot ring conn_id (u8 cursor),
        add32 cursor 1,
      )
unfolding recv_slot
recv_some ring conn_id cursor h =
    let differ : (ring.write_cursor == cursor) ≡ false = ground (arith, h) in rw differ refl

-- A receiver that waits for something reads the first of it.
pub recv_next :
    (s : Sys) (i since : ℕ) (b : List ℕ) (bs : List (List ℕ))
    → Waits i since s (b ∷ bs)
    → recv_slot s.ring (2 ^ i) s.read_cursor
      ≡ some (b, release_slot s.ring (2 ^ i) (u8 s.read_cursor), add32 s.read_cursor 1)
recv_next s i since b bs w =
    let here : (s.read_cursor + 0) % 2 ^ 8 ≡ u8 s.read_cursor = omega arith in
    let stored : (ring_slot s.ring (u8 s.read_cursor)).data_ ≡ b =
      subst (λ j. (ring_slot s.ring j).data_ ≡ b) here (w.holds 0 b refl).1 in
    recv_some s.ring (2 ^ i) s.read_cursor (λ e. omega (arith, w.write_eq, w.fits, w.cursor_lt, e))
    ∙ ap
        (λ (x : List ℕ).
          some (x, release_slot s.ring (2 ^ i) (u8 s.read_cursor), add32 s.read_cursor 1))
        stored

claimed_after :
    (ring : Ring) (i idx : ℕ)
    → IsMarked i (ring.write_cursor % 2 ^ 8) (release_slot ring (2 ^ i) idx)
    → IsMarked i
        ((release_slot ring (2 ^ i) idx).write_cursor % 2 ^ 8)
        (release_slot ring (2 ^ i) idx)
claimed_after ring i idx m =
    subst (λ w. IsMarked i (w % 2 ^ 8) (release_slot ring (2 ^ i) idx))
      (sym (release-cursor ring (2 ^ i) idx)) m

drop-Claims :
    (ring : Ring) (i cursor : ℕ) (b : List ℕ) (bs : List (List ℕ)) (stage : Stage)
    → ring.write_cursor ≡ (cursor + suc (length bs)) % 2 ^ 32
    → Claims i ring (b ∷ bs) stage
    → Claims i (release_slot ring (2 ^ i) (u8 cursor)) bs stage
drop-Claims ring i cursor b bs Stage.idle e c = tt
drop-Claims ring i cursor b bs Stage.owns_slot e (lt, m) =
    let kept : IsMarked i (ring.write_cursor % 2 ^ 8) (release_slot ring (2 ^ i) (u8 cursor)) =
      (release-Keeps_ne ring i (2 ^ i) (λ h. omega (arith, h, e, lt)) m).0 in
    (omega arith, claimed_after ring i (u8 cursor) kept)
drop-Claims ring i cursor b bs Stage.written e (lt, m) =
    let kept : IsMarked i (ring.write_cursor % 2 ^ 8) (release_slot ring (2 ^ i) (u8 cursor)) =
      (release-Keeps_ne ring i (2 ^ i) (λ h. omega (arith, h, e, lt)) m).0 in
    (omega arith, claimed_after ring i (u8 cursor) kept)

pub after_receive :
    (s : Sys) (i since : ℕ) (b : List ℕ) (bs : List (List ℕ))
    → Waits i since s (b ∷ bs)
    → Waits i since
        (record s {
          ring = release_slot s.ring (2 ^ i) (u8 s.read_cursor);
          read_cursor = add32 s.read_cursor 1;
          got = s.got ++ (b ∷ []);
        })
        bs
after_receive s i since b bs w =
    let idx = u8 s.read_cursor in
    let ring' = release_slot s.ring (2 ^ i) idx in
    let later : Holds i s.ring (add32 s.read_cursor 1) bs = λ k x e.
      let shift : (s.read_cursor + suc k) % 2 ^ 8 ≡ (add32 s.read_cursor 1 + k) % 2 ^ 8 =
        omega arith in
      subst (λ j. IsMarked i j s.ring × ((ring_slot s.ring j).data_ ≡ x)) shift
        (w.holds (suc k) x e) in
    record {
      ring_ok = release-IsRing s.ring (2 ^ i) idx w.ring_ok (omega arith);
      reader = release-IsReader s.ring i since (2 ^ i) idx w.reader;
      cursor_lt = omega arith;
      since_lt = w.since_lt;
      cursor_eq = omega (arith, w.cursor_eq, length-append s.got (b ∷ []));
      write_eq = release-cursor s.ring (2 ^ i) idx ∙ omega (arith, w.write_eq);
      fits = omega (arith, w.fits);
      log = w.log ∙ sym (append_assoc s.got (b ∷ []) bs);
      holds =
          Holds-Keeps s.ring ring' i (add32 s.read_cursor 1) bs
            (λ k hk. release-Keeps_ne s.ring i (2 ^ i) (λ e. omega (arith, e, w.fits))) later;
      claims = drop-Claims s.ring i s.read_cursor b bs s.stage w.write_eq w.claims;
    }
