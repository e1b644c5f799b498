-- ===== src/Route/Delivery.antt =====
-- What a receiver of a route reads, over a whole run.
use thoth_ipc.Base.{
  ℕ, ◌+◌, ◌^◌, ◌%◌, ◌≤◌, ◌<◌, ◌≡◌, refl, sym, subst, ap, arith, List, [], ◌∷◌, ◌++◌, length, some,
  none, u8, add32,
}
use thoth_ipc.Route.{Ring, release_slot, recv_slot}
use thoth_ipc.Route.Run.{Stage, Sys, Step, Run, IsRing, IsReader, Claims, Waits}
use thoth_ipc.Route.Push.{claim-Waits}
use thoth_ipc.Route.Commit.{write-Waits, finish-Waits}
use thoth_ipc.Route.Receive.{recv_none, recv_next, after_receive}
use thoth_ipc.Route.Readers.{other_release-Waits}
use thoth_ipc.Route.Peers.{other_join-Waits, other_leave-Waits}

-- Receiver `i` has just joined: it is connected, starts at the write cursor, and the sender is
-- between two pushes.
pub record HasJoined (i : ℕ) (s : Sys) : Type 0 where
  pub ring_ok : IsRing s.ring
  pub reader : IsReader i s.read_cursor s.ring
  pub at_cursor : s.read_cursor ≡ s.ring.write_cursor
  pub between : s.stage ≡ Stage.idle
  pub none_pushed : s.pushed ≡ []
  pub none_got : s.got ≡ []

HasJoined-Waits : (i : ℕ) (s : Sys) → HasJoined i s → Waits i s.read_cursor s []
HasJoined-Waits i s j = record {
  ring_ok = j.ring_ok;
  reader = j.reader;
  cursor_lt = rw j.at_cursor j.ring_ok.cursor_lt;
  since_lt = rw j.at_cursor j.ring_ok.cursor_lt;
  cursor_eq = omega (arith, ap length j.none_got, j.at_cursor, j.ring_ok.cursor_lt);
  write_eq = omega (arith, j.at_cursor, j.ring_ok.cursor_lt);
  fits = omega arith;
  log = rw (j.none_pushed, j.none_got) refl;
  holds = λ k b e. cc;
  claims = subst (Claims i s.ring []) (sym j.between) tt;
}

received :
    (s : Sys) (i since : ℕ) (b : List ℕ) (bs : List (List ℕ)) (bytes : List ℕ) (ring : Ring)
    (cursor : ℕ)
    → recv_slot s.ring (2 ^ i) s.read_cursor
      ≡ some (b, release_slot s.ring (2 ^ i) (u8 s.read_cursor), add32 s.read_cursor 1)
    → recv_slot s.ring (2 ^ i) s.read_cursor ≡ some (bytes, ring, cursor)
    → Waits i since
        (record s {
          ring = release_slot s.ring (2 ^ i) (u8 s.read_cursor);
          read_cursor = add32 s.read_cursor 1;
          got = s.got ++ (b ∷ []);
        })
        bs
    → Waits i since (record s { ring = ring; read_cursor = cursor; got = s.got ++ (bytes ∷ []) }) bs
received s i since b bs bytes ring cursor e f w =
    let eb : bytes ≡ b = cc in
    let er : ring ≡ release_slot s.ring (2 ^ i) (u8 s.read_cursor) = cc in
    let ec : cursor ≡ add32 s.read_cursor 1 = cc in rw (eb, er, ec) w

-- One step from a state in which `i` waits for `pending`.
Step-Waits :
    (i since : ℕ) (s t : Sys) (pending : List (List ℕ))
    → i < 32
    → Waits i since s pending
    → Step i s t
    → (pending' : List (List ℕ)) × Waits i since t pending'
Step-Waits i since _ _ pending hi w (Step.claim s ring st few e) =
    (pending, claim-Waits s ring i since pending hi w few e)
Step-Waits i since _ _ pending hi w (Step.write s bytes st) =
    (pending, write-Waits s bytes i since pending w st)
Step-Waits i since _ _ pending hi w (Step.finish s st) = (_, finish-Waits s i since pending w st)
Step-Waits i since _ _ pending hi w (Step.other_release s id idx hid off hx) =
    (pending, other_release-Waits s i since id idx pending hi w hid off hx)
Step-Waits i since _ _ pending hi w (Step.other_join s since' id ring e) =
    (pending, other_join-Waits s ring i since since' id pending w e)
Step-Waits i since _ _ pending hi w (Step.other_leave s id hid off) =
    (pending, other_leave-Waits s i since id pending hi w hid off)
Step-Waits i since _ _ [] hi w (Step.receive s bytes ring cursor e) =
    let nothing = recv_none s.ring (2 ^ i) s.read_cursor (omega (arith, w.write_eq, w.cursor_lt)) in
    cc
Step-Waits i since _ _ (b ∷ bs) hi w (Step.receive s bytes ring cursor e) = (
  bs,
  received s i since b bs bytes ring cursor (recv_next s i since b bs w) e
      (after_receive s i since b bs w),
)

Run-Waits :
    (i since : ℕ) (s t : Sys) (pending : List (List ℕ))
    → i < 32
    → Waits i since s pending
    → Run i s t
    → (pending' : List (List ℕ)) × Waits i since t pending'
Run-Waits i since _ _ pending hi w (Run.done s) = (pending, w)
Run-Waits i since _ _ pending hi w (Run.next s t u run step) =
    let (mid, w') = Run-Waits i since s t pending hi w run in Step-Waits i since t u mid hi w' step

-- `recv` finds nothing where `rest` is empty, and reads the first of `rest` otherwise.
abbrev pub NextIs : ℕ → Sys → List (List ℕ) → Type 0
NextIs i t [] = recv_slot t.ring (2 ^ i) t.read_cursor ≡ none
NextIs i t (b ∷ bs) =
    recv_slot t.ring (2 ^ i) t.read_cursor
    ≡ some (b, release_slot t.ring (2 ^ i) (u8 t.read_cursor), add32 t.read_cursor 1)

Waits-NextIs :
    (i since : ℕ) (t : Sys) (rest : List (List ℕ)) → Waits i since t rest → NextIs i t rest
Waits-NextIs i since t [] w =
    recv_none t.ring (2 ^ i) t.read_cursor (omega (arith, w.write_eq, w.cursor_lt))
Waits-NextIs i since t (b ∷ bs) w = recv_next t i since b bs w

-- What receiver `i` has got and what it will read next, in terms of what was published.
pub Run-Delivers :
    (i : ℕ) (s t : Sys)
    → i < 32
    → HasJoined i s
    → Run i s t
    → (rest : List (List ℕ)) × (t.pushed ≡ t.got ++ rest)
      × (t.ring.write_cursor ≡ (t.read_cursor + length rest) % 2 ^ 32)
      × (length rest ≤ 256)
      × NextIs i t rest
Run-Delivers i s t hi j run =
    let (rest, w) = Run-Waits i s.read_cursor s t [] hi (HasJoined-Waits i s j) run in
    (rest, w.log, w.write_eq, w.fits, Waits-NextIs i s.read_cursor t rest w)
