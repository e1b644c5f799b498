-- ===== src/Channel/Delivery.antt =====
-- Fragments that were sent are joined again, however the fragments of different messages are mixed.
use thoth_ipc.Base.{
  ℕ, zero, suc, ◌*◌, ◌≤◌, ◌<◌, ◌≡◌, ◌≢◌, ◌^◌, refl, sym, ap, ◌∙◌, arith, true, false, ◌&&◌, List,
  [], ◌∷◌, ◌++◌, Option, none, some, length, take, drop, ◌==◌, if◌then◌else◌, map, inl, inr,
  append_assoc, length-drop, take-append-drop, All, ℕ_discrete, dec_lt, Bool-cases, Option-cases,
}
use thoth_ipc.Base.Maybe.{◌>>=◌}
use thoth_ipc.Channel.Fragments.{
  fragments, frames, frame_of, frames-cons, frames-nil, fragments-eq-frames,
}
use thoth_ipc.Channel.Assemble.{Taken, Entry, Receiver, update, assemble_message}
use thoth_ipc.Channel.Join.{update_self, update_ne, taken_of, Expects, joined, join-last, join-more}

-- One receiver takes slots one after the other, over as many calls of `recv` as it takes: the
-- messages that are delivered, each with its message id.
unfoldable pub receive : Receiver → List Taken → Option (List (ℕ × List ℕ) × Receiver)
unfolding assemble_message
receive r [] = some ([], r)
receive r (t ∷ ts) = do
  (out, r') ← assemble_message r t
  (more, last) ← receive r' ts
  some (elim out [ none ↦ more | some buf ↦ (t.id, buf) ∷ more ], last)

-- the kept slots of message `id` among those of many messages, and its deliveries
abbrev pub slots_of : ℕ → List Taken → List Taken
slots_of id [] = []
slots_of id (t ∷ ts) = if t.keep && (t.id == id) then t ∷ slots_of id ts else slots_of id ts

abbrev pub delivered : ℕ → List (ℕ × List ℕ) → List (List ℕ)
delivered id [] = []
delivered id ((j, buf) ∷ out) = if j == id then buf ∷ delivered id out else delivered id out

-- the slots that `send` fills for messages under one id, one message after the other
abbrev pub sent : ℕ → List (List ℕ) → List Taken
sent id [] = []
sent id (m ∷ ms) = map (taken_of id) (fragments m) ++ sent id ms

abbrev pub IsMessage : List ℕ → Type 0
IsMessage m = (0 < length m) × (length m < 2 ^ 31)

-- Of the messages under one id, `done` of the first has arrived and `rest` of it is to come.
pub data Pending (id : ℕ) (c : Option Entry) (ts : List Taken) (out : List (List ℕ)) : Type 0 where
  between :
      (ms : List (List ℕ))
      → All IsMessage ms
      → c ≡ none
      → ts ≡ sent id ms
      → out ≡ ms
      → Pending id c ts out
  within :
      (fuel : ℕ) (done rest : List ℕ) (ms : List (List ℕ))
      → All IsMessage ms
      → Expects c done rest
      → 0 < length rest
      → length rest < 2 ^ 31
      → length rest ≤ fuel * 64
      → ts ≡ map (taken_of id) (frames fuel rest) ++ sent id ms
      → out ≡ (done ++ rest) ∷ ms
      → Pending id c ts out

abbrev prepend : Option (List ℕ) → List (List ℕ) → List (List ℕ)
prepend none out = out
prepend (some buf) out = buf ∷ out

-- the effect of one slot of message `id`
record Advanced (r : Receiver) (id : ℕ) (t : Taken) (ts : List Taken) (out : List (List ℕ))
    : Type 0 where
  next : Receiver
  buf : Option (List ℕ)
  left : List (List ℕ)
  step : assemble_message r t ≡ some (buf, next)
  split : out ≡ prepend buf left
  pending : Pending id (next.recv_cache id) ts left
  others : (j : ℕ) → j ≢ id → next.recv_cache j ≡ r.recv_cache j

assemble-taken :
    (r : Receiver) (id : ℕ) (rest : List ℕ)
    → assemble_message r (taken_of id (frame_of rest)) ≡ joined r id rest
unfolding assemble_message
assemble-taken r id rest = refl

module _ (r : Receiver) (id : ℕ) where
  advance-within :
      (fuel : ℕ) (done rest : List ℕ) (ms : List (List ℕ)) (ts : List Taken)
      → All IsMessage ms
      → Expects (r.recv_cache id) done rest
      → 0 < length rest
      → length rest < 2 ^ 31
      → length rest ≤ suc fuel * 64
      → ts ≡ map (taken_of id) (frames fuel (drop 64 rest)) ++ sent id ms
      → Advanced r id (taken_of id (frame_of rest)) ts ((done ++ rest) ∷ ms)
  advance-within fuel done rest ms ts all ex pos small enough e = elim (dec_lt 64 (length rest)) [
    | yes lt ↦
        let (r', j, c, o) = join-more r id done rest ex lt small in
        record {
          next = r';
          buf = none;
          left = (done ++ rest) ∷ ms;
          step = assemble-taken r id rest ∙ j;
          split = refl;
          pending =
              within fuel (done ++ take 64 rest) (drop 64 rest) ms all (inl c)
                (omega (arith, length-drop 64 rest)) (omega (arith, length-drop 64 rest))
                (omega (arith, length-drop 64 rest)) e
                (ap (λ m. m ∷ ms)
                  (ap (λ t. done ++ t) (sym (take-append-drop 64 rest))
                    ∙ sym (append_assoc done (take 64 rest) (drop 64 rest))));
          others = o;
        }
    | no ge ↦
        let (r', j, c, o) = join-last r id done rest ex pos (omega arith) in
        record {
          next = r';
          buf = some (done ++ rest);
          left = ms;
          step = assemble-taken r id rest ∙ j;
          split = refl;
          pending =
              between ms all c
                (e
                  ∙ ap (λ f. map (taken_of id) f ++ sent id ms)
                      (frames-nil fuel (drop 64 rest) (omega (arith, length-drop 64 rest))))
                refl;
          others = o;
        }
  ]

  -- A message that is expected has a slot to come.
  first_slot :
      (fuel : ℕ) (rest : List ℕ) (ts : List Taken)
      → 0 < length rest
      → length rest ≤ fuel * 64
      → (f : ℕ) × (fuel ≡ suc f)
        × (map (taken_of id) (frames fuel rest) ++ ts
            ≡ taken_of id (frame_of rest) ∷ (map (taken_of id) (frames f (drop 64 rest)) ++ ts))
  first_slot zero rest ts pos enough = absurd (omega arith)
  first_slot (suc f) rest ts pos enough = (f, refl, rw (frames-cons f rest pos))

  advance-enough :
      (fuel : ℕ) (done rest : List ℕ) (ms : List (List ℕ)) (t : Taken) (ts : List Taken)
      (out : List (List ℕ))
      → All IsMessage ms
      → Expects (r.recv_cache id) done rest
      → 0 < length rest
      → length rest < 2 ^ 31
      → length rest ≤ fuel * 64
      → t ∷ ts ≡ map (taken_of id) (frames fuel rest) ++ sent id ms
      → out ≡ (done ++ rest) ∷ ms
      → Advanced r id t ts out
  advance-enough fuel done rest ms t ts out all ex pos small enough e o =
      let (f, ef, es) = first_slot fuel rest (sent id ms) pos enough in
      let same : t ∷ ts
          ≡ taken_of id (frame_of rest)
            ∷ (map (taken_of id) (frames f (drop 64 rest)) ++ sent id ms) =
        e ∙ es in
      let et : t ≡ taken_of id (frame_of rest) = cc in
      let ets : ts ≡ map (taken_of id) (frames f (drop 64 rest)) ++ sent id ms = cc in
      rw (et, o) (advance-within f done rest ms ts all ex pos small (rw ef at enough) ets)

  advance :
      (t : Taken) (ts : List Taken) (out : List (List ℕ))
      → Pending id (r.recv_cache id) (t ∷ ts) out
      → Advanced r id t ts out
  advance t ts out (between [] all c e o) = cc
  advance t ts out (between (m ∷ ms) all c e o) =
      advance-enough (length m) [] m ms t ts out all.1 (inr (c, refl)) all.0.0 all.0.1 (omega arith)
        (e ∙ ap (λ f. map (taken_of id) f ++ sent id ms) (fragments-eq-frames m all.0.1)) o
  advance t ts out (within fuel done rest ms all ex pos small enough e o) =
      advance-enough fuel done rest ms t ts out all ex pos small enough e o

sent-nil : (id : ℕ) (ms : List (List ℕ)) → All IsMessage ms → sent id ms ≡ [] → ms ≡ []
sent-nil id [] all e = refl
sent-nil id (m ∷ ms) all e =
    let first = ap (λ f. map (taken_of id) f ++ sent id ms) (fragments-eq-frames m all.0.1) in
    let (f, ef, es) = first_slot no_receiver id (length m) m (sent id ms) all.0.0 (omega arith) in
    cc
  where
    no_receiver : Receiver
    no_receiver = record { conn_id = 0; recv_cache = λ k. none; chunk_shm = λ s. none }

-- With no slot left, nothing is pending.
Pending-nil :
    (id : ℕ) (c : Option Entry) (out : List (List ℕ))
    → Pending id c [] out
    → (c ≡ none) × (out ≡ [])
Pending-nil id c out (between ms all e s o) = (e, o ∙ sent-nil id ms all (sym s))
Pending-nil id c out (within fuel done rest ms all ex pos small enough e o) =
    let (f, ef, es) = first_slot no_receiver id fuel rest (sent id ms) pos enough in cc
  where
    no_receiver : Receiver
    no_receiver = record { conn_id = 0; recv_cache = λ k. none; chunk_shm = λ s. none }

-- what a run of the receiver delivers
pub record Delivers (r : Receiver) (ts : List Taken) (out : ℕ → List (List ℕ)) : Type 0 where
  pub messages : List (ℕ × List ℕ)
  pub last : Receiver
  pub runs : receive r ts ≡ some (messages, last)
  pub complete : (id : ℕ) → delivered id messages ≡ out id
  pub clean : (id : ℕ) → last.recv_cache id ≡ none

assemble-skipped :
    (r : Receiver) (t : Taken) → t.keep ≡ false → assemble_message r t ≡ some (none, r)
unfolding assemble_message
assemble-skipped r t h = rw h

module _ (t : Taken) (ts : List Taken) where
  slots-skip : t.keep ≡ false → (id : ℕ) → slots_of id (t ∷ ts) ≡ slots_of id ts
  slots-skip h id = ground (arith, h)

  slots-other : (id : ℕ) → id ≢ t.id → slots_of id (t ∷ ts) ≡ slots_of id ts
  slots-other id ne = ground (arith, ne)

  slots-kept : t.keep ≡ true → slots_of t.id (t ∷ ts) ≡ t ∷ slots_of t.id ts
  slots-kept h = ground (arith, h)

  module _ (r : Receiver) (out : ℕ → List (List ℕ)) where
    skip_step : t.keep ≡ false → Delivers r ts out → Delivers r (t ∷ ts) out
    unfolding receive
    skip_step h d = record {
      messages = d.messages;
      last = d.last;
      runs = rw (assemble-skipped r t h, ◌>>=◌) (rw (d.runs, ◌>>=◌));
      complete = d.complete;
      clean = d.clean;
    }

    module _ (a : Advanced r t.id t (slots_of t.id ts) (out t.id)) where
      abbrev left_out : ℕ → List (List ℕ)
      left_out = update out t.id a.left

      kept-Pending :
          ((id : ℕ) → Pending id (r.recv_cache id) (slots_of id (t ∷ ts)) (out id))
          → (id : ℕ) → Pending id (a.next.recv_cache id) (slots_of id ts) (left_out id)
      kept-Pending p id = elim (ℕ_discrete id t.id) [
        | yes e ↦ rw (e, update_self out t.id a.left) a.pending
        | no ne ↦
            rw (update_ne out t.id a.left id ne, a.others id ne) (rw (slots-other id ne) at (p id))
      ]

      abbrev all_messages : List (ℕ × List ℕ) → List (ℕ × List ℕ)
      all_messages more = elim a.buf [ none ↦ more | some buf ↦ (t.id, buf) ∷ more ]

      kept_complete :
          (more : List (ℕ × List ℕ))
          → ((id : ℕ) → delivered id more ≡ left_out id)
          → (id : ℕ) → delivered id (all_messages more) ≡ out id
      kept_complete more h id = elim (Option-cases a.buf) [
        | inl e ↦ ground (arith, h id, a.split, e)
        | inr (b, e) ↦ ground (arith, h id, a.split, e)
      ]

      kept_step : Delivers a.next ts left_out → Delivers r (t ∷ ts) out
      unfolding receive
      kept_step d = record {
        messages = all_messages d.messages;
        last = d.last;
        runs = rw (a.step, ◌>>=◌) (rw (d.runs, ◌>>=◌));
        complete = kept_complete d.messages d.complete;
        clean = d.clean;
      }

-- However the slots of different messages are mixed, and whatever slots of the receiver's own lie
-- between them: if the kept slots under each message id are those that `send` fills for the messages
-- of that id, each of 1 to 2^31 - 1 bytes (the first of them possibly received in part before), then
-- the receiver does not fail, delivers under each id exactly those messages in order, and keeps no
-- entry in its cache.
pub receive-Delivers :
    (ts : List Taken) (r : Receiver) (out : ℕ → List (List ℕ))
    → ((id : ℕ) → Pending id (r.recv_cache id) (slots_of id ts) (out id))
    → Delivers r ts out
unfolding receive
receive-Delivers [] r out p = record {
  messages = [];
  last = r;
  runs = refl;
  complete = λ id. sym (Pending-nil id (r.recv_cache id) (out id) (p id)).1;
  clean = λ id. (Pending-nil id (r.recv_cache id) (out id) (p id)).0;
}
receive-Delivers (t ∷ ts) r out p = elim (Bool-cases t.keep) [
  | inr skip ↦
      skip_step t ts r out skip
        (receive-Delivers ts r out (λ id. rw (slots-skip t ts skip id) at (p id)))
  | inl kept ↦
      let a =
        advance r t.id t (slots_of t.id ts) (out t.id) (rw (slots-kept t ts kept) at (p t.id)) in
      kept_step t ts r out a
        (receive-Delivers ts a.next (left_out t ts r out a) (kept-Pending t ts r out a p))
]
