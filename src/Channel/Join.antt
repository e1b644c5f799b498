-- ===== src/Channel/Join.antt =====
-- One step of `join_fragment` on the next fragment of a message that `send` cut up.
use thoth_ipc.Base.{
  ℕ, ◌+◌, ◌-◌, ◌≤◌, ◌<◌, ◌≡◌, ◌≢◌, ◌^◌, refl, ◌∙◌, arith, true, false, List, [], ◌++◌, Option, none,
  some, length, take, drop, add32, if◌then◌else◌, replicate, ◌⊎◌, inl, inr, append-nil,
  append_assoc, length-append, length-take, length-drop, take_all, drop-replicate, drop-drop,
  drop-append, take-append, length-replicate,
}
use thoth_ipc.Base.Maybe.{◌>>=◌}
use thoth_ipc.Channel.Slot.{data_length}
use thoth_ipc.Channel.Fragments.{Fragment, frame_of}
use thoth_ipc.Channel.Assemble.{Taken, Entry, Receiver, update, copy_into, join_fragment, le_zero}

-- what the receiver takes out of the slot of a fragment of message `id`
abbrev pub taken_of : ℕ → Fragment → Taken
taken_of id f = record {
  keep = true;
  id = id;
  remain = f.remain;
  r_size = add32 data_length f.remain;
  storage_id = none;
  frag = some f.payload;
}

pub update_self {ℓ} : {A : Type ℓ} (f : ℕ → A) (k : ℕ) (a : A) → update f k a k ≡ a
update_self f k a = ground arith

pub update_ne {ℓ} : {A : Type ℓ} (f : ℕ → A) (k : ℕ) (a : A) (j : ℕ) → j ≢ k → update f k a j ≡ f j
update_ne f k a j h = ground arith

-- A write in the zero-filled end of a buffer.
copy_into-zeros :
    (done frag : List ℕ) (m : ℕ)
    → length frag ≤ m
    → copy_into (done ++ replicate m 0) (length done) frag
      ≡ some ((done ++ frag) ++ replicate (m - length frag) 0)
unfolding copy_into
copy_into-zeros done frag m h = ground (
  arith,
  length-append done (replicate m 0),
  length-replicate {A = ℕ} m 0,
  take-append done (replicate m 0),
  drop-drop (length done) (length frag) (done ++ replicate m 0),
  drop-append done (replicate m 0),
  drop-replicate {A = ℕ} (length frag) m 0,
  append_assoc done frag (replicate (m - length frag) 0),
)

-- `remain` of a frame, read back
module _ (rest : List ℕ) where
  pub frame-last : 0 < length rest → length rest ≤ 64 → le_zero (frame_of rest).remain ≡ true
  unfolding le_zero
  frame-last pos le = ground arith

  pub frame-more : 64 < length rest → length rest < 2 ^ 31 → le_zero (frame_of rest).remain ≡ false
  unfolding le_zero
  frame-more lt small = ground arith

  pub frame-size : length rest < 2 ^ 31 → add32 data_length (frame_of rest).remain ≡ length rest
  frame-size small = omega arith

  frame-zeros : 64 < length rest → length rest - length (take 64 rest) ≡ length (drop 64 rest)
  frame-zeros lt = omega (arith, length-take 64 rest, length-drop 64 rest)

-- `rest` is left of a message of which `done` has arrived
abbrev pub entry_of : List ℕ → List ℕ → Entry
entry_of done rest = record { off = length done; buf = done ++ replicate (length rest) 0 }

-- The step of `join_fragment` by what it meets.
module _ (r : Receiver) (id remain r_size : ℕ) (frag buf : List ℕ) where
  join-known :
      (e : Entry)
      → r.recv_cache id ≡ some e
      → copy_into e.buf e.off frag ≡ some buf
      → join_fragment r id remain r_size frag ≡ (
          if le_zero remain
          then some (some buf, record r { recv_cache = update r.recv_cache id none })
          else some (
            none,
            record r {
              recv_cache =
                  update r.recv_cache id (some (record { off = e.off + length frag; buf = buf }));
            },
          ))
  unfolding join_fragment
  join-known e h c = rw (h, join_fragment) (rw (c, ◌>>=◌))

  join-new :
      r.recv_cache id ≡ none
      → copy_into (replicate r_size 0) 0 frag ≡ some buf
      → join_fragment r id remain r_size frag ≡ (
          if le_zero remain
          then some (some frag, r)
          else some (
            none,
            record r {
              recv_cache = update r.recv_cache id (some (record { off = length frag; buf = buf }));
            },
          ))
  unfolding join_fragment
  join-new h c = rw (h, join_fragment) (rw (c, ◌>>=◌))

-- the buffer behind a frame
module _ (done rest : List ℕ) where
  filled-last :
      length rest ≤ 64
      → copy_into (done ++ replicate (length rest) 0) (length done) (take 64 rest)
        ≡ some (done ++ rest)
  filled-last le =
      let full : take 64 rest ≡ rest = take_all 64 rest le in
      let none_left : length rest - length rest ≡ 0 = omega arith in
      copy_into-zeros done (take 64 rest) (length rest) (omega (arith, length-take 64 rest))
      ∙ rw (full, none_left, append-nil)

  filled-more :
      64 < length rest
      → copy_into (done ++ replicate (length rest) 0) (length done) (take 64 rest)
        ≡ some ((done ++ take 64 rest) ++ replicate (length (drop 64 rest)) 0)
  filled-more lt =
      copy_into-zeros done (take 64 rest) (length rest) (omega (arith, length-take 64 rest))
      ∙ rw (frame-zeros rest lt)

-- what the cache holds while `rest` of a message is to come and `done` has arrived
abbrev pub Expects : Option Entry → List ℕ → List ℕ → Type 0
Expects c done rest = (c ≡ some (entry_of done rest)) ⊎ ((c ≡ none) × (done ≡ []))

module _ (r : Receiver) (id : ℕ) where
  -- what `join_fragment` makes of the next frame of `rest`
  abbrev pub joined : List ℕ → Option (Option (List ℕ) × Receiver)
  joined rest =
      join_fragment r id (frame_of rest).remain (add32 data_length (frame_of rest).remain)
        (frame_of rest).payload

  -- The last frame completes the message, and leaves no entry.
  pub join-last :
      (done rest : List ℕ)
      → Expects (r.recv_cache id) done rest
      → 0 < length rest
      → length rest ≤ 64
      → (r' : Receiver) × (joined rest ≡ some (some (done ++ rest), r'))
        × (r'.recv_cache id ≡ none)
        × ((j : ℕ) → j ≢ id → r'.recv_cache j ≡ r.recv_cache j)
  join-last done rest (inl e) pos le = (
    record r { recv_cache = update r.recv_cache id none },
    join-known r id _ _ (take 64 rest) (done ++ rest) (entry_of done rest) e
          (filled-last done rest le)
        ∙ rw (frame-last rest pos le),
    update_self r.recv_cache id none,
    update_ne r.recv_cache id none,
  )
  join-last done rest (inr (e, d)) pos le = (
    r,
    join-new r id _ _ (take 64 rest) rest e
          (rw (frame-size rest (omega arith)) (filled-last [] rest le))
        ∙ rw (frame-last rest pos le, d, take_all 64 rest le),
    e,
    λ j ne. refl,
  )

  -- Another frame is kept.
  pub join-more :
      (done rest : List ℕ)
      → Expects (r.recv_cache id) done rest
      → 64 < length rest
      → length rest < 2 ^ 31
      → (r' : Receiver) × (joined rest ≡ some (none, r'))
        × (r'.recv_cache id ≡ some (entry_of (done ++ take 64 rest) (drop 64 rest)))
        × ((j : ℕ) → j ≢ id → r'.recv_cache j ≡ r.recv_cache j)
  join-more done rest (inl e) lt small = (
    record r {
      recv_cache = update r.recv_cache id (some (entry_of (done ++ take 64 rest) (drop 64 rest)));
    },
    join-known r id _ _ (take 64 rest) _ (entry_of done rest) e (filled-more done rest lt)
        ∙ rw (frame-more rest lt small, length-append done (take 64 rest)),
    update_self r.recv_cache id _,
    update_ne r.recv_cache id _,
  )
  join-more done rest (inr (e, d)) lt small = (
    record r {
      recv_cache = update r.recv_cache id (some (entry_of (take 64 rest) (drop 64 rest)));
    },
    join-new r id _ _ (take 64 rest) (take 64 rest ++ replicate (length (drop 64 rest)) 0) e
          (rw (frame-size rest small) (filled-more [] rest lt))
        ∙ rw (frame-more rest lt small),
    rw d (update_self r.recv_cache id _),
    update_ne r.recv_cache id _,
  )
