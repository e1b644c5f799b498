-- ===== src/Channel/Fragments.antt =====
-- `ChanInner::send`: a message is cut into fragments of 64 bytes, each with the number of bytes
-- that remain after it. `remain` is an `i32` and wraps as in a release build, so it is the 32-bit
-- pattern of `size - offset - 64`.
use thoth_ipc.Base.{
  ℕ, zero, suc, ◌+◌, ◌-◌, ◌*◌, ◌/◌, ◌≤◌, ◌<◌, ◌≡◌, ◌^◌, refl, sym, ◌∙◌, arith, List, [], ◌∷◌, ◌++◌,
  ap, length-drop, take_all, drop-drop, length, take, drop, sub32, u32, ltb, if◌then◌else◌,
}
use thoth_ipc.Channel.Slot.{data_length}

pub record Fragment : Type 0 where
  pub remain : ℕ
  pub payload : List ℕ

-- `for _ in 0..full { … offset += DATA_LENGTH }`
unfoldable pub full_fragments : ℕ → ℕ → List ℕ → List Fragment
full_fragments zero offset input = []
full_fragments (suc n) offset input =
    record {
      remain = sub32 (sub32 (u32 (length input)) (u32 offset)) data_length;
      payload = take data_length (drop offset input);
    }
    ∷ full_fragments n (offset + data_length) input

-- the fragments that `send` pushes, in order
unfoldable pub fragments : List ℕ → List Fragment
unfolding full_fragments
fragments input =
    let size = length input in
    let full = size / data_length in
    let offset = full * data_length in
    let tail = size - offset in
    full_fragments full 0 input
    ++ (if ltb 0 tail
        then record { remain = sub32 (u32 tail) data_length; payload = drop offset input } ∷ []
        else [])

-- The same by what is left to send: the remaining `k` bytes of the message, with fuel.
unfoldable pub frames : ℕ → List ℕ → List Fragment
frames zero rest = []
frames (suc fuel) rest =
    let more = frames fuel (drop data_length rest) in
    if ltb 0 (length rest)
    then record { remain = sub32 (u32 (length rest)) data_length; payload = take data_length rest }
      ∷ more
    else []

abbrev pub frame_of : List ℕ → Fragment
frame_of rest = record {
  remain = sub32 (u32 (length rest)) data_length;
  payload = take data_length rest;
}

pub frames-cons :
    (fuel : ℕ) (rest : List ℕ)
    → 0 < length rest
    → frames (suc fuel) rest ≡ frame_of rest ∷ frames fuel (drop data_length rest)
unfolding frames
frames-cons fuel rest h = ground arith

pub frames-nil : (fuel : ℕ) (rest : List ℕ) → length rest ≡ 0 → frames fuel rest ≡ []
unfolding frames
frames-nil zero rest h = refl
frames-nil (suc fuel) rest h = ground arith

-- the trailing fragment
abbrev last_part : List ℕ → ℕ → List Fragment
last_part input end =
    if ltb 0 (length input - end)
    then record { remain = sub32 (u32 (length input - end)) data_length; payload = drop end input }
      ∷ []
    else []

last_part-eq :
    (input : List ℕ) (end : ℕ)
    → length input < end + 64
    → last_part input end ≡ frames 1 (drop end input)
unfolding frames
last_part-eq input end lt =
    rw (length-drop end input, take_all 64 (drop end input) (omega (arith, length-drop end input)))

-- The loop of `send` with its trailing fragment, from `offset` on with `n` full rounds left.
fragments_from :
    (n offset end : ℕ) (input : List ℕ)
    → offset + n * 64 ≡ end
    → end ≤ length input
    → length input < end + 64
    → length input < 2 ^ 31
    → full_fragments n offset input ++ last_part input end ≡ frames (suc n) (drop offset input)
unfolding full_fragments
fragments_from zero offset end input e le lt small =
    let e' : offset ≡ end = omega arith in rw e' (last_part-eq input end lt)
fragments_from (suc n) offset end input e le lt small =
    let step : sub32 (sub32 (u32 (length input)) (u32 offset)) 64
        ≡ sub32 (u32 (length input - offset)) 64 =
      omega arith in
    rw (
      frames-cons (suc n) (drop offset input) (omega (arith, length-drop offset input)),
      drop-drop offset 64 input,
      length-drop offset input,
      step,
      fragments_from n (offset + 64) end input (omega arith) le lt small,
    )

-- Fuel for every 64 bytes is enough.
pub frames_fuel :
    (f g : ℕ) (rest : List ℕ)
    → length rest ≤ f * 64
    → length rest ≤ g * 64
    → frames f rest ≡ frames g rest
frames_fuel zero g rest hf hg =
    frames-nil zero rest (omega arith) ∙ sym (frames-nil g rest (omega arith))
frames_fuel (suc f) zero rest hf hg =
    frames-nil (suc f) rest (omega arith) ∙ sym (frames-nil zero rest (omega arith))
frames_fuel (suc f) (suc g) [] hf hg = frames-nil (suc f) [] refl ∙ sym (frames-nil (suc g) [] refl)
frames_fuel (suc f) (suc g) (x ∷ xs) hf hg =
    frames-cons f (x ∷ xs) (omega arith)
    ∙ ap (λ t. frame_of (x ∷ xs) ∷ t)
        (frames_fuel f g (drop 63 xs) (omega (arith, length-drop 63 xs))
          (omega (arith, length-drop 63 xs)))
    ∙ sym (frames-cons g (x ∷ xs) (omega arith))

-- For a message shorter than 2^31 bytes, the fragments of `send` are: while bytes are left, the next
-- 64 of them (or all that are left), marked with how many are left beyond these 64.
pub fragments-eq-frames :
    (input : List ℕ) → length input < 2 ^ 31 → fragments input ≡ frames (length input) input
unfolding fragments
fragments-eq-frames input small =
    fragments_from (length input / 64) 0 (length input / 64 * 64) input (omega arith) (omega arith)
      (omega arith) small
    ∙ frames_fuel (suc (length input / 64)) (length input) input (omega arith) (omega arith)
