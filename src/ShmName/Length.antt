-- ===== src/ShmName/Length.antt =====
-- The length of the name of a segment.
use thoth_ipc.Base.{
  ℕ, zero, suc, ◌+◌, ◌-◌, ◌≤◌, ◌<◌, min, ◌≡◌, ◌⊎◌, inl, inr, refl, arith, Bool, true, false, ◌&&◌,
  ◌||◌, none, some, List, [], ◌∷◌, ◌++◌, length, length-append, length-take, take, get_or, ltb, leb,
  lt→ltb, ◌==◌, if◌then◌else◌, Bool-cases, dec_lt, All,
}
use thoth_ipc.ShmName.{
  fnv1a_64, to_hex, slash, with_slash, hash_suffix_len, prefix_len, rest_of, is_char_boundary,
  str_take, make_shm_name,
}
use thoth_ipc.ShmName.Hex.{length-to_hex}

abbrev pub IsAscii : ℕ → Type 0
IsAscii b = b < 128

rest_of-IsAscii : (s : List ℕ) → All IsAscii s → All IsAscii (rest_of s)
rest_of-IsAscii [] h = tt
rest_of-IsAscii (b ∷ bs) h = h.1

with_slash-IsAscii : (s : List ℕ) → All IsAscii s → All IsAscii (with_slash s)
with_slash-IsAscii [] h = (omega arith, tt)
with_slash-IsAscii (b ∷ bs) h = elim (Bool-cases (b == slash)) [
  | inl e ↦ rw e h
  | inr e ↦ rw e (omega arith, h)
]

get_or-IsAscii : (s : List ℕ) (i : ℕ) → All IsAscii s → get_or s i 0 < 128
get_or-IsAscii [] i h = omega arith
get_or-IsAscii (b ∷ bs) zero h = h.0
get_or-IsAscii (b ∷ bs) (suc i) h = get_or-IsAscii bs i h.1

-- In ASCII every index is at a character.
str_take_ascii :
    (n : ℕ) (s : List ℕ) → All IsAscii s → n ≤ length s → str_take n s ≡ some (take n s)
unfolding str_take is_char_boundary
str_take_ascii n s h le = go (n == 0) (Bool-cases (n == length s))
  where
    at_char : ltb (get_or s n 0) 128 ≡ true
    at_char = lt→ltb (get_or s n 0) 128 (get_or-IsAscii s n h)

    go :
        (b : Bool)
        → ((n == length s) ≡ true) ⊎ ((n == length s) ≡ false)
        → (if b
              || ((n == length s)
                  || (ltb n (length s) && (ltb (get_or s n 0) 128 || leb 192 (get_or s n 0))))
            then some (take n s)
            else none)
          ≡ some (take n s)
    go true c = refl
    go false (inl e) = rw e refl
    go false (inr e) =
        let lt : ltb n (length s) ≡ true = lt→ltb n (length s) (ground (arith, le, e)) in
        rw (e, lt, at_char) refl

abbrev shortened_name : ℕ → List ℕ → List ℕ
shortened_name max name =
    let body = rest_of (with_slash name) in
    slash ∷ take (min (prefix_len max) (length body)) body
    ++ (95 ∷ to_hex (fnv1a_64 (with_slash name)))

length-shortened_name :
    (max : ℕ) (name : List ℕ) → hash_suffix_len < max → length (shortened_name max name) ≤ max
length-shortened_name max name h =
    let body = rest_of (with_slash name) in
    let n = min (prefix_len max) (length body) in
    let prefix : prefix_len max ≤ max - 18 = elim (Bool-cases (ltb (hash_suffix_len + 1) max)) [
      | inl e ↦ rw e (omega arith)
      | inr e ↦ rw e (omega arith)
    ] in
    omega (
      arith,
      length-append (take n body) (95 ∷ to_hex (fnv1a_64 (with_slash name))),
      length-take n body,
      length-to_hex (fnv1a_64 (with_slash name)),
      prefix,
    )

make_shm_name-short :
    (max : ℕ) (name : List ℕ)
    → length (with_slash name) ≤ max
    → make_shm_name max name ≡ some (with_slash name)
unfolding make_shm_name
make_shm_name-short max name h =
    let short : leb (length (with_slash name)) max ≡ true = ground (arith, h) in
    elim (Bool-cases (max == 0)) [ inl e ↦ rw e refl | inr e ↦ rw (e, short) refl ]

make_shm_name-long :
    (max : ℕ) (name : List ℕ)
    → 0 < max
    → All IsAscii name
    → max < length (with_slash name)
    → make_shm_name max name ≡ some (shortened_name max name)
unfolding make_shm_name
make_shm_name-long max name pos ascii h =
    let body = rest_of (with_slash name) in
    let limited : (max == 0) ≡ false = ground (arith, pos) in
    let long : leb (length (with_slash name)) max ≡ false = ground (arith, h) in
    let cut =
      str_take_ascii (min (prefix_len max) (length body)) body
        (rest_of-IsAscii (with_slash name) (with_slash-IsAscii name ascii)) (omega arith) in
    rw (limited, long, cut) refl

-- With a limit of at least 18 bytes, an ASCII name gives a segment name of at most that many, and
-- only a slash is put before it where that fits.
pub make_shm_name-length :
    (max : ℕ) (name : List ℕ)
    → hash_suffix_len < max
    → All IsAscii name
    → (r : List ℕ) × (make_shm_name max name ≡ some r)
      × (length r ≤ max)
      × (length (with_slash name) ≤ max → r ≡ with_slash name)
make_shm_name-length max name hm ascii = elim (dec_lt max (length (with_slash name))) [
  | yes lt ↦ (
    shortened_name max name,
    make_shm_name-long max name (omega arith) ascii lt,
    length-shortened_name max name hm,
    λ le. absurd (omega arith),
  )
  | no ge ↦ (with_slash name, make_shm_name-short max name (omega arith), omega arith, λ le. refl)
]
