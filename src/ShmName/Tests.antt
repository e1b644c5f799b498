-- ===== src/ShmName/Tests.antt =====
-- Names at concrete inputs, and the theorems there.
use thoth_ipc.Base.{
  ℕ, zero, suc, ◌≤◌, ◌≡◌, refl, arith, List, [], ◌∷◌, ◌++◌, replicate, none, some, length, All,
}
use thoth_ipc.ShmName.{
  fnv1a_64, fnv1a_from, hex_from, to_hex, make_shm_name, is_char_boundary, str_take, with_slash,
}
use thoth_ipc.ShmName.Hex.{of_hex, of_hex-to_hex}
use thoth_ipc.ShmName.Length.{IsAscii, make_shm_name-length}

fnv_empty : fnv1a_64 [] ≡ 0xcbf29ce484222325
unfolding fnv1a_64 fnv1a_from
fnv_empty = refl

-- FNV-1a of "a"
fnv_a : fnv1a_64 (97 ∷ []) ≡ 0xaf63dc4c8601ec8c
unfolding fnv1a_64 fnv1a_from
fnv_a = refl

hex_runs :
    to_hex 0x0123456789abcdef
    ≡ 48 ∷ 49 ∷ 50 ∷ 51 ∷ 52 ∷ 53 ∷ 54 ∷ 55 ∷ 56 ∷ 57 ∷ 97 ∷ 98 ∷ 99 ∷ 100 ∷ 101 ∷ 102 ∷ []
unfolding to_hex hex_from
hex_runs = refl

abbrev short : List ℕ
short = 97 ∷ 98 ∷ []

abbrev long : List ℕ
long = replicate 40 97

keeps_short : make_shm_name 31 short ≡ some (47 ∷ 97 ∷ 98 ∷ [])
unfolding make_shm_name
keeps_short = refl

no_limit : make_shm_name 0 long ≡ some (47 ∷ long)
unfolding make_shm_name
no_limit = refl

-- A character of two bytes stands over the cut at byte 13.
cut_inside : make_shm_name 31 (replicate 12 97 ++ (0xc3 ∷ 0xa9 ∷ replicate 20 97)) ≡ none
unfolding make_shm_name str_take is_char_boundary
cut_inside = refl

replicate-IsAscii : (n : ℕ) → All IsAscii (replicate n 97)
replicate-IsAscii zero = tt
replicate-IsAscii (suc n) = (omega arith, replicate-IsAscii n)

make_shm_name-length_example :
    (r : List ℕ) × (make_shm_name 31 long ≡ some r)
    × (length r ≤ 31)
    × (length (with_slash long) ≤ 31 → r ≡ with_slash long)
make_shm_name-length_example = make_shm_name-length 31 long (omega arith) (replicate-IsAscii 40)

of_hex-to_hex_example : (length (to_hex 0xaf63) ≡ 16) × (of_hex 0 (to_hex 0xaf63) ≡ 0xaf63)
of_hex-to_hex_example = of_hex-to_hex 0xaf63 (omega arith)
