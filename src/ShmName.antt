-- ===== src/ShmName.antt =====
-- rust/thoth-ipc/src/shm_name.rs: the names of shared-memory segments. A `&str` is the list of its
-- bytes. The limit `SHM_NAME_MAX` is an argument: 31 on macOS, and 0, which is none, elsewhere.
pub mod Hex
pub mod Length
mod Tests
use thoth_ipc.Base.{
  ℕ, zero, suc, ◌+◌, ◌-◌, ◌*◌, ◌/◌, ◌%◌, ◌^◌, min, bit_and, bit_xor, Bool, true, false, ◌&&◌, ◌||◌,
  Option, none, some, List, [], ◌∷◌, ◌++◌, ltb, leb, ◌==◌, if◌then◌else◌, length, take, get_or, u64,
}
use thoth_ipc.Base.Maybe.{◌>>=◌}

-- `hash.wrapping_mul(0x100000001b3)` of `hash ^ b`, for each byte
unfoldable pub fnv1a_from : ℕ → List ℕ → ℕ
fnv1a_from hash [] = hash
fnv1a_from hash (b ∷ bs) = fnv1a_from (u64 (bit_xor hash b * 0x100000001b3)) bs

unfoldable pub fnv1a_64 : List ℕ → ℕ
fnv1a_64 bytes = fnv1a_from 0xcbf29ce484222325 bytes

-- b"0123456789abcdef"
abbrev pub digits : List ℕ
digits = 48 ∷ 49 ∷ 50 ∷ 51 ∷ 52 ∷ 53 ∷ 54 ∷ 55 ∷ 56 ∷ 57 ∷ 97 ∷ 98 ∷ 99 ∷ 100 ∷ 101 ∷ 102 ∷ []

-- `for i in (0..n).rev()`, with what is written behind it
unfoldable pub hex_from : ℕ → ℕ → List ℕ → List ℕ
hex_from zero v buf = buf
hex_from (suc i) v buf = hex_from i (v / 16) (get_or digits (bit_and v 0xf) 0 ∷ buf)

unfoldable pub to_hex : ℕ → List ℕ
to_hex val = hex_from 16 val []

-- '/'
abbrev pub slash : ℕ
slash = 47

abbrev pub with_slash : List ℕ → List ℕ
with_slash [] = slash ∷ []
with_slash (b ∷ bs) = if b == slash then b ∷ bs else slash ∷ b ∷ bs

-- `1 + 16`: an underscore and the hash
abbrev pub hash_suffix_len : ℕ
hash_suffix_len = 17

abbrev pub prefix_len : ℕ → ℕ
prefix_len max = if ltb (hash_suffix_len + 1) max then max - hash_suffix_len - 1 else 0

-- `&s[1..]`
abbrev pub rest_of : List ℕ → List ℕ
rest_of [] = []
rest_of (b ∷ bs) = bs

-- The byte begins a character.
abbrev pub starts_char : ℕ → Bool
starts_char b = ltb b 0x80 || leb 0xc0 b

unfoldable pub is_char_boundary : List ℕ → ℕ → Bool
is_char_boundary s i =
    (i == 0) || ((i == length s) || (ltb i (length s) && starts_char (get_or s i 0)))

-- `&s[..n]`, which panics inside a character: `none`
unfoldable pub str_take : ℕ → List ℕ → Option (List ℕ)
str_take n s = if is_char_boundary s n then some (take n s) else none

unfoldable pub make_shm_name : ℕ → List ℕ → Option (List ℕ)
make_shm_name max name =
    let result = with_slash name in
    let original_body = rest_of result in
    let hex_str = to_hex (fnv1a_64 result) in
    let shortened = do
      prefix ← str_take (min (prefix_len max) (length original_body)) original_body
      some (slash ∷ prefix ++ (95 ∷ hex_str))
    in if max == 0 then some result else if leb (length result) max then some result else shortened
