-- ===== src/ServiceRegistry/Utf8.antt =====
-- `std::str::from_utf8(…).is_ok()`, as the standard library documents it.
use thoth_ipc.Base.{
  ℕ, zero, suc, Bool, true, false, ◌&&◌, Option, none, some, List, [], ◌∷◌, ltb, leb, ◌==◌,
  if◌then◌else◌,
}

abbrev within : ℕ → ℕ → ℕ → Bool
within lo hi b = leb lo b && leb b hi

-- For a first byte: how many bytes follow, and between which bounds the next one lies.
abbrev lead_byte : ℕ → Option (ℕ × (ℕ × ℕ))
lead_byte b =
    if ltb b 128
    then some (0, (128, 191))
    else if within 194 223 b
    then some (1, (128, 191))
    else if b == 224
    then some (2, (160, 191))
    else if b == 237
    then some (2, (128, 159))
    else if within 225 239 b
    then some (2, (128, 191))
    else if b == 240
    then some (3, (144, 191))
    else if within 241 243 b
    then some (3, (128, 191))
    else if b == 244
    then some (3, (128, 143))
    else none

abbrev utf8_from : ℕ → ℕ → ℕ → List ℕ → Bool
utf8_from zero lo hi [] = true
utf8_from (suc n) lo hi [] = false
utf8_from zero lo hi (b ∷ bs) = elim (lead_byte b) [
  | none ↦ false
  | some (n, (lo', hi')) ↦ utf8_from n lo' hi' bs
]
utf8_from (suc n) lo hi (b ∷ bs) =
    let rest = utf8_from n 128 191 bs in if within lo hi b then rest else false

abbrev pub is_utf8 : List ℕ → Bool
is_utf8 bytes = utf8_from 0 128 191 bytes
