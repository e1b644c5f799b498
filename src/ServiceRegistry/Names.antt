-- ===== src/ServiceRegistry/Names.antt =====
-- A name of at most 63 bytes comes back from the field it was copied to.
use thoth_ipc.Base.{
  ℕ, ◌+◌, ◌≤◌, ◌<◌, min, ◌≡◌, ◌≢◌, refl, ap, arith, true, false, List, [], ◌∷◌, ◌++◌, ==_ne,
  bytes_eq_refl, length, take_all, drop, All, ◌==◌, get_or,
}
use thoth_ipc.ServiceRegistry.Utf8.{is_utf8}
use thoth_ipc.ServiceRegistry.{
  Host, default_entry, until_zero, field_str, copy_str, fill_entry, is_active, is_pid, is_named,
}

-- A name that fits a field: not empty, at most 63 bytes, none of them 0, and UTF-8.
pub record IsName (name : List ℕ) : Type 0 where
  pub nonempty : 0 < length name
  pub short : length name ≤ 63
  pub no_zero : All (λ (b : ℕ). b ≢ 0) name
  pub utf8 : is_utf8 name ≡ true

until_zero-name :
    (name rest : List ℕ) → All (λ (b : ℕ). b ≢ 0) name → until_zero (name ++ (0 ∷ rest)) ≡ name
until_zero-name [] rest h = refl
until_zero-name (b ∷ bs) rest (ne, h) =
    rw (==_ne b 0 ne) (ap (λ xs. b ∷ xs) (until_zero-name bs rest h))

copy_fits :
    (dst name : List ℕ)
    → length name ≤ 63
    → copy_str dst name ≡ name ++ (0 ∷ drop (length name + 1) dst)
unfolding copy_str
copy_fits dst name h =
    let len : min (length name) 63 ≡ length name = omega arith in
    rw (len, take_all (length name) name (omega arith)) refl

pub field_str-copy_str : (dst name : List ℕ) → IsName name → field_str (copy_str dst name) ≡ name
unfolding field_str
field_str-copy_str dst name n =
    rw
      (
        copy_fits dst name n.short,
        until_zero-name name (drop (length name + 1) dst) n.no_zero,
        n.utf8,
      )
      refl

first_not_zero :
    (name rest : List ℕ)
    → 0 < length name
    → All (λ (b : ℕ). b ≢ 0) name
    → (get_or (name ++ rest) 0 0 == 0) ≡ false
first_not_zero [] rest h a = absurd (omega arith)
first_not_zero (b ∷ bs) rest h (ne, a) = ==_ne b 0 ne

-- An entry that is filled in for a name has that name.
pub fill_entry-is_named :
    (host : Host) (name ctrl reply : List ℕ) (pid : ℕ)
    → IsName name
    → is_pid pid ≡ true
    → is_named name (fill_entry host name ctrl reply pid) ≡ true
unfolding is_active fill_entry
fill_entry-is_named host name ctrl reply pid n hp =
    let field = copy_str default_entry.name name in
    let active : (get_or field 0 0 == 0) ≡ false =
      rw (copy_fits default_entry.name name n.short) (
        first_not_zero name (0 ∷ drop (length name + 1) default_entry.name) n.nonempty n.no_zero) in
    rw (hp, active, field_str-copy_str default_entry.name name n) (bytes_eq_refl name)
