-- ===== src/ShmRing/Queue.antt =====
-- The ring is a bounded queue, first in, first out.
use thoth_ipc.Base.{
  ℕ, suc, ◌+◌, ◌-◌, ◌^◌, ◌%◌, ◌/◌, ◌≤◌, ◌<◌, ◌≡◌, ◌≢◌, subst, ap, ◌∙◌, arith, dec_lt, some, List,
  [], ◌∷◌, ◌++◌, length, get_elem?, get_elem?-set_self, get_elem?-set_ne, set,
}
use thoth_ipc.Base.Bits.{bit_and-low_mask}
use native.Mathlib.Nat.{one-le-pow, mod-lt, div-add-mod, mul-suc, mul-le-mul_left}
use thoth_ipc.ShmRing.{ShmRing, capacity, slot_ptr, available}

-- Two indices less than a lap apart do not share a slot.
mod_apart : (n a d : ℕ) → 0 < d → d < n → (a + d) % n ≢ a % n
mod_apart n a d hd hn e = elim (dec_lt (a / n) ((a + d) / n)) [
  | yes lt ↦ omega (
    arith,
    e,
    div-add-mod a n,
    div-add-mod (a + d) n,
    mul-suc n (a / n),
    mul-le-mul_left {m = suc (a / n)} {n = (a + d) / n} n (omega arith),
  )
  | no ge ↦ omega (
    arith,
    e,
    div-add-mod a n,
    div-add-mod (a + d) n,
    mul-le-mul_left {m = (a + d) / n} {n = a / n} n (omega arith),
  )
]

mod_ahead : (n r w : ℕ) → r < w → w < r + n → w % n ≢ r % n
mod_ahead n r w h hw e =
    mod_apart n r (w - r) (omega arith) (omega arith) (ap (λ (x : ℕ). x % n) (omega arith) ∙ e)

pub slot_ptr_lem : (k idx : ℕ) → slot_ptr k idx ≡ idx % capacity k
slot_ptr_lem k idx = bit_and-low_mask k idx

pub slot-lt : (k idx : ℕ) → idx % capacity k < capacity k
slot-lt k idx = mod-lt idx (one-le-pow k 2 (omega arith))

module _ {ℓ} {A : Type ℓ} (k : ℕ) where
  -- From index `r` on, the slots hold `queue`.
  abbrev pub Items : List A → ℕ → List A → Type ℓ
  Items slots r [] = Unit
  Items slots r (x ∷ xs) = (get_elem? slots (r % capacity k) ≡ some x) × Items slots (suc r) xs

  -- The ring holds `queue`, the oldest first, and its indices have not gone round 2^64.
  pub record IsQueue (ring : ShmRing A) (queue : List A) : Type ℓ where
    pub size : length ring.slots ≡ capacity k
    pub write_eq : ring.write_idx ≡ ring.read_idx + length queue
    pub write_lt : ring.write_idx < 2 ^ 64
    pub fits : length queue ≤ capacity k
    pub items : Items ring.slots ring.read_idx queue

  -- A write at an index less than a lap ahead leaves what is there.
  Items-set :
      (slots : List A) (r w : ℕ) (item : A) (queue : List A)
      → r + length queue ≤ w
      → w < r + capacity k
      → Items slots r queue
      → Items (set slots (w % capacity k) item) r queue
  Items-set slots r w item [] h hw it = tt
  Items-set slots r w item (x ∷ xs) h hw (e, it) = (
    get_elem?-set_ne slots item (mod_ahead (capacity k) r w (omega arith) hw) ∙ e,
    Items-set slots (suc r) w item xs (omega arith) (omega arith) it,
  )

  Items-snoc :
      (slots : List A) (r : ℕ) (item : A) (queue : List A)
      → get_elem? slots ((r + length queue) % capacity k) ≡ some item
      → Items slots r queue
      → Items slots r (queue ++ (item ∷ []))
  Items-snoc slots r item [] e it =
      let here : r + 0 ≡ r = omega arith in
      (subst (λ (j : ℕ). get_elem? slots (j % capacity k) ≡ some item) here e, tt)
  Items-snoc slots r item (x ∷ xs) e (f, it) =
      let here : r + length (x ∷ xs) ≡ suc r + length xs = omega arith in
      (
        f,
        Items-snoc slots (suc r) item xs
            (subst (λ (j : ℕ). get_elem? slots (j % capacity k) ≡ some item) here e) it,
      )

  -- The slots after an item is put behind `queue`.
  pub Items-push :
      (slots : List A) (r : ℕ) (item : A) (queue : List A)
      → length slots ≡ capacity k
      → length queue < capacity k
      → Items slots r queue
      → Items (set slots ((r + length queue) % capacity k) item) r (queue ++ (item ∷ []))
  Items-push slots r item queue size room it =
      let w = r + length queue in
      let put : get_elem? (set slots (w % capacity k) item) (w % capacity k) ≡ some item =
        get_elem?-set_self slots (w % capacity k) item (omega (arith, size, slot-lt k w)) in
      Items-snoc (set slots (w % capacity k) item) r item queue put
        (Items-set slots r w item queue (omega arith) (omega arith) it)

  pub count_lem :
      (ring : ShmRing A) (queue : List A) → IsQueue ring queue → available k ring ≡ length queue
  unfolding available
  count_lem ring queue q = omega (arith, q.write_eq, q.write_lt)
