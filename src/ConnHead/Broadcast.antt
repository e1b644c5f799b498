-- ===== src/ConnHead/Broadcast.antt =====
-- The broadcast head hands out each of its 32 bits to one receiver at a time.
use thoth_ipc.Base.{
  ==_ne, ==_self, ℕ, suc, ◌+◌, ◌-◌, ◌%◌, ◌^◌, ◌<◌, bit_and, bit_or, bit_xor, ◌≡◌, ◌≢◌, ◌⊎◌, inl,
  inr, refl, sym, ap, ◌∙◌, arith, ℕ_discrete, add32, not32,
}
use thoth_ipc.Base.Bits.{
  bit, bit-le, bit-zero, bit-and, bit-or, bit-xor, bit-not, bit_and-lt, bit_or-lt, bit_or-zero,
  eq_of_bits,
}
use thoth_ipc.Base.LowBit.{bit-pow_self, bit-pow_ne, two_pow-lt}
use thoth_ipc.ConnHead.{ConnHead, connect, disconnect, conn_count}
use thoth_ipc.ConnHead.LowClear.{IsLowClear, low_clear}

connect_full : (head : ConnHead) → head.cc ≡ 2 ^ 32 - 1 → connect head ≡ (0, head)
unfolding connect
connect_full head e =
    let wrapped : add32 head.cc 1 ≡ 0 = omega (arith, e) in
    rw (wrapped, bit_or-zero head.cc, ==_self head.cc) refl

connect_free :
    (head : ConnHead) (t : ℕ)
    → head.cc + 1 < 2 ^ 32
    → IsLowClear 32 head.cc
        (bit_or head.cc (head.cc + 1))
        (bit_xor (bit_or head.cc (head.cc + 1)) head.cc)
        t
    → connect head ≡ (2 ^ t, record head { cc = bit_or head.cc (head.cc + 1) })
unfolding connect
connect_free head t h low =
    let plain : add32 head.cc 1 ≡ head.cc + 1 = omega arith in
    let differ : bit_or head.cc (head.cc + 1) ≢ head.cc = λ e. omega (
      arith,
      bit-zero t,
      low.clear,
      ap (bit t) e,
      bit-or t head.cc (head.cc + 1),
      bit_of_next head.cc t low,
    ) in
    rw (plain, ==_ne (bit_or head.cc (head.cc + 1)) head.cc differ, low.id_eq) refl
  where
    bit_of_next :
        (m t : ℕ)
        → IsLowClear 32 m (bit_or m (m + 1)) (bit_xor (bit_or m (m + 1)) m) t
        → bit t (bit_or m (m + 1)) ≡ 1
    bit_of_next m t low = omega (
      arith,
      bit-xor t (bit_or m (m + 1)) m,
      ap (bit t) low.id_eq,
      bit-pow_self t,
      low.clear,
      bit-le t (bit_or m (m + 1)),
    )

-- Where all bits are set, `connect` answers 0 and changes nothing. Otherwise it answers the lowest
-- bit that was clear, sets it and no other, and one more receiver is counted.
pub connect_lem :
    (head : ConnHead)
    → head.cc < 2 ^ 32
    → ((head.cc ≡ 2 ^ 32 - 1) × (connect head ≡ (0, head)))
      ⊎ ((t : ℕ) × (t < 32)
          × (bit t head.cc ≡ 0)
          × ((i : ℕ) → i < t → bit i head.cc ≡ 1)
          × (connect head ≡ (2 ^ t, record head { cc = head.cc + 2 ^ t }))
          × (conn_count (connect head).1 ≡ suc (conn_count head)))
unfolding conn_count
connect_lem head h = elim (ℕ_discrete head.cc (2 ^ 32 - 1)) [
  | yes e ↦ inl (e, connect_full head e)
  | no ne ↦
      let (t, low) = low_clear 32 head.cc (omega arith) in
      let e = connect_free head t (omega arith) low in
      inr (t, low.below, low.clear, low.ones, e ∙ rw low.next_eq refl, rw e low.count)
]

drop_clear : (m t : ℕ) → t < 32 → m < 2 ^ 32 → bit t m ≡ 0 → bit_and m (not32 (2 ^ t)) ≡ m
drop_clear m t ht hm clear =
    eq_of_bits 32 (bit_and m (not32 (2 ^ t))) m (bit_and-lt 32 m (not32 (2 ^ t)) hm) hm (λ i hi.
      let and = bit-and i m (not32 (2 ^ t)) in
      let neg = bit-not 32 i (2 ^ t) (two_pow-lt t 32 ht) hi in
      elim (ℕ_discrete i t) [
        | yes e ↦ omega (arith, and, ap (λ j. bit j m) e, clear)
        | no ne ↦ omega (arith, and, neg, bit-pow_ne i t ne, bit-le i m)
      ])

drop_bit :
    (next m t : ℕ)
    → t < 32
    → next < 2 ^ 32
    → m < 2 ^ 32
    → bit t m ≡ 0
    → ((i : ℕ) → (bit i next + bit i m) % 2 ≡ bit i (2 ^ t))
    → bit_and next (not32 (2 ^ t)) ≡ m
drop_bit next m t ht hn hm clear xor =
    eq_of_bits 32 (bit_and next (not32 (2 ^ t))) m (bit_and-lt 32 next (not32 (2 ^ t)) hn) hm
      (λ i hi.
        let and = bit-and i next (not32 (2 ^ t)) in
        let neg = bit-not 32 i (2 ^ t) (two_pow-lt t 32 ht) hi in
        elim (ℕ_discrete i t) [
          | yes e ↦ omega (
            arith,
            and,
            neg,
            ap (λ j. bit j m) e,
            clear,
            ap (λ j. bit j (2 ^ t)) e,
            bit-pow_self t,
          )
          | no ne ↦ omega (arith, and, neg, bit-pow_ne i t ne, xor i, bit-le i next, bit-le i m)
        ])

-- A receiver that leaves right after it has joined leaves the head as it was.
pub disconnect-connect :
    (head : ConnHead)
    → head.cc + 1 < 2 ^ 32
    → disconnect (connect head).1 (connect head).0 ≡ (head.cc, head)
unfolding disconnect
disconnect-connect head h =
    let (t, low) = low_clear 32 head.cc h in
    let next = bit_or head.cc (head.cc + 1) in
    let back : bit_and next (not32 (2 ^ t)) ≡ head.cc =
      drop_bit next head.cc t low.below (bit_or-lt 32 head.cc (head.cc + 1) (omega arith) h)
        (omega arith) low.clear (λ i. sym (bit-xor i next head.cc) ∙ ap (bit i) low.id_eq) in
    let again : bit_and head.cc (not32 (2 ^ t)) ≡ head.cc =
      drop_clear head.cc t low.below (omega arith) low.clear in
    rw (connect_free head t h low, back, again) refl
