-- ===== src/Route/Adopt.antt =====
-- Where a receiver that has just claimed its bit starts to read.
use thoth_ipc.Base.{
  ==_ne, ==_self, ℕ, zero, suc, ◌-◌, ◌^◌, ◌≤◌, ◌<◌, bit_and, ◌≡◌, ◌≢◌, ◌⊎◌, inl, inr, refl, sym,
  subst, ap, ◌∙◌, arith, ℕ_discrete, ◌==◌, u8, sub32, not64,
}
use thoth_ipc.Route.{Ring, ep_mask, ring_size, ring_slot, adopt_from, adopt_cursor}

-- The slot of position `pos` carries the mark `bit` in the ring's epoch.
abbrev pub Carries : Ring → ℕ → ℕ → Type 0
Carries ring bit pos =
    let rc = (ring_slot ring (u8 pos)).rc_ in
    (bit_and rc bit ≢ 0) × (bit_and rc (not64 ep_mask) ≡ ring.epoch)

-- The walk from `cur` went back `k` elements that all carry the mark, at most `n`, from positions
-- other than `since`, and stopped there for a reason.
abbrev pub Adopts : Ring → ℕ → ℕ → ℕ → ℕ → ℕ → Type 0
Adopts ring since bit n cur start =
    (k : ℕ) × (k ≤ n)
    × (start ≡ sub32 cur k)
    × ((j : ℕ) → j < k → sub32 cur j ≢ since)
    × ((j : ℕ) → j < k → Carries ring bit (sub32 cur (suc j)))
    × ((k ≡ n) ⊎ ((start ≡ since) ⊎ (Carries ring bit (sub32 cur (suc k)) → ⊥)))

stays :
    (ring : Ring) (since bit n cur : ℕ)
    → cur < 2 ^ 32
    → (cur ≡ since) ⊎ (Carries ring bit (sub32 cur 1) → ⊥)
    → Adopts ring since bit n cur cur
stays ring since bit n cur h why = (
  0,
  omega arith,
  omega arith,
  λ j hj. absurd (omega arith),
  λ j hj. absurd (omega arith),
  inr why,
)

goes_on :
    (ring : Ring) (since bit n cur start : ℕ)
    → cur < 2 ^ 32
    → n ≤ ring_size
    → cur ≢ since
    → Carries ring bit (sub32 cur 1)
    → Adopts ring since bit n (sub32 cur 1) start
    → Adopts ring since bit (suc n) cur start
goes_on ring since bit n cur start h hn away first (k, le, e, apart, all, why) =
    let shift : (j : ℕ) → j ≤ 2 ^ 31 → sub32 (sub32 cur 1) j ≡ sub32 cur (suc j) =
      λ j hj. omega arith in
    (
      suc k,
      omega arith,
      e ∙ shift k (omega arith),
      λ j hj at. elim (ℕ_discrete j 0) [
        | yes z ↦ away (omega (arith, z, at))
        | no nz ↦ apart (j - 1) (omega arith) (shift (j - 1) (omega arith) ∙ omega (arith, at))
      ],
      λ j hj. elim (ℕ_discrete j 0) [
        | yes z ↦ subst (λ j. Carries ring bit (sub32 cur (suc j))) (sym z) first
        | no nz ↦
            let same : sub32 (sub32 cur 1) (suc (j - 1)) ≡ sub32 cur (suc j) = omega arith in
            subst (Carries ring bit) same (all (j - 1) (omega arith))
      ],
      elim why [
        | inl full ↦ inl (ap suc full)
        | inr (inl at) ↦ inr (inl at)
        | inr (inr not_there) ↦
            inr (inr (subst (λ p. Carries ring bit p → ⊥) (shift (suc k) (omega arith)) not_there))
      ],
    )

adopt_from-Adopts :
    (n : ℕ) (ring : Ring) (since bit cur : ℕ)
    → cur < 2 ^ 32
    → n ≤ ring_size
    → Adopts ring since bit n cur (adopt_from n ring since bit cur)
unfolding adopt_from
adopt_from-Adopts zero ring since bit cur h hn = (
  0,
  omega arith,
  omega arith,
  λ j hj. absurd (omega arith),
  λ j hj. absurd (omega arith),
  inl refl,
)
adopt_from-Adopts (suc n) ring since bit cur h hn =
    let rc = (ring_slot ring (u8 (sub32 cur 1))).rc_ in
    elim (ℕ_discrete cur since) [
      | yes at ↦
          rw (ap (λ (c : ℕ). c == since) at ∙ ==_self since)
            (stays ring since bit (suc n) cur h (inl at))
      | no ne ↦ elim (ℕ_discrete (bit_and rc bit) 0) [
        | yes clear ↦
            rw (==_ne cur since ne, ap (λ (c : ℕ). c == 0) clear)
              (stays ring since bit (suc n) cur h (inr (λ c. c.0 clear)))
        | no mark ↦ elim (ℕ_discrete (bit_and rc (not64 ep_mask)) ring.epoch) [
          | no old ↦
              rw
                (
                  ==_ne cur since ne,
                  ==_ne (bit_and rc bit) 0 mark,
                  ==_ne (bit_and rc (not64 ep_mask)) ring.epoch old,
                )
                (stays ring since bit (suc n) cur h (inr (λ c. old c.1)))
          | yes epoch ↦
              rw
                (
                  ==_ne cur since ne,
                  ==_ne (bit_and rc bit) 0 mark,
                  ap (λ (e : ℕ). e == ring.epoch) epoch ∙ ==_self ring.epoch,
                )
                (goes_on ring since bit n cur (adopt_from n ring since bit (sub32 cur 1)) h
                  (omega arith) ne (mark, epoch)
                  (adopt_from-Adopts n ring since bit (sub32 cur 1) (omega arith) (omega arith)))
        ]
      ]
    ]

-- A receiver starts at the first of the elements, counted back from the write cursor, that all
-- carry its mark in the current epoch: it goes back at most 256, never past `since`, and stops only
-- there, at `since`, or where the element before does not carry the mark.
pub adopt_cursor-Adopts :
    (ring : Ring) (since bit : ℕ)
    → ring.write_cursor < 2 ^ 32
    → Adopts ring since bit ring_size ring.write_cursor (adopt_cursor ring since bit)
unfolding adopt_cursor
adopt_cursor-Adopts ring since bit h =
    adopt_from-Adopts ring_size ring since bit ring.write_cursor h (omega arith)
