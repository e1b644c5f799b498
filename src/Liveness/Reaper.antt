-- ===== src/Liveness/Reaper.antt =====
-- Which receivers the reaper disconnects: those with a recorded owner that is not alive.
use thoth_ipc.Base.{
  ℕ, ◌-◌, ◌^◌, ◌≤◌, ◌<◌, max, bit_and, bit_or, ◌≡◌, ◌≢◌, ◌⊎◌, inl, inr, refl, sym, ap, ◌∙◌, arith,
  ℕ_discrete, not32, Bool, true, false, not, List, set, get_or-set_ne, ◌==◌, if◌then◌else◌,
  trailing_zeros,
}
use thoth_ipc.Base.Bits.{bit, bit-le, bit-zero, bit-and, bit-or, bit-not}
use thoth_ipc.Base.LowBit.{
  two_pow-lt, bit-pow_self, bit-pow_ne, bit-trailing_zeros, trailing_zeros-lt, trailing_zeros-pow,
  bit-drop_lowest, bit-drop_lowest_ne,
}
use thoth_ipc.Base.EachBit.{each_bit-elim}
use thoth_ipc.Liveness.{
  SlotOwner, Os, Reap, no_owner, owner_at, is_process_alive, reap_one, reap_dead_receivers,
}
use thoth_ipc.Liveness.Marks.{round_same, round_other}

-- The slot has an owner, and that process is not alive.
abbrev pub is_dead : Os → SlotOwner → Bool
is_dead os s = if s.pid == 0 then false else not (is_process_alive os s.pid s.start_tok)

abbrev without : ℕ → ℕ → Reap → SlotOwner → Reap
without bit t r s = record {
  slots = set r.slots t (record s { pid = 0; start_tok = 0 });
  connections = bit_and r.connections (not32 bit);
  reaped = bit_or r.reaped bit;
}

reap_one_cases :
    (os : Os) (t : ℕ) (r : Reap)
    → t < 32
    → ((is_dead os (owner_at r.slots t) ≡ false) × (reap_one os (2 ^ t) r ≡ r))
      ⊎ ((is_dead os (owner_at r.slots t) ≡ true)
          × (reap_one os (2 ^ t) r ≡ without (2 ^ t) t r (owner_at r.slots t)))
unfolding reap_one
reap_one_cases os t r h =
    rw (trailing_zeros-pow 32 t h) (go (s.pid == 0) (is_process_alive os s.pid s.start_tok))
  where
    s : SlotOwner
    s = owner_at r.slots t

    go :
        (none_there alive : Bool)
        → (((if none_there then false else not alive) ≡ false)
            × ((if none_there then r else if alive then r else without (2 ^ t) t r s) ≡ r))
          ⊎ (((if none_there then false else not alive) ≡ true)
              × ((if none_there then r else if alive then r else without (2 ^ t) t r s)
                  ≡ without (2 ^ t) t r s))
    go true alive = inl (refl, refl)
    go false true = inl (refl, refl)
    go false false = inr (refl, refl)

-- What one round does to bit `i`.
reap_one_bits :
    (os : Os) (t i c : ℕ) (r : Reap)
    → t < 32
    → i < 32
    → c ≤ 1
    → bit i r.connections ≡ c - bit i r.reaped
    → (bit i (reap_one os (2 ^ t) r).reaped ≡ (
        if is_dead os (owner_at r.slots t)
        then max (bit i r.reaped) (bit i (2 ^ t))
        else bit i r.reaped))
      × (bit i (reap_one os (2 ^ t) r).connections ≡ c - bit i (reap_one os (2 ^ t) r).reaped)
      × (i ≢ t → owner_at (reap_one os (2 ^ t) r).slots i ≡ owner_at r.slots i)
reap_one_bits os t i c r ht hi hc h = elim (reap_one_cases os t r ht) [
  | inl (d, e) ↦ rw (d, e) (refl, h, λ ne. refl)
  | inr (d, e) ↦
      let joined = bit-or i r.reaped (2 ^ t) in
      let left : bit i (bit_and r.connections (not32 (2 ^ t)))
          ≡ c - bit i (bit_or r.reaped (2 ^ t)) =
        bit-and i r.connections (not32 (2 ^ t))
        ∙ omega (
          arith,
          h,
          joined,
          bit-not 32 i (2 ^ t) (two_pow-lt t 32 ht) hi,
          bit-le i (2 ^ t),
          bit-le i r.connections,
          bit-le i r.reaped,
        ) in
      rw (d, e)
        (
          joined,
          left,
          λ ne.
              get_or-set_ne r.slots (record (owner_at r.slots t) { pid = 0; start_tok = 0 })
                no_owner (λ e. ne (sym e)),
        )
]

module _ (os : Os) (slots : List SlotOwner) (live connections : ℕ) where
  -- Bit `i` while the bits of `m` are still to do.
  abbrev BitDone : ℕ → Reap → ℕ → Type 0
  BitDone m r i =
      (bit i m ≤ bit i live)
      × (bit i r.reaped ≡ (if is_dead os (owner_at slots i) then bit i live - bit i m else 0))
      × (bit i r.connections ≡ bit i connections - bit i r.reaped)
      × (bit i m ≡ 1 → owner_at r.slots i ≡ owner_at slots i)

  abbrev Done : ℕ → Reap → Type 0
  Done m r = (i : ℕ) → i < 32 → BitDone m r i

  reap_one-Done :
      (m : ℕ) (r : Reap)
      → 0 < m
      → m < 2 ^ 32
      → Done m r
      → Done (bit_and m (m - 1)) (reap_one os (2 ^ trailing_zeros 32 m) r)
  reap_one-Done m r hp hm done i hi =
      let t = trailing_zeros 32 m in
      let ht = trailing_zeros-lt 32 m hp hm in
      let on = bit-trailing_zeros 32 m hp hm in
      let (le_t, reaped_t, conn_t, same_t) = done t ht in
      let (le, reaped, conn, same) = done i hi in
      let (reaped', conn', others) =
        reap_one_bits os t i (bit i connections) r ht hi (bit-le i connections) conn in
      let kept : bit i (reap_one os (2 ^ t) r).reaped ≡ (
          if is_dead os (owner_at slots t)
          then max (bit i r.reaped) (bit i (2 ^ t))
          else bit i r.reaped) =
        reaped'
        ∙ ap
            (λ (o : SlotOwner).
              if is_dead os o then max (bit i r.reaped) (bit i (2 ^ t)) else bit i r.reaped)
            (same_t on) in
      elim (ℕ_discrete i t) [
        | yes it ↦
            let off : bit i (bit_and m (m - 1)) ≡ 0 = rw it (bit-drop_lowest 32 m hp hm) in
            let (le', is) =
              round_same (is_dead os (owner_at slots i)) (is_dead os (owner_at slots t))
                (bit i (2 ^ t)) (bit i r.reaped) (bit i live) (bit i m) (bit i (bit_and m (m - 1)))
                (bit i (reap_one os (2 ^ t) r).reaped) (ap (λ j. is_dead os (owner_at slots j)) it)
                (rw it (bit-pow_self t)) (rw it on) off (bit-le i live) le reaped kept in
            (le', is, conn', λ h. absurd (omega (arith, h, off)))
        | no it ↦
            let still = bit-drop_lowest_ne 32 m i hp hm it in
            let (le', is) =
              round_other (is_dead os (owner_at slots i)) (is_dead os (owner_at slots t))
                (bit i (2 ^ t)) (bit i r.reaped) (bit i live) (bit i m) (bit i (bit_and m (m - 1)))
                (bit i (reap_one os (2 ^ t) r).reaped) (bit-pow_ne i t it) still le reaped kept in
            (le', is, conn', λ h. others it ∙ same (sym still ∙ h))
      ]

-- Of the receivers in `live`, the reaper disconnects exactly those with a recorded owner that is
-- not alive, and leaves every other connection.
pub bit-reap_dead_receivers :
    (os : Os) (slots : List SlotOwner) (live connections i : ℕ)
    → live < 2 ^ 32
    → i < 32
    → (bit i (reap_dead_receivers os slots live connections).reaped
        ≡ (if is_dead os (owner_at slots i) then bit i live else 0))
      × (bit i (reap_dead_receivers os slots live connections).connections
          ≡ bit i connections - (if is_dead os (owner_at slots i) then bit i live else 0))
unfolding reap_dead_receivers
bit-reap_dead_receivers os slots live connections i hl hi =
    let r = reap_dead_receivers os slots live connections in
    let done =
      each_bit-elim (Done os slots live connections) (reap_one os)
        (reap_one-Done os slots live connections) 32 0 live
        (record { slots = slots; connections = connections; reaped = 0 }) (omega arith) hl
        (λ i hi. absurd (omega arith))
        (λ i hi. (
          omega arith,
          rw (bit-zero i) (nothing (is_dead os (owner_at slots i)) (bit i live)),
          rw (bit-zero i) (omega arith),
          λ h. refl,
        )) in
    let (le, reaped, conn, same) = done i hi in
    let all : bit i live - bit i 0 ≡ bit i live = omega (arith, bit-zero i) in
    let is : bit i r.reaped ≡ (if is_dead os (owner_at slots i) then bit i live else 0) =
      reaped ∙ ap (λ (n : ℕ). if is_dead os (owner_at slots i) then n else 0) all in
    (is, conn ∙ ap (λ (n : ℕ). bit i connections - n) is)
  where
    nothing : (b : Bool) (n : ℕ) → 0 ≡ (if b then n - n else 0)
    nothing true n = omega arith
    nothing false n = refl
