-- ===== src/Base/Total.antt =====
-- Sums over the first members of a family, and what replacing one of them does to the sum.
use Prim.Native.Nat.{ℕ, zero, suc, ◌+◌, ◌≤◌, ◌<◌}
use mathlib.Core.Path.{◌≡◌, refl, ap, sym, ◌∙◌}
use mathlib.Core.Logic.{◌≢◌}
use native.Mathlib.Omega.{arith}
use native.Mathlib.Decide.{ℕ_discrete}
use thoth_ipc.Base.Update.{update, update_ne, update_self}

abbrev pub total {ℓ} : {A : Type ℓ} → (A → ℕ) → (ℕ → A) → ℕ → ℕ
total w f zero = 0
total w f (suc n) = w (f n) + total w f n

module _ {ℓ} {A : Type ℓ} (w : A → ℕ) (f : ℕ → A) where
  total-beyond : (i : ℕ) (a : A) (n : ℕ) → n ≤ i → total w (update f i a) n ≡ total w f n
  total-beyond i a zero h = refl
  total-beyond i a (suc n) h =
      let ne : i ≢ n = (λ e. omega (arith, e)) in
      omega (arith, ap w (update_ne f a ne), total-beyond i a n (omega arith))

  pub total-update :
      (i : ℕ) (a : A) (n : ℕ) → i < n → total w (update f i a) n + w (f i) ≡ total w f n + w a
  total-update i a zero h = absurd (omega arith)
  total-update i a (suc n) h = elim (ℕ_discrete i n) [
    | yes e ↦
        let here : w (update f i a n) ≡ w a =
          ap w (ap (update f i a) (sym e) ∙ update_self f i a) in
        omega (arith, here, ap (λ k. w (f k)) e, total-beyond i a n (omega (arith, e)))
    | no ne ↦ omega (arith, ap w (update_ne f a ne), total-update i a n (omega arith))
  ]

  -- a member is at most the sum
  pub total-member : (i n : ℕ) → i < n → w (f i) ≤ total w f n
  total-member i zero h = absurd (omega arith)
  total-member i (suc n) h = elim (ℕ_discrete i n) [
    | yes e ↦ omega (arith, ap (λ k. w (f k)) e)
    | no ne ↦ omega (arith, total-member i n (omega arith))
  ]

  -- Members of at most 1 sum up to at most their number,
  pub total-le : (n : ℕ) → ((i : ℕ) → w (f i) ≤ 1) → total w f n ≤ n
  total-le zero h = omega arith
  total-le (suc n) h = omega (arith, h n, total-le n h)

  -- to less where one of them is 0,
  pub total-lt : (i n : ℕ) → ((i : ℕ) → w (f i) ≤ 1) → i < n → w (f i) ≡ 0 → total w f n < n
  total-lt i zero h hi z = absurd (omega arith)
  total-lt i (suc n) h hi z = elim (ℕ_discrete i n) [
    | yes e ↦ omega (arith, ap (λ k. w (f k)) e, z, total-le n h)
    | no ne ↦ omega (arith, h n, total-lt i n h (omega arith) z)
  ]

  -- and to 0 where all are.
  pub total-zero : (n : ℕ) → ((i : ℕ) → w (f i) ≡ 0) → total w f n ≡ 0
  total-zero zero h = refl
  total-zero (suc n) h = omega (arith, h n, total-zero n h)
