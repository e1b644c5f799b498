-- ===== src/Base/Update.antt =====
-- A family of values with one of them replaced.
use Prim.Native.Nat.{ℕ}
use mathlib.Core.Path.{◌≡◌, subst, sym, ◌∙◌}
use mathlib.Core.Logic.{◌≢◌, ite}
use native.Mathlib.Omega.{arith}
use native.Mathlib.Decide.{ℕ_discrete}

-- `f` with the value `a` at `i`
abbrev pub update {ℓ} : {A : Type ℓ} → (ℕ → A) → ℕ → A → ℕ → A
update f i a j = ite (ℕ_discrete i j) a (f j)

pub update_ne {ℓ} : {A : Type ℓ} (f : ℕ → A) {i j : ℕ} (a : A) → i ≢ j → update f i a j ≡ f j
update_ne f a ne = ground (arith, ne)

pub update_self {ℓ} : {A : Type ℓ} (f : ℕ → A) (i : ℕ) (a : A) → update f i a i ≡ a
update_self f i a = ground arith

-- What holds of the new value, and of the others, holds of all.
pub update-elim {ℓ κ} :
    {A : Type ℓ} (P : ℕ → A → Type κ) (f : ℕ → A) (i : ℕ) (a : A)
    → P i a
    → ((j : ℕ) → i ≢ j → P j (f j))
    → (j : ℕ) → P j (update f i a j)
update-elim P f i a here rest j = elim (ℕ_discrete i j) [
  | yes e ↦ subst (λ j. P j (update f i a j)) e (subst (P i) (sym (update_self f i a)) here)
  | no ne ↦ subst (P j) (sym (update_ne f a ne)) (rest j ne)
]

-- Where at most one satisfies `P`, that stays so if the new value does not, or none of the others.
pub update_unique {ℓ κ} :
    {A : Type ℓ} (P : A → Type κ) (f : ℕ → A) (k : ℕ) (w : A)
    → ((l : ℕ) → k ≢ l → P w → P (f l) → ⊥)
    → ((a b : ℕ) → P (f a) → P (f b) → a ≡ b)
    → (a b : ℕ) → P (update f k w a)
    → P (update f k w b)
    → a ≡ b
update_unique P f k w new old a b ha hb = elim (ℕ_discrete k a) [
  | yes ea ↦ elim (ℕ_discrete k b) [
    | yes eb ↦ sym ea ∙ eb
    | no nb ↦ absurd (new b nb (at_self ea ha) (at_ne nb hb))
  ]
  | no na ↦ elim (ℕ_discrete k b) [
    | yes eb ↦ absurd (new a na (at_self eb hb) (at_ne na ha))
    | no nb ↦ old a b (at_ne na ha) (at_ne nb hb)
  ]
]
  where
    at_self : {c : ℕ} → k ≡ c → P (update f k w c) → P w
    at_self e h = subst P (update_self f k w) (subst (λ c. P (update f k w c)) (sym e) h)

    at_ne : {c : ℕ} → k ≢ c → P (update f k w c) → P (f c)
    at_ne ne h = subst P (update_ne f w ne) h
