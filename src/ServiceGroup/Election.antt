-- ===== src/ServiceGroup/Election.antt =====
-- The election: the first instance that is alive becomes the only primary.
use thoth_ipc.Base.{
  ℕ, zero, suc, ◌+◌, ◌<◌, ◌≡◌, ◌≢◌, refl, sym, ap, subst, ◌∙◌, arith, Bool, true, false, Option,
  none, some, List, [], ◌∷◌, map, ◌==◌, ==_ne, if◌then◌else◌, ℕ_discrete,
}
use thoth_ipc.ServiceRegistry.{Host}
use thoth_ipc.ServiceGroup.{
  InstanceRole, ManagedInstance, ServiceGroup, is_running, is_primary, first_running, give_roles,
  elect_primary, stopped, dead_at,
}
use thoth_ipc.ServiceGroup.Roles.{leads, runs, NoneLeads}

-- The primary index names the instance that has the role, and no other has it.
pub record IsLed (group : ServiceGroup) : Type 0 where
  pub only : (k : ℕ) → leads group.instances k ≡ true → group.primary_idx ≡ some k
  pub leads_at : (k : ℕ) → group.primary_idx ≡ some k → leads group.instances k ≡ true

pub NoneLeads-IsLed :
    (group : ServiceGroup) → NoneLeads group.instances → group.primary_idx ≡ none → IsLed group
NoneLeads-IsLed group n e = record { only = λ k h. let f = n k in cc; leads_at = λ k h. cc }

-- The answer is the first that runs.
pub data IsFirst (host : Host) (xs : List ManagedInstance) (i : ℕ) : Option ℕ → Type 0 where
  nobody : ((k : ℕ) → runs host xs k ≡ false) → IsFirst host xs i none
  found :
      (k m : ℕ)
      → k + i ≡ m
      → runs host xs k ≡ true
      → ((j : ℕ) → j < k → runs host xs j ≡ false)
      → IsFirst host xs i (some m)

pub first_running-IsFirst :
    (host : Host) (i : ℕ) (xs : List ManagedInstance) → IsFirst host xs i (first_running host i xs)
unfolding first_running
first_running-IsFirst host i [] = IsFirst.nobody (λ k. refl)
first_running-IsFirst host i (x ∷ xs) =
    go (is_running host x) refl (first_running host (suc i) xs)
      (first_running-IsFirst host (suc i) xs)
  where
    go :
        (b : Bool)
        → is_running host x ≡ b
        → (later : Option ℕ) → IsFirst host xs (suc i) later
        → IsFirst host (x ∷ xs) i (if b then some i else later)
    go true e later f = IsFirst.found 0 i (omega arith) e (λ j h. absurd (omega arith))
    go false e _ (IsFirst.nobody n) = IsFirst.nobody none_of
      where
        none_of : (k : ℕ) → runs host (x ∷ xs) k ≡ false
        none_of zero = e
        none_of (suc k) = n k
    go false e _ (IsFirst.found k m at r before) =
        IsFirst.found (suc k) m (omega (arith, at)) r earlier
      where
        earlier : (j : ℕ) → j < suc k → runs host (x ∷ xs) j ≡ false
        earlier zero h = e
        earlier (suc j) h = before j (omega arith)

-- The roles given: the elected one leads, and no other that did not lead before.
pub give_roles-elected :
    (host : Host) (i j : ℕ) (xs : List ManagedInstance) (k : ℕ)
    → runs host xs k ≡ true
    → k + j ≡ i
    → leads (give_roles host i j xs) k ≡ true
unfolding give_roles
give_roles-elected host i j [] k r e = cc
give_roles-elected host i j (x ∷ xs) zero r e =
    let here : (j == i) ≡ true = ground (arith, e) in rw here refl
give_roles-elected host i j (x ∷ xs) (suc k) r e =
    give_roles-elected host i (suc j) xs k r (omega arith)

pub give_roles-others :
    (host : Host) (i j : ℕ) (xs : List ManagedInstance) (k : ℕ)
    → NoneLeads xs
    → leads (give_roles host i j xs) k ≡ true
    → k + j ≡ i
unfolding give_roles
give_roles-others host i j [] k n h = cc
give_roles-others host i j (x ∷ xs) zero n h = elim (ℕ_discrete j i) [
  | yes e ↦ omega (arith, e)
  | no ne ↦ absurd (go (j == i) (is_running host x) (==_ne j i ne) (n 0) h)
]
  where
    go :
        (here b : Bool)
        → here ≡ false
        → is_primary x.role ≡ false
        → is_primary (
            (if here
              then record x { role = InstanceRole.primary }
              else if b
              then record x { role = InstanceRole.standby }
              else x).role)
          ≡ true
        → ⊥
    go true b e f h = cc
    go false true e f h = cc
    go false false e f h = cc
give_roles-others host i j (x ∷ xs) (suc k) n h =
    let later = give_roles-others host i (suc j) xs k (λ m. n (suc m)) h in omega (arith, later)

pub elect_primary-IsLed :
    (host : Host) (group : ServiceGroup)
    → NoneLeads group.instances
    → IsLed (elect_primary host group).1
unfolding elect_primary
elect_primary-IsLed host group n =
    go (first_running host 0 group.instances) (first_running-IsFirst host 0 group.instances)
  where
    go :
        (o : Option ℕ)
        → IsFirst host group.instances 0 o
        → IsLed (
            (elim o as (λ x. Bool × ServiceGroup) [
              | none ↦ (false, record group { primary_idx = none })
              | some i ↦ (
                true,
                record group {
                  primary_idx = some i;
                  instances = give_roles host i 0 group.instances;
                },
              )
            ]).1)
    go _ (IsFirst.nobody f) = NoneLeads-IsLed (record group { primary_idx = none }) n refl
    go _ (IsFirst.found k m at r before) = record {
      only = λ l h. ap some (sym (give_roles-others host m 0 group.instances l n h) ∙ omega arith);
      leads_at = λ l h.
          let same : m ≡ l = cc in
          give_roles-elected host m 0 group.instances l
            (subst (λ q. runs host group.instances q ≡ true) (omega (arith, same, at)) r)
            (omega (arith, same));
    }

pub elect_primary-idx :
    (host : Host) (group : ServiceGroup)
    → (elect_primary host group).1.primary_idx ≡ first_running host 0 group.instances
unfolding elect_primary
elect_primary-idx host group = go (first_running host 0 group.instances)
  where
    go :
        (o : Option ℕ)
        → (elim o as (λ x. Bool × ServiceGroup) [
          | none ↦ (false, record group { primary_idx = none })
          | some i ↦ (
            true,
            record group { primary_idx = some i; instances = give_roles host i 0 group.instances },
          )
        ]).1.primary_idx
          ≡ o
    go none = refl
    go (some i) = refl

-- `dead_at` takes the role from the primary.
pub dead_at-leads :
    (idx : ℕ) (xs : List ManagedInstance) (k : ℕ)
    → leads (dead_at idx xs) k ≡ true
    → (leads xs k ≡ true) × (k ≢ idx)
dead_at-leads idx [] k h = cc
dead_at-leads zero (x ∷ xs) zero h = (cc, cc)
dead_at-leads zero (x ∷ xs) (suc k) h = (h, λ e. omega (arith, e))
dead_at-leads (suc idx) (x ∷ xs) zero h = (h, λ e. omega (arith, e))
dead_at-leads (suc idx) (x ∷ xs) (suc k) h =
    let (l, ne) = dead_at-leads idx xs k h in (l, λ e. ne (omega (arith, e)))

pub stopped-NoneLeads : (xs : List ManagedInstance) → NoneLeads (map stopped xs)
stopped-NoneLeads [] k = refl
stopped-NoneLeads (x ∷ xs) zero = refl
stopped-NoneLeads (x ∷ xs) (suc k) = stopped-NoneLeads xs k
