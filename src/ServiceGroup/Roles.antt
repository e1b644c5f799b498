-- ===== src/ServiceGroup/Roles.antt =====
-- What each pass over the instances does to their roles.
use thoth_ipc.Base.{
  ℕ, zero, suc, ◌≡◌, inl, inr, refl, sym, ap, ◌∙◌, Bool, true, false, not, ◌&&◌, ◌||◌, Option, none,
  some, List, [], ◌∷◌, map, if◌then◌else◌, Bool-cases,
}
use thoth_ipc.ServiceRegistry.{Host, ServiceEntry, find}
use thoth_ipc.ServiceGroup.{
  InstanceRole, ProcessHandle, ManagedInstance, Poll, Spawning, is_running, valid, wait_registered,
  spawn_instance, spawn_all, is_dead, is_primary, respawn_dead, mark_dead, failover_needed, stopped,
}

-- Whether instance `k` has the role of the primary, and whether it runs
abbrev pub leads : List ManagedInstance → ℕ → Bool
leads [] k = false
leads (inst ∷ rest) zero = is_primary inst.role
leads (inst ∷ rest) (suc k) = leads rest k

abbrev pub runs : Host → List ManagedInstance → ℕ → Bool
runs host [] k = false
runs host (inst ∷ rest) zero = is_running host inst
runs host (inst ∷ rest) (suc k) = runs host rest k

abbrev pub NoneLeads : List ManagedInstance → Type 0
NoneLeads xs = (k : ℕ) → leads xs k ≡ false

-- A spawn never makes a primary of an instance that is none.
wait_registered-role :
    (polls : List Poll) (h : ProcessHandle) (inst : ManagedInstance)
    → is_primary inst.role ≡ false
    → is_primary (wait_registered polls h inst).1.role ≡ false
unfolding wait_registered
wait_registered-role [] h inst e = e
wait_registered-role (p ∷ polls) h inst e =
    go (wait_registered polls h inst) (find p.host p.registry inst.instance_name).0
      (not (is_running p.host inst) && not (is_running p.host (record inst { proc = h }))) p.late
      (wait_registered-role polls h inst e)
  where
    go :
        (rest : Bool × ManagedInstance) (found : Option ServiceEntry) (gone late : Bool)
        → is_primary rest.1.role ≡ false
        → is_primary (
            (elim found as (λ o. Bool × ManagedInstance) [
              | some e ↦ (true, record inst { proc = h; entry = e; role = InstanceRole.standby })
              | none ↦ if gone then (false, inst) else if late then (false, inst) else rest
            ]).1.role)
          ≡ false
    go rest (some f) gone late r = refl
    go rest none true late r = e
    go rest none false true r = e
    go rest none false false r = r

spawn_instance-role :
    (s : Spawning) (inst : ManagedInstance)
    → is_primary inst.role ≡ false
    → is_primary (spawn_instance s inst).1.role ≡ false
unfolding spawn_instance
spawn_instance-role s inst e = elim (Bool-cases (valid s.handle)) [
  | inl h ↦ rw h (wait_registered-role s.polls s.handle inst e)
  | inr h ↦ rw h e
]

pub spawn_all-NoneLeads :
    (spawns : ℕ → Spawning) (i : ℕ) (xs : List ManagedInstance)
    → NoneLeads xs
    → NoneLeads (spawn_all spawns i xs)
unfolding spawn_all
spawn_all-NoneLeads spawns i [] h k = refl
spawn_all-NoneLeads spawns i (x ∷ xs) h zero = spawn_instance-role (spawns i) x (h 0)
spawn_all-NoneLeads spawns i (x ∷ xs) h (suc k) =
    spawn_all-NoneLeads spawns (suc i) xs (λ j. h (suc j)) k

dead_not_primary : (r : InstanceRole) → is_dead r ≡ true → is_primary r ≡ false
dead_not_primary InstanceRole.primary h = cc
dead_not_primary InstanceRole.standby h = cc
dead_not_primary InstanceRole.dead h = refl

-- Respawning changes no primary.
pub leads-respawn_dead :
    (spawns : ℕ → Spawning) (i : ℕ) (xs : List ManagedInstance) (k : ℕ)
    → leads (respawn_dead spawns i xs) k ≡ leads xs k
unfolding respawn_dead
leads-respawn_dead spawns i [] k = refl
leads-respawn_dead spawns i (x ∷ xs) zero = elim (Bool-cases (is_dead x.role)) [
  | inl h ↦
      let not_primary = dead_not_primary x.role h in
      rw h (spawn_instance-role (spawns i) x not_primary) ∙ sym not_primary
  | inr h ↦ rw h refl
]
leads-respawn_dead spawns i (x ∷ xs) (suc k) = leads-respawn_dead spawns (suc i) xs k

and_true : (b : Bool) → (b && true) ≡ b
and_true true = refl
and_true false = refl

and_false : (b : Bool) → (b && false) ≡ false
and_false true = refl
and_false false = refl

-- Of the primaries, `mark_dead` leaves those that run.
pub leads-mark_dead :
    (host : Host) (xs : List ManagedInstance) (k : ℕ)
    → leads (map (mark_dead host) xs) k ≡ (leads xs k && runs host xs k)
unfolding mark_dead
leads-mark_dead host [] k = refl
leads-mark_dead host (x ∷ xs) zero =
    go (is_dead x.role) (is_running host x) (dead_not_primary x.role)
  where
    go :
        (gone running : Bool)
        → (gone ≡ true → is_primary x.role ≡ false)
        → is_primary ((if gone then x else if not running then stopped x else x).role)
          ≡ (is_primary x.role && running)
    go true b h = h refl ∙ sym (ap (λ p. p && b) (h refl))
    go false true h = sym (and_true (is_primary x.role))
    go false false h = sym (and_false (is_primary x.role))
leads-mark_dead host (x ∷ xs) (suc k) = leads-mark_dead host xs k

pub mark_dead-runs :
    (host other : Host) (xs : List ManagedInstance) (k : ℕ)
    → runs other (map (mark_dead host) xs) k ≡ runs other xs k
unfolding mark_dead is_running
mark_dead-runs host other [] k = refl
mark_dead-runs host other (x ∷ xs) zero = elim (Bool-cases (is_dead x.role)) [
  | inl h ↦ rw h refl
  | inr h ↦ elim (Bool-cases (is_running host x)) [
    | inl r ↦ unfold is_running in rw (h, r) refl
    | inr r ↦ unfold is_running in rw (h, r) refl
  ]
]
mark_dead-runs host other (x ∷ xs) (suc k) = mark_dead-runs host other xs k

-- A failover is needed exactly where a primary no longer runs.
pub failover_needed-none :
    (host : Host) (xs : List ManagedInstance) (k : ℕ)
    → failover_needed host xs ≡ false
    → leads xs k ≡ true
    → runs host xs k ≡ true
unfolding failover_needed
failover_needed-none host [] k h l = cc
failover_needed-none host (x ∷ xs) zero h l =
    go (is_primary x.role) (is_running host x) (failover_needed host xs) l h
  where
    go : (p r rest : Bool) → p ≡ true → ((p && not r) || rest) ≡ false → r ≡ true
    go true true rest l h = refl
    go true false rest l h = cc
    go false r rest l h = cc
failover_needed-none host (x ∷ xs) (suc k) h l =
    failover_needed-none host xs k
      (go (is_primary x.role && not (is_running host x)) (failover_needed host xs) h) l
  where
    go : (b rest : Bool) → (b || rest) ≡ false → rest ≡ false
    go true rest h = cc
    go false rest h = h

pub failover_needed-some :
    (host : Host) (xs : List ManagedInstance)
    → failover_needed host xs ≡ true
    → (k : ℕ) × (leads xs k ≡ true) × (runs host xs k ≡ false)
unfolding failover_needed
failover_needed-some host [] h = cc
failover_needed-some host (x ∷ xs) h =
    go (λ h. let (k, l, r) = failover_needed-some host xs h in (suc k, l, r)) (is_primary x.role)
      refl (is_running host x) refl h
  where
    go :
        (failover_needed host xs ≡ true
          → (k : ℕ) × (leads (x ∷ xs) k ≡ true) × (runs host (x ∷ xs) k ≡ false))
        → (p : Bool) → is_primary x.role ≡ p
        → (r : Bool) → is_running host x ≡ r
        → ((p && not r) || failover_needed host xs) ≡ true
        → (k : ℕ) × (leads (x ∷ xs) k ≡ true) × (runs host (x ∷ xs) k ≡ false)
    go later true ep false er h = (0, ep, er)
    go later true ep true er h = later h
    go later false ep r er h = later h
