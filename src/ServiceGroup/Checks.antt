-- ===== src/ServiceGroup/Checks.antt =====
-- The group under health checks, failovers, starts and stops.
use thoth_ipc.Base.{
  ℕ, zero, suc, ◌≡◌, inl, inr, refl, sym, ap, subst, ◌∙◌, Bool, true, false, ◌&&◌, Option, none,
  some, List, map, if◌then◌else◌, Bool-cases,
}
use thoth_ipc.ServiceRegistry.{Host}
use thoth_ipc.ServiceGroup.{
  ManagedInstance, ServiceGroupConfig, ServiceGroup, Spawning, first_running, elect_primary,
  stopped, dead_at, mark_dead, failover_needed, respawned, respawn_dead, spawn_all, health_check,
  force_failover, start, stop, new, new_instances,
}
use thoth_ipc.ServiceGroup.Roles.{
  leads, runs, NoneLeads, spawn_all-NoneLeads, leads-respawn_dead, leads-mark_dead, mark_dead-runs,
  failover_needed-none, failover_needed-some,
}
use thoth_ipc.ServiceGroup.Election.{
  IsLed, IsFirst, first_running-IsFirst, NoneLeads-IsLed, elect_primary-IsLed, elect_primary-idx,
  dead_at-leads, stopped-NoneLeads,
}

false_of : (b : Bool) → (b ≡ true → ⊥) → b ≡ false
false_of true h = absurd (h refl)
false_of false h = refl

respawned-IsLed :
    (spawns : ℕ → Spawning) (group : ServiceGroup) → IsLed group → IsLed (respawned spawns group)
unfolding respawned
respawned-IsLed spawns group v = go group.config.auto_respawn
  where
    go :
        (b : Bool)
        → IsLed (
            if b then record group { instances = respawn_dead spawns 0 group.instances } else group)
    go true = record {
      only = λ k h. v.only k (sym (leads-respawn_dead spawns 0 group.instances k) ∙ h);
      leads_at = λ k h. leads-respawn_dead spawns 0 group.instances k ∙ v.leads_at k h;
    }
    go false = v

respawned-idx :
    (spawns : ℕ → Spawning) (group : ServiceGroup)
    → (respawned spawns group).primary_idx ≡ group.primary_idx
unfolding respawned
respawned-idx spawns group = elim (Bool-cases group.config.auto_respawn) [
  | inl e ↦ rw e refl
  | inr e ↦ rw e refl
]

abbrev marked : Host → ServiceGroup → ServiceGroup
marked host group = record group { instances = map (mark_dead host) group.instances }

-- Where no primary has died, marking the dead leaves the group led;
marked-IsLed :
    (host : Host) (group : ServiceGroup)
    → IsLed group
    → failover_needed host group.instances ≡ false
    → IsLed (marked host group)
marked-IsLed host group v h = record {
  only = λ k l.
      v.only k
        (both_true (leads group.instances k) (runs host group.instances k)
          (sym (leads-mark_dead host group.instances k) ∙ l)).0;
  leads_at = λ k e.
      let l = v.leads_at k e in
      let r = failover_needed-none host group.instances k h l in
      leads-mark_dead host group.instances k ∙ rw (l, r) refl;
}
  where
    both_true : (a b : Bool) → (a && b) ≡ true → (a ≡ true) × (b ≡ true)
    both_true true b h = (refl, h)
    both_true false b h = cc

-- where one has, nobody is left to lead.
marked-NoneLeads :
    (host : Host) (group : ServiceGroup)
    → IsLed group
    → (j : ℕ) → leads group.instances j ≡ true
    → runs host group.instances j ≡ false
    → NoneLeads (map (mark_dead host) group.instances)
marked-NoneLeads host group v j lj rj k =
    leads-mark_dead host group.instances k ∙ go (leads group.instances k) refl
  where
    go : (b : Bool) → leads group.instances k ≡ b → (b && runs host group.instances k) ≡ false
    go true e =
        let same : some j ≡ some k = sym (v.only j lj) ∙ v.only k e in
        let idx : j ≡ k = cc in ap (runs host group.instances) (sym idx) ∙ rj
    go false e = refl

pub health_check-IsLed :
    (host host' : Host) (spawns : ℕ → Spawning) (group : ServiceGroup)
    → IsLed group
    → IsLed (health_check host host' spawns group).1
unfolding health_check
health_check-IsLed host host' spawns group v =
    elim (Bool-cases (failover_needed host group.instances)) [
      | inl h ↦
          let (j, l, r) = failover_needed-some host group.instances h in
          rw h (
            respawned-IsLed spawns (elect_primary host' (marked host group)).1
              (elect_primary-IsLed host' (marked host group) (marked-NoneLeads host group v j l r)))
      | inr h ↦ rw h (respawned-IsLed spawns (marked host group) (marked-IsLed host group v h))
    ]

abbrev deposed : Option ℕ → ServiceGroup → ServiceGroup
deposed none group = group
deposed (some idx) group = record group { instances = dead_at idx group.instances }

deposed-NoneLeads :
    (group : ServiceGroup) (o : Option ℕ)
    → IsLed group
    → group.primary_idx ≡ o
    → NoneLeads (deposed o group).instances
deposed-NoneLeads group none v e k =
    false_of (leads group.instances k) (λ l. let f = sym e ∙ v.only k l in cc)
deposed-NoneLeads group (some idx) v e k = false_of (leads (dead_at idx group.instances) k) (λ l.
    let (was, ne) = dead_at-leads idx group.instances k l in
    let f : some idx ≡ some k = sym e ∙ v.only k was in ne cc)

pub force_failover-IsLed :
    (host : Host) (spawns : ℕ → Spawning) (group : ServiceGroup)
    → IsLed group
    → IsLed (force_failover host spawns group).1
unfolding force_failover
force_failover-IsLed host spawns group v = go group.primary_idx refl
  where
    led :
        (g : ServiceGroup)
        → NoneLeads g.instances
        → IsLed (respawned spawns (elect_primary host g).1)
    led g n = respawned-IsLed spawns (elect_primary host g).1 (elect_primary-IsLed host g n)

    go :
        (o : Option ℕ)
        → group.primary_idx ≡ o
        → IsLed (
            respawned spawns
              (elect_primary host (elim o as (λ x. ServiceGroup) [
                | none ↦ group
                | some idx ↦ record group { instances = dead_at idx group.instances }
              ])).1)
    go none e = led group (deposed-NoneLeads group none v e)
    go (some idx) e =
        led (record group { instances = dead_at idx group.instances })
          (deposed-NoneLeads group (some idx) v e)

pub start-IsLed :
    (host : Host) (spawns : ℕ → Spawning) (group : ServiceGroup)
    → IsLed group
    → group.primary_idx ≡ none
    → IsLed (start host spawns group).1
unfolding start
start-IsLed host spawns group v e =
    elect_primary-IsLed host (record group { instances = spawn_all spawns 0 group.instances })
      (spawn_all-NoneLeads spawns 0 group.instances (deposed-NoneLeads group none v e))

pub stop-IsLed : (group : ServiceGroup) → IsLed (stop group)
unfolding stop
stop-IsLed group =
    NoneLeads-IsLed (record group { instances = map stopped group.instances; primary_idx = none })
      (stopped-NoneLeads group.instances) refl

-- What its owner does with a group; a start only where nothing leads
pub data Step : ServiceGroup → ServiceGroup → Type 0 where
  starts :
      (g : ServiceGroup) (host : Host) (spawns : ℕ → Spawning)
      → g.primary_idx ≡ none
      → Step g (start host spawns g).1
  checks :
      (g : ServiceGroup) (host host' : Host) (spawns : ℕ → Spawning)
      → Step g (health_check host host' spawns g).1
  fails_over :
      (g : ServiceGroup) (host : Host) (spawns : ℕ → Spawning)
      → Step g (force_failover host spawns g).1
  stops : (g : ServiceGroup) → Step g (stop g)

pub data Run : ServiceGroup → ServiceGroup → Type 0 where
  done : (g : ServiceGroup) → Run g g
  next : (g h k : ServiceGroup) → Run g h → Step h k → Run g k

Step-IsLed : (g h : ServiceGroup) → IsLed g → Step g h → IsLed h
Step-IsLed _ _ v (Step.starts g host spawns e) = start-IsLed host spawns g v e
Step-IsLed _ _ v (Step.checks g host host' spawns) = health_check-IsLed host host' spawns g v
Step-IsLed _ _ v (Step.fails_over g host spawns) = force_failover-IsLed host spawns g v
Step-IsLed _ _ v (Step.stops g) = stop-IsLed g

new-NoneLeads : (name : List ℕ) (i n : ℕ) → NoneLeads (new_instances name i n)
new-NoneLeads name i zero k = refl
new-NoneLeads name i (suc n) zero = refl
new-NoneLeads name i (suc n) (suc k) = new-NoneLeads name (suc i) n k

Run-keeps : (g h : ServiceGroup) → IsLed g → Run g h → IsLed h
Run-keeps _ _ v (Run.done g) = v
Run-keeps _ _ v (Run.next g h k run step) = Step-IsLed h k (Run-keeps g h v run) step

-- Whatever starts of a group that nothing leads, health checks, forced failovers and stops follow
-- the creation of a group, and whichever processes die or fail to start meanwhile: an instance has
-- the role of the primary exactly where the primary index names it, so at most one has.
pub Run-IsLed : (config : ServiceGroupConfig) (g : ServiceGroup) → Run (new config) g → IsLed g
Run-IsLed config g run =
    Run-keeps (new config) g
      (NoneLeads-IsLed (new config) (new-NoneLeads config.service_name 0 config.replicas) refl) run

marked-IsFirst :
    (host host' : Host) (xs : List ManagedInstance) (o : Option ℕ)
    → IsFirst host' (map (mark_dead host) xs) 0 o
    → IsFirst host' xs 0 o
marked-IsFirst host host' xs _ (IsFirst.nobody n) =
    IsFirst.nobody (λ k. sym (mark_dead-runs host host' xs k) ∙ n k)
marked-IsFirst host host' xs _ (IsFirst.found k m at r before) =
    IsFirst.found k m at (sym (mark_dead-runs host host' xs k) ∙ r)
      (λ j h. sym (mark_dead-runs host host' xs j) ∙ before j h)

-- Where the primary index names an instance that has the role alone and its process is dead, a
-- health check reports a failover. Its primary index then names an instance whose process lives
-- while that of every instance before it is dead, or nothing where all processes are dead; and the
-- instance that it names, if any, is the only one with the role.
pub health_check-FailsOver :
    (host host' : Host) (spawns : ℕ → Spawning) (group : ServiceGroup) (k : ℕ)
    → IsLed group
    → group.primary_idx ≡ some k
    → runs host group.instances k ≡ false
    → (let after = health_check host host' spawns group in
        (after.0 ≡ true) × IsFirst host' group.instances 0 after.1.primary_idx × IsLed after.1)
health_check-FailsOver host host' spawns group k v e r =
    let needed : failover_needed host group.instances ≡ true =
      not_false (failover_needed host group.instances)
        (λ h. let on = failover_needed-none host group.instances k h (v.leads_at k e) in cc) in
    let chosen : IsFirst host' group.instances 0
        (elect_primary host' (marked host group)).1.primary_idx =
      subst (IsFirst host' group.instances 0) (sym (elect_primary-idx host' (marked host group))) (
        marked-IsFirst host host' group.instances
          (first_running host' 0 (marked host group).instances)
          (first_running-IsFirst host' 0 (marked host group).instances)) in
    let led = health_check-IsLed host host' spawns group v in
    (
      unfold health_check in rw needed refl,
      unfold health_check in
          rw needed (
            subst (IsFirst host' group.instances 0)
              (sym (respawned-idx spawns (elect_primary host' (marked host group)).1)) chosen),
      led,
    )
  where
    not_false : (b : Bool) → (b ≡ false → ⊥) → b ≡ true
    not_false true h = refl
    not_false false h = absurd (h refl)

-- Where nothing leads a group, a health check reports no failover and leaves it so, whichever
-- instances live or are started again.
pub health_check-Leaderless :
    (host host' : Host) (spawns : ℕ → Spawning) (group : ServiceGroup)
    → IsLed group
    → group.primary_idx ≡ none
    → (let after = health_check host host' spawns group in
        (after.0 ≡ false) × (after.1.primary_idx ≡ none) × NoneLeads after.1.instances)
health_check-Leaderless host host' spawns group v e =
    let none_needed : failover_needed host group.instances ≡ false =
      false_of (failover_needed host group.instances) (λ h.
        let (j, l, r) = failover_needed-some host group.instances h in
        let f = sym e ∙ v.only j l in cc) in
    let idx : (health_check host host' spawns group).1.primary_idx ≡ none =
      unfold health_check in rw none_needed (respawned-idx spawns (marked host group) ∙ e) in
    let led = health_check-IsLed host host' spawns group v in
    (
      unfold health_check in rw none_needed refl,
      idx,
      λ k.
          false_of (leads (health_check host host' spawns group).1.instances k)
            (λ l. let f = sym idx ∙ led.only k l in cc),
    )
