-- ===== src/ServiceGroup/Tests.antt =====
-- A group of two instances, and the theorems there.
use thoth_ipc.Base.{ℕ, ◌≡◌, refl, true, false, none, some, [], ◌∷◌, ◌==◌, if◌then◌else◌}
use thoth_ipc.ServiceRegistry.{
  Host, RegistryData, is_active, field_str, is_alive, copy_str, fill_entry, find, find_in,
}
use thoth_ipc.ServiceRegistry.Utf8.{is_utf8}
use thoth_ipc.ServiceGroup.{
  ServiceGroupConfig, ServiceGroup, Poll, Spawning, invalid, new, start, stop, health_check,
  is_running, spawn_instance, spawn_all, wait_registered, first_running, give_roles, elect_primary,
  mark_dead, failover_needed, respawned, respawn_dead, current_primary, alive_count,
}
use thoth_ipc.ServiceGroup.Roles.{runs, NoneLeads}
use thoth_ipc.ServiceGroup.Election.{IsLed, IsFirst}
use thoth_ipc.ServiceGroup.Checks.{
  Step, Run, Run-IsLed, health_check-FailsOver, health_check-Leaderless,
}

-- service "s", two instances
abbrev config : ServiceGroupConfig
config = record { service_name = 115 ∷ []; replicas = 2; auto_respawn = true }

abbrev all_live : Host
all_live = record { is_pid_alive = λ pid. true; now = 0 }

-- process 7 is dead
abbrev seven_dead : Host
seven_dead = record { is_pid_alive = λ pid. if pid == 7 then false else true; now = 0 }

-- "s.0" and "s.1" are registered by 7 and 8.
abbrev registry : RegistryData
registry = record {
  count = 2;
  entries =
      fill_entry all_live (115 ∷ 46 ∷ 48 ∷ []) (99 ∷ []) [] 7
      ∷ fill_entry all_live (115 ∷ 46 ∷ 49 ∷ []) (99 ∷ []) [] 8
      ∷ [];
}

abbrev poll : Poll
poll = record { host = all_live; registry = registry; late = false }

abbrev spawns : ℕ → Spawning
spawns i = record { handle = record { pid = if i == 0 then 7 else 8 }; polls = poll ∷ [] }

-- a spawn that fails
abbrev no_spawn : ℕ → Spawning
no_spawn i = record { handle = invalid; polls = [] }

abbrev started : ServiceGroup
started = (start all_live spawns (new config)).1

start_runs : started.primary_idx ≡ some 0
unfolding start spawn_all spawn_instance wait_registered find find_in is_active field_str is_utf8
    is_alive copy_str fill_entry elect_primary first_running is_running give_roles
start_runs = refl

-- Instance 0 dies, and instance 1 takes over.
abbrev failed_over : ServiceGroup
failed_over = (health_check seven_dead seven_dead no_spawn started).1

failed_over_runs : failed_over.primary_idx ≡ some 1
unfolding health_check failover_needed mark_dead respawned respawn_dead start spawn_all
    spawn_instance wait_registered find find_in is_active field_str is_utf8 is_alive copy_str
    fill_entry elect_primary first_running is_running give_roles
failed_over_runs = refl

to_started : Run (new config) started
to_started =
    Run.next (new config) (new config) started (Run.done (new config))
      (Step.starts (new config) all_live spawns refl)

Run-IsLed_example : IsLed failed_over
Run-IsLed_example = Run-IsLed config failed_over (
    Run.next (new config) started failed_over to_started
      (Step.checks started seven_dead seven_dead no_spawn))

started_dead : runs seven_dead started.instances 0 ≡ false
unfolding start spawn_all spawn_instance wait_registered find find_in is_active field_str is_utf8
    is_alive copy_str fill_entry elect_primary first_running is_running give_roles
started_dead = refl

health_check-FailsOver_example :
    (let after = health_check seven_dead seven_dead no_spawn started in
      (after.0 ≡ true) × IsFirst seven_dead started.instances 0 after.1.primary_idx × IsLed after.1)
health_check-FailsOver_example =
    health_check-FailsOver seven_dead seven_dead no_spawn started 0
      (Run-IsLed config started to_started) start_runs started_dead

-- A group of one: its instance dies and comes back, and nothing leads any more.
abbrev single : ServiceGroup
single = (start all_live spawns (new (record config { replicas = 1 }))).1

abbrev recovered : ServiceGroup
recovered = (health_check seven_dead seven_dead spawns single).1

recovered_runs : alive_count all_live recovered.instances ≡ 1
unfolding alive_count health_check failover_needed mark_dead respawned respawn_dead start spawn_all
    spawn_instance wait_registered find find_in is_active field_str is_utf8 is_alive copy_str
    fill_entry elect_primary first_running is_running give_roles
recovered_runs = refl

recovered_leaderless : recovered.primary_idx ≡ none
unfolding health_check failover_needed mark_dead respawned respawn_dead start spawn_all
    spawn_instance wait_registered find find_in is_active field_str is_utf8 is_alive copy_str
    fill_entry elect_primary first_running is_running give_roles
recovered_leaderless = refl

single-Run : Run (new (record config { replicas = 1 })) recovered
single-Run =
    let fresh = new (record config { replicas = 1 }) in
    Run.next fresh single recovered
      (Run.next fresh fresh single (Run.done fresh) (Step.starts fresh all_live spawns refl))
      (Step.checks single seven_dead seven_dead spawns)

health_check-Leaderless_example :
    (let after = health_check all_live all_live spawns recovered in
      (after.0 ≡ false) × (after.1.primary_idx ≡ none) × NoneLeads after.1.instances)
health_check-Leaderless_example =
    health_check-Leaderless all_live all_live spawns recovered
      (Run-IsLed (record config { replicas = 1 }) recovered single-Run) recovered_leaderless

primary_runs : current_primary (stop failed_over) ≡ none
unfolding current_primary stop
primary_runs = refl
