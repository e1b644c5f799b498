-- ===== src/ServiceGroup.antt =====
-- rust/thoth-ipc/src/proto/service_group.rs: a group of redundant instances of a service, one of
-- them the primary. An instance is a process, named by its pid; a `&str` is the list of its bytes.
-- `Host` answers which processes live, and may answer otherwise each time it is asked: each loop
-- over the instances has a host of its own. What `spawn` returns, and what each round of the wait
-- for the new process finds in the registry, are arguments, since other processes decide it.
pub mod Roles
pub mod Election
pub mod Checks
mod Tests
use thoth_ipc.Base.{
  ℕ, zero, suc, ◌+◌, ◌-◌, ◌/◌, ◌%◌, Bool, true, false, not, ◌&&◌, ◌||◌, Option, none, some, List,
  [], ◌∷◌, ◌++◌, map, length, ◌==◌, if◌then◌else◌, get_elem?, set,
}
use thoth_ipc.Base.Maybe.{◌>>=◌}
use thoth_ipc.ServiceRegistry.{Host, ServiceEntry, RegistryData, default_entry, find}

pub data InstanceRole : Type 0 where
  primary : InstanceRole
  standby : InstanceRole
  dead : InstanceRole

-- `ProcessHandle`; pid 0 is the invalid one.
pub record ProcessHandle : Type 0 where
  pub pid : ℕ

abbrev pub invalid : ProcessHandle
invalid = record { pid = 0 }

abbrev pub valid : ProcessHandle → Bool
valid h = not (h.pid == 0)

pub record ManagedInstance : Type 0 where
  pub id : ℕ
  pub role : InstanceRole
  pub proc : ProcessHandle
  pub entry : ServiceEntry
  pub instance_name : List ℕ

unfoldable pub is_running : Host → ManagedInstance → Bool
is_running host inst = valid inst.proc && host.is_pid_alive inst.proc.pid

pub record ServiceGroupConfig : Type 0 where
  pub service_name : List ℕ
  pub replicas : ℕ
  pub auto_respawn : Bool

pub record ServiceGroup : Type 0 where
  pub config : ServiceGroupConfig
  pub instances : List ManagedInstance
  pub primary_idx : Option ℕ

-- The decimal digits of `n`, before `tail`; `n` rounds are enough.
abbrev decimal_from : ℕ → ℕ → List ℕ → List ℕ
decimal_from zero n tail = (48 + n % 10) ∷ tail
decimal_from (suc k) n tail =
    if n / 10 == 0 then ((48 + n % 10) ∷ tail) else decimal_from k (n / 10) ((48 + n % 10) ∷ tail)

abbrev decimal : ℕ → List ℕ
decimal n = decimal_from n n []

abbrev pub new_instance : List ℕ → ℕ → ManagedInstance
new_instance service_name i = record {
  id = i;
  role = InstanceRole.dead;
  proc = invalid;
  entry = default_entry;
  instance_name = service_name ++ (46 ∷ decimal i);
}

-- The instances `i`, …, `i + n - 1`
abbrev pub new_instances : List ℕ → ℕ → ℕ → List ManagedInstance
new_instances service_name i zero = []
new_instances service_name i (suc n) =
    new_instance service_name i ∷ new_instances service_name (suc i) n

abbrev pub new : ServiceGroupConfig → ServiceGroup
new config = record {
  config = config;
  instances = new_instances config.service_name 0 config.replicas;
  primary_idx = none;
}

-- One round of the wait for a process to register
pub record Poll : Type 0 where
  pub host : Host
  pub registry : RegistryData
  pub late : Bool

-- What `spawn` returns, and the rounds after it; the deadline passes when they are over.
pub record Spawning : Type 0 where
  pub handle : ProcessHandle
  pub polls : List Poll

unfoldable pub wait_registered :
    List Poll → ProcessHandle → ManagedInstance → Bool × ManagedInstance
wait_registered [] h inst = (false, inst)
wait_registered (p ∷ polls) h inst =
    let rest = wait_registered polls h inst in
    elim (find p.host p.registry inst.instance_name).0 [
      | some e ↦ (true, record inst { proc = h; entry = e; role = InstanceRole.standby })
      | none ↦
          if not (is_running p.host inst) && not (is_running p.host (record inst { proc = h }))
          then (false, inst)
          else if p.late
          then (false, inst)
          else rest
    ]

unfoldable pub spawn_instance : Spawning → ManagedInstance → Bool × ManagedInstance
spawn_instance s inst =
    if not (valid s.handle) then (false, inst) else wait_registered s.polls s.handle inst

-- `spawn_instance` for the instances from `i` on
unfoldable pub spawn_all : (ℕ → Spawning) → ℕ → List ManagedInstance → List ManagedInstance
spawn_all spawns i [] = []
spawn_all spawns i (inst ∷ rest) =
    (spawn_instance (spawns i) inst).1 ∷ spawn_all spawns (suc i) rest

abbrev pub is_dead : InstanceRole → Bool
is_dead InstanceRole.dead = true
is_dead _ = false

abbrev pub is_primary : InstanceRole → Bool
is_primary InstanceRole.primary = true
is_primary _ = false

unfoldable pub respawn_dead : (ℕ → Spawning) → ℕ → List ManagedInstance → List ManagedInstance
respawn_dead spawns i [] = []
respawn_dead spawns i (inst ∷ rest) =
    (if is_dead inst.role then (spawn_instance (spawns i) inst).1 else inst)
    ∷ respawn_dead spawns (suc i) rest

-- The first instance from `i` on that is alive
unfoldable pub first_running : Host → ℕ → List ManagedInstance → Option ℕ
first_running host i [] = none
first_running host i (inst ∷ rest) =
    let later = first_running host (suc i) rest in if is_running host inst then some i else later

-- Instance `i` becomes the primary, and the others that are alive stand by.
unfoldable pub give_roles : Host → ℕ → ℕ → List ManagedInstance → List ManagedInstance
give_roles host i j [] = []
give_roles host i j (inst ∷ rest) =
    (if j == i
      then record inst { role = InstanceRole.primary }
      else if is_running host inst
      then record inst { role = InstanceRole.standby }
      else inst)
    ∷ give_roles host i (suc j) rest

unfoldable pub elect_primary : Host → ServiceGroup → Bool × ServiceGroup
elect_primary host group = elim (first_running host 0 group.instances) [
  | none ↦ (false, record group { primary_idx = none })
  | some i ↦
      (true, record group { primary_idx = some i; instances = give_roles host i 0 group.instances })
]

unfoldable pub start : Host → (ℕ → Spawning) → ServiceGroup → Bool × ServiceGroup
start host spawns group =
    elect_primary host (record group { instances = spawn_all spawns 0 group.instances })

-- The first loop of `health_check`: the roles, and whether a primary has died
unfoldable pub mark_dead : Host → ManagedInstance → ManagedInstance
mark_dead host inst =
    if is_dead inst.role
    then inst
    else if not (is_running host inst)
    then record inst { role = InstanceRole.dead }
    else inst

unfoldable pub failover_needed : Host → List ManagedInstance → Bool
failover_needed host [] = false
failover_needed host (inst ∷ rest) =
    (is_primary inst.role && not (is_running host inst)) || failover_needed host rest

-- `if self.config.auto_respawn { self.respawn_dead(); }`
unfoldable pub respawned : (ℕ → Spawning) → ServiceGroup → ServiceGroup
respawned spawns group =
    if group.config.auto_respawn
    then record group { instances = respawn_dead spawns 0 group.instances }
    else group

unfoldable pub health_check : Host → Host → (ℕ → Spawning) → ServiceGroup → Bool × ServiceGroup
health_check host host' spawns group =
    let marked = record group { instances = map (mark_dead host) group.instances } in
    if failover_needed host group.instances
    then (true, respawned spawns (elect_primary host' marked).1)
    else (false, respawned spawns marked)

-- `&self.instances[idx]`, where the instance has kept the role
unfoldable pub current_primary : ServiceGroup → Option ManagedInstance
current_primary group = do
  idx ← group.primary_idx
  inst ← get_elem? group.instances idx
  if is_primary inst.role then some inst else none

abbrev pub stopped : ManagedInstance → ManagedInstance
stopped inst = record inst { role = InstanceRole.dead }

unfoldable pub stop : ServiceGroup → ServiceGroup
stop group = record group { instances = map stopped group.instances; primary_idx = none }

unfoldable pub alive_count : Host → List ManagedInstance → ℕ
alive_count host [] = 0
alive_count host (inst ∷ rest) =
    let others = alive_count host rest in if is_running host inst then others + 1 else others

abbrev pub dead_at : ℕ → List ManagedInstance → List ManagedInstance
dead_at idx [] = []
dead_at zero (inst ∷ rest) = stopped inst ∷ rest
dead_at (suc idx) (inst ∷ rest) = inst ∷ dead_at idx rest

-- The primary is killed, and the group goes on with the hosts that find it so.
unfoldable pub force_failover : Host → (ℕ → Spawning) → ServiceGroup → Bool × ServiceGroup
force_failover host spawns group =
    let deposed : ServiceGroup = elim group.primary_idx [
      | none ↦ group
      | some idx ↦ record group { instances = dead_at idx group.instances }
    ] in
    let elected = elect_primary host deposed in (elected.0, respawned spawns elected.1)
