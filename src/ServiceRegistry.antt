-- ===== src/ServiceRegistry.antt =====
-- rust/thoth-ipc/src/proto/service_registry.rs: the table of services in shared memory. A `&str` is
-- the list of its bytes and a pid its 32-bit pattern. Each operation runs under the spin lock of the
-- table and is one step. `Host` is what the operating system answers.
pub mod Utf8
pub mod Names
pub mod Lookup
pub mod Register
mod Tests
use thoth_ipc.Base.{
  ℕ, zero, suc, ◌+◌, ◌-◌, ◌^◌, min, Bool, true, false, not, ◌&&◌, ◌||◌, Option, none, some, List,
  [], ◌∷◌, ◌++◌, ltb, leb, ◌==◌, if◌then◌else◌, bytes_eq, length, get_or, take, drop, replicate,
}
use thoth_ipc.ServiceRegistry.Utf8.{is_utf8}

abbrev pub max_services : ℕ
max_services = 32

abbrev pub max_name_len : ℕ
max_name_len = 64

pub record ServiceEntry : Type 0 where
  pub name : List ℕ  -- [u8; 64]
  pub control_channel : List ℕ  -- [u8; 64]
  pub reply_channel : List ℕ  -- [u8; 64]
  pub pid : ℕ  -- i32
  pub registered_at : ℕ  -- i64
  pub flags : ℕ  -- u32

pub record Host : Type 0 where
  pub is_pid_alive : ℕ → Bool
  pub now : ℕ

abbrev pub default_entry : ServiceEntry
default_entry = record {
  name = replicate 64 0;
  control_channel = replicate 64 0;
  reply_channel = replicate 64 0;
  pid = 0;
  registered_at = 0;
  flags = 0;
}

-- `pid > 0` of an `i32`
abbrev pub is_pid : ℕ → Bool
is_pid pid = not (pid == 0) && ltb pid (2 ^ 31)

unfoldable pub is_active : ServiceEntry → Bool
is_active e = is_pid e.pid && not (get_or e.name 0 0 == 0)

-- the bytes before the first zero
abbrev pub until_zero : List ℕ → List ℕ
until_zero [] = []
until_zero (b ∷ bs) = if b == 0 then [] else b ∷ until_zero bs

-- `name_str` and its like: what is no UTF-8 reads as the empty string.
unfoldable pub field_str : List ℕ → List ℕ
field_str field = let bytes = until_zero field in if is_utf8 bytes then bytes else []

unfoldable pub is_alive : Host → ServiceEntry → Bool
is_alive host e = is_pid e.pid && host.is_pid_alive e.pid

unfoldable pub copy_str : List ℕ → List ℕ → List ℕ
copy_str dst src =
    let len = min (length src) (max_name_len - 1) in take len src ++ (0 ∷ drop (len + 1) dst)

unfoldable pub fill_entry : Host → List ℕ → List ℕ → List ℕ → ℕ → ServiceEntry
fill_entry host name ctrl reply pid = record {
  name = copy_str default_entry.name name;
  control_channel = copy_str default_entry.control_channel ctrl;
  reply_channel = copy_str default_entry.reply_channel reply;
  pid = pid;
  registered_at = host.now;
  flags = 0;
}

pub record RegistryData : Type 0 where
  pub count : ℕ  -- u32
  pub entries : List ServiceEntry

-- `e.active() && e.name_str() == name`
abbrev pub is_named : List ℕ → ServiceEntry → Bool
is_named name e = is_active e && bytes_eq (field_str e.name) name

abbrev cons_result :
    ServiceEntry → Option (Bool × List ServiceEntry) → Option (Bool × List ServiceEntry)
cons_result e none = none
cons_result e (some (b, es)) = some (b, e ∷ es)

-- The first loop of `register_service_as`: `none` where no active entry has the name.
unfoldable pub reuse_named :
    Host → List ℕ → ServiceEntry → List ServiceEntry → Option (Bool × List ServiceEntry)
reuse_named host name fresh [] = none
reuse_named host name fresh (e ∷ es) =
    let rest = cons_result e (reuse_named host name fresh es) in
    if is_named name e
    then (if is_alive host e then some (false, e ∷ es) else some (true, fresh ∷ es))
    else rest

-- The second loop: `none` where the table is full.
unfoldable pub fill_free :
    Host → ServiceEntry → List ServiceEntry → Option (Bool × List ServiceEntry)
fill_free host fresh [] = none
fill_free host fresh (e ∷ es) =
    let rest = cons_result e (fill_free host fresh es) in
    if not (is_active e) || not (is_alive host e) then some (true, fresh ∷ es) else rest

unfoldable pub register_service_as :
    Host → RegistryData → List ℕ → List ℕ → List ℕ → ℕ → Bool × RegistryData
register_service_as host reg name control_ch reply_ch pid =
    let fresh = fill_entry host name control_ch reply_ch pid in
    if length name == 0 then (false, reg) else elim (reuse_named host name fresh reg.entries) [
      | some (b, es) ↦ (b, record reg { entries = es })
      | none ↦ elim (fill_free host fresh reg.entries) [
        | some (b, es) ↦ (
          b,
          record {
            count = if ltb reg.count max_services then reg.count + 1 else reg.count;
            entries = es;
          },
        )
        | none ↦ (false, reg)
      ]
    ]

-- `find`: the entry, and the table without the stale entries of the name that it met.
unfoldable pub find_in : Host → List ℕ → List ServiceEntry → Option ServiceEntry × List ServiceEntry
find_in host name [] = (none, [])
find_in host name (e ∷ es) =
    let rest = find_in host name es in
    if is_named name e
    then (if is_alive host e then (some e, e ∷ es) else (rest.0, default_entry ∷ rest.1))
    else (rest.0, e ∷ rest.1)

unfoldable pub find : Host → RegistryData → List ℕ → Option ServiceEntry × RegistryData
find host reg name =
    let found = find_in host name reg.entries in (found.0, record reg { entries = found.1 })

-- `none` where no active entry has the name and the pid.
unfoldable pub remove_owned : List ℕ → ℕ → List ServiceEntry → Bool × List ServiceEntry
remove_owned name pid [] = (false, [])
remove_owned name pid (e ∷ es) =
    let rest = remove_owned name pid es in
    if is_named name e && (e.pid == pid) then (true, default_entry ∷ es) else (rest.0, e ∷ rest.1)

unfoldable pub unregister_service_as : RegistryData → List ℕ → ℕ → Bool × RegistryData
unregister_service_as reg name pid =
    let removed = remove_owned name pid reg.entries in
    (removed.0, record reg { entries = removed.1 })

unfoldable pub collect_dead : Host → List ServiceEntry → ℕ × List ServiceEntry
collect_dead host [] = (0, [])
collect_dead host (e ∷ es) =
    let rest = collect_dead host es in
    if is_active e && not (is_alive host e)
    then (rest.0 + 1, default_entry ∷ rest.1)
    else (rest.0, e ∷ rest.1)

unfoldable pub gc : Host → RegistryData → ℕ × RegistryData
gc host reg =
    let removed = collect_dead host reg.entries in (removed.0, record reg { entries = removed.1 })

-- `list`: the live entries, and the table without the stale ones.
unfoldable pub list_in : Host → List ServiceEntry → List ServiceEntry × List ServiceEntry
list_in host [] = ([], [])
list_in host (e ∷ es) =
    let rest = list_in host es in
    if not (is_active e)
    then (rest.0, e ∷ rest.1)
    else if not (is_alive host e)
    then (rest.0, default_entry ∷ rest.1)
    else (e ∷ rest.0, e ∷ rest.1)

unfoldable pub list : Host → RegistryData → List ServiceEntry × RegistryData
list host reg =
    let listed = list_in host reg.entries in (listed.0, record reg { entries = listed.1 })
