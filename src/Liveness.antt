-- ===== src/Liveness.antt =====
-- rust/thoth-ipc/src/liveness.rs: who owns each connection bit, where it started to read, and which
-- owners are dead. The table is shared memory behind a pointer that may be null. What the code asks
-- the operating system for (`kill`, the state of a process, its start time) is the record `Os`.
-- Each operation is one step here, so its compare-exchange on a word it has just read succeeds.
pub mod Marks
pub mod Reaper
pub mod SoleOwner
mod Tests
use thoth_ipc.Base.{
  ℕ, zero, suc, ◌+◌, ◌-◌, ◌^◌, bit_and, bit_or, not32, sub32, Bool, true, false, not, ◌&&◌, ◌||◌,
  Option, none, some, List, leb, ltb, ◌==◌, if◌then◌else◌, get_or, set, each_bit, trailing_zeros,
}

-- A connection id has one bit set; there are 32.
abbrev pub max_slots : ℕ
max_slots = 32

pub record SlotOwner : Type 0 where
  pub pid : ℕ  -- i32, as its bits
  pub since : ℕ  -- u32
  pub start_tok : ℕ  -- u64

abbrev pub no_owner : SlotOwner
no_owner = record { pid = 0; since = 0; start_tok = 0 }

-- `*mut ConnLiveness`
abbrev pub ConnLiveness : Type 0
ConnLiveness = Option (List SlotOwner)

-- What the operating system answers, and the id of this process.
pub record Os : Type 0 where
  pub exists : ℕ → Bool
  pub is_zombie : ℕ → Bool
  pub start_token : ℕ → ℕ
  pub self_pid : ℕ

abbrev pub slot_index : ℕ → ℕ
slot_index bit = trailing_zeros 32 bit

abbrev pub owner_at : List SlotOwner → ℕ → SlotOwner
owner_at slots i = get_or slots i no_owner

-- `pid <= 0` of an `i32`
abbrev pub no_process : ℕ → Bool
no_process pid = (pid == 0) || leb (2 ^ 31) pid

unfoldable pub is_process_alive : Os → ℕ → ℕ → Bool
is_process_alive os pid tok =
    let cur = os.start_token pid in
    if no_process pid
    then false
    else if not (os.exists pid)
    then false
    else if os.is_zombie pid
    then false
    else if tok == 0
    then true
    else if cur == 0
    then true
    else (cur == tok)

unfoldable pub set_owner : Os → ConnLiveness → ℕ → ConnLiveness
set_owner os none bit = none
set_owner os (some slots) bit =
    let i = slot_index bit in
    let s = owner_at slots i in
    if bit == 0
    then some slots
    else some (set slots i (record s { start_tok = os.start_token os.self_pid; pid = os.self_pid }))

unfoldable pub set_since : ConnLiveness → ℕ → ℕ → ConnLiveness
set_since none bit since = none
set_since (some slots) bit since =
    let i = slot_index bit in
    if bit == 0
    then some slots
    else some (set slots i (record (owner_at slots i) { since = since }))

unfoldable pub clear_owner : ConnLiveness → ℕ → ConnLiveness
clear_owner none bit = none
clear_owner (some slots) bit =
    let i = slot_index bit in
    if bit == 0
    then some slots
    else some (set slots i (record (owner_at slots i) { pid = 0; start_tok = 0 }))

-- `pos.wrapping_sub(since) as i32 >= 0`
abbrev pub at_or_after : ℕ → ℕ → Bool
at_or_after pos since = ltb (sub32 pos since) (2 ^ 31)

unfoldable pub keep_live : List SlotOwner → ℕ → ℕ → ℕ → ℕ
keep_live slots pos bit live =
    if at_or_after pos (owner_at slots (slot_index bit)).since then bit_or live bit else live

unfoldable pub live_marks : ConnLiveness → ℕ → ℕ → ℕ
live_marks none bits pos = bits
live_marks (some slots) bits pos = each_bit 32 (keep_live slots pos) bits 0

-- The table, the connections and the reaped mask: `disconnect_fn` is `connections &= !bit`.
pub record Reap : Type 0 where
  pub slots : List SlotOwner
  pub connections : ℕ  -- u32
  pub reaped : ℕ  -- u32

unfoldable pub reap_one : Os → ℕ → Reap → Reap
reap_one os bit r =
    let i = slot_index bit in
    let s = owner_at r.slots i in
    if s.pid == 0 then r else if is_process_alive os s.pid s.start_tok then r else record {
      slots = set r.slots i (record s { pid = 0; start_tok = 0 });
      connections = bit_and r.connections (not32 bit);
      reaped = bit_or r.reaped bit;
    }

unfoldable pub reap_dead_receivers : Os → List SlotOwner → ℕ → ℕ → Reap
reap_dead_receivers os slots live connections =
    each_bit 32 (reap_one os) live (record { slots = slots; connections = connections; reaped = 0 })

-- `OWNER_CLAIMING`, -1
abbrev pub owner_claiming : ℕ
owner_claiming = 2 ^ 32 - 1

unfoldable pub claim_sole_owner : Os → SlotOwner → Bool × SlotOwner
claim_sole_owner os o =
    if o.pid == owner_claiming
    then (false, o)
    else if not (o.pid == 0) && is_process_alive os o.pid o.start_tok
    then (false, o)
    else (true, record o { start_tok = os.start_token os.self_pid; pid = os.self_pid })

unfoldable pub release_sole_owner : Os → SlotOwner → SlotOwner
release_sole_owner os o =
    if not (o.pid == os.self_pid) then o else record o { start_tok = 0; pid = 0 }
