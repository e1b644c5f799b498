-- ===== src/Channel.antt =====
-- rust/thoth-ipc/src/channel.rs: routes and channels over a ring in shared memory.
pub mod Slot
pub mod Fragments
pub mod Assemble
pub mod Join
pub mod Slots
pub mod Delivery
mod Tests
