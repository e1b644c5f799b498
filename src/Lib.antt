-- ===== src/Lib.antt =====
-- thoth-ipc, the Rust port (rust/thoth-ipc/src): channels between processes over shared memory.
--
-- The program. A route is a ring of 256 slots in shared memory with one sender and up to 32
-- receivers. Every slot carries a bit for each receiver that has yet to read it, and the epoch of
-- its write; the sender waits for the marks of live receivers, and on a timeout disconnects those
-- that hold it up. A message is cut into fragments of 64 bytes, which a receiver joins by message
-- id; a large message travels in a chunk of a pool beside the ring, and the slot carries its id. A
-- table of owners says which process holds each receiver's bit and from which cursor on it reads.
-- A channel is such a ring with many writers: a slot also carries a flag that says for which
-- position it is committed or free. Beside the channels stand a ring for one producer and one
-- consumer, the registry of services with the groups of redundant instances that use it, the secure
-- envelope, a codec that wraps the output of another codec and a cipher, and the locks and stamps
-- that processes share.
--
-- What models what (paths from the root of the repository, all under rust/thoth-ipc/src):
--   Route            channel.rs: RingHeader, ElemT, push_fragment, release_slot, one round of recv,
--                    adopt_cursor, and the joining and leaving of a receiver. Route.Run is the
--                    relation of interleaved steps, Route.Push and Route.Commit the sender's side,
--                    Route.Readers, Route.Receive and Route.Peers the receivers'.
--   MultiRing        channel.rs: ChannelElemT, inc_rc, release_mark, release_stale, commit_multi,
--                    push_fragment_multi and one round of recv_multi. MultiRing.Run is the relation
--                    of interleaved steps; Claim, Writers, Write and Commit are the writers' steps,
--                    Readers the receivers', and Laps is about a slot that comes free.
--   Channel          channel.rs: the bytes of a slot (write_msg, read_header, read_payload,
--                    read_storage_id), the fragments of `send`, what `recv` takes out of a slot, and
--                    assemble_message with its cache.
--   Liveness         liveness.rs: the owner table, live_marks, the reaper and the sole-owner claim.
--   ChunkPool        chunk_storage.rs: the free list of the pool and the storage operations.
--   ConnHead         circ.rs: the broadcast and the unicast connection heads.
--   ShmRing          proto/shm_ring.rs: the single-producer ring, as a bounded queue.
--   ServiceRegistry  proto/service_registry.rs: the table of services.
--   ServiceGroup     proto/service_group.rs: a group of instances and its primary.
--   SyncAbi          sync_abi.rs: the stamp beside a mutex or a condition variable.
--   Locks            spin_lock.rs and rw_lock.rs.
--   RobustList       platform/linux.rs: the list of the robust mutexes that a thread holds.
--   RobustMutex      platform/linux.rs: the futex word of a robust mutex, with the relation of
--                    interleaved steps of threads and kernel in RobustMutex.Run.
--   Waiter           waiter.rs, with the condition of platform/linux.rs: threads that wait on a handle
--                    and threads that wake them, as interleaved steps in Waiter.Run.
--   ShmName          shm_name.rs: the names of shared-memory segments.
--   SecureEnvelope   proto/codecs/secure_codec.rs: the envelope and the codec around it.
--   Base             lists, machine words, the bits of a word and the loop over them, and families
--                    of values indexed by thread.
--
-- How they fit. A slot's `data_` in Route is the list of bytes that Channel writes and takes out:
-- Route shows that a receiver sees the slots that were published, Channel that the slots of
-- interleaved messages give back the messages. Route asks Liveness which marks count. Channel's
-- assembly reads chunks by the ids that ChunkPool hands out. MultiRing shares the owner table and
-- the joining of a receiver with Route. ServiceGroup finds its instances in ServiceRegistry.
--
-- Conventions. A record stands for each struct and a function for each operation; shared memory is
-- passed along. One call, or one round of a loop that ends in a compare-exchange, is one step, and
-- orderings of steps are explicit. Machine integers are natural numbers with their wrap written
-- out; an `i32` is its 32-bit pattern. Arithmetic wraps as in a release build.
--
-- Bounds and fuel. The loop over the set bits of a word takes 32 rounds, which is enough for any
-- 32-bit word (Base.EachBit). `adopt_from` counts the 256 rounds of the source's own loop.
-- `push_fragment` and `push_fragment_multi` take a list of what their later rounds find, and a spawn
-- in ServiceGroup a list of the rounds of its wait. Everything else recurs on its input. The runs of
-- MultiRing claim below position 2^32 - 1, those of a reader-writer lock have fewer than 2^31
-- threads, and those of Waiter fewer than 2^32 calls that wake.
--
-- Parameters. What the operating system answers about processes, the cipher and the inner codec are
-- arguments, with what the code relies on as named hypotheses. What the kernel does to the word of a
-- robust mutex is a premise of its steps.
--
-- Not modelled: the order of memory accesses inside one step, the mutexes and
-- condition variables of platforms other than Linux, semaphores, mapping of segments, notification
-- handles, the process manager, the codecs of other libraries, the demos, and the
-- ports in other languages.
pub mod Base
pub mod Channel
pub mod Liveness
pub mod Locks
pub mod RobustList
pub mod RobustMutex
pub mod Route
pub mod ShmName
pub mod ShmRing
pub mod ConnHead
pub mod MultiRing
pub mod ServiceGroup
pub mod ServiceRegistry
pub mod SyncAbi
pub mod Waiter
pub mod ChunkPool
pub mod SecureEnvelope
