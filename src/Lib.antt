-- ===== src/Lib.antt =====
-- Verification of LCI, a communication library for asynchronous many-task runtimes: processes
-- exchange messages and remote puts over a network, with threads that post and progress at once.
--
-- The parts and the files that model them. A post (src/core/communicate.cpp) first chooses a
-- protocol from its size, tag and handles (Communicate), takes a packet from the set of the thread
-- (src/data_structure/mpmc_set.hpp: PacketSet), packs tag and handle into the immediate data or
-- behind the data (Immediate) and runs to a status (PostComm); eager and rendezvous messages go to an
-- endpoint (src/network/endpoint_inline.hpp), which posts to the network or keeps what the network
-- does not take in a backlog queue (src/backlog_queue), drained by `progress` (Endpoint). A message
-- that went by rendezvous is put in chunks (src/core/rendezvous.hpp: Rendezvous), and its receiver's
-- context travels as a short tag of an archive (src/data_structure/imm_tag_archive.hpp:
-- TagArchive). Between processes of one node messages go through a ring in shared memory
-- (src/shm/ring.hpp, src/shm/ring.cpp: ShmRing). At the receiver a matching engine pairs sends with
-- posted receives, over two lists (src/matching_engine/matching_engine_queue.hpp) or over a hash
-- table (src/matching_engine/matching_engine_map.hpp) (Matching). Registries and pools stand on an
-- array that grows (src/data_structure/mpmc_array.hpp: MpmcArray). The completions that the network
-- reports are handled in batches (src/core/progress.cpp: Progress), and Immediate has what a
-- receiver reads from a message there. Collectives (src/collective: Collective) post their messages
-- as nodes of a graph of operations or with a synchronizer (src/comp: Comp).
--
-- How code and model correspond:
--   * Base: Boolean tests, lists over native numbers, masks and bit fields.
--   * ShmRing: the state of the mapping is the record Ring. ShmRing.Machine cuts `post_send` (with
--     `reserve_impl` and `publish`), `poll` and `release` into steps of one shared access, the
--     locals of a thread being the constructors of Pc; ShmRing.System interleaves any number of
--     threads. Accesses are sequentially consistent, and a weak compare-exchange may fail at will.
--   * Matching: Spec says what waits for a key and what an insertion returns; ListEngine and
--     MapEngine are the two `insert` functions, the second over SlotQueue (`queue_t`: two slots or
--     nodes of seven), Chain (buckets, the search and its freeing) and Insert; Key has `make_key`
--     (src/matching_engine/matching_engine.hpp, src/util/misc.hpp). A pointer to a queue
--     is its bucket and offset; a value is a number, 0 the null pointer. Insertions are one at a
--     time, since each holds the lock of what it reads.
--   * Endpoint: Posting has the seven `post_*`, the seven `push_*` and `progress`, with the same
--     names. The backend is a parameter: a state and what a post returns. A copy of a user's buffer
--     is a value, so what the backlog queue hands over later does not read the user's memory. A
--     lock that the thread itself holds is `self_deadlock`. Order has the lemmas on posts, Fallback
--     those on networks that cannot put with immediate data, and Drain those on `progress`.
--   * Immediate: the bit fields of src/util/misc.hpp, `set_immediate_data` and the building of the
--     packet, and the decoding in `progress_recv` and `progress_remote_write`. Bytes are numbers,
--     lowest first.
--   * PostComm: `post_comm_x::call_impl` step by step over the record Run (`post_comm_state_t`),
--     with `preprocess_args` before it and `exit_handler` behind it; Driver has the network part.
--     The record Env holds what the backlog queue, the packet pool, the shared-memory device, the
--     endpoint and the matching engine answer, and IsServed what they promise. The context is its
--     owner. The wait for a completion without `allow_posted` is one step.
--   * PacketSet: the deque of a thread with its signed indices, then in Pools `get_n`, `put` and the
--     stealing, each under the locks that it takes; the outcomes of `try_lock` and of the random
--     choice are arguments. A packet is a number, 0 the null pointer.
--   * Collective: what the code of one rank posts in each round, for the barrier, the three
--     algorithms of a broadcast, `reduce`, `alltoall` and `allgather` (src/collective); Tree has the
--     binomial tree that broadcast and reduction share, Reduce the replay with its buffers. The
--     messages that a rank receives are an argument, and so is the operation.
--   * Comp: Graph has `graph_t` (src/comp/graph.hpp), each edge that is followed being one step and
--     the steps of all threads in any order; Sync has `sync_t` (src/comp/sync.hpp), each call being
--     one step.
--   * Progress: the loop of `process_completion_batch` over the statuses of a poll, with the rank of
--     a failed peer and the deletion of its context.
--   * TagArchive, Rendezvous, Communicate, MpmcArray: one function for each of the code's, with a
--     failed assertion as `none`.
--
-- Bounds and fuel: positions of the ring are 64-bit words of which one bit is the state, so they
-- end at 2^63 - 1, and required_size is computed with the wrap-around of 64 bits; the hash is
-- computed modulo 2^32. The loops of `reserve_impl` and `poll` have the code's number of attempts.
-- The loops of the collectives have a fuel of the number of ranks, which the jumps that are halved or
-- doubled do not use up. The loop of the rendezvous has a round for each byte, and no round sends
-- nothing while its offsets do not wrap around; offsets and the signal count are computed modulo 2^64,
-- and the count is stored in a 32-bit `int`. The search of the archive makes as many steps as there
-- are slots.
--
-- The attempts to lock and to steal are a list, as long as the code's bound. The indices of a deque
-- are integers; the code's would overflow after 2^63 operations.
--
-- Not modelled: the network backends and the POSIX mapping (calls of other libraries), logs and
-- counters of events, debug assertions, weak memory orders, most destructors, the memory of the
-- packet pool, completion queues, counters and handlers, `allreduce` and `reduce_scatter`, the
-- handlers of single completions and the process managers.
pub mod Base
pub mod ShmRing
pub mod Matching
pub mod Endpoint
pub mod TagArchive
pub mod Rendezvous
pub mod Communicate
pub mod Immediate
pub mod PacketSet
pub mod PostComm
pub mod Progress
pub mod MpmcArray
pub mod Collective
pub mod Comp
