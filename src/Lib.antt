-- ===== src/Lib.antt =====
-- juggle is an async task scheduler for one thread. A Wheel polls the tasks that a WheelHandle
-- spawned into it, and the handle, also from inside a task, suspends, resumes and cancels tasks
-- by their keys. The tasks live in a ChunkSlab, whose chunks never move, and each shares a flag
-- with its wakers that says whether it can be polled.
--
-- Prelude and its children hold the shared names, tests on numbers, list lemmas, sums over
-- ranges, and Outcome, the result of code that can panic. The panics are an enumeration, with one
-- constructor per panic site of the source.
--
-- Slab models src/utils/chunk_slab.rs: the state of a ChunkSlab is a list of chunks of 16
-- entries, the number of values and the first free key. A key type is a record of its greatest
-- value and that of usize, so the casts of a narrow key wrap as the source's do. Slab/Inv has the
-- well-formedness of a slab: the free keys form a chain through the empty entries that ends at
-- the capacity. Slab/Insert, Slab/Remove, Slab/Iter, Slab/Full, Slab/Map, Slab/Sweep and
-- Slab/Retain are about the operations.
--
-- Task models the types of src/dy/stat.rs, src/dy/dyn_future.rs and src/dy/handle.rs. The user's
-- future is not code of the repository: it is a parameter, a function that gives for each state
-- of the future one poll as a tree of calls on the handle, with the next state or the end at its
-- leaves. A panic inside user code is not modelled.
--
-- TaskRegistry is the interface of src/dy/stat.rs as a record of operations and laws, and
-- Registry with Registry/Instance its implementation over the slab in src/dy/registry.rs, as a
-- release build compiles it. Registry/Flags is the registry as a debug build compiles it, with the
-- flags that count borrows and iterators; Registry/Borrows and Registry/Guarded are about the
-- sequences of calls on it.
--
-- Scheduler models src/dy/unordered_algorithm.rs over any TaskRegistry, with the parts of
-- src/dy/dyn_future.rs (poll_local, the flags, wake) and src/dy/handle.rs (spawn_dyn) that it
-- runs. The flags that a task shares with its wakers are a store indexed by addresses, since
-- wakers outlive tasks. Wakers of the caller are numbers, and the state lists those that were
-- woken. Its loop runs on fuel, one unit for a round; a round polls at least one task or ends the
-- call, so that a bound on the polls that the user's futures still need is enough fuel, which
-- Scheduler/Budget and Scheduler/Progress are about. Scheduler/Inv has the invariant;
-- Scheduler/Beat, Scheduler/Silent and Scheduler/Verdict are about a beat, a beat without a poll
-- and the end of a call, Scheduler/Control about the state machine of a task, and Scheduler/Leak
-- about the count of suspended tasks. Scheduler/Names has the lookups by name.
--
-- Queued models src/dy/algorithm.rs, the older scheduler, which the wheels do not use: two queues of
-- runnable tasks, a list of deferred ones and the scan of the registry. The state that it shares with
-- the other scheduler is of the same type, so that the facts about that one carry over. Queued/Beat
-- has the beats and poll_internal, with fuel for the rounds of both loops: with a suspended task at
-- the front of a queue no fuel is enough. Queued/Calls is about the calls of a handle, Queued/Rounds,
-- Queued/Polls, Queued/Retained and Queued/Whole about what a poll keeps, Queued/Sweep and
-- Queued/Drain about drain_runnable, Queued/Turns, Queued/Leaves and Queued/Ends about the end of
-- rotate_once, Queued/Scan and Queued/Stuck about where the code goes wrong, and Queued/Names about the
-- lookups.
--
-- Wheel models src/dy/wheel.rs and src/dy/handle.rs: a wheel owns an allocation with a scheduler, and
-- handles refer to it weakly; a memory is a list of allocations with their strong counts. It has the
-- calls of a handle, the identifiers of tasks, lock and unlock, and the blocking calls with fuel for
-- their polls. Wheel/Params has the builders of the parameters; Wheel/Handles and Wheel/Lock are about
-- the calls and the lock.
--
-- Wakers models src/utils/mod.rs: the tables of the wakers over a store of strong counts, and
-- AtomicWakerRegistry. Wakers/Counts is about each operation, Wakers/Owned and Wakers/Total about the
-- owners in a sequence of operations.
--
-- StaticTask models the memory of a static future in src/st/config.rs and src/st/stt_future.rs,
-- which handle_task fills, polls, drops and makes anew, StaticTask/Lifecycle has whole calls of it
-- in a row, and Static models src/st/algorithm.rs: a wheel of a fixed list of tasks that can be
-- restarted. A task's expression, which makes its future, and the polls of the future are
-- parameters, each a tree of calls on handles. An identifier is the key that it stands for. Static
-- has the state and the calls of src/st/handle.rs with their check of the generation, Static/Beat
-- the rounds and poll_internal, and Static/Life the lock, init and dispose of src/st/wheel.rs. The
-- loop of poll_internal runs on fuel as the dynamic one does. Static/Inv has the invariant;
-- Static/Calls, Static/Run, Static/Careful, Static/Safe, Static/Rest, Static/Verdict,
-- Static/Still, Static/CountedOff, Static/Leak and Static/Reuse are about the calls, the polls,
-- the beats, the verdict and the counts.
--
-- Timing models src/utils/timing.rs over the slab, with counts in an unsigned integer type whose
-- greatest value is a parameter and overflow checks as in a debug build. Timing/Shares and
-- Timing/Group are about the loops over the entries, Timing/Fair about can_execute, and
-- Timing/Steps about the operations that change a group. Balance models src/utils/load.rs over it:
-- LoadBalance futures that share a group and its clock. What the clock measures and the poll of
-- the future inside are parameters.
--
-- AtomicCell models src/utils/cell.rs: threads whose accesses of the mark and of the content
-- interleave in a sequentially consistent order, each access one step. An exchange that fails
-- spuriously is a choice of the step. AtomicCell/Exclusion is about who holds the mark,
-- AtomicCell/Order about the order in which calls take effect, and AtomicCell/Weak about spurious
-- failures.
--
-- Block models src/yield_helper.rs and src/block.rs: the futures that yield, and block_on with
-- fuel for its polls.
--
-- Marker models try_put and take of src/st/atomic_marker.rs: threads whose accesses of a word of
-- two bits and of an optional value interleave, each access one step; values that are dropped are
-- collected. Marker/Moves and Marker/Exclusion are about who may access the value, and
-- Marker/Notice about a take during a put. The bit HALTED is never set by the source, and the
-- word leaves it out.
--
-- Not modelled: the loops of put and clear and the wakers of src/st/atomic_marker.rs, whose notify
-- functions are empty or todo!(); the unfinished src/utils/signal.rs; the memory orderings of
-- atomic accesses; wakes of a scheduler's tasks by other threads, between its beats or between the
-- two accesses of a wake, which is one step here and comes from the user's code in a poll; Debug
-- output and hashing; what guards and destructors do while a panic unwinds; calls on a handle from
-- a destructor or from a callback of with_name; the wrapper of cells in src/utils/ucw.rs, which
-- only passes on to the core library; memory reservation; and the macros and re-exports of
-- src/lib.rs.
pub mod Prelude
pub mod Slab
pub mod Task
pub mod TaskRegistry
pub mod Registry
pub mod Timing
pub mod Balance
pub mod AtomicCell
pub mod Block
pub mod Marker
pub mod Queued
pub mod Wakers
pub mod Wheel
pub mod Scheduler
pub mod StaticTask
pub mod Static
