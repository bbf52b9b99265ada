-- ===== src/Lib.antt =====
-- WazabiEDR_Driver: a Windows kernel driver that reports process, image, registry, thread and handle
-- events to one user-mode agent.
--
-- The kernel calls the driver's notification routines (src/callbacks). Each builds an event in a pool
-- block and hands it to submit_event (src/queue/submit.rs), which copies it to the agent's waiting
-- request or queues it in a ring of 4096 entries (src/queue/ring.rs). The agent asks by an IOCTL
-- (src/ipc/dispatch.rs), which takes the oldest event or parks the request in PENDING_IRP.
-- src/lib.rs starts and unloads the driver.
--
-- Files:
--   Base         lists, Booleans and tests on native numbers
--   Wdk          the kernel's types and constants, the log of kernel calls, and the record Kernel of
--                the kernel's answers, which is a parameter throughout
--   State        src/state.rs as the record World, and the state monad M of the handlers
--   SpinLock     src/util/spin_lock.rs        Irp       src/ipc/irp.rs
--   Ring         src/queue/ring.rs            Submit    src/queue/submit.rs
--   Dispatch     src/ipc/mod.rs, dispatch.rs  Strings   src/util/strings.rs
--   Events       src/events.rs: the records, their packed layout as bytes, and a decoder
--   Callbacks    src/callbacks: Header, Thread, Process, Image, Object and Registry; Described says what
--                an event has to say about the notification that it reports
--   Entry        src/lib.rs: driver_entry and driver_unload
--   System       sequences of requests and notifications: step, run, session, lifetime
--   Safety       invariants of World and of its log, for every session and every life of the driver
--   Concurrent   submit_event and the dispatch routines as steps of processors that interleave
--   Tests        runs at concrete inputs
--
-- A source function keeps its name. A function that changes state is a term of M; a source block that
-- stands inside a function is a definition of its own where the proofs need it. Every call into the
-- kernel, and every access through an IRP or a block pointer, adds an action to the log, newest first; the
-- kernel's answers are any functions of that log. A pointer is a number, and null is 0. Machine
-- integers wrap where the source can overflow (add_u32, add_usize, as_u16, as_u32).
--
-- Bounds and fuel: the drain loop of driver_unload runs on one more round than the ring has entries,
-- and ends on the empty ring. The loop that fills MajorFunction has its 28 rounds. The other loops are
-- structural. A processor of Concurrent in submit_event or in a dispatch routine has at most seven steps
-- before it returns (left), which is the fuel of alone.
--
-- Conditions: the I/O manager hands over no null IRP, and the strings that the kernel passes or
-- returns have at least as many units as their Length says; some theorems also want a pool that
-- hands out no block in use, or registrations that give no null handle with a success. Events are
-- written to their block once, when they are complete, and not field by field.
--
-- Proofs: a callback's proof takes the invariant as a parameter (Callbacks.Kept), with the kind of events
-- that the invariant lets it submit; Callbacks.Preserve goes through every callback once, for any
-- invariant. Each invariant of Safety, and the simulation of Concurrent.Sessions, is an instance.
-- Safety.Attempts counts the callbacks' allocations against what is to be reported (Reportable), which is
-- said without the code's tests, as Callbacks.Described says what an event has to say.
--
-- Concurrency: from the return of driver_entry on, any number of requests and notifications run at once.
-- A step is one access to shared state, one kernel call, or what the lock's holder alone can reach. A
-- callback allocates its block (report), writes to it, swaps and adds to the counters of losses, and gets
-- and releases a key's name in steps of their own, in any order, and then runs submit_event. Which
-- events the callbacks report, and of which size their blocks are, is left open there, and settled
-- by Sessions for the requests and notifications of System.
--
-- Not modelled: other processors while driver_entry or driver_unload runs; memory orders weaker than
-- sequential consistency; src/util/sync_cell.rs, which only gives out a pointer; build and
-- installation scripts. The resolvers of src/callbacks/process.rs that the source keeps but does not
-- call are modelled by themselves.
pub mod Base
pub mod Wdk
pub mod State
pub mod Events
pub mod SpinLock
pub mod Irp
pub mod Ring
pub mod Submit
pub mod Dispatch
pub mod Callbacks
pub mod Strings
pub mod Entry
pub mod System
pub mod Safety
pub mod Concurrent
pub mod Tests
