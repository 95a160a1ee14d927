-- ===== src/Lib.antt =====
-- Leda: the kernel of a staged event-driven runtime for Lua, src/kernel in C.
--
-- A Leda program is a graph of stages that send events to each other. A pool of threads runs instances
-- of the stages, each a Lua state with the stage's handler. An event for a stage goes to a resting
-- instance, or to a new one while the stage's limit allows, and the instance goes to the ready queue; if
-- there is no instance to be had, the event waits in the stage's event queue. A thread takes an
-- instance off the ready queue and runs it; an instance that has finished takes the next pending
-- event of its stage, or rests in the stage's recycle queue.
--
-- Parts of the program, and the files that model them:
--   src/kernel/queue.c, queue.h       Queue, on an explicit heap of cells; Queue/Fifo is what it
--                                     promises, a bounded first-in first-out queue
--   src/kernel/atomic.c               Atomic, the locked counters
--   src/kernel/stats.c                Stats, the counters of each stage and connector, and Report,
--                                     the tables that the controller gets of them
--   src/kernel/event.c                Event (events as values), Wait (calls that park an
--                                     instance in the event loop, and what wakes it), and Remote
--                                     (the process that a remote event goes to; Remote/Wire, the
--                                     bytes of an event and the loops on a socket;
--                                     Remote/Connection, sends and answers); Scheduler/Receive
--                                     (events from the network), Ending (the end of a run)
--   src/kernel/graph.c                Graph (the loops over stages, connectors, clusters and
--                                     processes), Graph/Build, Graph/Destroy, and
--                                     Graph/Outlets (the table of outputs that instance.c gives an
--                                     instance)
--   src/kernel/instance.c             Kernel (the shared tables) and Instance, Instance/Api
--   src/kernel/scheduler.c            Scheduler (sending events), Scheduler/Turn (running an
--                                     instance, the main loop of a thread), Scheduler/Yield (what
--                                     a handler yields), Scheduler/Descriptor (thread handles)
--   src/kernel/extra/leda-io.c        Files (requests to read and write, and file handles)
--   src/kernel/kernel.c               Scheduler/Send (leda_send), Startup (leda_run up to its
--                                     dispatch), Dispatch (the callbacks that run there, and the
--                                     rest of leda_run)
-- Prelude has the shared names, Lua the Lua values and the marshalling library. Proofs are in the
-- folders under these files; the modules named Examples hold tests and concrete cases.
--
-- State. Queue has its own: a heap from addresses to cells, and `struct LFQueue`. A call that waits on
-- a condition variable returns `wait`, and is run again from the loop's test. The other parts use
-- `Kernel`, with the queues as values of Queue.Fifo; Queue/Refine relates these to the cells. A
-- call is a function on the Kernel that returns a value, or sleeps in `queue_push`, or faults. A call
-- of instance.c or scheduler.c is one step here: what other threads do between its uses of the queues
-- is outside the model, but for Queue, where each stay under a mutex is a step. Two
-- races that this leaves out are shown on their own, as sequences of the steps that instance.c makes
-- (Instance/Races). The ready queue of the Kernel is the queue as it is while no thread waits in
-- `queue_pop`: what a push does while one waits, where elements can be lost, is in Queue/Conserve.
--
-- Bounds. A C `int` or `long` is an exact integer: a signed overflow is undefined in C. An id is
-- compared and indexed as a `size_t`, which `as_size` makes of a negative number. A time is a whole
-- number of microseconds. The fuel of `queue_free` bounds its rounds; one more than the queue holds
-- is enough. What the calls of `write` and `read` on a socket come to is a list; it is long enough once
-- they have taken or brought as many bytes as the frame has. `run_turns` runs at most as many instances
-- as its fuel says, and returns the one that is left.
--
-- Not modelled: the Lua interpreter (a handler's run is a parameter of the scheduler's functions),
-- the marshalling library lmarshal.c (the record Marshal with its two round-trip laws), libevent and the
-- file operations (whether an event is registered or a request taken is a parameter, Platform), the sockets (what each connect,
-- write and read comes to is a parameter, Link), the allocation of memory other than the cells of
-- queue.c (it succeeds), the dump of a graph, the main function of the thread of
-- the event loop, the setting of timers, and the other functions of kernel.c, which hand values of the
-- system to Lua.
pub mod Prelude
pub mod Queue
pub mod Atomic
pub mod Stats
pub mod Lua
pub mod Event
pub mod Kernel
pub mod Instance
pub mod Wait
pub mod Scheduler
pub mod Remote
pub mod Graph
pub mod Startup
pub mod Report
pub mod Dispatch
pub mod Ending
pub mod Files
