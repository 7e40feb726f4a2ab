-- ===== src/Lib.antt =====
-- A verification library for the inter-process tools of the repository: the events of
-- project/ipc/evt.c, the semaphore of project/ipc/wm_sem.c, the event loop of
-- project/ipc/wm_epoll.c, the byte ring of project/utils/sfifo.c, the messages, queues, observers
-- and threads of project/basic, and the containers and functions of project/utils.
--
-- The program's parts. `sfifo_t` is a ring of bytes for one producer and one consumer. `evt_t` is
-- an event that lets one waiter through for each signal, `evt_rw_t` an event that a writer sets
-- for all its readers, and `wm_sem_t` a counting semaphore; each is a mutex, a condition variable
-- and one or two counters on the heap, behind a handle. `wm_epoll_t` is a list of file
-- descriptors to watch with their callbacks. All use the checking macros of
-- project/include/wm_log.h, which log and leave the function.
--
-- The files.
--   Common       the names from the libraries, lists with native indices, integers, and masks.
--   Sfifo        project/utils/sfifo.c: `Sfifo` is `sfifo_t`, with the bytes in place of the
--                pointer; `put`, `get` and `rest` are `sfifo_put`, `sfifo_get` and `sfifo_rest`;
--                Sfifo/Lifetime has `init`, `alloc` and `release` for `sfifo_init`, `sfifo_alloc`
--                and `sfifo_free`, over an allocator that is a parameter. Sfifo/Shared has
--                `sfifo_put` and `sfifo_get` by two threads at once, in steps of one byte, with the
--                two reads of the macro `min` of sfifo.h; Sfifo/Overrun is about these reads.
--   Posix        functions that call pthread and libc: a state monad with early returns and
--                labels. What a call answers, and what other threads have made of the object
--                when a wait ends, is a parameter, the record `Env`. Posix/Macros has the macros
--                of wm_log.h, Posix/Time the deadline of a timed wait, and Posix/Ledger what the
--                calls made so far say of the mutex and of the resources.
--   Lifecycle    the text that `evt_mtx_create`, `evt_rw_create` and `wm_sem_create` share, and
--                that of `evt_mtx_destroy`, `evt_rw_destroy` and `wm_sem_destroy`.
--   Wait         the text that `evt_mtx_wait` and `wm_sem_wait` share. Wait/Crowd has any number of
--                threads in it, as moves from one gap in the mutex to the next, where a wait that
--                meets its deadline may or may not consume a signal; Event/Crowd and
--                Sem/Crowd are the event and the semaphore under it, Event/Lost and Sem/Stranded
--                are runs of them, QueueR/Crowd the queue of queue_r.hpp, and RwEvent/Crowd the
--                readers and writers of `evt_rw_t`, whose wait is another.
--   Event        `evt_mtx_*` of evt.c. `RwEvent` is `evt_rw_*`, `evt_wr_broadcast`, `evt_rd_reset`
--                and `evt_rd_wait`. `Sem` is `wm_sem_*` of wm_sem.c.
--   Epoll        `wm_epoll_*` of wm_epoll.c over a list that is a parameter, the record `EventList`
--                of the operations of project/utils/list.h that are used and of their laws. Its
--                `World` is `wm_epoll_t` with the log of the calls out of the file; Epoll/Timer
--                and Epoll/Queue have the functions that open descriptors,
--                Epoll/Service `wm_epoll_start`, `wm_epoll_stop`, `wm_epoll_handle` and their thread.
--   Message      project/basic/Mesg.h and Mesg.cpp: `Mesg` is `MESG_T`, `copy_msg` and `free_msg` are
--                `CopyMsg` and `Free`, over a heap that logs what is taken and given back; source
--                and target of `CopyMsg` are two messages.
--   Queue        project/basic/MsgQueue.cpp: `MsgQueue` objects at addresses, the shared map from
--                descriptors to them, and POSIX queues, which are a parameter with laws, the
--                record `Mq`. Queue/Transfer has `Send` and `Receive`, Queue/Life what is between
--                the constructor and the destructor.
--   Observer     ObservableFunction.cpp and ObservableQueue.cpp of project/basic: the common text
--                over what an observer is; Observer/Function and Observer/Posted are the classes.
--   Threads      project/basic/ThreadObj.cpp: threads at addresses and the list of those started.
--                Threads/Stopping is `StopAllThreads` while the threads of the list run, and are
--                started and detached.
--                Threads/WithQueue is project/basic/ThreadWithMsgQueue.cpp.
--   ListR        project/utils/list_r.hpp, with the log of the calls on the mutex of each node.
--                ListR/Walkers has any number of threads in walks that change nothing, and
--                ListR/Changes any number in all its functions.
--   QueueR       project/utils/queue_r.hpp, with the values in place of `std::queue`.
--   Utils        `crc32` and `getRandString` of project/utils/utils.cpp; Utils/Names is
--                project/basic/EnumDef.cpp.
--   Demo         project/demo/demoipc.c: `main`, its commands and what they start and stop.
--   Scenarios    the theorems at concrete objects in a concrete system.
--
-- Interaction. A `ThreadWithMsgQueue` reads from its `MsgQueue`; an `ObservableQueue` sends to
-- message queues; a message moves what it owns into the queue when it is sent. In the C code an
-- object stands in the `World` of the function that runs, with the log of the calls made and the
-- value written through the caller's pointer. Between its lock and its unlock a function has the
-- object to itself, but for the waits, at which `resume` of the environment gives the object that
-- the other threads leave. Where several threads are modelled, they take turns at what one of them
-- does between two of its gaps, and any of them may be next.
--
-- Bounds and fuel. A `uint32_t` is a number below 2 ^ 32, with sums and differences modulo 2 ^ 32;
-- an `int` that is added to wraps by `s32`. An `unsigned long` has 64 bits, and the wait for ever
-- is 2 ^ 64 - 1. A loop that waits takes fuel, one unit for each test of its condition, or for
-- each wait where it tests at its end, and gives `stuck` without: for `n` waits, `n + 1` units are
-- enough.
--
-- `LoopReadMsg` takes one unit of fuel for each turn and one to end, `DumpMsgQueue` one for each
-- `mq_receive`, none of which may block, and the wait of `queue_r` one for each test of its condition.
--
-- `wm_epoll_wait` has at most 32 events in a round, as many as the system stores.
--
-- Not modelled. What the macros log; memory that is seen in another order than it is written,
-- against which sfifo.c has its barriers; the fields of the objects that only pthread reads; the
-- overflow of `tv_sec` and of `s32Rd`; `CopyMsg` of a message to itself; exit callbacks that change the list of events; failures of
-- the event in `wm_epoll_start`.
-- The copies of other projects, in project/3rd, project/utils/list.h and project/utils/kfifo.hpp,
-- are not part of the program's own code. `DumpMsgQueueMap` only prints; `getMd5` calls a copy of
-- another project, and the functions of the date and the time zone call libc and print. The
-- other demos print what library functions do, and the work of the threads of demoipc.c is left
-- out. No file includes project/basic/ThreadWithStates.h.
pub mod Common
pub mod Sfifo
pub mod Message
pub mod Queue
pub mod Observer
pub mod Threads
pub mod ListR
pub mod QueueR
pub mod Utils
pub mod Demo
pub mod Posix
pub mod Lifecycle
pub mod Wait
pub mod Event
pub mod RwEvent
pub mod Sem
pub mod Epoll
pub mod Scenarios
