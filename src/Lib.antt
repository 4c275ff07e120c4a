-- ===== src/Lib.antt =====
-- A verification of the network servers under codes/network.
--
-- The repository holds three echo servers in C: a reactor with edge-triggered epoll (reactor), a
-- proactor over Linux AIO (proactor), and a hybrid of both (proactor_epoll). This development models
-- the reactor (codes/network/reactor/ring_queue.c, ring_queue.h, reactor.c, reactor.h and server.c), the
-- proactor (codes/network/proactor/proactor.c, proactor.h and async_server_proactor.c), and the hybrid
-- (codes/network/proactor_epoll/hybrid_proactor.c, hybrid_proactor.h and efficient_hybrid_server.c).
--
-- How the parts interact: an accept thread calls `reactor_add_connection`, which puts a descriptor
-- into the ring queue of one of the reactor threads, in turn. Each reactor thread runs a loop: it takes
-- descriptors from its queue and registers them, waits for events, sorts them, reads and writes, and
-- now and then closes connections that have been idle.
-- In the proactor, operations are put into a list, which worker threads hand to the kernel. A dispatcher
-- takes completed operations and calls the handler of the connection, which submits the next one.
-- In the hybrid, an accept thread creates connections and adds them to the list of one of the workers,
-- in turn. A worker handles the events of its connections: it reads and writes at once where it can,
-- and submits asynchronous operations where it cannot. Starting and stopping the server go through all
-- workers.
--
-- Files.
--   Prelude            shared names, tests, lists, `memcpy`, uint32_t and uint64_t arithmetic, and
--                      the results of system calls (Kernel, and Sockets for listening sockets).
--   Listening          `create_server_socket` of the three servers.
--   RingQueue          ring_queue.h and ring_queue.c: `push` is `ring_queue_push`, `pop_batch` is
--                      `ring_queue_pop_batch`, and so on. Below it: Window (the items that a ring holds
--                      and its invariant), Spec (the bounded queue that it promises to be), Single, Copies
--                      and Batch (its functions against that queue), Each (a batch against single pushes),
--                      RoundTrip (a push and a pop), Refine (sequences of calls).
--   RingQueue/Concurrent
--                      one thread in `ring_queue_push` and one in `ring_queue_pop_batch`, an access at a
--                      time; the `memcpy`s of the consumer read one item at a time, the oldest first. Below it: Agreement (what holds at every access), Producing and Simulation
--                      (each access keeps it), Delivery (what the consumer gets), Races (what it
--                      should not get).
--   Reactor/Connection connection_t and the input and output of one connection in reactor.c.
--   Reactor/Echo, ReadLoop, Session, Stuck
--                      the bytes that a connection owes its peer; the end of the read loop; sessions; a
--                      state without progress.
--   Reactor/Table, Thread, Events, MainLoop
--                      reactor_thread_t and the functions that a reactor thread runs.
--   Reactor/Ownership, Adding, Accepting, Handlers, Sorting, Safety
--                      who owns a connection, and that no freed memory is used.
--   Reactor/Core       reactor_t: `reactor_create`, `reactor_add_connection`, `reactor_run`,
--                      `reactor_stop`, `reactor_destroy`.
--   Reactor/Lifecycle, Distribution
--                      what creation gives, and where descriptors go.
--   Reactor/Server     server.c: `create_server_socket`, `accept_thread_main` and main.
--   Reactor/Serving, Destruction, Threads, Fresh, Exit
--                      what the accept thread hands over, what `reactor_destroy` frees, which threads are
--                      started and joined, and how main ends.
--   Proactor/Connection
--                      the structs of proactor.h; adding and removing connections, submitting operations,
--                      and the rounds of a worker in proactor.c.
--   Proactor/Completion
--                      the completion handlers and `setup_new_connection` of async_server_proactor.c, and
--                      the dispatch of completed operations in proactor.c.
--   Proactor/Dispatcher
--                      `handle_new_connection` and the loops of `dispatcher_thread_func`.
--   Proactor/Ownership, Changes, Safety, Setup, Dispatching, Stale, Echo, Order
--                      which contexts and handlers are live, what the handlers answer, and the order of
--                      operations.
--   Proactor/Workers   the threads of `worker_thread_func` next to each other. Below it: Alone (one
--                      worker), Conservation (where operations are) and Stopping (how the threads end).
--   Proactor/Creation  `proactor_init`.
--   Proactor/Server, Lifecycle, Main
--                      `create_server_socket`, `proactor_start` and `proactor_stop`, and main.
--   Proactor/Stopping, Ending
--                      what `proactor_stop` gives back, and how main ends.
--   Hybrid/Connection  mt_connection_t and worker_context_t; creating, adding and removing connections.
--   Hybrid/Events      `mt_try_read`, `mt_try_write`, `mt_process_data`, the asynchronous operations, and
--                      the handlers of events.
--   Hybrid/Accept      mt_proactor_t and a round of `accept_thread_func`.
--   Hybrid/Worker      the loop of `worker_thread_func`.
--   Hybrid/Lifecycle   `mt_proactor_init`, `mt_proactor_start`, `mt_proactor_stop`, and the command line.
--   Hybrid/Server, Main
--                      `create_server_socket`, and main of efficient_hybrid_server.c.
--   Hybrid/Ending      how main ends.
--   Hybrid/Ownership, Keeping, Writing, Answering, Reading, Safety, Rounds, Newcomer,
--   Admission, Shutdown, Starting, Faults
--                      which connections are live, what is written and answered, what a new connection
--                      changes, what is released, and where freed connections are used.
--   The Tests modules hold the laws at concrete inputs.
--
-- How code is modelled. A struct is a record, a pointer argument an Option, and a function that changes
-- a struct returns the new one. `uint32_t` and `uint64_t` arithmetic keeps its modulus. Where pointers
-- are shared (connections, and the handlers of the proactor), a heap from addresses to connections is
-- explicit, and a read through a freed pointer is a fault, `none`. The result of an asynchronous operation
-- is an `unsigned long`, as libaio declares it, and holds an error number as its complement modulo 2^64. The kernel and the C library (read, write, epoll, fcntl,
-- calloc, clocks, pthreads) are arguments, with their documented limits as named hypotheses: `AtMost`
-- and `TakesAtMost` for read and write, `Allocates` for calloc, `Reported` for epoll_wait, `Numbers` for pthread_create. `AllLives` is what
-- the main of server.c relies on from the reactor's threads. System calls
-- that take effect are written to a log.
--
-- Bounds and fuel. The loop of `handle_read_event` is the only one on fuel: 16386 rounds, which are
-- enough for any connection since each round reads a byte. All other loops go over a list, an array or
-- a count; the loops of the hybrid's `worker_thread_func` and of `dispatcher_thread_func` go over the
-- rounds that they are given, and so do the accept loop of server.c and the loops in which the
-- proactor's main and `wait_thread_with_timeout` wait.
--
-- Not modelled: printing; the mutexes and condition variables but for those around the proactor's list
-- of operations; the wake-up of threads on shutdown; the order in which other threads see writes to
-- memory. Each main takes what its threads do until they end as an argument. Apart from
-- RingQueue/Concurrent and Proactor/Workers, functions run one at a time, with no other thread in
-- between; several producers or consumers of one ring are not modelled.
pub mod Prelude
pub mod RingQueue
pub mod Reactor
pub mod Proactor
pub mod Hybrid
pub mod Listening
