-- ===== src/Hybrid/Lifecycle.antt =====
-- `mt_proactor_init`, `mt_proactor_start` and `mt_proactor_stop` of
-- codes/network/proactor_epoll/hybrid_proactor.c, and the command line of efficient_hybrid_server.c.
-- What a call acquires and gives back is written to a log, oldest first; joining a thread is what
-- gives it back. The mutexes and the condition variable are not followed.
use hepeng_projects.Prelude.{
  ℕ, ◌+◌, Bool, true, false, ◌||◌, not, List, [], ◌∷◌, ◌++◌, Option, none, some, ◌>>=◌, replicate,
  ltb, ◌==◌, if◌then◌else◌, ℤ, pos, negsuc, is_negative,
}
use hepeng_projects.Hybrid.Connection.{WorkerContext, Heap, update}

abbrev pub max_worker_threads : ℕ
max_worker_threads = 16

abbrev pub default_port : ℕ
default_port = 8080

-- What the code holds for a while; workers by their number, descriptors and connections by theirs, and
-- the epoll instance of a worker by both.
pub data Resource : Type 0 where
  worker_array exit_event accept_thread : Resource
  aio_context worker_thread : ℕ → Resource
  epoll : ℕ → ℤ → Resource
  descriptor : ℤ → Resource
  connection : ℕ → Resource

pub data Act : Type 0 where
  acquires releases : Resource → Act

-- `mt_proactor_t` with its fields for starting and stopping.
pub record MtServer : Type 0 where
  pub listen_fd : ℤ
  pub running : Bool
  pub exit_event_fd : ℤ
  pub workers : Option (List WorkerContext)
  pub accept_thread : ℕ

abbrev pub zeroed_worker : WorkerContext
zeroed_worker = record {
  id = 0;
  thread = 0;
  running = false;
  epoll_fd = pos 0;
  aio_ctx = false;
  connections = [];
  total_operations = 0;
  eagain_errors = 0;
  successful_ops = 0;
}

-- The server as `mt_proactor_init` leaves it.
abbrev pub new_server : ℕ → ℕ → MtServer
new_server n fd = record {
  listen_fd = pos 0;
  running = true;
  exit_event_fd = pos fd;
  workers = some (replicate n zeroed_worker);
  accept_thread = 0;
}

-- `mt_proactor_init`: whether `calloc` succeeds, and what `eventfd` gives, `none` for -1.
unfoldable pub mt_proactor_init : Bool → Option ℕ → ℤ → Option MtServer × List Act
mt_proactor_init memory eventfd (negsuc n) = (none, [])
mt_proactor_init memory eventfd (pos n) =
    if (n == 0) || ltb max_worker_threads n
    then (none, [])
    else if not memory
    then (none, [])
    else elim eventfd [
      | none ↦ (none, acquires worker_array ∷ releases worker_array ∷ [])
      | some fd ↦ (some (new_server n fd), acquires worker_array ∷ acquires exit_event ∷ [])
    ]

-- What the system gives to the worker of a number: whether `io_setup` succeeds, and the results of
-- `epoll_create1` and `pthread_create`, `none` for a failure. A thread's number is not 0.
pub record Grants : Type 0 where
  pub io_setup : ℕ → Bool
  pub epoll_create : ℕ → Option ℕ
  pub spawn : ℕ → Option ℕ
  pub spawn_accept : Option ℕ

-- The round of `mt_proactor_start` for a worker; the flag says that it was started.
unfoldable pub start_worker : Grants → ℕ → WorkerContext → Bool × WorkerContext × List Act
start_worker g i t =
    let t' = record t { id = i; running = true } in
    if not (g.io_setup i)
    then (false, t', [])
    else (let t'' = record t' { aio_ctx = true } in
        elim (g.epoll_create i) [
          | none ↦ (
            false,
            record t'' { epoll_fd = negsuc 0 },
            acquires (aio_context i) ∷ releases (aio_context i) ∷ [],
          )
          | some fd ↦ elim (g.spawn i) [
            | none ↦ (
              false,
              record t'' { epoll_fd = pos fd },
              acquires (aio_context i)
                  ∷ acquires (epoll i (pos fd))
                  ∷ releases (epoll i (pos fd))
                  ∷ releases (aio_context i)
                  ∷ [],
            )
            | some thread ↦ (
              true,
              record t'' { epoll_fd = pos fd; thread = thread },
              acquires (aio_context i)
                  ∷ acquires (epoll i (pos fd))
                  ∷ acquires (worker_thread i)
                  ∷ [],
            )
          ]
        ])

-- The loop of `mt_proactor_start`; a worker that cannot be started ends it.
unfoldable pub start_workers :
    Grants → ℕ → List WorkerContext → Bool × List WorkerContext × List Act
unfolding start_worker
start_workers g i [] = (true, [], [])
start_workers g i (t ∷ ts) =
    let (done, t', acts) = start_worker g i t in
    let (all, ts', more) = start_workers g (i + 1) ts in
    if done then (all, t' ∷ ts', acts ++ more) else (false, t' ∷ ts, acts)

-- The loop of `mt_proactor_stop` that frees the connections of a worker.
unfoldable pub free_connections : Heap → List ℕ → Option (Heap × List Act)
free_connections heap [] = some (heap, [])
free_connections heap (p ∷ ps) = elim (heap p) [
  | none ↦ none
  | some c ↦ elim (free_connections (update heap p none) ps) [
    | none ↦ none
    | some (heap', acts) ↦ some (
      heap',
      (if is_negative c.fd then [] else releases (descriptor c.fd) ∷ [])
          ++ (releases (connection p) ∷ acts),
    )
  ]
]

abbrev pub when : Bool → Act → List Act
when b act = if b then act ∷ [] else []

-- The worker as a round of `mt_proactor_stop` leaves it.
abbrev pub stopped : WorkerContext → WorkerContext
stopped t = record t {
  running = false;
  epoll_fd = if is_negative t.epoll_fd then t.epoll_fd else negsuc 0;
  aio_ctx = false;
  connections = [];
}

-- What the round gives back before the connections.
abbrev pub shuts : ℕ → WorkerContext → List Act
shuts i t =
    when (not (t.thread == 0)) (releases (worker_thread i))
    ++ (when (not (is_negative t.epoll_fd)) (releases (epoll i t.epoll_fd))
        ++ when t.aio_ctx (releases (aio_context i)))

-- The round of `mt_proactor_stop` for the worker number `i`. The operations that have completed are
-- dropped, until `io_getevents` gives none.
unfoldable pub stop_worker : Heap → ℕ → WorkerContext → Option (WorkerContext × Heap × List Act)
unfolding free_connections
stop_worker heap i t = elim (free_connections heap t.connections) [
  | none ↦ none
  | some (heap', acts) ↦ some (stopped t, heap', shuts i t ++ acts)
]

unfoldable pub stop_workers : Heap → ℕ → List WorkerContext → Option (Heap × List Act)
unfolding stop_worker
stop_workers heap i [] = some (heap, [])
stop_workers heap i (t ∷ ts) = elim (stop_worker heap i t) [
  | none ↦ none
  | some (t', heap', acts) ↦ elim (stop_workers heap' (i + 1) ts) [
    | none ↦ none
    | some (heap'', more) ↦ some (heap'', acts ++ more)
  ]
]

abbrev pub workers_of : MtServer → List WorkerContext
workers_of s = elim s.workers [ none ↦ [] | some ts ↦ ts ]

-- The server as `mt_proactor_stop` leaves it.
abbrev pub halted : MtServer → MtServer
halted s = record s {
  running = false;
  workers = none;
  exit_event_fd = if is_negative s.exit_event_fd then s.exit_event_fd else negsuc 0;
  listen_fd = if is_negative s.listen_fd then s.listen_fd else negsuc 0;
}

-- What is given back after the workers.
abbrev pub closing : MtServer → List Act
closing s =
    when (not (is_negative s.exit_event_fd)) (releases exit_event)
    ++ (when (not (is_negative s.listen_fd)) (releases (descriptor s.listen_fd))
        ++ elim s.workers [ none ↦ [] | some ts ↦ releases worker_array ∷ [] ])

-- What `mt_proactor_stop` does once it has set `running` to 0. The heap is the one that the threads
-- leave when they have been joined.
unfoldable pub shut_down : Heap → MtServer → Option (MtServer × Heap × List Act)
unfolding stop_workers
shut_down heap s = elim (stop_workers heap 0 (workers_of s)) [
  | none ↦ none
  | some (heap', acts) ↦ some (
    halted s,
    heap',
    when (not (s.accept_thread == 0)) (releases accept_thread) ++ (acts ++ closing s),
  )
]

unfoldable pub mt_proactor_stop : Heap → MtServer → Option (MtServer × Heap × List Act)
unfolding shut_down
mt_proactor_stop heap s = if s.running then shut_down heap s else some (s, heap, [])

-- `mt_proactor_start`; the flag stands for the result 0.
unfoldable pub mt_proactor_start :
    Grants → Heap → MtServer → Option (Bool × MtServer × Heap × List Act)
unfolding start_workers mt_proactor_stop
mt_proactor_start g heap s =
    let (all, ts, acts) = start_workers g 0 (workers_of s) in
    let s' = record s { workers = some ts } in
    let fails : Option (Bool × MtServer × Heap × List Act) =
      elim (mt_proactor_stop heap (record s' { running = false })) [
        | none ↦ none
        | some (s'', heap', more) ↦ some (false, s'', heap', acts ++ more)
      ] in
    if all
    then elim g.spawn_accept [
      | none ↦ fails
      | some thread ↦
          some (
            true,
            record s' { accept_thread = thread },
            heap,
            acts ++ (acquires accept_thread ∷ []),
          )
    ]
    else fails

-- The arguments of the command line as `atoi` reads them: `none` if there are fewer. The result is
-- the number of workers and the port, `none` for the exit with 1.
unfoldable pub worker_count : Option ℤ → Option ℕ
worker_count none = some 4
worker_count (some (negsuc k)) = none
worker_count (some (pos k)) = if (k == 0) || ltb max_worker_threads k then none else some k

unfoldable pub port_number : Option ℤ → Option ℕ
port_number none = some default_port
port_number (some (negsuc k)) = none
port_number (some (pos k)) = if (k == 0) || ltb 65535 k then none else some k

unfoldable pub parse_arguments : Option ℤ → Option ℤ → Option (ℕ × ℕ)
unfolding worker_count port_number
parse_arguments workers port = do n ← worker_count workers; m ← port_number port; some (n, m)
