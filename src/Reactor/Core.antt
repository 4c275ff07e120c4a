-- ===== src/Reactor/Core.antt =====
-- `reactor_t` of codes/network/reactor/reactor.h, and the functions of reactor.c that the program
-- calls: `reactor_create`, `reactor_add_connection`, `reactor_run`, `reactor_stop`,
-- `reactor_destroy` and the figures of `reactor_stats`. A pointer argument is an Option. The
-- callbacks of `reactor_t` are never set or called. What the threads do while they run is in
-- MainLoop; here starting and joining them are calls of the log.
use hepeng_projects.Prelude.{
  ℕ, zero, suc, ◌+◌, ◌%◌, Bool, true, false, ◌||◌, List, [], ◌∷◌, ◌++◌, Option, none, some,
  replicate, ltb, ◌==◌, not, if◌then◌else◌, add32, ℤ, pos, negsuc, is_negative,
}
use hepeng_projects.RingQueue.{RingQueue, zeroed, init, push}
use hepeng_projects.Reactor.Connection.{Connection}
use hepeng_projects.Reactor.Table.{Table, max_connections}
use hepeng_projects.Reactor.Thread.{Thread, or_queue}

abbrev pub max_reactor_threads : ℕ
max_reactor_threads = 16

-- The array of `thread_count` threads that are in use.
pub record Reactor : Type 0 where
  pub threads : List Thread
  pub thread_count : ℕ
  pub running : Bool
  pub next_thread : ℕ

-- The calls of this level.
pub data Call : Type 0 where
  closes : ℤ → Call
  starts : ℕ → Call
  joins : ℕ → Call

-- `n` free places of a table, which `calloc` and the loop of `reactor_create` set to NULL.
unfoldable pub free_places : ℕ → Table
free_places n = replicate n none

-- A queue in memory from `calloc`.
abbrev pub raw_queue : RingQueue
raw_queue = record {
  head = 0;
  tail = 0;
  buffer = zeroed;
  push_count = 0;
  pop_count = 0;
  push_fail_count = 0;
}

-- Thread `i` as `reactor_create` leaves it.
unfoldable pub new_thread : ℕ → ℤ → Thread
new_thread i epoll_fd = record {
  id = i;
  thread_id = 0;
  running = false;
  epoll_fd = epoll_fd;
  connections = free_places max_connections;
  connection_count = 0;
  accept_queue = or_queue raw_queue (init (some raw_queue));
  total_connections = 0;
  active_connections = 0;
  processed_events = 0;
  batch_processed = 0;
}

abbrev pub close_epolls : List Thread → List Call
close_epolls [] = []
close_epolls (t ∷ ts) = closes t.epoll_fd ∷ close_epolls ts

-- The loop of `reactor_create` from thread `i` on, `n` to come; `epoll i` is what `epoll_create1` gives
-- for thread `i`, `none` for -1. If it fails, the descriptors of the threads before are closed.
unfoldable pub create_threads :
    (ℕ → Option ℤ) → ℕ → ℕ → List Thread → Option (List Thread) × List Call
create_threads epoll i zero before = (some before, [])
create_threads epoll i (suc n) before = elim (epoll i) [
  | none ↦ (none, close_epolls before)
  | some fd ↦ create_threads epoll (i + 1) n (before ++ (new_thread i fd ∷ []))
]

abbrev pub created : ℕ → Option (List Thread) × List Call → Option Reactor × List Call
created n (none, calls) = (none, calls)
created n (some ts, calls) =
    (some (record { threads = ts; thread_count = n; running = false; next_thread = 0 }), calls)

-- `reactor_create`; `memory` says whether `calloc` succeeds.
unfoldable pub reactor_create : Bool → (ℕ → Option ℤ) → ℤ → Option Reactor × List Call
unfolding create_threads
reactor_create memory epoll (negsuc n) = (none, [])
reactor_create memory epoll (pos n) =
    if (n == 0) || ltb max_reactor_threads n
    then (none, [])
    else if memory
    then created n (create_threads epoll 0 n [])
    else (none, [])

-- What `f` does to the thread number `i`.
unfoldable pub at_thread : ℕ → List Thread → (Thread → Bool × Thread) → Bool × List Thread
at_thread i [] f = (false, [])
at_thread zero (t ∷ ts) f = let (done, t') = f t in (done, t' ∷ ts)
at_thread (suc i) (t ∷ ts) f = let (done, ts') = at_thread i ts f in (done, t ∷ ts')

-- The push of `fd` to a thread's queue, with the number of exchanges that fail spuriously.
unfoldable pub enqueue : ℕ → ℤ → Thread → Bool × Thread
enqueue spurious fd t =
    let (done, q) = push spurious (some t.accept_queue) fd in
    (done, record t { accept_queue = or_queue t.accept_queue q })

-- `reactor_add_connection`; the flag stands for the result 0.
unfoldable pub reactor_add_connection : ℕ → Option Reactor → ℤ → Bool × Option Reactor
reactor_add_connection spurious none fd = (false, none)
reactor_add_connection spurious (some r) fd =
    if is_negative fd
    then (false, some r)
    else if not r.running
    then (false, some r)
    else (let (done, ts) =
          at_thread (r.next_thread % r.thread_count) r.threads (enqueue spurious fd) in
        (done, some (record r { threads = ts; next_thread = add32 r.next_thread 1 })))

-- The loop of `reactor_stop`: every thread is told to stop, and joined if it has been started.
unfoldable pub stop_threads : List Thread → List Thread × List Call
stop_threads [] = ([], [])
stop_threads (t ∷ ts) =
    let (ts', calls) = stop_threads ts in
    (
      record t { running = false } ∷ ts',
      (if t.thread_id == 0 then calls else joins t.thread_id ∷ calls),
    )

unfoldable pub reactor_stop : Option Reactor → Bool × Option Reactor × List Call
unfolding stop_threads
reactor_stop none = (false, none, [])
reactor_stop (some r) =
    let (ts, calls) = stop_threads r.threads in
    if not r.running
    then (false, some r, [])
    else (true, some (record r { threads = ts; running = false }), calls)

-- The loop of `reactor_run`: `spawn i` is the number of the thread that `pthread_create` starts for
-- thread `i`, none if it fails. The flag says that all were started.
unfoldable pub start_threads : (ℕ → Option ℕ) → ℕ → List Thread → Bool × List Thread × List Call
start_threads spawn i [] = (true, [], [])
start_threads spawn i (t ∷ ts) = elim (spawn i) [
  | none ↦ (false, t ∷ ts, [])
  | some id ↦
      let (done, ts', calls) = start_threads spawn (i + 1) ts in
      (done, record t { thread_id = id } ∷ ts', starts id ∷ calls)
]

unfoldable pub reactor_run : (ℕ → Option ℕ) → Option Reactor → Bool × Option Reactor × List Call
unfolding start_threads
reactor_run spawn none = (false, none, [])
reactor_run spawn (some r) =
    let (done, ts, calls) = start_threads spawn 0 r.threads in
    let r' = record r { running = true; threads = ts } in
    let (stopped, r'', more) = reactor_stop (some r') in
    if r.running
    then (false, some r, [])
    else if done
    then (true, some r', calls)
    else (false, r'', calls ++ more)

-- The part of `reactor_destroy` that frees the connections of a table.
unfoldable pub release_connections :
    (ℕ → Option Connection) → Table → Option ((ℕ → Option Connection) × List Call)
release_connections heap [] = some (heap, [])
release_connections heap (none ∷ t) = release_connections heap t
release_connections heap (some p ∷ t) = elim (heap p) [
  | none ↦ none
  | some c ↦ elim (release_connections (λ q. if p == q then none else heap q) t) [
    | none ↦ none
    | some (heap', calls) ↦ some (heap', closes c.fd ∷ calls)
  ]
]

unfoldable pub destroy_threads :
    (ℕ → Option Connection) → List Thread → Option ((ℕ → Option Connection) × List Call)
unfolding release_connections
destroy_threads heap [] = some (heap, [])
destroy_threads heap (t ∷ ts) = elim (release_connections heap t.connections) [
  | none ↦ none
  | some (heap', calls) ↦ elim (destroy_threads heap' ts) [
    | none ↦ none
    | some (heap'', more) ↦ some (heap'', closes t.epoll_fd ∷ (calls ++ more))
  ]
]

-- `reactor_destroy`; the heap is the one that the threads leave when they have been joined.
unfoldable pub reactor_destroy :
    (ℕ → Option Connection) → Option Reactor → Option (Bool × (ℕ → Option Connection) × List Call)
unfolding destroy_threads
reactor_destroy heap none = some (false, heap, [])
reactor_destroy heap (some r) =
    let (stopped, r', calls) = reactor_stop (some r) in
    elim (destroy_threads heap r.threads) [
      | none ↦ none
      | some (heap', more) ↦ some (true, heap', calls ++ more)
    ]
