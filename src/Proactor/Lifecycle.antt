-- ===== src/Proactor/Lifecycle.antt =====
-- `proactor_start`, `proactor_stop` and `cleanup_proactor_resources` of
-- codes/network/proactor/proactor.c. What is given back is written to a log, oldest first, also what
-- is given back a second time. The mutex and the condition variable are not followed.
use hepeng_projects.Prelude.{
  ℕ, suc, ◌+◌, Bool, true, false, List, [], ◌∷◌, ◌++◌, Option, none, some, ltb, ◌==◌, if◌then◌else◌,
  ℤ, pos, negsuc, is_negative,
}
use hepeng_projects.Proactor.Connection.{Handler, Context, Proactor, store, free_handler}

-- A thread by its number, or one of the resources of the proactor, or a descriptor.
pub data Shutdown : Type 0 where
  joins cancels : ℕ → Shutdown
  closes : ℤ → Shutdown
  destroys_aio frees_connections frees_threads : Shutdown

-- The fields of `proactor_t` for its threads and its life, with the others in `core`. A number of a
-- thread that is 0 names none; `worker_threads` holds what the memory held where no thread was started,
-- since it comes from `malloc`.
pub record Server : Type 0 where
  pub core : Proactor
  pub listen_fd : ℤ
  pub aio_ctx : Bool
  pub worker_threads : List ℕ
  pub dispatcher_thread : ℕ

-- The loop of `proactor_start` from thread `i` on: `spawn` is what `pthread_create` gives, `none` for a
-- failure, which ends it.
unfoldable pub start_workers : (ℕ → Option ℕ) → ℕ → List ℕ → Bool × List ℕ
start_workers spawn i [] = (true, [])
start_workers spawn i (t ∷ ts) = elim (spawn i) [
  | none ↦ (false, t ∷ ts)
  | some id ↦ let (done, ts') = start_workers spawn (i + 1) ts in (done, id ∷ ts')
]

-- `proactor_start`; the flag stands for the result 0.
unfoldable pub proactor_start : (ℕ → Option ℕ) → Option ℕ → Server → Bool × Server
unfolding start_workers
proactor_start spawn dispatcher s =
    let (done, ts) = start_workers spawn 0 s.worker_threads in
    let s' = record s { worker_threads = ts } in
    if done
    then elim dispatcher [
      | none ↦ (false, s')
      | some id ↦ (true, record s' { dispatcher_thread = id })
    ]
    else (false, s')

-- `wait_thread_with_timeout`: the readings of the clock at the tests of its loop, with whether
-- `pthread_join` succeeds in that round. The flag stands for the result 0, that the thread has ended.
unfoldable pub wait_thread_with_timeout : ℕ → ℕ → List (ℕ × Bool) → Bool
wait_thread_with_timeout start timeout [] = false
wait_thread_with_timeout start timeout ((now, joined) ∷ rounds) =
    let rest = wait_thread_with_timeout start timeout rounds in
    if ltb now (start + timeout) then if joined then true else rest else false

-- For a thread of a number: the clock when the wait for it begins, and the rounds of the wait.
abbrev pub Clock : Type 0
Clock = ℕ → ℕ × List (ℕ × Bool)

-- The wait of two seconds in `proactor_stop`.
abbrev pub ends_in_time : Clock → ℕ → Bool
ends_in_time clock t = let (start, rounds) = clock t in wait_thread_with_timeout start 2 rounds

-- `proactor_stop` for a thread, which is cancelled and detached if it does not end; `ends` says whether
-- the wait for it succeeds.
unfoldable pub stop_thread : (ℕ → Bool) → ℕ → List Shutdown
stop_thread ends t = if t == 0 then [] else if ends t then joins t ∷ [] else cancels t ∷ []

unfoldable pub stop_workers : (ℕ → Bool) → List ℕ → List Shutdown
unfolding stop_thread
stop_workers ends [] = []
stop_workers ends (t ∷ ts) = stop_thread ends t ++ stop_workers ends ts

-- The heaps of contexts and handlers.
pub record Heaps : Type 0 where
  pub contexts : ℕ → Option Context
  pub handlers : ℕ → Option Handler

-- The loop of `cleanup_proactor_resources` over the array of connections, from descriptor `n` on. A
-- second free is a fault.
unfoldable pub clean_connections : ℕ → List (Option ℕ) → Heaps → Option (Heaps × List Shutdown)
clean_connections n [] h = some (h, [])
clean_connections n (none ∷ cs) h = clean_connections (suc n) cs h
clean_connections n (some q ∷ cs) h = elim (h.contexts q) [
  | none ↦ none
  | some c ↦ elim (free_handler h.handlers c.handler) [
    | none ↦ none
    | some handlers' ↦
        elim (clean_connections (suc n) cs
          (record { contexts = store h.contexts q none; handlers = handlers' })) [
            | none ↦ none
            | some (h', acts) ↦ some (h', closes (pos n) ∷ acts)
          ]
  ]
]

abbrev pub closed : ℤ → List Shutdown
closed fd = if is_negative fd then [] else closes fd ∷ []

abbrev pub forgotten : ℤ → ℤ
forgotten fd = if is_negative fd then fd else negsuc 0

-- The server as `cleanup_proactor_resources` leaves it. The array is gone.
abbrev pub cleaned : Server → Server
cleaned s = record {
  core = record s.core {
    epoll_fd = forgotten s.core.epoll_fd;
    exit_event_fd = forgotten s.core.exit_event_fd;
    connections = [];
  };
  listen_fd = forgotten s.listen_fd;
  aio_ctx = false;
  worker_threads = [];
  dispatcher_thread = s.dispatcher_thread;
}

-- What it gives back before the connections.
abbrev pub cleanup_first : Server → List Shutdown
cleanup_first s =
    closed s.core.epoll_fd
    ++ (closed s.core.exit_event_fd
        ++ (closed s.listen_fd ++ (if s.aio_ctx then destroys_aio ∷ [] else [])))

-- `cleanup_proactor_resources`, while both arrays are there, as they are until it runs.
unfoldable pub cleanup_proactor_resources : Heaps → Server → Option (Server × Heaps × List Shutdown)
unfolding clean_connections
cleanup_proactor_resources h s = elim (clean_connections 0 s.core.connections h) [
  | none ↦ none
  | some (h', acts) ↦
      some (cleaned s, h', cleanup_first s ++ (acts ++ (frees_connections ∷ frees_threads ∷ [])))
]

-- What a thread or a clean-up does before.
abbrev pub after :
    List Shutdown
    → Option (Server × Heaps × List Shutdown)
    → Option (Server × Heaps × List Shutdown)
after acts none = none
after acts (some (s, h, more)) = some (s, h, acts ++ more)

-- `proactor_stop`. The heaps are those that the threads leave when they have ended.
unfoldable pub proactor_stop : Clock → Heaps → Server → Option (Server × Heaps × List Shutdown)
unfolding wait_thread_with_timeout stop_workers stop_thread cleanup_proactor_resources
proactor_stop clock h s =
    if s.core.running
    then after
        (stop_thread (ends_in_time clock) s.dispatcher_thread
          ++ stop_workers (ends_in_time clock) s.worker_threads)
        (cleanup_proactor_resources h (record s { core = record s.core { running = false } }))
    else some (s, h, [])
