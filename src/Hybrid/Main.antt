-- ===== src/Hybrid/Main.antt =====
-- main and `signal_handler` of codes/network/proactor_epoll/efficient_hybrid_server.c. What main
-- acquires and gives back is written to a log, as in `mt_proactor_init`, `mt_proactor_start` and
-- `mt_proactor_stop`.
mod Tests
use hepeng_projects.Prelude.{
  ℕ, ◌+◌, Bool, true, false, not, List, [], ◌∷◌, ◌++◌, Option, none, some, ◌==◌, if◌then◌else◌, ℤ,
  pos, negsuc, is_negative,
}
use hepeng_projects.Prelude.Sockets.{SocketGrants, SocketCall}
use hepeng_projects.Hybrid.Connection.{WorkerContext, Heap}
use hepeng_projects.Hybrid.Server.{create_server_socket}
use hepeng_projects.Hybrid.Lifecycle.{
  accept_thread, worker_thread, descriptor, Act, releases, MtServer, Grants, when, workers_of,
  mt_proactor_init, mt_proactor_start, mt_proactor_stop, parse_arguments,
}

-- `signal_handler`: `graceful_shutdown`, the server, and how often the exit event has been written.
unfoldable pub signal_handler : Bool × MtServer × ℕ → Bool × MtServer × ℕ
signal_handler (true, s, n) = (true, s, n)
signal_handler (false, s, n) =
    (true, record s { running = false }, if is_negative s.exit_event_fd then n else n + 1)

-- The arguments of the command line, whether `calloc` succeeds, and what the calls give.
pub record MainGrants : Type 0 where
  pub workers : Option ℤ
  pub port : Option ℤ
  pub memory : Bool
  pub eventfd : Option ℕ
  pub sockets : SocketGrants
  pub threads : Grants

-- The result of main with its logs; `waits` says that a thread never ends, `faults` that freed memory
-- is used.
pub data Outcome : Type 0 where
  returns : ℕ → List Act → List SocketCall → Outcome
  waits faults : Outcome

abbrev pub no_connections : Heap
no_connections p = none

-- The loop of main that joins the worker threads, from number `i` on.
unfoldable pub join_workers : ℕ → List WorkerContext → List Act
join_workers i [] = []
join_workers i (t ∷ ts) =
    when (not (t.thread == 0)) (releases (worker_thread i)) ++ join_workers (i + 1) ts

-- main from a last call of `mt_proactor_stop` on.
unfoldable pub stop_at_end : ℕ → List Act → List SocketCall → Heap → MtServer → Outcome
unfolding mt_proactor_stop
stop_at_end code acts calls heap s = elim (mt_proactor_stop heap s) [
  | none ↦ faults
  | some (s', heap', more) ↦ returns code (acts ++ more) calls
]

-- main once all threads are started; `life` is the server and the heap when they have ended.
unfoldable pub wait_for_threads : List Act → List SocketCall → Option (MtServer × Heap) → Outcome
unfolding stop_at_end join_workers
wait_for_threads acts calls none = waits
wait_for_threads acts calls (some (s, heap)) =
    stop_at_end 0 (acts ++ (releases accept_thread ∷ join_workers 0 (workers_of s))) calls heap s

-- main after `mt_proactor_start`.
unfoldable pub after_start :
    (MtServer → Option (MtServer × Heap))
    → List Act
    → List SocketCall
    → Option (Bool × MtServer × Heap × List Act)
    → Outcome
unfolding stop_at_end wait_for_threads
after_start life inits calls none = faults
after_start life inits calls (some (false, s, heap, acts)) =
    stop_at_end 1 (inits ++ (acts ++ (releases (descriptor s.listen_fd) ∷ []))) calls heap s
after_start life inits calls (some (true, s, heap, acts)) =
    wait_for_threads (inits ++ acts) calls (life s)

-- main after `create_server_socket`.
unfoldable pub after_listen :
    MainGrants
    → (MtServer → Option (MtServer × Heap))
    → List Act
    → MtServer
    → Option ℕ × List SocketCall
    → Outcome
unfolding stop_at_end after_start mt_proactor_start
after_listen g life inits s (none, calls) =
    stop_at_end 1 inits calls no_connections (record s { listen_fd = negsuc 0 })
after_listen g life inits s (some fd, calls) =
    after_start life inits calls
      (mt_proactor_start g.threads no_connections (record s { listen_fd = pos fd }))

unfoldable pub after_init :
    MainGrants → (MtServer → Option (MtServer × Heap)) → ℕ → Option MtServer × List Act → Outcome
unfolding after_listen create_server_socket
after_init g life port (none, inits) = returns 1 inits []
after_init g life port (some s, inits) =
    after_listen g life inits s (create_server_socket g.sockets port)

unfoldable pub main : MainGrants → (MtServer → Option (MtServer × Heap)) → Outcome
unfolding after_init mt_proactor_init parse_arguments
main g life = elim (parse_arguments g.workers g.port) [
  | none ↦ returns 1 [] []
  | some (n, port) ↦ after_init g life port (mt_proactor_init g.memory g.eventfd (pos n))
]
