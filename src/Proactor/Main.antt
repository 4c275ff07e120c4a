-- ===== src/Proactor/Main.antt =====
-- main and `signal_handler` of codes/network/proactor/async_server_proactor.c. `signal_handler` only
-- clears `running`. What the calls give back is written to logs, as in `proactor_init`,
-- `create_server_socket` and `proactor_stop`.
mod Tests
use hepeng_projects.Prelude.{
  ℕ, Bool, true, false, List, [], ◌∷◌, ◌++◌, Option, none, some, if◌then◌else◌, ℤ, pos, negsuc,
}
use hepeng_projects.Prelude.Sockets.{SocketGrants, SocketCall}
use hepeng_projects.Proactor.Connection.{Proactor}
use hepeng_projects.Proactor.Creation.{Grants, Act, proactor_init}
use hepeng_projects.Proactor.Server.{port, create_server_socket}
use hepeng_projects.Proactor.Lifecycle.{
  Clock, ends_in_time, Shutdown, closes, Server, Heaps, proactor_start, proactor_stop,
}

abbrev pub worker_threads : ℕ
worker_threads = 4

abbrev pub max_connections : ℕ
max_connections = 10000

-- What main gets: `memory` is what `malloc` leaves in the array of threads, `spawn` and
-- `spawn_dispatcher` what `pthread_create` gives, and `clock` what `proactor_stop` sees of the time.
pub record MainGrants : Type 0 where
  pub init : Grants
  pub sockets : SocketGrants
  pub memory : List ℕ
  pub spawn : ℕ → Option ℕ
  pub spawn_dispatcher : Option ℕ
  pub clock : Clock

-- The result of main with the three logs; `waits` says that it still waits, `faults` that it frees
-- something twice.
pub data Outcome : Type 0 where
  returns : ℤ → List Act → List SocketCall → List Shutdown → Outcome
  waits faults : Outcome

unfoldable pub signal_handler : Server → Server
signal_handler s = record s { core = record s.core { running = false } }

-- No connection is there before the dispatcher runs.
abbrev pub no_heaps : Heaps
no_heaps = record { contexts = λ q. none; handlers = λ k. none }

-- main from a last call of `proactor_stop` on.
unfoldable pub stop_at_end :
    Clock → ℤ → List Act → List SocketCall → List Shutdown → Heaps → Server → Outcome
unfolding proactor_stop
stop_at_end clock code inits calls acts h s = elim (proactor_stop clock h s) [
  | none ↦ faults
  | some (s', h', more) ↦ returns code inits calls (acts ++ more)
]

-- The loop of main and what follows: the server and the heaps at each test of `running`.
unfoldable pub wait_for_end : Clock → List Act → List SocketCall → List (Server × Heaps) → Outcome
unfolding stop_at_end
wait_for_end clock inits calls [] = waits
wait_for_end clock inits calls ((s, h) ∷ tests) =
    let rest = wait_for_end clock inits calls tests in
    if s.core.running then rest else stop_at_end clock (pos 0) inits calls [] h s

-- main after `proactor_start`; `seen` is what becomes of the server.
unfoldable pub after_start :
    MainGrants
    → (Server → List (Server × Heaps))
    → List Act
    → List SocketCall
    → Bool × Server
    → Outcome
unfolding stop_at_end wait_for_end
after_start g seen inits calls (false, s) =
    stop_at_end g.clock (negsuc 0) inits calls (closes s.listen_fd ∷ []) no_heaps s
after_start g seen inits calls (true, s) = wait_for_end g.clock inits calls (seen s)

-- main after `create_server_socket`.
unfoldable pub after_listen :
    MainGrants
    → (Server → List (Server × Heaps))
    → List Act
    → Server
    → Option ℕ × List SocketCall
    → Outcome
unfolding stop_at_end after_start proactor_start
after_listen g seen inits s (none, calls) =
    stop_at_end g.clock (negsuc 0) inits calls [] no_heaps (record s { listen_fd = negsuc 0 })
after_listen g seen inits s (some fd, calls) =
    after_start g seen inits calls
      (proactor_start g.spawn g.spawn_dispatcher (record s { listen_fd = pos fd }))

-- The server that `proactor_init` leaves: its memory is cleared first, but for the array of threads.
abbrev pub initial : MainGrants → Proactor → Server
initial g p = record {
  core = p;
  listen_fd = pos 0;
  aio_ctx = true;
  worker_threads = g.memory;
  dispatcher_thread = 0;
}

unfoldable pub after_init :
    MainGrants → (Server → List (Server × Heaps)) → Option Proactor × List Act → Outcome
unfolding after_listen create_server_socket
after_init g seen (none, inits) = returns (negsuc 0) inits [] []
after_init g seen (some p, inits) =
    after_listen g seen inits (initial g p) (create_server_socket g.sockets port)

unfoldable pub main : MainGrants → (Server → List (Server × Heaps)) → Outcome
unfolding after_init proactor_init
main g seen = after_init g seen (proactor_init g.init worker_threads max_connections)
