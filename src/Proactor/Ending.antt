-- ===== src/Proactor/Ending.antt =====
-- What main of codes/network/proactor/async_server_proactor.c gives back when it ends.
use hepeng_projects.Prelude.{
  ℕ, ◌≡◌, refl, Bool, true, false, List, [], ◌∷◌, ◌++◌, Option, none, some, ℤ, pos, negsuc,
  Option-cases, Bool-cases, inl, inr,
}
use hepeng_projects.Prelude.Sockets.{SocketCall}
use hepeng_projects.Proactor.Connection.{Proactor}
use hepeng_projects.Proactor.Ownership.{Owns}
use hepeng_projects.Proactor.Creation.{
  Act, proactor_init, new_world, AllOrNothing, proactor_init-AllOrNothing,
}
use hepeng_projects.Proactor.Server.{port, create_server_socket}
use hepeng_projects.Proactor.Lifecycle.{
  Clock, Shutdown, closes, frees_connections, frees_threads, Server, Heaps, start_workers,
  proactor_start, proactor_stop,
}
use hepeng_projects.Proactor.Stopping.{ends_first, connected-empty, proactor_stop-Stopped}
use hepeng_projects.Proactor.Main.{
  worker_threads, max_connections, MainGrants, Outcome, returns, waits, faults, no_heaps,
  stop_at_end, wait_for_end, after_start, after_listen, initial, after_init, main,
}

-- A running server without connections.
record Fresh (s : Server) : Type 0 where
  pub runs : s.core.running ≡ true
  pub owns : Owns (new_world s.core)

-- What stopping it gives back.
abbrev given_back : Clock → Server → List Shutdown
given_back clock s = ends_first clock s (frees_connections ∷ frees_threads ∷ [])

stop_at_end-Fresh :
    (clock : Clock) (code : ℤ) (inits : List Act) (calls : List SocketCall) (acts : List Shutdown)
    {s : Server}
    → Fresh s
    → stop_at_end clock code inits calls acts no_heaps s
      ≡ returns code inits calls (acts ++ given_back clock s)
unfolding stop_at_end
stop_at_end-Fresh clock code inits calls acts {s} f =
    let (s', h', more, stops, r) =
      proactor_stop-Stopped clock {h = no_heaps} {s = s} f.runs f.owns in
    let empty =
      connected-empty 0 s.core.connections
        (λ i q e. let (c, here, _, _) = f.owns.live i q e in absurd (cc here)) in
    rw (stops, stop_at_end, r.logged, empty) refl

-- How main may end: it frees nothing twice, and with the result 0 it has given nothing back.
abbrev pub Keeps : Outcome → Type 0
Keeps (returns (pos n) inits calls acts) = acts ≡ []
Keeps (returns (negsuc n) inits calls acts) = Unit
Keeps waits = Unit
Keeps faults = ⊥

wait_for_end-Keeps :
    (clock : Clock) (inits : List Act) (calls : List SocketCall) (tests : List (Server × Heaps))
    → Keeps (wait_for_end clock inits calls tests)
unfolding wait_for_end stop_at_end proactor_stop
wait_for_end-Keeps clock inits calls [] = tt
wait_for_end-Keeps clock inits calls ((s, h) ∷ tests) = elim (Bool-cases s.core.running) [
  | inl e ↦ rw (e, wait_for_end) (wait_for_end-Keeps clock inits calls tests)
  | inr e ↦ rw (e, wait_for_end, stop_at_end, proactor_stop) refl
]

-- `proactor_start` leaves the server without connections.
proactor_start-Fresh :
    (spawn : ℕ → Option ℕ) (dispatcher : Option ℕ) {s : Server}
    → Fresh s
    → Fresh (proactor_start spawn dispatcher s).1
unfolding proactor_start
proactor_start-Fresh spawn dispatcher {s} f =
    elim (Bool-cases (start_workers spawn 0 s.worker_threads).0) [
      | inr e ↦ rw (e, proactor_start) record { runs = f.runs; owns = f.owns }
      | inl e ↦ elim (Option-cases dispatcher) [
        | inl k ↦ rw (e, k, proactor_start) record { runs = f.runs; owns = f.owns }
        | inr (id, k) ↦ rw (e, k, proactor_start) record { runs = f.runs; owns = f.owns }
      ]
    ]

after_start-Keeps :
    (g : MainGrants) (seen : Server → List (Server × Heaps)) (inits : List Act)
    (calls : List SocketCall) (r : Bool × Server)
    → Fresh r.1
    → Keeps (after_start g seen inits calls r)
unfolding after_start
after_start-Keeps g seen inits calls (true, s) f = wait_for_end-Keeps g.clock inits calls (seen s)
after_start-Keeps g seen inits calls (false, s) f =
    rw (stop_at_end-Fresh g.clock (negsuc 0) inits calls (closes s.listen_fd ∷ []) f) tt

after_listen-Keeps :
    (g : MainGrants) (seen : Server → List (Server × Heaps)) (inits : List Act) {s : Server}
    (r : Option ℕ × List SocketCall)
    → Fresh s
    → Keeps (after_listen g seen inits s r)
unfolding after_listen
after_listen-Keeps g seen inits {s} (none, calls) f =
    rw
      (stop_at_end-Fresh g.clock (negsuc 0) inits calls [] {s = record s { listen_fd = negsuc 0 }}
        record { runs = f.runs; owns = f.owns })
      tt
after_listen-Keeps g seen inits {s} (some fd, calls) f =
    after_start-Keeps g seen inits calls _
      (proactor_start-Fresh g.spawn g.spawn_dispatcher record { runs = f.runs; owns = f.owns })

after_init-Keeps :
    (g : MainGrants) (seen : Server → List (Server × Heaps)) (r : Option Proactor × List Act)
    → AllOrNothing r
    → Keeps (after_init g seen r)
unfolding after_init
after_init-Keeps g seen (none, inits) a = tt
after_init-Keeps g seen (some p, inits) (runs, owns, _) =
    after_listen-Keeps g seen inits {s = initial g p} (create_server_socket g.sockets port)
      record { runs = runs; owns = owns }

-- main, whatever the system grants and whatever becomes of the server: it never frees twice; and when
-- it ends with the result 0, its call of `proactor_stop` has joined no thread, closed no descriptor and
-- freed nothing, since its loop ends only with `running` cleared.
pub main-Keeps : (g : MainGrants) (seen : Server → List (Server × Heaps)) → Keeps (main g seen)
unfolding main
main-Keeps g seen =
    after_init-Keeps g seen (proactor_init g.init worker_threads max_connections)
      (proactor_init-AllOrNothing g.init worker_threads max_connections)

-- The server that the failure leaves.
abbrev partial : MainGrants → Proactor → ℕ → Server
partial g p fd = record (initial g p) {
  listen_fd = pos fd;
  worker_threads = (start_workers g.spawn 0 g.memory).1;
}
