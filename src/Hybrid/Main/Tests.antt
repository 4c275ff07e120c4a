-- ===== src/Hybrid/Main/Tests.antt =====
-- main of the hybrid server at concrete inputs.
use hepeng_projects.Prelude.{
  ℕ, ◌≡◌, refl, true, false, List, [], ◌∷◌, ◌++◌, Option, none, some, pos,
}
use hepeng_projects.Prelude.Sockets.{
  SocketGrants, opens, reuses_address, unblocks, binds, listens, closes_socket,
}
use hepeng_projects.Hybrid.Connection.{Heap}
use hepeng_projects.Hybrid.Server.{create_server_socket, set_nonblock}
use hepeng_projects.Hybrid.Lifecycle.{
  Resource, Act, acquires, releases, MtServer, new_server, parse_arguments, worker_count,
  port_number, mt_proactor_init, mt_proactor_start, start_workers, start_worker, workers_of,
}
use hepeng_projects.Hybrid.Shutdown.{joined, threads}
use hepeng_projects.Hybrid.Main.{MainGrants, returns, no_connections, join_workers, main}
use hepeng_projects.Hybrid.Ending.{epolls, Ended, main-closes_unopened, main-Ended}

abbrev granted : SocketGrants
granted = record {
  socket = some 6;
  setsockopt = true;
  get_flags = true;
  set_flags = true;
  bind = true;
  listen = true;
}

-- No arguments, and a system that grants all.
abbrev plain : MainGrants
plain = record {
  workers = some (pos 1);
  port = none;
  memory = true;
  eventfd = some 5;
  sockets = granted;
  threads = record {
    io_setup = λ i. true;
    epoll_create = λ i. some 10;
    spawn = λ i. some 21;
    spawn_accept = some 33;
  };
}

abbrev port_taken : MainGrants
port_taken = record plain { sockets = record granted { bind = false } }

abbrev begun : List Act
begun = acquires Resource.worker_array ∷ acquires Resource.exit_event ∷ []

-- The threads end after a signal.
abbrev signalled : MtServer → Option (MtServer × Heap)
signalled s = some (record s { running = false }, no_connections)

main-closes_unopened_example :
    main port_taken signalled
    ≡ returns 1
        (begun
          ++ (epolls 0 1 ++ (releases Resource.exit_event ∷ releases Resource.worker_array ∷ [])))
        (opens 6 ∷ reuses_address 6 ∷ unblocks 6 ∷ closes_socket 6 ∷ [])
unfolding parse_arguments worker_count port_number mt_proactor_init create_server_socket
    set_nonblock
main-closes_unopened_example =
    main-closes_unopened port_taken signalled {s = new_server 1 5} refl refl refl

abbrev started : MtServer
started = record (new_server 1 5) {
  listen_fd = pos 6;
  workers = some ((start_workers plain.threads 0 (workers_of (new_server 1 5))).1);
  accept_thread = 33;
}

abbrev begun_threads : List Act
begun_threads =
    acquires (Resource.aio_context 0)
    ∷ acquires (Resource.epoll 0 (pos 10))
    ∷ acquires (Resource.worker_thread 0)
    ∷ acquires Resource.accept_thread
    ∷ []

main-Ended_example :
    (let joins : List Act = releases Resource.accept_thread ∷ join_workers 0 (workers_of started) in
      Ended
        (record started { running = false })
        no_connections
        (main plain signalled)
        ((begun ++ begun_threads) ++ joins)
        (opens 6 ∷ reuses_address 6 ∷ unblocks 6 ∷ binds 6 8080 ∷ listens 6 1024 ∷ [])
      × ((j : ℕ) → joined j joins ≡ threads j 0 (workers_of started)))
unfolding parse_arguments worker_count port_number mt_proactor_init create_server_socket
    set_nonblock mt_proactor_start start_workers start_worker
main-Ended_example =
    main-Ended plain signalled {s = new_server 1 5} {s' = started} {heap = no_connections} refl refl
      refl refl refl
