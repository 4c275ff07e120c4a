-- ===== src/Proactor/Main/Tests.antt =====
-- Starting and stopping the proactor server, at concrete inputs.
use hepeng_projects.Prelude.{true, false, List, [], ◌∷◌, none, some, ltb, if◌then◌else◌, pos}
use hepeng_projects.Prelude.Sockets.{SocketGrants}
use hepeng_projects.Proactor.Connection.{Proactor}
use hepeng_projects.Proactor.Creation.{new_proactor}
use hepeng_projects.Proactor.Lifecycle.{Clock, Server, Heaps}
use hepeng_projects.Proactor.Main.{MainGrants, main}
use hepeng_projects.Proactor.Ending.{Keeps, main-Keeps}
use hepeng_projects.Proactor.Tests.{one_guest}

abbrev serving : Server
serving = record {
  core = one_guest.proactor;
  listen_fd = pos 6;
  aio_ctx = true;
  worker_threads = 11 ∷ 12 ∷ [];
  dispatcher_thread = 13;
}

abbrev guest_heaps : Heaps
guest_heaps = record { contexts = one_guest.contexts; handlers = one_guest.handlers }

-- The threads with numbers below 12 end after a second, the others too late.
abbrev most_end : Clock
most_end t = (100, (100, false) ∷ (101, ltb t 12) ∷ (102, true) ∷ [])

abbrev all_granted : SocketGrants
all_granted = record {
  socket = some 6;
  setsockopt = true;
  get_flags = true;
  set_flags = true;
  bind = true;
  listen = true;
}

-- A system that starts only two threads.
abbrev two_threads : MainGrants
two_threads = record {
  init = record {
    io_setup = true;
    epoll_create = some 3;
    eventfd = some 4;
    calloc = true;
    malloc = true;
  };
  sockets = all_granted;
  memory = 0 ∷ 0 ∷ 77 ∷ 0 ∷ [];
  spawn = λ i. if ltb i 2 then some 11 else none;
  spawn_dispatcher = some 13;
  clock = most_end;
}

abbrev signalled : Server → List (Server × Heaps)
signalled s =
    (s, guest_heaps) ∷ (record s { core = record s.core { running = false } }, guest_heaps) ∷ []

main-Keeps_example : Keeps (main (record two_threads { spawn = λ i. some 11 }) signalled)
main-Keeps_example = main-Keeps (record two_threads { spawn = λ i. some 11 }) signalled

abbrev fresh : Proactor
fresh = new_proactor 4 10000 3 4

abbrev half_started : Server
half_started = record {
  core = fresh;
  listen_fd = pos 6;
  aio_ctx = true;
  worker_threads = 11 ∷ 11 ∷ 77 ∷ 0 ∷ [];
  dispatcher_thread = 0;
}
