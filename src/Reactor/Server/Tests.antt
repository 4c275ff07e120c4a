-- ===== src/Reactor/Server/Tests.antt =====
-- The reactor server at concrete inputs.
use hepeng_projects.Prelude.{
  ℕ, refl, true, false, List, [], ◌∷◌, Option, none, some, arith, pos, if◌then◌else◌,
}
use hepeng_projects.Prelude.Kernel.{connected, accept_failed, again}
use hepeng_projects.Reactor.Core.{Reactor, new_thread}
use hepeng_projects.Reactor.Lifecycle.{new_queue-IsValid}
use hepeng_projects.Reactor.Distribution.{waiting, IsReady}
use hepeng_projects.Reactor.Server.{Arrival, MainGrants, Heap, accept_loop}
use hepeng_projects.Reactor.Serving.{Deals, accept_loop-Deals}
use hepeng_projects.Reactor.Connection.{Connection, create}
use hepeng_projects.Reactor.Table.{Table, has_room, insert}
use hepeng_projects.Reactor.Thread.{Thread}
use hepeng_projects.Reactor.Destruction.{holds_any}

abbrev pair_of_threads : Reactor
pair_of_threads = record {
  threads = new_thread 0 (pos 10) ∷ new_thread 1 (pos 11) ∷ [];
  thread_count = 2;
  running = true;
  next_thread = 3;
}

pair-IsReady : IsReady pair_of_threads
unfolding new_thread
pair-IsReady = record {
  queues = (new_queue-IsValid, (new_queue-IsValid, tt));
  threads = refl;
  some_thread = omega arith;
  runs = refl;
}

abbrev quiet_round : Arrival
quiet_round = record {
  stopped = false;
  stopped_meanwhile = false;
  result = accept_failed again;
  spurious = 0;
}

-- Two clients, one of them after an empty round, and then a stop.
abbrev two_clients : List Arrival
two_clients =
    record quiet_round { result = connected 6; spurious = 1 }
    ∷ quiet_round
    ∷ record quiet_round { result = connected 7 }
    ∷ record quiet_round { stopped = true }
    ∷ []

accept_loop-Deals_example :
    Deals 2 3
      (waiting pair_of_threads.threads)
      two_clients
      (accept_loop pair_of_threads two_clients)
accept_loop-Deals_example = accept_loop-Deals two_clients pair-IsReady

abbrev number : ℕ → Option ℕ
number i = some 21

abbrev two_cores : MainGrants
two_cores = record {
  cpu_cores = pos 2;
  memory = true;
  epoll = λ i. some (pos 10);
  spawn = number;
  spawn_accept = some 33;
}

abbrev client : Connection
client = create (pos 5) 0 9

-- A client whose connection lies at 40 comes to the first thread, if its table has room.
abbrev seat : List Thread → List Thread
seat [] = []
seat (t ∷ ts) =
    (if has_room t.connections then record t { connections = insert t.connections 40 } else t) ∷ ts

abbrev guests : List Thread → Heap
guests ts p = if holds_any ts p then some client else none

abbrev serve_one : Reactor → Reactor × Heap
serve_one r = (record r { threads = seat r.threads }, guests (seat r.threads))
