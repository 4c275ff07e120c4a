-- ===== src/Hybrid/Tests.antt =====
-- Concrete workers and servers, on which the laws are used.
use hepeng_projects.Prelude.{
  ◌⊎◌, ℕ, ◌+◌, ◌≤◌, ◌<◌, ◌≡◌, refl, Bool, true, false, List, [], ◌∷◌, none, some, arith, take,
  length-replicate, length-take, ltb, ◌==◌, if◌then◌else◌, pos, ◌⊎◌, inl,
}
use hepeng_projects.Prelude.Kernel.{Errno, got, took, write_failed, accepted, connected}
use hepeng_projects.Hybrid.Connection.{
  mt_buffer_size, conn_active, MtConnection, WorkerContext, Heap, World, mt_zero_bytes,
  mt_remove_connection_safe,
}
use hepeng_projects.Hybrid.Events.{
  Kernel, Flags, mt_try_write, mt_try_read, mt_handle_aio_completion,
}
use hepeng_projects.Hybrid.Accept.{System, Arrival, accept_round}
use hepeng_projects.Hybrid.Lifecycle.{
  max_worker_threads, Act, MtServer, Grants, new_server, start_workers, mt_proactor_init,
  mt_proactor_start, mt_proactor_stop, parse_arguments, zeroed_worker,
}
use hepeng_projects.Hybrid.Ownership.{IsSound, Owns, Removed, mt_remove_connection_safe-Owns}
use hepeng_projects.Hybrid.Keeping.{pending, Lawful}
use hepeng_projects.Hybrid.Writing.{Writes, mt_try_write-Written}
use hepeng_projects.Hybrid.Answering.{NeverBroken, answer, Answers}
use hepeng_projects.Hybrid.Reading.{ReadOutcome, mt_try_read-answers}
use hepeng_projects.Hybrid.Safety.{mt_handle_aio_completion-answers}
use hepeng_projects.Hybrid.Worker.{Event, exit_event, no_connection, ready, handle_events}
use hepeng_projects.Hybrid.Rounds.{handle_events-Owns}
use hepeng_projects.Hybrid.Faults.{mt_try_read-faults, mt_handle_aio_completion-faults}
use hepeng_projects.Hybrid.Admission.{IsValid, Allocates, accept_round-IsValid}
use hepeng_projects.Hybrid.Shutdown.{Stopped, mt_proactor_stop-Stopped}
use hepeng_projects.Hybrid.Starting.{Abandoned, mt_proactor_start-Abandoned, parse_arguments_bounds}

-- A connection with three bytes to write.
abbrev guest : MtConnection
guest = record {
  fd = pos 5;
  state = conn_active;
  readable = true;
  writable = true;
  read_buf = mt_zero_bytes;
  write_buf = mt_zero_bytes;
  write_pending = 3;
  last_activity = 9;
  is_removing = false;
  worker_id = 0;
}

abbrev host : WorkerContext
host = record zeroed_worker {
  thread = 1;
  running = true;
  epoll_fd = pos 3;
  aio_ctx = true;
  connections = 7 ∷ [];
}

abbrev one_guest : World
one_guest = record { worker = host; heap = λ p. if 7 == p then some guest else none; log = [] }

guest-IsSound : IsSound guest
unfolding mt_zero_bytes
guest-IsSound = record {
  open_fd = refl;
  staying = refl;
  read_room = length-replicate {A = ℕ} mt_buffer_size 0;
  write_room = length-replicate {A = ℕ} mt_buffer_size 0;
  pending_in = omega arith;
}

one_guest-Owns : Owns one_guest
one_guest-Owns = record {
  apart = refl;
  owned = λ p. ground arith;
  sound = λ p c e. ground (arith, guest-IsSound);
}

-- A socket that gives two bytes and takes all.
abbrev willing : Kernel
willing = record {
  recv = λ n. got (take n (104 ∷ 105 ∷ []));
  send = λ n. took n;
  submit = accepted;
  read_time = 10;
  write_time = 10;
}

willing-Lawful : Lawful willing
willing-Lawful = ((λ n. omega (arith, length-take {A = ℕ} n (104 ∷ 105 ∷ []))), λ n. omega arith)

willing-NeverBroken : NeverBroken willing
willing-NeverBroken n e = cc

mt_remove_connection_safe-Owns_example :
    (w : World) × (mt_remove_connection_safe one_guest (some 7) ≡ some w)
    × Removed one_guest 7 guest w
mt_remove_connection_safe-Owns_example =
    mt_remove_connection_safe-Owns {w = one_guest} 7 {c = guest} one_guest-Owns refl refl

mt_try_write-Written_example :
    (w : World) × (mt_try_write willing one_guest 7 ≡ some w)
    × (((c : MtConnection) × Writes one_guest 7 guest c w)
        ⊎ ((willing.send 3 ≡ write_failed Errno.other) × Removed one_guest 7 guest w))
mt_try_write-Written_example =
    mt_try_write-Written willing {w = one_guest} 7 {c = guest} one_guest-Owns refl refl
      (omega arith)

mt_try_read-answers_example :
    (w : World) × (mt_try_read willing one_guest 7 ≡ some w)
    × ReadOutcome one_guest 7 guest (got (104 ∷ 105 ∷ [])) w
mt_try_read-answers_example =
    mt_try_read-answers willing willing-Lawful willing-NeverBroken {w = one_guest} 7 {c = guest}
      one_guest-Owns refl refl refl

abbrev both_ways : Flags
both_ways = record { gone = false; inp = true; out = true }

-- An event of the connection, and one of none.
abbrev both_events : List Event
both_events = no_connection ∷ ready 7 both_ways willing willing ∷ exit_event ∷ []

handle_events-Owns_example : (w : World) × (handle_events one_guest both_events ≡ some w) × Owns w
handle_events-Owns_example = handle_events-Owns both_events one_guest refl one_guest-Owns (
  (guest, refl, refl),
  willing-Lawful,
  willing-NeverBroken,
  (λ closes. closes),
  willing-Lawful,
  tt,
)

mt_handle_aio_completion-answers_example :
    ((12 < mt_buffer_size)
      × ((w : World) × (mt_handle_aio_completion willing one_guest (some 7) 12 true ≡ some w)
          × ((c : MtConnection) × Answers one_guest 7 guest c
                (if ltb (6 + 12) mt_buffer_size then answer guest 12 else pending guest)
                w)))
    ⊎ ((mt_buffer_size ≤ 12) × (mt_handle_aio_completion willing one_guest (some 7) 12 true ≡ none))
mt_handle_aio_completion-answers_example =
    mt_handle_aio_completion-answers willing one_guest 7 11 {c = guest} willing-Lawful
      willing-NeverBroken one_guest-Owns refl refl

-- A peer that has sent two bytes and is gone.
abbrev reset : Kernel
reset = record willing { send = λ n. write_failed Errno.other }

mt_try_read-faults_example : mt_try_read reset one_guest 7 ≡ none
mt_try_read-faults_example =
    mt_try_read-faults reset one_guest 7 {c = guest} one_guest-Owns refl refl 104 (105 ∷ []) refl
      refl refl (omega arith) refl

mt_handle_aio_completion-faults_example :
    (w : World) × (mt_remove_connection_safe one_guest (some 7) ≡ some w)
    × (mt_handle_aio_completion willing w (some 7) 12 true ≡ none)
mt_handle_aio_completion-faults_example =
    mt_handle_aio_completion-faults willing one_guest 7 {c = guest} 12 true one_guest-Owns refl refl

-- A client with descriptor 6.
abbrev client : Arrival
client = record {
  result = connected 6;
  graceful_shutdown = false;
  nonblock = true;
  memory = λ heap. elim (heap 8) [ none ↦ some 8 | some c ↦ none ];
  now = 10;
  added = true;
  kernel = willing;
}

client-Allocates : Allocates client
client-Allocates heap p e = ground arith

abbrev one_worker : System
one_worker = record {
  proactor = record {
    num_workers = 1;
    workers = host ∷ [];
    next_worker = 0;
    total_connections = 1;
  };
  heap = one_guest.heap;
  log = [];
}

one_worker-IsValid : IsValid one_worker
one_worker-IsValid = record {
  sized = refl;
  turn = omega arith;
  workers = (refl, one_guest-Owns, tt);
}

accept_round-IsValid_example :
    (b : Bool) × (s : System) × (accept_round client one_worker ≡ some (b, s)) × IsValid s
accept_round-IsValid_example =
    accept_round-IsValid client one_worker willing-Lawful client-Allocates refl one_worker-IsValid

abbrev server : MtServer
server = record (new_server 1 4) { workers = some (host ∷ []); accept_thread = 2 }

mt_proactor_stop-Stopped_example :
    (r : MtServer × Heap × List Act) × (mt_proactor_stop one_guest.heap server ≡ some r)
    × Stopped server (host ∷ []) one_guest.heap r
mt_proactor_stop-Stopped_example =
    mt_proactor_stop-Stopped server (host ∷ []) one_guest.heap refl refl (refl, one_guest-Owns, tt)

-- A system that starts one worker thread and no more.
abbrev one_thread : Grants
one_thread = record {
  io_setup = λ i. true;
  epoll_create = λ i. some (10 + i);
  spawn = λ i. if i == 0 then some 1 else none;
  spawn_accept = some 9;
}

mt_proactor_start-Abandoned_example :
    (r : Bool × MtServer × Heap × List Act) × (mt_proactor_start one_thread
        (λ p. none)
        (new_server 2 4)
      ≡ some r)
    × (r.0 ≡ false)
    × Abandoned one_thread (new_server 2 4) (λ p. none) r
unfolding start_workers
mt_proactor_start-Abandoned_example =
    mt_proactor_start-Abandoned one_thread (new_server 2 4) (λ p. none) (inl refl)

parse_arguments_bounds_example :
    (0 < 16)
    × (16 ≤ max_worker_threads)
    × (0 < 65535)
    × (65535 ≤ 65535)
    × ((fd : ℕ) → (mt_proactor_init true (some fd) (pos 16)).0 ≡ some (new_server 16 fd))
unfolding parse_arguments
parse_arguments_bounds_example =
    parse_arguments_bounds (some (pos 16)) (some (pos 65535)) 16 65535 refl
