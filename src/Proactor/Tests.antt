-- ===== src/Proactor/Tests.antt =====
-- A proactor with one connection, on which the laws are used.
use hepeng_projects.Prelude.{
  ℕ, zero, suc, ◌+◌, ◌-◌, ◌^◌, ◌≤◌, ◌<◌, ◌≡◌, refl, subst, true, false, List, [], ◌∷◌, none, some,
  arith, length-replicate, get_or, ◌==◌, if◌then◌else◌, pos, ◌⊎◌,
}
use hepeng_projects.Proactor.Creation.{
  Grants, AllOrNothing, proactor_init, proactor_init-AllOrNothing,
}
use hepeng_projects.Proactor.Order.{submit_all, rounds, rounds-submit_all}
use hepeng_projects.Proactor.Connection.{
  epoll_del, remove_connection, release, closes, op_write, write_buf, accepted, op_read, Handler,
  read_buf, Operation, Context, World, buffer_size, zero_bytes,
}
use hepeng_projects.Proactor.Completion.{
  Answers, next_read, handle_read_completion, setup_new_connection, complete,
}
use hepeng_projects.Prelude.Kernel.{connected}
use hepeng_projects.Proactor.Dispatcher.{Arrival, EpollEvent, dispatch_events}
use hepeng_projects.Proactor.Dispatching.{dispatch_events-Owns}
use hepeng_projects.Proactor.Ownership.{Owns, Live}
use hepeng_projects.Proactor.Safety.{HandlerLives, complete-Owns}
use hepeng_projects.Proactor.Setup.{Allocates, Settled, setup_new_connection-Owns}
use hepeng_projects.Proactor.Stale.{stale-faults}
use hepeng_projects.Proactor.Echo.{Served, Answered, handle_read_completion-answers}

abbrev guest : Context
guest = record {
  fd = pos 1;
  read_buf = zero_bytes;
  write_buf = zero_bytes;
  handler = some 7;
  proactor = true;
}

abbrev callbacks : Handler
callbacks = record {
  handle_read = true;
  handle_write = true;
  handle_error = true;
  user_data = some 5;
}

abbrev pub one_guest : World
one_guest = record {
  proactor = record {
    epoll_fd = pos 3;
    running = true;
    exit_event_fd = pos 4;
    thread_count = 4;
    pending_ops = [];
    connections = none ∷ some 5 ∷ [];
    max_connections = 2;
  };
  contexts = λ p. if 5 == p then some guest else none;
  handlers = λ p. if 7 == p then some callbacks else none;
  log = [];
}

pub one_guest-Owns : Owns one_guest
one_guest-Owns = record { sized = refl; live = live }
  where
    live : (n q : ℕ) → get_or one_guest.proactor.connections n none ≡ some q → Live one_guest n q
    live zero q e = cc
    live (suc zero) q e =
        let same : 5 ≡ q = cc in
        subst (λ x. Live one_guest 1 x) same (guest, refl, refl, (callbacks, refl, refl))
    live (suc (suc n)) q e = cc

abbrev willing : Answers
willing = record {
  context = λ heap. elim (heap 6) [ none ↦ some 6 | some c ↦ none ];
  handler = λ heap. elim (heap 8) [ none ↦ some 8 | some d ↦ none ];
  operation = true;
}

willing-Allocates : Allocates willing
willing-Allocates = record {
  context = λ heap q e. ground arith;
  handler = λ heap h e. ground arith;
}

setup_new_connection-Owns_example :
    (w : World) × (setup_new_connection willing one_guest (pos 0) ≡ some w)
    × Owns w
    × Settled one_guest (pos 0) w
setup_new_connection-Owns_example =
    setup_new_connection-Owns willing (pos 0) willing-Allocates one_guest-Owns

abbrev pub guest_read : Operation
guest_read = record {
  type = op_read;
  fd = pos 1;
  handler = some 7;
  buffer = read_buf 5;
  size = 4095;
  offset = 0;
}

complete-Owns_example :
    (w : World) × (complete willing one_guest (some guest_read) (2 ^ 64 - 11) ≡ some w) × Owns w
complete-Owns_example =
    complete-Owns willing guest_read (2 ^ 64 - 11) one_guest-Owns guest_read-HandlerLives
  where
    guest_read-HandlerLives : HandlerLives one_guest guest_read
    guest_read-HandlerLives h e =
        let same : 7 ≡ h = cc in
        subst (λ x. (d : Handler) × (one_guest.handlers x ≡ some d)) same (callbacks, refl)

-- An operation of a connection that had the descriptor before.
abbrev without_guest : World
without_guest = record {
  proactor = record one_guest.proactor { connections = none ∷ none ∷ [] };
  contexts = λ p. if 5 == p then none else if 5 == p then some guest else none;
  handlers = λ p. if 7 == p then none else if 7 == p then some callbacks else none;
  log = epoll_del (pos 1) ∷ closes (pos 1) ∷ [];
}

stale-faults_example :
    (w : World) × (setup_new_connection willing without_guest (pos 1) ≡ some w)
    × (complete willing w (some guest_read) 12 ≡ none)
unfolding remove_connection release
stale-faults_example =
    stale-faults willing {w = one_guest} {w1 = without_guest} guest_read 12 1 5 7 6 8 guest
      one_guest-Owns (omega arith) refl refl refl refl refl refl refl refl (omega arith)

guest-Served : Served one_guest 1 5 guest
unfolding zero_bytes
guest-Served = record {
  small = omega arith;
  here = refl;
  at = refl;
  attached = refl;
  read_room = length-replicate {A = ℕ} 4096 0;
  write_room = length-replicate {A = ℕ} 4096 0;
}

handle_read_completion-answers_example :
    (w : World) × (handle_read_completion willing one_guest (pos 1) (some 5) (pos 12) ≡ some w)
    × (((6 + 12 < buffer_size) × Answered one_guest 1 5 guest 12 w)
        ⊎ ((buffer_size ≤ 6 + 12) × (w.proactor.pending_ops ≡ next_read 5 guest ∷ [])))
handle_read_completion-answers_example =
    handle_read_completion-answers willing 1 5 11 guest-Served refl (omega arith)

abbrev guest_write : Operation
guest_write = record {
  type = op_write;
  fd = pos 1;
  handler = some 7;
  buffer = write_buf 5;
  size = 18;
  offset = 0;
}

rounds-submit_all_example :
    rounds (λ op. accepted) 2 (submit_all one_guest (guest_read ∷ guest_write ∷ []))
    ≡ (one_guest, guest_write ∷ guest_read ∷ [])
rounds-submit_all_example =
    rounds-submit_all (λ op. accepted) one_guest (guest_read ∷ guest_write ∷ [])
      (refl, refl, (refl, refl, tt))

-- The system gives all but the memory for the threads.
abbrev stingy : Grants
stingy = record {
  io_setup = true;
  epoll_create = some 3;
  eventfd = some 4;
  calloc = true;
  malloc = false;
}

proactor_init-AllOrNothing_example : AllOrNothing (proactor_init stingy 4 10000)
proactor_init-AllOrNothing_example = proactor_init-AllOrNothing stingy 4 10000

-- A client with descriptor 0, for which there is room.
abbrev client : Arrival
client = record { result = connected 0; nonblock = true; memory = willing; added = true }

-- An error of the connection, and then a client.
abbrev busy_events : List EpollEvent
busy_events =
    record { fd = pos 1; err = true; hup = false; arrival = client }
    ∷ record { fd = pos 9; err = false; hup = false; arrival = client }
    ∷ []

dispatch_events-Owns_example :
    (w : World) × (dispatch_events (pos 9) one_guest busy_events ≡ some w) × Owns w
dispatch_events-Owns_example =
    dispatch_events-Owns (pos 9) busy_events one_guest (willing-Allocates, (willing-Allocates, tt))
      one_guest-Owns
