-- ===== src/Reactor/Tests.antt =====
-- Concrete connections, threads and reactors: the laws at one input each, and runs of the code.
use hepeng_projects.Prelude.{
  ℕ, zero, suc, ◌≡◌, ◌≢◌, refl, sym, ap, subst, Bool, true, false, List, [], ◌∷◌, ◌++◌, Option,
  none, some, arith, take, replicate, length-take, ◌==◌, if◌then◌else◌, ℤ, pos,
}
use hepeng_projects.RingQueue.{init, pop_batch, pop_some}
use hepeng_projects.RingQueue.Window.{contents}
use hepeng_projects.Reactor.Connection.{
  Connection, reads, epoll_mod, Read, got, read_failed, again, Write, took, writable, zero_bytes,
  create, out_of_fuel, read_loop, read_fuel,
}
use hepeng_projects.Reactor.Echo.{AtMost, owed, bytes_read, bytes_written, length-zero_bytes}
use hepeng_projects.Reactor.ReadLoop.{read_loop-ends}
use hepeng_projects.Reactor.Session.{
  Event, can_read, can_write, session, session_echoes, create-IsValid,
}
use hepeng_projects.Reactor.Stuck.{burst-unanswered}
use hepeng_projects.Reactor.Thread.{World, Answers, process_new_connections_batch, add_batch}
use hepeng_projects.Reactor.Events
use hepeng_projects.Reactor.Events.{Sockets}
use hepeng_projects.Reactor.MainLoop.{Round, ready, thread_round}
use hepeng_projects.Reactor.Ownership.{alive, Owns}
use hepeng_projects.Reactor.Accepting.{
  taken, left, Accepted, process_new_connections_batch-Accepted,
}
use hepeng_projects.Reactor.Adding.{Allocates}
use hepeng_projects.Reactor.Sorting.{Reported}
use hepeng_projects.Reactor.Safety.{Lawful, thread_round-Owns}
use hepeng_projects.Reactor.Core.{free_places, raw_queue}
use hepeng_projects.Reactor.Lifecycle.{
  length-free_places, holds-free_places, distinct-free_places, count_live-free_places,
  new_queue-IsValid,
}

-- A socket that delivers two bytes and then nothing, and one that takes all.
abbrev two_bytes : ℕ → ℕ → Read
two_bytes zero n = got (take n (104 ∷ 105 ∷ []))
two_bytes (suc k) n = read_failed again

abbrev takes_all : ℕ → Write
takes_all n = took n

abbrev greeting : List Event
greeting = can_read two_bytes ∷ can_write takes_all ∷ []

two_bytes_lawful : (k n : ℕ) → AtMost (two_bytes k n) n
two_bytes_lawful zero n = omega (arith, length-take {A = ℕ} n (104 ∷ 105 ∷ []))
two_bytes_lawful (suc k) n = tt

session_echoes_example :
    let (c, calls) = session (create (pos 5) 0 9) greeting in
    bytes_read calls ≡ bytes_written calls ++ owed c
session_echoes_example =
    session_echoes (pos 5) 0 9 greeting (two_bytes_lawful, ((λ n. omega arith), tt))

read_loop-ends_example : (read_loop two_bytes read_fuel 0 (create (pos 5) 0 9)).2 ≢ out_of_fuel
unfolding create
read_loop-ends_example =
    read_loop-ends two_bytes read_fuel 0 two_bytes_lawful (create-IsValid (pos 5) 0 9) (omega arith)

burst-unanswered_example :
    (session (create (pos 5) 0 9) (can_read (λ k n. got zero_bytes) ∷ can_write takes_all ∷ [])).1
    ≡ reads (pos 5) zero_bytes ∷ epoll_mod (pos 5) writable ∷ []
burst-unanswered_example =
    burst-unanswered (pos 5) 0 9 (λ k n. got zero_bytes) zero_bytes length-zero_bytes refl
      (can_write takes_all ∷ [])

-- A thread with one connection, at address 7.
abbrev guest : Connection
guest = create (pos 5) 0 9

abbrev one_guest : World
one_guest = record {
  thread = record {
    id = 0;
    thread_id = 1;
    running = true;
    epoll_fd = pos 3;
    connections = some 7 ∷ free_places 99999;
    connection_count = 1;
    accept_queue = raw_queue;
    total_connections = 1;
    active_connections = 1;
    processed_events = 0;
    batch_processed = 0;
  };
  heap = λ p. if 7 == p then some guest else none;
  log = [];
}

one_guest-Owns : Owns one_guest
unfolding init
one_guest-Owns = record {
  sized = ap suc (length-free_places 99999);
  apart = ground (arith, holds-free_places 99999 7, distinct-free_places 99999);
  counted = ap suc (sym (count_live-free_places 99999));
  active = ap suc (sym (count_live-free_places 99999));
  owned = λ p. ground (arith, holds-free_places 99999 p);
  sound = λ p c e. ground (arith, create-IsValid (pos 5) 0 9);
  queue = new_queue-IsValid;
}

-- An allocator that knows of one address.
abbrev memory_at_9 : (ℕ → Option Connection) → Option ℕ
memory_at_9 heap = elim (heap 9) [ none ↦ some 9 | some c ↦ none ]

abbrev willing : Answers
willing = record { memory = memory_at_9; get_flags = true; set_flags = true; added = true; now = 9 }

willing-Allocates : Allocates willing
willing-Allocates heap p e = ground arith

abbrev stack : List ℤ
stack = replicate 64 (pos 0)

process_new_connections_batch-Accepted_example :
    (outcomes : List Bool) × Accepted one_guest
      (taken false (contents one_guest.thread.accept_queue))
      (left false (contents one_guest.thread.accept_queue))
      outcomes
      (process_new_connections_batch false stack (λ i. willing) one_guest)
process_new_connections_batch-Accepted_example =
    process_new_connections_batch-Accepted false stack (λ i. willing) refl (λ j. willing-Allocates)
      one_guest-Owns

-- A round in which the guest sends two bytes.
abbrev guest_sends : List Events.Event
guest_sends =
    record { now = 10; conn = some 7; err = false; hup = false; inp = true; out = false } ∷ []

abbrev one_round : Round
one_round = record {
  running = true;
  lost = true;
  stack = stack;
  answers = λ i. willing;
  waited = ready guest_sends;
  sockets = record { recv = λ p. two_bytes; send = λ p. takes_all };
  timer_now = 10;
}

guest_sends-Reported : (w : World) → alive w 7 ≡ true → Reported w guest_sends
guest_sends-Reported w here = ((λ p names. (live p names, tt)), refl, tt)
  where
    live : (p : ℕ) → some 7 ≡ some p → alive w p ≡ true
    live p names = let same : 7 ≡ p = cc in subst (λ q. alive w q ≡ true) same here

one_round-Lawful : Lawful one_round one_guest
unfolding process_new_connections_batch add_batch pop_batch pop_some
one_round-Lawful = record {
  stack = refl;
  allocates = λ j. willing-Allocates;
  sockets = record { reads = λ p. two_bytes_lawful; writes = λ p n. omega arith };
  events = λ es e.
      let same : guest_sends ≡ es = cc in
      subst (Reported waiting_now) same (guest_sends-Reported waiting_now refl);
}
  where
    waiting_now : World
    waiting_now = (process_new_connections_batch true stack (λ i. willing) one_guest).1

thread_round-Owns_example :
    (w : World) × (goes_on : Bool) × (thread_round one_round one_guest 100 ≡ some (w, goes_on))
    × Owns w
thread_round-Owns_example = thread_round-Owns one_round 100 one_guest-Owns one_round-Lawful
