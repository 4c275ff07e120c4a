-- ===== src/Reactor/MainLoop.antt =====
-- `reactor_thread_main` of codes/network/reactor/reactor.c: a round of its loop, and the loop.
use hepeng_projects.Prelude.{
  ℕ, ◌%◌, Bool, true, false, List, [], ◌∷◌, Option, some, length, ◌==◌, if◌then◌else◌, add32, add64,
  ℤ,
}
use hepeng_projects.Reactor.Table.{max_connections}
use hepeng_projects.Reactor.Thread.{World, Answers, process_new_connections_batch}
use hepeng_projects.Reactor.Events.{
  ◌>>=◌, Sockets, Event, classify, handle_read_events, handle_write_events, sweep,
}

-- What `epoll_wait` gives: events, EINTR, or another error.
pub data Waited : Type 0 where
  ready : List Event → Waited
  interrupted failed : Waited

-- What a round meets: the value of `running` that its test reads, how the exchange in the queue goes,
-- what the array of descriptors holds, the answers of the system, and the time of the timer.
pub record Round : Type 0 where
  pub running : Bool
  pub lost : Bool
  pub stack : List ℤ
  pub answers : ℕ → Answers
  pub waited : Waited
  pub sockets : Sockets
  pub timer_now : ℕ

-- `processed_events` counts the events of a round that has any.
abbrev pub count_events : World → ℕ → World
count_events w n = if n == 0 then w else record w {
  thread = record w.thread { processed_events = add64 w.thread.processed_events n };
}

-- The steps 3 to 6 of a round.
unfoldable pub handle_events : Round → World → ℕ → List Event → Option World
handle_events r w loop_count es = do
  sorted ← classify (count_events w (length es)) es
  w1 ← handle_read_events r.sockets sorted.state sorted.read_conns
  w2 ← handle_write_events r.sockets w1 sorted.write_conns
  if (loop_count % 100) == 0 then sweep r.timer_now w2 0 max_connections else some w2

-- After the wait; the flag says that the loop goes on.
unfoldable pub after_wait : Round → World → ℕ → Waited → Option (World × Bool)
after_wait r w loop_count interrupted = some (w, true)
after_wait r w loop_count failed = some (w, false)
after_wait r w loop_count (ready es) = handle_events r w loop_count es >>= λ w'. some (w', true)

-- A round of the loop, behind its test; `loop_count` is counted up already.
unfoldable pub thread_round : Round → World → ℕ → Option (World × Bool)
unfolding after_wait
thread_round r w loop_count =
    let (n, w') = process_new_connections_batch r.lost r.stack r.answers w in
    after_wait r w' loop_count r.waited

-- The loop over the rounds that it meets.
unfoldable pub thread_loop : World → ℕ → List Round → Option World
thread_loop w loop_count [] = some w
thread_loop w loop_count (r ∷ rs) = elim r.running [
  | false ↦ some w
  | true ↦ thread_round r w (add32 loop_count 1) >>= λ (w', goes_on).
      if goes_on then thread_loop w' (add32 loop_count 1) rs else some w'
]

-- `running` is set before the first test.
unfoldable pub reactor_thread_main : World → List Round → Option World
unfolding thread_loop
reactor_thread_main w rs =
    thread_loop (record w { thread = record w.thread { running = true } }) 0 rs
