-- ===== src/Reactor/Thread.antt =====
-- `reactor_thread_t` of codes/network/reactor/reactor.h and the functions of reactor.c that one
-- reactor thread runs on it: closing and adding connections, the events, a round of the main loop.
-- Connections lie on a heap, since the table and the events hold pointers to them. A function that
-- reads through a pointer to no connection gives `none`: that is a use after free. The log holds the
-- system calls that take effect, oldest first. Answers of the system are arguments.
use hepeng_projects.Prelude.{
  ℕ, suc, ◌+◌, Bool, true, false, List, [], ◌∷◌, ◌++◌, Option, none, some, take, ltb, ◌==◌,
  if◌then◌else◌, add32, sub32, add64, sub64, ℤ,
}
use hepeng_projects.RingQueue.{RingQueue, pop_batch}
use hepeng_projects.Reactor.Connection.{Connection, Call, epoll_add, epoll_del, closes, create}
use hepeng_projects.Reactor.Table.{Table, has_room, insert, forget}

-- `thread_id` is 0 until a thread has been started.
pub record Thread : Type 0 where
  pub id : ℕ
  pub thread_id : ℕ
  pub running : Bool
  pub epoll_fd : ℤ
  pub connections : Table
  pub connection_count : ℕ
  pub accept_queue : RingQueue
  pub total_connections : ℕ
  pub active_connections : ℕ
  pub processed_events : ℕ
  pub batch_processed : ℕ

pub record World : Type 0 where
  pub thread : Thread
  pub heap : ℕ → Option Connection
  pub log : List Call

abbrev pub update : (ℕ → Option Connection) → ℕ → Option Connection → ℕ → Option Connection
update heap p c q = if p == q then c else heap q

abbrev pub with_log : World → List Call → World
with_log w calls = record w { log = w.log ++ calls }

-- The part of `handle_close_event` that clears the table.
unfoldable pub remove_entry : Thread → ℕ → Thread
remove_entry t p =
    let (table, found) = forget t.connections p in
    if found
    then record t {
      connections = table;
      connection_count = sub32 t.connection_count 1;
      active_connections = sub64 t.active_connections 1;
    }
    else t

unfoldable pub handle_close_event : World → Option ℕ → Option World
unfolding remove_entry
handle_close_event w none = some w
handle_close_event w (some p) = elim (w.heap p) [
  | none ↦ none
  | some c ↦ some (record {
    thread = remove_entry w.thread p;
    heap = update w.heap p none;
    log = w.log ++ (epoll_del c.fd ∷ closes c.fd ∷ []);
  })
]

-- What the system answers while a connection is added: `calloc`, which may
-- depend on what is in use, the two calls of `fcntl`, `epoll_ctl` with ADD, and the clock.
pub record Answers : Type 0 where
  pub memory : (ℕ → Option Connection) → Option ℕ
  pub get_flags : Bool
  pub set_flags : Bool
  pub added : Bool
  pub now : ℕ

-- `set_nonblocking`: the flags are set only if they could be read.
unfoldable pub set_nonblocking : Answers → Bool
set_nonblocking a = if a.get_flags then a.set_flags else false

-- `thread_add_connection` from the allocation on, which gave the pointer `p`. On failure `p` is
-- freed again.
unfoldable pub register : Answers → World → ℤ → ℕ → Bool × World
unfolding set_nonblocking
register a w fd p =
    let t = w.thread in
    if set_nonblocking a
    then (if a.added
        then (
          true,
          record {
            thread = record t {
              connections = insert t.connections p;
              connection_count = add32 t.connection_count 1;
              total_connections = add64 t.total_connections 1;
              active_connections = add64 t.active_connections 1;
            };
            heap = update w.heap p (some (create fd t.id a.now));
            log = w.log ++ (epoll_add fd ∷ []);
          },
        )
        else (false, record w { heap = update w.heap p none }))
    else (false, record w { heap = update w.heap p none })

-- `thread_add_connection`; the flag stands for the result 0.
unfoldable pub thread_add_connection : Answers → World → ℤ → Bool × World
unfolding register
thread_add_connection a w fd =
    if has_room w.thread.connections
    then elim (a.memory w.heap) [ none ↦ (false, w) | some p ↦ register a w fd p ]
    else (false, w)

-- The body of the loop of `process_new_connections_batch`.
unfoldable pub add_or_close : Answers → World → ℤ → Bool × World
add_or_close a w fd =
    let (done, w') = thread_add_connection a w fd in
    if done then (true, w') else (false, with_log w' (closes fd ∷ []))

-- The loop over the descriptors taken from the queue, from number `i` on: the successes and the new
-- state.
unfoldable pub add_each : (ℕ → Answers) → ℕ → World → List ℤ → ℕ × World
add_each answers i w [] = (0, w)
add_each answers i w (fd ∷ fds) =
    let (done, w') = add_or_close (answers i) w fd in
    let (n, w'') = add_each answers (i + 1) w' fds in ((if done then suc n else n), w'')

abbrev pub batch_size : ℕ
batch_size = 64

abbrev pub or_queue : RingQueue → Option RingQueue → RingQueue
or_queue q none = q
or_queue q (some q') = q'

abbrev pub or_items : List ℤ → Option (List ℤ) → List ℤ
or_items xs none = xs
or_items xs (some ys) = ys

-- `process_new_connections_batch` after the call of `ring_queue_pop_batch`, which gave a count and
-- left the array and the queue as shown.
unfoldable pub add_batch :
    List ℤ → (ℕ → Answers) → World → ℕ × Option (List ℤ) × Option RingQueue → ℕ × World
add_batch stack answers w (count, fds, queue) =
    let w' = record w {
      thread = record w.thread { accept_queue = or_queue w.thread.accept_queue queue };
    } in
    let (n, w'') = add_each answers 0 w' (take count (or_items stack fds)) in
    if count == 0
    then (0, w')
    else if ltb 1 count
    then (
      n,
      record w'' {
        thread = record w''.thread { batch_processed = add64 w''.thread.batch_processed 1 };
      },
    )
    else (n, w'')

-- `process_new_connections_batch`. `stack` is what the array `fds` holds before, `lost` says that the
-- exchange in the queue fails.
unfoldable pub process_new_connections_batch : Bool → List ℤ → (ℕ → Answers) → World → ℕ × World
process_new_connections_batch lost stack answers w =
    add_batch stack answers w (pop_batch lost (some w.thread.accept_queue) (some stack) batch_size)
