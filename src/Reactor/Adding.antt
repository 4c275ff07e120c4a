-- ===== src/Reactor/Adding.antt =====
-- New connections: what `thread_add_connection` and `process_new_connections_batch` keep, and that no
-- descriptor taken from the queue is lost.
use hepeng_projects.Prelude.{
  ℕ, suc, ◌≡◌, refl, Bool, true, false, List, [], ◌∷◌, ◌++◌, Option, none, some, arith,
  if◌then◌else◌, add32, add64, ℤ, inl, inr, Bool-cases, Option-cases,
}
use hepeng_projects.Reactor.Connection.{Connection, Call, epoll_add, closes, create}
use hepeng_projects.Reactor.Session.{create-IsValid}
use hepeng_projects.Reactor.Table.{
  has_room, insert, count_live, count_live-le, Inserted, insert-Inserted,
}
use hepeng_projects.Reactor.Thread.{
  World, Answers, update, with_log, set_nonblocking, register, thread_add_connection, add_or_close,
}
use hepeng_projects.Reactor.Ownership.{Owns}

-- `calloc` gives NULL or memory that is not in use.
abbrev pub Allocates : Answers → Type 0
Allocates a = (heap : ℕ → Option Connection) (p : ℕ) → a.memory heap ≡ some p → heap p ≡ none

-- The calls that a descriptor leads to: it is watched by epoll, or it is closed.
abbrev pub fate : ℤ → Bool → List Call
fate fd true = epoll_add fd ∷ []
fate fd false = closes fd ∷ []

pub record Added (w : World) (fd : ℤ) (done : Bool) (w' : World) : Type 0 where
  pub owns : Owns w'
  pub count :
      count_live w'.thread.connections
      ≡ (if done then suc (count_live w.thread.connections) else count_live w.thread.connections)
  pub log : w'.log ≡ w.log ++ fate fd done
  pub queue_kept : w'.thread.accept_queue ≡ w.thread.accept_queue

module _ (a : Answers) {w : World} (fd : ℤ) (p : ℕ) (o : Owns w)
    (room : has_room w.thread.connections ≡ true) (free : w.heap p ≡ none) where
  registered : World
  registered = record {
    thread = record w.thread {
      connections = insert w.thread.connections p;
      connection_count = add32 w.thread.connection_count 1;
      total_connections = add64 w.thread.total_connections 1;
      active_connections = add64 w.thread.active_connections 1;
    };
    heap = update w.heap p (some (create fd w.thread.id a.now));
    log = w.log ++ (epoll_add fd ∷ []);
  }

  inserted : Inserted w.thread.connections p (insert w.thread.connections p)
  inserted = insert-Inserted w.thread.connections p room

  registered-Owns : Owns registered
  unfolding registered
  registered-Owns =
      let i = inserted in
      let small = count_live-le (insert w.thread.connections p) in
      record {
        sized = ground (arith, i.size, o.sized);
        apart = ground (arith, i.apart, o.apart, o.owned p);
        counted = ground (arith, i.live, i.size, o.sized, o.counted);
        active = ground (arith, i.live, i.size, o.sized, o.active);
        owned = λ q. ground (arith, i.held q, o.owned q);
        sound = λ q d e. ground (arith, o.sound q d, create-IsValid fd w.thread.id a.now);
        queue = o.queue;
      }

-- A failure closes the descriptor, and frees what was allocated: the heap is as it was.
freed-Added :
    {w : World} (fd : ℤ) (p : ℕ)
    → Owns w
    → w.heap p ≡ none
    → Added w fd false (with_log (record w { heap = update w.heap p none }) (closes fd ∷ []))
freed-Added {w} fd p o free = record {
  owns = record {
    sized = o.sized;
    apart = o.apart;
    counted = o.counted;
    active = o.active;
    owned = λ q. ground (arith, o.owned q);
    sound = λ q d e. ground (arith, o.sound q d);
    queue = o.queue;
  };
  count = refl;
  log = refl;
  queue_kept = refl;
}

refused-Added : {w : World} (fd : ℤ) → Owns w → Added w fd false (with_log w (closes fd ∷ []))
refused-Added fd o = record {
  owns = record {
    sized = o.sized;
    apart = o.apart;
    counted = o.counted;
    active = o.active;
    owned = o.owned;
    sound = o.sound;
    queue = o.queue;
  };
  count = refl;
  log = refl;
  queue_kept = refl;
}

register-Added :
    (a : Answers) {w : World} (fd : ℤ) (p : ℕ)
    → Owns w
    → has_room w.thread.connections ≡ true
    → w.heap p ≡ none
    → let (done, w') = register a w fd p in
      Added w fd done (if done then w' else with_log w' (closes fd ∷ []))
unfolding register registered
register-Added a {w} fd p o room free = elim (Bool-cases (set_nonblocking a)) [
  | inr blocking ↦ rw (blocking, register) (freed-Added fd p o free)
  | inl quiet ↦ elim (Bool-cases a.added) [
    | inr unwatched ↦ rw (quiet, unwatched, register) (freed-Added fd p o free)
    | inl watched ↦
        rw (quiet, watched, register)
          (record {
            owns = registered-Owns a fd p o room free;
            count = (inserted a fd p o room free).live;
            log = refl;
            queue_kept = refl;
          })
  ]
]

settled :
    {w : World} {fd : ℤ} (r : Bool × World)
    → Added w fd r.0 (if r.0 then r.1 else with_log r.1 (closes fd ∷ []))
    → let result : Bool × World =
        if r.0 then (true, r.1) else (false, with_log r.1 (closes fd ∷ [])) in
      Added w fd result.0 result.1
settled (true, w') h = h
settled (false, w') h = h

pub add_or_close-Added :
    (a : Answers) {w : World} (fd : ℤ)
    → Allocates a
    → Owns w
    → let (done, w') = add_or_close a w fd in Added w fd done w'
unfolding add_or_close thread_add_connection
add_or_close-Added a {w} fd fresh o = elim (Bool-cases (has_room w.thread.connections)) [
  | inr taken ↦ rw (taken, add_or_close, thread_add_connection) (refused-Added fd o)
  | inl room ↦ elim (Option-cases (a.memory w.heap)) [
    | inl nothing ↦ rw (room, nothing, add_or_close, thread_add_connection) (refused-Added fd o)
    | inr (p, e) ↦
        rw (room, e, add_or_close, thread_add_connection)
          (settled (register a w fd p) (register-Added a fd p o room (fresh w.heap p e)))
  ]
]
