-- ===== src/Reactor/Distribution.antt =====
-- `reactor_add_connection`: descriptors go to the threads in turn, and wait in their accept queues.
use hepeng_projects.Prelude.{
  ℕ, zero, suc, ◌%◌, ◌<◌, ◌≡◌, ◌≢◌, refl, ap, ◌∙◌, Bool, true, List, [], ◌∷◌, some, arith, length,
  add32, ℤ, pos,
}
use hepeng_projects.RingQueue.Window
use hepeng_projects.RingQueue.Window.{contents}
use hepeng_projects.RingQueue.Spec
use hepeng_projects.RingQueue.Single.{push_refines}
use hepeng_projects.Reactor.Thread.{Thread}
use hepeng_projects.Reactor.Core.{Reactor, at_thread, enqueue, reactor_add_connection}

-- The descriptors that wait for thread `i`.
abbrev pub waiting : List Thread → ℕ → List ℤ
waiting [] i = []
waiting (t ∷ ts) zero = contents t.accept_queue
waiting (t ∷ ts) (suc i) = waiting ts i

abbrev pub QueuesValid : List Thread → Type 0
QueuesValid [] = Unit
QueuesValid (t ∷ ts) = Window.IsValid t.accept_queue × QueuesValid ts

-- What the push to thread `i` does to the queues of all threads.
record Enqueued (ts : List Thread) (i : ℕ) (fd : ℤ) (r : Bool × List Thread) : Type 0 where
  answer : r.0 ≡ (Spec.push (waiting ts i) fd).0
  target : waiting r.1 i ≡ (Spec.push (waiting ts i) fd).1
  others : (j : ℕ) → i ≢ j → waiting r.1 j ≡ waiting ts j
  valid : QueuesValid r.1
  size : length r.1 ≡ length ts

at_thread-Enqueued :
    (spurious : ℕ) (fd : ℤ) (ts : List Thread) (i : ℕ)
    → QueuesValid ts
    → i < length ts
    → Enqueued ts i fd (at_thread i ts (enqueue spurious fd))
unfolding at_thread enqueue
at_thread-Enqueued spurious fd [] i v h = absurd (omega arith)
at_thread-Enqueued spurious fd (t ∷ ts) zero v h =
    let (q, e, ok, same) = push_refines spurious fd v.0 in
    record {
      answer = rw e refl;
      target = rw e same;
      others = λ j ne. other j ne;
      valid = rw e (ok, v.1);
      size = refl;
    }
  where
    other :
        (j : ℕ)
        → zero ≢ j
        → waiting (at_thread zero (t ∷ ts) (enqueue spurious fd)).1 j ≡ waiting (t ∷ ts) j
    other zero ne = absurd (ne refl)
    other (suc j) ne = refl
at_thread-Enqueued spurious fd (t ∷ ts) (suc i) v h =
    let e = at_thread-Enqueued spurious fd ts i v.1 (omega arith) in
    record {
      answer = e.answer;
      target = e.target;
      others = λ j ne. other e j ne;
      valid = (v.0, e.valid);
      size = ap suc e.size;
    }
  where
    other :
        Enqueued ts i fd (at_thread i ts (enqueue spurious fd))
        → (j : ℕ) → suc i ≢ j
        → waiting (at_thread (suc i) (t ∷ ts) (enqueue spurious fd)).1 j ≡ waiting (t ∷ ts) j
    other e zero ne = refl
    other e (suc j) ne = e.others j (λ same. ne (ap suc same))

-- A running reactor: every queue is valid, and there are as many threads as it says, but not none.
pub record IsReady (r : Reactor) : Type 0 where
  pub queues : QueuesValid r.threads
  pub threads : length r.threads ≡ r.thread_count
  pub some_thread : 0 < r.thread_count
  pub runs : r.running ≡ true

-- `reactor_add_connection` on a running reactor, for a descriptor that is no negative number, hands it
-- to the thread whose turn it is: it answers 0 exactly if that thread's queue had room, in which case
-- the descriptor is the last in that queue. The other queues keep their descriptors, the turn goes on
-- by one, the number of threads stays, and so does the reactor's readiness.
pub reactor_add_connection_lem :
    (spurious : ℕ) {r : Reactor} (n : ℕ)
    → IsReady r
    → let i = r.next_thread % r.thread_count in
      let spec = Spec.push (waiting r.threads i) (pos n) in
      (r' : Reactor) × (reactor_add_connection spurious (some r) (pos n) ≡ (spec.0, some r'))
      × IsReady r'
      × (waiting r'.threads i ≡ spec.1)
      × ((j : ℕ) → i ≢ j → waiting r'.threads j ≡ waiting r.threads j)
      × (r'.next_thread ≡ add32 r.next_thread 1)
      × (r'.thread_count ≡ r.thread_count)
unfolding reactor_add_connection
reactor_add_connection_lem spurious {r} n ready =
    let i = r.next_thread % r.thread_count in
    let e = at_thread-Enqueued spurious (pos n) r.threads i ready.queues (turn ready) in
    let after : Reactor = record r {
      threads = (at_thread i r.threads (enqueue spurious (pos n))).1;
      running = true;
      next_thread = add32 r.next_thread 1;
    } in
    (
      after,
      rw (ready.runs) (ap (λ done. (done, some after)) e.answer),
      record {
        queues = e.valid;
        threads = e.size ∙ ready.threads;
        some_thread = ready.some_thread;
        runs = refl;
      },
      e.target,
      e.others,
      refl,
      refl,
    )
  where
    turn : IsReady r → r.next_thread % r.thread_count < length r.threads
    turn ready' = grind arith
