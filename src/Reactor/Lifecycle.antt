-- ===== src/Reactor/Lifecycle.antt =====
-- The life of a reactor: creating, starting, stopping and destroying it, and handing out descriptors.
use hepeng_projects.Prelude.{
  ℕ, zero, suc, ◌+◌, ◌≤◌, ◌<◌, ◌≡◌, refl, sym, ap, ◌∙◌, true, false, ◌||◌, List, [], ◌∷◌, ◌++◌,
  append-nil, append_assoc, Option, none, some, arith, length, length-replicate, ◌==◌, inl, inr,
  ◌⊎◌, Option-cases, ℤ, pos, ltb,
}
use hepeng_projects.RingQueue.{init}
use hepeng_projects.RingQueue.Window
use hepeng_projects.RingQueue.Window.{contents}
use hepeng_projects.RingQueue.Single.{init-IsValid}
use hepeng_projects.Reactor.Table.{max_connections, holds, distinct, count_live}
use hepeng_projects.Reactor.Thread.{Thread, World, or_queue}
use hepeng_projects.Reactor.Ownership.{Owns}
use hepeng_projects.Reactor.Core.{
  max_reactor_threads, Call, free_places, raw_queue, new_thread, close_epolls, created,
  create_threads, reactor_create,
}

-- A table of free places.
pub length-free_places : (n : ℕ) → length (free_places n) ≡ n
unfolding free_places
length-free_places n = length-replicate {A = Option ℕ} n none

pub holds-free_places : (n p : ℕ) → holds (free_places n) p ≡ false
unfolding free_places
holds-free_places zero p = refl
holds-free_places (suc n) p = holds-free_places n p

pub distinct-free_places : (n : ℕ) → distinct (free_places n) ≡ true
unfolding free_places
distinct-free_places zero = refl
distinct-free_places (suc n) = distinct-free_places n

pub count_live-free_places : (n : ℕ) → count_live (free_places n) ≡ 0
unfolding free_places
count_live-free_places zero = refl
count_live-free_places (suc n) = count_live-free_places n

pub new_queue-IsValid : Window.IsValid (or_queue raw_queue (init (some raw_queue)))
unfolding init
new_queue-IsValid = (init-IsValid raw_queue refl).0

-- A new thread with an empty heap.
pub new_world : ℕ → ℤ → World
new_world i fd = record { thread = new_thread i fd; heap = λ p. none; log = [] }

-- A thread as `reactor_create` leaves it owns no connection, in the sense in which every round keeps
-- ownership.
pub new_world-Owns : (i : ℕ) (fd : ℤ) → Owns (new_world i fd)
unfolding new_world new_thread
new_world-Owns i fd = record {
  sized = length-free_places max_connections;
  apart = distinct-free_places max_connections;
  counted = sym (count_live-free_places max_connections);
  active = sym (count_live-free_places max_connections);
  owned = λ p. holds-free_places max_connections p;
  sound = λ p c e. cc;
  queue = new_queue-IsValid;
}

-- The threads that get an epoll instance before `epoll_create1` fails, of `n` from thread `i` on.
abbrev pub equipped : (ℕ → Option ℤ) → ℕ → ℕ → List Thread
equipped epoll i zero = []
equipped epoll i (suc n) = elim (epoll i) [
  | none ↦ []
  | some fd ↦ new_thread i fd ∷ equipped epoll (i + 1) n
]

abbrev pub AllOrNothing : List Thread → ℕ → List Thread → Option (List Thread) × List Call → Type 0
AllOrNothing before n ts r =
    ((length ts ≡ n) × (r ≡ (some (before ++ ts), [])))
    ⊎ ((length ts < n) × (r ≡ (none, close_epolls (before ++ ts))))

AllOrNothing-cons :
    (before : List Thread) (t : Thread) (n : ℕ) (ts : List Thread)
    (r : Option (List Thread) × List Call)
    → AllOrNothing (before ++ (t ∷ [])) n ts r
    → AllOrNothing before (suc n) (t ∷ ts) r
AllOrNothing-cons before t n ts r (inl (size, e)) =
    inl (ap suc size, e ∙ ap (λ l. (some l, [])) (append_assoc before (t ∷ []) ts))
AllOrNothing-cons before t n ts r (inr (size, e)) =
    inr (omega arith, e ∙ ap (λ l. (none, close_epolls l)) (append_assoc before (t ∷ []) ts))

pub create_threads-AllOrNothing :
    (epoll : ℕ → Option ℤ) (n i : ℕ) (before : List Thread)
    → AllOrNothing before n (equipped epoll i n) (create_threads epoll i n before)
unfolding create_threads
create_threads-AllOrNothing epoll zero i before =
    inl (refl, ap (λ l. (some l, [])) (sym (append-nil before)))
create_threads-AllOrNothing epoll (suc n) i before = elim (Option-cases (epoll i)) [
  | inl fails ↦
      rw (fails, create_threads, equipped)
        (inr (omega arith, ap (λ l. (none, close_epolls l)) (sym (append-nil before))))
  | inr (fd, got) ↦
      rw (got, create_threads, equipped)
        (AllOrNothing-cons before (new_thread i fd) n (equipped epoll (i + 1) n) _
          (create_threads-AllOrNothing epoll n (i + 1) (before ++ (new_thread i fd ∷ []))))
]

-- With memory at hand and 1 to 16 threads asked for, `reactor_create` either gives every thread its
-- epoll instance, and a reactor of just these new threads, or, if one is refused, it returns NULL and
-- has closed exactly the instances that it had opened.
pub reactor_create-all_or_nothing :
    (epoll : ℕ → Option ℤ) (n : ℕ)
    → 0 < n
    → n ≤ max_reactor_threads
    → let ts = equipped epoll 0 n in
      let r = reactor_create true epoll (pos n) in
      ((length ts ≡ n)
        × (r ≡ (
          some (record { threads = ts; thread_count = n; running = false; next_thread = 0 }),
          [],
        )))
      ⊎ ((length ts < n) × (r ≡ (none, close_epolls ts)))
unfolding reactor_create
reactor_create-all_or_nothing epoll n pos_n small =
    let in_range : ((n == 0) || ltb max_reactor_threads n) ≡ false = ground arith in
    rw in_range (finish (create_threads-AllOrNothing epoll n 0 []))
  where
    finish :
        AllOrNothing [] n (equipped epoll 0 n) (create_threads epoll 0 n [])
        → ((length (equipped epoll 0 n) ≡ n)
            × (created n (create_threads epoll 0 n []) ≡ (
              some (record {
                threads = equipped epoll 0 n;
                thread_count = n;
                running = false;
                next_thread = 0;
              }),
              [],
            )))
          ⊎ ((length (equipped epoll 0 n) < n)
              × (created n (create_threads epoll 0 n [])
                  ≡ (none, close_epolls (equipped epoll 0 n))))
    finish (inl (size, e)) = inl (size, ap (created n) e)
    finish (inr (size, e)) = inr (size, ap (created n) e)
