-- ===== src/Reactor/Exit.antt =====
-- main of codes/network/reactor/server.c: the threads that it starts and joins, and the connections that
-- it leaves.
use hepeng_projects.Prelude.{ℕ, ◌<◌, ◌≡◌, ap, ◌∙◌, true, [], Option, none, some, arith, pos}
use hepeng_projects.Reactor.Thread.{Thread}
use hepeng_projects.Reactor.Core.{Reactor, reactor_create, start_threads}
use hepeng_projects.Reactor.Server.{MainGrants, Heap, thread_count, after_create, main}
use hepeng_projects.Reactor.Threads.{with_id}
use hepeng_projects.Reactor.Fresh.{Whole, Fresh}

-- The reactor with its threads started, as far as that goes.
abbrev launched : (ℕ → Option ℕ) → Reactor → Reactor
launched spawn r = record r { running = true; threads = (start_threads spawn 0 r.threads).1 }

-- What the threads make of a running reactor keeps it running, and each thread its number, and the
-- tables hold all connections that there are then, each once.
pub record Lives (r r' : Reactor) (heap : Heap) : Type 0 where
  pub runs : r'.running ≡ true
  pub numbers : (j : ℕ) → with_id j r'.threads ≡ with_id j r.threads
  pub whole : Whole heap r'.threads

abbrev pub AllLives : (Reactor → Reactor × Heap) → Type 0
AllLives life =
    (r : Reactor) → r.running ≡ true → Whole (λ p. none) r.threads → Lives r (life r).0 (life r).1

-- On a machine with more than 16 processors main ends with 1, whatever the system grants, and has done
-- nothing: it asks for a thread for each, and `reactor_create` gives at most 16.
pub main-many_cores :
    (g : MainGrants) (life : Reactor → Reactor × Heap) (n : ℕ)
    → g.cpu_cores ≡ pos n
    → 16 < n
    → main g life ≡ some (1, (λ p. none), [])
unfolding main after_create reactor_create thread_count
main-many_cores g life n cores many =
    let asked : thread_count g.cpu_cores ≡ pos n = ground arith in
    let refused : reactor_create g.memory g.epoll (pos n) ≡ (none, []) = ground arith in
    ap (after_create g life) (ap (reactor_create g.memory g.epoll) asked ∙ refused)
