-- ===== src/Reactor/Fresh.antt =====
-- A reactor as `reactor_create` of codes/network/reactor/reactor.c gives it, and what is left when it is
-- destroyed after a stop.
use hepeng_projects.Prelude.{
  ℕ, zero, suc, ◌+◌, ◌≡◌, refl, sym, ap, ap₂, subst, ◌∙◌, Bool, true, false, ◌||◌, List, [], ◌++◌,
  Option, none, some, arith, ltb, ◌==◌, inl, inr, Bool-cases, Option-cases, ℤ, pos, negsuc,
}
use hepeng_projects.Reactor.Table.{max_connections, holds, distinct}
use hepeng_projects.Reactor.Thread.{Thread}
use hepeng_projects.Reactor.Core.{
  max_reactor_threads, Reactor, Call, free_places, new_thread, created, reactor_create,
  stop_threads, reactor_stop,
}
use hepeng_projects.Reactor.Lifecycle.{
  equipped, AllOrNothing, create_threads-AllOrNothing, holds-free_places, distinct-free_places,
}
use hepeng_projects.Reactor.Destruction.{
  AllLive, holds_any, TablesOwn, all_shuts, reactor_destroy-frees,
}
use hepeng_projects.Reactor.Server.{Heap, destroy_at_exit}
use hepeng_projects.Reactor.Threads.{
  started, joined, started-append, joined-append, Quiet, close_epolls-Quiet, all_shuts-Quiet,
  stop_threads-SameTables, Unstarted,
}

-- Every thread that a log starts it joins, as often.
abbrev pub Balanced : List Call → Type 0
Balanced calls = (j : ℕ) → started j calls ≡ joined j calls

-- The heap that is left holds no connection.
abbrev pub Clean : ℕ × Heap × List Call → Type 0
Clean e = Balanced e.2 × ((q : ℕ) → e.1 q ≡ none)

-- The tables hold all connections that there are.
pub record Whole (heap : Heap) (ts : List Thread) : Type 0 where
  pub tables : TablesOwn heap ts
  pub all_ : (q : ℕ) → holds_any ts q ≡ false → heap q ≡ none

-- The stopped reactor.
abbrev pub halted : Reactor → Reactor
halted r = record r { threads = (stop_threads r.threads).0; running = false }

pub reactor_stop-halts :
    (r : Reactor)
    → r.running ≡ true
    → reactor_stop (some r) ≡ (true, some (halted r), (stop_threads r.threads).1)
unfolding reactor_stop
reactor_stop-halts r runs = ground arith

-- `reactor_destroy` at the end, once the reactor has been stopped.
pub destroy-Clean :
    (code : ℕ) (heap : Heap) (r : Reactor) (log : List Call)
    → Whole heap r.threads
    → Balanced log
    → (e : ℕ × Heap × List Call) × (destroy_at_exit code heap (some (halted r)) log ≡ some e)
      × Clean e
unfolding destroy_at_exit
destroy-Clean code heap r log w even =
    let same = stop_threads-SameTables r.threads in
    let ts = (stop_threads r.threads).0 in
    let (heap', ends, gone) =
      reactor_destroy-frees heap (halted r) refl (same.owned heap w.tables) in
    (
      (code, heap', log ++ all_shuts heap ts),
      rw (ends, destroy_at_exit) refl,
      (
        (λ j.
            let (a, b) = all_shuts-Quiet heap ts j in
            omega (
              arith,
              even j,
              started-append j log (all_shuts heap ts),
              joined-append j log (all_shuts heap ts),
            )),
        λ q. gone q ∙ elim (Bool-cases (holds_any ts q)) [
          | inl h ↦ rw h refl
          | inr h ↦ rw h (w.all_ q (sym (same.held q) ∙ h))
        ],
      ),
    )

-- A reactor as `reactor_create` gives it.
pub record Fresh (r : Reactor) : Type 0 where
  pub stopped : r.running ≡ false
  pub unstarted : Unstarted r.threads
  pub whole : Whole (λ p. none) r.threads

empty-AllLive : (heap : Heap) (n : ℕ) → AllLive heap (free_places n)
unfolding free_places
empty-AllLive heap zero = tt
empty-AllLive heap (suc n) = empty-AllLive heap n

new_thread-unstarted : (i : ℕ) (fd : ℤ) → (new_thread i fd).thread_id ≡ 0
unfolding new_thread
new_thread-unstarted i fd = refl

new_thread-connections :
    (i : ℕ) (fd : ℤ) → (new_thread i fd).connections ≡ free_places max_connections
unfolding new_thread
new_thread-connections i fd = refl

equipped-Unstarted : (epoll : ℕ → Option ℤ) (i n : ℕ) → Unstarted (equipped epoll i n)
equipped-Unstarted epoll i zero = tt
equipped-Unstarted epoll i (suc n) = elim (Option-cases (epoll i)) [
  | inl h ↦ rw (h, equipped) tt
  | inr (fd, h) ↦ rw (h, equipped) (new_thread-unstarted i fd, equipped-Unstarted epoll (i + 1) n)
]

equipped-held : (epoll : ℕ → Option ℤ) (i n q : ℕ) → holds_any (equipped epoll i n) q ≡ false
equipped-held epoll i zero q = refl
equipped-held epoll i (suc n) q = elim (Option-cases (epoll i)) [
  | inl h ↦ rw (h, equipped) refl
  | inr (fd, h) ↦
      rw (h, equipped)
        (ap₂ ◌||◌
          (ap (λ c. holds c q) (new_thread-connections i fd) ∙ holds-free_places max_connections q)
          (equipped-held epoll (i + 1) n q))
]

equipped-TablesOwn :
    (epoll : ℕ → Option ℤ) (heap : Heap) (i n : ℕ) → TablesOwn heap (equipped epoll i n)
equipped-TablesOwn epoll heap i zero = tt
equipped-TablesOwn epoll heap i (suc n) = elim (Option-cases (epoll i)) [
  | inl h ↦ rw (h, equipped) tt
  | inr (fd, h) ↦
      let same = new_thread-connections i fd in
      rw (h, equipped)
        (
          ap distinct same ∙ distinct-free_places max_connections,
          subst (AllLive heap) (sym same) (empty-AllLive heap max_connections),
          (λ p _. equipped-held epoll (i + 1) n p),
          equipped-TablesOwn epoll heap (i + 1) n,
        )
]

-- What `reactor_create` gives.
abbrev pub Creates : Option Reactor × List Call → Type 0
Creates (none, calls) = Quiet calls
Creates (some r, calls) = Fresh r

created-Creates :
    (epoll : ℕ → Option ℤ) (n k : ℕ) (o : Option (List Thread) × List Call)
    → AllOrNothing [] n (equipped epoll 0 n) o
    → Creates (created k o)
created-Creates epoll n k o (inl (size, e)) =
    subst (λ x. Creates (created k x)) (sym e)
      (record {
        stopped = refl;
        unstarted = equipped-Unstarted epoll 0 n;
        whole = record { tables = equipped-TablesOwn epoll (λ p. none) 0 n; all_ = λ q h. refl };
      })
created-Creates epoll n k o (inr (size, e)) =
    subst (λ x. Creates (created k x)) (sym e) (close_epolls-Quiet (equipped epoll 0 n))

pub reactor_create-Creates :
    (memory : Bool) (epoll : ℕ → Option ℤ) (n : ℤ) → Creates (reactor_create memory epoll n)
unfolding reactor_create
reactor_create-Creates memory epoll (negsuc n) = λ j. (refl, refl)
reactor_create-Creates memory epoll (pos n) =
    elim (Bool-cases ((n == 0) || ltb max_reactor_threads n)) [
      | inl h ↦ rw (h, reactor_create) (λ j. (refl, refl))
      | inr h ↦ elim (Bool-cases memory) [
        | inr k ↦ rw (h, k, reactor_create) (λ j. (refl, refl))
        | inl k ↦
            rw (h, k, reactor_create)
              (created-Creates epoll n n _ (create_threads-AllOrNothing epoll n 0 []))
      ]
    ]
