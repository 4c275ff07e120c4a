-- ===== src/Reactor/Safety.antt =====
-- A round of a reactor thread reads no freed memory and keeps what the thread owns, whatever events
-- the kernel reports within the contract of epoll.
use hepeng_projects.Prelude.{
  ℕ, ◌%◌, ◌≡◌, ◌≢◌, refl, sym, ◌∙◌, Bool, true, false, List, [], ◌∷◌, Option, some, ◌==◌, length,
  inl, inr, Bool-cases,
}
use hepeng_projects.Reactor.Table.{max_connections}
use hepeng_projects.Reactor.Thread.{World, batch_size, process_new_connections_batch}
use hepeng_projects.Reactor.Events.{
  ◌>>=◌, Sockets, Event, handle_read_event, handle_write_event, handle_read_events,
  handle_write_events,
}
use hepeng_projects.Reactor.MainLoop.{
  Waited, ready, interrupted, failed, Round, count_events, handle_events, after_wait, thread_round,
}
use hepeng_projects.Reactor.Ownership.{alive, Owns}
use hepeng_projects.Reactor.Adding.{Allocates}
use hepeng_projects.Reactor.Accepting.{process_new_connections_batch-Accepted}
use hepeng_projects.Reactor.Handlers.{
  Steps, KeepContract, handle_read_event-Steps, handle_write_event-Steps, sweep-Owns,
}
use hepeng_projects.Reactor.Sorting.{
  Outside, Unique, AllAlive, AllOutside, Reported, Reported-same, classify-Sorts,
}

-- The handlers over a list: every live connection off the list lives on.
abbrev Passes : World → List ℕ → Option World → Type 0
Passes w ps r =
    (w' : World) × (r ≡ some w')
    × Owns w'
    × ((q : ℕ) → Outside q ps → alive w q ≡ true → alive w' q ≡ true)

still_alive :
    (w w' : World) (p : ℕ) (ps : List ℕ)
    → ((q : ℕ) → p ≢ q → alive w q ≡ true → alive w' q ≡ true)
    → Outside p ps
    → AllAlive w ps
    → AllAlive w' ps
still_alive w w' p [] kept out live = tt
still_alive w w' p (q ∷ ps) kept out live =
    (kept q (λ e. out.0 (sym e)) live.0, still_alive w w' p ps kept out.1 live.1)

all_pass :
    (step : World → ℕ → Option World) (run : World → List ℕ → Option World)
    → ((w : World) → run w [] ≡ some w)
    → ((w : World) (p : ℕ) (ps : List ℕ) → run w (p ∷ ps) ≡ (step w p >>= λ w'. run w' ps))
    → ((w : World) (p : ℕ) → Owns w → alive w p ≡ true → Steps w p (step w p))
    → (ps : List ℕ) {w : World} → Owns w
    → AllAlive w ps
    → Unique ps
    → Passes w ps (run w ps)
all_pass step run at_end at_next good [] {w} o live u = (w, at_end w, o, λ q out h. h)
all_pass step run at_end at_next good (p ∷ ps) {w} o live u =
    let (w1, e1, o1, kept1) = good w p o live.0 in
    let (w2, e2, o2, kept2) =
      all_pass step run at_end at_next good ps o1 (still_alive w w1 p ps kept1 u.0 live.1) u.1 in
    (w2, at_next w p ps ∙ (rw (e1, ◌>>=◌) e2), o2, λ q out h. kept2 q out.1 (kept1 q out.0 h))

reads_pass :
    (s : Sockets) (ps : List ℕ) {w : World}
    → KeepContract s
    → Owns w
    → AllAlive w ps
    → Unique ps
    → Passes w ps (handle_read_events s w ps)
unfolding handle_read_events
reads_pass s ps k o live u =
    all_pass (handle_read_event s) (handle_read_events s) (λ w. refl) (λ w p qs. refl)
      (λ w p o' h. handle_read_event-Steps s p k o' h) ps o live u

writes_pass :
    (s : Sockets) (ps : List ℕ) {w : World}
    → KeepContract s
    → Owns w
    → AllAlive w ps
    → Unique ps
    → Passes w ps (handle_write_events s w ps)
unfolding handle_write_events
writes_pass s ps k o live u =
    all_pass (handle_write_event s) (handle_write_events s) (λ w. refl) (λ w p qs. refl)
      (λ w p o' h. handle_write_event-Steps s p k o' h) ps o live u

-- The two lists are handled one after the other.
count_events-Owns : (w : World) (n : ℕ) → Owns w → Owns (count_events w n)
count_events-Owns w n o = elim (Bool-cases (n == 0)) [
  | inl zero_events ↦ rw zero_events o
  | inr events ↦ rw events (record {
    sized = o.sized;
    apart = o.apart;
    counted = o.counted;
    active = o.active;
    owned = o.owned;
    sound = o.sound;
    queue = o.queue;
  })
]

alive-count_events : (w : World) (n : ℕ) (q : ℕ) → alive (count_events w n) q ≡ alive w q
alive-count_events w n q = elim (Bool-cases (n == 0)) [
  | inl zero_events ↦ rw zero_events refl
  | inr events ↦ rw events refl
]

all_still_alive :
    (w w' : World) (ps qs : List ℕ)
    → ((q : ℕ) → Outside q qs → alive w q ≡ true → alive w' q ≡ true)
    → AllOutside ps qs
    → AllAlive w ps
    → AllAlive w' ps
all_still_alive w w' [] qs kept out live = tt
all_still_alive w w' (p ∷ ps) qs kept out live =
    (kept p out.0 live.0, all_still_alive w w' ps qs kept out.1 live.1)

handle_events-Owns :
    (r : Round) {w : World} (loop_count : ℕ) (es : List Event)
    → KeepContract r.sockets
    → Owns w
    → Reported w es
    → (w' : World) × (handle_events r w loop_count es ≡ some w') × Owns w'
unfolding handle_events
handle_events-Owns r {w} loop_count es k o rep =
    let w0 = count_events w (length es) in
    let (sorted, e0, s) =
      classify-Sorts es (count_events-Owns w (length es) o)
        (Reported-same w w0 es (alive-count_events w (length es)) rep) in
    let (w1, e1, o1, kept) =
      reads_pass r.sockets sorted.read_conns k s.owns s.reads_alive s.reads_unique in
    let (w2, e2, o2, kept2) =
      writes_pass r.sockets sorted.write_conns k o1
        (all_still_alive sorted.state w1 sorted.write_conns sorted.read_conns kept s.disjoint
          s.writes_alive)
        s.writes_unique in
    let timer = sweep-Owns r.timer_now max_connections 0 o2 in
    elim (Bool-cases ((loop_count % 100) == 0)) [
      | inl due ↦ (
        timer.0,
        rw (handle_events, e0, ◌>>=◌) (rw (e1, ◌>>=◌) (rw (e2, ◌>>=◌) (rw due timer.1))),
        timer.2,
      )
      | inr early ↦
          (w2, rw (handle_events, e0, ◌>>=◌) (rw (e1, ◌>>=◌) (rw (e2, ◌>>=◌) (rw early refl))), o2)
    ]

-- What the kernel may answer in a round: `calloc`, read and write keep their contracts, and the events
-- concern the connections that there are after the new ones have been added.
pub record Lawful (r : Round) (w : World) : Type 0 where
  pub stack : length r.stack ≡ batch_size
  pub allocates : (j : ℕ) → Allocates (r.answers j)
  pub sockets : KeepContract r.sockets
  pub events :
      (es : List Event)
      → r.waited ≡ ready es
      → Reported (process_new_connections_batch r.lost r.stack r.answers w).1 es

after_wait-Owns :
    (r : Round) {w : World} (loop_count : ℕ) (waited : Waited)
    → KeepContract r.sockets
    → Owns w
    → ((es : List Event) → waited ≡ ready es → Reported w es)
    → (w' : World) × (goes_on : Bool) × (after_wait r w loop_count waited ≡ some (w', goes_on))
      × Owns w'
unfolding after_wait
after_wait-Owns r {w} loop_count interrupted k o rep = (w, true, refl, o)
after_wait-Owns r {w} loop_count failed k o rep = (w, false, refl, o)
after_wait-Owns r {w} loop_count (ready es) k o rep =
    let (w', e, o') = handle_events-Owns r loop_count es k o (rep es refl) in
    (w', true, rw (e, ◌>>=◌) refl, o')

-- A round of a reactor thread, from a state in which the table's connections are exactly those
-- allocated, each once, and the counters agree with them, runs through without a use of freed memory
-- and ends in such a state, provided that the kernel keeps its contracts.
pub thread_round-Owns :
    (r : Round) {w : World} (loop_count : ℕ)
    → Owns w
    → Lawful r w
    → (w' : World) × (goes_on : Bool) × (thread_round r w loop_count ≡ some (w', goes_on)) × Owns w'
unfolding thread_round
thread_round-Owns r {w} loop_count o l =
    let (outcomes, a) =
      process_new_connections_batch-Accepted r.lost r.stack r.answers l.stack l.allocates o in
    after_wait-Owns r loop_count r.waited l.sockets a.owns l.events
