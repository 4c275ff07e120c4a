-- ===== src/Reactor/Destruction.antt =====
-- `reactor_destroy` of codes/network/reactor/reactor.c: what is closed and freed.
use hepeng_projects.Prelude.{
  ℕ, ◌≡◌, refl, ap, ap₂, ◌∙◌, Bool, true, false, ◌||◌, List, [], ◌∷◌, ◌++◌, Option, none, some,
  arith, ◌==◌, if◌then◌else◌, inl, inr, Bool-cases,
}
use hepeng_projects.Reactor.Connection.{Connection}
use hepeng_projects.Reactor.Table.{Table, holds, distinct}
use hepeng_projects.Reactor.Thread.{Thread}
use hepeng_projects.Reactor.Core.{
  Reactor, Call, closes, release_connections, destroy_threads, reactor_stop, reactor_destroy,
}

abbrev pub Heap : Type 0
Heap = ℕ → Option Connection

abbrev freed : Heap → ℕ → Heap
freed heap p = λ q. if p == q then none else heap q

-- The closes of the connections of a table.
abbrev pub shuts : Heap → Table → List Call
shuts heap [] = []
shuts heap (none ∷ t) = shuts heap t
shuts heap (some p ∷ t) = elim (heap p) [ none ↦ [] | some c ↦ closes c.fd ∷ shuts heap t ]

abbrev pub AllLive : Heap → Table → Type 0
AllLive heap [] = Unit
AllLive heap (none ∷ t) = AllLive heap t
AllLive heap (some p ∷ t) = ((c : Connection) × (heap p ≡ some c)) × AllLive heap t

-- Two heaps hold the same connections of a table.
abbrev Agree : Heap → Heap → Table → Type 0
Agree heap heap' t = (q : ℕ) → holds t q ≡ true → heap' q ≡ heap q

AllLive-Agree :
    {heap heap' : Heap} (t : Table) → Agree heap heap' t → AllLive heap t → AllLive heap' t
AllLive-Agree [] a live = tt
AllLive-Agree (none ∷ t) a live = AllLive-Agree t a live
AllLive-Agree (some q ∷ t) a ((c, here), live) =
    ((c, a q (ground arith) ∙ here), AllLive-Agree t (λ r h. a r (ground arith)) live)

shuts-Agree : {heap heap' : Heap} (t : Table) → Agree heap heap' t → shuts heap' t ≡ shuts heap t
shuts-Agree [] a = refl
shuts-Agree (none ∷ t) a = shuts-Agree t a
shuts-Agree {heap} (some q ∷ t) a =
    ap₂ (λ o calls. elim o [ none ↦ [] | some c ↦ closes c.fd ∷ calls ]) (a q (ground arith))
      (shuts-Agree t (λ r h. a r (ground arith)))

freed-Agree : (heap : Heap) (p : ℕ) (t : Table) → holds t p ≡ false → Agree heap (freed heap p) t
freed-Agree heap p t out q h = elim (Bool-cases (p == q)) [
  | inr ne ↦ rw ne refl
  | inl e ↦ let same : p ≡ q = ground arith in cc (h, out, ap (holds t) same)
]

-- The heap without the connections of a table.
abbrev without_table : Heap → Table → Heap
without_table heap t = λ q. if holds t q then none else heap q

release_connections-frees :
    (heap : Heap) (t : Table)
    → distinct t ≡ true
    → AllLive heap t
    → (heap' : Heap) × (release_connections heap t ≡ some (heap', shuts heap t))
      × ((q : ℕ) → heap' q ≡ without_table heap t q)
unfolding release_connections
release_connections-frees heap [] d live = (heap, refl, λ q. refl)
release_connections-frees heap (none ∷ t) d live = release_connections-frees heap t d live
release_connections-frees heap (some p ∷ t) d ((c, here), live) =
    let out : holds t p ≡ false = ground arith in
    let agree = freed-Agree heap p t out in
    let (heap', runs, gone) =
      release_connections-frees (freed heap p) t (ground arith) (AllLive-Agree t agree live) in
    (
      heap',
      rw (here, runs, shuts-Agree t agree, release_connections, shuts) refl,
      λ q. gone q ∙ ground arith,
    )

abbrev pub holds_any : List Thread → ℕ → Bool
holds_any [] p = false
holds_any (t ∷ ts) p = holds t.connections p || holds_any ts p

-- The tables hold live connections, each once in one table.
abbrev pub TablesOwn : Heap → List Thread → Type 0
TablesOwn heap [] = Unit
TablesOwn heap (t ∷ ts) =
    (distinct t.connections ≡ true)
    × AllLive heap t.connections
    × ((p : ℕ) → holds t.connections p ≡ true → holds_any ts p ≡ false)
    × TablesOwn heap ts

pub TablesOwn-Agree :
    {heap heap' : Heap} (ts : List Thread)
    → ((q : ℕ) → holds_any ts q ≡ true → heap' q ≡ heap q)
    → TablesOwn heap ts
    → TablesOwn heap' ts
TablesOwn-Agree [] a o = tt
TablesOwn-Agree (t ∷ ts) a (d, live, out, o) = (
  d,
  AllLive-Agree t.connections (λ q h. a q (ground arith)) live,
  out,
  TablesOwn-Agree ts (λ q h. a q (ground arith)) o,
)

-- What `reactor_destroy` closes: the epoll instance and the connections of each thread.
abbrev pub all_shuts : Heap → List Thread → List Call
all_shuts heap [] = []
all_shuts heap (t ∷ ts) = closes t.epoll_fd ∷ (shuts heap t.connections ++ all_shuts heap ts)

all_shuts-Agree :
    {heap heap' : Heap} (ts : List Thread)
    → ((q : ℕ) → holds_any ts q ≡ true → heap' q ≡ heap q)
    → all_shuts heap' ts ≡ all_shuts heap ts
all_shuts-Agree [] a = refl
all_shuts-Agree (t ∷ ts) a =
    ap₂ (λ xs ys. closes t.epoll_fd ∷ (xs ++ ys))
      (shuts-Agree t.connections (λ q h. a q (ground arith)))
      (all_shuts-Agree ts (λ q h. a q (ground arith)))

pub destroy_threads-frees :
    (heap : Heap) (ts : List Thread)
    → TablesOwn heap ts
    → (heap' : Heap) × (destroy_threads heap ts ≡ some (heap', all_shuts heap ts))
      × ((q : ℕ) → heap' q ≡ (if holds_any ts q then none else heap q))
unfolding destroy_threads
destroy_threads-frees heap [] o = (heap, refl, λ q. refl)
destroy_threads-frees heap (t ∷ ts) (d, live, out, o) =
    let (heap1, runs, gone) = release_connections-frees heap t.connections d live in
    let agree : (q : ℕ) → holds_any ts q ≡ true → heap1 q ≡ heap q =
      λ q h. gone q ∙ ground (arith, out q) in
    let (heap2, ends, all_gone) = destroy_threads-frees heap1 ts (TablesOwn-Agree ts agree o) in
    (
      heap2,
      rw (runs, ends, all_shuts-Agree ts agree, destroy_threads) refl,
      λ q. all_gone q ∙ ground (arith, gone q),
    )

reactor_stop-again : (r : Reactor) → r.running ≡ false → reactor_stop (some r) ≡ (false, some r, [])
unfolding reactor_stop
reactor_stop-again r ended = ground arith

-- `reactor_destroy` on a reactor that has been stopped, whose tables hold live connections, each in one
-- place: no freed memory is used, nothing is freed twice, the connections of the tables and no others
-- are freed, and exactly these are closed, with the epoll instance of each thread. The descriptors that
-- wait in the accept queues are not closed.
pub reactor_destroy-frees :
    (heap : Heap) (r : Reactor)
    → r.running ≡ false
    → TablesOwn heap r.threads
    → (heap' : Heap) × (reactor_destroy heap (some r)
        ≡ some (true, heap', all_shuts heap r.threads))
      × ((q : ℕ) → heap' q ≡ (if holds_any r.threads q then none else heap q))
unfolding reactor_destroy
reactor_destroy-frees heap r ended o =
    let (heap', runs, gone) = destroy_threads-frees heap r.threads o in
    (heap', rw (runs, reactor_stop-again r ended, reactor_destroy) refl, gone)
