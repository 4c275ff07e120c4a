-- ===== src/Hybrid/Starting.antt =====
-- Starting the hybrid server of codes/network/proactor_epoll: what a failed start leaves, and the
-- command line.
use hepeng_projects.Prelude.{
  zero, suc, not, if◌then◌else◌, length, Option-cases, ℕ, ◌+◌, ◌≤◌, ◌<◌, ◌≡◌, refl, sym, ap, ◌∙◌,
  Bool, true, false, ◌||◌, List, [], ◌∷◌, ◌++◌, append-nil, Option, none, some, ◌>>=◌, arith, ltb,
  ◌==◌, ℤ, pos, negsuc, ◌⊎◌, inl, inr, Bool-cases,
}
use hepeng_projects.Hybrid.Connection.{WorkerContext, Heap}
use hepeng_projects.Hybrid.Lifecycle.{
  aio_context, epoll, worker_thread, acquires, releases, max_worker_threads, Act, MtServer, Grants,
  start_worker, start_workers, mt_proactor_start, worker_count, port_number, new_server,
  mt_proactor_init, workers_of, mt_proactor_stop, parse_arguments,
}
use hepeng_projects.Hybrid.Shutdown.{joined, joined-append}

start_worker-joins_none :
    (g : Grants) (i j : ℕ) (t : WorkerContext) → joined j (start_worker g i t).2 ≡ 0
unfolding start_worker
start_worker-joins_none g i j t = ground arith

start_workers-joins_none :
    (g : Grants) (i j : ℕ) (ts : List WorkerContext) → joined j (start_workers g i ts).2 ≡ 0
unfolding start_workers
start_workers-joins_none g i j [] = refl
start_workers-joins_none g i j (t ∷ ts) =
    let (done, t', acts) = start_worker g i t in
    let (all, ts', more) = start_workers g (i + 1) ts in
    ground (
      arith,
      joined-append j acts more,
      start_worker-joins_none g i j t,
      start_workers-joins_none g (i + 1) j ts,
    )

-- What `mt_proactor_start` acquires for the worker `i`, if it gets all that it asks for.
abbrev pub begun : Grants → ℕ → Option (List Act)
begun g i = if not (g.io_setup i) then none else elim (g.epoll_create i) [
  | none ↦ none
  | some fd ↦ elim (g.spawn i) [
    | none ↦ none
    | some t ↦
        some
          (acquires (aio_context i) ∷ acquires (epoll i (pos fd)) ∷ acquires (worker_thread i) ∷ [])
  ]
]

-- What it acquires and gives back for the worker `i` otherwise.
abbrev pub undone : Grants → ℕ → List Act
undone g i = if not (g.io_setup i) then [] else elim (g.epoll_create i) [
  | none ↦ acquires (aio_context i) ∷ releases (aio_context i) ∷ []
  | some fd ↦
      acquires (aio_context i)
      ∷ acquires (epoll i (pos fd))
      ∷ releases (epoll i (pos fd))
      ∷ releases (aio_context i)
      ∷ []
]

-- What is kept of `n` workers from number `i` on: everything of those before the first that fails, and
-- nothing of that one.
abbrev pub kept_up_to : Grants → ℕ → ℕ → List Act
kept_up_to g i zero = []
kept_up_to g i (suc n) = elim (begun g i) [
  | none ↦ undone g i
  | some acts ↦ acts ++ kept_up_to g (i + 1) n
]

undone-no_context : (g : Grants) (i : ℕ) → g.io_setup i ≡ false → undone g i ≡ []
undone-no_context g i h = rw h refl

undone-no_epoll :
    (g : Grants) (i : ℕ)
    → g.io_setup i ≡ true
    → g.epoll_create i ≡ none
    → undone g i ≡ acquires (aio_context i) ∷ releases (aio_context i) ∷ []
undone-no_epoll g i h k = rw (h, k) refl

undone-no_thread :
    (g : Grants) (i fd : ℕ)
    → g.io_setup i ≡ true
    → g.epoll_create i ≡ some fd
    → undone g i
      ≡ acquires (aio_context i)
        ∷ acquires (epoll i (pos fd))
        ∷ releases (epoll i (pos fd))
        ∷ releases (aio_context i)
        ∷ []
undone-no_thread g i fd h k = rw (h, k) refl

start_workers-kept_up_to :
    (g : Grants) (i : ℕ) (ts : List WorkerContext)
    → (start_workers g i ts).2 ≡ kept_up_to g i (length ts)
unfolding start_workers start_worker
start_workers-kept_up_to g i [] = refl
start_workers-kept_up_to g i (t ∷ ts) =
    let rest = start_workers-kept_up_to g (i + 1) ts in
    elim (Bool-cases (g.io_setup i)) [
      | inr h ↦ rw (h, kept_up_to) (sym (undone-no_context g i h))
      | inl h ↦ elim (Option-cases (g.epoll_create i)) [
        | inl k ↦ rw (h, k, kept_up_to) (sym (undone-no_epoll g i h k))
        | inr (fd, k) ↦ elim (Option-cases (g.spawn i)) [
          | inl l ↦ rw (h, k, l, kept_up_to) (sym (undone-no_thread g i fd h k))
          | inr (id, l) ↦
              rw (h, k, l, kept_up_to)
                (ap
                  (λ more.
                    (acquires (aio_context i)
                      ∷ acquires (epoll i (pos fd))
                      ∷ acquires (worker_thread i)
                      ∷ [])
                    ++ more)
                  rest)
        ]
      ]
    ]

-- What is left when `mt_proactor_start` fails: no connection is freed, nothing is given back but what
-- the last worker had acquired before it failed, no thread is joined, and `mt_proactor_stop`, which main
-- calls next, does nothing.
pub record Abandoned (g : Grants) (s : MtServer) (heap : Heap)
    (r : Bool × MtServer × Heap × List Act) : Type 0 where
  pub kept : r.2 ≡ heap
  pub acts : r.3 ≡ kept_up_to g 0 (length (workers_of s))
  pub joins_none : (j : ℕ) → joined j r.3 ≡ 0
  pub stop_idle : mt_proactor_stop r.2 r.1 ≡ some (r.1, r.2, [])

-- A start that fails, whatever the reason: the AIO contexts, the epoll instances and the threads of all
-- workers before the first that fails are acquired and never given back, of that one worker nothing is
-- kept, and if it is the accept thread that fails, all is kept. No connection is freed, no thread is
-- joined, and the stop after it, which finds `running` at 0, does nothing.
pub mt_proactor_start-Abandoned :
    (g : Grants) (s : MtServer) (heap : Heap)
    → ((start_workers g 0 (workers_of s)).0 ≡ false) ⊎ (g.spawn_accept ≡ none)
    → (r : Bool × MtServer × Heap × List Act) × (mt_proactor_start g heap s ≡ some r)
      × (r.0 ≡ false)
      × Abandoned g s heap r
unfolding mt_proactor_start mt_proactor_stop
mt_proactor_start-Abandoned g s heap why = (
  r,
  runs why,
  refl,
  record {
    kept = refl;
    acts =
        append-nil (start_workers g 0 (workers_of s)).2
        ∙ start_workers-kept_up_to g 0 (workers_of s);
    joins_none = λ j.
        ap (joined j) (append-nil (start_workers g 0 (workers_of s)).2)
        ∙ start_workers-joins_none g 0 j (workers_of s);
    stop_idle = refl;
  },
)
  where
    s' : MtServer
    s' = record s { workers = some (start_workers g 0 (workers_of s)).1; running = false }

    r : Bool × MtServer × Heap × List Act
    r = (false, s', heap, (start_workers g 0 (workers_of s)).2 ++ [])

    runs :
        ((start_workers g 0 (workers_of s)).0 ≡ false) ⊎ (g.spawn_accept ≡ none)
        → mt_proactor_start g heap s ≡ some r
    runs (inl e) = rw (e, mt_proactor_start, mt_proactor_stop) refl
    runs (inr e) = elim (Bool-cases (start_workers g 0 (workers_of s)).0) [
      | inl all ↦ rw (all, e, mt_proactor_start, mt_proactor_stop) refl
      | inr some_failed ↦ rw (some_failed, mt_proactor_start, mt_proactor_stop) refl
    ]

worker_count_bounds :
    (o : Option ℤ) (n : ℕ) → worker_count o ≡ some n → (0 < n) × (n ≤ max_worker_threads)
unfolding worker_count
worker_count_bounds none n h = ground arith
worker_count_bounds (some (negsuc k)) n h = cc
worker_count_bounds (some (pos k)) n h = ground arith

port_number_bounds : (o : Option ℤ) (m : ℕ) → port_number o ≡ some m → (0 < m) × (m ≤ 65535)
unfolding port_number
port_number_bounds none m h = ground arith
port_number_bounds (some (negsuc k)) m h = cc
port_number_bounds (some (pos k)) m h = ground arith

-- The two results of a chain of two.
both_some :
    (x y : Option ℕ) (n m : ℕ)
    → (x >>= λ a. ◌>>=◌ {B = ℕ × ℕ} y (λ b. some (a, b))) ≡ some (n, m)
    → (x ≡ some n) × (y ≡ some m)
both_some none y n m h = cc
both_some (some a) none n m h = cc
both_some (some a) (some b) n m h = ground arith

-- The command line of codes/network/proactor_epoll/efficient_hybrid_server.c, with any arguments: if it
-- is accepted, there are from 1 to 16 workers, and the port is from 1 to 65535; and `mt_proactor_init`
-- accepts that number of workers: it succeeds if `calloc` and `eventfd` do.
pub parse_arguments_bounds :
    (workers port : Option ℤ) (n m : ℕ)
    → parse_arguments workers port ≡ some (n, m)
    → (0 < n)
      × (n ≤ max_worker_threads)
      × (0 < m)
      × (m ≤ 65535)
      × ((fd : ℕ) → (mt_proactor_init true (some fd) (pos n)).0 ≡ some (new_server n fd))
unfolding parse_arguments mt_proactor_init
parse_arguments_bounds workers port n m h =
    let (e, f) = both_some (worker_count workers) (port_number port) n m h in
    let (low, high) = worker_count_bounds workers n e in
    let (low', high') = port_number_bounds port m f in
    let accepts : ((n == 0) || ltb max_worker_threads n) ≡ false = ground arith in
    (low, high, low', high', λ fd. rw (accepts, mt_proactor_init) refl)
