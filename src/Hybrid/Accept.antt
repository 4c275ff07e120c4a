-- ===== src/Hybrid/Accept.antt =====
-- The accept thread of codes/network/proactor_epoll/hybrid_proactor.c: `accept_thread_func` and
-- `mt_send_welcome_message`.
use hepeng_projects.Prelude.{
  ℕ, zero, suc, ◌+◌, ◌%◌, Bool, true, false, not, List, [], ◌∷◌, ◌++◌, Option, none, some, ◌>>=◌,
  length, ltb, if◌then◌else◌, add64, pos,
}
use hepeng_projects.Prelude.Memory.{memcpy}
use hepeng_projects.Prelude.Kernel.{Accept, connected, accept_failed, again, other}
use hepeng_projects.Hybrid.Connection.{
  mt_buffer_size, MtConnection, WorkerContext, Call, closes, Heap, World, put, mt_create_connection,
  mt_add_connection_to_worker,
}
use hepeng_projects.Hybrid.Events.{Kernel, mt_try_write}

-- The fields of `mt_proactor_t` that its threads use. `num_workers` workers are in the array.
pub record MtProactor : Type 0 where
  pub num_workers : ℕ
  pub workers : List WorkerContext
  pub next_worker : ℕ
  pub total_connections : ℕ

-- The whole program: the workers share one heap.
pub record System : Type 0 where
  pub proactor : MtProactor
  pub heap : Heap
  pub log : List Call

-- The text of the welcome.
abbrev pub welcome : List ℕ
welcome =
    87 ∷ 101 ∷ 108 ∷ 99 ∷ 111 ∷ 109 ∷ 101 ∷ 32 ∷ 116 ∷ 111 ∷ 32 ∷ 77 ∷ 117 ∷ 108 ∷ 116 ∷ 105 ∷ 45
    ∷ 116 ∷ 104 ∷ 114 ∷ 101 ∷ 97 ∷ 100 ∷ 101 ∷ 100 ∷ 32 ∷ 72 ∷ 121 ∷ 98 ∷ 114 ∷ 105 ∷ 100 ∷ 32 ∷ 80
    ∷ 114 ∷ 111 ∷ 97 ∷ 99 ∷ 116 ∷ 111 ∷ 114 ∷ 32 ∷ 83 ∷ 101 ∷ 114 ∷ 118 ∷ 101 ∷ 114 ∷ 33 ∷ 13 ∷ 10
    ∷ 84 ∷ 121 ∷ 112 ∷ 101 ∷ 32 ∷ 115 ∷ 111 ∷ 109 ∷ 101 ∷ 116 ∷ 104 ∷ 105 ∷ 110 ∷ 103 ∷ 32 ∷ 97
    ∷ 110 ∷ 100 ∷ 32 ∷ 112 ∷ 114 ∷ 101 ∷ 115 ∷ 115 ∷ 32 ∷ 101 ∷ 110 ∷ 116 ∷ 101 ∷ 114 ∷ 32 ∷ 116
    ∷ 111 ∷ 32 ∷ 101 ∷ 99 ∷ 104 ∷ 111 ∷ 46 ∷ 13 ∷ 10 ∷ []

-- `write_buf` and `write_pending` with the welcome.
unfoldable pub greeted : MtConnection → MtConnection
greeted c = record c {
  write_buf = memcpy 0 c.write_buf 0 welcome 0 (length welcome);
  write_pending = length welcome;
}

unfoldable pub mt_send_welcome_message : Kernel → World → ℕ → Option World
unfolding greeted
mt_send_welcome_message k w p = elim (w.heap p) [
  | none ↦ none
  | some c ↦
      if ltb (length welcome) mt_buffer_size then mt_try_write k (put w p (greeted c)) p else some w
]

-- What happens during a round of `accept_thread_func`: the result of `accept`, whether the shutdown
-- has begun then, whether `set_nonblock` succeeds, what `malloc` gives, the time, whether `epoll_ctl`
-- with ADD succeeds, and what the system gives while the welcome is sent.
pub record Arrival : Type 0 where
  pub result : Accept
  pub graceful_shutdown : Bool
  pub nonblock : Bool
  pub memory : Heap → Option ℕ
  pub now : ℕ
  pub added : Bool
  pub kernel : Kernel

-- Creating the connection of the worker `worker_id` at `p`, adding it to the worker, and greeting the peer.
unfoldable pub admit : Arrival → ℕ → World → ℕ → ℕ → Option World
unfolding mt_create_connection mt_add_connection_to_worker mt_send_welcome_message
admit a worker_id w fd p = do
  v ← mt_add_connection_to_worker a.added (put w p (mt_create_connection fd worker_id a.now)) p
  mt_send_welcome_message a.kernel v p

-- What `f` does to the worker number `i` of the array and to the heap; `none` also for a number out of
-- range.
unfoldable pub at_worker :
    ℕ
    → List WorkerContext
    → (WorkerContext → Option World)
    → Option (List WorkerContext × Heap × List Call)
at_worker i [] f = none
at_worker zero (t ∷ ts) f = elim (f t) [
  | none ↦ none
  | some w ↦ some (w.worker ∷ ts, w.heap, w.log)
]
at_worker (suc i) (t ∷ ts) f = elim (at_worker i ts f) [
  | none ↦ none
  | some (ts', heap, log) ↦ some (t ∷ ts', heap, log)
]

-- The turn goes to the next worker.
abbrev pub turned : MtProactor → MtProactor
turned q = record q { next_worker = (q.next_worker + 1) % q.num_workers }

abbrev pub shut_client : System → ℕ → System
shut_client s fd = record s { log = s.log ++ (closes (pos fd) ∷ []) }

-- `accept_thread_func` from the choice of a worker on.
unfoldable pub hand_over : Arrival → System → ℕ → Option System
unfolding admit at_worker
hand_over a s fd = elim (a.memory s.heap) [
  | none ↦ some (shut_client (record s { proactor = turned s.proactor }) fd)
  | some p ↦
      elim (at_worker s.proactor.next_worker s.proactor.workers (λ t.
        admit a s.proactor.next_worker (record { worker = t; heap = s.heap; log = s.log }) fd p)) [
          | none ↦ none
          | some (ts, heap, log) ↦ some (record {
            proactor = record (turned s.proactor) {
              workers = ts;
              total_connections = add64 s.proactor.total_connections 1;
            };
            heap = heap;
            log = log;
          })
        ]
]

abbrev pub go_on : Option System → Option (Bool × System)
go_on none = none
go_on (some s) = some (true, s)

-- The body of the loop of `accept_thread_func`; the flag says that the loop goes on.
unfoldable pub accept_round : Arrival → System → Option (Bool × System)
unfolding hand_over
accept_round a s = elim a.result [
  | accept_failed again ↦ some (true, s)
  | accept_failed other ↦ some (false, s)
  | connected fd ↦
      if a.graceful_shutdown
      then some (false, shut_client s fd)
      else if not a.nonblock
      then some (true, shut_client s fd)
      else go_on (hand_over a s fd)
]
