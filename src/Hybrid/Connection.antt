-- ===== src/Hybrid/Connection.antt =====
-- The data of codes/network/proactor_epoll/hybrid_proactor.h, and the connection list of a worker in
-- hybrid_proactor.c: `mt_create_connection`, `mt_add_connection_to_worker` and
-- `mt_remove_connection_safe`.
-- Connections lie on a heap, since the list, epoll and the AIO operations all hold pointers to them;
-- an access through a freed pointer is a fault, `none`. The list is that of the pointers in the order
-- in which `next` links them. `client_addr` is only printed, `ref_count` is never read, and the two
-- locks are left out: each function runs with no other thread in between. `time_t` is a number.
use hepeng_projects.Prelude.{
  ℕ, Bool, true, false, ◌&&◌, not, List, [], ◌∷◌, ◌++◌, Option, none, some, ◌>>=◌, replicate, ◌==◌,
  if◌then◌else◌, ℤ, pos, negsuc, is_negative,
}

abbrev pub mt_buffer_size : ℕ
mt_buffer_size = 4096

-- Only the first is ever used.
pub data ConnState : Type 0 where
  conn_active conn_idle conn_slow conn_suspended : ConnState

pub record MtConnection : Type 0 where
  pub fd : ℤ
  pub state : ConnState
  pub readable : Bool
  pub writable : Bool
  pub read_buf : List ℕ
  pub write_buf : List ℕ
  pub write_pending : ℕ
  pub last_activity : ℕ
  pub is_removing : Bool
  pub worker_id : ℕ

-- `thread` is 0 before `pthread_create`, and `aio_ctx` says whether there is a context.
pub record WorkerContext : Type 0 where
  pub id : ℕ
  pub thread : ℕ
  pub running : Bool
  pub epoll_fd : ℤ
  pub aio_ctx : Bool
  pub connections : List ℕ
  pub total_operations : ℕ
  pub eagain_errors : ℕ
  pub successful_ops : ℕ

-- The system calls, oldest first, with the bytes that they move at once.
pub data Call : Type 0 where
  reads : ℤ → List ℕ → Call
  writes : ℤ → List ℕ → Call
  submits_read : ℤ → ℕ → ℕ → Call
  submits_write : ℤ → ℕ → ℕ → Call
  epoll_add : ℤ → Call
  epoll_del : ℤ → Call
  closes : ℤ → Call

abbrev pub Heap : Type 0
Heap = ℕ → Option MtConnection

-- What a worker works on.
pub record World : Type 0 where
  pub worker : WorkerContext
  pub heap : Heap
  pub log : List Call

abbrev pub update : Heap → ℕ → Option MtConnection → Heap
update heap p v = λ q. if p == q then v else heap q

abbrev pub with_log : World → List Call → World
with_log w calls = record w { log = w.log ++ calls }

abbrev pub put : World → ℕ → MtConnection → World
put w p c = record w { heap = update w.heap p (some c) }

-- Shut, since it is long.
unfoldable pub mt_zero_bytes : List ℕ
mt_zero_bytes = replicate mt_buffer_size 0

-- What `mt_create_connection` puts into the memory that it gets.
unfoldable pub mt_create_connection : ℕ → ℕ → ℕ → MtConnection
mt_create_connection fd worker_id now = record {
  fd = pos fd;
  state = conn_active;
  readable = true;
  writable = true;
  read_buf = mt_zero_bytes;
  write_buf = mt_zero_bytes;
  write_pending = 0;
  last_activity = now;
  is_removing = false;
  worker_id = worker_id;
}

-- The loop of `mt_remove_connection_safe` over the list, which reads the `next` of each connection
-- before `p`, and the removal of `p`, if the loop finds it.
unfoldable pub unlink : Heap → List ℕ → ℕ → Option (List ℕ)
unlink heap [] p = some []
unlink heap (q ∷ qs) p =
    let rest = unlink heap qs p in
    if q == p then some qs else elim (heap q) [
      | none ↦ none
      | some c ↦ elim rest [ none ↦ none | some qs' ↦ some (q ∷ qs') ]
    ]

-- `epoll_ctl` with DEL, and `close`.
unfoldable pub shut : World → MtConnection → World
shut w c =
    let dels =
      if not (is_negative w.worker.epoll_fd) && not (is_negative c.fd)
      then epoll_del c.fd ∷ []
      else [] in
    let ends = if is_negative c.fd then [] else closes c.fd ∷ [] in with_log w (dels ++ ends)

-- `mt_remove_connection_safe`; the exchange of `is_removing` fails if it was set.
unfoldable pub mt_remove_connection_safe : World → Option ℕ → Option World
unfolding shut unlink
mt_remove_connection_safe w none = some w
mt_remove_connection_safe w (some p) = elim (w.heap p) [
  | none ↦ none
  | some c ↦ if c.is_removing then some w else (do
    let w' = put (shut w c) p (record c { is_removing = true; fd = negsuc 0 })
    list ← unlink w'.heap w'.worker.connections p
    some (record w' {
      worker = record w'.worker { connections = list };
      heap = update w'.heap p none;
    }))
]

-- `mt_add_connection_to_worker`; the flag says that `epoll_ctl` with ADD succeeds. If not, the list is
-- as it was before.
unfoldable pub mt_add_connection_to_worker : Bool → World → ℕ → Option World
mt_add_connection_to_worker added w p = elim (w.heap p) [
  | none ↦ none
  | some c ↦
      if added
      then some (record w {
        worker = record w.worker { connections = p ∷ w.worker.connections };
        log = w.log ++ (epoll_add c.fd ∷ []);
      })
      else mt_remove_connection_safe w (some p)
]
