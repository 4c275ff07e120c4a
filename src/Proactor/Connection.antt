-- ===== src/Proactor/Connection.antt =====
-- The data of codes/network/proactor/proactor.h, and the array of connections and the list of
-- operations of proactor.c: `proactor_submit_operation`, `proactor_add_connection`,
-- `proactor_remove_connection`, `handle_connection_event` and the rounds of `worker_thread_func`.
-- Contexts and handlers lie on two heaps, since both are reached through several pointers; a read
-- through a freed pointer, or a second free, is a fault, `none`. An operation has one owner at a time
-- (the list, the kernel or the dispatcher) and is a value; `next` is the order of the list. The peer's
-- address, which is only printed, and the `iocb`, which repeats the operation, are left out; Lifecycle has
-- `listen_fd`, `aio_ctx` and the threads, and Workers what the mutex guards.
use hepeng_projects.Prelude.{
  ℕ, Bool, true, false, List, [], ◌∷◌, ◌++◌, ◌||◌, Option, none, some, get_or, set, replicate, leb,
  ◌==◌, if◌then◌else◌, ℤ, pos, negsuc, is_negative,
}
pub use hepeng_projects.Prelude.Kernel.{Submitted, accepted, refused, failed}

pub data OperationType : Type 0 where
  op_accept op_read op_write op_close : OperationType

-- Whether the callbacks are set: the program sets each to its handler of that name.
pub record Handler : Type 0 where
  pub handle_read : Bool
  pub handle_write : Bool
  pub handle_error : Bool
  pub user_data : Option ℕ

-- A pointer to one of the two arrays in the context at an address.
pub data Buffer : Type 0 where
  read_buf write_buf : ℕ → Buffer

pub record Operation : Type 0 where
  pub type : OperationType
  pub fd : ℤ
  pub handler : Option ℕ
  pub buffer : Buffer
  pub size : ℕ
  pub offset : ℕ

-- `proactor` says whether the pointer to the one proactor is set.
pub record Context : Type 0 where
  pub fd : ℤ
  pub read_buf : List ℕ
  pub write_buf : List ℕ
  pub handler : Option ℕ
  pub proactor : Bool

pub record Proactor : Type 0 where
  pub epoll_fd : ℤ
  pub running : Bool
  pub exit_event_fd : ℤ
  pub thread_count : ℕ
  pub pending_ops : List Operation
  pub connections : List (Option ℕ)
  pub max_connections : ℕ

pub data Call : Type 0 where
  epoll_add : ℤ → Call
  epoll_del : ℤ → Call
  closes : ℤ → Call

pub record World : Type 0 where
  pub proactor : Proactor
  pub contexts : ℕ → Option Context
  pub handlers : ℕ → Option Handler
  pub log : List Call

abbrev pub buffer_size : ℕ
buffer_size = 4096

unfoldable pub zero_bytes : List ℕ
zero_bytes = replicate buffer_size 0

abbrev pub store {ℓ} : {A : Type ℓ} → (ℕ → A) → ℕ → A → ℕ → A
store f p v q = if p == q then v else f q

-- `fd < 0 || fd >= max_connections`.
abbrev pub out_of_range : Proactor → ℤ → Bool
out_of_range p (negsuc n) = true
out_of_range p (pos n) = leb p.max_connections n

-- `connections[fd]`, which the code reads only in range.
abbrev pub entry : Proactor → ℤ → Option ℕ
entry p (negsuc n) = none
entry p (pos n) = get_or p.connections n none

abbrev pub set_entry : Proactor → ℤ → Option ℕ → Proactor
set_entry p (negsuc n) v = p
set_entry p (pos n) v = record p { connections = set p.connections n v }

-- `proactor_submit_operation`: the operation becomes the first of the list.
unfoldable pub submit_operation : World → Operation → World
submit_operation w op = record w {
  proactor = record w.proactor { pending_ops = op ∷ w.proactor.pending_ops };
}

-- What `proactor_add_connection` puts into the memory that it gets.
unfoldable pub new_context : ℤ → Context
new_context fd = record {
  fd = fd;
  read_buf = zero_bytes;
  write_buf = zero_bytes;
  handler = none;
  proactor = true;
}

-- `proactor_add_connection`; `memory` is what `malloc` gives, and the flag stands for the result 0.
unfoldable pub add_connection : Option ℕ → World → ℤ → Bool × World
unfolding new_context
add_connection memory w fd =
    if out_of_range w.proactor fd then (false, w) else elim (entry w.proactor fd) [
      | some q ↦ (false, w)
      | none ↦ elim memory [
        | none ↦ (false, w)
        | some q ↦ (
          true,
          record w {
            proactor = set_entry w.proactor fd (some q);
            contexts = store w.contexts q (some (new_context fd));
          },
        )
      ]
    ]

-- `free` of a handler that is set; freeing it a second time is a fault.
abbrev pub free_handler : (ℕ → Option Handler) → Option ℕ → Option (ℕ → Option Handler)
free_handler handlers none = some handlers
free_handler handlers (some h) = elim (handlers h) [
  | none ↦ none
  | some d ↦ some (store handlers h none)
]

abbrev pub delete_from_epoll : Proactor → ℤ → List Call
delete_from_epoll p fd = if is_negative p.epoll_fd then [] else epoll_del fd ∷ []

-- `proactor_remove_connection` from the read of the context at `q` on.
unfoldable pub release : World → ℤ → ℕ → Option World
release w fd q = elim (w.contexts q) [
  | none ↦ none
  | some c ↦ elim (free_handler w.handlers c.handler) [
    | none ↦ none
    | some handlers' ↦ some (record {
      proactor = set_entry w.proactor fd none;
      contexts = store w.contexts q none;
      handlers = handlers';
      log = w.log ++ (delete_from_epoll w.proactor fd ++ (closes fd ∷ []));
    })
  ]
]

unfoldable pub remove_connection : World → ℤ → Option World
unfolding release
remove_connection w fd =
    if out_of_range w.proactor fd
    then some w
    else elim (entry w.proactor fd) [ none ↦ some w | some q ↦ release w fd q ]

-- `handle_connection_event`: whether `events` has EPOLLERR and whether it has EPOLLHUP.
unfoldable pub handle_connection_event : World → ℤ → Bool → Bool → Option World
handle_connection_event w fd err hup = if err || hup then remove_connection w fd else some w

-- The switch of `worker_thread_func` at an operation that it has taken off the list. The second
-- result is what the kernel gets.
unfoldable pub perform : (Operation → Submitted) → World → Operation → World × List Operation
unfolding submit_operation
perform io_submit w op = elim op.type [
  | op_accept ↦ (w, [])
  | op_close ↦ (w, [])
  | _ ↦ elim (io_submit op) [
    | accepted ↦ (w, op ∷ [])
    | refused ↦ (submit_operation w op, [])
    | failed ↦ (w, [])
  ]
]

-- A round of `worker_thread_func` while the proactor runs.
unfoldable pub worker_round : (Operation → Submitted) → World → World × List Operation
unfolding perform
worker_round io_submit w = elim w.proactor.pending_ops [
  | [] ↦ (w, [])
  | op ∷ ops ↦
      perform io_submit (record w { proactor = record w.proactor { pending_ops = ops } }) op
]
