-- ===== src/Proactor/Workers.antt =====
-- The threads that run `worker_thread_func` of codes/network/proactor/proactor.c, next to each other and
-- to the threads that submit operations. What a thread does while it holds `queue_mutex` is one step;
-- `pthread_cond_timedwait`, which gives the mutex up, ends a step, and may return at any time.
mod Alone
mod Conservation
mod Stopping
mod Tests
use hepeng_projects.Prelude.{
  ℕ, Bool, true, false, ◌&&◌, not, List, [], ◌∷◌, ◌++◌, if◌then◌else◌, get_or, set,
}
use hepeng_projects.Proactor.Connection.{
  OperationType, Submitted, accepted, refused, failed, op_accept, op_read, op_write, op_close,
  Operation, World, submit_operation, perform,
}

-- Where a thread stands: before the test of the outer loop, before it gets the mutex, in a wait, with the operation that
-- it has taken, or at its end.
pub data Worker : Type 0 where
  at_test locking waiting exited : Worker
  holding : Operation → Worker

-- The world with the threads; `kernel` is what `io_submit` has accepted, and `freed` what has been given
-- to `free`, latest first.
pub record Pool : Type 0 where
  pub world : World
  pub workers : List Worker
  pub kernel : List Operation
  pub freed : List Operation

-- Whether the switch frees an operation of the type, when `io_submit` answers so.
abbrev pub frees : OperationType → Submitted → Bool
frees op_accept answer = true
frees op_close answer = true
frees op_read accepted = false
frees op_read refused = false
frees op_read failed = true
frees op_write accepted = false
frees op_write refused = false
frees op_write failed = true

-- The switch, at the operation that the thread holds.
unfoldable pub settle : Submitted → Pool → Operation → Pool
unfolding perform
settle answer p op =
    let (w, given) = perform (λ o. answer) p.world op in
    record p {
      world = w;
      kernel = given ++ p.kernel;
      freed = if frees op.type answer then op ∷ p.freed else p.freed;
    }

abbrev pub is_empty : List Operation → Bool
is_empty [] = true
is_empty (op ∷ ops) = false

-- From the end of the inner loop to the release of the mutex, while the proactor runs.
unfoldable pub take_operation : Pool → Pool × Worker
take_operation p = elim p.world.proactor.pending_ops [
  | [] ↦ (p, at_test)
  | op ∷ ops ↦ (
    record p {
      world = record p.world { proactor = record p.world.proactor { pending_ops = ops } };
    },
    holding op,
  )
]

-- The inner loop from a test on, or from its break, `timed_out` saying how the last wait has ended.
unfoldable pub after_waiting : Bool → Pool → Pool × Worker
unfolding take_operation
after_waiting timed_out p =
    if not timed_out && (is_empty p.world.proactor.pending_ops && p.world.proactor.running)
    then (p, waiting)
    else if p.world.proactor.running
    then take_operation p
    else (p, exited)

-- The next step of a thread. At the mutex and in a wait it is what the thread does once it holds the mutex
-- (again).
unfoldable pub move : Bool → Submitted → Pool → Worker → Pool × Worker
unfolding after_waiting settle
move timed_out answer p exited = (p, exited)
move timed_out answer p at_test = (p, if p.world.proactor.running then locking else exited)
move timed_out answer p locking = after_waiting false p
move timed_out answer p waiting = after_waiting timed_out p
move timed_out answer p (holding op) = (settle answer p op, at_test)

abbrev pub placed : ℕ → Pool × Worker → Pool
placed i (p, t) = record p { workers = set p.workers i t }

-- What happens: another thread submits an operation, the thread of a number makes its next step, or
-- `running` is cleared.
pub data Happening : Type 0 where
  submits : Operation → Happening
  advances : ℕ → Bool → Submitted → Happening
  stops : Happening

unfoldable pub happen : Happening → Pool → Pool
unfolding move submit_operation
happen (submits op) p = record p { world = submit_operation p.world op }
happen (advances i timed_out answer) p =
    placed i (move timed_out answer p (get_or p.workers i exited))
happen stops p = record p {
  world = record p.world { proactor = record p.world.proactor { running = false } };
}

unfoldable pub happen_all : List Happening → Pool → Pool
unfolding happen
happen_all [] p = p
happen_all (h ∷ hs) p = happen_all hs (happen h p)
