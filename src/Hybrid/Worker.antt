-- ===== src/Hybrid/Worker.antt =====
-- The loop of `worker_thread_func` in codes/network/proactor_epoll/hybrid_proactor.c.
use hepeng_projects.Prelude.{
  ℕ, Bool, true, false, ◌||◌, ◌&&◌, not, List, [], ◌∷◌, Option, none, some, if◌then◌else◌, ℤ,
  is_negative,
}
use hepeng_projects.Hybrid.Connection.{World, epoll_add, with_log}
use hepeng_projects.Hybrid.Events.{
  Kernel, Flags, mt_handle_connection_event, mt_handle_aio_completion,
}

-- An element of `events`: the exit event, a null pointer, or a connection with its flags, and what the
-- system gives while it is handled.
pub data Event : Type 0 where
  exit_event : Event
  no_connection : Event
  ready : ℕ → Flags → Kernel → Kernel → Event

-- An element of `aio_events`: `res2` is only compared with 0. `stopping` says whether another thread has
-- ended the worker or begun the shutdown by the time it is taken up.
pub record Completion : Type 0 where
  pub stopping : Bool
  pub conn : Option ℕ
  pub res : ℕ
  pub res2_is_zero : Bool
  pub kernel : Kernel

-- The results of `epoll_wait` and of `io_getevents`.
pub data Wait : Type 0 where
  wait_interrupted wait_failed : Wait
  woken : List Event → Wait

pub data Getevents : Type 0 where
  get_interrupted get_invalid get_failed : Getevents
  completed : List Completion → Getevents

-- What happens during a round. A flag says whether another thread has ended the worker or begun the
-- shutdown by the test after `epoll_wait` was interrupted or its events were handled, by that after
-- `io_getevents` was interrupted, and by that after its events.
pub record Round : Type 0 where
  pub wait : Wait
  pub stopping_events : Bool
  pub getevents : Getevents
  pub stopping_interrupted : Bool
  pub stopping_completions : Bool

-- The loop over `events`. The exit event ends it and the worker.
unfoldable pub handle_events : World → List Event → Option World
unfolding mt_handle_connection_event
handle_events w [] = some w
handle_events w (exit_event ∷ es) = some (record w { worker = record w.worker { running = false } })
handle_events w (no_connection ∷ es) = handle_events w es
handle_events w (ready p f k k' ∷ es) = elim (mt_handle_connection_event k k' w p f) [
  | none ↦ none
  | some v ↦ handle_events v es
]

-- The loop over `aio_events`.
unfoldable pub handle_completions : World → List Completion → Option World
handle_completions w [] = some w
handle_completions w (c ∷ cs) =
    if not w.worker.running || c.stopping
    then some w
    else elim (mt_handle_aio_completion c.kernel w c.conn c.res c.res2_is_zero) [
      | none ↦ none
      | some v ↦ handle_completions v cs
    ]

-- The flag says that the loop goes on.
abbrev pub goes_on : Bool → World → Bool × World
goes_on stopping w = (not (not w.worker.running || stopping), w)

-- The second half of a round.
unfoldable pub take_completions : Round → World → Option (Bool × World)
unfolding handle_completions
take_completions r w = elim r.getevents [
  | get_interrupted ↦ some (goes_on r.stopping_interrupted w)
  | get_invalid ↦ some (false, w)
  | get_failed ↦ some (true, w)
  | completed cs ↦ elim (handle_completions w cs) [
    | none ↦ none
    | some v ↦ some (goes_on r.stopping_completions v)
  ]
]

unfoldable pub wait_round : Round → World → Option (Bool × World)
unfolding handle_events take_completions
wait_round r w = elim r.wait [
  | wait_interrupted ↦ some (goes_on r.stopping_events w)
  | wait_failed ↦ some (false, w)
  | woken es ↦ elim (handle_events w es) [
    | none ↦ none
    | some v ↦
        if not v.worker.running || r.stopping_events then some (false, v) else take_completions r v
  ]
]

-- The worker for as long as rounds are given and it is not ended; `stopping` is the flag for the test at
-- the head of the loop, and does not end the worker if false.
unfoldable pub worker_loop : World → List (Bool × Round) → Option World
unfolding wait_round
worker_loop w [] = some w
worker_loop w ((stopping, r) ∷ rs) =
    if not w.worker.running || stopping then some w else elim (wait_round r w) [
      | none ↦ none
      | some (go, v) ↦ if go then worker_loop v rs else some v
    ]

-- `worker_thread_func`: the exit event is registered first, if there is one; the flag says that this
-- succeeds.
unfoldable pub worker_thread_func : Bool → ℤ → World → List (Bool × Round) → Option World
unfolding worker_loop
worker_thread_func added exit_event_fd w rs =
    worker_loop
      (if added && not (is_negative exit_event_fd)
        then with_log w (epoll_add exit_event_fd ∷ [])
        else w)
      rs
