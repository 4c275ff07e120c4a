-- ===== src/Proactor/Dispatcher.antt =====
-- The dispatcher of codes/network/proactor/proactor.c: `handle_new_connection` and
-- `dispatcher_thread_func`.
use hepeng_projects.Prelude.{
  ℕ, Bool, false, ◌&&◌, not, List, [], ◌∷◌, ◌++◌, Option, none, some, ◌==◌, if◌then◌else◌, ℤ, pos,
  negsuc,
}
use hepeng_projects.Prelude.Kernel.{Accept, connected, accept_failed}
use hepeng_projects.Proactor.Connection.{
  Operation, World, Call, epoll_add, closes, handle_connection_event,
}
use hepeng_projects.Proactor.Completion.{Answers, setup_new_connection, complete}

abbrev pub with_log : World → List Call → World
with_log w calls = record w { log = w.log ++ calls }

-- What happens at the listening socket: the result of `accept`, whether `set_nonblock` succeeds, what
-- `malloc` gives, and whether `epoll_ctl` with ADD succeeds.
pub record Arrival : Type 0 where
  pub result : Accept
  pub nonblock : Bool
  pub memory : Answers
  pub added : Bool

-- `handle_new_connection`: the descriptor is added to epoll even if it has been closed; the call then
-- fails.
unfoldable pub handle_new_connection : Arrival → World → Option World
unfolding setup_new_connection
handle_new_connection a w = elim a.result [
  | accept_failed e ↦ some w
  | connected fd ↦
      if not a.nonblock
      then some (with_log w (closes (pos fd) ∷ []))
      else elim (setup_new_connection a.memory w (pos fd)) [
        | none ↦ none
        | some v ↦ some (with_log v (if a.added then epoll_add (pos fd) ∷ [] else []))
      ]
]

abbrev pub same_fd : ℤ → ℤ → Bool
same_fd (pos m) (pos n) = m == n
same_fd (negsuc m) (negsuc n) = m == n
same_fd (pos m) (negsuc n) = false
same_fd (negsuc m) (pos n) = false

-- An element of `epoll_events`, with whether it has EPOLLERR and EPOLLHUP; `arrival` serves the one of
-- the listening socket.
pub record EpollEvent : Type 0 where
  pub fd : ℤ
  pub err : Bool
  pub hup : Bool
  pub arrival : Arrival

-- The loop over `epoll_events`. The exit event ends it and the program.
unfoldable pub dispatch_events : ℤ → World → List EpollEvent → Option World
unfolding handle_new_connection handle_connection_event
dispatch_events listen_fd w [] = some w
dispatch_events listen_fd w (e ∷ es) =
    if same_fd e.fd w.proactor.exit_event_fd
    then some (record w { proactor = record w.proactor { running = false } })
    else elim (if same_fd e.fd listen_fd
        then handle_new_connection e.arrival w
        else handle_connection_event w e.fd e.err e.hup) [
          | none ↦ none
          | some v ↦ dispatch_events listen_fd v es
        ]

-- An element of `events`: the operation, its result, and what `malloc` gives to its handler.
pub record Completed : Type 0 where
  pub op : Option Operation
  pub res : ℕ
  pub memory : Answers

-- The loop over `events`.
unfoldable pub complete_each : World → List Completed → Option World
unfolding complete
complete_each w [] = some w
complete_each w (c ∷ cs) = elim (complete c.memory w c.op c.res) [
  | none ↦ none
  | some v ↦ complete_each v cs
]

-- What a round of `dispatcher_thread_func` gets from `epoll_wait`, where a failure is the same as no
-- event, and from `io_getevents`, where it is `none`. `running` says whether another thread has left
-- the proactor running by the second test.
pub record DispatcherRound : Type 0 where
  pub epoll_events : List EpollEvent
  pub running : Bool
  pub events : Option (List Completed)

unfoldable pub dispatcher_round : ℤ → DispatcherRound → World → Option World
unfolding dispatch_events complete_each
dispatcher_round listen_fd r w = elim (dispatch_events listen_fd w r.epoll_events) [
  | none ↦ none
  | some v ↦
      if v.proactor.running && r.running
      then elim r.events [ none ↦ some v | some cs ↦ complete_each v cs ]
      else some v
]

-- For as many rounds as are given, while the proactor runs.
unfoldable pub dispatcher_loop : ℤ → World → List DispatcherRound → Option World
unfolding dispatcher_round
dispatcher_loop listen_fd w [] = some w
dispatcher_loop listen_fd w (r ∷ rs) =
    if not w.proactor.running then some w else elim (dispatcher_round listen_fd r w) [
      | none ↦ none
      | some v ↦ if r.running then dispatcher_loop listen_fd v rs else some v
    ]

-- The flags say whether the exit event and the listening socket can be added to epoll.
unfoldable pub dispatcher_thread_func :
    Bool → Bool → ℤ → World → List DispatcherRound → Option World
unfolding dispatcher_loop
dispatcher_thread_func exit_added listen_added listen_fd w rs =
    let exits = if exit_added then epoll_add w.proactor.exit_event_fd ∷ [] else [] in
    let listens = if listen_added then epoll_add listen_fd ∷ [] else [] in
    dispatcher_loop listen_fd (with_log w (exits ++ listens)) rs
