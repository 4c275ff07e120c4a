-- ===== src/Proactor/Dispatching.antt =====
-- The events of a round of `dispatcher_thread_func` in codes/network/proactor/proactor.c.
use hepeng_projects.Prelude.{
  ◌≡◌, refl, Bool, true, false, List, [], ◌∷◌, Option, some, if◌then◌else◌, ℤ, pos, inl, inr,
  Bool-cases,
}
use hepeng_projects.Prelude.Kernel.{Accept, connected, accept_failed}
use hepeng_projects.Proactor.Connection.{World, epoll_add, Call, handle_connection_event}
use hepeng_projects.Proactor.Ownership.{Owns, handle_connection_event-Owns}
use hepeng_projects.Proactor.Setup.{Allocates, setup_new_connection-Owns}
use hepeng_projects.Proactor.Dispatcher.{
  Arrival, EpollEvent, with_log, handle_new_connection, same_fd, dispatch_events,
}

abbrev Kept : Option World → Type 0
Kept r = (w' : World) × (r ≡ some w') × Owns w'

with_log-Owns : {w : World} (calls : List Call) → Owns w → Owns (with_log w calls)
with_log-Owns calls o = record { sized = o.sized; live = o.live }

handle_new_connection-Owns :
    (a : Arrival) {w : World} → Allocates a.memory → Owns w → Kept (handle_new_connection a w)
unfolding handle_new_connection
handle_new_connection-Owns a {w} fresh o = go a.result a.nonblock
  where
    go :
        (r : Accept) (b : Bool)
        → Kept (handle_new_connection (record a { result = r; nonblock = b }) w)
    go (accept_failed e) b = (w, refl, o)
    go (connected fd) false = (_, refl, with_log-Owns _ o)
    go (connected fd) true =
        let (v, runs, ov, s) = setup_new_connection-Owns a.memory (pos fd) fresh o in
        (
          with_log v (if a.added then epoll_add (pos fd) ∷ [] else []),
          rw (runs, handle_new_connection) refl,
          with_log-Owns _ ov,
        )

-- Whenever `malloc` gives memory, it is not in use.
abbrev pub AllAllocate : List EpollEvent → Type 0
AllAllocate [] = Unit
AllAllocate (e ∷ es) = Allocates e.arrival.memory × AllAllocate es

-- The dispatcher handles any events of epoll, at any descriptors and in any order: the exit event, new
-- connections, and errors of connections, also where there is no connection or it has just been
-- removed. No freed memory is used, nothing is freed twice, and afterwards every entry of the array of
-- connections has a live context of its descriptor, whose handler, if it is set, is live.
pub dispatch_events-Owns :
    (listen_fd : ℤ) (es : List EpollEvent) (w : World)
    → AllAllocate es
    → Owns w
    → (w' : World) × (dispatch_events listen_fd w es ≡ some w') × Owns w'
unfolding dispatch_events
dispatch_events-Owns listen_fd [] w fresh o = (w, refl, o)
dispatch_events-Owns listen_fd (e ∷ es) w (now, later) o =
    elim (Bool-cases (same_fd e.fd w.proactor.exit_event_fd)) [
      | inl h ↦ rw h (_, refl, record { sized = o.sized; live = o.live })
      | inr h ↦
          let (v, runs, ov) = one (same_fd e.fd listen_fd) in
          let (w', ends, o') = dispatch_events-Owns listen_fd es v later ov in
          (w', rw (h, runs, dispatch_events) ends, o')
    ]
  where
    one :
        (b : Bool)
        → Kept (
            if b
            then handle_new_connection e.arrival w
            else handle_connection_event w e.fd e.err e.hup)
    one true = handle_new_connection-Owns e.arrival now o
    one false = handle_connection_event-Owns e.fd e.err e.hup o
