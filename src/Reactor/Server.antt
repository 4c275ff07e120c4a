-- ===== src/Reactor/Server.antt =====
-- codes/network/reactor/server.c: the listening socket, the accept thread and main.
mod Tests
use hepeng_projects.Prelude.{
  ℕ, Bool, true, false, ◌&&◌, not, List, [], ◌∷◌, ◌++◌, Option, none, some, if◌then◌else◌, ℤ, pos,
  negsuc, is_negative, ◌==◌,
}
use hepeng_projects.Prelude.Kernel.{Accept, connected, accept_failed, again, other}
use hepeng_projects.Prelude.Sockets.{
  SocketGrants, SocketCall, opens, reuses_both, unblocks, closes_socket, binds, listens, first,
}
use hepeng_projects.Reactor.Connection.{Connection}
use hepeng_projects.Reactor.Core.{
  Reactor, Call, closes, starts, joins, reactor_create, reactor_add_connection, reactor_run,
  reactor_stop, reactor_destroy,
}

abbrev pub server_port : ℕ
server_port = 8080

unfoldable pub create_server_socket : SocketGrants → ℕ → Option ℕ × List SocketCall
create_server_socket g port = elim g.socket [
  | none ↦ (none, [])
  | some fd ↦ first (opens fd ∷ []) (
      if not g.setsockopt
      then (none, closes_socket fd ∷ [])
      else first (reuses_both fd ∷ []) (
          if not (g.get_flags && g.set_flags)
          then (none, closes_socket fd ∷ [])
          else first (unblocks fd ∷ []) (
              if not g.bind
              then (none, closes_socket fd ∷ [])
              else first (binds fd port ∷ []) (
                  if not g.listen
                  then (none, closes_socket fd ∷ [])
                  else (some fd, listens fd 65535 ∷ [])))))
]

-- What happens in a round of the loop of `accept_thread_main`: whether another thread has stopped the
-- reactor by the test at its head, and by the one in `reactor_add_connection`, the result of `accept`,
-- and how often the exchange of the push fails spuriously.
pub record Arrival : Type 0 where
  pub stopped : Bool
  pub stopped_meanwhile : Bool
  pub result : Accept
  pub spurious : ℕ

-- The reactor once another thread may have stopped it.
abbrev pub maybe_stopped : Bool → Reactor → Reactor
maybe_stopped b r = if b then record r { running = false } else r

-- The descriptor goes to the reactor, or is closed.
abbrev pub kept_or_closed : ℕ → Reactor → Bool × Option Reactor → Reactor × List Call
kept_or_closed fd r (added, none) = (r, [])
kept_or_closed fd r (added, some r') = (r', if added then [] else closes (pos fd) ∷ [])

-- The rest of the body for a descriptor.
unfoldable pub take_client : ℕ → Reactor → ℕ → Reactor × List Call
unfolding reactor_add_connection
take_client spurious r fd = kept_or_closed fd r (reactor_add_connection spurious (some r) (pos fd))

abbrev pub then_calls : List Call → Reactor × List Call → Reactor × List Call
then_calls calls (r, more) = (r, calls ++ more)

-- A round past its test; `rest` is the rest of the loop. A failure of `accept` other than EAGAIN ends it.
unfoldable pub accept_body :
    Arrival → Reactor → (Reactor → Reactor × List Call) → Reactor × List Call
unfolding take_client
accept_body a r rest = elim a.result [
  | accept_failed again ↦ rest r
  | accept_failed other ↦ (r, [])
  | connected fd ↦
      let (r', calls) = take_client a.spurious (maybe_stopped a.stopped_meanwhile r) fd in
      then_calls calls (rest r')
]

-- The loop of `accept_thread_main`, for as many rounds as are given.
unfoldable pub accept_loop : Reactor → List Arrival → Reactor × List Call
unfolding accept_body
accept_loop r [] = (r, [])
accept_loop r (a ∷ as_) =
    let r' = maybe_stopped a.stopped r in
    if r'.running then accept_body a r' (λ r''. accept_loop r'' as_) else (r', [])

-- `accept_thread_main`.
unfoldable pub accept_thread_main :
    SocketGrants → Reactor → List Arrival → Reactor × List SocketCall × List Call
unfolding create_server_socket accept_loop
accept_thread_main g r as_ =
    let (fd, calls) = create_server_socket g server_port in
    elim fd [
      | none ↦ (r, calls, [])
      | some n ↦ let (r', more) = accept_loop r as_ in (r', calls ++ (closes_socket n ∷ []), more)
    ]

-- `cpu_cores > 0 ? cpu_cores : 4`.
unfoldable pub thread_count : ℤ → ℤ
thread_count (pos n) = if n == 0 then pos 4 else pos n
thread_count (negsuc n) = pos 4

-- What the system gives to main: the number of processors, whether `calloc` succeeds, what
-- `epoll_create1` and `pthread_create` give for each thread, and what `pthread_create` gives for the
-- accept thread, `none` for a failure.
pub record MainGrants : Type 0 where
  pub cpu_cores : ℤ
  pub memory : Bool
  pub epoll : ℕ → Option ℤ
  pub spawn : ℕ → Option ℕ
  pub spawn_accept : Option ℕ

abbrev pub Heap : Type 0
Heap = ℕ → Option Connection

-- The result of main, and the heap and the calls that it leaves.
abbrev pub Exit : Type 0
Exit = Option (ℕ × Heap × List Call)

-- `reactor_destroy` at the end of main.
unfoldable pub destroy_at_exit : ℕ → Heap → Option Reactor → List Call → Exit
unfolding reactor_destroy
destroy_at_exit code heap r calls = elim (reactor_destroy heap r) [
  | none ↦ none
  | some (done, heap', more) ↦ some (code, heap', calls ++ more)
]

-- main once the reactor runs. `life` is what the threads make of the reactor and of the heap until the
-- user ends the server; without an accept thread they get no connection.
unfoldable pub serve : MainGrants → (Reactor → Reactor × Heap) → Reactor → List Call → Exit
unfolding reactor_stop destroy_at_exit
serve g life r calls = elim g.spawn_accept [
  | none ↦
      let (done, r', more) = reactor_stop (some r) in
      destroy_at_exit 1 (λ p. none) r' (calls ++ more)
  | some id ↦
      let (r', heap) = life r in
      let (done, r'', more) = reactor_stop (some r') in
      destroy_at_exit 0 heap r'' (calls ++ (starts id ∷ (more ++ (joins id ∷ []))))
]

-- main after `reactor_run`.
unfoldable pub after_run :
    MainGrants → (Reactor → Reactor × Heap) → Bool × Option Reactor × List Call → Exit
unfolding serve destroy_at_exit
after_run g life (started, none, calls) = none
after_run g life (true, some r, calls) = serve g life r calls
after_run g life (false, some r, calls) = destroy_at_exit 1 (λ p. none) (some r) calls

-- main after `reactor_create`.
unfoldable pub after_create :
    MainGrants → (Reactor → Reactor × Heap) → Option Reactor × List Call → Exit
unfolding reactor_run after_run
after_create g life (none, calls) = some (1, (λ p. none), calls)
after_create g life (some r, calls) = after_run g life (reactor_run g.spawn (some r))

unfoldable pub main : MainGrants → (Reactor → Reactor × Heap) → Exit
unfolding reactor_create after_create
main g life = after_create g life (reactor_create g.memory g.epoll (thread_count g.cpu_cores))
