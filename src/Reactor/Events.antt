-- ===== src/Reactor/Events.antt =====
-- The events of a reactor thread in codes/network/reactor/reactor.c: `handle_read_event`,
-- `handle_write_events`, and a round of the loop of `reactor_thread_main`.
use hepeng_projects.Prelude.{
  ℕ, zero, suc, ◌+◌, Bool, ◌||◌, List, [], ◌∷◌, Option, none, some, ltb, get_or, if◌then◌else◌,
  sub64,
}
use hepeng_projects.Reactor.Connection.{
  Connection, Call, Read, Write, ReadEnd, stays, closing, out_of_fuel, read_loop, read_fuel,
  write_round,
}
use hepeng_projects.Reactor.Thread.{World, update, with_log, handle_close_event}

infixl 5 ◌>>=◌
abbrev pub ◌>>=◌ {ℓ κ} : {A : Type ℓ} {B : Type κ} → Option A → (A → Option B) → Option B
none >>= f = none
some a >>= f = f a

abbrev pub store : World → ℕ → Connection → World
store w p c = record w { heap = update w.heap p (some c) }

-- What the sockets do during a round: reads and writes at each pointer.
pub record Sockets : Type 0 where
  pub recv : ℕ → ℕ → ℕ → Read
  pub send : ℕ → ℕ → Write

-- What `handle_read_event` does once its loop is left.
unfoldable pub after_loop : World → ℕ → Connection × List Call × ReadEnd → Option World
after_loop w p (c, calls, stays) = some (with_log (store w p c) calls)
after_loop w p (c, calls, closing) = handle_close_event (with_log (store w p c) calls) (some p)
after_loop w p (c, calls, out_of_fuel) = some (with_log (store w p c) calls)

unfoldable pub handle_read_event : Sockets → World → ℕ → Option World
unfolding after_loop
handle_read_event s w p = do c ← w.heap p; after_loop w p (read_loop (s.recv p) read_fuel 0 c)

-- The body of the loop of `handle_write_events` at a pointer that is not NULL.
unfoldable pub handle_write_event : Sockets → World → ℕ → Option World
handle_write_event s w p = do
  c ← w.heap p
  let (c', calls, close) = write_round (s.send p) c
  if close
      then handle_close_event (with_log (store w p c') calls) (some p)
      else some (with_log (store w p c') calls)

-- The bits of `events[i].events` that the loop tests, with `events[i].data.ptr` and the time when the
-- loop comes to the event.
pub record Event : Type 0 where
  pub now : ℕ
  pub conn : Option ℕ
  pub err : Bool
  pub hup : Bool
  pub inp : Bool
  pub out : Bool

-- `read_conns` and `write_conns`.
pub record Ready : Type 0 where
  pub state : World
  pub read_conns : List ℕ
  pub write_conns : List ℕ

abbrev pub push_if : Bool → ℕ → List ℕ → List ℕ
push_if b p ps = if b then p ∷ ps else ps

-- A pointer of an event, with the time of the event noted in the connection.
unfoldable pub touch : World → ℕ → ℕ → Option World
touch w p now = do c ← w.heap p; some (store w p (record c { last_active_time = now }))

-- The loop that sorts the events: erroneous connections are closed, the others go to the lists.
unfoldable pub classify : World → List Event → Option Ready
classify w [] = some (record { state = w; read_conns = []; write_conns = [] })
classify w (e ∷ es) = elim e.conn [
  | none ↦ classify w es
  | some p ↦ touch w p e.now >>= λ w1.
      if e.err || e.hup
      then (handle_close_event w1 (some p) >>= λ w2. classify w2 es)
      else (classify w1 es >>= λ r. some (record r {
        read_conns = push_if e.inp p r.read_conns;
        write_conns = push_if e.out p r.write_conns;
      }))
]

unfoldable pub handle_read_events : Sockets → World → List ℕ → Option World
handle_read_events s w [] = some w
handle_read_events s w (p ∷ ps) = handle_read_event s w p >>= λ w'. handle_read_events s w' ps

unfoldable pub handle_write_events : Sockets → World → List ℕ → Option World
handle_write_events s w [] = some w
handle_write_events s w (p ∷ ps) = handle_write_event s w p >>= λ w'. handle_write_events s w' ps

-- The timer: place `i` of the table, where the difference of the times is one of `uint64_t`.
unfoldable pub check_timeout : ℕ → World → ℕ → Option World
check_timeout now w i = elim (get_or w.thread.connections i none) [
  | none ↦ some w
  | some p ↦ w.heap p >>= λ c.
      if ltb 30000 (sub64 now c.last_active_time) then handle_close_event w (some p) else some w
]

-- Its loop over `n` places from `i` on.
unfoldable pub sweep : ℕ → World → ℕ → ℕ → Option World
sweep now w i zero = some w
sweep now w i (suc n) = check_timeout now w i >>= λ w'. sweep now w' (i + 1) n
