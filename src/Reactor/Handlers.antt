-- ===== src/Reactor/Handlers.antt =====
-- The handlers of single events read no freed memory, keep what a thread owns, and free no connection
-- but their own.
use hepeng_projects.Prelude.{
  ℕ, zero, suc, ◌+◌, ◌≡◌, ◌≢◌, refl, sym, ◌∙◌, Bool, true, false, List, [], ◌∷◌, Option, none, some,
  arith, ltb, if◌then◌else◌, get_or, sub64, inl, inr, Bool-cases, Option-cases,
}
use hepeng_projects.Reactor.Connection.{
  Connection, Call, ReadEnd, stays, closing, out_of_fuel, read_loop, read_fuel, write_round,
}
use hepeng_projects.Reactor.Echo.{IsValid, AtMost, TakesAtMost}
use hepeng_projects.Reactor.ReadLoop.{read_loop-Echoes}
use hepeng_projects.Reactor.Session.{write_round-Echoes}
use hepeng_projects.Reactor.Table.{Table, holds}
use hepeng_projects.Reactor.Thread.{World, with_log, handle_close_event}
use hepeng_projects.Reactor.Events.{
  ◌>>=◌, store, Sockets, after_loop, handle_read_event, handle_write_event, touch, check_timeout,
  sweep,
}
use hepeng_projects.Reactor.Ownership.{
  alive, alive-some, Owns, handle_close_event-Owns, store-Owns, with_log-Owns,
}

-- A step at `p` succeeds, keeps what the thread owns, and every other live connection lives on.
abbrev pub Steps : World → ℕ → Option World → Type 0
Steps w p r =
    (w' : World) × (r ≡ some w')
    × Owns w'
    × ((q : ℕ) → p ≢ q → alive w q ≡ true → alive w' q ≡ true)

-- read(2) and write(2) at every pointer.
pub record KeepContract (s : Sockets) : Type 0 where
  pub reads : (p j n : ℕ) → AtMost (s.recv p j n) n
  pub writes : (p n : ℕ) → TakesAtMost (s.send p n) n

pub close-Steps :
    {w : World} (p : ℕ) → Owns w → alive w p ≡ true → Steps w p (handle_close_event w (some p))
close-Steps {w} p o h =
    let (c, here) = alive-some w p h in
    let (w', e, o', cells, log, count) = handle_close_event-Owns p o here in
    (w', e, o', λ q ne live. ground (arith, cells q))

-- After a connection has been updated, it is kept or closed.
kept_or_closed :
    {w : World} (p : ℕ) {c : Connection} (calls : List Call) (close : Bool)
    → Owns w
    → alive w p ≡ true
    → IsValid c
    → Steps w p (
        if close
        then handle_close_event (with_log (store w p c) calls) (some p)
        else some (with_log (store w p c) calls))
kept_or_closed {w} p {c} calls false o h v = (
  with_log (store w p c) calls,
  refl,
  with_log-Owns calls (store-Owns p o h v),
  λ q ne live. ground arith,
)
kept_or_closed {w} p {c} calls true o h v =
    let (w', e, o', kept) =
      close-Steps p (with_log-Owns calls (store-Owns p o h v)) (ground arith) in
    (w', e, o', λ q ne live. kept q ne (ground arith))

after_loop-Steps :
    {w : World} (p : ℕ) (r : Connection × List Call × ReadEnd)
    → Owns w
    → alive w p ≡ true
    → IsValid r.0
    → Steps w p (after_loop w p r)
unfolding after_loop
after_loop-Steps p (c, calls, stays) o h v = kept_or_closed p calls false o h v
after_loop-Steps p (c, calls, closing) o h v = kept_or_closed p calls true o h v
after_loop-Steps p (c, calls, out_of_fuel) o h v = kept_or_closed p calls false o h v

pub handle_read_event-Steps :
    (s : Sockets) {w : World} (p : ℕ)
    → KeepContract s
    → Owns w
    → alive w p ≡ true
    → Steps w p (handle_read_event s w p)
unfolding handle_read_event
handle_read_event-Steps s {w} p k o h =
    let (c, here) = alive-some w p h in
    rw (here, handle_read_event)
      (after_loop-Steps p (read_loop (s.recv p) read_fuel 0 c) o h
        (read_loop-Echoes (s.recv p) read_fuel 0 (k.reads p) (o.sound p c here)).valid)

pub handle_write_event-Steps :
    (s : Sockets) {w : World} (p : ℕ)
    → KeepContract s
    → Owns w
    → alive w p ≡ true
    → Steps w p (handle_write_event s w p)
unfolding handle_write_event
handle_write_event-Steps s {w} p k o h =
    let (c, here) = alive-some w p h in
    rw (here, handle_write_event)
      (kept_or_closed p (write_round (s.send p) c).1 (write_round (s.send p) c).2 o h
        (write_round-Echoes (s.send p) (k.writes p) (o.sound p c here)).valid)

pub touch-Steps :
    {w : World} (p now : ℕ)
    → Owns w
    → alive w p ≡ true
    → (w' : World) × (touch w p now ≡ some w') × Owns w' × ((q : ℕ) → alive w' q ≡ alive w q)
unfolding touch
touch-Steps {w} p now o h =
    let (c, here) = alive-some w p h in
    (
      store w p (record c { last_active_time = now }),
      rw (here, touch) refl,
      store-Owns p o h (touched (o.sound p c here)),
      λ q. ground arith,
    )
  where
    touched : {c : Connection} → IsValid c → IsValid (record c { last_active_time = now })
    touched v = record {
      read_room = v.read_room;
      write_room = v.write_room;
      read_in = v.read_in;
      sent_in = v.sent_in;
      write_in = v.write_in;
    }

get_or-holds : (t : Table) (i p : ℕ) → get_or t i none ≡ some p → holds t p ≡ true
get_or-holds [] i p e = cc
get_or-holds (none ∷ t) zero p e = cc
get_or-holds (some q ∷ t) zero p e = ground arith
get_or-holds (none ∷ t) (suc i) p e = get_or-holds t i p e
get_or-holds (some q ∷ t) (suc i) p e = ground (arith, get_or-holds t i p e)

check_timeout-Owns :
    (now : ℕ) {w : World} (i : ℕ)
    → Owns w
    → (w' : World) × (check_timeout now w i ≡ some w') × Owns w'
unfolding check_timeout
check_timeout-Owns now {w} i o = elim (Option-cases (get_or w.thread.connections i none)) [
  | inl free ↦ (w, rw (free, check_timeout) refl, o)
  | inr (p, taken) ↦
      let h : alive w p ≡ true = sym (o.owned p) ∙ get_or-holds w.thread.connections i p taken in
      let (c, here) = alive-some w p h in
      elim (Bool-cases (ltb 30000 (sub64 now c.last_active_time))) [
        | inl late ↦
            let (w', e, o', kept) = close-Steps p o h in
            (w', rw (taken, check_timeout) (rw (here, ◌>>=◌) (rw late e)), o')
        | inr active ↦ (w, rw (taken, check_timeout) (rw (here, ◌>>=◌) (rw active refl)), o)
      ]
]

-- The timer's loop reads no freed memory, although it closes connections while it goes through the
-- table, and keeps what the thread owns.
pub sweep-Owns :
    (now : ℕ) (n : ℕ) {w : World} (i : ℕ)
    → Owns w
    → (w' : World) × (sweep now w i n ≡ some w') × Owns w'
unfolding sweep
sweep-Owns now zero {w} i o = (w, refl, o)
sweep-Owns now (suc n) {w} i o =
    let (w1, e, o1) = check_timeout-Owns now i o in
    let (w2, e2, o2) = sweep-Owns now n (i + 1) o1 in (w2, rw (e, ◌>>=◌) e2, o2)
