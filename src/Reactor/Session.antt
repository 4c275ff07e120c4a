-- ===== src/Reactor/Session.antt =====
-- The writes of a connection, and a whole session: any sequence of read and write events.
use hepeng_projects.Prelude.{
  ℕ, zero, suc, ◌+◌, ◌-◌, ◌≤◌, ◌≡◌, refl, inl, inr, Bool, true, false, List, [], ◌∷◌, ◌++◌,
  append_assoc, append-nil, arith, take, drop, take-split, drop-drop, Bool-cases, ltb, leb,
  if◌then◌else◌, add32, sub32, subst, ℤ,
}
use hepeng_projects.Prelude.Memory.{read_at-eq-take}
use hepeng_projects.Reactor.Connection.{
  Connection, Call, writes, Read, again, other, Write, took, write_failed, create, ReadEnd, closing,
  read_loop, handle_add_read_event, outgoing, after_write, write_round,
}
use hepeng_projects.Reactor.Connection.{read_fuel}
use hepeng_projects.Reactor.ReadLoop.{read_loop-Echoes}
use hepeng_projects.Reactor.Echo.{
  IsValid, AtMost, TakesAtMost, owed, bytes_read, bytes_written, Echoes, Echoes-none, Echoes-trans,
  length-zero_bytes,
}

handle_add_read_event-Echoes :
    {c : Connection} → IsValid c → let (c', calls) = handle_add_read_event c in Echoes c calls c'
unfolding handle_add_read_event
handle_add_read_event-Echoes {c} v = elim (Bool-cases (leb c.write_len c.write_sent)) [
  | inl done ↦
      let none_left : c.write_len - c.write_sent ≡ 0 = ground arith in
      rw done (record { valid = ground arith; balance = rw (append-nil, none_left) refl })
  | inr more ↦ rw more (Echoes-none v)
]

-- What `write` takes is the front of what is owed.
sent-Echoes :
    {c : Connection} (n : ℕ)
    → IsValid c
    → n ≤ c.write_len - c.write_sent
    → Echoes c (writes c.fd (outgoing c n) ∷ []) (record c { write_sent = add32 c.write_sent n })
sent-Echoes {c} n v h =
    let now_sent : add32 c.write_sent n ≡ c.write_sent + n = omega arith in
    let now_left : c.write_len - (c.write_sent + n) ≡ c.write_len - c.write_sent - n =
      omega arith in
    record {
      valid = omega arith;
      balance =
          rw
            (
              now_sent,
              now_left,
              append-nil (owed c),
              append-nil (outgoing c n),
              read_at-eq-take 0 c.write_buf c.write_sent n (omega arith),
              take-split n (c.write_len - c.write_sent) (drop c.write_sent c.write_buf) h,
              drop-drop c.write_sent n c.write_buf,
              append_assoc (take n (drop c.write_sent c.write_buf)),
            )
            refl;
    }

after_write-Echoes :
    {c : Connection} (r : Write)
    → IsValid c
    → TakesAtMost r (c.write_len - c.write_sent)
    → let (c', calls, close) = after_write c r in Echoes c calls c'
unfolding after_write
after_write-Echoes (took zero) v h = Echoes-none v
after_write-Echoes {c} (took (suc n)) v h =
    let sent = sent-Echoes (suc n) v h in
    Echoes-trans (writes c.fd (outgoing c (suc n)) ∷ []) _ sent
      (handle_add_read_event-Echoes sent.valid)
after_write-Echoes (write_failed again) v h = Echoes-none v
after_write-Echoes (write_failed other) v h = Echoes-none v

-- A round of `handle_write_events` writes the first of the bytes owed, reads none, and keeps the
-- connection valid, whatever its `write` gives.
pub write_round-Echoes :
    (send : ℕ → Write) {c : Connection}
    → ((n : ℕ) → TakesAtMost (send n) n)
    → IsValid c
    → let (c', calls, close) = write_round send c in Echoes c calls c'
unfolding write_round
write_round-Echoes send {c} contract v = elim (Bool-cases (ltb c.write_sent c.write_len)) [
  | inl more ↦
      let left : sub32 c.write_len c.write_sent ≡ c.write_len - c.write_sent = ground arith in
      rw more (
        after_write-Echoes (send (sub32 c.write_len c.write_sent)) v
          (subst (TakesAtMost (send (sub32 c.write_len c.write_sent))) left (contract _)))
  | inr none_left ↦ rw none_left (Echoes-none v)
]

-- An event at a connection, with what the kernel answers to the calls that it leads to.
pub data Event : Type 0 where
  can_read : (ℕ → ℕ → Read) → Event
  can_write : (ℕ → Write) → Event

abbrev pub KeepsContract : Event → Type 0
KeepsContract (can_read recv) = (k n : ℕ) → AtMost (recv k n) n
KeepsContract (can_write send) = (n : ℕ) → TakesAtMost (send n) n

abbrev pub AllKeepContract : List Event → Type 0
AllKeepContract [] = Unit
AllKeepContract (e ∷ es) = KeepsContract e × AllKeepContract es

unfoldable pub is_closing : ReadEnd → Bool
is_closing closing = true
is_closing _ = false

-- The loop of `handle_read_event` or a round of `handle_write_events`; the flag says that the
-- connection is to be closed.
unfoldable pub handle : Connection → Event → Connection × List Call × Bool
unfolding is_closing
handle c (can_read recv) =
    let (c', calls, e) = read_loop recv read_fuel 0 c in (c', calls, is_closing e)
handle c (can_write send) = write_round send c

-- The events at a connection, in order, up to the one after which it is closed.
unfoldable pub session : Connection → List Event → Connection × List Call
session c [] = (c, [])
session c (e ∷ es) =
    let (c', calls, close) = handle c e in
    let (c'', more) = session c' es in if close then (c', calls) else (c'', calls ++ more)

handle-Echoes :
    {c : Connection} (e : Event)
    → IsValid c
    → KeepsContract e
    → let (c', calls, close) = handle c e in Echoes c calls c'
unfolding handle
handle-Echoes (can_read recv) v h = read_loop-Echoes recv read_fuel 0 h v
handle-Echoes (can_write send) v h = write_round-Echoes send h v

pub session-Echoes :
    (es : List Event) {c : Connection}
    → IsValid c
    → AllKeepContract es
    → let (c', calls) = session c es in Echoes c calls c'
unfolding session
session-Echoes [] v h = Echoes-none v
session-Echoes (e ∷ es) {c} v h =
    let first = handle-Echoes e v h.0 in
    elim (Bool-cases (handle c e).2) [
      | inl closed ↦ rw closed first
      | inr open_still ↦ rw open_still (Echoes-trans _ _ first (session-Echoes es first.valid h.1))
    ]

pub create-IsValid : (fd : ℤ) (thread_id now : ℕ) → IsValid (create fd thread_id now)
unfolding create
create-IsValid fd thread_id now = ground (arith, length-zero_bytes)

-- The server echoes: over any sequence of read and write events from the creation of a connection
-- on, the bytes read are exactly the bytes written followed by those that it still holds, in order,
-- provided that the kernel's reads and writes move at most as many bytes as they are asked to.
pub session_echoes :
    (fd : ℤ) (thread_id now : ℕ) (es : List Event)
    → AllKeepContract es
    → let (c', calls) = session (create fd thread_id now) es in
      bytes_read calls ≡ bytes_written calls ++ owed c'
unfolding create
session_echoes fd thread_id now es h =
    (session-Echoes es (create-IsValid fd thread_id now) h).balance
