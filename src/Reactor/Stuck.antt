-- ===== src/Reactor/Stuck.antt =====
-- A connection whose read buffer is full while its write buffer is empty: the branch of
-- `handle_read_event` for a full buffer leaves the loop without handing the bytes on.
use hepeng_projects.Prelude.{
  ℕ, suc, ◌≡◌, refl, ap, ◌∙◌, true, false, List, [], ◌∷◌, arith, length, ltb, ◌==◌, ◌+◌, ◌%◌, ◌^◌,
  ℤ,
}
use hepeng_projects.Reactor.Connection.{
  Connection, buffer_size, Call, Read, got, Write, ReadEnd, stays, remaining, create, prepend,
  receive, move_to_write, handle_add_write, after_read, read_loop, write_round, epoll_mod, reads,
  writable,
}
use hepeng_projects.Reactor.Session.{Event, can_read, can_write, handle, session}

pub record IsStuck (c : Connection) : Type 0 where
  pub filled : c.read_len ≡ buffer_size
  pub idle : c.write_len ≡ 0

read_loop-filled :
    (recv : ℕ → ℕ → Read) (fuel k : ℕ) (c : Connection)
    → c.read_len ≡ buffer_size
    → read_loop recv (suc fuel) k c ≡ (c, [], stays)
unfolding read_loop
read_loop-filled recv fuel k c h =
    let none_left : (remaining c == 0) ≡ true = ground arith in rw none_left refl

write_round-idle :
    (send : ℕ → Write) (c : Connection) → c.write_len ≡ 0 → write_round send c ≡ (c, [], false)
unfolding write_round
write_round-idle send c h =
    let nothing : ltb c.write_sent c.write_len ≡ false = ground arith in rw nothing refl

handle-IsStuck : (e : Event) (c : Connection) → IsStuck c → handle c e ≡ (c, [], false)
unfolding handle
handle-IsStuck (can_read recv) c s = rw (read_loop-filled recv 16385 0 c s.filled) refl
handle-IsStuck (can_write send) c s = write_round-idle send c s.idle

-- From such a state on no event leads to a call, so that nothing is read, written or closed.
session-IsStuck : (es : List Event) (c : Connection) → IsStuck c → session c es ≡ (c, [])
unfolding session
session-IsStuck [] c s = refl
session-IsStuck (e ∷ es) c s = rw (handle-IsStuck e c s, session-IsStuck es c s) refl

-- A connection, just created, whose first read fills the buffer.
module _ (fd : ℤ) (thread_id now : ℕ) (recv : ℕ → ℕ → Read) (x : ℕ) (xs : List ℕ)
    (full : length (x ∷ xs) ≡ buffer_size) (first : recv 0 buffer_size ≡ got (x ∷ xs)) where
  burst : Connection
  burst = receive (create fd thread_id now) (x ∷ xs)

  burst-IsStuck : IsStuck burst
  unfolding burst receive create
  burst-IsStuck = omega arith

  not_moved : move_to_write burst ≡ burst
  unfolding burst receive create move_to_write
  not_moved =
      let no_room : ltb ((0 + (0 + length (x ∷ xs)) % 2 ^ 32) % 2 ^ 32) buffer_size ≡ false =
        ground arith in
      rw no_room refl

  kept : handle_add_write burst ≡ (burst, epoll_mod fd writable ∷ [])
  unfolding handle_add_write burst receive create
  kept = ap (λ (c : Connection). (c, epoll_mod fd writable ∷ [])) not_moved

  after_read-burst :
      (rest : Connection → Connection × List Call × ReadEnd)
      → after_read (create fd thread_id now) (got (x ∷ xs)) rest
        ≡ prepend (reads fd (x ∷ xs) ∷ epoll_mod fd writable ∷ []) (rest burst)
  unfolding after_read create receive burst
  after_read-burst rest =
      ap (λ (r : Connection × List Call). prepend (reads fd (x ∷ xs) ∷ r.1) (rest r.0)) kept

  read_loop-burst :
      (fuel : ℕ)
      → read_loop recv (suc (suc fuel)) 0 (create fd thread_id now)
        ≡ (burst, reads fd (x ∷ xs) ∷ epoll_mod fd writable ∷ [], stays)
  unfolding read_loop create
  read_loop-burst fuel =
      ap (λ r. after_read (create fd thread_id now) r (read_loop recv (suc fuel) 1)) first
      ∙ after_read-burst (read_loop recv (suc fuel) 1)
      ∙ ap (prepend (reads fd (x ∷ xs) ∷ epoll_mod fd writable ∷ []))
          (read_loop-filled recv fuel 1 burst burst-IsStuck.filled)

  handle-burst :
      handle (create fd thread_id now) (can_read recv)
      ≡ (burst, reads fd (x ∷ xs) ∷ epoll_mod fd writable ∷ [], false)
  unfolding handle
  handle-burst = rw (read_loop-burst 16384) refl

-- A client whose first 8192 bytes arrive in one read gets no answer: the connection reads those bytes
-- and asks for events of writing, and then, however many events of reading and writing follow, and
-- whatever `read` and `write` would give, the handlers of these events make no call for it. What does
-- end it, an event of an error or a hang-up or the timer, is not among these events.
pub burst-unanswered :
    (fd : ℤ) (thread_id now : ℕ) (recv : ℕ → ℕ → Read) (xs : List ℕ)
    → length xs ≡ buffer_size
    → recv 0 buffer_size ≡ got xs
    → (es : List Event)
    → (session (create fd thread_id now) (can_read recv ∷ es)).1
      ≡ reads fd xs ∷ epoll_mod fd writable ∷ []
unfolding session
burst-unanswered fd thread_id now recv [] full first es = absurd (omega arith)
burst-unanswered fd thread_id now recv (x ∷ xs) full first es =
    rw
      (
        handle-burst fd thread_id now recv x xs full first,
        session-IsStuck es (burst fd thread_id now recv x xs full first)
            (burst-IsStuck fd thread_id now recv x xs full first),
      )
      refl
