-- ===== src/Reactor/ReadLoop.antt =====
-- The loop of `handle_read_event`: what it does to the bytes owed, and that it ends.
use hepeng_projects.Prelude.{
  ℕ, zero, suc, ◌+◌, ◌-◌, ◌≤◌, ◌<◌, ◌≢◌, inl, inr, List, [], ◌∷◌, arith, length, Bool-cases,
  if◌then◌else◌, ◌==◌,
}
use hepeng_projects.Reactor.Connection.{
  Connection, buffer_size, Call, Read, got, read_failed, again, other, move_to_write,
  handle_add_write, ReadEnd, out_of_fuel, remaining, receive, after_read, read_loop,
}
use hepeng_projects.Reactor.Echo.{
  IsValid, AtMost, Echoes, Echoes-none, Echoes-trans, Echoes-receive,
}

after_read-Echoes :
    {c : Connection} (r : Read) (rest : Connection → Connection × List Call × ReadEnd)
    → IsValid c
    → AtMost r (remaining c)
    → ((d : Connection) → IsValid d → Echoes d (rest d).1 (rest d).0)
    → let (c', calls, e) = after_read c r rest in Echoes c calls c'
unfolding after_read
after_read-Echoes (got []) rest v h more = Echoes-none v
after_read-Echoes (read_failed again) rest v h more = Echoes-none v
after_read-Echoes (read_failed other) rest v h more = Echoes-none v
after_read-Echoes {c} (got (x ∷ xs)) rest v h more =
    let one = Echoes-receive (x ∷ xs) v h in Echoes-trans _ _ one (more _ one.valid)

-- What `handle_read_event` reads from a valid connection is owed after it, behind what was owed
-- before, and nothing is written; the connection stays valid.
pub read_loop-Echoes :
    (recv : ℕ → ℕ → Read) (fuel k : ℕ) {c : Connection}
    → ((j n : ℕ) → AtMost (recv j n) n)
    → IsValid c
    → let (c', calls, e) = read_loop recv fuel k c in Echoes c calls c'
unfolding read_loop
read_loop-Echoes recv zero k contract v = Echoes-none v
read_loop-Echoes recv (suc fuel) k {c} contract v = elim (Bool-cases (remaining c == 0)) [
  | inl filled ↦ rw filled (Echoes-none v)
  | inr room ↦ rw room (
      after_read-Echoes (recv k (remaining c)) (read_loop recv fuel (k + 1)) v
        (contract k (remaining c)) (λ d w. read_loop-Echoes recv fuel (k + 1) contract w))
]

-- The rounds that the loop of `handle_read_event` may still make.
abbrev pub rounds : Connection → ℕ
rounds c = buffer_size - c.read_len + (if c.write_len == 0 then buffer_size + 1 else 0)

after_read-rounds :
    {c : Connection} (x : ℕ) (xs : List ℕ)
    → IsValid c
    → length (x ∷ xs) ≤ remaining c
    → rounds (handle_add_write (receive c (x ∷ xs))).0 < rounds c
unfolding handle_add_write move_to_write receive
after_read-rounds {c} x xs v fits = ground arith

after_read-ends :
    {c : Connection} (r : Read) (rest : Connection → Connection × List Call × ReadEnd)
    → IsValid c
    → AtMost r (remaining c)
    → ((d : Connection) → IsValid d → rounds d < rounds c → (rest d).2 ≢ out_of_fuel)
    → (after_read c r rest).2 ≢ out_of_fuel
unfolding after_read
after_read-ends (got []) rest v h more = λ e. cc
after_read-ends (read_failed again) rest v h more = λ e. cc
after_read-ends (read_failed other) rest v h more = λ e. cc
after_read-ends {c} (got (x ∷ xs)) rest v h more =
    more _ (Echoes-receive (x ∷ xs) v h).valid (after_read-rounds x xs v h)

-- The loop of `handle_read_event` ends, whatever the peer sends: on a valid connection it makes at
-- most 16385 rounds.
pub read_loop-ends :
    (recv : ℕ → ℕ → Read) (fuel k : ℕ) {c : Connection}
    → ((j n : ℕ) → AtMost (recv j n) n)
    → IsValid c
    → rounds c < fuel
    → (read_loop recv fuel k c).2 ≢ out_of_fuel
unfolding read_loop
read_loop-ends recv zero k contract v h = absurd (omega arith)
read_loop-ends recv (suc fuel) k {c} contract v h = elim (Bool-cases (remaining c == 0)) [
  | inl filled ↦ rw filled (λ e. cc)
  | inr room ↦ rw room (
      after_read-ends (recv k (remaining c)) (read_loop recv fuel (k + 1)) v
        (contract k (remaining c))
        (λ d w less. read_loop-ends recv fuel (k + 1) contract w (omega arith)))
]
