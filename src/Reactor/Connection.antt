-- ===== src/Reactor/Connection.antt =====
-- `connection_t` of codes/network/reactor/reactor.h, and the parts of reactor.c that read and write
-- one connection: `connection_create`, `handle_add_write`, the loop of `handle_read_event`,
-- `handle_add_read_event` and the body of the loop of `handle_write_events`.
-- The kernel is a parameter: `recv k n` is what the read numbered `k`, of at most `n` bytes, gives, and
-- `send n` what a write of `n` bytes gives.
-- System calls are written to a log, oldest first, with the bytes that they move. The results of
-- `epoll_ctl` with MOD and DEL are ignored by the code. `user_data` is never used.
use hepeng_projects.Prelude.{
  ℕ, zero, suc, ◌+◌, ◌*◌, ◌/◌, ◌%◌, ◌^◌, Bool, true, false, ◌&&◌, List, [], ◌∷◌, ◌++◌, length,
  replicate, ltb, leb, ◌==◌, if◌then◌else◌, add32, sub32, ℤ,
}
pub use hepeng_projects.Prelude.Kernel.{
  Errno, again, other, Read, got, read_failed, Write, took, write_failed,
}
use hepeng_projects.Prelude.Memory.{write_at, read_at, memcpy}

abbrev pub buffer_size : ℕ
buffer_size = 8192

-- Bytes are numbers that are only moved. `atomic_int`, `atomic_uint` and `uint64_t` fields.
pub record Connection : Type 0 where
  pub fd : ℤ
  pub state : ℕ
  pub read_buf : List ℕ
  pub read_len : ℕ
  pub write_buf : List ℕ
  pub write_len : ℕ
  pub write_sent : ℕ
  pub last_active_time : ℕ
  pub thread_id : ℕ

pub data Interest : Type 0 where
  readable writable : Interest

pub data Call : Type 0 where
  reads : ℤ → List ℕ → Call
  writes : ℤ → List ℕ → Call
  epoll_add : ℤ → Call
  epoll_mod : ℤ → Interest → Call
  epoll_del : ℤ → Call
  closes : ℤ → Call

-- `get_current_time_ms`, from the two fields of the clock.
pub current_time_ms : ℕ → ℕ → ℕ
current_time_ms sec nsec = (sec * 1000 + nsec / 1000000) % 2 ^ 64

-- A buffer that `calloc` has set to 0. Shut, since it is long.
unfoldable pub zero_bytes : List ℕ
zero_bytes = replicate buffer_size 0

-- What `connection_create` puts into the memory that it gets.
unfoldable pub create : ℤ → ℕ → ℕ → Connection
create fd thread_id now = record {
  fd = fd;
  state = 0;
  read_buf = zero_bytes;
  read_len = 0;
  write_buf = zero_bytes;
  write_len = 0;
  write_sent = 0;
  last_active_time = now;
  thread_id = thread_id;
}

-- The guarded part of `handle_add_write`.
unfoldable pub move_to_write : Connection → Connection
move_to_write c =
    if (c.write_len == 0) && ltb (add32 c.write_sent c.read_len) buffer_size
    then record c {
      write_buf = memcpy 0 c.write_buf c.write_sent c.read_buf 0 c.read_len;
      read_len = 0;
      write_len = add32 c.write_len c.read_len;
    }
    else c

unfoldable pub handle_add_write : Connection → Connection × List Call
unfolding move_to_write
handle_add_write c = (move_to_write c, epoll_mod c.fd writable ∷ [])

-- How `handle_read_event` leaves its loop: the connection stays, or it goes on to close it.
pub data ReadEnd : Type 0 where
  stays closing out_of_fuel : ReadEnd

-- `BUFFER_SIZE - read_len` on `uint32_t`.
abbrev pub remaining : Connection → ℕ
remaining c = sub32 buffer_size c.read_len

-- The read of `bytes` into `read_buf + read_len`.
unfoldable pub receive : Connection → List ℕ → Connection
receive c bytes = record c {
  read_buf = write_at c.read_buf c.read_len bytes;
  read_len = add32 c.read_len (length bytes);
}

abbrev pub prepend : List Call → Connection × List Call × ReadEnd → Connection × List Call × ReadEnd
prepend calls (c, more, e) = (c, calls ++ more, e)

-- What `handle_read_event` does with the result of a `read`; `rest` is the loop from there on.
unfoldable pub after_read :
    Connection
    → Read
    → (Connection → Connection × List Call × ReadEnd)
    → Connection × List Call × ReadEnd
after_read c (got []) rest = (c, [], closing)
after_read c (got (x ∷ xs)) rest =
    let (c', calls) = handle_add_write (receive c (x ∷ xs)) in
    prepend (reads c.fd (x ∷ xs) ∷ calls) (rest c')
after_read c (read_failed again) rest = (c, [], stays)
after_read c (read_failed other) rest = (c, [], closing)

-- The loop of `handle_read_event`, from the read numbered `k` on.
unfoldable pub read_loop : (ℕ → ℕ → Read) → ℕ → ℕ → Connection → Connection × List Call × ReadEnd
unfolding after_read
read_loop recv zero k c = (c, [], out_of_fuel)
read_loop recv (suc fuel) k c =
    if remaining c == 0
    then (c, [], stays)
    else after_read c (recv k (remaining c)) (read_loop recv fuel (k + 1))

-- Rounds enough for every connection: each reads a byte, at most 8192 of them before bytes move to the
-- write buffer, which happens once, and as many after it.
abbrev pub read_fuel : ℕ
read_fuel = 16386

-- `handle_add_read_event`.
unfoldable pub handle_add_read_event : Connection → Connection × List Call
handle_add_read_event c =
    if leb c.write_len c.write_sent
    then (record c { write_len = 0; write_sent = 0 }, epoll_mod c.fd readable ∷ [])
    else (c, [])

-- The bytes that a `write` of `n` bytes takes.
abbrev pub outgoing : Connection → ℕ → List ℕ
outgoing c n = read_at 0 c.write_buf c.write_sent n

-- What a round of `handle_write_events` does with the result of its `write`; the flag says that the
-- connection is to be closed.
unfoldable pub after_write : Connection → Write → Connection × List Call × Bool
after_write c (took zero) = (c, [], false)
after_write c (took (suc n)) =
    let (c', calls) =
      handle_add_read_event (record c { write_sent = add32 c.write_sent (suc n) }) in
    (c', writes c.fd (outgoing c (suc n)) ∷ calls, false)
after_write c (write_failed again) = (c, [], false)
after_write c (write_failed other) = (c, [], true)

-- A round of `handle_write_events` at a connection: `send n` is what its `write` of `n` bytes gives.
unfoldable pub write_round : (ℕ → Write) → Connection → Connection × List Call × Bool
unfolding after_write
write_round send c =
    if ltb c.write_sent c.write_len
    then after_write c (send (sub32 c.write_len c.write_sent))
    else (c, [], false)
