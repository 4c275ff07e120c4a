-- ===== src/Hybrid/Events.antt =====
-- The input and output of a connection in codes/network/proactor_epoll/hybrid_proactor.c:
-- `mt_try_read`, `mt_try_write`, `mt_process_data`, the asynchronous operations, and what
-- `worker_thread_func` does with an event.
-- A function that another calls with a connection in use takes its contents as well as its address.
use hepeng_projects.Prelude.{
  ℕ, zero, suc, ◌+◌, Bool, true, false, ◌||◌, not, List, [], ◌∷◌, ◌++◌, Option, none, some, ◌>>=◌,
  length, set, ltb, ◌==◌, if◌then◌else◌, add64, sub64,
}
use hepeng_projects.Prelude.Memory.{write_at, read_at, memcpy}
use hepeng_projects.Prelude.Kernel.{
  again, other, Read, got, read_failed, Write, took, write_failed, Submitted, accepted, refused,
  failed,
}
use hepeng_projects.Hybrid.Connection.{
  mt_buffer_size, MtConnection, WorkerContext, reads, writes, submits_read, submits_write, World,
  put, with_log, mt_remove_connection_safe,
}

-- What the system gives during one call of a function of this file, which makes at most one call of
-- `read`, one of `write`, and one of `io_submit`: the results for a number of bytes, and the times
-- at which `mt_try_read` and `mt_try_write` ask for it.
pub record Kernel : Type 0 where
  pub recv : ℕ → Read
  pub send : ℕ → Write
  pub submit : Submitted
  pub read_time : ℕ
  pub write_time : ℕ

-- `total_operations++`, `eagain_errors++`, and both of `successful_ops++` and `total_operations++`.
abbrev pub count_operation : WorkerContext → WorkerContext
count_operation t = record t { total_operations = add64 t.total_operations 1 }

abbrev pub count_eagain : WorkerContext → WorkerContext
count_eagain t = record t { eagain_errors = add64 t.eagain_errors 1 }

abbrev pub count_success : WorkerContext → WorkerContext
count_success t = record t { successful_ops = add64 t.successful_ops 1 }

-- What a function does to the worker after `io_submit`; `call` is the operation.
unfoldable pub mt_submit_async_read : Submitted → World → ℕ → MtConnection → World
mt_submit_async_read accepted w p c = record w {
  worker = count_operation w.worker;
  log = w.log ++ (submits_read c.fd p 4095 ∷ []);
}
mt_submit_async_read refused w p c = record w { worker = count_eagain w.worker }
mt_submit_async_read failed w p c = w

unfoldable pub mt_submit_async_write : Submitted → World → ℕ → MtConnection → World
mt_submit_async_write accepted w p c = record w {
  worker = count_operation w.worker;
  log = w.log ++ (submits_write c.fd p c.write_pending ∷ []);
}
mt_submit_async_write refused w p c = record w { worker = count_eagain w.worker }
mt_submit_async_write failed w p c = w

-- The connection after a `write` that took `n` bytes; `memmove` may overlap, and `memcpy` here reads
-- all before it writes.
unfoldable pub sent : MtConnection → ℕ → ℕ → MtConnection
sent c n now =
    let rest = sub64 c.write_pending n in
    record c {
      write_buf =
          if ltb n c.write_pending then memcpy 0 c.write_buf 0 c.write_buf n rest else c.write_buf;
      write_pending = rest;
      last_activity = now;
    }

-- What `mt_try_write` does with the result of its `write`.
unfoldable pub after_send : Kernel → World → ℕ → MtConnection → Write → Option World
unfolding sent mt_submit_async_write mt_remove_connection_safe
after_send k w p c (took zero) = some w
after_send k w p c (took (suc n)) = some (record w {
  worker = count_operation (count_success w.worker);
  heap = (put w p (sent c (suc n) k.write_time)).heap;
  log = w.log ++ (writes c.fd (read_at 0 c.write_buf 0 (suc n)) ∷ []);
})
after_send k w p c (write_failed again) =
    let c' = record c { writable = false } in
    some
      (mt_submit_async_write k.submit (put (record w { worker = count_eagain w.worker }) p c') p c')
after_send k w p c (write_failed other) = mt_remove_connection_safe w (some p)

unfoldable pub mt_try_write : Kernel → World → ℕ → Option World
unfolding after_send
mt_try_write k w p = elim (w.heap p) [
  | none ↦ none
  | some c ↦
      if not c.writable || (c.write_pending == 0)
      then some w
      else after_send k w p c (k.send c.write_pending)
]

-- "Echo: ".
abbrev pub mt_echo_prefix : List ℕ
mt_echo_prefix = 69 ∷ 99 ∷ 104 ∷ 111 ∷ 58 ∷ 32 ∷ []

-- `write_buf` and `write_pending` with the answer to the first `len` bytes of `read_buf`, which is
-- what every caller passes as `data`.
unfoldable pub answered : MtConnection → ℕ → MtConnection
answered c len = record c {
  write_buf = memcpy 0 (memcpy 0 c.write_buf 0 mt_echo_prefix 0 6) 6 c.read_buf 0 len;
  write_pending = 6 + len;
}

unfoldable pub mt_process_data : Kernel → World → ℕ → MtConnection → ℕ → Option World
unfolding answered mt_try_write
mt_process_data k w p c len =
    if ltb (6 + len) mt_buffer_size then mt_try_write k (put w p (answered c len)) p else some w

-- `conn->last_activity = time(NULL)` after another function had the connection.
unfoldable pub touch : ℕ → World → ℕ → Option World
touch now w p = elim (w.heap p) [
  | none ↦ none
  | some c ↦ some (put w p (record c { last_activity = now }))
]

-- The bytes that have been read, with their end marked.
unfoldable pub received : MtConnection → List ℕ → MtConnection
received c xs = record c { read_buf = set (write_at c.read_buf 0 xs) (length xs) 0 }

-- What `mt_try_read` does with the result of its `read`.
unfoldable pub after_recv : Kernel → World → ℕ → MtConnection → Read → Option World
unfolding received mt_process_data touch mt_submit_async_read
after_recv k w p c (got []) = mt_remove_connection_safe w (some p)
after_recv k w p c (got (x ∷ xs)) = do
  let c' = received c (x ∷ xs)
  let w' = with_log (put w p c') (reads c.fd (x ∷ xs) ∷ [])
  v ← mt_process_data k w' p c' (length (x ∷ xs))
  touch k.read_time (record v { worker = count_operation (count_success v.worker) }) p
after_recv k w p c (read_failed again) =
    let c' = record c { readable = false } in
    some
      (mt_submit_async_read k.submit (put (record w { worker = count_eagain w.worker }) p c') p c')
after_recv k w p c (read_failed other) = mt_remove_connection_safe w (some p)

unfoldable pub mt_try_read : Kernel → World → ℕ → Option World
unfolding after_recv
mt_try_read k w p = elim (w.heap p) [
  | none ↦ none
  | some c ↦ if c.readable then after_recv k w p c (k.recv 4095) else some w
]

-- The second half of `mt_handle_connection_event`.
unfoldable pub on_writable : Kernel → World → ℕ → Option World
unfolding mt_try_write
on_writable k w p = elim (w.heap p) [
  | none ↦ none
  | some c ↦ mt_try_write k (put w p (record c { writable = true })) p
]

unfoldable pub on_readable : Kernel → World → ℕ → Option World
unfolding mt_try_read
on_readable k w p = elim (w.heap p) [
  | none ↦ none
  | some c ↦ mt_try_read k (put w p (record c { readable = true })) p
]

-- The flags of an event: one of EPOLLERR, EPOLLHUP and EPOLLRDHUP, EPOLLIN, EPOLLOUT.
pub record Flags : Type 0 where
  pub gone : Bool
  pub inp : Bool
  pub out : Bool

-- `mt_handle_connection_event`; `k` serves the half that reads, `k'` the one that writes.
unfoldable pub mt_handle_connection_event : Kernel → Kernel → World → ℕ → Flags → Option World
unfolding on_readable on_writable
mt_handle_connection_event k k' w p f = if f.gone then mt_remove_connection_safe w (some p) else (do
  v ← (if f.inp then on_readable k w p else some w)
  (if f.out then on_writable k' v p else some v))

-- A read of the bytes that lie in the read buffer completes: a write past the end of the buffer, as it
-- comes of a result that stands for an error number, is a fault.
unfoldable pub after_aio_read : Kernel → World → ℕ → MtConnection → ℕ → Option World
unfolding mt_process_data
after_aio_read k w p c res =
    let c' = record c { read_buf = set c.read_buf res 0 } in
    if ltb res mt_buffer_size then mt_process_data k (put w p c') p c' res else none

-- `mt_handle_aio_completion` from the test of `res` on, for the connection at `p`; the flag says that
-- `res2` is 0. Both are `unsigned long` in libaio's `struct io_event`, and so `-EAGAIN` is taken modulo
-- 2^64.
unfoldable pub after_aio : Kernel → World → ℕ → MtConnection → ℕ → Bool → Option World
unfolding after_aio_read touch
after_aio k w p c res reads_it =
    if ltb 0 res
    then (do
      v ← (if reads_it then after_aio_read k w p c res else some w)
      touch k.read_time (record v { worker = count_success v.worker }) p)
    else if res == sub64 0 11
    then some (record w { worker = count_eagain w.worker })
    else some w

-- The connection is read by every branch, at least to print its descriptor.
unfoldable pub mt_handle_aio_completion : Kernel → World → Option ℕ → ℕ → Bool → Option World
unfolding after_aio
mt_handle_aio_completion k w none res reads_it = some w
mt_handle_aio_completion k w (some p) res reads_it = elim (w.heap p) [
  | none ↦ none
  | some c ↦ after_aio k w p c res reads_it
]
