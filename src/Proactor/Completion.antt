-- ===== src/Proactor/Completion.antt =====
-- The completion handlers and the set-up of a connection in
-- codes/network/proactor/async_server_proactor.c, and the loop body with which
-- `dispatcher_thread_func` of proactor.c treats a completed operation. The result of an operation is an
-- `unsigned long`, below 2^64, which holds the negative of an error number as its complement.
use hepeng_projects.Prelude.{
  ℕ, zero, suc, ◌+◌, ◌-◌, ◌%◌, ◌^◌, sub64, Bool, true, false, not, ◌||◌, ◌&&◌, List, [], ◌∷◌, ◌++◌,
  Option, none, some, set, ltb, ◌==◌, if◌then◌else◌, ℤ, pos, negsuc,
}
use hepeng_projects.Prelude.Memory.{memcpy}
use hepeng_projects.Proactor.Connection.{
  op_accept, op_read, op_write, op_close, Handler, read_buf, write_buf, Operation, Context, closes,
  World, buffer_size, store, out_of_range, entry, submit_operation, add_connection,
  remove_connection,
}

-- What `malloc` gives for a context and for a handler, which may depend on what is in use, and
-- whether it gives memory for an operation.
pub record Answers : Type 0 where
  pub context : (ℕ → Option Context) → Option ℕ
  pub handler : (ℕ → Option Handler) → Option ℕ
  pub operation : Bool

-- The operation of `submit_next_read_operation`.
unfoldable pub next_read : ℕ → Context → Operation
next_read q c = record {
  type = op_read;
  fd = c.fd;
  handler = c.handler;
  buffer = read_buf q;
  size = 4095;
  offset = 0;
}

-- `submit_next_read_operation`, with a context that is live.
unfoldable pub submit_next_read_operation : Answers → World → ℕ → Context → World
unfolding next_read
submit_next_read_operation a w q c = if a.operation then submit_operation w (next_read q c) else w

-- "Echo: ".
abbrev pub echo_prefix : List ℕ
echo_prefix = 69 ∷ 99 ∷ 104 ∷ 111 ∷ 58 ∷ 32 ∷ []

-- `safe_bytes` of `handle_read_completion`.
abbrev pub safe_bytes : ℕ → ℕ
safe_bytes n = if ltb n buffer_size then n else 4095

-- `read_buf` with its end marked, and `write_buf` with the answer.
unfoldable pub with_answer : Context → ℕ → Context
with_answer c n =
    let marked = set c.read_buf n 0 in
    record c {
      read_buf = marked;
      write_buf = memcpy 0 (memcpy 0 c.write_buf 0 echo_prefix 0 6) 6 marked 0 n;
    }

unfoldable pub echo_write : ℤ → ℕ → Context → ℕ → Operation
echo_write fd q c n = record {
  type = op_write;
  fd = fd;
  handler = c.handler;
  buffer = write_buf q;
  size = 6 + n;
  offset = 0;
}

-- `handle_read_completion` for a positive number of bytes, of which `n` are safe.
unfoldable pub echo : Answers → World → ℤ → ℕ → Context → ℕ → World
unfolding with_answer echo_write
echo a w fd q c n =
    if ltb (6 + n) buffer_size
    then (let w' = record w { contexts = store w.contexts q (some (with_answer c n)) } in
        if a.operation then submit_operation w' (echo_write fd q c n) else w')
    else (let c' = record c { read_buf = set c.read_buf n 0 } in
        submit_next_read_operation a (record w { contexts = store w.contexts q (some c') }) q c')

-- `connections[fd] == ctx` with `fd` in range.
unfoldable pub is_current : World → ℤ → ℕ → Bool
is_current w fd q =
    not (out_of_range w.proactor fd)
    && elim (entry w.proactor fd) [ none ↦ false | some p ↦ p == q ]

unfoldable pub handle_read_completion : Answers → World → ℤ → Option ℕ → ℤ → Option World
unfolding is_current
handle_read_completion a w fd none bytes = some w
handle_read_completion a w fd (some q) bytes = elim (w.contexts q) [
  | none ↦ none
  | some c ↦ if not c.proactor || not (is_current w fd q) then some w else elim bytes [
    | negsuc n ↦ remove_connection w fd
    | pos zero ↦ remove_connection w fd
    | pos (suc n) ↦ some (echo a w fd q c (safe_bytes (suc n)))
  ]
]

unfoldable pub handle_write_completion : Answers → World → ℤ → Option ℕ → ℤ → Option World
unfolding is_current
handle_write_completion a w fd none bytes = some w
handle_write_completion a w fd (some q) bytes = elim (w.contexts q) [
  | none ↦ none
  | some c ↦ if not c.proactor || not (is_current w fd q) then some w else elim bytes [
    | negsuc n ↦ remove_connection w fd
    | pos zero ↦ remove_connection w fd
    | pos (suc n) ↦ some (submit_next_read_operation a w q c)
  ]
]

unfoldable pub handle_error_completion : World → ℤ → Option ℕ → Option World
handle_error_completion w fd none = some w
handle_error_completion w fd (some q) = elim (w.contexts q) [
  | none ↦ none
  | some c ↦ if c.proactor then remove_connection w fd else some w
]

-- `setup_new_connection` from the allocation of the handler on, for the context `c` at `q`.
unfoldable pub attach_handler : Answers → World → ℤ → ℕ → Context → Option World
attach_handler a w fd q c = elim (a.handler w.handlers) [
  | none ↦ remove_connection w fd
  | some h ↦
      let c' = record c { handler = some h } in
      let w' = record w {
        contexts = store w.contexts q (some c');
        handlers = store w.handlers h (
            some (record {
              handle_read = true;
              handle_write = true;
              handle_error = true;
              user_data = some q;
            }));
      } in
      some (submit_next_read_operation a w' q c')
]

-- `setup_new_connection` after `proactor_add_connection`, with `submit_welcome_message`, which only
-- submits a read.
unfoldable pub after_add : Answers → ℤ → Bool × World → Option World
unfolding attach_handler
after_add a fd (false, w) = some (record w { log = w.log ++ (closes fd ∷ []) })
after_add a fd (true, w) = elim (entry w.proactor fd) [
  | none ↦ some w
  | some q ↦ elim (w.contexts q) [ none ↦ none | some c ↦ attach_handler a w fd q c ]
]

unfoldable pub setup_new_connection : Answers → World → ℤ → Option World
unfolding after_add
setup_new_connection a w fd = after_add a fd (add_connection (a.context w.contexts) w fd)

-- `int error_code = -events[i].res` is EAGAIN, which is 11; EWOULDBLOCK is the same number. The
-- negation is one of `unsigned long`, and `int` has 32 bits.
abbrev pub is_again : ℕ → Bool
is_again res = (sub64 0 res % 2 ^ 32) == 11

-- A number of type `unsigned long` as the `ssize_t` of a parameter.
abbrev pub to_signed : ℕ → ℤ
to_signed res = if ltb res (2 ^ 63) then pos res else negsuc (2 ^ 64 - 1 - res)

-- The dispatch on the type of an operation that succeeded.
unfoldable pub succeed : Answers → World → Operation → Handler → ℕ → Option World
succeed a w op d res = if is_again res then some (submit_operation w op) else elim op.type [
  | op_read ↦
      if d.handle_read then handle_read_completion a w op.fd d.user_data (to_signed res) else some w
  | op_write ↦
      if d.handle_write
      then handle_write_completion a w op.fd d.user_data (to_signed res)
      else some w
  | op_accept ↦ some w
  | op_close ↦ some w
]

-- `handler->user_data != ctx`.
abbrev pub belongs : Option ℕ → ℕ → Bool
belongs none q = false
belongs (some p) q = p == q

-- The dispatch to the handler `d` with the result `res` of the operation, which is an `unsigned long` in
-- libaio's `struct io_event`: the test for an error compares it with 0.
unfoldable pub finish : Answers → World → Operation → Handler → ℕ → Option World
unfolding succeed
finish a w op d res =
    if ltb res 0
    then (if d.handle_error then handle_error_completion w op.fd d.user_data else some w)
    else succeed a w op d res

-- The body of the loop of `dispatcher_thread_func` over completed operations; `none` is an event
-- without data. Where the source frees the operation, it is dropped.
unfoldable pub complete : Answers → World → Option Operation → ℕ → Option World
unfolding finish
complete a w none res = some w
complete a w (some op) res =
    if out_of_range w.proactor op.fd then some w else elim (entry w.proactor op.fd) [
      | none ↦ some w
      | some q ↦ elim op.handler [
        | none ↦ some w
        | some h ↦ elim (w.handlers h) [
          | none ↦ none
          | some d ↦ if belongs d.user_data q then finish a w op d res else some w
        ]
      ]
    ]
