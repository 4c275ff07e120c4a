-- ===== src/Proactor/Echo.antt =====
-- What `handle_read_completion` of codes/network/proactor/async_server_proactor.c answers.
use hepeng_projects.Prelude.{
  ℕ, suc, ◌+◌, ◌≤◌, ◌<◌, ◌≡◌, refl, ap, ◌∙◌, true, false, ◌∷◌, ◌++◌, none, some, arith, length,
  get_or, set, length-set, take, leb, ltb, ltb→lt, ltb→ge, ◌==◌, pos, ◌⊎◌, inl, inr, Bool-cases,
}
use hepeng_projects.Prelude.Memory.{take-set, two_copies, read_at, length-read_at, read_at-eq-take}
use hepeng_projects.Proactor.Connection.{Context, World, buffer_size, submit_operation}
use hepeng_projects.Proactor.Completion.{
  Answers, next_read, submit_next_read_operation, echo_prefix, echo_write, safe_bytes, with_answer,
  echo, is_current, handle_read_completion,
}
use hepeng_projects.Proactor.Ownership.{store_self}

-- The answer to `n` bytes.
answer_bytes :
    (c : Context) (n : ℕ)
    → length c.read_buf ≡ buffer_size
    → length c.write_buf ≡ buffer_size
    → 6 + n < buffer_size
    → take (6 + n) (with_answer c n).write_buf ≡ echo_prefix ++ take n c.read_buf
unfolding with_answer
answer_bytes c n r w small =
    let marked = set c.read_buf n 0 in
    let ys = read_at 0 marked 0 n in
    two_copies c.write_buf echo_prefix ys 6 n refl (length-read_at 0 marked 0 n) (omega arith)
    ∙ ap (λ t. echo_prefix ++ t)
        (read_at-eq-take 0 marked 0 n (omega (arith, length-set c.read_buf n 0))
          ∙ take-set n c.read_buf 0)

-- The context `c` at `q` is the one of the descriptor `n`, and can be answered.
pub record Served (w : World) (n q : ℕ) (c : Context) : Type 0 where
  pub small : n < w.proactor.max_connections
  pub here : get_or w.proactor.connections n none ≡ some q
  pub at : w.contexts q ≡ some c
  pub attached : c.proactor ≡ true
  pub read_room : length c.read_buf ≡ buffer_size
  pub write_room : length c.write_buf ≡ buffer_size

-- A write of the answer to `n` bytes stands first in the list of operations.
abbrev pub Answered : World → ℕ → ℕ → Context → ℕ → World → Type 0
Answered w fd q c n w' =
    (w'.proactor.pending_ops ≡ echo_write (pos fd) q c n ∷ w.proactor.pending_ops)
    × ((c' : Context) × (w'.contexts q ≡ some c')
        × (take (6 + n) c'.write_buf ≡ echo_prefix ++ take n c.read_buf))

-- A read of `n` bytes, with `n` from 1 to 4095, completes for a served connection, and `malloc`
-- gives memory for an operation. If `n` is at most 4089, a write of the bytes `Echo: ` followed by the
-- `n` bytes read is put first into the list of operations. Otherwise the bytes are not answered, and
-- the next read is put there.
pub handle_read_completion-answers :
    (a : Answers) {w : World} (fd q k : ℕ) {c : Context}
    → Served w fd q c
    → a.operation ≡ true
    → suc k < buffer_size
    → (w' : World) × (handle_read_completion a w (pos fd) (some q) (pos (suc k)) ≡ some w')
      × (((6 + suc k < buffer_size) × Answered w fd q c (suc k) w')
          ⊎ ((buffer_size ≤ 6 + suc k)
              × (w'.proactor.pending_ops ≡ next_read q c ∷ w.proactor.pending_ops)))
unfolding handle_read_completion is_current echo submit_operation submit_next_read_operation
    next_read
handle_read_completion-answers a {w} fd q k {c} s memory short =
    let fits : leb w.proactor.max_connections fd ≡ false = ground (arith, s.small) in
    let same : (q == q) ≡ true = ground arith in
    let safe : safe_bytes (suc k) ≡ suc k = ground arith in
    let runs : handle_read_completion a w (pos fd) (some q) (pos (suc k))
        ≡ some (echo a w (pos fd) q c (suc k)) =
      rw (s.at, s.attached, fits, s.here, same, safe, handle_read_completion, is_current) refl in
    (
      echo a w (pos fd) q c (suc k),
      runs,
      elim (Bool-cases (ltb (6 + suc k) buffer_size)) [
        | inl h ↦
            let within = ltb→lt (6 + suc k) buffer_size h in
            let put : Answered w fd q c (suc k) (echo a w (pos fd) q c (suc k)) =
              rw (h, memory, echo)
                (
                  refl,
                  (
                    with_answer c (suc k),
                    store_self w.contexts q (some (with_answer c (suc k))),
                    answer_bytes c (suc k) s.read_room s.write_room within,
                  ),
                ) in
            inl (within, put)
        | inr h ↦ inr (
          ltb→ge (6 + suc k) buffer_size h,
          rw (h, memory, echo, submit_next_read_operation) refl,
        )
      ],
    )
