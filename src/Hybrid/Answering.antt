-- ===== src/Hybrid/Answering.antt =====
-- The answers of `mt_process_data` in codes/network/proactor_epoll/hybrid_proactor.c.
use hepeng_projects.Prelude.{
  ℕ, ◌+◌, ◌<◌, ◌≡◌, ◌≢◌, refl, ap, ◌∙◌, true, List, ◌++◌, some, arith, length, length-set, take,
  take-append_left, ltb, ltb→lt, if◌then◌else◌, inl, inr, Bool-cases,
}
use hepeng_projects.Prelude.Memory.{
  write_at, read_at, memcpy, length-write_at, length-read_at, read_at-eq-take, two_copies, take-set,
  write_at_start,
}
use hepeng_projects.Prelude.Kernel.{other, write_failed}
use hepeng_projects.Hybrid.Connection.{mt_buffer_size, MtConnection, World, put}
use hepeng_projects.Hybrid.Events.{Kernel, mt_echo_prefix, answered, mt_process_data, received}
use hepeng_projects.Hybrid.Ownership.{IsSound, Owns, put-Lists}
use hepeng_projects.Hybrid.Keeping.{
  pending, bytes_written, Lawful, Kept, put-KeptIn, KeptIn-trans, update_self,
}
use hepeng_projects.Hybrid.Writing.{mt_try_write-Written}

-- The answer to the first `n` bytes of the read buffer.
abbrev pub answer : MtConnection → ℕ → List ℕ
answer c n = mt_echo_prefix ++ take n c.read_buf

module _ (c : MtConnection) (s : IsSound c) where
  answered-pending : (n : ℕ) → 6 + n < mt_buffer_size → pending (answered c n) ≡ answer c n
  unfolding answered
  answered-pending n h =
      two_copies c.write_buf mt_echo_prefix (read_at 0 c.read_buf 0 n) 6 n refl
        (length-read_at 0 c.read_buf 0 n) (omega (arith, s.write_room))
      ∙ ap (λ t. mt_echo_prefix ++ t)
          (read_at-eq-take 0 c.read_buf 0 n (omega (arith, s.read_room)))

  pub answered-IsSound : (n : ℕ) → 6 + n < mt_buffer_size → IsSound (answered c n)
  unfolding answered
  answered-IsSound n h = record {
    open_fd = s.open_fd;
    staying = s.staying;
    read_room = s.read_room;
    write_room = omega (
      arith,
      length-write_at c.write_buf 0 (read_at 0 mt_echo_prefix 0 6),
      length-write_at (memcpy 0 c.write_buf 0 mt_echo_prefix 0 6) 6 (read_at 0 c.read_buf 0 n),
      s.write_room,
    );
    pending_in = h;
  }

  pub received-IsSound : (xs : List ℕ) → IsSound (received c xs)
  unfolding received
  received-IsSound xs = record {
    open_fd = s.open_fd;
    staying = s.staying;
    read_room = omega (
      arith,
      length-set (write_at c.read_buf 0 xs) (length xs) 0,
      length-write_at c.read_buf 0 xs,
      s.read_room,
    );
    write_room = s.write_room;
    pending_in = s.pending_in;
  }

  pub received-take :
      (xs : List ℕ) → length xs < mt_buffer_size → take (length xs) (received c xs).read_buf ≡ xs
  unfolding received
  received-take xs h =
      take-set (length xs) (write_at c.read_buf 0 xs) 0
      ∙ ap (λ t. take (length xs) t) (write_at_start c.read_buf xs (omega (arith, s.read_room)))
      ∙ take-append_left xs _ (length xs) refl

-- `write` does not fail for another reason than EAGAIN.
abbrev pub NeverBroken : Kernel → Type 0
NeverBroken k = (n : ℕ) → k.send n ≢ write_failed other

-- The connection is there, and what was written and what waits is `out` more than what was written
-- before.
pub record Answers (w : World) (p : ℕ) (c c' : MtConnection) (out : List ℕ) (w' : World)
    : Type 0 where
  pub kept : Kept w p c c' w'
  pub balance : bytes_written w'.log ++ pending c' ≡ bytes_written w.log ++ out

module _ (k : Kernel) (lawful : Lawful k) (whole : NeverBroken k) {w : World} (p : ℕ)
    {c : MtConnection} (o : Owns w) (here : w.heap p ≡ some c)
    (own : c.worker_id ≡ w.worker.id) where
  process-Answers :
      (n : ℕ)
      → 6 + n < mt_buffer_size
      → (w' : World) × (mt_process_data k w p c n ≡ some w')
        × ((c' : MtConnection) × Answers w p c c' (answer c n) w')
  unfolding mt_process_data answered
  process-Answers n h =
      let s = o.sound p c here in
      let d = answered c n in
      let v : World = put w p d in
      let ov : Owns v = put-Lists p o here d (answered-IsSound c s n h) refl in
      let (w', e, r) =
        mt_try_write-Written k {w = v} p ov (update_self w.heap p (some d)) own
          (lawful.1 (6 + n)) in
      let fits : ltb (6 + n) mt_buffer_size ≡ true = ground arith in
      (
        w',
        rw (fits, mt_process_data) e,
        elim r [
          | inl (c', t) ↦ (
            c',
            record {
              kept = KeptIn-trans (put-KeptIn p o here d (answered-IsSound c s n h) refl) t.kept;
              balance = t.balance ∙ ap (λ x. bytes_written w.log ++ x) (answered-pending c s n h);
            },
          )
          | inr (broken, _) ↦ absurd (whole (6 + n) broken)
        ],
      )

  -- With an answer that does not fit nothing happens.
  pub processed :
      (n : ℕ)
      → (w' : World) × (mt_process_data k w p c n ≡ some w')
        × ((c' : MtConnection) × Answers w p c c'
              (if ltb (6 + n) mt_buffer_size then answer c n else pending c)
              w')
  unfolding mt_process_data
  processed n = elim (Bool-cases (ltb (6 + n) mt_buffer_size)) [
    | inl fits ↦
        let (w', e, (c', t)) = process-Answers n (ltb→lt (6 + n) mt_buffer_size fits) in
        (w', e, (c', rw fits t))
    | inr long ↦ (
      w,
      rw (long, mt_process_data) refl,
      (
        c,
        rw long (record {
          kept = record {
            owns = o;
            here = here;
            id = refl;
            own = refl;
            list = refl;
            others = λ q ne. refl;
          };
          balance = refl;
        }),
      ),
    )
  ]
