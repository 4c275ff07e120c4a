-- ===== src/Hybrid/Writing.antt =====
-- `mt_try_write` of codes/network/proactor_epoll/hybrid_proactor.c: what is written, and what becomes
-- of the connection.
use hepeng_projects.Prelude.{
  ℕ, zero, suc, ◌+◌, ◌-◌, ◌≤◌, ◌≡◌, refl, sym, ap, ◌∙◌, false, ◌||◌, not, List, [], ◌∷◌, ◌++◌,
  append_assoc, append-nil, some, arith, length, take, drop, take-append_left, take-split, ltb,
  ◌==◌, sub64, ℤ, ◌⊎◌, inl, inr, Bool-cases,
}
use hepeng_projects.Prelude.Memory.{
  read_at, memcpy, length-write_at, length-read_at, read_at-eq-take, write_at_start,
}
use hepeng_projects.Prelude.Kernel.{
  again, other, Write, took, write_failed, TakesAtMost, Submitted, accepted, refused, failed,
}
use hepeng_projects.Hybrid.Connection.{MtConnection, Call, writes, submits_write, World, put}
use hepeng_projects.Hybrid.Events.{
  Kernel, count_eagain, sent, after_send, mt_try_write, mt_submit_async_write,
}
use hepeng_projects.Hybrid.Ownership.{
  IsSound, flags-IsSound, Owns, Removed, mt_remove_connection_safe-Owns,
}
use hepeng_projects.Hybrid.Keeping.{pending, bytes_written, bytes_written-append, Kept, put-KeptIn}

-- A `memmove` to the start of an array.
moved_front :
    (buf : List ℕ) (n k : ℕ)
    → n + k ≤ length buf
    → take k (memcpy 0 buf 0 buf n k) ≡ take k (drop n buf)
moved_front buf n k h =
    let ys = read_at 0 buf n k in
    let size = length-read_at 0 buf n k in
    rw (write_at_start buf ys (omega (arith, size)))
      (take-append_left ys (drop (length ys) buf) k size ∙ read_at-eq-take 0 buf n k h)

module _ (c : MtConnection) (n now : ℕ) (s : IsSound c) (h : n ≤ c.write_pending) where
  -- The `n` bytes taken, and the rest.
  sent-pending : read_at 0 c.write_buf 0 n ++ pending (sent c n now) ≡ pending c
  unfolding sent
  sent-pending =
      let e : sub64 c.write_pending n ≡ c.write_pending - n = omega (arith, s.pending_in) in
      let front : read_at 0 c.write_buf 0 n ≡ take n c.write_buf =
        read_at-eq-take 0 c.write_buf 0 n (omega (arith, s.pending_in, s.write_room)) in
      elim (Bool-cases (ltb n c.write_pending)) [
        | inl more ↦
            rw (e, more, front)
              (ap (λ t. take n c.write_buf ++ t)
                  (moved_front c.write_buf n (c.write_pending - n)
                    (omega (arith, s.pending_in, s.write_room)))
                ∙ sym (take-split n c.write_pending c.write_buf h))
        | inr all ↦
            let z : n ≡ c.write_pending = ground arith in
            let none_left : c.write_pending - n ≡ 0 = omega arith in
            rw (e, all, front, none_left)
              (append-nil (take n c.write_buf) ∙ ap (λ k. take k c.write_buf) z)
      ]

  sent-IsSound : IsSound (sent c n now)
  unfolding sent
  sent-IsSound =
      let rest = sub64 c.write_pending n in
      let e : rest ≡ c.write_pending - n = omega (arith, s.pending_in) in
      record {
        open_fd = s.open_fd;
        staying = s.staying;
        read_room = s.read_room;
        write_room =
            ground
              (arith, length-write_at c.write_buf 0 (read_at 0 c.write_buf n rest), s.write_room);
        pending_in = omega (arith, s.pending_in);
      }

-- What `mt_try_write` does for a connection that stays: the bytes taken by `write` and those that still
-- wait, and the calls it makes.
pub record Writes (w : World) (p : ℕ) (c c' : MtConnection) (w' : World) : Type 0 where
  pub kept : Kept w p c c' w'
  pub balance : bytes_written w'.log ++ pending c' ≡ bytes_written w.log ++ pending c
  pub calls :
      (w'.log ≡ w.log)
      ⊎ (((xs : List ℕ) × (w'.log ≡ w.log ++ (writes c.fd xs ∷ [])))
          ⊎ ((w'.log ≡ w.log ++ (submits_write c.fd p c.write_pending ∷ []))
              × (pending c' ≡ pending c)))

abbrev pub Written : World → ℕ → MtConnection → World → Type 0
Written w p c w' = ((c' : MtConnection) × Writes w p c c' w') ⊎ Removed w p c w'

stays : {w : World} (p : ℕ) {c : MtConnection} → Owns w → w.heap p ≡ some c → Writes w p c c w
stays p o here = record {
  kept = record {
    owns = o;
    here = here;
    id = refl;
    own = refl;
    list = refl;
    others = λ q ne. refl;
  };
  balance = refl;
  calls = inl refl;
}

wrote :
    (log : List Call) (fd : ℤ) (xs ys : List ℕ)
    → bytes_written (log ++ (writes fd xs ∷ [])) ++ ys ≡ bytes_written log ++ (xs ++ ys)
wrote log fd xs ys =
    rw (bytes_written-append log (writes fd xs ∷ []), append-nil)
      (append_assoc (bytes_written log) xs ys)

module _ (k : Kernel) {w : World} (p : ℕ) {c : MtConnection} (o : Owns w) (here : w.heap p ≡ some c)
    (own : c.worker_id ≡ w.worker.id) where
  took-Writes :
      (n : ℕ)
      → suc n ≤ c.write_pending
      → (w' : World) × (after_send k w p c (took (suc n)) ≡ some w')
        × Writes w p c (sent c (suc n) k.write_time) w'
  unfolding after_send
  took-Writes n h =
      let s = o.sound p c here in
      let c' = sent c (suc n) k.write_time in
      let out = read_at 0 c.write_buf 0 (suc n) in
      (
        _,
        refl,
        record {
          kept = put-KeptIn p o here c' (sent-IsSound c (suc n) k.write_time s h) refl;
          balance =
              wrote w.log c.fd out (pending c')
              ∙ ap (λ t. bytes_written w.log ++ t) (sent-pending c (suc n) k.write_time s h);
          calls = inr (inl (out, refl));
        },
      )

  -- The connection waits until it is writable; the operation that `io_submit` may take is not counted
  -- as a write.
  wait-Writes :
      (w' : World) × (after_send k w p c (write_failed again) ≡ some w')
      × Writes w p c (record c { writable = false }) w'
  unfolding after_send mt_submit_async_write
  wait-Writes = (mt_submit_async_write k.submit v p c', refl, go k.submit)
    where
      c' : MtConnection
      c' = record c { writable = false }

      v : World
      v = put (record w { worker = count_eagain w.worker }) p c'

      kept : Kept w p c c' v
      kept =
          put-KeptIn p o here c' (flags-IsSound (o.sound p c here) c.readable false c.last_activity)
            refl

      silent :
          bytes_written (w.log ++ (submits_write c.fd p c.write_pending ∷ [])) ≡ bytes_written w.log
      silent =
          bytes_written-append w.log (submits_write c.fd p c.write_pending ∷ [])
          ∙ append-nil (bytes_written w.log)

      go : (r : Submitted) → Writes w p c c' (mt_submit_async_write r v p c')
      go accepted = record {
        kept = kept;
        balance = ap (λ t. t ++ pending c) silent;
        calls = inr (inr (refl, refl));
      }
      go refused = record { kept = kept; balance = refl; calls = inl refl }
      go failed = record { kept = kept; balance = refl; calls = inl refl }

  after_send-Written :
      (r : Write)
      → TakesAtMost r c.write_pending
      → (w' : World) × (after_send k w p c r ≡ some w')
        × (((c' : MtConnection) × Writes w p c c' w')
            ⊎ ((r ≡ write_failed other) × Removed w p c w'))
  unfolding after_send
  after_send-Written (took zero) h = (w, refl, inl (c, stays p o here))
  after_send-Written (took (suc n)) h =
      let (w', e, t) = took-Writes n h in (w', e, inl (sent c (suc n) k.write_time, t))
  after_send-Written (write_failed again) h =
      let (w', e, t) = wait-Writes in (w', e, inl (record c { writable = false }, t))
  after_send-Written (write_failed other) h =
      let (w', e, r) = mt_remove_connection_safe-Owns p o here own in (w', e, inr (refl, r))

  -- `mt_try_write` at a live connection of the worker, with any result of `write`: no freed memory is
  -- used, and one of two things happens. The connection stays, and the bytes that `write` has taken so
  -- far, followed by those that wait, are what they were; bytes handed to an asynchronous write are not
  -- counted as taken. The calls made are then none, or one `write`, or one asynchronous write of as many
  -- bytes as wait, and after this one the same bytes wait still. Or `write` has failed for another reason
  -- than EAGAIN, and the connection is removed, and no other.
  pub mt_try_write-Written :
      TakesAtMost (k.send c.write_pending) c.write_pending
      → (w' : World) × (mt_try_write k w p ≡ some w')
        × (((c' : MtConnection) × Writes w p c c' w')
            ⊎ ((k.send c.write_pending ≡ write_failed other) × Removed w p c w'))
  unfolding mt_try_write
  mt_try_write-Written h = elim (Bool-cases (not c.writable || (c.write_pending == 0))) [
    | inl idle ↦ (w, rw (here, idle, mt_try_write) refl, inl (c, stays p o here))
    | inr busy ↦
        let (w', e, r) = after_send-Written (k.send c.write_pending) h in
        (w', rw (here, busy, mt_try_write) e, r)
  ]
