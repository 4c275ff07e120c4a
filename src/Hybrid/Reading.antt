-- ===== src/Hybrid/Reading.antt =====
-- `mt_try_read` of codes/network/proactor_epoll/hybrid_proactor.c: what becomes of
-- a connection, and what is answered.
use hepeng_projects.Prelude.{
  ℕ, suc, ◌+◌, ◌≤◌, ◌≡◌, refl, ap, ap₂, ◌∙◌, true, false, List, [], ◌∷◌, ◌++◌, append-nil, some,
  arith, length, take, ltb, if◌then◌else◌, ◌⊎◌, inl, inr,
}
use hepeng_projects.Prelude.Kernel.{
  again, other, Read, got, read_failed, AtMost, Submitted, accepted, refused, failed,
}
use hepeng_projects.Hybrid.Connection.{
  mt_buffer_size, MtConnection, WorkerContext, reads, submits_read, World, put, with_log,
}
use hepeng_projects.Hybrid.Events.{
  Kernel, count_operation, count_success, count_eagain, mt_echo_prefix, mt_submit_async_read, touch,
  received, after_recv, mt_try_read,
}
use hepeng_projects.Hybrid.Ownership.{
  flags-IsSound, Owns, put-Lists, Removed, mt_remove_connection_safe-Owns,
}
use hepeng_projects.Hybrid.Keeping.{
  pending, bytes_written, bytes_written-append, Lawful, Kept, put-KeptIn, KeptIn-trans, update_self,
}
use hepeng_projects.Hybrid.Answering.{
  received-IsSound, received-take, NeverBroken, Answers, processed,
}

-- What waits to be written after a read: the answer takes the place of what waited before, if it fits.
abbrev pub waits : MtConnection → Read → List ℕ
waits c (got []) = pending c
waits c (got (x ∷ xs)) =
    if ltb (6 + length (x ∷ xs)) mt_buffer_size then mt_echo_prefix ++ x ∷ xs else pending c
waits c (read_failed e) = pending c

-- The results of `read` at which the connection is removed.
abbrev pub Closes : Read → Type 0
Closes (got []) = Unit
Closes (got (x ∷ xs)) = ⊥
Closes (read_failed again) = ⊥
Closes (read_failed other) = Unit

abbrev pub ReadOutcome : World → ℕ → MtConnection → Read → World → Type 0
ReadOutcome w p c r w' =
    ((c' : MtConnection) × Answers w p c c' (waits c r) w') ⊎ (Closes r × Removed w p c w')

-- The time stamp after a read, once the worker `t` has counted it.
pub touched :
    {w : World} (p : ℕ) {c c' : MtConnection} {out : List ℕ} {v : World} (now : ℕ)
    → Answers w p c c' out v
    → (t : WorkerContext) → t.id ≡ v.worker.id
    → t.connections ≡ v.worker.connections
    → (w' : World) × (touch now (record v { worker = t }) p ≡ some w')
      × Answers w p c (record c' { last_activity = now }) out w'
unfolding touch
touched p {c' = c'} {v = v} now a t ei el =
    let d : MtConnection = record c' { last_activity = now } in
    let s = a.kept.owns.sound p c' a.kept.here in
    let put_it =
      put-KeptIn p a.kept.owns a.kept.here d (flags-IsSound s c'.readable c'.writable now) refl in
    (
      put (record v { worker = t }) p d,
      rw (a.kept.here, touch) refl,
      record { kept = KeptIn-trans a.kept (rw (ei, el) put_it); balance = a.balance },
    )

module _ (k : Kernel) (lawful : Lawful k) (whole : NeverBroken k) {w : World} (p : ℕ)
    {c : MtConnection} (o : Owns w) (here : w.heap p ≡ some c)
    (own : c.worker_id ≡ w.worker.id) where
  got-Answers :
      (x : ℕ) (xs : List ℕ)
      → length (x ∷ xs) ≤ 4095
      → (w' : World) × (after_recv k w p c (got (x ∷ xs)) ≡ some w')
        × ((c' : MtConnection) × Answers w p c c' (waits c (got (x ∷ xs))) w')
  unfolding after_recv received
  got-Answers x xs h =
      let s = o.sound p c here in
      let d = received c (x ∷ xs) in
      let v : World = with_log (put w p d) (reads c.fd (x ∷ xs) ∷ []) in
      let ov : Owns v = put-Lists p o here d (received-IsSound c s (x ∷ xs)) refl in
      let hd = update_self w.heap p (some d) in
      let same : bytes_written v.log ≡ bytes_written w.log =
        bytes_written-append w.log (reads c.fd (x ∷ xs) ∷ []) ∙ append-nil (bytes_written w.log) in
      let len = suc (length xs) in
      let (u, runs, (c1, t)) = processed k lawful whole {w = v} p {c = d} ov hd own len in
      let (w', ends, a) =
        touched p k.read_time t (count_operation (count_success u.worker)) refl refl in
      let read : take len d.read_buf ≡ x ∷ xs = received-take c s (x ∷ xs) (omega arith) in
      (
        w',
        rw (runs, after_recv) ends,
        (
          record c1 { last_activity = k.read_time },
          record {
            kept = KeptIn-trans (put-KeptIn p o here d (received-IsSound c s (x ∷ xs)) refl) a.kept;
            balance =
                a.balance
                ∙ ap₂ ◌++◌ same (
                    ap
                      (λ (ys : List ℕ).
                        if ltb (6 + len) mt_buffer_size then mt_echo_prefix ++ ys else pending c)
                      read);
          },
        ),
      )

  -- An asynchronous read changes no connection and writes nothing.
  asked-Answers :
      (w' : World) × (after_recv k w p c (read_failed again) ≡ some w')
      × Answers w p c (record c { readable = false }) (pending c) w'
  unfolding after_recv mt_submit_async_read
  asked-Answers = (mt_submit_async_read k.submit v p c', refl, go k.submit)
    where
      c' : MtConnection
      c' = record c { readable = false }

      v : World
      v = put (record w { worker = count_eagain w.worker }) p c'

      kept : Kept w p c c' v
      kept =
          put-KeptIn p o here c' (flags-IsSound (o.sound p c here) false c.writable c.last_activity)
            refl

      go : (r : Submitted) → Answers w p c c' (pending c) (mt_submit_async_read r v p c')
      go accepted = record {
        kept = kept;
        balance =
            ap (λ t. t ++ pending c)
              (bytes_written-append w.log (submits_read c.fd p 4095 ∷ [])
                ∙ append-nil (bytes_written w.log));
      }
      go refused = record { kept = kept; balance = refl }
      go failed = record { kept = kept; balance = refl }

  after_recv-ReadOutcome :
      (r : Read)
      → AtMost r 4095
      → (w' : World) × (after_recv k w p c r ≡ some w') × ReadOutcome w p c r w'
  unfolding after_recv
  after_recv-ReadOutcome (got []) h =
      let (w', e, r) = mt_remove_connection_safe-Owns p o here own in (w', e, inr (tt, r))
  after_recv-ReadOutcome (got (x ∷ xs)) h = let (w', e, r) = got-Answers x xs h in (w', e, inl r)
  after_recv-ReadOutcome (read_failed again) h =
      let (w', e, r) = asked-Answers in (w', e, inl (record c { readable = false }, r))
  after_recv-ReadOutcome (read_failed other) h =
      let (w', e, r) = mt_remove_connection_safe-Owns p o here own in (w', e, inr (tt, r))

  -- `mt_try_read` at a live connection of the worker that is marked readable, if no `write` fails for
  -- another reason than EAGAIN: no freed memory is used, and one of two things happens. The connection
  -- stays. Then, if `read` gave from 1 to 4089 bytes, what has been written and what waits is what had
  -- been written before, `Echo: `, and these bytes: the answer takes the place of whatever waited. If it
  -- gave more, or failed with EAGAIN, what waits stays. Or `read` gave the end of the stream or
  -- failed otherwise, and the connection is removed, and no other.
  pub mt_try_read-answers :
      c.readable ≡ true
      → (w' : World) × (mt_try_read k w p ≡ some w') × ReadOutcome w p c (k.recv 4095) w'
  unfolding mt_try_read
  mt_try_read-answers h =
      let (w', e, r) = after_recv-ReadOutcome (k.recv 4095) (lawful.0 4095) in
      let runs : mt_try_read k w p ≡ after_recv k w p c (k.recv 4095) =
        simp (here, h, mt_try_read) in
      (w', runs ∙ e, r)
