-- ===== src/Hybrid/Faults.antt =====
-- Where codes/network/proactor_epoll/hybrid_proactor.c uses a connection that it has just freed.
use hepeng_projects.Prelude.{
  ℕ, suc, ◌+◌, ◌<◌, ◌≡◌, refl, ap, ◌∙◌, Bool, true, false, List, [], ◌∷◌, ◌++◌, none, some, arith,
  length, ltb, ◌==◌, append_assoc,
}
use hepeng_projects.Prelude.Memory.{read_at}
use hepeng_projects.Prelude.Kernel.{
  Errno, accepted, took, other, Read, got, read_failed, write_failed,
}
use hepeng_projects.Hybrid.Connection.{
  mt_buffer_size, MtConnection, reads, writes, submits_write, World, put, with_log,
  mt_remove_connection_safe, mt_create_connection, mt_add_connection_to_worker,
}
use hepeng_projects.Hybrid.Events.{
  Kernel, count_operation, count_success, count_eagain, Flags, answered, received, after_send,
  mt_try_write, mt_process_data, touch, after_recv, mt_try_read, on_readable, on_writable,
  mt_handle_connection_event, mt_handle_aio_completion, mt_submit_async_write,
}
use hepeng_projects.Hybrid.Accept.{Arrival, admit, mt_send_welcome_message}
use hepeng_projects.Hybrid.Ownership.{
  mt_remove_connection_safe-frees, IsSound, flags-IsSound, Owns, put-Lists, Removed,
  mt_remove_connection_safe-Owns,
}
use hepeng_projects.Hybrid.Keeping.{update_self}
use hepeng_projects.Hybrid.Answering.{answered-IsSound, received-IsSound}
use hepeng_projects.Hybrid.Reading.{Closes}

-- A removed connection is no longer there.
freed : {w : World} {p : ℕ} {c : MtConnection} {w' : World} → Removed w p c w' → w'.heap p ≡ none
freed {p = p} r = r.freed p ∙ ground arith

touch-none : (now : ℕ) (w : World) (p : ℕ) → w.heap p ≡ none → touch now w p ≡ none
unfolding touch
touch-none now w p e = rw (e, touch) refl

module _ (k : Kernel) (w : World) (p : ℕ) {c : MtConnection} (o : Owns w) (here : w.heap p ≡ some c)
    (own : c.worker_id ≡ w.worker.id) where
  -- The answer to `n` bytes cannot be written.
  broken :
      (n : ℕ)
      → 6 + n < mt_buffer_size
      → c.writable ≡ true
      → k.send (6 + n) ≡ write_failed other
      → (w' : World) × (mt_process_data k w p c n ≡ some w') × (w'.heap p ≡ none)
  unfolding mt_process_data mt_try_write after_send answered
  broken n fits free fails =
      let s = o.sound p c here in
      let d = answered c n in
      let v : World = put w p d in
      let ov : Owns v = put-Lists p o here d (answered-IsSound c s n fits) refl in
      let (w', e, r) =
        mt_remove_connection_safe-Owns {w = v} p ov (update_self w.heap p (some d)) own in
      let small : ltb (6 + n) mt_buffer_size ≡ true = ground arith in
      let busy : ((6 + n) == 0) ≡ false = ground arith in
      let self = update_self w.heap p (some d) in
      let ready : d.writable ≡ true = free in
      let tries : mt_process_data k w p c n ≡ mt_try_write k v p =
        rw (small, mt_process_data) refl in
      let runs : mt_try_write k v p ≡ mt_remove_connection_safe v (some p) =
        simp (self, ready, busy, fails, mt_try_write, after_send) in
      (w', tries ∙ runs ∙ e, freed r)

module _ (k : Kernel) (w : World) (p : ℕ) {c : MtConnection} (o : Owns w) (here : w.heap p ≡ some c)
    (own : c.worker_id ≡ w.worker.id) where
  -- `mt_try_read` gets bytes whose answer fits, and the `write` of the answer fails for another reason
  -- than EAGAIN, as for a peer that is gone: `mt_try_write` frees the connection, and `mt_try_read` then
  -- stores the time into it.
  pub mt_try_read-faults :
      (x : ℕ) (xs : List ℕ)
      → c.readable ≡ true
      → c.writable ≡ true
      → k.recv 4095 ≡ got (x ∷ xs)
      → 6 + length (x ∷ xs) < mt_buffer_size
      → k.send (6 + length (x ∷ xs)) ≡ write_failed other
      → mt_try_read k w p ≡ none
  unfolding mt_try_read after_recv received
  mt_try_read-faults x xs readable writable gets fits fails =
      let s = o.sound p c here in
      let d = received c (x ∷ xs) in
      let v : World = with_log (put w p d) (reads c.fd (x ∷ xs) ∷ []) in
      let ov : Owns v = put-Lists p o here d (received-IsSound c s (x ∷ xs)) refl in
      let (u, e, dead) =
        broken k v p ov (update_self w.heap p (some d)) own (length (x ∷ xs)) fits writable fails in
      let step : mt_try_read k w p ≡ after_recv k w p c (k.recv 4095) =
        simp (here, readable, mt_try_read) in
      step
      ∙ rw (gets, after_recv, e)
          (touch-none k.read_time (record u { worker = count_operation (count_success u.worker) }) p
            dead)

  -- A read that closes the connection frees it.
  read_frees :
      (r : Read)
      → k.recv 4095 ≡ r
      → Closes r
      → (w' : World) × (on_readable k w p ≡ some w') × (w'.heap p ≡ none)
  unfolding on_readable mt_try_read after_recv
  read_frees r e cl =
      let s = o.sound p c here in
      let d : MtConnection = record c { readable = true } in
      let v : World = put w p d in
      let sd : IsSound d = flags-IsSound s true c.writable c.last_activity in
      let ov : Owns v = put-Lists p o here d sd refl in
      let self = update_self w.heap p (some d) in
      let (w', ends, r') = mt_remove_connection_safe-Owns {w = v} p ov self own in
      let half : on_readable k w p ≡ after_recv k v p d (k.recv 4095) =
        simp (here, self, on_readable, mt_try_read) in
      (w', half ∙ ap (λ x. after_recv k v p d x) e ∙ removes v d r cl ∙ ends, freed r')
    where
      removes :
          (v : World) (d : MtConnection) (r : Read)
          → Closes r
          → after_recv k v p d r ≡ mt_remove_connection_safe v (some p)
      removes v d (got []) cl = refl
      removes v d (got (x ∷ xs)) cl = elim cl [ ]
      removes v d (read_failed Errno.again) cl = elim cl [ ]
      removes v d (read_failed other) cl = refl

  -- An event that is both readable and writable, when the read finds the end of the stream or a broken
  -- connection: `mt_try_read` frees the connection, and `mt_handle_connection_event` then marks it
  -- writable.
  pub mt_handle_connection_event-faults :
      (k' : Kernel) (f : Flags)
      → f.gone ≡ false
      → f.inp ≡ true
      → f.out ≡ true
      → Closes (k.recv 4095)
      → mt_handle_connection_event k k' w p f ≡ none
  unfolding mt_handle_connection_event on_writable
  mt_handle_connection_event-faults k' f stays inp out closes =
      let (v, e, dead) = read_frees (k.recv 4095) refl closes in
      rw (stays, inp, out, e, dead, mt_handle_connection_event, on_writable) refl

-- A connection is removed while an asynchronous operation on it is under way, which the code does not
-- cancel: when it completes, with any result, the freed connection is read.
pub mt_handle_aio_completion-faults :
    (k : Kernel) (w : World) (p : ℕ) {c : MtConnection} (res : ℕ) (reads_it : Bool)
    → Owns w
    → w.heap p ≡ some c
    → c.worker_id ≡ w.worker.id
    → (w' : World) × (mt_remove_connection_safe w (some p) ≡ some w')
      × (mt_handle_aio_completion k w' (some p) res reads_it ≡ none)
unfolding mt_handle_aio_completion
mt_handle_aio_completion-faults k w p res reads_it o here own =
    let (w', e, r) = mt_remove_connection_safe-Owns {w = w} p o here own in
    (w', e, rw (freed r, mt_handle_aio_completion) refl)

-- A `write` gets EAGAIN and the kernel accepts the asynchronous write of the same bytes. They still
-- wait: when the connection becomes writable, a `write` that takes them all sends them once more.
pub mt_submit_async_write-repeats :
    (k k' : Kernel) (w : World) (p m : ℕ) {c : MtConnection}
    → w.heap p ≡ some c
    → c.writable ≡ true
    → c.write_pending ≡ suc m
    → k.send (suc m) ≡ write_failed Errno.again
    → k.submit ≡ accepted
    → k'.send (suc m) ≡ took (suc m)
    → (w1 : World) × (mt_try_write k w p ≡ some w1)
      × ((w2 : World) × (on_writable k' w1 p ≡ some w2)
          × (w2.log
              ≡ w.log
                ++ (submits_write c.fd p c.write_pending
                    ∷ writes c.fd (read_at 0 c.write_buf 0 (suc m))
                    ∷ [])))
unfolding mt_try_write on_writable after_send mt_submit_async_write
mt_submit_async_write-repeats k k' w p m {c} here free some_wait fails takes all =
    let c' : MtConnection = record c { writable = false } in
    let d : MtConnection = record c { writable = true } in
    let v : World = put (record w { worker = count_eagain w.worker }) p c' in
    let w1 : World = mt_submit_async_write accepted v p c' in
    let busy : (c.write_pending == 0) ≡ false = ground arith in
    let first : mt_try_write k w p ≡ after_send k w p c (k.send c.write_pending) =
      simp (here, free, busy, mt_try_write) in
    let waits : after_send k w p c (write_failed Errno.again) ≡ some w1 =
      ap (λ r. some (mt_submit_async_write r v p c')) takes in
    let half : on_writable k' w1 p ≡ mt_try_write k' (put w1 p d) p =
      simp (update_self w.heap p (some c'), on_writable) in
    let again : mt_try_write k' (put w1 p d) p
        ≡ after_send k' (put w1 p d) p d (k'.send c.write_pending) =
      simp (update_self w1.heap p (some d), busy, mt_try_write) in
    (
      w1,
      first ∙ ap (λ r. after_send k w p c r) (ap (λ n. k.send n) some_wait ∙ fails) ∙ waits,
      (
        _,
        half
            ∙ again
            ∙ ap (λ r. after_send k' (put w1 p d) p d r) (ap (λ n. k'.send n) some_wait ∙ all),
        append_assoc w.log _ _,
      ),
    )

-- `epoll_ctl` fails for a new connection: `mt_add_connection_to_worker` frees it, and the accept thread
-- then sends the welcome through it.
admit-faults :
    (a : Arrival) (w : World) (fd p : ℕ)
    → a.added ≡ false
    → Owns w
    → w.heap p ≡ none
    → admit a w.worker.id w fd p ≡ none
unfolding admit mt_add_connection_to_worker mt_send_welcome_message mt_create_connection
admit-faults a w fd p refuses o unused =
    let c = mt_create_connection fd w.worker.id a.now in
    let v : World = put w p c in
    let (w', e, dead) =
      mt_remove_connection_safe-frees v p (update_self w.heap p (some c)) refl
        (λ q h. ground (arith, o.owned q)) in
    let step : mt_add_connection_to_worker a.added v p ≡ mt_remove_connection_safe v (some p) =
      simp (update_self w.heap p (some c), refuses, mt_add_connection_to_worker) in
    rw (step, e, dead, admit, mt_send_welcome_message) refl
