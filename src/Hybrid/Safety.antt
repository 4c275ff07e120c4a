-- ===== src/Hybrid/Safety.antt =====
-- `mt_handle_connection_event` and `mt_handle_aio_completion` of
-- codes/network/proactor_epoll/hybrid_proactor.c: when they use no freed memory.
use hepeng_projects.Prelude.{
  ltb→lt, ltb→ge, ◌≤◌, none, ◌==◌, if◌then◌else◌, ◌∙◌, ap, ℕ, suc, ◌<◌, ◌≡◌, refl, sym, Bool, true,
  false, List, Option, some, arith, length-set, set, ◌+◌, ◌++◌, take, ltb, ◌⊎◌, inl, inr,
  Bool-cases,
}
use hepeng_projects.Prelude.Memory.{take-set}
use hepeng_projects.Prelude.Kernel.{Read}
use hepeng_projects.Hybrid.Connection.{MtConnection, mt_buffer_size, World, put}
use hepeng_projects.Hybrid.Events.{
  mt_echo_prefix, Kernel, count_success, Flags, on_readable, on_writable,
  mt_handle_connection_event, after_aio, after_aio_read, mt_handle_aio_completion,
}
use hepeng_projects.Hybrid.Ownership.{
  Removed, IsSound, flags-IsSound, Owns, put-Lists, mt_remove_connection_safe-Owns,
}
use hepeng_projects.Hybrid.Keeping.{
  pending, bytes_written, Lawful, Kept, put-KeptIn, KeptIn-trans, update_self,
}
use hepeng_projects.Hybrid.Writing.{mt_try_write-Written}
use hepeng_projects.Hybrid.Answering.{NeverBroken, answer, processed, Answers}
use hepeng_projects.Hybrid.Reading.{Closes, touched, mt_try_read-answers}

-- A step for the connection at `p` keeps the list and the heap in agreement, and leaves all other
-- connections alone.
pub record Handled (w : World) (p : ℕ) (w' : World) : Type 0 where
  pub owns : Owns w'
  pub id : w'.worker.id ≡ w.worker.id
  pub others : (q : ℕ) → (p == q) ≡ false → w'.heap q ≡ w.heap q

Kept-Handled :
    {w : World} {p : ℕ} {c c' : MtConnection} {w' : World} → Kept w p c c' w' → Handled w p w'
Kept-Handled t = record { owns = t.owns; id = t.id; others = t.others }

Removed-Handled :
    {w : World} {p : ℕ} {c : MtConnection} {w' : World} → Removed w p c w' → Handled w p w'
Removed-Handled t = record {
  owns = t.owns;
  id = ap (λ u. u.id) t.same;
  others = λ q ne. t.freed q ∙ rw ne refl;
}

-- First a new state of the connection, and then a step.
put-Handled :
    {w : World} {p : ℕ} (d : MtConnection) {w' : World} → Handled (put w p d) p w' → Handled w p w'
put-Handled d t = record { owns = t.owns; id = t.id; others = λ q ne. t.others q ne ∙ rw ne refl }

Handled-trans : {u v w : World} {p : ℕ} → Handled u p v → Handled v p w → Handled u p w
Handled-trans a b = record {
  owns = b.owns;
  id = b.id ∙ a.id;
  others = λ q ne. b.others q ne ∙ a.others q ne;
}

-- Such a step, which uses no freed memory.
abbrev pub Safe : World → ℕ → Option World → Type 0
Safe w p r = (w' : World) × (r ≡ some w') × Handled w p w'

-- The connection is live, and the worker's.
abbrev pub Live : World → ℕ → Type 0
Live w p = (c : MtConnection) × (w.heap p ≡ some c) × (c.worker_id ≡ w.worker.id)

on_writable-Safe :
    (k : Kernel) (w : World) (p : ℕ) → Lawful k → Owns w → Live w p → Safe w p (on_writable k w p)
unfolding on_writable
on_writable-Safe k w p lawful o (c, here, own) =
    let s = o.sound p c here in
    let d : MtConnection = record c { writable = true } in
    let v : World = put w p d in
    let sd : IsSound d = flags-IsSound s c.readable true c.last_activity in
    let ov : Owns v = put-Lists p o here d sd refl in
    let (w', e, r) =
      mt_try_write-Written k {w = v} p ov (update_self w.heap p (some d)) own
        (lawful.1 c.write_pending) in
    (
      w',
      rw (here, on_writable) e,
      put-Handled d (elim r [ inl (c', t) ↦ Kept-Handled t.kept | inr (b, t) ↦ Removed-Handled t ]),
    )

-- After the half that reads, the connection is still there, unless the read closes it.
on_readable-Safe :
    (k : Kernel) (w : World) (p : ℕ)
    → Lawful k
    → NeverBroken k
    → Owns w
    → Live w p
    → (w' : World) × (on_readable k w p ≡ some w')
      × Handled w p w'
      × (Live w' p ⊎ Closes (k.recv 4095))
unfolding on_readable
on_readable-Safe k w p lawful whole o (c, here, own) =
    let s = o.sound p c here in
    let d : MtConnection = record c { readable = true } in
    let v : World = put w p d in
    let sd : IsSound d = flags-IsSound s true c.writable c.last_activity in
    let ov : Owns v = put-Lists p o here d sd refl in
    let (w', e, r) =
      mt_try_read-answers k lawful whole {w = v} p ov (update_self w.heap p (some d)) own refl in
    (
      w',
      rw (here, on_readable) e,
      put-Handled d (elim r [ inl (c', t) ↦ Kept-Handled t.kept | inr (b, t) ↦ Removed-Handled t ]),
      elim r [
        | inl (c', t) ↦ inl (c', t.kept.here, t.kept.own ∙ own ∙ sym t.kept.id)
        | inr (b, t) ↦ inr b
      ],
    )

-- What the half that reads has to leave alone, if the event is also writable.
abbrev pub StaysIf : Bool → Read → Type 0
StaysIf false r = Unit
StaysIf true r = Closes r → ⊥

-- An event with any flags at a live connection of the worker: if no `write` of the half that reads
-- fails for another reason than EAGAIN, and, in case the event is also writable, `read` finds neither
-- the end of the stream nor a broken connection, no freed memory is used.
pub mt_handle_connection_event-Safe :
    (k k' : Kernel) (w : World) (p : ℕ) (f : Flags)
    → Lawful k
    → NeverBroken k
    → StaysIf f.out (k.recv 4095)
    → Lawful k'
    → Owns w
    → Live w p
    → Safe w p (mt_handle_connection_event k k' w p f)
unfolding mt_handle_connection_event
mt_handle_connection_event-Safe k k' w p f lawful whole stays lawful' o (c, here, own) =
    elim (Bool-cases f.gone) [
      | inl h ↦
          let (w', e, r) = mt_remove_connection_safe-Owns {w = w} p o here own in
          (w', rw (h, mt_handle_connection_event) e, Removed-Handled r)
      | inr h ↦ elim (Bool-cases f.inp) [
        | inr i ↦
            let step : mt_handle_connection_event k k' w p f
                ≡ (if f.out then on_writable k' w p else some w) =
              rw (h, i, mt_handle_connection_event) refl in
            let (w', e, t) = second f.out w o (c, here, own) in (w', step ∙ e, t)
        | inl i ↦
            let (v, runs, tv, lv) = on_readable-Safe k w p lawful whole o (c, here, own) in
            let step : mt_handle_connection_event k k' w p f
                ≡ (if f.out then on_writable k' v p else some v) =
              rw (h, i, runs, mt_handle_connection_event) refl in
            let (w', e, t) = next f.out stays v tv.owns lv in (w', step ∙ e, Handled-trans tv t)
      ]
    ]
  where
    second :
        (b : Bool) (v : World)
        → Owns v
        → Live v p
        → Safe v p (if b then on_writable k' v p else some v)
    second true v ov lv = on_writable-Safe k' v p lawful' ov lv
    second false v ov lv = (v, refl, record { owns = ov; id = refl; others = λ q ne. refl })

    next :
        (b : Bool)
        → StaysIf b (k.recv 4095)
        → (v : World) → Owns v
        → Live v p ⊎ Closes (k.recv 4095)
        → Safe v p (if b then on_writable k' v p else some v)
    next true st v ov (inl lv) = second true v ov lv
    next true st v ov (inr cl) = absurd (st cl)
    next false st v ov x = (v, refl, record { owns = ov; id = refl; others = λ q ne. refl })

-- An asynchronous operation completes for a live connection of the worker, with `res2` equal to 0 and a
-- result other than 0, and no `write` fails for another reason than EAGAIN. If the result is at most
-- 4095, no freed memory is used; what has been written by `write` and what waits is then what had been
-- written before, followed, if the result is at most 4089, by `Echo: ` and as many bytes of the read
-- buffer, and by what waited before otherwise. So it is for an asynchronous write too, which the code
-- tells apart by `res2` alone. Any greater result, and every error number is one, leads to a write past
-- the end of the read buffer.
pub mt_handle_aio_completion-answers :
    (k : Kernel) (w : World) (p n : ℕ) {c : MtConnection}
    → Lawful k
    → NeverBroken k
    → Owns w
    → w.heap p ≡ some c
    → c.worker_id ≡ w.worker.id
    → ((suc n < mt_buffer_size)
        × ((w' : World) × (mt_handle_aio_completion k w (some p) (suc n) true ≡ some w')
            × ((c' : MtConnection) × Answers w p c c'
                  (if ltb (6 + suc n) mt_buffer_size then answer c (suc n) else pending c)
                  w')))
      ⊎ ((mt_buffer_size ≤ suc n) × (mt_handle_aio_completion k w (some p) (suc n) true ≡ none))
unfolding mt_handle_aio_completion after_aio after_aio_read
mt_handle_aio_completion-answers k w p n {c} lawful whole o here own =
    elim (Bool-cases (ltb (suc n) mt_buffer_size)) [
      | inr long ↦ inr (
        ltb→ge (suc n) mt_buffer_size long,
        rw (here, some_bytes, long, mt_handle_aio_completion, after_aio, after_aio_read) refl,
      )
      | inl fits ↦ inl (ltb→lt (suc n) mt_buffer_size fits, answers fits)
    ]
  where
    some_bytes : ltb 0 (suc n) ≡ true
    some_bytes = ground arith

    answers :
        ltb (suc n) mt_buffer_size ≡ true
        → (w' : World) × (mt_handle_aio_completion k w (some p) (suc n) true ≡ some w')
          × ((c' : MtConnection) × Answers w p c c'
                (if ltb (6 + suc n) mt_buffer_size then answer c (suc n) else pending c)
                w')
    answers fits =
        let s = o.sound p c here in
        let d : MtConnection = record c { read_buf = set c.read_buf (suc n) 0 } in
        let v : World = put w p d in
        let sd : IsSound d = record {
          open_fd = s.open_fd;
          staying = s.staying;
          read_room = omega (arith, length-set c.read_buf (suc n) 0, s.read_room);
          write_room = s.write_room;
          pending_in = s.pending_in;
        } in
        let ov : Owns v = put-Lists p o here d sd refl in
        let (u, runs, (c1, t)) =
          processed k lawful whole {w = v} p {c = d} ov (update_self w.heap p (some d)) own
            (suc n) in
        let (w', ends, a) = touched p k.read_time t (count_success u.worker) refl refl in
        let same : take (suc n) d.read_buf ≡ take (suc n) c.read_buf =
          take-set (suc n) c.read_buf 0 in
        (
          w',
          rw (here, some_bytes, fits, runs, mt_handle_aio_completion, after_aio, after_aio_read)
              ends,
          (
            record c1 { last_activity = k.read_time },
            record {
              kept = KeptIn-trans (put-KeptIn p o here d sd refl) a.kept;
              balance =
                  a.balance
                  ∙ ap
                      (λ (ys : List ℕ).
                        bytes_written w.log
                        ++ (if ltb (6 + suc n) mt_buffer_size
                            then mt_echo_prefix ++ ys
                            else pending c))
                      same;
            },
          ),
        )
