-- ===== src/Proactor/Safety.antt =====
-- The completion handlers in
-- codes/network/proactor/async_server_proactor.c, and the dispatch of completed operations in
-- proactor.c, keep contexts and handlers in agreement with the array.
use hepeng_projects.Prelude.{
  ℕ, zero, suc, ◌<◌, ◌≡◌, refl, ap, true, false, Option, none, some, arith, get_or, leb, leb→gt,
  ltb, if◌then◌else◌, ℤ, pos, negsuc, inl, inr, Option-cases, Bool-cases,
}
use hepeng_projects.Proactor.Connection.{
  Handler, Operation, World, submit_operation, OperationType, op_accept, op_read, op_write,
  op_close,
}
use hepeng_projects.Proactor.Completion.{
  Answers, submit_next_read_operation, echo, is_current, handle_read_completion, safe_bytes,
  handle_write_completion, handle_error_completion, succeed, belongs, finish, complete, is_again,
  to_signed,
}
use hepeng_projects.Proactor.Ownership.{Owns, remove_connection-safe}
use hepeng_projects.Proactor.Changes.{
  submit_operation-Owns, submit_next_read_operation-Owns, echo-Owns,
}

-- A result of a handler that reads no freed memory.
abbrev pub Safe : Option World → Type 0
Safe r = (w' : World) × (r ≡ some w') × Owns w'

module _ (a : Answers) {w : World} {n q : ℕ} (o : Owns w) (small : n < w.proactor.max_connections)
    (here : get_or w.proactor.connections n none ≡ some q) where
  fits : leb w.proactor.max_connections n ≡ false
  fits = ground arith

  current : is_current w (pos n) q ≡ true
  unfolding is_current
  current = rw (fits, here) ground arith

  pub handle_read_completion-Owns :
      (bytes : ℤ) → Safe (handle_read_completion a w (pos n) (some q) bytes)
  unfolding handle_read_completion
  handle_read_completion-Owns (negsuc k) =
      let (c, at, own, fine) = o.live n q here in
      elim (Bool-cases c.proactor) [
        | inr h ↦ (w, rw (at, h, handle_read_completion) refl, o)
        | inl h ↦
            let (w', runs, o') = remove_connection-safe (pos n) o in
            (w', rw (at, h, current, handle_read_completion) runs, o')
      ]
  handle_read_completion-Owns (pos zero) =
      let (c, at, own, fine) = o.live n q here in
      elim (Bool-cases c.proactor) [
        | inr h ↦ (w, rw (at, h, handle_read_completion) refl, o)
        | inl h ↦
            let (w', runs, o') = remove_connection-safe (pos n) o in
            (w', rw (at, h, current, handle_read_completion) runs, o')
      ]
  handle_read_completion-Owns (pos (suc k)) =
      let (c, at, own, fine) = o.live n q here in
      elim (Bool-cases c.proactor) [
        | inr h ↦ (w, rw (at, h, handle_read_completion) refl, o)
        | inl h ↦ (
          echo a w (pos n) q c (safe_bytes (suc k)),
          rw (at, h, current, handle_read_completion) refl,
          echo-Owns a (pos n) q c (safe_bytes (suc k)) o at fine,
        )
      ]

  pub handle_write_completion-Owns :
      (bytes : ℤ) → Safe (handle_write_completion a w (pos n) (some q) bytes)
  unfolding handle_write_completion
  handle_write_completion-Owns (negsuc k) =
      let (c, at, own, fine) = o.live n q here in
      elim (Bool-cases c.proactor) [
        | inr h ↦ (w, rw (at, h, handle_write_completion) refl, o)
        | inl h ↦
            let (w', runs, o') = remove_connection-safe (pos n) o in
            (w', rw (at, h, current, handle_write_completion) runs, o')
      ]
  handle_write_completion-Owns (pos zero) =
      let (c, at, own, fine) = o.live n q here in
      elim (Bool-cases c.proactor) [
        | inr h ↦ (w, rw (at, h, handle_write_completion) refl, o)
        | inl h ↦
            let (w', runs, o') = remove_connection-safe (pos n) o in
            (w', rw (at, h, current, handle_write_completion) runs, o')
      ]
  handle_write_completion-Owns (pos (suc k)) =
      let (c, at, own, fine) = o.live n q here in
      elim (Bool-cases c.proactor) [
        | inr h ↦ (w, rw (at, h, handle_write_completion) refl, o)
        | inl h ↦ (
          submit_next_read_operation a w q c,
          rw (at, h, current, handle_write_completion) refl,
          submit_next_read_operation-Owns a q c o,
        )
      ]

  pub handle_error_completion-Owns : Safe (handle_error_completion w (pos n) (some q))
  unfolding handle_error_completion
  handle_error_completion-Owns =
      let (c, at, own, fine) = o.live n q here in
      elim (Bool-cases c.proactor) [
        | inr h ↦ (w, rw (at, h, handle_error_completion) refl, o)
        | inl h ↦
            let (w', runs, o') = remove_connection-safe (pos n) o in
            (w', rw (at, h, handle_error_completion) runs, o')
      ]

  -- The dispatch on the type of the operation, once the resubmission is ruled out.
  by_type :
      (t : OperationType) (fd : ℤ) (d : Handler) (res : ℤ)
      → fd ≡ pos n
      → d.user_data ≡ some q
      → Safe (elim t [
        | op_read ↦ if d.handle_read then handle_read_completion a w fd d.user_data res else some w
        | op_write ↦
            if d.handle_write then handle_write_completion a w fd d.user_data res else some w
        | op_accept ↦ some w
        | op_close ↦ some w
      ])
  by_type op_accept fd d res at own = (w, refl, o)
  by_type op_close fd d res at own = (w, refl, o)
  by_type op_read fd d res at own = elim (Bool-cases d.handle_read) [
    | inl h ↦ rw (h, at, own) (handle_read_completion-Owns res)
    | inr h ↦ rw h (w, refl, o)
  ]
  by_type op_write fd d res at own = elim (Bool-cases d.handle_write) [
    | inl h ↦ rw (h, at, own) (handle_write_completion-Owns res)
    | inr h ↦ rw h (w, refl, o)
  ]

  succeed-Owns :
      (op : Operation) (d : Handler) (res : ℕ)
      → op.fd ≡ pos n
      → d.user_data ≡ some q
      → Safe (succeed a w op d res)
  unfolding succeed
  succeed-Owns op d res at own = elim (Bool-cases (is_again res)) [
    | inl h ↦ rw h (submit_operation w op, refl, submit_operation-Owns op o)
    | inr h ↦ rw h (by_type op.type op.fd d (to_signed res) at own)
  ]

  finish-Owns :
      (op : Operation) (d : Handler) (res : ℕ)
      → op.fd ≡ pos n
      → d.user_data ≡ some q
      → Safe (finish a w op d res)
  unfolding finish
  finish-Owns op d res at own = elim (Bool-cases (ltb res 0)) [
    | inr fine ↦ rw fine (succeed-Owns op d res at own)
    | inl fails ↦ elim (Bool-cases d.handle_error) [
      | inl h ↦ rw (fails, h, at, own) handle_error_completion-Owns
      | inr h ↦ rw (fails, h) (w, refl, o)
    ]
  ]

belongs→eq : (u : Option ℕ) (q : ℕ) → belongs u q ≡ true → u ≡ some q
belongs→eq none q h = cc
belongs→eq (some p) q h = ap some (ground arith)

-- The handler of an operation has not been freed.
abbrev pub HandlerLives : World → Operation → Type 0
HandlerLives w op = (h : ℕ) → op.handler ≡ some h → (d : Handler) × (w.handlers h ≡ some d)

-- A completed operation, with any result, an `unsigned long` that may stand for an error number, whose
-- handler has not been freed: the dispatcher reads no freed memory and frees nothing twice, whether the
-- operation is submitted again or goes to one of the handlers, and afterwards every entry of the array
-- has a live context, whose handler, if it is set, is live.
pub complete-Owns :
    (a : Answers) {w : World} (op : Operation) (res : ℕ)
    → Owns w
    → HandlerLives w op
    → (w' : World) × (complete a w (some op) res ≡ some w') × Owns w'
unfolding complete
complete-Owns a {w} op res o lives = at op.fd refl
  where
    found :
        (n q : ℕ)
        → op.fd ≡ pos n
        → n < w.proactor.max_connections
        → get_or w.proactor.connections n none ≡ some q
        → Safe (complete a w (some op) res)
    found n q e small here = elim (Option-cases op.handler) [
      | inl unset ↦
          let f : leb w.proactor.max_connections n ≡ false = ground arith in
          (w, rw (e, f, here, unset, complete) refl, o)
      | inr (h, on) ↦
          let f : leb w.proactor.max_connections n ≡ false = ground arith in
          let (d, there) = lives h on in
          elim (Bool-cases (belongs d.user_data q)) [
            | inl own ↦
                rw (e, f, here, on, there, own, complete)
                  (finish-Owns a o small here op d res e (belongs→eq d.user_data q own))
            | inr foreign ↦ (w, rw (e, f, here, on, there, foreign, complete) refl, o)
          ]
    ]

    at : (fd : ℤ) → op.fd ≡ fd → Safe (complete a w (some op) res)
    at (negsuc n) e = (w, rw (e, complete) refl, o)
    at (pos n) e = elim (Bool-cases (leb w.proactor.max_connections n)) [
      | inl big ↦ (w, rw (e, big, complete) refl, o)
      | inr within ↦ elim (Option-cases (get_or w.proactor.connections n none)) [
        | inl free ↦ (w, rw (e, within, free, complete) refl, o)
        | inr (q, here) ↦ found n q e (leb→gt w.proactor.max_connections n within) here
      ]
    ]
