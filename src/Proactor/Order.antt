-- ===== src/Proactor/Order.antt =====
-- The order in which `worker_thread_func` of codes/network/proactor/proactor.c takes operations that
-- `proactor_submit_operation` has put into the list.
use hepeng_projects.Prelude.{
  ℕ, zero, suc, ◌≡◌, refl, Bool, true, false, List, [], ◌∷◌, ◌++◌, length,
}
use hepeng_projects.Proactor.Connection.{
  OperationType, op_accept, op_read, op_write, op_close, Operation, World, Submitted, accepted,
  submit_operation, perform, worker_round,
}

-- One submission after another.
abbrev pub submit_all : World → List Operation → World
submit_all w [] = w
submit_all w (op ∷ ops) = submit_all (submit_operation w op) ops

-- Some rounds of a worker, with what the kernel gets.
abbrev pub rounds : (Operation → Submitted) → ℕ → World → World × List Operation
rounds io_submit zero w = (w, [])
rounds io_submit (suc n) w =
    let (w', given) = rounds io_submit n w in
    let (w'', more) = worker_round io_submit w' in (w'', given ++ more)

abbrev pub latest_first : List Operation → List Operation
latest_first [] = []
latest_first (op ∷ ops) = latest_first ops ++ (op ∷ [])

-- Reads and writes, which are the only operations that the program makes.
abbrev pub moves : OperationType → Bool
moves op_read = true
moves op_write = true
moves op_accept = false
moves op_close = false

-- All the operations are reads and writes, and the kernel accepts each.
abbrev pub AllAccepted : (Operation → Submitted) → List Operation → Type 0
AllAccepted io_submit [] = Unit
AllAccepted io_submit (op ∷ ops) =
    (moves op.type ≡ true) × (io_submit op ≡ accepted) × AllAccepted io_submit ops

perform-accepted :
    (io_submit : Operation → Submitted) (w : World) (op : Operation)
    → moves op.type ≡ true
    → io_submit op ≡ accepted
    → perform io_submit w op ≡ (w, op ∷ [])
unfolding perform
perform-accepted io_submit w op m e = go op.type refl m
  where
    go : (t : OperationType) → op.type ≡ t → moves t ≡ true → perform io_submit w op ≡ (w, op ∷ [])
    go op_read k m = simp (k, e, perform)
    go op_write k m = simp (k, e, perform)
    go op_accept k m = cc
    go op_close k m = cc

-- One round undoes one submission.
round-submit :
    (io_submit : Operation → Submitted) (w : World) (op : Operation)
    → moves op.type ≡ true
    → io_submit op ≡ accepted
    → worker_round io_submit (submit_operation w op) ≡ (w, op ∷ [])
unfolding worker_round submit_operation
round-submit io_submit w op m e = perform-accepted io_submit w op m e

-- Reads and writes are submitted in some order to a proactor, without interruption, and a worker then
-- goes through as many rounds, in which `io_submit` accepts each operation. The kernel gets all of them,
-- each once, the one submitted last first, and the list is as it was before.
pub rounds-submit_all :
    (io_submit : Operation → Submitted) (w : World) (ops : List Operation)
    → AllAccepted io_submit ops
    → rounds io_submit (length ops) (submit_all w ops) ≡ (w, latest_first ops)
rounds-submit_all io_submit w [] all = refl
rounds-submit_all io_submit w (op ∷ ops) (m, e, all) =
    rw
      (rounds-submit_all io_submit (submit_operation w op) ops all, round-submit io_submit w op m e)
      refl
