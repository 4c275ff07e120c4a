-- ===== src/Proactor/Workers/Conservation.antt =====
-- The workers of codes/network/proactor/proactor.c lose no operation and make none up.
use hepeng_projects.Prelude.{
  ℕ, zero, suc, ◌+◌, ◌≡◌, refl, ap, ◌∙◌, Bool, true, false, ◌&&◌, not, List, [], ◌∷◌, ◌++◌,
  if◌then◌else◌, arith, get_or, set, inl, inr, Bool-cases,
}
use hepeng_projects.Proactor.Connection.{
  OperationType, Submitted, accepted, refused, failed, op_accept, op_read, op_write, op_close,
  Operation, World, submit_operation, perform,
}
use hepeng_projects.Proactor.Workers.{
  Worker, at_test, locking, waiting, exited, holding, Pool, frees, settle, is_empty, take_operation,
  after_waiting, move, placed, Happening, submits, advances, stops, happen, happen_all,
}

-- How many operations of a list pass a test.
abbrev pub tally : (Operation → Bool) → List Operation → ℕ
tally f [] = 0
tally f (op ∷ ops) = (if f op then 1 else 0) + tally f ops

abbrev pub held : (Operation → Bool) → Worker → ℕ
held f (holding op) = if f op then 1 else 0
held f at_test = 0
held f locking = 0
held f waiting = 0
held f exited = 0

abbrev pub all_held : (Operation → Bool) → List Worker → ℕ
all_held f [] = 0
all_held f (t ∷ ts) = held f t + all_held f ts

-- How many operations, in all places, pass a test.
abbrev pub present : (Operation → Bool) → Pool → ℕ
present f p =
    tally f p.world.proactor.pending_ops
    + (all_held f p.workers + (tally f p.kernel + tally f p.freed))

-- How many of those that are submitted pass it.
abbrev pub submitted : (Operation → Bool) → List Happening → ℕ
submitted f [] = 0
submitted f (submits op ∷ hs) = (if f op then 1 else 0) + submitted f hs
submitted f (advances i timed_out answer ∷ hs) = submitted f hs
submitted f (stops ∷ hs) = submitted f hs

all_held-set :
    (f : Operation → Bool) (ts : List Worker) (i : ℕ) (t : Worker)
    → (get_or ts i exited ≡ exited → held f t ≡ 0)
    → held f (get_or ts i exited) + all_held f (set ts i t) ≡ held f t + all_held f ts
all_held-set f [] i t done = omega (arith, done refl)
all_held-set f (u ∷ ts) zero t done = omega arith
all_held-set f (u ∷ ts) (suc i) t done = omega (arith, all_held-set f ts i t done)

-- A step of a thread keeps what is in the four places, the thread's own hands counted apart.
abbrev pub Keeps : (Operation → Bool) → Pool → Worker → Pool × Worker → Type 0
Keeps f p t (p', t') =
    (p'.workers ≡ p.workers)
    × (tally f p'.world.proactor.pending_ops + (held f t' + (tally f p'.kernel + tally f p'.freed))
        ≡ tally f p.world.proactor.pending_ops + (held f t + (tally f p.kernel + tally f p.freed)))

-- The switch with what `io_submit` and `free` get.
outcome-Keeps :
    (f : Operation → Bool) (answer : Submitted) (p : Pool) (op : Operation) (w : World)
    (given : List Operation) (b : Bool)
    → perform (λ o. answer) p.world op ≡ (w, given)
    → frees op.type answer ≡ b
    → tally f w.proactor.pending_ops
        + (tally f (given ++ p.kernel) + tally f (if b then op ∷ p.freed else p.freed))
      ≡ tally f p.world.proactor.pending_ops
        + ((if f op then 1 else 0) + (tally f p.kernel + tally f p.freed))
    → Keeps f p (holding op) (settle answer p op, at_test)
unfolding settle
outcome-Keeps f answer p op w given b e g h =
    let x = ap (λ (r : World × List Operation). tally f r.0.proactor.pending_ops) e in
    let y = ap (λ (r : World × List Operation). tally f (r.1 ++ p.kernel)) e in
    let z = ap (λ c. tally f (if c then op ∷ p.freed else p.freed)) g in
    (refl, omega (arith, x, y, z, h))

settle-Keeps :
    (f : Operation → Bool) (answer : Submitted) (p : Pool) (op : Operation)
    → Keeps f p (holding op) (settle answer p op, at_test)
unfolding perform submit_operation
settle-Keeps f answer p op = go op.type answer refl
  where
    go :
        (t : OperationType) (a : Submitted)
        → op.type ≡ t
        → Keeps f p (holding op) (settle a p op, at_test)
    go op_accept a k =
        outcome-Keeps f a p op p.world [] true (simp (k, perform)) (ap (λ t. frees t a) k)
          (omega arith)
    go op_close a k =
        outcome-Keeps f a p op p.world [] true (simp (k, perform)) (ap (λ t. frees t a) k)
          (omega arith)
    go op_read accepted k =
        outcome-Keeps f accepted p op p.world (op ∷ []) false (simp (k, perform))
          (ap (λ t. frees t accepted) k) (omega arith)
    go op_read refused k =
        outcome-Keeps f refused p op (submit_operation p.world op) [] false (simp (k, perform))
          (ap (λ t. frees t refused) k) (omega arith)
    go op_read failed k =
        outcome-Keeps f failed p op p.world [] true (simp (k, perform)) (ap (λ t. frees t failed) k)
          (omega arith)
    go op_write accepted k =
        outcome-Keeps f accepted p op p.world (op ∷ []) false (simp (k, perform))
          (ap (λ t. frees t accepted) k) (omega arith)
    go op_write refused k =
        outcome-Keeps f refused p op (submit_operation p.world op) [] false (simp (k, perform))
          (ap (λ t. frees t refused) k) (omega arith)
    go op_write failed k =
        outcome-Keeps f failed p op p.world [] true (simp (k, perform)) (ap (λ t. frees t failed) k)
          (omega arith)

take_operation-Keeps : (f : Operation → Bool) (p : Pool) → Keeps f p waiting (take_operation p)
unfolding take_operation
take_operation-Keeps f p = go p.world.proactor.pending_ops refl
  where
    go :
        (ops : List Operation)
        → p.world.proactor.pending_ops ≡ ops
        → Keeps f p waiting (take_operation p)
    go [] e = simp (e, take_operation) (refl, refl)
    go (op ∷ ops) e = simp (e, take_operation) (refl, omega arith)

after_waiting-Keeps :
    (f : Operation → Bool) (timed_out : Bool) (p : Pool)
    → Keeps f p waiting (after_waiting timed_out p)
unfolding after_waiting
after_waiting-Keeps f timed_out p =
    go (not timed_out && (is_empty p.world.proactor.pending_ops && p.world.proactor.running))
      p.world.proactor.running
  where
    go :
        (b c : Bool)
        → Keeps f p waiting
            (if b then (p, waiting) else if c then take_operation p else (p, exited))
    go true c = (refl, refl)
    go false true = take_operation-Keeps f p
    go false false = (refl, refl)

pub move-Keeps :
    (f : Operation → Bool) (timed_out : Bool) (answer : Submitted) (p : Pool) (t : Worker)
    → Keeps f p t (move timed_out answer p t)
unfolding move
move-Keeps f timed_out answer p exited = (refl, refl)
move-Keeps f timed_out answer p at_test = elim (Bool-cases p.world.proactor.running) [
  | inl h ↦ rw (h, move) (refl, refl)
  | inr h ↦ rw (h, move) (refl, refl)
]
move-Keeps f timed_out answer p locking = after_waiting-Keeps f false p
move-Keeps f timed_out answer p waiting = after_waiting-Keeps f timed_out p
move-Keeps f timed_out answer p (holding op) = settle-Keeps f answer p op

-- A thread that has ended does nothing.
move-exited :
    (f : Operation → Bool) (timed_out : Bool) (answer : Submitted) (p : Pool) (t : Worker)
    → t ≡ exited
    → held f (move timed_out answer p t).1 ≡ 0
unfolding move
move-exited f timed_out answer p t e = rw e refl

placed-present :
    (f : Operation → Bool) (i : ℕ) (p : Pool) (r : Pool × Worker)
    → Keeps f p (get_or p.workers i exited) r
    → (get_or p.workers i exited ≡ exited → held f r.1 ≡ 0)
    → present f (placed i r) ≡ present f p
placed-present f i p (p', t') (same, kept) done =
    let hands = all_held-set f p.workers i t' done in
    let set_same : all_held f (set p'.workers i t') ≡ all_held f (set p.workers i t') =
      ap (λ ts. all_held f (set ts i t')) same in
    omega (arith, kept, hands, set_same)

happen-present :
    (f : Operation → Bool) (h : Happening) (p : Pool)
    → present f (happen h p) ≡ submitted f (h ∷ []) + present f p
unfolding happen submit_operation
happen-present f (submits op) p = omega arith
happen-present f stops p = omega arith
happen-present f (advances i timed_out answer) p =
    placed-present f i p (move timed_out answer p (get_or p.workers i exited))
      (move-Keeps f timed_out answer p (get_or p.workers i exited))
      (move-exited f timed_out answer p (get_or p.workers i exited))
    ∙ omega arith

submitted-cons :
    (f : Operation → Bool) (h : Happening) (hs : List Happening)
    → submitted f (h ∷ hs) ≡ submitted f (h ∷ []) + submitted f hs
submitted-cons f (submits op) hs = omega arith
submitted-cons f (advances i timed_out answer) hs = omega arith
submitted-cons f stops hs = omega arith

-- Any number of workers, and threads that submit, in any interleaving, with any answers of `io_submit`,
-- with waits that end in any way and with a stop at any time: every operation that was there or is
-- submitted is afterwards in exactly one place, which is the list, the hands of a worker, the kernel or
-- the freed ones. The statement counts the operations that pass an arbitrary test.
pub happen_all-present :
    (f : Operation → Bool) (hs : List Happening) (p : Pool)
    → present f (happen_all hs p) ≡ submitted f hs + present f p
unfolding happen_all
happen_all-present f [] p = omega arith
happen_all-present f (h ∷ hs) p =
    omega (arith, happen_all-present f hs (happen h p), happen-present f h p, submitted-cons f h hs)
