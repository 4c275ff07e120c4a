-- ===== src/Proactor/Workers/Stopping.antt =====
-- The workers of codes/network/proactor/proactor.c end once `running` is cleared.
use hepeng_projects.Prelude.{
  ℕ, zero, suc, ◌+◌, ◌-◌, ◌≤◌, ◌≡◌, ◌≢◌, refl, ap, ◌∙◌, Bool, true, false, ◌&&◌, not, List, [], ◌∷◌,
  if◌then◌else◌, ◌==◌, arith, get_or, set, get_or-set_ne, inl, inr, Bool-cases,
}
use hepeng_projects.Proactor.Connection.{
  OperationType, Submitted, accepted, refused, failed, op_accept, op_read, op_write, op_close,
  Operation, World, submit_operation, perform,
}
use hepeng_projects.Proactor.Workers.{
  Worker, at_test, locking, waiting, exited, holding, Pool, settle, is_empty, take_operation,
  after_waiting, move, Happening, submits, advances, stops, happen, happen_all,
}
use hepeng_projects.Proactor.Workers.Conservation.{move-Keeps}

-- How many steps a thread has still to go when the proactor has been stopped.
abbrev rank : Worker → ℕ
rank exited = 0
rank at_test = 1
rank locking = 1
rank waiting = 1
rank (holding op) = 2

-- How many steps the thread `i` makes.
abbrev pub steps : ℕ → List Happening → ℕ
steps i [] = 0
steps i (submits op ∷ hs) = steps i hs
steps i (stops ∷ hs) = steps i hs
steps i (advances j timed_out answer ∷ hs) = (if j == i then 1 else 0) + steps i hs

abbrev Ended : Pool → Type 0
Ended p = p.world.proactor.running ≡ false

perform-running :
    (answer : Submitted) (w : World) (op : Operation)
    → (perform (λ o. answer) w op).0.proactor.running ≡ w.proactor.running
unfolding perform submit_operation
perform-running answer w op = go op.type answer refl
  where
    go :
        (t : OperationType) (a : Submitted)
        → op.type ≡ t
        → (perform (λ o. a) w op).0.proactor.running ≡ w.proactor.running
    go op_accept a k = simp (k, perform)
    go op_close a k = simp (k, perform)
    go op_read accepted k = simp (k, perform)
    go op_read refused k = simp (k, perform, submit_operation)
    go op_read failed k = simp (k, perform)
    go op_write accepted k = simp (k, perform)
    go op_write refused k = simp (k, perform, submit_operation)
    go op_write failed k = simp (k, perform)

-- After a stop a thread does not wait any more.
after_waiting-ends :
    (timed_out : Bool) (p : Pool) → Ended p → after_waiting timed_out p ≡ (p, exited)
unfolding after_waiting
after_waiting-ends timed_out p e =
    go timed_out (is_empty p.world.proactor.pending_ops) p.world.proactor.running e
  where
    go :
        (t e c : Bool)
        → c ≡ false
        → (if not t && (e && c) then (p, waiting) else if c then take_operation p else (p, exited))
          ≡ (p, exited)
    go t e true h = cc
    go true e false h = refl
    go false true false h = refl
    go false false false h = refl

move-Ended :
    (timed_out : Bool) (answer : Submitted) (p : Pool) (t : Worker)
    → Ended p
    → Ended (move timed_out answer p t).0 × (rank (move timed_out answer p t).1 ≤ rank t - 1)
unfolding move settle
move-Ended timed_out answer p exited e = (e, omega arith)
move-Ended timed_out answer p at_test e = (e, rw (e, move) (omega arith))
move-Ended timed_out answer p locking e = rw (after_waiting-ends false p e, move) (e, omega arith)
move-Ended timed_out answer p waiting e =
    rw (after_waiting-ends timed_out p e, move) (e, omega arith)
move-Ended timed_out answer p (holding op) e = (perform-running answer p.world op ∙ e, omega arith)

set-rank : (ts : List Worker) (i : ℕ) (t : Worker) → rank (get_or (set ts i t) i exited) ≤ rank t
set-rank [] i t = omega arith
set-rank (u ∷ ts) zero t = omega arith
set-rank (u ∷ ts) (suc i) t = set-rank ts i t

placed-rank :
    (ts : List Worker) (i j : ℕ) (t : Worker)
    → rank t ≤ rank (get_or ts j exited) - 1
    → rank (get_or (set ts j t) i exited)
      ≤ rank (get_or ts i exited) - ((if j == i then 1 else 0) + 0)
placed-rank ts i j t less = elim (Bool-cases (j == i)) [
  | inl h ↦
      let same : i ≡ j = ground arith in
      let here : rank (get_or (set ts j t) i exited) ≡ rank (get_or (set ts j t) j exited) =
        ap (λ k. rank (get_or (set ts j t) k exited)) same in
      let old : rank (get_or ts i exited) ≡ rank (get_or ts j exited) =
        ap (λ k. rank (get_or ts k exited)) same in
      let low = set-rank ts j t in rw h (omega (arith, here, old, low, less))
  | inr h ↦
      let ne : j ≢ i = λ e. ground arith in
      let there = ap rank (get_or-set_ne ts t exited ne) in rw h (omega (arith, there))
]

-- Every event keeps the proactor stopped, and a step of the thread brings it nearer to its end.
happen-rank :
    (i : ℕ) (h : Happening) (p : Pool)
    → Ended p
    → Ended (happen h p)
      × (rank (get_or (happen h p).workers i exited)
          ≤ rank (get_or p.workers i exited) - steps i (h ∷ []))
unfolding happen submit_operation
happen-rank i (submits op) p e = (e, omega arith)
happen-rank i stops p e = (refl, omega arith)
happen-rank i (advances j timed_out answer) p e =
    let r = move timed_out answer p (get_or p.workers j exited) in
    let (still, less) = move-Ended timed_out answer p (get_or p.workers j exited) e in
    let (same, _) = move-Keeps (λ op. true) timed_out answer p (get_or p.workers j exited) in
    let moved = ap (λ ts. rank (get_or (set ts j r.1) i exited)) same in
    (still, omega (arith, moved, placed-rank p.workers i j r.1 less))

steps-cons :
    (i : ℕ) (h : Happening) (hs : List Happening) → steps i (h ∷ hs) ≡ steps i (h ∷ []) + steps i hs
steps-cons i (submits op) hs = omega arith
steps-cons i stops hs = omega arith
steps-cons i (advances j timed_out answer) hs = omega arith

happen_all-rank :
    (i : ℕ) (hs : List Happening) (p : Pool)
    → Ended p
    → Ended (happen_all hs p)
      × (rank (get_or (happen_all hs p).workers i exited)
          ≤ rank (get_or p.workers i exited) - steps i hs)
unfolding happen_all
happen_all-rank i [] p e = (e, omega arith)
happen_all-rank i (h ∷ hs) p e =
    let (now, first) = happen-rank i h p e in
    let (still, rest) = happen_all-rank i hs (happen h p) now in
    (still, omega (arith, first, rest, steps-cons i h hs))

low-exited : (t : Worker) → rank t ≤ 0 → t ≡ exited
low-exited exited h = refl
low-exited at_test h = absurd (omega arith)
low-exited locking h = absurd (omega arith)
low-exited waiting h = absurd (omega arith)
low-exited (holding op) h = absurd (omega arith)

rank_bound : (t : Worker) → rank t ≤ 2
rank_bound exited = omega arith
rank_bound at_test = omega arith
rank_bound locking = omega arith
rank_bound waiting = omega arith
rank_bound (holding op) = omega arith

-- Once `running` is cleared, a worker ends with its second step at the latest, wherever it stands and
-- whatever happens in between: other workers' steps, submissions, and any answers of `io_submit`. It
-- stays ended.
pub happen_all-exited :
    (i : ℕ) (hs : List Happening) (p : Pool)
    → p.world.proactor.running ≡ false
    → 2 ≤ steps i hs
    → get_or (happen_all hs p).workers i exited ≡ exited
happen_all-exited i hs p e enough =
    let (_, low) = happen_all-rank i hs p e in
    low-exited (get_or (happen_all hs p).workers i exited)
      (omega (arith, low, rank_bound (get_or p.workers i exited)))
