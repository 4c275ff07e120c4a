-- ===== src/Proactor/Workers/Alone.antt =====
-- `worker_thread_func` of codes/network/proactor/proactor.c for one worker that nobody disturbs.
use hepeng_projects.Prelude.{
  ◌≡◌, refl, ap, ◌∙◌, sym, Bool, true, false, ◌&&◌, not, List, ◌∷◌, ◌++◌, if◌then◌else◌,
}
use hepeng_projects.Proactor.Connection.{Submitted, Operation, perform, worker_round}
use hepeng_projects.Proactor.Workers.{
  waiting, exited, holding, Pool, settle, is_empty, take_operation, after_waiting,
}

-- The pool without the operation at the front.
abbrev behind : Pool → List Operation → Pool
behind p ops = record p {
  world = record p.world { proactor = record p.world.proactor { pending_ops = ops } };
}

after_waiting-takes :
    (timed_out : Bool) (p : Pool) (op : Operation) (ops : List Operation)
    → p.world.proactor.running ≡ true
    → p.world.proactor.pending_ops ≡ op ∷ ops
    → after_waiting timed_out p ≡ (behind p ops, holding op)
unfolding after_waiting take_operation
after_waiting-takes timed_out p op ops runs here =
    go timed_out (is_empty p.world.proactor.pending_ops) p.world.proactor.running (ap is_empty here)
      runs
    ∙ taken
  where
    taken : take_operation p ≡ (behind p ops, holding op)
    taken = simp (here, take_operation)

    go :
        (t e c : Bool)
        → e ≡ false
        → c ≡ true
        → (if not t && (e && c) then (p, waiting) else if c then take_operation p else (p, exited))
          ≡ take_operation p
    go t true c h k = cc
    go t false false h k = cc
    go true false true h k = refl
    go false false true h k = refl

-- A worker that finds an operation and is not disturbed does as much as a round of the single worker in
-- `worker_round`.
pub alone-worker_round :
    (timed_out : Bool) (answer : Submitted) (p : Pool) (op : Operation) (ops : List Operation)
    → p.world.proactor.running ≡ true
    → p.world.proactor.pending_ops ≡ op ∷ ops
    → let r = after_waiting timed_out p in
      (r.1 ≡ holding op)
      × ((settle answer r.0 op).world ≡ (worker_round (λ o. answer) p.world).0)
      × ((settle answer r.0 op).kernel ≡ (worker_round (λ o. answer) p.world).1 ++ p.kernel)
unfolding after_waiting take_operation settle worker_round
alone-worker_round timed_out answer p op ops runs here =
    let takes = after_waiting-takes timed_out p op ops runs here in
    let round : worker_round (λ o. answer) p.world ≡ perform (λ o. answer) (behind p ops).world op =
      simp (here, worker_round) in
    (
      ap (λ r. r.1) takes,
      ap (λ r. (settle answer r.0 op).world) takes ∙ sym (ap (λ r. r.0) round),
      ap (λ r. (settle answer r.0 op).kernel) takes ∙ sym (ap (λ r. r.1 ++ p.kernel) round),
    )
