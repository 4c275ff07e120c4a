-- ===== src/RingQueue/Refine.antt =====
-- No sequence of calls tells a valid ring from the bounded queue of its items.
use hepeng_projects.Prelude.{◌≡◌, refl, ap, List, [], ◌∷◌, Option, none, some, arith}
use hepeng_projects.RingQueue.{RingQueue, push, pop, push_batch, pop_batch}
use hepeng_projects.RingQueue.Window.{contents, IsValid}
use hepeng_projects.RingQueue.Single.{push_refines, pop_refines}
use hepeng_projects.RingQueue.Batch.{push_batch_refines, pop_batch_refines}
use hepeng_projects.RingQueue.Spec
use hepeng_projects.RingQueue.Spec.{
  Op, put, get, put_batch, get_batch, Fits, Reply, pushed, popped, pushed_batch, popped_batch,
}

-- What a pointer that is not NULL points to.
abbrev value_or {ℓ} : {A : Type ℓ} → A → Option A → A
value_or d none = d
value_or d (some a) = a

-- A client's call of the ring at `q`, and what it sees of it.
pub step : Option RingQueue → Op → Reply × Option RingQueue
step q (put spurious x) = let (done, q') = push spurious q x in (pushed done, q')
step q (get spurious out) =
    let (done, out', q') = pop spurious q (some out) in (popped done (value_or out out'), q')
step q (put_batch lost items count) =
    let (n, q') = push_batch lost q (some items) count in (pushed_batch n, q')
step q (get_batch lost items count) =
    let (n, items', q') = pop_batch lost q (some items) count in
    (popped_batch n (value_or items items'), q')

pub run : Option RingQueue → List Op → List Reply
run q [] = []
run q (op ∷ ops) = let (reply, q') = step q op in reply ∷ run q' ops

abbrev pub AllFit : List Op → Type 0
AllFit [] = Unit
AllFit (op ∷ ops) = Fits op × AllFit ops

pub step_refines :
    (op : Op) {q : RingQueue}
    → IsValid q
    → Fits op
    → (q' : RingQueue) × (step (some q) op ≡ ((Spec.step (contents q) op).0, some q'))
      × IsValid q'
      × (contents q' ≡ (Spec.step (contents q) op).1)
unfolding step Spec.step
step_refines (put spurious x) v f =
    let (q', e, v', same) = push_refines spurious x v in (q', ground arith, v', same)
step_refines (get spurious out) v f =
    let (q', e, v', same) = pop_refines spurious out v in (q', ground arith, v', same)
step_refines (put_batch lost items count) v f =
    let (q', e, v', same) = push_batch_refines lost items count v f.0 in
    (q', ground arith, v', ground arith)
step_refines (get_batch lost items count) v f =
    let (q', e, v', same) = pop_batch_refines lost items count v f.0 in
    (q', ground arith, v', ground arith)

-- Whatever calls a client makes of a valid ring, one item or a batch at a time, with arrays large
-- enough for the counts it passes, it sees what the bounded first-in first-out queue of the ring's
-- items would answer.
pub run_refines :
    (ops : List Op) {q : RingQueue}
    → IsValid q
    → AllFit ops
    → run (some q) ops ≡ Spec.run (contents q) ops
unfolding run Spec.run
run_refines [] v f = refl
run_refines (op ∷ ops) {q} v f =
    let (q', e, v', same) = step_refines op v f.0 in
    rw (e, ← same) (ap (◌∷◌ (Spec.step (contents q) op).0) (run_refines ops v' f.1))
