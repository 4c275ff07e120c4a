-- ===== src/RingQueue/Single.antt =====
-- The functions that move one item, against the queue of the items that the ring holds.
use hepeng_projects.Prelude.{
  ℕ, zero, suc, ◌≡◌, sym, ◌↔◌, List, [], ap, Bool, true, some, arith, length, length-set,
  length-replicate, ℤ, pos,
}
use hepeng_projects.RingQueue.{
  RingQueue, ring_queue_size, slot, used, zeroed, init, empty, full, size, push_loop, pop_loop,
  push, pop, item_at,
}
use hepeng_projects.RingQueue.Window.{contents, IsValid, length-window, window-cons, window-set}
use hepeng_projects.RingQueue.Spec

pub length-contents : (q : RingQueue) → length (contents q) ≡ used q
length-contents q = length-window q.buffer q.head (used q)

pub length-zeroed : length zeroed ≡ ring_queue_size
unfolding zeroed
length-zeroed = length-replicate ring_queue_size (pos 0)

-- After `ring_queue_init` the ring is valid and holds nothing, whatever the memory held.
pub init-IsValid :
    (q : RingQueue) {q' : RingQueue} → init (some q) ≡ some q' → IsValid q' × (contents q' ≡ [])
unfolding init
init-IsValid q e = ground (arith, length-zeroed)

-- On a valid ring `ring_queue_size` is the number of items, `ring_queue_empty` says whether it is 0
-- and `ring_queue_full` whether it is 65536.
pub observers_lem :
    {q : RingQueue}
    → IsValid q
    → (size (some q) ≡ length (contents q))
      × ((empty (some q) ≡ true) ↔ (contents q ≡ []))
      × ((full (some q) ≡ true) ↔ (length (contents q) ≡ ring_queue_size))
unfolding size empty full
observers_lem {q} v = (
  sym (length-contents q),
  (
    (λ e. let e' : used q ≡ 0 = ground arith in rw e'),
    λ e. ground (arith, ap length e, length-contents q),
  ),
  ((λ e. ground (arith, length-contents q)), λ e. ground (arith, length-contents q)),
)

push_loop-IsValid : (n : ℕ) {q : RingQueue} (x : ℤ) → IsValid q → IsValid (push_loop n q x).1
unfolding push_loop
push_loop-IsValid zero {q} x v = ground (arith, length-set q.buffer (slot q.tail) x)
push_loop-IsValid (suc n) {q} x v = ground (arith, push_loop-IsValid n x v)

pop_loop-IsValid : (n : ℕ) {q : RingQueue} (out : ℤ) → IsValid q → IsValid (pop_loop n q out).2
unfolding pop_loop
pop_loop-IsValid zero {q} out v = ground arith
pop_loop-IsValid (suc n) {q} out v = ground (arith, pop_loop-IsValid n (item_at q.buffer q.head) v)

push_loop_refines :
    (n : ℕ) {q : RingQueue} (x : ℤ)
    → IsValid q
    → let (done, q') = push_loop n q x in (done, contents q') ≡ Spec.push (contents q) x
unfolding push_loop Spec.push
push_loop_refines zero {q} x v =
    ground (arith, length-contents q, window-set q.buffer x (used q) q.head q.tail)
push_loop_refines (suc n) {q} x v = ground (arith, length-contents q, push_loop_refines n x v)

pop_loop_refines :
    (n : ℕ) {q : RingQueue} (out : ℤ)
    → IsValid q
    → let (done, out', q') = pop_loop n q out in
      (done, out', contents q') ≡ Spec.pop (contents q) out
unfolding pop_loop Spec.pop
pop_loop_refines zero {q} out v = ground (arith, window-cons q.buffer q.head (used q))
pop_loop_refines (suc n) {q} out v =
    ground
      (arith, window-cons q.buffer q.head (used q), pop_loop_refines n (item_at q.buffer q.head) v)

-- `ring_queue_push` on a valid ring keeps it valid, answers as the bounded queue does, and leaves
-- the ring holding the bounded queue's items, however often the exchange fails spuriously.
pub push_refines :
    (spurious : ℕ) {q : RingQueue} (x : ℤ)
    → IsValid q
    → (q' : RingQueue) × (push spurious (some q) x ≡ ((Spec.push (contents q) x).0, some q'))
      × IsValid q'
      × (contents q' ≡ (Spec.push (contents q) x).1)
unfolding push
push_refines n {q} x v =
    let r = push_loop_refines n x v in
    (
      (push_loop n q x).1,
      ap (λ (p : Bool × List ℤ). (p.0, some (push_loop n q x).1)) r,
      push_loop-IsValid n x v,
      ap (λ (p : Bool × List ℤ). p.1) r,
    )

-- `ring_queue_pop` on a valid ring keeps it valid, answers as the bounded queue does, gives out its
-- oldest item, and leaves the ring holding the rest, however often the exchange fails spuriously.
pub pop_refines :
    (spurious : ℕ) {q : RingQueue} (out : ℤ)
    → IsValid q
    → (q' : RingQueue) × (pop spurious (some q) (some out)
        ≡ ((Spec.pop (contents q) out).0, some (Spec.pop (contents q) out).1, some q'))
      × IsValid q'
      × (contents q' ≡ (Spec.pop (contents q) out).2)
unfolding pop
pop_refines n {q} out v =
    let r = pop_loop_refines n out v in
    (
      (pop_loop n q out).2,
      ap (λ (p : Bool × ℤ × List ℤ). (p.0, some p.1, some (pop_loop n q out).2)) r,
      pop_loop-IsValid n out v,
      ap (λ (p : Bool × ℤ × List ℤ). p.2) r,
    )
