-- ===== src/RingQueue/RoundTrip.antt =====
-- What `ring_queue_push_batch` puts into the ring of codes/network/reactor/ring_queue.c comes out of
-- `ring_queue_pop_batch`.
use hepeng_projects.Prelude.{
  ℕ, ◌+◌, ◌-◌, ◌≤◌, ◌≡◌, ap, ap₂, ◌∙◌, false, List, [], ◌++◌, Option, some, arith, length,
  length-append, take, drop, take_all, drop_all, length-take, ℤ, min,
}
use hepeng_projects.RingQueue.{RingQueue, ring_queue_size, used, push_batch, pop_batch}
use hepeng_projects.RingQueue.Window.{contents, IsValid}
use hepeng_projects.RingQueue.Single.{length-contents}
use hepeng_projects.RingQueue.Batch.{push_batch_refines, pop_batch_refines}
use hepeng_projects.RingQueue.Spec

push_many_fits :
    (xs items : List ℤ) (count : ℕ)
    → length xs + count ≤ ring_queue_size
    → Spec.push_many xs items count ≡ (count, xs ++ take count items)
unfolding Spec.push_many
push_many_fits xs items count room =
    let all : min count (ring_queue_size - length xs) ≡ count = ground arith in
    ap (λ n. (n, xs ++ take n items)) all

pop_many_all :
    (xs out : List ℤ) (count : ℕ)
    → length xs ≡ count
    → Spec.pop_many xs out count ≡ (count, xs ++ drop count out, [])
unfolding Spec.pop_many
pop_many_all xs out count e =
    let all : min count (length xs) ≡ count = ground arith in
    rw all (
      ap₂ (λ ys zs. (count, ys ++ drop count out, zs)) (take_all count xs (omega arith))
        (drop_all count xs (omega arith)))

-- If a valid ring has room for `count` items and no exchange fails, then pushing them in one batch and
-- popping as many as the ring holds then gives the earlier items and after them the `count` pushed
-- ones, in order, leaves the rest of the caller's array alone, and leaves a valid empty ring.
pub push_batch-pop_batch :
    {q : RingQueue} (items out : List ℤ) (count : ℕ)
    → IsValid q
    → count ≤ length items
    → used q + count ≤ ring_queue_size
    → used q + count ≤ length out
    → let n = used q + count in
      (q' : RingQueue) × (pop_batch false
          (push_batch false (some q) (some items) count).1
          (some out)
          n
        ≡ (n, some ((contents q ++ take count items) ++ drop n out), some q'))
      × IsValid q'
      × (contents q' ≡ [])
push_batch-pop_batch {q} items out count v has room wide =
    let n : ℕ = used q + count in
    let (q1, e1, v1, c1) = push_batch_refines false items count v has in
    let fits = push_many_fits (contents q) items count (omega (arith, length-contents q)) in
    let holds : contents q1 ≡ contents q ++ take count items =
      c1 ∙ ap (λ (r : ℕ × List ℤ). r.1) fits in
    let (q2, e2, v2, c2) = pop_batch_refines false out n v1 wide in
    let all = pop_many_all (contents q1) out n (
      ap length holds
      ∙ length-append (contents q) (take count items)
      ∙ omega (arith, length-contents q, length-take count items)) in
    (
      q2,
      ap (λ r. pop_batch false r (some out) n) (ap (λ (r : ℕ × Option RingQueue). r.1) e1)
          ∙ e2
          ∙ ap (λ (r : ℕ × List ℤ × List ℤ). (r.0, some r.1, some q2)) all
          ∙ ap (λ xs. (n, some (xs ++ drop n out), some q2)) holds,
      v2,
      c2 ∙ ap (λ (r : ℕ × List ℤ × List ℤ). r.2) all,
    )
