-- ===== src/RingQueue/Batch.antt =====
-- The batch functions of codes/network/reactor/ring_queue.c: what the calls do to the queue.
use hepeng_projects.Prelude.{
  ℕ, ◌+◌, ◌-◌, ◌≤◌, ◌≡◌, ap, ◌∙◌, inl, inr, Bool, List, ◌++◌, append-nil, some, arith, length, take,
  drop, length-take, take-append_left, drop-append_left, Bool-cases, ◌==◌, if◌then◌else◌, add32,
  sub32, add64, ℤ, min,
}
use hepeng_projects.RingQueue.{
  RingQueue, ring_queue_size, used, copy_in, push_some, pop_some, push_batch, pop_batch,
}
use hepeng_projects.RingQueue.Window.{
  window, contents, IsValid, length-window, length-store, window-store, window-append,
}
use hepeng_projects.RingQueue.Single.{length-contents}
use hepeng_projects.RingQueue.Spec
use hepeng_projects.RingQueue.Copies.{copy_in-store, copy_out-window}

-- The state that `ring_queue_push_batch` leaves after its exchange, for `n` items that fit.
abbrev pushed : RingQueue → List ℤ → ℕ → RingQueue
pushed q items n = record q {
  tail = add32 q.tail n;
  buffer = copy_in q.buffer q.tail items n;
  push_count = add64 q.push_count n;
}

module _ {q : RingQueue} (items : List ℤ) (n : ℕ) (v : IsValid q) (has : n ≤ length items) where
  module _ (room : used q + n ≤ ring_queue_size) where
    pushed-IsValid : IsValid (pushed q items n)
    pushed-IsValid = record {
      storage =
          rw (copy_in-store q.buffer q.tail items n v.tail_in has (omega arith))
            (length-store q.buffer q.tail (take n items) ∙ v.storage);
      head_in = v.head_in;
      tail_in = omega arith;
      fits = omega arith;
      counted = omega arith;
      pop_count_in = v.pop_count_in;
    }

    contents-pushed : contents (pushed q items n) ≡ contents q ++ take n items
    contents-pushed =
        let len : sub32 (add32 q.tail n) q.head ≡ used q + length (take n items) =
          omega (arith, length-take n items) in
        rw (len, copy_in-store q.buffer q.tail items n v.tail_in has (omega arith))
          (window-store q.buffer (take n items) (used q) q.head q.tail v.storage v.head_in
            (omega (arith, length-take n items)) (omega arith))

-- The state that `ring_queue_pop_batch` leaves after its exchange.
abbrev popped : RingQueue → ℕ → RingQueue
popped q n = record q { head = add32 q.head n; pop_count = add64 q.pop_count n }

module _ {q : RingQueue} (n : ℕ) (v : IsValid q) (has : n ≤ used q) where
  split : contents q ≡ window q.buffer q.head n ++ contents (popped q n)
  split =
      let len : used q ≡ n + sub32 q.tail (add32 q.head n) = omega arith in
      ap (window q.buffer q.head) len
      ∙ window-append q.buffer q.head n (sub32 q.tail (add32 q.head n)) v.head_in

  popped-IsValid : IsValid (popped q n)
  popped-IsValid = omega arith

  take-contents : take n (contents q) ≡ window q.buffer q.head n
  take-contents =
      ap (take n) split
      ∙ take-append_left (window q.buffer q.head n) (contents (popped q n)) n
          (length-window q.buffer q.head n)

  drop-contents : drop n (contents q) ≡ contents (popped q n)
  drop-contents =
      ap (drop n) split
      ∙ drop-append_left (window q.buffer q.head n) (contents (popped q n)) n
          (length-window q.buffer q.head n)

-- What `ring_queue_push_batch` does to a valid ring past its tests.
pub push_some_refines :
    (lost : Bool) {q : RingQueue} (items : List ℤ) (count : ℕ)
    → IsValid q
    → count ≤ length items
    → let (n, q') = push_some lost q items count in
      IsValid q'
      × ((n, contents q')
          ≡ (if lost then (0, contents q) else Spec.push_many (contents q) items count))
unfolding push_some Spec.push_many
push_some_refines lost {q} items count v h =
    ground (arith, length-contents q, valid, holds, append-nil (contents q))
  where
    n : ℕ
    n = min count (ring_queue_size - length (contents q))

    valid : IsValid (pushed q items n)
    valid = pushed-IsValid items n v (omega arith) (omega (arith, length-contents q))

    holds : contents (pushed q items n) ≡ contents q ++ take n items
    holds = contents-pushed items n v (omega arith) (omega (arith, length-contents q))

pub pop_some_refines :
    (lost : Bool) {q : RingQueue} (items : List ℤ) (count : ℕ)
    → IsValid q
    → count ≤ length items
    → let (n, items', q') = pop_some lost q items count in
      IsValid q'
      × ((n, items', contents q')
          ≡ (if lost then (0, items, contents q) else Spec.pop_many (contents q) items count))
unfolding pop_some Spec.pop_many
pop_some_refines lost {q} items count v h = ground (
  arith,
  length-contents q,
  popped-IsValid n v has,
  take-contents n v has,
  drop-contents n v has,
  copy_out-window items q.buffer q.head n v.head_in (omega arith)
      (omega (arith, length-contents q)),
)
  where
    n : ℕ
    n = min count (length (contents q))

    has : n ≤ used q
    has = omega (arith, length-contents q)

-- `ring_queue_push_batch` on a valid ring keeps it valid, takes as many of the `count` items as there
-- is room for, returns their number, and appends them to the queue in order. If its one exchange
-- fails it returns 0 and the queue is as it was.
pub push_batch_refines :
    (lost : Bool) {q : RingQueue} (items : List ℤ) (count : ℕ)
    → IsValid q
    → count ≤ length items
    → let spec = (if lost then (0, contents q) else Spec.push_many (contents q) items count) in
      (q' : RingQueue) × (push_batch lost (some q) (some items) count ≡ (spec.0, some q'))
      × IsValid q'
      × (contents q' ≡ spec.1)
unfolding push_batch Spec.push_many
push_batch_refines lost {q} items count v h = elim (Bool-cases (count == 0)) [
  | inl none_asked ↦ (
    q,
    ground (arith, length-contents q),
    v,
    ground (arith, length-contents q, append-nil (contents q)),
  )
  | inr asked ↦
      let (valid, same) = push_some_refines lost items count v h in
      (
        (push_some lost q items count).1,
        rw asked (ap (λ (p : ℕ × List ℤ). (p.0, some (push_some lost q items count).1)) same),
        valid,
        ap (λ (p : ℕ × List ℤ). p.1) same,
      )
]

-- `ring_queue_pop_batch` on a valid ring keeps it valid, moves the oldest items of the queue, `count`
-- or all of them, to the front of the caller's array, changes nothing else there, and returns their
-- number. If its one exchange fails it returns 0 and changes nothing.
pub pop_batch_refines :
    (lost : Bool) {q : RingQueue} (items : List ℤ) (count : ℕ)
    → IsValid q
    → count ≤ length items
    → let spec =
        (if lost then (0, items, contents q) else Spec.pop_many (contents q) items count) in
      (q' : RingQueue) × (pop_batch lost (some q) (some items) count
        ≡ (spec.0, some spec.1, some q'))
      × IsValid q'
      × (contents q' ≡ spec.2)
unfolding pop_batch Spec.pop_many
pop_batch_refines lost {q} items count v h = elim (Bool-cases (count == 0)) [
  | inl none_asked ↦ (q, ground (arith, length-contents q), v, ground (arith, length-contents q))
  | inr asked ↦
      let (valid, same) = pop_some_refines lost items count v h in
      (
        (pop_some lost q items count).2,
        rw asked (
            ap (λ (p : ℕ × List ℤ × List ℤ). (p.0, some p.1, some (pop_some lost q items count).2))
              same),
        valid,
        ap (λ (p : ℕ × List ℤ × List ℤ). p.2) same,
      )
]
