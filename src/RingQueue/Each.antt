-- ===== src/RingQueue/Each.antt =====
-- A batch against the same items one at a time, in codes/network/reactor/ring_queue.c.
use hepeng_projects.Prelude.{
  ℕ, zero, suc, ◌+◌, ◌≤◌, ◌<◌, ◌^◌, ◌≡◌, refl, ap, ap₂, ◌∙◌, Bool, true, false, List, [], ◌∷◌,
  Option, some, arith, length, take, length-take, set, ◌==◌, Bool-cases, inl, inr, add32, add64, ℤ,
}
use hepeng_projects.RingQueue.{
  RingQueue, ring_queue_size, slot, used, push_loop, push, push_some, push_batch,
}
use hepeng_projects.RingQueue.Window.{IsValid, store}
use hepeng_projects.RingQueue.Copies.{copy_in-store}

-- One call of `ring_queue_push` for each item, whatever it answers.
pub push_each : ℕ → Option RingQueue → List ℤ → Option RingQueue
push_each spurious q [] = q
push_each spurious q (x ∷ xs) = push_each spurious (push spurious q x).1 xs

-- A ring with another end.
abbrev placed : RingQueue → ℕ → List ℤ → ℕ → RingQueue
placed q tail buffer count = record q { tail = tail; buffer = buffer; push_count = count }

push_loop-placed :
    (spurious : ℕ) (q : RingQueue) (x : ℤ)
    → used q < ring_queue_size
    → push_loop spurious q x
      ≡ (true, placed q (add32 q.tail 1) (set q.buffer (slot q.tail) x) (add64 q.push_count 1))
unfolding push_loop
push_loop-placed zero q x room = ground arith
push_loop-placed (suc n) q x room = ground (arith, push_loop-placed n q x room)

push_each-placed :
    (spurious : ℕ) (q : RingQueue) (xs : List ℤ)
    → q.head < 2 ^ 32
    → q.tail < 2 ^ 32
    → q.push_count < 2 ^ 64
    → used q + length xs ≤ ring_queue_size
    → push_each spurious (some q) xs
      ≡ some (
          placed q
            (add32 q.tail (length xs))
            (store q.buffer q.tail xs)
            (add64 q.push_count (length xs)))
unfolding push_each push
push_each-placed n q [] hh ht hc room =
    ap₂ (λ t c. some (placed q t q.buffer c)) (omega arith) (omega arith)
push_each-placed n q (x ∷ xs) hh ht hc room =
    let q1 : RingQueue =
      placed q (add32 q.tail 1) (set q.buffer (slot q.tail) x) (add64 q.push_count 1) in
    let step : (push n (some q) x).1 ≡ some q1 =
      ap (λ (p : Bool × RingQueue). some p.1) (push_loop-placed n q x (omega arith)) in
    ap (λ r. push_each n r xs) step
    ∙ push_each-placed n q1 xs hh (omega arith) (omega arith) (omega arith)
    ∙ ap₂ (λ t c. some (placed q t (store q.buffer q.tail (x ∷ xs)) c)) (omega arith) (omega arith)

-- If a valid ring has room for `count` items and the exchange succeeds, `ring_queue_push_batch`
-- answers `count` and leaves exactly the ring, its buffer, indices and counters, that pushing the first
-- `count` items one at a time leaves, however often the exchanges of these pushes fail spuriously.
pub push_batch-push_each :
    (spurious : ℕ) {q : RingQueue} (items : List ℤ) (count : ℕ)
    → IsValid q
    → count ≤ length items
    → used q + count ≤ ring_queue_size
    → push_batch false (some q) (some items) count
      ≡ (count, push_each spurious (some q) (take count items))
unfolding push_batch push_some push_each
push_batch-push_each n {q} items count v has room =
    let len : length (take count items) ≡ count = omega (arith, length-take count items) in
    let each : push_each n (some q) (take count items)
        ≡ some (
            placed q (add32 q.tail count) (store q.buffer q.tail (take count items))
              (add64 q.push_count count)) =
      push_each-placed n q (take count items) v.head_in v.tail_in (omega arith) (omega arith)
      ∙ ap
          (λ k. some (
            placed q (add32 q.tail k) (store q.buffer q.tail (take count items))
              (add64 q.push_count k)))
          len in
    elim (Bool-cases (count == 0)) [
      | inl none_asked ↦
          let none_there : count ≡ 0 = ground arith in rw (none_asked, none_there) refl
      | inr asked ↦
          ground
            (arith, each, copy_in-store q.buffer q.tail items count v.tail_in has (omega arith))
    ]
