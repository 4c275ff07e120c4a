-- ===== src/RingQueue/Concurrent/Races.antt =====
-- Interleavings of `ring_queue_push` and `ring_queue_pop_batch` that deliver what they should not.
use hepeng_projects.Prelude.{
  ℕ, ◌≤◌, ◌<◌, ◌≡◌, ◌≢◌, refl, sym, ap, subst, ◌∙◌, List, [], ◌∷◌, ◌++◌, arith, length, set, take,
  drop, add32, sub32, ℤ, pos, get_or, get_or-set_self,
}
use hepeng_projects.RingQueue.{RingQueue, ring_queue_size, slot, used, item_at, at_most}
use hepeng_projects.RingQueue.Window.{contents, IsValid}
use hepeng_projects.RingQueue.Single.{length-contents}
use hepeng_projects.RingQueue.Concurrent.{
  Producer, resting, reserved, Consumer, waiting, got_ends, taking, copied, Label, silent, enqueues,
  dequeues, call_push, load_tail, load_head, reserve, write, Consume, call_pop, load_first,
  load_last, advance, copy_item, copy_end, System, produces, consumes, Run, stays, goes, ledger,
  idle,
}
use hepeng_projects.RingQueue.Concurrent.Delivery.{Run-Allowed}

-- The exchange of a consumer that wants one item and sees some.
advance_one :
    (q : RingQueue) (items : List ℤ) (t : ℕ)
    → sub32 t q.head ≢ 0
    → Consume q
        (got_ends items 1 q.head t)
        (dequeues 1)
        (record q { head = add32 q.head 1 })
        (taking items q.head 0 1)
advance_one q items t some_ =
    let one : at_most 1 (sub32 t q.head) ≡ 1 = ground arith in
    subst
      (λ k.
        Consume q (got_ends items 1 q.head t) (dequeues k) (record q { head = add32 q.head k })
          (taking items q.head 0 k))
      one (advance some_ refl)

-- A push goes up to its exchange.
pub pushes :
    {s : System} {ls : List Label} {q : RingQueue} {c : Consumer} (x : ℤ)
    → used q < ring_queue_size
    → Run s ls (record { ring = q; producer = resting; consumer = c })
    → Run s (enqueues x ∷ silent ∷ silent ∷ silent ∷ ls) (record {
      ring = record q { tail = add32 q.tail 1 };
      producer = reserved x q.tail;
      consumer = c;
    })
pushes x room r =
    goes (goes (goes (goes r (produces call_push)) (produces load_tail)) (produces load_head))
      (produces (reserve room refl))

-- A pop of one item goes up to its exchange.
pub pops :
    {s : System} {ls : List Label} {q : RingQueue} {p : Producer} (items : List ℤ)
    → 1 ≤ length items
    → used q ≢ 0
    → Run s ls (record { ring = q; producer = p; consumer = waiting })
    → Run s (dequeues 1 ∷ silent ∷ silent ∷ silent ∷ ls) (record {
      ring = record q { head = add32 q.head 1 };
      producer = p;
      consumer = taking items q.head 0 1;
    })
pops {q = q} items has some_ r =
    goes
      (goes (goes (goes r (consumes (call_pop (omega arith) has))) (consumes load_first))
        (consumes load_last))
      (consumes (advance_one q items q.tail some_))

-- From every valid empty ring: `ring_queue_push` of `x` makes its exchange, and `ring_queue_pop_batch`
-- of one item runs before the write. Then the consumer gets what lay in the place before, although the
-- queue owes it `x`.
pub stale_delivered :
    {q : RingQueue} (x y : ℤ) (rest : List ℤ)
    → IsValid q
    → contents q ≡ []
    → (s : System) × (ls : List Label) × Run (idle q) ls s
      × (s.consumer ≡ copied (item_at q.buffer q.tail ∷ rest) 1)
      × ((ledger (contents q) ls).owed ≡ x ∷ [])
stale_delivered {q} x y rest v nil =
    let none_ : used q ≡ 0 = sym (length-contents q) ∙ ap length nil in
    let same : q.head ≡ q.tail = omega arith in
    let r0 : Run (idle q) [] (idle q) = stays in
    let r1 = pushes x (omega arith) r0 in
    let r2 = pops (y ∷ rest) (omega arith) (omega arith) r1 in
    (
      _,
      _,
      goes (goes r2 (consumes copy_item)) (consumes copy_end),
      ap (λ i. copied (item_at q.buffer i ∷ rest) 1) same,
      ap (λ xs. take 1 (xs ++ (x ∷ []))) nil,
    )

-- From every valid full ring: `ring_queue_pop_batch` of one item makes its exchange, and
-- `ring_queue_push` of `x` runs before the copy. Then the consumer gets `x`, not the oldest item, and
-- `x` is in the queue too.
pub fresh_delivered :
    {q : RingQueue} (x y : ℤ) (rest : List ℤ)
    → IsValid q
    → length (contents q) ≡ ring_queue_size
    → (s : System) × (ls : List Label) × Run (idle q) ls s
      × (s.consumer ≡ copied (x ∷ rest) 1)
      × (contents s.ring ≡ drop 1 (contents q) ++ (x ∷ []))
      × ((ledger (contents q) ls).owed ≡ take 1 (contents q))
fresh_delivered {q} x y rest v full =
    let all : used q ≡ ring_queue_size = sym (length-contents q) ∙ full in
    let r0 : Run (idle q) [] (idle q) = stays in
    let r1 = pops (y ∷ rest) (omega arith) (omega arith) r0 in
    let r2 = pushes x (omega arith) r1 in
    let r3 = goes r2 (produces write) in
    let r4 = goes (goes r3 (consumes copy_item)) (consumes copy_end) in
    let turn : slot q.tail ≡ slot q.head = omega arith in
    (
      _,
      _,
      r4,
      ap (λ z. copied (z ∷ rest) 1)
          (ap (λ i. get_or (set q.buffer i x) (slot q.head) (pos 0)) turn
            ∙ get_or-set_self q.buffer (slot q.head) x (pos 0) (omega arith)),
      (Run-Allowed v r4).2,
      refl,
    )
