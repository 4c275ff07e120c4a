-- ===== src/RingQueue/Concurrent.antt =====
-- One thread in `ring_queue_push` and one in `ring_queue_pop_batch` of
-- codes/network/reactor/ring_queue.c, as the accept thread and a reactor thread are, interleaved in any
-- order, one shared access at a time. The consumer's `memcpy`s read one item of the ring at a time, the
-- oldest first, and accesses take effect in the order of the program.
pub mod Agreement
pub mod Producing
pub mod Simulation
pub mod Delivery
pub mod Races
mod Tests
use hepeng_projects.Prelude.{
  ℕ, zero, suc, ◌+◌, ◌≤◌, ◌<◌, ◌≡◌, ◌≢◌, List, [], ◌∷◌, ◌++◌, set, length, take, drop, add32, sub32,
  add64, ℤ,
}
use hepeng_projects.RingQueue.{RingQueue, ring_queue_size, slot, item_at, at_most, count_push_fail}

-- Where a thread stands in `ring_queue_push`, with the local variables that are live there: before
-- the load of `tail`, before that of `head`, before the test and the exchange, before the write of the
-- item, and before the increment of `push_count`.
pub data Producer : Type 0 where
  resting : Producer
  pushing : ℤ → Producer
  got_tail : ℤ → ℕ → Producer
  got_both : ℤ → ℕ → ℕ → Producer
  reserved : ℤ → ℕ → Producer
  written : Producer

-- In `ring_queue_pop_batch`: before the load of `head`, before that of `tail`, before the tests and
-- the exchange, in the copy, and before the addition to `pop_count`. `items` is the caller's array; in
-- the copy they are followed by the index of the ring that is read next, the number of items copied, and
-- the number of those still to be copied.
pub data Consumer : Type 0 where
  waiting : Consumer
  popping : List ℤ → ℕ → Consumer
  got_head : List ℤ → ℕ → ℕ → Consumer
  got_ends : List ℤ → ℕ → ℕ → ℕ → Consumer
  taking : List ℤ → ℕ → ℕ → ℕ → Consumer
  copied : List ℤ → ℕ → Consumer

-- What an access means for the queue.
pub data Label : Type 0 where
  silent : Label
  enqueues : ℤ → Label
  dequeues : ℕ → Label

-- An access of the producer. The weak exchange may fail although `tail` is as loaded.
pub data Produce (q : RingQueue) : Producer → Label → RingQueue → Producer → Type 0 where
  call_push : {x : ℤ} → Produce q resting silent q (pushing x)
  load_tail : {x : ℤ} → Produce q (pushing x) silent q (got_tail x q.tail)
  load_head : {x : ℤ} {t : ℕ} → Produce q (got_tail x t) silent q (got_both x t q.head)
  found_full :
      {x : ℤ} {t h : ℕ}
      → ring_queue_size ≤ sub32 t h
      → Produce q (got_both x t h) silent (count_push_fail q) resting
  reserve :
      {x : ℤ} {t h : ℕ}
      → sub32 t h < ring_queue_size
      → q.tail ≡ t
      → Produce q (got_both x t h) (enqueues x) (record q { tail = add32 t 1 }) (reserved x t)
  retry :
      {x : ℤ} {t h : ℕ}
      → sub32 t h < ring_queue_size
      → Produce q (got_both x t h) silent q (pushing x)
  write :
      {x : ℤ} {t : ℕ}
      → Produce q (reserved x t) silent (record q { buffer = set q.buffer (slot t) x }) written
  count_push : Produce q written silent (record q { push_count = add64 q.push_count 1 }) resting

-- An access of the consumer.
pub data Consume (q : RingQueue) : Consumer → Label → RingQueue → Consumer → Type 0 where
  call_pop :
      {items : List ℤ} {n : ℕ}
      → n ≢ 0
      → n ≤ length items
      → Consume q waiting silent q (popping items n)
  load_first :
      {items : List ℤ} {n : ℕ} → Consume q (popping items n) silent q (got_head items n q.head)
  load_last :
      {items : List ℤ} {n h : ℕ}
      → Consume q (got_head items n h) silent q (got_ends items n h q.tail)
  found_empty :
      {items : List ℤ} {n h t : ℕ}
      → sub32 t h ≡ 0
      → Consume q (got_ends items n h t) silent q waiting
  advance :
      {items : List ℤ} {n h t : ℕ}
      → sub32 t h ≢ 0
      → q.head ≡ h
      → Consume q
          (got_ends items n h t)
          (dequeues (at_most n (sub32 t h)))
          (record q { head = add32 h (at_most n (sub32 t h)) })
          (taking items h 0 (at_most n (sub32 t h)))
  give_up :
      {items : List ℤ} {n h t : ℕ}
      → sub32 t h ≢ 0
      → Consume q (got_ends items n h t) silent q waiting
  copy_item :
      {items : List ℤ} {h j m : ℕ}
      → Consume q
          (taking items h j (suc m))
          silent
          q
          (taking (set items j (item_at q.buffer h)) (add32 h 1) (suc j) m)
  copy_end :
      {items : List ℤ} {h j : ℕ} → Consume q (taking items h j zero) silent q (copied items j)
  count_pop :
      {items : List ℤ} {k : ℕ}
      → Consume q (copied items k) silent (record q { pop_count = add64 q.pop_count k }) waiting

pub record System : Type 0 where
  pub ring : RingQueue
  pub producer : Producer
  pub consumer : Consumer

-- Either thread makes an access.
pub data Step (s : System) : Label → System → Type 0 where
  produces :
      {l : Label} {q : RingQueue} {p : Producer}
      → Produce s.ring s.producer l q p
      → Step s l (record s { ring = q; producer = p })
  consumes :
      {l : Label} {q : RingQueue} {c : Consumer}
      → Consume s.ring s.consumer l q c
      → Step s l (record s { ring = q; consumer = c })

-- The steps from a state to another, with their labels, the last first.
pub data Run (s : System) : List Label → System → Type 0 where
  stays : Run s [] s
  goes : {ls : List Label} {l : Label} {t u : System} → Run s ls t → Step t l u → Run s (l ∷ ls) u

-- The queue that the exchanges build, and the items that the last one of the consumer took from it.
pub record Ledger : Type 0 where
  pub queue : List ℤ
  pub owed : List ℤ

abbrev pub effect : Label → Ledger → Ledger
effect silent a = a
effect (enqueues x) a = record a { queue = a.queue ++ (x ∷ []) }
effect (dequeues k) a = record { queue = drop k a.queue; owed = take k a.queue }

-- After some steps from a queue, the last first.
abbrev pub ledger : List ℤ → List Label → Ledger
ledger xs [] = record { queue = xs; owed = [] }
ledger xs (l ∷ ls) = effect l (ledger xs ls)

-- What the bounded queue allows.
abbrev pub Allowed : Label → Ledger → Type 0
Allowed silent a = Unit
Allowed (enqueues x) a = length a.queue < ring_queue_size
Allowed (dequeues k) a = (0 < k) × (k ≤ length a.queue)

abbrev pub AllAllowed : List ℤ → List Label → Type 0
AllAllowed xs [] = Unit
AllAllowed xs (l ∷ ls) = Allowed l (ledger xs ls) × AllAllowed xs ls

-- Both threads outside the functions.
abbrev pub idle : RingQueue → System
idle q = record { ring = q; producer = resting; consumer = waiting }
