-- ===== src/RingQueue/Concurrent/Agreement.antt =====
-- When a ring, the two threads that stand somewhere in their functions, and a queue of their exchanges
-- agree.
use hepeng_projects.Prelude.{
  ◌+◌, ◌≤◌, ◌<◌, ◌^◌, ◌≡◌, ◌≢◌, ◌-◌, ℕ, List, length, set, drop, add32, sub32, ℤ,
}
use hepeng_projects.RingQueue.{RingQueue, ring_queue_size, slot, used}
use hepeng_projects.RingQueue.Window.{window, contents}
use hepeng_projects.RingQueue.Concurrent.{
  Producer, got_tail, got_both, reserved, Consumer, popping, got_head, got_ends, taking, Ledger,
}

-- The ring once the producer has written the item whose place it has reserved.
abbrev pub settled_buffer : Producer → List ℤ → List ℤ
settled_buffer (reserved x t) buf = set buf (slot t) x
settled_buffer _ buf = buf

abbrev pub settled : Producer → RingQueue → RingQueue
settled p q = record q { buffer = settled_buffer p q.buffer }

-- What the producer knows of the ring while it stands where it does.
abbrev pub Knows : Producer → RingQueue → Type 0
Knows (got_tail x t) q = t ≡ q.tail
Knows (got_both x t h) q = (t ≡ q.tail) × (used q ≤ sub32 t h) × (sub32 t h ≤ ring_queue_size)
Knows (reserved x t) q = (t < 2 ^ 32) × (q.tail ≡ add32 t 1)
Knows _ q = Unit

-- What the consumer knows; `q` is the settled ring. Of the items still to be copied, the last `d` lie in
-- the ring as long as the producer has not come round to them.
abbrev pub Sees : Consumer → RingQueue → List ℤ → Type 0
Sees (popping items n) q ys = (n ≢ 0) × (n ≤ length items)
Sees (got_head items n h) q ys = (n ≢ 0) × (n ≤ length items) × (h ≡ q.head)
Sees (got_ends items n h t) q ys =
    (n ≢ 0) × (n ≤ length items) × (h ≡ q.head) × (sub32 t h ≤ used q)
Sees (taking items h j m) q ys =
    (h ≡ sub32 q.head m)
    × (m ≤ ring_queue_size)
    × (j + m ≤ length items)
    × (length ys ≡ j + m)
    × ((d : ℕ)
        → d ≤ m
        → d + used q ≤ ring_queue_size
        → window q.buffer (sub32 q.head d) d ≡ drop (length ys - d) ys)
Sees _ q ys = Unit

-- The ring, the threads, and the ledger of their exchanges agree.
pub record Agrees (q : RingQueue) (p : Producer) (c : Consumer) (a : Ledger) : Type 0 where
  pub storage : length q.buffer ≡ ring_queue_size
  pub head_in : q.head < 2 ^ 32
  pub tail_in : q.tail < 2 ^ 32
  pub fits : used q ≤ ring_queue_size
  pub holds : contents (settled p q) ≡ a.queue
  pub knows : Knows p q
  pub sees : Sees c (settled p q) a.owed
