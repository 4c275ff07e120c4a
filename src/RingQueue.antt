-- ===== src/RingQueue.antt =====
-- codes/network/reactor/ring_queue.h and ring_queue.c: the ring of `int`s between the accept
-- thread and a reactor thread, each function run with no other thread in between, but in Concurrent.
-- `atomic_compare_exchange_weak` may fail although the value is the expected one. How often it does
-- so is an argument: the number `spurious` of such failures before the exchange that succeeds in
-- the loops, a flag in the batch functions, which try once.
-- A pointer argument is an Option, `none` for NULL. A function that changes what it points to
-- returns the new contents. The fences change no value.
pub mod Window
pub mod Spec
pub mod Single
pub mod Copies
pub mod Batch
pub mod Each
pub mod RoundTrip
pub mod Refine
pub mod Concurrent
mod Tests
use hepeng_projects.Prelude.{
  ℕ, zero, suc, ◌+◌, ◌-◌, ◌%◌, Bool, true, false, List, Option, none, some, length, get_or, set,
  replicate, ltb, leb, ◌==◌, if◌then◌else◌, add32, sub32, add64, ℤ, pos,
}
use hepeng_projects.Prelude.Memory.{memcpy}

abbrev pub ring_queue_size : ℕ
ring_queue_size = 65536

-- `i & RING_QUEUE_MASK`: the mask is 2^16 - 1, so this is the remainder.
abbrev pub slot : ℕ → ℕ
slot i = i % ring_queue_size

-- `ring_queue_t`: `atomic_uint` indices and `atomic_ullong` counters.
pub record RingQueue : Type 0 where
  pub head : ℕ
  pub tail : ℕ
  pub buffer : List ℤ
  pub push_count : ℕ
  pub pop_count : ℕ
  pub push_fail_count : ℕ

-- The memory after `memset`. Shut, since it is long.
unfoldable pub zeroed : List ℤ
zeroed = replicate ring_queue_size (pos 0)

unfoldable pub init : Option RingQueue → Option RingQueue
init none = none
init (some q) = some (record {
  head = 0;
  tail = 0;
  buffer = zeroed;
  push_count = 0;
  pop_count = 0;
  push_fail_count = 0;
})

-- `tail - head` on `uint32_t`.
abbrev pub used : RingQueue → ℕ
used q = sub32 q.tail q.head

unfoldable pub empty : Option RingQueue → Bool
empty none = true
empty (some q) = q.head == q.tail

unfoldable pub full : Option RingQueue → Bool
full none = true
full (some q) = leb ring_queue_size (used q)

unfoldable pub size : Option RingQueue → ℕ
size none = 0
size (some q) = used q

-- The branch of `ring_queue_push` that finds the queue full.
abbrev pub count_push_fail : RingQueue → RingQueue
count_push_fail q = record q { push_fail_count = add64 q.push_fail_count 1 }

-- The loop of `ring_queue_push`.
unfoldable pub push_loop : ℕ → RingQueue → ℤ → Bool × RingQueue
push_loop zero q item = if leb ring_queue_size (used q) then (false, count_push_fail q) else (
  true,
  record q {
    tail = add32 q.tail 1;
    buffer = set q.buffer (slot q.tail) item;
    push_count = add64 q.push_count 1;
  },
)
push_loop (suc spurious) q item =
    if leb ring_queue_size (used q) then (false, count_push_fail q) else push_loop spurious q item

unfoldable pub push : ℕ → Option RingQueue → ℤ → Bool × Option RingQueue
push spurious none item = (false, none)
push spurious (some q) item = let (done, q') = push_loop spurious q item in (done, some q')

-- `buffer[i & RING_QUEUE_MASK]`.
abbrev pub item_at : List ℤ → ℕ → ℤ
item_at buffer i = get_or buffer (slot i) (pos 0)

-- The loop of `ring_queue_pop`: `out` is what `*item` holds.
unfoldable pub pop_loop : ℕ → RingQueue → ℤ → Bool × ℤ × RingQueue
pop_loop zero q out = if q.head == q.tail then (false, out, q) else (
  true,
  item_at q.buffer q.head,
  record q { head = add32 q.head 1; pop_count = add64 q.pop_count 1 },
)
pop_loop (suc spurious) q out =
    if q.head == q.tail then (false, out, q) else pop_loop spurious q (item_at q.buffer q.head)

unfoldable pub pop : ℕ → Option RingQueue → Option ℤ → Bool × Option ℤ × Option RingQueue
pop spurious none item = (false, item, none)
pop spurious (some q) none = (false, none, some q)
pop spurious (some q) (some out) =
    let (done, out', q') = pop_loop spurious q out in (done, some out', some q')

-- `RING_QUEUE_SIZE - (tail - head)` on `uint32_t`.
abbrev pub free_space : RingQueue → ℕ
free_space q = sub32 ring_queue_size (used q)

-- `(count < room) ? count : room`.
abbrev pub at_most : ℕ → ℕ → ℕ
at_most count room = if ltb count room then count else room

-- The copy of `ring_queue_push_batch`: `n` items go in from index `tail` on, in one piece or two.
unfoldable pub copy_in : List ℤ → ℕ → List ℤ → ℕ → List ℤ
copy_in buffer tail items n =
    let index = slot tail in
    let first_chunk = ring_queue_size - index in
    if leb n first_chunk
    then memcpy (pos 0) buffer index items 0 n
    else memcpy (pos 0) (memcpy (pos 0) buffer index items 0 first_chunk) 0 items first_chunk
        (n - first_chunk)

-- The copy of `ring_queue_pop_batch`.
unfoldable pub copy_out : List ℤ → List ℤ → ℕ → ℕ → List ℤ
copy_out items buffer head n =
    let index = slot head in
    let first_chunk = ring_queue_size - index in
    if leb n first_chunk
    then memcpy (pos 0) items 0 buffer index n
    else memcpy (pos 0) (memcpy (pos 0) items 0 buffer index first_chunk) first_chunk buffer 0
        (n - first_chunk)

-- `ring_queue_push_batch` past its NULL tests. `lost` says that the exchange fails.
unfoldable pub push_some : Bool → RingQueue → List ℤ → ℕ → ℕ × RingQueue
push_some lost q items count =
    let actual = at_most count (free_space q) in
    if actual == 0 then (0, count_push_fail q) else if lost then (0, q) else (
      actual,
      record q {
        tail = add32 q.tail actual;
        buffer = copy_in q.buffer q.tail items actual;
        push_count = add64 q.push_count actual;
      },
    )

unfoldable pub push_batch : Bool → Option RingQueue → Option (List ℤ) → ℕ → ℕ × Option RingQueue
push_batch lost none items count = (0, none)
push_batch lost (some q) none count = (0, some q)
push_batch lost (some q) (some items) count =
    if count == 0 then (0, some q) else (let (n, q') = push_some lost q items count in (n, some q'))

-- `ring_queue_pop_batch` past its NULL tests; `items` is the caller's array.
unfoldable pub pop_some : Bool → RingQueue → List ℤ → ℕ → ℕ × List ℤ × RingQueue
pop_some lost q items count =
    let actual = at_most count (used q) in
    if used q == 0 then (0, items, q) else if lost then (0, items, q) else (
      actual,
      copy_out items q.buffer q.head actual,
      record q { head = add32 q.head actual; pop_count = add64 q.pop_count actual },
    )

unfoldable pub pop_batch :
    Bool → Option RingQueue → Option (List ℤ) → ℕ → ℕ × Option (List ℤ) × Option RingQueue
pop_batch lost none items count = (0, items, none)
pop_batch lost (some q) none count = (0, none, some q)
pop_batch lost (some q) (some items) count =
    if count == 0
    then (0, some items, some q)
    else (let (n, items', q') = pop_some lost q items count in (n, some items', some q'))
