-- ===== src/RingQueue/Spec.antt =====
-- What the ring promises: a first-in first-out queue of at most 65536 items, oldest first.
use hepeng_projects.Prelude.{
  ℕ, ◌-◌, ◌≤◌, ◌<◌, ◌^◌, Bool, true, false, List, [], ◌∷◌, ◌++◌, length, take, drop, ltb,
  if◌then◌else◌, min, ℤ,
}
use hepeng_projects.RingQueue.{ring_queue_size}

unfoldable pub push : List ℤ → ℤ → Bool × List ℤ
push xs x = if ltb (length xs) ring_queue_size then (true, xs ++ (x ∷ [])) else (false, xs)

-- A pop of the empty queue leaves the caller's variable alone.
unfoldable pub pop : List ℤ → ℤ → Bool × ℤ × List ℤ
pop [] out = (false, out, [])
pop (x ∷ xs) out = (true, x, xs)

unfoldable pub push_many : List ℤ → List ℤ → ℕ → ℕ × List ℤ
push_many xs items count =
    let n = min count (ring_queue_size - length xs) in (n, xs ++ take n items)

-- The items go to the front of the caller's array, whose other places keep what they hold.
unfoldable pub pop_many : List ℤ → List ℤ → ℕ → ℕ × List ℤ × List ℤ
pop_many xs items count = let n = min count (length xs) in (n, take n xs ++ drop n items, drop n xs)

-- A client's calls; the first argument of each says how exchanges fail.
pub data Op : Type 0 where
  put : ℕ → ℤ → Op
  get : ℕ → ℤ → Op
  put_batch : Bool → List ℤ → ℕ → Op
  get_batch : Bool → List ℤ → ℕ → Op

-- A caller's array has room for `count` items, which is a `uint32_t`.
abbrev pub Fits : Op → Type 0
Fits (put spurious x) = Unit
Fits (get spurious out) = Unit
Fits (put_batch lost items count) = (count ≤ length items) × (count < 2 ^ 32)
Fits (get_batch lost items count) = (count ≤ length items) × (count < 2 ^ 32)

-- What a client sees of a call.
pub data Reply : Type 0 where
  pushed : Bool → Reply
  popped : Bool → ℤ → Reply
  pushed_batch : ℕ → Reply
  popped_batch : ℕ → List ℤ → Reply

-- A spurious failure is seen by a batch call alone, which then does nothing.
unfoldable pub step : List ℤ → Op → Reply × List ℤ
unfolding push pop push_many pop_many
step xs (put spurious x) = let (done, ys) = push xs x in (pushed done, ys)
step xs (get spurious out) = let (done, x, ys) = pop xs out in (popped done x, ys)
step xs (put_batch lost items count) =
    let (n, ys) = push_many xs items count in
    if lost then (pushed_batch 0, xs) else (pushed_batch n, ys)
step xs (get_batch lost items count) =
    let (n, items', ys) = pop_many xs items count in
    if lost then (popped_batch 0 items, xs) else (popped_batch n items', ys)

unfoldable pub run : List ℤ → List Op → List Reply
run xs [] = []
run xs (op ∷ ops) = let (reply, ys) = step xs op in reply ∷ run ys ops
