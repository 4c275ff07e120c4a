-- ===== src/RingQueue/Window.antt =====
-- The items that a ring holds: the window of its buffer from `head` on, going round at 65536 in the
-- buffer and at 2^32 in the index.
use hepeng_projects.Prelude.{
  ℕ, zero, suc, ◌+◌, ◌-◌, ◌%◌, ◌^◌, ◌≤◌, ◌<◌, ◌≡◌, refl, sym, ap, ap₂, ◌∙◌, ◌≢◌, List, [], ◌∷◌,
  ◌++◌, append_assoc, append-nil, arith, length, get_or, set, length-set, get_or-set_self,
  get_or-set_ne, add32, ℤ, pos,
}
use hepeng_projects.Prelude.Memory.{write_at, read_at}
use hepeng_projects.RingQueue.{RingQueue, ring_queue_size, slot, used, item_at}

abbrev pub window : List ℤ → ℕ → ℕ → List ℤ
window buf h zero = []
window buf h (suc n) = item_at buf h ∷ window buf (add32 h 1) n

-- The queued items, oldest first.
abbrev pub contents : RingQueue → List ℤ
contents q = window q.buffer q.head (used q)

-- The indices are `uint32_t` values at most 65536 apart, the buffer has its size, and the counters
-- differ by the number of items.
pub record IsValid (q : RingQueue) : Type 0 where
  pub storage : length q.buffer ≡ ring_queue_size
  pub head_in : q.head < 2 ^ 32
  pub tail_in : q.tail < 2 ^ 32
  pub fits : used q ≤ ring_queue_size
  pub counted : q.push_count ≡ (q.pop_count + used q) % 2 ^ 64
  pub pop_count_in : q.pop_count < 2 ^ 64

pub length-window : (buf : List ℤ) (h n : ℕ) → length (window buf h n) ≡ n
length-window buf h zero = refl
length-window buf h (suc n) = ap suc (length-window buf (add32 h 1) n)

pub window-cons :
    (buf : List ℤ) (h n : ℕ)
    → n ≢ 0
    → window buf h n ≡ item_at buf h ∷ window buf (add32 h 1) (n - 1)
window-cons buf h zero p = absurd (p refl)
window-cons buf h (suc n) p = ap (λ k. window buf h (suc k)) (omega arith)

-- Writing just past a window extends it by that item.
pub window-set :
    (buf : List ℤ) (x : ℤ) (n h t : ℕ)
    → length buf ≡ ring_queue_size
    → h < 2 ^ 32
    → n < ring_queue_size
    → t ≡ add32 h n
    → window (set buf (slot t) x) h (suc n) ≡ window buf h n ++ (x ∷ [])
window-set buf x zero h t hs hh hn e =
    ap (λ y. y ∷ [])
      (ap (λ k. get_or (set buf k x) (slot h) (pos 0)) (omega arith)
        ∙ get_or-set_self buf (slot h) x (pos 0) (omega arith))
window-set buf x (suc n) h t hs hh hn e =
    ap₂ ◌∷◌ (get_or-set_ne buf x (pos 0) (omega arith))
      (window-set buf x n (add32 h 1) t hs (omega arith) (omega arith) (omega arith))

-- The items of a batch, written one after the other round the ring.
abbrev pub store : List ℤ → ℕ → List ℤ → List ℤ
store buf t [] = buf
store buf t (x ∷ xs) = store (set buf (slot t) x) (add32 t 1) xs

pub length-store : (buf : List ℤ) (t : ℕ) (xs : List ℤ) → length (store buf t xs) ≡ length buf
length-store buf t [] = refl
length-store buf t (x ∷ xs) =
    omega (arith, length-store (set buf (slot t) x) (add32 t 1) xs, length-set buf (slot t) x)

pub window-store :
    (buf : List ℤ) (xs : List ℤ) (n h t : ℕ)
    → length buf ≡ ring_queue_size
    → h < 2 ^ 32
    → n + length xs ≤ ring_queue_size
    → t ≡ add32 h n
    → window (store buf t xs) h (n + length xs) ≡ window buf h n ++ xs
window-store buf [] n h t hs hh hn e =
    let e' : n + 0 ≡ n = omega arith in ap (window buf h) e' ∙ sym (append-nil (window buf h n))
window-store buf (x ∷ xs) n h t hs hh hn e =
    let e' : n + suc (length xs) ≡ suc n + length xs = omega arith in
    ap (window (store (set buf (slot t) x) (add32 t 1) xs) h) e'
    ∙ window-store (set buf (slot t) x) xs (suc n) h (add32 t 1)
        (omega (arith, length-set buf (slot t) x)) hh (omega arith) (omega arith)
    ∙ ap (λ w. w ++ xs) (window-set buf x n h t hs hh (omega arith) e)
    ∙ append_assoc (window buf h n) (x ∷ []) xs

pub store-append :
    (buf : List ℤ) (t : ℕ) (xs ys : List ℤ)
    → t < 2 ^ 32
    → store buf t (xs ++ ys) ≡ store (store buf t xs) (add32 t (length xs)) ys
store-append buf t [] ys ht = ap (λ k. store buf k ys) (omega arith)
store-append buf t (x ∷ xs) ys ht =
    store-append (set buf (slot t) x) (add32 t 1) xs ys (omega arith)
    ∙ ap (λ k. store (store (set buf (slot t) x) (add32 t 1) xs) k ys) (omega arith)

-- Up to the end of the buffer, a store is a plain copy.
pub store-write_at :
    (buf : List ℤ) (t i : ℕ) (xs : List ℤ)
    → i ≡ slot t
    → i + length xs ≤ ring_queue_size
    → store buf t xs ≡ write_at buf i xs
store-write_at buf t i [] e h = refl
store-write_at buf t i (x ∷ []) e h = ap (λ k. set buf k x) (omega arith)
store-write_at buf t i (x ∷ y ∷ xs) e h =
    store-write_at (set buf (slot t) x) (add32 t 1) (i + 1) (y ∷ xs) (omega arith) (omega arith)
    ∙ ap (λ k. write_at (set buf k x) (i + 1) (y ∷ xs)) (omega arith)

pub window-append :
    (buf : List ℤ) (h m n : ℕ)
    → h < 2 ^ 32
    → window buf h (m + n) ≡ window buf h m ++ window buf (add32 h m) n
window-append buf h zero n hh = ap₂ (window buf) (omega arith) (omega arith)
window-append buf h (suc m) n hh =
    let e : suc m + n ≡ suc (m + n) = omega arith in
    ap (window buf h) e
    ∙ ap (◌∷◌ (item_at buf h)) (
        window-append buf (add32 h 1) m n (omega arith)
        ∙ ap (λ k. window buf (add32 h 1) m ++ window buf k n) (omega arith))

pub window-read_at :
    (buf : List ℤ) (h i n : ℕ)
    → i ≡ slot h
    → i + n ≤ ring_queue_size
    → window buf h n ≡ read_at (pos 0) buf i n
window-read_at buf h i zero e hn = refl
window-read_at buf h i (suc zero) e hn = ap (λ k. get_or buf k (pos 0) ∷ []) (omega arith)
window-read_at buf h i (suc (suc n)) e hn =
    ap₂ ◌∷◌ (ap (λ k. get_or buf k (pos 0)) (omega arith))
      (window-read_at buf (add32 h 1) (i + 1) (suc n) (omega arith) (omega arith))
