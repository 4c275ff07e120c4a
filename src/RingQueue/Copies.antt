-- ===== src/RingQueue/Copies.antt =====
-- The copies of the batch functions in codes/network/reactor/ring_queue.c, in one piece or two.
use hepeng_projects.Prelude.{
  ℕ, ◌-◌, ◌^◌, ◌≤◌, ◌<◌, ◌≡◌, refl, sym, ap, ap₂, ◌∙◌, inl, inr, List, ◌++◌, arith, length, take,
  drop, length-take, take-split, Bool-cases, leb, add32, ℤ, pos,
}
use hepeng_projects.Prelude.Memory.{
  write_at, read_at, length-read_at, read_at-eq-take, write_at_start, write_at-append,
}
use hepeng_projects.RingQueue.{ring_queue_size, slot, copy_in, copy_out}
use hepeng_projects.RingQueue.Window.{
  window, length-window, store, store-append, store-write_at, window-append, window-read_at,
}

-- The copy into the buffer is a store round the ring, whether it is made in one piece or in two.
pub copy_in-store :
    (buf : List ℤ) (t : ℕ) (items : List ℤ) (n : ℕ)
    → t < 2 ^ 32
    → n ≤ length items
    → n ≤ ring_queue_size
    → copy_in buf t items n ≡ store buf t (take n items)
unfolding copy_in
copy_in-store buf t items n ht hn hs = elim (Bool-cases (leb n room)) [
  | inl one ↦
      rw (one, read_at-eq-take (pos 0) items 0 n (omega arith))
        (sym
          (store-write_at buf t (slot t) (take n items) refl (ground (arith, length-take n items))))
  | inr two ↦
      rw
        (
          two,
          read_at-eq-take (pos 0) items 0 room (ground arith),
          read_at-eq-take (pos 0) items room (n - room) (ground arith),
          take-split room n items (ground arith),
          store-append buf t (take room items) (take (n - room) (drop room items)) ht,
          store-write_at buf t (slot t) (take room items) refl
              (omega (arith, length-take room items)),
        )
        (sym (
          store-write_at _ _ 0 (take (n - room) (drop room items))
            (ground (arith, length-take room items))
            (omega (arith, length-take (n - room) (drop room items)))))
]
  where
    room : ℕ
    room = ring_queue_size - slot t

-- The copy out of the buffer puts the oldest items at the front of the caller's array.
pub copy_out-window :
    (items buf : List ℤ) (h n : ℕ)
    → h < 2 ^ 32
    → n ≤ length items
    → n ≤ ring_queue_size
    → copy_out items buf h n ≡ window buf h n ++ drop n items
unfolding copy_out
copy_out-window items buf h n hh hn hs = elim (Bool-cases (leb n room)) [
  | inl one ↦
      rw (one, ← window-read_at buf h (slot h) n refl (ground arith))
        (whole (window buf h n) (length-window buf h n))
  | inr two ↦
      let back : write_at (write_at items 0 first) room second
          ≡ write_at items 0 (first ++ second) =
        ap (λ k. write_at (write_at items 0 first) k second)
          (omega (arith, length-read_at (pos 0) buf (slot h) room))
        ∙ sym (write_at-append items 0 first second) in
      let both : first ++ second ≡ window buf h n =
        ap₂ ◌++◌ (sym (window-read_at buf h (slot h) room refl (omega arith)))
          (sym (window-read_at buf (add32 h room) 0 (n - room) (omega arith) (ground arith)))
        ∙ sym (window-append buf h room (n - room) hh)
        ∙ ap (window buf h) (ground arith) in
      rw two (back ∙ ap (write_at items 0) both ∙ whole (window buf h n) (length-window buf h n))
]
  where
    room : ℕ
    room = ring_queue_size - slot h

    first : List ℤ
    first = read_at (pos 0) buf (slot h) room

    second : List ℤ
    second = read_at (pos 0) buf 0 (n - room)

    whole : (xs : List ℤ) → length xs ≡ n → write_at items 0 xs ≡ xs ++ drop n items
    whole xs e = write_at_start items xs (omega arith) ∙ ap (λ k. xs ++ drop k items) e
