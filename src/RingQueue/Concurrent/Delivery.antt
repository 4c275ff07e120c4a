-- ===== src/RingQueue/Concurrent/Delivery.antt =====
-- What interleaved calls of `ring_queue_push` and `ring_queue_pop_batch` deliver.
use hepeng_projects.Prelude.{
  ℕ, zero, suc, ◌<◌, [], ◌∷◌, arith, length, set, get_or, add32, pos, ◌+◌, ◌≤◌, ◌≡◌, sym, ap, subst,
  ◌∙◌, List, drop, ℤ,
}
use hepeng_projects.RingQueue.{RingQueue, ring_queue_size, used, item_at}
use hepeng_projects.RingQueue.Window.{window, contents, IsValid}
use hepeng_projects.RingQueue.Concurrent.{
  Producer, Consumer, Consume, copy_item, silent, taking, Label, System, Run, Ledger, ledger,
  AllAllowed, idle,
}
use hepeng_projects.RingQueue.Concurrent.Agreement.{settled, settled_buffer, Sees, Agrees}
use hepeng_projects.RingQueue.Concurrent.Simulation.{Run-Agrees}

-- A producer and a consumer start outside their functions on a valid ring and make any accesses in any
-- order. Then every exchange of `tail` that succeeds is a push that the bounded queue allows, every
-- exchange of `head` takes at least one item and no more than the queue has, the indices stay at most
-- 65536 apart, and the ring holds what the queue of these pushes and pops holds, once the item is
-- written whose place the producer may have reserved.
pub Run-Allowed :
    {q : RingQueue} {ls : List Label} {s : System}
    → IsValid q
    → Run (idle q) ls s
    → AllAllowed (contents q) ls
      × (used s.ring ≤ ring_queue_size)
      × (contents (settled s.producer s.ring) ≡ (ledger (contents q) ls).queue)
Run-Allowed v r = let (legal, g) = Run-Agrees v r in (legal, g.fits, g.holds)

get_or-drop :
    (xs : List ℤ) (j : ℕ) (y : ℤ) (ys : List ℤ)
    → y ∷ ys ≡ drop j xs
    → (j < length xs) × (y ≡ get_or xs j (pos 0))
get_or-drop [] zero y ys e = absurd (cc e)
get_or-drop [] (suc j) y ys e = absurd (cc e)
get_or-drop (x ∷ xs) zero y ys e = (omega arith, ap (λ zs. get_or zs 0 (pos 0)) e)
get_or-drop (x ∷ xs) (suc j) y ys e =
    let (small, same) = get_or-drop xs j y ys e in (omega arith, same)

-- The next item of a copy.
copy_delivers :
    {q : RingQueue} {p : Producer} {c : Consumer} {a : Ledger} (items : List ℤ) (h j m : ℕ)
    → Agrees q p c a
    → c ≡ taking items h j (suc m)
    → item_at (settled_buffer p q.buffer) h ≡ item_at q.buffer h
    → suc m + used q ≤ ring_queue_size
    → (j < length a.owed) × (item_at q.buffer h ≡ get_or a.owed j (pos 0))
copy_delivers {q} {p} {c} {a} items h j m g at calm slow =
    let (e, most, room, long, lies) = subst (λ c. Sees c (settled p q) a.owed) at g.sees in
    let rest : window (settled_buffer p q.buffer) h (suc m) ≡ drop j a.owed =
      ap (λ i. window (settled_buffer p q.buffer) i (suc m)) e
      ∙ lies (suc m) (omega arith) slow
      ∙ ap (λ n. drop n a.owed) (omega (arith, long)) in
    let (small, same) = get_or-drop a.owed j _ _ rest in (small, sym calm ∙ same)

-- A producer and a consumer start outside their functions on a valid ring and make any accesses in any
-- order, until the consumer is in its copy, has copied `j` items and is about to copy the next. If the
-- producer is not between an exchange and a write that would change this place, and has not come round
-- to the places that are still to be copied (they and the items of the queue are at most 65536
-- together), then the queue owes the consumer's last exchange more than `j` items, oldest first, and the
-- consumer's next access puts the one of number `j`, counted from 0, at place `j` of the caller's array.
pub run-delivers :
    {q : RingQueue} {ls : List Label} {s : System} (items : List ℤ) (h j m : ℕ)
    → IsValid q
    → Run (idle q) ls s
    → s.consumer ≡ taking items h j (suc m)
    → item_at (settled_buffer s.producer s.ring.buffer) h ≡ item_at s.ring.buffer h
    → suc m + used s.ring ≤ ring_queue_size
    → let owed = (ledger (contents q) ls).owed in
      (j < length owed)
      × Consume s.ring s.consumer silent s.ring
          (taking (set items j (get_or owed j (pos 0))) (add32 h 1) (suc j) m)
run-delivers {q} {ls} {s} items h j m v r at calm slow =
    let (small, same) = copy_delivers items h j m (Run-Agrees v r).1 at calm slow in
    (
      small,
      subst
          (λ x.
            Consume s.ring s.consumer silent s.ring (taking (set items j x) (add32 h 1) (suc j) m))
          same
          (subst
            (λ c.
              Consume s.ring c silent s.ring
                (taking (set items j (item_at s.ring.buffer h)) (add32 h 1) (suc j) m))
            (sym at) copy_item),
    )
