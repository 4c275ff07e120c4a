-- ===== src/RingQueue/Concurrent/Simulation.antt =====
-- Each access keeps the agreement of ring, threads and queue.
use hepeng_projects.Prelude.{
  ℕ, suc, ◌-◌, set, length-set, ◌+◌, ◌≤◌, ◌<◌, ◌^◌, ◌≡◌, refl, sym, ap, subst, ◌∙◌, List, ◌++◌,
  arith, length, take, drop, take-append_left, drop-append_left, add32, sub32, ℤ,
}
use hepeng_projects.RingQueue.{RingQueue, ring_queue_size, used, at_most, item_at}
use hepeng_projects.RingQueue.Window.{IsValid, window, contents, length-window, window-append}
use hepeng_projects.RingQueue.Single.{length-contents}
use hepeng_projects.RingQueue.Concurrent.Agreement.{settled, Knows, Sees, Agrees}
use hepeng_projects.RingQueue.Concurrent.{
  AllAllowed, idle, Producer, resting, pushing, got_tail, got_both, reserved, written, Consumer,
  waiting, popping, got_head, got_ends, taking, copied, Label, dequeues, Consume, call_pop,
  load_first, load_last, found_empty, advance, give_up, copy_item, copy_end, count_pop, System,
  Step, produces, consumes, Run, stays, goes, Ledger, effect, ledger, Allowed,
}
use hepeng_projects.RingQueue.Concurrent.Producing.{Produce-Agrees}

-- A consumer that goes on with the same ring.
consumes_on :
    {q : RingQueue} {p : Producer} {c : Consumer} (c' : Consumer) {a : Ledger}
    → Sees c' (settled p q) a.owed
    → Agrees q p c a
    → Agrees q p c' a
consumes_on c' s g = record {
  storage = g.storage;
  head_in = g.head_in;
  tail_in = g.tail_in;
  fits = g.fits;
  holds = g.holds;
  knows = g.knows;
  sees = s;
}

counted-Knows :
    (p : Producer) (q : RingQueue) (n : ℕ) → Knows p q → Knows p (record q { pop_count = n })
counted-Knows resting q n k = tt
counted-Knows (pushing x) q n k = tt
counted-Knows (got_tail x t) q n k = k
counted-Knows (got_both x t h) q n k = k
counted-Knows (reserved x t) q n k = k
counted-Knows written q n k = tt

advanced-Knows :
    (p : Producer) (q : RingQueue) (k : ℕ)
    → q.head < 2 ^ 32
    → q.tail < 2 ^ 32
    → k ≤ used q
    → Knows p q
    → Knows p (record q { head = add32 q.head k })
advanced-Knows resting q n hh ht le k = tt
advanced-Knows (pushing x) q n hh ht le k = tt
advanced-Knows (got_tail x t) q n hh ht le k = k
advanced-Knows (got_both x t h) q n hh ht le (a, b, c) = (a, omega arith, c)
advanced-Knows (reserved x t) q n hh ht le k = k
advanced-Knows written q n hh ht le k = tt

-- The first items of a ring, and the others.
contents-split :
    (q : RingQueue) (k : ℕ)
    → q.head < 2 ^ 32
    → q.tail < 2 ^ 32
    → k ≤ used q
    → contents q ≡ window q.buffer q.head k ++ contents (record q { head = add32 q.head k })
contents-split q k hh ht le =
    let len : used q ≡ k + sub32 q.tail (add32 q.head k) = omega arith in
    ap (window q.buffer q.head) len
    ∙ window-append q.buffer q.head k (sub32 q.tail (add32 q.head k)) hh

drop-window :
    (buf : List ℤ) (h k d : ℕ)
    → h < 2 ^ 32
    → d ≤ k
    → k ≤ ring_queue_size
    → drop (k - d) (window buf h k) ≡ window buf (sub32 (add32 h k) d) d
drop-window buf h k d hh le small =
    let e : k ≡ (k - d) + d = omega arith in
    ap (drop (k - d)) (ap (window buf h) e ∙ window-append buf h (k - d) d hh)
    ∙ drop-append_left (window buf h (k - d)) _ (k - d) (length-window buf h (k - d))
    ∙ ap (λ i. window buf i d) (omega arith)

advance-Agrees :
    (q : RingQueue) (p : Producer) {c : Consumer} (a : Ledger) (items : List ℤ) (k : ℕ)
    → 0 < k
    → k ≤ used q
    → k ≤ length items
    → Agrees q p c a
    → Allowed (dequeues k) a
      × Agrees
          (record q { head = add32 q.head k })
          p
          (taking items q.head 0 k)
          (effect (dequeues k) a)
advance-Agrees q p a items k some_ le has g =
    let r : RingQueue = settled p q in
    let owed : take k a.queue ≡ window r.buffer r.head k =
      ap (take k) (sym g.holds ∙ contents-split r k g.head_in g.tail_in le)
      ∙ take-append_left (window r.buffer r.head k) _ k (length-window r.buffer r.head k) in
    let long : length (take k a.queue) ≡ k = ap length owed ∙ length-window r.buffer r.head k in
    let both : a.queue ≡ window r.buffer r.head k ++ contents (record r { head = add32 r.head k }) =
      sym g.holds ∙ contents-split r k g.head_in g.tail_in le in
    (
      (some_, omega (arith, ap length g.holds, length-contents r)),
      record {
        storage = g.storage;
        head_in = omega arith;
        tail_in = g.tail_in;
        fits = omega arith;
        holds = sym (
            ap (drop k) both
            ∙ drop-append_left (window r.buffer r.head k) _ k (length-window r.buffer r.head k));
        knows = advanced-Knows p q k g.head_in g.tail_in le g.knows;
        sees = (
          omega (arith, g.head_in),
          omega arith,
          omega arith,
          omega (arith, long),
          λ d most fit. sym (
              ap (λ n. drop n (take k a.queue)) (ap (λ n. n - d) long)
              ∙ ap (drop (k - d)) owed
              ∙ drop-window r.buffer r.head k d g.head_in most (omega arith)),
        );
      },
    )

Consume-Agrees :
    {q q' : RingQueue} {c c' : Consumer} {l : Label} (p : Producer) (a : Ledger)
    → Consume q c l q' c'
    → Agrees q p c a
    → Allowed l a × Agrees q' p c' (effect l a)
Consume-Agrees p a (call_pop {items} {n} some_ has) g =
    (tt, consumes_on (popping items n) (some_, has) g)
Consume-Agrees {q} p a (load_first {items} {n}) g =
    let (some_, has) = g.sees in (tt, consumes_on (got_head items n q.head) (some_, has, refl) g)
Consume-Agrees {q} p a (load_last {items} {n} {h}) g =
    let (some_, has, e) = g.sees in
    (tt, consumes_on (got_ends items n h q.tail) (some_, has, e, omega arith) g)
Consume-Agrees p a (found_empty none_) g = (tt, consumes_on waiting tt g)
Consume-Agrees {q} p a (advance {items} {n} {h} {t} some_ same) g =
    let (asked, has, e, le) = g.sees in
    subst
      (λ h.
        (k : ℕ)
        → 0 < k
        → k ≤ used q
        → k ≤ length items
        → Allowed (dequeues k) a
          × Agrees (record q { head = add32 h k }) p (taking items h 0 k) (effect (dequeues k) a))
      same (λ k i j m. advance-Agrees q p a items k i j m g) (at_most n (sub32 t h)) (ground arith)
      (ground arith) (ground arith)
Consume-Agrees p a (give_up some_) g = (tt, consumes_on waiting tt g)
Consume-Agrees {q} p a (copy_item {items} {h} {j} {m}) g =
    let (at, most, room, long, lies) = g.sees in
    let copies : List ℤ = set items j (item_at q.buffer h) in
    (
      tt,
      consumes_on (taking copies (add32 h 1) (suc j) m)
          (
            omega (arith, g.head_in),
            omega arith,
            omega (arith, length-set items j (item_at q.buffer h)),
            omega arith,
            λ d le fit. lies d (omega arith) fit,
          )
          g,
    )
Consume-Agrees p a (copy_end {items} {h} {j}) g = (tt, consumes_on (copied items j) tt g)
Consume-Agrees {q} p a (count_pop {items} {k}) g = (
  tt,
  record {
    storage = g.storage;
    head_in = g.head_in;
    tail_in = g.tail_in;
    fits = g.fits;
    holds = g.holds;
    knows = counted-Knows p q _ g.knows;
    sees = tt;
  },
)

Step-Agrees :
    {s s' : System} {l : Label} (a : Ledger)
    → Step s l s'
    → Agrees s.ring s.producer s.consumer a
    → Allowed l a × Agrees s'.ring s'.producer s'.consumer (effect l a)
Step-Agrees {s} a (produces m) g = Produce-Agrees s.consumer a m g
Step-Agrees {s} a (consumes m) g = Consume-Agrees s.producer a m g

pub Run-Agrees :
    {q : RingQueue} {ls : List Label} {s : System}
    → IsValid q
    → Run (idle q) ls s
    → AllAllowed (contents q) ls × Agrees s.ring s.producer s.consumer (ledger (contents q) ls)
Run-Agrees v stays = (
  tt,
  record {
    storage = v.storage;
    head_in = v.head_in;
    tail_in = v.tail_in;
    fits = v.fits;
    holds = refl;
    knows = tt;
    sees = tt;
  },
)
Run-Agrees {q} v (goes {ls} r m) =
    let (legal, g) = Run-Agrees v r in
    let (may, g') = Step-Agrees (ledger (contents q) ls) m g in ((may, legal), g')
