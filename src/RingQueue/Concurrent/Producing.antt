-- ===== src/RingQueue/Concurrent/Producing.antt =====
-- Each access of the producer keeps the agreement of ring, threads and queue.
use hepeng_projects.Prelude.{
  ℕ, zero, suc, ◌+◌, ◌≤◌, ◌<◌, ◌^◌, ◌≡◌, refl, sym, ap, ap₂, subst, ◌∙◌, List, [], ◌∷◌, ◌++◌, arith,
  length, set, length-set, get_or-set_ne, add32, sub32, ℤ, pos,
}
use hepeng_projects.RingQueue.{RingQueue, ring_queue_size, slot, used}
use hepeng_projects.RingQueue.Window.{window, contents, window-set}
use hepeng_projects.RingQueue.Single.{length-contents}
use hepeng_projects.RingQueue.Concurrent.Agreement.{settled, Knows, Sees, Agrees}
use hepeng_projects.RingQueue.Concurrent.{
  Producer, pushing, got_tail, got_both, reserved, Consumer, waiting, popping, got_head, got_ends,
  taking, copied, Label, enqueues, Produce, call_push, load_tail, load_head, found_full, reserve,
  retry, write, count_push, Ledger, effect, Allowed,
}

-- Writing past a window, less than a turn of the ring from its start, leaves it alone.
window-set_out :
    (buf : List ℤ) (x : ℤ) (n h d t : ℕ)
    → h < 2 ^ 32
    → t ≡ add32 h d
    → n ≤ d
    → d < ring_queue_size
    → window (set buf (slot t) x) h n ≡ window buf h n
window-set_out buf x zero h d t hh e le lt = refl
window-set_out buf x (suc n) h zero t hh e le lt = absurd (omega arith)
window-set_out buf x (suc n) h (suc d) t hh e le lt =
    ap₂ ◌∷◌ (get_or-set_ne buf x (pos 0) (omega arith)) (
      window-set_out buf x n (add32 h 1) d t (omega arith) (omega arith) (omega arith)
        (omega arith))

-- Reserving a place is no news for the consumer.
reserved-Sees :
    (c : Consumer) (q : RingQueue) (x : ℤ) (ys : List ℤ)
    → q.tail < 2 ^ 32
    → q.head < 2 ^ 32
    → used q < ring_queue_size
    → Sees c q ys
    → Sees c (record q { tail = add32 q.tail 1; buffer = set q.buffer (slot q.tail) x }) ys
reserved-Sees waiting q x ys ht hh room s = tt
reserved-Sees (popping items n) q x ys ht hh room s = s
reserved-Sees (got_head items n h) q x ys ht hh room s = s
reserved-Sees (got_ends items n h t) q x ys ht hh room (a, b, c, d) = (a, b, c, omega arith)
reserved-Sees (copied items k) q x ys ht hh room s = tt
reserved-Sees (taking items h j m) q x ys ht hh room (a, b, c, d, e) = (
  a,
  b,
  c,
  d,
  λ n le fit.
      window-set_out q.buffer x n (sub32 q.head n) (n + used q) q.tail (omega arith) (omega arith)
        (omega arith) (omega arith)
      ∙ e n le (omega arith),
)

-- Counters do not matter.
counted-Sees :
    (c : Consumer) (q : RingQueue) (ys : List ℤ) (m n f : ℕ)
    → Sees c q ys
    → Sees c (record q { push_count = m; pop_count = n; push_fail_count = f }) ys
counted-Sees waiting q ys m n f s = tt
counted-Sees (popping items k) q ys m n f s = s
counted-Sees (got_head items k h) q ys m n f s = s
counted-Sees (got_ends items k h t) q ys m n f s = s
counted-Sees (copied items k) q ys m n f s = tt
counted-Sees (taking items h j k) q ys m n f s = s

-- A producer that goes on with the same ring.
produces_on :
    {q : RingQueue} {p : Producer} (p' : Producer) {c : Consumer} {a : Ledger}
    → settled p q ≡ settled p' q
    → Knows p' q
    → Agrees q p c a
    → Agrees q p' c a
produces_on {q} p' {c} {a} e k g = record {
  storage = g.storage;
  head_in = g.head_in;
  tail_in = g.tail_in;
  fits = g.fits;
  holds = ap contents (sym e) ∙ g.holds;
  knows = k;
  sees = subst (λ r. Sees c r a.owed) e g.sees;
}

-- A reservation past the test, for the ring as it is then.
reserve-Agrees :
    (q : RingQueue) (c : Consumer) (a : Ledger) (x : ℤ) (h : ℕ)
    → sub32 q.tail h < ring_queue_size
    → Agrees q (got_both x q.tail h) c a
    → Allowed (enqueues x) a
      × Agrees (record q { tail = add32 q.tail 1 }) (reserved x q.tail) c (effect (enqueues x) a)
reserve-Agrees q c a x h room g =
    let free : used q < ring_queue_size = omega arith in
    let len : sub32 (add32 q.tail 1) q.head ≡ suc (used q) = omega arith in
    (
      omega (arith, ap length g.holds, length-contents q),
      record {
        storage = g.storage;
        head_in = g.head_in;
        tail_in = omega arith;
        fits = omega arith;
        holds =
            ap (window (set q.buffer (slot q.tail) x) q.head) len
            ∙ window-set q.buffer x (used q) q.head q.tail g.storage g.head_in free (omega arith)
            ∙ ap (λ xs. xs ++ (x ∷ [])) g.holds;
        knows = (g.tail_in, refl);
        sees = reserved-Sees c q x a.owed g.tail_in g.head_in free g.sees;
      },
    )

pub Produce-Agrees :
    {q q' : RingQueue} {p p' : Producer} {l : Label} (c : Consumer) (a : Ledger)
    → Produce q p l q' p'
    → Agrees q p c a
    → Allowed l a × Agrees q' p' c (effect l a)
Produce-Agrees c a (call_push {x}) g = (tt, produces_on (pushing x) refl tt g)
Produce-Agrees {q} c a (load_tail {x}) g = (tt, produces_on (got_tail x q.tail) refl refl g)
Produce-Agrees {q} c a (load_head {x} {t}) g =
    let e : t ≡ q.tail = g.knows in
    (tt, produces_on (got_both x t q.head) refl (e, omega arith, omega arith) g)
Produce-Agrees {q} c a (found_full full) g = (
  tt,
  record {
    storage = g.storage;
    head_in = g.head_in;
    tail_in = g.tail_in;
    fits = g.fits;
    holds = g.holds;
    knows = tt;
    sees = counted-Sees c q a.owed _ _ _ g.sees;
  },
)
Produce-Agrees {q} c a (reserve {x} {t} {h} room same) g =
    subst
      (λ t.
        sub32 t h < ring_queue_size
        → Agrees q (got_both x t h) c a
        → Allowed (enqueues x) a
          × Agrees (record q { tail = add32 t 1 }) (reserved x t) c (effect (enqueues x) a))
      same (reserve-Agrees q c a x h) room g
Produce-Agrees c a (retry {x} room) g = (tt, produces_on (pushing x) refl tt g)
Produce-Agrees {q} c a (write {x} {t}) g = (
  tt,
  record {
    storage = length-set q.buffer (slot t) x ∙ g.storage;
    head_in = g.head_in;
    tail_in = g.tail_in;
    fits = g.fits;
    holds = g.holds;
    knows = tt;
    sees = g.sees;
  },
)
Produce-Agrees {q} c a count_push g = (
  tt,
  record {
    storage = g.storage;
    head_in = g.head_in;
    tail_in = g.tail_in;
    fits = g.fits;
    holds = g.holds;
    knows = tt;
    sees = counted-Sees c q a.owed _ _ _ g.sees;
  },
)
