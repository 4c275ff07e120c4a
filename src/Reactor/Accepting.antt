-- ===== src/Reactor/Accepting.antt =====
-- `process_new_connections_batch`: no descriptor taken from the accept queue is lost.
use hepeng_projects.Prelude.{
  ℕ, suc, ◌+◌, ◌≡◌, refl, sym, ap, ◌∙◌, Bool, true, false, List, [], ◌∷◌, ◌++◌, append_assoc,
  append-nil, some, arith, length, ◌==◌, if◌then◌else◌, add64, ℤ, inl, inr, Bool-cases, ltb, take,
  drop, min, take-append_left, length-take,
}
use hepeng_projects.Reactor.Connection.{Call}
use hepeng_projects.Reactor.Table.{count_live}
use hepeng_projects.Reactor.Thread.{
  World, Answers, add_or_close, add_each, add_batch, batch_size, process_new_connections_batch,
}
use hepeng_projects.Reactor.Ownership.{Owns}
use hepeng_projects.RingQueue.{RingQueue}
use hepeng_projects.RingQueue.Window
use hepeng_projects.RingQueue.Window.{contents}
use hepeng_projects.RingQueue.Batch.{pop_batch_refines}
use hepeng_projects.RingQueue.Spec
use hepeng_projects.Reactor.Adding.{Allocates, fate, add_or_close-Added}

-- The calls that a batch leads to, one for each descriptor, and how many of them are additions.
abbrev pub fates : List ℤ → List Bool → List Call
fates (fd ∷ fds) (done ∷ outcomes) = fate fd done ++ fates fds outcomes
fates _ _ = []

abbrev pub count_true : List Bool → ℕ
count_true [] = 0
count_true (true ∷ bs) = suc (count_true bs)
count_true (false ∷ bs) = count_true bs

pub record AddedEach (w : World) (fds : List ℤ) (outcomes : List Bool) (r : ℕ × World)
    : Type 0 where
  pub owns : Owns r.1
  pub all : length outcomes ≡ length fds
  pub successes : r.0 ≡ count_true outcomes
  pub live : count_live r.1.thread.connections ≡ count_live w.thread.connections + r.0
  pub log : r.1.log ≡ w.log ++ fates fds outcomes
  pub queue_kept : r.1.thread.accept_queue ≡ w.thread.accept_queue

add_each-AddedEach :
    (answers : ℕ → Answers) (fds : List ℤ) (i : ℕ) {w : World}
    → ((j : ℕ) → Allocates (answers j))
    → Owns w
    → (outcomes : List Bool) × AddedEach w fds outcomes (add_each answers i w fds)
unfolding add_each
add_each-AddedEach answers [] i {w} fresh o = (
  [],
  record {
    owns = o;
    all = refl;
    successes = refl;
    live = omega arith;
    log = sym (append-nil w.log);
    queue_kept = refl;
  },
)
add_each-AddedEach answers (fd ∷ fds) i {w} fresh o =
    let one = add_or_close-Added (answers i) fd (fresh i) o in
    let (outcomes, more) = add_each-AddedEach answers fds (i + 1) fresh one.owns in
    (
      (add_or_close (answers i) w fd).0 ∷ outcomes,
      record {
        owns = more.owns;
        all = ap suc more.all;
        successes = ground (arith, more.successes);
        live = ground (arith, more.live, one.count);
        log =
            more.log
            ∙ ap (λ l. l ++ fates fds outcomes) one.log
            ∙ append_assoc w.log (fate fd (add_or_close (answers i) w fd).0) (fates fds outcomes);
        queue_kept = more.queue_kept ∙ one.queue_kept;
      },
    )

-- The descriptors that a round takes from the accept queue.
abbrev pub taken : Bool → List ℤ → List ℤ
taken lost fds = if lost then [] else take (min batch_size (length fds)) fds

abbrev pub left : Bool → List ℤ → List ℤ
left lost fds = if lost then fds else drop (min batch_size (length fds)) fds

abbrev with_queue : World → RingQueue → World
with_queue w q = record w { thread = record w.thread { accept_queue = q } }

with_queue-Owns : {w : World} {q : RingQueue} → Owns w → Window.IsValid q → Owns (with_queue w q)
with_queue-Owns o v = record {
  sized = o.sized;
  apart = o.apart;
  counted = o.counted;
  active = o.active;
  owned = o.owned;
  sound = o.sound;
  queue = v;
}

count_batch-AddedEach :
    {w : World} (fds : List ℤ) (outcomes : List Bool) (r : ℕ × World)
    → AddedEach w fds outcomes r
    → AddedEach w fds outcomes (
      r.0,
      record r.1 {
        thread = record r.1.thread { batch_processed = add64 r.1.thread.batch_processed 1 };
      },
    )
count_batch-AddedEach fds outcomes r a = record {
  owns = record {
    sized = a.owns.sized;
    apart = a.owns.apart;
    counted = a.owns.counted;
    active = a.owns.active;
    owned = a.owns.owned;
    sound = a.owns.sound;
    queue = a.owns.queue;
  };
  all = a.all;
  successes = a.successes;
  live = a.live;
  log = a.log;
  queue_kept = a.queue_kept;
}

add_batch-AddedEach :
    (stack : List ℤ) (answers : ℕ → Answers) {w : World} (n : ℕ) (fds rest : List ℤ) (q : RingQueue)
    → length fds ≡ n
    → ((j : ℕ) → Allocates (answers j))
    → Owns w
    → Window.IsValid q
    → (outcomes : List Bool) × AddedEach
        (with_queue w q)
        fds
        outcomes
        (add_batch stack answers w (n, some (fds ++ rest), some q))
unfolding add_batch
add_batch-AddedEach stack answers {w} n [] rest q size fresh o v =
    let none_taken : n ≡ 0 = omega arith in rw (none_taken, add_batch) ([], none_added)
  where
    none_added : AddedEach (with_queue w q) [] [] (0, with_queue w q)
    none_added = record {
      owns = with_queue-Owns o v;
      all = refl;
      successes = refl;
      live = omega arith;
      log = sym (append-nil w.log);
      queue_kept = refl;
    }
add_batch-AddedEach stack answers {w} n (fd ∷ fds) rest q size fresh o v =
    let (outcomes, each) = add_each-AddedEach answers (fd ∷ fds) 0 fresh (with_queue-Owns o v) in
    let some_taken : (n == 0) ≡ false = ground arith in
    elim (Bool-cases (ltb 1 n)) [
      | inl several ↦
          rw (add_batch, some_taken, several, take-append_left (fd ∷ fds) rest n size)
            (outcomes, count_batch-AddedEach (fd ∷ fds) outcomes _ each)
      | inr one ↦
          rw (add_batch, some_taken, one, take-append_left (fd ∷ fds) rest n size) (outcomes, each)
    ]

-- What a round has done with the descriptors `fds` from the queue, of which `rest` are still there.
pub record Accepted (w : World) (fds rest : List ℤ) (outcomes : List Bool) (r : ℕ × World)
    : Type 0 where
  pub owns : Owns r.1
  pub all : length outcomes ≡ length fds
  pub successes : r.0 ≡ count_true outcomes
  pub live : count_live r.1.thread.connections ≡ count_live w.thread.connections + r.0
  pub log : r.1.log ≡ w.log ++ fates fds outcomes
  pub waiting : contents r.1.thread.accept_queue ≡ rest

accepted :
    {w : World} {q : RingQueue} (fds : List ℤ) {rest : List ℤ} (outcomes : List Bool)
    (r : ℕ × World)
    → contents q ≡ rest
    → AddedEach (with_queue w q) fds outcomes r
    → Accepted w fds rest outcomes r
accepted fds outcomes r e each = record {
  owns = each.owns;
  all = each.all;
  successes = each.successes;
  live = each.live;
  log = each.log;
  waiting = ap contents each.queue_kept ∙ e;
}

-- `process_new_connections_batch` takes the oldest descriptors from the accept queue, 64 or all of
-- them, and leaves the others there (if its exchange fails it takes none). Each one that it takes is
-- either registered with epoll or closed, once and in order. It returns the number of those that are
-- registered, by which the table grows, and keeps table, heap and counters in agreement.
pub process_new_connections_batch-Accepted :
    (lost : Bool) (stack : List ℤ) (answers : ℕ → Answers) {w : World}
    → length stack ≡ batch_size
    → ((j : ℕ) → Allocates (answers j))
    → Owns w
    → let fds = contents w.thread.accept_queue in
      (outcomes : List Bool) × Accepted w
        (taken lost fds)
        (left lost fds)
        outcomes
        (process_new_connections_batch lost stack answers w)
unfolding process_new_connections_batch Spec.pop_many
process_new_connections_batch-Accepted false stack answers {w} size fresh o =
    let fds = contents w.thread.accept_queue in
    let n = min batch_size (length fds) in
    let (q, e, v, rest) = pop_batch_refines false stack batch_size o.queue (omega arith) in
    let (outcomes, each) =
      add_batch-AddedEach stack answers n (take n fds) (drop n stack) q
        (omega (arith, length-take n fds)) fresh o v in
    rw (process_new_connections_batch, e) (outcomes, accepted (take n fds) outcomes _ rest each)
process_new_connections_batch-Accepted true stack answers {w} size fresh o =
    let (q, e, v, rest) = pop_batch_refines true stack batch_size o.queue (omega arith) in
    let (outcomes, each) = add_batch-AddedEach stack answers 0 [] stack q refl fresh o v in
    rw (process_new_connections_batch, e) (outcomes, accepted [] outcomes _ rest each)
