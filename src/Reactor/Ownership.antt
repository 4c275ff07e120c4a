-- ===== src/Reactor/Ownership.antt =====
-- Who owns a connection: exactly the pointers of the table lie on the heap, each once, and the two
-- counters count them. Closing a live connection keeps this, and touches no other.
use hepeng_projects.Prelude.{
  ℕ, suc, ◌≡◌, refl, Bool, true, false, List, [], ◌∷◌, ◌++◌, Option, none, some, arith, length,
  ◌==◌, if◌then◌else◌,
}
use hepeng_projects.RingQueue.Window
use hepeng_projects.Reactor.Connection.{Connection, Call, epoll_del, closes}
use hepeng_projects.Reactor.Echo.{IsValid}
use hepeng_projects.Reactor.Table.{
  max_connections, forget, holds, distinct, count_live, count_live-le, Forgotten, forget-Forgotten,
}
use hepeng_projects.Reactor.Thread.{World, update, with_log, remove_entry, handle_close_event}

abbrev pub is_some {ℓ} : {A : Type ℓ} → Option A → Bool
is_some none = false
is_some (some a) = true

abbrev pub alive : World → ℕ → Bool
alive w p = is_some (w.heap p)

pub record Owns (w : World) : Type 0 where
  pub sized : length w.thread.connections ≡ max_connections
  pub apart : distinct w.thread.connections ≡ true
  pub counted : w.thread.connection_count ≡ count_live w.thread.connections
  pub active : w.thread.active_connections ≡ count_live w.thread.connections
  pub owned : (p : ℕ) → holds w.thread.connections p ≡ alive w p
  pub sound : (p : ℕ) (c : Connection) → w.heap p ≡ some c → IsValid c
  pub queue : Window.IsValid w.thread.accept_queue

pub alive-some : (w : World) (p : ℕ) → alive w p ≡ true → (c : Connection) × (w.heap p ≡ some c)
alive-some w p h = go (w.heap p) refl h
  where
    go :
        (o : Option Connection)
        → w.heap p ≡ o
        → is_some o ≡ true
        → (c : Connection) × (w.heap p ≡ some c)
    go none e f = cc
    go (some c) e f = (c, e)

-- What `handle_close_event` at `p` leaves.
abbrev pub closed : World → ℕ → Connection → World
closed w p c = record {
  thread = remove_entry w.thread p;
  heap = update w.heap p none;
  log = w.log ++ (epoll_del c.fd ∷ closes c.fd ∷ []);
}

module _ {w : World} (o : Owns w) (p : ℕ) {c : Connection} (here : w.heap p ≡ some c) where
  forgotten : Forgotten w.thread.connections p (forget w.thread.connections p)
  forgotten = forget-Forgotten w.thread.connections p o.apart

  closed-Owns : Owns (closed w p c)
  unfolding remove_entry
  closed-Owns =
      let f = forgotten in
      let small = count_live-le w.thread.connections in
      record {
        sized = ground (arith, f.size, o.sized);
        apart = ground (arith, f.apart, o.apart);
        counted = ground (arith, f.live, f.found, o.owned p, o.counted);
        active = ground (arith, f.live, f.found, o.owned p, o.active);
        owned = λ q. ground (arith, f.held q, f.found, o.owned p, o.owned q);
        sound = λ q d e. ground (arith, o.sound q d);
        queue = ground (arith, o.queue);
      }

-- `handle_close_event` at a live connection reads no freed memory. It frees that connection and no
-- other, removes it from epoll and then closes its descriptor, and keeps table, heap and counters in
-- agreement.
pub handle_close_event-Owns :
    {w : World} (p : ℕ) {c : Connection}
    → Owns w
    → w.heap p ≡ some c
    → (w' : World) × (handle_close_event w (some p) ≡ some w')
      × Owns w'
      × ((q : ℕ) → w'.heap q ≡ (if p == q then none else w.heap q))
      × (w'.log ≡ w.log ++ (epoll_del c.fd ∷ closes c.fd ∷ []))
      × (suc w'.thread.connection_count ≡ w.thread.connection_count)
unfolding handle_close_event remove_entry
handle_close_event-Owns {w} p {c} o here =
    let f = forgotten o p here in
    (
      closed w p c,
      rw (here, handle_close_event) refl,
      closed-Owns o p here,
      (λ q. refl),
      refl,
      ground (
        arith,
        f.live,
        f.found,
        o.owned p,
        o.counted,
        count_live-le w.thread.connections,
        o.sized,
      ),
    )

-- A live connection may be replaced by any valid one.
pub store-Owns :
    {w : World} (p : ℕ) {c : Connection}
    → Owns w
    → alive w p ≡ true
    → IsValid c
    → Owns (record w { heap = update w.heap p (some c) })
store-Owns {w} p {c} o here v = record {
  sized = o.sized;
  apart = o.apart;
  counted = o.counted;
  active = o.active;
  owned = λ q. ground (arith, o.owned q, o.owned p);
  sound = λ q d e. ground (arith, o.sound q d);
  queue = o.queue;
}

pub with_log-Owns : {w : World} (calls : List Call) → Owns w → Owns (with_log w calls)
with_log-Owns calls o = record {
  sized = o.sized;
  apart = o.apart;
  counted = o.counted;
  active = o.active;
  owned = o.owned;
  sound = o.sound;
  queue = o.queue;
}
