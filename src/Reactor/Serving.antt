-- ===== src/Reactor/Serving.antt =====
-- The accept thread of codes/network/reactor/server.c: where the descriptors go that it accepts.
use hepeng_projects.Prelude.{
  ℕ, ◌%◌, ◌≡◌, ◌≢◌, refl, sym, ap, subst, ◌∙◌, Bool, true, false, List, [], ◌∷◌, ◌++◌, arith, add32,
  ℤ, pos, ◌==◌, if◌then◌else◌, inl, inr, Bool-cases,
}
use hepeng_projects.Prelude.Kernel.{Accept, connected, accept_failed, again, other}
use hepeng_projects.RingQueue.Spec
use hepeng_projects.Reactor.Core.{Reactor, Call, closes, reactor_add_connection}
use hepeng_projects.Reactor.Distribution.{waiting, IsReady, QueuesValid, reactor_add_connection_lem}
use hepeng_projects.Reactor.Server.{
  Arrival, kept_or_closed, take_client, then_calls, accept_body, accept_loop,
}

-- The queues of a server, one for each thread.
abbrev pub Queues : Type 0
Queues = ℕ → List ℤ

abbrev pub queued : Queues → ℕ → List ℤ → Queues
queued q i xs = λ j. if i == j then xs else q j

-- What the server promises: the threads get the descriptors in turn, each appended to the queue of its
-- thread. One for which there is no room is closed, and so is one that comes when the server has been
-- stopped. `n` is the number of threads, and `next` counts the descriptors modulo 2^32.
unfoldable pub dealt : ℕ → ℕ → Queues → List Arrival → Queues × List Call
dealt n next q [] = (q, [])
dealt n next q (a ∷ as_) = elim a.stopped [
  | true ↦ (q, [])
  | false ↦ elim a.result [
    | accept_failed again ↦ dealt n next q as_
    | accept_failed other ↦ (q, [])
    | connected fd ↦ elim a.stopped_meanwhile [
      | true ↦ (q, closes (pos fd) ∷ [])
      | false ↦
          let i = next % n in
          let (room, xs) = Spec.push (q i) (pos fd) in
          let (q', more) = dealt n (add32 next 1) (queued q i xs) as_ in
          (q', (if room then [] else closes (pos fd) ∷ []) ++ more)
    ]
  ]
]

-- What the loop leaves.
pub record Deals (n next : ℕ) (q : Queues) (as_ : List Arrival) (s : Reactor × List Call)
    : Type 0 where
  pub queues : (j : ℕ) → waiting s.0.threads j ≡ (dealt n next q as_).0 j
  pub calls : s.1 ≡ (dealt n next q as_).1
  pub valid : QueuesValid s.0.threads

accept_loop-runs :
    (r : Reactor) (a : Arrival) (as_ : List Arrival)
    → r.running ≡ true
    → a.stopped ≡ false
    → accept_loop r (a ∷ as_) ≡ accept_body a r (λ r'. accept_loop r' as_)
unfolding accept_loop
accept_loop-runs r a as_ runs on = simp (on, runs)

accept_loop-stopped :
    (r : Reactor) (a : Arrival) (as_ : List Arrival)
    → a.stopped ≡ true
    → accept_loop r (a ∷ as_) ≡ (record r { running = false }, [])
unfolding accept_loop
accept_loop-stopped r a as_ off = rw off refl

-- A stopped reactor takes nothing.
take_client-stopped :
    (spurious : ℕ) (r : Reactor) (fd : ℕ)
    → take_client spurious (record r { running = false }) fd
      ≡ (record r { running = false }, closes (pos fd) ∷ [])
unfolding take_client reactor_add_connection
take_client-stopped spurious r fd = refl

accept_loop-off :
    (r : Reactor) (as_ : List Arrival)
    → (accept_loop (record r { running = false }) as_) ≡ (record r { running = false }, [])
unfolding accept_loop
accept_loop-off r [] = refl
accept_loop-off r (a ∷ as_) = elim (Bool-cases a.stopped) [ inl h ↦ rw h refl | inr h ↦ rw h refl ]

abbrev Shows : Queues → Reactor → Type 0
Shows q r = (j : ℕ) → waiting r.threads j ≡ q j

-- The rounds to come do as the server promises.
abbrev Rest : List Arrival → Type 0
Rest as_ =
    (r : Reactor) (q : Queues)
    → IsReady r
    → Shows q r
    → Deals r.thread_count r.next_thread q as_ (accept_loop r as_)

-- A round with a descriptor while the reactor runs.
client-Deals :
    (k fd : ℕ) (as_ : List Arrival) (r : Reactor) (q : Queues)
    → IsReady r
    → Shows q r
    → Rest as_
    → let a : Arrival = record {
      stopped = false;
      stopped_meanwhile = false;
      result = connected fd;
      spurious = k;
    } in
      Deals r.thread_count r.next_thread q (a ∷ as_) (accept_body a r (λ r'. accept_loop r' as_))
unfolding accept_body take_client dealt
client-Deals k fd as_ r q ready s rest =
    let i = r.next_thread % r.thread_count in
    let (r', runs, ready', target, others, next, same_count) =
      reactor_add_connection_lem k fd ready in
    let xs = (Spec.push (q i) (pos fd)).1 in
    let calls = if (Spec.push (q i) (pos fd)).0 then [] else closes (pos fd) ∷ [] in
    let outcome : take_client k r fd ≡ (r', calls) =
      ap (kept_or_closed fd r) runs
      ∙ ap (λ ys. (r', if (Spec.push ys (pos fd)).0 then [] else closes (pos fd) ∷ [])) (s i) in
    let t : Deals r.thread_count (add32 r.next_thread 1) (queued q i xs) as_ (accept_loop r' as_) =
      subst (λ n. Deals n (add32 r.next_thread 1) (queued q i xs) as_ (accept_loop r' as_))
        same_count
        (subst (λ m. Deals r'.thread_count m (queued q i xs) as_ (accept_loop r' as_)) next
          (rest r' (queued q i xs) ready' (λ j. shows i r' target others j))) in
    subst
      (λ (o : Reactor × List Call).
        Deals r.thread_count r.next_thread q
          (record {
            stopped = false;
            stopped_meanwhile = false;
            result = connected fd;
            spurious = k;
          }
            ∷ as_)
          (then_calls o.1 (accept_loop o.0 as_)))
      (sym outcome)
      (record { queues = t.queues; calls = ap (λ more. calls ++ more) t.calls; valid = t.valid })
  where
    shows :
        (i : ℕ) (r' : Reactor)
        → waiting r'.threads i ≡ (Spec.push (waiting r.threads i) (pos fd)).1
        → ((j : ℕ) → i ≢ j → waiting r'.threads j ≡ waiting r.threads j)
        → (j : ℕ) → waiting r'.threads j ≡ queued q i (Spec.push (q i) (pos fd)).1 j
    shows i r' target others j = elim (Bool-cases (i == j)) [
      | inl e ↦
          let same : i ≡ j = ground arith in
          rw e (
            ap (waiting r'.threads) (sym same)
            ∙ target
            ∙ ap (λ ys. (Spec.push ys (pos fd)).1) (s i))
      | inr ne ↦ rw ne (others j (λ same. ground arith) ∙ s j)
    ]

body-Deals :
    (b : Bool) (x : Accept) (k : ℕ) (as_ : List Arrival) (r : Reactor) (q : Queues)
    → IsReady r
    → Shows q r
    → Rest as_
    → let a : Arrival = record {
      stopped = false;
      stopped_meanwhile = b;
      result = x;
      spurious = k;
    } in
      Deals r.thread_count r.next_thread q (a ∷ as_) (accept_body a r (λ r'. accept_loop r' as_))
unfolding accept_body dealt
body-Deals b (accept_failed again) k as_ r q ready s rest =
    let t = rest r q ready s in record { queues = t.queues; calls = t.calls; valid = t.valid }
body-Deals b (accept_failed other) k as_ r q ready s rest = record {
  queues = s;
  calls = refl;
  valid = ready.queues;
}
body-Deals true (connected fd) k as_ r q ready s rest =
    let a : Arrival = record {
      stopped = false;
      stopped_meanwhile = true;
      result = connected fd;
      spurious = k;
    } in
    let P : Reactor × List Call → Type 0 = λ o. Deals r.thread_count r.next_thread q (a ∷ as_) o in
    subst (λ (o : Reactor × List Call). P (then_calls o.1 (accept_loop o.0 as_)))
      (sym (take_client-stopped k r fd))
      (subst (λ u. P (then_calls (closes (pos fd) ∷ []) u)) (sym (accept_loop-off r as_))
        (record { queues = s; calls = refl; valid = ready.queues }))
body-Deals false (connected fd) k as_ r q ready s rest = client-Deals k fd as_ r q ready s rest

all-Deals : (as_ : List Arrival) → Rest as_
unfolding dealt accept_loop
all-Deals [] r q ready s = record { queues = s; calls = refl; valid = ready.queues }
all-Deals (a ∷ as_) r q ready s = elim (Bool-cases a.stopped) [
  | inl off ↦
      subst (λ o. Deals r.thread_count r.next_thread q (a ∷ as_) o)
        (sym (accept_loop-stopped r a as_ off))
        (record { queues = λ j. rw off (s j); calls = rw off refl; valid = ready.queues })
  | inr on ↦
      let a' : Arrival = record a { stopped = false } in
      let same : a' ≡ a = ap (λ b. record a { stopped = b }) (sym on) in
      subst (λ o. Deals r.thread_count r.next_thread q (a ∷ as_) o)
        (sym (accept_loop-runs r a as_ ready.runs on))
        (subst
          (λ x.
            Deals r.thread_count r.next_thread q (x ∷ as_)
              (accept_body x r (λ r'. accept_loop r' as_)))
          same (body-Deals a.stopped_meanwhile a.result a.spurious as_ r q ready s (all-Deals as_)))
]

-- On a running reactor with valid queues, the loop of the accept thread does with any sequence of
-- results of `accept`, and however other threads stop the reactor meanwhile, what the server promises:
-- it leaves the queues of all threads, and closes descriptors, as `dealt` says.
pub accept_loop-Deals :
    (as_ : List Arrival) {r : Reactor}
    → IsReady r
    → Deals r.thread_count r.next_thread (waiting r.threads) as_ (accept_loop r as_)
accept_loop-Deals as_ {r} ready = all-Deals as_ r (waiting r.threads) ready (λ j. refl)
