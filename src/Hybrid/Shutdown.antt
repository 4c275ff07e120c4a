-- ===== src/Hybrid/Shutdown.antt =====
-- Stopping the hybrid proactor of codes/network/proactor_epoll/hybrid_proactor.c: what is freed, and
-- what is left when a start fails.
use hepeng_projects.Prelude.{
  ℕ, suc, ◌+◌, ◌<◌, ◌≡◌, ◌≢◌, refl, sym, ap, subst, ◌∙◌, Bool, true, false, ◌&&◌, ◌||◌, not, List,
  [], ◌∷◌, ◌++◌, Option, none, some, arith, ◌==◌, if◌then◌else◌, is_negative, inl, inr, Bool-cases,
}
use hepeng_projects.Hybrid.Connection.{MtConnection, WorkerContext, Heap, update}
use hepeng_projects.Hybrid.Lifecycle.{
  Resource, worker_thread, descriptor, connection, Act, acquires, releases, MtServer,
  free_connections, stopped, shuts, stop_worker, stop_workers, workers_of, halted, closing,
  shut_down, mt_proactor_stop, when,
}
use hepeng_projects.Hybrid.Ownership.{has, distinct, mine, Lists, AllLive, AllLive-owned}
use hepeng_projects.Hybrid.Admission.{WorkersValid}

-- The heap without the connections of a list.
abbrev pub without_all : Heap → List ℕ → Heap
without_all heap ps = λ q. if has q ps then none else heap q

AllLive-update :
    (heap : Heap) (p : ℕ) (ps : List ℕ)
    → has p ps ≡ false
    → AllLive heap ps
    → AllLive (update heap p none) ps
AllLive-update heap p [] out live = tt
AllLive-update heap p (q ∷ ps) out ((c, here), live) =
    ((c, ground arith), AllLive-update heap p ps (ground arith) live)

-- How often a log joins the thread of the worker `j`, and how often it should: once, if the worker, one
-- of those from number `i` on, has a thread.
abbrev pub joined : ℕ → List Act → ℕ
joined j [] = 0
joined j (releases (worker_thread i) ∷ acts) = (if i == j then 1 else 0) + joined j acts
joined j (_ ∷ acts) = joined j acts

abbrev pub threads : ℕ → ℕ → List WorkerContext → ℕ
threads j i [] = 0
threads j i (t ∷ ts) = (if not (t.thread == 0) && (i == j) then 1 else 0) + threads j (i + 1) ts

pub joined-append : (j : ℕ) (xs ys : List Act) → joined j (xs ++ ys) ≡ joined j xs + joined j ys
joined-append j [] ys = omega arith
joined-append j (acquires r ∷ xs) ys = joined-append j xs ys
joined-append j (releases (worker_thread i) ∷ xs) ys = ground (arith, joined-append j xs ys)
joined-append j (releases Resource.worker_array ∷ xs) ys = joined-append j xs ys
joined-append j (releases Resource.exit_event ∷ xs) ys = joined-append j xs ys
joined-append j (releases Resource.accept_thread ∷ xs) ys = joined-append j xs ys
joined-append j (releases (Resource.aio_context i) ∷ xs) ys = joined-append j xs ys
joined-append j (releases (Resource.epoll i d) ∷ xs) ys = joined-append j xs ys
joined-append j (releases (descriptor d) ∷ xs) ys = joined-append j xs ys
joined-append j (releases (connection p) ∷ xs) ys = joined-append j xs ys

quiet :
    (j p : ℕ) (c : MtConnection) (acts : List Act)
    → joined j (
        (if is_negative c.fd then [] else releases (descriptor c.fd) ∷ [])
        ++ (releases (connection p) ∷ acts))
      ≡ joined j acts
quiet j p c acts = elim (Bool-cases (is_negative c.fd)) [ inl h ↦ rw h refl | inr h ↦ rw h refl ]

free_connections-frees :
    (heap : Heap) (ps : List ℕ)
    → distinct ps ≡ true
    → AllLive heap ps
    → (heap' : Heap) × (acts : List Act) × (free_connections heap ps ≡ some (heap', acts))
      × ((q : ℕ) → heap' q ≡ without_all heap ps q)
      × ((j : ℕ) → joined j acts ≡ 0)
unfolding free_connections
free_connections-frees heap [] d live = (heap, [], refl, (λ q. refl), λ j. refl)
free_connections-frees heap (p ∷ ps) d ((c, here), live) =
    let (heap', acts, runs, gone, none_joined) =
      free_connections-frees (update heap p none) ps (ground arith)
        (AllLive-update heap p ps (ground arith) live) in
    (
      heap',
      (if is_negative c.fd then [] else releases (descriptor c.fd) ∷ [])
          ++ (releases (connection p) ∷ acts),
      rw (here, runs, free_connections) refl,
      (λ q. gone q ∙ ground arith),
      λ j. quiet j p c acts ∙ none_joined j,
    )

mine-ne : (i j : ℕ) (o : Option MtConnection) → i ≢ j → mine i o ≡ true → mine j o ≡ false
mine-ne i j none ne h = refl
mine-ne i j (some c) ne h = ground arith

-- Freeing the connections of the worker `i` leaves the other workers' lists as they are.
freed-Lists :
    {i j : ℕ} {xs ys : List ℕ} {heap heap' : Heap}
    → Lists i xs heap
    → i ≢ j
    → ((q : ℕ) → heap' q ≡ without_all heap xs q)
    → Lists j ys heap
    → Lists j ys heap'
freed-Lists {i} {j} {xs} {ys} {heap} {heap'} own ne gone o = record {
  apart = o.apart;
  owned = λ q. elim (Bool-cases (has q xs)) [
    | inl h ↦
        let e : heap' q ≡ none = gone q ∙ rw h refl in
        let m : mine i (heap q) ≡ true = sym (own.owned q) ∙ h in
        o.owned q ∙ mine-ne i j (heap q) ne m ∙ sym (ap (mine j) e)
    | inr h ↦ let e : heap' q ≡ heap q = gone q ∙ rw h refl in o.owned q ∙ sym (ap (mine j) e)
  ];
  sound = λ q c e. ground (arith, gone q, o.sound q c);
}

freed-WorkersValid :
    {i : ℕ} {xs : List ℕ} {heap heap' : Heap} (k : ℕ) (ts : List WorkerContext)
    → Lists i xs heap
    → i < k
    → ((q : ℕ) → heap' q ≡ without_all heap xs q)
    → WorkersValid k ts heap
    → WorkersValid k ts heap'
freed-WorkersValid k [] own below gone v = tt
freed-WorkersValid k (t ∷ ts) own below gone (e, o, v) = (
  e,
  freed-Lists own (λ same. omega arith) gone o,
  freed-WorkersValid (suc k) ts own (omega arith) gone v,
)

abbrev pub has_any : ℕ → List WorkerContext → Bool
has_any q [] = false
has_any q (t ∷ ts) = has q t.connections || has_any q ts

stop_worker-frees :
    (heap : Heap) (i : ℕ) (t : WorkerContext)
    → Lists i t.connections heap
    → (t' : WorkerContext) × (heap' : Heap) × (acts : List Act) × (stop_worker heap i t
        ≡ some (t', heap', acts))
      × ((q : ℕ) → heap' q ≡ without_all heap t.connections q)
      × ((j : ℕ) → joined j acts ≡ (if not (t.thread == 0) && (i == j) then 1 else 0))
unfolding stop_worker
stop_worker-frees heap i t o =
    let live = AllLive-owned i heap t.connections (λ q h. sym (o.owned q) ∙ h) in
    let (heap', acts, runs, gone, none_joined) =
      free_connections-frees heap t.connections o.apart live in
    (
      stopped t,
      heap',
      shuts i t ++ acts,
      rw (runs, stop_worker) refl,
      gone,
      λ j. joined-append j (shuts i t) acts ∙ ground (arith, none_joined j),
    )

stop_workers-frees :
    (heap : Heap) (i : ℕ) (ts : List WorkerContext)
    → WorkersValid i ts heap
    → (heap' : Heap) × (acts : List Act) × (stop_workers heap i ts ≡ some (heap', acts))
      × ((q : ℕ) → heap' q ≡ (if has_any q ts then none else heap q))
      × ((j : ℕ) → joined j acts ≡ threads j i ts)
unfolding stop_workers
stop_workers-frees heap i [] v = (heap, [], refl, (λ q. refl), λ j. refl)
stop_workers-frees heap i (t ∷ ts) (ids, o, v) =
    let (t', heap', acts, runs, gone, joins) = stop_worker-frees heap i t o in
    let e : suc i ≡ i + 1 = omega arith in
    let v' : WorkersValid (i + 1) ts heap' =
      subst (λ k. WorkersValid k ts heap') e
        (freed-WorkersValid (suc i) ts o (omega arith) gone v) in
    let (heap'', more, ends, all_gone, rest) = stop_workers-frees heap' (i + 1) ts v' in
    (
      heap'',
      acts ++ more,
      rw (runs, ends, stop_workers) refl,
      (λ q. ground (arith, all_gone q, gone q)),
      λ j. omega (arith, joined-append j acts more, joins j, rest j),
    )

-- `shut_down` with the result of its loop.
abbrev finished :
    MtServer → List Act → Option (Heap × List Act) → Option (MtServer × Heap × List Act)
finished s first none = none
finished s first (some (heap', acts)) = some (halted s, heap', first ++ (acts ++ closing s))

quiet_start : (j : ℕ) (b : Bool) → joined j (when b (releases Resource.accept_thread)) ≡ 0
quiet_start j true = refl
quiet_start j false = refl

quiet_closing : (j : ℕ) (s : MtServer) → joined j (closing s) ≡ 0
quiet_closing j s = ground arith

-- What `mt_proactor_stop` does to a running server with the workers `ts`.
pub record Stopped (s : MtServer) (ts : List WorkerContext) (heap : Heap)
    (r : MtServer × Heap × List Act) : Type 0 where
  pub halted : r.0.running ≡ false
  pub freed : (q : ℕ) → r.1 q ≡ (if has_any q ts then none else heap q)
  pub joins : (j : ℕ) → joined j r.2 ≡ threads j 0 ts
  pub again : mt_proactor_stop r.1 r.0 ≡ some (r.0, r.1, [])

-- `mt_proactor_stop` on a running server whose workers hold their own connections: it reads no freed
-- memory, frees the connections of all workers and no other memory of the heap, and joins every worker
-- thread that has been started, once. A second call does nothing.
pub mt_proactor_stop-Stopped :
    (s : MtServer) (ts : List WorkerContext) (heap : Heap)
    → s.running ≡ true
    → s.workers ≡ some ts
    → WorkersValid 0 ts heap
    → (r : MtServer × Heap × List Act) × (mt_proactor_stop heap s ≡ some r) × Stopped s ts heap r
unfolding mt_proactor_stop shut_down
mt_proactor_stop-Stopped s ts heap runs has_workers v =
    let (heap', acts, ends, gone, joins) = stop_workers-frees heap 0 ts v in
    let first = when (not (s.accept_thread == 0)) (releases Resource.accept_thread) in
    let same : workers_of s ≡ ts = rw has_workers refl in
    let step : mt_proactor_stop heap s ≡ shut_down heap s = simp (runs, mt_proactor_stop) in
    let all : shut_down heap s ≡ some (halted s, heap', first ++ (acts ++ closing s)) =
      ap (finished s first) (ap (λ us. stop_workers heap 0 us) same ∙ ends) in
    (
      (halted s, heap', first ++ (acts ++ closing s)),
      step ∙ all,
      record {
        halted = refl;
        freed = gone;
        joins = λ j. omega (
          arith,
          joined-append j first (acts ++ closing s),
          joined-append j acts (closing s),
          quiet_start j (not (s.accept_thread == 0)),
          quiet_closing j s,
          joins j,
        );
        again = refl;
      },
    )
