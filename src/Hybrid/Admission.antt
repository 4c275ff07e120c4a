-- ===== src/Hybrid/Admission.antt =====
-- New connections in codes/network/proactor_epoll/hybrid_proactor.c: a round of the accept
-- thread, for all workers.
use hepeng_projects.Prelude.{
  ℕ, zero, suc, ◌+◌, ◌%◌, ◌<◌, ◌≡◌, ◌≢◌, refl, sym, ap, subst, ◌∙◌, Bool, true, false, List, [],
  ◌∷◌, Option, none, some, arith, length, add64, ◌==◌, inl, inr, Option-cases, Bool-cases,
}
use hepeng_projects.Prelude.Kernel.{Accept, connected, accept_failed, again, other}
use hepeng_projects.Hybrid.Connection.{WorkerContext, Call, Heap, World}
use hepeng_projects.Hybrid.Accept.{
  System, Arrival, admit, at_worker, turned, shut_client, hand_over, go_on, accept_round,
}
use hepeng_projects.Hybrid.Ownership.{mine, Lists}
use hepeng_projects.Hybrid.Keeping.{Lawful}
use hepeng_projects.Hybrid.Newcomer.{frame-Lists, admit-Admitted}

-- The workers from number `i` on: each has its number and its list.
abbrev pub WorkersValid : ℕ → List WorkerContext → Heap → Type 0
WorkersValid i [] heap = Unit
WorkersValid i (t ∷ ts) heap =
    (t.id ≡ i) × Lists i t.connections heap × WorkersValid (suc i) ts heap

-- As many workers as `num_workers` says, at least one, each with a list of its own connections, and a
-- turn that is a worker's number.
pub record IsValid (s : System) : Type 0 where
  pub sized : length s.proactor.workers ≡ s.proactor.num_workers
  pub turn : s.proactor.next_worker < s.proactor.num_workers
  pub workers : WorkersValid 0 s.proactor.workers s.heap

-- A fresh address belongs to no worker; the workers other than `i` keep their lists.
frame-WorkersValid :
    {i : ℕ} {xs : List ℕ} {heap heap' : Heap} (p k : ℕ) (ts : List WorkerContext)
    → Lists i xs heap'
    → ((q : ℕ) → (p == q) ≡ false → heap' q ≡ heap q)
    → heap p ≡ none
    → ((j : ℕ) → i ≢ j → mine j (heap' p) ≡ false)
    → i < k
    → WorkersValid k ts heap
    → WorkersValid k ts heap'
frame-WorkersValid p k [] own others fresh alien below v = tt
frame-WorkersValid {i} p k (t ∷ ts) own others fresh alien below (e, o, v) = (
  e,
  frame-Lists p own o others (ap (mine k) fresh) (alien k (λ same. omega arith)),
  frame-WorkersValid p (suc k) ts own others fresh alien (omega arith) v,
)

-- What admitting a connection of the worker `i` at `p` does to the array from number `k` on.
record AdmittedIn (i p k : ℕ) (ts : List WorkerContext) (heap : Heap) (ts' : List WorkerContext)
    (heap' : Heap) : Type 0 where
  list : List ℕ
  owns : Lists i list heap'
  others : (q : ℕ) → (p == q) ≡ false → heap' q ≡ heap q
  alien : (j : ℕ) → i ≢ j → mine j (heap' p) ≡ false
  valid : WorkersValid k ts' heap'
  size : length ts' ≡ length ts

module _ (a : Arrival) (lawful : Lawful a.kernel) (adds : a.added ≡ true) (fd p : ℕ) {heap : Heap}
    (log : List Call) (fresh : heap p ≡ none) where
  at_worker-AdmittedIn :
      (m k i : ℕ) (ts : List WorkerContext)
      → i ≡ k + m
      → m < length ts
      → WorkersValid k ts heap
      → (ts' : List WorkerContext) × (heap' : Heap) × (log' : List Call) × (at_worker m ts
            (λ t. admit a i (record { worker = t; heap = heap; log = log }) fd p)
          ≡ some (ts', heap', log'))
        × AdmittedIn i p k ts heap ts' heap'
  unfolding at_worker
  at_worker-AdmittedIn m k i [] e h v = absurd (omega arith)
  at_worker-AdmittedIn zero k i (t ∷ ts) e h (ids, o, v) =
      let same : k ≡ i = omega arith in
      let w : World = record { worker = t; heap = heap; log = log } in
      let (w', runs, d) =
        admit-Admitted a lawful adds {i = i} w fd p (ids ∙ same)
          (subst (λ j. Lists j t.connections heap) same o) fresh in
      (
        w'.worker ∷ ts,
        w'.heap,
        w'.log,
        rw (runs, at_worker) refl,
        record {
          list = w'.worker.connections;
          owns = d.owns;
          others = d.others;
          alien = d.alien;
          valid = (
            d.id ∙ ids,
            subst (λ j. Lists j w'.worker.connections w'.heap) (sym same) d.owns,
            frame-WorkersValid p (suc k) ts d.owns d.others fresh d.alien (omega arith) v,
          );
          size = refl;
        },
      )
  at_worker-AdmittedIn (suc m) k i (t ∷ ts) e h (ids, o, v) =
      let (ts', heap', log', runs, d) =
        at_worker-AdmittedIn m (suc k) i ts (omega arith) (omega arith) v in
      (
        t ∷ ts',
        heap',
        log',
        rw (runs, at_worker) refl,
        record {
          list = d.list;
          owns = d.owns;
          others = d.others;
          alien = d.alien;
          valid = (
            ids,
            frame-Lists p d.owns o d.others (ap (mine k) fresh) (d.alien k (λ same. omega arith)),
            d.valid,
          );
          size = ap suc d.size;
        },
      )

-- `malloc` gives memory that is not in use.
abbrev pub Allocates : Arrival → Type 0
Allocates a = (heap : Heap) (p : ℕ) → a.memory heap ≡ some p → heap p ≡ none

-- A round of the accept thread in a valid system, where `epoll_ctl` does not fail: it uses no freed
-- memory, and the system stays valid: each worker's list holds its own live connections, each once, and
-- the turn is a worker's.
pub accept_round-IsValid :
    (a : Arrival) (s : System)
    → Lawful a.kernel
    → Allocates a
    → a.added ≡ true
    → IsValid s
    → (b : Bool) × (s' : System) × (accept_round a s ≡ some (b, s')) × IsValid s'
unfolding accept_round hand_over
accept_round-IsValid a s lawful fresh adds v = go a.result refl
  where
    Good : Option (Bool × System) → Type 0
    Good r = (b : Bool) × (s' : System) × (r ≡ some (b, s')) × IsValid s'

    next : (s.proactor.next_worker + 1) % s.proactor.num_workers < s.proactor.num_workers
    next = grind (arith, v.turn)

    refused : ℕ → System
    refused fd = shut_client (record s { proactor = turned s.proactor }) fd

    closed : (fd : ℕ) → IsValid (shut_client s fd)
    closed fd = record { sized = v.sized; turn = v.turn; workers = v.workers }

    handed : (fd : ℕ) → (s' : System) × (hand_over a s fd ≡ some s') × IsValid s'
    handed fd = elim (Option-cases (a.memory s.heap)) [
      | inl no_memory ↦ (
        refused fd,
        rw (no_memory, hand_over) refl,
        record { sized = v.sized; turn = next; workers = v.workers },
      )
      | inr (p, got) ↦
          let (ts', heap', log', runs, d) =
            at_worker-AdmittedIn a lawful adds fd p s.log (fresh s.heap p got)
              s.proactor.next_worker 0 s.proactor.next_worker s.proactor.workers (omega arith)
              (omega (arith, v.turn, v.sized)) v.workers in
          let s' : System = record {
            proactor = record (turned s.proactor) {
              workers = ts';
              total_connections = add64 s.proactor.total_connections 1;
            };
            heap = heap';
            log = log';
          } in
          (
            s',
            rw (got, runs, hand_over) refl,
            record { sized = d.size ∙ v.sized; turn = next; workers = d.valid },
          )
    ]

    go : (r : Accept) → a.result ≡ r → Good (accept_round a s)
    go (accept_failed again) e = (true, s, rw (e, accept_round) refl, v)
    go (accept_failed other) e = (false, s, rw (e, accept_round) refl, v)
    go (connected fd) e = elim (Bool-cases a.graceful_shutdown) [
      | inl h ↦ (false, shut_client s fd, rw (e, h, accept_round) refl, closed fd)
      | inr h ↦ elim (Bool-cases a.nonblock) [
        | inr k ↦ (true, shut_client s fd, rw (e, h, k, accept_round) refl, closed fd)
        | inl k ↦
            let (s', runs, v') = handed fd in
            let step : accept_round a s ≡ go_on (hand_over a s fd) = simp (e, h, k, accept_round) in
            (true, s', step ∙ ap go_on runs, v')
      ]
    ]
