-- ===== src/Hybrid/Ending.antt =====
-- How main of codes/network/proactor_epoll/efficient_hybrid_server.c ends.
use hepeng_projects.Prelude.{
  ℕ, zero, suc, ◌+◌, ◌≡◌, refl, sym, ap, ◌∙◌, Bool, true, false, not, List, [], ◌∷◌, ◌++◌,
  append-nil, Option, none, some, arith, replicate, ◌==◌, pos, Bool-cases, inl, inr, Option-cases,
  ◌||◌, ltb,
}
use hepeng_projects.Prelude.Sockets.{SocketCall}
use hepeng_projects.Hybrid.Connection.{WorkerContext, Heap}
use hepeng_projects.Hybrid.Server.{create_server_socket}
use hepeng_projects.Hybrid.Lifecycle.{
  Resource, max_worker_threads, worker_thread, epoll, Act, releases, MtServer, when, zeroed_worker,
  new_server, workers_of, free_connections, stop_worker, stop_workers, shut_down, mt_proactor_init,
  mt_proactor_start, mt_proactor_stop, parse_arguments,
}
use hepeng_projects.Hybrid.Admission.{WorkersValid}
use hepeng_projects.Hybrid.Shutdown.{joined, joined-append, threads, mt_proactor_stop-Stopped}
use hepeng_projects.Hybrid.Main.{
  MainGrants, Outcome, returns, no_connections, join_workers, stop_at_end, wait_for_threads,
  after_start, after_listen, after_init, main,
}

some-injective {ℓ} : {A : Type ℓ} {a b : A} → some a ≡ some b → a ≡ b
some-injective e = cc

-- The descriptor 0, once for each of `n` workers from number `i` on.
unfoldable pub epolls : ℕ → ℕ → List Act
epolls i zero = []
epolls i (suc n) = releases (epoll i (pos 0)) ∷ epolls (i + 1) n

stop_workers-zeroed :
    (heap : Heap) (i n : ℕ)
    → stop_workers heap i (replicate n zeroed_worker) ≡ some (heap, epolls i n)
unfolding stop_workers stop_worker free_connections epolls
stop_workers-zeroed heap i zero = refl
stop_workers-zeroed heap i (suc n) = rw (stop_workers-zeroed heap (i + 1) n, stop_workers) refl

mt_proactor_init-new :
    (memory : Bool) (eventfd : Option ℕ) (n : ℕ) {s : MtServer} {inits : List Act}
    → mt_proactor_init memory eventfd (pos n) ≡ (some s, inits)
    → (fd : ℕ) × (s ≡ new_server n fd)
unfolding mt_proactor_init
mt_proactor_init-new memory eventfd n {s} {inits} e = go memory eventfd e
  where
    go :
        (m : Bool) (o : Option ℕ)
        → mt_proactor_init m o (pos n) ≡ (some s, inits)
        → (fd : ℕ) × (s ≡ new_server n fd)
    go m o e = elim (Bool-cases ((n == 0) || ltb max_worker_threads n)) [
      | inl h ↦
          let r : mt_proactor_init m o (pos n) ≡ (none, []) = rw (h, mt_proactor_init) refl in
          absurd (cc (r, e))
      | inr h ↦ elim (Bool-cases m) [
        | inr k ↦
            let r : mt_proactor_init m o (pos n) ≡ (none, []) = rw (h, k, mt_proactor_init) refl in
            absurd (cc (r, e))
        | inl k ↦ elim (Option-cases o) [
          | inl l ↦
              let r : (mt_proactor_init m o (pos n)).0 ≡ none =
                rw (h, k, l, mt_proactor_init) refl in
              absurd (cc (r, ap (λ x. x.0) e))
          | inr (fd, l) ↦
              let r : (mt_proactor_init m o (pos n)).0 ≡ some (new_server n fd) =
                rw (h, k, l, mt_proactor_init) refl in
              (fd, some-injective (sym (ap (λ x. x.0) e) ∙ r))
        ]
      ]
    ]

join_workers-joined :
    (j i : ℕ) (ts : List WorkerContext) → joined j (join_workers i ts) ≡ threads j i ts
unfolding join_workers
join_workers-joined j i [] = refl
join_workers-joined j i (t ∷ ts) = ground (
  arith,
  joined-append j (when (not (t.thread == 0)) (releases (worker_thread i)))
      (join_workers (i + 1) ts),
  join_workers-joined j (i + 1) ts,
)

-- If the listening socket cannot be had, main returns 1 after a stop that closes descriptor 0, once for
-- each worker, as that worker's epoll descriptor, although no worker has opened one. The exit event and
-- the array of workers are given back.
pub main-closes_unopened :
    (g : MainGrants) (life : MtServer → Option (MtServer × Heap)) {n port : ℕ} {s : MtServer}
    {inits : List Act} {calls : List SocketCall}
    → parse_arguments g.workers g.port ≡ some (n, port)
    → mt_proactor_init g.memory g.eventfd (pos n) ≡ (some s, inits)
    → create_server_socket g.sockets port ≡ (none, calls)
    → main g life
      ≡ returns 1
          (inits
            ++ (epolls 0 n ++ (releases Resource.exit_event ∷ releases Resource.worker_array ∷ [])))
          calls
unfolding main after_init after_listen stop_at_end mt_proactor_stop shut_down
main-closes_unopened g life {n} {port} {s} {inits} {calls} parses starts fails =
    let (fd, new) = mt_proactor_init-new g.memory g.eventfd n starts in
    let starts' : mt_proactor_init g.memory g.eventfd (pos n) ≡ (some (new_server n fd), inits) =
      starts ∙ ap (λ x. (some x, inits)) new in
    rw
      (
        parses,
        main,
        starts',
        after_init,
        fails,
        after_listen,
        stop_at_end,
        mt_proactor_stop,
        shut_down,
        stop_workers-zeroed no_connections 0 n,
      )
      refl

-- What main has done when all threads have ended.
abbrev pub Ended : MtServer → Heap → Outcome → List Act → List SocketCall → Type 0
Ended s heap o acts calls =
    (s.running ≡ false → o ≡ returns 0 acts calls)
    × ((ts : List WorkerContext)
        → s.running ≡ true
        → s.workers ≡ some ts
        → WorkersValid 0 ts heap
        → (more : List Act) × (o ≡ returns 0 (acts ++ more) calls)
          × ((j : ℕ) → joined j more ≡ threads j 0 ts))

-- main once its threads have ended.
stop_at_end-Ended :
    (acts : List Act) (calls : List SocketCall) (s : MtServer) (heap : Heap)
    → Ended s heap (stop_at_end 0 acts calls heap s) acts calls
unfolding stop_at_end mt_proactor_stop
stop_at_end-Ended acts calls s heap = (
  (λ e. rw (e, stop_at_end, mt_proactor_stop, append-nil acts) refl),
  λ ts runs has_workers valid.
      let (r, stops, done) = mt_proactor_stop-Stopped s ts heap runs has_workers valid in
      (r.2, rw (stops, stop_at_end) refl, done.joins),
)

-- main with a started server whose threads all end: it joins the accept thread, and every worker thread
-- once. If `running` is 0 by then, as the signal handler leaves it, nothing else is given back: no
-- connection, no descriptor, no array. If it is not, and the workers hold their own connections,
-- `mt_proactor_stop` joins every worker thread again.
pub main-Ended :
    (g : MainGrants) (life : MtServer → Option (MtServer × Heap)) {n port fd : ℕ}
    {s s' s'' : MtServer} {inits acts : List Act} {calls : List SocketCall} {heap heap' : Heap}
    → parse_arguments g.workers g.port ≡ some (n, port)
    → mt_proactor_init g.memory g.eventfd (pos n) ≡ (some s, inits)
    → create_server_socket g.sockets port ≡ (some fd, calls)
    → mt_proactor_start g.threads no_connections (record s { listen_fd = pos fd })
      ≡ some (true, s', heap, acts)
    → life s' ≡ some (s'', heap')
    → (let joins : List Act = releases Resource.accept_thread ∷ join_workers 0 (workers_of s'') in
        Ended s'' heap' (main g life) ((inits ++ acts) ++ joins) calls
        × ((j : ℕ) → joined j joins ≡ threads j 0 (workers_of s'')))
unfolding main after_init after_listen after_start wait_for_threads
main-Ended g life {s'' = s''} {inits = inits} {acts = acts} {calls = calls} {heap' = heap'} parses
      starts listens runs ends =
    let joins : List Act = releases Resource.accept_thread ∷ join_workers 0 (workers_of s'') in
    (
      rw
          (
            parses, main, starts, after_init, listens, after_listen, runs, after_start, ends,
            wait_for_threads,
          )
          (stop_at_end-Ended ((inits ++ acts) ++ joins) calls s'' heap'),
      λ j. join_workers-joined j 0 (workers_of s''),
    )
