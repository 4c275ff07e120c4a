-- ===== src/Proactor/Stopping.antt =====
-- What `proactor_stop` of codes/network/proactor/proactor.c gives back.
use hepeng_projects.Prelude.{
  ℕ, zero, suc, ◌+◌, ◌≡◌, ◌≢◌, refl, sym, ap, ◌∙◌, ap₂, Bool-cases, negsuc, ℤ, if◌then◌else◌, ◌==◌,
  true, false, List, [], ◌∷◌, ◌++◌, Option, none, some, arith, get_or, pos, Option-cases, inl, inr,
}
use hepeng_projects.Proactor.Connection.{Handler, Context, World, store, free_handler}
use hepeng_projects.Proactor.Ownership.{
  Attached, Owns, store_self, store_ne, some-injective, pos-injective, free-Attached,
}
use hepeng_projects.Proactor.Lifecycle.{
  joins, cancels, destroys_aio, closed, Clock, ends_in_time, Shutdown, closes, frees_connections,
  frees_threads, Server, Heaps, clean_connections, cleaned, cleanup_proactor_resources,
  proactor_stop, stop_thread, stop_workers,
}

-- Every context of an array whose first place is that of descriptor `n` is live, and has its handler.
abbrev Holds : ℕ → List (Option ℕ) → Heaps → Type 0
Holds n cs h =
    (i q : ℕ)
    → get_or cs i none ≡ some q
    → (c : Context) × (h.contexts q ≡ some c)
      × (c.fd ≡ pos (n + i))
      × Attached h.handlers q c.handler

-- The descriptors of the connections in such an array.
unfoldable pub connected : ℕ → List (Option ℕ) → List Shutdown
connected n [] = []
connected n (none ∷ cs) = connected (suc n) cs
connected n (some q ∷ cs) = closes (pos n) ∷ connected (suc n) cs

-- What the loop leaves of the heaps: nothing of the connections, and nothing new.
record Cleared (n : ℕ) (cs : List (Option ℕ)) (h h' : Heaps) : Type 0 where
  pub contexts_freed : (i q : ℕ) → get_or cs i none ≡ some q → h'.contexts q ≡ none
  pub handlers_freed :
      (i q k : ℕ) (c : Context)
      → get_or cs i none ≡ some q
      → h.contexts q ≡ some c
      → c.handler ≡ some k
      → h'.handlers k ≡ none
  pub contexts_kept : (q : ℕ) → h.contexts q ≡ none → h'.contexts q ≡ none
  pub handlers_kept : (k : ℕ) → h.handlers k ≡ none → h'.handlers k ≡ none

cleared_none {ℓ} : {A : Type ℓ} (f : ℕ → Option A) (p q : ℕ) → f q ≡ none → store f p none q ≡ none
cleared_none f p q e = ground arith

-- At what is equal to the place that was cleared.
store_other {ℓ} : {A : Type ℓ} (f : ℕ → Option A) {p q : ℕ} → p ≡ q → store f p none q ≡ none
store_other f {p} {q} e = ground arith

-- Freeing a handler leaves nothing of it, and nothing new.
free_handler-gone :
    (handlers : ℕ → Option Handler) (o : Option ℕ) (rest : ℕ → Option Handler)
    → free_handler handlers o ≡ some rest
    → ((k : ℕ) → o ≡ some k → rest k ≡ none) × ((k : ℕ) → handlers k ≡ none → rest k ≡ none)
free_handler-gone handlers none rest e =
    let same : handlers ≡ rest = some-injective e in
    ((λ k f. cc), (λ k f. sym (ap (λ s. s k) same) ∙ f))
free_handler-gone handlers (some j) rest e = elim (Option-cases (handlers j)) [
  | inl bad ↦ absurd (cc (bad, e))
  | inr (d, here) ↦
      let frees : free_handler handlers (some j) ≡ some (store handlers j none) =
        rw (here, free_handler) refl in
      let same : store handlers j none ≡ rest = some-injective (sym frees ∙ e) in
      (
        (λ k f. sym (ap (λ s. s k) same) ∙ store_other handlers (some-injective f)),
        (λ k f. sym (ap (λ s. s k) same) ∙ cleared_none handlers j k f),
      )
]

none-Holds : (n : ℕ) (cs : List (Option ℕ)) (h : Heaps) → Holds n (none ∷ cs) h → Holds (suc n) cs h
none-Holds n cs h holds i q e =
    let (c, here, own, a) = holds (suc i) q e in
    let fd : n + suc i ≡ suc n + i = omega arith in (c, here, own ∙ ap pos fd, a)

none-Cleared :
    (n : ℕ) (cs : List (Option ℕ)) (h : Heaps) {h' : Heaps}
    → Cleared (suc n) cs h h'
    → Cleared n (none ∷ cs) h h'
none-Cleared n cs h {h'} r = record {
  contexts_freed = contexts_freed;
  handlers_freed = handlers_freed;
  contexts_kept = r.contexts_kept;
  handlers_kept = r.handlers_kept;
}
  where
    contexts_freed : (i q : ℕ) → get_or (none ∷ cs) i none ≡ some q → h'.contexts q ≡ none
    contexts_freed zero q e = absurd (cc e)
    contexts_freed (suc i) q e = r.contexts_freed i q e

    handlers_freed :
        (i q k : ℕ) (c : Context)
        → get_or (none ∷ cs) i none ≡ some q
        → h.contexts q ≡ some c
        → c.handler ≡ some k
        → h'.handlers k ≡ none
    handlers_freed zero q k c e = absurd (cc e)
    handlers_freed (suc i) q k c e = r.handlers_freed i q k c e

-- The heaps once the connection at `q` is freed, `rest` being the handlers.
abbrev without : Heaps → ℕ → (ℕ → Option Handler) → Heaps
without h q rest = record { contexts = store h.contexts q none; handlers = rest }

module _ (n : ℕ) (cs : List (Option ℕ)) (h : Heaps) {q : ℕ} (holds : Holds n (some q ∷ cs) h)
    (rest : ℕ → Option Handler) where
  others : (i p : ℕ) → get_or cs i none ≡ some p → q ≢ p
  others i p e same =
      let (c, at, own, _) = holds 0 q refl in
      let (d, there, own', _) = holds (suc i) p e in
      let one : c ≡ d = some-injective (sym at ∙ (ap h.contexts same ∙ there)) in
      let fds : n + 0 ≡ n + suc i =
        pos-injective (sym own ∙ (ap (λ (x : Context). x.fd) one ∙ own')) in
      absurd (omega arith)

  rest-Holds :
      ((p : ℕ) (o : Option ℕ) → q ≢ p → Attached h.handlers p o → Attached rest p o)
      → Holds (suc n) cs (without h q rest)
  rest-Holds kept i p e =
      let (d, there, own, a) = holds (suc i) p e in
      let ne = others i p e in
      let fd : n + suc i ≡ suc n + i = omega arith in
      (d, store_ne h.contexts none ne ∙ there, own ∙ ap pos fd, kept p d.handler ne a)

  rest-Cleared :
      {c : Context} {h' : Heaps}
      → h.contexts q ≡ some c
      → free_handler h.handlers c.handler ≡ some rest
      → Cleared (suc n) cs (without h q rest) h'
      → Cleared n (some q ∷ cs) h h'
  rest-Cleared {c} {h'} here frees r =
      let (gone, none_new) = free_handler-gone h.handlers c.handler rest frees in
      record {
        contexts_freed = contexts_freed;
        handlers_freed = handlers_freed gone;
        contexts_kept = λ p e. r.contexts_kept p (cleared_none h.contexts q p e);
        handlers_kept = λ k e. r.handlers_kept k (none_new k e);
      }
    where
      contexts_freed : (i p : ℕ) → get_or (some q ∷ cs) i none ≡ some p → h'.contexts p ≡ none
      contexts_freed zero p e =
          r.contexts_kept p (rw (sym (some-injective e)) (store_self h.contexts q none))
      contexts_freed (suc i) p e = r.contexts_freed i p e

      handlers_freed :
          ((k : ℕ) → c.handler ≡ some k → rest k ≡ none)
          → (i p k : ℕ) (d : Context) → get_or (some q ∷ cs) i none ≡ some p
          → h.contexts p ≡ some d
          → d.handler ≡ some k
          → h'.handlers k ≡ none
      handlers_freed gone zero p k d e at has =
          let same : c ≡ d = some-injective (sym here ∙ (ap h.contexts (some-injective e) ∙ at)) in
          r.handlers_kept k (gone k (ap (λ (x : Context). x.handler) same ∙ has))
      handlers_freed gone (suc i) p k d e at has =
          r.handlers_freed i p k d e (store_ne h.contexts none (others i p e) ∙ at) has

clean_connections_lem :
    (n : ℕ) (cs : List (Option ℕ)) (h : Heaps)
    → Holds n cs h
    → (h' : Heaps) × (clean_connections n cs h ≡ some (h', connected n cs)) × Cleared n cs h h'
unfolding clean_connections connected
clean_connections_lem n [] h holds = (
  h,
  refl,
  record {
    contexts_freed = λ i q e. absurd (cc e);
    handlers_freed = λ i q k c e. absurd (cc e);
    contexts_kept = λ q e. e;
    handlers_kept = λ k e. e;
  },
)
clean_connections_lem n (none ∷ cs) h holds =
    let (h', runs, r) = clean_connections_lem (suc n) cs h (none-Holds n cs h holds) in
    (h', runs, none-Cleared n cs h r)
clean_connections_lem n (some q ∷ cs) h holds =
    let (c, here, own, a) = holds 0 q refl in
    let (rest, frees, kept) = free-Attached h.handlers q c.handler a in
    let (h', runs, r) =
      clean_connections_lem (suc n) cs (without h q rest) (rest-Holds n cs h holds rest kept) in
    (
      h',
      rw (here, frees, runs, clean_connections) refl,
      rest-Cleared n cs h holds rest here frees r,
    )

-- The heaps of a world as those of a server.
abbrev pub world : Heaps → Server → World
world h s = record { proactor = s.core; contexts = h.contexts; handlers = h.handlers; log = [] }

-- What is to be done with threads: a number 0 names none, a thread that ends in time is joined, and
-- another is cancelled.
abbrev pub thread_ends : Clock → List ℕ → List Shutdown
thread_ends clock [] = []
thread_ends clock (zero ∷ ts) = thread_ends clock ts
thread_ends clock (suc t ∷ ts) =
    (if ends_in_time clock (suc t) then joins (suc t) else cancels (suc t)) ∷ thread_ends clock ts

-- What is to be done with descriptors: those that are open, which are not negative, are closed.
abbrev pub descriptor_ends : List ℤ → List Shutdown
descriptor_ends [] = []
descriptor_ends (pos n ∷ fds) = closes (pos n) ∷ descriptor_ends fds
descriptor_ends (negsuc n ∷ fds) = descriptor_ends fds

-- All that is to be given back before the connections.
abbrev pub ends_first : Clock → Server → List Shutdown → List Shutdown
ends_first clock s rest =
    thread_ends clock (s.dispatcher_thread ∷ s.worker_threads)
    ++ ((descriptor_ends (s.core.epoll_fd ∷ s.core.exit_event_fd ∷ s.listen_fd ∷ [])
          ++ (if s.aio_ctx then destroys_aio ∷ [] else []))
        ++ rest)

stop_workers-thread_ends :
    (clock : Clock) (ts : List ℕ) → stop_workers (ends_in_time clock) ts ≡ thread_ends clock ts
unfolding stop_workers stop_thread
stop_workers-thread_ends clock [] = refl
stop_workers-thread_ends clock (zero ∷ ts) = stop_workers-thread_ends clock ts
stop_workers-thread_ends clock (suc t ∷ ts) =
    let named : (suc t == 0) ≡ false = ground arith in
    elim (Bool-cases (ends_in_time clock (suc t))) [
      | inl h ↦ rw (named, h) (ap (λ l. joins (suc t) ∷ l) (stop_workers-thread_ends clock ts))
      | inr h ↦ rw (named, h) (ap (λ l. cancels (suc t) ∷ l) (stop_workers-thread_ends clock ts))
    ]

cleanup-descriptor_ends :
    (e x l : ℤ) (rest : List Shutdown)
    → closed e ++ (closed x ++ (closed l ++ rest)) ≡ descriptor_ends (e ∷ x ∷ l ∷ []) ++ rest
cleanup-descriptor_ends (pos e) (pos x) (pos l) rest = refl
cleanup-descriptor_ends (pos e) (pos x) (negsuc l) rest = refl
cleanup-descriptor_ends (pos e) (negsuc x) (pos l) rest = refl
cleanup-descriptor_ends (pos e) (negsuc x) (negsuc l) rest = refl
cleanup-descriptor_ends (negsuc e) (pos x) (pos l) rest = refl
cleanup-descriptor_ends (negsuc e) (pos x) (negsuc l) rest = refl
cleanup-descriptor_ends (negsuc e) (negsuc x) (pos l) rest = refl
cleanup-descriptor_ends (negsuc e) (negsuc x) (negsuc l) rest = refl

-- What stopping a running server leaves, and what it gives back, in order.
pub record Stopped (clock : Clock) (h : Heaps) (s s' : Server) (h' : Heaps) (acts : List Shutdown)
    : Type 0 where
  pub contexts_freed : (n q : ℕ) → get_or s.core.connections n none ≡ some q → h'.contexts q ≡ none
  pub handlers_freed :
      (n q k : ℕ) (c : Context)
      → get_or s.core.connections n none ≡ some q
      → h.contexts q ≡ some c
      → c.handler ≡ some k
      → h'.handlers k ≡ none
  pub logged :
      acts
      ≡ ends_first clock s
          (connected 0 s.core.connections ++ (frees_connections ∷ frees_threads ∷ []))
  pub arrays : (s'.core.connections ≡ []) × (s'.worker_threads ≡ [])
  pub again : (clock' : Clock) → proactor_stop clock' h' s' ≡ some (s', h', [])

pub proactor_stop-Stopped :
    (clock : Clock) {h : Heaps} {s : Server}
    → s.core.running ≡ true
    → Owns (world h s)
    → (s' : Server) × (h' : Heaps) × (acts : List Shutdown) × (proactor_stop clock h s
        ≡ some (s', h', acts))
      × Stopped clock h s s' h' acts
unfolding proactor_stop cleanup_proactor_resources stop_workers
proactor_stop-Stopped clock {h} {s} runs o =
    let (h', cleans, r) = clean_connections_lem 0 s.core.connections h holds in
    let s' : Server = cleaned (record s { core = record s.core { running = false } }) in
    (
      s',
      h',
      _,
      rw (runs, cleans, proactor_stop, cleanup_proactor_resources) refl,
      record {
        contexts_freed = r.contexts_freed;
        handlers_freed = r.handlers_freed;
        logged =
            ap₂
              (λ ts fds.
                ts
                ++ (fds
                    ++ (connected 0 s.core.connections
                        ++ (frees_connections ∷ frees_threads ∷ []))))
              (stop_workers-thread_ends clock (s.dispatcher_thread ∷ s.worker_threads))
              (cleanup-descriptor_ends s.core.epoll_fd s.core.exit_event_fd s.listen_fd
                (if s.aio_ctx then destroys_aio ∷ [] else []));
        arrays = (refl, refl);
        again = λ clock'. refl;
      },
    )
  where
    holds : Holds 0 s.core.connections h
    holds i q e =
        let (c, here, own, a) = o.live i q e in
        let fd : i ≡ 0 + i = omega arith in (c, here, own ∙ ap pos fd, a)

-- Without contexts there are no connections to close.
pub connected-empty :
    (n : ℕ) (cs : List (Option ℕ)) → ((i q : ℕ) → get_or cs i none ≢ some q) → connected n cs ≡ []
unfolding connected
connected-empty n [] empty = refl
connected-empty n (none ∷ cs) empty = connected-empty (suc n) cs (λ i q. empty (suc i) q)
connected-empty n (some q ∷ cs) empty = absurd (empty 0 q refl)
