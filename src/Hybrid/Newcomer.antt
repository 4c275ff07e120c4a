-- ===== src/Hybrid/Newcomer.antt =====
-- What a new connection changes for its worker and for the others in
-- codes/network/proactor_epoll/hybrid_proactor.c.
use hepeng_projects.Prelude.{
  ℕ, ◌≡◌, ◌≢◌, refl, sym, ap, subst, ◌∙◌, true, false, List, [], ◌∷◌, ◌++◌, none, some, arith,
  length, length-replicate, ◌==◌, pos, inl, inr, Bool-cases,
}
use hepeng_projects.Prelude.Memory.{read_at, length-write_at}
use hepeng_projects.Hybrid.Connection.{
  mt_buffer_size, MtConnection, WorkerContext, epoll_add, Heap, World, update, put, mt_zero_bytes,
  mt_create_connection, mt_add_connection_to_worker,
}
use hepeng_projects.Hybrid.Accept.{welcome, greeted, mt_send_welcome_message, Arrival, admit}
use hepeng_projects.Hybrid.Ownership.{mine, IsSound, Lists, Owns}
use hepeng_projects.Hybrid.Keeping.{Lawful, put-KeptIn, update_self}
use hepeng_projects.Hybrid.Writing.{mt_try_write-Written}

length-mt_zero_bytes : length mt_zero_bytes ≡ mt_buffer_size
unfolding mt_zero_bytes
length-mt_zero_bytes = length-replicate {A = ℕ} mt_buffer_size 0

new-IsSound : (fd id now : ℕ) → IsSound (mt_create_connection fd id now)
unfolding mt_create_connection
new-IsSound fd id now = record {
  open_fd = refl;
  staying = refl;
  read_room = length-mt_zero_bytes;
  write_room = length-mt_zero_bytes;
  pending_in = omega arith;
}

greeted-IsSound : (c : MtConnection) → IsSound c → IsSound (greeted c)
unfolding greeted
greeted-IsSound c s = record {
  open_fd = s.open_fd;
  staying = s.staying;
  read_room = s.read_room;
  write_room =
      omega
        (arith, length-write_at c.write_buf 0 (read_at 0 welcome 0 (length welcome)), s.write_room);
  pending_in = omega arith;
}

-- A fresh connection at the head of the list.
added-Lists :
    {id : ℕ} {list : List ℕ} {heap : Heap} (p : ℕ) (c : MtConnection)
    → Lists id list heap
    → heap p ≡ none
    → IsSound c
    → c.worker_id ≡ id
    → Lists id (p ∷ list) (update heap p (some c))
added-Lists {id} {list} {heap} p c o fresh s own = record {
  apart = ground (arith, o.owned p, o.apart);
  owned = λ q. ground (arith, o.owned q, o.owned p);
  sound = λ q d e. ground (arith, o.sound q d);
}

-- A change at `p` alone does not concern the workers that `p` does not belong to.
pub frame-Lists :
    {i j : ℕ} {xs ys : List ℕ} {heap heap' : Heap} (p : ℕ)
    → Lists i xs heap'
    → Lists j ys heap
    → ((q : ℕ) → (p == q) ≡ false → heap' q ≡ heap q)
    → mine j (heap p) ≡ false
    → mine j (heap' p) ≡ false
    → Lists j ys heap'
frame-Lists {j = j} {ys = ys} {heap = heap} {heap' = heap'} p own o others before now = record {
  apart = o.apart;
  owned = λ q. elim (Bool-cases (p == q)) [
    | inr ne ↦ o.owned q ∙ ap (mine j) (sym (others q ne))
    | inl eq ↦ let same : p ≡ q = ground arith in cc (o.owned q, before, now, same)
  ];
  sound = own.sound;
}

-- What admitting a connection of the worker `i` at `p` does.
pub record Admitted (i p : ℕ) (w : World) (w' : World) : Type 0 where
  pub owns : Lists i w'.worker.connections w'.heap
  pub id : w'.worker.id ≡ w.worker.id
  pub others : (q : ℕ) → (p == q) ≡ false → w'.heap q ≡ w.heap q
  pub alien : (j : ℕ) → i ≢ j → mine j (w'.heap p) ≡ false

alien-some : (i j : ℕ) (c : MtConnection) → c.worker_id ≡ i → i ≢ j → mine j (some c) ≡ false
alien-some i j c own ne = ground arith

module _ (a : Arrival) (lawful : Lawful a.kernel) (adds : a.added ≡ true) where
  pub admit-Admitted :
      {i : ℕ} (w : World) (fd p : ℕ)
      → w.worker.id ≡ i
      → Lists i w.worker.connections w.heap
      → w.heap p ≡ none
      → (w' : World) × (admit a i w fd p ≡ some w') × Admitted i p w w'
  unfolding admit mt_create_connection mt_add_connection_to_worker mt_send_welcome_message greeted
  admit-Admitted {i} w fd p ids o fresh =
      let c = mt_create_connection fd i a.now in
      let d = greeted c in
      let v : World = record {
        worker = record w.worker { connections = p ∷ w.worker.connections };
        heap = update w.heap p (some c);
        log = w.log ++ (epoll_add (pos fd) ∷ []);
      } in
      let ov : Lists i (p ∷ w.worker.connections) v.heap =
        added-Lists p c o fresh (new-IsSound fd i a.now) refl in
      let self = update_self w.heap p (some c) in
      let first = put-KeptIn p ov self d (greeted-IsSound c (new-IsSound fd i a.now)) refl in
      let u : World = put v p d in
      let ou : Owns u = rw ids first.owns in
      let (w', e, r) =
        mt_try_write-Written a.kernel {w = u} p ou (update_self v.heap p (some d)) (sym ids)
          (lawful.1 (length welcome)) in
      let joins : mt_add_connection_to_worker a.added (put w p c) p ≡ some v =
        simp (self, adds, mt_add_connection_to_worker) in
      let greets : mt_send_welcome_message a.kernel v p ≡ some w' =
        rw (self, mt_send_welcome_message) e in
      (
        w',
        rw (joins, greets, admit) refl,
        elim r [
          | inl (c', t) ↦ record {
            owns = subst (λ k. Lists k w'.worker.connections w'.heap) (t.kept.id ∙ ids) t.kept.owns;
            id = t.kept.id;
            others = λ q ne. t.kept.others q ne ∙ ground arith;
            alien = λ j ne. ap (mine j) t.kept.here ∙ alien-some i j c' t.kept.own ne;
          }
          | inr (b, t) ↦ record {
            owns =
                subst (λ k. Lists k w'.worker.connections w'.heap)
                  (ap (λ (x : WorkerContext). x.id) t.same ∙ ids) t.owns;
            id = ap (λ (x : WorkerContext). x.id) t.same;
            others = λ q ne. t.freed q ∙ ground arith;
            alien = λ j ne. let gone : w'.heap p ≡ none = t.freed p ∙ ground arith in rw gone refl;
          }
        ],
      )
