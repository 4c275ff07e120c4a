-- ===== src/Hybrid/Ownership.antt =====
-- Which connections of codes/network/proactor_epoll/hybrid_proactor.c are live: those of a worker are
-- the ones in its list, each once. Adding and removing connections keep this.
use hepeng_projects.Prelude.{
  ℕ, ◌<◌, ◌≡◌, refl, Bool, true, false, ◌&&◌, ◌||◌, not, List, [], ◌∷◌, ◌++◌, Option, none, some,
  arith, length, ◌==◌, if◌then◌else◌, negsuc, is_negative, inl, inr, Bool-cases,
}
use hepeng_projects.Hybrid.Connection.{
  mt_buffer_size, MtConnection, epoll_del, closes, Heap, World, update, unlink, shut,
  mt_remove_connection_safe,
}

abbrev pub has : ℕ → List ℕ → Bool
has p [] = false
has p (q ∷ qs) = (q == p) || has p qs

abbrev pub distinct : List ℕ → Bool
distinct [] = true
distinct (q ∷ qs) = not (has q qs) && distinct qs

-- The list without `p`.
abbrev pub without : ℕ → List ℕ → List ℕ
without p [] = []
without p (q ∷ qs) = let rest = without p qs in if q == p then qs else q ∷ rest

-- A connection of the worker `id`.
abbrev pub mine : ℕ → Option MtConnection → Bool
mine id none = false
mine id (some c) = c.worker_id == id

pub record IsSound (c : MtConnection) : Type 0 where
  pub open_fd : is_negative c.fd ≡ false
  pub staying : c.is_removing ≡ false
  pub read_room : length c.read_buf ≡ mt_buffer_size
  pub write_room : length c.write_buf ≡ mt_buffer_size
  pub pending_in : c.write_pending < mt_buffer_size

-- The flags and the time do not matter.
pub flags-IsSound :
    {c : MtConnection}
    → IsSound c
    → (readable writable : Bool) (time : ℕ)
    → IsSound (record c { readable = readable; writable = writable; last_activity = time })
flags-IsSound s readable writable time = record {
  open_fd = s.open_fd;
  staying = s.staying;
  read_room = s.read_room;
  write_room = s.write_room;
  pending_in = s.pending_in;
}

-- The list holds the live connections of the worker `id`, each once.
pub record Lists (id : ℕ) (list : List ℕ) (heap : Heap) : Type 0 where
  pub apart : distinct list ≡ true
  pub owned : (p : ℕ) → has p list ≡ mine id (heap p)
  pub sound : (p : ℕ) (c : MtConnection) → heap p ≡ some c → IsSound c

abbrev pub Owns : World → Type 0
Owns w = Lists w.worker.id w.worker.connections w.heap

has-without :
    (p q : ℕ) (qs : List ℕ) → distinct qs ≡ true → has q (without p qs) ≡ (has q qs && not (p == q))
has-without p q [] d = refl
has-without p q (r ∷ qs) d = ground (arith, has-without p q qs)

distinct-without : (p : ℕ) (qs : List ℕ) → distinct qs ≡ true → distinct (without p qs) ≡ true
distinct-without p [] d = refl
distinct-without p (r ∷ qs) d = ground (arith, distinct-without p qs, has-without p r qs)

abbrev pub AllLive : Heap → List ℕ → Type 0
AllLive heap [] = Unit
AllLive heap (q ∷ qs) = ((c : MtConnection) × (heap q ≡ some c)) × AllLive heap qs

-- The loop over a list of live connections finds the pointer and takes it out.
unlink-without :
    (heap : Heap) (qs : List ℕ) (p : ℕ) → AllLive heap qs → unlink heap qs p ≡ some (without p qs)
unfolding unlink
unlink-without heap [] p live = refl
unlink-without heap (q ∷ qs) p ((c, here), live) = elim (Bool-cases (q == p)) [
  | inl h ↦ rw h refl
  | inr h ↦ rw (h, here, unlink-without heap qs p live) refl
]

pub mine-some :
    (id : ℕ) (o : Option MtConnection) → mine id o ≡ true → (c : MtConnection) × (o ≡ some c)
mine-some id none h = cc
mine-some id (some c) h = (c, refl)

pub AllLive-owned :
    (id : ℕ) (heap : Heap) (qs : List ℕ)
    → ((q : ℕ) → has q qs ≡ true → mine id (heap q) ≡ true)
    → AllLive heap qs
AllLive-owned id heap [] own = tt
AllLive-owned id heap (q ∷ qs) own = (
  mine-some id (heap q) (own q (ground arith)),
  AllLive-owned id heap qs (λ r h. own r (ground arith)),
)

-- A connection may be replaced by any sound one of the same worker.
pub put-Lists :
    {id : ℕ} {list : List ℕ} {heap : Heap} (p : ℕ) {c : MtConnection}
    → Lists id list heap
    → heap p ≡ some c
    → (c' : MtConnection) → IsSound c'
    → c'.worker_id ≡ c.worker_id
    → Lists id list (update heap p (some c'))
put-Lists {id} {list} {heap} p {c} o here c' s same = record {
  apart = o.apart;
  owned = λ q. ground (arith, o.owned q, o.owned p);
  sound = λ q d e. ground (arith, o.sound q d);
}

-- What removing the connection `c` at `p` gives.
pub record Removed (w : World) (p : ℕ) (c : MtConnection) (w' : World) : Type 0 where
  pub owns : Owns w'
  pub same : w'.worker ≡ record w.worker { connections = without p w.worker.connections }
  pub freed : (q : ℕ) → w'.heap q ≡ (if p == q then none else w.heap q)
  pub logged :
      w'.log
      ≡ w.log
        ++ ((if is_negative w.worker.epoll_fd then [] else epoll_del c.fd ∷ [])
            ++ (closes c.fd ∷ []))

abbrev removed : World → ℕ → MtConnection → World
removed w p c = record {
  worker = record w.worker { connections = without p w.worker.connections };
  heap = update (update w.heap p (some (record c { is_removing = true; fd = negsuc 0 }))) p none;
  log = (shut w c).log;
}

removed-Lists :
    {id : ℕ} {list : List ℕ} {heap : Heap} (p : ℕ) (c : MtConnection)
    → Lists id list heap
    → Lists id (without p list) (update (update heap p (some c)) p none)
removed-Lists {id} {list} {heap} p c o = record {
  apart = distinct-without p list o.apart;
  owned = λ q. ground (arith, has-without p q list, o.apart, o.owned q);
  sound = λ q d e. ground (arith, o.sound q d);
}

-- Removing a live connection of the worker: no freed memory is read, the connection and no other is
-- freed, its pointer leaves the list, in which the others keep their places, and its descriptor is
-- taken out of epoll (if the worker has an epoll instance) and closed, once.
pub mt_remove_connection_safe-Owns :
    {w : World} (p : ℕ) {c : MtConnection}
    → Owns w
    → w.heap p ≡ some c
    → c.worker_id ≡ w.worker.id
    → (w' : World) × (mt_remove_connection_safe w (some p) ≡ some w') × Removed w p c w'
unfolding mt_remove_connection_safe shut
mt_remove_connection_safe-Owns {w} p {c} o here own =
    let s = o.sound p c here in
    let marked : MtConnection = record c { is_removing = true; fd = negsuc 0 } in
    let heap = update w.heap p (some marked) in
    let live =
      AllLive-owned w.worker.id heap w.worker.connections (λ q h. ground (arith, o.owned q)) in
    (
      removed w p c,
      rw
          (
            here,
            s.staying,
            unlink-without heap w.worker.connections p live,
            mt_remove_connection_safe,
          )
          refl,
      record {
        owns = removed-Lists p marked o;
        same = refl;
        freed = λ q. ground arith;
        logged = ground (arith, s.open_fd);
      },
    )

-- Removing frees also a connection that is not in the list yet.
pub mt_remove_connection_safe-frees :
    (w : World) (p : ℕ) {c : MtConnection}
    → w.heap p ≡ some c
    → c.is_removing ≡ false
    → ((q : ℕ) → has q w.worker.connections ≡ true → mine w.worker.id (w.heap q) ≡ true)
    → (w' : World) × (mt_remove_connection_safe w (some p) ≡ some w') × (w'.heap p ≡ none)
unfolding mt_remove_connection_safe shut
mt_remove_connection_safe-frees w p {c} here stays own =
    let marked : MtConnection = record c { is_removing = true; fd = negsuc 0 } in
    let heap = update w.heap p (some marked) in
    let live = AllLive-owned w.worker.id heap w.worker.connections (λ q h. ground (arith, own q)) in
    (
      removed w p c,
      rw (here, stays, unlink-without heap w.worker.connections p live, mt_remove_connection_safe)
          refl,
      ground arith,
    )
