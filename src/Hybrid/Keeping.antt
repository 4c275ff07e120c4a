-- ===== src/Hybrid/Keeping.antt =====
-- The bytes that wait to be written in codes/network/proactor_epoll/hybrid_proactor.c, and the steps
-- after which a connection is still there.
use hepeng_projects.Prelude.{
  ℕ, ◌≡◌, refl, sym, ap, ◌∙◌, false, List, [], ◌∷◌, ◌++◌, append_assoc, Option, some, arith, take,
  ◌==◌,
}
use hepeng_projects.Prelude.Kernel.{AtMost, TakesAtMost}
use hepeng_projects.Hybrid.Connection.{
  MtConnection, Call, reads, writes, submits_read, submits_write, epoll_add, epoll_del, closes,
  Heap, World, update,
}
use hepeng_projects.Hybrid.Events.{Kernel}
use hepeng_projects.Hybrid.Ownership.{IsSound, Lists, put-Lists}

-- The bytes that wait to be written.
abbrev pub pending : MtConnection → List ℕ
pending c = take c.write_pending c.write_buf

abbrev pub bytes_written : List Call → List ℕ
bytes_written [] = []
bytes_written (writes fd xs ∷ calls) = xs ++ bytes_written calls
bytes_written (_ ∷ calls) = bytes_written calls

pub bytes_written-append :
    (xs ys : List Call) → bytes_written (xs ++ ys) ≡ bytes_written xs ++ bytes_written ys
bytes_written-append [] ys = refl
bytes_written-append (reads fd b ∷ xs) ys = bytes_written-append xs ys
bytes_written-append (writes fd b ∷ xs) ys =
    ap (λ t. b ++ t) (bytes_written-append xs ys)
    ∙ sym (append_assoc b (bytes_written xs) (bytes_written ys))
bytes_written-append (submits_read fd p n ∷ xs) ys = bytes_written-append xs ys
bytes_written-append (submits_write fd p n ∷ xs) ys = bytes_written-append xs ys
bytes_written-append (epoll_add fd ∷ xs) ys = bytes_written-append xs ys
bytes_written-append (epoll_del fd ∷ xs) ys = bytes_written-append xs ys
bytes_written-append (closes fd ∷ xs) ys = bytes_written-append xs ys

-- write(2), for any number of bytes.
abbrev pub Lawful : Kernel → Type 0
Lawful k = ((n : ℕ) → AtMost (k.recv n) n) × ((n : ℕ) → TakesAtMost (k.send n) n)

-- The connection at `p` is still there, with contents `c'`, the worker has the same list, and the
-- other connections are as they were.
pub record KeptIn (i : ℕ) (xs : List ℕ) (heap : Heap) (p : ℕ) (c c' : MtConnection) (j : ℕ)
    (ys : List ℕ) (heap' : Heap) : Type 0 where
  pub owns : Lists j ys heap'
  pub here : heap' p ≡ some c'
  pub id : j ≡ i
  pub own : c'.worker_id ≡ c.worker_id
  pub list : ys ≡ xs
  pub others : (q : ℕ) → (p == q) ≡ false → heap' q ≡ heap q

abbrev pub Kept : World → ℕ → MtConnection → MtConnection → World → Type 0
Kept w p c c' w' =
    KeptIn w.worker.id w.worker.connections w.heap p c c' w'.worker.id w'.worker.connections w'.heap

pub update_self : (heap : Heap) (p : ℕ) (v : Option MtConnection) → update heap p v p ≡ v
update_self heap p v = ground arith

pub put-KeptIn :
    {id : ℕ} {list : List ℕ} {heap : Heap} (p : ℕ) {c : MtConnection}
    → Lists id list heap
    → heap p ≡ some c
    → (c' : MtConnection) → IsSound c'
    → c'.worker_id ≡ c.worker_id
    → KeptIn id list heap p c c' id list (update heap p (some c'))
put-KeptIn {heap = heap} p o here c' s own = record {
  owns = put-Lists p o here c' s own;
  here = update_self heap p (some c');
  id = refl;
  own = own;
  list = refl;
  others = λ q ne. ground arith;
}

-- A connection that is put first and then kept.
pub KeptIn-trans :
    {id : ℕ} {list : List ℕ} {heap : Heap} {p : ℕ} {c d e : MtConnection} {id1 : ℕ} {list1 : List ℕ}
    {heap1 : Heap} {id2 : ℕ} {list2 : List ℕ} {heap2 : Heap}
    → KeptIn id list heap p c d id1 list1 heap1
    → KeptIn id1 list1 heap1 p d e id2 list2 heap2
    → KeptIn id list heap p c e id2 list2 heap2
KeptIn-trans a b = record {
  owns = b.owns;
  here = b.here;
  id = b.id ∙ a.id;
  own = b.own ∙ a.own;
  list = b.list ∙ a.list;
  others = λ q ne. b.others q ne ∙ a.others q ne;
}
