-- ===== src/Proactor/Stale.antt =====
-- Operations that outlive their connection in codes/network/proactor/proactor.c: the dispatcher
-- compares the handler of a completed operation with the connection that now has its descriptor, and
-- for this it reads the handler.
use hepeng_projects.Prelude.{
  ℕ, ◌<◌, ◌≡◌, ◌≢◌, refl, sym, ap, subst, ◌∙◌, true, false, [], ◌∷◌, ◌++◌, none, some, arith,
  get_or, set, get_or-set_self, leb, pos, length, inl, inr, Bool-cases,
}
use hepeng_projects.Proactor.Connection.{
  Handler, Context, Operation, World, store, submit_operation, new_context, add_connection, release,
  remove_connection, delete_from_epoll, closes,
}
use hepeng_projects.Proactor.Completion.{
  Answers, submit_next_read_operation, attach_handler, after_add, setup_new_connection, complete,
}
use hepeng_projects.Proactor.Ownership.{
  Attached, Owns, store_self, store_ne, some-injective, remove_connection-Owns,
}
use hepeng_projects.Proactor.Changes.{added}

-- The descriptor `n` has got a connection at `q` with the handler at `h`, and no other handler has
-- changed.
record Renewed (w : World) (n q h : ℕ) (w' : World) : Type 0 where
  here : get_or w'.proactor.connections n none ≡ some q
  bound : w'.proactor.max_connections ≡ w.proactor.max_connections
  others : (k : ℕ) → h ≢ k → w'.handlers k ≡ w.handlers k

submit_next_read_operation-Renewed :
    (a : Answers) {w w' : World} (n q h p : ℕ) (c : Context)
    → Renewed w n q h w'
    → Renewed w n q h (submit_next_read_operation a w' p c)
unfolding submit_next_read_operation submit_operation
submit_next_read_operation-Renewed a n q h p c r = elim (Bool-cases a.operation) [
  | inl e ↦ rw e (record { here = r.here; bound = r.bound; others = r.others })
  | inr e ↦ rw e r
]

setup_new_connection-Renewed :
    (a : Answers) (w : World) (n q h : ℕ)
    → leb w.proactor.max_connections n ≡ false
    → n < length w.proactor.connections
    → get_or w.proactor.connections n none ≡ none
    → a.context w.contexts ≡ some q
    → a.handler w.handlers ≡ some h
    → (w' : World) × (setup_new_connection a w (pos n) ≡ some w') × Renewed w n q h w'
unfolding setup_new_connection after_add add_connection attach_handler new_context
setup_new_connection-Renewed a w n q h fits small free got given =
    let put : get_or (set w.proactor.connections n (some q)) n none ≡ some q =
      get_or-set_self w.proactor.connections n (some q) none small in
    let at = store_self w.contexts q (some (new_context (pos n))) in
    let adds : add_connection (a.context w.contexts) w (pos n) ≡ (true, added w n q) =
      rw (fits, free, got, add_connection) refl in
    let c : Context = record (new_context (pos n)) { handler = some h } in
    let d : Handler = record {
      handle_read = true;
      handle_write = true;
      handle_error = true;
      user_data = some q;
    } in
    let w' : World = record (added w n q) {
      contexts = store (added w n q).contexts q (some c);
      handlers = store w.handlers h (some d);
    } in
    rw (adds, after_add, put, at, given, attach_handler)
      (
        submit_next_read_operation a w' q c,
        refl,
        submit_next_read_operation-Renewed a n q h q c
            (record { here = put; bound = refl; others = λ k ne. store_ne w.handlers (some d) ne }),
      )

-- The handler of a connection is freed with it, and the array keeps its length.
remove_connection-frees :
    {w w' : World} (n q h : ℕ) (c : Context)
    → Owns w
    → n < w.proactor.max_connections
    → get_or w.proactor.connections n none ≡ some q
    → w.contexts q ≡ some c
    → c.handler ≡ some h
    → remove_connection w (pos n) ≡ some w'
    → (w'.handlers h ≡ none) × (w'.proactor.max_connections ≡ w.proactor.max_connections)
unfolding remove_connection release
remove_connection-frees {w} {w'} n q h c o small here at owner runs =
    let (c', at', fd, attached) = o.live n q here in
    let same_context : c' ≡ c = some-injective (sym at' ∙ at) in
    let (d, found, own) : (d : Handler) × (w.handlers h ≡ some d) × (d.user_data ≡ some q) =
      subst (Attached w.handlers q) (ap (λ x. x.handler) same_context ∙ owner) attached in
    let fits : leb w.proactor.max_connections n ≡ false = ground arith in
    let gives : remove_connection w (pos n)
        ≡ some (record {
          proactor = record w.proactor { connections = set w.proactor.connections n none };
          contexts = store w.contexts q none;
          handlers = store w.handlers h none;
          log = w.log ++ (delete_from_epoll w.proactor (pos n) ++ (closes (pos n) ∷ []));
        }) =
      rw (fits, here, at, owner, found, remove_connection, release) refl in
    let same : w' ≡ _ = some-injective (sym runs ∙ gives) in
    (
      ap (λ v. v.handlers h) same ∙ store_self w.handlers h none,
      ap (λ v. v.proactor.max_connections) same,
    )

-- A connection is removed, and `setup_new_connection` gives its descriptor a new one, with a handler
-- that does not lie where the old one lay. Then an operation of the old connection completes, with any
-- result: to compare the handlers the dispatcher reads the one that has been freed.
pub stale-faults :
    (a : Answers) {w w1 : World} (op : Operation) (res n q h q' h' : ℕ) (c : Context)
    → Owns w
    → n < w.proactor.max_connections
    → get_or w.proactor.connections n none ≡ some q
    → w.contexts q ≡ some c
    → c.handler ≡ some h
    → op.fd ≡ pos n
    → op.handler ≡ some h
    → remove_connection w (pos n) ≡ some w1
    → a.context w1.contexts ≡ some q'
    → a.handler w1.handlers ≡ some h'
    → h' ≢ h
    → (w2 : World) × (setup_new_connection a w1 (pos n) ≡ some w2)
      × (complete a w2 (some op) res ≡ none)
unfolding complete remove_connection release
stale-faults a {w} {w1} op res n q h q' h' c o small here at owner fd owned runs got given other =
    let (v, runs', removed) = remove_connection-Owns o small here in
    let same : v ≡ w1 = some-injective (sym runs' ∙ runs) in
    let (gone, bound) = remove_connection-frees n q h c o small here at owner runs in
    let free : get_or w1.proactor.connections n none ≡ none =
      subst (λ x. get_or x.proactor.connections n none ≡ none) same removed.absent in
    let o1 : Owns w1 = subst Owns same removed.owns in
    let fits : leb w1.proactor.max_connections n ≡ false = ground (arith, bound) in
    let (w2, sets, r) =
      setup_new_connection-Renewed a w1 n q' h' fits (omega (arith, o1.sized, bound)) free got
        given in
    let fits2 : leb w2.proactor.max_connections n ≡ false = ap (λ m. leb m n) r.bound ∙ fits in
    let freed : w2.handlers h ≡ none = r.others h other ∙ gone in
    (w2, sets, rw (fd, fits2, r.here, owned, freed, complete) refl)
