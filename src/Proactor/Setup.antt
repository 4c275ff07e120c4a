-- ===== src/Proactor/Setup.antt =====
-- `setup_new_connection` of codes/network/proactor/async_server_proactor.c: what becomes of a new
-- descriptor.
use hepeng_projects.Prelude.{
  ℕ, ◌<◌, ◌≡◌, ◌≢◌, refl, ap, ◌∙◌, true, List, [], ◌∷◌, ◌++◌, Option, none, some, arith, get_or,
  set, get_or-set_self, leb, leb→gt, ℤ, pos, negsuc, ◌⊎◌, inl, inr, Option-cases, Bool-cases,
}
use hepeng_projects.Proactor.Connection.{
  Handler, Context, Call, closes, World, store, entry, submit_operation, new_context,
  add_connection, delete_from_epoll,
}
use hepeng_projects.Proactor.Completion.{
  Answers, after_add, submit_next_read_operation, attach_handler, setup_new_connection,
}
use hepeng_projects.Proactor.Ownership.{
  Attached, Owns, store_self, store_ne, remove_connection-Owns,
}
use hepeng_projects.Proactor.Changes.{
  submit_next_read_operation-Owns, replace-Owns, added, added-Owns,
}

-- `malloc` gives memory that is not in use.
pub record Allocates (a : Answers) : Type 0 where
  pub context : (heap : ℕ → Option Context) (q : ℕ) → a.context heap ≡ some q → heap q ≡ none
  pub handler : (heap : ℕ → Option Handler) (h : ℕ) → a.handler heap ≡ some h → heap h ≡ none

-- The descriptor has a connection and no call was made, or its close is the last call.
abbrev pub Settled : World → ℤ → World → Type 0
Settled w fd w' =
    ((q : ℕ) × (entry w'.proactor fd ≡ some q) × (w'.log ≡ w.log))
    ⊎ ((calls : List Call) × (w'.log ≡ w.log ++ (calls ++ (closes fd ∷ []))))

abbrev Good : World → ℤ → Option World → Type 0
Good w fd r = (w' : World) × (r ≡ some w') × Owns w' × Settled w fd w'

closed-Good :
    {w : World} (fd : ℤ) → Owns w → Good w fd (some (record w { log = w.log ++ (closes fd ∷ []) }))
closed-Good fd o = (_, refl, record { sized = o.sized; live = o.live }, inr ([], refl))

-- A read only goes to the list.
submit_next_read_operation-kept :
    (a : Answers) (w : World) (q : ℕ) (c : Context)
    → ((submit_next_read_operation a w q c).log ≡ w.log)
      × ((submit_next_read_operation a w q c).proactor.connections ≡ w.proactor.connections)
unfolding submit_next_read_operation submit_operation
submit_next_read_operation-kept a w q c = elim (Bool-cases a.operation) [
  | inl h ↦ rw h (refl, refl)
  | inr h ↦ rw h (refl, refl)
]

module _ (a : Answers) (fresh : Allocates a) {w : World} (n : ℕ) where
  attach-Good :
      {q : ℕ} (o : Owns w)
      → n < w.proactor.max_connections
      → w.contexts q ≡ none
      → Good w (pos n) (attach_handler a (added w n q) (pos n) q (new_context (pos n)))
  unfolding attach_handler new_context
  attach-Good {q} o small new =
      let o' = added-Owns o small new in
      let put : get_or (set w.proactor.connections n (some q)) n none ≡ some q =
        get_or-set_self w.proactor.connections n (some q) none (omega (arith, o.sized)) in
      elim (Option-cases (a.handler w.handlers)) [
        | inl failed ↦
            let (w', runs, r) = remove_connection-Owns o' small put in
            rw (failed, attach_handler)
              (w', runs, r.owns, inr (delete_from_epoll w.proactor (pos n), r.logged))
        | inr (h, got) ↦
            let unused = fresh.handler w.handlers h got in
            let d : Handler = record {
              handle_read = true;
              handle_write = true;
              handle_error = true;
              user_data = some q;
            } in
            let c : Context = record (new_context (pos n)) { handler = some h } in
            let w' : World = record (added w n q) {
              contexts = store (added w n q).contexts q (some c);
              handlers = store w.handlers h (some d);
            } in
            let owned : Owns w' =
              replace-Owns o' (store_self w.contexts q (some (new_context (pos n)))) c refl
                (store w.handlers h (some d)) (kept h d unused)
                (d, store_self w.handlers h (some d), refl) in
            let (logged, same) = submit_next_read_operation-kept a w' q c in
            rw (got, attach_handler)
              (
                submit_next_read_operation a w' q c,
                refl,
                submit_next_read_operation-Owns a q c owned,
                inl (q, ap (λ t. get_or t n none) same ∙ put, logged),
              )
      ]
    where
      kept :
          (h : ℕ) (d : Handler)
          → w.handlers h ≡ none
          → (p : ℕ) (o : Option ℕ) → Attached w.handlers p o
          → Attached (store w.handlers h (some d)) p o
      kept h d unused p none b = tt
      kept h d unused p (some g) (e, at, own) =
          let other : h ≢ g = λ same. cc (unused, at, same) in
          (e, store_ne w.handlers (some d) other ∙ at, own)

-- `setup_new_connection` at any descriptor, whatever `malloc` gives that is not in use, when every entry
-- of the array has a live context of its descriptor, whose handler, if it is set, is live: no freed
-- memory is used, this is so afterwards, and the descriptor has a connection, or it has been closed and
-- this was the last call.
pub setup_new_connection-Owns :
    (a : Answers) {w : World} (fd : ℤ)
    → Allocates a
    → Owns w
    → (w' : World) × (setup_new_connection a w fd ≡ some w') × Owns w' × Settled w fd w'
unfolding setup_new_connection after_add add_connection
setup_new_connection-Owns a {w} (negsuc n) fresh o = closed-Good (negsuc n) o
setup_new_connection-Owns a {w} (pos n) fresh o =
    elim (Bool-cases (leb w.proactor.max_connections n)) [
      | inl big ↦ rw big (closed-Good (pos n) o)
      | inr fits ↦ elim (Option-cases (get_or w.proactor.connections n none)) [
        | inr (p, taken) ↦ rw (fits, taken) (closed-Good (pos n) o)
        | inl free ↦ elim (Option-cases (a.context w.contexts)) [
          | inl failed ↦ rw (fits, free, failed) (closed-Good (pos n) o)
          | inr (q, got) ↦
              let small = leb→gt w.proactor.max_connections n fits in
              let put : get_or (set w.proactor.connections n (some q)) n none ≡ some q =
                get_or-set_self w.proactor.connections n (some q) none (omega (arith, o.sized)) in
              let at = store_self w.contexts q (some (new_context (pos n))) in
              let new = fresh.context w.contexts q got in
              let adds : add_connection (a.context w.contexts) w (pos n) ≡ (true, added w n q) =
                rw (fits, free, got, add_connection) refl in
              rw (adds, after_add, put, at) (attach-Good a fresh n o small new)
        ]
      ]
    ]
