-- ===== src/Proactor/Ownership.antt =====
-- Which contexts and handlers are live: those of the connections in the array of
-- codes/network/proactor/proactor.c, each with its own. Adding and removing connections keep this.
use hepeng_projects.Prelude.{
  ℕ, ◌<◌, ◌≡◌, ◌≢◌, refl, sym, ap, ◌∙◌, false, [], ◌∷◌, ◌++◌, Option, none, some, arith, length,
  get_or, set, length-set, get_or-set_self, get_or-set_ne, leb, leb→gt, ℤ, pos, negsuc, inl, inr,
  Option-cases, Bool-cases, Bool, ◌||◌,
}
use hepeng_projects.Proactor.Connection.{
  Handler, Context, closes, World, store, set_entry, free_handler, delete_from_epoll, release,
  remove_connection, handle_connection_event,
}

-- A handler that is set is live, and is that of the context at `q`.
abbrev pub Attached : (ℕ → Option Handler) → ℕ → Option ℕ → Type 0
Attached handlers q none = Unit
Attached handlers q (some h) = (d : Handler) × (handlers h ≡ some d) × (d.user_data ≡ some q)

-- The context at `q` is that of the descriptor `n`.
abbrev pub Live : World → ℕ → ℕ → Type 0
Live w n q =
    (c : Context) × (w.contexts q ≡ some c) × (c.fd ≡ pos n) × Attached w.handlers q c.handler

pub record Owns (w : World) : Type 0 where
  pub sized : length w.proactor.connections ≡ w.proactor.max_connections
  pub live : (n q : ℕ) → get_or w.proactor.connections n none ≡ some q → Live w n q

pub store_self {ℓ} : {A : Type ℓ} (f : ℕ → A) (p : ℕ) (v : A) → store f p v p ≡ v
store_self f p v = ground arith

pub store_ne {ℓ} : {A : Type ℓ} (f : ℕ → A) {p q : ℕ} (v : A) → p ≢ q → store f p v q ≡ f q
store_ne f {p} {q} v ne = ground arith

pub pos-injective : {m n : ℕ} → pos m ≡ pos n → m ≡ n
pos-injective e = cc

pub some-injective {ℓ} : {A : Type ℓ} {a b : A} → some a ≡ some b → a ≡ b
some-injective e = cc

-- Freeing the handler of the context at `q` is no second free, and leaves the others'.
pub free-Attached :
    (handlers : ℕ → Option Handler) (q : ℕ) (o : Option ℕ)
    → Attached handlers q o
    → (rest : ℕ → Option Handler) × (free_handler handlers o ≡ some rest)
      × ((q' : ℕ) (o' : Option ℕ) → q ≢ q' → Attached handlers q' o' → Attached rest q' o')
free-Attached handlers q none a = (handlers, refl, λ q' o' ne b. b)
free-Attached handlers q (some h) (d, here, own) =
    (store handlers h none, rw (here, free_handler) refl, kept)
  where
    kept :
        (q' : ℕ) (o' : Option ℕ)
        → q ≢ q'
        → Attached handlers q' o'
        → Attached (store handlers h none) q' o'
    kept q' none ne b = tt
    kept q' (some h') ne (d', here', own') =
        let other : h ≢ h' = λ e. ne (cc) in (d', store_ne handlers none other ∙ here', own')

-- Two descriptors do not share a context.
pub apart :
    {w : World} (o : Owns w) {m n p q : ℕ}
    → get_or w.proactor.connections m none ≡ some p
    → get_or w.proactor.connections n none ≡ some q
    → m ≢ n
    → p ≢ q
apart {w = w} o {m} {n} {p} {q} e f ne same =
    let (c, here, own, _) = o.live m p e in
    let (d, there, own', _) = o.live n q f in
    ne (
      pos-injective (
        sym own
        ∙ (ap (λ (x : Context). x.fd)
              (some-injective {a = c} {b = d} (sym here ∙ (ap w.contexts same ∙ there)))
            ∙ own')))

-- What `remove_connection` leaves, `rest` being the handlers.
abbrev removed : World → ℕ → ℕ → (ℕ → Option Handler) → World
removed w n q rest = record {
  proactor = set_entry w.proactor (pos n) none;
  contexts = store w.contexts q none;
  handlers = rest;
  log = w.log ++ (delete_from_epoll w.proactor (pos n) ++ (closes (pos n) ∷ []));
}

removed-Owns :
    {w : World} {n q : ℕ} (o : Owns w)
    → get_or w.proactor.connections n none ≡ some q
    → n < w.proactor.max_connections
    → (rest : ℕ → Option Handler)
    → ((q' : ℕ) (o' : Option ℕ) → q ≢ q' → Attached w.handlers q' o' → Attached rest q' o')
    → Owns (removed w n q rest)
removed-Owns {w} {n} {q} o here small rest kept = record {
  sized = length-set w.proactor.connections n none ∙ o.sized;
  live = live;
}
  where
    gone : get_or (set w.proactor.connections n none) n none ≡ none
    gone = get_or-set_self w.proactor.connections n none none (omega (arith, o.sized))

    live :
        (m p : ℕ)
        → get_or (set w.proactor.connections n none) m none ≡ some p
        → Live (removed w n q rest) m p
    live m p e =
        let other : n ≢ m = λ same. cc (gone, e, same) in
        let there = sym (get_or-set_ne w.proactor.connections none none other) ∙ e in
        let ne = apart o here there other in
        let (c, at, own, a) = o.live m p there in
        (c, store_ne w.contexts none ne ∙ at, own, kept p c.handler ne a)

-- What removing a live connection gives.
pub record Removed (w : World) (n q : ℕ) (w' : World) : Type 0 where
  pub owns : Owns w'
  pub absent : get_or w'.proactor.connections n none ≡ none
  pub freed : w'.contexts q ≡ none
  pub logged : w'.log ≡ w.log ++ (delete_from_epoll w.proactor (pos n) ++ (closes (pos n) ∷ []))

-- Removing a live connection reads no freed memory and frees nothing twice. Its entry is cleared, its
-- context freed and its descriptor closed, once, and all other connections keep context and handler.
pub remove_connection-Owns :
    {w : World} {n q : ℕ}
    → Owns w
    → n < w.proactor.max_connections
    → get_or w.proactor.connections n none ≡ some q
    → (w' : World) × (remove_connection w (pos n) ≡ some w') × Removed w n q w'
unfolding remove_connection release
remove_connection-Owns {w} {n} {q} o small here =
    let (c, at, own, a) = o.live n q here in
    let (rest, frees, kept) = free-Attached w.handlers q c.handler a in
    let fits : leb w.proactor.max_connections n ≡ false = ground arith in
    (
      removed w n q rest,
      rw (fits, here, at, frees, remove_connection, release) refl,
      record {
        owns = removed-Owns o here small rest kept;
        absent = get_or-set_self w.proactor.connections n none none (omega (arith, o.sized));
        freed = store_self w.contexts q none;
        logged = refl;
      },
    )

-- For every descriptor, also one without connection.
pub remove_connection-safe :
    {w : World} (fd : ℤ) → Owns w → (w' : World) × (remove_connection w fd ≡ some w') × Owns w'
unfolding remove_connection
remove_connection-safe {w} (negsuc n) o = (w, refl, o)
remove_connection-safe {w} (pos n) o = elim (Bool-cases (leb w.proactor.max_connections n)) [
  | inl big ↦ (w, rw (big, remove_connection) refl, o)
  | inr fits ↦ elim (Option-cases (get_or w.proactor.connections n none)) [
    | inl e ↦ (w, rw (fits, e, remove_connection) refl, o)
    | inr (q, e) ↦
        let small = leb→gt w.proactor.max_connections n fits in
        let (w', runs, r) = remove_connection-Owns o small e in (w', runs, r.owns)
  ]
]

-- An event with any flags, at any descriptor, also one without connection: `handle_connection_event`
-- reads no freed memory and frees nothing twice, and the array still agrees with contexts and handlers.
pub handle_connection_event-Owns :
    {w : World} (fd : ℤ) (err hup : Bool)
    → Owns w
    → (w' : World) × (handle_connection_event w fd err hup ≡ some w') × Owns w'
unfolding handle_connection_event
handle_connection_event-Owns {w} fd err hup o = elim (Bool-cases (err || hup)) [
  | inl h ↦ rw h (remove_connection-safe fd o)
  | inr h ↦ rw h (w, refl, o)
]
