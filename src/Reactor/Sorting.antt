-- ===== src/Reactor/Sorting.antt =====
-- The loop of a reactor thread that sorts the events of a round: it reads no freed memory, and each
-- connection that it lists is live.
use hepeng_projects.Prelude.{
  ℕ, ◌≡◌, ◌≢◌, refl, sym, ◌∙◌, Bool, true, false, ◌&&◌, ◌||◌, List, [], ◌∷◌, Option, some, inl, inr,
  Bool-cases, Option-cases,
}
use hepeng_projects.Reactor.Thread.{World}
use hepeng_projects.Reactor.Events.{◌>>=◌, Event, Ready, push_if, classify}
use hepeng_projects.Reactor.Ownership.{alive, Owns}
use hepeng_projects.Reactor.Handlers.{close-Steps, touch-Steps}

-- `q` is none of the pointers.
abbrev pub Outside : ℕ → List ℕ → Type 0
Outside q [] = Unit
Outside q (p ∷ ps) = (p ≢ q) × Outside q ps

abbrev pub Unique : List ℕ → Type 0
Unique [] = Unit
Unique (p ∷ ps) = Outside p ps × Unique ps

abbrev pub AllAlive : World → List ℕ → Type 0
AllAlive w [] = Unit
AllAlive w (p ∷ ps) = (alive w p ≡ true) × AllAlive w ps

abbrev pub AllOutside : List ℕ → List ℕ → Type 0
AllOutside [] qs = Unit
AllOutside (p ∷ ps) qs = Outside p qs × AllOutside ps qs

-- The pointers of events.
abbrev pub OutsideEvents : ℕ → List Event → Type 0
OutsideEvents q [] = Unit
OutsideEvents q (e ∷ es) = ((p : ℕ) → e.conn ≡ some p → p ≢ q) × OutsideEvents q es

-- The contract of `epoll_wait`: an event names a connection that is registered, no connection has two
-- events, and none is both readable and writable, since a connection is watched for one of them.
abbrev pub Reported : World → List Event → Type 0
Reported w [] = Unit
Reported w (e ∷ es) =
    ((p : ℕ) → e.conn ≡ some p → (alive w p ≡ true) × OutsideEvents p es)
    × ((e.inp && e.out) ≡ false)
    × Reported w es

still-Reported :
    (w w' : World) (p : ℕ) (es : List Event)
    → ((q : ℕ) → p ≢ q → alive w q ≡ true → alive w' q ≡ true)
    → OutsideEvents p es
    → Reported w es
    → Reported w' es
still-Reported w w' p [] kept out r = tt
still-Reported w w' p (e ∷ es) kept out r = (
  (λ q names. (kept q (λ same. out.0 q names (sym same)) (r.0 q names).0, (r.0 q names).1)),
  r.1,
  still-Reported w w' p es kept out.1 r.2,
)

pub Reported-same :
    (w w' : World) (es : List Event)
    → ((q : ℕ) → alive w' q ≡ alive w q)
    → Reported w es
    → Reported w' es
Reported-same w w' [] same r = tt
Reported-same w w' (e ∷ es) same r =
    ((λ q names. (same q ∙ (r.0 q names).0, (r.0 q names).1)), r.1, Reported-same w w' es same r.2)

-- What the sorting loop leaves: the listed connections are live, each stands in one list once, and a
-- live connection without an event lives on and is in no list.
pub record Sorted (w : World) (es : List Event) (r : Ready) : Type 0 where
  pub owns : Owns r.state
  pub reads_alive : AllAlive r.state r.read_conns
  pub writes_alive : AllAlive r.state r.write_conns
  pub reads_unique : Unique r.read_conns
  pub writes_unique : Unique r.write_conns
  pub disjoint : AllOutside r.write_conns r.read_conns
  pub kept : (q : ℕ) → OutsideEvents q es → alive w q ≡ true → alive r.state q ≡ true
  pub reads_off : (q : ℕ) → OutsideEvents q es → Outside q r.read_conns
  pub writes_off : (q : ℕ) → OutsideEvents q es → Outside q r.write_conns

abbrev pub Sorts : World → List Event → Option Ready → Type 0
Sorts w es o = (r : Ready) × (o ≡ some r) × Sorted w es r

widen : (p : ℕ) (qs ps : List ℕ) → Outside p ps → AllOutside ps qs → AllOutside ps (p ∷ qs)
widen p qs [] off all = tt
widen p qs (q ∷ ps) off all = ((λ e. off.0 (sym e), all.0), widen p qs ps off.1 all.1)

module _ {w w1 : World} {e : Event} {es : List Event} {r : Ready} (p : ℕ) (names : e.conn ≡ some p)
    (off : OutsideEvents p es) (live : alive w p ≡ true) (same : (q : ℕ) → alive w1 q ≡ alive w q)
    (s : Sorted w1 es r) where
  -- The bits of an event put its pointer into one list at most.
  listed :
      (inp out : Bool)
      → (inp && out) ≡ false
      → Sorted w (e ∷ es) (record r {
        read_conns = push_if inp p r.read_conns;
        write_conns = push_if out p r.write_conns;
      })
  listed true true one_bit = cc
  listed false false one_bit = record {
    owns = s.owns;
    reads_alive = s.reads_alive;
    writes_alive = s.writes_alive;
    reads_unique = s.reads_unique;
    writes_unique = s.writes_unique;
    disjoint = s.disjoint;
    kept = λ q o h. s.kept q o.1 (same q ∙ h);
    reads_off = λ q o. s.reads_off q o.1;
    writes_off = λ q o. s.writes_off q o.1;
  }
  listed true false one_bit = record {
    owns = s.owns;
    reads_alive = (s.kept p off (same p ∙ live), s.reads_alive);
    writes_alive = s.writes_alive;
    reads_unique = (s.reads_off p off, s.reads_unique);
    writes_unique = s.writes_unique;
    disjoint = widen p r.read_conns r.write_conns (s.writes_off p off) s.disjoint;
    kept = λ q o h. s.kept q o.1 (same q ∙ h);
    reads_off = λ q o. ((λ same_p. o.0 p names same_p), s.reads_off q o.1);
    writes_off = λ q o. s.writes_off q o.1;
  }
  listed false true one_bit = record {
    owns = s.owns;
    reads_alive = s.reads_alive;
    writes_alive = (s.kept p off (same p ∙ live), s.writes_alive);
    reads_unique = s.reads_unique;
    writes_unique = (s.writes_off p off, s.writes_unique);
    disjoint = (s.reads_off p off, s.disjoint);
    kept = λ q o h. s.kept q o.1 (same q ∙ h);
    reads_off = λ q o. s.reads_off q o.1;
    writes_off = λ q o. ((λ same_p. o.0 p names same_p), s.writes_off q o.1);
  }

-- A closed connection is in no list, and an event without a connection changes nothing.
skipped :
    {w w1 : World} {e : Event} {es : List Event} {r : Ready}
    → ((q : ℕ) → OutsideEvents q (e ∷ es) → alive w q ≡ true → alive w1 q ≡ true)
    → Sorted w1 es r
    → Sorted w (e ∷ es) r
skipped still s = record {
  owns = s.owns;
  reads_alive = s.reads_alive;
  writes_alive = s.writes_alive;
  reads_unique = s.reads_unique;
  writes_unique = s.writes_unique;
  disjoint = s.disjoint;
  kept = λ q o h. s.kept q o.1 (still q o h);
  reads_off = λ q o. s.reads_off q o.1;
  writes_off = λ q o. s.writes_off q o.1;
}

pub classify-Sorts :
    (es : List Event) {w : World} → Owns w → Reported w es → Sorts w es (classify w es)
unfolding classify
classify-Sorts [] {w} o rep = (
  _,
  refl,
  record {
    owns = o;
    reads_alive = tt;
    writes_alive = tt;
    reads_unique = tt;
    writes_unique = tt;
    disjoint = tt;
    kept = λ q out h. h;
    reads_off = λ q out. tt;
    writes_off = λ q out. tt;
  },
)
classify-Sorts (e ∷ es) {w} o rep = elim (Option-cases e.conn) [
  | inl null ↦
      let (r, done, s) = classify-Sorts es o rep.2 in
      (r, rw (null, classify) done, skipped (λ q out h. h) s)
  | inr (p, names) ↦
      let (live, off) = rep.0 p names in
      let (w1, touched, o1, same) = touch-Steps p e.now o live in
      elim (Bool-cases (e.err || e.hup)) [
        | inl broken ↦
            let (w2, closed, o2, kept) = close-Steps p o1 (same p ∙ live) in
            let still : (q : ℕ) → p ≢ q → alive w q ≡ true → alive w2 q ≡ true =
              λ q ne h. kept q ne (same q ∙ h) in
            let (r, done, s) = classify-Sorts es o2 (still-Reported w w2 p es still off rep.2) in
            (
              r,
              rw (names, classify) (rw (touched, ◌>>=◌) (rw broken (rw (closed, ◌>>=◌) done))),
              skipped (λ q out h. still q (out.0 p names) h) s,
            )
        | inr sound ↦
            let (r, done, s) =
              classify-Sorts es o1 (still-Reported w w1 p es (λ q ne h. same q ∙ h) off rep.2) in
            (
              _,
              rw (names, classify) (rw (touched, ◌>>=◌) (rw sound (rw (done, ◌>>=◌) refl))),
              listed p names off live same s e.inp e.out rep.1,
            )
      ]
]
