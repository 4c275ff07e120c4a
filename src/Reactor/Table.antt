-- ===== src/Reactor/Table.antt =====
-- `connections` of `reactor_thread_t` in codes/network/reactor/reactor.h: the array of pointers to
-- connections, `none` for NULL, with the loops of reactor.c that take the first free place and that
-- clear the place of a pointer.
use hepeng_projects.Prelude.{
  ℕ, suc, ◌+◌, ◌≤◌, ◌≡◌, refl, ap, Bool, true, false, not, ◌&&◌, ◌||◌, List, [], ◌∷◌, Option, none,
  some, arith, length, ◌==◌, if◌then◌else◌,
}

abbrev pub max_connections : ℕ
max_connections = 100000

abbrev pub Table : Type 0
Table = List (Option ℕ)

-- The search of `thread_add_connection` for a free place.
pub has_room : Table → Bool
has_room [] = false
has_room (none ∷ t) = true
has_room (some q ∷ t) = has_room t

-- The first free place gets `p`.
pub insert : Table → ℕ → Table
insert [] p = []
insert (none ∷ t) p = some p ∷ t
insert (some q ∷ t) p = some q ∷ insert t p

-- The loop of `handle_close_event`: the first place that holds `p` is cleared. The flag says that
-- there is one.
pub forget : Table → ℕ → Table × Bool
forget [] p = ([], false)
forget (none ∷ t) p = let (t', found) = forget t p in (none ∷ t', found)
forget (some q ∷ t) p =
    let (t', found) = forget t p in if q == p then (none ∷ t, true) else (some q ∷ t', found)

abbrev pub holds : Table → ℕ → Bool
holds [] p = false
holds (none ∷ t) p = holds t p
holds (some q ∷ t) p = (q == p) || holds t p

-- No pointer stands in two places.
abbrev pub distinct : Table → Bool
distinct [] = true
distinct (none ∷ t) = distinct t
distinct (some q ∷ t) = not (holds t q) && distinct t

abbrev pub count_live : Table → ℕ
count_live [] = 0
count_live (none ∷ t) = count_live t
count_live (some q ∷ t) = suc (count_live t)

pub count_live-le : (t : Table) → count_live t ≤ length t
count_live-le [] = omega arith
count_live-le (none ∷ t) = omega (arith, count_live-le t)
count_live-le (some q ∷ t) = omega (arith, count_live-le t)

-- What `insert` does, with the table that it gives.
pub record Inserted (t : Table) (p : ℕ) (t' : Table) : Type 0 where
  pub size : length t' ≡ length t
  pub live : count_live t' ≡ suc (count_live t)
  pub held : (r : ℕ) → holds t' r ≡ ((p == r) || holds t r)
  pub apart : distinct t ≡ true → holds t p ≡ false → distinct t' ≡ true

pub insert-Inserted : (t : Table) (p : ℕ) → has_room t ≡ true → Inserted t p (insert t p)
unfolding insert has_room
insert-Inserted [] p h = cc
insert-Inserted (none ∷ t) p h = record {
  size = refl;
  live = refl;
  held = λ r. refl;
  apart = λ d f. ground arith;
}
insert-Inserted (some q ∷ t) p h =
    let i = insert-Inserted t p h in
    record {
      size = ap suc i.size;
      live = ap suc i.live;
      held = λ r. ground (arith, i.held r);
      apart = λ d f. ground (arith, i.held q, i.apart);
    }

-- Without room every place is taken.
pub not-has_room : (t : Table) → has_room t ≡ false → count_live t ≡ length t
unfolding has_room
not-has_room [] h = refl
not-has_room (none ∷ t) h = cc
not-has_room (some q ∷ t) h = ap suc (not-has_room t h)

-- What `forget` does to a table without double entries.
pub record Forgotten (t : Table) (p : ℕ) (r : Table × Bool) : Type 0 where
  pub found : r.1 ≡ holds t p
  pub size : length r.0 ≡ length t
  pub live : count_live r.0 + (if r.1 then 1 else 0) ≡ count_live t
  pub held : (q : ℕ) → holds r.0 q ≡ (holds t q && not (p == q))
  pub apart : distinct r.0 ≡ true

pub forget-Forgotten : (t : Table) (p : ℕ) → distinct t ≡ true → Forgotten t p (forget t p)
unfolding forget
forget-Forgotten [] p d = record {
  found = refl;
  size = refl;
  live = omega arith;
  held = λ q. refl;
  apart = refl;
}
forget-Forgotten (none ∷ t) p d =
    let f = forget-Forgotten t p d in
    record { found = f.found; size = ap suc f.size; live = f.live; held = f.held; apart = f.apart }
forget-Forgotten (some r ∷ t) p d =
    let f = forget-Forgotten t p (ground arith) in
    record {
      found = ground (arith, f.found);
      size = ground (arith, f.size);
      live = ground (arith, f.live);
      held = λ q. ground (arith, f.held q, f.found);
      apart = ground (arith, f.held r, f.apart, f.found);
    }
