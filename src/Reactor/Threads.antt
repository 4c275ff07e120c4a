-- ===== src/Reactor/Threads.antt =====
-- The threads of codes/network/reactor/reactor.c that a log starts and joins: `reactor_run` and
-- `reactor_stop`.
use hepeng_projects.Prelude.{
  ℕ, ◌+◌, ◌≡◌, ◌≢◌, refl, sym, ap, ap₂, subst, ◌∙◌, ◌||◌, List, [], ◌∷◌, ◌++◌, Option, none, some,
  arith, ◌==◌, if◌then◌else◌, inl, inr, Option-cases,
}
use hepeng_projects.Reactor.Table.{Table, holds, distinct}
use hepeng_projects.Reactor.Thread.{Thread}
use hepeng_projects.Reactor.Core.{
  Call, closes, starts, joins, close_epolls, start_threads, stop_threads,
}
use hepeng_projects.Reactor.Destruction.{AllLive, shuts, holds_any, TablesOwn, all_shuts}
use hepeng_projects.Reactor.Server.{Heap}

-- How often a log starts and joins the thread `j`.
abbrev pub started : ℕ → List Call → ℕ
started j [] = 0
started j (starts i ∷ calls) = (if i == j then 1 else 0) + started j calls
started j (closes fd ∷ calls) = started j calls
started j (joins i ∷ calls) = started j calls

abbrev pub joined : ℕ → List Call → ℕ
joined j [] = 0
joined j (joins i ∷ calls) = (if i == j then 1 else 0) + joined j calls
joined j (closes fd ∷ calls) = joined j calls
joined j (starts i ∷ calls) = joined j calls

pub started-append :
    (j : ℕ) (xs ys : List Call) → started j (xs ++ ys) ≡ started j xs + started j ys
started-append j [] ys = omega arith
started-append j (starts i ∷ xs) ys = ground (arith, started-append j xs ys)
started-append j (closes i ∷ xs) ys = started-append j xs ys
started-append j (joins i ∷ xs) ys = started-append j xs ys

pub joined-append : (j : ℕ) (xs ys : List Call) → joined j (xs ++ ys) ≡ joined j xs + joined j ys
joined-append j [] ys = omega arith
joined-append j (joins i ∷ xs) ys = ground (arith, joined-append j xs ys)
joined-append j (closes i ∷ xs) ys = joined-append j xs ys
joined-append j (starts i ∷ xs) ys = joined-append j xs ys

-- How many threads of a reactor have been started as the thread `j`.
abbrev pub with_id : ℕ → List Thread → ℕ
with_id j [] = 0
with_id j (t ∷ ts) =
    (if t.thread_id == 0 then 0 else if t.thread_id == j then 1 else 0) + with_id j ts

-- A log that starts and joins no thread.
abbrev pub Quiet : List Call → Type 0
Quiet calls = (j : ℕ) → (started j calls ≡ 0) × (joined j calls ≡ 0)

pub close_epolls-Quiet : (ts : List Thread) → Quiet (close_epolls ts)
close_epolls-Quiet [] j = (refl, refl)
close_epolls-Quiet (t ∷ ts) j = close_epolls-Quiet ts j

shuts-Quiet : (heap : Heap) (t : Table) → Quiet (shuts heap t)
shuts-Quiet heap [] j = (refl, refl)
shuts-Quiet heap (none ∷ t) j = shuts-Quiet heap t j
shuts-Quiet heap (some p ∷ t) j = ground (arith, shuts-Quiet heap t j)

pub all_shuts-Quiet : (heap : Heap) (ts : List Thread) → Quiet (all_shuts heap ts)
all_shuts-Quiet heap [] j = (refl, refl)
all_shuts-Quiet heap (t ∷ ts) j =
    let (a, b) = shuts-Quiet heap t.connections j in
    let (c, d) = all_shuts-Quiet heap ts j in
    (
      omega (arith, started-append j (shuts heap t.connections) (all_shuts heap ts)),
      omega (arith, joined-append j (shuts heap t.connections) (all_shuts heap ts)),
    )

-- `reactor_stop` joins each thread that has been started, once.
pub stop_threads-joins :
    (j : ℕ) (ts : List Thread)
    → (started j (stop_threads ts).1 ≡ 0) × (joined j (stop_threads ts).1 ≡ with_id j ts)
unfolding stop_threads
stop_threads-joins j [] = (refl, refl)
stop_threads-joins j (t ∷ ts) = ground (arith, stop_threads-joins j ts)

-- What two lists of threads share.
pub record SameTables (ts ts' : List Thread) : Type 0 where
  pub held : (q : ℕ) → holds_any ts' q ≡ holds_any ts q
  pub owned : (heap : Heap) → TablesOwn heap ts → TablesOwn heap ts'

same-cons :
    (t t' : Thread) {ts ts' : List Thread}
    → t'.connections ≡ t.connections
    → SameTables ts ts'
    → SameTables (t ∷ ts) (t' ∷ ts')
same-cons t t' e s = record {
  held = λ q. ap₂ ◌||◌ (ap (λ c. holds c q) e) (s.held q);
  owned = λ heap (d, live, out, o). (
    ap distinct e ∙ d,
    subst (AllLive heap) (sym e) live,
    (λ p h. s.held p ∙ out p (ap (λ c. holds c p) (sym e) ∙ h)),
    s.owned heap o,
  );
}

pub stop_threads-SameTables : (ts : List Thread) → SameTables ts (stop_threads ts).0
unfolding stop_threads
stop_threads-SameTables [] = record { held = λ q. refl; owned = λ heap o. o }
stop_threads-SameTables (t ∷ ts) = same-cons t _ refl (stop_threads-SameTables ts)

-- No thread has been started.
abbrev pub Unstarted : List Thread → Type 0
Unstarted [] = Unit
Unstarted (t ∷ ts) = (t.thread_id ≡ 0) × Unstarted ts

Unstarted-with_id : (j : ℕ) (ts : List Thread) → Unstarted ts → with_id j ts ≡ 0
Unstarted-with_id j [] u = refl
Unstarted-with_id j (t ∷ ts) u = ground (arith, Unstarted-with_id j ts u.1)

-- A thread's number is not 0.
abbrev pub Numbers : (ℕ → Option ℕ) → Type 0
Numbers spawn = (i : ℕ) → spawn i ≢ some 0

-- The loop of `reactor_run` starts the threads that it gives numbers.
pub start_threads-starts :
    (spawn : ℕ → Option ℕ) (i j : ℕ) (ts : List Thread)
    → Numbers spawn
    → Unstarted ts
    → (started j (start_threads spawn i ts).2 ≡ with_id j (start_threads spawn i ts).1)
      × (joined j (start_threads spawn i ts).2 ≡ 0)
unfolding start_threads
start_threads-starts spawn i j [] num u = (refl, refl)
start_threads-starts spawn i j (t ∷ ts) num u = elim (Option-cases (spawn i)) [
  | inl none_ ↦ rw (none_, start_threads) (sym (Unstarted-with_id j (t ∷ ts) u), refl)
  | inr (id, got) ↦
      let (a, b) = start_threads-starts spawn (i + 1) j ts num u.1 in
      let live : id ≢ 0 = λ z. num i (got ∙ ap some z) in
      rw (got, start_threads) (ground (arith, a, b))
]

pub start_threads-SameTables :
    (spawn : ℕ → Option ℕ) (i : ℕ) (ts : List Thread) → SameTables ts (start_threads spawn i ts).1
unfolding start_threads
start_threads-SameTables spawn i [] = record { held = λ q. refl; owned = λ heap o. o }
start_threads-SameTables spawn i (t ∷ ts) = elim (Option-cases (spawn i)) [
  | inl none_ ↦ rw (none_, start_threads) (record { held = λ q. refl; owned = λ heap o. o })
  | inr (id, got) ↦
      rw (got, start_threads) (same-cons t _ refl (start_threads-SameTables spawn (i + 1) ts))
]
