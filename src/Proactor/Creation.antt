-- ===== src/Proactor/Creation.antt =====
-- `proactor_init` of codes/network/proactor/proactor.c. The calls that acquire something are
-- parameters; what is acquired and released is written to a log, oldest first. The mutex and the
-- condition variable are not followed, nor is `listen_fd`, which main sets.
use hepeng_projects.Prelude.{
  ℕ, zero, suc, ◌+◌, ◌≡◌, refl, Bool, true, List, [], ◌∷◌, ◌++◌, Option, none, some, get_or,
  replicate, length-replicate, ◌==◌, if◌then◌else◌, pos, inl, inr, Bool-cases, Option-cases,
}
use hepeng_projects.Proactor.Connection.{Proactor, World}
use hepeng_projects.Proactor.Ownership.{Owns}

pub data Resource : Type 0 where
  aio_context epoll exit_event connection_array thread_array : Resource

pub data Act : Type 0 where
  acquires releases : Resource → Act

-- What `io_setup`, `epoll_create1`, `eventfd`, `calloc` and `malloc` give; `none` is a negative
-- number.
pub record Grants : Type 0 where
  pub io_setup : Bool
  pub epoll_create : Option ℕ
  pub eventfd : Option ℕ
  pub calloc : Bool
  pub malloc : Bool

-- The proactor that `proactor_init` leaves when it succeeds.
unfoldable pub new_proactor : ℕ → ℕ → ℕ → ℕ → Proactor
new_proactor thread_count max_conn epoll_fd exit_event_fd = record {
  epoll_fd = pos epoll_fd;
  running = true;
  exit_event_fd = pos exit_event_fd;
  thread_count = thread_count;
  pending_ops = [];
  connections = replicate max_conn none;
  max_connections = max_conn;
}

-- `proactor_init` once both descriptors are there.
unfoldable pub allocate : Grants → Proactor → Option Proactor × List Act
allocate g p =
    if g.calloc
    then (if g.malloc then (some p, acquires connection_array ∷ acquires thread_array ∷ []) else (
      none,
      acquires connection_array
          ∷ releases connection_array
          ∷ releases epoll
          ∷ releases exit_event
          ∷ releases aio_context
          ∷ [],
    ))
    else (none, releases epoll ∷ releases exit_event ∷ releases aio_context ∷ [])

abbrev pub after : List Act → Option Proactor × List Act → Option Proactor × List Act
after acts (p, more) = (p, acts ++ more)

unfoldable pub proactor_init : Grants → ℕ → ℕ → Option Proactor × List Act
unfolding allocate new_proactor
proactor_init g thread_count max_conn =
    if g.io_setup
    then after (acquires aio_context ∷ []) (elim g.epoll_create [
      | none ↦ (none, releases aio_context ∷ [])
      | some e ↦ after (acquires epoll ∷ []) (elim g.eventfd [
        | none ↦ (none, releases epoll ∷ releases aio_context ∷ [])
        | some x ↦
            after (acquires exit_event ∷ []) (allocate g (new_proactor thread_count max_conn e x))
      ])
    ])
    else (none, [])

abbrev index : Resource → ℕ
index aio_context = 0
index epoll = 1
index exit_event = 2
index connection_array = 3
index thread_array = 4

-- How often a log acquires and releases a resource.
abbrev pub acquired : Resource → List Act → ℕ
acquired r [] = 0
acquired r (acquires s ∷ acts) = (if index r == index s then 1 else 0) + acquired r acts
acquired r (releases s ∷ acts) = acquired r acts

abbrev pub released : Resource → List Act → ℕ
released r [] = 0
released r (acquires s ∷ acts) = released r acts
released r (releases s ∷ acts) = (if index r == index s then 1 else 0) + released r acts

-- The world in which a new proactor starts.
abbrev pub new_world : Proactor → World
new_world p = record { proactor = p; contexts = λ q. none; handlers = λ h. none; log = [] }

-- Either a proactor that runs, whose array agrees with the empty heaps, and which holds every
-- resource, or none, and every resource that was acquired has been released.
abbrev pub AllOrNothing : Option Proactor × List Act → Type 0
AllOrNothing (some p, acts) =
    (p.running ≡ true)
    × Owns (new_world p)
    × ((r : Resource) → (acquired r acts ≡ 1) × (released r acts ≡ 0))
AllOrNothing (none, acts) = (r : Resource) → acquired r acts ≡ released r acts

replicate-none : (n i q : ℕ) → get_or {A = Option ℕ} (replicate n none) i none ≡ some q → ⊥
replicate-none zero i q e = cc
replicate-none (suc n) zero q e = cc
replicate-none (suc n) (suc i) q e = replicate-none n i q e

new_world-Owns : (t m e x : ℕ) → Owns (new_world (new_proactor t m e x))
unfolding new_proactor
new_world-Owns t m e x = record {
  sized = length-replicate {A = Option ℕ} m none;
  live = λ n q h. absurd (replicate-none m n q h);
}

-- A proof for each resource.
each :
    (P : Resource → Type 0)
    → P aio_context
    → P epoll
    → P exit_event
    → P connection_array
    → P thread_array
    → (r : Resource) → P r
each P a b c d e aio_context = a
each P a b c d e epoll = b
each P a b c d e exit_event = c
each P a b c d e connection_array = d
each P a b c d e thread_array = e

abbrev Balanced : List Act → Resource → Type 0
Balanced acts r = acquired r acts ≡ released r acts

abbrev Held : List Act → Resource → Type 0
Held acts r = (acquired r acts ≡ 1) × (released r acts ≡ 0)

-- What has been acquired before the two arrays.
abbrev opened : List Act
opened = acquires aio_context ∷ acquires epoll ∷ acquires exit_event ∷ []

-- What is released when one of them cannot be had.
abbrev closing : List Act
closing = releases epoll ∷ releases exit_event ∷ releases aio_context ∷ []

allocate-AllOrNothing :
    (g : Grants) (t m e x : ℕ) → AllOrNothing (after opened (allocate g (new_proactor t m e x)))
unfolding allocate new_proactor
allocate-AllOrNothing g t m e x = elim (Bool-cases g.calloc) [
  | inr h ↦ rw (h, allocate) (each (Balanced (opened ++ closing)) refl refl refl refl refl)
  | inl h ↦ elim (Bool-cases g.malloc) [
    | inr k ↦
        rw (h, k, allocate)
          (each
            (Balanced (opened ++ (acquires connection_array ∷ releases connection_array ∷ closing)))
            refl refl refl refl refl)
    | inl k ↦
        let acts = opened ++ (acquires connection_array ∷ acquires thread_array ∷ []) in
        let held =
          each (Held acts) (refl, refl) (refl, refl) (refl, refl) (refl, refl) (refl, refl) in
        rw (h, k, allocate) (refl, new_world-Owns t m e x, held)
  ]
]

-- `proactor_init`, whatever the system grants: it gives a running proactor, without connections and in
-- agreement with empty heaps, and then it has acquired each of its resources once and released none; or
-- it gives none, and has released each resource as often as acquired.
pub proactor_init-AllOrNothing :
    (g : Grants) (thread_count max_conn : ℕ) → AllOrNothing (proactor_init g thread_count max_conn)
unfolding proactor_init
proactor_init-AllOrNothing g t m = elim (Bool-cases g.io_setup) [
  | inr h ↦ rw (h, proactor_init) (each (Balanced []) refl refl refl refl refl)
  | inl h ↦ elim (Option-cases g.epoll_create) [
    | inl k ↦
        rw (h, k, proactor_init)
          (each (Balanced (acquires aio_context ∷ releases aio_context ∷ [])) refl refl refl refl
            refl)
    | inr (e, k) ↦ elim (Option-cases g.eventfd) [
      | inl l ↦
          rw (h, k, l, proactor_init)
            (each
              (Balanced (
                acquires aio_context ∷ acquires epoll ∷ releases epoll ∷ releases aio_context ∷ []))
              refl refl refl refl refl)
      | inr (x, l) ↦ rw (h, k, l, proactor_init) (allocate-AllOrNothing g t m e x)
    ]
  ]
]
