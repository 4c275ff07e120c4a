-- ===== src/Listening.antt =====
-- The listening sockets of the three servers: `create_server_socket` of codes/network/reactor/server.c,
-- codes/network/proactor/async_server_proactor.c and codes/network/proactor_epoll/hybrid_proactor.c.
mod Tests
use hepeng_projects.Prelude.{
  ℕ, ◌+◌, ◌≡◌, Bool, true, false, ◌&&◌, not, List, [], ◌∷◌, ◌++◌, Option, none, some, arith,
  if◌then◌else◌, Bool-cases, Option-cases, ◌⊎◌,
}
use hepeng_projects.Prelude.Sockets.{
  SocketGrants, SocketCall, opens, unblocks, closes_socket, binds, listens, first, opened, closed,
}
use hepeng_projects.Reactor.Server as Reactor
use hepeng_projects.Proactor.Server as Proactor
use hepeng_projects.Hybrid.Server as Hybrid

-- Every call succeeds.
abbrev pub all_granted : SocketGrants → Bool
all_granted g = elim g.socket [
  | none ↦ false
  | some fd ↦ g.setsockopt && (g.get_flags && (g.set_flags && (g.bind && g.listen)))
]

-- A socket that listens, or none is left open.
abbrev pub Listens : SocketGrants → (ℕ → SocketCall) → ℕ → ℕ → Option ℕ × List SocketCall → Type 0
Listens g reuses port backlog (some fd, calls) =
    (all_granted g ≡ true)
    × (g.socket ≡ some fd)
    × (calls ≡ opens fd ∷ reuses fd ∷ unblocks fd ∷ binds fd port ∷ listens fd backlog ∷ [])
Listens g reuses port backlog (none, calls) =
    (all_granted g ≡ false)
    × (((g.socket ≡ none) × (calls ≡ []))
        ⊎ ((fd : ℕ) × (between : List SocketCall) × (g.socket ≡ some fd)
            × (calls ≡ opens fd ∷ (between ++ (closes_socket fd ∷ [])))
            × (opened between ≡ 0)
            × (closed between ≡ 0)))
