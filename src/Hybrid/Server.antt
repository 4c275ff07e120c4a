-- ===== src/Hybrid/Server.antt =====
-- The listening socket of codes/network/proactor_epoll/hybrid_proactor.c.
use hepeng_projects.Prelude.{ℕ, Bool, false, not, List, [], ◌∷◌, Option, none, some, if◌then◌else◌}
use hepeng_projects.Prelude.Sockets.{
  SocketGrants, SocketCall, opens, reuses_address, unblocks, closes_socket, binds, listens, first,
}

-- The flag stands for a result that is not negative.
unfoldable pub set_nonblock : SocketGrants → ℕ → Bool × List SocketCall
set_nonblock g fd =
    if not g.get_flags
    then (false, [])
    else (g.set_flags, if g.set_flags then unblocks fd ∷ [] else [])

unfoldable pub create_server_socket : SocketGrants → ℕ → Option ℕ × List SocketCall
unfolding set_nonblock
create_server_socket g port = elim g.socket [
  | none ↦ (none, [])
  | some fd ↦
      let (unblocked, calls) = set_nonblock g fd in
      first (opens fd ∷ []) (
        if not g.setsockopt
        then (none, closes_socket fd ∷ [])
        else first (reuses_address fd ∷ calls) (
            if not unblocked
            then (none, closes_socket fd ∷ [])
            else if not g.bind
            then (none, closes_socket fd ∷ [])
            else first (binds fd port ∷ []) (
                if not g.listen
                then (none, closes_socket fd ∷ [])
                else (some fd, listens fd 1024 ∷ []))))
]
