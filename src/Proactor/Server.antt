-- ===== src/Proactor/Server.antt =====
-- The listening socket of codes/network/proactor/async_server_proactor.c, and `set_nonblock` of
-- proactor.c.
use hepeng_projects.Prelude.{ℕ, not, List, [], ◌∷◌, Option, none, some, if◌then◌else◌}
use hepeng_projects.Prelude.Sockets.{
  SocketGrants, SocketCall, opens, reuses_address, unblocks, closes_socket, binds, listens, first,
}

abbrev pub port : ℕ
port = 8080

unfoldable pub create_server_socket : SocketGrants → ℕ → Option ℕ × List SocketCall
create_server_socket g port = elim g.socket [
  | none ↦ (none, [])
  | some fd ↦ first (opens fd ∷ []) (
      if not g.setsockopt
      then (none, closes_socket fd ∷ [])
      else first (reuses_address fd ∷ []) (
          if not g.get_flags
          then (none, closes_socket fd ∷ [])
          else if not g.set_flags
          then (none, closes_socket fd ∷ [])
          else first (unblocks fd ∷ []) (
              if not g.bind
              then (none, closes_socket fd ∷ [])
              else first (binds fd port ∷ []) (
                  if not g.listen
                  then (none, closes_socket fd ∷ [])
                  else (some fd, listens fd 1024 ∷ [])))))
]
