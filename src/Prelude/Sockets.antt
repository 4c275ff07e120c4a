-- ===== src/Prelude/Sockets.antt =====
-- What the calls that open a listening socket do, as their manual pages document it.
use Prim.Native.Nat.{ℕ, suc}
use mathlib.Core.Bool.{Bool}
use mathlib.Core.Option.{Option}
use mathlib.Core.List.{List, [], ◌∷◌, ◌++◌}

-- Whether the calls of a program succeed: `socket` gives a descriptor, `none` for -1, and the others
-- are `setsockopt`, `fcntl` with F_GETFL and with F_SETFL, `bind` and `listen`.
pub record SocketGrants : Type 0 where
  pub socket : Option ℕ
  pub setsockopt : Bool
  pub get_flags : Bool
  pub set_flags : Bool
  pub bind : Bool
  pub listen : Bool

-- The calls that took effect, with the socket: SO_REUSEADDR or with SO_REUSEPORT, O_NONBLOCK, the port,
-- the backlog.
pub data SocketCall : Type 0 where
  opens reuses_address reuses_both unblocks closes_socket : ℕ → SocketCall
  binds listens : ℕ → ℕ → SocketCall

-- The first call, and then what follows.
abbrev pub first : List SocketCall → Option ℕ × List SocketCall → Option ℕ × List SocketCall
first calls (fd, more) = (fd, calls ++ more)

-- How often some calls open a socket less how often they close it: it is open at the end.
abbrev pub opened : List SocketCall → ℕ
opened [] = 0
opened (opens fd ∷ calls) = suc (opened calls)
opened (_ ∷ calls) = opened calls

abbrev pub closed : List SocketCall → ℕ
closed [] = 0
closed (closes_socket fd ∷ calls) = suc (closed calls)
closed (_ ∷ calls) = closed calls
