-- ===== src/Prelude/Kernel.antt =====
-- What the system calls of the servers give, as their manual pages document it.
use Prim.Native.Nat.{ℕ, ◌≤◌}
use mathlib.Core.List.{List}
use hepeng_projects.Prelude.Lists.{length}

-- `errno` after a failed read, write or accept: EAGAIN and EWOULDBLOCK, or another.
pub data Errno : Type 0 where
  again other : Errno

-- What a `read` gives: the bytes, none at the end of the stream, or -1.
pub data Read : Type 0 where
  got : List ℕ → Read
  read_failed : Errno → Read

-- What a `write` gives: the number of bytes taken, or -1.
pub data Write : Type 0 where
  took : ℕ → Write
  write_failed : Errno → Write

-- A call of `n` bytes moves at most `n`.
abbrev pub AtMost : Read → ℕ → Type 0
AtMost (got xs) n = length xs ≤ n
AtMost (read_failed e) n = Unit

abbrev pub TakesAtMost : Write → ℕ → Type 0
TakesAtMost (took k) n = k ≤ n
TakesAtMost (write_failed e) n = Unit

-- What `io_submit` gives for one operation: 1, -EAGAIN, or another value.
pub data Submitted : Type 0 where
  accepted refused failed : Submitted

-- What an `accept` gives: a descriptor, which is no negative number, or -1.
pub data Accept : Type 0 where
  connected : ℕ → Accept
  accept_failed : Errno → Accept
