-- ===== src/Reactor/Echo.antt =====
-- What a connection owes its peer: every byte that was read and not yet written back. Reading,
-- moving bytes between the buffers and writing neither lose, repeat nor reorder any.
use hepeng_projects.Prelude.{
  ℕ, ◌+◌, ◌-◌, ◌≤◌, ◌≡◌, refl, sym, ap, ◌∙◌, inl, inr, ◌&&◌, List, [], ◌∷◌, ◌++◌, append_assoc,
  append-nil, arith, length, take, drop, length-take, length-replicate, take-append_left,
  Bool-cases, ltb, ◌==◌, add32,
}
pub use hepeng_projects.Prelude.Kernel.{AtMost, TakesAtMost}
use hepeng_projects.Prelude.Memory.{
  read_at, length-write_at, read_at-eq-take, write_at_start, take-write_at,
}
use hepeng_projects.Reactor.Connection.{
  Connection, buffer_size, Call, reads, writes, epoll_add, epoll_mod, epoll_del, closes, zero_bytes,
  move_to_write, handle_add_write, remaining, receive,
}

pub record IsValid (c : Connection) : Type 0 where
  pub read_room : length c.read_buf ≡ buffer_size
  pub write_room : length c.write_buf ≡ buffer_size
  pub read_in : c.read_len ≤ buffer_size
  pub sent_in : c.write_sent ≤ c.write_len
  pub write_in : c.write_len ≤ buffer_size

-- Bytes read that are not in the write buffer yet, and bytes there that are not sent yet.
abbrev pub unread : Connection → List ℕ
unread c = take c.read_len c.read_buf

abbrev pub pending : Connection → List ℕ
pending c = take (c.write_len - c.write_sent) (drop c.write_sent c.write_buf)

abbrev pub owed : Connection → List ℕ
owed c = pending c ++ unread c

-- The bytes that the calls of a log read and wrote.
abbrev pub bytes_read : List Call → List ℕ
bytes_read [] = []
bytes_read (reads fd xs ∷ calls) = xs ++ bytes_read calls
bytes_read (_ ∷ calls) = bytes_read calls

abbrev pub bytes_written : List Call → List ℕ
bytes_written [] = []
bytes_written (writes fd xs ∷ calls) = xs ++ bytes_written calls
bytes_written (_ ∷ calls) = bytes_written calls

pub length-zero_bytes : length zero_bytes ≡ buffer_size
unfolding zero_bytes
length-zero_bytes = length-replicate {A = ℕ} buffer_size 0

module _ {c : Connection} (v : IsValid c) where
  module _ (xs : List ℕ) (fits : length xs ≤ remaining c) where
    receive-IsValid : IsValid (receive c xs)
    unfolding receive
    receive-IsValid = record {
      read_room = length-write_at c.read_buf c.read_len xs ∙ v.read_room;
      write_room = v.write_room;
      read_in = omega arith;
      sent_in = v.sent_in;
      write_in = v.write_in;
    }

    owed-receive : owed (receive c xs) ≡ owed c ++ xs
    unfolding receive
    owed-receive =
        let e : add32 c.read_len (length xs) ≡ c.read_len + length xs = omega arith in
        rw (e, take-write_at c.read_buf c.read_len xs (omega arith))
          (sym (append_assoc (pending c) (unread c) xs))

  move_to_write-IsValid : IsValid (move_to_write c)
  unfolding move_to_write
  move_to_write-IsValid =
      ground (arith, length-write_at c.write_buf c.write_sent (read_at 0 c.read_buf 0 c.read_len))

  owed-move_to_write : owed (move_to_write c) ≡ owed c
  unfolding move_to_write
  owed-move_to_write =
      elim (Bool-cases ((c.write_len == 0) && ltb (add32 c.write_sent c.read_len) buffer_size)) [
        | inl moves ↦
            let none_sent : c.write_sent ≡ 0 = ground arith in
            let none_held : c.write_len ≡ 0 = ground arith in
            let len : add32 0 c.read_len - 0 ≡ c.read_len = omega arith in
            rw
              (
                moves,
                none_sent,
                none_held,
                len,
                read_at-eq-take 0 c.read_buf 0 c.read_len (omega arith),
                write_at_start c.write_buf (take c.read_len c.read_buf)
                    (omega (arith, length-take c.read_len c.read_buf)),
                append-nil,
              )
              (take-append_left (take c.read_len c.read_buf) _ c.read_len
                (omega (arith, length-take c.read_len c.read_buf)))
        | inr keeps ↦ rw keeps refl
      ]

-- What a stretch of calls `calls` from `c` to `c'` does to the bytes owed: those read come last, and
-- those written were the first.
pub record Echoes (c : Connection) (calls : List Call) (c' : Connection) : Type 0 where
  pub valid : IsValid c'
  pub balance : owed c ++ bytes_read calls ≡ bytes_written calls ++ owed c'

pub Echoes-none : {c : Connection} → IsValid c → Echoes c [] c
Echoes-none {c} v = record { valid = v; balance = append-nil (owed c) }

bytes_read-append : (xs ys : List Call) → bytes_read (xs ++ ys) ≡ bytes_read xs ++ bytes_read ys
bytes_read-append [] ys = refl
bytes_read-append (reads fd bs ∷ xs) ys =
    ap (◌++◌ bs) (bytes_read-append xs ys) ∙ sym (append_assoc bs (bytes_read xs) (bytes_read ys))
bytes_read-append (writes fd bs ∷ xs) ys = bytes_read-append xs ys
bytes_read-append (epoll_add fd ∷ xs) ys = bytes_read-append xs ys
bytes_read-append (epoll_mod fd i ∷ xs) ys = bytes_read-append xs ys
bytes_read-append (epoll_del fd ∷ xs) ys = bytes_read-append xs ys
bytes_read-append (closes fd ∷ xs) ys = bytes_read-append xs ys

bytes_written-append :
    (xs ys : List Call) → bytes_written (xs ++ ys) ≡ bytes_written xs ++ bytes_written ys
bytes_written-append [] ys = refl
bytes_written-append (writes fd bs ∷ xs) ys =
    ap (◌++◌ bs) (bytes_written-append xs ys)
    ∙ sym (append_assoc bs (bytes_written xs) (bytes_written ys))
bytes_written-append (reads fd bs ∷ xs) ys = bytes_written-append xs ys
bytes_written-append (epoll_add fd ∷ xs) ys = bytes_written-append xs ys
bytes_written-append (epoll_mod fd i ∷ xs) ys = bytes_written-append xs ys
bytes_written-append (epoll_del fd ∷ xs) ys = bytes_written-append xs ys
bytes_written-append (closes fd ∷ xs) ys = bytes_written-append xs ys

pub Echoes-trans :
    {c d e : Connection} (xs ys : List Call) → Echoes c xs d → Echoes d ys e → Echoes c (xs ++ ys) e
Echoes-trans {c} {d} {e} xs ys first second = record {
  valid = second.valid;
  balance =
      rw (bytes_read-append xs ys, bytes_written-append xs ys)
        (sym (append_assoc (owed c) (bytes_read xs) (bytes_read ys))
          ∙ ap (λ w. w ++ bytes_read ys) first.balance
          ∙ append_assoc (bytes_written xs) (owed d) (bytes_read ys)
          ∙ ap (◌++◌ (bytes_written xs)) second.balance
          ∙ sym (append_assoc (bytes_written xs) (bytes_written ys) (owed e)));
}

-- One read of the loop, with the move to the write buffer that follows it.
pub Echoes-receive :
    {c : Connection} (xs : List ℕ)
    → IsValid c
    → length xs ≤ remaining c
    → let (c', calls) = handle_add_write (receive c xs) in Echoes c (reads c.fd xs ∷ calls) c'
unfolding handle_add_write
Echoes-receive {c} xs v fits = record {
  valid = move_to_write-IsValid (receive-IsValid v xs fits);
  balance =
      ap (◌++◌ (owed c)) (append-nil xs)
      ∙ sym (owed-receive v xs fits)
      ∙ sym (owed-move_to_write (receive-IsValid v xs fits));
}
