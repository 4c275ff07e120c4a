-- ===== src/Hybrid/Rounds.antt =====
-- The events of a round of `worker_thread_func` in codes/network/proactor_epoll/hybrid_proactor.c.
use hepeng_projects.Prelude.{ℕ, ◌≡◌, refl, sym, ◌∙◌, true, false, List, [], ◌∷◌, some, arith}
use hepeng_projects.Hybrid.Connection.{World}
use hepeng_projects.Hybrid.Ownership.{Owns, has, distinct}
use hepeng_projects.Hybrid.Keeping.{Lawful}
use hepeng_projects.Hybrid.Answering.{NeverBroken}
use hepeng_projects.Hybrid.Worker.{Event, exit_event, no_connection, ready, handle_events}
use hepeng_projects.Hybrid.Safety.{Handled, Live, StaysIf, mt_handle_connection_event-Safe}

-- The connections of some events.
abbrev pub pointers : List Event → List ℕ
pointers [] = []
pointers (exit_event ∷ es) = pointers es
pointers (no_connection ∷ es) = pointers es
pointers (ready p f k k' ∷ es) = p ∷ pointers es

-- Each connection is live and the worker's, and stays while its event is handled, if it has to.
abbrev pub Manageable : World → List Event → Type 0
Manageable w [] = Unit
Manageable w (exit_event ∷ es) = Manageable w es
Manageable w (no_connection ∷ es) = Manageable w es
Manageable w (ready p f k k' ∷ es) =
    Live w p × Lawful k × NeverBroken k × StaysIf f.out (k.recv 4095) × Lawful k' × Manageable w es

-- Handling an event of another connection does not matter.
Handled-Manageable :
    {w : World} {p : ℕ} {v : World} (es : List Event)
    → Handled w p v
    → has p (pointers es) ≡ false
    → Manageable w es
    → Manageable v es
Handled-Manageable [] h out m = tt
Handled-Manageable (exit_event ∷ es) h out m = Handled-Manageable es h out m
Handled-Manageable (no_connection ∷ es) h out m = Handled-Manageable es h out m
Handled-Manageable {w} {p} {v} (ready q f k k' ∷ es) h out
      ((c, here, own), lawful, whole, stays, lawful', rest) =
    (
      (c, h.others q (ground arith) ∙ here, own ∙ sym h.id),
      lawful,
      whole,
      stays,
      lawful',
      Handled-Manageable es h (ground arith) rest,
    )

-- A worker handles a list of events, with any flags, of distinct live connections of its own, with the
-- exit event and null pointers anywhere among them. If no `write` of a half that reads fails for
-- another reason than EAGAIN, and, where an event is also writable, `read` finds neither the end of the
-- stream nor a broken connection, no freed memory is used, and afterwards the list of the worker holds
-- its live connections, each once.
pub handle_events-Owns :
    (es : List Event) (w : World)
    → distinct (pointers es) ≡ true
    → Owns w
    → Manageable w es
    → (w' : World) × (handle_events w es ≡ some w') × Owns w'
unfolding handle_events
handle_events-Owns [] w d o m = (w, refl, o)
handle_events-Owns (exit_event ∷ es) w d o m = (_, refl, o)
handle_events-Owns (no_connection ∷ es) w d o m = handle_events-Owns es w d o m
handle_events-Owns (ready p f k k' ∷ es) w d o (live, lawful, whole, stays, lawful', rest) =
    let (v, runs, h) =
      mt_handle_connection_event-Safe k k' w p f lawful whole stays lawful' o live in
    let (w', e, o') =
      handle_events-Owns es v (ground arith) h.owns (Handled-Manageable es h (ground arith) rest) in
    (w', rw (runs, handle_events) e, o')
