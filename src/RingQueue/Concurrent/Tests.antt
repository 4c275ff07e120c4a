-- ===== src/RingQueue/Concurrent/Tests.antt =====
-- Runs of two threads on concrete rings.
use hepeng_projects.Prelude.{◌<◌, ◌≤◌, ◌≡◌, refl, List, [], ◌∷◌, ◌++◌, arith, take, drop, set, pos}
use hepeng_projects.RingQueue.{RingQueue, ring_queue_size, used, zeroed, item_at}
use hepeng_projects.RingQueue.Window.{contents, IsValid}
use hepeng_projects.RingQueue.Single.{length-zeroed, length-contents}
use hepeng_projects.RingQueue.Concurrent.{
  Consume, Label, silent, enqueues, dequeues, written, taking, copied, write, System, Run, stays,
  goes, produces, ledger, AllAllowed, idle,
}
use hepeng_projects.RingQueue.Concurrent.Agreement.{settled}
use hepeng_projects.RingQueue.Concurrent.Delivery.{Run-Allowed, run-delivers}
use hepeng_projects.RingQueue.Concurrent.Races.{pushes, pops, stale_delivered, fresh_delivered}

abbrev fresh : RingQueue
fresh = record {
  head = 0;
  tail = 0;
  buffer = zeroed;
  push_count = 0;
  pop_count = 0;
  push_fail_count = 0;
}

fresh-IsValid : IsValid fresh
fresh-IsValid = record {
  storage = length-zeroed;
  head_in = omega arith;
  tail_in = omega arith;
  fits = omega arith;
  counted = omega arith;
  pop_count_in = omega arith;
}

abbrev packed : RingQueue
packed = record fresh { tail = 65536; push_count = 65536 }

packed-IsValid : IsValid packed
packed-IsValid = record {
  storage = length-zeroed;
  head_in = omega arith;
  tail_in = omega arith;
  fits = omega arith;
  counted = omega arith;
  pop_count_in = omega arith;
}

-- A push of 7 up to its write, and a pop up to its exchange.
abbrev passed : List Label
passed =
    dequeues 1
    ∷ silent
    ∷ silent
    ∷ silent
    ∷ silent
    ∷ enqueues (pos 7)
    ∷ silent
    ∷ silent
    ∷ silent
    ∷ []

abbrev at_copy : System
at_copy = record {
  ring = record fresh { head = 1; tail = 1; buffer = set zeroed 0 (pos 7) };
  producer = written;
  consumer = taking (pos 9 ∷ pos 8 ∷ []) 0 0 1;
}

pass : Run (idle fresh) passed at_copy
pass =
    let r0 : Run (idle fresh) [] (idle fresh) = stays in
    pops (pos 9 ∷ pos 8 ∷ []) (omega arith) (omega arith)
      (goes (pushes (pos 7) (omega arith) r0) (produces write))

Run-Allowed_example :
    AllAllowed [] passed
    × (used at_copy.ring ≤ ring_queue_size)
    × (contents (settled at_copy.producer at_copy.ring) ≡ (ledger [] passed).queue)
Run-Allowed_example = Run-Allowed {q = fresh} fresh-IsValid pass

run-delivers_example :
    (0 < 1)
    × Consume at_copy.ring at_copy.consumer silent at_copy.ring (taking (pos 7 ∷ pos 8 ∷ []) 1 1 0)
run-delivers_example =
    run-delivers {q = fresh} (pos 9 ∷ pos 8 ∷ []) 0 0 0 fresh-IsValid pass refl refl (omega arith)

stale_delivered_example :
    (s : System) × (ls : List Label) × Run (idle fresh) ls s
    × (s.consumer ≡ copied (item_at zeroed 0 ∷ pos 8 ∷ []) 1)
    × ((ledger [] ls).owed ≡ pos 7 ∷ [])
stale_delivered_example =
    stale_delivered {q = fresh} (pos 7) (pos 9) (pos 8 ∷ []) fresh-IsValid refl

fresh_delivered_example :
    (s : System) × (ls : List Label) × Run (idle packed) ls s
    × (s.consumer ≡ copied (pos 7 ∷ []) 1)
    × (contents s.ring ≡ drop 1 (contents packed) ++ (pos 7 ∷ []))
    × ((ledger (contents packed) ls).owed ≡ take 1 (contents packed))
fresh_delivered_example =
    fresh_delivered {q = packed} (pos 7) (pos 9) [] packed-IsValid (length-contents packed)
