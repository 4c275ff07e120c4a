-- ===== src/Proactor/Workers/Tests.antt =====
-- Two workers and a stop.
use hepeng_projects.Prelude.{◌+◌, ◌≡◌, refl, true, false, List, [], ◌∷◌, arith, get_or}
use hepeng_projects.Proactor.Connection.{accepted, refused}
use hepeng_projects.Proactor.Workers.{
  at_test, waiting, exited, holding, Pool, Happening, submits, advances, stops, happen_all,
}
use hepeng_projects.Proactor.Workers.Conservation.{present, submitted, happen_all-present}
use hepeng_projects.Proactor.Workers.Stopping.{happen_all-exited}
use hepeng_projects.Proactor.Tests.{one_guest, guest_read}

abbrev two_workers : Pool
two_workers = record {
  world = one_guest;
  workers = at_test ∷ waiting ∷ [];
  kernel = [];
  freed = [];
}

-- The first worker takes the operation, the second finds none, and the first hands it to the kernel when
-- the proactor has been stopped.
abbrev busy : List Happening
busy =
    submits guest_read
    ∷ advances 0 false accepted
    ∷ advances 0 false accepted
    ∷ advances 1 true accepted
    ∷ stops
    ∷ advances 0 false accepted
    ∷ []

happen_all-present_example :
    present (λ op. true) (happen_all busy two_workers)
    ≡ submitted (λ op. true) busy + present (λ op. true) two_workers
happen_all-present_example = happen_all-present (λ op. true) busy two_workers

abbrev interrupted : Pool
interrupted = record {
  world = record one_guest { proactor = record one_guest.proactor { running = false } };
  workers = holding guest_read ∷ waiting ∷ [];
  kernel = [];
  freed = [];
}

-- The kernel refuses the read of the first worker for now.
abbrev last_steps : List Happening
last_steps = advances 0 false refused ∷ advances 1 true accepted ∷ advances 0 false accepted ∷ []

happen_all-exited_example : get_or (happen_all last_steps interrupted).workers 0 exited ≡ exited
happen_all-exited_example = happen_all-exited 0 last_steps interrupted refl (omega arith)
