-- ===== src/RingQueue/Tests.antt =====
-- Concrete rings: the laws at one input each, and runs of the code.
use hepeng_projects.Prelude.{
  ◌-◌, ◌^◌, ◌≡◌, refl, true, false, List, [], ◌∷◌, none, some, arith, set, length-set, ℤ, pos,
}
use hepeng_projects.RingQueue.{RingQueue, zeroed, push, push_batch, pop_batch}
use hepeng_projects.RingQueue.Window.{contents, IsValid}
use hepeng_projects.RingQueue.Spec
use hepeng_projects.RingQueue.Spec.{Op, put, get, put_batch, get_batch}
use hepeng_projects.RingQueue.Single.{length-zeroed}
use hepeng_projects.RingQueue.Each.{push_each, push_batch-push_each}
use hepeng_projects.RingQueue.RoundTrip.{push_batch-pop_batch}
use hepeng_projects.RingQueue.Refine.{run, run_refines}

abbrev fresh : RingQueue
fresh = record {
  head = 0;
  tail = 0;
  buffer = zeroed;
  push_count = 0;
  pop_count = 0;
  push_fail_count = 0;
}

-- Two items, 7 at the last index and the last place, and 8 behind the turn of both.
abbrev wrapped : RingQueue
wrapped = record {
  head = 2 ^ 32 - 1;
  tail = 1;
  buffer = set (set zeroed 65535 (pos 7)) 0 (pos 8);
  push_count = 2;
  pop_count = 0;
  push_fail_count = 0;
}

wrapped-IsValid : IsValid wrapped
wrapped-IsValid = record {
  storage = omega (
    arith,
    length-set (set zeroed 65535 (pos 7)) 0 (pos 8),
    length-set zeroed 65535 (pos 7),
    length-zeroed,
  );
  head_in = omega arith;
  tail_in = omega arith;
  fits = omega arith;
  counted = omega arith;
  pop_count_in = omega arith;
}

abbrev three : List ℤ
three = pos 4 ∷ pos 5 ∷ pos 6 ∷ []

abbrev script : List Op
script = put 0 (pos 1) ∷ get_batch false three 2 ∷ get 1 (pos 0) ∷ put_batch true three 3 ∷ []

run_refines_example : run (some wrapped) script ≡ Spec.run (contents wrapped) script
run_refines_example = run_refines script wrapped-IsValid (omega arith)

-- The bounded queue itself.
spec_keeps_order : Spec.pop_many three three 2 ≡ (2, pos 4 ∷ pos 5 ∷ pos 6 ∷ [], pos 6 ∷ [])
unfolding Spec.pop_many
spec_keeps_order = refl

null_queue : push 0 none (pos 1) ≡ (false, none)
unfolding push
null_queue = refl

abbrev three_items : List ℤ
three_items = pos 3 ∷ pos 4 ∷ pos 5 ∷ []

push_batch-push_each_example :
    push_batch false (some wrapped) (some three_items) 2
    ≡ (2, push_each 1 (some wrapped) (pos 3 ∷ pos 4 ∷ []))
push_batch-push_each_example =
    push_batch-push_each 1 {q = wrapped} three_items 2 wrapped-IsValid (omega arith) (omega arith)

push_batch-pop_batch_example :
    (q : RingQueue) × (pop_batch false
        (push_batch false (some wrapped) (some three_items) 1).1
        (some (pos 0 ∷ three_items))
        3
      ≡ (3, some (pos 7 ∷ pos 8 ∷ pos 3 ∷ pos 5 ∷ []), some q))
    × IsValid q
    × (contents q ≡ [])
unfolding zeroed
push_batch-pop_batch_example =
    push_batch-pop_batch {q = wrapped} three_items (pos 0 ∷ three_items) 1 wrapped-IsValid
      (omega arith) (omega arith) (omega arith)
