-- ===== src/Tests/Queues.antt =====
-- prot_queue.c on queues of numbers.
use soter.Base.{ℕ, ◌≡◌, refl, List, [], ◌∷◌, arith, nat_bytes}
use soter.Queue.{Queue}
use soter.Queue.Ring.{IsValid, contents}
use soter.Queue.Fifo.{Op, enqueue, enqueue_new, dequeue, look, measure, run, spec_run, run-refines}

-- A full ring of two cells whose elements go round the end.
abbrev wrapped : Queue ℕ
wrapped = record { cells = λ i. i; cap = 2; head = 1; tail = 1; count = 2 }

wrapped-IsValid : IsValid wrapped
wrapped-IsValid = record {
  small = omega arith;
  head_in = omega arith;
  count_in = omega arith;
  tail_at = refl;
}

abbrev calls : List (Op ℕ)
calls = enqueue 5 ∷ enqueue_new 5 ∷ measure ∷ dequeue ∷ look ∷ []

run-refines_example : run (λ _. 0) calls wrapped ≡ spec_run calls (contents wrapped)
run-refines_example = run-refines (λ _. 0) calls wrapped wrapped-IsValid (omega arith) (omega arith)
