-- ===== src/Comm/Tests.antt =====
-- Runs of the list and the queue, and the theorems at concrete stores.
use gateway_project.Base.{◌≡◌, ◌≢◌, refl, [], ◌∷◌, ◌++◌, true, none, some, arith, ok}
use mathlib.Core.List.{reverse}
use gateway_project.Comm.Heap.{Ptr, null, elmt, put}
use gateway_project.Comm.LinkedList.{Store, list_init, Cleaned, list_clean, queue_enqueue}
use gateway_project.Comm.Cells.{Cells, IsList}
use gateway_project.Comm.Remove.{data_of, IsFreed, list_clean-nil}
use gateway_project.Comm.Queue.{
  queue_enqueue-append, enqueue, dequeue, Taken, run_queue, run_queue-run_fifo,
}

abbrev empty : Store
empty = record { heap = λ a. none; list = list_init }

-- Two elements at the addresses 4 and 9.
abbrev two : Store
two = record {
  heap = put (put (λ a. none) 9 (some (elmt 60 null))) 4 (some (elmt 50 9));
  list = record { size = 2; head = 4; tail = 9 };
}

abbrev two_cells : Cells
two_cells = (4, 50) ∷ (9, 60) ∷ []

two-IsList : IsList two two_cells
two-IsList = record {
  linked = (omega arith, refl, refl, (omega arith, refl, refl, tt));
  size = refl;
  head = refl;
  tail = refl;
}

list_clean-nil_example :
    (c : Cleaned) × (list_clean true two ≡ ok c)
    × (c.destroyed ≡ reverse (data_of two_cells))
    × IsList c.store []
    × IsFreed two_cells two.heap c.store.heap
list_clean-nil_example = list_clean-nil two two_cells two-IsList

queue_enqueue-append_example :
    (s' : Store) × (queue_enqueue 7 two 55 ≡ ok s')
    × IsList s' (two_cells ++ ((7, 55) ∷ []))
    × ((b : Ptr) → b ≢ 7 → b ≢ 9 → s'.heap b ≡ two.heap b)
queue_enqueue-append_example = queue_enqueue-append 7 55 two two_cells two-IsList (omega arith) refl

run_queue-run_fifo_example :
    (t : Taken) × (ys : Cells) × (run_queue two (enqueue 7 55 ∷ dequeue ∷ dequeue ∷ []) ≡ ok t)
    × (t.out ≡ 50 ∷ 60 ∷ [])
    × IsList t.store ys
    × (data_of ys ≡ 55 ∷ [])
run_queue-run_fifo_example =
    run_queue-run_fifo (enqueue 7 55 ∷ dequeue ∷ dequeue ∷ []) two two_cells (50 ∷ 60 ∷ [])
      (55 ∷ []) two-IsList (omega arith, refl, λ s' e r e' r' e''. tt) refl
