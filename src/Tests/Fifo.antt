-- ===== src/Tests/Fifo.antt =====
-- The buffer of src/fifo.c on small inputs.
use lthread.Base.{◌≡◌, refl, ◌+◌, ◌<◌, ◌^◌, true, false, some, List, [], ◌∷◌, arith}
use lthread.Fifo.{
  Queue, failed, einval, queue_init, queue_add, queue_remove, queue_peek, add_pos, advance,
  max_capacity,
}
use lthread.Fifo.Spec
use lthread.Fifo.Spec.{Op, put, get, look, added, value}
use lthread.Fifo.Bounds.{IsValid, no_overflow}
use lthread.Fifo.Refine.{run, run_refines}

-- 8, then 9, round the end of the storage
abbrev wrapped : Queue
wrapped = record { size = 2; next = 2; capacity = 3; slots = 9 ∷ 7 ∷ 8 ∷ [] }

abbrev script : List Op
script = put 1 ∷ put 2 ∷ look ∷ get ∷ get ∷ get ∷ get ∷ []

wrapped-IsValid : IsValid wrapped
wrapped-IsValid = omega arith

run-wrapped :
    run wrapped script
    ≡ added true ∷ added false ∷ value 8 ∷ value 8 ∷ value 9 ∷ value 1 ∷ value 0 ∷ []
unfolding run queue_add queue_remove queue_peek
run-wrapped = refl

too_large : queue_init (max_capacity + 1) true (some []) ≡ failed einval
unfolding queue_init
too_large = refl

run_refines_example : run wrapped script ≡ Spec.run 3 (8 ∷ 9 ∷ []) script
run_refines_example = run_refines wrapped script wrapped-IsValid

abbrev fresh : Queue
fresh = record { size = 0; next = 0; capacity = 2; slots = 5 ∷ 6 ∷ [] }

no_overflow_example :
    (4 < 2 ^ 31)
    × (3 < 2 ^ 31)
    × (3 < 2 ^ 31)
    × (add_pos wrapped < 3)
    × (2 < 3)
    × (advance wrapped < 3)
no_overflow_example = no_overflow wrapped wrapped-IsValid
