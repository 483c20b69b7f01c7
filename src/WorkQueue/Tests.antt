-- ===== src/WorkQueue/Tests.antt =====
-- Runs of sys/work_queue.c on an empty queue.
use bored_os.Base.{◌≡◌, refl, some, none, List, [], ◌∷◌, ◌++◌, arith}
use bored_os.WorkQueue.{WorkQueue, drain}
use bored_os.WorkQueue.Fifo.{IsValid, contents, Call, submits, drains, run, run_fifo, drain_total}

abbrev idle : WorkQueue
idle = record { items = λ i. record { fn = none; arg = 0 }; head = 63; tail = 63 }

idle-IsValid : IsValid idle
idle-IsValid = record { head_in = omega arith; tail_in = omega arith }

abbrev calls : List Call
calls = submits (some 5) 1 ∷ submits none 2 ∷ drains ∷ submits (some 6) 3 ∷ []

run_fifo_example :
    IsValid (run idle calls).0
    × ((run idle calls).1 ++ contents (run idle calls).0 ≡ contents idle ++ (run idle calls).2)
run_fifo_example = run_fifo calls idle idle-IsValid

-- Two items wait, on both sides of the ring's end.
abbrev two_waiting : WorkQueue
two_waiting = record { items = λ i. record { fn = some i; arg = 7 }; head = 63; tail = 1 }

two_waiting-IsValid : IsValid two_waiting
two_waiting-IsValid = record { head_in = omega arith; tail_in = omega arith }

drain_run :
    (drain 64 two_waiting).1
    ≡ record { fn = some 63; arg = 7 } ∷ record { fn = some 0; arg = 7 } ∷ []
unfolding drain bored_os.WorkQueue.drain_one
drain_run = refl

drain_total_example :
    ((drain 64 two_waiting).1 ≡ contents two_waiting) × (contents (drain 64 two_waiting).0 ≡ [])
drain_total_example = drain_total two_waiting two_waiting-IsValid
