-- ===== src/WorkQueue/Fifo.antt =====
-- The ring of sys/work_queue.c is a first-in first-out queue.
use bored_os.Base.{
  ℕ, zero, suc, ◌+◌, ◌%◌, ◌<◌, ◌≢◌, ◌≡◌, refl, sym, Option, none, some, List, [], ◌∷◌, ◌++◌,
  append-nil, arith, ltb, if◌then◌else◌, length, ℕ_discrete, append_assoc, ◌↔◌,
}
use bored_os.Base.Arrays.{
  window, length-window, used, used-lt, next-lt, used-next_read, used-next_write, used-full,
  window-update,
}
use bored_os.WorkQueue.{WorkItem, WorkQueue, work_queue_size, submit, drain_one, drain}

pub record IsValid (q : WorkQueue) : Type 0 where
  pub head_in : q.head < 64
  pub tail_in : q.tail < 64

-- The items that wait, oldest first.
pub contents : WorkQueue → List WorkItem
contents q = window q.items work_queue_size q.head (used work_queue_size q.head q.tail)

pub length-contents : (q : WorkQueue) → length (contents q) ≡ used work_queue_size q.head q.tail
unfolding contents
length-contents q = length-window q.items work_queue_size q.head _

-- What a submission adds to `n` waiting items.
pub accepted : ℕ → Option ℕ → ℕ → List WorkItem
accepted n none arg = []
accepted n (some f) arg = if ltb n 63 then record { fn = some f; arg = arg } ∷ [] else []

submit_room :
    (q : WorkQueue) (f arg : ℕ)
    → IsValid q
    → (q.tail + 1) % work_queue_size ≢ q.head
    → IsValid (submit q (some f) arg)
      × (contents (submit q (some f) arg)
          ≡ contents q ++ accepted (length (contents q)) (some f) arg)
unfolding submit accepted contents
submit_room q f arg h ne = ground (
  arith,
  used-next_write work_queue_size q.head q.tail h.head_in h.tail_in ne,
  length-window q.items work_queue_size q.head (used work_queue_size q.head q.tail),
  used-lt work_queue_size q.head q.tail,
  next-lt work_queue_size q.tail h.tail_in,
  used-lt work_queue_size q.head ((q.tail + 1) % work_queue_size),
  window-update q.items work_queue_size q.tail (record { fn = some f; arg = arg })
      (used work_queue_size q.head q.tail) q.head h.head_in h.tail_in refl ne,
)

-- `work_queue_submit` puts an item with a function last if fewer than 63 wait; otherwise, and for a
-- NULL function, the queue holds what it held.
submit_lem :
    (q : WorkQueue) (fn : Option ℕ) (arg : ℕ)
    → IsValid q
    → IsValid (submit q fn arg)
      × (contents (submit q fn arg) ≡ contents q ++ accepted (length (contents q)) fn arg)
unfolding submit accepted
submit_lem q none arg h = (h, sym (append-nil _))
submit_lem q (some f) arg h = elim (ℕ_discrete ((q.tail + 1) % work_queue_size) q.head) [
  | yes e ↦ ground (
    arith,
    length-contents q,
    append-nil (contents q),
    used-full work_queue_size q.head q.tail h.head_in h.tail_in e,
  )
  | no ne ↦ submit_room q f arg h ne
]

contents_empty : (q : WorkQueue) → IsValid q → q.head ≡ q.tail → contents q ≡ []
unfolding contents window
contents_empty q h e = ground arith

contents_next :
    (q : WorkQueue)
    → IsValid q
    → q.head ≢ q.tail
    → contents q ≡ q.items q.head ∷ contents (record q { head = (q.head + 1) % work_queue_size })
unfolding contents window
contents_next q h ne = rw (used-next_read work_queue_size q.head q.tail h.head_in h.tail_in ne)

-- The items of a queue from which one may have been taken.
abbrev pub with_taken : Option WorkItem → List WorkItem → List WorkItem
with_taken none ws = ws
with_taken (some w) ws = w ∷ ws

-- `work_queue_drain_one` takes the oldest item, and takes none exactly if none waits.
drain_one_lem :
    (q : WorkQueue)
    → IsValid q
    → let (q', o) = drain_one q in
      IsValid q' × (contents q ≡ with_taken o (contents q')) × ((o ≡ none) ↔ (contents q ≡ []))
unfolding drain_one
drain_one_lem q h = elim (ℕ_discrete q.head q.tail) [
  | yes e ↦ ground (arith, contents_empty q h e)
  | no ne ↦ ground (arith, contents_next q h ne, next-lt work_queue_size q.head h.head_in)
]

-- The drain loop, if nothing is submitted meanwhile, runs every waiting item in the order of
-- submission and leaves the queue empty, whenever it may make more rounds than items wait.
drain_lem :
    (k : ℕ) (q : WorkQueue)
    → IsValid q
    → length (contents q) < k
    → ((drain k q).1 ≡ contents q) × (contents (drain k q).0 ≡ [])
unfolding drain
drain_lem zero q h lt = absurd (omega arith)
drain_lem (suc k) q h lt =
    ground (arith, drain_one_lem q h, drain_lem k (drain_one q).0 (drain_one_lem q h).0)

-- If nothing is submitted while the drain loop runs, by its items, an interrupt or another
-- processor, 64 rounds of it run every waiting item of a valid queue in the order of submission and
-- leave the queue empty.
pub drain_total :
    (q : WorkQueue) → IsValid q → ((drain 64 q).1 ≡ contents q) × (contents (drain 64 q).0 ≡ [])
drain_total q h =
    drain_lem 64 q h
      (omega (arith, length-contents q, used-lt work_queue_size q.head q.tail h.head_in h.tail_in))

-- What the processors do with the queue, in the order in which they get its lock.
pub data Call : Type 0 where
  submits : Option ℕ → ℕ → Call
  drains : Call

-- The queue after some calls, the items that they ran, and those that were taken in.
pub run : WorkQueue → List Call → WorkQueue × List WorkItem × List WorkItem
run q [] = (q, [], [])
run q (submits fn arg ∷ cs) =
    let (q', ran, taken) = run (submit q fn arg) cs in
    (q', ran, accepted (length (contents q)) fn arg ++ taken)
run q (drains ∷ cs) =
    let (q1, o) = drain_one q in let (q', ran, taken) = run q1 cs in (q', with_taken o ran, taken)

-- From a valid queue, under every interleaving of submissions and drains, the items run, followed
-- by those still waiting, are those that waited at first, followed by those taken in: none is lost,
-- run twice or overtaken.
pub run_fifo :
    (cs : List Call) (q : WorkQueue)
    → IsValid q
    → let (q', ran, taken) = run q cs in IsValid q' × (ran ++ contents q' ≡ contents q ++ taken)
unfolding run
run_fifo [] q h = (h, sym (append-nil _))
run_fifo (submits fn arg ∷ cs) q h = ground (
  arith,
  submit_lem q fn arg h,
  run_fifo cs (submit q fn arg) (submit_lem q fn arg h).0,
  append_assoc (contents q) (accepted (length (contents q)) fn arg) (run (submit q fn arg) cs).2,
)
run_fifo (drains ∷ cs) q h =
    ground (arith, drain_one_lem q h, run_fifo cs (drain_one q).0 (drain_one_lem q h).0)
