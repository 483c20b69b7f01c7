-- ===== src/WorkQueue.antt =====
-- sys/work_queue.c: a ring of 64 work items that holds at most 63; `tail` is where the next one
-- goes. Each function runs under the queue's lock. Running an item happens outside it.
pub mod Fifo
mod Tests
use bored_os.Base.{
  ℕ, zero, suc, ◌+◌, ◌%◌, Bool, true, false, Option, none, some, List, [], ◌∷◌, ◌==◌, if◌then◌else◌,
}
use bored_os.Base.Arrays.{update}

-- `work_item_t`; a function pointer is an address, and NULL is none.
pub record WorkItem : Type 0 where
  pub fn : Option ℕ
  pub arg : ℕ

pub record WorkQueue : Type 0 where
  pub items : ℕ → WorkItem
  pub head : ℕ
  pub tail : ℕ

abbrev pub work_queue_size : ℕ
work_queue_size = 64

-- `work_queue_submit`; a full queue drops the item.
pub submit : WorkQueue → Option ℕ → ℕ → WorkQueue
submit q none arg = q
submit q (some f) arg =
    let next_tail = (q.tail + 1) % work_queue_size in
    if next_tail == q.head then q else record q {
      items = update q.items q.tail (record { fn = some f; arg = arg });
      tail = next_tail;
    }

-- `work_queue_drain_one`: the queue, and the item that is run; none is the result `false`.
pub drain_one : WorkQueue → WorkQueue × Option WorkItem
drain_one q =
    if q.head == q.tail
    then (q, none)
    else (record q { head = (q.head + 1) % work_queue_size }, some (q.items q.head))

-- What runs an item: `if (item.fn) item.fn(item.arg)`.
pub called : WorkItem → List (ℕ × ℕ)
called w = elim w.fn [ none ↦ [] | some f ↦ (f, w.arg) ∷ [] ]

-- The inner loop of `work_queue_drain_loop`, for at most the given number of rounds, while nothing
-- is submitted: neither by an item, nor by an interrupt or another processor between two of its
-- calls. The queue, and the items that are run.
pub drain : ℕ → WorkQueue → WorkQueue × List WorkItem
drain zero q = (q, [])
drain (suc k) q =
    let (q', o) = drain_one q in
    let rest = drain k q' in elim o [ none ↦ (q', []) | some w ↦ (rest.0, w ∷ rest.1) ]
