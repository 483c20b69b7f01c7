-- ===== src/WaitQueue.antt =====
-- sys/wait_queue.c: processes that sleep until they are woken. The linked list of entries is the
-- list of their addresses, first entry first; each function runs under the queue's lock.
pub mod Members
pub mod Wakeup
mod Tests
use bored_os.Base.{
  ℕ, ◌+◌, ◌≡◌, Bool, true, false, Option, none, some, List, [], ◌∷◌, leb, ltb, ◌==◌, ◌&&◌, ◌||◌,
  not, if◌then◌else◌,
}
use bored_os.Base.Arrays.{update}

-- `is_valid_kernel_ptr`; NULL is 0.
pub is_valid_kernel_ptr : ℕ → Bool
is_valid_kernel_ptr addr = leb 0xFFFF800000000000 addr

-- `wait_queue_head_t`, at its address
pub record WaitQueue : Type 0 where
  pub at : ℕ
  pub entries : List ℕ

-- What of `process_t` the queues change.
pub data ProcState : Type 0 where
  running blocked other : ProcState

pub record Process : Type 0 where
  pub state : ProcState
  pub sleep_until : ℕ

-- The entries' `proc` fields, and the processes.
pub record World : Type 0 where
  pub proc : ℕ → Option ℕ
  pub processes : ℕ → Process
  -- how often idle processors were woken
  pub kicks : ℕ

-- `wait_queue_init`
pub init : WaitQueue → WaitQueue
init h = if is_valid_kernel_ptr h.at then record h { entries = [] } else h

-- The loop of `wait_queue_add` that looks for the entry.
pub queued : ℕ → List ℕ → Bool
queued e [] = false
queued e (c ∷ cs) = c == e || queued e cs

-- `wait_queue_add`
pub add : WaitQueue → ℕ → WaitQueue
unfolding queued
add h e =
    if not (is_valid_kernel_ptr h.at && is_valid_kernel_ptr e)
    then h
    else if queued e h.entries
    then h
    else record h { entries = e ∷ h.entries }

-- The loop of `wait_queue_remove`: it unlinks the first entry that is `e`.
pub unlink : ℕ → List ℕ → List ℕ
unlink e [] = []
unlink e (c ∷ cs) = if c == e then cs else c ∷ unlink e cs

-- `wait_queue_remove`
pub remove : WaitQueue → ℕ → WaitQueue
unfolding unlink
remove h e =
    if not (is_valid_kernel_ptr h.at && is_valid_kernel_ptr e)
    then h
    else record h { entries = unlink e h.entries }

-- One entry's turn in `wait_queue_wake_all`.
pub wake_entry : World → ℕ → World × Bool
wake_entry w e = elim (w.proc e) [
  | none ↦ (w, false)
  | some p ↦ (
    record w { processes = update w.processes p (record { state = running; sleep_until = 0 }) },
    true,
  )
]

-- The loop of `wait_queue_wake_all`, and its flag `woken`.
pub wake_entries : World → List ℕ → World × Bool
wake_entries w [] = (w, false)
wake_entries w (e ∷ es) =
    let (w1, b) = wake_entry w e in let (w2, c) = wake_entries w1 es in (w2, b || c)

-- `wait_queue_wake_all`
pub wake_all : WaitQueue → World → World
wake_all h w =
    if is_valid_kernel_ptr h.at
    then (let (w', woken) = wake_entries w h.entries in
        if woken then record w' { kicks = w'.kicks + 1 } else w')
    else w

abbrev pub until : Option ℕ → ℕ → ℕ
until none old = old
until (some t) old = t

-- What `wait_queue_wait` and `wait_queue_wait_timeout` do before they give up the processor: the
-- current process `p`, with its own entry `node`, goes to sleep. `deadline` is there in the second
-- with a timeout above 0.
pub begin_wait : WaitQueue → World → ℕ → ℕ → Option ℕ → WaitQueue × World
unfolding add
begin_wait h w p node deadline = (
  add h node,
  record w {
    proc = update w.proc node (some p);
    processes =
        update w.processes p
          (record { state = blocked; sleep_until = until deadline (w.processes p).sleep_until });
  },
)

-- What they do when the process runs again; the second also clears the deadline.
end_wait : Bool → WaitQueue → World → ℕ → ℕ → WaitQueue × World
unfolding remove
end_wait timed h w p node = (
  remove h node,
  if timed
      then record w {
        processes = update w.processes p (record (w.processes p) { sleep_until = 0 });
      }
      else w,
)

-- `wait_queue_wait`, where `others` is what happens while the process is off the processor. The
-- queue is there (`h` is not NULL, for which the code returns at once), and so is the process.
pub wait : (WaitQueue × World → WaitQueue × World) → WaitQueue → World → ℕ → ℕ → WaitQueue × World
unfolding begin_wait end_wait
wait others h w p node =
    let (h', w') = others (begin_wait h w p node none) in end_wait false h' w' p node

-- `wait_queue_wait_timeout` at the time `now`, of a queue and a process that are there.
wait_timeout :
    (WaitQueue × World → WaitQueue × World) → WaitQueue → World → ℕ → ℕ → ℕ → ℕ → WaitQueue × World
unfolding begin_wait end_wait
wait_timeout others h w p node now timeout_ms =
    let (h', w') =
      others (begin_wait h w p node (if ltb 0 timeout_ms then some (now + timeout_ms) else none)) in
    end_wait true h' w' p node
