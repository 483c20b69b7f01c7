-- ===== src/Process.antt =====
-- sys/process.c: the process table, references to processes, and how processes end. A process is
-- known by its address, and NULL is none. `pid_hash_table[i]` is the list of the addresses in the
-- bucket. Functions that take a lock run under it as a whole. What is given back to other parts of
-- the kernel (memory, files, mappings) is in `log`, as calls.
pub mod Schedule
pub mod Exit
pub mod Table
mod Tests
use bored_os.Base.{
  ℕ, zero, suc, ◌+◌, ◌-◌, ◌%◌, ◌^◌, Bool, true, false, not, Option, none, some, List, [], ◌∷◌, ◌++◌,
  length, leb, ltb, ◌==◌, ◌&&◌, ◌||◌, if◌then◌else◌,
}
use bored_os.Base.Arrays.{update}
use bored_os.Base.Int.{ℤ, pos, negsuc}

-- PROC_STATE_RUNNING, PROC_STATE_BLOCKED and PROC_STATE_ZOMBIE
pub data ProcState : Type 0 where
  running blocked zombie : ProcState

-- `process_t`, as far as the functions below read or write it. A `running_cpu` of -1 and an
-- affinity CPU_AFFINITY_ANY are none; `signal_pending` says which bits are set.
pub record Process : Type 0 where
  pub pid : ℕ
  pub refcount : ℕ
  pub running_cpu : Option ℕ
  pub reaped : Bool
  pub rsp : ℕ
  pub is_user : Bool
  pub state : ProcState
  pub sleep_until : ℕ
  pub is_terminal_proc : Bool
  pub tty_id : ℤ
  pub kill_pending : Bool
  pub next : Option ℕ
  pub ticks : ℕ
  pub cpu_affinity : Option ℕ
  pub parent_pid : ℕ
  pub pgid : ℕ
  pub exited : Bool
  pub exit_status : ℤ
  pub signal_pending : ℕ → Bool

-- Calls into other parts of the kernel: a wake-up of the queue on which a process waits for its
-- children, the release of what a process holds, and the switch of the floating point unit.
pub data Call : Type 0 where
  wake_exit_queue : ℕ → Call
  release : ℕ → Call
  fpu_switch : ℕ → ℕ → Call

-- The static variables of the file, and what it uses of each processor's `cpu_state_t`. A structure
-- that is freed is in `freed`.
pub record Kernel : Type 0 where
  pub procs : ℕ → Process
  pub buckets : ℕ → List ℕ
  pub reaper_pid : ℕ
  pub cpu_count : ℕ
  pub current : ℕ → Option ℕ
  pub idle : ℕ → Option ℕ
  pub free_later : ℕ → Option ℕ
  pub freed : List ℕ
  pub log : List Call

abbrev pub bucket_count : ℕ
bucket_count = 128

abbrev pub u32_mod : ℕ
u32_mod = 2 ^ 32

abbrev pub with_proc : Kernel → ℕ → Process → Kernel
with_proc s a p = record s { procs = update s.procs a p }

abbrev pub logged : Kernel → Call → Kernel
logged s c = record s { log = s.log ++ c ∷ [] }

abbrev pub is_zombie : ProcState → Bool
is_zombie zombie = true
is_zombie running = false
is_zombie blocked = false

abbrev pub is_blocked : ProcState → Bool
is_blocked blocked = true
is_blocked running = false
is_blocked zombie = false

-- `pid_hash`
pub pid_hash : ℕ → ℕ
pid_hash pid = pid % bucket_count

-- `pid_table_insert`
pub pid_table_insert : Kernel → ℕ → Kernel
unfolding pid_hash
pid_table_insert s a =
    let i = pid_hash (s.procs a).pid in record s { buckets = update s.buckets i (a ∷ s.buckets i) }

-- The walk along a bucket to a process with the pid.
pub find_in : (ℕ → Process) → ℕ → List ℕ → Option ℕ
find_in procs pid [] = none
find_in procs pid (a ∷ bucket) =
    let rest = find_in procs pid bucket in if (procs a).pid == pid then some a else rest

-- The bucket once the first process with the pid is taken out.
pub remove_from : (ℕ → Process) → ℕ → List ℕ → List ℕ
remove_from procs pid [] = []
remove_from procs pid (a ∷ bucket) =
    if (procs a).pid == pid then bucket else a ∷ remove_from procs pid bucket

-- `pid_table_find_unlocked`
pub pid_table_find : Kernel → ℕ → Option ℕ
unfolding find_in pid_hash
pid_table_find s pid = find_in s.procs pid (s.buckets (pid_hash pid))

-- `pid_table_remove_unlocked` and `pid_table_remove`
pub pid_table_remove : Kernel → ℕ → Kernel
unfolding remove_from pid_hash
pid_table_remove s pid =
    let i = pid_hash pid in
    record s { buckets = update s.buckets i (remove_from s.procs pid (s.buckets i)) }

-- `process_hold`
pub hold : Kernel → ℕ → Kernel
hold s a = with_proc s a (record (s.procs a) { refcount = ((s.procs a).refcount + 1) % u32_mod })

-- `process_put`; the last reference frees the process.
pub put : Kernel → ℕ → Kernel
put s a =
    let n = (s.procs a).refcount in
    let s' = with_proc s a (record (s.procs a) { refcount = (n + (u32_mod - 1)) % u32_mod }) in
    if n == 1 then record s' { freed = a ∷ s'.freed } else s'

hold_found : Kernel → Option ℕ → Kernel × Option ℕ
unfolding hold
hold_found s none = (s, none)
hold_found s (some a) = (hold s a, some a)

-- `process_get_by_pid`
pub get_by_pid : Kernel → ℕ → Kernel × Option ℕ
unfolding hold_found pid_table_find
get_by_pid s pid = hold_found s (pid_table_find s pid)

-- The order in which `process_table_for_each` visits the table: `k` buckets from bucket `i` on.
pub visited : ℕ → ℕ → (ℕ → List ℕ) → List ℕ
visited zero i buckets = []
visited (suc k) i buckets = buckets i ++ visited k (i + 1) buckets

abbrev pub all_procs : Kernel → List ℕ
all_procs s = visited bucket_count 0 s.buckets

-- `process_get_all_pids`, with room for `max` pids: `collect_pids_cb` on each process.
pub collect_pids : (ℕ → Process) → ℕ → List ℕ → List ℕ
collect_pids procs max [] = []
collect_pids procs zero (a ∷ others) = []
collect_pids procs (suc max) (a ∷ others) =
    if ltb 0 (procs a).pid && (procs a).is_user
    then (procs a).pid ∷ collect_pids procs max others
    else collect_pids procs (suc max) others

abbrev pub same_tty : ℤ → ℤ → Bool
same_tty (pos m) (pos n) = m == n
same_tty (negsuc m) (negsuc n) = m == n
same_tty (pos m) (negsuc n) = false
same_tty (negsuc m) (pos n) = false

-- `find_child_tty_cb`'s test.
pub is_tty_child : ℤ → Process → Bool
is_tty_child tty p =
    ltb 1 p.pid
    && (same_tty p.tty_id tty
        && (not (is_zombie p.state) && (not p.kill_pending && not p.is_terminal_proc)))

-- `process_find_child_on_tty`: the one with the greatest pid; `best` is the one so far.
pub find_child : (ℕ → Process) → ℤ → Option ℕ → List ℕ → Option ℕ
unfolding is_tty_child
find_child procs tty best [] = best
find_child procs tty none (a ∷ others) =
    find_child procs tty (if is_tty_child tty (procs a) then some a else none) others
find_child procs tty (some b) (a ∷ others) =
    find_child procs tty
      (if is_tty_child tty (procs a) && ltb (procs b).pid (procs a).pid then some a else some b)
      others
