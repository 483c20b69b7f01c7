-- ===== src/Process/Exit.antt =====
-- How a process of sys/process.c ends, and how its parent collects it.
use bored_os.Base.{
  ℕ, zero, suc, ◌+◌, Bool, true, false, not, Option, none, some, List, [], ◌∷◌, ◌==◌, ◌&&◌, ◌||◌,
  if◌then◌else◌, min,
}
use bored_os.Base.Arrays.{update}
use bored_os.Base.Int.{ℤ, pos, negsuc}
use bored_os.Process.{
  Process, running, zombie, Kernel, wake_exit_queue, release, with_proc, logged, is_zombie,
  is_blocked, bucket_count, hold, put, get_by_pid, pid_table_find, pid_table_remove, all_procs,
  same_tty,
}

-- `reaper_pid != 0 ? reaper_pid : 1`
abbrev pub target_reaper : Kernel → ℕ
target_reaper s = if s.reaper_pid == 0 then 1 else s.reaper_pid

-- What `reparent_cb` does with a zombie, and whether the process stays in its bucket.
unfoldable pub reparent_zombie : Kernel → ℕ → Option ℕ → Kernel × Bool
reparent_zombie s a (some reaper) = (logged s (wake_exit_queue reaper), true)
reparent_zombie s a none =
    let s1 = pid_table_remove s (s.procs a).pid in
    (put (with_proc s1 a (record (s1.procs a) { reaped = true })) a, false)

-- `reparent_cb`
unfoldable pub reparent_one : ℕ → Kernel → ℕ → Kernel × Bool
unfolding reparent_zombie
reparent_one parent_pid s a =
    let target = target_reaper s in
    let s1 = with_proc s a (record (s.procs a) { parent_pid = target }) in
    if (s.procs a).parent_pid == parent_pid
    then (if is_zombie (s.procs a).state
        then reparent_zombie s1 a (pid_table_find s1 target)
        else (s1, true))
    else (s, true)

-- One bucket's turn. A process that is taken out has no next one, which ends the bucket's walk.
unfoldable pub reparent_bucket : ℕ → Kernel → List ℕ → Kernel
unfolding reparent_one
reparent_bucket parent_pid s [] = s
reparent_bucket parent_pid s (a ∷ bucket) =
    let (s1, more) = reparent_one parent_pid s a in
    let rest = reparent_bucket parent_pid s1 bucket in if more then rest else s1

-- `process_table_for_each(reparent_cb, …)`: `k` buckets from bucket `i` on.
unfoldable pub reparent_all : ℕ → ℕ → ℕ → Kernel → Kernel
unfolding reparent_bucket
reparent_all zero i parent_pid s = s
reparent_all (suc k) i parent_pid s =
    reparent_all k (i + 1) parent_pid (reparent_bucket parent_pid s (s.buckets i))

-- `process_cleanup_inner`: what the process holds is given back, and its children get a new parent.
unfoldable pub cleanup : Kernel → ℕ → Kernel
unfolding reparent_all
cleanup s a =
    if (s.procs a).pid == 0
    then s
    else reparent_all bucket_count 0 (s.procs a).pid (logged s (release a))

-- The process before `a` in the run queue's ring, found in at most `hops` steps.
pub find_prev : ℕ → (ℕ → Process) → ℕ → ℕ → ℕ
find_prev zero procs a prev = prev
find_prev (suc hops) procs a prev = elim (procs prev).next [
  | none ↦ prev
  | some n ↦ if n == a then prev else find_prev hops procs a n
]

abbrev pub is_next : Option ℕ → ℕ → Bool
is_next none a = false
is_next (some n) a = n == a

abbrev pub with_next : Kernel → ℕ → Option ℕ → Kernel
with_next s a n = with_proc s a (record (s.procs a) { next = n })

-- `runqueue_unlink_locked`
unfoldable pub runqueue_unlink : Kernel → ℕ → Kernel
unfolding find_prev
runqueue_unlink s a = elim (s.procs a).next [
  | none ↦ s
  | some n ↦
      if n == a
      then with_next s a none
      else (let prev = find_prev 2047 s.procs a a in
          let s1 = if is_next (s.procs prev).next a then with_next s prev (some n) else s in
          with_next s1 a none)
]

-- SIGCHLD is 17.
abbrev pub with_signal : (ℕ → Bool) → ℕ → ℕ → Bool
with_signal pending n = update pending n true

abbrev pub unblocked : Process → Process
unblocked p = if is_blocked p.state then record p { state = running; sleep_until = 0 } else p

-- What a process is told of a child's end.
unfoldable pub notify : Kernel → ℕ → Kernel
notify s a =
    let p = record (s.procs a) { signal_pending = with_signal (s.procs a).signal_pending 17 } in
    with_proc (logged s (wake_exit_queue a)) a (unblocked p)

-- The same for the process that `process_get_by_pid` answers; whether there was one.
pub notify_held : Kernel × Option ℕ → Kernel × Bool
unfolding notify
notify_held (s, none) = (s, false)
notify_held (s, some a) = (put (notify s a) a, true)

-- Whether one of the first `k` processors runs the process.
pub on_cpu : ℕ → (ℕ → Option ℕ) → ℕ → Bool
on_cpu zero current a = false
on_cpu (suc k) current a = is_next (current k) a || on_cpu k current a

abbrev pub max_cpus_sched : ℕ
max_cpus_sched = 32

-- The changes to the process that ends.
unfoldable pub made_zombie : Kernel → ℕ → ℤ → Kernel
made_zombie s a status = with_proc s a (record (s.procs a) {
  state = zombie;
  exited = true;
  exit_status = status;
  kill_pending = false;
})

-- The parent is told, or the reaper where there is none.
pub tell_parent : Kernel → ℕ → Kernel
unfolding notify_held
tell_parent s parent =
    let (s1, told) = notify_held (if parent == 0 then (s, none) else get_by_pid s parent) in
    if told then s1 else (notify_held (get_by_pid s1 (target_reaper s1))).0

-- `process_terminate_with_status`; none is the panic at the end of process 1. At its end
-- `target_reaper` is never 0, so that branch of the code is not there.
pub terminate : Kernel → ℕ → ℤ → Option Kernel
unfolding cleanup runqueue_unlink made_zombie tell_parent
terminate s a status =
    let p = s.procs a in
    let s1 =
      tell_parent (runqueue_unlink (made_zombie (cleanup s a) a status) a)
        ((runqueue_unlink (made_zombie (cleanup s a) a status) a).procs a).parent_pid in
    if p.pid == 0
    then some s
    else if p.pid == 1
    then none
    else if is_zombie p.state || p.kill_pending
    then some s
    else if on_cpu (min s.cpu_count max_cpus_sched) s.current a
    then some (with_proc s a (record p { kill_pending = true; exit_status = status }))
    else some s1

-- `kill_tty_cb`: the processes that are held, `max` of them at most.
pub tty_victims : (ℕ → Process) → ℤ → ℕ → List ℕ → List ℕ
tty_victims procs tty zero others = []
tty_victims procs tty (suc max) [] = []
tty_victims procs tty (suc max) (a ∷ others) =
    let p = procs a in
    if not (p.pid == 0)
      && (same_tty p.tty_id tty && (not (is_zombie p.state) && not p.kill_pending))
    then a ∷ tty_victims procs tty max others
    else tty_victims procs tty (suc max) others

pub hold_all : Kernel → List ℕ → Kernel
hold_all s [] = s
hold_all s (a ∷ victims) = hold_all (hold s a) victims

pub kill_all : Kernel → List ℕ → Option Kernel
unfolding terminate
kill_all s [] = some s
kill_all s (a ∷ victims) = elim (terminate s a (pos 137)) [
  | none ↦ none
  | some s1 ↦ kill_all (put s1 a) victims
]

-- `process_kill_by_tty`
pub kill_by_tty : Kernel → ℤ → Option Kernel
unfolding tty_victims hold_all kill_all
kill_by_tty s tty =
    let victims = tty_victims s.procs tty 64 (all_procs s) in kill_all (hold_all s victims) victims

-- The end of `process_reap` and of a round of `process_waitpid`, for a zombie that is held.
pub collect : Kernel → ℕ → ℕ → Kernel
collect s a pid =
    let s1 = pid_table_remove (with_proc s a (record (s.procs a) { reaped = true })) pid in
    put (put s1 a) a

pub reap_found : ℕ → ℕ → Kernel → Option ℕ → Kernel × ℤ × Option ℤ
unfolding collect
reap_found caller pid s none = (s, negsuc 0, none)
reap_found caller pid s (some a) =
    let p = s.procs a in
    if not (is_zombie p.state)
    then (put s a, negsuc 1, none)
    else if not (p.parent_pid == caller) && (not (caller == 0) && not (p.parent_pid == 0))
    then (put s a, negsuc 0, none)
    else (collect s a pid, pos 0, some p.exit_status)

-- `process_reap`: the result, and the status where it is set.
pub reap : Kernel → ℕ → ℕ → Kernel × ℤ × Option ℤ
unfolding reap_found
reap s caller pid = reap_found caller pid (get_by_pid s pid).0 (get_by_pid s pid).1

-- Whether `waitpid_scan_cb` counts a child.
pub awaited : Kernel → ℕ → ℤ → Process → Bool
awaited s caller (pos zero) p = elim (pid_table_find s caller) [
  | none ↦ false
  | some c ↦ p.pgid == (s.procs c).pgid
]
awaited s caller (pos (suc n)) p = p.pid == suc n
awaited s caller (negsuc zero) p = true
awaited s caller (negsuc (suc n)) p = p.pgid == suc (suc n)

-- The scan of the table: the first zombie, and the number of children.
pub scan_children : Kernel → ℕ → ℤ → List ℕ → Option ℕ × ℕ
unfolding awaited
scan_children s caller target [] = (none, 0)
scan_children s caller target (a ∷ others) =
    let p = s.procs a in
    let rest = scan_children s caller target others in
    if p.pid == 0 || not (p.parent_pid == caller)
    then rest
    else if awaited s caller target p
    then (if is_zombie p.state then some a else rest.0, rest.1 + 1)
    else rest

-- What a round of `process_waitpid` comes to: a child's pid and status, -1, 0, or sleep.
pub data Waited : Type 0 where
  child : ℕ → ℤ → Waited
  no_child nothing_yet sleep : Waited

pub wait_round : Kernel → Bool → Option ℕ → ℕ → Kernel × Waited
unfolding collect
wait_round s no_hang none zero = (s, no_child)
wait_round s no_hang none (suc n) = (s, if no_hang then nothing_yet else sleep)
wait_round s no_hang (some a) n =
    let s1 = hold s a in
    (collect s1 a (s.procs a).pid, child (s.procs a).pid (s.procs a).exit_status)

-- One round of `process_waitpid`; after `sleep` the caller blocks on its queue and tries again.
pub waitpid : Kernel → ℕ → ℤ → Bool → Kernel × Waited
unfolding wait_round scan_children
waitpid s caller target no_hang =
    let (found, count) = scan_children s caller target (all_procs s) in
    wait_round s no_hang found count
