-- ===== src/Process/Schedule.antt =====
-- The scheduler of sys/process.c: which process a processor runs next. Loading the next process's
-- page table, stacks and floating point state is left out, but for the stack pointer `rsp`.
pub mod View
pub mod Exclusive
mod Moves
pub mod Ring
pub mod Whole
use bored_os.Base.{
  ℕ, zero, suc, ◌+◌, Bool, true, false, not, Option, none, some, leb, ltb, ◌==◌, ◌&&◌, ◌||◌,
  if◌then◌else◌,
}
use bored_os.Base.Arrays.{update}
use bored_os.Base.Int.{ℤ, pos}
use bored_os.Process.{
  Process, ProcState, running, blocked, zombie, Kernel, fpu_switch, with_proc, logged, is_zombie,
  is_blocked, hold, put, pid_table_find, pid_table_remove,
}
use bored_os.Process.Exit.{
  cleanup, runqueue_unlink, made_zombie, notify, is_next, target_reaper, unblocked,
}

abbrev pub is_running : ProcState → Bool
is_running running = true
is_running blocked = false
is_running zombie = false

-- `cpu_affinity == my_cpu || cpu_affinity == CPU_AFFINITY_ANY`
pub matches_cpu : ℕ → Process → Bool
matches_cpu cpu p = elim p.cpu_affinity [ none ↦ true | some c ↦ c == cpu ]

-- `running_cpu == -1 || running_cpu == my_cpu`
pub not_running_elsewhere : ℕ → Process → Bool
not_running_elsewhere cpu p = elim p.running_cpu [ none ↦ true | some c ↦ c == cpu ]

-- The test of the loop in `process_schedule`.
pub can_run : ℕ → ℕ → Process → Bool
unfolding matches_cpu not_running_elsewhere
can_run cpu now p =
    matches_cpu cpu p
    && (not_running_elsewhere cpu p
        && ((not p.kill_pending && (not p.exited && not (is_zombie p.state)))
            && (p.pid == 0
                || ((is_running p.state && (p.sleep_until == 0 || leb p.sleep_until now))
                    || (is_blocked p.state && (ltb 0 p.sleep_until && leb p.sleep_until now))))))

-- The test of the loop in `process_terminate_current_with_status`.
pub can_take_over : ℕ → Process → Bool
unfolding matches_cpu not_running_elsewhere
can_take_over cpu p =
    matches_cpu cpu p
    && (not_running_elsewhere cpu p && (not p.kill_pending && (not p.exited && is_running p.state)))

-- Those loops: the first process from `a` on that passes the test, if any, along the ring until it
-- comes to `start` or ends. None is a walk that is not over within the given number of steps.
pub first_fit : ℕ → (ℕ → Process) → (Process → Bool) → ℕ → ℕ → Option (Option ℕ)
first_fit zero procs test start a = none
first_fit (suc k) procs test start a = elim (procs a).next [
  | none ↦ some (if test (procs a) then some a else none)
  | some n ↦
      if test (procs a)
      then some (some a)
      else if n == start
      then some none
      else first_fit k procs test start n
]

pub fit_from : ℕ → (ℕ → Process) → (Process → Bool) → ℕ → Option ℕ → Option (Option ℕ)
unfolding first_fit
fit_from k procs test start none = some none
fit_from k procs test start (some a) = first_fit k procs test start a

-- The process `a` gets processor `cpu`.
abbrev pub on_processor : Kernel → ℕ → ℕ → Kernel
on_processor s cpu a = record (with_proc s a (record (s.procs a) { running_cpu = some cpu })) {
  current = update s.current cpu (some a);
}

abbrev pub off_processor : Kernel → ℕ → Kernel
off_processor s a = with_proc s a (record (s.procs a) { running_cpu = none })

-- The end of a process that runs is told to its parent, or else to the reaper.
pub tell_unheld : Kernel → ℕ → Kernel
tell_unheld s parent = elim (if parent == 0 then none else pid_table_find s parent) [
  | some p ↦ notify s p
  | none ↦ elim (pid_table_find s (target_reaper s)) [ none ↦ s | some r ↦ notify s r ]
]

-- With neither parent nor reaper the process leaves the table at once.
pub drop_orphan : Kernel → ℕ → Kernel
drop_orphan s a =
    let s1 = pid_table_remove s (s.procs a).pid in
    let s2 = put (with_proc s1 a (record (s1.procs a) { reaped = true })) a in
    if (s.procs a).parent_pid == 0 && s.reaper_pid == 0 then s2 else s

-- `fpu_switch(current_rsp, next_rsp)` where they differ.
pub switched : Kernel → ℕ → ℕ → Kernel
switched s rsp next_rsp = if rsp == next_rsp then s else logged s (fpu_switch rsp next_rsp)

-- The last part of `process_terminate_current_with_status`, for the process that takes over.
pub take_over : Kernel → ℕ → ℕ → Option ℕ → ℕ → Kernel × ℕ
unfolding tell_unheld drop_orphan switched
take_over s cpu a none rsp = (s, rsp)
take_over s cpu a (some b) rsp =
    let s1 = drop_orphan (tell_unheld (on_processor s cpu b) (s.procs a).parent_pid) a in
    let s2 = record s1 { free_later = update s1.free_later cpu (some a) } in
    (switched s2 rsp (s2.procs b).rsp, (s2.procs b).rsp)

-- What the process that ends is left as.
pub ended : Kernel → ℕ → ℤ → Kernel
ended s a status = off_processor (made_zombie (cleanup (hold s a) a) a status) a

abbrev pub or_else : Option ℕ → Option ℕ → Option ℕ
or_else none b = b
or_else (some a) b = some a

-- `process_terminate_current_with_status` of a process other than 0 and 1, on a processor; `hops`
-- bounds the walk along the ring, and none is a longer walk.
pub terminate_running : ℕ → Kernel → ℕ → ℕ → ℤ → ℕ → Option (Kernel × ℕ)
unfolding fit_from take_over ended
terminate_running hops s cpu a status rsp =
    let s1 = ended s a status in
    let after = (s1.procs a).next in
    let s2 = runqueue_unlink s1 a in
    let found =
      fit_from hops s2.procs (can_take_over cpu) (elim after [ none ↦ 0 | some n ↦ n ]) after in
    elim found [ none ↦ none | some b ↦ some (take_over s2 cpu a (or_else b (s2.idle cpu)) rsp) ]

-- `process_terminate_current_with_status`; none is the panic at the end of process 1,
-- or a longer walk.
pub terminate_current : ℕ → Kernel → ℕ → ℤ → ℕ → Option (Kernel × ℕ)
unfolding terminate_running
terminate_current hops s cpu status rsp = elim (s.current cpu) [
  | none ↦ some (s, rsp)
  | some a ↦
      if (s.procs a).pid == 0
      then some (s, rsp)
      else if (s.procs a).pid == 1
      then none
      else terminate_running hops s cpu a status rsp
]

-- The process to fall back on where no other can run.
pub fallback : Kernel → ℕ → ℕ → ℕ
fallback s cpu cur =
    let p = s.procs cur in
    if is_zombie p.state || (is_blocked p.state || p.kill_pending)
    then elim (s.idle cpu) [ none ↦ cur | some i ↦ i ]
    else cur

-- The chosen process and what the loop did to it.
pub chosen : Kernel → ℕ → ℕ → Option ℕ → Kernel × ℕ
unfolding fallback
chosen s cpu cur (some a) = (with_proc s a (unblocked (s.procs a)), a)
chosen s cpu cur none = (s, fallback s cpu cur)

abbrev pub ticked : Kernel → ℕ → Kernel
ticked s a = with_proc s a (record (s.procs a) { ticks = (s.procs a).ticks + 1 })

-- The switch to the chosen process.
pub switch_to : Kernel → ℕ → ℕ → ℕ → Kernel
switch_to s cpu cur a = if cur == a then s else on_processor (off_processor s cur) cpu a

-- `process_schedule` once the loop is over.
pub go_on : Kernel → ℕ → ℕ → Option ℕ → ℕ → Kernel × ℕ
unfolding chosen switch_to switched
go_on s cpu cur found rsp =
    let (s2, a) = chosen s cpu cur found in
    let s3 = ticked (switch_to s2 cpu cur a) a in
    (switched s3 rsp (s3.procs a).rsp, (s3.procs a).rsp)

-- `process_schedule` from where the current process goes on.
pub pick_next : ℕ → Kernel → ℕ → ℕ → ℕ → ℕ → Option (Kernel × ℕ)
unfolding fit_from go_on
pick_next hops s cpu cur now rsp =
    let s1 = with_proc s cur (record (s.procs cur) { rsp = rsp }) in
    let found = fit_from hops s1.procs (can_run cpu now) cur (s1.procs cur).next in
    elim found [ none ↦ none | some b ↦ some (go_on s1 cpu cur b rsp) ]

-- The process that ended on this processor before is given back.
unfoldable pub released : Kernel → ℕ → Kernel
released s cpu = elim (s.free_later cpu) [
  | none ↦ s
  | some a ↦ let s1 = put s a in record s1 { free_later = update s1.free_later cpu none }
]

abbrev pub is_zero : ℤ → Bool
is_zero (pos zero) = true
is_zero z = false

-- `process_schedule` at the time `now`; none is the panic at the end of process 1, or a walk along
-- the ring that is not over within `hops` steps.
pub schedule : ℕ → Kernel → ℕ → ℕ → ℕ → Option (Kernel × ℕ)
unfolding pick_next terminate_current released
schedule hops s cpu now rsp =
    let s1 = released s cpu in
    elim (s1.current cpu) [
      | none ↦ some (s1, rsp)
      | some cur ↦
          let p = s1.procs cur in
          if p.kill_pending && not (p.pid == 0)
          then terminate_current hops s1 cpu
              (if is_zero p.exit_status then pos 1 else p.exit_status) rsp
          else pick_next hops s1 cpu cur now rsp
    ]
