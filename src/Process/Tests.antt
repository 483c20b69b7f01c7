-- ===== src/Process/Tests.antt =====
-- Runs of sys/process.c on a kernel of two processors with an idle process each, at the addresses
-- 10 and 13, and two others on the ring. The second processor has just been started.
use mathlib.Core.Path.{subst}
use bored_os.Base.{
  ℕ, ◌+◌, ◌≡◌, ◌≢◌, refl, false, true, Option, none, some, [], ◌∷◌, ◌==◌, if◌then◌else◌, arith, inl,
  inr, ◌||◌, ◌⊎◌,
}
use bored_os.Base.Int.{pos, negsuc}
use bored_os.Process.{Process, running, Kernel, pid_table_find, pid_table_remove, pid_hash, find_in}
use bored_os.Process.Schedule.{released, schedule, can_run, first_fit}
use bored_os.Process.Schedule.Ring.{
  ends_within, ends_from, first_passing, ring_part, first_fit-ends,
}
use bored_os.Process.Schedule.Exclusive.{Exclusive}
use bored_os.Process.Schedule.Whole.{killed, EndsRound, schedule-Exclusive}
use bored_os.Process.Table.{find-remove, Once}

abbrev is_first : ℕ → Option ℕ
is_first a = if a == 10 then some 0 else none

abbrev bound_to : ℕ → Option ℕ
bound_to a = if a == 10 then some 0 else if a == 13 then some 1 else none

-- The idle processes have pid 0; process 5 is at 11, and process 6 at 12.
abbrev proc : ℕ → Process
proc a = record {
  pid = if a == 10 || a == 13 then 0 else if a == 11 then 5 else 6;
  refcount = 1;
  running_cpu = is_first a;
  reaped = false;
  rsp = a;
  is_user = true;
  state = running;
  sleep_until = 0;
  is_terminal_proc = false;
  tty_id = negsuc 0;
  kill_pending = false;
  next = some (if a == 13 then 10 else a + 1);
  ticks = 0;
  cpu_affinity = bound_to a;
  parent_pid = 1;
  pgid = 5;
  exited = false;
  exit_status = pos 0;
  signal_pending = λ n. false;
}

abbrev of_cpu : ℕ → Option ℕ
of_cpu c = if c == 0 then some 10 else if c == 1 then some 13 else none

abbrev kernel : Kernel
kernel = record {
  procs = proc;
  buckets = λ i. if i == 5 then 11 ∷ [] else if i == 6 then 12 ∷ [] else [];
  reaper_pid = 1;
  cpu_count = 2;
  current = of_cpu;
  idle = of_cpu;
  free_later = λ c. none;
  freed = [];
  log = [];
}

of_cpu_lem : (c p : ℕ) → of_cpu c ≡ some p → ((c ≡ 0) × (p ≡ 10)) ⊎ ((c ≡ 1) × (p ≡ 13))
of_cpu_lem c p e = ground arith

kernel-Exclusive : Exclusive kernel
kernel-Exclusive = record {
  owned = λ c p e. elim (of_cpu_lem c p e) [
    | inl (h, k) ↦ inl (rw (h, k) refl)
    | inr (h, k) ↦ inr (e, rw k refl)
  ];
  idle_ready = λ c p e. elim (of_cpu_lem c p e) [
    | inl (h, k) ↦ inr (rw (h, k) refl)
    | inr (h, k) ↦ inl (rw k refl)
  ];
  idle_bound = λ c p e. elim (of_cpu_lem c p e) [
    | inl (h, k) ↦ rw (h, k) refl
    | inr (h, k) ↦ rw (h, k) refl
  ];
}

second : (cur : ℕ) → of_cpu 1 ≡ some cur → 13 ≡ cur
second cur e = ground arith

not_first : (cur : ℕ) → of_cpu 1 ≡ some cur → (proc cur).pid ≢ 1
not_first cur e = subst (λ a. (proc a).pid ≢ 1) (second cur e) (omega arith)

not_killed : (p : Process) → p.kill_pending ≡ false → killed p ≡ true → ⊥
not_killed p e h = ground arith

kernel-EndsRound : EndsRound 8 kernel 1
unfolding released ends_within
kernel-EndsRound = record {
  goes_on = λ cur e. subst (λ a. ends_from 8 proc a (proc a).next ≡ true) (second cur e) refl;
  is_killed = λ cur e k. absurd (not_killed (proc cur) refl k);
}

schedule-Exclusive_example :
    (t : Kernel × ℕ) × (schedule 8 kernel 1 100 77 ≡ some t) × Exclusive t.0
schedule-Exclusive_example =
    schedule-Exclusive 8 kernel 1 100 77 13 kernel-Exclusive refl not_first kernel-EndsRound

kernel-Once : Once proc 5 (kernel.buckets (pid_hash 5))
unfolding pid_hash find_in
kernel-Once = ((λ e. refl), tt)

find-remove_example : pid_table_find (pid_table_remove kernel 5) 5 ≡ none
find-remove_example = find-remove kernel 5 5 kernel-Once

first_fit-ends_example :
    first_fit 9 proc (can_run 0 100) 10 11
    ≡ some (first_passing proc (can_run 0 100) (ring_part 3 proc 10 11))
unfolding ends_within
first_fit-ends_example = first_fit-ends 3 9 proc (can_run 0 100) 10 11 refl (omega arith)
