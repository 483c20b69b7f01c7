-- ===== src/Process/Schedule/Moves.antt =====
-- The moves of `process_schedule` and of `process_terminate_current_with_status` between processes.
use bored_os.Base.{
  ℕ, zero, suc, ◌≡◌, refl, sym, ap, ◌∙◌, Bool, true, Option, none, some, arith, Bool-cases,
  Option-cases, inl, inr, ◌⊎◌, ==-true,
}
use mathlib.Core.Path.{subst}
use bored_os.Base.Arrays.{update}
use bored_os.Base.Int.{ℤ}
use bored_os.Process.{Process, Kernel, with_proc, hold}
use bored_os.Process.Exit.{runqueue_unlink, made_zombie, cleanup, unblocked}
use bored_os.Process.Schedule.{
  can_run, can_take_over, not_running_elsewhere, matches_cpu, first_fit, fit_from, on_processor,
  off_processor, tell_unheld, drop_orphan, switched, take_over, ended, terminate_running, fallback,
  chosen, ticked, switch_to, pick_next, go_on, or_else,
}
use bored_os.Process.Schedule.Ring.{ends_from, fit_from-ends, ends_from-links}
use bored_os.Process.Schedule.View.{
  SameView, update_field, then_same, with_proc-SameView, runqueue_unlink-SameView,
  unblocked-SameView, tell_unheld-SameView, drop_orphan-SameView, switched-SameView,
  ticked-SameView, zombified-SameView,
}
use bored_os.Process.Schedule.Exclusive.{
  Ready, Exclusive, ExclusiveBut, view-Exclusive, view-ExclusiveBut, Ready-view, leave, enter,
  enters, same_bound,
}

-- What the loops answer passes their test.
first_fit-passes :
    (k : ℕ) (procs : ℕ → Process) (test : Process → Bool) (start a b : ℕ)
    → first_fit k procs test start a ≡ some (some b)
    → test (procs b) ≡ true
unfolding first_fit
first_fit-passes zero procs test start a b e = ground arith
first_fit-passes (suc k) procs test start a b e =
    let step = first_fit-passes k procs test start in
    elim (Bool-cases (test (procs a))) [
      | inl h ↦ elim (Option-cases (procs a).next) [
        | inl q ↦ ground arith
        | inr (n, q) ↦ ground arith
      ]
      | inr h ↦ elim (Option-cases (procs a).next) [
        | inl q ↦ ground arith
        | inr (n, q) ↦ let rest = step n b in ground arith
      ]
    ]

can_run_lem :
    (cpu now : ℕ) (p : Process)
    → can_run cpu now p ≡ true
    → (matches_cpu cpu p ≡ true) × (not_running_elsewhere cpu p ≡ true)
unfolding can_run
can_run_lem cpu now p e = ground arith

can_take_over_lem :
    (cpu : ℕ) (p : Process)
    → can_take_over cpu p ≡ true
    → (matches_cpu cpu p ≡ true) × (not_running_elsewhere cpu p ≡ true)
unfolding can_take_over
can_take_over_lem cpu p e = ground arith

Ready-here : (s : Kernel) (cpu a : ℕ) → not_running_elsewhere cpu (s.procs a) ≡ true → Ready s cpu a
unfolding not_running_elsewhere
Ready-here s cpu a e = ground arith

fit_from-passes :
    (k : ℕ) (procs : ℕ → Process) (test : Process → Bool) (start : ℕ) (from : Option ℕ) (b : ℕ)
    → fit_from k procs test start from ≡ some (some b)
    → test (procs b) ≡ true
unfolding fit_from
fit_from-passes k procs test start none b e = ground arith
fit_from-passes k procs test start (some a) b e = first_fit-passes k procs test start a b e

fallback_lem :
    (s : Kernel) (cpu cur : ℕ)
    → (fallback s cpu cur ≡ cur) ⊎ (s.idle cpu ≡ some (fallback s cpu cur))
unfolding fallback
fallback_lem s cpu cur = elim (Option-cases (s.idle cpu)) [
  | inl e ↦ ground arith
  | inr (i, e) ↦ ground arith
]

-- An idle process may run on its own processor.
idle_matches : (p : Process) (cpu : ℕ) → p.cpu_affinity ≡ some cpu → matches_cpu cpu p ≡ true
unfolding matches_cpu
idle_matches p cpu e = ground arith

switch_to_self : (s : Kernel) (cpu cur : ℕ) → switch_to s cpu cur cur ≡ s
unfolding switch_to
switch_to_self s cpu cur = rw (==-true cur cur refl) refl

fall_back :
    (s : Kernel) (cpu cur : ℕ)
    → Exclusive s
    → s.current cpu ≡ some cur
    → Exclusive (switch_to s cpu cur (fallback s cpu cur))
fall_back s cpu cur x e = elim (fallback_lem s cpu cur) [
  | inl q ↦
      subst (λ a. Exclusive (switch_to s cpu cur a)) (sym q)
        (subst Exclusive (sym (switch_to_self s cpu cur)) x)
  | inr q ↦
      let i = fallback s cpu cur in
      enters s cpu cur i x e (x.idle_ready cpu i q)
        (idle_matches (s.procs i) cpu (x.idle_bound cpu i q))
]

-- The process that the loop found, which may be woken first.
go_to :
    (s : Kernel) (cpu cur now a : ℕ)
    → Exclusive s
    → s.current cpu ≡ some cur
    → can_run cpu now (s.procs a) ≡ true
    → Exclusive (switch_to (with_proc s a (unblocked (s.procs a))) cpu cur a)
go_to s cpu cur now a x e h =
    let ok = can_run_lem cpu now (s.procs a) h in
    let t = with_proc s a (unblocked (s.procs a)) in
    let v = unblocked-SameView s a in
    enters t cpu cur a (view-Exclusive v x) (v.now cpu ∙ e)
      (Ready-view cpu a v (Ready-here s cpu a ok.1))
      (same_bound (s.procs a) (t.procs a) cpu (v.may a) ok.0)

-- What follows the switch.
after_switch :
    (s : Kernel) (a rsp : ℕ)
    → Exclusive s
    → Exclusive (switched (ticked s a) rsp ((ticked s a).procs a).rsp)
after_switch s a rsp x =
    view-Exclusive
      (then_same (ticked-SameView s a)
        (switched-SameView (ticked s a) rsp ((ticked s a).procs a).rsp))
      x

go_on-Exclusive :
    (s : Kernel) (cpu cur now rsp : ℕ) (found : Option ℕ)
    → Exclusive s
    → s.current cpu ≡ some cur
    → ((a : ℕ) → found ≡ some a → can_run cpu now (s.procs a) ≡ true)
    → Exclusive (go_on s cpu cur found rsp).0
unfolding go_on chosen
go_on-Exclusive s cpu cur now rsp none x e ok =
    after_switch (switch_to s cpu cur (fallback s cpu cur)) (fallback s cpu cur) rsp
      (fall_back s cpu cur x e)
go_on-Exclusive s cpu cur now rsp (some a) x e ok =
    after_switch (switch_to (with_proc s a (unblocked (s.procs a))) cpu cur a) a rsp
      (go_to s cpu cur now a x e (ok a refl))

pub pick_next-Exclusive :
    (hops : ℕ) (s : Kernel) (cpu cur now rsp : ℕ)
    → Exclusive s
    → s.current cpu ≡ some cur
    → ends_from hops s.procs cur (s.procs cur).next ≡ true
    → (t : Kernel × ℕ) × (pick_next hops s cpu cur now rsp ≡ some t) × Exclusive t.0
unfolding pick_next
pick_next-Exclusive hops s cpu cur now rsp x e ring =
    let p = record (s.procs cur) { rsp = rsp } in
    let s1 = with_proc s cur p in
    let x1 = view-Exclusive (with_proc-SameView s cur p refl refl) x in
    let same : (q : ℕ) → (s1.procs q).next ≡ (s.procs q).next =
      λ q. update_field (λ (z : Process). z.next) s.procs cur q p refl in
    let from = (s1.procs cur).next in
    let ring1 =
      subst (λ o. ends_from hops s1.procs cur o ≡ true) (sym (same cur))
        (ends_from-links hops s.procs s1.procs cur (s.procs cur).next same ring) in
    let (found, h) = fit_from-ends hops s1.procs (can_run cpu now) cur from ring1 in
    (
      go_on s1 cpu cur found rsp,
      rw (h, pick_next) refl,
      go_on-Exclusive s1 cpu cur now rsp found x1 e
          (λ a q. fit_from-passes hops s1.procs (can_run cpu now) cur from a (h ∙ ap some q)),
    )

-- The next process enters once the one that ended has left.
take_over-Exclusive :
    (s : Kernel) (cpu a b rsp : ℕ)
    → ExclusiveBut cpu s
    → Ready s cpu b
    → matches_cpu cpu (s.procs b) ≡ true
    → Exclusive (take_over s cpu a (some b) rsp).0
unfolding take_over
take_over-Exclusive s cpu a b rsp x r m =
    let t = on_processor s cpu b in
    let u = tell_unheld t (s.procs a).parent_pid in
    let w = drop_orphan u a in
    let v = then_same (tell_unheld-SameView t (s.procs a).parent_pid) (drop_orphan-SameView u a) in
    let later : SameView t (record w { free_later = update w.free_later cpu (some a) }) = record {
      runs = v.runs;
      may = v.may;
      now = v.now;
      idles = v.idles;
    } in
    view-Exclusive (then_same later (switched-SameView _ rsp (w.procs b).rsp)) (enter s cpu b x r m)

-- The state in which the loop of `process_terminate_current_with_status` starts, and where it does.
abbrev pub left_behind : Kernel → ℕ → ℤ → Kernel
left_behind s a status = runqueue_unlink (ended s a status) a

abbrev pub next_of_ended : Kernel → ℕ → ℤ → Option ℕ
next_of_ended s a status = ((ended s a status).procs a).next

abbrev pub or_zero : Option ℕ → ℕ
or_zero o = elim o [ none ↦ 0 | some n ↦ n ]

taken_over-Exclusive :
    (s : Kernel) (cpu a rsp i : ℕ) (found : Option ℕ)
    → ExclusiveBut cpu s
    → s.idle cpu ≡ some i
    → ((b : ℕ) → found ≡ some b → can_take_over cpu (s.procs b) ≡ true)
    → Exclusive (take_over s cpu a (or_else found (s.idle cpu)) rsp).0
taken_over-Exclusive s cpu a rsp i none x idle ok = rw idle (
    take_over-Exclusive s cpu a i rsp x (x.idle_ready cpu i idle)
      (idle_matches (s.procs i) cpu (x.idle_bound cpu i idle)))
taken_over-Exclusive s cpu a rsp i (some b) x idle ok =
    let fit = can_take_over_lem cpu (s.procs b) (ok b refl) in
    take_over-Exclusive s cpu a b rsp x (Ready-here s cpu b fit.1) fit.0

pub terminate_running-Exclusive :
    (hops : ℕ) (s : Kernel) (cpu a : ℕ) (status : ℤ) (rsp i : ℕ)
    → Exclusive s
    → s.current cpu ≡ some a
    → s.idle cpu ≡ some i
    → ends_from hops
        (left_behind s a status).procs
        (or_zero (next_of_ended s a status))
        (next_of_ended s a status)
      ≡ true
    → (t : Kernel × ℕ) × (terminate_running hops s cpu a status rsp ≡ some t) × Exclusive t.0
unfolding terminate_running ended
terminate_running-Exclusive hops s cpu a status rsp i x e idle ring =
    let z = made_zombie (cleanup (hold s a) a) a status in
    let v = zombified-SameView s a status in
    let s1 = off_processor z a in
    let s2 = runqueue_unlink s1 a in
    let w = runqueue_unlink-SameView s1 a in
    let x2 : ExclusiveBut cpu s2 =
      view-ExclusiveBut w (leave z cpu a (view-Exclusive v x) (v.now cpu ∙ e)) in
    let idle2 : s2.idle cpu ≡ some i = w.idles cpu ∙ (v.idles cpu ∙ idle) in
    let after = (s1.procs a).next in
    let (found, h) = fit_from-ends hops s2.procs (can_take_over cpu) (or_zero after) after ring in
    (
      take_over s2 cpu a (or_else found (s2.idle cpu)) rsp,
      rw (h, terminate_running) refl,
      taken_over-Exclusive s2 cpu a rsp i found x2 idle2 (λ b q.
          fit_from-passes hops s2.procs (can_take_over cpu) (or_zero after) after b
            (h ∙ ap some q)),
    )
