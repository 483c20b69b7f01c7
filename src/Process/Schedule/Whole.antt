-- ===== src/Process/Schedule/Whole.antt =====
-- `process_schedule` as a whole keeps a process to one processor.
use bored_os.Base.{
  ℕ, ◌+◌, ◌%◌, ◌≡◌, ◌≢◌, refl, sym, ◌∙◌, Bool, true, not, some, ◌==◌, ◌&&◌, if◌then◌else◌,
  Bool-cases, Option-cases, inl, inr, ==-false,
}
use bored_os.Base.Int.{ℤ, pos}
use bored_os.Process.{Process, Kernel, put}
use bored_os.Process.Schedule.{terminate_current, released, schedule, is_zero}
use mathlib.Core.Path.{subst}
use bored_os.Process.Schedule.Ring.{ends_from, ends_from-links}
use bored_os.Process.Schedule.View.{update_field, released-SameView}
use bored_os.Process.Schedule.Exclusive.{Exclusive, view-Exclusive}
use bored_os.Process.Schedule.Moves.{
  left_behind, next_of_ended, or_zero, pick_next-Exclusive, terminate_running-Exclusive,
}

put-pid : (s : Kernel) (a q : ℕ) → ((put s a).procs q).pid ≡ (s.procs q).pid
unfolding put
put-pid s a q =
    let same_pid =
      update_field (λ (x : Process). x.pid) s.procs a q
        (record (s.procs a) { refcount = ((s.procs a).refcount + 4294967295) % 4294967296 }) refl in
    elim (Bool-cases ((s.procs a).refcount == 1)) [ inl e ↦ rw e same_pid | inr e ↦ rw e same_pid ]

put-next : (s : Kernel) (a q : ℕ) → ((put s a).procs q).next ≡ (s.procs q).next
unfolding put
put-next s a q =
    let same_next =
      update_field (λ (x : Process). x.next) s.procs a q
        (record (s.procs a) { refcount = ((s.procs a).refcount + 4294967295) % 4294967296 }) refl in
    elim (Bool-cases ((s.procs a).refcount == 1)) [
      | inl e ↦ rw e same_next
      | inr e ↦ rw e same_next
    ]

released-next : (s : Kernel) (cpu q : ℕ) → ((released s cpu).procs q).next ≡ (s.procs q).next
unfolding released
released-next s cpu q = elim (Option-cases (s.free_later cpu)) [
  | inl e ↦ rw (e, released) refl
  | inr (a, e) ↦ rw (e, released) (put-next s a q)
]

released-pid : (s : Kernel) (cpu q : ℕ) → ((released s cpu).procs q).pid ≡ (s.procs q).pid
unfolding released
released-pid s cpu q = elim (Option-cases (s.free_later cpu)) [
  | inl e ↦ rw (e, released) refl
  | inr (a, e) ↦ rw (e, released) (put-pid s a q)
]

terminate_current-Exclusive :
    (hops : ℕ) (s : Kernel) (cpu : ℕ) (status : ℤ) (rsp i cur : ℕ)
    → Exclusive s
    → s.idle cpu ≡ some i
    → s.current cpu ≡ some cur
    → (s.procs cur).pid ≢ 1
    → ends_from hops
        (left_behind s cur status).procs
        (or_zero (next_of_ended s cur status))
        (next_of_ended s cur status)
      ≡ true
    → (t : Kernel × ℕ) × (terminate_current hops s cpu status rsp ≡ some t) × Exclusive t.0
unfolding terminate_current
terminate_current-Exclusive hops s cpu status rsp i cur x idle e ne ring =
    elim (Bool-cases ((s.procs cur).pid == 0)) [
      | inl z ↦ ((s, rsp), rw (e, terminate_current, z) refl, x)
      | inr z ↦
          let o = ==-false (s.procs cur).pid 1 ne in
          let (t, q, y) = terminate_running-Exclusive hops s cpu cur status rsp i x e idle ring in
          (t, rw (e, terminate_current, z, o) q, y)
    ]

abbrev pub killed : Process → Bool
killed p = p.kill_pending && not (p.pid == 0)

abbrev pub status_of : Process → ℤ
status_of p = if is_zero p.exit_status then pos 1 else p.exit_status

-- Each walk along the ring that `process_schedule` may make is over within `hops` steps: the one
-- from its process, and the one from the next of a process that is killed, on the ring without it.
pub record EndsRound (hops : ℕ) (s : Kernel) (cpu : ℕ) : Type 0 where
  pub goes_on :
      (cur : ℕ) → s.current cpu ≡ some cur → ends_from hops s.procs cur (s.procs cur).next ≡ true
  pub is_killed :
      (cur : ℕ)
      → (released s cpu).current cpu ≡ some cur
      → killed ((released s cpu).procs cur) ≡ true
      → let s1 = released s cpu in
        let status = status_of (s1.procs cur) in
        ends_from hops
          (left_behind s1 cur status).procs
          (or_zero (next_of_ended s1 cur status))
          (next_of_ended s1 cur status)
        ≡ true

-- On a processor with an idle process whose process is not process 1, and with as many steps as the
-- walks along the ring take, `process_schedule` comes to an end. If before it every processor's
-- process was marked as running there and nowhere else, or was its idle process and marked as
-- running nowhere, and idle processes were bound to their processors and ran on no other, so it is
-- after.
pub schedule-Exclusive :
    (hops : ℕ) (s : Kernel) (cpu now rsp i : ℕ)
    → Exclusive s
    → s.idle cpu ≡ some i
    → ((cur : ℕ) → s.current cpu ≡ some cur → (s.procs cur).pid ≢ 1)
    → EndsRound hops s cpu
    → (t : Kernel × ℕ) × (schedule hops s cpu now rsp ≡ some t) × Exclusive t.0
unfolding schedule
schedule-Exclusive hops s cpu now rsp i x idle ne ends =
    let s1 = released s cpu in
    let v = released-SameView s cpu in
    let x1 = view-Exclusive v x in
    elim (Option-cases (s1.current cpu)) [
      | inl e ↦ ((s1, rsp), rw (e, schedule) refl, x1)
      | inr (cur, e) ↦
          let p = s1.procs cur in
          let before = sym (v.now cpu) ∙ e in
          let not_init : p.pid ≢ 1 = λ h. ne cur before (sym (released-pid s cpu cur) ∙ h) in
          elim (Bool-cases (killed p)) [
            | inl k ↦
                let (t, q, y) =
                  terminate_current-Exclusive hops s1 cpu (status_of p) rsp i cur x1
                    (v.idles cpu ∙ idle) e not_init (ends.is_killed cur e k) in
                (t, rw (e, schedule, k) q, y)
            | inr k ↦
                let ring =
                  subst (λ o. ends_from hops s1.procs cur o ≡ true) (sym (released-next s cpu cur))
                    (ends_from-links hops s.procs s1.procs cur (s.procs cur).next
                      (released-next s cpu) (ends.goes_on cur before)) in
                let (t, q, y) = pick_next-Exclusive hops s1 cpu cur now rsp x1 e ring in
                (t, rw (e, schedule, k) q, y)
          ]
    ]
