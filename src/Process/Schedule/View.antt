-- ===== src/Process/Schedule/View.antt =====
-- What the functions of sys/process.c leave alone of who runs where.
use bored_os.Base.{
  ℕ, zero, suc, ◌+◌, ◌%◌, ◌≡◌, refl, ap, ◌∙◌, true, Option, none, some, List, [], ◌∷◌, ◌==◌, ◌&&◌,
  if◌then◌else◌, Bool-cases, Option-cases, inl, inr, ℕ_discrete,
}
use bored_os.Base.Arrays.{update, update_at, update_ne}
use bored_os.Base.Int.{ℤ}
use bored_os.Process.{
  Process, Kernel, Call, release, wake_exit_queue, fpu_switch, with_proc, logged, hold, put,
  pid_table_remove, is_blocked, is_zombie, pid_table_find,
}
use bored_os.Process.Exit.{
  reparent_zombie, reparent_one, reparent_bucket, reparent_all, cleanup, runqueue_unlink,
  made_zombie, notify, unblocked, with_signal, target_reaper, with_next, is_next, find_prev,
}
use bored_os.Process.Schedule.{tell_unheld, drop_orphan, switched, ticked, released}

-- Two states that agree on who runs where, who may, and which processes are idle ones.
pub record SameView (s s' : Kernel) : Type 0 where
  pub runs : (p : ℕ) → (s'.procs p).running_cpu ≡ (s.procs p).running_cpu
  pub may : (p : ℕ) → (s'.procs p).cpu_affinity ≡ (s.procs p).cpu_affinity
  pub now : (c : ℕ) → s'.current c ≡ s.current c
  pub idles : (c : ℕ) → s'.idle c ≡ s.idle c

pub same : (s : Kernel) → SameView s s
same s = record { runs = λ p. refl; may = λ p. refl; now = λ c. refl; idles = λ c. refl }

pub then_same : {s t u : Kernel} → SameView s t → SameView t u → SameView s u
then_same a b = record {
  runs = λ p. b.runs p ∙ a.runs p;
  may = λ p. b.may p ∙ a.may p;
  now = λ c. b.now c ∙ a.now c;
  idles = λ c. b.idles c ∙ a.idles c;
}

pub update_field {ℓ} :
    {A : Type ℓ} (f : Process → A) (procs : ℕ → Process) (a q : ℕ) (p : Process)
    → f p ≡ f (procs a)
    → f (update procs a p q) ≡ f (procs q)
update_field f procs a q p e = elim (ℕ_discrete a q) [
  | yes h ↦ ap f (update_at procs a q p h) ∙ e ∙ ap (λ x. f (procs x)) h
  | no h ↦ ap f (update_ne procs a q p h)
]

pub with_proc-SameView :
    (s : Kernel) (a : ℕ) (p : Process)
    → p.running_cpu ≡ (s.procs a).running_cpu
    → p.cpu_affinity ≡ (s.procs a).cpu_affinity
    → SameView s (with_proc s a p)
with_proc-SameView s a p r m = record {
  runs = λ q. update_field (λ (x : Process). x.running_cpu) s.procs a q p r;
  may = λ q. update_field (λ (x : Process). x.cpu_affinity) s.procs a q p m;
  now = λ c. refl;
  idles = λ c. refl;
}

pub hold-SameView : (s : Kernel) (a : ℕ) → SameView s (hold s a)
unfolding hold
hold-SameView s a = with_proc-SameView s a _ refl refl

freed-SameView :
    (s t : Kernel) (a : ℕ) → SameView s t → SameView s (record t { freed = a ∷ t.freed })
freed-SameView s t a v = record { runs = v.runs; may = v.may; now = v.now; idles = v.idles }

pub put-SameView : (s : Kernel) (a : ℕ) → SameView s (put s a)
unfolding put
put-SameView s a =
    let v =
      with_proc-SameView s a
        (record (s.procs a) { refcount = ((s.procs a).refcount + 4294967295) % 4294967296 }) refl
        refl in
    elim (Bool-cases ((s.procs a).refcount == 1)) [
      | inl e ↦ rw e (freed-SameView s _ a v)
      | inr e ↦ rw e v
    ]

remove-SameView : (s : Kernel) (pid : ℕ) → SameView s (pid_table_remove s pid)
unfolding pid_table_remove
remove-SameView s pid = record {
  runs = λ p. refl;
  may = λ p. refl;
  now = λ c. refl;
  idles = λ c. refl;
}

logged-SameView : (s t : Kernel) → SameView s t → (c : Call) → SameView s (logged t c)
logged-SameView s t v c = record { runs = v.runs; may = v.may; now = v.now; idles = v.idles }

-- A process that only lost its place in the table and a reference.
reaped-SameView :
    (s : Kernel) (a pid : ℕ)
    → let s1 = pid_table_remove s pid in
      SameView s (put (with_proc s1 a (record (s1.procs a) { reaped = true })) a)
reaped-SameView s a pid =
    let s1 = pid_table_remove s pid in
    then_same (remove-SameView s pid) (
      then_same (with_proc-SameView s1 a (record (s1.procs a) { reaped = true }) refl refl)
        (put-SameView (with_proc s1 a (record (s1.procs a) { reaped = true })) a))

zombie-SameView :
    (s : Kernel) (a : ℕ) (reaper : Option ℕ) → SameView s (reparent_zombie s a reaper).0
unfolding reparent_zombie
zombie-SameView s a (some r) = logged-SameView s s (same s) _
zombie-SameView s a none = reaped-SameView s a (s.procs a).pid

reparent_one-SameView : (pid : ℕ) (s : Kernel) (a : ℕ) → SameView s (reparent_one pid s a).0
unfolding reparent_one
reparent_one-SameView pid s a =
    let t = with_proc s a (record (s.procs a) { parent_pid = target_reaper s }) in
    let v =
      with_proc-SameView s a (record (s.procs a) { parent_pid = target_reaper s }) refl refl in
    elim (Bool-cases ((s.procs a).parent_pid == pid)) [
      | inl e ↦ elim (Bool-cases (is_zombie (s.procs a).state)) [
        | inl z ↦ rw (e, z) (then_same v (zombie-SameView t a (pid_table_find t (target_reaper s))))
        | inr z ↦ rw (e, z) v
      ]
      | inr e ↦ rw e (same s)
    ]

reparent_bucket-SameView :
    (pid : ℕ) (s : Kernel) (bucket : List ℕ) → SameView s (reparent_bucket pid s bucket)
unfolding reparent_bucket
reparent_bucket-SameView pid s [] = same s
reparent_bucket-SameView pid s (a ∷ bucket) =
    let v = reparent_one-SameView pid s a in
    elim (Bool-cases (reparent_one pid s a).1) [
      | inl e ↦ rw e (then_same v (reparent_bucket-SameView pid (reparent_one pid s a).0 bucket))
      | inr e ↦ rw e v
    ]

reparent_all-SameView : (k i pid : ℕ) (s : Kernel) → SameView s (reparent_all k i pid s)
unfolding reparent_all
reparent_all-SameView zero i pid s = same s
reparent_all-SameView (suc k) i pid s =
    then_same (reparent_bucket-SameView pid s (s.buckets i))
      (reparent_all-SameView k (i + 1) pid (reparent_bucket pid s (s.buckets i)))

cleanup-SameView : (s : Kernel) (a : ℕ) → SameView s (cleanup s a)
unfolding cleanup
cleanup-SameView s a = elim (Bool-cases ((s.procs a).pid == 0)) [
  | inl e ↦ rw e (same s)
  | inr e ↦ rw e (
      then_same (logged-SameView s s (same s) (release a))
        (reparent_all-SameView 128 0 (s.procs a).pid (logged s (release a))))
]

next-SameView : (s : Kernel) (a : ℕ) (n : Option ℕ) → SameView s (with_next s a n)
next-SameView s a n = with_proc-SameView s a (record (s.procs a) { next = n }) refl refl

pub runqueue_unlink-SameView : (s : Kernel) (a : ℕ) → SameView s (runqueue_unlink s a)
unfolding runqueue_unlink
runqueue_unlink-SameView s a = elim (Option-cases (s.procs a).next) [
  | inl e ↦ rw (e, runqueue_unlink) (same s)
  | inr (n, e) ↦ elim (Bool-cases (n == a)) [
    | inl h ↦ rw (e, runqueue_unlink, h) (next-SameView s a none)
    | inr h ↦
        let prev = find_prev 2047 s.procs a a in
        elim (Bool-cases (is_next (s.procs prev).next a)) [
          | inl q ↦
              rw (e, runqueue_unlink, h, q)
                (then_same (next-SameView s prev (some n))
                  (next-SameView (with_next s prev (some n)) a none))
          | inr q ↦ rw (e, runqueue_unlink, h, q) (next-SameView s a none)
        ]
  ]
]

unblocked-view :
    (p : Process)
    → ((unblocked p).running_cpu ≡ p.running_cpu) × ((unblocked p).cpu_affinity ≡ p.cpu_affinity)
unblocked-view p = elim (Bool-cases (is_blocked p.state)) [
  | inl e ↦ rw e (refl, refl)
  | inr e ↦ rw e (refl, refl)
]

pub unblocked-SameView : (s : Kernel) (a : ℕ) → SameView s (with_proc s a (unblocked (s.procs a)))
unblocked-SameView s a =
    let v = unblocked-view (s.procs a) in with_proc-SameView s a (unblocked (s.procs a)) v.0 v.1

notify-SameView : (s : Kernel) (a : ℕ) → SameView s (notify s a)
unfolding notify
notify-SameView s a =
    let p = record (s.procs a) { signal_pending = with_signal (s.procs a).signal_pending 17 } in
    let v = unblocked-view p in
    then_same (logged-SameView s s (same s) (wake_exit_queue a))
      (with_proc-SameView (logged s (wake_exit_queue a)) a (unblocked p) v.0 v.1)

pub released-SameView : (s : Kernel) (cpu : ℕ) → SameView s (released s cpu)
unfolding released
released-SameView s cpu = elim (Option-cases (s.free_later cpu)) [
  | inl e ↦ rw (e, released) (same s)
  | inr (a, e) ↦
      let v = put-SameView s a in
      rw (e, released) (record { runs = v.runs; may = v.may; now = v.now; idles = v.idles })
]

tell_reaper-SameView :
    (s : Kernel) (o : Option ℕ) → SameView s (elim o [ none ↦ s | some r ↦ notify s r ])
tell_reaper-SameView s none = same s
tell_reaper-SameView s (some r) = notify-SameView s r

tell_some-SameView :
    (s : Kernel) (o q : Option ℕ)
    → SameView s (elim o [ some p ↦ notify s p | none ↦ elim q [ none ↦ s | some r ↦ notify s r ] ])
tell_some-SameView s none q = tell_reaper-SameView s q
tell_some-SameView s (some p) q = notify-SameView s p

pub tell_unheld-SameView : (s : Kernel) (parent : ℕ) → SameView s (tell_unheld s parent)
unfolding tell_unheld
tell_unheld-SameView s parent =
    tell_some-SameView s (if parent == 0 then none else pid_table_find s parent)
      (pid_table_find s (target_reaper s))

pub drop_orphan-SameView : (s : Kernel) (a : ℕ) → SameView s (drop_orphan s a)
unfolding drop_orphan
drop_orphan-SameView s a = elim (Bool-cases ((s.procs a).parent_pid == 0 && s.reaper_pid == 0)) [
  | inl e ↦ rw e (reaped-SameView s a (s.procs a).pid)
  | inr e ↦ rw e (same s)
]

pub switched-SameView : (s : Kernel) (rsp next_rsp : ℕ) → SameView s (switched s rsp next_rsp)
unfolding switched
switched-SameView s rsp next_rsp = elim (Bool-cases (rsp == next_rsp)) [
  | inl e ↦ rw e (same s)
  | inr e ↦ rw e (logged-SameView s s (same s) (fpu_switch rsp next_rsp))
]

pub ticked-SameView : (s : Kernel) (a : ℕ) → SameView s (ticked s a)
ticked-SameView s a =
    with_proc-SameView s a (record (s.procs a) { ticks = (s.procs a).ticks + 1 }) refl refl

-- The process that ends, until it leaves its processor.
pub zombified-SameView :
    (s : Kernel) (a : ℕ) (status : ℤ) → SameView s (made_zombie (cleanup (hold s a) a) a status)
unfolding made_zombie
zombified-SameView s a status = then_same (hold-SameView s a) (
    then_same (cleanup-SameView (hold s a) a)
      (with_proc-SameView (cleanup (hold s a) a) a _ refl refl))
