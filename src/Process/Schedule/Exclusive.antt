-- ===== src/Process/Schedule/Exclusive.antt =====
-- No process runs on two processors at once.
use mathlib.Core.Path.{subst}
use bored_os.Base.{
  Option, ℕ, ◌≡◌, ◌≢◌, refl, sym, ap, ◌∙◌, Bool, true, false, none, some, ◌==◌, if◌then◌else◌,
  arith, inl, inr, ◌⊎◌, ℕ_discrete,
}
use bored_os.Base.Arrays.{update_at, update_ne}
use bored_os.Process.{Process, Kernel}
use bored_os.Process.Schedule.{matches_cpu, on_processor, off_processor, switch_to}
use bored_os.Process.Schedule.View.{SameView, update_field}

-- The process may run on the processor, and runs on no other.
abbrev pub Ready : Kernel → ℕ → ℕ → Type 0
Ready s cpu a = ((s.procs a).running_cpu ≡ none) ⊎ ((s.procs a).running_cpu ≡ some cpu)

-- The process runs on the processor, or is its idle process and not yet marked as running, as at
-- the start of a processor.
abbrev pub Owned : Kernel → ℕ → ℕ → Type 0
Owned s c p =
    ((s.procs p).running_cpu ≡ some c) ⊎ ((s.idle c ≡ some p) × ((s.procs p).running_cpu ≡ none))

-- Each processor's process runs there and nowhere else, and its idle process runs nowhere else and
-- is bound to it.
pub record Exclusive (s : Kernel) : Type 0 where
  pub owned : (c p : ℕ) → s.current c ≡ some p → Owned s c p
  pub idle_ready : (c p : ℕ) → s.idle c ≡ some p → Ready s c p
  pub idle_bound : (c p : ℕ) → s.idle c ≡ some p → (s.procs p).cpu_affinity ≡ some c

pub Ready-view : {s t : Kernel} (cpu a : ℕ) → SameView s t → Ready s cpu a → Ready t cpu a
Ready-view cpu a v (inl e) = inl (v.runs a ∙ e)
Ready-view cpu a v (inr e) = inr (v.runs a ∙ e)

Owned-view : {s t : Kernel} (c p : ℕ) → SameView s t → Owned s c p → Owned t c p
Owned-view c p v (inl e) = inl (v.runs p ∙ e)
Owned-view c p v (inr (i, e)) = inr (v.idles c ∙ i, v.runs p ∙ e)

pub view-Exclusive : {s t : Kernel} → SameView s t → Exclusive s → Exclusive t
view-Exclusive v x = record {
  owned = λ c p e. Owned-view c p v (x.owned c p (sym (v.now c) ∙ e));
  idle_ready = λ c p e. Ready-view c p v (x.idle_ready c p (sym (v.idles c) ∙ e));
  idle_bound = λ c p e. v.may p ∙ x.idle_bound c p (sym (v.idles c) ∙ e);
}

-- The same while processor `cpu` is between two processes.
pub record ExclusiveBut (cpu : ℕ) (s : Kernel) : Type 0 where
  pub owned : (c p : ℕ) → c ≢ cpu → s.current c ≡ some p → Owned s c p
  pub idle_ready : (c p : ℕ) → s.idle c ≡ some p → Ready s c p
  pub idle_bound : (c p : ℕ) → s.idle c ≡ some p → (s.procs p).cpu_affinity ≡ some c

pub view-ExclusiveBut :
    {cpu : ℕ} {s t : Kernel} → SameView s t → ExclusiveBut cpu s → ExclusiveBut cpu t
view-ExclusiveBut v x = record {
  owned = λ c p ne e. Owned-view c p v (x.owned c p ne (sym (v.now c) ∙ e));
  idle_ready = λ c p e. Ready-view c p v (x.idle_ready c p (sym (v.idles c) ∙ e));
  idle_bound = λ c p e. v.may p ∙ x.idle_bound c p (sym (v.idles c) ∙ e);
}

pub some_inj : {a b : ℕ} → some a ≡ some b → a ≡ b
some_inj e = cc

off_runs :
    (s : Kernel) (cur p : ℕ)
    → (((off_processor s cur).procs p).running_cpu ≡ none)
      ⊎ (((off_processor s cur).procs p).running_cpu ≡ (s.procs p).running_cpu)
off_runs s cur p = elim (ℕ_discrete cur p) [
  | yes e ↦ inl (ap (λ (q : Process). q.running_cpu) (update_at s.procs cur p _ e))
  | no ne ↦ inr (ap (λ (q : Process). q.running_cpu) (update_ne s.procs cur p _ ne))
]

off_bound :
    (s : Kernel) (cur p : ℕ)
    → ((off_processor s cur).procs p).cpu_affinity ≡ (s.procs p).cpu_affinity
off_bound s cur p = update_field (λ (x : Process). x.cpu_affinity) s.procs cur p _ refl

Ready-off : (s : Kernel) (cpu cur a : ℕ) → Ready s cpu a → Ready (off_processor s cur) cpu a
Ready-off s cpu cur a r = ground (arith, off_runs s cur a)

not-Ready :
    (s : Kernel) (cpu a c : ℕ) → Ready s cpu a → (s.procs a).running_cpu ≡ some c → c ≢ cpu → ⊥
not-Ready s cpu a c r e ne = ground arith

moved :
    (s t : Kernel) (cpu a : ℕ)
    → (t.procs a).running_cpu ≡ (s.procs a).running_cpu
    → Ready s cpu a
    → Ready t cpu a
moved s t cpu a e (inl r) = inl (e ∙ r)
moved s t cpu a e (inr r) = inr (e ∙ r)

no_one : (o : Option ℕ) (c : ℕ) → o ≡ none → o ≡ some c → ⊥
no_one o c e f = cc

Owned-one :
    (s : Kernel) (c d p : ℕ)
    → ((c p : ℕ) → s.idle c ≡ some p → (s.procs p).cpu_affinity ≡ some c)
    → Owned s c p
    → Owned s d p
    → c ≡ d
Owned-one s c d p bound (inl e) (inl f) = some_inj (sym e ∙ f)
Owned-one s c d p bound (inl e) (inr (j, f)) = absurd (no_one (s.procs p).running_cpu c f e)
Owned-one s c d p bound (inr (i, e)) (inl f) = absurd (no_one (s.procs p).running_cpu d e f)
Owned-one s c d p bound (inr (i, e)) (inr (j, f)) = some_inj (sym (bound c p i) ∙ bound d p j)

-- Another process's place is kept.
Owned-kept :
    (s t : Kernel) (c p : ℕ)
    → t.idle c ≡ s.idle c
    → (t.procs p).running_cpu ≡ (s.procs p).running_cpu
    → Owned s c p
    → Owned t c p
Owned-kept s t c p i e (inl o) = inl (e ∙ o)
Owned-kept s t c p i e (inr (j, o)) = inr (i ∙ j, e ∙ o)

-- A processor's process leaves it.
pub leave :
    (s : Kernel) (cpu cur : ℕ)
    → Exclusive s
    → s.current cpu ≡ some cur
    → ExclusiveBut cpu (off_processor s cur)
leave s cpu cur x e = record {
  owned = λ c p ne h.
      let mine = x.owned cpu cur e in
      let theirs = x.owned c p h in
      elim (ℕ_discrete cur p) [
        | yes q ↦ absurd (ne (Owned-one s c cpu p x.idle_bound theirs (subst (Owned s cpu) q mine)))
        | no q ↦
            Owned-kept s (off_processor s cur) c p refl
              (ap (λ (z : Process). z.running_cpu) (update_ne s.procs cur p _ q)) theirs
      ];
  idle_ready = λ c p h. Ready-off s c cur p (x.idle_ready c p h);
  idle_bound = λ c p h. off_bound s cur p ∙ x.idle_bound c p h;
}

-- A process that may run on a processor is no other processor's idle one.
allowed_idle :
    (p : Process) (cpu c : ℕ) → matches_cpu cpu p ≡ true → p.cpu_affinity ≡ some c → c ≡ cpu
unfolding matches_cpu
allowed_idle p cpu c m e = ground arith

on_current : (s : Kernel) (cpu a c : ℕ) → c ≢ cpu → (on_processor s cpu a).current c ≡ s.current c
on_current s cpu a c ne = update_ne s.current cpu c (some a) (λ e. ne (sym e))

on_runs_self : (s : Kernel) (cpu a : ℕ) → ((on_processor s cpu a).procs a).running_cpu ≡ some cpu
on_runs_self s cpu a = ap (λ (q : Process). q.running_cpu) (update_at s.procs a a _ refl)

on_runs :
    (s : Kernel) (cpu a p : ℕ)
    → a ≢ p
    → ((on_processor s cpu a).procs p).running_cpu ≡ (s.procs p).running_cpu
on_runs s cpu a p ne = ap (λ (q : Process). q.running_cpu) (update_ne s.procs a p _ ne)

-- A process that is ready for a processor and allowed there is no other processor's.
not-Owned :
    (s : Kernel) (cpu a c : ℕ)
    → Ready s cpu a
    → matches_cpu cpu (s.procs a) ≡ true
    → ((c p : ℕ) → s.idle c ≡ some p → (s.procs p).cpu_affinity ≡ some c)
    → Owned s c a
    → c ≢ cpu
    → ⊥
not-Owned s cpu a c r m bound (inl o) ne = not-Ready s cpu a c r o ne
not-Owned s cpu a c r m bound (inr (i, o)) ne = ne (allowed_idle (s.procs a) cpu c m (bound c a i))

-- A process that is ready and allowed gets the processor.
pub enter :
    (s : Kernel) (cpu a : ℕ)
    → ExclusiveBut cpu s
    → Ready s cpu a
    → matches_cpu cpu (s.procs a) ≡ true
    → Exclusive (on_processor s cpu a)
enter s cpu a x r m = record {
  owned = λ c p h. elim (ℕ_discrete c cpu) [
    | yes q ↦
        let mine : a ≡ p = some_inj (sym (update_at s.current cpu c (some a) (sym q)) ∙ h) in
        inl (
          ap (λ z. ((on_processor s cpu a).procs z).running_cpu) (sym mine)
          ∙ on_runs_self s cpu a
          ∙ ap some (sym q))
    | no q ↦
        let theirs = x.owned c p q (sym (on_current s cpu a c q) ∙ h) in
        elim (ℕ_discrete a p) [
          | yes e ↦
              absurd (not-Owned s cpu a c r m x.idle_bound (subst (Owned s c) (sym e) theirs) q)
          | no e ↦ Owned-kept s (on_processor s cpu a) c p refl (on_runs s cpu a p e) theirs
        ]
  ];
  idle_ready = λ c p h. elim (ℕ_discrete a p) [
    | yes e ↦
        let bound = ap (λ z. (s.procs z).cpu_affinity) e ∙ x.idle_bound c p h in
        let here = allowed_idle (s.procs a) cpu c m bound in
        inr (
          ap (λ z. ((on_processor s cpu a).procs z).running_cpu) (sym e)
          ∙ on_runs_self s cpu a
          ∙ ap some (sym here))
    | no e ↦ moved s (on_processor s cpu a) c p (on_runs s cpu a p e) (x.idle_ready c p h)
  ];
  idle_bound = λ c p h.
      update_field (λ (z : Process). z.cpu_affinity) s.procs a p _ refl ∙ x.idle_bound c p h;
}

either :
    (b : Bool) (s t : Kernel)
    → Exclusive s
    → (b ≡ false → Exclusive t)
    → Exclusive (if b then s else t)
either true s t x y = x
either false s t x y = y refl

pub same_bound :
    (p q : Process) (cpu : ℕ)
    → q.cpu_affinity ≡ p.cpu_affinity
    → matches_cpu cpu p ≡ true
    → matches_cpu cpu q ≡ true
unfolding matches_cpu
same_bound p q cpu e m = ap (λ o. elim o as (λ z. Bool) [ none ↦ true | some c ↦ c == cpu ]) e ∙ m

bound_off :
    (s : Kernel) (cpu cur a : ℕ)
    → matches_cpu cpu (s.procs a) ≡ true
    → matches_cpu cpu ((off_processor s cur).procs a) ≡ true
bound_off s cpu cur a m =
    same_bound (s.procs a) ((off_processor s cur).procs a) cpu (off_bound s cur a) m

-- The switch to a process that is ready and allowed.
pub enters :
    (s : Kernel) (cpu cur a : ℕ)
    → Exclusive s
    → s.current cpu ≡ some cur
    → Ready s cpu a
    → matches_cpu cpu (s.procs a) ≡ true
    → Exclusive (switch_to s cpu cur a)
unfolding switch_to
enters s cpu cur a x e r m = either (cur == a) s (on_processor (off_processor s cur) cpu a) x (λ h.
    enter (off_processor s cur) cpu a (leave s cpu cur x e) (Ready-off s cpu cur a r)
      (bound_off s cpu cur a m))

-- Where every processor's process runs there and nowhere else, no process is current on two.
pub Exclusive-one :
    (s : Kernel) (c d p : ℕ) → Exclusive s → s.current c ≡ some p → s.current d ≡ some p → c ≡ d
Exclusive-one s c d p x e h = Owned-one s c d p x.idle_bound (x.owned c p e) (x.owned d p h)
