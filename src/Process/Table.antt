-- ===== src/Process/Table.antt =====
-- The process table of sys/process.c as a map from pids, and the references it counts.
use bored_os.Base.{
  ℕ, ◌+◌, ◌-◌, ◌<◌, ◌%◌, ◌≡◌, ◌≢◌, refl, sym, ap, ◌∙◌, none, some, List, [], ◌∷◌, ◌==◌, ◌&&◌,
  if◌then◌else◌, arith, Bool-cases, inl, inr, ℕ_discrete, ==-true, ==-false,
}
use bored_os.Base.Arrays.{update, update_at, update_ne}
use bored_os.Process.{
  Process, Kernel, pid_hash, find_in, remove_from, pid_table_insert, pid_table_find,
  pid_table_remove, hold, put, u32_mod,
}

find_in-update :
    (procs : ℕ → Process) (pid i j a : ℕ) (buckets : ℕ → List ℕ)
    → find_in procs pid (update buckets i (a ∷ buckets i) j)
      ≡ (if i == j && ((procs a).pid == pid) then some a else find_in procs pid (buckets j))
unfolding find_in
find_in-update procs pid i j a buckets = elim (ℕ_discrete i j) [
  | yes e ↦ elim (Bool-cases ((procs a).pid == pid)) [ inl h ↦ ground arith | inr h ↦ ground arith ]
  | no e ↦ ground arith
]

-- A look-up after `pid_table_insert` finds the new process under its own pid, and under another pid
-- what it found before.
pub find-insert :
    (s : Kernel) (a pid : ℕ)
    → pid_table_find (pid_table_insert s a) pid
      ≡ (if (s.procs a).pid == pid then some a else pid_table_find s pid)
unfolding pid_table_find pid_table_insert
find-insert s a pid =
    let e = find_in-update s.procs pid (pid_hash (s.procs a).pid) (pid_hash pid) a s.buckets in
    elim (ℕ_discrete (s.procs a).pid pid) [ yes h ↦ ground arith | no h ↦ ground arith ]

-- At most one process of the bucket has the pid.
abbrev pub Once : (ℕ → Process) → ℕ → List ℕ → Type 0
Once procs pid [] = Unit {0}
Once procs pid (a ∷ bucket) =
    (((procs a).pid ≡ pid) → find_in procs pid bucket ≡ none) × Once procs pid bucket

find_in-remove_from :
    (procs : ℕ → Process) (pid : ℕ) (bucket : List ℕ)
    → Once procs pid bucket
    → find_in procs pid (remove_from procs pid bucket) ≡ none
unfolding find_in remove_from
find_in-remove_from procs pid [] o = refl
find_in-remove_from procs pid (a ∷ bucket) o = elim (ℕ_discrete (procs a).pid pid) [
  | yes h ↦ let gone = o.0 h in rw (==-true (procs a).pid pid h) gone
  | no h ↦
      let t = ==-false (procs a).pid pid h in
      let ih = find_in-remove_from procs pid bucket o.1 in rw (t, find_in, t) ih
]

find_in-remove_other :
    (procs : ℕ → Process) (pid other : ℕ) (bucket : List ℕ)
    → other ≢ pid
    → find_in procs other (remove_from procs pid bucket) ≡ find_in procs other bucket
unfolding find_in remove_from
find_in-remove_other procs pid other [] ne = refl
find_in-remove_other procs pid other (a ∷ bucket) ne =
    let ih = find_in-remove_other procs pid other bucket ne in
    elim (ℕ_discrete (procs a).pid pid) [ yes h ↦ ground arith | no h ↦ ground arith ]

-- Where at most one process of its bucket has a pid, a look-up after `pid_table_remove` finds none
-- under that pid, and under another pid what it found before.
pub find-remove :
    (s : Kernel) (pid other : ℕ)
    → Once s.procs pid (s.buckets (pid_hash pid))
    → pid_table_find (pid_table_remove s pid) other
      ≡ (if other == pid then none else pid_table_find s other)
unfolding pid_table_find pid_table_remove
find-remove s pid other o =
    let kept = remove_from s.procs pid (s.buckets (pid_hash pid)) in
    elim (ℕ_discrete other pid) [
      | yes e ↦
          let self = find_in-remove_from s.procs pid (s.buckets (pid_hash pid)) o in
          let same : find_in s.procs other kept ≡ none =
            ap (λ x. find_in s.procs x kept) e ∙ self in
          rw (==-true other pid e) (
            ap (find_in s.procs other)
              (update_at s.buckets (pid_hash pid) (pid_hash other) kept (ap pid_hash (sym e)))
            ∙ same)
      | no e ↦
          let rest = find_in-remove_other s.procs pid other (s.buckets (pid_hash other)) e in
          rw (==-false other pid e) (elim (ℕ_discrete (pid_hash pid) (pid_hash other)) [
            | yes q ↦
                ap (find_in s.procs other)
                  (update_at s.buckets (pid_hash pid) (pid_hash other) kept q)
                ∙ ap (λ i. find_in s.procs other (remove_from s.procs pid (s.buckets i))) q
                ∙ rest
            | no q ↦
                ap (find_in s.procs other)
                  (update_ne s.buckets (pid_hash pid) (pid_hash other) kept q)
          ])
    ]

-- The process with one reference more, and with one less.
abbrev pub held : Process → Process
held p = record p { refcount = (p.refcount + 1) % u32_mod }

abbrev pub dropped : Process → Process
dropped p = record p { refcount = (p.refcount + (u32_mod - 1)) % u32_mod }

pub put-procs :
    (s : Kernel) (a q : ℕ) → (put s a).procs q ≡ update s.procs a (dropped (s.procs a)) q
unfolding put
put-procs s a q = elim (Bool-cases ((s.procs a).refcount == 1)) [
  | inl e ↦ rw e refl
  | inr e ↦ rw e refl
]

pub put-freed :
    (s : Kernel) (a : ℕ)
    → (put s a).freed ≡ (if (s.procs a).refcount == 1 then a ∷ s.freed else s.freed)
unfolding put
put-freed s a = elim (Bool-cases ((s.procs a).refcount == 1)) [
  | inl e ↦ rw e refl
  | inr e ↦ rw e refl
]

pub hold-at : (s : Kernel) (a : ℕ) → (hold s a).procs a ≡ held (s.procs a)
unfolding hold
hold-at s a = update_at s.procs a a (held (s.procs a)) refl

pub hold-ne : (s : Kernel) (a q : ℕ) → a ≢ q → (hold s a).procs q ≡ s.procs q
unfolding hold
hold-ne s a q e = update_ne s.procs a q (held (s.procs a)) e

pub dropped-held : (p : Process) → p.refcount + 1 < u32_mod → dropped (held p) ≡ p
dropped-held p k =
    let e : (((p.refcount + 1) % 4294967296) + 4294967295) % 4294967296 ≡ p.refcount =
      omega arith in
    ap (λ n. record p { refcount = n }) e

put-hold_procs :
    (s : Kernel) (a : ℕ)
    → (s.procs a).refcount + 1 < u32_mod
    → (q : ℕ) → (put (hold s a) a).procs q ≡ s.procs q
put-hold_procs s a k q = put-procs (hold s a) a q ∙ elim (ℕ_discrete a q) [
  | yes e ↦
      update_at (hold s a).procs a q (dropped ((hold s a).procs a)) e
      ∙ ap dropped (hold-at s a)
      ∙ dropped-held (s.procs a) k
      ∙ ap s.procs e
  | no e ↦ update_ne (hold s a).procs a q _ e ∙ hold-ne s a q e
]

hold-freed : (s : Kernel) (a : ℕ) → (hold s a).freed ≡ s.freed
unfolding hold
hold-freed s a = refl

-- With a count below 2^32 - 1 and above 0, `process_put` takes back the reference that
-- `process_hold` took: every process is as before, and nothing is freed.
pub put-hold :
    (s : Kernel) (a : ℕ)
    → 0 < (s.procs a).refcount
    → (s.procs a).refcount + 1 < u32_mod
    → ((q : ℕ) → (put (hold s a) a).procs q ≡ s.procs q) × ((put (hold s a) a).freed ≡ s.freed)
put-hold s a h k = (
  put-hold_procs s a k,
  put-freed (hold s a) a
      ∙ rw (hold-at s a, ==-false (((s.procs a).refcount + 1) % 4294967296) 1 (omega arith))
          (hold-freed s a),
)
