-- ===== src/Process/Schedule/Ring.antt =====
-- The walk of the loops of sys/process.c along the ring of the run queue.
use bored_os.Base.{
  ℕ, zero, suc, ◌≤◌, ◌≡◌, refl, Bool, true, false, Option, none, some, List, [], ◌∷◌, ◌==◌,
  if◌then◌else◌, arith, Option-cases, inl, inr,
}
use bored_os.Process.{Process}
use bored_os.Process.Schedule.{first_fit, fit_from}

-- From `a` on, at most `k` processes stand before `start` comes again or the list ends.
unfoldable pub ends_within : ℕ → (ℕ → Process) → ℕ → ℕ → Bool
ends_within zero procs start a = false
ends_within (suc k) procs start a = elim (procs a).next [
  | none ↦ true
  | some n ↦ if n == start then true else ends_within k procs start n
]

-- Those processes.
unfoldable pub ring_part : ℕ → (ℕ → Process) → ℕ → ℕ → List ℕ
ring_part zero procs start a = []
ring_part (suc k) procs start a = elim (procs a).next [
  | none ↦ a ∷ []
  | some n ↦ let rest = ring_part k procs start n in if n == start then a ∷ [] else a ∷ rest
]

-- The first of some processes that passes a test.
unfoldable pub first_passing : (ℕ → Process) → (Process → Bool) → List ℕ → Option ℕ
first_passing procs test [] = none
first_passing procs test (a ∷ ps) =
    let rest = first_passing procs test ps in if test (procs a) then some a else rest

-- Where the walk from `a` comes to `start` or to the end of the list within `k` processes, the loop
-- is over within `k` steps, and answers the first of those processes that passes the test, or that
-- none does.
pub first_fit-ends :
    (k j : ℕ) (procs : ℕ → Process) (test : Process → Bool) (start a : ℕ)
    → ends_within k procs start a ≡ true
    → k ≤ j
    → first_fit j procs test start a ≡ some (first_passing procs test (ring_part k procs start a))
unfolding first_fit ends_within ring_part first_passing
first_fit-ends zero j procs test start a e h = ground arith
first_fit-ends (suc k) zero procs test start a e h = absurd (omega arith)
first_fit-ends (suc k) (suc j) procs test start a e h = elim (Option-cases (procs a).next) [
  | inl q ↦ ground arith
  | inr (n, q) ↦ let ih = first_fit-ends k j procs test start n in ground arith
]

-- The same for a walk that may have nowhere to start.
abbrev pub ends_from : ℕ → (ℕ → Process) → ℕ → Option ℕ → Bool
ends_from k procs start none = true
ends_from k procs start (some a) = ends_within k procs start a

pub fit_from-ends :
    (k : ℕ) (procs : ℕ → Process) (test : Process → Bool) (start : ℕ) (from : Option ℕ)
    → ends_from k procs start from ≡ true
    → (r : Option ℕ) × (fit_from k procs test start from ≡ some r)
unfolding fit_from
fit_from-ends k procs test start none e = (none, refl)
fit_from-ends k procs test start (some a) e = (
  first_passing procs test (ring_part k procs start a),
  first_fit-ends k k procs test start a e (omega arith),
)

-- Only the links of the ring matter.
ends_within-links :
    (k : ℕ) (procs procs' : ℕ → Process) (start a : ℕ)
    → ((p : ℕ) → (procs' p).next ≡ (procs p).next)
    → ends_within k procs start a ≡ true
    → ends_within k procs' start a ≡ true
unfolding ends_within
ends_within-links zero procs procs' start a same e = e
ends_within-links (suc k) procs procs' start a same e =
    let ih = ends_within-links k procs procs' start in
    let here = same a in
    elim (Option-cases (procs a).next) [
      | inl q ↦ ground arith
      | inr (n, q) ↦ let rest = ih n same in ground arith
    ]

pub ends_from-links :
    (k : ℕ) (procs procs' : ℕ → Process) (start : ℕ) (from : Option ℕ)
    → ((p : ℕ) → (procs' p).next ≡ (procs p).next)
    → ends_from k procs start from ≡ true
    → ends_from k procs' start from ≡ true
ends_from-links k procs procs' start none same e = refl
ends_from-links k procs procs' start (some a) same e =
    ends_within-links k procs procs' start a same e
