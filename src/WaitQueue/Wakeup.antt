-- ===== src/WaitQueue/Wakeup.antt =====
-- Who is woken.
use bored_os.Base.{
  ℕ, ◌+◌, ◌≢◌, ◌≡◌, refl, true, false, none, some, List, [], ◌∷◌, ◌==◌, arith, Bool-cases, inl, inr,
  ◌∙◌,
}
use bored_os.WaitQueue.{
  WaitQueue, World, Process, running, blocked, is_valid_kernel_ptr, queued, add, wake_entry,
  wake_entries, wake_all, begin_wait, wait,
}
use bored_os.WaitQueue.Members.{ValidPtrs, remove-add}

abbrev pub awake : Process
awake = record { state = running; sleep_until = 0 }

wake_entry-proc : (w : World) (e : ℕ) → (wake_entry w e).0.proc ≡ w.proc
unfolding wake_entry
wake_entry-proc w e = ground arith

-- A woken process stays so.
wake_entry-awake :
    (w : World) (e p : ℕ) → w.processes p ≡ awake → (wake_entry w e).0.processes p ≡ awake
unfolding wake_entry
wake_entry-awake w e p h = ground arith

wake_entries-awake :
    (es : List ℕ) (w : World) (p : ℕ)
    → w.processes p ≡ awake
    → (wake_entries w es).0.processes p ≡ awake
unfolding wake_entries
wake_entries-awake [] w p h = h
wake_entries-awake (e ∷ es) w p h =
    wake_entries-awake es (wake_entry w e).0 p (wake_entry-awake w e p h)

wake_entry_self :
    (w : World) (e p : ℕ)
    → w.proc e ≡ some p
    → ((wake_entry w e).0.processes p ≡ awake) × ((wake_entry w e).1 ≡ true)
unfolding wake_entry
wake_entry_self w e p h = ground arith

wakes_all :
    (es : List ℕ) (w : World) (e p : ℕ)
    → queued e es ≡ true
    → w.proc e ≡ some p
    → ((wake_entries w es).0.processes p ≡ awake) × ((wake_entries w es).1 ≡ true)
unfolding wake_entries queued
wakes_all [] w e p q h = cc
wakes_all (c ∷ es) w e p q h = elim (Bool-cases (c == e)) [
  | inl hit ↦ ground (arith, wake_entry_self w c p, wake_entries-awake es (wake_entry w c).0 p)
  | inr miss ↦ ground (arith, wake_entry-proc w c, wakes_all es (wake_entry w c).0 e p)
]

queued_first : (c : ℕ) (es : List ℕ) → queued c (c ∷ es) ≡ true
unfolding queued
queued_first c es = ground arith

-- Processes of no queued entry are left alone.
one_kept :
    (c : ℕ) (w : World) (p : ℕ) → w.proc c ≢ some p → (wake_entry w c).0.processes p ≡ w.processes p
unfolding wake_entry
one_kept c w p h = ground arith

later :
    (c : ℕ) (es : List ℕ) (w : World) (p : ℕ)
    → ((e : ℕ) → queued e (c ∷ es) ≡ true → w.proc e ≢ some p)
    → (e : ℕ) → queued e es ≡ true
    → (wake_entry w c).0.proc e ≢ some p
unfolding queued
later c es w p h e q = rw (wake_entry-proc w c) (h e (ground arith))

others_kept :
    (es : List ℕ) (w : World) (p : ℕ)
    → ((e : ℕ) → queued e es ≡ true → w.proc e ≢ some p)
    → (wake_entries w es).0.processes p ≡ w.processes p
unfolding wake_entries
others_kept [] w p h = refl
others_kept (c ∷ es) w p h =
    others_kept es (wake_entry w c).0 p (later c es w p h)
    ∙ one_kept c w p (h c (queued_first c es))

-- `wait_queue_wake_all` on a queue at a kernel address makes the process of every queued entry run
-- with no deadline, and kicks the idle processors once after the loop; a process of no queued entry
-- is unchanged.
pub wake_all_lem :
    (h : WaitQueue) (w : World) (e p q : ℕ)
    → is_valid_kernel_ptr h.at ≡ true
    → queued e h.entries ≡ true
    → w.proc e ≡ some p
    → ((x : ℕ) → queued x h.entries ≡ true → w.proc x ≢ some q)
    → ((wake_all h w).processes p ≡ awake)
      × ((wake_all h w).kicks ≡ (wake_entries w h.entries).0.kicks + 1)
      × ((wake_all h w).processes q ≡ w.processes q)
unfolding wake_all
wake_all_lem h w e p q valid mem entry out =
    ground (arith, wakes_all h.entries w e p mem entry, others_kept h.entries w q out)

at-add : (h : WaitQueue) (e : ℕ) → (add h e).at ≡ h.at
unfolding add
at-add h e = ground arith

wake_all_runs :
    (h : WaitQueue) (w : World) (e p : ℕ)
    → is_valid_kernel_ptr h.at ≡ true
    → queued e h.entries ≡ true
    → w.proc e ≡ some p
    → (wake_all h w).processes p ≡ awake
unfolding wake_all
wake_all_runs h w e p valid mem entry = ground (arith, wakes_all h.entries w e p mem entry)

-- No wake-up is lost once a process has gone to sleep: a process that begins to wait on a queue at
-- a kernel address, with an entry at one that is not queued yet, is blocked and queued, and if the
-- queue is woken while it is off the processor, it runs, and leaves the queue as it found it.
pub wait_wakes :
    (h : WaitQueue) (w : World) (p node : ℕ)
    → ValidPtrs h node
    → queued node h.entries ≡ false
    → let (h1, w1) = begin_wait h w p node none in
      ((w1.processes p).state ≡ blocked)
      × (queued node h1.entries ≡ true)
      × ((wake_all h1 w1).processes p ≡ awake)
      × ((wait (λ s. (s.0, wake_all s.0 s.1)) h w p node).0 ≡ h)
unfolding begin_wait wait
wait_wakes h w p node v out =
    let (h1, w1) = begin_wait h w p node none in
    let mem : queued node (add h node).entries ≡ true =
      ground (arith, queued_first node h.entries) in
    (
      ground arith,
      mem,
      wake_all_runs h1 w1 node p (rw (at-add h node) v.0) mem (ground arith),
      remove-add h node out,
    )
