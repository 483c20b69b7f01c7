-- ===== src/WaitQueue/Tests.antt =====
-- Runs of sys/wait_queue.c with one waiting process.
use bored_os.Base.{
  ℕ, ◌+◌, ◌≡◌, ◌≢◌, refl, true, false, some, none, [], ◌∷◌, arith, ◌==◌, if◌then◌else◌,
}
use bored_os.WaitQueue.{
  WaitQueue, World, blocked, is_valid_kernel_ptr, queued, wake_all, begin_wait, wait,
}
use bored_os.WaitQueue.Members.{NoTwice, ValidPtrs}
use bored_os.WaitQueue.Wakeup.{awake, wait_wakes}

abbrev base : ℕ
base = 0xFFFF800000000000

abbrev quiet : WaitQueue
quiet = record { at = base; entries = [] }

abbrev one_waits : WaitQueue
one_waits = record { at = base; entries = (base + 16) ∷ [] }

abbrev world : World
world = record {
  proc = λ e. if e == base + 16 then some 3 else none;
  processes = λ p. record { state = blocked; sleep_until = 50 };
  kicks = 0;
}

only_three : (x : ℕ) → queued x one_waits.entries ≡ true → world.proc x ≢ some 4
only_three x q = ground arith

valid : ValidPtrs one_waits (base + 16)
unfolding is_valid_kernel_ptr
valid = (refl, refl)

valid_quiet : ValidPtrs quiet (base + 16)
unfolding is_valid_kernel_ptr
valid_quiet = (refl, refl)

listed : queued (base + 16) one_waits.entries ≡ true
unfolding queued
listed = refl

unlisted : queued (base + 16) quiet.entries ≡ false
unfolding queued
unlisted = refl

one_waits-NoTwice : NoTwice one_waits.entries
unfolding queued
one_waits-NoTwice = (refl, tt)

wait_wakes_example :
    (((begin_wait quiet world 3 (base + 16) none).1.processes 3).state ≡ blocked)
    × (queued (base + 16) (begin_wait quiet world 3 (base + 16) none).0.entries ≡ true)
    × ((wake_all
            (begin_wait quiet world 3 (base + 16) none).0
            (begin_wait quiet world 3 (base + 16) none).1).processes
          3
        ≡ awake)
    × ((wait (λ s. (s.0, wake_all s.0 s.1)) quiet world 3 (base + 16)).0 ≡ quiet)
wait_wakes_example = wait_wakes quiet world 3 (base + 16) valid_quiet unlisted
