-- ===== src/WaitQueue/Members.antt =====
-- Which entries stand in a wait queue.
use bored_os.Base.{ℕ, ◌≢◌, ◌≡◌, refl, true, false, List, [], ◌∷◌, ◌==◌, arith, Bool-cases, inl, inr}
use bored_os.WaitQueue.{WaitQueue, is_valid_kernel_ptr, queued, add, unlink, remove}

-- No entry stands in the list twice, so the linked list is no circle.
abbrev pub NoTwice : List ℕ → Type 0
NoTwice [] = Unit {0}
NoTwice (e ∷ es) = (queued e es ≡ false) × NoTwice es

-- Both the queue and the entry are kernel addresses.
abbrev pub ValidPtrs : WaitQueue → ℕ → Type 0
ValidPtrs h e = (is_valid_kernel_ptr h.at ≡ true) × (is_valid_kernel_ptr e ≡ true)

queued-unlink_ne : (e x : ℕ) (es : List ℕ) → x ≢ e → queued x (unlink e es) ≡ queued x es
unfolding queued unlink
queued-unlink_ne e x [] ne = refl
queued-unlink_ne e x (c ∷ cs) ne = ground (arith, queued-unlink_ne e x cs ne)

queued-unlink_self : (e : ℕ) (es : List ℕ) → NoTwice es → queued e (unlink e es) ≡ false
unfolding queued unlink
queued-unlink_self e [] n = refl
queued-unlink_self e (c ∷ cs) n = elim (Bool-cases (c == e)) [
  | inl hit ↦ ground (arith, n.0)
  | inr miss ↦ ground (arith, queued-unlink_self e cs n.1)
]

unlink-NoTwice : (e : ℕ) (es : List ℕ) → NoTwice es → NoTwice (unlink e es)
unfolding queued unlink
unlink-NoTwice e [] n = tt
unlink-NoTwice e (c ∷ cs) n = elim (Bool-cases (c == e)) [
  | inl hit ↦ ground (arith, n.1)
  | inr miss ↦ ground (arith, n.0, queued-unlink_ne e c cs, unlink-NoTwice e cs n.1)
]

-- If no entry stands in the queue twice, none does after `wait_queue_add` or `wait_queue_remove`.
pub add-remove-NoTwice :
    (h : WaitQueue) (e : ℕ)
    → NoTwice h.entries
    → NoTwice (add h e).entries × NoTwice (remove h e).entries
unfolding add remove
add-remove-NoTwice h e n = ground (arith, unlink-NoTwice e h.entries n)

-- On kernel addresses, after `wait_queue_add` the entry is queued, and after `wait_queue_remove` on
-- a queue that holds none twice it is not; every other entry is queued as before.
pub queued-add-remove :
    (h : WaitQueue) (e : ℕ)
    → ValidPtrs h e
    → NoTwice h.entries
    → (queued e (add h e).entries ≡ true)
      × (queued e (remove h e).entries ≡ false)
      × ((x : ℕ)
          → x ≢ e
          → (queued x (add h e).entries ≡ queued x h.entries)
            × (queued x (remove h e).entries ≡ queued x h.entries))
unfolding add remove queued
queued-add-remove h e v n = (
  ground arith,
  ground (arith, queued-unlink_self e h.entries n),
  λ x ne. (ground arith, ground (arith, queued-unlink_ne e x h.entries ne)),
)

-- Removing an entry that was just added restores the queue.
pub remove-add : (h : WaitQueue) (e : ℕ) → queued e h.entries ≡ false → remove (add h e) e ≡ h
unfolding add remove unlink
remove-add h e out = ground arith
