-- ===== src/Pty/Slots.antt =====
-- Opening, closing and finding pseudo terminals: `pty_create`, `pty_destroy`, `pty_get`.
use bored_os.Base.{
  ℕ, zero, suc, ◌+◌, ◌≤◌, ◌<◌, ◌≢◌, ◌≡◌, refl, true, false, Option, none, some, [], ◌∷◌, arith, inl,
  inr, Bool-cases, ℕ_discrete,
}
use bored_os.Base.Int.{ℤ, pos}
use bored_os.Pty.{
  Pairs, id_base, max_count, minus_one, get, get_used, first_free, opened, open_at, create, destroy,
  wake, kill_by_tty, to_slave, to_master,
}

-- What the scan of `k` slots from `i` on found.
abbrev Scanned : ℕ → ℕ → Pairs → Option ℕ → Type 0
Scanned k i ps none = (j : ℕ) → i ≤ j → j < i + k → (ps j).used ≡ true
Scanned k i ps (some j) =
    (i ≤ j) × (j < i + k) × ((ps j).used ≡ false) × ((l : ℕ) → i ≤ l → l < j → (ps l).used ≡ true)

scan_next :
    (k i : ℕ) (ps : Pairs) (r : Option ℕ)
    → (ps i).used ≡ true
    → Scanned k (i + 1) ps r
    → Scanned (suc k) i ps r
scan_next k i ps none u s = λ j lo hi. elim (ℕ_discrete i j) [
  | yes e ↦ rw (← e) u
  | no ne ↦ s j (omega arith) (omega arith)
]
scan_next k i ps (some j) u s = (
  omega arith,
  omega arith,
  s.2,
  λ l lo hi. elim (ℕ_discrete i l) [
    | yes e ↦ rw (← e) u
    | no ne ↦ s.3 l (omega arith) (omega arith)
  ],
)

first_free_lem : (k i : ℕ) (ps : Pairs) → Scanned k i ps (first_free k i ps)
unfolding first_free
first_free_lem zero i ps = λ j lo hi. absurd (omega arith)
first_free_lem (suc k) i ps = elim (Bool-cases (ps i).used) [
  | inl u ↦ rw u (scan_next k i ps _ u (first_free_lem k (i + 1) ps))
  | inr u ↦ rw u (omega arith, omega arith, u, λ l lo hi. absurd (omega arith))
]

-- What `pty_create` returns: -1 with the table unchanged when every slot is taken, and otherwise
-- the id of the first free slot, which alone changes.
pub data Created (ps : Pairs) (r : Pairs × ℤ) : Type 0 where
  full : r.0 ≡ ps → r.1 ≡ minus_one → ((j : ℕ) → j < max_count → (ps j).used ≡ true) → Created ps r
  slot :
      (i : ℕ)
      → i < max_count
      → (ps i).used ≡ false
      → ((j : ℕ) → j < i → (ps j).used ≡ true)
      → get r.1 ≡ some i
      → r.0 i ≡ opened (ps i)
      → ((j : ℕ) → j ≢ i → r.0 j ≡ ps j)
      → Created ps r

get_of_index : (i : ℕ) → i < max_count → get (pos (id_base + i)) ≡ some i
unfolding get
get_of_index i h = ground arith

Created-at : (ps : Pairs) (o : Option ℕ) → Scanned max_count 0 ps o → Created ps (open_at ps o)
unfolding open_at
Created-at ps none s = full refl refl (λ j h. s j (omega arith) (omega arith))
Created-at ps (some i) s =
    slot i (omega arith) s.2 (λ j h. s.3 j (omega arith) h) (get_of_index i (omega arith))
      (ground arith) (λ j ne. ground arith)

-- `pty_create` opens the first free slot, or returns -1 when there is none; no other slot changes.
pub create_lem : (ps : Pairs) → Created ps (create ps)
unfolding create
create_lem ps = Created-at ps (first_free max_count 0 ps) (first_free_lem max_count 0 ps)

-- `pty_destroy` of an id in range frees its slot, wakes both sides and then kills the terminal's
-- processes; afterwards the id is refused, and every other slot is as before.
pub destroy_lem :
    (ps : Pairs) (id : ℤ) (i : ℕ)
    → get id ≡ some i
    → let (ps', events, r) = destroy ps id in
      (get_used ps' id ≡ none)
      × (events ≡ wake i to_slave ∷ wake i to_master ∷ kill_by_tty id ∷ [])
      × (r ≡ pos 0)
      × ((j : ℕ) → j ≢ i → ps' j ≡ ps j)
unfolding destroy get_used
destroy_lem ps id i e = ground arith
