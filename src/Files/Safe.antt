-- ===== src/Files/Safe.antt =====
-- No call on descriptors goes through memory that is free, and what is open is kept.
use mathlib.Core.Path.{subst}
use bored_os.Base.{
  ℕ, ◌+◌, ◌-◌, ◌<◌, ◌≤◌, ◌≡◌, refl, sym, ap, ◌∙◌, false, Option, none, some, [], length, set,
  get_or, ◌==◌, leb, arith, Bool-cases, Option-cases, inl, inr, length-set,
}
use bored_os.Base.Int.{ℤ, pos, negsuc}
use bored_os.Files.{
  Kind, Files, closed, with_slot, table_of, slot_of, is_open, alloc_fd_slot, close_inner, close,
  copy_slot, dup, dup_from, dup2, dup_onto, open_fd, answer, state_of,
}
use bored_os.Files.Count.{one, total}
use bored_os.Files.Change.{Counted-eq, addref-Counted, release-Counted}
use bored_os.Files.Keep.{
  IsCounted, total-small, length-table, total-with_slot, with_slot-AllFull, slot-with_slot,
  one_shut, one-le-total, alloc_fd_slot_lem,
}

pub small : (s : Files) → IsCounted s → (k : Kind) (a : ℕ) → total k a s.tables < 2147483647
small s v k a = omega (arith, total-small s v k a)

-- A call came to an end, with the counts right and no process gone.
abbrev pub Fine : Files → Option Files → Type 0
Fine s r = (t : Files) × (r ≡ some t) × IsCounted t × (length s.tables ≤ length t.tables)

pub close_inner-Fine :
    (s : Files) (p fd : ℕ)
    → IsCounted s
    → p < length s.tables
    → fd < 64
    → (t : Files) × (close_inner s p fd ≡ some t)
      × IsCounted t
      × (t.tables ≡ (with_slot s p fd closed).tables)
unfolding close_inner
close_inner-Fine s p fd v h d =
    let x = slot_of s p fd in
    let (objects, e, c) =
      release-Counted s.objects x (λ k a. total k a s.tables) v.counted
        (one-le-total s p fd v.full h d) (small s v) in
    let t = with_slot (record s { objects = objects }) p fd closed in
    (
      t,
      rw (e, close_inner) refl,
      record {
        counted =
            Counted-eq objects (λ k a. total k a s.tables - one k a x) (λ k a. total k a t.tables)
              (λ k a.
                omega
                  (arith, total-with_slot s p fd closed k a v.full h d, one_shut k a closed refl))
              c;
        full = with_slot-AllFull s p fd closed v.full h;
        few =
            let f = v.few in
            omega (arith, length-set {0} s.tables p (set (table_of s p) fd closed));
      },
      refl,
    )

copy_slot-Fine :
    (s : Files) (p old new : ℕ)
    → IsCounted s
    → p < length s.tables
    → old < 64
    → new < 64
    → is_open (slot_of s p new) ≡ false
    → Fine s (copy_slot s p old new)
unfolding copy_slot
copy_slot-Fine s p old new v h d n shut =
    let x = slot_of s p old in
    let (objects, e, c) =
      addref-Counted s.objects x (λ k a. total k a s.tables) v.counted
        (one-le-total s p old v.full h d) (small s v) in
    let same = length-set s.tables p (set (table_of s p) new x) in
    (
      record (with_slot s p new x) { objects = objects },
      rw (e, copy_slot) refl,
      record {
        counted =
            Counted-eq objects (λ k a. total k a s.tables + one k a x)
              (λ k a. total k a (with_slot s p new x).tables)
              (λ k a. omega (
                arith,
                total-with_slot s p new x k a v.full h n,
                one_shut k a (slot_of s p new) shut,
              ))
              c;
        full = with_slot-AllFull s p new x v.full h;
        few = let f = v.few in omega arith;
      },
      omega arith,
    )

open_fd-lt : (s : Files) (p n : ℕ) (fd : ℤ) → open_fd s p fd ≡ some n → n < 64
unfolding open_fd
open_fd-lt s p n (negsuc m) e = absurd (cc)
open_fd-lt s p n (pos m) e = ground arith

state-answer : (z : ℤ) (r : Option Files) → state_of (answer z r) ≡ r
state-answer z none = refl
state-answer z (some s) = refl

pub same : (s : Files) → IsCounted s → Fine s (some s)
same s v = (s, refl, v, omega arith)

-- An answer whose state is fine, whatever its number.
answer-Fine : (s : Files) (z : ℤ) (r : Option Files) → Fine s r → Fine s (state_of (answer z r))
answer-Fine s z r f = subst (Fine s) (sym (state-answer z r)) f

pub closed-Fine :
    (s : Files) (p fd : ℕ)
    → IsCounted s
    → p < length s.tables
    → fd < 64
    → Fine s (close_inner s p fd)
closed-Fine s p fd v h d =
    let (t, e, w, q) = close_inner-Fine s p fd v h d in
    (
      t,
      e,
      w,
      omega (arith, ap (length {0}) q, length-set {0} s.tables p (set (table_of s p) fd closed)),
    )

pub close-Fine :
    (s : Files) (p : ℕ) (fd : ℤ)
    → IsCounted s
    → p < length s.tables
    → Fine s (state_of (close s p fd))
unfolding close
close-Fine s p fd v h = elim (Option-cases (open_fd s p fd)) [
  | inl e ↦ rw (e, close) (same s v)
  | inr (n, e) ↦
      rw (e, close)
        (answer-Fine s (pos 0) (close_inner s p n) (closed-Fine s p n v h (open_fd-lt s p n fd e)))
]

dup_from-Fine :
    (s : Files) (p old : ℕ)
    → IsCounted s
    → p < length s.tables
    → old < 64
    → Fine s (state_of (dup_from s p old (alloc_fd_slot (table_of s p) 0)))
unfolding dup_from
dup_from-Fine s p old v h d = elim (Option-cases (alloc_fd_slot (table_of s p) 0)) [
  | inl e ↦ rw e (same s v)
  | inr (n, e) ↦
      let (a, b, shut) = alloc_fd_slot_lem (table_of s p) 0 n e in
      rw e (
        answer-Fine s (pos n) (copy_slot s p old n)
          (copy_slot-Fine s p old n v h d (omega (arith, length-table s.tables p v.full h)) shut))
]

pub dup-Fine :
    (s : Files) (p : ℕ) (fd : ℤ)
    → IsCounted s
    → p < length s.tables
    → Fine s (state_of (dup s p fd))
unfolding dup
dup-Fine s p fd v h = elim (Option-cases (open_fd s p fd)) [
  | inl e ↦ rw (e, dup) (same s v)
  | inr (n, e) ↦ rw (e, dup) (dup_from-Fine s p n v h (open_fd-lt s p n fd e))
]

-- The slot that `dup2` closes first is shut afterwards.
reopen-Fine :
    (s : Files) (p old new : ℕ)
    → IsCounted s
    → p < length s.tables
    → old < 64
    → new < 64
    → Fine s (
        state_of (elim (close_inner s p new) [
          | none ↦ none
          | some t ↦ answer (pos new) (copy_slot t p old new)
        ]))
reopen-Fine s p old new v h d n =
    let (t, e, w, q) = close_inner-Fine s p new v h n in
    let long : length t.tables ≡ length s.tables =
      ap length q ∙ length-set s.tables p (set (table_of s p) new closed) in
    let shut : is_open (slot_of t p new) ≡ false =
      ap (λ ts. is_open (get_or (get_or ts p []) new closed)) q
      ∙ ap is_open (slot-with_slot s p new closed v.full h n) in
    let (u, f, x, l) = copy_slot-Fine t p old new w (omega arith) d n shut in
    rw (e, f) (u, refl, x, omega arith)

dup_onto-Fine :
    (s : Files) (p old new : ℕ)
    → IsCounted s
    → p < length s.tables
    → old < 64
    → new < 64
    → Fine s (state_of (dup_onto s p old new))
unfolding dup_onto
dup_onto-Fine s p old new v h d n = elim (Bool-cases (old == new)) [
  | inl e ↦ rw e (same s v)
  | inr e ↦ elim (Bool-cases (is_open (slot_of s p new))) [
    | inl o ↦ rw (e, o) (reopen-Fine s p old new v h d n)
    | inr o ↦
        rw (e, o)
          (answer-Fine s (pos new) (copy_slot s p old new) (copy_slot-Fine s p old new v h d n o))
  ]
]

pub dup2-Fine :
    (s : Files) (p : ℕ) (fd new : ℤ)
    → IsCounted s
    → p < length s.tables
    → Fine s (state_of (dup2 s p fd new))
unfolding dup2
dup2-Fine s p fd (negsuc m) v h = same s v
dup2-Fine s p fd (pos m) v h = elim (Option-cases (open_fd s p fd)) [
  | inl e ↦ rw (e, dup2) (same s v)
  | inr (n, e) ↦ elim (Bool-cases (leb 64 m)) [
    | inl o ↦ rw (e, dup2, o) (same s v)
    | inr o ↦ rw (e, dup2, o) (dup_onto-Fine s p n m v h (open_fd-lt s p n fd e) (ground arith))
  ]
]
