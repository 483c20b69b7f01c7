-- ===== src/Files/Fork.antt =====
-- Descriptors of a child, and of a process at its end.
use bored_os.Base.{
  ℕ, zero, suc, ◌+◌, ◌<◌, ◌≤◌, ◌≡◌, refl, sym, some, List, [], ◌∷◌, ◌++◌, length, get_or,
  if◌then◌else◌, arith, Bool-cases, inl, inr, length-append,
}
use bored_os.Files.{
  Kind, Table, Files, Objects, table_of, slot_of, is_open, close_inner, addref_all, fork, close_all,
}
use bored_os.Files.Count.{one, uses, total, Counted}
use bored_os.Files.Change.{Counted-eq, addref-Counted}
use bored_os.Files.Keep.{AllFull, IsCounted, total-le, length-table}
use bored_os.Files.Safe.{Fine, same, closed-Fine}

addref_all-Counted :
    (t : Table) (objects : Objects) (c : Kind → ℕ → ℕ)
    → Counted objects c
    → ((k : Kind) (a : ℕ) → uses k a t ≤ c k a)
    → ((k : Kind) (a : ℕ) → c k a + uses k a t < 2147483647)
    → (objects' : Objects) × (addref_all objects t ≡ some objects')
      × Counted objects' (λ k a. c k a + uses k a t)
unfolding addref_all uses
addref_all-Counted [] objects c h among room =
    (objects, refl, Counted-eq objects c (λ k a. c k a + 0) (λ k a. omega arith) h)
addref_all-Counted (x ∷ t) objects c h among room =
    let c1 : Kind → ℕ → ℕ = λ k a. c k a + one k a x in
    let (o1, e1, h1) =
      addref-Counted objects x c h (λ k a. let m = among k a in omega arith)
        (λ k a. let m = room k a in omega arith) in
    let (o2, e2, h2) =
      addref_all-Counted t o1 c1 h1 (λ k a. let m = among k a in omega arith)
        (λ k a. let m = room k a in omega arith) in
    (
      o2,
      rw (e1, addref_all, e2) refl,
      Counted-eq o2 (λ k a. c1 k a + uses k a t) (λ k a. c k a + (one k a x + uses k a t))
          (λ k a. omega arith) h2,
    )

total-append :
    (k : Kind) (a : ℕ) (ts : List Table) (t : Table)
    → total k a (ts ++ t ∷ []) ≡ total k a ts + uses k a t
unfolding total
total-append k a [] t = omega arith
total-append k a (u ∷ ts) t = omega (arith, total-append k a ts t)

append-AllFull : (ts : List Table) (t : Table) → length t ≡ 64 → AllFull ts → AllFull (ts ++ t ∷ [])
append-AllFull [] t e f = (e, tt)
append-AllFull (u ∷ ts) t e f = (f.0, append-AllFull ts t e f.1)

uses-le-total :
    (k : Kind) (a : ℕ) (ts : List Table) (p : ℕ)
    → p < length ts
    → uses k a (get_or ts p []) ≤ total k a ts
unfolding total
uses-le-total k a [] p h = absurd (omega arith)
uses-le-total k a (t ∷ ts) zero h = omega arith
uses-le-total k a (t ∷ ts) (suc p) h = omega (arith, uses-le-total k a ts p (omega arith))

pub fork-Fine :
    (s : Files) (p : ℕ)
    → IsCounted s
    → p < length s.tables
    → length s.tables < 16777216
    → Fine s (fork s p)
unfolding fork
fork-Fine s p v h few =
    let t = table_of s p in
    let (objects, e, c) =
      addref_all-Counted t s.objects (λ k a. total k a s.tables) v.counted
        (λ k a. uses-le-total k a s.tables p h)
        (λ k a. omega (arith, uses-le-total k a s.tables p h, total-le k a s.tables v.full)) in
    let long = length-append s.tables (t ∷ []) in
    (
      record { objects = objects; tables = s.tables ++ t ∷ [] },
      rw (e, fork) refl,
      record {
        counted =
            Counted-eq objects (λ k a. total k a s.tables + uses k a t)
              (λ k a. total k a (s.tables ++ t ∷ [])) (λ k a. sym (total-append k a s.tables t)) c;
        full = append-AllFull s.tables t (length-table s.tables p v.full h) v.full;
        few = omega arith;
      },
      omega arith,
    )

close_one-Fine :
    (s : Files) (p i : ℕ)
    → IsCounted s
    → p < length s.tables
    → i < 64
    → Fine s (if is_open (slot_of s p i) then close_inner s p i else some s)
close_one-Fine s p i v h d = elim (Bool-cases (is_open (slot_of s p i))) [
  | inl e ↦ rw e (closed-Fine s p i v h d)
  | inr e ↦ rw e (same s v)
]

pub close_all-Fine :
    (k i : ℕ) (s : Files) (p : ℕ)
    → IsCounted s
    → p < length s.tables
    → i + k ≤ 64
    → Fine s (close_all k i s p)
unfolding close_all
close_all-Fine zero i s p v h d = same s v
close_all-Fine (suc k) i s p v h d =
    let (t, e, w, l) = close_one-Fine s p i v h (omega arith) in
    let (u, f, x, m) = close_all-Fine k (i + 1) t p w (omega arith) (omega arith) in
    rw (e, close_all) (u, f, x, omega arith)
