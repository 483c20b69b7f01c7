-- ===== src/Files/Keep.antt =====
-- The counts of references as descriptors come and go in the tables.
use bored_os.Base.{
  ℕ, zero, suc, ◌+◌, ◌*◌, ◌<◌, ◌≤◌, ◌≡◌, refl, sym, ap, ◌∙◌, ◌≢◌, false, some, List, [], ◌∷◌,
  length, set, get_or, drop, arith, Bool-cases, Option-cases, inl, inr, length-drop, length-set,
}
use bored_os.Files.{
  Kind, Slot, Table, Files, closed, with_slot, table_of, slot_of, is_open, first_free,
  alloc_fd_slot,
}
use bored_os.Files.Count.{one, uses, total, Counted}

-- Every process has 64 descriptors.
abbrev pub AllFull : List Table → Type 0
AllFull [] = Unit {0}
AllFull (t ∷ ts) = (length t ≡ 64) × AllFull ts

-- Each object's counts are the numbers of descriptors that refer to it, no memory that is free is
-- referred to, and there are at most 2^24 processes.
pub record IsCounted (s : Files) : Type 0 where
  pub counted : Counted s.objects (λ k a. total k a s.tables)
  pub full : AllFull s.tables
  pub few : length s.tables ≤ 16777216

one-le : (k : Kind) (a : ℕ) (x : Slot) → one k a x ≤ 1
unfolding one
one-le k a x = elim (Option-cases x.object) [ inl e ↦ ground arith | inr (b, e) ↦ ground arith ]

uses-le : (k : Kind) (a : ℕ) (t : Table) → uses k a t ≤ length t
unfolding uses
uses-le k a [] = omega arith
uses-le k a (x ∷ t) = omega (arith, uses-le k a t, one-le k a x)

pub total-le : (k : Kind) (a : ℕ) (ts : List Table) → AllFull ts → total k a ts ≤ 64 * length ts
unfolding total
total-le k a [] f = omega arith
total-le k a (t ∷ ts) f = omega (arith, uses-le k a t, total-le k a ts f.1, f.0)

pub total-small : (s : Files) → IsCounted s → (k : Kind) (a : ℕ) → total k a s.tables < 1073741825
total-small s v k a = omega (arith, total-le k a s.tables v.full, v.few)

uses-set :
    (k : Kind) (a : ℕ) (t : Table) (i : ℕ) (x : Slot)
    → i < length t
    → uses k a (set t i x) + one k a (get_or t i closed) ≡ uses k a t + one k a x
unfolding uses
uses-set k a [] i x h = absurd (omega arith)
uses-set k a (y ∷ t) zero x h = omega arith
uses-set k a (y ∷ t) (suc i) x h = omega (arith, uses-set k a t i x (omega arith))

total-set :
    (k : Kind) (a : ℕ) (ts : List Table) (p : ℕ) (t : Table)
    → p < length ts
    → total k a (set ts p t) + uses k a (get_or ts p []) ≡ total k a ts + uses k a t
unfolding total
total-set k a [] p t h = absurd (omega arith)
total-set k a (u ∷ ts) zero t h = omega arith
total-set k a (u ∷ ts) (suc p) t h = omega (arith, total-set k a ts p t (omega arith))

pub length-table :
    (ts : List Table) (p : ℕ) → AllFull ts → p < length ts → length (get_or ts p []) ≡ 64
length-table [] p f h = absurd (omega arith)
length-table (t ∷ ts) zero f h = f.0
length-table (t ∷ ts) (suc p) f h = length-table ts p f.1 (omega arith)

pub set-AllFull :
    (ts : List Table) (p : ℕ) (t : Table) → length t ≡ 64 → AllFull ts → AllFull (set ts p t)
set-AllFull [] p t e f = f
set-AllFull (u ∷ ts) zero t e f = (e, f.1)
set-AllFull (u ∷ ts) (suc p) t e f = (f.0, set-AllFull ts p t e f.1)

-- A descriptor of a process changes.
pub total-with_slot :
    (s : Files) (p fd : ℕ) (x : Slot) (k : Kind) (a : ℕ)
    → AllFull s.tables
    → p < length s.tables
    → fd < 64
    → total k a (with_slot s p fd x).tables + one k a (slot_of s p fd)
      ≡ total k a s.tables + one k a x
total-with_slot s p fd x k a f h d = omega (
  arith,
  total-set k a s.tables p (set (table_of s p) fd x) h,
  uses-set k a (table_of s p) fd x (omega (arith, length-table s.tables p f h)),
)

pub with_slot-AllFull :
    (s : Files) (p fd : ℕ) (x : Slot)
    → AllFull s.tables
    → p < length s.tables
    → AllFull (with_slot s p fd x).tables
with_slot-AllFull s p fd x f h =
    set-AllFull s.tables p (set (table_of s p) fd x)
      (length-set (table_of s p) fd x ∙ length-table s.tables p f h) f

get_or-set_self {ℓ} :
    {A : Type ℓ} (xs : List A) (i : ℕ) (v d : A) → i < length xs → get_or (set xs i v) i d ≡ v
get_or-set_self [] i v d h = absurd (omega arith)
get_or-set_self (x ∷ xs) zero v d h = refl
get_or-set_self (x ∷ xs) (suc i) v d h = get_or-set_self xs i v d (omega arith)

get_or-set_ne {ℓ} :
    {A : Type ℓ} (xs : List A) (i j : ℕ) (v d : A) → i ≢ j → get_or (set xs i v) j d ≡ get_or xs j d
get_or-set_ne [] i j v d h = refl
get_or-set_ne (x ∷ xs) zero zero v d h = absurd (h refl)
get_or-set_ne (x ∷ xs) zero (suc j) v d h = refl
get_or-set_ne (x ∷ xs) (suc i) zero v d h = refl
get_or-set_ne (x ∷ xs) (suc i) (suc j) v d h = get_or-set_ne xs i j v d (λ e. h (ap suc e))

pub slot-with_slot :
    (s : Files) (p fd : ℕ) (x : Slot)
    → AllFull s.tables
    → p < length s.tables
    → fd < 64
    → slot_of (with_slot s p fd x) p fd ≡ x
slot-with_slot s p fd x f h d =
    ap (λ t. get_or t fd closed) (get_or-set_self s.tables p (set (table_of s p) fd x) [] h)
    ∙ get_or-set_self (table_of s p) fd x closed (omega (arith, length-table s.tables p f h))

pub slot-with_slot_ne :
    (s : Files) (p fd other : ℕ) (x : Slot)
    → p < length s.tables
    → fd ≢ other
    → slot_of (with_slot s p fd x) p other ≡ slot_of s p other
slot-with_slot_ne s p fd other x h ne =
    ap (λ t. get_or t other closed) (get_or-set_self s.tables p (set (table_of s p) fd x) [] h)
    ∙ get_or-set_ne (table_of s p) fd other x closed ne

-- A descriptor that is not open refers to nothing.
pub one_shut : (k : Kind) (a : ℕ) (x : Slot) → is_open x ≡ false → one k a x ≡ 0
unfolding one
one_shut k a x e = elim (Option-cases x.object) [
  | inl q ↦ rw (q, one) refl
  | inr (b, q) ↦ ground arith
]

-- A descriptor of a table is among those that are counted.
pub one-le-total :
    (s : Files) (p fd : ℕ)
    → AllFull s.tables
    → p < length s.tables
    → fd < 64
    → (k : Kind) (a : ℕ) → one k a (slot_of s p fd) ≤ total k a s.tables
one-le-total s p fd f h d k a =
    omega (arith, total-with_slot s p fd closed k a f h d, one_shut k a closed refl)

first_free_lem :
    (i n : ℕ) (t : Table)
    → first_free i t ≡ some n
    → (m : ℕ) × (n ≡ i + m) × (m < length t) × (is_open (get_or t m closed) ≡ false)
unfolding first_free
first_free_lem i n [] e = absurd (cc)
first_free_lem i n (x ∷ t) e = elim (Bool-cases (is_open x)) [
  | inl o ↦
      let (m, a, b, c) = first_free_lem (i + 1) n t (rw o at e) in
      (suc m, omega arith, omega arith, c)
  | inr o ↦ (0, ground arith, omega arith, o)
]

get_or-drop :
    (start m : ℕ) (t : Table) → get_or (drop start t) m closed ≡ get_or t (start + m) closed
get_or-drop zero m t = ap (λ n. get_or t n closed) (omega arith)
get_or-drop (suc start) m [] = refl
get_or-drop (suc start) m (x ∷ t) =
    get_or-drop start m t
    ∙ ap (λ n. get_or (x ∷ t) n closed) (let e : suc (start + m) ≡ suc start + m = omega arith in e)

-- `fs_alloc_fd_slot` answers a free slot of the table, from `start` on.
pub alloc_fd_slot_lem :
    (t : Table) (start n : ℕ)
    → alloc_fd_slot t start ≡ some n
    → (start ≤ n) × (n < length t) × (is_open (get_or t n closed) ≡ false)
unfolding alloc_fd_slot
alloc_fd_slot_lem t start n e =
    let (m, a, b, c) = first_free_lem start n (drop start t) e in
    (
      omega arith,
      omega (arith, length-drop start t),
      ap (λ i. is_open (get_or t i closed)) a ∙ ap is_open (sym (get_or-drop start m t)) ∙ c,
    )
