-- ===== src/Files/Fresh.antt =====
-- Calls that make an object: opening a file, and a pipe.
use mathlib.Core.Path.{subst}
use bored_os.Base.{
  ℕ, ◌+◌, ◌<◌, ◌≡◌, refl, ap, ◌∙◌, false, Option, none, some, length, set, arith, Option-cases, inl,
  inr, length-set,
}
use bored_os.Base.Arrays.{update}
use bored_os.Files.{
  Kind, file, pipe_read, pipe_write, socket, Slot, Files, with_slot, table_of, slot_of, is_open,
  alloc_fd_slot, pipe_at, make_pipe, install_file, pipe_state, file_ref,
}
use bored_os.Files.Pipe.{new_pipe}
use bored_os.Files.Count.{one, total, FitsAt}
use bored_os.Files.Change.{Counted-update, one_there, one_here}
use bored_os.Files.Keep.{
  IsCounted, length-table, total-with_slot, with_slot-AllFull, slot-with_slot_ne, one_shut,
  alloc_fd_slot_lem,
}
use bored_os.Files.Safe.{Fine, same}

-- Memory that is free is referred to by nothing.
unused :
    (s : Files) (a : ℕ) → IsCounted s → s.objects a ≡ none → FitsAt none (λ k. total k a s.tables)
unused s a v e = subst (λ o. FitsAt o (λ k. total k a s.tables)) e (v.counted a)

file_slot : ℕ → ℕ → Slot
file_slot a flags = record { object = some a; kind = file; flags = flags }

pub install_file-Fine :
    (s : Files) (p a flags : ℕ)
    → IsCounted s
    → p < length s.tables
    → s.objects a ≡ none
    → Fine s (some (install_file s p a flags).0)
unfolding install_file file_slot
install_file-Fine s p a flags v h fresh = elim (Option-cases (alloc_fd_slot (table_of s p) 0)) [
  | inl e ↦ rw (e, install_file) (same s v)
  | inr (fd, e) ↦
      let (q, b, shut) = alloc_fd_slot_lem (table_of s p) 0 fd e in
      let d : fd < 64 = omega (arith, length-table s.tables p v.full h) in
      let x = file_slot a flags in
      let t = with_slot s p fd x in
      let none_before = unused s a v fresh in
      let grown : (k : Kind) (i : ℕ) → total k i t.tables ≡ total k i s.tables + one k i x = λ k i.
        omega
          (arith, total-with_slot s p fd x k i v.full h d, one_shut k i (slot_of s p fd) shut) in
      rw (e, install_file)
        (
          record t { objects = update s.objects a (some (file_ref 1)) },
          refl,
          record {
            counted =
                Counted-update s.objects (λ k i. total k i s.tables) (λ k i. total k i t.tables) a
                  (some (file_ref 1)) v.counted
                  (omega (
                    arith,
                    grown file a,
                    grown pipe_read a,
                    grown pipe_write a,
                    grown socket a,
                    one_here file a x refl,
                    one_here pipe_read a x refl,
                    one_here pipe_write a x refl,
                    one_here socket a x refl,
                  ))
                  (λ k i ne. omega (arith, grown k i, one_there k i a x refl ne));
            full = with_slot-AllFull s p fd x v.full h;
            few =
                let f = v.few in omega (arith, length-set {0} s.tables p (set (table_of s p) fd x));
          },
          omega (arith, length-set {0} s.tables p (set (table_of s p) fd x)),
        )
]

read_slot : ℕ → Slot
read_slot a = record { object = some a; kind = pipe_read; flags = 0 }

write_slot : ℕ → Slot
write_slot a = record { object = some a; kind = pipe_write; flags = 1 }

-- Both ends of a new pipe, in two free slots.
pipe_at-Fine :
    (s : Files) (p rfd wfd a : ℕ)
    → IsCounted s
    → p < length s.tables
    → s.objects a ≡ none
    → rfd < wfd
    → wfd < 64
    → is_open (slot_of s p rfd) ≡ false
    → is_open (slot_of s p wfd) ≡ false
    → Fine s (some (pipe_at s p rfd (some wfd) (some a)).0)
unfolding pipe_at read_slot write_slot
pipe_at-Fine s p rfd wfd a v h fresh apart d shut_r shut_w =
    let x = read_slot a in
    let y = write_slot a in
    let t = with_slot s p rfd x in
    let u = with_slot t p wfd y in
    let same_t = length-set s.tables p (set (table_of s p) rfd x) in
    let same_u = length-set t.tables p (set (table_of t p) wfd y) in
    let h_t : p < length t.tables = omega arith in
    let full_t = with_slot-AllFull s p rfd x v.full h in
    let still : is_open (slot_of t p wfd) ≡ false =
      ap is_open (slot-with_slot_ne s p rfd wfd x h (omega arith)) ∙ shut_w in
    let none_before = unused s a v fresh in
    let grown : (k : Kind) (i : ℕ)
        → total k i u.tables ≡ total k i s.tables + one k i x + one k i y =
      λ k i. omega (
        arith,
        total-with_slot s p rfd x k i v.full h (omega arith),
        one_shut k i (slot_of s p rfd) shut_r,
        total-with_slot t p wfd y k i full_t h_t d,
        one_shut k i (slot_of t p wfd) still,
      ) in
    (
      record u { objects = update s.objects a (some (pipe_state new_pipe)) },
      refl,
      record {
        counted =
            Counted-update s.objects (λ k i. total k i s.tables) (λ k i. total k i u.tables) a
              (some (pipe_state new_pipe)) v.counted
              (unfold new_pipe in
                omega (
                  arith,
                  grown file a,
                  grown pipe_read a,
                  grown pipe_write a,
                  grown socket a,
                  one_here file a x refl,
                  one_here pipe_read a x refl,
                  one_here pipe_write a x refl,
                  one_here socket a x refl,
                  one_here file a y refl,
                  one_here pipe_read a y refl,
                  one_here pipe_write a y refl,
                  one_here socket a y refl,
                ))
              (λ k i ne.
                omega (arith, grown k i, one_there k i a x refl ne, one_there k i a y refl ne));
        full = with_slot-AllFull t p wfd y full_t h_t;
        few = let f = v.few in omega arith;
      },
      omega arith,
    )

-- Memory that `kmalloc` gives was free.
abbrev pub IsFresh : Files → Option ℕ → Type 0
IsFresh s none = Unit {0}
IsFresh s (some a) = s.objects a ≡ none

pipe_memory-Fine :
    (s : Files) (p rfd wfd : ℕ) (memory : Option ℕ)
    → IsCounted s
    → p < length s.tables
    → IsFresh s memory
    → rfd < wfd
    → wfd < 64
    → is_open (slot_of s p rfd) ≡ false
    → is_open (slot_of s p wfd) ≡ false
    → Fine s (some (pipe_at s p rfd (some wfd) memory).0)
unfolding pipe_at
pipe_memory-Fine s p rfd wfd none v h fresh apart d shut_r shut_w = same s v
pipe_memory-Fine s p rfd wfd (some a) v h fresh apart d shut_r shut_w =
    pipe_at-Fine s p rfd wfd a v h fresh apart d shut_r shut_w

no_second : (s : Files) (p rfd : ℕ) (memory : Option ℕ) → (pipe_at s p rfd none memory).0 ≡ s
unfolding pipe_at
no_second s p rfd memory = refl

pub make_pipe-Fine :
    (s : Files) (p : ℕ) (memory : Option ℕ)
    → IsCounted s
    → p < length s.tables
    → IsFresh s memory
    → Fine s (some (make_pipe s p memory).0)
unfolding make_pipe
make_pipe-Fine s p memory v h fresh = elim (Option-cases (alloc_fd_slot (table_of s p) 0)) [
  | inl e ↦ rw (e, make_pipe) (same s v)
  | inr (rfd, e) ↦ elim (Option-cases (alloc_fd_slot (table_of s p) (rfd + 1))) [
    | inl q ↦ rw (e, make_pipe, q) (rw (no_second s p rfd memory) (same s v))
    | inr (wfd, q) ↦
        let (a, b, shut_r) = alloc_fd_slot_lem (table_of s p) 0 rfd e in
        let (c, d, shut_w) = alloc_fd_slot_lem (table_of s p) (rfd + 1) wfd q in
        rw (e, make_pipe, q)
          (pipe_memory-Fine s p rfd wfd memory v h fresh (omega arith)
            (omega (arith, length-table s.tables p v.full h)) shut_r shut_w)
  ]
]
