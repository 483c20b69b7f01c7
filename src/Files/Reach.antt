-- ===== src/Files/Reach.antt =====
-- Every history of calls on descriptors: no fault, and what is open is what is kept.
use mathlib.Core.Path.{subst}
use bored_os.Base.{
  ℕ, zero, suc, ◌<◌, ◌≡◌, refl, sym, ◌∙◌, none, some, [], ◌∷◌, length, replicate, arith,
}
use bored_os.Files.{
  Kind, file, pipe_read, pipe_write, socket, Files, closed, FileCall, open_call, close_call,
  dup_call, dup2_call, pipe_call, fork_call, exit_call, perform,
}
use bored_os.Files.Count.{one, uses, total}
use bored_os.Files.Keep.{IsCounted}
use bored_os.Files.Safe.{Fine, close-Fine, dup-Fine, dup2-Fine}
use bored_os.Files.Fresh.{IsFresh, install_file-Fine, make_pipe-Fine}
use bored_os.Files.Fork.{fork-Fine, close_all-Fine}

-- Memory that a call is given was free, and there are fewer than 2^24 processes at a fork.
abbrev pub IsAllowed : Files → FileCall → Type 0
IsAllowed s (open_call a flags) = s.objects a ≡ none
IsAllowed s (close_call fd) = Unit {0}
IsAllowed s (dup_call fd) = Unit {0}
IsAllowed s (dup2_call fd new) = Unit {0}
IsAllowed s (pipe_call memory) = IsFresh s memory
IsAllowed s fork_call = length s.tables < 16777216
IsAllowed s exit_call = Unit {0}

-- One process with nothing open.
abbrev pub at_first : Files
at_first = record { objects = λ a. none; tables = replicate 64 closed ∷ [] }

-- The states that calls of the processes there are lead to from that one.
pub data Reachable : Files → Type 0 where
  start : Reachable at_first
  next :
      {s t : Files} (p : ℕ) (call : FileCall)
      → Reachable s
      → p < length s.tables
      → IsAllowed s call
      → perform s p call ≡ some t
      → Reachable t

perform-Fine :
    (s : Files) (p : ℕ) (call : FileCall)
    → IsCounted s
    → p < length s.tables
    → IsAllowed s call
    → Fine s (perform s p call)
unfolding perform
perform-Fine s p (open_call a flags) v h ok = install_file-Fine s p a flags v h ok
perform-Fine s p (close_call fd) v h ok = close-Fine s p fd v h
perform-Fine s p (dup_call fd) v h ok = dup-Fine s p fd v h
perform-Fine s p (dup2_call fd new) v h ok = dup2-Fine s p fd new v h
perform-Fine s p (pipe_call memory) v h ok = make_pipe-Fine s p memory v h ok
perform-Fine s p fork_call v h ok = fork-Fine s p v h ok
perform-Fine s p exit_call v h ok = close_all-Fine 64 0 s p v h (omega arith)

some_inj : {s t : Files} → some s ≡ some t → s ≡ t
some_inj e = cc

unused_at_first : (k : Kind) (a n : ℕ) → uses k a (replicate n closed) ≡ 0
unfolding one uses
unused_at_first k a zero = refl
unused_at_first k a (suc n) = omega (arith, unused_at_first k a n)

at_first-IsCounted : IsCounted at_first
unfolding total
at_first-IsCounted = record {
  counted = λ a. omega (
    arith,
    unused_at_first file a 64,
    unused_at_first pipe_read a 64,
    unused_at_first pipe_write a 64,
    unused_at_first socket a 64,
  );
  full = (refl, tt);
  few = omega arith;
}

reachable-IsCounted : (s : Files) → Reachable s → IsCounted s
reachable-IsCounted s start = at_first-IsCounted
reachable-IsCounted s (next {s = r} p call before h ok e) =
    let (t, q, v, l) = perform-Fine r p call (reachable-IsCounted r before) h ok in
    subst IsCounted (some_inj (sym q ∙ e)) v

-- In a state that calls on descriptors lead to from one process with nothing open, no further call
-- goes through memory that is free or of another kind: it comes to an end, and then again each
-- object's counts are the numbers of descriptors of all processes that refer to it, and what
-- nothing refers to has been freed. Memory that a call is given is assumed to be free, and there
-- are fewer than 2^24 processes at a fork.
pub perform-Reachable :
    (s : Files) (p : ℕ) (call : FileCall)
    → Reachable s
    → p < length s.tables
    → IsAllowed s call
    → (t : Files) × (perform s p call ≡ some t) × IsCounted t
perform-Reachable s p call r h ok =
    let (t, e, v, l) = perform-Fine s p call (reachable-IsCounted s r) h ok in (t, e, v)
