-- ===== src/Files/Tests.antt =====
-- Runs of the calls on descriptors of sys/syscall_file.c, and of a pipe.
use bored_os.Base.{
  ℕ, ◌-◌, ◌≡◌, ◌≢◌, ◌<◌, refl, true, false, some, List, [], ◌∷◌, ◌++◌, length, take, drop, arith,
}
use bored_os.Base.Int.{pos}
use bored_os.Files.{
  Files, perform, dup2_call, close_call, pipe_call, fork_call, dup2, close, make_pipe, fork,
  slot_of, is_open,
}
use bored_os.Files.Pipe.{new_pipe, read, write}
use bored_os.Files.Pipe.Flow.{IsValid, contents, read-write}
use bored_os.Files.Keep.{IsCounted}
use bored_os.Files.Reach.{at_first, Reachable, start, next, perform-Reachable}

-- The first process makes a pipe at address 7.
abbrev with_pipe : Files
with_pipe = (make_pipe at_first 0 (some 7)).0

with_pipe-Reachable : Reachable with_pipe
unfolding perform
with_pipe-Reachable = next 0 (pipe_call (some 7)) start (omega arith) refl refl

one_process : 0 < length with_pipe.tables
unfolding make_pipe bored_os.Files.alloc_fd_slot bored_os.Files.pipe_at
one_process = omega arith

-- It moves the writing end to descriptor 5.
perform-Reachable_example :
    (t : Files) × (perform with_pipe 0 (dup2_call (pos 1) (pos 5)) ≡ some t) × IsCounted t
perform-Reachable_example =
    perform-Reachable with_pipe 0 (dup2_call (pos 1) (pos 5)) with_pipe-Reachable one_process tt

new_pipe-IsValid : IsValid new_pipe
unfolding new_pipe
new_pipe-IsValid = omega arith

one_reader : new_pipe.readers ≢ 0
unfolding new_pipe
one_reader = omega arith

few_readers : new_pipe.readers < 2147483648
unfolding new_pipe
few_readers = omega arith

abbrev bytes : List ℕ
bytes = 65 ∷ 66 ∷ 67 ∷ []

read-write_example :
    ((read (write new_pipe true bytes).0 false 2).2
      ≡ take 2 (contents new_pipe ++ take (4096 - length (contents new_pipe)) bytes))
    × (contents (read (write new_pipe true bytes).0 false 2).0
        ≡ drop 2 (contents new_pipe ++ take (4096 - length (contents new_pipe)) bytes))
read-write_example = read-write new_pipe true false bytes 2 new_pipe-IsValid one_reader few_readers
