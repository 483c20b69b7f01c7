-- ===== src/Files/Pipe.antt =====
-- The ring of a pipe: `process_fd_pipe_t` of sys/process.h, and what `fs_cmd_read` and
-- `fs_cmd_write` of sys/syscall_file.c do to it.
pub mod Flow
use bored_os.Base.{
  ℕ, zero, suc, ◌+◌, ◌-◌, ◌%◌, ◌<◌, ◌≤◌, ◌≡◌, refl, ◌∙◌, ap, ◌≢◌, Bool, true, false, Option, none,
  some, List, [], ◌∷◌, ◌++◌, length, leb, ◌==◌, ◌&&◌, ◌||◌, if◌then◌else◌, arith, take, drop,
}
use bored_os.Base.Arrays.{update, window}
use bored_os.Base.Int.{ℤ, pos, negsuc}

-- `process_fd_pipe_t`, less its lock and its queues of waiting processes.
pub record Pipe : Type 0 where
  pub buffer : ℕ → ℕ
  pub read_pos : ℕ
  pub write_pos : ℕ
  pub count : ℕ
  pub readers : ℕ
  pub writers : ℕ

abbrev pub pipe_size : ℕ
pipe_size = 4096

-- `fs_create_pipe_state`
unfoldable pub new_pipe : Pipe
new_pipe = record {
  buffer = λ i. 0;
  read_pos = 0;
  write_pos = 0;
  count = 0;
  readers = 1;
  writers = 1;
}

-- The loop of `fs_cmd_read`, with `len` bytes still wanted: the pipe left, and the bytes read.
unfoldable pub read_loop : Pipe → ℕ → Pipe × List ℕ
read_loop p zero = (p, [])
read_loop p (suc len) =
    let rest =
      read_loop (record p { read_pos = (p.read_pos + 1) % pipe_size; count = p.count - 1 }) len in
    if p.count == 0 then (p, []) else (rest.0, p.buffer p.read_pos ∷ rest.1)

-- The loop of `fs_cmd_write`: the pipe left, and how many bytes it took.
unfoldable pub write_loop : Pipe → List ℕ → Pipe × ℕ
write_loop p [] = (p, 0)
write_loop p (v ∷ bytes) =
    let next = record p {
      buffer = update p.buffer p.write_pos v;
      write_pos = (p.write_pos + 1) % pipe_size;
      count = p.count + 1;
    } in
    let rest = write_loop next bytes in
    if p.count == pipe_size then (p, 0) else (rest.0, suc rest.1)

abbrev pub is_positive : ℕ → Bool
is_positive n = if n == 0 then false else true

-- What a read of a pipe answers: the bytes; -2, for nothing now, where the descriptor does not
-- block, bytes are wanted, none is there and somebody may write. The flag says whether writers are
-- woken.
unfoldable pub read : Pipe → Bool → ℕ → Pipe × ℤ × List ℕ × Bool
unfolding read_loop
read p nonblock len =
    let (p', out) = read_loop p len in
    if p.count == 0 && (is_positive p.writers && (nonblock && is_positive len))
    then (p, negsuc 1, [], false)
    else (p', pos (length out), out, is_positive (length out))

-- What a write to a pipe answers: -1 with no readers; -2 where the descriptor does not block and
-- the pipe is full; otherwise how many bytes it took. The flag says whether readers are woken.
unfoldable pub write : Pipe → Bool → List ℕ → Pipe × ℤ × Bool
unfolding write_loop
write p nonblock bytes =
    let (p', n) = write_loop p bytes in
    if p.readers == 0 || leb 2147483648 p.readers
    then (p, negsuc 0, false)
    else if p.count == pipe_size && (nonblock && is_positive (length bytes))
    then (p, negsuc 1, false)
    else (p', pos n, is_positive n)

-- What `fs_cmd_poll` adds for the reading and for the writing end: POLLIN is 1, POLLOUT 4, POLLERR
-- 8 and POLLHUP 16.
unfoldable pub poll_read : Pipe → ℕ
poll_read p = (if is_positive p.count then 1 else 0) + (if p.writers == 0 then 16 else 0)

unfoldable pub poll_write : Pipe → ℕ
poll_write p = (if leb pipe_size p.count then 0 else 4) + (if p.readers == 0 then 8 else 0)
