-- ===== src/Pty/Ring.antt =====
-- `pty_queue_t`: a ring of 4096 bytes that holds at most 4095. `head` is where the next byte goes.
pub mod Contents
use bored_os.Base.{
  ℕ, zero, suc, ◌+◌, ◌%◌, Bool, true, false, ◌||◌, List, [], ◌∷◌, ◌==◌, if◌then◌else◌,
}
use bored_os.Base.Arrays.{update}

pub record ByteQueue : Type 0 where
  pub buffer : ℕ → ℕ
  pub head : ℕ
  pub tail : ℕ

abbrev pub queue_size : ℕ
queue_size = 4096

-- `pty_queue_init`
abbrev pub empty : ByteQueue
empty = record { buffer = λ i. 0; head = 0; tail = 0 }

abbrev pub is_empty : ByteQueue → Bool
is_empty q = q.head == q.tail

-- `pty_queue_push`
pub push : ByteQueue → ℕ → ByteQueue × Bool
push q v =
    let next = (q.head + 1) % queue_size in
    if next == q.tail
    then (q, false)
    else (record q { buffer = update q.buffer q.head v; head = next }, true)

-- `pty_queue_pop`, with `len` bytes still wanted: the queue left, and the bytes read.
pub pop : ByteQueue → ℕ → ByteQueue × List ℕ
pop q zero = (q, [])
pop q (suc len) =
    let next = record q { tail = (q.tail + 1) % queue_size } in
    let rest = pop next len in if is_empty q then (q, []) else (rest.0, q.buffer q.tail ∷ rest.1)

-- The loop of `pty_write_output`; the flag is `pushed`.
pub push_all : ByteQueue → List ℕ → ByteQueue × Bool
push_all q [] = (q, false)
push_all q (c ∷ cs) =
    let (q', ok) = push q c in let (end, more) = push_all q' cs in (end, ok || more)
