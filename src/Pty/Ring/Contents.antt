-- ===== src/Pty/Ring/Contents.antt =====
-- The byte queues of sys/pty.c against a first-in first-out queue of at most 4095 bytes.
use bored_os.Base.{
  ℕ, zero, suc, ◌+◌, ◌-◌, ◌%◌, ◌<◌, ◌≢◌, ◌≡◌, refl, true, false, List, [], ◌∷◌, ◌++◌, append-nil,
  arith, ltb, if◌then◌else◌, ◌==◌, length, take, drop, sym, length-append, take-nil, take-cons,
  append-cons, ℕ_discrete,
}
use bored_os.Base.Arrays.{
  window, length-window, used, used-lt, next-lt, used-next_read, used-next_write, used-full,
  window-update,
}
use bored_os.Pty.Ring.{ByteQueue, queue_size, empty, is_empty, push, pop, push_all}

pub record IsValid (q : ByteQueue) : Type 0 where
  pub head_in : q.head < 4096
  pub tail_in : q.tail < 4096

-- The bytes waiting, oldest first.
pub contents : ByteQueue → List ℕ
contents q = window q.buffer queue_size q.tail (used queue_size q.tail q.head)

pub length-contents : (q : ByteQueue) → length (contents q) ≡ used queue_size q.tail q.head
unfolding contents
length-contents q = length-window q.buffer queue_size q.tail _

push-IsValid : {q : ByteQueue} (v : ℕ) → IsValid q → IsValid (push q v).0
unfolding push
push-IsValid {q} v h = ground (arith, next-lt queue_size q.head h.head_in)

-- A full queue refuses the byte.
push_full :
    (q : ByteQueue) (v : ℕ)
    → IsValid q
    → (q.head + 1) % queue_size ≡ q.tail
    → (push q v ≡ (q, false)) × (length (contents q) ≡ 4095)
unfolding push
push_full q v h e = (
  ground arith,
  omega (arith, length-contents q, used-full queue_size q.tail q.head h.tail_in h.head_in e),
)

-- Otherwise the byte comes last.
push_room :
    (q : ByteQueue) (v : ℕ)
    → IsValid q
    → (q.head + 1) % queue_size ≢ q.tail
    → ((push q v).1 ≡ true)
      × (contents (push q v).0 ≡ contents q ++ v ∷ [])
      × (length (contents q) < 4095)
unfolding push contents
push_room q v h ne = ground (
  arith,
  used-next_write queue_size q.tail q.head h.tail_in h.head_in ne,
  length-window q.buffer queue_size q.tail (used queue_size q.tail q.head),
  used-lt queue_size q.tail q.head,
  next-lt queue_size q.head h.head_in,
  used-lt queue_size q.tail ((q.head + 1) % queue_size),
  window-update q.buffer queue_size q.head v (used queue_size q.tail q.head) q.tail h.tail_in
      h.head_in refl ne,
)

-- `pty_queue_push` on a valid queue: a byte is taken exactly if fewer than 4095 wait, it comes
-- last, and the queue stays valid.
pub push_lem :
    (q : ByteQueue) (v : ℕ)
    → IsValid q
    → let (q', ok) = push q v in
      IsValid q'
      × (ok ≡ ltb (length (contents q)) 4095)
      × (contents q'
          ≡ (if ltb (length (contents q)) 4095 then contents q ++ v ∷ [] else contents q))
push_lem q v h = elim (ℕ_discrete ((q.head + 1) % queue_size) q.tail) [
  | yes e ↦ let (a, b) = push_full q v h e in (push-IsValid v h, ground arith, ground arith)
  | no ne ↦ let (a, b, c) = push_room q v h ne in (push-IsValid v h, ground arith, ground arith)
]

contents_empty : (q : ByteQueue) → IsValid q → q.head ≡ q.tail → contents q ≡ []
unfolding contents window
contents_empty q h e = ground arith

contents_read :
    (q : ByteQueue)
    → IsValid q
    → q.head ≢ q.tail
    → contents q ≡ q.buffer q.tail ∷ contents (record q { tail = (q.tail + 1) % queue_size })
unfolding contents window
contents_read q h ne =
    rw (used-next_read queue_size q.tail q.head h.tail_in h.head_in (λ e. ne (sym e)))

read-IsValid : (q : ByteQueue) → IsValid q → IsValid (record q { tail = (q.tail + 1) % queue_size })
read-IsValid q h = record { head_in = h.head_in; tail_in = next-lt queue_size q.tail h.tail_in }

-- `pty_queue_pop` on a valid queue: it reads the oldest bytes, as many as are asked for and there,
-- and leaves the others.
pub pop_lem :
    (q : ByteQueue) (len : ℕ)
    → IsValid q
    → let (q', out) = pop q len in
      IsValid q' × (out ≡ take len (contents q)) × (contents q' ≡ drop len (contents q))
unfolding pop
pop_lem q zero h = (h, refl, refl)
pop_lem q (suc len) h = elim (ℕ_discrete q.head q.tail) [
  | yes e ↦ rw (contents_empty q h e) (ground (arith, contents_empty q h e))
  | no ne ↦ rw (contents_read q h ne) (
      ground
        (arith, pop_lem (record q { tail = (q.tail + 1) % queue_size }) len (read-IsValid q h)))
]

-- The loop of `pty_write_output` on a valid queue: of the bytes it takes as many as there is room
-- for, from the front, puts them behind those that wait, and drops the rest.
pub push_all_lem :
    (q : ByteQueue) (bytes : List ℕ)
    → IsValid q
    → let (q', pushed) = push_all q bytes in
      IsValid q' × (contents q' ≡ contents q ++ take (4095 - length (contents q)) bytes)
unfolding push_all
push_all_lem q [] h = (h, rw (take-nil, append-nil))
push_all_lem q (c ∷ cs) h = ground (
  arith,
  push_lem q c h,
  push_all_lem (push q c).0 cs (push_lem q c h).0,
  length-append (contents q) (c ∷ []),
  take-cons (4095 - length (contents q)) c cs,
  append-cons (contents q) c (take (4095 - (length (contents q) + 1)) cs),
)

pub empty-IsValid : IsValid empty
empty-IsValid = omega arith

-- `pty_poll` looks at whether the two indices differ, which they do exactly if a byte waits.
pub is_empty_lem : (q : ByteQueue) → IsValid q → is_empty q ≡ (length (contents q) == 0)
is_empty_lem q h = ground (arith, length-contents q)
