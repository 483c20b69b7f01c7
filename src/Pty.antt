-- ===== src/Pty.antt =====
-- sys/pty.c and sys/pty.h: the table of pseudo terminals, each a pair of byte queues.
-- A function returns the new table and what it does to other parts of the kernel, as events.
-- Locks are left out: each function below runs under the pair's lock as a whole.
pub mod Ring
pub mod Slots
pub mod Flow
pub mod Control
pub mod Invariant
pub mod Signals
mod Tests
use bored_os.Base.{
  ℕ, zero, suc, ◌+◌, ◌-◌, Bool, true, false, not, ◌&&◌, ◌||◌, Option, none, some, List, [], ◌∷◌,
  ◌++◌, ltb, leb, ◌==◌, if◌then◌else◌,
}
use bored_os.Base.Int.{ℤ, pos, negsuc}
use bored_os.Base.Arrays.{update}
pub use Ring.*

-- `struct winsize`
pub record Winsize : Type 0 where
  pub row : ℕ
  pub col : ℕ
  pub xpixel : ℕ
  pub ypixel : ℕ

-- `pty_pair_t`, less its lock
pub record Pair : Type 0 where
  pub id : ℕ
  pub used : Bool
  pub master_to_slave : ByteQueue
  pub slave_to_master : ByteQueue
  pub fg_pid : ℤ
  pub ws : Winsize

-- `g_ptys`
abbrev pub Pairs : Type 0
Pairs = ℕ → Pair

abbrev pub max_count : ℕ
max_count = 4096

abbrev pub id_base : ℕ
id_base = 1024

-- Which queue's sleepers are woken, or polled.
pub data Side : Type 0 where
  to_slave to_master : Side

-- Calls into other parts of the kernel, in the order in which they are made.
pub data Event : Type 0 where
  wake : ℕ → Side → Event
  poll_wait : ℕ → Side → Event
  hold : ℕ → Event
  put : ℕ → Event
  signal : ℤ → ℕ → Event
  kill_by_tty : ℤ → Event
  set_tty : ℕ → ℤ → Event

-- What the process table of sys/process.c answers. A process is named by its pid.
pub record ProcessTable : Type 0 where
  pub by_pid : ℕ → Option ℕ
  pub child_on_tty : ℤ → Option ℕ
  pub current : Option ℕ

-- The int -1.
abbrev pub minus_one : ℤ
minus_one = negsuc 0

abbrev pub efault : ℤ
efault = negsuc 13

-- `pty_init`
pub init : Pairs → Pairs
init ps i =
    if ltb i max_count then record (ps i) { id = i; used = false; fg_pid = minus_one } else ps i

-- `pty_is_pty_id`
pub is_pty_id : ℤ → Bool
is_pty_id (pos n) = leb id_base n
is_pty_id (negsuc n) = false

-- `pty_get`: the index of the pair.
pub get : ℤ → Option ℕ
get (pos n) =
    if ltb n id_base then none else if leb max_count (n - id_base) then none else some (n - id_base)
get (negsuc n) = none

-- The loop of `pty_create`, with `k` rounds left at index `i`.
pub first_free : ℕ → ℕ → Pairs → Option ℕ
first_free zero i ps = none
first_free (suc k) i ps = let rest = first_free k (i + 1) ps in if (ps i).used then rest else some i

abbrev pub default_ws : Winsize
default_ws = record { row = 25; col = 80; xpixel = 640; ypixel = 200 }

pub opened : Pair → Pair
opened p = record p {
  used = true;
  fg_pid = minus_one;
  ws = default_ws;
  master_to_slave = empty;
  slave_to_master = empty;
}

open_at : Pairs → Option ℕ → Pairs × ℤ
open_at ps none = (ps, minus_one)
open_at ps (some i) = (update ps i (opened (ps i)), pos (id_base + i))

-- `pty_create`
pub create : Pairs → Pairs × ℤ
unfolding open_at
create ps = open_at ps (first_free max_count 0 ps)

-- `pty_destroy`
pub destroy : Pairs → ℤ → Pairs × List Event × ℤ
destroy ps id = elim (get id) [
  | none ↦ (ps, [], minus_one)
  | some i ↦ (
    update ps i (record (ps i) { used = false; fg_pid = minus_one }),
    wake i to_slave ∷ wake i to_master ∷ kill_by_tty id ∷ [],
    pos 0,
  )
]

-- `!p || !p->used`, and the pair's index otherwise.
pub get_used : Pairs → ℤ → Option ℕ
unfolding get
get_used ps id = elim (get id) [ none ↦ none | some i ↦ if (ps i).used then some i else none ]

abbrev wake_if : Bool → ℕ → Side → List Event
wake_if pushed i side = if pushed then wake i side ∷ [] else []

-- `pty_write_output`
pub write_output : Pairs → ℤ → List ℕ → Pairs × List Event
write_output ps id bytes = elim (get_used ps id) [
  | none ↦ (ps, [])
  | some i ↦
      let (q, pushed) = push_all (ps i).slave_to_master bytes in
      (update ps i (record (ps i) { slave_to_master = q }), wake_if pushed i to_master)
]

-- `pty_read_output`: the bytes that go to `buf`; their number is the result.
pub read_output : Pairs → ℤ → ℕ → Pairs × List ℕ
read_output ps id len = elim (get_used ps id) [
  | none ↦ (ps, [])
  | some i ↦
      let (q, out) = pop (ps i).slave_to_master len in
      (update ps i (record (ps i) { slave_to_master = q }), out)
]

-- `process_get_by_pid` holds the process that it finds.
abbrev held : Option ℕ → List Event
held none = []
held (some p) = hold p ∷ []

-- `if (fg > 0) sig_target = process_get_by_pid(fg);`
by_foreground : ProcessTable → ℤ → Option ℕ → Option ℕ × List Event
by_foreground t (pos (suc n)) old = (t.by_pid (suc n), held (t.by_pid (suc n)))
by_foreground t _ old = (old, [])

-- `if (!sig_target) sig_target = process_find_child_on_tty(pty_id);`, which holds nothing.
by_terminal : ProcessTable → ℤ → Option ℕ → Option ℕ
by_terminal t id none = t.child_on_tty id
by_terminal t id (some p) = some p

-- Process 0 and process 1 are not signalled.
spare_init : Option ℕ → Option ℕ × List Event
spare_init none = (none, [])
spare_init (some p) = if leb p 1 then (none, put p ∷ []) else (some p, [])

-- What one Ctrl-C does to `sig_target`.
pub interrupt : ProcessTable → ℤ → ℤ → Option ℕ → Option ℕ × List Event
unfolding by_foreground by_terminal spare_init
interrupt t id fg old =
    let (a, e1) = by_foreground t fg old in
    let (c, e2) = spare_init (by_terminal t id a) in (c, e1 ++ e2)

abbrev pub ctrl_c : ℕ
ctrl_c = 0x03

-- The variables of the loop in `pty_write_input`.
pub record Typing : Type 0 where
  pub queue : ByteQueue
  pub target : Option ℕ
  pub pushed : Bool
  pub log : List Event

interrupted : Typing → Option ℕ × List Event → Typing
interrupted s (target, events) = record s { target = target; log = s.log ++ events }

queued : Typing → ByteQueue × Bool → Typing
queued s (q, ok) = record s { queue = q; pushed = s.pushed || ok }

-- One round of that loop.
pub type_byte : ProcessTable → ℤ → ℤ → Typing → ℕ → Typing
unfolding interrupted queued
type_byte t id fg s c =
    if c == ctrl_c then interrupted s (interrupt t id fg s.target) else queued s (push s.queue c)

pub type_all : ProcessTable → ℤ → ℤ → Typing → List ℕ → Typing
type_all t id fg s [] = s
type_all t id fg s (c ∷ cs) = type_all t id fg (type_byte t id fg s c) cs

-- SIGINT to the target, which is then released.
pub deliver : Option ℕ → List Event
deliver none = []
deliver (some p) = signal (pos p) 2 ∷ put p ∷ []

length_int : List ℕ → ℕ
length_int [] = 0
length_int (x ∷ xs) = suc (length_int xs)

-- Those variables before the loop.
abbrev pub opening : Pair → Typing
opening p = record { queue = p.master_to_slave; target = none; pushed = false; log = [] }

-- `pty_write_input`; a length of 2^31 or more, which the cast to int turns below 0, is left out.
pub write_input : ProcessTable → Pairs → ℤ → List ℕ → Pairs × List Event × ℤ
unfolding deliver length_int
write_input t ps id bytes = elim (get_used ps id) [
  | none ↦ (ps, [], pos 0)
  | some i ↦
      let end = type_all t id (ps i).fg_pid (opening (ps i)) bytes in
      (
        update ps i (record (ps i) { master_to_slave = end.queue }),
        end.log ++ (deliver end.target ++ wake_if end.pushed i to_slave),
        pos (length_int bytes),
      )
]

-- `pty_read_input`
pub read_input : Pairs → ℤ → ℕ → Pairs × List ℕ
read_input ps id len = elim (get_used ps id) [
  | none ↦ (ps, [])
  | some i ↦
      let (q, out) = pop (ps i).master_to_slave len in
      (update ps i (record (ps i) { master_to_slave = q }), out)
]

-- `pty_set_foreground`
pub set_foreground : Pairs → ℤ → ℤ → Pairs × ℤ
set_foreground ps id pid = elim (get id) [
  | none ↦ (ps, minus_one)
  | some i ↦ (update ps i (record (ps i) { fg_pid = pid }), pos 0)
]

-- `pty_get_foreground`
get_foreground : Pairs → ℤ → ℤ
get_foreground ps id = elim (get id) [ none ↦ minus_one | some i ↦ (ps i).fg_pid ]

-- `pty_poll`; `listening` says whether the caller gave a poll table with a callback.
pub poll : Pairs → ℤ → Bool → List Event × ℕ
poll ps id listening = elim (get_used ps id) [
  | none ↦ ([], 0x0018)
  | some i ↦ (
    if listening then poll_wait i to_slave ∷ [] else [],
    if is_empty (ps i).master_to_slave then 0x0004 else 0x0005,
  )
]

-- `pty_poll_master`
poll_master : Pairs → ℤ → Bool → List Event × ℕ
poll_master ps id listening = elim (get_used ps id) [
  | none ↦ ([], 0x0018)
  | some i ↦ (
    if listening then poll_wait i to_master ∷ [] else [],
    if is_empty (ps i).slave_to_master then 0x0004 else 0x0005,
  )
]
