-- ===== src/Files.antt =====
-- The open files of processes: sys/syscall_file.c (descriptors, dup, pipe, close), the release of a
-- descriptor and its copying to a child in sys/process.c. What a descriptor refers to is known by
-- its address; `objects` holds what stands there, none where the memory is free. A call that goes
-- through an address with no object, or with one of another kind, is a fault: none.
pub mod Pipe
pub mod Count
pub mod Change
pub mod Keep
pub mod Safe
pub mod Fresh
pub mod Fork
pub mod Reach
mod Tests
use bored_os.Base.{
  ℕ, zero, suc, ◌+◌, ◌%◌, ◌^◌, ◌<◌, Bool, true, false, Option, none, some, List, [], ◌∷◌, ◌++◌,
  length, set, get_or, drop, replicate, leb, ◌==◌, ◌&&◌, ◌||◌, if◌then◌else◌,
}
use bored_os.Base.Arrays.{update}
use bored_os.Base.Int.{ℤ, pos, negsuc}
use Pipe.{new_pipe}

-- PROC_FD_KIND_*
pub data Kind : Type 0 where
  no_kind file pipe_read pipe_write tty socket : Kind

-- `fds[fd]`, `fd_kind[fd]` and `fd_flags[fd]`
pub record Slot : Type 0 where
  pub object : Option ℕ
  pub kind : Kind
  pub flags : ℕ

abbrev pub Table : Type 0
Table = List Slot

-- `process_fd_file_ref_t`, `process_fd_pipe_t` and `process_fd_socket_t`; of the first and the last
-- the count of references.
pub data Object : Type 0 where
  file_ref : ℕ → Object
  pipe_state : Pipe.Pipe → Object
  socket_state : ℕ → Object

-- The objects, and the table of each process.
pub record Files : Type 0 where
  pub objects : ℕ → Option Object
  pub tables : List Table

abbrev pub max_process_fds : ℕ
max_process_fds = 64

abbrev pub int_mod : ℕ
int_mod = 2 ^ 32

abbrev pub closed : Slot
closed = record { object = none; kind = no_kind; flags = 0 }

abbrev pub plus_one : ℕ → ℕ
plus_one n = (n + 1) % int_mod

abbrev pub less_one : ℕ → ℕ
less_one n = (n + 4294967295) % int_mod

-- `n <= 0`, for an `int` with the bits of `n`.
abbrev pub is_down : ℕ → Bool
is_down n = n == 0 || leb 2147483648 n

-- `fd_addref`: the object with one reference more.
unfoldable pub one_more : Kind → Object → Option Object
one_more file (file_ref n) = some (file_ref (plus_one n))
one_more pipe_read (pipe_state p) = some (pipe_state (record p { readers = plus_one p.readers }))
one_more pipe_write (pipe_state p) = some (pipe_state (record p { writers = plus_one p.writers }))
one_more socket (socket_state n) = some (socket_state (plus_one n))
one_more _ _ = none

-- A pipe that nobody reads or writes is freed.
unfoldable pub kept_pipe : Pipe.Pipe → Option Object
kept_pipe p = if is_down p.readers && is_down p.writers then none else some (pipe_state p)

-- `process_close_fd_inner` and `process_socket_release`: what is left of the object, none once it
-- is freed; no answer is a fault. A file is freed, and closed, where the count was 1; a socket
-- where the count, an `int`, was at most 1.
unfoldable pub one_less : Kind → Object → Option (Option Object)
unfolding kept_pipe
one_less file (file_ref n) = some (if n == 1 then none else some (file_ref (less_one n)))
one_less pipe_read (pipe_state p) = some (kept_pipe (record p { readers = less_one p.readers }))
one_less pipe_write (pipe_state p) = some (kept_pipe (record p { writers = less_one p.writers }))
one_less socket (socket_state n) =
    some (if n == 1 || is_down n then none else some (socket_state (less_one n)))
one_less _ _ = none

-- Whether a descriptor of the kind counts as a reference.
abbrev pub is_counted : Kind → Bool
is_counted no_kind = false
is_counted tty = false
is_counted file = true
is_counted pipe_read = true
is_counted pipe_write = true
is_counted socket = true

abbrev pub Objects : Type 0
Objects = ℕ → Option Object

-- The object at `a` through `f`, where there is one.
unfoldable pub put_more : Objects → ℕ → Option Object → Option Objects
put_more objects a none = none
put_more objects a (some o) = some (update objects a (some o))

unfoldable pub put_less : Objects → ℕ → Option (Option Object) → Option Objects
put_less objects a none = none
put_less objects a (some o) = some (update objects a o)

abbrev pub more_at : Kind → Option Object → Option Object
more_at k none = none
more_at k (some o) = one_more k o

abbrev pub less_at : Kind → Option Object → Option (Option Object)
less_at k none = none
less_at k (some o) = one_less k o

-- `fd_addref` of a descriptor.
unfoldable pub addref : Objects → Slot → Option Objects
unfolding put_more
addref objects s = elim s.object [
  | none ↦ some objects
  | some a ↦
      if is_counted s.kind then put_more objects a (more_at s.kind (objects a)) else some objects
]

-- What `process_close_fd_inner` does to the object of a descriptor.
unfoldable pub release : Objects → Slot → Option Objects
unfolding put_less
release objects s = elim s.object [
  | none ↦ some objects
  | some a ↦
      if is_counted s.kind then put_less objects a (less_at s.kind (objects a)) else some objects
]

abbrev pub is_open : Slot → Bool
is_open s = elim s.object [ none ↦ false | some a ↦ true ]

-- The first free slot of a table whose first slot has number `i`.
unfoldable pub first_free : ℕ → Table → Option ℕ
first_free i [] = none
first_free i (s ∷ t) = let rest = first_free (i + 1) t in if is_open s then rest else some i

-- `fs_alloc_fd_slot`
unfoldable pub alloc_fd_slot : Table → ℕ → Option ℕ
unfolding first_free
alloc_fd_slot t start = first_free start (drop start t)

abbrev pub table_of : Files → ℕ → Table
table_of s p = get_or s.tables p []

abbrev pub slot_of : Files → ℕ → ℕ → Slot
slot_of s p fd = get_or (table_of s p) fd closed

-- The open descriptor that a number names, which is an `int`.
unfoldable pub open_fd : Files → ℕ → ℤ → Option ℕ
open_fd s p (negsuc n) = none
open_fd s p (pos n) =
    if leb max_process_fds n then none else if is_open (slot_of s p n) then some n else none

-- Descriptor `fd` of process `p` becomes `x`.
abbrev pub with_slot : Files → ℕ → ℕ → Slot → Files
with_slot s p fd x = record s { tables = set s.tables p (set (table_of s p) fd x) }

abbrev pub Answer : Type 0
Answer = Option (Files × ℤ)

-- `process_close_fd_inner` of an open descriptor. The decrement of a count, the test of what is
-- left and the release are one step here; the code takes no lock around them, so what is said of
-- calls is about calls that come one after another.
unfoldable pub close_inner : Files → ℕ → ℕ → Option Files
close_inner s p fd = elim (release s.objects (slot_of s p fd)) [
  | none ↦ none
  | some objects ↦ some (with_slot (record s { objects = objects }) p fd closed)
]

abbrev pub answer : ℤ → Option Files → Answer
answer z none = none
answer z (some s) = some (s, z)

-- `fs_cmd_close`
unfoldable pub close : Files → ℕ → ℤ → Answer
close s p fd = elim (open_fd s p fd) [
  | none ↦ some (s, negsuc 0)
  | some n ↦ answer (pos 0) (close_inner s p n)
]

-- The end of `fs_cmd_dup` and of `fs_cmd_dup2`.
unfoldable pub copy_slot : Files → ℕ → ℕ → ℕ → Option Files
copy_slot s p old new =
    let x = slot_of s p old in
    let t = with_slot s p new x in
    elim (addref t.objects x) [ none ↦ none | some objects ↦ some (record t { objects = objects }) ]

unfoldable pub dup_from : Files → ℕ → ℕ → Option ℕ → Answer
dup_from s p old none = some (s, negsuc 0)
dup_from s p old (some new) = answer (pos new) (copy_slot s p old new)

-- `fs_cmd_dup`
unfoldable pub dup : Files → ℕ → ℤ → Answer
dup s p fd = elim (open_fd s p fd) [
  | none ↦ some (s, negsuc 0)
  | some old ↦ dup_from s p old (alloc_fd_slot (table_of s p) 0)
]

-- `fs_cmd_dup2` for an open `old` and a `new` in range; `fs_cmd_close` answers 0 for an open `new`.
unfoldable pub dup_onto : Files → ℕ → ℕ → ℕ → Answer
dup_onto s p old new =
    if old == new
    then some (s, pos new)
    else if is_open (slot_of s p new)
    then (elim (close_inner s p new) [
      | none ↦ none
      | some t ↦ answer (pos new) (copy_slot t p old new)
    ])
    else answer (pos new) (copy_slot s p old new)

-- `fs_cmd_dup2`
unfoldable pub dup2 : Files → ℕ → ℤ → ℤ → Answer
dup2 s p fd (negsuc new) = some (s, negsuc 0)
dup2 s p fd (pos new) = elim (open_fd s p fd) [
  | none ↦ some (s, negsuc 0)
  | some old ↦ if leb max_process_fds new then some (s, negsuc 0) else dup_onto s p old new
]

-- The end of `fs_cmd_pipe`, with both descriptors and what `kmalloc` gives.
unfoldable pub pipe_at : Files → ℕ → ℕ → Option ℕ → Option ℕ → Files × ℤ
unfolding new_pipe
pipe_at s p rfd none memory = (s, negsuc 0)
pipe_at s p rfd (some wfd) none = (s, negsuc 0)
pipe_at s p rfd (some wfd) (some a) = (
  with_slot
      (with_slot (record s { objects = update s.objects a (some (pipe_state new_pipe)) }) p rfd
        (record { object = some a; kind = pipe_read; flags = 0 }))
      p wfd (record { object = some a; kind = pipe_write; flags = 1 }),
  pos 0,
)

-- `fs_cmd_pipe`, where the user's pointer is good.
unfoldable pub make_pipe : Files → ℕ → Option ℕ → Files × ℤ
make_pipe s p memory = elim (alloc_fd_slot (table_of s p) 0) [
  | none ↦ (s, negsuc 0)
  | some rfd ↦ pipe_at s p rfd (alloc_fd_slot (table_of s p) (rfd + 1)) memory
]

-- The end of `fs_cmd_open`: the file is open, and `kmalloc` gave `a`. -24 is -EMFILE.
unfoldable pub install_file : Files → ℕ → ℕ → ℕ → Files × ℤ
install_file s p a flags = elim (alloc_fd_slot (table_of s p) 0) [
  | none ↦ (s, negsuc 23)
  | some fd ↦ (
    with_slot (record s { objects = update s.objects a (some (file_ref 1)) }) p fd
        (record { object = some a; kind = file; flags = flags }),
    pos fd,
  )
]

-- A reference for each descriptor of a table, in turn, as `process_duplicate` takes them.
unfoldable pub addref_all : Objects → Table → Option Objects
addref_all objects [] = some objects
addref_all objects (x ∷ t) = elim (addref objects x) [
  | none ↦ none
  | some objects' ↦ addref_all objects' t
]

-- What `process_duplicate` does for the descriptors: the child's table is the last one.
unfoldable pub fork : Files → ℕ → Option Files
fork s p = elim (addref_all s.objects (table_of s p)) [
  | none ↦ none
  | some objects ↦ some (record { objects = objects; tables = s.tables ++ table_of s p ∷ [] })
]

-- The loop of `process_cleanup_inner` that closes the descriptors of a process: `k` of them from
-- number `i` on.
unfoldable pub close_all : ℕ → ℕ → Files → ℕ → Option Files
close_all zero i s p = some s
close_all (suc k) i s p = elim (if is_open (slot_of s p i) then close_inner s p i else some s) [
  | none ↦ none
  | some t ↦ close_all k (i + 1) t p
]

-- The calls above, with what `kmalloc` gives where a call asks for memory.
pub data FileCall : Type 0 where
  open_call : ℕ → ℕ → FileCall
  close_call dup_call : ℤ → FileCall
  dup2_call : ℤ → ℤ → FileCall
  pipe_call : Option ℕ → FileCall
  fork_call exit_call : FileCall

abbrev pub state_of : Answer → Option Files
state_of none = none
state_of (some (s, z)) = some s

-- What a call of process `p` leaves; none is a fault.
unfoldable pub perform : Files → ℕ → FileCall → Option Files
unfolding close dup dup2 make_pipe install_file fork close_all
perform s p (open_call a flags) = some (install_file s p a flags).0
perform s p (close_call fd) = state_of (close s p fd)
perform s p (dup_call fd) = state_of (dup s p fd)
perform s p (dup2_call fd new) = state_of (dup2 s p fd new)
perform s p (pipe_call memory) = some (make_pipe s p memory).0
perform s p fork_call = fork s p
perform s p exit_call = close_all max_process_fds 0 s p
