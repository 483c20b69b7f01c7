-- ===== src/Pty/Invariant.antt =====
-- Every call on the terminals keeps both queues of every terminal within their bounds.
use bored_os.Base.{
  ℕ, ◌≡◌, Bool, Option, none, some, List, [], ◌∷◌, arith, ◌==◌, if◌then◌else◌, length, take, refl,
  inl, inr, Option-cases, ℕ_discrete,
}
use bored_os.Base.Int.{ℤ}
use bored_os.Base.Arrays.{update}
use bored_os.Pty.{
  Pair, Pairs, ProcessTable, opening, get, get_used, write_output, read_output, write_input,
  read_input, poll, init, create, destroy, set_foreground, open_at, opened, first_free, max_count,
}
use bored_os.Pty.Ring.Contents.{
  IsValid, contents, push_all_lem, pop_lem, empty-IsValid, is_empty_lem,
}
use bored_os.Pty.Control.{Argument, take_terminal, request, ioctl}
use bored_os.Pty.Flow.{AllValid, type_all-queue}

-- The calls that change the table.
pub data Call : Type 0 where
  init_call create_call : Call
  destroy_call : ℤ → Call
  write_output_call write_input_call : ℤ → List ℕ → Call
  read_output_call read_input_call : ℤ → ℕ → Call
  set_foreground_call : ℤ → ℤ → Call
  ioctl_call : ℤ → ℕ → Argument → Call

pub step : ProcessTable → Pairs → Call → Pairs
step t ps init_call = init ps
step t ps create_call = (create ps).0
step t ps (destroy_call id) = (destroy ps id).0
step t ps (write_output_call id bytes) = (write_output ps id bytes).0
step t ps (write_input_call id bytes) = (write_input t ps id bytes).0
step t ps (read_output_call id len) = (read_output ps id len).0
step t ps (read_input_call id len) = (read_input ps id len).0
step t ps (set_foreground_call id pid) = (set_foreground ps id pid).0
step t ps (ioctl_call id r a) = (ioctl t ps id r a).0

abbrev PairValid : Pair → Type 0
PairValid p = IsValid p.master_to_slave × IsValid p.slave_to_master

update-AllValid :
    (ps : Pairs) (i : ℕ) (p : Pair) → AllValid ps → PairValid p → AllValid (update ps i p)
update-AllValid ps i p v h j = elim (ℕ_discrete i j) [
  | yes e ↦ ground arith
  | no ne ↦ ground (arith, v j)
]

open_at-AllValid : (ps : Pairs) (o : Option ℕ) → AllValid ps → AllValid (open_at ps o).0
unfolding open_at opened
open_at-AllValid ps none v = v
open_at-AllValid ps (some i) v = update-AllValid ps i _ v (empty-IsValid, empty-IsValid)

destroy-AllValid : (ps : Pairs) (id : ℤ) → AllValid ps → AllValid (destroy ps id).0
unfolding destroy
destroy-AllValid ps id v = elim (Option-cases (get id)) [
  | inl e ↦ rw (e, destroy) v
  | inr (i, e) ↦ rw (e, destroy) (update-AllValid ps i _ v (v i))
]

set_foreground-AllValid :
    (ps : Pairs) (id pid : ℤ) → AllValid ps → AllValid (set_foreground ps id pid).0
unfolding set_foreground
set_foreground-AllValid ps id pid v = elim (Option-cases (get id)) [
  | inl e ↦ rw (e, set_foreground) v
  | inr (i, e) ↦ rw (e, set_foreground) (update-AllValid ps i _ v (v i))
]

write_output-AllValid :
    (ps : Pairs) (id : ℤ) (bytes : List ℕ) → AllValid ps → AllValid (write_output ps id bytes).0
unfolding write_output
write_output-AllValid ps id bytes v = elim (Option-cases (get_used ps id)) [
  | inl e ↦ rw (e, write_output) v
  | inr (i, e) ↦
      rw (e, write_output) (update-AllValid ps i _ v ((v i).0, (push_all_lem _ bytes (v i).1).0))
]

write_input-AllValid :
    (t : ProcessTable) (ps : Pairs) (id : ℤ) (bytes : List ℕ)
    → AllValid ps
    → AllValid (write_input t ps id bytes).0
unfolding write_input
write_input-AllValid t ps id bytes v = elim (Option-cases (get_used ps id)) [
  | inl e ↦ rw (e, write_input) v
  | inr (i, e) ↦
      rw (e, write_input)
        (update-AllValid ps i _ v
          ((type_all-queue t id (ps i).fg_pid (opening (ps i)) bytes (v i).0).0, (v i).1))
]

read_output-AllValid :
    (ps : Pairs) (id : ℤ) (len : ℕ) → AllValid ps → AllValid (read_output ps id len).0
unfolding read_output
read_output-AllValid ps id len v = elim (Option-cases (get_used ps id)) [
  | inl e ↦ rw (e, read_output) v
  | inr (i, e) ↦ rw (e, read_output) (update-AllValid ps i _ v ((v i).0, (pop_lem _ len (v i).1).0))
]

read_input-AllValid :
    (ps : Pairs) (id : ℤ) (len : ℕ) → AllValid ps → AllValid (read_input ps id len).0
unfolding read_input
read_input-AllValid ps id len v = elim (Option-cases (get_used ps id)) [
  | inl e ↦ rw (e, read_input) v
  | inr (i, e) ↦ rw (e, read_input) (update-AllValid ps i _ v ((pop_lem _ len (v i).0).0, (v i).1))
]

init-AllValid : (ps : Pairs) → AllValid ps → AllValid (init ps)
unfolding init
init-AllValid ps v i = ground (arith, v i)

take_terminal-AllValid :
    (ps : Pairs) (id : ℤ) (i : ℕ) (current : Option ℕ)
    → AllValid ps
    → AllValid (take_terminal ps id i current).0
unfolding take_terminal
take_terminal-AllValid ps id i none v = v
take_terminal-AllValid ps id i (some p) v = update-AllValid ps i _ v (v i)

request-AllValid :
    (t : ProcessTable) (ps : Pairs) (id : ℤ) (i r : ℕ) (a : Argument)
    → AllValid ps
    → AllValid (request t ps id i r a).0
unfolding request
request-AllValid t ps id i r a v = λ j. ground (
  arith,
  v j,
  take_terminal-AllValid ps id i t.current v j,
  update-AllValid ps i (record (ps i) { ws = a.winsize }) v (v i) j,
  update-AllValid ps i (record (ps i) { fg_pid = a.int }) v (v i) j,
)

ioctl-AllValid :
    (t : ProcessTable) (ps : Pairs) (id : ℤ) (r : ℕ) (a : Argument)
    → AllValid ps
    → AllValid (ioctl t ps id r a).0
unfolding ioctl
ioctl-AllValid t ps id r a v = elim (Option-cases (get_used ps id)) [
  | inl e ↦ rw (e, ioctl) v
  | inr (i, e) ↦ rw (e, ioctl) (request-AllValid t ps id i r a v)
]

-- Every call keeps both queues of every terminal valid: their indices stay below 4096.
pub step-AllValid :
    (t : ProcessTable) (ps : Pairs) (c : Call) → AllValid ps → AllValid (step t ps c)
unfolding step create
step-AllValid t ps init_call v = init-AllValid ps v
step-AllValid t ps create_call v = open_at-AllValid ps (first_free max_count 0 ps) v
step-AllValid t ps (destroy_call id) v = destroy-AllValid ps id v
step-AllValid t ps (write_output_call id bytes) v = write_output-AllValid ps id bytes v
step-AllValid t ps (write_input_call id bytes) v = write_input-AllValid t ps id bytes v
step-AllValid t ps (read_output_call id len) v = read_output-AllValid ps id len v
step-AllValid t ps (read_input_call id len) v = read_input-AllValid ps id len v
step-AllValid t ps (set_foreground_call id pid) v = set_foreground-AllValid ps id pid v
step-AllValid t ps (ioctl_call id r a) v = ioctl-AllValid t ps id r a v

first_byte : (xs : List ℕ) → (length (take 1 xs) == 0) ≡ (length xs == 0)
first_byte [] = refl
first_byte (x ∷ xs) = ground arith

-- `pty_poll` on an open, valid terminal: it is always writable (4), and readable (1) exactly if
-- `pty_read_input` would return a byte.
pub poll-read_input :
    (ps : Pairs) (id : ℤ) (i : ℕ) (listening : Bool)
    → get_used ps id ≡ some i
    → AllValid ps
    → (poll ps id listening).1 ≡ (if length (read_input ps id 1).1 == 0 then 0x0004 else 0x0005)
unfolding poll read_input
poll-read_input ps id i listening e v = ground (
  arith,
  is_empty_lem (ps i).master_to_slave (v i).0,
  pop_lem (ps i).master_to_slave 1 (v i).0,
  first_byte (contents (ps i).master_to_slave),
)
