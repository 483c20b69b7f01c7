-- ===== src/Pty/Flow.antt =====
-- What bytes do between the two ends of a pseudo terminal.
use bored_os.Base.{
  ℕ, ◌+◌, ◌-◌, ◌≡◌, some, List, [], ◌∷◌, ◌++◌, arith, ◌==◌, if◌then◌else◌, inl, inr, Bool-cases,
  take, length, append-cons, append-nil, take-nil, take-cons, length-append,
}
use bored_os.Base.Int.{ℤ}
use bored_os.Pty.{
  Pairs, ProcessTable, Typing, type_byte, type_all, ctrl_c, get_used, write_output, read_output,
  write_input, read_input, push, opening, push_all,
}
use bored_os.Pty.Ring.Contents.{IsValid, contents, push_lem, push_all_lem, pop_lem}

-- The bytes that are typed, less the interrupts.
pub typed : List ℕ → List ℕ
typed [] = []
typed (c ∷ cs) = let rest = typed cs in if c == ctrl_c then rest else c ∷ rest

-- Both queues of every terminal are valid.
abbrev pub AllValid : Pairs → Type 0
AllValid ps = (i : ℕ) → IsValid (ps i).master_to_slave × IsValid (ps i).slave_to_master

module _ (t : ProcessTable) (id fg : ℤ) where
  type_byte-queue :
      (s : Typing) (c : ℕ)
      → (type_byte t id fg s c).queue ≡ (if c == ctrl_c then s.queue else (push s.queue c).0)
  unfolding type_byte
  type_byte-queue s c = ground arith

  pub type_all-queue :
      (s : Typing) (bytes : List ℕ)
      → IsValid s.queue
      → let q = (type_all t id fg s bytes).queue in
        IsValid q
        × (contents q ≡ contents s.queue ++ take (4095 - length (contents s.queue)) (typed bytes))
  unfolding type_all typed
  type_all-queue s [] h = (h, rw (take-nil, append-nil))
  type_all-queue s (c ∷ cs) h = elim (Bool-cases (c == ctrl_c)) [
    | inl e ↦
        let same : (type_byte t id fg s c).queue ≡ s.queue = rw (type_byte-queue s c, e) in
        rw e (ground (arith, same, type_all-queue (type_byte t id fg s c) cs (rw same h)))
    | inr e ↦
        let same : (type_byte t id fg s c).queue ≡ (push s.queue c).0 =
          rw (type_byte-queue s c, e) in
        rw e (
          ground (
            arith,
            same,
            push_lem s.queue c h,
            type_all-queue (type_byte t id fg s c) cs (rw same (push_lem s.queue c h).0),
            length-append (contents s.queue) (c ∷ []),
            take-cons (4095 - length (contents s.queue)) c (typed cs),
            append-cons (contents s.queue) c
                (take (4095 - (length (contents s.queue) + 1)) (typed cs)),
          ))
  ]

-- What the program writes to an open terminal whose queues are valid, the other end reads: after
-- `pty_write_output`, `pty_read_output` returns the first `len` bytes of those that were waiting
-- followed by as many of the new ones as there was room for.
pub read_output-write_output :
    (ps : Pairs) (id : ℤ) (i : ℕ) (bytes : List ℕ) (len : ℕ)
    → get_used ps id ≡ some i
    → AllValid ps
    → let before = contents (ps i).slave_to_master in
      (read_output (write_output ps id bytes).0 id len).1
      ≡ take len (before ++ take (4095 - length before) bytes)
unfolding read_output write_output get_used
read_output-write_output ps id i bytes len e v = ground (
  arith,
  push_all_lem (ps i).slave_to_master bytes (v i).1,
  pop_lem (push_all (ps i).slave_to_master bytes).0 len
      (push_all_lem (ps i).slave_to_master bytes (v i).1).0,
)

-- What is typed at an open terminal whose queues are valid, the program reads: after
-- `pty_write_input`, `pty_read_input` returns the first `len` bytes of those that were waiting
-- followed by as many of the typed ones, less the bytes 3 (Ctrl-C), as there was room for.
pub read_input-write_input :
    (t : ProcessTable) (ps : Pairs) (id : ℤ) (i : ℕ) (bytes : List ℕ) (len : ℕ)
    → get_used ps id ≡ some i
    → AllValid ps
    → let before = contents (ps i).master_to_slave in
      (read_input (write_input t ps id bytes).0 id len).1
      ≡ take len (before ++ take (4095 - length before) (typed bytes))
unfolding read_input write_input get_used
read_input-write_input t ps id i bytes len e v = ground (
  arith,
  type_all-queue t id (ps i).fg_pid (opening (ps i)) bytes (v i).0,
  pop_lem (type_all t id (ps i).fg_pid (opening (ps i)) bytes).queue len
      (type_all-queue t id (ps i).fg_pid (opening (ps i)) bytes (v i).0).0,
)
