-- ===== src/Pty/Tests.antt =====
-- Runs of sys/pty.c on terminals that are all open and empty.
use bored_os.Base.{
  ℕ, ◌-◌, ◌≡◌, refl, true, none, some, List, [], ◌∷◌, ◌++◌, arith, ◌==◌, if◌then◌else◌, length,
  take, replicate,
}
use bored_os.Base.Int.{ℤ, pos, negsuc}
use bored_os.Pty.{
  Pair, Pairs, ProcessTable, default_ws, get, get_used, is_pty_id, write_input, read_input, hold,
  put, signal, ctrl_c,
}
use bored_os.Pty.Ring.{empty}
use bored_os.Pty.Ring.Contents.{contents, empty-IsValid}
use bored_os.Pty.Control.{Argument}
use bored_os.Pty.Flow.{AllValid, typed, read_input-write_input}
use bored_os.Pty.Invariant.{write_input_call, step, step-AllValid}
use bored_os.Pty.Signals.{interrupts_leak, interrupt_unheld}

abbrev console : Pair
console = record {
  id = 0;
  used = true;
  master_to_slave = empty;
  slave_to_master = empty;
  fg_pid = negsuc 0;
  ws = default_ws;
}

abbrev consoles : Pairs
consoles = λ i. console

-- Process 7 is in the foreground.
abbrev busy_consoles : Pairs
busy_consoles = λ i. record console { fg_pid = pos 7 }

abbrev some_processes : ProcessTable
some_processes = record {
  by_pid = λ p. if p == 7 then some 7 else none;
  child_on_tty = λ t. some 9;
  current = none;
}

abbrev first_id : ℤ
first_id = pos 1024

abbrev hi : List ℕ
hi = 104 ∷ 3 ∷ 105 ∷ []

consoles-AllValid : AllValid consoles
consoles-AllValid = λ i. (empty-IsValid, empty-IsValid)

consoles-get : get first_id ≡ some 0
unfolding get is_pty_id
consoles-get = refl

consoles-get_used : get_used consoles first_id ≡ some 0
unfolding get_used get is_pty_id
consoles-get_used = refl

busy_consoles-get_used : get_used busy_consoles first_id ≡ some 0
unfolding get_used get is_pty_id
busy_consoles-get_used = refl

read_input-write_input_example :
    (read_input (write_input some_processes consoles first_id hi).0 first_id 10).1
    ≡ take 10 (contents empty ++ take (4095 - length (contents empty)) (typed hi))
read_input-write_input_example =
    read_input-write_input some_processes consoles first_id 0 hi 10 consoles-get_used
      consoles-AllValid

step-AllValid_example : AllValid (step some_processes consoles (write_input_call first_id hi))
step-AllValid_example =
    step-AllValid some_processes consoles (write_input_call first_id hi) consoles-AllValid

interrupts_leak_example :
    (write_input some_processes busy_consoles first_id (replicate 3 ctrl_c)).1
    ≡ replicate 3 (hold 7) ++ signal (pos 7) 2 ∷ put 7 ∷ []
interrupts_leak_example =
    interrupts_leak some_processes busy_consoles first_id 0 6 7 2 busy_consoles-get_used refl refl
      (omega arith)

interrupt_unheld_example :
    (write_input some_processes consoles first_id (ctrl_c ∷ [])).1 ≡ signal (pos 9) 2 ∷ put 9 ∷ []
interrupt_unheld_example =
    interrupt_unheld some_processes consoles first_id 0 9 consoles-get_used refl refl (omega arith)

abbrev wide : Argument
wide = record {
  given = true;
  in_user = true;
  winsize = record { row = 50; col = 132; xpixel = 0; ypixel = 0 };
  int = pos 12;
}
