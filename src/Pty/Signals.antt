-- ===== src/Pty/Signals.antt =====
-- Ctrl-C on a pseudo terminal: who is signalled, and which references are taken and given back.
use bored_os.Base.{
  ℕ, zero, suc, ◌<◌, ◌≡◌, refl, Option, some, [], ◌∷◌, ◌++◌, append-nil, append-cons, ◌∙◌, arith,
  replicate, ap,
}
use bored_os.Base.Int.{ℤ, pos, negsuc}
use bored_os.Pty.{
  Pairs, ProcessTable, Typing, hold, put, signal, type_byte, type_all, interrupt, deliver,
  interrupted, ctrl_c, get_used, write_input, opening,
}

module _ (t : ProcessTable) (id : ℤ) (n p : ℕ) (found : t.by_pid (suc n) ≡ some p)
    (big : 1 < p) where
  interrupt_foreground : (old : Option ℕ) → interrupt t id (pos (suc n)) old ≡ (some p, hold p ∷ [])
  unfolding interrupt
  interrupt_foreground old = ground arith

  abbrev logged : Typing → Typing
  logged s = record s { target = some p; log = s.log ++ hold p ∷ [] }

  round_foreground :
      (s : Typing)
      → type_byte t id (pos (suc n)) s ctrl_c
        ≡ record s { target = some p; log = s.log ++ hold p ∷ [] }
  unfolding type_byte interrupted
  round_foreground s = rw (interrupt_foreground s.target) refl

  rounds_foreground :
      (k : ℕ) (s : Typing)
      → s.target ≡ some p
      → type_all t id (pos (suc n)) s (replicate k ctrl_c)
        ≡ record s { target = some p; log = s.log ++ replicate k (hold p) }
  unfolding type_all
  rounds_foreground zero s e = ground (arith, append-nil s.log)
  rounds_foreground (suc k) s e =
      ap (λ s'. type_all t id (pos (suc n)) s' (replicate k ctrl_c)) (round_foreground s)
      ∙ (rounds_foreground k (logged s) refl
          ∙ ap (λ l. record s { target = some p; log = l })
              (append-cons s.log (hold p) (replicate k (hold p))))

  pub all_foreground :
      (k : ℕ) (s : Typing)
      → type_all t id (pos (suc n)) s (replicate (suc k) ctrl_c)
        ≡ record s { target = some p; log = s.log ++ replicate (suc k) (hold p) }
  unfolding type_all
  all_foreground k s =
      ap (λ s'. type_all t id (pos (suc n)) s' (replicate k ctrl_c)) (round_foreground s)
      ∙ (rounds_foreground k (logged s) refl
          ∙ ap (λ l. record s { target = some p; log = l })
              (append-cons s.log (hold p) (replicate k (hold p))))

-- On an open terminal with a live foreground process `p` above 1, `k + 1` times Ctrl-C in one write
-- sends it SIGINT once, but takes `k + 1` references to it and gives back one.
pub interrupts_leak :
    (t : ProcessTable) (ps : Pairs) (id : ℤ) (i n p k : ℕ)
    → get_used ps id ≡ some i
    → (ps i).fg_pid ≡ pos (suc n)
    → t.by_pid (suc n) ≡ some p
    → 1 < p
    → (write_input t ps id (replicate (suc k) ctrl_c)).1
      ≡ replicate (suc k) (hold p) ++ signal (pos p) 2 ∷ put p ∷ []
unfolding write_input deliver
interrupts_leak t ps id i n p k e fg found big =
    rw (e, write_input, fg, all_foreground t id n p found big k (opening (ps i))) refl

-- On an open terminal without a foreground process and with a process above 1 of its own, Ctrl-C
-- gives that process SIGINT and back a reference to it that it never took.
pub interrupt_unheld :
    (t : ProcessTable) (ps : Pairs) (id : ℤ) (i p : ℕ)
    → get_used ps id ≡ some i
    → (ps i).fg_pid ≡ negsuc 0
    → t.child_on_tty id ≡ some p
    → 1 < p
    → (write_input t ps id (ctrl_c ∷ [])).1 ≡ signal (pos p) 2 ∷ put p ∷ []
unfolding write_input deliver type_all type_byte interrupt
interrupt_unheld t ps id i p e fg found big = ground (arith)
