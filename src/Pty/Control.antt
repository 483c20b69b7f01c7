-- ===== src/Pty/Control.antt =====
-- `pty_ioctl` of sys/pty.c: the window size, the foreground process and the number of a terminal.
use bored_os.Base.{
  ℕ, zero, suc, ◌≡◌, refl, ap, ◌∙◌, Bool, true, not, Option, none, some, List, [], ◌∷◌, arith, ◌==◌,
  ◌||◌, if◌then◌else◌, Option-cases, inl, inr,
}
use bored_os.Base.Arrays.{update}
use bored_os.Base.Int.{ℤ, pos, negsuc}
use bored_os.Pty.{
  Pair, Pairs, Winsize, ProcessTable, Event, signal, set_tty, get, get_used, minus_one, efault,
}

-- What the argument points to: whether it is NULL, whether user memory of the size is there, and
-- what the request reads from it.
pub record Argument : Type 0 where
  pub given : Bool
  pub in_user : Bool
  pub winsize : Winsize
  pub int : ℤ

-- What a request writes to where the argument points.
pub data Reply : Type 0 where
  silent : Reply
  winsize_reply : Winsize → Reply
  int_reply : ℤ → Reply

abbrev pub tiocsctty : ℕ
tiocsctty = 0x540E

abbrev pub tiocgpgrp : ℕ
tiocgpgrp = 0x540F

abbrev pub tiocspgrp : ℕ
tiocspgrp = 0x5410

abbrev pub tiocgwinsz : ℕ
tiocgwinsz = 0x5413

abbrev pub tiocswinsz : ℕ
tiocswinsz = 0x5414

-- SIGWINCH, where a process is in the foreground
window_changed : ℤ → List Event
window_changed (pos zero) = []
window_changed (pos (suc n)) = signal (pos (suc n)) 28 ∷ []
window_changed (negsuc n) = []

-- `TIOCSCTTY` for the current process
unfoldable pub take_terminal : Pairs → ℤ → ℕ → Option ℕ → Pairs × List Event × Reply × ℤ
take_terminal ps id i none = (ps, [], silent, pos 0)
take_terminal ps id i (some p) =
    (update ps i (record (ps i) { fg_pid = pos p }), set_tty p id ∷ [], silent, pos 0)

-- A request on an open terminal; the terminal's number is its index.
unfoldable pub request :
    ProcessTable → Pairs → ℤ → ℕ → ℕ → Argument → Pairs × List Event × Reply × ℤ
unfolding window_changed take_terminal
request t ps id i r a =
    let bad = not a.given || not a.in_user in
    if r == tiocsctty
    then take_terminal ps id i t.current
    else if r == tiocgwinsz
    then (if a.given then (ps, [], winsize_reply (ps i).ws, pos 0) else (ps, [], silent, minus_one))
    else if r == tiocswinsz
    then (if bad then (ps, [], silent, efault) else (
      update ps i (record (ps i) { ws = a.winsize }),
      window_changed (ps i).fg_pid,
      silent,
      pos 0,
    ))
    else if r == tiocgpgrp
    then (if bad then (ps, [], silent, efault) else (ps, [], int_reply (ps i).fg_pid, pos 0))
    else if r == tiocspgrp
    then (if bad
        then (ps, [], silent, efault)
        else (update ps i (record (ps i) { fg_pid = a.int }), [], silent, pos 0))
    else if r == 0x80045430 || r == 0x5430
    then (if bad then (ps, [], silent, efault) else (ps, [], int_reply (pos i), pos 0))
    else if r == 0x40045431 || r == 0x5431
    then (ps, [], silent, pos 0)
    else (ps, [], silent, minus_one)

-- `pty_ioctl`
unfoldable pub ioctl : ProcessTable → Pairs → ℤ → ℕ → Argument → Pairs × List Event × Reply × ℤ
unfolding request
ioctl t ps id r a = elim (get_used ps id) [
  | none ↦ (ps, [], silent, minus_one)
  | some i ↦ request t ps id i r a
]

-- A changed pair that is as much in use as before.
get_used-update :
    (ps : Pairs) (id : ℤ) (i : ℕ) (p : Pair)
    → get_used ps id ≡ some i
    → p.used ≡ (ps i).used
    → get_used (update ps i p) id ≡ some i
unfolding get_used
get_used-update ps id i p e u = elim (Option-cases (get id)) [
  | inl n ↦ absurd (ground arith)
  | inr (j, n) ↦ ground arith
]

ioctl_open :
    (t : ProcessTable) (ps : Pairs) (id : ℤ) (i r : ℕ) (a : Argument)
    → get_used ps id ≡ some i
    → ioctl t ps id r a ≡ request t ps id i r a
unfolding ioctl
ioctl_open t ps id i r a e = rw (ioctl, e) refl

-- On an open terminal, with an argument in user memory, the window size that TIOCSWINSZ sets is
-- the one that TIOCGWINSZ then reads, and the process that TIOCSPGRP puts in the foreground is the
-- one that TIOCGPGRP then reads.
pub ioctl-ioctl :
    (t : ProcessTable) (ps : Pairs) (id : ℤ) (i : ℕ) (a : Argument)
    → get_used ps id ≡ some i
    → a.given ≡ true
    → a.in_user ≡ true
    → ((ioctl t (ioctl t ps id tiocswinsz a).0 id tiocgwinsz a).2 ≡ winsize_reply a.winsize)
      × ((ioctl t (ioctl t ps id tiocspgrp a).0 id tiocgpgrp a).2 ≡ int_reply a.int)
unfolding request
ioctl-ioctl t ps id i a e g u =
    let resized = record (ps i) { ws = a.winsize } in
    let moved = record (ps i) { fg_pid = a.int } in
    let size : (ioctl t ps id tiocswinsz a).0 ≡ update ps i resized =
      ap (λ r. r.0) (ioctl_open t ps id i tiocswinsz a e) ∙ ground (arith) in
    let group : (ioctl t ps id tiocspgrp a).0 ≡ update ps i moved =
      ap (λ r. r.0) (ioctl_open t ps id i tiocspgrp a e) ∙ ground (arith) in
    (
      ap (λ q. (ioctl t q id tiocgwinsz a).2) size
          ∙ (ap (λ r. r.2)
                (ioctl_open t (update ps i resized) id i tiocgwinsz a
                  (get_used-update ps id i resized e refl))
              ∙ ground arith),
      ap (λ q. (ioctl t q id tiocgpgrp a).2) group
          ∙ (ap (λ r. r.2)
                (ioctl_open t (update ps i moved) id i tiocgpgrp a
                  (get_used-update ps id i moved e refl))
              ∙ ground arith),
    )
