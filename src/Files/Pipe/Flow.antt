-- ===== src/Files/Pipe/Flow.antt =====
-- The ring of a pipe against a first-in first-out queue of at most 4096 bytes.
use bored_os.Base.{
  ℕ, zero, suc, ◌+◌, ◌-◌, ◌%◌, ◌<◌, ◌≤◌, ◌≡◌, refl, ap, ap₂, ◌∙◌, ◌≢◌, Bool, List, [], ◌∷◌, ◌++◌,
  length, arith, take, drop, min, append-nil, append-cons, take-nil, take-cons, length-append,
  ℕ_discrete,
}
use bored_os.Base.Arrays.{update, window, length-window, update_at, update_ne}
use bored_os.Files.Pipe.{Pipe, pipe_size, read_loop, write_loop, read, write}

pub record IsValid (p : Pipe) : Type 0 where
  pub read_in : p.read_pos < 4096
  pub write_at : p.write_pos ≡ (p.read_pos + p.count) % 4096
  pub fits : p.count ≤ 4096

-- The bytes waiting, oldest first.
pub contents : Pipe → List ℕ
contents p = window p.buffer pipe_size p.read_pos p.count

pub length-contents : (p : Pipe) → length (contents p) ≡ p.count
unfolding contents
length-contents p = length-window p.buffer pipe_size p.read_pos p.count

-- Writing just behind a window that leaves a cell free adds the value at its end.
window-put :
    (a : ℕ → ℕ) (v n r : ℕ)
    → r < 4096
    → n < 4096
    → window (update a ((r + n) % 4096) v) 4096 r (suc n) ≡ window a 4096 r n ++ v ∷ []
unfolding window
window-put a v zero r hr hn = ap (λ x. x ∷ []) (update_at a ((r + 0) % 4096) r v (omega arith))
window-put a v (suc n) r hr hn = ap₂ ◌∷◌ (update_ne a ((r + suc n) % 4096) r v (omega arith)) (
    ap (λ i. window (update a i v) 4096 ((r + 1) % 4096) (suc n))
      (let e : (r + suc n) % 4096 ≡ ((r + 1) % 4096 + n) % 4096 = omega arith in e)
    ∙ window-put a v n ((r + 1) % 4096) (omega arith) (omega arith))

-- One byte more, where there is room.
abbrev pushed : Pipe → ℕ → Pipe
pushed p v = record p {
  buffer = update p.buffer p.write_pos v;
  write_pos = (p.write_pos + 1) % pipe_size;
  count = p.count + 1;
}

pushed-IsValid : (p : Pipe) (v : ℕ) → IsValid p → p.count < 4096 → IsValid (pushed p v)
pushed-IsValid p v h k = let e = h.write_at in omega arith

contents-pushed :
    (p : Pipe) (v : ℕ) → IsValid p → p.count < 4096 → contents (pushed p v) ≡ contents p ++ v ∷ []
unfolding contents
contents-pushed p v h k =
    ap₂ (λ i n. window (update p.buffer i v) 4096 p.read_pos n) h.write_at (omega arith)
    ∙ window-put p.buffer v p.count p.read_pos h.read_in k

-- The loop of `fs_cmd_write` takes bytes from the front, as many as there is room for, and puts
-- them behind those that wait.
pub write_loop_lem :
    (p : Pipe) (bytes : List ℕ)
    → IsValid p
    → let (p', n) = write_loop p bytes in
      IsValid p'
      × (contents p' ≡ contents p ++ take (4096 - length (contents p)) bytes)
      × (n ≡ min (4096 - length (contents p)) (length bytes))
unfolding write_loop
write_loop_lem p [] h = (h, rw (take-nil, append-nil), omega arith)
write_loop_lem p (v ∷ bytes) h = elim (ℕ_discrete p.count 4096) [
  | yes e ↦ ground (arith, length-contents p, append-nil (contents p))
  | no ne ↦
      let k : p.count < 4096 = let f = h.fits in omega arith in
      ground (
        arith,
        length-contents p,
        contents-pushed p v h k,
        write_loop_lem (pushed p v) bytes (pushed-IsValid p v h k),
        length-append (contents p) (v ∷ []),
        take-cons (4096 - length (contents p)) v bytes,
        append-cons (contents p) v (take (4096 - (length (contents p) + 1)) bytes),
      )
]

abbrev popped : Pipe → Pipe
popped p = record p { read_pos = (p.read_pos + 1) % pipe_size; count = p.count - 1 }

popped-IsValid : (p : Pipe) → IsValid p → 0 < p.count → IsValid (popped p)
popped-IsValid p h k = let e = h.write_at in omega arith

contents-popped : (p : Pipe) → 0 < p.count → contents p ≡ p.buffer p.read_pos ∷ contents (popped p)
unfolding contents window
contents-popped p k =
    ap (window p.buffer 4096 p.read_pos) (let e : p.count ≡ suc (p.count - 1) = omega arith in e)

contents_empty : (p : Pipe) → p.count ≡ 0 → contents p ≡ []
unfolding contents window
contents_empty p e = rw e refl

-- The loop of `fs_cmd_read` takes the oldest bytes, as many as are asked for and there, and leaves
-- the others.
pub read_loop_lem :
    (p : Pipe) (len : ℕ)
    → IsValid p
    → let (p', out) = read_loop p len in
      IsValid p' × (out ≡ take len (contents p)) × (contents p' ≡ drop len (contents p))
unfolding read_loop
read_loop_lem p zero h = (h, refl, refl)
read_loop_lem p (suc len) h = elim (ℕ_discrete p.count 0) [
  | yes e ↦ rw (contents_empty p e) (ground (arith, contents_empty p e))
  | no ne ↦
      let k : 0 < p.count = omega arith in
      rw (contents-popped p k) (ground (arith, read_loop_lem (popped p) len (popped-IsValid p h k)))
]

drop-nil : (n : ℕ) → drop {A = ℕ} n [] ≡ []
drop-nil zero = refl
drop-nil (suc n) = refl

write-contents :
    (p : Pipe) (nonblock : Bool) (bytes : List ℕ)
    → IsValid p
    → p.readers ≢ 0
    → p.readers < 2147483648
    → IsValid (write p nonblock bytes).0
      × (contents (write p nonblock bytes).0
          ≡ contents p ++ take (4096 - length (contents p)) bytes)
unfolding write
write-contents p nonblock bytes h r s =
    ground (arith, write_loop_lem p bytes h, length-contents p, append-nil (contents p))

read-contents :
    (p : Pipe) (nonblock : Bool) (len : ℕ)
    → IsValid p
    → let (p', n, out, woken) = read p nonblock len in
      (out ≡ take len (contents p)) × (contents p' ≡ drop len (contents p))
unfolding read
read-contents p nonblock len h = elim (ℕ_discrete p.count 0) [
  | yes e ↦
      ground (arith, read_loop_lem p len h, contents_empty p e, take-nil {A = ℕ} len, drop-nil len)
  | no e ↦ ground (arith, read_loop_lem p len h)
]

-- What is written to a valid pipe with a reader is read from it in order: a read of `len` bytes
-- after a write, blocking or not, gives the first `len` of the bytes that waited followed by as
-- many of the new ones as the 4096 bytes had room for, and the rest stays in the pipe.
pub read-write :
    (p : Pipe) (nonblock_w nonblock_r : Bool) (bytes : List ℕ) (len : ℕ)
    → IsValid p
    → p.readers ≢ 0
    → p.readers < 2147483648
    → let waiting = contents p ++ take (4096 - length (contents p)) bytes in
      let (p', n, out, woken) = read (write p nonblock_w bytes).0 nonblock_r len in
      (out ≡ take len waiting) × (contents p' ≡ drop len waiting)
read-write p nonblock_w nonblock_r bytes len h r s =
    let (v, e) = write-contents p nonblock_w bytes h r s in
    let (out, left) = read-contents (write p nonblock_w bytes).0 nonblock_r len v in
    (out ∙ ap (take len) e, left ∙ ap (drop len) e)
