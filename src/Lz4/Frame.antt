-- ===== src/Lz4/Frame.antt =====
-- Decompression of whole frames stays in bounds, unless a block's size makes a sum wrap.
use bored_os.Base.{
  ◌||◌, ℕ, zero, suc, ◌+◌, ◌-◌, ◌/◌, ◌%◌, ◌<◌, ◌≤◌, ◌≡◌, refl, Bool, true, false, List, [], ◌∷◌,
  ◌++◌, length, take, drop, leb, ltb, ◌==◌, if◌then◌else◌, arith, Bool-cases, inl, inr,
  length-append, length-take, length-drop, ==-true, ==-false,
}
use bored_os.Base.Int.{ℤ, pos, negsuc}
use bored_os.Lz4.{
  Outcome, done, failed, fault, beyond, unfinished, exceeds, le32, bit, checksum_part, stored_part,
  after_block, block_part, frame_blocks, header_rest, frame_body, decompress_frame,
}
use bored_os.Lz4.Bounds.{Bounded, block-Bounded}

-- The size in the first four bytes, less its top bit, makes no sum with `m` reach 2^31.
abbrev IsModestHead : ℕ → List ℕ → Type 0
IsModestHead m (a ∷ (b ∷ (c ∷ (d ∷ rest)))) = le32 a b c d % 2147483648 + m < 2147483648
IsModestHead m bytes = Unit {0}

-- So it is wherever four bytes are read in a row.
abbrev pub IsModest : ℕ → List ℕ → Type 0
IsModest m [] = Unit {0}
IsModest m (a ∷ rest) = IsModestHead m (a ∷ rest) × IsModest m rest

drop-IsModest : (m n : ℕ) (bytes : List ℕ) → IsModest m bytes → IsModest m (drop n bytes)
drop-IsModest m zero bytes h = h
drop-IsModest m (suc n) [] h = tt
drop-IsModest m (suc n) (a ∷ bytes) h = drop-IsModest m n bytes h.1

abbrev NextFrame : (List ℕ → List ℕ → Outcome) → ℕ → ℕ → ℕ → Type 0
NextFrame next m n cap =
    (rest out : List ℕ)
    → IsModest m rest
    → length rest ≤ n
    → length out ≤ cap
    → Bounded cap (next rest out)

checksum_part-Bounded :
    (next : List ℕ → List ℕ → Outcome) (checksum : Bool) (m n cap : ℕ) (rest out : List ℕ)
    → NextFrame next m n cap
    → IsModest m rest
    → length rest ≤ n
    → length out ≤ cap
    → Bounded cap (checksum_part next checksum rest out)
unfolding checksum_part
checksum_part-Bounded next false m n cap rest out b h k c = b rest out h k c
checksum_part-Bounded next true m n cap rest out b h k c = elim (Bool-cases (ltb (length rest) 4)) [
  | inl e ↦ rw e tt
  | inr e ↦
      rw e (b (drop 4 rest) out (drop-IsModest m 4 rest h) (omega (arith, length-drop 4 rest)) c)
]

stored_part-Bounded :
    (next : List ℕ → List ℕ → Outcome) (checksum : Bool) (m n cap size : ℕ) (rest out : List ℕ)
    → NextFrame next m n cap
    → IsModest m rest
    → length rest ≤ n
    → length out ≤ cap
    → cap ≤ m
    → size + m < 2147483648
    → size ≤ length rest
    → Bounded cap (stored_part next checksum cap size rest out)
unfolding stored_part
stored_part-Bounded next checksum m n cap size rest out b h k c l z inside =
    elim (Bool-cases (exceeds (length out) size cap)) [
      | inl e ↦ rw e tt
      | inr e ↦
          let fits : length out + size ≤ cap = ground arith in
          let f : (ltb (length rest) size || ltb cap (length out + size)) ≡ false = ground arith in
          rw (e, f)
            (checksum_part-Bounded next checksum m n cap (drop size rest) (out ++ take size rest) b
              (drop-IsModest m size rest h) (omega (arith, length-drop size rest))
              (omega (arith, length-append out (take size rest), length-take size rest)))
    ]

after_block-Bounded :
    (next : List ℕ → List ℕ → Outcome) (checksum : Bool) (m n cap : ℕ) (rest out : List ℕ)
    → (o : Outcome) → NextFrame next m n cap
    → IsModest m rest
    → length rest ≤ n
    → length out ≤ cap
    → Bounded (cap - length out) o
    → Bounded cap (after_block next checksum rest out o)
unfolding after_block
after_block-Bounded next checksum m n cap rest out (done more) b h k c d =
    checksum_part-Bounded next checksum m n cap rest (out ++ more) b h k
      (omega (arith, length-append out more))
after_block-Bounded next checksum m n cap rest out (failed code) b h k c d = tt
after_block-Bounded next checksum m n cap rest out fault b h k c d = d
after_block-Bounded next checksum m n cap rest out beyond b h k c d = d
after_block-Bounded next checksum m n cap rest out unfinished b h k c d = d

block_part-Bounded :
    (next : List ℕ → List ℕ → Outcome) (checksum : Bool) (m n src_len cap size : ℕ) (stored : Bool)
    (rest out : List ℕ)
    → NextFrame next m n cap
    → IsModest m rest
    → length rest ≤ n
    → length rest ≤ src_len
    → length out ≤ cap
    → cap ≤ m
    → src_len ≤ m
    → size + m < 2147483648
    → Bounded cap
        (block_part next checksum src_len cap (src_len - length rest) stored size rest out)
unfolding block_part
block_part-Bounded next checksum m n src_len cap size stored rest out b h k i c l j z =
    elim (Bool-cases (exceeds (src_len - length rest) size src_len)) [
      | inl e ↦ rw e tt
      | inr e ↦
          let f : ltb (length rest) size ≡ false = ground arith in
          elim (Bool-cases stored) [
            | inl q ↦
                rw (e, q)
                  (stored_part-Bounded next checksum m n cap size rest out b h k c l z
                    (ground arith))
            | inr q ↦
                rw (e, q, f)
                  (after_block-Bounded next checksum m n cap (drop size rest) out _ b
                    (drop-IsModest m size rest h) (omega (arith, length-drop size rest)) c
                    (block-Bounded (suc size) (cap - length out) (take size rest) []
                      (omega (arith, length-take size rest)) (omega arith)))
          ]
    ]

frame_blocks-Bounded :
    (rounds : ℕ) (checksum : Bool) (m src_len cap : ℕ) (rest out : List ℕ)
    → IsModest m rest
    → length rest < rounds
    → length rest ≤ src_len
    → length out ≤ cap
    → cap ≤ m
    → src_len ≤ m
    → Bounded cap (frame_blocks rounds checksum src_len cap rest out)
unfolding frame_blocks
frame_blocks-Bounded zero checksum m src_len cap rest out h k i c l j = absurd (omega arith)
frame_blocks-Bounded (suc rounds) checksum m src_len cap [] out h k i c l j = c
frame_blocks-Bounded (suc rounds) checksum m src_len cap (x ∷ []) out h k i c l j = c
frame_blocks-Bounded (suc rounds) checksum m src_len cap (x ∷ (y ∷ [])) out h k i c l j = c
frame_blocks-Bounded (suc rounds) checksum m src_len cap (x ∷ (y ∷ (z ∷ []))) out h k i c l j = c
frame_blocks-Bounded (suc rounds) checksum m src_len cap (x ∷ (y ∷ (z ∷ (w ∷ rest)))) out h k i c l
      j =
    elim (Bool-cases (le32 x y z w == 0)) [
      | inl e ↦ rw e c
      | inr e ↦ rw e (
          block_part-Bounded (frame_blocks rounds checksum src_len cap) checksum m (length rest)
            src_len cap (le32 x y z w % 2147483648) (leb 2147483648 (le32 x y z w)) rest out
            (λ r o p q s.
              frame_blocks-Bounded rounds checksum m src_len cap r o p (omega arith) (omega arith) s
                l j)
            h.1.1.1.1 (omega arith) (omega arith) c l j h.0)
    ]

frame_body-Bounded :
    (flg m src_len cap : ℕ) (header : ℤ × List ℕ)
    → IsModest m header.1
    → length header.1 ≤ src_len
    → cap ≤ m
    → src_len ≤ m
    → Bounded cap (frame_body flg src_len cap header)
unfolding frame_body
frame_body-Bounded flg m src_len cap (negsuc code, rest) h i l j = tt
frame_body-Bounded flg m src_len cap (pos n, rest) h i l j =
    frame_blocks-Bounded (suc (length rest)) (bit flg 4) m src_len cap rest [] h (omega arith) i
      (omega arith) l j

header_rest-lem :
    (flg m : ℕ) (rest : List ℕ)
    → IsModest m rest
    → IsModest m (header_rest flg rest).1 × (length (header_rest flg rest).1 ≤ length rest)
unfolding header_rest
header_rest-lem flg m rest h =
    let size : ℕ = if bit flg 3 then 8 else 0 in
    let id : ℕ = if bit flg 0 then 4 else 0 in
    elim (Bool-cases (ltb (length rest) size)) [
      | inl e ↦ rw e (tt, omega arith)
      | inr e ↦ elim (Bool-cases (ltb (length rest) (size + id))) [
        | inl f ↦ rw (e, f) (tt, omega arith)
        | inr f ↦ elim (Bool-cases (ltb (length rest) (size + id + 1))) [
          | inl g ↦ rw (e, f, g) (tt, omega arith)
          | inr g ↦
              rw (e, f, g)
                (
                  drop-IsModest m (size + id + 1) rest h,
                  omega (arith, length-drop (size + id + 1) rest),
                )
        ]
      ]
    ]

-- `lz4_decompress_frame` comes to an end on every source and destination of at most `m` bytes, for
-- an `m` of at most 2^23: with a code below 0, or with no more bytes than the destination holds,
-- and it never reads or writes outside the two nor hands on a block that reaches outside. It is
-- assumed that no four bytes in a row read as a block size (less its top bit) whose sum with `m`
-- reaches 2^31.
pub decompress_frame-Bounded :
    (m : ℕ) (src : List ℕ) (cap : ℕ)
    → length src ≤ m
    → cap ≤ m
    → m ≤ 8388608
    → IsModest m src
    → Bounded cap (decompress_frame src cap)
unfolding decompress_frame
decompress_frame-Bounded m [] cap k l small h = tt
decompress_frame-Bounded m (a ∷ []) cap k l small h = tt
decompress_frame-Bounded m (a ∷ (b ∷ [])) cap k l small h = tt
decompress_frame-Bounded m (a ∷ (b ∷ (c ∷ []))) cap k l small h = tt
decompress_frame-Bounded m (a ∷ (b ∷ (c ∷ (d ∷ [])))) cap k l small h = tt
decompress_frame-Bounded m (a ∷ (b ∷ (c ∷ (d ∷ (flg ∷ []))))) cap k l small h = tt
decompress_frame-Bounded m (a ∷ (b ∷ (c ∷ (d ∷ (flg ∷ (bd ∷ [])))))) cap k l small h = tt
decompress_frame-Bounded m (a ∷ (b ∷ (c ∷ (d ∷ (flg ∷ (bd ∷ (x ∷ rest))))))) cap k l small h =
    elim (Bool-cases (le32 a b c d == 0x184D2204)) [
      | inr e ↦ rw e tt
      | inl e ↦ elim (Bool-cases ((flg / 64) == 1)) [
        | inr f ↦ rw (e, f) tt
        | inl f ↦
            let (g, i) = header_rest-lem flg m (x ∷ rest) h.1.1.1.1.1.1 in
            rw (e, f)
              (frame_body-Bounded flg m (length rest + 7) cap (header_rest flg (x ∷ rest)) g
                (omega arith) l (omega arith))
      ]
    ]

-- A header with neither a content size nor a dictionary.
header_plain :
    (flg x : ℕ) (rest : List ℕ)
    → bit flg 3 ≡ false
    → bit flg 0 ≡ false
    → header_rest flg (x ∷ rest) ≡ (pos 0, rest)
unfolding header_rest
header_plain flg x rest e f = rw (e, f) (ground arith)

block_over :
    (next : List ℕ → List ℕ → Outcome) (checksum : Bool) (src_len cap at size : ℕ)
    (rest out : List ℕ)
    → 2147483648 ≤ at + size
    → length rest < size
    → block_part next checksum src_len cap at false size rest out ≡ beyond
unfolding block_part
block_over next checksum src_len cap at size rest out h k =
    let e : exceeds at size src_len ≡ false = ground arith in
    let f : ltb (length rest) size ≡ true = ground arith in rw (e, f) refl

frame_over :
    (rounds : ℕ) (checksum : Bool) (src_len cap a b c d : ℕ) (rest : List ℕ)
    → 2147483637 ≤ le32 a b c d
    → le32 a b c d < 2147483648
    → length rest < 2147483637
    → src_len ≡ length rest + 11
    → frame_blocks (suc rounds) checksum src_len cap (a ∷ (b ∷ (c ∷ (d ∷ rest)))) [] ≡ beyond
unfolding frame_blocks
frame_over rounds checksum src_len cap a b c d rest low high short e =
    let n = le32 a b c d in
    let nonzero : (n == 0) ≡ false = ==-false n 0 (omega arith) in
    let compressed : leb 2147483648 n ≡ false = ground arith in
    rw (nonzero, compressed)
      (block_over (frame_blocks rounds checksum src_len cap) checksum src_len cap
        (src_len - length rest) (n % 2147483648) rest [] (omega arith) (omega arith))

-- In a frame of version 1 with no content size and no dictionary, a first block that claims `n`
-- bytes, with 2^31 - 11 ≤ n < 2^31, passes the test against the end of the source, and
-- `lz4_decompress_block` is called on it although it reaches beyond the source: the sum in the test
-- wraps to a number below 0.
pub decompress_frame_overreads :
    (flg bd check a b c d : ℕ) (rest : List ℕ) (cap : ℕ)
    → flg / 64 ≡ 1
    → bit flg 3 ≡ false
    → bit flg 0 ≡ false
    → 2147483637 ≤ le32 a b c d
    → le32 a b c d < 2147483648
    → length rest < 2147483637
    → decompress_frame
        (0x04 ∷ (0x22 ∷ (0x4D ∷ (0x18 ∷ (flg ∷ (bd ∷ (check ∷ (a ∷ (b ∷ (c ∷ (d ∷ rest)))))))))))
        cap
      ≡ beyond
unfolding decompress_frame frame_body
decompress_frame_overreads flg bd check a b c d rest cap version no_size no_id low high short =
    rw
      (
        ==-true (flg / 64) 1 version,
        header_plain flg check (a ∷ (b ∷ (c ∷ (d ∷ rest)))) no_size no_id,
      )
      (frame_over (length (a ∷ (b ∷ (c ∷ (d ∷ rest))))) (bit flg 4) _ cap a b c d rest low high
        short (omega arith))
