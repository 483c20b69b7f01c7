-- ===== src/Lz4/Bounds.antt =====
-- Decompression ends, and stays inside the source and the destination.
use bored_os.Base.{
  false, ℕ, zero, suc, ◌+◌, ◌-◌, ◌*◌, ◌/◌, ◌%◌, ◌<◌, ◌≤◌, ◌≡◌, refl, some, List, [], ◌∷◌, ◌++◌,
  length, get_elem?, take, drop, ltb, ◌==◌, ◌&&◌, ◌||◌, arith, Option-cases, Bool-cases, inl, inr,
  length-append, length-take, length-drop,
}
use bored_os.Lz4.{
  Outcome, done, failed, fault, beyond, unfinished, more_length, length_field, copy_match,
  copy_part, match_part, offset_part, literal_part, decompress_block,
}

-- It ended with at most `cap` bytes, or with a code, and no access was outside.
abbrev pub Bounded : ℕ → Outcome → Type 0
Bounded cap (done out) = length out ≤ cap
Bounded cap (failed code) = Unit {0}
Bounded cap fault = ⊥
Bounded cap beyond = ⊥
Bounded cap unfinished = ⊥

-- Going round with a shorter source keeps the bounds.
abbrev NextBounded : (List ℕ → List ℕ → Outcome) → ℕ → ℕ → Type 0
NextBounded next rounds cap =
    (ip out : List ℕ) → length ip < rounds → length out ≤ cap → Bounded cap (next ip out)

more_length-le :
    (ip : List ℕ) (len n : ℕ) (rest : List ℕ)
    → more_length ip len ≡ some (n, rest)
    → length rest < length ip
unfolding more_length
more_length-le [] len n rest e = absurd (cc)
more_length-le (s ∷ ip) len n rest e = ground (arith, more_length-le ip (len + s) n rest)

pub length_field-le :
    (bits : ℕ) (ip : List ℕ) (n : ℕ) (rest : List ℕ)
    → length_field bits ip ≡ some (n, rest)
    → length rest ≤ length ip
unfolding length_field
length_field-le bits ip n rest e = ground (arith, more_length-le ip 15 n rest)

get_elem?-lt : (xs : List ℕ) (i : ℕ) → i < length xs → (v : ℕ) × (get_elem? xs i ≡ some v)
get_elem?-lt [] i h = absurd (omega arith)
get_elem?-lt (x ∷ xs) zero h = (x, refl)
get_elem?-lt (x ∷ xs) (suc i) h = get_elem?-lt xs i (omega arith)

-- A match that reaches back by at most what is written is copied whole.
pub copy_match_total :
    (n offset : ℕ) (out : List ℕ)
    → 0 < offset
    → offset ≤ length out
    → (r : List ℕ) × (copy_match n offset out ≡ some r) × (length r ≡ length out + n)
unfolding copy_match
copy_match_total zero offset out h k = (out, refl, omega arith)
copy_match_total (suc n) offset out h k =
    let (v, e) = get_elem?-lt out (length out - offset) (omega arith) in
    let (r, q, l) =
      copy_match_total n offset (out ++ v ∷ []) h (omega (arith, length-append out (v ∷ []))) in
    (r, rw (e, copy_match) q, omega (arith, length-append out (v ∷ [])))

copy_part-Bounded :
    (next : List ℕ → List ℕ → Outcome) (rounds cap offset n : ℕ) (ip out : List ℕ)
    → NextBounded next rounds cap
    → 0 < offset
    → length ip < rounds
    → Bounded cap (copy_part next cap offset n ip out)
unfolding copy_part
copy_part-Bounded next rounds cap offset n ip out b h k =
    elim (Bool-cases (ltb (length out) offset || ltb cap (length out + n))) [
      | inl e ↦ rw e tt
      | inr e ↦
          let (r, q, l) = copy_match_total n offset out h (ground arith) in
          rw (e, q) (b ip r k (ground arith))
    ]

match_part-Bounded :
    (next : List ℕ → List ℕ → Outcome) (rounds cap bits offset : ℕ) (ip out : List ℕ)
    → NextBounded next rounds cap
    → length ip < rounds
    → Bounded cap (match_part next cap bits offset ip out)
unfolding match_part
match_part-Bounded next rounds cap bits offset ip out b k = elim (Bool-cases (offset == 0)) [
  | inl e ↦ rw e tt
  | inr e ↦ elim (Option-cases (length_field bits ip)) [
    | inl q ↦ rw (e, match_part, q) tt
    | inr ((n, rest), q) ↦
        rw (e, match_part, q)
          (copy_part-Bounded next rounds cap offset (n + 4) rest out b (ground arith)
            (omega (arith, length_field-le bits ip n rest q)))
  ]
]

offset_part-Bounded :
    (next : List ℕ → List ℕ → Outcome) (rounds cap bits : ℕ) (ip out : List ℕ)
    → NextBounded next rounds cap
    → length ip ≤ rounds
    → length out ≤ cap
    → Bounded cap (offset_part next cap bits ip out)
unfolding offset_part
offset_part-Bounded next rounds cap bits [] out b k c = c
offset_part-Bounded next rounds cap bits (x ∷ []) out b k c = tt
offset_part-Bounded next rounds cap bits (x ∷ (y ∷ ip)) out b k c =
    match_part-Bounded next rounds cap bits (x + 256 * y) ip out b (omega arith)

-- The test before the literals are copied is enough for the copy.
literals_fit :
    (cap n left written : ℕ)
    → written ≤ cap
    → (ltb 0 n && (ltb cap (written + n) || ltb left n)) ≡ false
    → (ltb left n || ltb cap (written + n)) ≡ false
literals_fit cap n left written c e = ground arith

literal_part-Bounded :
    (next : List ℕ → List ℕ → Outcome) (rounds cap bits n : ℕ) (ip out : List ℕ)
    → NextBounded next rounds cap
    → length ip ≤ rounds
    → length out ≤ cap
    → Bounded cap (literal_part next cap bits n ip out)
unfolding literal_part
literal_part-Bounded next rounds cap bits n ip out b k c =
    elim (Bool-cases (ltb 0 n && (ltb cap (length out + n) || ltb (length ip) n))) [
      | inl e ↦ rw e tt
      | inr e ↦
          rw (e, literals_fit cap n (length ip) (length out) c e)
            (offset_part-Bounded next rounds cap bits (drop n ip) (out ++ take n ip) b
              (omega (arith, length-drop n ip))
              (ground (arith, length-append out (take n ip), length-take n ip)))
    ]

pub block-Bounded :
    (rounds cap : ℕ) (ip out : List ℕ)
    → length ip < rounds
    → length out ≤ cap
    → Bounded cap (decompress_block rounds cap ip out)
unfolding decompress_block
block-Bounded zero cap ip out k c = absurd (omega arith)
block-Bounded (suc rounds) cap [] out k c = c
block-Bounded (suc rounds) cap (token ∷ ip) out k c =
    elim (Option-cases (length_field (token / 16) ip)) [
      | inl e ↦ rw (e, decompress_block) tt
      | inr ((n, rest), e) ↦
          rw (e, decompress_block)
            (literal_part-Bounded (decompress_block rounds cap) rounds cap (token % 16) n rest out
              (λ i o p q. block-Bounded rounds cap i o p q)
              (omega (arith, length_field-le (token / 16) ip n rest e)) c)
    ]

-- With more rounds than the block has bytes, at most `cap` bytes written before, and a block of at
-- most 2^23 bytes, `lz4_decompress_block` comes to an end: with a code below 0, or with at most
-- `cap` bytes written; it copies no literal from outside the source or to outside the destination,
-- and reads no byte of the destination that is not written.
pub decompress_block-Bounded :
    (rounds cap : ℕ) (ip out : List ℕ)
    → length ip < rounds
    → length ip ≤ 8388608
    → length out ≤ cap
    → Bounded cap (decompress_block rounds cap ip out)
decompress_block-Bounded rounds cap ip out k small c = block-Bounded rounds cap ip out k c
