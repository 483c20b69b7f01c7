-- ===== src/Lz4/Sequences.antt =====
-- Decompression of a block of fs/lz4.c gives what its sequences describe.
use bored_os.Base.{
  ℕ, zero, suc, ◌+◌, ◌-◌, ◌*◌, ◌/◌, ◌%◌, ◌<◌, ◌≤◌, ◌≡◌, refl, sym, ap, ◌∙◌, false, some, List, [],
  ◌∷◌, ◌++◌, length, get_elem?, get_or, take, drop, ltb, ◌&&◌, ◌||◌, arith, length-append, ==-false,
  append-nil, dec_lt,
}
use bored_os.Lz4.{
  Outcome, done, more_length, length_field, copy_match, copy_part, match_part, offset_part,
  literal_part, decompress_block,
}
use bored_os.Lz4.Format.{
  Sequence, long_length, four_bits, length_bytes, encode_sequence, encode, extend, expand, IsSound,
}

more_length-long_length :
    (rounds n acc : ℕ) (rest : List ℕ)
    → n < 255 * (rounds + 1)
    → more_length (long_length rounds n ++ rest) acc ≡ some (acc + n, rest)
unfolding more_length long_length
more_length-long_length zero n acc rest h = ground arith
more_length-long_length (suc rounds) n acc rest h =
    ground (arith, more_length-long_length rounds (n - 255) (acc + 255) rest)

length_field-length_bytes :
    (n : ℕ) (rest : List ℕ) → length_field (four_bits n) (length_bytes n ++ rest) ≡ some (n, rest)
unfolding length_field length_bytes
length_field-length_bytes n rest = elim (dec_lt n 15) [
  | yes p ↦ ground arith
  | no p ↦ ground (arith, more_length-long_length n (n - 15) 15 rest)
]

four_bits-lt : (n : ℕ) → four_bits n < 16
four_bits-lt n = ground arith

-- The two halves of a token.
token_halves : (a b : ℕ) → a < 16 → b < 16 → ((16 * a + b) / 16 ≡ a) × ((16 * a + b) % 16 ≡ b)
token_halves a b h k = omega arith

length-extend : (n offset : ℕ) (out : List ℕ) → length (extend n offset out) ≡ length out + n
unfolding extend
length-extend zero offset out = omega arith
length-extend (suc n) offset out = omega (
  arith,
  length-extend n offset (out ++ get_or out (length out - offset) 0 ∷ []),
  length-append {0} out (get_or out (length out - offset) 0 ∷ []),
)

get_elem?-get_or : (xs : List ℕ) (i : ℕ) → i < length xs → get_elem? xs i ≡ some (get_or xs i 0)
get_elem?-get_or [] i h = absurd (omega arith)
get_elem?-get_or (x ∷ xs) zero h = refl
get_elem?-get_or (x ∷ xs) (suc i) h = get_elem?-get_or xs i (omega arith)

copy_match-extend :
    (n offset : ℕ) (out : List ℕ)
    → 0 < offset
    → offset ≤ length out
    → copy_match n offset out ≡ some (extend n offset out)
unfolding copy_match extend
copy_match-extend zero offset out h k = refl
copy_match-extend (suc n) offset out h k =
    let v = get_or out (length out - offset) 0 in
    let e = get_elem?-get_or out (length out - offset) (omega arith) in
    rw (e, copy_match)
      (copy_match-extend n offset (out ++ v ∷ []) h (omega (arith, length-append {0} out (v ∷ []))))

take-append : (xs ys : List ℕ) → take (length xs) (xs ++ ys) ≡ xs
take-append [] ys = refl
take-append (x ∷ xs) ys = ap (λ zs. x ∷ zs) (take-append xs ys)

drop-append : (xs ys : List ℕ) → drop (length xs) (xs ++ ys) ≡ ys
drop-append [] ys = refl
drop-append (x ∷ xs) ys = drop-append xs ys

literal_part_lem :
    (next : List ℕ → List ℕ → Outcome) (cap bits : ℕ) (xs rest out : List ℕ)
    → length out + length xs ≤ cap
    → literal_part next cap bits (length xs) (xs ++ rest) out
      ≡ offset_part next cap bits rest (out ++ xs)
unfolding literal_part
literal_part_lem next cap bits xs rest out h =
    let f : (ltb 0 (length xs)
          && (ltb cap (length out + length xs) || ltb (length (xs ++ rest)) (length xs)))
        ≡ false =
      ground (arith, length-append xs rest) in
    let g : (ltb (length (xs ++ rest)) (length xs) || ltb cap (length out + length xs)) ≡ false =
      ground (arith, length-append xs rest) in
    rw (f, g, take-append xs rest, drop-append xs rest) refl

copy_part_lem :
    (next : List ℕ → List ℕ → Outcome) (cap offset n : ℕ) (ip out : List ℕ)
    → 0 < offset
    → offset ≤ length out
    → length out + n ≤ cap
    → copy_part next cap offset n ip out ≡ next ip (extend n offset out)
unfolding copy_part
copy_part_lem next cap offset n ip out h k l =
    let f : (ltb (length out) offset || ltb cap (length out + n)) ≡ false = ground arith in
    rw (f, copy_match-extend n offset out h k) refl

match_part_lem :
    (next : List ℕ → List ℕ → Outcome) (cap bits offset n : ℕ) (ip rest out : List ℕ)
    → length_field bits ip ≡ some (n, rest)
    → 0 < offset
    → offset ≤ length out
    → length out + (n + 4) ≤ cap
    → match_part next cap bits offset ip out ≡ next rest (extend (n + 4) offset out)
unfolding match_part
match_part_lem next cap bits offset n ip rest out e h k l =
    rw (==-false offset 0 (omega arith), match_part, e)
      (copy_part_lem next cap offset (n + 4) rest out h k l)

-- One round, once the length of the literals is read.
round :
    (rounds cap token n : ℕ) (ip rest out : List ℕ)
    → length_field (token / 16) ip ≡ some (n, rest)
    → decompress_block (suc rounds) cap (token ∷ ip) out
      ≡ literal_part (decompress_block rounds cap) cap (token % 16) n rest out
unfolding decompress_block
round rounds cap token n ip rest out e = rw (e, decompress_block) refl

length-expand : (more : List Sequence) (out : List ℕ) → length out ≤ length (expand more out)
unfolding expand
length-expand [] out = omega arith
length-expand (s ∷ more) out = omega (
  arith,
  length-expand more (extend (s.count + 4) s.offset (out ++ s.literals)),
  length-extend (s.count + 4) s.offset (out ++ s.literals),
  length-append {0} out s.literals,
)

last_round :
    (rounds cap : ℕ) (last out : List ℕ)
    → length out + length last ≤ cap
    → decompress_block (suc rounds) cap (encode [] last) out ≡ done (out ++ last)
unfolding encode offset_part
last_round rounds cap last out h =
    let bits = four_bits (length last) in
    let half = token_halves bits 0 (four_bits-lt (length last)) (omega arith) in
    let upper : (16 * bits) / 16 ≡ bits = omega arith in
    round rounds cap (16 * bits) (length last) (length_bytes (length last) ++ last) last out
      (rw upper (length_field-length_bytes (length last) last))
    ∙ ap
        (λ ip.
          literal_part (decompress_block rounds cap) cap ((16 * bits) % 16) (length last) ip out)
        (sym (append-nil last))
    ∙ literal_part_lem (decompress_block rounds cap) cap ((16 * bits) % 16) last [] out h

sequence_round :
    (rounds cap : ℕ) (s : Sequence) (rest out : List ℕ)
    → 0 < s.offset
    → s.offset ≤ length (out ++ s.literals)
    → length (out ++ s.literals) + (s.count + 4) ≤ cap
    → decompress_block (suc rounds) cap (encode_sequence s rest) out
      ≡ decompress_block rounds cap rest (extend (s.count + 4) s.offset (out ++ s.literals))
unfolding encode_sequence offset_part
sequence_round rounds cap s rest out h k l =
    let n = length s.literals in
    let token = 16 * four_bits n + four_bits s.count in
    let half =
      token_halves (four_bits n) (four_bits s.count) (four_bits-lt n) (four_bits-lt s.count) in
    let next = decompress_block rounds cap in
    let tail = (s.offset % 256) ∷ ((s.offset / 256) ∷ (length_bytes s.count ++ rest)) in
    round rounds cap token n (length_bytes n ++ (s.literals ++ tail)) (s.literals ++ tail) out
      (rw half.0 (length_field-length_bytes n (s.literals ++ tail)))
    ∙ literal_part_lem next cap (token % 16) s.literals tail out
        (omega (arith, length-append {0} out s.literals))
    ∙ ap
        (λ o. match_part next cap (token % 16) o (length_bytes s.count ++ rest) (out ++ s.literals))
        (let e : s.offset % 256 + 256 * (s.offset / 256) ≡ s.offset = omega arith in e)
    ∙ match_part_lem next cap (token % 16) s.offset s.count (length_bytes s.count ++ rest) rest
        (out ++ s.literals) (rw half.1 (length_field-length_bytes s.count rest)) h k l

-- `lz4_decompress_block` of a block of sequences, each of whose offsets is from 1 to 65535 and
-- reaches no further back than there are bytes, with literals at its end, gives exactly the bytes
-- that they describe, if these fit into the destination and the rounds are more than the sequences.
pub decompress_block-encode :
    (rounds cap : ℕ) (more : List Sequence) (last out : List ℕ)
    → IsSound more out
    → length more < rounds
    → length (expand more out) + length last ≤ cap
    → decompress_block rounds cap (encode more last) out ≡ done (expand more out ++ last)
unfolding encode expand
decompress_block-encode zero cap more last out v h k = absurd (omega arith)
decompress_block-encode (suc rounds) cap [] last out v h k = last_round rounds cap last out k
decompress_block-encode (suc rounds) cap (s ∷ more) last out v h k =
    let out' = extend (s.count + 4) s.offset (out ++ s.literals) in
    sequence_round rounds cap s (encode more last) out v.0.0
      (let f = v.0.2 in omega (arith, length-append {0} out s.literals))
      (omega
        (arith, length-expand more out', length-extend (s.count + 4) s.offset (out ++ s.literals)))
    ∙ decompress_block-encode rounds cap more last out' v.1 (omega arith) k
