-- ===== src/Lz4.antt =====
-- fs/lz4.c: decompression of LZ4 blocks and frames. `ip` is the list of the source's bytes from the
-- pointer `ip` on, and `out` the list of those that stand in the destination up to the pointer
-- `op`; `cap` is the destination's length. An `int` length inside a block adds at most 255 for a
-- byte, so that for a source of at most 2^23 bytes it stays below 2^31; it is counted without wrap,
-- and the theorems on all sources are about those.
pub mod Bounds
pub mod Frame
pub mod Format
pub mod Sequences
mod Tests
use bored_os.Base.{
  ℕ, zero, suc, ◌+◌, ◌-◌, ◌*◌, ◌/◌, ◌%◌, ◌^◌, Bool, true, false, Option, none, some, List, [], ◌∷◌,
  ◌++◌, length, get_elem?, take, drop, leb, ltb, ◌==◌, ◌&&◌, ◌||◌, if◌then◌else◌,
}
use bored_os.Base.Int.{ℤ, pos, negsuc}

-- How decompression ends: with the bytes in the destination, with a code below 0, with an access
-- outside the source or the destination, with a call of `lz4_decompress_block` on a block that
-- reaches beyond the source, or not within the rounds given.
pub data Outcome : Type 0 where
  done : List ℕ → Outcome
  failed : ℤ → Outcome
  fault beyond unfinished : Outcome

-- The loop that adds up the bytes of a long length.
unfoldable pub more_length : List ℕ → ℕ → Option (ℕ × List ℕ)
more_length [] len = none
more_length (s ∷ ip) len =
    let rest = more_length ip (len + s) in if s == 255 then rest else some (len + s, ip)

-- A length of four bits, and what follows it.
unfoldable pub length_field : ℕ → List ℕ → Option (ℕ × List ℕ)
unfolding more_length
length_field bits ip = if bits == 15 then more_length ip 15 else some (bits, ip)

-- The loop that copies a match of `n` bytes, each from `offset` bytes before; none is a read
-- outside what is written.
unfoldable pub copy_match : ℕ → ℕ → List ℕ → Option (List ℕ)
copy_match zero offset out = some out
copy_match (suc n) offset out = elim (get_elem? out (length out - offset)) [
  | none ↦ none
  | some v ↦ copy_match n offset (out ++ v ∷ [])
]

-- The parts of the loop in `lz4_decompress_block`, last part first; `next` goes round again.
-- "Copy match"
unfoldable pub copy_part : (List ℕ → List ℕ → Outcome) → ℕ → ℕ → ℕ → List ℕ → List ℕ → Outcome
unfolding copy_match
copy_part next cap offset n ip out =
    if ltb (length out) offset || ltb cap (length out + n)
    then failed (negsuc 5)
    else (elim (copy_match n offset out) [ none ↦ fault | some out' ↦ next ip out' ])

-- The length of the match.
unfoldable pub match_part : (List ℕ → List ℕ → Outcome) → ℕ → ℕ → ℕ → List ℕ → List ℕ → Outcome
unfolding copy_part length_field
match_part next cap bits offset ip out =
    if offset == 0 then failed (negsuc 3) else (elim (length_field bits ip) [
      | none ↦ failed (negsuc 4)
      | some (n, ip') ↦ copy_part next cap offset (n + 4) ip' out
    ])

-- "Get match offset"
unfoldable pub offset_part : (List ℕ → List ℕ → Outcome) → ℕ → ℕ → List ℕ → List ℕ → Outcome
unfolding match_part
offset_part next cap bits [] out = done out
offset_part next cap bits (a ∷ []) out = failed (negsuc 2)
offset_part next cap bits (a ∷ (b ∷ ip)) out = match_part next cap bits (a + 256 * b) ip out

-- "Copy literals"; the copy is a fault where it leaves the source or the destination.
unfoldable pub literal_part : (List ℕ → List ℕ → Outcome) → ℕ → ℕ → ℕ → List ℕ → List ℕ → Outcome
unfolding offset_part
literal_part next cap bits n ip out =
    if ltb 0 n && (ltb cap (length out + n) || ltb (length ip) n)
    then failed (negsuc 1)
    else if ltb (length ip) n || ltb cap (length out + n)
    then fault
    else offset_part next cap bits (drop n ip) (out ++ take n ip)

-- `lz4_decompress_block`, in a number of rounds.
unfoldable pub decompress_block : ℕ → ℕ → List ℕ → List ℕ → Outcome
unfolding literal_part length_field
decompress_block zero cap ip out = unfinished
decompress_block (suc rounds) cap [] out = done out
decompress_block (suc rounds) cap (token ∷ ip) out = elim (length_field (token / 16) ip) [
  | none ↦ failed (negsuc 0)
  | some (n, ip') ↦ literal_part (decompress_block rounds cap) cap (token % 16) n ip' out
]

-- `a + b > limit` for an `int` sum, which wraps to a number below 0.
abbrev pub exceeds : ℕ → ℕ → ℕ → Bool
exceeds a b limit = ltb (a + b) 2147483648 && ltb limit (a + b)

abbrev pub le32 : ℕ → ℕ → ℕ → ℕ → ℕ
le32 a b c d = a + 256 * b + 65536 * c + 16777216 * d

-- "Skip Block Checksum if present"
unfoldable pub checksum_part : (List ℕ → List ℕ → Outcome) → Bool → List ℕ → List ℕ → Outcome
checksum_part next checksum rest out =
    if checksum
    then (if ltb (length rest) 4 then failed (negsuc 17) else next (drop 4 rest) out)
    else next rest out

-- A block whose bytes are stored.
unfoldable pub stored_part : (List ℕ → List ℕ → Outcome) → Bool → ℕ → ℕ → List ℕ → List ℕ → Outcome
unfolding checksum_part
stored_part next checksum cap size rest out =
    if exceeds (length out) size cap
    then failed (negsuc 16)
    else if ltb (length rest) size || ltb cap (length out + size)
    then fault
    else checksum_part next checksum (drop size rest) (out ++ take size rest)

-- What follows a compressed block.
unfoldable pub after_block :
    (List ℕ → List ℕ → Outcome) → Bool → List ℕ → List ℕ → Outcome → Outcome
unfolding checksum_part
after_block next checksum rest out (done more) = checksum_part next checksum rest (out ++ more)
after_block next checksum rest out (failed code) = failed code
after_block next checksum rest out fault = fault
after_block next checksum rest out beyond = beyond
after_block next checksum rest out unfinished = unfinished

-- A block of `size` bytes at `rest`, which begins at `at` in a source of `src_len` bytes.
unfoldable pub block_part :
    (List ℕ → List ℕ → Outcome) → Bool → ℕ → ℕ → ℕ → Bool → ℕ → List ℕ → List ℕ → Outcome
unfolding stored_part after_block decompress_block
block_part next checksum src_len cap at stored size rest out =
    if exceeds at size src_len
    then failed (negsuc 15)
    else if stored
    then stored_part next checksum cap size rest out
    else if ltb (length rest) size
    then beyond
    else after_block next checksum (drop size rest) out
        (decompress_block (suc size) (cap - length out) (take size rest) [])

-- "Process blocks sequentially until EndMark", in a number of rounds.
unfoldable pub frame_blocks : ℕ → Bool → ℕ → ℕ → List ℕ → List ℕ → Outcome
unfolding block_part
frame_blocks zero checksum src_len cap rest out = unfinished
frame_blocks (suc rounds) checksum src_len cap (a ∷ (b ∷ (c ∷ (d ∷ rest)))) out =
    let size = le32 a b c d in
    let more =
      block_part (frame_blocks rounds checksum src_len cap) checksum src_len cap
        (src_len - length rest) (leb 2147483648 size) (size % 2147483648) rest out in
    if size == 0 then done out else more
frame_blocks (suc rounds) checksum src_len cap rest out = done out

abbrev pub bit : ℕ → ℕ → Bool
bit n k = (n / 2 ^ k) % 2 == 1

-- The fields that follow FLG and BD, with the number of bytes left.
unfoldable pub header_rest : ℕ → List ℕ → ℤ × List ℕ
header_rest flg rest =
    let size = if bit flg 3 then 8 else 0 in
    let id = if bit flg 0 then 4 else 0 in
    if ltb (length rest) size
    then (negsuc 12, [])
    else if ltb (length rest) (size + id)
    then (negsuc 13, [])
    else if ltb (length rest) (size + id + 1)
    then (negsuc 14, [])
    else (pos 0, drop (size + id + 1) rest)

unfoldable pub frame_body : ℕ → ℕ → ℕ → ℤ × List ℕ → Outcome
unfolding frame_blocks
frame_body flg src_len cap (negsuc code, rest) = failed (negsuc code)
frame_body flg src_len cap (pos n, rest) =
    frame_blocks (suc (length rest)) (bit flg 4) src_len cap rest []

-- `lz4_decompress_frame`; the result is the number of bytes in `done`. The content checksum at the
-- end is not looked at.
unfoldable pub decompress_frame : List ℕ → ℕ → Outcome
unfolding frame_body header_rest
decompress_frame (m0 ∷ (m1 ∷ (m2 ∷ (m3 ∷ (flg ∷ (bd ∷ (next ∷ rest))))))) cap =
    let src_len = length rest + 7 in
    if le32 m0 m1 m2 m3 == 0x184D2204
    then (if (flg / 64) == 1
        then frame_body flg src_len cap (header_rest flg (next ∷ rest))
        else failed (negsuc 11))
    else failed (negsuc 10)
decompress_frame src cap = failed (negsuc 9)
