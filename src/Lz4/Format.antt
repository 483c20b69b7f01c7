-- ===== src/Lz4/Format.antt =====
-- The format of an LZ4 block: its sequences, how they are written, and what they describe.
use bored_os.Base.{
  ℕ, zero, suc, ◌+◌, ◌-◌, ◌*◌, ◌/◌, ◌%◌, ◌<◌, ◌≤◌, List, [], ◌∷◌, ◌++◌, length, get_or, ltb,
  if◌then◌else◌,
}

-- Some literal bytes, and then `count + 4` bytes that stand `offset` bytes before.
pub record Sequence : Type 0 where
  pub literals : List ℕ
  pub offset : ℕ
  pub count : ℕ

-- The bytes that follow 15 for a length of `15 + n`.
unfoldable pub long_length : ℕ → ℕ → List ℕ
long_length zero n = n ∷ []
long_length (suc rounds) n =
    let rest = long_length rounds (n - 255) in if ltb n 255 then n ∷ [] else 255 ∷ rest

abbrev pub four_bits : ℕ → ℕ
four_bits n = if ltb n 15 then n else 15

unfoldable pub length_bytes : ℕ → List ℕ
unfolding long_length
length_bytes n = if ltb n 15 then [] else long_length n (n - 15)

-- A sequence as the format has it: the token, the lengths, the literals and the offset.
unfoldable pub encode_sequence : Sequence → List ℕ → List ℕ
unfolding length_bytes
encode_sequence s rest =
    (16 * four_bits (length s.literals) + four_bits s.count)
    ∷ (length_bytes (length s.literals)
        ++ (s.literals ++ (s.offset % 256) ∷ ((s.offset / 256) ∷ (length_bytes s.count ++ rest))))

-- A block: its sequences, and literals at its end.
unfoldable pub encode : List Sequence → List ℕ → List ℕ
unfolding encode_sequence length_bytes
encode [] last = (16 * four_bits (length last)) ∷ (length_bytes (length last) ++ last)
encode (s ∷ more) last = encode_sequence s (encode more last)

-- `n` bytes more, each the one that stands `offset` bytes before it.
unfoldable pub extend : ℕ → ℕ → List ℕ → List ℕ
extend zero offset out = out
extend (suc n) offset out = extend n offset (out ++ get_or out (length out - offset) 0 ∷ [])

-- What the sequences make of the bytes `out`.
unfoldable pub expand : List Sequence → List ℕ → List ℕ
unfolding extend
expand [] out = out
expand (s ∷ more) out = expand more (extend (s.count + 4) s.offset (out ++ s.literals))

-- Every offset is from 1 to 65535 and reaches no further back than there are bytes.
abbrev pub IsSound : List Sequence → List ℕ → Type 0
IsSound [] out = Unit {0}
IsSound (s ∷ more) out =
    ((0 < s.offset) × (s.offset < 65536) × (s.offset ≤ length out + length s.literals))
    × IsSound more (extend (s.count + 4) s.offset (out ++ s.literals))
