-- ===== src/Kutils/Utf8.antt =====
-- `text_encode_utf8` against a decoder.
use bored_os.Base.{
  ℕ, ◌+◌, ◌-◌, ◌*◌, ◌≡◌, refl, Option, none, some, List, [], ◌∷◌, leb, ltb, ◌&&◌, Bool,
  if◌then◌else◌, arith, Bool-cases, inl, inr,
}
use bored_os.Kutils.{text_encode_utf8}

-- A continuation byte.
abbrev pub is_tail : ℕ → Bool
is_tail b = leb 0x80 b && ltb b 0xC0

-- A code point of a length's least or more: a longer form than needed is no encoding.
abbrev from_least : ℕ → ℕ → Option ℕ
from_least least cp = if leb least cp then some cp else none

two : ℕ → ℕ → Option ℕ
two a b = if is_tail b then from_least 0x80 ((a - 0xC0) * 64 + (b - 0x80)) else none

three : ℕ → ℕ → ℕ → Option ℕ
three a b c =
    if is_tail b && is_tail c
    then from_least 0x800 ((a - 0xE0) * 4096 + (b - 0x80) * 64 + (c - 0x80))
    else none

four : ℕ → ℕ → ℕ → ℕ → Option ℕ
four a b c d =
    if is_tail b && (is_tail c && is_tail d)
    then from_least 0x10000 ((a - 0xF0) * 262144 + (b - 0x80) * 4096 + (c - 0x80) * 64 + (d - 0x80))
    else none

-- The code point that some bytes encode in UTF-8: the lead byte tells how many bytes
-- follow, and each code point has one encoding, the shortest.
pub decode : List ℕ → Option ℕ
unfolding two three four
decode [] = none
decode (a ∷ []) = if ltb a 0x80 then some a else none
decode (a ∷ b ∷ []) = if leb 0xC0 a && ltb a 0xE0 then two a b else none
decode (a ∷ b ∷ c ∷ []) = if leb 0xE0 a && ltb a 0xF0 then three a b c else none
decode (a ∷ b ∷ c ∷ d ∷ []) = if leb 0xF0 a && ltb a 0xF8 then four a b c d else none
decode (a ∷ b ∷ c ∷ d ∷ e ∷ s) = none

-- `text_encode_utf8` encodes every code point up to 0x10FFFF so that it decodes to itself, and any
-- other number as the replacement character.
pub decode-text_encode_utf8 :
    (cp : ℕ) → decode (text_encode_utf8 cp) ≡ (if leb cp 0x10FFFF then some cp else some 0xFFFD)
unfolding decode text_encode_utf8
decode-text_encode_utf8 cp = elim (Bool-cases (leb cp 0x7F)) [
  | inl a ↦ rw a (ground arith)
  | inr a ↦ elim (Bool-cases (leb cp 0x7FF)) [
    | inl b ↦ rw (a, b) (ground arith)
    | inr b ↦ elim (Bool-cases (leb cp 0xFFFF)) [
      | inl c ↦ rw (a, b, c) (ground arith)
      | inr c ↦ elim (Bool-cases (leb cp 0x10FFFF)) [
        | inl d ↦ rw (a, b, c, d) (ground arith)
        | inr d ↦ rw (a, b, c, d) refl
      ]
    ]
  ]
]
