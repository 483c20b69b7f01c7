-- ===== src/Kutils.antt =====
-- core/kutils.c: C strings and memory.
-- A string is the list of its bytes up to the terminating NUL, so its bytes are not 0.
pub mod Compare
pub mod Search
pub mod Utf8
mod Tests
use bored_os.Base.{
  ℕ, zero, suc, ◌+◌, ◌-◌, ◌*◌, ◌/◌, ◌%◌, ◌^◌, ◌≡◌, ◌≢◌, Bool, true, false, Option, none, some, List,
  [], ◌∷◌, ◌++◌, leb, ltb, ◌==◌, ◌&&◌, if◌then◌else◌,
}
use bored_os.Base.Int.{ℤ, pos, negsuc, sub_ℕ}

-- No byte is NUL.
abbrev pub IsText : List ℕ → Type 0
IsText [] = Unit {0}
IsText (c ∷ cs) = (c ≢ 0) × IsText cs

-- `memcmp` of the first `count` bytes; the lists are the memory from the two addresses on.
memcmp : ℕ → List ℕ → List ℕ → Option ℤ
memcmp zero s t = some (pos 0)
memcmp (suc n) (x ∷ s) (y ∷ t) =
    let rest = memcmp n s t in if x == y then rest else some (if ltb x y then negsuc 0 else pos 1)
memcmp (suc n) _ _ = none

-- `strlen`
unfoldable pub strlen : List ℕ → ℕ
strlen [] = 0
strlen (c ∷ cs) = suc (strlen cs)

-- `strcmp`
pub strcmp : List ℕ → List ℕ → ℤ
strcmp [] [] = pos 0
strcmp [] (y ∷ t) = sub_ℕ 0 y
strcmp (x ∷ s) [] = sub_ℕ x 0
strcmp (x ∷ s) (y ∷ t) = let rest = strcmp s t in if x == y then rest else sub_ℕ x y

-- `strncmp`
unfoldable pub strncmp : List ℕ → List ℕ → ℕ → ℤ
strncmp s t zero = pos 0
strncmp [] [] (suc n) = pos 0
strncmp [] (y ∷ t) (suc n) = sub_ℕ 0 y
strncmp (x ∷ s) [] (suc n) = sub_ℕ x 0
strncmp (x ∷ s) (y ∷ t) (suc n) = let rest = strncmp s t n in if x == y then rest else sub_ℕ x y

-- `... == 0`
abbrev pub is_zero : ℤ → Bool
is_zero (pos n) = n == 0
is_zero (negsuc n) = false

-- `strncpy`: the `n` bytes that are written.
pub strncpy : List ℕ → ℕ → List ℕ
strncpy s zero = []
strncpy [] (suc n) = 0 ∷ strncpy [] n
strncpy (c ∷ s) (suc n) = c ∷ strncpy s n

-- The string at the start of some memory; `strcpy` and `strcat` copy it with its NUL.
pub text_of : List ℕ → List ℕ
text_of [] = []
text_of (c ∷ cs) = let rest = text_of cs in if c == 0 then [] else c ∷ rest

-- `strchr`: the rest of the string from the byte on; the terminating NUL counts.
strchr : List ℕ → ℕ → Option (List ℕ)
strchr [] c = if c == 0 then some [] else none
strchr (x ∷ s) c = let rest = strchr s c in if x == c then some (x ∷ s) else rest

-- `str_starts_with`
pub str_starts_with : List ℕ → List ℕ → Bool
str_starts_with s [] = true
str_starts_with [] (p ∷ ps) = false
str_starts_with (x ∷ s) (p ∷ ps) = if x == p then str_starts_with s ps else false

-- The inner loop of `k_strstr`: whether the needle is used up.
pub matches_here : List ℕ → List ℕ → Bool
matches_here h [] = true
matches_here [] (n ∷ ns) = false
matches_here (x ∷ h) (n ∷ ns) = x == n && matches_here h ns

-- The outer loop of `k_strstr`, for a needle that is not empty.
pub find_here : List ℕ → List ℕ → Option (List ℕ)
find_here [] n = none
find_here (x ∷ h) n =
    let rest = find_here h n in if matches_here (x ∷ h) n then some (x ∷ h) else rest

-- `k_strstr`: the rest of the haystack from the first match on.
pub strstr : List ℕ → List ℕ → Option (List ℕ)
unfolding find_here matches_here
strstr h [] = some h
strstr h (n ∷ ns) = find_here h (n ∷ ns)

-- The loop of `atoi`. A value out of range of an int, which C leaves undefined, is kept as it is.
digits_value : ℕ → List ℕ → ℕ
digits_value res [] = res
digits_value res (c ∷ s) =
    let rest = digits_value (res * 10 + (c - b'0')) s in
    if leb b'0' c && leb c b'9' then rest else res

negated : ℕ → ℤ
negated zero = pos 0
negated (suc n) = negsuc n

-- `atoi`
atoi : List ℕ → ℤ
unfolding digits_value negated
atoi [] = pos 0
atoi (c ∷ s) = if c == b'-' then negated (digits_value 0 s) else pos (digits_value 0 (c ∷ s))

-- `text_encode_utf8`: the bytes that are written; `0x80 | x` with `x` below 64 is a sum.
pub text_encode_utf8 : ℕ → List ℕ
text_encode_utf8 cp =
    if leb cp 0x7F
    then cp ∷ []
    else if leb cp 0x7FF
    then (0xC0 + cp / 2 ^ 6) ∷ (0x80 + cp % 2 ^ 6) ∷ []
    else if leb cp 0xFFFF
    then (0xE0 + cp / 2 ^ 12) ∷ (0x80 + cp / 2 ^ 6 % 2 ^ 6) ∷ (0x80 + cp % 2 ^ 6) ∷ []
    else if leb cp 0x10FFFF
    then (0xF0 + cp / 2 ^ 18)
      ∷ (0x80 + cp / 2 ^ 12 % 2 ^ 6)
      ∷ (0x80 + cp / 2 ^ 6 % 2 ^ 6)
      ∷ (0x80 + cp % 2 ^ 6)
      ∷ []
    else 0xEF ∷ 0xBF ∷ 0xBD ∷ []
