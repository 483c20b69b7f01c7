-- ===== src/Kutils/Tests.antt =====
-- Runs of core/kutils.c on short strings.
use bored_os.Base.{ℕ, ◌≡◌, List, [], ◌∷◌, leb, if◌then◌else◌, some, arith}
use bored_os.Kutils.{IsText, strstr, text_encode_utf8}
use bored_os.Kutils.Search.{Found, strstr_lem}
use bored_os.Kutils.Utf8.{decode, decode-text_encode_utf8}

abbrev abab : List ℕ
abab = 97 ∷ 98 ∷ 97 ∷ 98 ∷ []

abbrev ba : List ℕ
ba = 98 ∷ 97 ∷ []

abab-IsText : IsText abab
abab-IsText = (omega arith, (omega arith, (omega arith, (omega arith, tt))))

ba-IsText : IsText ba
ba-IsText = (omega arith, (omega arith, tt))

strstr_lem_example : Found abab ba (strstr abab ba)
strstr_lem_example = strstr_lem abab ba

decode-text_encode_utf8_example :
    decode (text_encode_utf8 0x20AC) ≡ (if leb 0x20AC 0x10FFFF then some 0x20AC else some 0xFFFD)
decode-text_encode_utf8_example = decode-text_encode_utf8 0x20AC
