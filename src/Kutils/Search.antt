-- ===== src/Kutils/Search.antt =====
-- What the searches of core/kutils.c find.
use bored_os.Base.{
  ℕ, ◌≡◌, ◌≢◌, ◌↔◌, refl, sym, ap, ◌∙◌, true, false, Option, none, some, List, [], ◌∷◌, ◌++◌, arith,
  Bool-cases, inl, inr,
}
use mathlib.Core.Bool.{false≢true}
use bored_os.Kutils.{matches_here, find_here, strstr, str_starts_with}

matches→split : (h n : List ℕ) → matches_here h n ≡ true → (rest : List ℕ) × (h ≡ n ++ rest)
unfolding matches_here
matches→split h [] e = (h, refl)
matches→split [] (n ∷ ns) e = cc
matches→split (x ∷ h) (n ∷ ns) e =
    let (rest, p) = matches→split h ns (ground arith) in (rest, ground arith)

matches-append : (n rest : List ℕ) → matches_here (n ++ rest) n ≡ true
unfolding matches_here
matches-append [] rest = refl
matches-append (n ∷ ns) rest = ground (arith, matches-append ns rest)

-- What a search found: the needle stands where the result starts and at no earlier place; or it
-- stands nowhere.
abbrev pub Found : List ℕ → List ℕ → Option (List ℕ) → Type 0
Found h n none = (a b : List ℕ) → h ≢ a ++ (n ++ b)
Found h n (some r) =
    (skipped rest : List ℕ) × (h ≡ skipped ++ r)
    × (r ≡ n ++ rest)
    × ((a b : List ℕ) → h ≡ a ++ (n ++ b) → (more : List ℕ) × (a ≡ skipped ++ more))

no_match_here : (h n : List ℕ) → matches_here h n ≡ false → (b : List ℕ) → h ≢ n ++ b
no_match_here h n e b p = false≢true (sym e ∙ (ap (λ l. matches_here l n) p ∙ matches-append n b))

later_none :
    (x : ℕ) (h n : List ℕ)
    → matches_here (x ∷ h) n ≡ false
    → ((a b : List ℕ) → h ≢ a ++ (n ++ b))
    → (a b : List ℕ) → x ∷ h ≢ a ++ (n ++ b)
later_none x h n e f [] b p = no_match_here (x ∷ h) n e b p
later_none x h n e f (y ∷ a) b p = f a b (cc)

Found-later :
    (x : ℕ) (h n : List ℕ) (o : Option (List ℕ))
    → matches_here (x ∷ h) n ≡ false
    → Found h n o
    → Found (x ∷ h) n o
Found-later x h n none e f = later_none x h n e f
Found-later x h n (some r) e (skipped, rest, p, q, first) =
    (x ∷ skipped, rest, ap (λ l. x ∷ l) p, q, earliest)
  where
    earliest :
        (a b : List ℕ) → x ∷ h ≡ a ++ (n ++ b) → (more : List ℕ) × (a ≡ (x ∷ skipped) ++ more)
    earliest [] b s = absurd (no_match_here (x ∷ h) n e b s)
    earliest (y ∷ a) b s = let (more, t) = first a b (cc) in (more, cc)

find_here_lem : (h : List ℕ) (m : ℕ) (ns : List ℕ) → Found h (m ∷ ns) (find_here h (m ∷ ns))
unfolding find_here
find_here_lem [] m ns = λ a b p. nowhere a b p
  where
    nowhere : (a b : List ℕ) → [] ≢ a ++ ((m ∷ ns) ++ b)
    nowhere [] b p = cc
    nowhere (y ∷ a) b p = cc
find_here_lem (x ∷ h) m ns = elim (Bool-cases (matches_here (x ∷ h) (m ∷ ns))) [
  | inl hit ↦ rw hit (
      let (rest, p) = matches→split (x ∷ h) (m ∷ ns) hit in ([], rest, refl, p, λ a b s. (a, refl)))
  | inr miss ↦ rw miss (Found-later x h (m ∷ ns) _ miss (find_here_lem h m ns))
]

-- `k_strstr` returns the haystack from the first place on at which the needle stands, and NULL
-- exactly where it stands nowhere.
pub strstr_lem : (h n : List ℕ) → Found h n (strstr h n)
unfolding strstr
strstr_lem h [] = ([], h, refl, refl, λ a b s. (a, refl))
strstr_lem h (m ∷ ns) = find_here_lem h m ns

starts→split : (s p : List ℕ) → str_starts_with s p ≡ true → (rest : List ℕ) × (s ≡ p ++ rest)
unfolding str_starts_with
starts→split s [] e = (s, refl)
starts→split [] (p ∷ ps) e = cc
starts→split (x ∷ s) (p ∷ ps) e =
    let (rest, q) = starts→split s ps (ground arith) in (rest, ground arith)

starts-append : (p rest : List ℕ) → str_starts_with (p ++ rest) p ≡ true
unfolding str_starts_with
starts-append [] rest = refl
starts-append (p ∷ ps) rest = ground (arith, starts-append ps rest)

-- `str_starts_with` holds exactly if the string is the prefix followed by some rest.
str_starts_with_iff :
    (s p : List ℕ) → (str_starts_with s p ≡ true) ↔ ((rest : List ℕ) × (s ≡ p ++ rest))
str_starts_with_iff s p = (starts→split s p, λ (rest, e). rw e (starts-append p rest))
