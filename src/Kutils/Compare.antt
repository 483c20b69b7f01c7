-- ===== src/Kutils/Compare.antt =====
-- What the string comparisons of core/kutils.c decide.
use bored_os.Base.{ℕ, zero, suc, ◌≡◌, ◌↔◌, refl, ap, true, List, [], ◌∷◌, arith, take, length}
use bored_os.Kutils.{IsText, strcmp, strncmp, is_zero, strncpy, text_of, strlen}

strcmp→eq : (s t : List ℕ) → IsText s → IsText t → is_zero (strcmp s t) ≡ true → s ≡ t
unfolding strcmp
strcmp→eq [] [] a b h = refl
strcmp→eq [] (y ∷ t) a b h = ground arith
strcmp→eq (x ∷ s) [] a b h = ground arith
strcmp→eq (x ∷ s) (y ∷ t) a b h = ground (arith, strcmp→eq s t a.1 b.1)

strcmp_refl : (s : List ℕ) → is_zero (strcmp s s) ≡ true
unfolding strcmp
strcmp_refl [] = refl
strcmp_refl (x ∷ s) = ground (arith, strcmp_refl s)

-- `strcmp` of two strings is 0 exactly if they are equal.
pub strcmp_iff : (s t : List ℕ) → IsText s → IsText t → (is_zero (strcmp s t) ≡ true) ↔ (s ≡ t)
strcmp_iff s t a b = (strcmp→eq s t a b, λ e. rw e (strcmp_refl t))

-- `strncmp` of two strings is 0 exactly if they agree on their first `n` bytes.
pub strncmp_iff :
    (s t : List ℕ) (n : ℕ)
    → IsText s
    → IsText t
    → (is_zero (strncmp s t n) ≡ true) ↔ (take n s ≡ take n t)
unfolding strncmp
strncmp_iff s t zero a b = ground arith
strncmp_iff [] [] (suc n) a b = ground arith
strncmp_iff [] (y ∷ t) (suc n) a b = ground arith
strncmp_iff (x ∷ s) [] (suc n) a b = ground arith
strncmp_iff (x ∷ s) (y ∷ t) (suc n) a b = ground (arith, strncmp_iff s t n a.1 b.1)

pub strlen-eq-length : (s : List ℕ) → strlen s ≡ length s
unfolding strlen
strlen-eq-length [] = refl
strlen-eq-length (c ∷ s) = ap suc (strlen-eq-length s)

-- `strncpy` of a string writes exactly `n` bytes; if the string is shorter than `n`, they hold the
-- whole string, and otherwise its first `n` bytes with no NUL.
pub strncpy_lem :
    (s : List ℕ) (n : ℕ)
    → IsText s
    → (length (strncpy s n) ≡ n) × (text_of (strncpy s n) ≡ take n s)
unfolding strncpy text_of
strncpy_lem [] zero a = (refl, refl)
strncpy_lem (c ∷ s) zero a = (refl, refl)
strncpy_lem [] (suc n) a = ground (arith, strncpy_lem [] n tt)
strncpy_lem (c ∷ s) (suc n) a = ground (arith, strncpy_lem s n a.1)
